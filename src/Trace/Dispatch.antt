-- ===== src/Trace/Dispatch.antt =====
-- `syscall` of kernel/syscall.c, which runs a call and traces it, and the calls of
-- kernel/sysproc.c that belong to the tracer. The other calls enter through a parameter.
pub mod Traced
use mathlib.Core.Option
use mathlib.Core.List
use strace_xv.Base.{
  ltb, leb, ◌==◌, if◌then◌else◌, ==_iff, lt→ltb, Bool-cases, Option-cases, ◌>>=◌, length, get_elem?,
  get_or, set, replicate, length-append, length-replicate, length-set, get_elem?-set_self,
  get_elem?-set_ne, length-reverse, occurs, occurs-append, get_elem?-lt, put, put_self, put_ne,
  ==_self, ==_ne, ℕ, zero, suc, ◌+◌, ◌-◌, ◌*◌, ◌/◌, ◌%◌, ◌^◌, ◌≤◌, ◌<◌, ◌≡◌, refl, sym, ap, ◌∙◌,
  fun_ext, subst, ◌≢◌, ◌↔◌, ◌⊎◌, inl, inr, Bool, true, false, ◌&&◌, ◌||◌, not, Option, none, some,
  List, [], ◌∷◌, ◌++◌, append-nil, append_assoc, reverse-append, arith,
}
use strace_xv.Text.{Buf}
use strace_xv.Trace.{Tracer, Call, syscalls, minus_one, ring_size}
use strace_xv.Trace.Ring.{set_call_flag, set_options, dump}
use strace_xv.Trace.Record.{Caller, Line, Stack, record_syscall}

-- `TRACE_ON` of user/strace.h and `SYS_exit`.
abbrev pub trace_on : ℕ
trace_on = 1

abbrev pub sys_exit : ℕ
sys_exit = 2

-- What `syscall` reads and writes: the running process, the tracer, and the console. `S` is the
-- rest of the kernel, and the console is the list of what was printed, newest first.
pub data Printed : Type 0 where
  trace_line : Line → Printed
  unknown_call : ℕ → Buf → Printed

pub record World (S : Type 0) : Type 0 where
  pub pid : ℕ
  pub name : Buf
  pub eax : ℕ
  pub traced : ℕ
  pub tracer : Tracer
  pub console : List Printed
  pub kernel : S

-- `target_proc->traced & TRACE_ON`.
abbrev pub is_traced : ℕ → Bool
is_traced traced = traced % 2 == trace_on

-- How a call ends: with a value, or not at all, as `exit`, which leaves the process dead.
pub data Ending : Type 0 where
  returned : ℕ → Ending
  never : Ending

module _ {S : Type 0} where
  -- The call of `record_syscall` at the running process.
  unfoldable pub record_here : Stack → ℕ → World S → Option (World S)
  record_here g id w =
      record_syscall g (record { pid = w.pid; name = w.name; eax = w.eax }) id w.tracer
      >>= λ (st, out).
          some (record w { tracer = st; console = List.map trace_line out ++ w.console })

  -- What follows a call that returns: `tf->eax` is set, and then the call is traced.
  unfoldable pub after_call : Stack → Bool → ℕ → Ending × World S → Option (World S)
  after_call g traced id (returned ret, w) =
      let w' : World S = record w { eax = ret } in if traced then record_here g id w' else some w'
  after_call g traced id (never, w) = some w

  -- The table lookup and the two branches of `syscall`.
  unfoldable pub dispatch :
      Stack
      → (Call → World S → Option (Ending × World S))
      → Bool
      → ℕ
      → Option Call
      → World S
      → Option (World S)
  dispatch g run traced id (some call) w = run call w >>= after_call g traced id
  dispatch g run traced id none w =
      some (record w { eax = minus_one; console = unknown_call w.pid w.name ∷ w.console })

  -- The part of `syscall` behind its first three lines: a traced `exit` is recorded first.
  unfoldable pub syscall_at :
      Stack → (Call → World S → Option (Ending × World S)) → Bool → ℕ → World S → Option (World S)
  syscall_at g run traced id w =
      (if (id == sys_exit) && traced then record_here g id w else some w)
      >>= dispatch g run traced id (syscalls id)

  -- `syscall`. `run` is the function that the table points to; `none` is a panic or a fault.
  unfoldable pub syscall :
      Stack → (Call → World S → Option (Ending × World S)) → World S → Option (World S)
  syscall g run w = syscall_at g run (is_traced w.traced) w.eax w

  -- `sys_strace`: the bit `TRACE_ON` of the argument decides whether it counts.
  unfoldable pub sys_strace : ℕ → World S → ℕ × World S
  sys_strace input w = (0, record w { traced = if is_traced input then input else 0 })

  unfoldable pub sys_set_call_flag : ℕ → World S → ℕ × World S
  sys_set_call_flag input w =
      let (r, st) = set_call_flag input w.tracer in (r, record w { tracer = st })

  unfoldable pub sys_set_options : ℕ → ℕ → ℕ → ℕ → World S → ℕ × World S
  sys_set_options e f s o w =
      let (r, st) = set_options e f s o w.tracer in (r, record w { tracer = st })

  unfoldable pub sys_get_n : World S → ℕ × World S
  sys_get_n w = (ring_size, w)

  unfoldable pub sys_get_callcount : World S → ℕ × World S
  sys_get_callcount w = (w.tracer.callcount, w)
