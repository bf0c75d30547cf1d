-- ===== src/Trace/Record.antt =====
-- `record_syscall` of kernel/syscall.c: which calls are recorded.
pub mod Runs
use mathlib.Core.Option
use strace_xv.Base.{
  ltb, leb, ◌==◌, if◌then◌else◌, ==_iff, lt→ltb, Bool-cases, Option-cases, ◌>>=◌, length, get_elem?,
  get_or, set, replicate, length-append, length-replicate, length-set, get_elem?-set_self,
  get_elem?-set_ne, length-reverse, ℕ, zero, suc, ◌+◌, ◌-◌, ◌*◌, ◌/◌, ◌%◌, ◌^◌, ◌≤◌, ◌<◌, ◌≡◌, refl,
  sym, ap, ◌∙◌, fun_ext, ◌≢◌, ◌↔◌, ◌⊎◌, inl, inr, Bool, true, false, ◌&&◌, ◌||◌, not, Option, none,
  some, List, [], ◌∷◌, ◌++◌, append-nil, append_assoc, reverse-append, arith,
}
use strace_xv.Text.{Buf, text}
use strace_xv.Trace.{Tracer, Call, syscalls, call_name, system_call_map, minus_one}
use strace_xv.Trace.Ring.{copy_string, record_message}

-- What `record_syscall` reads of the process: its number, its `name`, and `tf->eax`.
pub record Caller : Type 0 where
  pub pid : ℕ
  pub name : Buf
  pub eax : ℕ

-- The arguments of one `cprintf` of a trace line.
pub record Line : Type 0 where
  pub pid : ℕ
  pub name : Buf
  pub sysname : Buf
  pub eax : ℕ

-- What the stack holds before the call, where the local arrays lie: `tproc_name`, and `temp` of
-- `write_trace`.
pub record Stack : Type 0 where
  pub tproc_name : Buf
  pub temp : Buf

abbrev pub is_set : ℕ → Bool
is_set flag = not (flag == 0)

-- The `cprintf` and the block behind it.
unfoldable pub trace_call : Stack → Caller → Buf → ℕ → Tracer → Option (Tracer × List Line)
trace_call g p tproc_name id st = do
  sysname ← system_call_map id
  st' ← record_message g.temp p.pid tproc_name sysname p.eax st
  some (st', record { pid = p.pid; name = tproc_name; sysname = sysname; eax = p.eax } ∷ [])

unfoldable pub record_syscall : Stack → Caller → ℕ → Tracer → Option (Tracer × List Line)
record_syscall g p id st = copy_string g.tproc_name p.name >>= λ tproc_name.
    let done : Option (Tracer × List Line) = trace_call g p tproc_name id st in
    let skip : Option (Tracer × List Line) = some (st, []) in
    let if_called = if st.syscall_flag == id then done else skip in
    if is_set st.flag_f || is_set st.flag_e || is_set st.flag_s
    then if is_set st.flag_s
      then if not (p.eax == minus_one) then if is_set st.flag_e then if_called else done else skip
      else if is_set st.flag_f
      then if p.eax == minus_one then if is_set st.flag_e then if_called else done else skip
      else if is_set st.flag_e && (st.flag_f == 0)
      then if_called
      else skip
    else done

-- The meaning of the options: `-s` keeps the calls that succeed, `-f` without `-s` those that
-- fail, and `-e` those of one number; no option keeps all.
unfoldable pub selects : Tracer → ℕ → ℕ → Bool
selects st eax id =
    (if is_set st.flag_s
      then not (eax == minus_one)
      else if is_set st.flag_f
      then eax == minus_one
      else true)
    && (if is_set st.flag_e then st.syscall_flag == id else true)

-- `record_syscall` copies the name of the process, and then traces the call if the options select
-- it and does nothing at all otherwise.
pub record_syscall-selects :
    (g : Stack) (p : Caller) (id : ℕ) (st : Tracer)
    → record_syscall g p id st ≡ (
        copy_string g.tproc_name p.name >>= λ tproc_name.
        if selects st p.eax id then trace_call g p tproc_name id st else some (st, []))
unfolding record_syscall selects
record_syscall-selects g p id st = ground arith
