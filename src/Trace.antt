-- ===== src/Trace.antt =====
-- The tracer: the globals of kernel/strace.c, the messages and the ring buffer of kernel/syscall.c,
-- and the calls of kernel/proc.c and kernel/sysproc.c that set and read them.
pub mod Message
pub mod Ring
pub mod Record
pub mod Dispatch
mod Tests
use mathlib.Core.Option
use strace_xv.Base.{
  ltb, leb, ◌==◌, if◌then◌else◌, ==_iff, Bool-cases, Option-cases, ◌>>=◌, length, get_elem?, get_or,
  set, replicate, length-append, length-replicate, length-set, get_elem?-set_self, get_elem?-set_ne,
  length-reverse, ℕ, zero, suc, ◌+◌, ◌-◌, ◌*◌, ◌/◌, ◌%◌, ◌^◌, ◌≤◌, ◌<◌, ◌≡◌, refl, sym, ap, ◌∙◌,
  fun_ext, ◌≢◌, ◌↔◌, ◌⊎◌, inl, inr, Bool, true, false, ◌&&◌, ◌||◌, not, Option, none, some, List,
  [], ◌∷◌, ◌++◌, append-nil, append_assoc, reverse-append, arith,
}
use strace_xv.Text.{Buf, chars}

-- `N` of kernel/strace.h.
abbrev pub ring_size : ℕ
ring_size = 10

-- The size of `trace_1` to `trace_10`, and of `temp` and `temp_trace`.
abbrev pub message_size : ℕ
message_size = 1000

-- `-1` as an `uint`.
abbrev pub minus_one : ℕ
minus_one = 2 ^ 32 - 1

-- The globals of strace.c. An `int` is its bit pattern. `trace k` is the array `trace_(k+1)`, and
-- `sysbuf i` is the number of the array that `sysbuf[i]` points to, or `none` for a null pointer.
pub record Tracer : Type 0 where
  pub syscall_flag : ℕ
  pub flag_f : ℕ
  pub flag_e : ℕ
  pub flag_s : ℕ
  pub flag_o : ℕ
  pub callcount : ℕ
  pub trace : ℕ → Buf
  pub sysbuf : ℕ → Option ℕ

abbrev pub update {ℓ} : {A : Type ℓ} → (ℕ → A) → ℕ → A → ℕ → A
update f i v j = if i == j then v else f j

-- The calls of the table, in the order of kernel/syscall.h.
pub data Call : Type 0 where
  fork exit wait pipe read kill exec fstat chdir dup getpid sbrk sleep uptime open_ write mknod :
      Call
  unlink link mkdir close strace dump set_call_flag get_n set_options get_callcount : Call

abbrev calls : List Call
calls =
    fork ∷ exit ∷ wait ∷ pipe ∷ read ∷ kill ∷ exec ∷ fstat ∷ chdir ∷ dup ∷ getpid ∷ sbrk ∷ sleep
    ∷ uptime ∷ open_ ∷ write ∷ mknod ∷ unlink ∷ link ∷ mkdir ∷ close ∷ strace ∷ dump ∷ set_call_flag
    ∷ get_n ∷ set_options ∷ get_callcount ∷ []

-- `syscalls[]`: entry 0 is null, and there is none from `NELEM(syscalls)` on.
unfoldable pub syscalls : ℕ → Option Call
syscalls zero = none
syscalls (suc i) = get_elem? calls i

unfoldable pub call_name : Call → List ℕ
call_name fork = chars "fork"
call_name exit = chars "exit"
call_name wait = chars "wait"
call_name pipe = chars "pipe"
call_name read = chars "read"
call_name kill = chars "kill"
call_name exec = chars "exec"
call_name fstat = chars "fstat"
call_name chdir = chars "chdir"
call_name dup = chars "dup"
call_name getpid = chars "getpid"
call_name sbrk = chars "sbrk"
call_name sleep = chars "sleep"
call_name uptime = chars "uptime"
call_name open_ = chars "open"
call_name write = chars "write"
call_name mknod = chars "mknod"
call_name unlink = chars "unlink"
call_name link = chars "link"
call_name mkdir = chars "mkdir"
call_name close = chars "close"
call_name strace = chars "strace"
call_name dump = chars "dump"
call_name set_call_flag = chars "set_call_flag"
call_name get_n = chars "getN"
call_name set_options = chars "set_options"
call_name get_callcount = chars "get_callcount"

-- `system_call_map[]`: the names, as strings, under the numbers of the calls.
pub system_call_map : ℕ → Option Buf
unfolding syscalls call_name
system_call_map id = Option.map (λ c. call_name c ++ (0 ∷ [])) (syscalls id)
