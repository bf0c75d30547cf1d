-- ===== src/Trace/Ring.antt =====
-- The ring buffer of the last messages: `store_trace` and the recording block of kernel/syscall.c,
-- `dump`, `set_call_flag` and `set_options` of kernel/proc.c.
pub mod Store
pub mod History
use mathlib.Core.Option
use strace_xv.Base.{
  ltb, leb, ◌==◌, if◌then◌else◌, ==_iff, lt→ltb, Bool-cases, Option-cases, ◌>>=◌, length, get_elem?,
  get_or, set, replicate, length-append, length-replicate, length-set, get_elem?-set_self,
  get_elem?-set_ne, length-reverse, ℕ, zero, suc, ◌+◌, ◌-◌, ◌*◌, ◌/◌, ◌%◌, ◌^◌, ◌≤◌, ◌<◌, ◌≡◌, refl,
  sym, ap, ◌∙◌, fun_ext, ◌≢◌, ◌↔◌, ◌⊎◌, inl, inr, Bool, true, false, ◌&&◌, ◌||◌, not, Option, none,
  some, List, [], ◌∷◌, ◌++◌, append-nil, append_assoc, reverse-append, arith,
}
use strace_xv.Text.{Buf}
use strace_xv.Trace.{Tracer, ring_size, message_size, update}
use strace_xv.Trace.Message.{write_trace}

-- A loop that copies the characters before the NUL and leaves the rest of the destination.
pub copy_chars : Buf → Buf → Option Buf
copy_chars d [] = none
copy_chars [] (c ∷ m) = if c == 0 then some [] else none
copy_chars (x ∷ d) (c ∷ m) =
    if c == 0 then some (x ∷ d) else Option.map (λ r. c ∷ r) (copy_chars d m)

-- `store_trace`: `memset` of the array and the copy. The ten cases of the `switch` differ only in
-- the array; any other count is ignored.
unfoldable pub store_trace : Buf → ℕ → Tracer → Option Tracer
store_trace trace_message count st =
    if ltb count ring_size
    then Option.map
        (λ d. record st {
          trace = update st.trace count d;
          sysbuf = update st.sysbuf count (some count);
        })
        (copy_chars (replicate message_size 0) trace_message)
    else some st

-- The block that `record_syscall` runs for a call that it selects, behind the `cprintf`; `temp` is
-- the local array of `write_trace`.
unfoldable pub record_message : Buf → ℕ → Buf → Buf → ℕ → Tracer → Option Tracer
record_message temp pid pname sysname eax st =
    let count = if st.callcount % ring_size == 0 then 0 else st.callcount in
    write_trace temp (replicate message_size 0) pid pname sysname eax >>= λ m.
    store_trace m count (record st { callcount = count }) >>= λ st'.
    some (record st' { callcount = count + 1 })

-- `dump`: copy the message that `sysbuf[index]` points to, with its terminator. `none` is a fault:
-- a null pointer, an index outside `sysbuf`, or too small an `input`.
pub copy_string : Buf → Buf → Option Buf
copy_string [] m = none
copy_string (x ∷ d) [] = none
copy_string (x ∷ d) (c ∷ m) =
    if c == 0 then some (0 ∷ d) else Option.map (λ r. c ∷ r) (copy_string d m)

unfoldable pub dump : Buf → ℕ → Tracer → Option Buf
dump input index st =
    if ltb index ring_size then (st.sysbuf index >>= λ k. copy_string input (st.trace k)) else none

unfoldable pub set_call_flag : ℕ → Tracer → ℕ × Tracer
set_call_flag input st = (input, record st { syscall_flag = input })

unfoldable pub set_options : ℕ → ℕ → ℕ → ℕ → Tracer → ℕ × Tracer
set_options input_e input_f input_s input_o st =
    (0, record st { flag_e = input_e; flag_f = input_f; flag_s = input_s; flag_o = input_o })
