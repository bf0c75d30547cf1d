-- ===== src/Trace/Ring/Store.antt =====
-- What a slot holds after a message is stored, and what `dump` reads.
use strace_xv.Base.{
  lt→ltb, Option-cases, ◌>>=◌, length, replicate, length-replicate, ℕ, zero, suc, ◌<◌, ◌≡◌, refl,
  ap, ◌≢◌, inl, inr, Option, none, some, List, [], ◌∷◌, arith,
}
use strace_xv.Text.{Buf, text}
use strace_xv.Text.Concat.{Holds, text-cases}
use strace_xv.Trace.{Tracer, ring_size, message_size, update}
use strace_xv.Trace.Ring.{copy_chars, store_trace, copy_string, dump}

copy_chars_lem :
    (n : ℕ) (m : Buf) {s : List ℕ}
    → text m ≡ some s
    → length s < n
    → Holds (copy_chars (replicate n 0) m) n s
unfolding copy_chars
copy_chars_lem n [] h l = cc
copy_chars_lem zero (c ∷ m) h l = absurd (omega arith)
copy_chars_lem (suc n) (c ∷ m) {s} h l = elim (text-cases c m h) [
  | inl (z, e) ↦ rw (z, e) (replicate (suc n) 0, refl, length-replicate (suc n) 0, refl)
  | inr (t, nz, h', e) ↦
      let (d, e', l', t') = copy_chars_lem n m h' (omega (arith, ap {A = List ℕ} length e)) in
      rw (nz, e) (c ∷ d, rw e' refl, ap suc l', rw (nz, t') refl)
]

pub copy_string_lem :
    (d m : Buf) {s : List ℕ}
    → text m ≡ some s
    → length s < length d
    → Holds (copy_string d m) (length d) s
unfolding copy_string
copy_string_lem [] m h l = absurd (omega arith)
copy_string_lem (x ∷ d) [] h l = cc
copy_string_lem (x ∷ d) (c ∷ m) h l = elim (text-cases c m h) [
  | inl (z, e) ↦ rw (z, e) (0 ∷ d, refl, refl, refl)
  | inr (t, nz, h', e) ↦
      let (d', e', l', t') = copy_string_lem d m h' (omega (arith, ap {A = List ℕ} length e)) in
      rw (nz, e) (c ∷ d', rw e' refl, ap suc l', rw (nz, t') refl)
]

-- The message that `dump` finds under an index; `none` where it faults.
abbrev pub stored : Tracer → ℕ → Option (List ℕ)
stored st i = st.sysbuf i >>= λ k. text (st.trace k)

-- `dump` of a slot that holds a message writes that message, with its terminator, to a buffer
-- that is large enough, and nothing outside the buffer.
pub dump_lem :
    (input : Buf) (index : ℕ) (st : Tracer) {s : List ℕ}
    → index < ring_size
    → stored st index ≡ some s
    → length s < length input
    → Holds (dump input index st) (length input) s
unfolding dump
dump_lem input index st h e l = elim (Option-cases (st.sysbuf index)) [
  | inl null ↦ ground arith
  | inr (k, at) ↦
      rw (lt→ltb index ring_size h, at) (copy_string_lem input (st.trace k) (rw at at e) l)
]

-- A slot that nothing was stored in holds a null pointer, which `dump` follows: a fault.
pub dump-null :
    (input : Buf) (index : ℕ) (st : Tracer) → st.sysbuf index ≡ none → dump input index st ≡ none
unfolding dump
dump-null input index st e = ground arith

-- What storing at `count` changes.
pub record Stored (s : List ℕ) (count : ℕ) (st st' : Tracer) : Type 0 where
  pub here : stored st' count ≡ some s
  pub elsewhere : (j : ℕ) → j ≢ count → st'.sysbuf j ≡ st.sysbuf j
  pub traces : (j : ℕ) → j ≢ count → st'.trace j ≡ st.trace j
  pub points : st'.sysbuf count ≡ some count
  pub size : length (st'.trace count) ≡ message_size
  pub flags :
      (st'.flag_e ≡ st.flag_e)
      × (st'.flag_f ≡ st.flag_f)
      × (st'.flag_s ≡ st.flag_s)
      × (st'.syscall_flag ≡ st.syscall_flag)

pub store_trace_lem :
    (m : Buf) (s : List ℕ) (count : ℕ) (st : Tracer)
    → text m ≡ some s
    → length s < message_size
    → count < ring_size
    → (st' : Tracer) × (store_trace m count st ≡ some st') × Stored s count st st'
unfolding store_trace
store_trace_lem m s count st h l c =
    let (d, e, n, t) = copy_chars_lem message_size m h l in
    (
      record st { trace = update st.trace count d; sysbuf = update st.sysbuf count (some count) },
      rw (lt→ltb count ring_size c, e) refl,
      record {
        here = ground arith;
        elsewhere = λ j ne. ground arith;
        traces = λ j ne. ground arith;
        points = ground arith;
        size = ground arith;
        flags = (refl, refl, refl, refl);
      },
    )
