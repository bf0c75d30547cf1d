-- ===== src/Trace/Ring/History.antt =====
-- The ring buffer against the history of all messages, newest first.
use strace_xv.Base.{
  ◌==◌, if◌then◌else◌, Bool-cases, ◌>>=◌, length, get_elem?, replicate, ℕ, zero, suc, ◌+◌, ◌-◌, ◌%◌,
  ◌^◌, ◌<◌, ◌≡◌, refl, ap, ◌∙◌, ◌≢◌, ◌⊎◌, inl, inr, false, Option, none, some, List, [], ◌∷◌, arith,
}
use strace_xv.Text.{Buf, text}
use strace_xv.Text.Concat.{Holds, text-length}
use strace_xv.Trace.{Tracer, ring_size, message_size}
use strace_xv.Trace.Message.{message, write_trace_lem}
use strace_xv.Trace.Ring.{store_trace, record_message}
use strace_xv.Trace.Ring.Store.{stored, Stored, store_trace_lem}

abbrev pub History : Type 0
History = List (List ℕ)

-- The newest message whose number, from 0, is `j` modulo the size of the ring.
abbrev pub newest : History → ℕ → Option (List ℕ)
newest [] j = none
newest (m ∷ h) j = if length h % ring_size == j then some m else newest h j

-- The slot behind the last one written.
abbrev pub next_count : ℕ → ℕ
next_count zero = 0
next_count (suc n) = n % ring_size + 1

pub record Represents (st : Tracer) (h : History) : Type 0 where
  pub count : st.callcount ≡ next_count (length h)
  pub slots : (j : ℕ) → j < ring_size → stored st j ≡ newest h j
  pub own : (j : ℕ) → j < ring_size → (st.sysbuf j ≡ none) ⊎ (st.sysbuf j ≡ some j)

-- The slot that the code computes from `callcount`.
next_slot : (n : ℕ) → (if next_count n % ring_size == 0 then 0 else next_count n) ≡ n % ring_size
next_slot zero = refl
next_slot (suc n) = ground arith

stored-elsewhere :
    {s : List ℕ} {count : ℕ} {st st' : Tracer}
    → Stored s count st st'
    → (j : ℕ) → j ≢ count
    → (st.sysbuf j ≡ none) ⊎ (st.sysbuf j ≡ some j)
    → stored st' j ≡ stored st j
stored-elsewhere k j ne (inl e) = rw (k.elsewhere j ne, e) refl
stored-elsewhere k j ne (inr e) = rw (k.elsewhere j ne, e, k.traces j ne) refl

-- Storing the next message.
Stored-Represents :
    {s : List ℕ} {st st' : Tracer} {h : History}
    → Represents st h
    → Stored s (length h % ring_size) (record st { callcount = length h % ring_size }) st'
    → Represents (record st' { callcount = length h % ring_size + 1 }) (s ∷ h)
Stored-Represents {s} {st} {st'} {h} r k = record {
  count = refl;
  slots = λ j lt. elim (Bool-cases (length h % ring_size == j)) [
    | inl e ↦ let p : length h % ring_size ≡ j = ground arith in rw (e, ← p) k.here
    | inr ne ↦ rw ne (stored-elsewhere k j (ground arith) (r.own j lt) ∙ r.slots j lt)
  ];
  own = λ j lt. elim (Bool-cases (length h % ring_size == j)) [
    | inl e ↦ let p : length h % ring_size ≡ j = ground arith in inr (rw (← p) k.points)
    | inr ne ↦ rw (k.elsewhere j (ground arith)) (r.own j lt)
  ];
}

abbrev pub SameFlags : Tracer → Tracer → Type 0
SameFlags st st' =
    (st'.flag_e ≡ st.flag_e)
    × (st'.flag_f ≡ st.flag_f)
    × (st'.flag_s ≡ st.flag_s)
    × (st'.syscall_flag ≡ st.syscall_flag)

-- What a recorded message needs: numbers that `itoa` prints, and names.
pub record IsPrintable (pid : ℕ) (pname sysname : Buf) (eax : ℕ) (name call : List ℕ) : Type 0 where
  pub pid_fits : (pid < 2 ^ 32) × (pid ≢ 2 ^ 31)
  pub eax_fits : (eax < 2 ^ 32) × (eax ≢ 2 ^ 31)
  pub is_name : text pname ≡ some name
  pub is_call : text sysname ≡ some call
  pub short : (length name < 400) × (length call < 400)

-- What recording the message `s` leaves.
abbrev Recorded : List ℕ → Tracer → History → Option Tracer → Type 0
Recorded s st h r = (st' : Tracer) × (r ≡ some st') × Represents st' (s ∷ h) × SameFlags st st'

record_message-finish :
    (c : ℕ) (s : List ℕ) (st : Tracer) (h : History) (r : Option Tracer)
    → c ≡ length h % ring_size
    → Represents st h
    → (st' : Tracer) × (r ≡ some st') × Stored s c (record st { callcount = c }) st'
    → Recorded s st h (r >>= λ st'. some (record st' { callcount = c + 1 }))
record_message-finish c s st h r e rep (st', e', k) =
    rw (e', e)
      (
        record st' { callcount = length h % ring_size + 1 },
        refl,
        Stored-Represents rep (rw e at k),
        k.flags,
      )

record_message-store :
    (c : ℕ) (s : List ℕ) (st : Tracer) (h : History) (w : Option Buf)
    → c ≡ length h % ring_size
    → Represents st h
    → Holds w message_size s
    → Recorded s st h (
        w >>= λ m. store_trace m c (record st { callcount = c }) >>= λ st'.
        some (record st' { callcount = c + 1 }))
record_message-store c s st h w e rep (m, e', l, t) = rw e' (
    record_message-finish c s st h _ e rep (
      store_trace_lem m s c (record st { callcount = c }) t (omega (arith, text-length m t))
        (omega arith)))

-- If the ring represents a history, recording a printable call succeeds, puts its message at the
-- head of the history, and leaves the options as they are.
pub record_message_lem :
    (temp : Buf) (pid : ℕ) (pname sysname : Buf) (eax : ℕ) (name call : List ℕ) (st : Tracer)
    (h : History)
    → length temp ≡ message_size
    → IsPrintable pid pname sysname eax name call
    → Represents st h
    → (st' : Tracer) × (record_message temp pid pname sysname eax st ≡ some st')
      × Represents st' (message pid name call eax ∷ h)
      × SameFlags st st'
unfolding record_message
record_message_lem temp pid pname sysname eax name call st h lt p r =
    record_message-store _ (message pid name call eax) st h _ (rw r.count (next_slot (length h))) r
      (write_trace_lem temp (replicate message_size 0) pid pname sysname eax name call lt refl refl
        p.pid_fits p.eax_fits p.is_name p.is_call p.short)

-- The ring holds the last messages: the message written `i` recordings before the newest one
-- stands in the slot of its number modulo the size of the ring, for every `i` below that size.
newest-recent :
    (h : History) (i : ℕ)
    → i < ring_size
    → i < length h
    → newest h ((length h - 1 - i) % ring_size) ≡ get_elem? h i
newest-recent [] i lt l = absurd (omega arith)
newest-recent (m ∷ h) zero lt l = ground arith
newest-recent (m ∷ h) (suc i) lt l =
    let e : (suc (length h) - 1 - suc i) % ring_size ≡ (length h - 1 - i) % ring_size =
      ap (λ (k : ℕ). k % ring_size) (omega arith) in
    let ne : (length h % ring_size == (length h - 1 - i) % ring_size) ≡ false = ground arith in
    rw (e, ne) (newest-recent h i (omega arith) (omega arith))

-- In a ring that represents a history, the message recorded `i` messages before the newest one is
-- stored in the slot of its number modulo the size of the ring, as long as `i` is below that size.
pub Represents-recent :
    {st : Tracer} {h : History}
    → Represents st h
    → (i : ℕ) → i < ring_size
    → i < length h
    → stored st ((length h - 1 - i) % ring_size) ≡ get_elem? h i
Represents-recent {st} {h} r i lt l =
    r.slots ((length h - 1 - i) % ring_size) (omega arith) ∙ newest-recent h i lt l
