-- ===== src/Console/Bounds.antt =====
-- The indices of the input stay in their order and within one buffer of each other.
use strace_xv.Base.{
  ltb, ◌==◌, if◌then◌else◌, Bool-cases, length, get_or, ℕ, zero, suc, ◌+◌, ◌-◌, ◌%◌, ◌^◌, ◌≤◌, ◌<◌,
  ◌≡◌, refl, ◌≢◌, ◌⊎◌, inl, inr, Bool, true, false, ◌&&◌, ◌||◌, not, some, List, [], ◌∷◌, arith,
}
use strace_xv.Console.{
  input_buf, uint, down, newline, return, ctrl_d, Input, erase, kill_line, put, add_char,
  consoleintr, Read, waits, killed_read, got, after, consoleread,
}

-- `ready` characters are committed for readers, and `editable` ones can still be erased.
pub record Holds (ready editable : ℕ) (s : Input) : Type 0 where
  pub word : s.r < 2 ^ 32
  pub written : s.w ≡ uint (s.r + ready)
  pub edited : s.e ≡ uint (s.r + ready + editable)
  pub bounded : ready + editable ≤ input_buf

abbrev pub IsInput : Input → Type 0
IsInput s = (ready : ℕ) × (editable : ℕ) × Holds ready editable s

Holds-erase : {a b : ℕ} {s : Input} → Holds a (suc b) s → Holds a b (erase s)
Holds-erase {a} {b} {s} h = record {
  word = h.word;
  written = h.written;
  edited = omega (arith, h.edited);
  bounded = omega (arith, h.bounded);
}

Holds-put :
    {a b : ℕ} {s : Input} (c : ℕ) → Holds a b s → a + b < input_buf → Holds a (suc b) (put c s)
Holds-put {a} {b} {s} c h l = record {
  word = h.word;
  written = h.written;
  edited = omega (arith, h.edited);
  bounded = omega arith;
}

Holds-commit : {a b : ℕ} {s : Input} → Holds a b s → Holds (a + b) 0 (record s { w = s.e })
Holds-commit {a} {b} {s} h = record {
  word = h.word;
  written = omega (arith, h.edited);
  edited = omega (arith, h.edited);
  bounded = omega (arith, h.bounded);
}

Holds-read : {a b : ℕ} {s : Input} → Holds (suc a) b s → Holds a b (record s { r = uint (s.r + 1) })
Holds-read {a} {b} {s} h = record {
  word = omega arith;
  written = omega (arith, h.written);
  edited = omega (arith, h.edited);
  bounded = omega (arith, h.bounded);
}

Holds-unread :
    {a b : ℕ} {s : Input}
    → Holds (suc a) b s
    → Holds (suc a) b (record s { r = down (uint (s.r + 1)) })
Holds-unread {a} {b} {s} h = record {
  word = omega arith;
  written = omega (arith, h.written, h.word);
  edited = omega (arith, h.edited, h.word);
  bounded = h.bounded;
}

-- The loop of C('U') has enough fuel.
kill_line_lem :
    {a : ℕ} (b fuel : ℕ) {s : Input}
    → Holds a b s
    → b < fuel
    → (s' : Input) × (kill_line fuel s ≡ some s') × IsInput s'
unfolding kill_line
kill_line_lem b zero h l = absurd (omega arith)
kill_line_lem {a} b (suc fuel) {s} h l =
    elim (Bool-cases (not (s.e == s.w) && not (get_or s.buf (down s.e % input_buf) 0 == newline))) [
      | inl e ↦
          rw (kill_line, e) (more b h l (ground arith) (λ k h' l'. kill_line_lem k fuel h' l'))
      | inr e ↦ rw (kill_line, e) (s, refl, (a, b, h))
    ]
  where
    more :
        (b : ℕ)
        → Holds a b s
        → b < suc fuel
        → s.e ≢ s.w
        → ((k : ℕ)
            → Holds a k (erase s)
            → k < fuel
            → (s' : Input) × (kill_line fuel (erase s) ≡ some s') × IsInput s')
        → (s' : Input) × (kill_line fuel (erase s) ≡ some s') × IsInput s'
    more zero h l ne go = absurd (ne (omega (arith, h.edited, h.written)))
    more (suc b) h l ne go = go b (Holds-erase h) (omega arith)

room_left : {a b : ℕ} {s : Input} → Holds a b s → uint (s.e + (2 ^ 32 - s.r)) ≡ a + b
room_left {a} {b} {s} h = omega (arith, h.edited, h.word, h.bounded)

add_char-IsInput : (c : ℕ) {a b : ℕ} {s : Input} → Holds a b s → IsInput (add_char c s)
unfolding add_char
add_char-IsInput c {a} {b} {s} h =
    elim (Bool-cases (not (c == 0) && ltb (uint (s.e + (2 ^ 32 - s.r))) input_buf)) [
      | inl e ↦
          let put_in =
            Holds-put (if c == return then newline else c) h (ground (arith, room_left h)) in
          rw (add_char, e) (both _ (Holds-commit put_in) put_in)
      | inr e ↦ rw (add_char, e) (a, b, h)
    ]
  where
    both :
        (t : Bool) {a b a' b' : ℕ} {s s' : Input}
        → Holds a b s
        → Holds a' b' s'
        → IsInput (if t then s else s')
    both true h h' = (_, _, h)
    both false h h' = (_, _, h')

-- A character from the keyboard keeps the order of the indices, and `consoleintr` ends.
pub consoleintr-IsInput :
    (c : ℕ) {s : Input} → IsInput s → (s' : Input) × (consoleintr c s ≡ some s') × IsInput s'
unfolding consoleintr
consoleintr-IsInput c {s} (a, b, h) = elim (Bool-cases (c == 16)) [
  | inl e ↦
      rw (consoleintr, e)
        (
          _,
          refl,
          (
            a,
            b,
            record { word = h.word; written = h.written; edited = h.edited; bounded = h.bounded },
          ),
        )
  | inr e ↦ elim (Bool-cases (c == 21)) [
    | inl q ↦ rw (consoleintr, e, q) (kill_line_lem b (suc input_buf) h (omega (arith, h.bounded)))
    | inr q ↦ elim (Bool-cases ((c == 8) || (c == 127))) [
      | inl k ↦ rw (consoleintr, e, q, k) (_, refl, erases b h (Bool-cases (s.e == s.w)))
      | inr k ↦ rw (consoleintr, e, q, k) (_, refl, add_char-IsInput c h)
    ]
  ]
]
  where
    erases :
        (b : ℕ)
        → Holds a b s
        → ((s.e == s.w) ≡ true) ⊎ ((s.e == s.w) ≡ false)
        → IsInput (if s.e == s.w then s else erase s)
    erases b h (inl e) = rw e (a, b, h)
    erases zero h (inr e) = absurd ((ground (arith, h.edited, h.written)))
    erases (suc b) h (inr e) = rw e (a, b, Holds-erase h)

-- What a run of `consoleread` leaves: the indices in order, and at most `n` characters stored.
pub data Reads (n : ℕ) : Read → Type 0 where
  reads_waits : {cs : List ℕ} {s : Input} → length cs ≤ n → IsInput s → Reads n (waits cs s)
  reads_killed : Reads n killed_read
  reads_got : {cs : List ℕ} {s : Input} → length cs ≤ n → IsInput s → Reads n (got cs s)

Reads-after : {n : ℕ} {r : Read} (c : ℕ) → Reads n r → Reads (suc n) (after c r)
Reads-after c (reads_waits l v) = reads_waits (omega arith) v
Reads-after c reads_killed = reads_killed
Reads-after c (reads_got l v) = reads_got (omega arith) v

pub consoleread_lem :
    (killed started : Bool) (n : ℕ) {s : Input}
    → IsInput s
    → Reads n (consoleread killed started n s)
unfolding consoleread
consoleread_lem killed started zero v = reads_got (omega arith) v
consoleread_lem killed started (suc n) {s} (zero, b, h) =
    let stop : (s.r == s.w) ≡ true = ground (arith, h.written, h.word) in
    rw (consoleread, stop) (stopped killed)
  where
    stopped : (k : Bool) → Reads (suc n) (if k then killed_read else waits [] s)
    stopped true = reads_killed
    stopped false = reads_waits (omega arith) (0, b, h)
consoleread_lem killed started (suc n) {s} (suc a, b, h) =
    let more : (s.r == s.w) ≡ false = ground (arith, h.written, h.word, h.bounded) in
    let rest = consoleread_lem killed true n (a, b, Holds-read h) in
    rw (consoleread, more)
      (line (Bool-cases (get_or s.buf (s.r % input_buf) 0 == ctrl_d))
        (Bool-cases (get_or s.buf (s.r % input_buf) 0 == newline)) rest)
  where
    c : ℕ
    c = get_or s.buf (s.r % input_buf) 0

    kept :
        (t : Bool)
        → IsInput
            (if t then record s { r = down (uint (s.r + 1)) } else record s { r = uint (s.r + 1) })
    kept true = (suc a, b, Holds-unread h)
    kept false = (a, b, Holds-read h)

    line :
        {rest : Read}
        → ((c == ctrl_d) ≡ true) ⊎ ((c == ctrl_d) ≡ false)
        → ((c == newline) ≡ true) ⊎ ((c == newline) ≡ false)
        → Reads n rest
        → Reads (suc n) (
            if c == ctrl_d
            then got [] (
                if started
                then record s { r = down (uint (s.r + 1)) }
                else record s { r = uint (s.r + 1) })
            else if c == newline
            then got (c ∷ []) (record s { r = uint (s.r + 1) })
            else after c rest)
    line (inl e) q v = rw e (reads_got (omega arith) (kept started))
    line (inr e) (inl q) v = rw (e, q) (reads_got (omega arith) (a, b, Holds-read h))
    line (inr e) (inr q) v = rw (e, q) (Reads-after _ v)
