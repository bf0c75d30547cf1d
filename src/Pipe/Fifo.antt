-- ===== src/Pipe/Fifo.antt =====
-- A pipe holds a queue of bytes: `push` appends, `pop` takes from the front.
use mathlib.Core.Path.{ap₂}
use strace_xv.Base.{
  length, get_or, set, length-set, ℕ, zero, suc, ◌+◌, ◌-◌, ◌%◌, ◌^◌, ◌≤◌, ◌<◌, ◌≡◌, refl, ap, ◌∙◌,
  ◌≢◌, ◌↔◌, true, false, List, [], ◌∷◌, ◌++◌, arith,
}
use strace_xv.Pipe.{Pipe, pipe_size, uint, push, front, pop, is_full, is_empty}

-- The bytes that are written and not read.
abbrev pub count : Pipe → ℕ
count p = uint (p.nwrite + 2 ^ 32 - p.nread)

-- `n` bytes of the ring from the index `i` on.
abbrev pub window : List ℕ → ℕ → ℕ → List ℕ
window buf i zero = []
window buf i (suc n) = get_or buf i 0 ∷ window buf ((i + 1) % pipe_size) n

abbrev pub contents : Pipe → List ℕ
contents p = window p.buf (p.nread % pipe_size) (count p)

pub record IsValid (p : Pipe) : Type 0 where
  pub storage : length p.buf ≡ pipe_size
  pub words : (p.nread < 2 ^ 32) × (p.nwrite < 2 ^ 32)
  pub bounded : count p ≤ pipe_size

length-window : (buf : List ℕ) (i n : ℕ) → length (window buf i n) ≡ n
length-window buf i zero = refl
length-window buf i (suc n) = ap suc (length-window buf ((i + 1) % pipe_size) n)

pub length-contents : (p : Pipe) → length (contents p) ≡ count p
length-contents p = length-window p.buf (p.nread % pipe_size) (count p)

get_or-set_self : (xs : List ℕ) (i v : ℕ) → i < length xs → get_or (set xs i v) i 0 ≡ v
get_or-set_self [] i v h = elim h [ ]
get_or-set_self (x ∷ xs) zero v h = refl
get_or-set_self (x ∷ xs) (suc i) v h = get_or-set_self xs i v (omega arith)

get_or-set_ne : (xs : List ℕ) (i j v : ℕ) → i ≢ j → get_or (set xs i v) j 0 ≡ get_or xs j 0
get_or-set_ne [] i j v h = refl
get_or-set_ne (x ∷ xs) zero zero v h = absurd (h refl)
get_or-set_ne (x ∷ xs) zero (suc j) v h = refl
get_or-set_ne (x ∷ xs) (suc i) zero v h = refl
get_or-set_ne (x ∷ xs) (suc i) (suc j) v h = get_or-set_ne xs i j v (λ e. h (ap suc e))

-- A byte written behind fewer than `PIPESIZE` bytes extends them.
window-set :
    (buf : List ℕ) (c n i k : ℕ)
    → length buf ≡ pipe_size
    → i < pipe_size
    → n < pipe_size
    → k ≡ (i + n) % pipe_size
    → window (set buf k c) i (suc n) ≡ window buf i n ++ (c ∷ [])
window-set buf c zero i k l hi hn e =
    let e' : k ≡ i = omega arith in rw (e', get_or-set_self buf i c (omega arith)) refl
window-set buf c (suc n) i k l hi hn e =
    ap₂ ◌∷◌ (get_or-set_ne buf k i c (omega arith))
      (window-set buf c n ((i + 1) % pipe_size) k l (omega arith) (omega arith) (omega arith))

-- A full pipe is one that holds `PIPESIZE` bytes, and an empty one holds none.
pub is_full_iff : {p : Pipe} → IsValid p → (is_full p ≡ true) ↔ (count p ≡ pipe_size)
is_full_iff v = (ground arith, ground arith)

pub is_empty_iff : {p : Pipe} → IsValid p → (is_empty p ≡ true) ↔ (count p ≡ 0)
is_empty_iff v = (ground arith, ground arith)

count-push : {p : Pipe} (c : ℕ) → IsValid p → count p < pipe_size → count (push p c) ≡ count p + 1
unfolding push
count-push c v h = omega (arith, v.words)

pub push-IsValid : {p : Pipe} (c : ℕ) → IsValid p → count p < pipe_size → IsValid (push p c)
unfolding push
push-IsValid {p} c v h = record {
  storage = length-set p.buf (p.nwrite % pipe_size) c ∙ v.storage;
  words = (v.words.0, omega arith);
  bounded = omega (arith, v.words);
}

pub contents-push :
    {p : Pipe} (c : ℕ)
    → IsValid p
    → count p < pipe_size
    → contents (push p c) ≡ contents p ++ (c ∷ [])
unfolding push
contents-push {p} c v h =
    let e : count (push p c) ≡ suc (count p) = omega (arith, count-push c v h) in
    ap (λ n. window (push p c).buf (p.nread % pipe_size) n) e
    ∙ window-set p.buf c (count p) (p.nread % pipe_size) (p.nwrite % pipe_size) v.storage
        (omega arith) h (omega (arith, v.words))

pub pop-IsValid : {p : Pipe} → IsValid p → is_empty p ≡ false → IsValid (pop p)
unfolding pop
pop-IsValid {p} v ne =
    let h : p.nread ≢ p.nwrite = ground arith in
    record {
      storage = v.storage;
      words = (omega arith, v.words.1);
      bounded = omega (arith, v.words, v.bounded);
    }

window-pos :
    (buf : List ℕ) (i n : ℕ)
    → 0 < n
    → window buf i n ≡ get_or buf i 0 ∷ window buf ((i + 1) % pipe_size) (n - 1)
window-pos buf i zero h = absurd (omega arith)
window-pos buf i (suc n) h = ap (λ k. window buf i (suc k)) (omega arith)

pub contents-pop :
    {p : Pipe} → IsValid p → is_empty p ≡ false → contents p ≡ front p ∷ contents (pop p)
unfolding front pop
contents-pop {p} v ne =
    let h : p.nread ≢ p.nwrite = ground arith in
    let i : (p.nread % pipe_size + 1) % pipe_size ≡ uint (p.nread + 1) % pipe_size =
      omega (arith, v.words) in
    let n : count p - 1 ≡ uint (p.nwrite + 2 ^ 32 - uint (p.nread + 1)) =
      omega (arith, v.words, v.bounded) in
    window-pos p.buf (p.nread % pipe_size) (count p) (omega (arith, v.words))
    ∙ ap₂ (λ j k. get_or p.buf (p.nread % pipe_size) 0 ∷ window p.buf j k) i n

pub contents-empty : {p : Pipe} → IsValid p → is_empty p ≡ true → contents p ≡ []
contents-empty {p} v e = ap (λ n. window p.buf (p.nread % pipe_size) n) ((is_empty_iff v).0 e)
