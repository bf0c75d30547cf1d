-- ===== src/Text/Concat.antt =====
-- `strcat` appends whenever the destination has room for the result and its terminator.
use mathlib.Core.Option
use strace_xv.Base.{
  ◌==◌, Bool-cases, Option-cases, ◌>>=◌, length, length-append, ℕ, suc, ◌+◌, ◌≤◌, ◌<◌, ◌≡◌, refl,
  ap, ◌∙◌, ◌⊎◌, inl, inr, true, false, Option, some, List, [], ◌∷◌, ◌++◌, arith,
}
use strace_xv.Text.{Buf, text, append_chars, strcat}

-- What a buffer of `n` bytes that holds `s` may be after a call.
abbrev pub Holds : Option Buf → ℕ → List ℕ → Type 0
Holds r n s = (d : Buf) × (r ≡ some d) × (length d ≡ n) × (text d ≡ some s)

-- A string is empty or starts with a character that is not NUL.
pub text-cases :
    (c : ℕ) (d : Buf) {s : List ℕ}
    → text (c ∷ d) ≡ some s
    → (((c == 0) ≡ true) × (s ≡ []))
      ⊎ ((t : List ℕ) × ((c == 0) ≡ false) × (text d ≡ some t) × (s ≡ c ∷ t))
text-cases c d {s} h = elim (Bool-cases (c == 0)) [
  | inl z ↦ inl (z, ground arith)
  | inr nz ↦ elim (Option-cases (text d)) [
    | inl e ↦ ground arith
    | inr (t, e) ↦ inr (t, nz, e, ground arith)
  ]
]

Holds-cons :
    (c : ℕ) (r : Option Buf) (n : ℕ) (s : List ℕ)
    → (c == 0) ≡ false
    → Holds r n s
    → Holds (Option.map (λ d. c ∷ d) r) (suc n) (c ∷ s)
Holds-cons c r n s nz (d, e, l, t) = (c ∷ d, ground arith, ground arith, ground arith)

append_chars_lem :
    (ptr src : Buf) (b : List ℕ)
    → text src ≡ some b
    → length b < length ptr
    → Holds (append_chars ptr src) (length ptr) b
unfolding append_chars
append_chars_lem [] src b h l = absurd (omega arith)
append_chars_lem (x ∷ ptr) [] b h l = cc
append_chars_lem (x ∷ ptr) (c ∷ src) b h l = elim (text-cases c src h) [
  | inl (z, e) ↦ (0 ∷ ptr, ground arith, refl, ground arith)
  | inr (t, nz, h', e) ↦
      rw (nz, e) (Holds-cons c _ _ t nz (append_chars_lem ptr src t h' (ground arith)))
]

-- If the destination holds `a`, the source holds `b`, and the destination's object has room for
-- both and a terminator, `strcat` stays inside both objects and the destination then holds
-- `a ++ b`; the size of its object does not change.
pub strcat_lem :
    (dest src : Buf) (a b : List ℕ)
    → text dest ≡ some a
    → text src ≡ some b
    → length a + length b < length dest
    → Holds (strcat dest src) (length dest) (a ++ b)
unfolding strcat
strcat_lem [] src a b ha hb l = absurd (omega arith)
strcat_lem (c ∷ dest) src a b ha hb l = elim (text-cases c dest ha) [
  | inl (z, e) ↦
      rw (z, e) (append_chars_lem (c ∷ dest) src b hb (omega (arith, ap {A = List ℕ} length e)))
  | inr (t, nz, ht, e) ↦
      rw (nz, e)
        (Holds-cons c _ _ (t ++ b) nz
          (strcat_lem dest src t b ht hb (omega (arith, ap {A = List ℕ} length e))))
]

pub text-length : (d : Buf) {s : List ℕ} → text d ≡ some s → length s < length d
text-length [] h = cc
text-length (c ∷ d) h = elim (text-cases c d h) [
  | inl (z, e) ↦ omega (arith, ap {A = List ℕ} length e)
  | inr (t, nz, h', e) ↦ omega (arith, ap {A = List ℕ} length e, text-length d h')
]

-- A call that follows one which leaves a string.
pub Holds-bind :
    {r : Option Buf} {m : ℕ} {a : List ℕ} (h : Holds r m a) (f : Buf → Option Buf) (n : ℕ)
    (s : List ℕ)
    → ((d : Buf) → length d ≡ m → text d ≡ some a → Holds (f d) n s)
    → Holds (r >>= f) n s
Holds-bind (d, e, l, t) f n s k = rw e (k d l t)

-- The same for `strcat`, with bounds on the lengths that add up.
pub strcat-bind :
    (dest src : Buf) {a b : List ℕ} (n k : ℕ)
    → length dest ≡ n
    → text dest ≡ some a
    → length a ≤ k
    → text src ≡ some b
    → k + length b < n
    → (f : Buf → Option Buf) (s : List ℕ)
    → ((d : Buf)
        → length d ≡ n
        → text d ≡ some (a ++ b)
        → length (a ++ b) ≤ k + length b
        → Holds (f d) n s)
    → Holds (strcat dest src >>= f) n s
strcat-bind dest src {a} {b} n k l t la tb fits f s rest =
    Holds-bind (strcat_lem dest src a b t tb (omega arith)) f n s
      (λ d l' t'. rest d (l' ∙ l) t' (omega (arith, length-append a b)))
