-- ===== src/Text/Number/Decimal.antt =====
-- `itoa` in base 10 writes the decimal digits of its argument.
use native.Mathlib.Nat.{pow-suc}
use strace_xv.Base.{
  ◌==◌, if◌then◌else◌, Bool-cases, length, length-append, ℕ, zero, suc, ◌+◌, ◌-◌, ◌*◌, ◌/◌, ◌%◌,
  ◌^◌, ◌≤◌, ◌<◌, ◌≡◌, refl, inl, inr, false, Option, some, List, [], ◌∷◌, ◌++◌, append_assoc, arith,
}
use strace_xv.Text.{Buf}
use strace_xv.Text.Reverse.{poke-append_mid}
use strace_xv.Text.Number.{digit_char, itoa_loop}

-- Decimal digits as characters, least significant first.
unfoldable pub low_digits : ℕ → ℕ → List ℕ
low_digits zero a = []
low_digits (suc f) a =
    let rest = low_digits f (a / 10) in if a == 0 then [] else (a % 10 + b'0') ∷ rest

low_digits-step :
    (f a : ℕ) → (a == 0) ≡ false → low_digits (suc f) a ≡ (a % 10 + b'0') ∷ low_digits f (a / 10)
unfolding low_digits
low_digits-step f a nz = rw nz refl

digit_char-mod : (a : ℕ) → digit_char false (a % 10) ≡ a % 10 + b'0'
digit_char-mod a = ground arith

-- What the loop, started at index `i`, leaves behind the prefix `p`: the digits, and the rest of
-- the object.
abbrev pub Wrote : List ℕ → ℕ → List ℕ → ℕ → Option (Buf × ℕ) → Type 0
Wrote ds i p n r =
    (q' : List ℕ) × (r ≡ some (p ++ (ds ++ q'), i + length ds)) × (length q' + length ds ≡ n)

Wrote-cons :
    (c : ℕ) (ds p : List ℕ) (i n : ℕ) (r : Option (Buf × ℕ))
    → Wrote ds (i + 1) (p ++ (c ∷ [])) n r
    → Wrote (c ∷ ds) i p (suc n) r
Wrote-cons c ds p i n r (q', e, l) =
    (q', ground (arith, append_assoc p (c ∷ []) (ds ++ q')), omega arith)

itoa_loop-step :
    (g a : ℕ) (p : List ℕ) (x : ℕ) (q : List ℕ) (i : ℕ)
    → (a == 0) ≡ false
    → i ≡ length p
    → itoa_loop (suc g) false 10 a (p ++ (x ∷ q)) i
      ≡ itoa_loop g false 10 (a / 10) ((p ++ ((a % 10 + b'0') ∷ [])) ++ q) (i + 1)
unfolding itoa_loop
itoa_loop-step g a p x q i nz e =
    rw (nz, digit_char-mod a, poke-append_mid p x (a % 10 + b'0') q i e)
      (rw (append_assoc p ((a % 10 + b'0') ∷ []) q) refl)

itoa_loop-more :
    (f a : ℕ) (p q : List ℕ) (i : ℕ)
    → ((r : List ℕ) (j : ℕ)
        → length (low_digits f (a / 10)) ≤ length r
        → j ≡ i + 1
        → Wrote
            (low_digits f (a / 10))
            j
            (p ++ ((a % 10 + b'0') ∷ []))
            (length r)
            (itoa_loop (suc f) false 10 (a / 10) ((p ++ ((a % 10 + b'0') ∷ [])) ++ r) j))
    → (a == 0) ≡ false
    → suc (length (low_digits f (a / 10))) ≤ length q
    → i ≡ length p
    → Wrote
        ((a % 10 + b'0') ∷ low_digits f (a / 10))
        i
        p
        (length q)
        (itoa_loop (suc (suc f)) false 10 a (p ++ q) i)
itoa_loop-more f a p [] i ih nz k e = elim k [ ]
itoa_loop-more f a p (x ∷ q) i ih nz k e =
    rw (itoa_loop-step (suc f) a p x q i nz e)
      (Wrote-cons _ _ p i _ _ (ih q (i + 1) (omega arith) refl))

pub itoa_loop_lem :
    (f a : ℕ) (p q : List ℕ) (i : ℕ)
    → a < 2 ^ f
    → length (low_digits f a) ≤ length q
    → i ≡ length p
    → Wrote (low_digits f a) i p (length q) (itoa_loop (suc f) false 10 a (p ++ q) i)
unfolding itoa_loop low_digits
itoa_loop_lem zero a p q i h l e = (q, ground arith, omega arith)
itoa_loop_lem (suc f) a p q i h l e = elim (Bool-cases (a == 0)) [
  | inl z ↦ (q, ground arith, ground arith)
  | inr nz ↦ rw (low_digits-step f a nz) (
      itoa_loop-more f a p q i
        (λ r j m e'.
          itoa_loop_lem f (a / 10) (p ++ ((a % 10 + b'0') ∷ [])) r j (omega (arith, pow-suc 2 f)) m
            (omega (arith, length-append p ((a % 10 + b'0') ∷ []))))
        nz (rw (low_digits-step f a nz) at l) e)
]

pub low_digits-short : (f a k : ℕ) → a < 10 ^ k → length (low_digits f a) ≤ k
unfolding low_digits
low_digits-short zero a k h = omega arith
low_digits-short (suc f) a zero h = ground arith
low_digits-short (suc f) a (suc k) h = ground (arith, pow-suc 10 k, low_digits-short f (a / 10) k)

-- Every character is a digit, and the characters stand for `a`.
unfoldable pub digits_value : List ℕ → ℕ
digits_value [] = 0
digits_value (c ∷ s) = digits_value s * 10 + (c - b'0')

abbrev pub AreDigits : List ℕ → Type 0
AreDigits [] = Unit
AreDigits (c ∷ s) = (b'0' ≤ c) × (c ≤ b'9') × AreDigits s

pub low_digits-AreDigits : (f a : ℕ) → AreDigits (low_digits f a)
unfolding low_digits
low_digits-AreDigits zero a = tt
low_digits-AreDigits (suc f) a = elim (Bool-cases (a == 0)) [
  | inl z ↦ rw z tt
  | inr nz ↦ rw nz (omega arith, omega arith, low_digits-AreDigits f (a / 10))
]

pub digits_value-low_digits : (f a : ℕ) → a < 2 ^ f → digits_value (low_digits f a) ≡ a
unfolding low_digits digits_value
digits_value-low_digits zero a h = omega arith
digits_value-low_digits (suc f) a h =
    ground (arith, pow-suc 2 f, digits_value-low_digits f (a / 10))
