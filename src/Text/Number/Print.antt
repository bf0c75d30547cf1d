-- ===== src/Text/Number/Print.antt =====
-- `itoa` in base 10 prints its argument, and `atoi` reads it back.
use mathlib.Core.List
use strace_xv.Base.{
  ◌==◌, if◌then◌else◌, Bool-cases, length, replicate, length-append, length-reverse, ℕ, suc, ◌+◌,
  ◌-◌, ◌^◌, ◌≤◌, ◌<◌, ◌≡◌, refl, ◌≢◌, inl, inr, Bool, true, false, some, List, [], ◌∷◌, ◌++◌,
  append_assoc, reverse-append, arith,
}
use strace_xv.Text.{Buf, text}
use strace_xv.Text.Concat.{Holds, text-length}
use strace_xv.Text.Reverse.{poke-append_mid, reverse_lem}
use strace_xv.Text.Number.{is_neg, magnitude, itoa_finish, itoa_digits, itoa}
use strace_xv.Text.Number.Decimal.{
  low_digits, itoa_loop_lem, low_digits-short, AreDigits, low_digits-AreDigits,
}

abbrev pub minus_sign : Bool → List ℕ
minus_sign true = b'-' ∷ []
minus_sign false = []

-- The digits of a number that is not 0, most significant first, behind their sign.
abbrev pub signed_digits : Bool → ℕ → List ℕ
signed_digits minus a = minus_sign minus ++ List.reverse (low_digits 31 a)

unfoldable pub decimal : ℕ → List ℕ
decimal w = if w == 0 then b'0' ∷ [] else signed_digits (is_neg w) (magnitude w)

HasNoNul : List ℕ → Type 0
HasNoNul [] = Unit
HasNoNul (c ∷ s) = ((c == 0) ≡ false) × HasNoNul s

text-append_nul : (s q : List ℕ) → HasNoNul s → text (s ++ (0 ∷ q)) ≡ some s
unfolding HasNoNul
text-append_nul [] q h = refl
text-append_nul (c ∷ s) q (nz, h) = rw (nz, text-append_nul s q h) refl

HasNoNul-append : (s t : List ℕ) → HasNoNul s → HasNoNul t → HasNoNul (s ++ t)
unfolding HasNoNul
HasNoNul-append [] t h k = k
HasNoNul-append (c ∷ s) t (nz, h) k = (nz, HasNoNul-append s t h k)

AreDigits-HasNoNul : (s : List ℕ) → AreDigits s → HasNoNul (List.reverse s)
unfolding HasNoNul
AreDigits-HasNoNul [] h = tt
AreDigits-HasNoNul (c ∷ s) h =
    rw (reverse-append (c ∷ []) s)
      (HasNoNul-append (List.reverse s) (c ∷ []) (AreDigits-HasNoNul s h.2) (ground arith, tt))

itoa_finish_lem :
    (minus : Bool) (ds q : List ℕ) (i : ℕ)
    → i ≡ length ds
    → 2 ≤ length q
    → (q' : List ℕ) × (itoa_finish minus (ds ++ q) i
        ≡ some ((minus_sign minus ++ List.reverse ds) ++ (0 ∷ q')))
      × (length (minus_sign minus) + suc (length q') ≡ length q)
unfolding itoa_finish
itoa_finish_lem minus ds [] i e h = absurd (omega arith)
itoa_finish_lem minus ds (x ∷ []) i e h = absurd (omega arith)
itoa_finish_lem true ds (x ∷ y ∷ q) i e h = (
  q,
  rw (poke-append_mid ds x b'-' (y ∷ q) i e) (
      rw (← append_assoc ds (b'-' ∷ []) (y ∷ q)) (
        rw (poke-append_mid (ds ++ (b'-' ∷ [])) y 0 q (i + 1) len, len)
          (rw (reverse_lem (ds ++ (b'-' ∷ [])) (0 ∷ q), reverse-append ds (b'-' ∷ [])) refl))),
  omega arith,
)
  where
    len : i + 1 ≡ length (ds ++ (b'-' ∷ []))
    len = omega (arith, length-append ds (b'-' ∷ []))
itoa_finish_lem false ds (x ∷ y ∷ q) i e h =
    (y ∷ q, rw (poke-append_mid ds x 0 (y ∷ q) i e, e) (reverse_lem ds (0 ∷ y ∷ q)), omega arith)

minus_sign-HasNoNul : (minus : Bool) → HasNoNul (minus_sign minus)
unfolding HasNoNul
minus_sign-HasNoNul true = (refl, tt)
minus_sign-HasNoNul false = tt

signed_digits-HasNoNul : (minus : Bool) (a : ℕ) → HasNoNul (signed_digits minus a)
signed_digits-HasNoNul minus a =
    HasNoNul-append (minus_sign minus) _ (minus_sign-HasNoNul minus)
      (AreDigits-HasNoNul (low_digits 31 a) (low_digits-AreDigits 31 a))

-- The loop and what follows it.
itoa_digits_lem :
    (minus : Bool) (a : ℕ) (str : Buf)
    → a < 2 ^ 31
    → 12 ≤ length str
    → Holds (itoa_digits false minus 10 a str) (length str) (signed_digits minus a)
unfolding itoa_digits
itoa_digits_lem minus a str h l =
    let short : length (low_digits 31 a) ≤ 10 = low_digits-short 31 a 10 (omega arith) in
    let (q, e, n) = itoa_loop_lem 31 a [] str 0 h (omega arith) refl in
    let (q', e', n') =
      itoa_finish_lem minus (low_digits 31 a) q (0 + length (low_digits 31 a)) (omega arith)
        (omega arith) in
    (
      signed_digits minus a ++ (0 ∷ q'),
      rw (e, e') refl,
      omega (
        arith,
        length-append (minus_sign minus ++ List.reverse (low_digits 31 a)) (0 ∷ q'),
        length-append (minus_sign minus) (List.reverse (low_digits 31 a)),
        length-reverse (low_digits 31 a),
      ),
      text-append_nul (signed_digits minus a) q' (signed_digits-HasNoNul minus a),
    )

ne→== : (a b : ℕ) → a ≢ b → (a == b) ≡ false
ne→== a b h = ground arith

-- Into an object of at least 12 bytes, `itoa` in base 10 prints every `int` but the least one, and
-- stays inside the object.
pub itoa_lem :
    (num : ℕ) (str : Buf)
    → num < 2 ^ 32
    → num ≢ 2 ^ 31
    → 12 ≤ length str
    → Holds (itoa num str 10) (length str) (decimal num)
unfolding itoa decimal
itoa_lem num [] h ne l = absurd (omega arith)
itoa_lem num (x ∷ []) h ne l = absurd (omega arith)
itoa_lem num (x ∷ y ∷ str) h ne l = elim (Bool-cases (num == 0)) [
  | inl z ↦ rw z (b'0' ∷ 0 ∷ str, ground arith, refl, refl)
  | inr nz ↦ elim (Bool-cases (is_neg num)) [
    | inl neg ↦
        rw (nz, neg, ne→== num (2 ^ 31) ne)
          (itoa_digits_lem true (2 ^ 32 - num) (x ∷ y ∷ str) (ground arith) l)
    | inr pos ↦ rw (nz, pos) (itoa_digits_lem false num (x ∷ y ∷ str) (ground arith) l)
  ]
]

pub length-decimal : (num : ℕ) → num < 2 ^ 32 → num ≢ 2 ^ 31 → length (decimal num) ≤ 11
length-decimal num h ne =
    let (d, _, l, t) = itoa_lem num (replicate 12 0) h ne (omega arith) in
    omega (arith, text-length d t)
