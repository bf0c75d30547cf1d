-- ===== src/Text/Number/Read.antt =====
-- `atoi` of user/ulib.c reads back what `itoa` prints.
use mathlib.Core.List
use strace_xv.Base.{
  ◌==◌, Bool-cases, ◌>>=◌, length, ℕ, ◌+◌, ◌-◌, ◌*◌, ◌%◌, ◌^◌, ◌≤◌, ◌<◌, ◌≡◌, refl, ◌∙◌, inl, inr,
  false, some, List, [], ◌∷◌, ◌++◌, append_assoc, reverse-append, arith,
}
use strace_xv.Text.{Buf, text}
use strace_xv.Text.Concat.{text-cases}
use strace_xv.Text.Number.{is_neg, itoa, atoi_from, atoi}
use strace_xv.Text.Number.Decimal.{
  low_digits, digits_value, AreDigits, low_digits-AreDigits, digits_value-low_digits,
}
use strace_xv.Text.Number.Print.{decimal, itoa_lem}

atoi_from-reverse :
    (ds t : List ℕ)
    → AreDigits ds
    → digits_value ds < 2 ^ 32
    → atoi_from 0 (List.reverse ds ++ t) ≡ atoi_from (digits_value ds) t
unfolding atoi_from digits_value
atoi_from-reverse [] t h k = refl
atoi_from-reverse (c ∷ ds) t (lo, hi, h) k =
    rw (reverse-append (c ∷ []) ds, append_assoc (List.reverse ds) (c ∷ []) t)
      (rw (atoi_from-reverse ds (c ∷ t) h (omega arith)) (ground arith))

-- `atoi` stops at the NUL at the latest.
atoi_from-text :
    (n : ℕ) (d : Buf) {s : List ℕ} → text d ≡ some s → atoi_from n d ≡ atoi_from n (s ++ (0 ∷ []))
unfolding atoi_from
atoi_from-text n [] h = cc
atoi_from-text n (c ∷ d) h = elim (text-cases c d h) [
  | inl (z, e) ↦ rw e (ground arith)
  | inr (t, nz, h', e) ↦ rw (e, atoi_from-text ((n * 10 + c - b'0') % 2 ^ 32) d h') refl
]

atoi-decimal : (num : ℕ) → num < 2 ^ 31 → atoi_from 0 (decimal num ++ (0 ∷ [])) ≡ some num
unfolding decimal
atoi-decimal num h = elim (Bool-cases (num == 0)) [
  | inl z ↦ rw z (unfold atoi_from in ground arith)
  | inr nz ↦
      rw (nz, small)
        (rw
          (
            atoi_from-reverse (low_digits 31 num) (0 ∷ []) (low_digits-AreDigits 31 num)
                (rw value (omega arith)),
            value,
          )
          (unfold atoi_from in refl))
]
  where
    small : is_neg num ≡ false
    small = ground arith

    value : digits_value (low_digits 31 num) ≡ num
    value = digits_value-low_digits 31 num h

-- `atoi` applied to what `itoa` printed gives the number back, if it is not negative and the
-- object has at least 12 bytes; in particular `itoa` returns.
pub atoi-itoa :
    (num : ℕ) (str : Buf) → num < 2 ^ 31 → 12 ≤ length str → (itoa num str 10 >>= atoi) ≡ some num
unfolding atoi
atoi-itoa num str h l =
    let (d, e, _, t) = itoa_lem num str (omega arith) (omega arith) l in
    rw e (atoi_from-text 0 d t ∙ atoi-decimal num h)
