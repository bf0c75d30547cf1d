-- ===== src/Text/Number.antt =====
-- `itoa` of kernel/strace.c and `atoi` of user/ulib.c. An `int` is its bit pattern, below 2 ^ 32.
pub mod Decimal
pub mod Print
pub mod Read
use mathlib.Core.Option
use strace_xv.Base.{
  ltb, leb, ◌==◌, if◌then◌else◌, ==_iff, Bool-cases, Option-cases, ◌>>=◌, length, get_elem?, get_or,
  set, replicate, length-append, length-replicate, length-set, get_elem?-set_self, get_elem?-set_ne,
  length-reverse, ℕ, zero, suc, ◌+◌, ◌-◌, ◌*◌, ◌/◌, ◌%◌, ◌^◌, ◌≤◌, ◌<◌, ◌≡◌, refl, sym, ap, ◌∙◌,
  fun_ext, ◌≢◌, ◌↔◌, ◌⊎◌, inl, inr, Bool, true, false, ◌&&◌, ◌||◌, not, Option, none, some, List,
  [], ◌∷◌, ◌++◌, append-nil, append_assoc, reverse-append, arith,
}
use strace_xv.Text.{Buf, poke, reverse}

abbrev pub is_neg : ℕ → Bool
is_neg w = leb (2 ^ 31) w

-- The absolute value.
abbrev pub magnitude : ℕ → ℕ
magnitude w = if is_neg w then 2 ^ 32 - w else w

-- `(rem > 9)? (rem-10) + 'a' : rem + '0'`, as a `char`, where `rem` is `r` or, if `sign` is set, `-r`.
abbrev pub digit_char : Bool → ℕ → ℕ
digit_char true r = (b'0' + 256 - r % 256) % 256
digit_char false r = if ltb 9 r then (r - 10 + b'a') % 256 else r + b'0'

-- The loop over the digits, least significant first. `%` and `/` of C round towards zero, so a
-- negative number keeps its sign until it is zero. `none`: `base` is zero, or more than 32 digits.
unfoldable pub itoa_loop : ℕ → Bool → ℕ → ℕ → Buf → ℕ → Option (Buf × ℕ)
itoa_loop zero sign base num str i = none
itoa_loop (suc fuel) sign base num str i =
    let rest = poke str i (digit_char sign (num % base)) >>= λ str'.
    itoa_loop fuel sign base (num / base) str' (i + 1) in
    if num == 0 then some (str, i) else if base == 0 then none else rest

-- What follows the loop: the sign, the terminator, and the reversal.
unfoldable pub itoa_finish : Bool → Buf → ℕ → Option Buf
itoa_finish true str i = do
  str' ← poke str i b'-'
  str'' ← poke str' (i + 1) 0
  reverse str'' (i + 1)
itoa_finish false str i = do str' ← poke str i 0; reverse str' i

unfoldable pub itoa_digits : Bool → Bool → ℕ → ℕ → Buf → Option Buf
itoa_digits sign minus base num str =
    itoa_loop 32 sign base num str 0 >>= λ (str', i). itoa_finish minus str' i

-- `itoa(num, str, base)`. In base 10, `-num` overflows at the least `int`: undefined.
unfoldable pub itoa : ℕ → Buf → ℕ → Option Buf
itoa num str base =
    let minus = is_neg num && (base == 10) in
    if num == 0
    then poke str 0 b'0' >>= (λ str'. poke str' 1 0)
    else if minus && (num == 2 ^ 31)
    then none
    else itoa_digits (is_neg num && not minus) minus base (magnitude num) str

-- `atoi`, from the value `n` of the digits before; `n = n * 10 + *s++ - '0'` on 32 bits.
unfoldable pub atoi_from : ℕ → Buf → Option ℕ
atoi_from n [] = none
atoi_from n (c ∷ s) =
    if leb b'0' c && leb c b'9' then atoi_from ((n * 10 + c - b'0') % 2 ^ 32) s else some n

unfoldable pub atoi : Buf → Option ℕ
atoi s = atoi_from 0 s

minus_twelve :
    itoa (2 ^ 32 - 12) (9 ∷ 9 ∷ 9 ∷ 9 ∷ 9 ∷ []) 10 ≡ some (b'-' ∷ b'1' ∷ b'2' ∷ 0 ∷ 9 ∷ [])
unfolding itoa itoa_digits itoa_loop itoa_finish reverse
minus_twelve = refl
