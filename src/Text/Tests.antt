-- ===== src/Text/Tests.antt =====
-- The string functions at concrete inputs.
use strace_xv.Base.{◌>>=◌, replicate, ◌-◌, ◌^◌, ◌≡◌, refl, true, some, [], ◌∷◌, ◌++◌, arith}
use strace_xv.Text.{Buf, chars, literal, strlen, streq_loop, streq}
use strace_xv.Text.Equal.{starts_with, first_line, streq_lem}
use strace_xv.Text.Number.{itoa, atoi}
use strace_xv.Text.Number.Decimal.{low_digits}
use strace_xv.Text.Number.Print.{decimal}
use strace_xv.Text.Number.Read.{atoi-itoa}

abbrev buffer : Buf
buffer = literal "pid " ++ (7 ∷ 7 ∷ 7 ∷ 7 ∷ 7 ∷ [])

decimal_minus_one : decimal (2 ^ 32 - 1) ≡ chars "-1"
unfolding decimal low_digits
decimal_minus_one = refl

atoi-itoa_example : (itoa 4096 (replicate 12 7) 10 >>= atoi) ≡ some 4096
atoi-itoa_example = atoi-itoa 4096 (replicate 12 7) (omega arith) (omega arith)

-- A longer first string is accepted.
streq_lem_example :
    streq (literal "strace on") (literal "strace")
    ≡ some (starts_with (chars "strace on") (first_line (chars "strace")))
streq_lem_example =
    streq_lem (literal "strace on") (literal "strace") (chars "strace on") (chars "strace") refl
      refl

streq_prefix : streq (literal "strace on") (literal "strace") ≡ some true
unfolding streq strlen streq_loop
streq_prefix = refl
