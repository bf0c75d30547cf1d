-- ===== src/Console/Tests.antt =====
-- A line that is typed with a mistake, and read.
use strace_xv.Base.{
  ◌>>=◌, set, replicate, ℕ, ◌≡◌, refl, Bool, false, Option, none, some, [], ◌∷◌, arith,
}
use strace_xv.Console.{input_buf, Input, add_char, consoleintr, got, consoleread}
use strace_xv.Console.Bounds.{IsInput, Reads}
use strace_xv.Console.Net.{types, Reach, here, next, Reach-IsInput}

abbrev fresh_input : Input
fresh_input = record {
  buf = replicate input_buf 0;
  r = 0;
  w = 0;
  e = 0;
  printed = [];
  doprocdump = false;
}

fresh-IsInput : IsInput fresh_input
fresh-IsInput =
    (0, 0, record { word = omega arith; written = refl; edited = refl; bounded = omega arith })

-- 'a', 'b', a backspace and a return.
abbrev typed : Option Input
typed = consoleintr 97 fresh_input >>= λ s.
    consoleintr 98 s >>= λ s. consoleintr 8 s >>= λ s. consoleintr 13 s

read-typed :
    (typed >>= λ s. elim (consoleread false false 10 s) [ got cs s' ↦ some cs | _ ↦ none ])
    ≡ some (97 ∷ 10 ∷ [])
unfolding consoleintr add_char consoleread
read-typed = refl

abbrev one_key : Input
one_key = record {
  buf = set (replicate input_buf 0) 0 97;
  r = 0;
  w = 0;
  e = 1;
  printed = 97 ∷ [];
  doprocdump = false;
}

one_key-Reach : Reach fresh_input one_key
unfolding consoleintr add_char
one_key-Reach = next here (types 97 refl)

Reach-IsInput_example :
    IsInput one_key
    × ((c : ℕ) → (t' : Input) × (consoleintr c one_key ≡ some t'))
    × ((killed : Bool) (n : ℕ) → Reads n (consoleread killed false n one_key))
Reach-IsInput_example = Reach-IsInput fresh-IsInput one_key-Reach
