-- ===== src/Console.antt =====
-- The input of the console: consoleintr and consoleread of kernel/console.c.
pub mod Bounds
pub mod Net
mod Tests
use strace_xv.Base.{
  ltb, leb, ◌==◌, if◌then◌else◌, ==_iff, lt→ltb, Bool-cases, Option-cases, ◌>>=◌, length, get_elem?,
  get_or, set, replicate, length-append, length-replicate, length-set, get_elem?-set_self,
  get_elem?-set_ne, length-reverse, occurs, occurs-append, get_elem?-lt, ℕ, zero, suc, ◌+◌, ◌-◌,
  ◌*◌, ◌/◌, ◌%◌, ◌^◌, ◌≤◌, ◌<◌, ◌≡◌, refl, sym, ap, ◌∙◌, fun_ext, subst, ◌≢◌, ◌↔◌, ◌⊎◌, inl, inr,
  Bool, true, false, ◌&&◌, ◌||◌, not, Option, none, some, List, [], ◌∷◌, ◌++◌, append-nil,
  append_assoc, reverse-append, arith,
}

abbrev pub input_buf : ℕ
input_buf = 128

abbrev pub uint : ℕ → ℕ
uint n = n % 2 ^ 32

-- `n - 1` on an `uint`.
abbrev pub down : ℕ → ℕ
down n = uint (n + (2 ^ 32 - 1))

-- The characters newline, return, delete, and the controls C('D'), C('H'), C('P') and C('U').
abbrev pub newline : ℕ
newline = 10

abbrev pub return : ℕ
return = 13

abbrev pub ctrl_d : ℕ
ctrl_d = 4

abbrev pub backspace : ℕ
backspace = 256

-- `input`, with what was printed so far, oldest first, and whether a listing was asked for.
pub record Input : Type 0 where
  pub buf : List ℕ
  pub r : ℕ
  pub w : ℕ
  pub e : ℕ
  pub printed : List ℕ
  pub doprocdump : Bool

-- `input.e--` with the backspace.
abbrev pub erase : Input → Input
erase s = record s { e = down s.e; printed = s.printed ++ (backspace ∷ []) }

-- The loop of C('U'), with fuel for its rounds; `none` is a lack of it.
unfoldable pub kill_line : ℕ → Input → Option Input
kill_line zero s = none
kill_line (suc fuel) s =
    let rest = kill_line fuel (erase s) in
    if not (s.e == s.w) && not (get_or s.buf (down s.e % input_buf) 0 == newline)
    then rest
    else some s

-- `input.buf[input.e++ % INPUT_BUF] = c` with the echo.
abbrev pub put : ℕ → Input → Input
put c s = record s {
  buf = set s.buf (s.e % input_buf) c;
  e = uint (s.e + 1);
  printed = s.printed ++ (c ∷ []);
}

-- The default case of the `switch`.
unfoldable pub add_char : ℕ → Input → Input
add_char c s =
    let c' : ℕ = if c == return then newline else c in
    let s' : Input = put c' s in
    if not (c == 0) && ltb (uint (s.e + (2 ^ 32 - s.r))) input_buf
    then if (c' == newline) || (c' == ctrl_d) || (s'.e == uint (s'.r + input_buf))
      then record s' { w = s'.e }
      else s'
    else s

-- One round of `consoleintr`, for the character `c`.
unfoldable pub consoleintr : ℕ → Input → Option Input
consoleintr c s =
    if c == 16
    then some (record s { doprocdump = true })
    else if c == 21
    then kill_line (suc input_buf) s
    else if (c == 8) || (c == 127)
    then some (if s.e == s.w then s else erase s)
    else some (add_char c s)

-- How a run of `consoleread` ends: it sleeps on `input.r`, it returns -1, or it returns; each with
-- the characters that it stored.
pub data Read : Type 0 where
  waits : List ℕ → Input → Read
  killed_read : Read
  got : List ℕ → Input → Read

abbrev pub after : ℕ → Read → Read
after c (waits cs s) = waits (c ∷ cs) s
after c killed_read = killed_read
after c (got cs s) = got (c ∷ cs) s

-- `consoleread` with `n` characters left; `started` says that `n < target`.
unfoldable pub consoleread : Bool → Bool → ℕ → Input → Read
consoleread killed started zero s = got [] s
consoleread killed started (suc n) s =
    let c = get_or s.buf (s.r % input_buf) 0 in
    let s' : Input = record s { r = uint (s.r + 1) } in
    let kept : Input = if started then record s' { r = down s'.r } else s' in
    let rest = after c (consoleread killed true n s') in
    let line =
      if c == ctrl_d then got [] kept else if c == newline then got (c ∷ []) s' else rest in
    if s.r == s.w then if killed then killed_read else waits [] s else line
