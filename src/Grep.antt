-- ===== src/Grep.antt =====
-- The pattern matcher of user/grep.c.
pub mod Regex
mod Tests
use strace_xv.Base.{
  ltb, leb, ◌==◌, if◌then◌else◌, ==_iff, lt→ltb, Bool-cases, Option-cases, ◌>>=◌, length, get_elem?,
  get_or, set, replicate, length-append, length-replicate, length-set, get_elem?-set_self,
  get_elem?-set_ne, length-reverse, occurs, occurs-append, get_elem?-lt, ℕ, zero, suc, ◌+◌, ◌-◌,
  ◌*◌, ◌/◌, ◌%◌, ◌^◌, ◌≤◌, ◌<◌, ◌≡◌, refl, sym, ap, ◌∙◌, fun_ext, subst, ◌≢◌, ◌↔◌, ◌⊎◌, inl, inr,
  Bool, true, false, ◌&&◌, ◌||◌, not, Option, none, some, List, [], ◌∷◌, ◌++◌, append-nil,
  append_assoc, reverse-append, arith,
}

-- The characters '$', '*', '.' and '^'.
abbrev pub dollar : ℕ
dollar = 36

abbrev pub star : ℕ
star = 42

abbrev pub dot : ℕ
dot = 46

abbrev pub caret : ℕ
caret = 94

-- A pattern and a text are the characters before their NUL.
abbrev pub is_end : List ℕ → Bool
is_end [] = true
is_end (t ∷ text) = false

-- The loop of `matchstar`, with `matchhere(re, ·)` as `here`.
unfoldable pub matchstar : ℕ → (List ℕ → Bool) → List ℕ → Bool
matchstar c here [] = here []
matchstar c here (t ∷ text) =
    let rest = matchstar c here text in
    if here (t ∷ text) then true else if (t == c) || (c == dot) then rest else false

-- The last test of `matchhere`: the first character matches, and the rest from there on.
abbrev pub match_one : ℕ → (List ℕ → Bool) → List ℕ → Bool
match_one c here [] = false
match_one c here (t ∷ text) = if (c == dot) || (c == t) then here text else false

unfoldable pub matchhere : List ℕ → List ℕ → Bool
unfolding matchstar
matchhere [] text = true
matchhere (c ∷ []) text = if c == dollar then is_end text else match_one c (λ s. true) text
matchhere (c ∷ d ∷ re) text =
    let more = matchstar c (matchhere re) text in
    let one = match_one c (matchhere (d ∷ re)) text in if d == star then more else one

-- The loop of `match`.
unfoldable pub match_from : List ℕ → List ℕ → Bool
match_from re [] = matchhere re []
match_from re (t ∷ text) =
    let rest = match_from re text in if matchhere re (t ∷ text) then true else rest

unfoldable pub match_ : List ℕ → List ℕ → Bool
match_ [] text = match_from [] text
match_ (c ∷ re) text = if c == caret then matchhere re text else match_from (c ∷ re) text
