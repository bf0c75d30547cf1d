-- ===== src/Grep/Regex.antt =====
-- The matcher against the meaning of patterns.
use mathlib.Core.Bool.{true≢false}
use strace_xv.Base.{
  ◌==◌, Bool-cases, ℕ, ◌≡◌, refl, sym, ◌∙◌, ◌↔◌, inl, inr, Bool, true, false, ◌||◌, List, [], ◌∷◌,
  arith,
}
use strace_xv.Grep.{
  dollar, star, dot, caret, is_end, matchstar, match_one, matchhere, match_from, match_,
}

-- The pattern character `c` covers the character `t`.
abbrev pub covers : ℕ → ℕ → Bool
covers c t = (c == dot) || (c == t)

-- The pattern matches at the start of the text: at its end matches everything; a last `$` the end
-- of the text; a character with a star any number of characters that it covers; and another one
-- character that it covers.
pub data Here : List ℕ → List ℕ → Type 0 where
  done : {text : List ℕ} → Here [] text
  at_end : {c : ℕ} → (c == dollar) ≡ true → Here (c ∷ []) []
  last :
      {c t : ℕ} {text : List ℕ}
      → (c == dollar) ≡ false
      → covers c t ≡ true
      → Here (c ∷ []) (t ∷ text)
  one :
      {c d t : ℕ} {re text : List ℕ}
      → (d == star) ≡ false
      → covers c t ≡ true
      → Here (d ∷ re) text
      → Here (c ∷ d ∷ re) (t ∷ text)
  star_none :
      {c d : ℕ} {re text : List ℕ} → (d == star) ≡ true → Here re text → Here (c ∷ d ∷ re) text
  star_more :
      {c d t : ℕ} {re text : List ℕ}
      → (d == star) ≡ true
      → covers c t ≡ true
      → Here (c ∷ d ∷ re) text
      → Here (c ∷ d ∷ re) (t ∷ text)

star_covers : (c t : ℕ) → ((t == c) || (c == dot)) ≡ covers c t
star_covers c t = ground arith

star_sound :
    (c d : ℕ) (re text : List ℕ)
    → (d == star) ≡ true
    → ((s : List ℕ) → matchhere re s ≡ true → Here re s)
    → matchstar c (matchhere re) text ≡ true
    → Here (c ∷ d ∷ re) text
unfolding matchstar
star_sound c d re [] q sound e = star_none q (sound [] e)
star_sound c d re (t ∷ text) q sound e = elim (Bool-cases (matchhere re (t ∷ text))) [
  | inl h ↦ star_none q (sound (t ∷ text) h)
  | inr h ↦ elim (Bool-cases ((t == c) || (c == dot))) [
    | inl k ↦
        star_more q (sym (star_covers c t) ∙ k) (star_sound c d re text q sound (rw (h, k) at e))
    | inr k ↦ absurd (true≢false (sym (rw (h, k) at e)))
  ]
]

one_sound :
    (c d : ℕ) (re text : List ℕ)
    → (d == star) ≡ false
    → ((s : List ℕ) → matchhere (d ∷ re) s ≡ true → Here (d ∷ re) s)
    → match_one c (matchhere (d ∷ re)) text ≡ true
    → Here (c ∷ d ∷ re) text
one_sound c d re [] q sound e = absurd (true≢false (sym e))
one_sound c d re (t ∷ text) q sound e = elim (Bool-cases (covers c t)) [
  | inl k ↦ one q k (sound text (rw k at e))
  | inr k ↦ absurd (true≢false (sym (rw k at e)))
]

last_sound :
    (c : ℕ) (text : List ℕ)
    → (c == dollar) ≡ false
    → match_one c (λ s. true) text ≡ true
    → Here (c ∷ []) text
last_sound c [] q e = absurd (true≢false (sym e))
last_sound c (t ∷ text) q e = elim (Bool-cases (covers c t)) [
  | inl k ↦ last q k
  | inr k ↦ absurd (true≢false (sym (rw k at e)))
]

end_sound : (c : ℕ) (text : List ℕ) → (c == dollar) ≡ true → is_end text ≡ true → Here (c ∷ []) text
end_sound c [] q e = at_end q
end_sound c (t ∷ text) q e = absurd (true≢false (sym e))

matchhere_sound : (re text : List ℕ) → matchhere re text ≡ true → Here re text
unfolding matchhere
matchhere_sound [] text e = done
matchhere_sound (c ∷ []) text e = elim (Bool-cases (c == dollar)) [
  | inl q ↦ end_sound c text q (rw q at e)
  | inr q ↦ last_sound c text q (rw q at e)
]
matchhere_sound (c ∷ d ∷ re) text e = elim (Bool-cases (d == star)) [
  | inl q ↦ star_sound c d re text q (matchhere_sound re) (rw q at e)
  | inr q ↦ one_sound c d re text q (matchhere_sound (d ∷ re)) (rw q at e)
]

-- A star that matches nothing, or one character more.
star_start :
    (c : ℕ) (here : List ℕ → Bool) (text : List ℕ) → here text ≡ true → matchstar c here text ≡ true
unfolding matchstar
star_start c here [] e = e
star_start c here (t ∷ text) e = rw e refl

star_next :
    (c : ℕ) (here : List ℕ → Bool) (t : ℕ) (text : List ℕ)
    → covers c t ≡ true
    → matchstar c here text ≡ true
    → matchstar c here (t ∷ text) ≡ true
unfolding matchstar
star_next c here t text k e =
    let k' : ((t == c) || (c == dot)) ≡ true = star_covers c t ∙ k in
    elim (Bool-cases (here (t ∷ text))) [ inl h ↦ rw h refl | inr h ↦ rw (h, k') e ]

matchhere_complete : {re text : List ℕ} → Here re text → matchhere re text ≡ true
unfolding matchhere
matchhere_complete done = refl
matchhere_complete (at_end q) = rw q refl
matchhere_complete (last q k) = rw (q, k) refl
matchhere_complete (one q k h) = rw (q, k) (matchhere_complete h)
matchhere_complete (star_none {c} {d} {re} {text} q h) =
    rw q (star_start c (matchhere re) text (matchhere_complete h))
matchhere_complete (star_more {c} {d} {t} {re} {text} q k h) =
    let later = rw q at (matchhere_complete h) in rw q (star_next c (matchhere re) t text k later)

-- `matchhere` answers 1 exactly if the pattern matches at the start of the text.
pub matchhere_iff : (re text : List ℕ) → (matchhere re text ≡ true) ↔ Here re text
matchhere_iff re text = (matchhere_sound re text, λ h. matchhere_complete h)

-- The pattern matches somewhere in the text.
pub data Somewhere (re : List ℕ) : List ℕ → Type 0 where
  now : {text : List ℕ} → Here re text → Somewhere re text
  later : {t : ℕ} {text : List ℕ} → Somewhere re text → Somewhere re (t ∷ text)

from_sound : (re text : List ℕ) → match_from re text ≡ true → Somewhere re text
unfolding match_from
from_sound re [] e = now (matchhere_sound re [] e)
from_sound re (t ∷ text) e = elim (Bool-cases (matchhere re (t ∷ text))) [
  | inl h ↦ now (matchhere_sound re (t ∷ text) h)
  | inr h ↦ later (from_sound re text (rw h at e))
]

from_now : (re text : List ℕ) → matchhere re text ≡ true → match_from re text ≡ true
unfolding match_from
from_now re [] e = e
from_now re (t ∷ text) e = rw e refl

from_complete : {re text : List ℕ} → Somewhere re text → match_from re text ≡ true
unfolding match_from
from_complete {re} {text} (now h) = from_now re text (matchhere_complete h)
from_complete {re} (later {t} {text} s) = elim (Bool-cases (matchhere re (t ∷ text))) [
  | inl h ↦ rw h refl
  | inr h ↦ rw h (from_complete s)
]

-- What a pattern with its anchor means: `^` in front ties it to the start of the text.
pub data Matches : List ℕ → List ℕ → Type 0 where
  anchored : {c : ℕ} {re text : List ℕ} → (c == caret) ≡ true → Here re text → Matches (c ∷ re) text
  floating :
      {c : ℕ} {re text : List ℕ}
      → (c == caret) ≡ false
      → Somewhere (c ∷ re) text
      → Matches (c ∷ re) text
  empty : {text : List ℕ} → Somewhere [] text → Matches [] text

-- `match` answers 1 exactly if the pattern matches: at the start of the text behind a `^`, and
-- else somewhere in the text.
pub match_iff : (re text : List ℕ) → (match_ re text ≡ true) ↔ Matches re text
unfolding match_
match_iff re text = (sound re text, λ m. complete m)
  where
    sound : (re text : List ℕ) → match_ re text ≡ true → Matches re text
    sound [] text e = empty (from_sound [] text e)
    sound (c ∷ re) text e = elim (Bool-cases (c == caret)) [
      | inl q ↦ anchored q (matchhere_sound re text (rw q at e))
      | inr q ↦ floating q (from_sound (c ∷ re) text (rw q at e))
    ]

    complete : {re text : List ℕ} → Matches re text → match_ re text ≡ true
    complete (anchored q h) = rw q (matchhere_complete h)
    complete (floating q s) = rw q (from_complete s)
    complete (empty s) = from_complete s
