-- ===== src/Shell/Tokens.antt =====
-- The tokens of a line: what they are, and that they get the parser on.
use strace_xv.Base.{
  ◌==◌, Bool-cases, length, length-append, ℕ, ◌≤◌, ◌<◌, ◌≡◌, refl, ap, subst, ◌≢◌, inl, inr, true,
  false, [], ◌∷◌, ◌++◌, arith,
}
use strace_xv.Shell.{
  Chars, strchr, whitespace, symbols, skip_white, is_plain, skip_word, Token, is_single,
  after_greater, scan_token, gettoken, front_in, Word,
}

abbrev pub AllPlain : Chars → Type 0
AllPlain [] = Unit {0}
AllPlain (c ∷ cs) = (is_plain c ≡ true) × AllPlain cs

-- A word has at least one character, and none of them is white or a symbol.
pub record IsWord (w : Word) : Type 0 where
  pub text : Chars
  pub lies : w.0 ≡ text ++ w.1
  pub plain : AllPlain text
  pub some_char : 0 < length text

pub skip_white_le : (s : Chars) → length (skip_white s) ≤ length s
unfolding skip_white
skip_white_le [] = omega arith
skip_white_le (c ∷ s) = elim (Bool-cases (strchr whitespace c)) [
  | inl e ↦ rw e (omega (arith, skip_white_le s))
  | inr e ↦ rw e (omega arith)
]

-- A pointer at the end or at a character that is not white.
abbrev pub AtChar : Chars → Type 0
AtChar [] = Unit {0}
AtChar (c ∷ s) = strchr whitespace c ≡ false

pub AtChar-skip_white : (s : Chars) → AtChar (skip_white s)
unfolding skip_white
AtChar-skip_white [] = tt
AtChar-skip_white (c ∷ s) = elim (Bool-cases (strchr whitespace c)) [
  | inl e ↦ rw e (AtChar-skip_white s)
  | inr e ↦ rw e e
]

pub skip_white-AtChar : (s : Chars) → AtChar s → skip_white s ≡ s
unfolding skip_white
skip_white-AtChar [] h = refl
skip_white-AtChar (c ∷ s) h = rw h refl

word_of : (s : Chars) → (cs : Chars) × (s ≡ cs ++ skip_word s) × AllPlain cs
unfolding skip_word
word_of [] = ([], refl, tt)
word_of (c ∷ s) = elim (Bool-cases (is_plain c)) [
  | inl e ↦ let (cs, q, p) = word_of s in rw e (c ∷ cs, ap (λ l. c ∷ l) q, (e, p))
  | inr e ↦ rw e ([], refl, tt)
]

-- What `scan_token` answers at a character that is not white.
pub data Scanned : Chars → ℕ × Chars → Type 0 where
  at_end : Scanned [] (0, [])
  symbol :
      (s : Chars) (ret : ℕ) (eq : Chars)
      → ret ≢ 0
      → ret ≢ b'a'
      → length eq < length s
      → Scanned s (ret, eq)
  word : (s eq : Chars) → IsWord (s, eq) → length eq < length s → Scanned s (b'a', eq)

single_ne : (c : ℕ) → is_single c ≡ true → (c ≢ 0) × (c ≢ b'a')
unfolding strchr
single_ne c h = (
  λ z. let q = subst (λ x. is_single x ≡ true) z h in cc q,
  λ z. let q = subst (λ x. is_single x ≡ true) z h in cc q,
)

-- Neither single nor a `>`, so no symbol.
no_symbol : (c : ℕ) → is_single c ≡ false → (c == b'>') ≡ false → strchr symbols c ≡ false
unfolding strchr
no_symbol c h n = ground arith

after_greater_lem :
    (s : Chars)
    → ((after_greater s).0 ≢ 0)
      × ((after_greater s).0 ≢ b'a')
      × (length (after_greater s).1 ≤ length s)
unfolding after_greater
after_greater_lem [] = (λ z. absurd (omega arith), λ z. absurd (omega arith), omega arith)
after_greater_lem (c ∷ s) = elim (Bool-cases (c == b'>')) [
  | inl e ↦ rw e (λ z. absurd (omega arith), λ z. absurd (omega arith), omega arith)
  | inr e ↦ rw e (λ z. absurd (omega arith), λ z. absurd (omega arith), omega arith)
]

word_here : (c : ℕ) (s : Chars) → is_plain c ≡ true → Scanned (c ∷ s) (b'a', skip_word (c ∷ s))
unfolding skip_word
word_here c s h =
    let (cs, q, p) = word_of s in
    rw h (
      word (c ∷ s) (skip_word s)
        (record {
          text = c ∷ cs;
          lies = ap (λ l. c ∷ l) q;
          plain = (h, p);
          some_char = omega arith;
        })
        (omega (arith, ap length q, length-append cs (skip_word s))))

scan_token-Scanned : (s : Chars) → AtChar s → Scanned s (scan_token s)
unfolding scan_token
scan_token-Scanned [] h = at_end
scan_token-Scanned (c ∷ s) h = elim (Bool-cases (is_single c)) [
  | inl e ↦ rw e (symbol (c ∷ s) c s (single_ne c e).0 (single_ne c e).1 (omega arith))
  | inr e ↦ elim (Bool-cases (c == b'>')) [
    | inl g ↦
        let (a, b, l) = after_greater_lem s in
        rw (e, g) (symbol (c ∷ s) (after_greater s).0 (after_greater s).1 a b (omega arith))
    | inr g ↦
        let plain : is_plain c ≡ true = rw (h, no_symbol c e g) refl in
        rw (e, g) (word_here c s plain)
  ]
]

-- What the parser needs of a token.
pub record IsToken (s : Chars) (t : Token) : Type 0 where
  pub le : length (t.rest) ≤ length s
  pub shorter : t.ret ≢ 0 → length (t.rest) < length s
  pub word : t.ret ≡ b'a' → IsWord (t.start, t.end)

-- `gettoken` takes at least one character unless it answers 0, and behind an `a` the pointers hold a
-- word between them.
pub gettoken-IsToken : (s : Chars) → IsToken s (gettoken s)
unfolding gettoken
gettoken-IsToken s = go (scan_token-Scanned (skip_white s) (AtChar-skip_white s))
  where
    go :
        {o : ℕ × Chars}
        → Scanned (skip_white s) o
        → IsToken s (record { ret = o.0; start = skip_white s; end = o.1; rest = skip_white o.1 })
    go x = at (skip_white s) (skip_white_le s) x
      where
        at :
            (q : Chars)
            → length q ≤ length s
            → {o : ℕ × Chars} → Scanned q o
            → IsToken s (record { ret = o.0; start = q; end = o.1; rest = skip_white o.1 })
        at q h at_end = record {
          le = omega (arith, skip_white_le []);
          shorter = λ n. absurd (n refl);
          word = λ e. absurd (omega arith);
        }
        at q h (symbol q' ret eq n a l) = record {
          le = omega (arith, skip_white_le eq);
          shorter = λ z. omega (arith, skip_white_le eq);
          word = λ e. absurd (a e);
        }
        at q h (word q' eq w l) = record {
          le = omega (arith, skip_white_le eq);
          shorter = λ z. omega (arith, skip_white_le eq);
          word = λ e. w;
        }

-- Where `peek` answers yes, there is a token.
pub front-gettoken : (toks s : Chars) → AtChar s → front_in toks s ≡ true → (gettoken s).ret ≢ 0
unfolding front_in gettoken
front-gettoken toks [] a h = absurd (cc)
front-gettoken toks (c ∷ s) a h =
    rw (skip_white-AtChar (c ∷ s) a) (go (scan_token-Scanned (c ∷ s) a))
  where
    go : {o : ℕ × Chars} → Scanned (c ∷ s) o → o.0 ≢ 0
    go (symbol q ret eq n x l) = n
    go (word q eq w l) = λ z. absurd (omega arith)
