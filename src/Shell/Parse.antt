-- ===== src/Shell/Parse.antt =====
-- The parser ends, and its commands are well formed.
use strace_xv.Base.{
  leb, ◌==◌, Bool-cases, length, length-append, ℕ, zero, suc, ◌+◌, ◌≤◌, ◌<◌, ◌≡◌, refl, inl, inr,
  true, not, List, [], ◌∷◌, ◌++◌, arith,
}
use strace_xv.Shell.{
  Chars, skip_white, gettoken, front_in, peek, Word, Cmd, exec, redir, pipe, list, back, add_arg,
  Result, ok, panic, and_then, redirect, parseredirs, parseargs, parseblock, parseexec, parsepipe,
  parseback, parseline,
}
use strace_xv.Shell.Tokens.{
  IsWord, skip_white_le, AtChar-skip_white, gettoken-IsToken, front-gettoken,
}

abbrev pub AllWords : List Word → Type 0
AllWords [] = Unit {0}
AllWords (w ∷ ws) = IsWord w × AllWords ws

-- A command of which each argument and file is a word, and each `argv` has room for a null pointer.
abbrev pub IsCmd : Cmd → Type 0
IsCmd (exec argv) = AllWords argv × (length argv < 10)
IsCmd (redir c file mode fd) = IsCmd c × IsWord file
IsCmd (pipe l r) = IsCmd l × IsCmd r
IsCmd (list l r) = IsCmd l × IsCmd r
IsCmd (back c) = IsCmd c

-- A command with `n` arguments, perhaps with redirections round it.
abbrev IsExec : ℕ → Cmd → Type 0
IsExec n (exec argv) = AllWords argv × (length argv ≡ n)
IsExec n (redir c file mode fd) = IsExec n c × IsWord file
IsExec n (pipe l r) = ⊥
IsExec n (list l r) = ⊥
IsExec n (back c) = ⊥

-- A result that is no lack of fuel, with a command for which `P` holds, and at most `n` characters
-- left.
pub data Good (P : Cmd → Type 0) (n : ℕ) : Result Cmd → Type 0 where
  panics : Good P n panic
  parsed : (c : Cmd) (s : Chars) → P c → length s ≤ n → Good P n (ok c s)

module _ {P Q : Cmd → Type 0} where
  pub Good-and_then :
      {n m : ℕ} {r : Result Cmd} {f : Cmd → Chars → Result Cmd}
      → Good P n r
      → ((c : Cmd) (s : Chars) → P c → length s ≤ n → Good Q m (f c s))
      → Good Q m (and_then r f)
  unfolding and_then
  Good-and_then panics h = panics
  Good-and_then (parsed c s p l) h = h c s p l

Good-le : {P : Cmd → Type 0} {n m : ℕ} {r : Result Cmd} → n ≤ m → Good P n r → Good P m r
Good-le h panics = panics
Good-le h (parsed c s p l) = parsed c s p (omega arith)

AllWords-append : (ws : List Word) (w : Word) → AllWords ws → IsWord w → AllWords (ws ++ (w ∷ []))
AllWords-append [] w a i = (i, tt)
AllWords-append (v ∷ ws) w (x, a) i = (x, AllWords-append ws w a i)

IsExec-add_arg : (n : ℕ) (c : Cmd) (w : Word) → IsExec n c → IsWord w → IsExec (n + 1) (add_arg c w)
unfolding add_arg
IsExec-add_arg n (exec argv) w (a, l) i =
    (AllWords-append argv w a i, omega (arith, length-append argv (w ∷ [])))
IsExec-add_arg n (redir c file mode fd) w (a, f) i = (IsExec-add_arg n c w a i, f)
IsExec-add_arg n (pipe l r) w h i = absurd h
IsExec-add_arg n (list l r) w h i = absurd h
IsExec-add_arg n (back c) w h i = absurd h

IsExec-IsCmd : (n : ℕ) (c : Cmd) → n < 10 → IsExec n c → IsCmd c
IsExec-IsCmd n (exec argv) h (a, l) = (a, omega arith)
IsExec-IsCmd n (redir c file mode fd) h (a, f) = (IsExec-IsCmd n c h a, f)
IsExec-IsCmd n (pipe l r) h x = absurd x
IsExec-IsCmd n (list l r) h x = absurd x
IsExec-IsCmd n (back c) h x = absurd x

-- Where `peek` answers yes, `gettoken` takes a character.
token_after :
    (toks s : Chars)
    → front_in toks (skip_white s) ≡ true
    → length (gettoken (skip_white s)).rest < length s
token_after toks s h = omega (
  arith,
  (gettoken-IsToken (skip_white s)).shorter
      (front-gettoken toks (skip_white s) (AtChar-skip_white s) h),
  skip_white_le s,
)

module _ (P : Cmd → Type 0)
    (closed : (c : Cmd) (w : Word) (mode fd : ℕ) → P c → IsWord w → P (redir c w mode fd)) where
  redirect_closed : (tok : ℕ) (c : Cmd) (w : Word) → P c → IsWord w → P (redirect tok c w)
  redirect_closed tok c w p i = elim (Bool-cases (tok == b'<')) [
    | inl e ↦ rw e (closed c w 0 0 p i)
    | inr e ↦ rw e (closed c w 513 1 p i)
  ]

  parseredirs-Good :
      (fuel : ℕ) (c : Cmd) (s : Chars)
      → P c
      → length s < fuel
      → Good P (length s) (parseredirs fuel c s)
  unfolding parseredirs peek
  parseredirs-Good zero c s p h = absurd (omega arith)
  parseredirs-Good (suc fuel) c s p h =
      let op = gettoken (skip_white s) in
      let file = gettoken (op.rest) in
      elim (Bool-cases (front_in (b'<' ∷ b'>' ∷ []) (skip_white s))) [
        | inr no_more ↦ rw no_more (parsed c (skip_white s) p (skip_white_le s))
        | inl more ↦ elim (Bool-cases (file.ret == b'a')) [
          | inr bad ↦ rw (more, bad) panics
          | inl good ↦
              let less = token_after (b'<' ∷ b'>' ∷ []) s more in
              let t = gettoken-IsToken (op.rest) in
              rw (more, good)
                (Good-le (omega (arith, t.le)) (
                  parseredirs-Good fuel (redirect op.ret c (file.start, file.end)) (file.rest)
                    (redirect_closed op.ret c (file.start, file.end) p (t.word (ground arith)))
                    (omega (arith, t.le))))
        ]
      ]

parseargs-Good :
    (fuel argc : ℕ) (c : Cmd) (s : Chars)
    → argc < 10
    → IsExec argc c
    → length s < fuel
    → Good IsCmd (length s) (parseargs fuel argc c s)
unfolding parseargs peek
parseargs-Good zero argc c s n p h = absurd (omega arith)
parseargs-Good (suc fuel) argc c s n p h =
    let arg = gettoken (skip_white s) in
    let t = gettoken-IsToken (skip_white s) in
    elim (Bool-cases (front_in (b'|' ∷ b')' ∷ b'&' ∷ b';' ∷ []) (skip_white s))) [
      | inl stop ↦ rw stop (parsed c (skip_white s) (IsExec-IsCmd argc c n p) (skip_white_le s))
      | inr go_on ↦ elim (Bool-cases (arg.ret == 0)) [
        | inl end ↦
            rw (go_on, end)
              (parsed c (arg.rest) (IsExec-IsCmd argc c n p) (omega (arith, t.le, skip_white_le s)))
        | inr more ↦ elim (Bool-cases (not (arg.ret == b'a'))) [
          | inl bad ↦ rw (go_on, more, bad) panics
          | inr good ↦ elim (Bool-cases (leb 10 (argc + 1))) [
            | inl full ↦ rw (go_on, more, good, full) panics
            | inr room ↦
                let less = t.shorter (ground arith) in
                rw (go_on, more, good, room)
                  (Good-and_then {P = IsExec (argc + 1)} {n = length (arg.rest)}
                    (parseredirs-Good (IsExec (argc + 1)) (λ d w mode fd q i. (q, i)) fuel
                      (add_arg c (arg.start, arg.end)) (arg.rest)
                      (IsExec-add_arg argc c (arg.start, arg.end) p (t.word (ground arith)))
                      (omega (arith, less, skip_white_le s)))
                    (λ d s' q l. Good-le (omega (arith, less, skip_white_le s)) (
                      parseargs-Good fuel (argc + 1) d s' (ground arith) q
                        (omega (arith, less, skip_white_le s)))))
          ]
        ]
      ]
    ]

-- A parsing function on lines of less than `n` characters.
abbrev Parses : ℕ → (Chars → Result Cmd) → Type 0
Parses n line = (s : Chars) → length s < n → Good IsCmd (length s) (line s)

closed_redir : (c : Cmd) (w : Word) (mode fd : ℕ) → IsCmd c → IsWord w → IsCmd (redir c w mode fd)
closed_redir c w mode fd p i = (p, i)

parseblock-Good :
    (line : Chars → Result Cmd) (fuel n : ℕ) (s : Chars)
    → Parses n line
    → length s ≤ n
    → length s < fuel
    → Good IsCmd (length s) (parseblock line fuel s)
unfolding parseblock peek
parseblock-Good line fuel n s p h u = elim (Bool-cases (front_in (b'(' ∷ []) (skip_white s))) [
  | inr shut ↦ rw shut panics
  | inl opened ↦
      let less = token_after (b'(' ∷ []) s opened in
      rw opened (
        Good-and_then {P = IsCmd} {n = length (gettoken (skip_white s)).rest}
          (p (gettoken (skip_white s)).rest (omega arith))
          (λ c s2 q l. elim (Bool-cases (front_in (b')' ∷ []) (skip_white s2))) [
            | inr no_end ↦ rw no_end panics
            | inl end ↦
                let less2 = token_after (b')' ∷ []) s2 end in
                rw end (
                  Good-le (omega arith) (
                    parseredirs-Good IsCmd closed_redir fuel c (gettoken (skip_white s2)).rest q
                      (omega arith)))
          ]))
]

parseexec-Good :
    (line : Chars → Result Cmd) (fuel n : ℕ) (s : Chars)
    → Parses n line
    → length s ≤ n
    → length s < fuel
    → Good IsCmd (length s) (parseexec line fuel s)
unfolding parseexec peek
parseexec-Good line fuel n s p h u =
    let le = skip_white_le s in
    elim (Bool-cases (front_in (b'(' ∷ []) (skip_white s))) [
      | inl block ↦
          rw block
            (Good-le le (parseblock-Good line fuel n (skip_white s) p (omega arith) (omega arith)))
      | inr plain ↦ rw plain (
          Good-and_then {P = IsExec 0} {n = length (skip_white s)}
            (parseredirs-Good (IsExec 0) (λ d w mode fd q i. (q, i)) fuel (exec []) (skip_white s)
              (tt, refl) (omega arith))
            (λ c s2 q l.
              Good-le (omega arith) (parseargs-Good fuel 0 c s2 (omega arith) q (omega arith))))
    ]

parsepipe-Good :
    (line : Chars → Result Cmd) (fuel n : ℕ) (s : Chars)
    → Parses n line
    → length s ≤ n
    → length s + 1 < fuel
    → Good IsCmd (length s) (parsepipe line fuel s)
unfolding parsepipe peek
parsepipe-Good line zero n s p h u = absurd (omega arith)
parsepipe-Good line (suc fuel) n s p h u =
    Good-and_then {P = IsCmd} {n = length s} (parseexec-Good line fuel n s p h (omega arith))
      (λ c s1 q l. elim (Bool-cases (front_in (b'|' ∷ []) (skip_white s1))) [
        | inr end ↦ rw end (parsed c (skip_white s1) q (omega (arith, skip_white_le s1)))
        | inl more ↦
            let less = token_after (b'|' ∷ []) s1 more in
            rw more (
              Good-and_then {P = IsCmd} {n = length (gettoken (skip_white s1)).rest}
                (parsepipe-Good line fuel n (gettoken (skip_white s1)).rest p (omega arith)
                  (omega arith))
                (λ r s3 x y. parsed (pipe c r) s3 (q, x) (omega arith)))
      ])

parseback-Good :
    (fuel : ℕ) (c : Cmd) (s : Chars)
    → IsCmd c
    → length s < fuel
    → Good IsCmd (length s) (parseback fuel c s)
unfolding parseback peek
parseback-Good zero c s p h = absurd (omega arith)
parseback-Good (suc fuel) c s p h = elim (Bool-cases (front_in (b'&' ∷ []) (skip_white s))) [
  | inr end ↦ rw end (parsed c (skip_white s) p (skip_white_le s))
  | inl more ↦
      let less = token_after (b'&' ∷ []) s more in
      rw more (
        Good-le (omega arith)
          (parseback-Good fuel (back c) (gettoken (skip_white s)).rest p (omega arith)))
]

pub parseline-Good :
    (fuel : ℕ) (s : Chars) → length s + 2 < fuel → Good IsCmd (length s) (parseline fuel s)
unfolding parseline peek
parseline-Good zero s h = absurd (omega arith)
parseline-Good (suc fuel) s h =
    Good-and_then {P = IsCmd} {n = length s}
      (parsepipe-Good (λ t. parseline fuel t) fuel (length s) s
        (λ t l. parseline-Good fuel t (omega arith)) (omega arith) (omega arith))
      (λ c s1 q l.
        Good-and_then {P = IsCmd} {n = length s1} (parseback-Good fuel c s1 q (omega arith))
          (λ c2 s2 q2 l2. elim (Bool-cases (front_in (b';' ∷ []) (skip_white s2))) [
            | inr end ↦ rw end (parsed c2 (skip_white s2) q2 (omega (arith, skip_white_le s2)))
            | inl more ↦
                let less = token_after (b';' ∷ []) s2 more in
                rw more (
                  Good-and_then {P = IsCmd} {n = length (gettoken (skip_white s2)).rest}
                    (parseline-Good fuel (gettoken (skip_white s2)).rest (omega arith))
                    (λ r s4 x y. parsed (list c2 r) s4 (q2, x) (omega arith)))
          ]))
