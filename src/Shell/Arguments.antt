-- ===== src/Shell/Arguments.antt =====
-- The parser reads the arguments of a command that the grammar writes.
use strace_xv.Base.{
  leb, length, set, ℕ, zero, suc, ◌+◌, ◌-◌, ◌≤◌, ◌<◌, ◌≡◌, refl, sym, ap, ◌∙◌, subst, ◌⊎◌, inl, inr,
  true, false, List, [], ◌∷◌, ◌++◌, arith,
}
use strace_xv.Shell.{
  Chars, strchr, is_plain, skip_white, scan_token, gettoken, front_in, peek, Word, ended, end_all,
  Cmd, exec, redir, pipe, list, back, add_arg, ok, and_then, parseredirs, parseargs, nulterminate,
}
use strace_xv.Shell.Tokens.{AllPlain, AtChar, skip_white-AtChar}
use strace_xv.Shell.Grammar.{
  Name, Redirection, put_name, put_names, put_redirs, string, redirected, end, close, of_line, semi,
  of_amp, amp, SimpleEnd, of_pipe, bar, AtChar-SimpleEnd, AtChar-put_name, AtChar-put_names,
  AtChar-put_redirs,
}
use strace_xv.Shell.Printed.{
  Gives, gives, Gives-then, gettoken_name, ended_name, put_name_lt, no_redirs,
  parseredirs-put_redirs,
}

-- The end of the arguments.
stops : {r : Chars} → SimpleEnd r → (front_in (b'|' ∷ b')' ∷ b'&' ∷ b';' ∷ []) r ≡ true) ⊎ (r ≡ [])
unfolding front_in strchr
stops (bar r h) = inl refl
stops (of_pipe (amp r h)) = inl refl
stops (of_pipe (of_amp (semi r h))) = inl refl
stops (of_pipe (of_amp (of_line (close r h)))) = inl refl
stops (of_pipe (of_amp (of_line end))) = inr refl

pub stop_args :
    (fuel argc : ℕ) (c : Cmd) {r : Chars} → SimpleEnd r → parseargs (suc fuel) argc c r ≡ ok c r
unfolding parseargs peek gettoken scan_token skip_white front_in
stop_args fuel argc c {r} h = elim (stops h) [
  | inl t ↦ rw (skip_white-AtChar r (AtChar-SimpleEnd h), t) refl
  | inr e ↦ subst (λ x. parseargs (suc fuel) argc c x ≡ ok c x) (sym e) refl
]

-- One argument.
pub front_name :
    (w : Name) (r : Chars) (set : Chars)
    → ((c : ℕ) → is_plain c ≡ true → strchr set c ≡ false)
    → front_in set (put_name w r) ≡ false
unfolding front_in
front_name w r set h = go (w.text) (w.plain) (w.some_char)
  where
    go : (cs : Chars) → AllPlain cs → 0 < length cs → front_in set (cs ++ (32 ∷ r)) ≡ false
    go [] p l = absurd (omega arith)
    go (c ∷ cs) (p, q) l = h c p

no_stop : (c : ℕ) → is_plain c ≡ true → strchr (b'|' ∷ b')' ∷ b'&' ∷ b';' ∷ []) c ≡ false
unfolding strchr
no_stop c h = ground arith

pub no_redir : (c : ℕ) → is_plain c ≡ true → strchr (b'<' ∷ b'>' ∷ []) c ≡ false
unfolding strchr
no_redir c h = ground arith

pub no_block : (c : ℕ) → is_plain c ≡ true → strchr (b'(' ∷ []) c ≡ false
unfolding strchr
no_block c h = ground arith

step_args :
    (fuel argc : ℕ) (c : Cmd) (w : Name) (y : Chars)
    → AtChar y
    → argc + 1 < 10
    → parseargs (suc fuel) argc c (put_name w y)
      ≡ and_then
          (parseredirs fuel (add_arg c (put_name w y, 32 ∷ y)) y)
          (λ c' s'. parseargs fuel (argc + 1) c' s')
unfolding parseargs peek
step_args fuel argc c w y a l =
    let room : leb 10 (argc + 1) ≡ false = ground arith in
    rw
      (
        skip_white-AtChar (put_name w y) (AtChar-put_name w y),
        front_name w y (b'|' ∷ b')' ∷ b'&' ∷ b';' ∷ []) no_stop,
        gettoken_name w y a,
        room,
      )
      refl

abbrev pub added : Cmd → List Name → Cmd
added m [] = m
added m (w ∷ ws) = added (add_arg m (string w)) ws

end_all-append :
    (ws : List Word) (w : Word) → end_all (ws ++ (w ∷ [])) ≡ end_all ws ++ (ended w ∷ [])
unfolding end_all
end_all-append [] w = refl
end_all-append (v ∷ ws) w = ap (λ l. ended v ∷ l) (end_all-append ws w)

nulterminate-add_arg :
    (c : Cmd) (w : Word) → nulterminate (add_arg c w) ≡ add_arg (nulterminate c) (ended w)
unfolding nulterminate add_arg
nulterminate-add_arg (exec argv) w = ap exec (end_all-append argv w)
nulterminate-add_arg (redir c file mode fd) w =
    ap (λ x. redir x (ended file) mode fd) (nulterminate-add_arg c w)
nulterminate-add_arg (pipe l r) w = refl
nulterminate-add_arg (list l r) w = refl
nulterminate-add_arg (back c) w = refl

pub put_names_le : (ws : List Name) (r : Chars) → length r ≤ length (put_names ws r)
unfolding put_names
put_names_le [] r = omega arith
put_names_le (w ∷ ws) r = omega (arith, put_names_le ws r, put_name_lt w (put_names ws r))

-- Arguments, the last of them with redirections behind it.
pub parseargs-put_names :
    (w : Name) (ws : List Name) (rs : List Redirection) (fuel argc : ℕ) (c : Cmd) {r : Chars}
    → SimpleEnd r
    → argc + length (w ∷ ws) < 10
    → length (put_names (w ∷ ws) (put_redirs rs r)) < fuel
    → Gives
        (redirected (added (nulterminate c) (w ∷ ws)) rs)
        r
        (parseargs fuel argc c (put_names (w ∷ ws) (put_redirs rs r)))
unfolding put_names
parseargs-put_names w ws rs zero argc c h n l = absurd (omega arith)
parseargs-put_names w [] rs (suc fuel) argc c {r} h n l =
    let y = put_redirs rs r in
    let a = AtChar-put_redirs rs r (AtChar-SimpleEnd h) in
    let e : nulterminate (add_arg c (put_name w y, 32 ∷ y)) ≡ add_arg (nulterminate c) (string w) =
      nulterminate-add_arg c (put_name w y, 32 ∷ y)
      ∙ ap (add_arg (nulterminate c)) (ended_name w y) in
    rw (step_args fuel argc c w y a (omega arith)) (
      Gives-then (λ c' s'. parseargs fuel (argc + 1) c' s')
        (parseredirs-put_redirs rs fuel (add_arg c (put_name w y, 32 ∷ y)) h
          (omega (arith, put_name_lt w y)))
        (λ d q.
          subst
            (λ k.
              Gives (redirected (add_arg (nulterminate c) (string w)) rs) r
                (parseargs k (argc + 1) d r))
            (let k : suc (fuel - 1) ≡ fuel = omega (arith, put_name_lt w y) in k)
            (rw (stop_args (fuel - 1) (argc + 1) d h) (gives d (q ∙ ap (λ m. redirected m rs) e)))))
parseargs-put_names w (v ∷ ws) rs (suc fuel) argc c {r} h n l =
    let y = put_names (v ∷ ws) (put_redirs rs r) in
    let a =
      AtChar-put_names (v ∷ ws) (put_redirs rs r) (AtChar-put_redirs rs r (AtChar-SimpleEnd h)) in
    let arg = add_arg c (put_name w y, 32 ∷ y) in
    let e : nulterminate arg ≡ add_arg (nulterminate c) (string w) =
      nulterminate-add_arg c (put_name w y, 32 ∷ y)
      ∙ ap (add_arg (nulterminate c)) (ended_name w y) in
    let f : suc (fuel - 1) ≡ fuel = omega (arith, put_name_lt w y) in
    let none_there : parseredirs fuel arg y ≡ ok arg y =
      subst (λ k. parseredirs k arg y ≡ ok arg y) f
        (no_redirs (fuel - 1) arg y a
          (front_name v (put_names ws (put_redirs rs r)) (b'<' ∷ b'>' ∷ []) no_redir)) in
    rw (step_args fuel argc c w y a (omega arith)) (
      Gives-then {m = add_arg (nulterminate c) (string w)} {r = y}
        (λ c' s'. parseargs fuel (argc + 1) c' s') (rw none_there (gives arg e))
        (λ d q.
          subst (λ m. Gives (redirected (added m (v ∷ ws)) rs) r (parseargs fuel (argc + 1) d y)) q
            (parseargs-put_names v ws rs fuel (argc + 1) d h (omega arith)
              (omega (arith, put_name_lt w y)))))
