-- ===== src/Shell/Reads.antt =====
-- The parser reads each line of the grammar as the command that it means.
use strace_xv.Base.{
  length, ℕ, zero, suc, ◌+◌, ◌≤◌, ◌<◌, ◌≡◌, refl, sym, ap, ◌∙◌, subst, false, List, [], ◌∷◌, ◌++◌,
  append-nil, append_assoc, arith,
}
use strace_xv.Shell.{
  Chars, strchr, skip_white, front_in, peek, Word, Cmd, exec, pipe, list, back, add_arg, Result, ok,
  and_then, parseredirs, parseargs, parseblock, parseexec, parsepipe, parseback, parseline,
  finish_line, nulterminate, end_all, parsecmd,
}
use strace_xv.Shell.Tokens.{AtChar, skip_white-AtChar}
use strace_xv.Shell.Grammar.{
  Name, Redirection, input, output, append, put_name, put_names, put_redirs, put_amps, string,
  strings, redirected, backs, Simple, plain, block, Pipeline, one, more, Line, last, seq,
  put_simple, put_pipeline, put_line, simple, pipeline, meaning, LineEnd, end, close, AmpEnd,
  of_line, semi, PipeEnd, of_amp, amp, SimpleEnd, of_pipe, bar, AtChar-SimpleEnd, PipeEnd-put_amps,
  AtChar-put_name, AtChar-put_redirs, AtChar-put_pipeline, AtChar-put_line,
}
use strace_xv.Shell.Printed.{
  Gives, gives, Gives-then, gettoken_symbol, no_redirs, put_redirs_le, parseredirs-put_redirs,
}
use strace_xv.Shell.Arguments.{
  no_redir, front_name, stop_args, no_block, added, put_names_le, parseargs-put_names,
}

added-strings : (xs : List Word) (ws : List Name) → added (exec xs) ws ≡ exec (xs ++ strings ws)
unfolding add_arg strings
added-strings xs [] = ap exec (sym (append-nil xs))
added-strings xs (w ∷ ws) =
    added-strings (xs ++ (string w ∷ [])) ws
    ∙ ap exec (append_assoc xs (string w ∷ []) (strings ws))

put_amps_le : (n : ℕ) (r : Chars) → length r ≤ length (put_amps n r)
unfolding put_amps
put_amps_le zero r = omega arith
put_amps_le (suc n) r = omega (arith, put_amps_le n r)

mutual
  unfolding put_simple put_pipeline put_line

  put_simple_le : (e : Simple) (r : Chars) → length r ≤ length (put_simple e r)
  put_simple_le (plain args few rs) r =
      omega (arith, put_names_le args (put_redirs rs r), put_redirs_le rs r)
  put_simple_le (block l rs) r =
      omega (arith, put_line_le l (b')' ∷ 32 ∷ put_redirs rs r), put_redirs_le rs r)

  put_pipeline_le : (p : Pipeline) (r : Chars) → length r ≤ length (put_pipeline p r)
  put_pipeline_le (one e) r = put_simple_le e r
  put_pipeline_le (more e p) r =
      omega (arith, put_simple_le e (b'|' ∷ 32 ∷ put_pipeline p r), put_pipeline_le p r)

  put_line_le : (l : Line) (r : Chars) → length r ≤ length (put_line l r)
  put_line_le (last p n) r = omega (arith, put_pipeline_le p (put_amps n r), put_amps_le n r)
  put_line_le (seq p n l) r = omega (
    arith,
    put_pipeline_le p (put_amps n (b';' ∷ 32 ∷ put_line l r)),
    put_amps_le n (b';' ∷ 32 ∷ put_line l r),
    put_line_le l r,
  )

-- The `&` behind a pipeline.
front_amp : {r : Chars} → AmpEnd r → front_in (b'&' ∷ []) r ≡ false
unfolding front_in strchr
front_amp (semi r h) = refl
front_amp (of_line (close r h)) = refl
front_amp (of_line end) = refl

parseback-put_amps :
    (n fuel : ℕ) (c : Cmd) {r : Chars}
    → AmpEnd r
    → length (put_amps n r) < fuel
    → Gives (backs n (nulterminate c)) r (parseback fuel c (put_amps n r))
unfolding parseback peek put_amps backs front_in strchr nulterminate
parseback-put_amps n zero c h l = absurd (omega arith)
parseback-put_amps zero (suc fuel) c {r} h l =
    rw (skip_white-AtChar r (AtChar-SimpleEnd (of_pipe (of_amp h))), front_amp h) (gives c refl)
parseback-put_amps (suc n) (suc fuel) c {r} h l =
    let a = AtChar-SimpleEnd (of_pipe (PipeEnd-put_amps n h)) in
    rw
      (
        skip_white-AtChar (b'&' ∷ 32 ∷ put_amps n r) refl,
        gettoken_symbol b'&' (put_amps n r) refl refl a,
      )
      (parseback-put_amps n fuel (back c) h (omega arith))

-- What does not open a block.
front_block : {r : Chars} → SimpleEnd r → front_in (b'(' ∷ []) r ≡ false
unfolding front_in strchr
front_block (bar r h) = refl
front_block (of_pipe (amp r h)) = refl
front_block (of_pipe (of_amp (semi r h))) = refl
front_block (of_pipe (of_amp (of_line (close r h)))) = refl
front_block (of_pipe (of_amp (of_line end))) = refl

front_block-put_redirs :
    (rs : List Redirection) {r : Chars}
    → SimpleEnd r
    → front_in (b'(' ∷ []) (put_redirs rs r) ≡ false
unfolding put_redirs front_in strchr
front_block-put_redirs [] h = front_block h
front_block-put_redirs (input f ∷ rs) h = refl
front_block-put_redirs (output f ∷ rs) h = refl
front_block-put_redirs (append f ∷ rs) h = refl

-- A simple command that is no block.
parseexec-plain :
    (args : List Name) (rs : List Redirection) (line : Chars → Result Cmd) (fuel : ℕ) {r : Chars}
    → length args < 10
    → SimpleEnd r
    → length (put_names args (put_redirs rs r)) < fuel
    → Gives
        (redirected (exec (strings args)) rs)
        r
        (parseexec line fuel (put_names args (put_redirs rs r)))
unfolding parseexec peek put_names strings
parseexec-plain args rs line zero few h l = absurd (omega arith)
parseexec-plain [] rs line (suc fuel) {r} few h l =
    let y = put_redirs rs r in
    let ended : nulterminate (exec []) ≡ exec [] = unfold nulterminate end_all in refl in
    rw
      (
        skip_white-AtChar y (AtChar-put_redirs rs r (AtChar-SimpleEnd h)),
        front_block-put_redirs rs h,
      )
      (Gives-then (λ c s. parseargs (suc fuel) 0 c s)
        (parseredirs-put_redirs rs (suc fuel) (exec []) h l)
        (λ d q. rw (stop_args fuel 0 d h) (gives d (q ∙ ap (λ m. redirected m rs) ended))))
parseexec-plain (w ∷ ws) rs line (suc fuel) {r} few h l =
    let y = put_names (w ∷ ws) (put_redirs rs r) in
    let tail = put_names ws (put_redirs rs r) in
    let clean = AtChar-put_name w tail in
    let ended : nulterminate (exec []) ≡ exec [] = unfold nulterminate end_all in refl in
    rw
      (
        skip_white-AtChar (put_name w tail) clean,
        front_name w tail (b'(' ∷ []) no_block,
        no_redirs fuel (exec []) (put_name w tail) clean
            (front_name w tail (b'<' ∷ b'>' ∷ []) no_redir),
      )
      (subst (λ m. Gives (redirected m rs) r (parseargs (suc fuel) 0 (exec []) y))
        (ap (λ m. added m (w ∷ ws)) ended ∙ added-strings [] (w ∷ ws))
        (parseargs-put_names w ws rs (suc fuel) 0 (exec []) h (omega arith) l))

-- A block, if `line` reads what stands in it.
parseexec-block :
    (m : Cmd) (x : Chars) (rs : List Redirection) (line : Chars → Result Cmd) (fuel : ℕ) {r : Chars}
    → SimpleEnd r
    → AtChar x
    → Gives m (b')' ∷ 32 ∷ put_redirs rs r) (line x)
    → length (put_redirs rs r) < fuel
    → Gives (redirected m rs) r (parseexec line fuel (b'(' ∷ 32 ∷ x))
unfolding parseexec parseblock peek front_in strchr
parseexec-block m x rs line fuel {r} h a g l =
    rw
      (
        skip_white-AtChar (b'(' ∷ 32 ∷ x) refl,
        skip_white-AtChar (b'(' ∷ 32 ∷ x) refl,
        gettoken_symbol b'(' x refl refl a,
      )
      (Gives-then _ g (λ c e.
        let y = put_redirs rs r in
        rw
          (
            skip_white-AtChar (b')' ∷ 32 ∷ y) refl,
            gettoken_symbol b')' y refl refl (AtChar-put_redirs rs r (AtChar-SimpleEnd h)),
          )
          (subst (λ k. Gives (redirected k rs) r (parseredirs fuel c y)) e
            (parseredirs-put_redirs rs fuel c h l))))

front_bar : {r : Chars} → PipeEnd r → front_in (b'|' ∷ []) r ≡ false
unfolding front_in strchr
front_bar (amp r h) = refl
front_bar (of_amp (semi r h)) = refl
front_bar (of_amp (of_line (close r h))) = refl
front_bar (of_amp (of_line end)) = refl

front_semi : {r : Chars} → LineEnd r → front_in (b';' ∷ []) r ≡ false
unfolding front_in strchr
front_semi (close r h) = refl
front_semi end = refl

-- `parsepipe` behind its first command, at the end and at a `|`.
parsepipe-end :
    (m : Cmd) (s : Chars) (line : Chars → Result Cmd) (fuel : ℕ) {r : Chars}
    → PipeEnd r
    → Gives m r (parseexec line fuel s)
    → Gives m r (parsepipe line (suc fuel) s)
unfolding parsepipe peek
parsepipe-end m s line fuel {r} h g =
    Gives-then _ g
      (λ c e. rw (skip_white-AtChar r (AtChar-SimpleEnd (of_pipe h)), front_bar h) (gives c e))

parsepipe-bar :
    (m k : Cmd) (s x : Chars) (line : Chars → Result Cmd) (fuel : ℕ) {r : Chars}
    → AtChar x
    → Gives m (b'|' ∷ 32 ∷ x) (parseexec line fuel s)
    → Gives k r (parsepipe line fuel x)
    → Gives (pipe m k) r (parsepipe line (suc fuel) s)
unfolding parsepipe peek front_in strchr nulterminate
parsepipe-bar m k s x line fuel {r} a g i = Gives-then _ g (λ c e.
    rw (skip_white-AtChar (b'|' ∷ 32 ∷ x) refl, gettoken_symbol b'|' x refl refl a)
      (Gives-then _ i (λ d q. gives (pipe c d) (rw (e, q) refl))))

parseline-end :
    (m : Cmd) (s : Chars) (n fuel : ℕ) {r : Chars}
    → LineEnd r
    → length (put_amps n r) < fuel
    → Gives m (put_amps n r) (parsepipe (λ t. parseline fuel t) fuel s)
    → Gives (backs n m) r (parseline (suc fuel) s)
unfolding parseline peek
parseline-end m s n fuel {r} h l g = Gives-then _ g (λ c e.
    Gives-then _
      (subst (λ k. Gives (backs n k) r (parseback fuel c (put_amps n r))) e
        (parseback-put_amps n fuel c (of_line h) l))
      (λ d q.
        rw (skip_white-AtChar r (AtChar-SimpleEnd (of_pipe (of_amp (of_line h)))), front_semi h)
          (gives d q)))

parseline-semi :
    (m k : Cmd) (s x : Chars) (n fuel : ℕ) {r : Chars}
    → AtChar x
    → length (put_amps n (b';' ∷ 32 ∷ x)) < fuel
    → Gives m (put_amps n (b';' ∷ 32 ∷ x)) (parsepipe (λ t. parseline fuel t) fuel s)
    → Gives k r (parseline fuel x)
    → Gives (list (backs n m) k) r (parseline (suc fuel) s)
unfolding parseline peek front_in strchr nulterminate
parseline-semi m k s x n fuel {r} a l g i = Gives-then _ g (λ c e.
    Gives-then _
      (subst
        (λ v. Gives (backs n v) (b';' ∷ 32 ∷ x) (parseback fuel c (put_amps n (b';' ∷ 32 ∷ x)))) e
        (parseback-put_amps n fuel c (semi x a) l))
      (λ d q.
        rw (skip_white-AtChar (b';' ∷ 32 ∷ x) refl, gettoken_symbol b';' x refl refl a)
          (Gives-then _ i (λ z w. gives (list d z) (rw (q, w) refl)))))

mutual
  unfolding put_simple put_pipeline put_line simple pipeline meaning

  parseexec-put_simple :
      (e : Simple) (f fuel : ℕ) (r : Chars)
      → SimpleEnd r
      → length (put_simple e r) + 1 < f
      → length (put_simple e r) < fuel
      → Gives (simple e) r (parseexec (λ t. parseline f t) fuel (put_simple e r))
  parseexec-put_simple (plain args few rs) f fuel r h u v =
      parseexec-plain args rs (λ t. parseline f t) fuel few h v
  parseexec-put_simple (block l rs) f fuel r h u v =
      let y = b')' ∷ 32 ∷ put_redirs rs r in
      let ends : LineEnd y =
        close (put_redirs rs r) (AtChar-put_redirs rs r (AtChar-SimpleEnd h)) in
      parseexec-block (meaning l) (put_line l y) rs (λ t. parseline f t) fuel h
        (AtChar-put_line l y (AtChar-SimpleEnd (of_pipe (of_amp (of_line ends)))) (of_line ends))
        (parseline-put_line l f y ends (omega arith)) (omega (arith, put_line_le l y))

  parsepipe-put_pipeline :
      (p : Pipeline) (f fuel : ℕ) (r : Chars)
      → PipeEnd r
      → length (put_pipeline p r) + 1 < f
      → length (put_pipeline p r) + 1 < fuel
      → Gives (pipeline p) r (parsepipe (λ t. parseline f t) fuel (put_pipeline p r))
  parsepipe-put_pipeline p f zero r h u v = absurd (omega arith)
  parsepipe-put_pipeline (one e) f (suc fuel) r h u v =
      parsepipe-end (simple e) (put_simple e r) (λ t. parseline f t) fuel h
        (parseexec-put_simple e f fuel r (of_pipe h) u (omega arith))
  parsepipe-put_pipeline (more e p) f (suc fuel) r h u v =
      let x = put_pipeline p r in
      let a = AtChar-put_pipeline p r (AtChar-SimpleEnd (of_pipe h)) in
      parsepipe-bar (simple e) (pipeline p) (put_simple e (b'|' ∷ 32 ∷ x)) x (λ t. parseline f t)
        fuel a (parseexec-put_simple e f fuel (b'|' ∷ 32 ∷ x) (bar x a) u (omega arith))
        (parsepipe-put_pipeline p f fuel r h (omega (arith, put_simple_le e (b'|' ∷ 32 ∷ x)))
          (omega (arith, put_simple_le e (b'|' ∷ 32 ∷ x))))

  parseline-put_line :
      (l : Line) (fuel : ℕ) (r : Chars)
      → LineEnd r
      → length (put_line l r) + 2 < fuel
      → Gives (meaning l) r (parseline fuel (put_line l r))
  parseline-put_line l zero r h u = absurd (omega arith)
  parseline-put_line (last p n) (suc fuel) r h u =
      parseline-end (pipeline p) (put_pipeline p (put_amps n r)) n fuel h
        (omega (arith, put_pipeline_le p (put_amps n r)))
        (parsepipe-put_pipeline p fuel fuel (put_amps n r) (PipeEnd-put_amps n (of_line h))
          (omega arith) (omega arith))
  parseline-put_line (seq p n l) (suc fuel) r h u =
      let x = put_line l r in
      let a = AtChar-put_line l r (AtChar-SimpleEnd (of_pipe (of_amp (of_line h)))) (of_line h) in
      let y = put_amps n (b';' ∷ 32 ∷ x) in
      parseline-semi (pipeline p) (meaning l) (put_pipeline p y) x n fuel a
        (omega (arith, put_pipeline_le p y))
        (parsepipe-put_pipeline p fuel fuel y (PipeEnd-put_amps n (semi x a)) (omega arith)
          (omega arith))
        (parseline-put_line l fuel r h
          (omega (arith, put_pipeline_le p y, put_amps_le n (b';' ∷ 32 ∷ x))))

-- `parsecmd` reads each line of the grammar, written with a space behind each token, as the command
-- that it means: redirections bind to their simple command or block, in their order, `|` binds
-- tighter than `&` and `;`, and `|` and `;` nest to the right.
pub parsecmd-put_line : (l : Line) → parsecmd (put_line l []) ≡ ok (meaning l) []
unfolding parsecmd skip_white
parsecmd-put_line l = go (parseline-put_line l (length (put_line l []) + 3) [] end (omega arith))
  where
    go :
        {o : Result Cmd}
        → Gives (meaning l) [] o
        → and_then o (λ c s. finish_line c (skip_white s)) ≡ ok (meaning l) []
    go (gives c e) = ap (λ m. ok m []) e
