-- ===== src/Shell/Line.antt =====
-- `parsecmd`: every line is parsed, or refused.
use strace_xv.Base.{
  length, length-append, suc, ◌+◌, ◌-◌, ◌≡◌, refl, sym, ap, ◌∙◌, List, [], ◌∷◌, ◌++◌, append-nil,
  arith,
}
use strace_xv.Shell.{
  Chars, skip_white, Word, up_to, ended, end_all, Cmd, exec, redir, pipe, list, back, finish_line,
  nulterminate, parsecmd,
}
use strace_xv.Shell.Tokens.{IsWord}
use strace_xv.Shell.Parse.{AllWords, IsCmd, Good, panics, parsed, Good-and_then, parseline-Good}

-- The strings end where the words do.
abbrev pub AllEnded : List Word → Type 0
AllEnded [] = Unit {0}
AllEnded (w ∷ ws) = (w.1 ≡ []) × AllEnded ws

abbrev pub IsEnded : Cmd → Type 0
IsEnded (exec argv) = AllEnded argv
IsEnded (redir c file mode fd) = IsEnded c × (file.1 ≡ [])
IsEnded (pipe l r) = IsEnded l × IsEnded r
IsEnded (list l r) = IsEnded l × IsEnded r
IsEnded (back c) = IsEnded c

pub up_to-append : (t eq : Chars) → up_to (t ++ eq) (length t) ≡ t
unfolding up_to
up_to-append [] eq = refl
up_to-append (c ∷ t) eq = ap (λ l. c ∷ l) (up_to-append t eq)

ended-IsWord : (w : Word) → IsWord w → IsWord (ended w)
ended-IsWord (q, eq) w =
    let all : length (w.text ++ eq) - length eq ≡ length (w.text) =
      omega (arith, length-append (w.text) eq) in
    record {
      text = w.text;
      lies =
          ap (λ (l : Chars). up_to l (length l - length eq)) w.lies
          ∙ ap (up_to (w.text ++ eq)) all
          ∙ up_to-append (w.text) eq
          ∙ sym (append-nil (w.text));
      plain = w.plain;
      some_char = w.some_char;
    }

end_all_lem :
    (ws : List Word)
    → AllWords ws
    → AllWords (end_all ws) × AllEnded (end_all ws) × (length (end_all ws) ≡ length ws)
unfolding end_all
end_all_lem [] a = (tt, tt, refl)
end_all_lem (w ∷ ws) (i, a) =
    let (x, y, l) = end_all_lem ws a in ((ended-IsWord w i, x), (refl, y), ap suc l)

nulterminate_lem : (c : Cmd) → IsCmd c → IsCmd (nulterminate c) × IsEnded (nulterminate c)
unfolding nulterminate
nulterminate_lem (exec argv) (a, l) = let (x, y, e) = end_all_lem argv a in ((x, omega arith), y)
nulterminate_lem (redir c file mode fd) (a, f) =
    let (x, y) = nulterminate_lem c a in ((x, ended-IsWord file f), (y, refl))
nulterminate_lem (pipe l r) (a, b) =
    let (x, y) = nulterminate_lem l a in let (z, w) = nulterminate_lem r b in ((x, z), (y, w))
nulterminate_lem (list l r) (a, b) =
    let (x, y) = nulterminate_lem l a in let (z, w) = nulterminate_lem r b in ((x, z), (y, w))
nulterminate_lem (back c) a = nulterminate_lem c a

-- `parsecmd` ends for every line: with a panic, or with a command in which each `execcmd` has fewer
-- than `MAXARGS` arguments, so that the null pointer behind them fits, and each argument and file is
-- a string of at least one character, none of them white or a symbol, that ends at its NUL.
pub parsecmd-Good : (s : Chars) → Good (λ c. IsCmd c × IsEnded c) 0 (parsecmd s)
unfolding parsecmd
parsecmd-Good s =
    Good-and_then {P = IsCmd} {n = length s} (parseline-Good (length s + 3) s (omega arith))
      (λ c s1 p l. finished c p (skip_white s1))
  where
    finished :
        (c : Cmd) → IsCmd c → (t : Chars) → Good (λ c. IsCmd c × IsEnded c) 0 (finish_line c t)
    finished c p [] = parsed (nulterminate c) [] (nulterminate_lem c p) (omega arith)
    finished c p (x ∷ t) = panics
