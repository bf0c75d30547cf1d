-- ===== src/Shell/Tests.antt =====
-- Lines and their commands.
use strace_xv.Base.{ℕ, ◌≡◌, refl, [], ◌∷◌, arith}
use strace_xv.Shell.{
  Chars, strchr, skip_white, skip_word, after_greater, scan_token, gettoken, front_in, peek, Word,
  exec, redir, pipe, list, back, add_arg, ok, panic, parseredirs, parseargs, parseblock, parseexec,
  parsepipe, parseback, parseline, up_to, end_all, nulterminate, parsecmd,
}
use strace_xv.Shell.Parse.{IsCmd, Good}
use strace_xv.Shell.Line.{IsEnded, parsecmd-Good}
use strace_xv.Shell.Grammar.{
  Name, input, plain, block, one, more, Line, last, seq, put_line, meaning,
}
use strace_xv.Shell.Reads.{parsecmd-put_line}

abbrev text : ℕ → Word
text c = (c ∷ [], [])

-- `(a;b) >c &`
abbrev line : Chars
line = b'(' ∷ b'a' ∷ b';' ∷ b'b' ∷ b')' ∷ 32 ∷ b'>' ∷ b'c' ∷ 32 ∷ b'&' ∷ []

parsecmd-block :
    parsecmd line
    ≡ ok (back (redir (list (exec (text b'a' ∷ [])) (exec (text b'b' ∷ []))) (text b'c') 513 1)) []
unfolding parsecmd parseline parsepipe parseback parseexec parseblock parseargs parseredirs peek
    front_in gettoken scan_token skip_white skip_word strchr after_greater add_arg nulterminate
    end_all up_to
parsecmd-block = refl

-- `a b<c|d`
parsecmd-pipe :
    parsecmd (b'a' ∷ 32 ∷ b'b' ∷ b'<' ∷ b'c' ∷ b'|' ∷ b'd' ∷ [])
    ≡ ok
        (pipe (redir (exec (text b'a' ∷ text b'b' ∷ [])) (text b'c') 0 0) (exec (text b'd' ∷ [])))
        []
unfolding parsecmd parseline parsepipe parseback parseexec parseblock parseargs parseredirs peek
    front_in gettoken scan_token skip_white skip_word strchr after_greater add_arg nulterminate
    end_all up_to
parsecmd-pipe = refl

-- `>` without a file, and a parenthesis that is not opened.
parsecmd-no_file : parsecmd (b'a' ∷ b'>' ∷ []) ≡ panic
unfolding parsecmd parseline parsepipe parseback parseexec parseblock parseargs parseredirs peek
    front_in gettoken scan_token skip_white skip_word strchr after_greater add_arg
parsecmd-no_file = refl

parsecmd-leftovers : parsecmd (b'a' ∷ b')' ∷ []) ≡ panic
unfolding parsecmd parseline parsepipe parseback parseexec parseblock parseargs parseredirs peek
    front_in gettoken scan_token skip_white skip_word strchr after_greater add_arg
parsecmd-leftovers = refl

parsecmd-Good_example : Good (λ c. IsCmd c × IsEnded c) 0 (parsecmd line)
parsecmd-Good_example = parsecmd-Good line

-- The name `ab`.
abbrev a_name : Name
unfolding strchr
a_name = record { text = b'a' ∷ b'b' ∷ []; plain = (refl, (refl, tt)); some_char = omega arith }

-- `( ab ab & ; ab ) < ab | ab`
abbrev written : Line
written =
    last
      (more
        (block
          (seq (one (plain (a_name ∷ a_name ∷ []) (omega arith) [])) 1
            (last (one (plain (a_name ∷ []) (omega arith) [])) 0))
          (input a_name ∷ []))
        (one (plain (a_name ∷ []) (omega arith) [])))
      0

parsecmd-put_line_example : parsecmd (put_line written []) ≡ ok (meaning written) []
parsecmd-put_line_example = parsecmd-put_line written
