-- ===== src/Shell/Printed.antt =====
-- The parser reads the names and redirections that the grammar writes.
use strace_xv.Base.{
  ◌==◌, length, length-append, ℕ, zero, suc, ◌+◌, ◌-◌, ◌≤◌, ◌<◌, ◌≡◌, refl, ap, ◌∙◌, subst, true,
  false, List, [], ◌∷◌, ◌++◌, arith,
}
use strace_xv.Shell.{
  Chars, strchr, whitespace, is_plain, is_single, skip_white, skip_word, Token, after_greater,
  scan_token, gettoken, front_in, peek, Word, up_to, ended, Cmd, redir, Result, ok, and_then,
  redirect, parseredirs, nulterminate,
}
use strace_xv.Shell.Tokens.{AllPlain, AtChar, skip_white-AtChar}
use strace_xv.Shell.Line.{up_to-append}
use strace_xv.Shell.Grammar.{
  Name, Redirection, input, output, append, put_name, put_redirs, string, redirected, end, close,
  of_line, semi, of_amp, amp, SimpleEnd, of_pipe, bar, AtChar-SimpleEnd, AtChar-put_name,
  AtChar-put_redirs,
}

-- The parser has read a text, and left the rest `r`; the command means `m` once its strings are
-- ended.
pub data Gives (m : Cmd) (r : Chars) : Result Cmd → Type 0 where
  gives : (c : Cmd) → nulterminate c ≡ m → Gives m r (ok c r)

pub Gives-then :
    {m n : Cmd} {r t : Chars} {o : Result Cmd} (f : Cmd → Chars → Result Cmd)
    → Gives m r o
    → ((c : Cmd) → nulterminate c ≡ m → Gives n t (f c r))
    → Gives n t (and_then o f)
unfolding and_then
Gives-then f (gives c e) h = h c e

abbrev token : ℕ → Chars → Chars → Token
token ret s r = record { ret = ret; start = s; end = 32 ∷ r; rest = r }

skip_white_space : (r : Chars) → AtChar r → skip_white (32 ∷ r) ≡ r
unfolding skip_white strchr
skip_white_space r h = skip_white-AtChar r h

pub gettoken_symbol :
    (c : ℕ) (r : Chars)
    → is_single c ≡ true
    → strchr whitespace c ≡ false
    → AtChar r
    → gettoken (c ∷ 32 ∷ r) ≡ token c (c ∷ 32 ∷ r) r
unfolding gettoken scan_token
gettoken_symbol c r h w a = rw (skip_white-AtChar (c ∷ 32 ∷ r) w, h, skip_white_space r a) refl

gettoken_output : (r : Chars) → AtChar r → gettoken (b'>' ∷ 32 ∷ r) ≡ token b'>' (b'>' ∷ 32 ∷ r) r
unfolding gettoken scan_token after_greater strchr
gettoken_output r a = rw (skip_white-AtChar (b'>' ∷ 32 ∷ r) refl, skip_white_space r a) refl

gettoken_append :
    (r : Chars) → AtChar r → gettoken (b'>' ∷ b'>' ∷ 32 ∷ r) ≡ token b'+' (b'>' ∷ b'>' ∷ 32 ∷ r) r
unfolding gettoken scan_token after_greater strchr
gettoken_append r a = rw (skip_white-AtChar (b'>' ∷ b'>' ∷ 32 ∷ r) refl, skip_white_space r a) refl

skip_word-plain : (cs r : Chars) → AllPlain cs → skip_word (cs ++ (32 ∷ r)) ≡ 32 ∷ r
unfolding skip_word strchr
skip_word-plain [] r h = refl
skip_word-plain (c ∷ cs) r (p, h) = rw p (skip_word-plain cs r h)

-- A plain character starts no symbol.
no_single : (c : ℕ) → is_plain c ≡ true → (is_single c ≡ false) × ((c == b'>') ≡ false)
unfolding strchr
no_single c h = (ground arith, ground arith)

pub gettoken_name :
    (w : Name) (r : Chars) → AtChar r → gettoken (put_name w r) ≡ token b'a' (put_name w r) r
unfolding gettoken scan_token
gettoken_name w r a = go (w.text) (w.plain) (w.some_char)
  where
    go :
        (cs : Chars)
        → AllPlain cs
        → 0 < length cs
        → gettoken (cs ++ (32 ∷ r)) ≡ token b'a' (cs ++ (32 ∷ r)) r
    go [] p h = absurd (omega arith)
    go (c ∷ cs) (p, q) h =
        let (s, g) = no_single c p in
        let clean : AtChar (c ∷ (cs ++ (32 ∷ r))) = ground arith in
        rw
          (
            skip_white-AtChar (c ∷ (cs ++ (32 ∷ r))) clean,
            s,
            g,
            skip_word-plain (c ∷ cs) r (p, q),
            skip_white_space r a,
          )
          refl

-- Its string ends where it does.
pub ended_name : (w : Name) (r : Chars) → ended (put_name w r, 32 ∷ r) ≡ string w
ended_name w r =
    let all : length (put_name w r) - length (32 ∷ r) ≡ length (w.text) =
      omega (arith, length-append (w.text) (32 ∷ r)) in
    ap (λ (n : ℕ). let v : Word = (up_to (put_name w r) n, []) in v) all
    ∙ ap (λ (l : Chars). let v : Word = (l, []) in v) (up_to-append (w.text) (32 ∷ r))

pub put_name_lt : (w : Name) (r : Chars) → length r + 2 ≤ length (put_name w r)
put_name_lt w r = omega (arith, length-append (w.text) (32 ∷ r), w.some_char)

-- One redirection.
step_redirs :
    (fuel : ℕ) (c : Cmd) (s : Chars) (op : ℕ) (f : Name) (y : Chars)
    → AtChar s
    → front_in (b'<' ∷ b'>' ∷ []) s ≡ true
    → gettoken s ≡ token op s (put_name f y)
    → AtChar y
    → parseredirs (suc fuel) c s ≡ parseredirs fuel (redirect op c (put_name f y, 32 ∷ y)) y
unfolding parseredirs peek
step_redirs fuel c s op f y a h t b = rw (skip_white-AtChar s a, h, t, gettoken_name f y b) refl

pub no_redirs :
    (fuel : ℕ) (c : Cmd) (s : Chars)
    → AtChar s
    → front_in (b'<' ∷ b'>' ∷ []) s ≡ false
    → parseredirs (suc fuel) c s ≡ ok c s
unfolding parseredirs peek
no_redirs fuel c s a h = rw (skip_white-AtChar s a, h) refl

pub front_redirs : {r : Chars} → SimpleEnd r → front_in (b'<' ∷ b'>' ∷ []) r ≡ false
unfolding front_in strchr
front_redirs (bar r h) = refl
front_redirs (of_pipe (amp r h)) = refl
front_redirs (of_pipe (of_amp (semi r h))) = refl
front_redirs (of_pipe (of_amp (of_line (close r h)))) = refl
front_redirs (of_pipe (of_amp (of_line end))) = refl

pub put_redirs_le : (rs : List Redirection) (r : Chars) → length r ≤ length (put_redirs rs r)
unfolding put_redirs
put_redirs_le [] r = omega arith
put_redirs_le (input f ∷ rs) r = omega (arith, put_redirs_le rs r, put_name_lt f (put_redirs rs r))
put_redirs_le (output f ∷ rs) r = omega (arith, put_redirs_le rs r, put_name_lt f (put_redirs rs r))
put_redirs_le (append f ∷ rs) r = omega (arith, put_redirs_le rs r, put_name_lt f (put_redirs rs r))

pub parseredirs-put_redirs :
    (rs : List Redirection) (fuel : ℕ) (c : Cmd) {r : Chars}
    → SimpleEnd r
    → length (put_redirs rs r) < fuel
    → Gives (redirected (nulterminate c) rs) r (parseredirs fuel c (put_redirs rs r))
unfolding redirected put_redirs strchr front_in nulterminate
parseredirs-put_redirs rs zero c h l = absurd (omega arith)
parseredirs-put_redirs [] (suc fuel) c {r} h l =
    rw (no_redirs fuel c r (AtChar-SimpleEnd h) (front_redirs h)) (gives c refl)
parseredirs-put_redirs (input f ∷ rs) (suc fuel) c {r} h l =
    let y = put_redirs rs r in
    let a = AtChar-put_redirs rs r (AtChar-SimpleEnd h) in
    rw
      (step_redirs fuel c (b'<' ∷ 32 ∷ put_name f y) b'<' f y refl refl
        (gettoken_symbol b'<' (put_name f y) refl refl (AtChar-put_name f y)) a)
      (subst
        (λ w.
          Gives (redirected (redir (nulterminate c) w 0 0) rs) r
            (parseredirs fuel (redir c (put_name f y, 32 ∷ y) 0 0) y))
        (ended_name f y)
        (parseredirs-put_redirs rs fuel (redir c (put_name f y, 32 ∷ y) 0 0) h
          (omega (arith, put_name_lt f y))))
parseredirs-put_redirs (output f ∷ rs) (suc fuel) c {r} h l =
    let y = put_redirs rs r in
    let a = AtChar-put_redirs rs r (AtChar-SimpleEnd h) in
    rw
      (step_redirs fuel c (b'>' ∷ 32 ∷ put_name f y) b'>' f y refl refl
        (gettoken_output (put_name f y) (AtChar-put_name f y)) a)
      (subst
        (λ w.
          Gives (redirected (redir (nulterminate c) w 513 1) rs) r
            (parseredirs fuel (redir c (put_name f y, 32 ∷ y) 513 1) y))
        (ended_name f y)
        (parseredirs-put_redirs rs fuel (redir c (put_name f y, 32 ∷ y) 513 1) h
          (omega (arith, put_name_lt f y))))
parseredirs-put_redirs (append f ∷ rs) (suc fuel) c {r} h l =
    let y = put_redirs rs r in
    let a = AtChar-put_redirs rs r (AtChar-SimpleEnd h) in
    rw
      (step_redirs fuel c (b'>' ∷ b'>' ∷ 32 ∷ put_name f y) b'+' f y refl refl
        (gettoken_append (put_name f y) (AtChar-put_name f y)) a)
      (subst
        (λ w.
          Gives (redirected (redir (nulterminate c) w 513 1) rs) r
            (parseredirs fuel (redir c (put_name f y, 32 ∷ y) 513 1) y))
        (ended_name f y)
        (parseredirs-put_redirs rs fuel (redir c (put_name f y, 32 ∷ y) 513 1) h
          (omega (arith, put_name_lt f y))))
