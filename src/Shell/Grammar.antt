-- ===== src/Shell/Grammar.antt =====
-- The lines that a shell takes, written out with a space behind each token, and what they mean.
use strace_xv.Base.{length, ℕ, zero, suc, ◌<◌, refl, List, [], ◌∷◌, ◌++◌, arith}
use strace_xv.Shell.{Chars, strchr, Word, Cmd, exec, redir, pipe, list, back}
use strace_xv.Shell.Tokens.{AllPlain, AtChar}

-- An argument or the name of a file.
pub record Name : Type 0 where
  pub text : Chars
  pub plain : AllPlain text
  pub some_char : 0 < length text

pub data Redirection : Type 0 where
  input output append : Name → Redirection

mutual
  pub data Simple : Type 0 where
    plain : (args : List Name) → length args < 10 → List Redirection → Simple
    block : Line → List Redirection → Simple

  pub data Pipeline : Type 0 where
    one : Simple → Pipeline
    more : Simple → Pipeline → Pipeline

  -- The number counts the `&` behind a pipeline.
  pub data Line : Type 0 where
    last : Pipeline → ℕ → Line
    seq : Pipeline → ℕ → Line → Line

-- The text of each before a rest.
abbrev pub put_name : Name → Chars → Chars
put_name w r = w.text ++ (32 ∷ r)

unfoldable pub put_names : List Name → Chars → Chars
put_names [] r = r
put_names (w ∷ ws) r = put_name w (put_names ws r)

unfoldable pub put_redirs : List Redirection → Chars → Chars
put_redirs [] r = r
put_redirs (input f ∷ rs) r = b'<' ∷ 32 ∷ put_name f (put_redirs rs r)
put_redirs (output f ∷ rs) r = b'>' ∷ 32 ∷ put_name f (put_redirs rs r)
put_redirs (append f ∷ rs) r = b'>' ∷ b'>' ∷ 32 ∷ put_name f (put_redirs rs r)

unfoldable pub put_amps : ℕ → Chars → Chars
put_amps zero r = r
put_amps (suc n) r = b'&' ∷ 32 ∷ put_amps n r

unfoldable mutual
  pub put_simple : Simple → Chars → Chars
  put_simple (plain args few rs) r = put_names args (put_redirs rs r)
  put_simple (block l rs) r = b'(' ∷ 32 ∷ put_line l (b')' ∷ 32 ∷ put_redirs rs r)

  pub put_pipeline : Pipeline → Chars → Chars
  put_pipeline (one e) r = put_simple e r
  put_pipeline (more e p) r = put_simple e (b'|' ∷ 32 ∷ put_pipeline p r)

  pub put_line : Line → Chars → Chars
  put_line (last p n) r = put_pipeline p (put_amps n r)
  put_line (seq p n l) r = put_pipeline p (put_amps n (b';' ∷ 32 ∷ put_line l r))

-- The command that each means.
abbrev pub string : Name → Word
string w = (w.text, [])

unfoldable pub strings : List Name → List Word
strings [] = []
strings (w ∷ ws) = string w ∷ strings ws

unfoldable pub redirected : Cmd → List Redirection → Cmd
redirected c [] = c
redirected c (input f ∷ rs) = redirected (redir c (string f) 0 0) rs
redirected c (output f ∷ rs) = redirected (redir c (string f) 513 1) rs
redirected c (append f ∷ rs) = redirected (redir c (string f) 513 1) rs

unfoldable pub backs : ℕ → Cmd → Cmd
backs zero c = c
backs (suc n) c = backs n (back c)

unfoldable mutual
  pub simple : Simple → Cmd
  simple (plain args few rs) = redirected (exec (strings args)) rs
  simple (block l rs) = redirected (meaning l) rs

  pub pipeline : Pipeline → Cmd
  pipeline (one e) = simple e
  pipeline (more e p) = pipe (simple e) (pipeline p)

  pub meaning : Line → Cmd
  meaning (last p n) = backs n (pipeline p)
  meaning (seq p n l) = list (backs n (pipeline p)) (meaning l)

-- What may follow a line, the `&` behind a pipeline, a pipeline, and a simple command.
pub data LineEnd : Chars → Type 0 where
  end : LineEnd []
  close : (r : Chars) → AtChar r → LineEnd (b')' ∷ 32 ∷ r)

pub data AmpEnd : Chars → Type 0 where
  of_line : {r : Chars} → LineEnd r → AmpEnd r
  semi : (r : Chars) → AtChar r → AmpEnd (b';' ∷ 32 ∷ r)

pub data PipeEnd : Chars → Type 0 where
  of_amp : {r : Chars} → AmpEnd r → PipeEnd r
  amp : (r : Chars) → AtChar r → PipeEnd (b'&' ∷ 32 ∷ r)

pub data SimpleEnd : Chars → Type 0 where
  of_pipe : {r : Chars} → PipeEnd r → SimpleEnd r
  bar : (r : Chars) → AtChar r → SimpleEnd (b'|' ∷ 32 ∷ r)

pub AtChar-SimpleEnd : {r : Chars} → SimpleEnd r → AtChar r
unfolding strchr
AtChar-SimpleEnd (bar r h) = refl
AtChar-SimpleEnd (of_pipe (amp r h)) = refl
AtChar-SimpleEnd (of_pipe (of_amp (semi r h))) = refl
AtChar-SimpleEnd (of_pipe (of_amp (of_line (close r h)))) = refl
AtChar-SimpleEnd (of_pipe (of_amp (of_line end))) = tt

pub PipeEnd-put_amps : (n : ℕ) {r : Chars} → AmpEnd r → PipeEnd (put_amps n r)
unfolding put_amps
PipeEnd-put_amps zero h = of_amp h
PipeEnd-put_amps (suc n) h = amp _ (AtChar-SimpleEnd (of_pipe (PipeEnd-put_amps n h)))

-- A text in front of such a rest starts with no white character.
pub AtChar-put_name : (w : Name) (r : Chars) → AtChar (put_name w r)
AtChar-put_name w r = go (w.text) (w.plain) (w.some_char)
  where
    go : (cs : Chars) → AllPlain cs → 0 < length cs → AtChar (cs ++ (32 ∷ r))
    go [] p h = absurd (omega arith)
    go (c ∷ cs) (p, q) h = ground arith

pub AtChar-put_names : (ws : List Name) (r : Chars) → AtChar r → AtChar (put_names ws r)
unfolding put_names
AtChar-put_names [] r h = h
AtChar-put_names (w ∷ ws) r h = AtChar-put_name w (put_names ws r)

pub AtChar-put_redirs : (rs : List Redirection) (r : Chars) → AtChar r → AtChar (put_redirs rs r)
unfolding put_redirs strchr
AtChar-put_redirs [] r h = h
AtChar-put_redirs (input f ∷ rs) r h = refl
AtChar-put_redirs (output f ∷ rs) r h = refl
AtChar-put_redirs (append f ∷ rs) r h = refl

pub AtChar-put_simple : (e : Simple) (r : Chars) → AtChar r → AtChar (put_simple e r)
unfolding put_simple strchr
AtChar-put_simple (plain args few rs) r h =
    AtChar-put_names args (put_redirs rs r) (AtChar-put_redirs rs r h)
AtChar-put_simple (block l rs) r h = refl

pub AtChar-put_pipeline : (p : Pipeline) (r : Chars) → AtChar r → AtChar (put_pipeline p r)
unfolding put_pipeline strchr
AtChar-put_pipeline (one e) r h = AtChar-put_simple e r h
AtChar-put_pipeline (more e p) r h = AtChar-put_simple e _ refl

pub AtChar-put_line : (l : Line) (r : Chars) → AtChar r → AmpEnd r → AtChar (put_line l r)
unfolding put_line strchr
AtChar-put_line (last p n) r h a =
    AtChar-put_pipeline p _ (AtChar-SimpleEnd (of_pipe (PipeEnd-put_amps n a)))
AtChar-put_line (seq p n l) r h a =
    AtChar-put_pipeline p _
      (AtChar-SimpleEnd (of_pipe (PipeEnd-put_amps n (semi _ (AtChar-put_line l r h a)))))
