-- ===== src/Shell.antt =====
-- The parser of command lines of user/sh.c.
pub mod Tokens
pub mod Parse
pub mod Line
pub mod Grammar
pub mod Printed
pub mod Arguments
pub mod Reads
mod Tests
use strace_xv.Base.{
  ltb, leb, ◌==◌, if◌then◌else◌, ==_iff, lt→ltb, Bool-cases, Option-cases, ◌>>=◌, length, get_elem?,
  get_or, set, replicate, length-append, length-replicate, length-set, get_elem?-set_self,
  get_elem?-set_ne, length-reverse, occurs, occurs-append, get_elem?-lt, put, put_self, put_ne,
  ==_self, ==_ne, ℕ, zero, suc, ◌+◌, ◌-◌, ◌*◌, ◌/◌, ◌%◌, ◌^◌, ◌≤◌, ◌<◌, ◌≡◌, refl, sym, ap, ◌∙◌,
  fun_ext, subst, ◌≢◌, ◌↔◌, ◌⊎◌, inl, inr, Bool, true, false, ◌&&◌, ◌||◌, not, Option, none, some,
  List, [], ◌∷◌, ◌++◌, append-nil, append_assoc, reverse-append, arith,
}

-- A pointer into the line is the characters from it to the end `es`, where the NUL is.
abbrev pub Chars : Type 0
Chars = List ℕ

-- `strchr(set, c)` as a test, for a character that is not NUL.
unfoldable pub strchr : Chars → ℕ → Bool
strchr [] c = false
strchr (x ∷ set) c = let rest = strchr set c in if x == c then true else rest

-- `whitespace` is " \t\r\n\v", and `symbols` "<|>&;()".
abbrev pub whitespace : Chars
whitespace = 32 ∷ 9 ∷ 13 ∷ 10 ∷ 11 ∷ []

abbrev pub symbols : Chars
symbols = b'<' ∷ b'|' ∷ b'>' ∷ b'&' ∷ b';' ∷ b'(' ∷ b')' ∷ []

unfoldable pub skip_white : Chars → Chars
skip_white [] = []
skip_white (c ∷ s) = let rest = skip_white s in if strchr whitespace c then rest else c ∷ s

-- The loop over the characters of a word, which leaves the pointer behind them.
abbrev pub is_plain : ℕ → Bool
is_plain c = not (strchr whitespace c) && not (strchr symbols c)

unfoldable pub skip_word : Chars → Chars
skip_word [] = []
skip_word (c ∷ s) = let rest = skip_word s in if is_plain c then rest else c ∷ s

-- What `gettoken` answers: the token, the pointers `q` and `eq`, and the new `*ps`.
pub record Token : Type 0 where
  pub ret : ℕ
  pub start : Chars
  pub end : Chars
  pub rest : Chars

-- The `switch` of `gettoken` at the character `c` before `s`: the token and the pointer behind it.
abbrev pub is_single : ℕ → Bool
is_single c = strchr (b'|' ∷ b'(' ∷ b')' ∷ b';' ∷ b'&' ∷ b'<' ∷ []) c

unfoldable pub after_greater : Chars → ℕ × Chars
after_greater [] = (b'>', [])
after_greater (c ∷ s) = if c == b'>' then (b'+', s) else (b'>', c ∷ s)

unfoldable pub scan_token : Chars → ℕ × Chars
scan_token [] = (0, [])
scan_token (c ∷ s) =
    if is_single c then (c, s) else if c == b'>' then after_greater s else (b'a', skip_word (c ∷ s))

unfoldable pub gettoken : Chars → Token
gettoken s =
    let q = skip_white s in
    let (ret, eq) = scan_token q in record { ret = ret; start = q; end = eq; rest = skip_white eq }

-- `peek`: the answer, and the new `*ps`.
unfoldable pub front_in : Chars → Chars → Bool
front_in toks [] = false
front_in toks (c ∷ s) = strchr toks c

unfoldable pub peek : Chars → Chars → Bool × Chars
peek toks s = (front_in toks (skip_white s), skip_white s)

-- The commands. An argument and a file are a pointer to their first character and one behind their
-- last, and an `execcmd` holds `argv` and `eargv` up to the null pointer.
abbrev pub Word : Type 0
Word = Chars × Chars

pub data Cmd : Type 0 where
  exec : List Word → Cmd
  redir : Cmd → Word → ℕ → ℕ → Cmd
  pipe : Cmd → Cmd → Cmd
  list : Cmd → Cmd → Cmd
  back : Cmd → Cmd

-- `cmd->argv[argc] = q` through the pointer to the `execcmd`, which redirections may surround.
unfoldable pub add_arg : Cmd → Word → Cmd
add_arg (exec argv) w = exec (argv ++ (w ∷ []))
add_arg (redir c file mode fd) w = redir (add_arg c w) file mode fd
add_arg (pipe l r) w = pipe l r
add_arg (list l r) w = list l r
add_arg (back c) w = back c

-- What a parsing function comes to: its command with the new `*ps`, a panic, or a lack of fuel.
pub data Result (A : Type 0) : Type 0 where
  ok : A → Chars → Result A
  panic : Result A
  no_fuel : Result A

pub and_then : {A B : Type 0} → Result A → (A → Chars → Result B) → Result B
and_then (ok a s) f = f a s
and_then panic f = panic
and_then no_fuel f = no_fuel

-- `MAXARGS`, `O_RDONLY` and `O_WRONLY | O_CREATE`.
abbrev pub max_args : ℕ
max_args = 10

abbrev pub rd_only : ℕ
rd_only = 0

abbrev pub wr_create : ℕ
wr_create = 513

-- The redirection for the token `tok`.
abbrev pub redirect : ℕ → Cmd → Word → Cmd
redirect tok c w = if tok == b'<' then redir c w rd_only 0 else redir c w wr_create 1

unfoldable pub parseredirs : ℕ → Cmd → Chars → Result Cmd
parseredirs zero c s = no_fuel
parseredirs (suc fuel) c s =
    let (more, s1) = peek (b'<' ∷ b'>' ∷ []) s in
    let op = gettoken s1 in
    let file = gettoken op.rest in
    let rest = parseredirs fuel (redirect op.ret c (file.start, file.end)) file.rest in
    if not more then ok c s1 else if file.ret == b'a' then rest else panic

-- The loop of `parseexec` over the arguments, with `argc` of them so far.
unfoldable pub parseargs : ℕ → ℕ → Cmd → Chars → Result Cmd
unfolding and_then
parseargs zero argc c s = no_fuel
parseargs (suc fuel) argc c s =
    let (stop, s1) = peek (b'|' ∷ b')' ∷ b'&' ∷ b';' ∷ []) s in
    let arg = gettoken s1 in
    let rest =
      and_then (parseredirs fuel (add_arg c (arg.start, arg.end)) arg.rest)
        (λ c' s'. parseargs fuel (argc + 1) c' s') in
    if stop
    then ok c s1
    else if arg.ret == 0
    then ok c arg.rest
    else if not (arg.ret == b'a')
    then panic
    else if leb max_args (argc + 1)
    then panic
    else rest

-- `parseblock` and `parseexec`, with `line` for the calls of `parseline`.
unfoldable pub parseblock : (Chars → Result Cmd) → ℕ → Chars → Result Cmd
unfolding and_then
parseblock line fuel s =
    let (opened, s1) = peek (b'(' ∷ []) s in
    let inside = and_then (line (gettoken s1).rest) (λ c s2.
      let (closed, s3) = peek (b')' ∷ []) s2 in
      let behind = parseredirs fuel c (gettoken s3).rest in if closed then behind else panic) in
    if opened then inside else panic

unfoldable pub parseexec : (Chars → Result Cmd) → ℕ → Chars → Result Cmd
unfolding and_then
parseexec line fuel s =
    let (block, s1) = peek (b'(' ∷ []) s in
    let plain = and_then (parseredirs fuel (exec []) s1) (λ c s2. parseargs fuel 0 c s2) in
    let nested = parseblock line fuel s1 in if block then nested else plain

unfoldable pub parsepipe : (Chars → Result Cmd) → ℕ → Chars → Result Cmd
unfolding and_then
parsepipe line zero s = no_fuel
parsepipe line (suc fuel) s = and_then (parseexec line fuel s) (λ c s1.
    let (more, s2) = peek (b'|' ∷ []) s1 in
    let rest =
      and_then (parsepipe line fuel (gettoken s2).rest) (λ right s3. ok (pipe c right) s3) in
    if more then rest else ok c s2)

-- The loop over `&` of `parseline`.
unfoldable pub parseback : ℕ → Cmd → Chars → Result Cmd
parseback zero c s = no_fuel
parseback (suc fuel) c s =
    let (more, s1) = peek (b'&' ∷ []) s in
    let rest = parseback fuel (back c) (gettoken s1).rest in if more then rest else ok c s1

unfoldable pub parseline : ℕ → Chars → Result Cmd
unfolding and_then
parseline zero s = no_fuel
parseline (suc fuel) s = and_then (parsepipe (λ t. parseline fuel t) fuel s) (λ c s1.
    and_then (parseback fuel c s1) (λ c2 s2.
      let (more, s3) = peek (b';' ∷ []) s2 in
      let rest = and_then (parseline fuel (gettoken s3).rest) (λ right s4. ok (list c2 right) s4) in
      if more then rest else ok c2 s3))

-- `nulterminate`. A NUL at `eq` ends the string at `q` there; no word ends within another.
unfoldable pub up_to : Chars → ℕ → Chars
up_to s zero = []
up_to [] (suc n) = []
up_to (c ∷ s) (suc n) = c ∷ up_to s n

abbrev pub ended : Word → Word
ended (q, eq) = (up_to q (length q - length eq), [])

unfoldable pub end_all : List Word → List Word
end_all [] = []
end_all (w ∷ ws) = ended w ∷ end_all ws

unfoldable pub nulterminate : Cmd → Cmd
nulterminate (exec argv) = exec (end_all argv)
nulterminate (redir c file mode fd) = redir (nulterminate c) (ended file) mode fd
nulterminate (pipe l r) = pipe (nulterminate l) (nulterminate r)
nulterminate (list l r) = list (nulterminate l) (nulterminate r)
nulterminate (back c) = back (nulterminate c)

pub finish_line : Cmd → Chars → Result Cmd
finish_line c [] = ok (nulterminate c) []
finish_line c (x ∷ s) = panic

unfoldable pub parsecmd : Chars → Result Cmd
unfolding and_then finish_line
parsecmd s = and_then (parseline (length s + 3) s) (λ c s1. finish_line c (skip_white s1))
