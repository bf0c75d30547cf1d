-- ===== src/Pipe.antt =====
-- kernel/pipe.c: a byte queue in a ring of `PIPESIZE` bytes with wrapping counters. A call that
-- sleeps gives up the lock; it is resumed with whatever the pipe is then, so a call is a sequence
-- of runs, each from taking the lock to giving it up.
pub mod Fifo
pub mod Stream
pub mod Net
mod Tests
use strace_xv.Base.{
  ltb, leb, ◌==◌, if◌then◌else◌, ==_iff, lt→ltb, Bool-cases, Option-cases, ◌>>=◌, length, get_elem?,
  get_or, set, replicate, length-append, length-replicate, length-set, get_elem?-set_self,
  get_elem?-set_ne, length-reverse, ℕ, zero, suc, ◌+◌, ◌-◌, ◌*◌, ◌/◌, ◌%◌, ◌^◌, ◌≤◌, ◌<◌, ◌≡◌, refl,
  sym, ap, ◌∙◌, fun_ext, ◌≢◌, ◌↔◌, ◌⊎◌, inl, inr, Bool, true, false, ◌&&◌, ◌||◌, not, Option, none,
  some, List, [], ◌∷◌, ◌++◌, append-nil, append_assoc, reverse-append, arith,
}

abbrev pub pipe_size : ℕ
pipe_size = 512

abbrev pub uint : ℕ → ℕ
uint n = n % 2 ^ 32

-- `struct pipe`. `buf` is `data`.
pub record Pipe : Type 0 where
  pub buf : List ℕ
  pub nread : ℕ
  pub nwrite : ℕ
  pub readopen : Bool
  pub writeopen : Bool

-- The pipe that `pipealloc` sets up in a fresh page.
unfoldable pub fresh : List ℕ → Pipe
fresh page = record { buf = page; nread = 0; nwrite = 0; readopen = true; writeopen = true }

abbrev pub is_full : Pipe → Bool
is_full p = p.nwrite == uint (p.nread + pipe_size)

abbrev pub is_empty : Pipe → Bool
is_empty p = p.nread == p.nwrite

-- `p->data[p->nwrite++ % PIPESIZE] = c`.
pub push : Pipe → ℕ → Pipe
push p c = record p { buf = set p.buf (p.nwrite % pipe_size) c; nwrite = uint (p.nwrite + 1) }

-- `p->data[p->nread++ % PIPESIZE]`, and the pipe behind it.
pub front : Pipe → ℕ
front p = get_or p.buf (p.nread % pipe_size) 0

pub pop : Pipe → Pipe
pop p = record p { nread = uint (p.nread + 1) }

-- How a run of `pipewrite` ends: it sleeps on `nwrite`, after a wakeup of `nread`, with bytes left;
-- it returns -1; or it returns `n`, after a wakeup of `nread`.
pub data Write : Type 0 where
  slept : List ℕ → Pipe → Write
  failed : Pipe → Write
  wrote : Pipe → Write

-- `pipewrite` from the head of its inner loop, with the bytes `addr[i]` to `addr[n - 1]` left.
unfoldable pub pipewrite : Bool → Pipe → List ℕ → Write
unfolding push
pipewrite killed p [] = wrote p
pipewrite killed p (c ∷ src) =
    let rest = pipewrite killed (push p c) src in
    if is_full p then if not p.readopen || killed then failed p else slept (c ∷ src) p else rest

-- How a run of `piperead` ends: it sleeps on `nread`; it returns -1; or it returns the bytes,
-- after a wakeup of `nwrite`.
pub data Read : Type 0 where
  waiting : Read
  killed_read : Read
  got : List ℕ → Pipe → Read

-- The copying loop, with `n` rounds left.
unfoldable pub read_loop : ℕ → Pipe → List ℕ × Pipe
unfolding front pop
read_loop zero p = ([], p)
read_loop (suc n) p =
    let (bytes, p') = read_loop n (pop p) in if is_empty p then ([], p) else (front p ∷ bytes, p')

unfoldable pub piperead : Bool → Pipe → ℕ → Read
piperead killed p n =
    if is_empty p && p.writeopen
    then if killed then killed_read else waiting
    else let (bytes, p') = read_loop n p in got bytes p'

-- `pipeclose`; the flag says that the page is freed.
unfoldable pub pipeclose : Pipe → Bool → Pipe × Bool
pipeclose p writable =
    let p' : Pipe =
      if writable then record p { writeopen = false } else record p { readopen = false } in
    (p', not p'.readopen && not p'.writeopen)
