-- ===== src/Pipe/Tests.antt =====
-- A pipe at concrete calls.
use strace_xv.Base.{
  length, replicate, ℕ, ◌-◌, ◌^◌, ◌≤◌, ◌≡◌, refl, true, false, List, [], ◌∷◌, ◌++◌, arith,
}
use strace_xv.Pipe.{Pipe, pipe_size, pipewrite, got, read_loop, piperead, fresh}
use strace_xv.Pipe.Fifo.{IsValid, contents}
use strace_xv.Pipe.Net.{Net, write, Reach, here, next, written, Reach-stream}

abbrev page : List ℕ
page = replicate pipe_size 1

-- Two bytes at the end of the ring, with counters about to wrap.
abbrev wrapping : Pipe
wrapping = record {
  buf = replicate 511 0 ++ (8 ∷ []);
  nread = 2 ^ 32 - 1;
  nwrite = 1;
  readopen = true;
  writeopen = true;
}

wrapping-IsValid : IsValid wrapping
wrapping-IsValid = record {
  storage = refl;
  words = (omega arith, omega arith);
  bounded = omega arith;
}

contents-wrapping : contents wrapping ≡ 8 ∷ 0 ∷ []
contents-wrapping = refl

read_wrapping : piperead false wrapping 5 ≡ got (8 ∷ 0 ∷ []) (record wrapping { nread = 1 })
unfolding piperead read_loop
read_wrapping = refl

abbrev start : Net
start = record { pipe = fresh page; sent = []; received = [] }

abbrev one_write : Net
one_write = record {
  pipe = record {
    buf = 4 ∷ 5 ∷ replicate 510 1;
    nread = 0;
    nwrite = 2;
    readopen = true;
    writeopen = true;
  };
  sent = 4 ∷ 5 ∷ [];
  received = [];
}

one_write-Reach : Reach start one_write
unfolding fresh pipewrite written
one_write-Reach = next here (write false (4 ∷ 5 ∷ []))

Reach-stream_example :
    (one_write.sent ≡ [] ++ contents one_write.pipe)
    × (length (contents one_write.pipe) ≤ pipe_size)
Reach-stream_example = Reach-stream page refl one_write-Reach
