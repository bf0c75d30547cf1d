-- ===== src/Pipe/Net.antt =====
-- The runs of all writers and readers of one pipe, in any order.
use strace_xv.Base.{
  length, length-append, ℕ, zero, suc, ◌+◌, ◌-◌, ◌≤◌, ◌≡◌, refl, sym, ap, ◌∙◌, Bool, true, false,
  List, [], ◌∷◌, ◌++◌, append_assoc, arith,
}
use strace_xv.Pipe.{Pipe, pipe_size, Write, pipewrite, got, piperead, pipeclose, fresh}
use strace_xv.Pipe.Fifo.{IsValid, count, contents, length-contents}
use strace_xv.Pipe.Stream.{left, Wrote, pipewrite_lem, piperead_lem}

take : ℕ → List ℕ → List ℕ
take zero xs = []
take (suc n) [] = []
take (suc n) (x ∷ xs) = x ∷ take n xs

take-append : (xs ys : List ℕ) → take (length xs) (xs ++ ys) ≡ xs
unfolding take
take-append [] ys = refl
take-append (x ∷ xs) ys = ap (λ s. x ∷ s) (take-append xs ys)

-- The bytes of `src` that a run wrote: as many as `nwrite` advanced.
unfoldable pub written : Pipe → List ℕ → Write → List ℕ
unfolding take
written p src w = take (count (left w) - count p) src

-- A pipe with all that was written to it and all that was read from it.
pub record Net : Type 0 where
  pub pipe : Pipe
  pub sent : List ℕ
  pub received : List ℕ

-- One run of a call: of a writer, from its start or after it slept; of a reader that gets bytes;
-- or the end of one side. A reader that gets none changes nothing.
pub data Step (s : Net) : Net → Type 0 where
  write :
      (killed : Bool) (src : List ℕ)
      → Step s (record s {
        pipe = left (pipewrite killed s.pipe src);
        sent = s.sent ++ written s.pipe src (pipewrite killed s.pipe src);
      })
  read :
      (killed : Bool) (n : ℕ) (bytes : List ℕ) (p : Pipe)
      → piperead killed s.pipe n ≡ got bytes p
      → Step s (record s { pipe = p; received = s.received ++ bytes })
  close : (writable : Bool) → Step s (record s { pipe = (pipeclose s.pipe writable).0 })

pub data Reach (s : Net) : Net → Type 0 where
  here : Reach s s
  next : {t u : Net} → Reach s t → Step t u → Reach s u

-- The stream: the bytes read, and then those in the pipe, are the bytes written.
pub record IsStream (s : Net) : Type 0 where
  pub valid : IsValid s.pipe
  pub stream : s.sent ≡ s.received ++ contents s.pipe

written_lem : {p : Pipe} {src : List ℕ} {w : Write} (k : Wrote p src w) → written p src w ≡ k.done
unfolding written
written_lem {p} {src} {w} k =
    let l : count (left w) ≡ count p + length k.done =
      sym (length-contents (left w))
      ∙ ap length k.held
      ∙ length-append (contents p) k.done
      ∙ ap (λ n. n + length k.done) (length-contents p) in
    let d : count (left w) - count p ≡ length k.done = omega arith in
    rw (d, k.split) (take-append k.done k.todo)

-- A closed side leaves the bytes.
contents-pipeclose : (p : Pipe) (writable : Bool) → contents (pipeclose p writable).0 ≡ contents p
unfolding pipeclose
contents-pipeclose p true = refl
contents-pipeclose p false = refl

pipeclose-IsValid : (p : Pipe) (writable : Bool) → IsValid p → IsValid (pipeclose p writable).0
unfolding pipeclose
pipeclose-IsValid p true v = record { storage = v.storage; words = v.words; bounded = v.bounded }
pipeclose-IsValid p false v = record { storage = v.storage; words = v.words; bounded = v.bounded }

Step-IsStream : {s t : Net} → Step s t → IsStream s → IsStream t
Step-IsStream {s} (write killed src) v =
    let k = pipewrite_lem killed s.pipe src v.valid in
    record {
      valid = k.valid;
      stream =
          ap (λ x. s.sent ++ x) (written_lem k)
          ∙ ap (λ x. x ++ k.done) v.stream
          ∙ append_assoc s.received (contents s.pipe) k.done
          ∙ ap (λ x. s.received ++ x) (sym k.held);
    }
Step-IsStream {s} (read killed n bytes p e) v =
    let (q, size, valid, eof) = rw e at (piperead_lem killed s.pipe n v.valid) in
    record {
      valid = valid;
      stream =
          v.stream ∙ ap (λ x. s.received ++ x) q ∙ sym (append_assoc s.received bytes (contents p));
    }
Step-IsStream {s} (close writable) v = record {
  valid = pipeclose-IsValid s.pipe writable v.valid;
  stream = v.stream ∙ ap (λ x. s.received ++ x) (sym (contents-pipeclose s.pipe writable));
}

pub fresh-IsStream :
    (page : List ℕ)
    → length page ≡ pipe_size
    → IsStream (record { pipe = fresh page; sent = []; received = [] })
unfolding fresh
fresh-IsStream page l = record {
  valid = record { storage = l; words = omega arith; bounded = omega arith };
  stream = refl;
}

-- After any runs of writers, readers and closes of a pipe that starts fresh, the bytes that were
-- read, followed by those that the pipe still holds, are the bytes that were written, in order;
-- and the pipe holds at most `PIPESIZE` of them.
pub Reach-stream :
    (page : List ℕ) {s : Net}
    → length page ≡ pipe_size
    → Reach (record { pipe = fresh page; sent = []; received = [] }) s
    → (s.sent ≡ s.received ++ contents s.pipe) × (length (contents s.pipe) ≤ pipe_size)
Reach-stream page {s} l r =
    let v = go r in (v.stream, omega (arith, v.valid.bounded, length-contents s.pipe))
  where
    go : {t : Net} → Reach (record { pipe = fresh page; sent = []; received = [] }) t → IsStream t
    go here = fresh-IsStream page l
    go (next q st) = Step-IsStream st (go q)
