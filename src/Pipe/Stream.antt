-- ===== src/Pipe/Stream.antt =====
-- Writers and readers of a pipe, in any order of their runs: what is read is what was written.
use strace_xv.Base.{
  leb, if◌then◌else◌, Bool-cases, length, ℕ, zero, suc, ◌<◌, ◌≡◌, refl, sym, ap, ◌∙◌, ◌⊎◌, inl, inr,
  Bool, true, false, ◌&&◌, ◌||◌, not, List, [], ◌∷◌, ◌++◌, append-nil, append_assoc, arith,
}
use strace_xv.Pipe.{
  Pipe, pipe_size, push, front, pop, is_full, is_empty, Write, slept, failed, wrote, pipewrite,
  Read, waiting, killed_read, got, read_loop, piperead,
}
use strace_xv.Pipe.Fifo.{
  IsValid, count, contents, length-contents, push-IsValid, contents-push, pop-IsValid, contents-pop,
  contents-empty, is_full_iff, is_empty_iff,
}

-- The pipe that a run of `pipewrite` leaves, and the bytes that it has not written.
abbrev pub left : Write → Pipe
left (slept src p) = p
left (failed p) = p
left (wrote p) = p

-- What a run of `pipewrite` did: it appended `done`, the first bytes of `src`.
pub record Wrote (p : Pipe) (src : List ℕ) (w : Write) : Type 0 where
  pub done : List ℕ
  pub todo : List ℕ
  pub split : src ≡ done ++ todo
  pub held : contents (left w) ≡ contents p ++ done
  pub valid : IsValid (left w)
  pub ends :
      (w ≡ wrote (left w)) × (todo ≡ [])
      ⊎ ((count (left w) ≡ pipe_size) × ((w ≡ slept todo (left w)) ⊎ (w ≡ failed (left w))))

Wrote-push :
    (p : Pipe) (c : ℕ) (src : List ℕ) (w : Write)
    → contents (push p c) ≡ contents p ++ (c ∷ [])
    → Wrote (push p c) src w
    → Wrote p (c ∷ src) w
Wrote-push p c src w e k = record {
  done = c ∷ k.done;
  todo = k.todo;
  split = ap (λ s. c ∷ s) k.split;
  held = k.held ∙ ap (λ s. s ++ k.done) e ∙ append_assoc (contents p) (c ∷ []) k.done;
  valid = k.valid;
  ends = k.ends;
}

-- A run of `pipewrite` appends the first bytes of what is left to the queue, in order; it returns
-- when all are written, and it sleeps or fails only at a full pipe, the sleeper with exactly the
-- bytes that are not written.
pub pipewrite_lem :
    (killed : Bool) (p : Pipe) (src : List ℕ) → IsValid p → Wrote p src (pipewrite killed p src)
unfolding pipewrite
pipewrite_lem killed p [] v = record {
  done = [];
  todo = [];
  split = refl;
  held = sym (append-nil (contents p));
  valid = v;
  ends = inl (refl, refl);
}
pipewrite_lem killed p (c ∷ src) v = elim (Bool-cases (is_full p)) [
  | inl full ↦ elim (Bool-cases (not p.readopen || killed)) [
    | inl broken ↦ rw (full, broken) (stop (failed p) refl (inr refl) full)
    | inr fine ↦ rw (full, fine) (stop (slept (c ∷ src) p) refl (inl refl) full)
  ]
  | inr room ↦
      let below : count p < pipe_size = ground (arith, is_full_iff v, v.bounded) in
      rw room (
        Wrote-push p c src _ (contents-push c v below)
          (pipewrite_lem killed (push p c) src (push-IsValid c v below)))
]
  where
    stop :
        (w : Write)
        → left w ≡ p
        → (w ≡ slept (c ∷ src) (left w)) ⊎ (w ≡ failed (left w))
        → is_full p ≡ true
        → Wrote p (c ∷ src) w
    stop w e how full = record {
      done = [];
      todo = c ∷ src;
      split = refl;
      held = ap contents e ∙ sym (append-nil (contents p));
      valid = rw e v;
      ends = inr (rw e ((is_full_iff v).0 full), how);
    }

-- What a run of the copying loop of `piperead` did.
pub record Loop (n : ℕ) (p : Pipe) (r : List ℕ × Pipe) : Type 0 where
  pub queue : contents p ≡ r.0 ++ contents r.1
  pub valid : IsValid r.1
  pub size : length r.0 ≡ (if leb n (count p) then n else count p)
  pub open_ends : (r.1.readopen ≡ p.readopen) × (r.1.writeopen ≡ p.writeopen)

read_loop_lem : (n : ℕ) (p : Pipe) → IsValid p → Loop n p (read_loop n p)
unfolding read_loop
read_loop_lem zero p v = record {
  queue = refl;
  valid = v;
  size = ground arith;
  open_ends = (refl, refl);
}
read_loop_lem (suc n) p v = elim (Bool-cases (is_empty p)) [
  | inl e ↦
      let z : count p ≡ 0 = (is_empty_iff v).0 e in
      rw e (record { queue = refl; valid = v; size = ground arith; open_ends = (refl, refl) })
  | inr ne ↦
      let k = read_loop_lem n (pop p) (pop-IsValid v ne) in
      let c = contents-pop v ne in
      let l : count p ≡ suc (count (pop p)) =
        sym (length-contents p) ∙ ap length c ∙ ap suc (length-contents (pop p)) in
      rw ne (record {
        queue = c ∙ ap (λ s. front p ∷ s) k.queue;
        valid = k.valid;
        size = ground (arith, k.size);
        open_ends = k.open_ends;
      })
]

-- How a run of `piperead` of `n` bytes may end.
abbrev pub Reads : ℕ → Pipe → Bool → Read → Type 0
Reads n p killed waiting = (contents p ≡ []) × (p.writeopen ≡ true) × (killed ≡ false)
Reads n p killed killed_read = (contents p ≡ []) × (p.writeopen ≡ true) × (killed ≡ true)
Reads n p killed (got bytes p') =
    (contents p ≡ bytes ++ contents p')
    × (length bytes ≡ (if leb n (count p) then n else count p))
    × IsValid p'
    × ((contents p ≡ []) → p.writeopen ≡ false)

-- A run of `piperead` waits only at an empty pipe that a writer holds open, and fails there if its
-- process is killed; else it takes as many bytes as are there, up to `n`, from the front of the
-- queue, and so returns none to a reader of at least one byte only if no writer is left.
pub piperead_lem :
    (killed : Bool) (p : Pipe) (n : ℕ) → IsValid p → Reads n p killed (piperead killed p n)
unfolding piperead
piperead_lem killed p n v = elim (Bool-cases (is_empty p && p.writeopen)) [
  | inl e ↦
      let em : is_empty p ≡ true = ground arith in
      let c = contents-empty v em in
      let op : p.writeopen ≡ true = ground arith in
      elim (Bool-cases killed) [ inl k ↦ rw (e, k) (c, op, refl) | inr k ↦ rw (e, k) (c, op, refl) ]
  | inr ne ↦
      let k = read_loop_lem n p v in
      rw ne (
        k.queue,
        k.size,
        k.valid,
        λ z.
            let zero' : count p ≡ 0 = sym (length-contents p) ∙ ap length z in
            ground (arith, is_empty_iff v),
      )
]
