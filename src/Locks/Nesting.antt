-- ===== src/Locks/Nesting.antt =====
-- Matched calls of pushcli and popcli.
use strace_xv.Base.{
  ◌==◌, if◌then◌else◌, Bool-cases, ◌>>=◌, ℕ, zero, suc, ◌+◌, ◌-◌, ◌<◌, ◌≡◌, refl, sym, ap, ◌∙◌, ◌⊎◌,
  inl, inr, Bool, true, false, ◌&&◌, Option, some, arith,
}
use strace_xv.Locks.{Cpu, pushcli, popcli}

-- Interrupts are off while calls of `pushcli` are open.
abbrev pub IsQuiet : Cpu → Type 0
IsQuiet c = 0 < c.ncli → c.interrupts ≡ false

abbrev pub push_times : ℕ → Cpu → Cpu
push_times zero c = c
push_times (suc n) c = pushcli (push_times n c)

abbrev pub pop_times : ℕ → Cpu → Option Cpu
pop_times zero c = some c
pop_times (suc n) c = popcli c >>= λ c'. pop_times n c'

-- A CPU with `n` calls open above the depth `k`, at which its interrupts were `b`.
record IsOpen (k : ℕ) (b : Bool) (n : ℕ) (c : Cpu) : Type 0 where
  depth : c.ncli ≡ k + n
  now : c.interrupts ≡ (if n == 0 then b else false)
  saved : k ≡ 0 → 0 < n → c.intena ≡ b
  below : 0 < k → b ≡ false

-- The same interrupts and depth.
pub record Restored (k : ℕ) (b : Bool) (o : Option Cpu) : Type 0 where
  pub cpu : Cpu
  pub returns : o ≡ some cpu
  pub depth : cpu.ncli ≡ k
  pub interrupts : cpu.interrupts ≡ b

pushcli_lem : {k : ℕ} {b : Bool} (n : ℕ) (c : Cpu) → IsOpen k b n c → IsOpen k b (suc n) (pushcli c)
unfolding pushcli
pushcli_lem {k} {b} n c h = record {
  depth = ground (arith, h.depth);
  now = ground arith;
  saved = λ z p. saves z (Bool-cases (c.ncli == 0));
  below = h.below;
}
  where
    saves :
        k ≡ 0
        → ((c.ncli == 0) ≡ true) ⊎ ((c.ncli == 0) ≡ false)
        → (if c.ncli == 0 then c.interrupts else c.intena) ≡ b
    saves z (inl e) =
        let none_open : (n == 0) ≡ true = ground (arith, h.depth) in
        let at : c.interrupts ≡ b = rw none_open at h.now in rw e at
    saves z (inr e) = rw e (h.saved z (ground (arith, h.depth)))

push_times-lem : (n : ℕ) (c : Cpu) → IsQuiet c → IsOpen c.ncli c.interrupts n (push_times n c)
push_times-lem zero c q = record {
  depth = omega arith;
  now = refl;
  saved = λ z p. absurd (omega arith);
  below = q;
}
push_times-lem (suc n) c q = pushcli_lem n (push_times n c) (push_times-lem n c q)

record Popped (k : ℕ) (b : Bool) (n : ℕ) (o : Option Cpu) : Type 0 where
  cpu : Cpu
  returns : o ≡ some cpu
  open_still : IsOpen k b n cpu

popcli_lem : {k : ℕ} {b : Bool} (n : ℕ) (c : Cpu) → IsOpen k b (suc n) c → Popped k b n (popcli c)
unfolding popcli
popcli_lem {k} {b} n c h =
    let off : c.interrupts ≡ false = ground (arith, h.now) in
    let deep : (c.ncli == 0) ≡ false = ground (arith, h.depth) in
    rw (off, deep)
      (record {
        cpu = _;
        returns = refl;
        open_still = record {
          depth = ground (arith, h.depth);
          now = back (Bool-cases (n == 0)) (Bool-cases (k == 0));
          saved = λ z p. h.saved z (omega arith);
          below = h.below;
        };
      })
  where
    back :
        ((n == 0) ≡ true) ⊎ ((n == 0) ≡ false)
        → ((k == 0) ≡ true) ⊎ ((k == 0) ≡ false)
        → ((c.ncli - 1 == 0) && c.intena) ≡ (if n == 0 then b else false)
    back (inl e) (inl z) =
        let last : (c.ncli - 1 == 0) ≡ true = ground (arith, h.depth) in
        rw (e, last) (h.saved (ground arith) (omega arith))
    back (inl e) (inr z) =
        let more : (c.ncli - 1 == 0) ≡ false = ground (arith, h.depth) in
        rw (e, more) (sym (h.below (ground arith)))
    back (inr e) z =
        let more : (c.ncli - 1 == 0) ≡ false = ground (arith, h.depth) in rw (e, more) refl

pop_times-lem : {k : ℕ} {b : Bool} (n : ℕ) (c : Cpu) → IsOpen k b n c → Restored k b (pop_times n c)
pop_times-lem {k} zero c h = record {
  cpu = c;
  returns = refl;
  depth = omega (arith, h.depth);
  interrupts = h.now;
}
pop_times-lem (suc n) c h =
    let p = popcli_lem n c h in
    let r = pop_times-lem n p.cpu p.open_still in
    record {
      cpu = r.cpu;
      returns = ap (λ o. o >>= λ c'. pop_times n c') p.returns ∙ r.returns;
      depth = r.depth;
      interrupts = r.interrupts;
    }

-- After any number of calls of `pushcli`, as many of `popcli` do not panic, and leave the depth
-- and the interrupts as they were before, if interrupts were off at a depth above 0.
pub pop_times-push_times :
    (n : ℕ) (c : Cpu) → IsQuiet c → Restored c.ncli c.interrupts (pop_times n (push_times n c))
pop_times-push_times n c q = pop_times-lem n (push_times n c) (push_times-lem n c q)
