-- ===== src/Locks/Exclusion.antt =====
-- CPUs that take and give back one lock exclude each other.
use strace_xv.Base.{
  if◌then◌else◌, length, ℕ, ◌+◌, ◌≤◌, ◌≡◌, refl, sym, ◌∙◌, true, false, some, List, [], ◌∷◌, ◌++◌,
  arith,
}
use strace_xv.Locks.{Cpu, Spinlock, start_acquire, try_lock, own_lock, release}

-- Where a CPU is: outside, in the loop of `acquire`, behind its last `xchg`, or behind `acquire`.
pub data Phase : Type 0 where
  outside trying won inside : Phase

-- Past the `xchg` that took the lock.
abbrev pub has_lock : Phase → ℕ
has_lock outside = 0
has_lock trying = 0
has_lock won = 1
has_lock inside = 1

pub record Core : Type 0 where
  pub cpu : Cpu
  pub phase : Phase

-- The lock and the CPUs; a CPU's index is its place in the list.
pub record System : Type 0 where
  pub lock : Spinlock
  pub cores : List Core

abbrev pub count : List Core → ℕ
count [] = 0
count (c ∷ cs) = has_lock c.phase + count cs

-- One step of the CPU that stands between the others.
pub data Step : System → System → Type 0 where
  starts :
      {lk : Spinlock} (c c' : Cpu) (before after : List Core)
      → start_acquire (length before) lk c ≡ some c'
      → Step
          (record { lock = lk; cores = before ++ (record { cpu = c; phase = outside } ∷ after) })
          (record { lock = lk; cores = before ++ (record { cpu = c'; phase = trying } ∷ after) })
  spins :
      {lk lk' : Spinlock} (c : Cpu) (before after : List Core)
      → try_lock lk ≡ (true, lk')
      → Step
          (record { lock = lk; cores = before ++ (record { cpu = c; phase = trying } ∷ after) })
          (record { lock = lk'; cores = before ++ (record { cpu = c; phase = trying } ∷ after) })
  wins :
      {lk lk' : Spinlock} (c : Cpu) (before after : List Core)
      → try_lock lk ≡ (false, lk')
      → Step
          (record { lock = lk; cores = before ++ (record { cpu = c; phase = trying } ∷ after) })
          (record { lock = lk'; cores = before ++ (record { cpu = c; phase = won } ∷ after) })
  owns :
      {lk : Spinlock} (c : Cpu) (before after : List Core)
      → Step
          (record { lock = lk; cores = before ++ (record { cpu = c; phase = won } ∷ after) })
          (record {
            lock = own_lock (length before) lk;
            cores = before ++ (record { cpu = c; phase = inside } ∷ after);
          })
  releases :
      {lk lk' : Spinlock} (c c' : Cpu) (before after : List Core)
      → release (length before) lk c ≡ some (lk', c')
      → Step
          (record { lock = lk; cores = before ++ (record { cpu = c; phase = inside } ∷ after) })
          (record { lock = lk'; cores = before ++ (record { cpu = c'; phase = outside } ∷ after) })

pub data Reach (s : System) : System → Type 0 where
  here : Reach s s
  next : {t u : System} → Reach s t → Step t u → Reach s u

-- The lock is locked exactly as often as a CPU has it.
abbrev pub IsExclusive : System → Type 0
IsExclusive s = count s.cores ≡ (if (s.lock).locked then 1 else 0)

count-split :
    (before : List Core) (c : Core) (after : List Core)
    → count (before ++ (c ∷ after)) ≡ has_lock c.phase + count (before ++ after)
count-split [] c after = refl
count-split (b ∷ before) c after = omega (arith, count-split before c after)

Step-IsExclusive : {s t : System} → Step s t → IsExclusive s → IsExclusive t
unfolding try_lock own_lock release
Step-IsExclusive (starts {lk} c c' before after e) h =
    count-split before _ after
    ∙ sym (count-split before (record { cpu = c; phase = outside }) after)
    ∙ h
Step-IsExclusive (spins {lk} {lk'} c before after e) h = ground arith
Step-IsExclusive (wins {lk} {lk'} c before after e) h = ground (
  arith,
  count-split before (record { cpu = c; phase = trying }) after,
  count-split before (record { cpu = c; phase = won }) after,
)
Step-IsExclusive (owns {lk} c before after) h =
    count-split before _ after
    ∙ sym (count-split before (record { cpu = c; phase = won }) after)
    ∙ h
Step-IsExclusive (releases {lk} {lk'} c c' before after e) h = ground (
  arith,
  count-split before (record { cpu = c; phase = inside }) after,
  count-split before (record { cpu = c'; phase = outside }) after,
)

-- In every state that CPUs reach from one in which the lock is locked exactly as often as a CPU
-- has it, that is so again, and at most one CPU has the lock.
pub Reach-IsExclusive :
    {s t : System} → IsExclusive s → Reach s t → IsExclusive t × (count t.cores ≤ 1)
Reach-IsExclusive {s} {t} h r = let e = go r in (e, ground arith)
  where
    go : {t : System} → Reach s t → IsExclusive t
    go here = h
    go (next q st) = Step-IsExclusive st (go q)
