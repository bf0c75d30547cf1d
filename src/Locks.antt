-- ===== src/Locks.antt =====
-- Spin locks and the nesting of disabled interrupts: kernel/spinlock.c.
pub mod Nesting
pub mod Exclusion
mod Tests
use strace_xv.Base.{
  ltb, leb, ◌==◌, if◌then◌else◌, ==_iff, lt→ltb, Bool-cases, Option-cases, ◌>>=◌, length, get_elem?,
  get_or, set, replicate, length-append, length-replicate, length-set, get_elem?-set_self,
  get_elem?-set_ne, length-reverse, occurs, occurs-append, get_elem?-lt, ℕ, zero, suc, ◌+◌, ◌-◌,
  ◌*◌, ◌/◌, ◌%◌, ◌^◌, ◌≤◌, ◌<◌, ◌≡◌, refl, sym, ap, ◌∙◌, fun_ext, subst, ◌≢◌, ◌↔◌, ◌⊎◌, inl, inr,
  Bool, true, false, ◌&&◌, ◌||◌, not, Option, none, some, List, [], ◌∷◌, ◌++◌, append-nil,
  append_assoc, reverse-append, arith,
}

-- What a CPU keeps for `pushcli`, and whether its interrupts are on.
pub record Cpu : Type 0 where
  pub ncli : ℕ
  pub intena : Bool
  pub interrupts : Bool

-- `struct spinlock` without what is for debugging; the CPU is its index, `none` a null pointer.
pub record Spinlock : Type 0 where
  pub locked : Bool
  pub cpu : Option ℕ

abbrev pub initlock : Spinlock
initlock = record { locked = false; cpu = none }

unfoldable pub pushcli : Cpu → Cpu
pushcli c = record {
  ncli = c.ncli + 1;
  intena = if c.ncli == 0 then c.interrupts else c.intena;
  interrupts = false;
}

-- `popcli`; `none` is one of its panics.
unfoldable pub popcli : Cpu → Option Cpu
popcli c =
    if c.interrupts
    then none
    else if c.ncli == 0
    then none
    else some (record c { ncli = c.ncli - 1; interrupts = (c.ncli - 1 == 0) && c.intena })

abbrev pub holding : ℕ → Spinlock → Bool
holding i lk = lk.locked && elim (lk.cpu) [ none ↦ false | some j ↦ j == i ]

-- `acquire` by the CPU `i` up to its loop; `none` is its panic.
unfoldable pub start_acquire : ℕ → Spinlock → Cpu → Option Cpu
start_acquire i lk c = let c' = pushcli c in if holding i lk then none else some c'

-- One `xchg` of the loop: the old value, and the lock behind it.
unfoldable pub try_lock : Spinlock → Bool × Spinlock
try_lock lk = (lk.locked, record lk { locked = true })

-- The rest of `acquire`.
unfoldable pub own_lock : ℕ → Spinlock → Spinlock
own_lock i lk = record lk { cpu = some i }

-- `release`; `none` is its panic or that of `popcli`.
unfoldable pub release : ℕ → Spinlock → Cpu → Option (Spinlock × Cpu)
release i lk c =
    let free : Spinlock = record { locked = false; cpu = none } in
    let done = popcli c >>= λ c'. some (free, c') in if not (holding i lk) then none else done
