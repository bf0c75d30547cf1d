-- ===== src/Locks/Tests.antt =====
-- Two CPUs and a lock.
use strace_xv.Base.{◌≤◌, refl, true, false, some, [], ◌∷◌, arith}
use strace_xv.Locks.{Cpu, initlock, pushcli, start_acquire, try_lock, own_lock}
use strace_xv.Locks.Nesting.{push_times, pop_times, Restored, pop_times-push_times}
use strace_xv.Locks.Exclusion.{
  Phase, outside, trying, inside, Core, System, starts, spins, wins, owns, Reach, here, next, count,
  IsExclusive, Reach-IsExclusive,
}

abbrev cpu : Cpu
cpu = record { ncli = 0; intena = false; interrupts = true }

pop_times-push_times_example : Restored 0 true (pop_times 3 (push_times 3 cpu))
pop_times-push_times_example = pop_times-push_times 3 cpu (λ h. absurd (omega arith))

abbrev entered : Cpu
entered = record { ncli = 1; intena = true; interrupts = false }

abbrev at : Phase → Core
at phase = record { cpu = entered; phase = phase }

abbrev idle : Core
idle = record { cpu = cpu; phase = outside }

-- The first CPU has the lock, and the second one spins.
abbrev contended : System
contended = record {
  lock = record { locked = true; cpu = some 0 };
  cores = at inside ∷ at trying ∷ [];
}

contended-Reach : Reach (record { lock = initlock; cores = idle ∷ idle ∷ [] }) contended
unfolding start_acquire pushcli try_lock own_lock
contended-Reach =
    next
      (next
        (next
          (next (next here (starts cpu entered [] (idle ∷ []) refl))
            (wins entered [] (idle ∷ []) refl))
          (owns entered [] (idle ∷ [])))
        (starts cpu entered (at inside ∷ []) [] refl))
      (spins entered (at inside ∷ []) [] refl)

Reach-IsExclusive_example : IsExclusive contended × (count contended.cores ≤ 1)
Reach-IsExclusive_example = Reach-IsExclusive refl contended-Reach
