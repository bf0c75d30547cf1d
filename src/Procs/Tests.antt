-- ===== src/Procs/Tests.antt =====
-- A table of four entries: init, a shell that is traced with its children, its child, and a free
-- entry.
use strace_xv.Base.{
  ◌>>=◌, get_elem?, occurs, ℕ, zero, suc, ◌+◌, ◌*◌, ◌≤◌, ◌≡◌, refl, true, false, Option, none, some,
  [], ◌∷◌, arith,
}
use strace_xv.Procs.{
  Procstate, unused, runnable, running, Proc, Table, Ptable, points_to, modify, find_unused,
  allocproc, finish_fork, fork, kill, run_, exit,
}
use strace_xv.Procs.Cpus.{
  System, picks, forks, Reach, here, next, IsScheduled, on_cpu, Reach-running,
}
use strace_xv.Procs.Running.{runs}
use strace_xv.Procs.Orphans.{parent_at, passed, exit-parents}
use strace_xv.Procs.Birth.{Forked, fork_lem, find_pid, kill-fork}

abbrev proc : Procstate → ℕ → Option ℕ → ℕ → Proc
proc state pid parent traced = record {
  state = state;
  pid = pid;
  parent = parent;
  chan = 0;
  killed = false;
  traced = traced;
  kstack = 0;
  pgdir = 0;
  sz = 4096;
}

abbrev free : Proc
free = proc unused 0 none 0

abbrev shell : Procstate → Proc
shell state = proc state 2 (some 0) 3

abbrev procs : Procstate → Table
procs state = proc runnable 1 none 0 ∷ shell state ∷ proc runnable 3 (some 1) 0 ∷ free ∷ []

abbrev table : Procstate → Ptable
table state = record { procs = procs state; nextpid = 4 }

abbrev entry_address : ℕ → ℕ
entry_address i = 1000 + 128 * i

-- Two CPUs, of which one gets the shell and forks.
abbrev idle : System
idle = record { table = table runnable; cpus = none ∷ none ∷ [] }

idle-IsScheduled : IsScheduled entry_address 0 idle
idle-IsScheduled zero = refl
idle-IsScheduled (suc zero) = refl
idle-IsScheduled (suc (suc zero)) = refl
idle-IsScheduled (suc (suc (suc zero))) = refl
idle-IsScheduled (suc (suc (suc (suc j)))) = refl

abbrev forked : System
forked = record {
  table = (fork 1 (shell running) 4096 8192 (table running)).1;
  cpus = none ∷ some 1 ∷ [];
}

forked-Reach : Reach entry_address 0 idle forked
unfolding run_ modify
forked-Reach =
    next (next here (picks (none ∷ []) [] 1 refl))
      (forks (none ∷ []) [] 1 (shell running) 4096 8192 refl)

Reach-running_example :
    (runs forked.table.procs 1 ≡ occurs 1 (on_cpu forked.cpus))
    × (occurs 1 (on_cpu forked.cpus) ≤ 1)
Reach-running_example = Reach-running entry_address 0 idle-IsScheduled forked-Reach 1

find_unused-procs : find_unused (procs running) ≡ some 3
unfolding find_unused
find_unused-procs = refl

-- The child of the shell is traced as the shell is.
fork_lem_example :
    Forked 1
      (shell running)
      4096
      8192
      (table running)
      3
      free
      (fork 1 (shell running) 4096 8192 (table running))
fork_lem_example =
    fork_lem 1 (shell running) 4096 8192 (table running) find_unused-procs refl (omega arith)
      (omega arith)

traced_child :
    (get_elem? (fork 1 (shell running) 4096 8192 (table running)).1.procs 3 >>= λ p. some p.traced)
    ≡ some 3
unfolding fork finish_fork allocproc find_unused modify
traced_child = refl

find_pid-procs : find_pid 0 (procs running) ≡ some 3
unfolding find_pid
find_pid-procs = refl

kill-fork_example :
    ((kill 0 (procs running)).0 ≡ true)
    × ((child : Proc) × (get_elem?
            (fork 1
              (shell running)
              4096
              8192
              (record (table running) { procs = (kill 0 (procs running)).1 })).1.procs
            3
          ≡ some child)
        × (child.killed ≡ true))
kill-fork_example =
    kill-fork 1 (shell running) 4096 8192 0 (table running) find_unused-procs find_pid-procs refl
      (omega arith) (omega arith)

exit-parents_example :
    (ps' : Table) × (exit entry_address 1 0 (some 0) (procs running) ≡ some ps')
    × ((j : ℕ) → parent_at ps' j ≡ passed 1 0 (parent_at (procs running) j))
    × ((j : ℕ) → points_to 1 (parent_at ps' j) ≡ false)
exit-parents_example = exit-parents entry_address 1 0 (some 0) (procs running) (λ e. omega arith)
