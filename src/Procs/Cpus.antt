-- ===== src/Procs/Cpus.antt =====
-- The scheduler over several CPUs: a process is RUNNING exactly on the one CPU that runs it.
use strace_xv.Base.{
  ◌==◌, if◌then◌else◌, ==_iff, Bool-cases, Option-cases, get_elem?, occurs, ℕ, ◌+◌, ◌≤◌, ◌≡◌, refl,
  sym, ap, ◌∙◌, subst, inl, inr, Bool, true, false, Option, none, some, List, [], ◌∷◌, ◌++◌, arith,
}
use strace_xv.Procs.{
  sleeping, runnable, running, Proc, Table, Ptable, is_runnable, modify, fork, wakeup1, kill, sleep,
  tidy_up, yield_, run_, exit, reaped, waits, wait, scan, Scan, dead_child, no_dead_child,
}
use strace_xv.Procs.Running.{
  is_running, runs_in, runs, runs-modify, runs-same, runs_in-stopped, runs-wakeup1, runs-kill,
}
use strace_xv.Procs.Schedule.{runs-fork, runs-exit, runs-reaped}

-- The table, and for each CPU the process that it runs; `none` is a CPU in the scheduler.
pub record System : Type 0 where
  pub table : Ptable
  pub cpus : List (Option ℕ)

-- The processes that the CPUs run.
abbrev pub on_cpu : List (Option ℕ) → List ℕ
on_cpu [] = []
on_cpu (none ∷ cs) = on_cpu cs
on_cpu (some i ∷ cs) = i ∷ on_cpu cs

abbrev with : Ptable → Table → Ptable
with pt ps = record pt { procs = ps }

module _ (addr : ℕ → ℕ) (initproc : ℕ) where
  -- One step of the CPU that stands between the others: the scheduler picks a process; or the
  -- process of the CPU yields, sleeps, exits, waits, forks, wakes others or kills one.
  pub data Step : System → System → Type 0 where
    picks :
        {pt : Ptable} {ps : Table} (before after : List (Option ℕ)) (i : ℕ)
        → run_ i pt.procs ≡ (true, ps)
        → Step
            (record { table = pt; cpus = before ++ (none ∷ after) })
            (record { table = with pt ps; cpus = before ++ (some i ∷ after) })
    passes :
        {pt : Ptable} {ps : Table} (before after : List (Option ℕ)) (i : ℕ)
        → run_ i pt.procs ≡ (false, ps)
        → Step
            (record { table = pt; cpus = before ++ (none ∷ after) })
            (record { table = with pt ps; cpus = before ++ (none ∷ after) })
    yields :
        {pt : Ptable} (before after : List (Option ℕ)) (i : ℕ)
        → Step
            (record { table = pt; cpus = before ++ (some i ∷ after) })
            (record { table = with pt (yield_ i pt.procs); cpus = before ++ (none ∷ after) })
    sleeps :
        {pt : Ptable} (before after : List (Option ℕ)) (i chan : ℕ)
        → Step
            (record { table = pt; cpus = before ++ (some i ∷ after) })
            (record { table = with pt (sleep i chan pt.procs); cpus = before ++ (none ∷ after) })
    resumes :
        {pt : Ptable} (before after : List (Option ℕ)) (i : ℕ)
        → Step
            (record { table = pt; cpus = before ++ (some i ∷ after) })
            (record { table = with pt (tidy_up i pt.procs); cpus = before ++ (some i ∷ after) })
    exits :
        {pt : Ptable} {ps : Table} (before after : List (Option ℕ)) (i : ℕ) (parent : Option ℕ)
        → exit addr i initproc parent pt.procs ≡ some ps
        → Step
            (record { table = pt; cpus = before ++ (some i ∷ after) })
            (record { table = with pt ps; cpus = before ++ (none ∷ after) })
    reaps :
        {pt : Ptable} {ps : Table} (before after : List (Option ℕ)) (i : ℕ) (killed : Bool)
        (pid : ℕ)
        → wait addr i killed pt.procs ≡ reaped pid ps
        → Step
            (record { table = pt; cpus = before ++ (some i ∷ after) })
            (record { table = with pt ps; cpus = before ++ (some i ∷ after) })
    awaits :
        {pt : Ptable} {ps : Table} (before after : List (Option ℕ)) (i : ℕ) (killed : Bool)
        → wait addr i killed pt.procs ≡ waits ps
        → Step
            (record { table = pt; cpus = before ++ (some i ∷ after) })
            (record { table = with pt ps; cpus = before ++ (none ∷ after) })
    forks :
        {pt : Ptable} (before after : List (Option ℕ)) (i : ℕ) (p : Proc) (kstack pgdir : ℕ)
        → get_elem? pt.procs i ≡ some p
        → Step
            (record { table = pt; cpus = before ++ (some i ∷ after) })
            (record { table = (fork i p kstack pgdir pt).1; cpus = before ++ (some i ∷ after) })
    wakes :
        {pt : Ptable} {cpus : List (Option ℕ)} (chan : ℕ)
        → Step
            (record { table = pt; cpus = cpus })
            (record { table = with pt (wakeup1 chan pt.procs); cpus = cpus })
    kills :
        {pt : Ptable} {cpus : List (Option ℕ)} (pid : ℕ)
        → Step
            (record { table = pt; cpus = cpus })
            (record { table = with pt (kill pid pt.procs).1; cpus = cpus })

  pub data Reach (s : System) : System → Type 0 where
    here : Reach s s
    next : {t u : System} → Reach s t → Step t u → Reach s u

  -- An entry is RUNNING exactly as often as CPUs run it: on one CPU, or not at all.
  abbrev pub IsScheduled : System → Type 0
  IsScheduled s = (j : ℕ) → runs s.table.procs j ≡ occurs j (on_cpu s.cpus)

  runs-most : (ps : Table) (j : ℕ) → runs ps j ≤ 1
  runs-most ps j = go (get_elem? ps j)
    where
      go : (o : Option Proc) → runs_in o ≤ 1
      go none = omega arith
      go (some p) = ground arith

  -- The count of one CPU among the others.
  at_cpu :
      (j : ℕ) (before : List (Option ℕ)) (c : Option ℕ) (after : List (Option ℕ))
      → occurs j (on_cpu (before ++ (c ∷ after)))
        ≡ occurs j (on_cpu (c ∷ [])) + occurs j (on_cpu (before ++ after))
  at_cpu j [] none after = omega arith
  at_cpu j [] (some i) after = omega arith
  at_cpu j (none ∷ before) c after = at_cpu j before c after
  at_cpu j (some i ∷ before) c after = omega (arith, at_cpu j before c after)

  -- The process of a CPU stops: its entry is not RUNNING any more.
  stops :
      (pt : Ptable) (ps : Table) (before after : List (Option ℕ)) (i : ℕ)
      → IsScheduled (record { table = pt; cpus = before ++ (some i ∷ after) })
      → ((j : ℕ) → runs ps j ≡ (if i == j then 0 else runs pt.procs j))
      → IsScheduled (record { table = with pt ps; cpus = before ++ (none ∷ after) })
  stops pt ps before after i h e j = ground (
    arith,
    e j,
    h j,
    at_cpu j before (some i) after,
    at_cpu j before none after,
    runs-most pt.procs j,
  )

  -- A CPU takes a process that was not RUNNING.
  starts :
      (pt : Ptable) (ps : Table) (before after : List (Option ℕ)) (i : ℕ)
      → IsScheduled (record { table = pt; cpus = before ++ (none ∷ after) })
      → runs pt.procs i ≡ 0
      → ((j : ℕ) → runs ps j ≡ (if i == j then 1 else runs pt.procs j))
      → IsScheduled (record { table = with pt ps; cpus = before ++ (some i ∷ after) })
  starts pt ps before after i h z e j = elim (Bool-cases (i == j)) [
    | inl q ↦
        let zj : runs pt.procs j ≡ 0 = subst (λ j. runs pt.procs j ≡ 0) ((==_iff i j).0 q) z in
        ground (arith, e j, h j, at_cpu j before (some i) after, at_cpu j before none after)
    | inr q ↦ ground (arith, e j, h j, at_cpu j before (some i) after, at_cpu j before none after)
  ]

  set_state :
      (f : Proc → Proc)
      → ((p : Proc) → is_running (f p) ≡ false)
      → (ps : Table) (i j : ℕ) → runs (modify ps i f) j ≡ (if i == j then 0 else runs ps j)
  set_state f h ps i j = runs-modify ps i f 0 (runs_in-stopped f h (get_elem? ps i)) j

  runs-sleep :
      (i chan : ℕ) (ps : Table) (j : ℕ)
      → runs (sleep i chan ps) j ≡ (if i == j then 0 else runs ps j)
  unfolding sleep
  runs-sleep i chan ps j =
      set_state (λ p. record p { chan = chan; state = sleeping }) (λ p. refl) ps i j

  runs-yield :
      (i : ℕ) (ps : Table) (j : ℕ) → runs (yield_ i ps) j ≡ (if i == j then 0 else runs ps j)
  unfolding yield_
  runs-yield i ps j = set_state (λ p. record p { state = runnable }) (λ p. refl) ps i j

  runs-tidy_up : (i : ℕ) (ps : Table) (j : ℕ) → runs (tidy_up i ps) j ≡ runs ps j
  unfolding tidy_up
  runs-tidy_up i ps j = runs-same ps i (λ p. record p { chan = 0 }) (λ p. refl) j

  -- A round of the scheduler takes a process that was not RUNNING, or leaves the table.
  runs-run :
      (i : ℕ) (ps ps' : Table)
      → run_ i ps ≡ (true, ps')
      → (runs ps i ≡ 0) × ((j : ℕ) → runs ps' j ≡ (if i == j then 1 else runs ps j))
  unfolding run_
  runs-run i ps ps' e = elim (Option-cases (get_elem? ps i)) [
    | inl n ↦ absurd (let x = rw (run_, n) at e in cc)
    | inr (p, q) ↦ elim (Bool-cases (is_runnable p)) [
      | inr passed ↦ absurd (let x = rw (run_, q, passed) at e in cc)
      | inl taken ↦
          let x = rw (run_, q, taken) at e in
          let is : modify ps i (λ p. record p { state = running }) ≡ ps' = cc in
          (
            ap runs_in q ∙ ground arith,
            λ j.
                ap (λ t. runs t j) (sym is)
                ∙ runs-modify ps i (λ p. record p { state = running }) 1 (rw q refl) j,
          )
    ]
  ]

  run_passes : (i : ℕ) (ps ps' : Table) → run_ i ps ≡ (false, ps') → ps' ≡ ps
  unfolding run_
  run_passes i ps ps' e = elim (Option-cases (get_elem? ps i)) [
    | inl n ↦ let x = rw (run_, n) at e in cc
    | inr (p, q) ↦ elim (Bool-cases (is_runnable p)) [
      | inr passed ↦ let x = rw (run_, q, passed) at e in cc
      | inl taken ↦ absurd (let x = rw (run_, q, taken) at e in cc)
    ]
  ]

  runs-waits :
      (i : ℕ) (killed : Bool) (ps ps' : Table) (j : ℕ)
      → wait addr i killed ps ≡ waits ps'
      → runs ps' j ≡ (if i == j then 0 else runs ps j)
  unfolding wait
  runs-waits i killed ps ps' j e = go (scan i false 0 ps) refl
    where
      go : (r : Scan) → scan i false 0 ps ≡ r → runs ps' j ≡ (if i == j then 0 else runs ps j)
      go (dead_child k n) q = ground arith
      go (no_dead_child havekids) q =
          let is : sleep i (addr i) ps ≡ ps' = ground arith in
          ap (λ t. runs t j) (sym is) ∙ runs-sleep i (addr i) ps j

  Step-IsScheduled : {s t : System} → Step s t → IsScheduled s → IsScheduled t
  Step-IsScheduled (picks {pt} {ps} before after i e) h j =
      let (z, q) = runs-run i pt.procs ps e in starts pt ps before after i h z q j
  Step-IsScheduled (passes {pt} {ps} before after i e) h j =
      ap (λ t. runs t j) (run_passes i pt.procs ps e) ∙ h j
  Step-IsScheduled (resumes {pt} before after i) h j = runs-tidy_up i pt.procs j ∙ h j
  Step-IsScheduled (yields {pt} before after i) h j =
      stops pt (yield_ i pt.procs) before after i h (runs-yield i pt.procs) j
  Step-IsScheduled (sleeps {pt} before after i chan) h j =
      stops pt (sleep i chan pt.procs) before after i h (runs-sleep i chan pt.procs) j
  Step-IsScheduled (exits {pt} {ps} before after i parent e) h j =
      stops pt ps before after i h (runs-exit addr i initproc parent pt.procs ps e) j
  Step-IsScheduled (reaps {pt} {ps} before after i killed pid e) h j =
      runs-reaped addr i killed pt.procs ps pid e j ∙ h j
  Step-IsScheduled (awaits {pt} {ps} before after i killed e) h j =
      stops pt ps before after i h (λ j. runs-waits i killed pt.procs ps j e) j
  Step-IsScheduled (forks {pt} before after i p kstack pgdir e) h j =
      runs-fork i p kstack pgdir pt j ∙ h j
  Step-IsScheduled (wakes {pt} chan) h j = runs-wakeup1 chan pt.procs j ∙ h j
  Step-IsScheduled (kills {pt} pid) h j = runs-kill pid pt.procs j ∙ h j

  Reach-IsScheduled : {s t : System} → IsScheduled s → Reach s t → IsScheduled t
  Reach-IsScheduled h here = h
  Reach-IsScheduled h (next r st) = Step-IsScheduled st (Reach-IsScheduled h r)

  -- In every state that CPUs reach from one in which exactly the processes that they run are
  -- RUNNING, that is so again, and no process is on two CPUs.
  pub Reach-running :
      {s t : System}
      → IsScheduled s
      → Reach s t
      → (j : ℕ) → (runs t.table.procs j ≡ occurs j (on_cpu t.cpus)) × (occurs j (on_cpu t.cpus) ≤ 1)
  Reach-running {s} {t} h r j =
      let e = Reach-IsScheduled h r j in (e, omega (arith, e, runs-most t.table.procs j))
