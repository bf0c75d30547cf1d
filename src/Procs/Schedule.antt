-- ===== src/Procs/Schedule.antt =====
-- The RUNNING entries behind fork, exit and wait.
use strace_xv.Base.{
  ◌==◌, if◌then◌else◌, Bool-cases, Option-cases, length, get_elem?, ℕ, zero, suc, ◌+◌, ◌≡◌, refl,
  sym, ap, ◌∙◌, subst, inl, inr, Bool, true, false, ◌&&◌, ◌||◌, Option, none, some, [], ◌∷◌, arith,
}
use strace_xv.Procs.{
  unused, running, zombie, Proc, Table, Ptable, is_zombie, points_to, modify, find_unused,
  allocproc, finish_fork, fork, child_of, wakeup1, parent_chan, pass_child, pass_children, exit,
  reaped, Scan, dead_child, no_dead_child, scan, wait,
}
use strace_xv.Procs.Running.{
  runs_in, runs, runs-modify, runs_in-stopped, runs-same, runs-quiet, runs-wakeup1, find_unused_lem,
  runs-allocproc,
}

-- The entry that `allocproc` hands out is not RUNNING.
allocproc-quiet :
    (kstack : ℕ) (pt : Ptable) {i : ℕ} → (allocproc kstack pt).0 ≡ some i → runs pt.procs i ≡ 0
unfolding allocproc
allocproc-quiet kstack pt {i} h = elim (Option-cases (find_unused pt.procs)) [
  | inl e ↦ ground arith
  | inr (k, e) ↦
      let (p, g, un) = find_unused_lem pt.procs e in
      let same : k ≡ i = ground arith in
      subst (λ i. runs pt.procs i ≡ 0) same
        (ap runs_in g ∙ ap (λ s. if elim s [ running ↦ true | _ ↦ false ] then 1 else 0) un)
]

runs-finish_fork :
    (cur : ℕ) (p : Proc) (pgdir pid : ℕ) (o : Option ℕ) (pt : Ptable)
    → ((i : ℕ) → o ≡ some i → runs pt.procs i ≡ 0)
    → (j : ℕ) → runs (finish_fork cur p pgdir pid (o, pt)).1.procs j ≡ runs pt.procs j
unfolding finish_fork
runs-finish_fork cur p pgdir pid none pt h j = refl
runs-finish_fork cur p pgdir pid (some i) pt h j = elim (Bool-cases (pgdir == 0)) [
  | inl z ↦
      rw (finish_fork, z)
        (runs-quiet pt.procs i (λ np. record np { pgdir = 0; kstack = 0; state = unused })
          (h i refl) (λ q. refl) j)
  | inr z ↦
      rw (finish_fork, z) (runs-quiet pt.procs i (child_of cur p pgdir) (h i refl) (λ q. refl) j)
]

pub runs-fork :
    (cur : ℕ) (p : Proc) (kstack pgdir : ℕ) (pt : Ptable) (j : ℕ)
    → runs (fork cur p kstack pgdir pt).1.procs j ≡ runs pt.procs j
unfolding fork
runs-fork cur p kstack pgdir pt j =
    runs-finish_fork cur p pgdir pt.nextpid (allocproc kstack pt).0 (allocproc kstack pt).1
      (λ i e. runs-allocproc kstack pt i ∙ allocproc-quiet kstack pt e) j
    ∙ runs-allocproc kstack pt j

-- The child that `wait` reaps is a zombie of the caller.
pub scan_lem :
    (cur : ℕ) (havekids : Bool) (k : ℕ) (ps : Table) {i pid : ℕ}
    → scan cur havekids k ps ≡ dead_child i pid
    → (d : ℕ) × (p : Proc) × (i ≡ k + d)
      × (get_elem? ps d ≡ some p)
      × (is_zombie p ≡ true)
      × (points_to cur p.parent ≡ true)
      × (p.pid ≡ pid)
unfolding scan
scan_lem cur havekids k [] e = ground arith
scan_lem cur havekids k (p ∷ ps) {i} {pid} e =
    elim (Bool-cases (points_to cur p.parent && is_zombie p)) [
      | inl z ↦
          let hit : dead_child k p.pid ≡ dead_child i pid = rw z at e in
          let at : k ≡ i = cc in
          let is : p.pid ≡ pid = cc in (0, p, omega arith, refl, ground arith, ground arith, is)
      | inr z ↦
          let (d, q, at, g, zo, ch, is) =
            scan_lem cur (havekids || points_to cur p.parent) (k + 1) ps (rw z at e) in
          (suc d, q, omega arith, g, zo, ch, is)
    ]

-- A zombie that is reaped was not RUNNING.
reaped-quiet :
    (cur : ℕ) (ps : Table) {i pid : ℕ} → scan cur false 0 ps ≡ dead_child i pid → runs ps i ≡ 0
reaped-quiet cur ps {i} e =
    let (d, p, at, g, zo, ch, is) = scan_lem cur false 0 ps e in
    let same : d ≡ i = omega arith in
    subst (λ i. runs ps i ≡ 0) same (ap runs_in g ∙ (ground arith))

module _ (addr : ℕ → ℕ) where
  runs-pass_child :
      (cur initproc i : ℕ) (ps : Table) (j : ℕ)
      → runs (pass_child addr cur initproc i ps) j ≡ runs ps j
  unfolding pass_child
  runs-pass_child cur initproc i ps j = elim (Option-cases (get_elem? ps i)) [
    | inl e ↦ rw (pass_child, e) refl
    | inr (p, e) ↦
        let adopt = runs-same ps i (λ p. record p { parent = some initproc }) (λ q. refl) j in
        elim (Bool-cases (points_to cur p.parent)) [
          | inl child ↦ elim (Bool-cases (is_zombie p)) [
            | inl z ↦ rw (pass_child, e, child, z) (runs-wakeup1 (addr initproc) _ j ∙ adopt)
            | inr z ↦ rw (pass_child, e, child, z) adopt
          ]
          | inr other ↦ rw (pass_child, e, other) refl
        ]
  ]

  pub runs-pass_children :
      (cur initproc left i : ℕ) (ps : Table) (j : ℕ)
      → runs (pass_children addr cur initproc left i ps) j ≡ runs ps j
  unfolding pass_children
  runs-pass_children cur initproc zero i ps j = refl
  runs-pass_children cur initproc (suc left) i ps j =
      runs-pass_children cur initproc left (i + 1) (pass_child addr cur initproc i ps) j
      ∙ runs-pass_child cur initproc i ps j

  -- The process that exits is not RUNNING any more, and nothing else changes.
  pub runs-exit :
      (cur initproc : ℕ) (parent : Option ℕ) (ps ps' : Table)
      → exit addr cur initproc parent ps ≡ some ps'
      → (j : ℕ) → runs ps' j ≡ (if cur == j then 0 else runs ps j)
  unfolding exit
  runs-exit cur initproc parent ps ps' e j = elim (Bool-cases (cur == initproc)) [
    | inl z ↦ ground arith
    | inr z ↦
        let passed : Table =
          pass_children addr cur initproc (length ps) 0 (wakeup1 (parent_chan addr parent) ps) in
        let is : modify passed cur (λ p. record p { state = zombie }) ≡ ps' = ground arith in
        ap (λ q. runs q j) (sym is)
        ∙ runs-modify passed cur (λ p. record p { state = zombie }) 0
            (runs_in-stopped (λ p. record p { state = zombie }) (λ q. refl) (get_elem? passed cur))
            j
        ∙ ap (λ n. if cur == j then 0 else n)
            (runs-pass_children cur initproc (length ps) 0 (wakeup1 (parent_chan addr parent) ps) j
              ∙ runs-wakeup1 (parent_chan addr parent) ps j)
  ]

  pub runs-reaped :
      (cur : ℕ) (killed : Bool) (ps ps' : Table) (pid : ℕ)
      → wait addr cur killed ps ≡ reaped pid ps'
      → (j : ℕ) → runs ps' j ≡ runs ps j
  unfolding wait
  runs-reaped cur killed ps ps' pid e j = go (scan cur false 0 ps) refl
    where
      go : (r : Scan) → scan cur false 0 ps ≡ r → runs ps' j ≡ runs ps j
      go (dead_child i n) q =
          let clear : Proc → Proc =
            λ p. record p { kstack = 0; state = unused; pid = 0; parent = none; killed = false } in
          let is : modify ps i clear ≡ ps' = ground arith in
          ap (λ t. runs t j) (sym is) ∙ runs-quiet ps i clear (reaped-quiet cur ps q) (λ p. refl) j
      go (no_dead_child havekids) q = ground arith
