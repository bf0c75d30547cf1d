-- ===== src/Procs/Birth.antt =====
-- The child that fork makes, with the trace flag that it inherits, and what kill leaves for it.
use strace_xv.Base.{
  ◌==◌, if◌then◌else◌, Bool-cases, Option-cases, ◌>>=◌, get_elem?, ℕ, suc, ◌+◌, ◌<◌, ◌≡◌, refl, sym,
  ap, ◌∙◌, subst, ◌≢◌, inl, inr, true, false, Option, none, some, [], ◌∷◌, arith,
}
use strace_xv.Procs.{
  embryo, runnable, Proc, Table, Ptable, is_sleeping, is_unused, traces_fork, modify, find_unused,
  allocproc, finish_fork, fork, child_of, kill,
}
use strace_xv.Procs.Running.{get_elem?-modify_self, get_elem?-modify_ne}

-- The child of `p`, the process `cur`, in an entry that held `old`. What `killed` and `chan` were
-- in the entry stays.
abbrev pub born : ℕ → Proc → ℕ → ℕ → ℕ → Proc → Proc
born cur p kstack pgdir pid old = record {
  state = runnable;
  pid = pid;
  parent = some cur;
  chan = old.chan;
  killed = old.killed;
  traced = if traces_fork p.traced then p.traced else 0;
  kstack = kstack;
  pgdir = pgdir;
  sz = p.sz;
}

-- The entry `i` became `p`, and the others stay.
pub record Replaced (ps ps' : Table) (i : ℕ) (p : Proc) : Type 0 where
  pub entry : get_elem? ps' i ≡ some p
  pub others : (j : ℕ) → i ≢ j → get_elem? ps' j ≡ get_elem? ps j

Replaced-modify :
    {ps : Table} {i : ℕ} {p : Proc} (f : Proc → Proc)
    → get_elem? ps i ≡ some p
    → Replaced ps (modify ps i f) i (f p)
Replaced-modify {ps} {i} {p} f e = record {
  entry = get_elem?-modify_self ps i f ∙ ap (λ o. o >>= λ p. some (f p)) e;
  others = λ j ne. get_elem?-modify_ne ps i j f ne;
}

Replaced-trans :
    {ps ps' ps'' : Table} {i : ℕ} {p q : Proc}
    → Replaced ps ps' i p
    → Replaced ps' ps'' i q
    → Replaced ps ps'' i q
Replaced-trans r s = record { entry = s.entry; others = λ j ne. s.others j ne ∙ r.others j ne }

-- What `allocproc` makes of the entry that it takes, in its two outcomes.
abbrev claimed : ℕ → Proc → Proc
claimed pid p = record p { state = embryo; traced = 0; pid = pid }

pub record Allocated (kstack : ℕ) (pt : Ptable) (i : ℕ) (old : Proc) : Type 0 where
  pub table : Ptable
  pub success : allocproc kstack pt ≡ (some i, table)
  pub change : Replaced pt.procs table.procs i (record (claimed pt.nextpid old) { kstack = kstack })
  pub counted : table.nextpid ≡ pt.nextpid + 1

pub allocproc_lem :
    (kstack : ℕ) (pt : Ptable) {i : ℕ} {old : Proc}
    → find_unused pt.procs ≡ some i
    → get_elem? pt.procs i ≡ some old
    → 0 < kstack
    → Allocated kstack pt i old
unfolding allocproc
allocproc_lem kstack pt {i} {old} e g k =
    let z : (kstack == 0) ≡ false = ground arith in
    let r = Replaced-modify (claimed pt.nextpid) g in
    record {
      table = _;
      success = rw (allocproc, e, z) refl;
      change = Replaced-trans r (Replaced-modify (λ p. record p { kstack = kstack }) r.entry);
      counted = refl;
    }

-- What a `fork` that succeeds did.
pub record Forked (cur : ℕ) (p : Proc) (kstack pgdir : ℕ) (pt : Ptable) (i : ℕ) (old : Proc)
    (r : Option ℕ × Ptable) : Type 0 where
  pub pid : r.0 ≡ some pt.nextpid
  pub child : Replaced pt.procs r.1.procs i (born cur p kstack pgdir pt.nextpid old)
  pub counted : r.1.nextpid ≡ pt.nextpid + 1

-- With memory for the stack and for the pages, and a free entry `i`, `fork` returns the next pid,
-- and the entry holds the child, which is traced as its parent is if the parent's flag has
-- `TRACE_FORK`, and is not traced otherwise; all other processes stay as they are.
pub fork_lem :
    (cur : ℕ) (p : Proc) (kstack pgdir : ℕ) (pt : Ptable) {i : ℕ} {old : Proc}
    → find_unused pt.procs ≡ some i
    → get_elem? pt.procs i ≡ some old
    → 0 < kstack
    → 0 < pgdir
    → Forked cur p kstack pgdir pt i old (fork cur p kstack pgdir pt)
unfolding fork finish_fork
fork_lem cur p kstack pgdir pt {i} {old} e g k d =
    let a = allocproc_lem kstack pt e g k in
    let z : (pgdir == 0) ≡ false = ground arith in
    subst (λ r. Forked cur p kstack pgdir pt i old (finish_fork cur p pgdir pt.nextpid r))
      (sym a.success)
      (rw z (record {
        pid = refl;
        child =
            Replaced-trans a.change
              (Replaced-modify (child_of cur p pgdir) (Replaced.entry a.change));
        counted = a.counted;
      }))

-- The entry that `kill` marks.
unfoldable pub find_pid : ℕ → Table → Option ℕ
find_pid pid [] = none
find_pid pid (p ∷ ps) =
    let rest = find_pid pid ps >>= λ i. some (suc i) in if p.pid == pid then some 0 else rest

abbrev pub mark : Proc → Proc
mark p = record p { killed = true; state = if is_sleeping p then runnable else p.state }

-- `kill` marks the first entry with the pid, used or not, and wakes it if it sleeps; it fails,
-- and changes nothing, if there is none.
pub kill_lem :
    (pid : ℕ) (ps : Table)
    → kill pid ps
      ≡ (elim (find_pid pid ps) [ none ↦ (false, ps) | some i ↦ (true, modify ps i mark) ])
unfolding kill find_pid modify
kill_lem pid [] = refl
kill_lem pid (p ∷ ps) = elim (Bool-cases (p.pid == pid)) [
  | inl e ↦ rw e refl
  | inr e ↦ elim (Option-cases (find_pid pid ps)) [
    | inl q ↦
        let none_left : kill pid ps ≡ (false, ps) = rw q at (kill_lem pid ps) in
        rw (e, q, none_left) refl
    | inr (i, q) ↦
        let marked : kill pid ps ≡ (true, modify ps i mark) = rw q at (kill_lem pid ps) in
        rw (e, q, marked) refl
  ]
]

-- Marking the entry that `find_unused` finds leaves it unused.
find_unused-mark :
    (ps : Table) {i : ℕ} → find_unused ps ≡ some i → find_unused (modify ps i mark) ≡ some i
unfolding find_unused modify
find_unused-mark [] e = ground arith
find_unused-mark (p ∷ ps) {i} e = elim (Bool-cases (is_unused p)) [
  | inl u ↦
      let at : i ≡ 0 = ground arith in
      let still : is_unused (mark p) ≡ true = ground arith in rw (at, still) refl
  | inr u ↦ elim (Option-cases (find_unused ps)) [
    | inl q ↦ ground arith
    | inr (k, q) ↦
        let at : i ≡ suc k = ground arith in
        let later = find_unused-mark ps q in rw (at, u, later) refl
  ]
]

-- `kill` of a pid that the first unused entry carries succeeds, though no process has it, and the
-- next `fork` makes its child there: a child that is killed from its birth on.
pub kill-fork :
    (cur : ℕ) (p : Proc) (kstack pgdir pid : ℕ) (pt : Ptable) {i : ℕ} {old : Proc}
    → find_unused pt.procs ≡ some i
    → find_pid pid pt.procs ≡ some i
    → get_elem? pt.procs i ≡ some old
    → 0 < kstack
    → 0 < pgdir
    → ((kill pid pt.procs).0 ≡ true)
      × ((child : Proc) × (get_elem?
              (fork cur p kstack pgdir (record pt { procs = (kill pid pt.procs).1 })).1.procs
              i
            ≡ some child)
          × (child.killed ≡ true))
kill-fork cur p kstack pgdir pid pt {i} {old} e q g k d =
    let marked : kill pid pt.procs ≡ (true, modify pt.procs i mark) =
      rw q at (kill_lem pid pt.procs) in
    let free = find_unused-mark pt.procs e in
    let entry = Replaced-modify mark g in
    let f =
      fork_lem cur p kstack pgdir (record pt { procs = modify pt.procs i mark }) free entry.entry k
        d in
    rw marked (refl, (born cur p kstack pgdir pt.nextpid (mark old), Replaced.entry f.child, refl))
