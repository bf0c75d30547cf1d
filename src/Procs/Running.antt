-- ===== src/Procs/Running.antt =====
-- Which entries of the table are in the state RUNNING, behind each operation.
use strace_xv.Base.{
  ◌==◌, if◌then◌else◌, ==_iff, Bool-cases, Option-cases, ◌>>=◌, get_elem?, ℕ, zero, suc, ◌≡◌, refl,
  sym, ap, ◌∙◌, subst, ◌≢◌, ◌⊎◌, inl, inr, Bool, true, false, Option, none, some, [], ◌∷◌, arith,
}
use strace_xv.Procs.{
  unused, embryo, running, Proc, Table, Ptable, is_unused, modify, find_unused, allocproc, wakeup1,
  kill,
}

abbrev pub is_running : Proc → Bool
is_running p = elim (p.state) [ running ↦ true | _ ↦ false ]

-- 1 if the entry `i` is RUNNING.
abbrev pub runs_in : Option Proc → ℕ
runs_in none = 0
runs_in (some p) = if is_running p then 1 else 0

abbrev pub runs : Table → ℕ → ℕ
runs ps i = runs_in (get_elem? ps i)

-- An assignment changes one entry.
pub get_elem?-modify_self :
    (ps : Table) (i : ℕ) (f : Proc → Proc)
    → get_elem? (modify ps i f) i ≡ (get_elem? ps i >>= λ p. some (f p))
unfolding modify
get_elem?-modify_self [] i f = refl
get_elem?-modify_self (p ∷ ps) zero f = refl
get_elem?-modify_self (p ∷ ps) (suc i) f = get_elem?-modify_self ps i f

pub get_elem?-modify_ne :
    (ps : Table) (i j : ℕ) (f : Proc → Proc) → i ≢ j → get_elem? (modify ps i f) j ≡ get_elem? ps j
unfolding modify
get_elem?-modify_ne [] i j f h = refl
get_elem?-modify_ne (p ∷ ps) zero zero f h = absurd (h refl)
get_elem?-modify_ne (p ∷ ps) zero (suc j) f h = refl
get_elem?-modify_ne (p ∷ ps) (suc i) zero f h = refl
get_elem?-modify_ne (p ∷ ps) (suc i) (suc j) f h = get_elem?-modify_ne ps i j f (λ e. h (ap suc e))

-- The assignment sets what is RUNNING to `b`, or leaves it.
pub runs-modify :
    (ps : Table) (i : ℕ) (f : Proc → Proc) (n : ℕ)
    → runs_in (get_elem? ps i >>= λ p. some (f p)) ≡ n
    → (j : ℕ) → runs (modify ps i f) j ≡ (if i == j then n else runs ps j)
runs-modify ps i f n h j = elim (Bool-cases (i == j)) [
  | inl e ↦
      let same : i ≡ j = (==_iff i j).0 e in
      rw e (
        subst (λ j. runs (modify ps i f) j ≡ n) same
          (ap runs_in (get_elem?-modify_self ps i f) ∙ h))
  | inr e ↦ rw e (ap runs_in (get_elem?-modify_ne ps i j f (ground arith)))
]

-- An assignment that leaves the state.
pub runs-same :
    (ps : Table) (i : ℕ) (f : Proc → Proc)
    → ((p : Proc) → is_running (f p) ≡ is_running p)
    → (j : ℕ) → runs (modify ps i f) j ≡ runs ps j
unfolding modify
runs-same [] i f h j = refl
runs-same (p ∷ ps) zero f h zero = ap (λ b. if b then 1 else 0) (h p)
runs-same (p ∷ ps) zero f h (suc j) = refl
runs-same (p ∷ ps) (suc i) f h zero = refl
runs-same (p ∷ ps) (suc i) f h (suc j) = runs-same ps i f h j

pub runs_in-stopped :
    (f : Proc → Proc)
    → ((p : Proc) → is_running (f p) ≡ false)
    → (o : Option Proc) → runs_in (o >>= λ p. some (f p)) ≡ 0
runs_in-stopped f h none = refl
runs_in-stopped f h (some p) = ap (λ b. if b then 1 else 0) (h p)

-- An assignment to an entry that is not RUNNING, which makes it something else.
pub runs-quiet :
    (ps : Table) (i : ℕ) (f : Proc → Proc)
    → runs ps i ≡ 0
    → ((p : Proc) → is_running (f p) ≡ false)
    → (j : ℕ) → runs (modify ps i f) j ≡ runs ps j
runs-quiet ps i f z h j =
    runs-modify ps i f 0 (runs_in-stopped f h (get_elem? ps i)) j ∙ cases (Bool-cases (i == j))
  where
    cases : ((i == j) ≡ true) ⊎ ((i == j) ≡ false) → (if i == j then 0 else runs ps j) ≡ runs ps j
    cases (inl e) = rw e (subst (λ j. 0 ≡ runs ps j) ((==_iff i j).0 e) (sym z))
    cases (inr e) = rw e refl

pub runs-wakeup1 : (chan : ℕ) (ps : Table) (j : ℕ) → runs (wakeup1 chan ps) j ≡ runs ps j
unfolding wakeup1
runs-wakeup1 chan [] j = refl
runs-wakeup1 chan (p ∷ ps) zero = ground arith
runs-wakeup1 chan (p ∷ ps) (suc j) = runs-wakeup1 chan ps j

pub runs-kill : (pid : ℕ) (ps : Table) (j : ℕ) → runs (kill pid ps).1 j ≡ runs ps j
unfolding kill
runs-kill pid [] j = refl
runs-kill pid (p ∷ ps) zero = ground arith
runs-kill pid (p ∷ ps) (suc j) = elim (Bool-cases (p.pid == pid)) [
  | inl e ↦ rw e refl
  | inr e ↦ rw e (runs-kill pid ps j)
]

-- What `find_unused` finds.
pub find_unused_lem :
    (ps : Table) {i : ℕ}
    → find_unused ps ≡ some i
    → (p : Proc) × (get_elem? ps i ≡ some p) × (p.state ≡ unused)
unfolding find_unused
find_unused_lem [] e = ground arith
find_unused_lem (p ∷ ps) {i} e = elim (Bool-cases (is_unused p)) [
  | inl u ↦
      let at : i ≡ 0 = ground arith in
      let is : p.state ≡ unused = ground arith in rw at (p, refl, is)
  | inr u ↦ elim (Option-cases (find_unused ps)) [
    | inl q ↦ ground arith
    | inr (k, q) ↦ let at : i ≡ suc k = ground arith in rw at (find_unused_lem ps q)
  ]
]

-- The entry that `allocproc` takes was not RUNNING, nor is it behind.
pub runs-allocproc :
    (kstack : ℕ) (pt : Ptable) (j : ℕ) → runs (allocproc kstack pt).1.procs j ≡ runs pt.procs j
unfolding allocproc
runs-allocproc kstack pt j = elim (Option-cases (find_unused pt.procs)) [
  | inl e ↦ rw (allocproc, e) refl
  | inr (i, e) ↦
      let (p, g, un) = find_unused_lem pt.procs e in
      let quiet : runs pt.procs i ≡ 0 =
        ap runs_in g ∙ ap (λ s. if elim s [ running ↦ true | _ ↦ false ] then 1 else 0) un in
      let claim =
        runs-quiet pt.procs i (λ p. record p { state = embryo; traced = 0; pid = pt.nextpid }) quiet
          (λ p. refl) in
      elim (Bool-cases (kstack == 0)) [
        | inl z ↦
            rw (allocproc, e, z)
              (runs-quiet _ i (λ p. record p { kstack = 0; state = unused }) (claim i ∙ quiet)
                  (λ p. refl) j
                ∙ claim j)
        | inr z ↦
            rw (allocproc, e, z)
              (runs-same _ i (λ p. record p { kstack = kstack }) (λ p. refl) j ∙ claim j)
      ]
]
