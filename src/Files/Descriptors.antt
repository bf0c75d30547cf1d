-- ===== src/Files/Descriptors.antt =====
-- The descriptors of a process as references to files.
use strace_xv.Base.{
  Option-cases, set, occurs, ℕ, zero, suc, ◌≡◌, refl, sym, ap, ◌∙◌, inl, inr, none, some, List, [],
  ◌∷◌, ◌++◌, arith,
}
use strace_xv.Files.{Descriptors, Table, State, fdalloc, argfd}
use strace_xv.Files.Table.{IsCounted}

-- The files that the descriptors refer to.
abbrev pub refs : Descriptors → List ℕ
refs [] = []
refs (none ∷ ds) = refs ds
refs (some f ∷ ds) = f ∷ refs ds

-- The counts are right for a process with other references in the system.
abbrev pub IsSound : List ℕ → State → Type 0
IsSound others s = IsCounted s.table (refs s.ofile ++ others)

-- The counts see only how often a file is referred to.
pub IsCounted-moved :
    {t : Table} {hs hs' : List ℕ}
    → ((j : ℕ) → occurs j hs' ≡ occurs j hs)
    → IsCounted t hs
    → IsCounted t hs'
IsCounted-moved same c = record { counts = λ i. c.counts i ∙ sym (same i); idle = c.idle }

-- `fdalloc` adds the reference.
pub fdalloc_lem :
    (f : ℕ) (ds : Descriptors) {fd : ℕ} {ds' : Descriptors}
    → fdalloc f ds ≡ some (fd, ds')
    → (j : ℕ) → occurs j (refs ds') ≡ occurs j (f ∷ refs ds)
unfolding fdalloc
fdalloc_lem f [] e j = ground arith
fdalloc_lem f (none ∷ ds) {fd} {ds'} e j =
    let split : ds' ≡ some f ∷ ds = cc in ap (λ d. occurs j (refs d)) split
fdalloc_lem f (some g ∷ ds) {fd} {ds'} e j = elim (Option-cases (fdalloc f ds)) [
  | inl q ↦ ground arith
  | inr ((n, ds1), q) ↦
      let split : ds' ≡ some g ∷ ds1 = ground arith in
      ap (λ d. occurs j (refs d)) split ∙ omega (arith, fdalloc_lem f ds q j)
]

-- A descriptor that is in use is a reference, and clearing it takes the reference away.
pub argfd_lem :
    (fd : ℕ) (ds : Descriptors) {f : ℕ}
    → argfd fd ds ≡ some f
    → (j : ℕ) → occurs j (refs ds) ≡ occurs j (f ∷ refs (set ds fd none))
unfolding argfd
argfd_lem fd [] e j = ground arith
argfd_lem zero (none ∷ ds) e j = ground arith
argfd_lem zero (some g ∷ ds) {f} e j =
    let same : g ≡ f = cc in ap (λ x. occurs j (x ∷ refs ds)) same
argfd_lem (suc fd) (none ∷ ds) e j = argfd_lem fd ds e j
argfd_lem (suc fd) (some g ∷ ds) e j = omega (arith, argfd_lem fd ds e j)

-- The descriptor that `fdalloc` answers refers to the file.
pub fdalloc-argfd :
    (f : ℕ) (ds : Descriptors) {fd : ℕ} {ds' : Descriptors}
    → fdalloc f ds ≡ some (fd, ds')
    → argfd fd ds' ≡ some f
unfolding fdalloc argfd
fdalloc-argfd f [] e = ground arith
fdalloc-argfd f (none ∷ ds) {fd} {ds'} e =
    let at : fd ≡ 0 = cc in let split : ds' ≡ some f ∷ ds = cc in rw (at, split) refl
fdalloc-argfd f (some g ∷ ds) {fd} {ds'} e = elim (Option-cases (fdalloc f ds)) [
  | inl q ↦ ground arith
  | inr ((n, ds1), q) ↦
      let at : fd ≡ suc n = ground arith in
      let split : ds' ≡ some g ∷ ds1 = ground arith in rw (at, split) (fdalloc-argfd f ds q)
]
