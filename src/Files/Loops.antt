-- ===== src/Files/Loops.antt =====
-- The loops over the descriptors in fork and exit.
use strace_xv.Base.{
  occurs, occurs-append, ℕ, ◌<◌, ◌≡◌, refl, none, some, List, [], ◌∷◌, ◌++◌, arith,
}
use strace_xv.Files.{Closing, Table, Descriptors, dup_files, close_files}
use strace_xv.Files.Table.{IsCounted, filedup-IsCounted, fileclose-IsCounted}
use strace_xv.Files.Descriptors.{refs, IsCounted-moved}

pub dup_files_lem :
    (ds : Descriptors) (t : Table) (hs : List ℕ)
    → IsCounted t hs
    → ((j : ℕ) → 0 < occurs j (refs ds) → 0 < occurs j hs)
    → (t' : Table) × (dup_files ds t ≡ some t') × IsCounted t' (refs ds ++ hs)
unfolding dup_files
dup_files_lem [] t hs c held = (t, refl, c)
dup_files_lem (none ∷ ds) t hs c held = dup_files_lem ds t hs c held
dup_files_lem (some f ∷ ds) t hs c held =
    let (t1, e, c1) = filedup-IsCounted f c (held f (ground arith)) in
    let (t2, q, c2) =
      dup_files_lem ds t1 (f ∷ hs) c1 (λ j h. omega (arith, held j (omega arith))) in
    (
      t2,
      rw e q,
      IsCounted-moved
          (λ j. omega (arith, occurs-append j (refs ds) (f ∷ hs), occurs-append j (refs ds) hs)) c2,
    )

pub close_files_lem :
    (ds : Descriptors) (t : Table) (hs : List ℕ)
    → IsCounted t (refs ds ++ hs)
    → (t' : Table) × (cs : List Closing) × (close_files ds t ≡ some (t', cs)) × IsCounted t' hs
unfolding close_files
close_files_lem [] t hs c = (t, [], refl, c)
close_files_lem (none ∷ ds) t hs c = close_files_lem ds t hs c
close_files_lem (some f ∷ ds) t hs c =
    let (t1, cs1, e, c1) = fileclose-IsCounted f c in
    let (t2, cs2, q, c2) = close_files_lem ds t1 hs c1 in (t2, cs1 ++ cs2, rw (e, q) refl, c2)
