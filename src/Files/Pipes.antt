-- ===== src/Files/Pipes.antt =====
-- The calls that make a pipe keep the reference counts, whichever allocation fails.
use strace_xv.Base.{
  ◌==◌, Bool-cases, Option-cases, get_elem?, set, occurs, occurs-append, ℕ, ◌<◌, ◌≡◌, refl, sym,
  ◌∙◌, subst, inl, inr, Option, none, some, List, [], ◌∷◌, ◌++◌, arith,
}
use strace_xv.Files.{
  File, State, Table, Descriptors, filealloc, fdalloc, close_both, fail_pipe, read_end, write_end,
  set_ends, pipealloc, store_ends, sys_pipe,
}
use strace_xv.Files.Table.{
  IsCounted, IsCounted-set, held-cases, Alloc, full, found, filealloc_lem, filealloc-IsCounted,
}
use strace_xv.Files.Descriptors.{
  refs, IsSound, IsCounted-moved, fdalloc_lem, argfd_lem, fdalloc-argfd,
}
use strace_xv.Files.Calls.{Answers, close_file_lem, IsSound-same}

-- A file that is held changes, and its count stays.
IsCounted-same :
    {t : Table} {hs : List ℕ} (i : ℕ) {f : File} (f' : File)
    → IsCounted t hs
    → get_elem? t i ≡ some f
    → f.ref ≡ occurs i hs
    → 0 < occurs i hs
    → f'.ref ≡ f.ref
    → IsCounted (set t i f') hs
IsCounted-same i f' c e n h same =
    IsCounted-set f' c e (same ∙ n) (λ j ne. refl) (λ z. absurd (omega arith))

set_ends_lem :
    {hs : List ℕ} (page f0 f1 : ℕ) (s : State)
    → IsCounted s.table hs
    → 0 < occurs f0 hs
    → 0 < occurs f1 hs
    → (s' : State) × (set_ends page f0 f1 s ≡ some s')
      × (s'.ofile ≡ s.ofile)
      × IsCounted s'.table hs
unfolding set_ends
set_ends_lem page f0 f1 s c h0 h1 =
    let (f, e, n) = held-cases f0 c h0 in
    let c1 = IsCounted-same f0 (read_end page f) c e n h0 refl in
    let (g, q, m) = held-cases f1 c1 h1 in
    (
      record s { table = set (set s.table f0 (read_end page f)) f1 (write_end page g) },
      rw (e, q) refl,
      refl,
      IsCounted-same f1 (write_end page g) c1 q m h1 refl,
    )

-- The references that `pipealloc` hands to its caller.
abbrev new_refs : Option (ℕ × ℕ) → List ℕ
new_refs none = []
new_refs (some (f0, f1)) = f0 ∷ f1 ∷ []

record Allocated (others : List ℕ) (ofile : Descriptors) (o : Option (Option (ℕ × ℕ) × State))
    : Type 0 where
  result : Option (ℕ × ℕ)
  state : State
  returns : o ≡ some (result, state)
  same : state.ofile ≡ ofile
  sound : IsCounted state.table (new_refs result ++ (refs ofile ++ others))

close_both_lem :
    {hs : List ℕ} (f0 f1 : ℕ) (s : State)
    → IsCounted s.table (f1 ∷ f0 ∷ hs)
    → (s' : State) × (close_both f0 f1 s ≡ some s') × (s'.ofile ≡ s.ofile) × IsCounted s'.table hs
unfolding close_both
close_both_lem {hs} f0 f1 s c =
    let (s1, e1, same1, c1) =
      close_file_lem s f0
        (IsCounted-moved {hs = f1 ∷ f0 ∷ hs} {hs' = f0 ∷ f1 ∷ hs} (λ j. omega arith) c) in
    let (s2, e2, same2, c2) = close_file_lem s1 f1 c1 in (s2, rw (e1, e2) refl, same2 ∙ same1, c2)

-- `pipealloc` does not panic; it hands out two files with one reference each, or none.
pipealloc_lem :
    {others : List ℕ} (page : ℕ) (s : State)
    → IsSound others s
    → Allocated others s.ofile (pipealloc page s)
unfolding pipealloc
pipealloc_lem {others} page s c = first (filealloc_lem s.table) refl
  where
    second :
        {o : Option (ℕ × Table)} (f0 : ℕ) (t0 : Table)
        → filealloc s.table ≡ some (f0, t0)
        → IsCounted t0 (f0 ∷ (refs s.ofile ++ others))
        → Alloc t0 o
        → filealloc t0 ≡ o
        → Allocated others s.ofile (pipealloc page s)
    second f0 t0 e0 c0 (full h) e =
        let (s', d, same, c') = close_file_lem (record s { table = t0 }) f0 c0 in
        rw (pipealloc, e0, e, d)
          (record { result = none; state = s'; returns = refl; same = same; sound = c' })
    second f0 t0 e0 c0 (found f1 f g z) e =
        let (c1, z1) = filealloc-IsCounted c0 g z in
        let s1 = record s { table = set t0 f1 (record f { ref = 1 }) } in
        elim (Bool-cases (page == 0)) [
          | inl no_page ↦
              let (s', d, same, c') = close_both_lem f0 f1 s1 c1 in
              rw (pipealloc, e0, e, no_page, d)
                (record { result = none; state = s'; returns = refl; same = same; sound = c' })
          | inr some_page ↦
              let (s', d, same, c') = set_ends_lem page f0 f1 s1 c1 (ground arith) (ground arith) in
              rw (pipealloc, e0, e, some_page, d)
                (record {
                  result = some (f0, f1);
                  state = s';
                  returns = refl;
                  same = same;
                  sound =
                      IsCounted-moved {hs = f1 ∷ f0 ∷ (refs s.ofile ++ others)} (λ j. omega arith)
                        c';
                })
        ]

    first :
        {o : Option (ℕ × Table)}
        → Alloc s.table o
        → filealloc s.table ≡ o
        → Allocated others s.ofile (pipealloc page s)
    first (full h) e =
        rw (pipealloc, e)
          (record { result = none; state = s; returns = refl; same = refl; sound = c })
    first (found f0 f g z) e =
        let (c0, z0) = filealloc-IsCounted c g z in
        second f0 (set s.table f0 (record f { ref = 1 })) e c0 (filealloc_lem _) refl

-- The end of a `sys_pipe` that found no descriptor.
fail_pipe_lem :
    (others : List ℕ) (rf wf : ℕ) (s : State)
    → IsCounted s.table (wf ∷ rf ∷ (refs s.ofile ++ others))
    → Answers others (fail_pipe rf wf s)
unfolding fail_pipe
fail_pipe_lem others rf wf s c =
    let (s', d, same, c') = close_both_lem rf wf s c in
    rw (fail_pipe, d)
      (record { result = none; state = s'; returns = refl; sound = IsSound-same others s' same c' })

store_ends_lem :
    (others : List ℕ) (r : Option (ℕ × ℕ)) (s : State)
    → IsCounted s.table (new_refs r ++ (refs s.ofile ++ others))
    → Answers others (store_ends r s)
unfolding store_ends
store_ends_lem others none s c = record { result = none; state = s; returns = refl; sound = c }
store_ends_lem others (some (rf, wf)) s c = elim (Option-cases (fdalloc rf s.ofile)) [
  | inl e ↦
      rw (store_ends, e)
        (fail_pipe_lem others rf wf s
          (IsCounted-moved {hs = rf ∷ wf ∷ (refs s.ofile ++ others)} (λ j. omega arith) c))
  | inr ((fd0, ds), e) ↦ elim (Option-cases (fdalloc wf ds)) [
    | inl q ↦
        rw (store_ends, e, q)
          (fail_pipe_lem others rf wf (record s { ofile = set ds fd0 none })
            (IsCounted-moved {hs = rf ∷ wf ∷ (refs s.ofile ++ others)}
              (λ j. omega (
                arith,
                fdalloc_lem rf s.ofile e j,
                argfd_lem fd0 ds (fdalloc-argfd rf s.ofile e) j,
                occurs-append j (refs (set ds fd0 none)) others,
                occurs-append j (refs s.ofile) others,
              ))
              c))
    | inr ((fd1, ds'), q) ↦
        rw (store_ends, e, q)
          (record {
            result = some (fd0, fd1);
            state = record s { ofile = ds' };
            returns = refl;
            sound =
                IsCounted-moved {hs = rf ∷ wf ∷ (refs s.ofile ++ others)}
                  (λ j. omega (
                    arith,
                    fdalloc_lem rf s.ofile e j,
                    fdalloc_lem wf ds q j,
                    occurs-append j (refs ds') others,
                    occurs-append j (refs s.ofile) others,
                  ))
                  c;
          })
  ]
]

-- `sys_pipe` does not panic and keeps the counts, whichever of its allocations fails.
pub sys_pipe_lem :
    {others : List ℕ} (page : ℕ) (s : State) → IsSound others s → Answers others (sys_pipe page s)
unfolding sys_pipe
sys_pipe_lem {others} page s c = go (pipealloc_lem page s c)
  where
    go : Allocated others s.ofile (pipealloc page s) → Answers others (sys_pipe page s)
    go a =
        rw (sys_pipe, a.returns)
          (store_ends_lem others a.result a.state (
            subst (λ d. IsCounted (a.state).table (new_refs a.result ++ (refs d ++ others)))
              (sym a.same) a.sound))
