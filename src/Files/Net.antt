-- ===== src/Files/Net.antt =====
-- All processes together: reference counts are exact in every state that the system reaches.
use strace_xv.Base.{
  get_elem?, occurs, occurs-append, ℕ, ◌+◌, ◌<◌, ◌≡◌, refl, sym, ap, ◌∙◌, subst, Option, none, some,
  List, [], ◌∷◌, ◌++◌, arith,
}
use strace_xv.Files.{
  File, Closing, State, Table, Descriptors, filealloc, dup_files, close_files, FileCall, dup_call,
  close_call, open_call, pipe_call, state_of, do_call,
}
use strace_xv.Files.Table.{IsCounted, ref_in, Alloc, full, found, filealloc_lem}
use strace_xv.Files.Descriptors.{refs, IsSound, IsCounted-moved}
use strace_xv.Files.Calls.{sys_dup_lem, sys_close_lem, open_file_lem}
use strace_xv.Files.Pipes.{sys_pipe_lem}
use strace_xv.Files.Loops.{dup_files_lem, close_files_lem}

-- The table and the descriptors of the processes.
pub record System : Type 0 where
  pub table : Table
  pub procs : List Descriptors

abbrev pub all_refs : List Descriptors → List ℕ
all_refs [] = []
all_refs (ds ∷ procs) = refs ds ++ all_refs procs

occurs-all_refs :
    (j : ℕ) (before after : List Descriptors)
    → occurs j (all_refs (before ++ after)) ≡ occurs j (all_refs before) + occurs j (all_refs after)
occurs-all_refs j [] after = omega arith
occurs-all_refs j (ds ∷ before) after = omega (
  arith,
  occurs-append j (refs ds) (all_refs (before ++ after)),
  occurs-append j (refs ds) (all_refs before),
  occurs-all_refs j before after,
)

-- A process, between others, calls, forks a child, or exits.
pub data Step : System → System → Type 0 where
  call :
      {t : Table} {s : State} (before : List Descriptors) (ds : Descriptors)
      (after : List Descriptors) (c : FileCall)
      → do_call c (record { table = t; ofile = ds; closed = [] }) ≡ some s
      → Step
          (record { table = t; procs = before ++ (ds ∷ after) })
          (record { table = s.table; procs = before ++ (s.ofile ∷ after) })
  forked :
      {t t' : Table} (before : List Descriptors) (ds : Descriptors) (after : List Descriptors)
      → dup_files ds t ≡ some t'
      → Step
          (record { table = t; procs = before ++ (ds ∷ after) })
          (record { table = t'; procs = ds ∷ (before ++ (ds ∷ after)) })
  exited :
      {t t' : Table} {cs : List Closing} (before : List Descriptors) (ds : Descriptors)
      (after : List Descriptors)
      → close_files ds t ≡ some (t', cs)
      → Step
          (record { table = t; procs = before ++ (ds ∷ after) })
          (record { table = t'; procs = before ++ after })

pub data Reach (s : System) : System → Type 0 where
  here : Reach s s
  next : {t u : System} → Reach s t → Step t u → Reach s u

abbrev pub IsExact : System → Type 0
IsExact s = IsCounted s.table (all_refs s.procs)

-- Each call, whatever it answers.
pub do_call_lem :
    {others : List ℕ} (c : FileCall) (s : State)
    → IsSound others s
    → (s' : State) × (do_call c s ≡ some s') × IsSound others s'
unfolding do_call
do_call_lem {others} (dup_call fd) s h =
    let a = sys_dup_lem fd s h in (a.state, ap state_of a.returns, a.sound)
do_call_lem (close_call fd) s h =
    let a = sys_close_lem fd s h in (a.state, ap state_of a.returns, a.sound)
do_call_lem (open_call ip readable writable) s h =
    let a = open_file_lem ip readable writable s h in (a.state, ap state_of a.returns, a.sound)
do_call_lem (pipe_call page) s h =
    let a = sys_pipe_lem page s h in (a.state, ap state_of a.returns, a.sound)

-- The references of one process, and those of the others.
abbrev others_of : List Descriptors → List Descriptors → List ℕ
others_of before after = all_refs before ++ all_refs after

split_refs :
    (before : List Descriptors) (ds : Descriptors) (after : List Descriptors) (j : ℕ)
    → occurs j (all_refs (before ++ (ds ∷ after))) ≡ occurs j (refs ds ++ others_of before after)
split_refs before ds after j = omega (
  arith,
  occurs-all_refs j before (ds ∷ after),
  occurs-append j (refs ds) (all_refs after),
  occurs-append j (refs ds) (others_of before after),
  occurs-append j (all_refs before) (all_refs after),
)

here_sound :
    {t : Table} (before : List Descriptors) (ds : Descriptors) (after : List Descriptors)
    → IsCounted t (all_refs (before ++ (ds ∷ after)))
    → IsCounted t (refs ds ++ others_of before after)
here_sound before ds after c = IsCounted-moved (λ j. sym (split_refs before ds after j)) c

Step-IsExact : {s t : System} → Step s t → IsExact s → IsExact t
Step-IsExact (call {t} {s} before ds after c e) h =
    let (s', d, sound) =
      do_call_lem c (record { table = t; ofile = ds; closed = [] })
        (here_sound before ds after h) in
    let same : s' ≡ s = cc in
    subst (λ s. IsCounted s.table (all_refs (before ++ (s.ofile ∷ after)))) same
      (IsCounted-moved (split_refs before s'.ofile after) sound)
Step-IsExact (forked {t} {t'} before ds after e) h =
    let (t1, d, c) = dup_files_lem ds t _ h (λ j p.
      omega (
        arith,
        split_refs before ds after j,
        occurs-append j (refs ds) (others_of before after),
      )) in
    let same : t1 ≡ t' = cc in
    subst (λ t. IsCounted t (refs ds ++ all_refs (before ++ (ds ∷ after)))) same c
Step-IsExact (exited {t} {t'} {cs} before ds after e) h =
    let (t1, cs1, d, c) =
      close_files_lem ds t (others_of before after) (here_sound before ds after h) in
    let same : t1 ≡ t' = cc in
    IsCounted-moved
      (λ j.
        omega (
          arith,
          occurs-all_refs j before after,
          occurs-append j (all_refs before) (all_refs after),
        ))
      (subst (λ t. IsCounted t (others_of before after)) same c)

pub Reach-IsExact : {s t : System} → IsExact s → Reach s t → IsExact t
Reach-IsExact h here = h
Reach-IsExact h (next r st) = Step-IsExact st (Reach-IsExact h r)

-- In every state that processes reach from one with exact reference counts by calls, forks and
-- exits, the counts are exact; and there no process can panic by a call on descriptors, by the
-- loop of `fork` or by that of `exit`.
pub Reach-files :
    {s : System} {t : Table} (before : List Descriptors) (ds : Descriptors)
    (after : List Descriptors)
    → IsExact s
    → Reach s (record { table = t; procs = before ++ (ds ∷ after) })
    → IsCounted t (all_refs (before ++ (ds ∷ after)))
      × ((c : FileCall)
          → (s' : State) × (do_call c (record { table = t; ofile = ds; closed = [] }) ≡ some s'))
      × ((t' : Table) × (dup_files ds t ≡ some t'))
      × ((t' : Table) × (cs : List Closing) × (close_files ds t ≡ some (t', cs)))
Reach-files {s} {t} before ds after h r =
    let c = Reach-IsExact h r in
    let here = here_sound before ds after c in
    let (t1, d, c1) = dup_files_lem ds t _ c (λ j p.
      omega (
        arith,
        split_refs before ds after j,
        occurs-append j (refs ds) (others_of before after),
      )) in
    let (t2, cs, q, c2) = close_files_lem ds t (others_of before after) here in
    (
      c,
      λ f.
          (let (s', e, k) = do_call_lem f (record { table = t; ofile = ds; closed = [] }) here in
            (s', e)),
      (t1, d),
      (t2, cs, q),
    )

-- In such a state, `filealloc` answers only a file that no process refers to, and fails only if
-- every file of the table is referred to.
pub Reach-filealloc :
    {s t : System}
    → IsExact s
    → Reach s t
    → ((i : ℕ) (t' : Table) → filealloc t.table ≡ some (i, t') → occurs i (all_refs t.procs) ≡ 0)
      × (filealloc t.table ≡ none
          → (i : ℕ) (f : File) → get_elem? t.table i ≡ some f
          → 0 < occurs i (all_refs t.procs))
Reach-filealloc {s} {t} h r = go (Reach-IsExact h r) (filealloc_lem t.table) refl
  where
    go :
        {o : Option (ℕ × Table)}
        → IsExact t
        → Alloc t.table o
        → filealloc t.table ≡ o
        → ((i : ℕ) (t' : Table)
            → filealloc t.table ≡ some (i, t')
            → occurs i (all_refs t.procs) ≡ 0)
          × (filealloc t.table ≡ none
              → (i : ℕ) (f : File) → get_elem? t.table i ≡ some f
              → 0 < occurs i (all_refs t.procs))
    go c (full all) e =
        (λ i t' q. ground arith, λ n i f q. omega (arith, all i f q, c.counts i, ap ref_in q))
    go c (found i f g z) e = (
      λ j t' q.
          let same : i ≡ j = cc in
          subst (λ j. occurs j (all_refs t.procs) ≡ 0) same (sym (c.counts i) ∙ ap ref_in g ∙ z),
      λ n. ground arith,
    )
