-- ===== src/Files/Calls.antt =====
-- The calls on descriptors never panic, and keep the reference counts right.
use strace_xv.Base.{
  Option-cases, get_elem?, set, get_elem?-set_self, occurs, occurs-append, get_elem?-lt, ℕ, ◌<◌,
  ◌≡◌, refl, sym, subst, inl, inr, Bool, true, false, Option, none, some, List, ◌∷◌, ◌++◌, arith,
}
use strace_xv.Files.{
  State, Table, Descriptors, filealloc, fdalloc, argfd, close_file, sys_dup, sys_close, open_file,
  fd_inode,
}
use strace_xv.Files.Table.{
  IsCounted, IsCounted-set, Alloc, full, found, filealloc_lem, filealloc-IsCounted,
  filedup-IsCounted, fileclose-IsCounted,
}
use strace_xv.Files.Descriptors.{refs, IsSound, IsCounted-moved, fdalloc_lem, argfd_lem}

-- The call does not panic, and leaves the counts right.
pub record Answers {R : Type 0} (others : List ℕ) (o : Option (R × State)) : Type 0 where
  pub result : R
  pub state : State
  pub returns : o ≡ some (result, state)
  pub sound : IsSound others state

-- The end of one reference.
pub close_file_lem :
    {hs : List ℕ} (s : State) (i : ℕ)
    → IsCounted s.table (i ∷ hs)
    → (s' : State) × (close_file i s ≡ some s') × (s'.ofile ≡ s.ofile) × IsCounted s'.table hs
unfolding close_file
close_file_lem s i c =
    let (t, cs, e, c') = fileclose-IsCounted i c in
    (record s { table = t; closed = s.closed ++ cs }, rw e refl, refl, c')

-- The call left the descriptors as they were.
pub IsSound-same :
    (others : List ℕ) {ds : Descriptors} (s : State)
    → s.ofile ≡ ds
    → IsCounted s.table (refs ds ++ others)
    → IsSound others s
IsSound-same others s e c = subst (λ d. IsCounted s.table (refs d ++ others)) (sym e) c

-- `sys_dup` does not panic and keeps the counts.
pub sys_dup_lem :
    {others : List ℕ} (fd : ℕ) (s : State) → IsSound others s → Answers others (sys_dup fd s)
unfolding sys_dup
sys_dup_lem {others} fd s c = elim (Option-cases (argfd fd s.ofile)) [
  | inl e ↦ rw (sys_dup, e) (record { result = none; state = s; returns = refl; sound = c })
  | inr (f, e) ↦ elim (Option-cases (fdalloc f s.ofile)) [
    | inl q ↦ rw (sys_dup, e, q) (record { result = none; state = s; returns = refl; sound = c })
    | inr ((new, ds), q) ↦
        let held : 0 < occurs f (refs s.ofile ++ others) =
          ground (arith, argfd_lem fd s.ofile e f, occurs-append f (refs s.ofile) others) in
        let (t, d, c') = filedup-IsCounted f c held in
        rw (sys_dup, e, q, d)
          (record {
            result = some new;
            state = record s { table = t; ofile = ds };
            returns = refl;
            sound =
                IsCounted-moved
                  (λ j. omega (
                    arith,
                    fdalloc_lem f s.ofile q j,
                    occurs-append j (refs ds) others,
                    occurs-append j (refs s.ofile) others,
                  ))
                  c';
          })
  ]
]

-- `sys_close` does not panic and keeps the counts.
pub sys_close_lem :
    {others : List ℕ} (fd : ℕ) (s : State) → IsSound others s → Answers others (sys_close fd s)
unfolding sys_close
sys_close_lem {others} fd s c = elim (Option-cases (argfd fd s.ofile)) [
  | inl e ↦ rw (sys_close, e) (record { result = false; state = s; returns = refl; sound = c })
  | inr (f, e) ↦
      let (s', d, same, c') =
        close_file_lem (record s { ofile = set s.ofile fd none }) f
          (IsCounted-moved
            (λ j. omega (
              arith,
              argfd_lem fd s.ofile e j,
              occurs-append j (refs s.ofile) others,
              occurs-append j (refs (set s.ofile fd none)) others,
            ))
            c) in
      rw (sys_close, e, d)
        (record {
          result = true;
          state = s';
          returns = refl;
          sound = IsSound-same others s' same c';
        })
]

-- The end of `sys_open` does not panic and keeps the counts.
pub open_file_lem :
    {others : List ℕ} (ip : ℕ) (readable writable : Bool) (s : State)
    → IsSound others s
    → Answers others (open_file ip readable writable s)
unfolding open_file
open_file_lem {others} ip readable writable s c = go (filealloc_lem s.table) refl
  where
    go :
        {o : Option (ℕ × Table)}
        → Alloc s.table o
        → filealloc s.table ≡ o
        → Answers others (open_file ip readable writable s)
    go (full h) e =
        rw (open_file, e) (record { result = none; state = s; returns = refl; sound = c })
    go (found i f g z) e =
        let (c1, z1) = filealloc-IsCounted c g z in
        let t = set s.table i (record f { ref = 1 }) in
        let self : get_elem? t i ≡ some (record f { ref = 1 }) =
          get_elem?-set_self s.table i (record f { ref = 1 }) (get_elem?-lt s.table i g) in
        elim (Option-cases (fdalloc i s.ofile)) [
          | inl q ↦
              let (s', d, same, c') = close_file_lem (record s { table = t }) i c1 in
              rw (open_file, e, q, d)
                (record {
                  result = none;
                  state = s';
                  returns = refl;
                  sound = IsSound-same others s' same c';
                })
          | inr ((fd, ds), q) ↦
              rw (open_file, e, q, self)
                (record {
                  result = some fd;
                  state = _;
                  returns = refl;
                  sound =
                      IsCounted-moved {hs = i ∷ (refs s.ofile ++ others)}
                        (λ j. omega (
                          arith,
                          fdalloc_lem i s.ofile q j,
                          occurs-append j (refs ds) others,
                          occurs-append j (refs s.ofile) others,
                        ))
                        (IsCounted-set
                          (record f {
                            ref = 1;
                            file_type = fd_inode;
                            ip = ip;
                            off = 0;
                            readable = readable;
                            writable = writable;
                          })
                          c1 self (ground (arith, z1)) (λ j ne. refl) (λ z. absurd (omega arith)));
                })
        ]
