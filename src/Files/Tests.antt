-- ===== src/Files/Tests.antt =====
-- A table of two files, and a process that makes a pipe.
use strace_xv.Base.{
  get_elem?, occurs, ℕ, zero, suc, ◌<◌, ◌≡◌, refl, subst, true, false, none, some, List, [], ◌∷◌,
  arith,
}
use strace_xv.Files.{
  File, Closing, State, Table, Descriptors, filealloc, pipealloc, fdalloc, filedup, fileclose,
  dup_files, close_files, FileCall, pipe_call, do_call, sys_pipe, fd_none, fd_pipe,
}
use strace_xv.Files.Table.{IsCounted, ref_in}
use strace_xv.Files.Descriptors.{IsSound}
use strace_xv.Files.Net.{
  System, all_refs, call, forked, Reach, here, next, IsExact, Reach-files, Reach-filealloc,
}

abbrev unused : File
unused = record {
  file_type = fd_none;
  ref = 0;
  readable = false;
  writable = false;
  pipe = 0;
  ip = 0;
  off = 0;
}

abbrev three : Descriptors
three = none ∷ none ∷ none ∷ []

abbrev start : System
start = record { table = unused ∷ unused ∷ []; procs = three ∷ [] }

start-IsExact : IsExact start
start-IsExact = record { counts = count; idle = no_type }
  where
    count : (i : ℕ) → ref_in (get_elem? start.table i) ≡ occurs i []
    count zero = refl
    count (suc zero) = refl
    count (suc (suc i)) = refl

    no_type :
        (i : ℕ) (f : File) → get_elem? start.table i ≡ some f → f.ref ≡ 0 → f.file_type ≡ fd_none
    no_type zero f e z = subst (λ f. f.file_type ≡ fd_none) {x = unused} {y = f} (ground arith) refl
    no_type (suc zero) f e z =
        subst (λ f. f.file_type ≡ fd_none) {x = unused} {y = f} (ground arith) refl
    no_type (suc (suc i)) f e z = ground arith

-- The two ends of a pipe in the page 4096, with `n` references each.
abbrev ends : ℕ → Table
ends n =
    record {
      file_type = fd_pipe;
      ref = n;
      readable = true;
      writable = false;
      pipe = 4096;
      ip = 0;
      off = 0;
    }
    ∷ record {
      file_type = fd_pipe;
      ref = n;
      readable = false;
      writable = true;
      pipe = 4096;
      ip = 0;
      off = 0;
    }
    ∷ []

abbrev both : Descriptors
both = some 0 ∷ some 1 ∷ none ∷ []

made :
    do_call (pipe_call 4096) (record { table = start.table; ofile = three; closed = [] })
    ≡ some (record { table = ends 1; ofile = both; closed = [] })
unfolding do_call sys_pipe pipealloc filealloc fdalloc
made = refl

abbrev shared : System
shared = record { table = ends 2; procs = both ∷ both ∷ [] }

shared-Reach : Reach start shared
unfolding dup_files filedup
shared-Reach = next (next here (call [] three [] (pipe_call 4096) made)) (forked [] both [] refl)

Reach-files_example :
    IsCounted (ends 2) (all_refs (both ∷ both ∷ []))
    × ((c : FileCall)
        → (s' : State) × (do_call c (record { table = ends 2; ofile = both; closed = [] })
            ≡ some s'))
    × ((t' : Table) × (dup_files both (ends 2) ≡ some t'))
    × ((t' : Table) × (cs : List Closing) × (close_files both (ends 2) ≡ some (t', cs)))
Reach-files_example = Reach-files [] both (both ∷ []) start-IsExact shared-Reach

Reach-filealloc_example :
    ((i : ℕ) (t' : Table)
      → filealloc (ends 2) ≡ some (i, t')
      → occurs i (all_refs shared.procs) ≡ 0)
    × (filealloc (ends 2) ≡ none
        → (i : ℕ) (f : File) → get_elem? (ends 2) i ≡ some f
        → 0 < occurs i (all_refs shared.procs))
Reach-filealloc_example = Reach-filealloc start-IsExact shared-Reach

-- A pipe at a table with one free file leaves it free.
abbrev lone : State
lone = record { table = unused ∷ []; ofile = three; closed = [] }

sys_pipe_full : sys_pipe 4096 lone ≡ some (none, lone)
unfolding sys_pipe pipealloc filealloc fileclose
sys_pipe_full = refl

lone-IsSound : IsSound [] lone
lone-IsSound = record { counts = count; idle = no_type }
  where
    count : (i : ℕ) → ref_in (get_elem? lone.table i) ≡ occurs i []
    count zero = refl
    count (suc i) = refl

    no_type :
        (i : ℕ) (f : File) → get_elem? lone.table i ≡ some f → f.ref ≡ 0 → f.file_type ≡ fd_none
    no_type zero f e z = subst (λ f. f.file_type ≡ fd_none) {x = unused} {y = f} (ground arith) refl
    no_type (suc i) f e z = ground arith
