-- ===== src/Files.antt =====
-- The table of open files and the descriptors of a process: kernel/file.c, pipealloc of
-- kernel/pipe.c, and the descriptors of kernel/sysfile.c, fork and exit.
pub mod Table
pub mod Descriptors
pub mod Calls
pub mod Pipes
pub mod Loops
pub mod Net
mod Tests
use strace_xv.Base.{
  ltb, leb, ◌==◌, if◌then◌else◌, ==_iff, lt→ltb, Bool-cases, Option-cases, ◌>>=◌, length, get_elem?,
  get_or, set, replicate, length-append, length-replicate, length-set, get_elem?-set_self,
  get_elem?-set_ne, length-reverse, occurs, occurs-append, get_elem?-lt, ℕ, zero, suc, ◌+◌, ◌-◌,
  ◌*◌, ◌/◌, ◌%◌, ◌^◌, ◌≤◌, ◌<◌, ◌≡◌, refl, sym, ap, ◌∙◌, fun_ext, subst, ◌≢◌, ◌↔◌, ◌⊎◌, inl, inr,
  Bool, true, false, ◌&&◌, ◌||◌, not, Option, none, some, List, [], ◌∷◌, ◌++◌, append-nil,
  append_assoc, reverse-append, arith,
}

-- `FD_NONE`, `FD_PIPE`, `FD_INODE`.
pub data FileType : Type 0 where
  fd_none fd_pipe fd_inode : FileType

-- `struct file`; a pipe and an inode are their addresses. The sum of the references stays far
-- below the range of `int`.
pub record File : Type 0 where
  pub file_type : FileType
  pub ref : ℕ
  pub readable : Bool
  pub writable : Bool
  pub pipe : ℕ
  pub ip : ℕ
  pub off : ℕ

-- What the end of the last reference leaves to do: `pipeclose` or `iput`.
pub data Closing : Type 0 where
  close_pipe : ℕ → Bool → Closing
  put_inode : ℕ → Closing

-- `ftable.file`, in which a pointer is an index, and the array `ofile` of a process.
abbrev pub Table : Type 0
Table = List File

abbrev pub Descriptors : Type 0
Descriptors = List (Option ℕ)

-- `filealloc`: the first file without a reference.
unfoldable pub filealloc : Table → Option (ℕ × Table)
filealloc [] = none
filealloc (f ∷ t) =
    let rest = filealloc t in
    if f.ref == 0
    then some (0, record f { ref = 1 } ∷ t)
    else (rest >>= λ (i, t'). some (suc i, f ∷ t'))

-- `filedup`; `none` is its panic.
unfoldable pub filedup : ℕ → Table → Option Table
filedup i t = get_elem? t i >>= λ f.
    if ltb f.ref 1 then none else some (set t i (record f { ref = f.ref + 1 }))

-- What `fileclose` does behind the lock, from the copy `ff`.
abbrev pub closing : File → List Closing
closing ff = elim (ff.file_type) [
  | fd_none ↦ []
  | fd_pipe ↦ close_pipe ff.pipe ff.writable ∷ []
  | fd_inode ↦ put_inode ff.ip ∷ []
]

-- `fileclose`; `none` is its panic.
unfoldable pub fileclose : ℕ → Table → Option (Table × List Closing)
fileclose i t = get_elem? t i >>= λ f.
    if ltb f.ref 1
    then none
    else if ltb 0 (f.ref - 1)
    then some (set t i (record f { ref = f.ref - 1 }), [])
    else some (set t i (record f { ref = 0; file_type = fd_none }), closing f)

-- `fdalloc`: the first descriptor that is free.
unfoldable pub fdalloc : ℕ → Descriptors → Option (ℕ × Descriptors)
fdalloc f [] = none
fdalloc f (none ∷ ds) = some (0, some f ∷ ds)
fdalloc f (some g ∷ ds) = fdalloc f ds >>= λ (fd, ds'). some (suc fd, some g ∷ ds')

-- `argfd` behind the fetch of its argument.
unfoldable pub argfd : ℕ → Descriptors → Option ℕ
argfd fd ds = get_elem? ds fd >>= λ f. f

-- The running process and the table, and what its closes have left to do.
pub record State : Type 0 where
  pub table : Table
  pub ofile : Descriptors
  pub closed : List Closing

-- A close on the state; `none` is a panic.
pub close_file : ℕ → State → Option State
close_file i s =
    fileclose i s.table >>= λ (t, c). some (record s { table = t; closed = s.closed ++ c })

-- `sys_dup` at the descriptor `fd`: the new descriptor, or `none` for -1.
unfoldable pub sys_dup : ℕ → State → Option (Option ℕ × State)
sys_dup fd s = elim (argfd fd s.ofile) [
  | none ↦ some (none, s)
  | some f ↦ elim (fdalloc f s.ofile) [
    | none ↦ some (none, s)
    | some (new, ds) ↦
        filedup f s.table >>= λ t. some (some new, record s { table = t; ofile = ds })
  ]
]

-- `sys_close`; `false` is -1.
unfoldable pub sys_close : ℕ → State → Option (Bool × State)
unfolding close_file
sys_close fd s = elim (argfd fd s.ofile) [
  | none ↦ some (false, s)
  | some f ↦ close_file f (record s { ofile = set s.ofile fd none }) >>= λ s'. some (true, s')
]

-- The end of `sys_open`, with the inode `ip`: `none` in place of the descriptor is -1, behind
-- which the inode is put.
unfoldable pub open_file : ℕ → Bool → Bool → State → Option (Option ℕ × State)
unfolding close_file
open_file ip readable writable s = elim (filealloc s.table) [
  | none ↦ some (none, s)
  | some (i, t) ↦ elim (fdalloc i s.ofile) [
    | none ↦ close_file i (record s { table = t }) >>= λ s'. some (none, s')
    | some (fd, ds) ↦ get_elem? t i >>= λ f. some (
      some fd,
      record s {
        table = set t i (record f {
          file_type = fd_inode;
          ip = ip;
          off = 0;
          readable = readable;
          writable = writable;
        });
        ofile = ds;
      },
    )
  ]
]

-- `pipealloc` with the page that `kalloc` answers, 0 for none: the two files, or `none` for -1
-- behind which the files that were allocated are closed.
abbrev read_end : ℕ → File → File
read_end p f = record f { file_type = fd_pipe; readable = true; writable = false; pipe = p }

abbrev write_end : ℕ → File → File
write_end p f = record f { file_type = fd_pipe; readable = false; writable = true; pipe = p }

pub set_ends : ℕ → ℕ → ℕ → State → Option State
set_ends page f0 f1 s = get_elem? s.table f0 >>= λ f.
    let t = set s.table f0 (read_end page f) in
    get_elem? t f1 >>= λ g. some (record s { table = set t f1 (write_end page g) })

pub close_both : ℕ → ℕ → State → Option State
close_both f0 f1 s = close_file f0 s >>= λ s'. close_file f1 s'

unfoldable pub pipealloc : ℕ → State → Option (Option (ℕ × ℕ) × State)
unfolding close_file set_ends close_both
pipealloc page s = elim (filealloc s.table) [
  | none ↦ some (none, s)
  | some (f0, t0) ↦ elim (filealloc t0) [
    | none ↦ close_file f0 (record s { table = t0 }) >>= λ s'. some (none, s')
    | some (f1, t1) ↦
        let bad = close_both f0 f1 (record s { table = t1 }) >>= λ s'. some (none, s') in
        let good =
          set_ends page f0 f1 (record s { table = t1 }) >>= λ s'. some (some (f0, f1), s') in
        if page == 0 then bad else good
  ]
]

-- `sys_pipe` behind the check of its argument: the two descriptors that it stores, or `none` for
-- -1.
pub fail_pipe : ℕ → ℕ → State → Option (Option (ℕ × ℕ) × State)
fail_pipe rf wf s = close_both rf wf s >>= λ s'. some (none, s')

unfoldable pub store_ends : Option (ℕ × ℕ) → State → Option (Option (ℕ × ℕ) × State)
unfolding fail_pipe
store_ends none s = some (none, s)
store_ends (some (rf, wf)) s = elim (fdalloc rf s.ofile) [
  | none ↦ fail_pipe rf wf s
  | some (fd0, ds) ↦ elim (fdalloc wf ds) [
    | none ↦ fail_pipe rf wf (record s { ofile = set ds fd0 none })
    | some (fd1, ds') ↦ some (some (fd0, fd1), record s { ofile = ds' })
  ]
]

unfoldable pub sys_pipe : ℕ → State → Option (Option (ℕ × ℕ) × State)
unfolding store_ends
sys_pipe page s = pipealloc page s >>= λ (r, s'). store_ends r s'

-- The loop of `fork`: each open file gets one more reference for the child.
unfoldable pub dup_files : Descriptors → Table → Option Table
dup_files [] t = some t
dup_files (none ∷ ds) t = dup_files ds t
dup_files (some f ∷ ds) t = filedup f t >>= λ t'. dup_files ds t'

-- The loop of `exit`: each open file is closed, and its descriptor cleared.
unfoldable pub close_files : Descriptors → Table → Option (Table × List Closing)
close_files [] t = some (t, [])
close_files (none ∷ ds) t = close_files ds t
close_files (some f ∷ ds) t =
    fileclose f t >>= λ (t1, c). close_files ds t1 >>= λ (t2, cs). some (t2, c ++ cs)

-- A call on descriptors by the process with the descriptors `ofile`.
pub data FileCall : Type 0 where
  dup_call close_call : ℕ → FileCall
  open_call : ℕ → Bool → Bool → FileCall
  pipe_call : ℕ → FileCall

abbrev pub state_of {ℓ} : {R : Type ℓ} → Option (R × State) → Option State
state_of o = o >>= λ (r, s). some s

unfoldable pub do_call : FileCall → State → Option State
do_call (dup_call fd) s = state_of (sys_dup fd s)
do_call (close_call fd) s = state_of (sys_close fd s)
do_call (open_call ip readable writable) s = state_of (open_file ip readable writable s)
do_call (pipe_call page) s = state_of (sys_pipe page s)
