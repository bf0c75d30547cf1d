-- ===== src/Procs.antt =====
-- The table of processes: kernel/proc.c.
pub mod Running
pub mod Schedule
pub mod Cpus
pub mod Orphans
pub mod Birth
mod Tests
use strace_xv.Base.{
  ltb, leb, ◌==◌, if◌then◌else◌, ==_iff, lt→ltb, Bool-cases, Option-cases, ◌>>=◌, length, get_elem?,
  get_or, set, replicate, length-append, length-replicate, length-set, get_elem?-set_self,
  get_elem?-set_ne, length-reverse, occurs, occurs-append, get_elem?-lt, put, put_self, put_ne,
  ==_self, ==_ne, ℕ, zero, suc, ◌+◌, ◌-◌, ◌*◌, ◌/◌, ◌%◌, ◌^◌, ◌≤◌, ◌<◌, ◌≡◌, refl, sym, ap, ◌∙◌,
  fun_ext, subst, ◌≢◌, ◌↔◌, ◌⊎◌, inl, inr, Bool, true, false, ◌&&◌, ◌||◌, not, Option, none, some,
  List, [], ◌∷◌, ◌++◌, append-nil, append_assoc, reverse-append, arith,
}

-- `enum procstate`.
pub data Procstate : Type 0 where
  unused embryo sleeping runnable running zombie : Procstate

-- `struct proc`, without what the model of the files and of the trap frame holds. A pointer to a
-- process is its index in the table, and `none` a null pointer; `kstack`, `pgdir` and `chan` are
-- addresses.
pub record Proc : Type 0 where
  pub state : Procstate
  pub pid : ℕ
  pub parent : Option ℕ
  pub chan : ℕ
  pub killed : Bool
  pub traced : ℕ
  pub kstack : ℕ
  pub pgdir : ℕ
  pub sz : ℕ

abbrev pub Table : Type 0
Table = List Proc

-- `TRACE_FORK` of user/strace.h as the second bit of `traced`.
abbrev pub traces_fork : ℕ → Bool
traces_fork traced = traced / 2 % 2 == 1

abbrev pub is_unused : Proc → Bool
is_unused p = elim (p.state) [ unused ↦ true | _ ↦ false ]

abbrev pub is_sleeping : Proc → Bool
is_sleeping p = elim (p.state) [ sleeping ↦ true | _ ↦ false ]

abbrev pub is_zombie : Proc → Bool
is_zombie p = elim (p.state) [ zombie ↦ true | _ ↦ false ]

abbrev pub is_runnable : Proc → Bool
is_runnable p = elim (p.state) [ runnable ↦ true | _ ↦ false ]

-- An assignment through the pointer `i`.
pub modify : Table → ℕ → (Proc → Proc) → Table
modify [] i f = []
modify (p ∷ ps) zero f = f p ∷ ps
modify (p ∷ ps) (suc i) f = p ∷ modify ps i f

-- The search of `allocproc`.
pub find_unused : Table → Option ℕ
find_unused [] = none
find_unused (p ∷ ps) =
    let rest = find_unused ps >>= λ i. some (suc i) in if is_unused p then some 0 else rest

abbrev pub points_to : ℕ → Option ℕ → Bool
points_to i none = false
points_to i (some j) = i == j

-- `ptable` and `nextpid`, for runs of fewer than 2 ^ 31 forks, which an `int` counts.
pub record Ptable : Type 0 where
  pub procs : Table
  pub nextpid : ℕ

-- `allocproc`, with the stack that `kalloc` answers, 0 for none. The trap frame and the context
-- on the stack are left out.
unfoldable pub allocproc : ℕ → Ptable → Option ℕ × Ptable
unfolding modify find_unused
allocproc kstack pt = elim (find_unused pt.procs) [
  | none ↦ (none, pt)
  | some i ↦
      let claimed : Table =
        modify pt.procs i (λ p. record p { state = embryo; traced = 0; pid = pt.nextpid }) in
      let give_up : Ptable = record {
        procs = modify claimed i (λ p. record p { kstack = 0; state = unused });
        nextpid = pt.nextpid + 1;
      } in
      let ready : Ptable = record {
        procs = modify claimed i (λ p. record p { kstack = kstack });
        nextpid = pt.nextpid + 1;
      } in
      if kstack == 0 then (none, give_up) else (some i, ready)
]

-- What `fork` sets in the child `np` of `cur`; the files are the loop `dup_files`.
abbrev pub child_of : ℕ → Proc → ℕ → Proc → Proc
child_of cur p pgdir np = record np {
  pgdir = pgdir;
  traced = if traces_fork p.traced then p.traced else 0;
  sz = p.sz;
  parent = some cur;
  state = runnable;
}

-- The part of `fork` behind `allocproc`, whose child got the pid `pid`.
unfoldable pub finish_fork : ℕ → Proc → ℕ → ℕ → Option ℕ × Ptable → Option ℕ × Ptable
unfolding modify
finish_fork cur p pgdir pid (none, pt) = (none, pt)
finish_fork cur p pgdir pid (some i, pt) =
    let give_up : Table =
      modify pt.procs i (λ np. record np { pgdir = 0; kstack = 0; state = unused }) in
    let raised : Table = modify pt.procs i (child_of cur p pgdir) in
    if pgdir == 0
    then (none, record pt { procs = give_up })
    else (some pid, record pt { procs = raised })

-- `fork` by the process `cur`, with what `kalloc` and `copyuvm` answer: the pid of the child, or
-- `none` for -1.
unfoldable pub fork : ℕ → Proc → ℕ → ℕ → Ptable → Option ℕ × Ptable
fork cur p kstack pgdir pt = finish_fork cur p pgdir pt.nextpid (allocproc kstack pt)

-- `wakeup1`.
unfoldable pub wakeup1 : ℕ → Table → Table
wakeup1 chan [] = []
wakeup1 chan (p ∷ ps) =
    (if is_sleeping p && (p.chan == chan) then record p { state = runnable } else p)
    ∷ wakeup1 chan ps

-- `kill`; `false` is -1.
unfoldable pub kill : ℕ → Table → Bool × Table
kill pid [] = (false, [])
kill pid (p ∷ ps) =
    let (found, ps') = kill pid ps in
    if p.pid == pid
    then (
      true,
      record p { killed = true; state = if is_sleeping p then runnable else p.state } ∷ ps,
    )
    else (found, p ∷ ps')

-- The process `i` goes to sleep, gives up its CPU, or gets one.
unfoldable pub sleep : ℕ → ℕ → Table → Table
unfolding modify
sleep i chan ps = modify ps i (λ p. record p { chan = chan; state = sleeping })

-- What `sleep` does behind its call of the scheduler.
unfoldable pub tidy_up : ℕ → Table → Table
unfolding modify
tidy_up i ps = modify ps i (λ p. record p { chan = 0 })

unfoldable pub yield_ : ℕ → Table → Table
unfolding modify
yield_ i ps = modify ps i (λ p. record p { state = runnable })

-- A round of the loop of `scheduler`, at the entry `i`; whether the CPU switches to its process.
unfoldable pub run_ : ℕ → Table → Bool × Table
unfolding modify
run_ i ps = elim (get_elem? ps i) [
  | none ↦ (false, ps)
  | some p ↦
      let started = modify ps i (λ p. record p { state = running }) in
      if is_runnable p then (true, started) else (false, ps)
]

-- How a round of `wait` ends: the pid of a child, -1, or sleep.
pub data Waited : Type 0 where
  reaped : ℕ → Table → Waited
  failed : Waited
  waits : Table → Waited

pub data Scan : Type 0 where
  dead_child : ℕ → ℕ → Scan
  no_dead_child : Bool → Scan

-- The scan of `wait`, from the entry `i` on: the first child that is a zombie with its pid, or
-- else whether there is a child.
unfoldable pub scan : ℕ → Bool → ℕ → Table → Scan
scan cur havekids i [] = no_dead_child havekids
scan cur havekids i (p ∷ ps) =
    let is_child = points_to cur p.parent in
    let rest = scan cur (havekids || is_child) (i + 1) ps in
    if is_child && is_zombie p then dead_child i p.pid else rest

-- `addr` gives the address of an entry of the table, on which its process sleeps in `wait`.
module _ (addr : ℕ → ℕ) where
  abbrev pub parent_chan : Option ℕ → ℕ
  parent_chan none = 0
  parent_chan (some i) = addr i

  -- The loop of `exit` over the children of `cur`: one round at the entry `i`, and all with
  -- `left` entries to go.
  pub pass_child : ℕ → ℕ → ℕ → Table → Table
  unfolding modify
  pass_child cur initproc i ps = elim (get_elem? ps i) [
    | none ↦ ps
    | some p ↦
        let adopted = modify ps i (λ p. record p { parent = some initproc }) in
        if points_to cur p.parent
        then if is_zombie p then wakeup1 (addr initproc) adopted else adopted
        else ps
  ]

  unfoldable pub pass_children : ℕ → ℕ → ℕ → ℕ → Table → Table
  unfolding pass_child
  pass_children cur initproc zero i ps = ps
  pass_children cur initproc (suc left) i ps =
      pass_children cur initproc left (i + 1) (pass_child cur initproc i ps)

  -- `exit` behind the closing of the files, up to the call of the scheduler; `none` is its panic.
  unfoldable pub exit : ℕ → ℕ → Option ℕ → Table → Option Table
  unfolding modify
  exit cur initproc parent ps =
      let passed = pass_children cur initproc (length ps) 0 (wakeup1 (parent_chan parent) ps) in
      if cur == initproc then none else some (modify passed cur (λ p. record p { state = zombie }))

  unfoldable pub wait : ℕ → Bool → Table → Waited
  unfolding modify
  wait cur killed ps = elim (scan cur false 0 ps) [
    | dead_child i pid ↦ reaped pid (
        modify ps i
          (λ p. record p { kstack = 0; state = unused; pid = 0; parent = none; killed = false }))
    | no_dead_child havekids ↦
        if not havekids || killed then failed else waits (sleep cur (addr cur) ps)
  ]
