-- ===== src/Trace/Dispatch/Traced.antt =====
-- What `syscall` records, on each of its paths.
use mathlib.Core.List
use mathlib.Core.Path.{subst}
use strace_xv.Base.{
  ◌==◌, if◌then◌else◌, Bool-cases, ◌>>=◌, ℕ, ◌≡◌, refl, ap, ◌∙◌, inl, inr, true, false, Option,
  none, some, List, ◌∷◌, ◌++◌, arith,
}
use strace_xv.Text.{Buf}
use strace_xv.Trace.{Call, syscalls, call_name, minus_one}
use strace_xv.Trace.Message.{message}
use strace_xv.Trace.Ring.History.{History, Represents}
use strace_xv.Trace.Record.{Stack, selects}
use strace_xv.Trace.Record.Runs.{Event, IsEvent, recorded, record_syscall_lem}
use strace_xv.Trace.Dispatch.{
  World, Printed, Ending, returned, never, unknown_call, is_traced, sys_exit, record_here,
  after_call, dispatch, syscall_at, syscall,
}

unknown-ne-exit : (id : ℕ) → syscalls id ≡ none → (id == sys_exit) ≡ false
unfolding syscalls
unknown-ne-exit id h = elim (Bool-cases (id == sys_exit)) [
  | inl e ↦ let p : id ≡ 2 = ground arith in cc (rw p at h)
  | inr ne ↦ ne
]

module _ {S : Type 0} where
  -- The running process as the caller of a traced call.
  abbrev pub event : Stack → ℕ → List ℕ → Call → World S → Event
  event g id name c w = record {
    frame = g;
    caller = record { pid = w.pid; name = w.name; eax = w.eax };
    id = id;
    name = name;
    call = c;
  }

  -- The world `w'` differs from `w` in the tracer and the console only.
  pub record SameProcess (w w' : World S) : Type 0 where
    pub pid : w'.pid ≡ w.pid
    pub name : ◌≡◌ {A = Buf} w'.name w.name
    pub eax : w'.eax ≡ w.eax
    pub traced : w'.traced ≡ w.traced
    pub kernel : w'.kernel ≡ w.kernel

  pub record_here_lem :
      (g : Stack) (id : ℕ) (name : List ℕ) (c : Call) (w : World S) (h : History)
      → IsEvent (event g id name c w)
      → Represents w.tracer h
      → (w' : World S) × (record_here g id w ≡ some w')
        × Represents w'.tracer (recorded w.tracer (event g id name c w) h)
        × SameProcess w w'
  unfolding record_here
  record_here_lem g id name c w h v r =
      let (st, out, e, r', same) = record_syscall_lem (event g id name c w) w.tracer h v r in
      (
        record w { tracer = st; console = List.map Printed.trace_line out ++ w.console },
        rw e refl,
        r',
        record { pid = refl; name = refl; eax = refl; traced = refl; kernel = refl },
      )

  at_traced :
      (g : Stack) (run : Call → World S → Option (Ending × World S)) (w : World S) (c : Call)
      → (w.eax == sys_exit) ≡ false
      → syscalls w.eax ≡ some c
      → syscall_at g run true w.eax w ≡ (run c w >>= after_call g true w.eax)
  unfolding syscall_at dispatch
  at_traced g run w c other known = rw (other, known) refl

  at_untraced :
      (g : Stack) (run : Call → World S → Option (Ending × World S)) (w : World S) (c : Call)
      → syscalls w.eax ≡ some c
      → syscall_at g run false w.eax w ≡ (run c w >>= after_call g false w.eax)
  unfolding syscall_at dispatch
  at_untraced g run w c known = ground arith

  at_exit :
      (g : Stack) (run : Call → World S → Option (Ending × World S)) (w w' : World S)
      → record_here g sys_exit w ≡ some w'
      → syscall_at g run true sys_exit w ≡ (run Call.exit w' >>= after_call g true sys_exit)
  unfolding syscall_at dispatch syscalls
  at_exit g run w w' e = rw e refl

  -- A traced call other than `exit` of a number in the table that returns `ret` leaves `ret` in `eax`,
  -- whatever the call did to the rest of the world, and the ring, if it represented a history behind
  -- the call, with the message of this call and this result at the head of it, if the options that
  -- the call left select it. The pid and `ret` are numbers of 32 bits other than the least `int`, the
  -- name of the process has less than 16 characters, and the arrays of the stack frame have their
  -- sizes.
  pub syscall-traced :
      (g : Stack) (run : Call → World S → Option (Ending × World S)) (w w1 : World S) (c : Call)
      (ret : ℕ) (name : List ℕ) (h : History)
      → is_traced w.traced ≡ true
      → (w.eax == sys_exit) ≡ false
      → syscalls w.eax ≡ some c
      → run c w ≡ some (returned ret, w1)
      → IsEvent (event g w.eax name c (record w1 { eax = ret }))
      → Represents w1.tracer h
      → (w' : World S) × (syscall g run w ≡ some w')
        × Represents w'.tracer
            (recorded w1.tracer (event g w.eax name c (record w1 { eax = ret })) h)
        × SameProcess (record w1 { eax = ret }) w'
  unfolding syscall
  syscall-traced g run w w1 c ret name h on other known result v r =
      rw (on, at_traced g run w c other known, result)
        (unfold after_call in record_here_lem g w.eax name c (record w1 { eax = ret }) h v r)

  -- A call of a process that is not traced leaves the tracer and the console as the call itself
  -- left them, and its result in `eax`.
  pub syscall-untraced :
      (g : Stack) (run : Call → World S → Option (Ending × World S)) (w : World S) (c : Call)
      → is_traced w.traced ≡ false
      → syscalls w.eax ≡ some c
      → syscall g run w ≡ (run c w >>= after_call g false w.eax)
  unfolding syscall
  syscall-untraced g run w c off known = rw (off, at_untraced g run w c known) refl

  -- An unknown number is answered with -1 and a line on the console, and nothing is traced.
  pub syscall-unknown :
      (g : Stack) (run : Call → World S → Option (Ending × World S)) (w : World S)
      → syscalls w.eax ≡ none
      → syscall g run w
        ≡ some (record w { eax = minus_one; console = unknown_call w.pid w.name ∷ w.console })
  unfolding syscall syscall_at dispatch
  syscall-unknown g run w unknown = rw (unknown, unknown-ne-exit w.eax unknown) refl

  -- A traced `exit` is recorded before it runs, if the options select it, with the number of the
  -- call as its return value: `exit` runs in the world of that record, which differs from the one
  -- of the call in the tracer and the console only, and as it does not return, nothing is recorded
  -- behind it. The pid is a number of 32 bits other than the least `int`, the name of the process
  -- has less than 16 characters, and the arrays of the stack frame have their sizes.
  pub syscall-exit :
      (g : Stack) (run : Call → World S → Option (Ending × World S)) (gone : World S → World S)
      (w : World S) (name : List ℕ) (h : History)
      → is_traced w.traced ≡ true
      → w.eax ≡ sys_exit
      → ((w1 : World S) → run Call.exit w1 ≡ some (never, gone w1))
      → IsEvent (event g sys_exit name Call.exit w)
      → Represents w.tracer h
      → (w' : World S) × (record_here g sys_exit w ≡ some w')
        × (syscall g run w ≡ some (gone w'))
        × SameProcess w w'
        × Represents w'.tracer (
            if selects w.tracer sys_exit sys_exit
            then message w.pid name (call_name Call.exit) sys_exit ∷ h
            else h)
  unfolding syscall
  syscall-exit g run gone w name h on ex ends v r =
      let (w', e, r', same) = record_here_lem g sys_exit name Call.exit w h v r in
      (
        w',
        e,
        rw on (
            ap (λ n. syscall_at g run true n w) ex
            ∙ at_exit g run w w' e
            ∙ rw (ends w') (unfold after_call in refl)),
        same,
        subst
            (λ n. Represents w'.tracer (
              if selects w.tracer n sys_exit
              then message w.pid name (call_name Call.exit) n ∷ h
              else h))
            ex r',
      )
