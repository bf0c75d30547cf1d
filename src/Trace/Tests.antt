-- ===== src/Trace/Tests.antt =====
-- The tracer at concrete calls.
use strace_xv.Base.{
  if◌then◌else◌, ◌>>=◌, length, replicate, ℕ, ◌-◌, ◌%◌, ◌^◌, ◌≡◌, refl, Option, some, List, [], ◌∷◌,
  arith,
}
use strace_xv.Text.{chars, literal}
use strace_xv.Text.Concat.{Holds}
use strace_xv.Text.Number.Decimal.{low_digits}
use strace_xv.Text.Number.Print.{decimal}
use strace_xv.Trace.{Tracer, Call, open_, close, syscalls, call_name, ring_size, message_size}
use strace_xv.Trace.Message.{message, write_trace, write_trace_lem}
use strace_xv.Trace.Ring.{dump, copy_string}
use strace_xv.Trace.Ring.History.{Represents}
use strace_xv.Trace.Record.{Stack, record_syscall, selects, trace_call, record_syscall-selects}
use strace_xv.Trace.Record.Runs.{
  Event, IsEvent, run, history, recorded, fresh, fresh-Represents, run-Represents, run-dump,
}
use strace_xv.Trace.Dispatch.{World, Ending, returned, never, sys_exit, record_here, syscall}
use strace_xv.Trace.Dispatch.Traced.{event, SameProcess, syscall-traced, syscall-exit}

abbrev frame : Stack
frame = record { tproc_name = replicate 32 7; temp = replicate message_size 7 }

abbrev opened : Event
opened = record {
  frame = frame;
  caller = record { pid = 3; name = literal "ls"; eax = 3 };
  id = 15;
  name = chars "ls";
  call = open_;
}

abbrev closed : Event
closed = record {
  frame = frame;
  caller = record { pid = 3; name = literal "ls"; eax = 2 ^ 32 - 1 };
  id = 21;
  name = chars "ls";
  call = close;
}

opened-IsEvent : IsEvent opened
unfolding syscalls
opened-IsEvent = (
  record { name_size = refl; temp_size = refl },
  record {
    pid_fits = (omega arith, omega arith);
    eax_fits = (omega arith, omega arith);
    named = refl;
    short = omega arith;
    known = refl;
  },
)

closed-IsEvent : IsEvent closed
unfolding syscalls
closed-IsEvent = (
  record { name_size = refl; temp_size = refl },
  record {
    pid_fits = (omega arith, omega arith);
    eax_fits = (omega arith, omega arith);
    named = refl;
    short = omega arith;
    known = refl;
  },
)

abbrev script : List Event
script = opened ∷ closed ∷ []

-- Only successful calls.
abbrev successes : Tracer
successes = record fresh { syscall_flag = 0; flag_f = 0; flag_e = 0; flag_s = 1; flag_o = 0 }

history-successes : history successes script [] ≡ message 3 (chars "ls") (chars "open") 3 ∷ []
unfolding history selects call_name
history-successes = refl

run-Represents_example :
    (st : Tracer) × (run script successes ≡ some st) × Represents st (history successes script [])
run-Represents_example =
    run-Represents script successes [] (opened-IsEvent, (closed-IsEvent, tt))
      (fresh-Represents 0 0 1 0 0)

history-fresh :
    history fresh script []
    ≡ message 3 (chars "ls") (chars "close") (2 ^ 32 - 1)
      ∷ message 3 (chars "ls") (chars "open") 3
      ∷ []
unfolding history selects call_name
history-fresh = refl

-- The message before the newest one.
run-dump_example :
    (st : Tracer) × (run script fresh ≡ some st)
    × Holds
        (dump (replicate 100 0) ((length (history fresh script []) - 1 - 1) % ring_size) st)
        100
        (message 3 (chars "ls") (chars "open") 3)
unfolding history selects call_name decimal low_digits
run-dump_example =
    run-dump script fresh [] 1 (message 3 (chars "ls") (chars "open") 3) (replicate 100 0)
      (opened-IsEvent, (closed-IsEvent, tt)) (fresh-Represents 0 0 0 0 0) (omega arith)
      (omega arith) refl (omega arith)

record_syscall-selects_example : record_syscall frame closed.caller 21 successes ≡ (
    copy_string frame.tproc_name closed.caller.name >>= λ tproc_name.
    if selects successes closed.caller.eax 21
    then trace_call frame closed.caller tproc_name 21 successes
    else some (successes, []))
record_syscall-selects_example = record_syscall-selects frame closed.caller 21 successes

write_trace_lem_example :
    Holds
      (write_trace frame.temp (replicate message_size 0) 3 (literal "ls") (literal "open") 3)
      message_size
      (message 3 (chars "ls") (chars "open") 3)
write_trace_lem_example =
    write_trace_lem frame.temp (replicate message_size 0) 3 (literal "ls") (literal "open") 3
      (chars "ls") (chars "open") refl refl refl (omega arith, omega arith)
      (omega arith, omega arith) refl refl (omega arith, omega arith)

-- A world with no other kernel state: a traced `ls` that calls `open`, and calls that return 3.
abbrev world : ℕ → ℕ → World (Unit {0})
world eax traced = record {
  pid = 3;
  name = literal "ls";
  eax = eax;
  traced = traced;
  tracer = fresh;
  console = [];
  kernel = tt;
}

abbrev returns_3 : Call → World (Unit {0}) → Option (Ending × World (Unit {0}))
returns_3 c w = some (returned 3, w)

-- An `exit` that leaves the process without a trace of itself.
abbrev gone : World (Unit {0}) → World (Unit {0})
gone w = record w { traced = 0 }

abbrev exits : Call → World (Unit {0}) → Option (Ending × World (Unit {0}))
exits c w = some (never, gone w)

syscall-traced_example :
    (w' : World (Unit {0})) × (syscall frame returns_3 (world 15 1) ≡ some w')
    × Represents w'.tracer (recorded fresh (event frame 15 (chars "ls") open_ (world 3 1)) [])
    × SameProcess (world 3 1) w'
unfolding syscalls
syscall-traced_example =
    syscall-traced frame returns_3 (world 15 1) (world 15 1) open_ 3 (chars "ls") [] refl refl refl
      refl opened-IsEvent (fresh-Represents 0 0 0 0 0)

exit-IsEvent : IsEvent (event frame sys_exit (chars "ls") Call.exit (world sys_exit 1))
unfolding syscalls
exit-IsEvent = (
  record { name_size = refl; temp_size = refl },
  record {
    pid_fits = (omega arith, omega arith);
    eax_fits = (omega arith, omega arith);
    named = refl;
    short = omega arith;
    known = refl;
  },
)

syscall-exit_example :
    (w' : World (Unit {0})) × (record_here frame sys_exit (world sys_exit 1) ≡ some w')
    × (syscall frame exits (world sys_exit 1) ≡ some (gone w'))
    × SameProcess (world sys_exit 1) w'
    × Represents w'.tracer (
        if selects fresh sys_exit sys_exit
        then message 3 (chars "ls") (call_name Call.exit) sys_exit ∷ []
        else [])
syscall-exit_example =
    syscall-exit frame exits gone (world sys_exit 1) (chars "ls") [] refl refl (λ w1. refl)
      exit-IsEvent (fresh-Represents 0 0 0 0 0)
