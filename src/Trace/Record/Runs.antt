-- ===== src/Trace/Record/Runs.antt =====
-- A run of recorded calls: the ring holds the messages of the calls that the options select.
use strace_xv.Base.{
  if◌then◌else◌, Bool-cases, ◌>>=◌, length, get_elem?, replicate, ℕ, ◌-◌, ◌%◌, ◌^◌, ◌<◌, ◌≡◌, refl,
  ◌∙◌, ◌≢◌, inl, inr, Option, none, some, List, [], ◌∷◌, ◌++◌, arith,
}
use strace_xv.Text.{Buf, text}
use strace_xv.Text.Concat.{Holds}
use strace_xv.Trace.{Tracer, Call, syscalls, call_name, system_call_map, ring_size, message_size}
use strace_xv.Trace.Message.{message}
use strace_xv.Trace.Ring.{dump}
use strace_xv.Trace.Ring.Store.{copy_string_lem, dump_lem}
use strace_xv.Trace.Ring.History.{
  History, Represents, SameFlags, IsPrintable, record_message_lem, Represents-recent,
}
use strace_xv.Trace.Record.{
  Caller, Line, Stack, trace_call, record_syscall, selects, record_syscall-selects,
}

-- Every name of the table is a string of less than 400 characters.
call_name_lem :
    (c : Call)
    → (text (call_name c ++ (0 ∷ [])) ≡ some (call_name c)) × (length (call_name c) < 400)
unfolding call_name
call_name_lem Call.fork = (refl, omega arith)
call_name_lem _ = (refl, omega arith)

-- A call that can be traced: its number is in the table, its process has a name as `safestrcpy`
-- leaves it, and its numbers are `int`s other than the least one.
pub record IsTraceable (p : Caller) (id : ℕ) (name : List ℕ) (c : Call) : Type 0 where
  pub pid_fits : (p.pid < 2 ^ 32) × (p.pid ≢ 2 ^ 31)
  pub eax_fits : (p.eax < 2 ^ 32) × (p.eax ≢ 2 ^ 31)
  pub named : text p.name ≡ some name
  pub short : length name < 16
  pub known : syscalls id ≡ some c

-- The arrays of the stack frames have their sizes.
pub record IsFrame (g : Stack) : Type 0 where
  pub name_size : length g.tproc_name ≡ 32
  pub temp_size : length g.temp ≡ message_size

trace_call_lem :
    (g : Stack) (p : Caller) (id : ℕ) (st : Tracer) (h : History) (tname : Buf) (name : List ℕ)
    (c : Call)
    → IsFrame g
    → IsTraceable p id name c
    → text tname ≡ some name
    → Represents st h
    → (st' : Tracer) × (out : List Line) × (trace_call g p tname id st ≡ some (st', out))
      × Represents st' (message p.pid name (call_name c) p.eax ∷ h)
      × SameFlags st st'
unfolding trace_call system_call_map
trace_call_lem g p id st h tname name c f t e r =
    let (st', e', r', same) =
      record_message_lem g.temp p.pid tname (call_name c ++ (0 ∷ [])) p.eax name (call_name c) st h
        f.temp_size printable r in
    (
      st',
      record { pid = p.pid; name = tname; sysname = call_name c ++ (0 ∷ []); eax = p.eax } ∷ [],
      rw (t.known, e') refl,
      r',
      same,
    )
  where
    printable : IsPrintable p.pid tname (call_name c ++ (0 ∷ [])) p.eax name (call_name c)
    printable = record {
      pid_fits = t.pid_fits;
      eax_fits = t.eax_fits;
      is_name = e;
      is_call = (call_name_lem c).0;
      short = (omega (arith, t.short), (call_name_lem c).1);
    }

-- A traced call as it enters `record_syscall`.
pub record Event : Type 0 where
  pub frame : Stack
  pub caller : Caller
  pub id : ℕ
  pub name : List ℕ
  pub call : Call

abbrev pub IsEvent : Event → Type 0
IsEvent e = IsFrame e.frame × IsTraceable e.caller e.id e.name e.call

-- The history after one event.
abbrev pub recorded : Tracer → Event → History → History
recorded st e h =
    if selects st e.caller.eax e.id
    then message e.caller.pid e.name (call_name e.call) e.caller.eax ∷ h
    else h

-- The outcome of one event.
abbrev pub Leaves : Tracer → History → Option (Tracer × List Line) → Type 0
Leaves st h r =
    (st' : Tracer) × (out : List Line) × (r ≡ some (st', out)) × Represents st' h × SameFlags st st'

-- On an event with valid frames and names, `record_syscall` faults nowhere, and puts the message
-- at the head of the history if the options select the call; else the history stays.
pub record_syscall_lem :
    (e : Event) (st : Tracer) (h : History)
    → IsEvent e
    → Represents st h
    → Leaves st (recorded st e h) (record_syscall e.frame e.caller e.id st)
record_syscall_lem e st h (f, t) r =
    let (tn, e', _, tt') =
      copy_string_lem e.frame.tproc_name e.caller.name t.named
        (omega (arith, t.short, f.name_size)) in
    rw (record_syscall-selects e.frame e.caller e.id st, e')
      (elim (Bool-cases (selects st e.caller.eax e.id)) [
        | inl chosen ↦
            rw chosen (trace_call_lem e.frame e.caller e.id st h tn e.name e.call f t tt' r)
        | inr left ↦ rw left (st, [], refl, r, (refl, refl, refl, refl))
      ])

-- Events one after the other.
unfoldable pub run : List Event → Tracer → Option Tracer
run [] st = some st
run (e ∷ es) st = record_syscall e.frame e.caller e.id st >>= λ (st', out). run es st'

unfoldable pub history : Tracer → List Event → History → History
history st [] h = h
history st (e ∷ es) h = history st es (recorded st e h)

abbrev pub AreEvents : List Event → Type 0
AreEvents [] = Unit
AreEvents (e ∷ es) = IsEvent e × AreEvents es

selects-SameFlags :
    (st st' : Tracer) (eax id : ℕ) → SameFlags st st' → selects st' eax id ≡ selects st eax id
unfolding selects
selects-SameFlags st st' eax id (e, f, s, n) = rw (e, f, s, n) refl

history-SameFlags :
    (st st' : Tracer) (es : List Event) (h : History)
    → SameFlags st st'
    → history st' es h ≡ history st es h
unfolding history
history-SameFlags st st' [] h same = refl
history-SameFlags st st' (e ∷ es) h same =
    rw (selects-SameFlags st st' e.caller.eax e.id same)
      (history-SameFlags st st' es (recorded st e h) same)

-- A sequence of calls runs without a fault from a ring that represents a history, and the ring then
-- represents that history with the messages of exactly those calls that the options select, in
-- their order, if the number of each call is in the table, its pid and its result are numbers of 32
-- bits other than the least `int`, the name of its process has less than 16 characters, and the
-- arrays of its stack frame have their sizes.
pub run-Represents :
    (es : List Event) (st : Tracer) (h : History)
    → AreEvents es
    → Represents st h
    → (st' : Tracer) × (run es st ≡ some st') × Represents st' (history st es h)
unfolding run history
run-Represents [] st h v r = (st, refl, r)
run-Represents (e ∷ es) st h (ve, v) r =
    let (st', out, e', r', same) = record_syscall_lem e st h ve r in
    let (st'', e'', r'') = run-Represents es st' (recorded st e h) v r' in
    (st'', rw (e', e'') refl, rw (history-SameFlags st st' es (recorded st e h) same) at r'')

-- The tracer as it is linked: every array and pointer zero, every option off.
abbrev pub fresh : Tracer
fresh = record {
  syscall_flag = 0;
  flag_f = 0;
  flag_e = 0;
  flag_s = 0;
  flag_o = 0;
  callcount = 0;
  trace = λ _. replicate message_size 0;
  sysbuf = λ _. none;
}

-- The tracer at the start represents the empty history under any setting of the options.
pub fresh-Represents :
    (f e s n o : ℕ)
    → Represents
        (record fresh { syscall_flag = n; flag_f = f; flag_e = e; flag_s = s; flag_o = o })
        []
fresh-Represents f e s n o = record { count = refl; slots = λ j lt. refl; own = λ j lt. inl refl }

-- After any sequence of calls as `run-Represents` takes them, from a ring that represents a history, `dump` of the slot of the
-- message that was recorded `i` messages before the newest one writes that message to the caller's
-- buffer, for every `i` below the size of the ring and every buffer longer than the message.
pub run-dump :
    (es : List Event) (st : Tracer) (h : History) (i : ℕ) (m : List ℕ) (input : Buf)
    → AreEvents es
    → Represents st h
    → i < ring_size
    → i < length (history st es h)
    → get_elem? (history st es h) i ≡ some m
    → length m < length input
    → (st' : Tracer) × (run es st ≡ some st')
      × Holds (dump input ((length (history st es h) - 1 - i) % ring_size) st') (length input) m
run-dump es st h i m input v r lt il at fits =
    let (st', e, r') = run-Represents es st h v r in
    (
      st',
      e,
      dump_lem input ((length (history st es h) - 1 - i) % ring_size) st' (omega arith)
          (Represents-recent r' i lt il ∙ at) fits,
    )
