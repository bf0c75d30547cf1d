-- ===== src/Trace/Message.antt =====
-- The text of a trace message: `write_trace` of kernel/syscall.c.
use strace_xv.Base.{
  ◌>>=◌, length, replicate, length-replicate, ℕ, ◌^◌, ◌≤◌, ◌<◌, ◌≡◌, refl, ◌∙◌, ◌≢◌, Option, some,
  List, [], ◌++◌, arith,
}
use strace_xv.Text.{Buf, text, literal, chars, strcat, reverse}
use strace_xv.Text.Concat.{Holds, strcat_lem, strcat-bind, Holds-bind}
use strace_xv.Text.Number.{itoa, itoa_digits, itoa_loop, itoa_finish}
use strace_xv.Text.Number.Print.{decimal, itoa_lem, length-decimal}
use strace_xv.Trace.{message_size}

-- `write_trace`. `temp` is the local array, with what the stack held before.
unfoldable pub write_trace : Buf → Buf → ℕ → Buf → Buf → ℕ → Option Buf
write_trace temp destination pid pname sysname returnvalue = do
  d1 ← strcat destination (literal "TRACE: pid = ")
  number ← itoa pid temp 10
  d2 ← strcat d1 number
  d3 ← strcat d2 (literal " | command_name = ")
  d4 ← strcat d3 pname
  d5 ← strcat d4 (literal " | syscall = ")
  d6 ← strcat d5 sysname
  d7 ← strcat d6 (literal " | return value: ")
  number' ← itoa returnvalue (replicate (length number) 0) 10
  strcat d7 number'

-- The message that the code means to write.
abbrev pub message : ℕ → List ℕ → List ℕ → ℕ → List ℕ
message pid name call ret =
    chars "TRACE: pid = "
    ++ decimal pid
    ++ chars " | command_name = "
    ++ name
    ++ chars " | syscall = "
    ++ call
    ++ chars " | return value: "
    ++ decimal ret

message_test :
    write_trace (replicate 20 7) (replicate 100 0) 123 (literal "ls") (literal "open") 3
    ≡ some (
        chars "TRACE: pid = 123 | command_name = ls | syscall = open | return value: 3"
        ++ replicate 29 0)
unfolding write_trace strcat itoa itoa_digits itoa_loop itoa_finish reverse
message_test = refl

-- In an empty destination, `write_trace` writes exactly the message, whatever the local array
-- held, if the destination and the local array have their sizes, neither number is the least
-- `int`, and the two names are shorter than 400 bytes each.
pub write_trace_lem :
    (temp destination : Buf) (pid : ℕ) (pname sysname : Buf) (ret : ℕ) (name call : List ℕ)
    → length temp ≡ message_size
    → length destination ≡ message_size
    → text destination ≡ some []
    → (pid < 2 ^ 32) × (pid ≢ 2 ^ 31)
    → (ret < 2 ^ 32) × (ret ≢ 2 ^ 31)
    → text pname ≡ some name
    → text sysname ≡ some call
    → (length name < 400) × (length call < 400)
    → Holds
        (write_trace temp destination pid pname sysname ret)
        message_size
        (message pid name call ret)
unfolding write_trace
write_trace_lem temp destination pid pname sysname ret name call lt ld td hp hr tn tc small =
    strcat-bind _ _ message_size 0 ld td (omega arith) refl (omega arith) _ _ λ d1 l1 t1 b1.
      Holds-bind (itoa_lem pid temp hp.0 hp.1 (omega arith)) _ _ _ λ n ln tn'.
        strcat-bind _ _ message_size 13 l1 t1 b1 tn' (omega (arith, pid_short)) _ _ λ d2 l2 t2 b2.
          strcat-bind _ _ message_size 24 l2 t2 (omega (arith, pid_short)) refl (omega arith) _ _
            λ d3 l3 t3 b3.
              strcat-bind _ _ message_size 42 l3 t3 b3 tn (omega arith) _ _ λ d4 l4 t4 b4.
                strcat-bind _ _ message_size 442 l4 t4 (omega arith) refl (omega arith) _ _
                  λ d5 l5 t5 b5.
                    strcat-bind _ _ message_size 455 l5 t5 b5 tc (omega arith) _ _ λ d6 l6 t6 b6.
                      strcat-bind _ _ message_size 855 l6 t6 (omega arith) refl (omega arith) _ _
                        λ d7 l7 t7 b7.
                          Holds-bind
                            (itoa_lem ret (replicate (length n) 0) hr.0 hr.1
                              (omega (arith, length-replicate {A = ℕ} (length n) 0)))
                            (λ m. strcat d7 m) _ _
                            λ m lm tm.
                              let (d, e, l, t) =
                                strcat_lem d7 m _ _ t7 tm (omega (arith, ret_short)) in
                              (d, e, l ∙ l7, t)
  where
    pid_short : length (decimal pid) ≤ 11
    pid_short = length-decimal pid hp.0 hp.1

    ret_short : length (decimal ret) ≤ 11
    ret_short = length-decimal ret hr.0 hr.1
