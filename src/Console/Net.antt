-- ===== src/Console/Net.antt =====
-- The keyboard and the readers of the console in any order.
use strace_xv.Base.{ℕ, ◌≡◌, subst, ◌⊎◌, Bool, false, some, List, arith}
use strace_xv.Console.{Input, consoleintr, Read, waits, got, consoleread}
use strace_xv.Console.Bounds.{
  IsInput, consoleintr-IsInput, Reads, reads_waits, reads_killed, reads_got, consoleread_lem,
}

pub data Step (s : Input) : Input → Type 0 where
  types : (c : ℕ) {s' : Input} → consoleintr c s ≡ some s' → Step s s'
  reads :
      (killed : Bool) (n : ℕ) (cs : List ℕ) {s' : Input}
      → (consoleread killed false n s ≡ got cs s') ⊎ (consoleread killed false n s ≡ waits cs s')
      → Step s s'

pub data Reach (s : Input) : Input → Type 0 where
  here : Reach s s
  next : {t u : Input} → Reach s t → Step t u → Reach s u

Reads-state :
    {n : ℕ} {cs : List ℕ} {s : Input} {r : Read}
    → Reads n r
    → (r ≡ got cs s) ⊎ (r ≡ waits cs s)
    → IsInput s
Reads-state {s = s} (reads_waits {s = t} l v) e =
    let same : t ≡ s = ground arith in subst IsInput same v
Reads-state reads_killed e = ground arith
Reads-state {s = s} (reads_got {s = t} l v) e =
    let same : t ≡ s = ground arith in subst IsInput same v

Step-IsInput : {s t : Input} → Step s t → IsInput s → IsInput t
Step-IsInput {s} {t} (types c e) v =
    let (s', d, v') = consoleintr-IsInput c v in let same : s' ≡ t = cc in subst IsInput same v'
Step-IsInput (reads killed n cs e) v = Reads-state (consoleread_lem killed false n v) e

-- From indices in order on, in every state that the keyboard and the readers reach: the read index
-- is not behind the write index, nor that behind the edit index, and all three lie within one
-- buffer, counted round the range of `uint`; `consoleintr` ends for every character; and
-- `consoleread` stores at most as many characters as it was asked for.
pub Reach-IsInput :
    {s t : Input}
    → IsInput s
    → Reach s t
    → IsInput t
      × ((c : ℕ) → (t' : Input) × (consoleintr c t ≡ some t'))
      × ((killed : Bool) (n : ℕ) → Reads n (consoleread killed false n t))
Reach-IsInput {s} {t} v r =
    let u = go r in
    (
      u,
      λ c. (let (t', e, v') = consoleintr-IsInput c u in (t', e)),
      λ killed n. consoleread_lem killed false n u,
    )
  where
    go : {t : Input} → Reach s t → IsInput t
    go here = v
    go (next q st) = Step-IsInput st (go q)
