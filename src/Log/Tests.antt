-- ===== src/Log/Tests.antt =====
-- The log at a small transaction.
use strace_xv.Base.{
  ◌==◌, if◌then◌else◌, replicate, ◌≡◌, refl, ◌⊎◌, inr, false, none, some, [], ◌∷◌, arith,
}
use strace_xv.Log.{Block, Store, Log, block_words, absorb, log_write, begin_op}
use strace_xv.Log.Commit.{commit_writes, commit-Ran}
use strace_xv.Log.Crash.{recover, CanCommit, Old, New, commit-crash}
use strace_xv.Log.Admission.{System, idle, Reach, here, next, begin, log_write-admitted}

abbrev zeros : Block
zeros = replicate block_words 0

-- The log area stands at 2 to 31; blocks 40 and 41 are in the transaction, with new data.
abbrev store : Store
store = record {
  disk = λ _. zeros;
  cache = λ b.
      if b == 40
      then some (replicate block_words 1)
      else if b == 41
      then some (replicate block_words 2)
      else none;
  writes = [];
}

can : CanCommit 29 2 (40 ∷ 41 ∷ []) store
can = record {
  few = omega arith;
  fits = omega arith;
  homes = (inr (omega arith), (inr (omega arith), tt));
  clean = refl;
  sized = refl;
}

-- Nothing of the commit is written yet.
commit-crash_example :
    Old 29 2 store (recover 2 (λ _. zeros)) ⊎ New 29 2 (40 ∷ 41 ∷ []) store (recover 2 (λ _. zeros))
commit-crash_example =
    commit-crash 29 2 40 (41 ∷ []) store can [] (commit_writes 2 (40 ∷ 41 ∷ []) store)
      (commit-Ran 29 2 40 (41 ∷ []) store (omega arith) can.homes).journal

abbrev begun : System
begun = record {
  log = record { start = 2; size = 31; outstanding = 1; committing = false; lh = [] };
  ops = 10 ∷ [];
}

begun-Reach : Reach (idle 2 31) begun
unfolding begin_op
begun-Reach = next here (begin refl)

log_write-admitted_example :
    (log' : Log) × (log_write 40 begun.log ≡ some log') × (log'.lh ≡ absorb [] 40)
log_write-admitted_example =
    log_write-admitted {start = 2} {size = 31} [] [] 9 40 (omega arith) begun-Reach refl
