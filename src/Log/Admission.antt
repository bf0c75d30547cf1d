-- ===== src/Log/Admission.antt =====
-- How `begin_op` admits operations, so that the log never runs out of space.
use strace_xv.Base.{
  length, length-append, ℕ, suc, ◌+◌, ◌*◌, ◌≤◌, ◌<◌, ◌≡◌, refl, ap, ◌∙◌, true, false, some, List,
  [], ◌∷◌, ◌++◌, arith,
}
use strace_xv.Log.{Log, log_size, max_op_blocks, absorb, log_write, begin_op, end_op, end_commit}

-- The system: the log, and for each file system call that is executing the number of `log_write`s
-- that it may still make.
pub record System : Type 0 where
  pub log : Log
  pub ops : List ℕ

abbrev pub sum : List ℕ → ℕ
sum [] = 0
sum (n ∷ ns) = n + sum ns

abbrev pub AreSmall : List ℕ → Type 0
AreSmall [] = Unit
AreSmall (n ∷ ns) = (n ≤ max_op_blocks) × AreSmall ns

-- One step of the system. A call begins with `max_op_blocks` writes; the call that moves stands
-- between the others, `before` and `after`.
pub data Step : System → System → Type 0 where
  begin :
      {log log' : Log} {ops : List ℕ}
      → begin_op log ≡ some log'
      → Step (record { log = log; ops = ops }) (record { log = log'; ops = max_op_blocks ∷ ops })
  write :
      {log log' : Log} (before after : List ℕ) (n b : ℕ)
      → log_write b log ≡ some log'
      → Step
          (record { log = log; ops = before ++ (suc n ∷ after) })
          (record { log = log'; ops = before ++ (n ∷ after) })
  end :
      {log log' : Log} (before after : List ℕ) (n : ℕ)
      → end_op log ≡ some (log', false)
      → Step
          (record { log = log; ops = before ++ (n ∷ after) })
          (record { log = log'; ops = before ++ after })
  finish :
      {log log' : Log} (before after : List ℕ) (n : ℕ)
      → end_op log ≡ some (log', true)
      → Step
          (record { log = log; ops = before ++ (n ∷ after) })
          (record { log = log'; ops = before ++ after })
  committed :
      {log : Log} {ops : List ℕ}
      → log.committing ≡ true
      → Step (record { log = log; ops = ops }) (record { log = end_commit log; ops = ops })

-- The space that the log has left covers what the calls may still write.
pub record IsSafe (s : System) : Type 0 where
  pub counted : s.log.outstanding ≡ length s.ops
  pub few : s.log.outstanding ≤ 3
  pub room : length s.log.lh + sum s.ops ≤ log_size
  pub small : AreSmall s.ops
  pub quiet : s.log.committing ≡ true → s.log.outstanding ≡ 0

length-absorb : (lh : List ℕ) (b : ℕ) → length (absorb lh b) ≤ length lh + 1
unfolding absorb
length-absorb [] b = omega arith
length-absorb (c ∷ lh) b = ground (arith, length-absorb lh b)

sum-append : (xs ys : List ℕ) → sum (xs ++ ys) ≡ sum xs + sum ys
sum-append [] ys = omega arith
sum-append (x ∷ xs) ys = omega (arith, sum-append xs ys)

AreSmall-split :
    (xs : List ℕ) (y : ℕ) (ys : List ℕ)
    → AreSmall (xs ++ (y ∷ ys))
    → (y ≤ max_op_blocks) × AreSmall (xs ++ ys)
AreSmall-split [] y ys h = h
AreSmall-split (x ∷ xs) y ys (h, hs) = let (k, ks) = AreSmall-split xs y ys hs in (k, (h, ks))

AreSmall-join :
    (xs : List ℕ) (y : ℕ) (ys : List ℕ)
    → y ≤ max_op_blocks
    → AreSmall (xs ++ ys)
    → AreSmall (xs ++ (y ∷ ys))
AreSmall-join [] y ys k h = (k, h)
AreSmall-join (x ∷ xs) y ys k (h, hs) = (h, AreSmall-join xs y ys k hs)

sum-le : (ns : List ℕ) → AreSmall ns → sum ns ≤ length ns * max_op_blocks
sum-le [] h = omega arith
sum-le (n ∷ ns) (h, hs) = omega (arith, sum-le ns hs)

-- What the parts of the list of calls contribute, before and after one of them moves.
abbrev Parts : List ℕ → ℕ → List ℕ → Type 0
Parts before n after =
    (sum (before ++ (n ∷ after)) ≡ n + sum (before ++ after))
    × (length (before ++ (n ∷ after)) ≡ suc (length (before ++ after)))

parts : (before : List ℕ) (n : ℕ) (after : List ℕ) → Parts before n after
parts before n after = (
  omega (arith, sum-append before (n ∷ after), sum-append before after),
  omega (arith, length-append before (n ∷ after), length-append before after),
)

-- Every step keeps the space covered.
pub Step-IsSafe : {s t : System} → Step s t → IsSafe s → IsSafe t
unfolding begin_op log_write end_op end_commit
Step-IsSafe (begin {log} {log'} {ops} e) v = ground (arith, sum-le ops v.small)
Step-IsSafe (write {log} {log'} before after n b e) v =
    let (small, rest) = AreSmall-split before (suc n) after v.small in
    ground (
      arith,
      length-absorb log.lh b,
      parts before (suc n) after,
      parts before n after,
      AreSmall-join before n after (omega arith) rest,
    )
Step-IsSafe (end {log} {log'} before after n e) v =
    ground (arith, parts before n after, AreSmall-split before n after v.small)
Step-IsSafe (finish {log} {log'} before after n e) v =
    ground (arith, parts before n after, AreSmall-split before n after v.small)
Step-IsSafe (committed {log} {ops} e) v = ground arith

-- The steps from a start.
pub data Reach (s : System) : System → Type 0 where
  here : Reach s s
  next : {t u : System} → Reach s t → Step t u → Reach s u

pub Reach-IsSafe : {s t : System} → IsSafe s → Reach s t → IsSafe t
Reach-IsSafe v here = v
Reach-IsSafe v (next r st) = Step-IsSafe st (Reach-IsSafe v r)

-- The log at the start, with an area of `size` blocks.
abbrev pub idle : ℕ → ℕ → System
idle start size = record {
  log = record { start = start; size = size; outstanding = 0; committing = false; lh = [] };
  ops = [];
}

size-Step : {s t : System} → Step s t → t.log.size ≡ s.log.size
unfolding begin_op log_write end_op end_commit
size-Step (begin e) = ground arith
size-Step (write before after n b e) = ground arith
size-Step (end before after n e) = ground arith
size-Step (finish before after n e) = ground arith
size-Step (committed e) = refl

size-Reach : {s t : System} → Reach s t → t.log.size ≡ s.log.size
size-Reach here = refl
size-Reach (next r st) = size-Step st ∙ size-Reach r

-- In every state that is reachable with a log area of more than `LOGSIZE` blocks, a call that has
-- writes left makes its `log_write` without a panic, for any block.
pub log_write-admitted :
    {start size : ℕ} {s : System} (before after : List ℕ) (n b : ℕ)
    → log_size < size
    → Reach (idle start size) s
    → s.ops ≡ before ++ (suc n ∷ after)
    → (log' : Log) × (log_write b s.log ≡ some log') × (log'.lh ≡ absorb s.log.lh b)
unfolding log_write
log_write-admitted {s = s} before after n b big r e =
    let v =
      Reach-IsSafe
        (record {
          counted = refl;
          few = omega arith;
          room = omega arith;
          small = tt;
          quiet = λ q. cc;
        })
        r in
    let size = size-Reach r in
    let fits : length s.log.lh < log_size =
      omega (arith, v.room, ap sum e, parts before (suc n) after) in
    let busy : 0 < s.log.outstanding =
      omega (arith, v.counted, ap {A = List ℕ} length e, parts before (suc n) after) in
    (record (s.log) { lh = absorb s.log.lh b }, ground arith, refl)
