-- ===== src/Cache/Net.antt =====
-- No block is in two buffers, and no buffer is lost, in any run of the cache.
use strace_xv.Base.{
  ◌==◌, Bool-cases, Option-cases, occurs, ℕ, zero, suc, ◌<◌, ◌≡◌, refl, sym, ◌∙◌, subst, inl, inr,
  Bool, false, some, List, [], ◌∷◌, arith,
}
use strace_xv.Cache.{no_device, Buf, binit, got, bget, unlink, brelse, set_flags}
use strace_xv.Cache.Unique.{holders, ids, IsUnique, bget_lem}

-- What is behind the other operations holds the same blocks in the same buffers.
pub record Keeps (bs bs' : List Buf) : Type 0 where
  pub same : (d k : ℕ) → holders d k bs' ≡ holders d k bs
  pub keep : (j : ℕ) → occurs j (ids bs') ≡ occurs j (ids bs)

unlink_lem :
    (i : ℕ) (bs : List Buf) {b : Buf} {rest : List Buf}
    → unlink i bs ≡ some (b, rest)
    → Keeps bs (b ∷ rest)
unfolding unlink
unlink_lem i [] e = ground arith
unlink_lem i (c ∷ bs) {b} {rest} e = elim (Bool-cases (c.id == i)) [
  | inl q ↦
      let first : c ≡ b = ground arith in
      let others : bs ≡ rest = ground arith in
      rw (sym first, sym others) (record { same = λ d k. refl; keep = λ j. refl })
  | inr q ↦ elim (Option-cases (unlink i bs)) [
    | inl r ↦ ground arith
    | inr ((b1, rest1), r) ↦
        let first : b1 ≡ b = ground arith in
        let others : c ∷ rest1 ≡ rest = ground arith in
        let k = unlink_lem i bs r in
        rw (sym first, sym others)
          (record { same = λ d m. omega (arith, k.same d m); keep = λ j. omega (arith, k.keep j) })
  ]
]

pub brelse_lem : (i : ℕ) (bs : List Buf) {bs' : List Buf} → brelse i bs ≡ some bs' → Keeps bs bs'
unfolding brelse
brelse_lem i bs {bs'} e = elim (Option-cases (unlink i bs)) [
  | inl q ↦ ground arith
  | inr ((b, rest), q) ↦
      let is : record b { busy = false } ∷ rest ≡ bs' = ground arith in
      let k = unlink_lem i bs q in subst (Keeps bs) is (record { same = k.same; keep = k.keep })
]

pub set_flags_lem :
    (i : ℕ) (valid dirty : Bool) (bs : List Buf) → Keeps bs (set_flags i valid dirty bs)
unfolding set_flags
set_flags_lem i valid dirty [] = record { same = λ d k. refl; keep = λ j. refl }
set_flags_lem i valid dirty (b ∷ bs) =
    let k = set_flags_lem i valid dirty bs in
    elim (Bool-cases (b.id == i)) [
      | inl e ↦
          rw e (record {
            same = λ d m. omega (arith, k.same d m);
            keep = λ j. omega (arith, k.keep j);
          })
      | inr e ↦
          rw e (record {
            same = λ d m. omega (arith, k.same d m);
            keep = λ j. omega (arith, k.keep j);
          })
    ]

-- The operations on the cache, one after the other.
pub data Step (bs : List Buf) : List Buf → Type 0 where
  gets :
      {i : ℕ} {bs' : List Buf} (dev blockno : ℕ)
      → dev < no_device
      → bget dev blockno bs ≡ got i bs'
      → Step bs bs'
  releases : {bs' : List Buf} (i : ℕ) → brelse i bs ≡ some bs' → Step bs bs'
  flags : (i : ℕ) (valid dirty : Bool) → Step bs (set_flags i valid dirty bs)

pub data Reach (bs : List Buf) : List Buf → Type 0 where
  here : Reach bs bs
  next : {cs ds : List Buf} → Reach bs cs → Step cs ds → Reach bs ds

-- The invariant, from the list of `n` buffers on.
pub record IsCache (n : ℕ) (bs : List Buf) : Type 0 where
  pub unique : IsUnique bs
  pub keep : (j : ℕ) → occurs j (ids bs) ≡ occurs j (ids (binit n))

IsCache-Keeps : {n : ℕ} {bs bs' : List Buf} → IsCache n bs → Keeps bs bs' → IsCache n bs'
IsCache-Keeps c k = record {
  unique = λ d m h. omega (arith, k.same d m, c.unique d m h);
  keep = λ j. k.keep j ∙ c.keep j;
}

Step-IsCache : {n : ℕ} {bs cs : List Buf} → Step bs cs → IsCache n bs → IsCache n cs
Step-IsCache {n} {bs} (gets dev blockno l e) c =
    let g = bget_lem dev blockno bs l c.unique e in
    record { unique = g.unique; keep = λ j. g.keep j ∙ c.keep j }
Step-IsCache {n} {bs} (releases i e) c = IsCache-Keeps c (brelse_lem i bs e)
Step-IsCache {n} {bs} (flags i valid dirty) c = IsCache-Keeps c (set_flags_lem i valid dirty bs)

binit-holders : (n d k : ℕ) → d < no_device → holders d k (binit n) ≡ 0
unfolding binit
binit-holders zero d k h = refl
binit-holders (suc n) d k h = ground (arith, binit-holders n d k h)

-- After any run of `bget`, `brelse` and changes of flags from `binit` on, each block of a device is
-- in at most one buffer, and the list has exactly the buffers of the array.
pub Reach-IsCache : {n : ℕ} {bs : List Buf} → Reach (binit n) bs → IsCache n bs
Reach-IsCache {n} here = record {
  unique = λ d k h. omega (arith, binit-holders n d k h);
  keep = λ j. refl;
}
Reach-IsCache (next r s) = Step-IsCache s (Reach-IsCache r)
