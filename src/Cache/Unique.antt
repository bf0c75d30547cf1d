-- ===== src/Cache/Unique.antt =====
-- The block that bget answers is in one buffer.
use strace_xv.Base.{
  ◌==◌, if◌then◌else◌, Bool-cases, Option-cases, occurs, ℕ, ◌+◌, ◌≤◌, ◌<◌, ◌≡◌, refl, subst, inl,
  inr, false, ◌&&◌, not, some, List, [], ◌∷◌, arith,
}
use strace_xv.Cache.{
  no_device, Buf, is_for, Cached, absent, is_busy, taken, behind, find_cached, recycled, recycle,
  got, bget,
}

-- How many buffers hold the block.
abbrev pub holders : ℕ → ℕ → List Buf → ℕ
holders dev blockno [] = 0
holders dev blockno (b ∷ bs) = (if is_for dev blockno b then 1 else 0) + holders dev blockno bs

abbrev pub ids : List Buf → List ℕ
ids [] = []
ids (b ∷ bs) = b.id ∷ ids bs

-- The first loop, by its outcome.
pub data Finds (dev blockno : ℕ) (bs : List Buf) : Cached → Type 0 where
  finds_none : holders dev blockno bs ≡ 0 → Finds dev blockno bs absent
  finds_busy : Finds dev blockno bs is_busy
  finds :
      {i : ℕ} {bs' : List Buf}
      → ((d k : ℕ) → holders d k bs' ≡ holders d k bs)
      → ((j : ℕ) → occurs j (ids bs') ≡ occurs j (ids bs))
      → 0 < holders dev blockno bs
      → Finds dev blockno bs (taken i bs')

Finds-behind :
    {dev blockno : ℕ} {b : Buf} {bs : List Buf} {c : Cached}
    → is_for dev blockno b ≡ false
    → Finds dev blockno bs c
    → Finds dev blockno (b ∷ bs) (behind b c)
Finds-behind e (finds_none z) = finds_none (ground arith)
Finds-behind e finds_busy = finds_busy
Finds-behind e (finds same keep h) =
    finds (λ d k. omega (arith, same d k)) (λ j. omega (arith, keep j)) (ground arith)

find_cached_lem :
    (dev blockno : ℕ) (bs : List Buf) → Finds dev blockno bs (find_cached dev blockno bs)
unfolding find_cached
find_cached_lem dev blockno [] = finds_none refl
find_cached_lem dev blockno (b ∷ bs) = elim (Bool-cases (is_for dev blockno b)) [
  | inl e ↦ elim (Bool-cases (not b.busy)) [
    | inl f ↦ rw (find_cached, e, f) (finds (λ d k. refl) (λ j. refl) (ground arith))
    | inr f ↦ rw (find_cached, e, f) finds_busy
  ]
  | inr e ↦ rw (find_cached, e) (Finds-behind e (find_cached_lem dev blockno bs))
]

-- The second loop: only the block of the call gets one more buffer.
pub record Recycles (dev blockno : ℕ) (bs bs' : List Buf) : Type 0 where
  pub most :
      (d k : ℕ) → holders d k bs' ≤ holders d k bs + (if (dev == d) && (blockno == k) then 1 else 0)
  pub held : 0 < holders dev blockno bs'
  pub keep : (j : ℕ) → occurs j (ids bs') ≡ occurs j (ids bs)

Recycles-this :
    (dev blockno : ℕ) (b : Buf) (bs : List Buf)
    → Recycles dev blockno (b ∷ bs) (recycled dev blockno b ∷ bs)
Recycles-this dev blockno b bs = record {
  most = λ d k. ground arith;
  held = ground arith;
  keep = λ j. refl;
}

Recycles-later :
    {dev blockno : ℕ} (b : Buf) {bs cs : List Buf}
    → Recycles dev blockno bs cs
    → Recycles dev blockno (b ∷ bs) (b ∷ cs)
Recycles-later b r = record {
  most = λ d k. omega (arith, r.most d k);
  held = omega (arith, r.held);
  keep = λ j. omega (arith, r.keep j);
}

recycle_lem :
    (dev blockno : ℕ) (bs : List Buf) {i : ℕ} {bs' : List Buf}
    → recycle dev blockno bs ≡ some (i, bs')
    → Recycles dev blockno bs bs'
unfolding recycle
recycle_lem dev blockno [] e = ground arith
recycle_lem dev blockno (b ∷ bs) {i} {bs'} e = elim (Option-cases (recycle dev blockno bs)) [
  | inl q ↦
      let is : recycled dev blockno b ∷ bs ≡ bs' = ground arith in
      subst (Recycles dev blockno (b ∷ bs)) is (Recycles-this dev blockno b bs)
  | inr ((k, cs), q) ↦
      let is : b ∷ cs ≡ bs' = ground arith in
      subst (Recycles dev blockno (b ∷ bs)) is (Recycles-later b (recycle_lem dev blockno bs q))
]

-- Each block of a device is in at most one buffer.
abbrev pub IsUnique : List Buf → Type 0
IsUnique bs = (d k : ℕ) → d < no_device → holders d k bs ≤ 1

-- What a `bget` that returns did.
pub record Gets (dev blockno : ℕ) (bs bs' : List Buf) : Type 0 where
  pub unique : IsUnique bs'
  pub held : holders dev blockno bs' ≡ 1
  pub keep : (j : ℕ) → occurs j (ids bs') ≡ occurs j (ids bs)

Gets-recycled :
    {dev blockno : ℕ} {bs cs : List Buf}
    → dev < no_device
    → IsUnique bs
    → Recycles dev blockno bs cs
    → holders dev blockno bs ≡ 0
    → Gets dev blockno bs cs
Gets-recycled {dev} {blockno} {bs} {cs} l u r z = record {
  unique = λ d k h. elim (Bool-cases ((dev == d) && (blockno == k))) [
    | inl e ↦
        let same_dev : dev ≡ d = ground arith in
        let same_block : blockno ≡ k = ground arith in
        let none_yet : holders d k bs ≡ 0 =
          subst (λ d. holders d k bs ≡ 0) same_dev
            (subst (λ k. holders dev k bs ≡ 0) same_block z) in
        ground (arith, r.most d k)
    | inr e ↦ ground (arith, r.most d k, u d k h)
  ];
  held = ground (arith, r.most dev blockno, r.held);
  keep = r.keep;
}

-- If each block is in at most one buffer, that is so behind a `bget` that returns, exactly one
-- buffer holds the block that was asked for, and the buffers are the same.
pub bget_lem :
    (dev blockno : ℕ) (bs : List Buf) {i : ℕ} {bs' : List Buf}
    → dev < no_device
    → IsUnique bs
    → bget dev blockno bs ≡ got i bs'
    → Gets dev blockno bs bs'
unfolding bget
bget_lem dev blockno bs {i} {bs'} l u e = go (find_cached_lem dev blockno bs) refl
  where
    go :
        {c : Cached}
        → Finds dev blockno bs c
        → find_cached dev blockno bs ≡ c
        → Gets dev blockno bs bs'
    go (finds_none z) q = elim (Option-cases (recycle dev blockno bs)) [
      | inl r ↦ ground arith
      | inr ((k, cs), r) ↦
          let is : cs ≡ bs' = ground arith in
          let new = recycle_lem dev blockno bs r in
          subst (Gets dev blockno bs) is (Gets-recycled l u new z)
    ]
    go finds_busy q = ground arith
    go (finds {i = k} {bs' = cs} same keep h) q =
        let is : cs ≡ bs' = ground arith in
        subst (Gets dev blockno bs) is (record {
          unique = λ d k h. omega (arith, same d k, u d k h);
          held = omega (arith, same dev blockno, u dev blockno l, h);
          keep = keep;
        })
