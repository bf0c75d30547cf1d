-- ===== src/Fs/Bitmap.antt =====
-- The free map: `balloc` takes the first free block, and `bfree` gives one block back.
use strace_xv.Base.{
  ltb, ◌==◌, Bool-cases, put, put_self, ℕ, zero, suc, ◌+◌, ◌-◌, ◌*◌, ◌/◌, ◌%◌, ◌≤◌, ◌<◌, ◌≡◌, refl,
  sym, ap, ◌∙◌, subst, ◌≢◌, inl, inr, Option, none, some, arith,
}
use strace_xv.Fs.{
  block_bits, Superblock, Block, Disk, bit, bitmap_block, bzero, find_free, set_used, balloc_from,
  balloc,
}

-- The bit of the block `b`.
abbrev pub used : Superblock → Disk → ℕ → ℕ
used sb d b = bit (d (bitmap_block sb b) (b % block_bits / 8)) (b % block_bits % 8)

-- The blocks of the map are themselves in use.
abbrev pub MapUsed : Superblock → Disk → Type 0
MapUsed sb d = (b : ℕ) → b < sb.size → used sb d (bitmap_block sb b) ≢ 0

-- A byte of the map is written.
abbrev pub write_map : Superblock → Disk → ℕ → ℕ → Disk
write_map sb d b v = put d (bitmap_block sb b) (put (d (bitmap_block sb b)) (b % block_bits / 8) v)

pub used-write_map_self :
    (sb : Superblock) (d : Disk) (b v : ℕ)
    → used sb (write_map sb d b v) b ≡ bit v (b % block_bits % 8)
used-write_map_self sb d b v =
    rw
      (
        put_self d (bitmap_block sb b) (put (d (bitmap_block sb b)) (b % block_bits / 8) v),
        put_self (d (bitmap_block sb b)) (b % block_bits / 8) v,
      )
      refl

pub used-write_map_ne :
    (sb : Superblock) (d : Disk) (b v j : ℕ)
    → j ≢ b
    → ((k : ℕ)
        → b % block_bits % 8 ≢ k
        → bit v k ≡ bit (d (bitmap_block sb b) (b % block_bits / 8)) k)
    → used sb (write_map sb d b v) j ≡ used sb d j
used-write_map_ne sb d b v j h e = elim (Bool-cases (bitmap_block sb b == bitmap_block sb j)) [
  | inr far ↦ rw far refl
  | inl near ↦
      let same : bitmap_block sb b ≡ bitmap_block sb j = ground arith in
      elim (Bool-cases (b % block_bits / 8 == j % block_bits / 8)) [
        | inr far ↦ rw (near, far, same) refl
        | inl close ↦
            let byte : b % block_bits / 8 ≡ j % block_bits / 8 = ground arith in
            let other : b % block_bits % 8 ≢ j % block_bits % 8 = λ s. h (omega arith) in
            rw (near, close) (e (j % block_bits % 8) other ∙ rw (same, byte) refl)
      ]
]

module _ (size b : ℕ) (bytes : Block) where
  abbrev Taken : ℕ → Type 0
  Taken k = bit (bytes (k / 8)) (k % 8) ≢ 0

  data Found (bi left : ℕ) : Option ℕ → Type 0 where
    nothing : ((k : ℕ) → bi ≤ k → k < bi + left → b + k < size → Taken k) → Found bi left none
    first :
        (k : ℕ)
        → bi ≤ k
        → k < bi + left
        → b + k < size
        → bit (bytes (k / 8)) (k % 8) ≡ 0
        → ((j : ℕ) → bi ≤ j → j < k → Taken j)
        → Found bi left (some k)

  later : (bi left : ℕ) {o : Option ℕ} → Taken bi → Found (bi + 1) left o → Found bi (suc left) o
  later bi left t (nothing n) = nothing (λ k l u s. elim (Bool-cases (bi == k)) [
    | inl e ↦ subst Taken (ground arith) t
    | inr e ↦ n k (ground arith) (omega arith) s
  ])
  later bi left t (first k l u s z n) = first k (omega arith) (omega arith) s z (λ j m w.
      elim (Bool-cases (bi == j)) [
        | inl e ↦ subst Taken (ground arith) t
        | inr e ↦ n j (ground arith) w
      ])

  find_free-Found : (bi left : ℕ) → Found bi left (find_free size b bytes bi left)
  unfolding find_free
  find_free-Found bi zero = nothing (λ k l u s. absurd (omega arith))
  find_free-Found bi (suc left) = elim (Bool-cases (ltb (b + bi) size)) [
    | inr out ↦ rw out (nothing (λ k l u s. absurd (ground arith)))
    | inl within ↦ elim (Bool-cases (bit (bytes (bi / 8)) (bi % 8) == 0)) [
      | inl free ↦
          rw (within, free)
            (first bi (omega arith) (omega arith) (ground arith) (ground arith)
              (λ j l u. absurd (omega arith)))
      | inr taken ↦
          rw (within, taken) (later bi left (ground arith) (find_free-Found (bi + 1) left))
    ]
  ]

module _ (sb : Superblock) (d : Disk) where
  -- The result of an allocation from the block `b` on.
  pub data Allocated (b : ℕ) : Option (ℕ × Disk) → Type 0 where
    full : ((j : ℕ) → b ≤ j → j < sb.size → used sb d j ≢ 0) → Allocated b none
    took :
        (a : ℕ)
        → b ≤ a
        → a < sb.size
        → used sb d a ≡ 0
        → ((j : ℕ) → b ≤ j → j < a → used sb d j ≢ 0)
        → Allocated b (some (a, bzero (set_used sb d a) a))

  block_of :
      (b k : ℕ)
      → b % 4096 ≡ 0
      → k < 4096
      → used sb d (b + k) ≡ bit (d (bitmap_block sb b) (k / 8)) (k % 8)
  block_of b k m h =
      let q : (b + k) / 4096 ≡ b / 4096 = omega arith in
      let r : (b + k) % 4096 ≡ k = omega arith in rw (q, r) refl

  -- A map block is full from `b` on, so the search goes on in the next.
  next_block :
      (b : ℕ) {o : Option (ℕ × Disk)}
      → b % 4096 ≡ 0
      → ((k : ℕ)
          → 0 ≤ k
          → k < 0 + 4096
          → b + k < sb.size
          → bit (d (bitmap_block sb b) (k / 8)) (k % 8) ≢ 0)
      → Allocated (b + 4096) o
      → Allocated b o
  next_block b m n (full f) = full (λ j l s. elim (Bool-cases (ltb j (b + 4096))) [
    | inl near ↦ λ z.
        n (j - b) (omega arith) (ground arith) (ground arith)
          (sym (block_of b (j - b) m (ground arith)) ∙ ap (used sb d) (omega arith) ∙ z)
    | inr far ↦ f j (ground arith) s
  ])
  next_block b m n (took a l s z f) = took a (omega arith) s z (λ j l w.
      elim (Bool-cases (ltb j (b + 4096))) [
        | inl near ↦ λ z.
            n (j - b) (omega arith) (ground arith) (omega arith)
              (sym (block_of b (j - b) m (ground arith)) ∙ ap (used sb d) (omega arith) ∙ z)
        | inr far ↦ f j (ground arith) w
      ])

  this_block :
      (b k : ℕ)
      → b % 4096 ≡ 0
      → k < 4096
      → b + k < sb.size
      → bit (d (bitmap_block sb b) (k / 8)) (k % 8) ≡ 0
      → ((j : ℕ) → 0 ≤ j → j < k → bit (d (bitmap_block sb b) (j / 8)) (j % 8) ≢ 0)
      → Allocated b (some (b + k, bzero (set_used sb d (b + k)) (b + k)))
  this_block b k m u s z n = took (b + k) (omega arith) s (block_of b k m u ∙ z) (λ j l w t.
      n (j - b) (omega arith) (omega arith)
        (sym (block_of b (j - b) m (omega arith)) ∙ ap (used sb d) (omega arith) ∙ t))

  balloc_from-Allocated :
      (b fuel : ℕ)
      → b % 4096 ≡ 0
      → sb.size ≤ b + fuel * 4096
      → Allocated b (balloc_from sb d b fuel)
  unfolding balloc_from
  balloc_from-Allocated b zero m h = full (λ j l s. absurd (omega arith))
  balloc_from-Allocated b (suc fuel) m h =
      let rest : Allocated (b + 4096) (balloc_from sb d (b + 4096) fuel) =
        balloc_from-Allocated (b + 4096) fuel (omega arith) (omega arith) in
      elim (Bool-cases (ltb b sb.size)) [
        | inr out ↦ rw out (full (λ j l s. absurd (ground arith)))
        | inl within ↦
            rw within
              (step b fuel m rest (find_free-Found sb.size b (d (bitmap_block sb b)) 0 block_bits))
      ]
    where
      step :
          (b fuel : ℕ)
          → b % 4096 ≡ 0
          → Allocated (b + 4096) (balloc_from sb d (b + 4096) fuel)
          → {o : Option ℕ} → Found sb.size b (d (bitmap_block sb b)) 0 block_bits o
          → Allocated b (elim o [
            | none ↦ balloc_from sb d (b + 4096) fuel
            | some bi ↦ some (b + bi, bzero (set_used sb d (b + bi)) (b + bi))
          ])
      step b fuel m rest (nothing n) = next_block b m n rest
      step b fuel m rest (first k l u s z n) = this_block b k m u s z n

  -- `balloc` panics only if every block is in use; else it takes the first block that is not.
  pub balloc-Allocated : Allocated 0 (balloc sb d)
  unfolding balloc
  balloc-Allocated = balloc_from-Allocated 0 (sb.size / block_bits + 1) (omega arith) (omega arith)
