-- ===== src/Fs/Allocation.antt =====
-- What `balloc` and `bfree` do to the disk and its free map.
use strace_xv.Base.{
  ◌==◌, Bool-cases, put, put_self, put_ne, ℕ, ◌/◌, ◌%◌, ◌<◌, ◌≡◌, refl, sym, ap, ◌∙◌, subst, ◌≢◌,
  inl, inr, Option, none, some, arith,
}
use strace_xv.Fs.{
  block_bits, Superblock, Disk, zero_block, set_bit, clear_bit, bitmap_block, bzero, set_used,
  balloc, bfree,
}
use strace_xv.Fs.Bits.{bit-set_bit, bit-set_bit_ne, bit-clear_bit, bit-clear_bit_ne}
use strace_xv.Fs.Bitmap.{
  used, MapUsed, write_map, used-write_map_self, used-write_map_ne, Allocated, balloc-Allocated,
}

-- What an allocation of the block `a` does to the disk.
pub record Marked (sb : Superblock) (d : Disk) (a : ℕ) (d' : Disk) : Type 0 where
  pub mark : used sb d' a ≡ 1
  pub kept : (j : ℕ) → j < sb.size → j ≢ a → used sb d' j ≡ used sb d j
  pub zeroed : d' a ≡ zero_block
  pub others : (c : ℕ) → c ≢ a → c ≢ bitmap_block sb a → d' c ≡ d c

-- What the end of the block `b` does.
pub record Freed (sb : Superblock) (d : Disk) (b : ℕ) (d' : Disk) : Type 0 where
  pub mark : used sb d' b ≡ 0
  pub kept : (j : ℕ) → j ≢ b → used sb d' j ≡ used sb d j
  pub others : (c : ℕ) → c ≢ bitmap_block sb b → d' c ≡ d c

module _ (sb : Superblock) (d : Disk) (map : MapUsed sb d) where
  outside_map : (a j : ℕ) → used sb d a ≡ 0 → j < sb.size → a ≢ bitmap_block sb j
  outside_map a j z s e = map j s (ap (used sb d) (sym e) ∙ z)

  used-bzero :
      (a : ℕ) (d' : Disk) (j : ℕ)
      → used sb d a ≡ 0
      → j < sb.size
      → used sb (bzero d' a) j ≡ used sb d' j
  used-bzero a d' j z s = rw (put_ne d' a (bitmap_block sb j) zero_block (outside_map a j z s)) refl

  pub Marked-set_used :
      (a : ℕ) → a < sb.size → used sb d a ≡ 0 → Marked sb d a (bzero (set_used sb d a) a)
  Marked-set_used a s z = record {
    mark =
        used-bzero a (set_used sb d a) a z s
        ∙ used-write_map_self sb d a
            (set_bit (d (bitmap_block sb a) (a % block_bits / 8)) (a % block_bits % 8))
        ∙ bit-set_bit (d (bitmap_block sb a) (a % block_bits / 8)) (a % block_bits % 8);
    kept = λ j u h.
        used-bzero a (set_used sb d a) j z u
        ∙ used-write_map_ne sb d a
            (set_bit (d (bitmap_block sb a) (a % block_bits / 8)) (a % block_bits % 8)) j h
            (λ k n.
              bit-set_bit_ne (d (bitmap_block sb a) (a % block_bits / 8)) (a % block_bits % 8) k n);
    zeroed = put_self (set_used sb d a) a zero_block;
    others = λ c h m.
        put_ne (set_used sb d a) a c zero_block (λ e. h (sym e))
        ∙ put_ne d (bitmap_block sb a) c
            (put (d (bitmap_block sb a)) (a % block_bits / 8)
              (set_bit (d (bitmap_block sb a) (a % block_bits / 8)) (a % block_bits % 8)))
            (λ e. m (sym e));
  }

pub Freed-clear :
    (sb : Superblock) (d : Disk) (b : ℕ)
    → Freed sb d b (
        write_map sb d b
          (clear_bit (d (bitmap_block sb b) (b % block_bits / 8)) (b % block_bits % 8)))
Freed-clear sb d b = record {
  mark =
      used-write_map_self sb d b
        (clear_bit (d (bitmap_block sb b) (b % block_bits / 8)) (b % block_bits % 8))
      ∙ bit-clear_bit (d (bitmap_block sb b) (b % block_bits / 8)) (b % block_bits % 8);
  kept = λ j h.
      used-write_map_ne sb d b
        (clear_bit (d (bitmap_block sb b) (b % block_bits / 8)) (b % block_bits % 8)) j h
        (λ k n.
          bit-clear_bit_ne (d (bitmap_block sb b) (b % block_bits / 8)) (b % block_bits % 8) k n);
  others = λ c h.
      put_ne d (bitmap_block sb b) c
        (put (d (bitmap_block sb b)) (b % block_bits / 8)
          (clear_bit (d (bitmap_block sb b) (b % block_bits / 8)) (b % block_bits % 8)))
        (λ e. h (sym e));
}

-- `bfree` of a block in use clears its bit alone, and of a free block panics.
pub data Bfree (sb : Superblock) (d : Disk) (b : ℕ) : Option Disk → Type 0 where
  free_block : used sb d b ≡ 0 → Bfree sb d b none
  freed : (d' : Disk) → used sb d b ≢ 0 → Freed sb d b d' → Bfree sb d b (some d')

pub bfree-Bfree : (sb : Superblock) (d : Disk) (b : ℕ) → Bfree sb d b (bfree sb d b)
unfolding bfree
bfree-Bfree sb d b = elim (Bool-cases (used sb d b == 0)) [
  | inl z ↦ rw z (free_block (ground arith))
  | inr u ↦ rw u (freed _ (ground arith) (Freed-clear sb d b))
]

-- `balloc`, with what it does to the disk: it panics exactly if no block is free.
pub data Balloc (sb : Superblock) (d : Disk) : Option (ℕ × Disk) → Type 0 where
  full : ((j : ℕ) → j < sb.size → used sb d j ≢ 0) → Balloc sb d none
  took :
      (a : ℕ) (d' : Disk)
      → a < sb.size
      → used sb d a ≡ 0
      → ((j : ℕ) → j < a → used sb d j ≢ 0)
      → Marked sb d a d'
      → Balloc sb d (some (a, d'))

-- `balloc` panics exactly if no block is free. Else it takes the first block that is free, marks it
-- in use, clears it, and changes no other bit of the map and no other block, so long as the blocks
-- of the map are in use.
pub balloc-Balloc : (sb : Superblock) (d : Disk) → MapUsed sb d → Balloc sb d (balloc sb d)
balloc-Balloc sb d map = go (balloc-Allocated sb d)
  where
    go : {o : Option (ℕ × Disk)} → Allocated sb d 0 o → Balloc sb d o
    go (Allocated.full f) = full (λ j s. f j (omega arith) s)
    go (Allocated.took a l s z f) =
        took a _ s z (λ j w. f j (omega arith) w) (Marked-set_used sb d map a s z)

-- A block that was allocated can be freed, which leaves the map as it was before.
pub bfree-balloc :
    (sb : Superblock) (d : Disk) {a : ℕ} {d1 : Disk}
    → MapUsed sb d
    → balloc sb d ≡ some (a, d1)
    → (d2 : Disk) × (bfree sb d1 a ≡ some d2) × ((j : ℕ) → j < sb.size → used sb d2 j ≡ used sb d j)
bfree-balloc sb d {a} {d1} map e = go (balloc-Balloc sb d map) e
  where
    back :
        {o : Option Disk}
        → used sb d a ≡ 0
        → Marked sb d a d1
        → Bfree sb d1 a o
        → (d2 : Disk) × (o ≡ some d2) × ((j : ℕ) → j < sb.size → used sb d2 j ≡ used sb d j)
    back z m (free_block f) = absurd (ground (arith, m.mark))
    back z m (freed d2 u f) = (
      d2,
      refl,
      λ j s. elim (Bool-cases (j == a)) [
        | inl same ↦ let j' : j ≡ a = ground arith in rw j' (f.mark ∙ sym z)
        | inr other ↦ f.kept j (ground arith) ∙ m.kept j s (ground arith)
      ],
    )

    go :
        {o : Option (ℕ × Disk)}
        → Balloc sb d o
        → o ≡ some (a, d1)
        → (d2 : Disk) × (bfree sb d1 a ≡ some d2)
          × ((j : ℕ) → j < sb.size → used sb d2 j ≡ used sb d j)
    go (full f) e = absurd (cc)
    go (took a' d' s z f m) e =
        let a≡ : a' ≡ a = cc in
        let d≡ : d' ≡ d1 = cc in
        back (ap (used sb d) (sym a≡) ∙ z)
          (subst (λ x. Marked sb d a x) d≡ (subst (λ x. Marked sb d x d') a≡ m))
          (bfree-Bfree sb d1 a)
