-- ===== src/Fs/Content/Bmap.antt =====
-- `bmap` finds or allocates a block and keeps the content of the file.
use strace_xv.Base.{
  ltb, ◌==◌, lt→ltb, Bool-cases, ◌>>=◌, put, ==_ne, ℕ, ◌+◌, ◌-◌, ◌*◌, ◌≤◌, ◌<◌, ◌≡◌, refl, sym, ◌∙◌,
  subst, ◌≢◌, inl, inr, true, false, Option, none, some, arith,
}
use strace_xv.Fs.{Superblock, Disk}
use strace_xv.Fs.Bitmap.{used}
use strace_xv.Fs.Allocation.{Marked, Balloc, balloc-Balloc}
use strace_xv.Fs.Inode.{Inode, load_word, store_word}
use strace_xv.Fs.Content.{own_block, indirect_block, bmap}
use strace_xv.Fs.Content.Slots.{
  slot, slot_far, IsFile, Keeps, Keeps-refl, Keeps-trans, Added, Keeps-grown, at_new, new_ne,
}
use strace_xv.Fs.Content.Links.{Added-direct, Added-own, Added-indirect}

-- What an allocation for the part `k` comes to, which is made if there is no block yet.
data Got (sb : Superblock) (ip : Inode) (d : Disk) (k : ℕ)
    : Option (ℕ × Inode × Disk) → Type 0 where
  full : slot ip d k ≡ 0 → ((j : ℕ) → j < sb.size → used sb d j ≢ 0) → Got sb ip d k none
  got :
      (a new : ℕ) (ip' : Inode) (d' : Disk)
      → slot ip' d' k ≡ a
      → a ≢ 0
      → Keeps sb ip d ip' d'
      → ((j : ℕ) → j < sb.size → j ≢ new → used sb d' j ≡ used sb d j)
      → Got sb ip d k (some (a, ip', d'))

module _ (sb : Superblock) (ip : Inode) (d : Disk) (f : IsFile sb ip d) where
  -- A block that was allocated, as `balloc` answers, and linked.
  allocated :
      (k : ℕ) (z : slot ip d k ≡ 0) (g : ℕ × Disk → ℕ × Inode × Disk) {o : Option (ℕ × Disk)}
      → Balloc sb d o
      → ((a : ℕ) (d1 : Disk)
          → a < sb.size
          → used sb d a ≡ 0
          → Marked sb d a d1
          → Added sb ip d k a d1 (g (a, d1)).1 (g (a, d1)).2)
      → ((a : ℕ) (d1 : Disk) → (g (a, d1)).0 ≡ a)
      → Got sb ip d k (o >>= λ x. some (g x))
  allocated k z g (Balloc.full n) h e = full z n
  allocated k z g (Balloc.took a d1 l u n m) h e =
      let s = h a d1 l u m in
      got (g (a, d1)).0 a (g (a, d1)).1 (g (a, d1)).2 (at_new sb ip d f s ∙ sym (e a d1))
        (λ t. new_ne sb ip d f s (sym (e a d1) ∙ t)) (Keeps-grown sb ip d f s)
        (λ j t o. s.map j t ∙ m.kept j t o)

  own_block-direct : (i : ℕ) → i < 12 → Got sb ip d i (own_block sb ip i d)
  unfolding own_block
  own_block-direct i h = elim (Bool-cases (ip.addrs i == 0)) [
    | inl z ↦ rw z (
        allocated i (rw (lt→ltb i 12 h) (ground arith))
          (λ x. (x.0, record ip { addrs = put ip.addrs i x.0 }, x.1))
          (balloc-Balloc sb d f.laid.map)
          (λ a d1 l u m. Added-direct sb ip d f i a d1 h (ground arith) l u m) (λ a d1. refl))
    | inr n ↦
        let there : ip.addrs i ≢ 0 = ground arith in
        rw n (
          got (ip.addrs i) 0 ip d (rw (lt→ltb i 12 h) refl) there (Keeps-refl sb ip d f)
            (λ j t o. refl))
  ]

  own_block-own : Got sb ip d 140 (own_block sb ip 12 d)
  unfolding own_block
  own_block-own = elim (Bool-cases (ip.addrs 12 == 0)) [
    | inl z ↦ rw z (
        allocated 140 (ground arith) (λ x. (x.0, record ip { addrs = put ip.addrs 12 x.0 }, x.1))
          (balloc-Balloc sb d f.laid.map)
          (λ a d1 l u m. Added-own sb ip d f a d1 (ground arith) l u m) (λ a d1. refl))
    | inr n ↦
        let there : ip.addrs 12 ≢ 0 = ground arith in
        rw n (got (ip.addrs 12) 0 ip d refl there (Keeps-refl sb ip d f) (λ j t o. refl))
  ]

  indirect_block-Got :
      (i : ℕ)
      → i < 128
      → ip.addrs 12 ≢ 0
      → Got sb ip d (i + 12) (indirect_block sb ip (ip.addrs 12) i d)
  unfolding indirect_block
  indirect_block-Got i h there = elim (Bool-cases (load_word (d (ip.addrs 12)) (4 * i) == 0)) [
    | inl z ↦ rw z (
        allocated (i + 12) (slot_far ip d i h there ∙ ground arith)
          (λ x. (x.0, ip, put x.1 (ip.addrs 12) (store_word (x.1 (ip.addrs 12)) (4 * i) x.0)))
          (balloc-Balloc sb d f.laid.map)
          (λ a d1 l u m. Added-indirect sb ip d f i a d1 h there (ground arith) l u m)
          (λ a d1. refl))
    | inr n ↦
        let set : load_word (d (ip.addrs 12)) (4 * i) ≢ 0 = ground arith in
        rw n (
          got (load_word (d (ip.addrs 12)) (4 * i)) 0 ip d (slot_far ip d i h there) set
            (Keeps-refl sb ip d f) (λ j t o. refl))
  ]

-- What `bmap` of the part `k` comes to: a panic only if that part has no block yet and at most one
-- block of the disk is free, else the block of that part, with all content kept.
pub data Mapped (sb : Superblock) (ip : Inode) (d : Disk) (k : ℕ)
    : Option (ℕ × Inode × Disk) → Type 0 where
  out_of_blocks :
      (empty : slot ip d k ≡ 0) (spare : ℕ)
      → ((j : ℕ) → j < sb.size → j ≢ spare → used sb d j ≢ 0)
      → Mapped sb ip d k none
  found :
      (a : ℕ) (ip' : Inode) (d' : Disk)
      → slot ip' d' k ≡ a
      → a ≢ 0
      → Keeps sb ip d ip' d'
      → Mapped sb ip d k (some (a, ip', d'))

module _ (sb : Superblock) (ip : Inode) (d : Disk) where
  Mapped-Got : {k : ℕ} {o : Option (ℕ × Inode × Disk)} → Got sb ip d k o → Mapped sb ip d k o
  Mapped-Got (full z n) = out_of_blocks z 0 (λ j l o. n j l)
  Mapped-Got (got a new ip' d' e n k u) = found a ip' d' e n k

  behind :
      (k : ℕ) {ip1 : Inode} {d1 : Disk} {o : Option (ℕ × Inode × Disk)} (new : ℕ)
      → k ≤ 140
      → Keeps sb ip d ip1 d1
      → ((j : ℕ) → j < sb.size → j ≢ new → used sb d1 j ≡ used sb d j)
      → Got sb ip1 d1 k o
      → Mapped sb ip d k o
  behind k new h s u (full z n) =
      out_of_blocks
        (elim (Bool-cases (slot ip d k == 0)) [
          | inl e ↦ ground arith
          | inr e ↦ absurd (let n : slot ip d k ≢ 0 = ground arith in n (sym (s.slots k h n) ∙ z))
        ])
        new (λ j l o z. n j l (u j l o ∙ z))
  behind k new h s u (got a other ip' d' e n t w) = found a ip' d' e n (Keeps-trans s t)

  indirect-Mapped :
      (i : ℕ) {o : Option (ℕ × Inode × Disk)}
      → i < 128
      → Got sb ip d 140 o
      → Mapped sb ip d (i + 12) (o >>= λ (addr, ip', d'). indirect_block sb ip' addr i d')
  indirect-Mapped i h (full z n) =
      out_of_blocks
        (let far : ltb (i + 12) 12 ≡ false = ground arith in
          let z' : (ip.addrs 12 == 0) ≡ true = ground arith in
          rw (far, ==_ne (i + 12) 140 (omega arith), z') refl)
        0 (λ j l o. n j l)
  indirect-Mapped i h (got a new ip' d' e n s u) = rw (sym e) (
      behind (i + 12) new (omega arith) s u
        (indirect_block-Got sb ip' d' s.file i h (λ z. n (sym e ∙ z))))

  -- Let the blocks of a file be distinct, in use and apart from the map and the block of its own
  -- inode, and the log have room. Then `bmap` finds the block of the part `bn` below 140, or
  -- allocates it, which changes no byte of the file, and keeps its blocks so; a part gets a block only
  -- if that was free before, and no block becomes free. It panics only if that part has no block yet
  -- and at most one block of the disk is free.
  pub bmap-Mapped : (bn : ℕ) → IsFile sb ip d → bn < 140 → Mapped sb ip d bn (bmap sb ip bn d)
  unfolding bmap
  bmap-Mapped bn f h = elim (Bool-cases (ltb bn 12)) [
    | inl near ↦ rw near (Mapped-Got (own_block-direct sb ip d f bn (ground arith)))
    | inr far ↦
        let e : bn - 12 + 12 ≡ bn = ground arith in
        rw (far, lt→ltb (bn - 12) 128 (omega arith))
          (subst
            (λ k.
              Mapped sb ip d k (
                own_block sb ip 12 d >>= λ (addr, ip', d').
                indirect_block sb ip' addr (bn - 12) d'))
            e (indirect-Mapped (bn - 12) (omega arith) (own_block-own sb ip d f)))
  ]
