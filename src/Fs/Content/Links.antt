-- ===== src/Fs/Content/Links.antt =====
-- The three places where `bmap` links a new block into a file.
use strace_xv.Base.{
  ltb, ◌==◌, if◌then◌else◌, Bool-cases, put, put_self, put_ne, ==_ne, ℕ, ◌+◌, ◌-◌, ◌*◌, ◌/◌, ◌%◌,
  ◌^◌, ◌≤◌, ◌<◌, ◌≡◌, refl, sym, ap, ◌∙◌, ◌≢◌, inl, inr, false, arith,
}
use strace_xv.Fs.{Superblock, Block, Disk, bit, bitmap_block}
use strace_xv.Fs.Bitmap.{used}
use strace_xv.Fs.Allocation.{Marked}
use strace_xv.Fs.Inode.{Inode, load_word, store_word}
use strace_xv.Fs.Inode.Words.{load_word-store_word, load_word-store_word_ne}
use strace_xv.Fs.Content.Slots.{slot, slot_far, IsFile, Added}

module _ (sb : Superblock) (ip : Inode) (d : Disk) (f : IsFile sb ip d) where
  -- An allocation leaves the blocks of the file alone.
  old_block :
      {a : ℕ} {d1 : Disk}
      → a < sb.size
      → used sb d a ≡ 0
      → Marked sb d a d1
      → (j : ℕ) → j ≤ 140
      → slot ip d j ≢ 0
      → d1 (slot ip d j) ≡ d (slot ip d j)
  old_block {a} l u m j h n =
      m.others (slot ip d j) (λ e. f.slot_used j h n (ap (used sb d) e ∙ u)) (f.slot_map j a h n l)

  slots_direct :
      (i a : ℕ) (d1 : Disk)
      → i < 12
      → (ip.addrs 12 ≢ 0 → d1 (ip.addrs 12) ≡ d (ip.addrs 12))
      → (j : ℕ)
      → slot (record ip { addrs = put ip.addrs i a }) d1 j ≡ (if j == i then a else slot ip d j)
  slots_direct i a d1 h e j =
      let i12 : (i == 12) ≡ false = ground arith in
      elim (Bool-cases (ltb j 12)) [
        | inl near ↦ ground arith
        | inr far ↦
            let other : (j == i) ≡ false = ground arith in
            elim (Bool-cases (ip.addrs 12 == 0)) [
              | inl none_there ↦ rw (far, other, i12, none_there) refl
              | inr there ↦
                  rw (far, other, i12, there)
                    (ap
                      (λ (b : Block). if j == 140 then ip.addrs 12 else load_word b (4 * (j - 12)))
                      (e (ground arith)))
            ]
      ]

  pub Added-direct :
      (i a : ℕ) (d1 : Disk)
      → i < 12
      → ip.addrs i ≡ 0
      → a < sb.size
      → used sb d a ≡ 0
      → Marked sb d a d1
      → Added sb ip d i a d1 (record ip { addrs = put ip.addrs i a }) d1
  Added-direct i a d1 h z l u m = record {
    inside = l;
    free = u;
    marked = m;
    part = omega arith;
    empty = ground arith;
    same = refl;
    slots = λ j t. slots_direct i a d1 h (old_block l u m 140 (omega arith)) j;
    map = λ j t. refl;
    old = λ j t n. old_block l u m j (omega arith) n;
    fresh = λ t. m.zeroed;
  }

  pub Added-own :
      (a : ℕ) (d1 : Disk)
      → ip.addrs 12 ≡ 0
      → a < sb.size
      → used sb d a ≡ 0
      → Marked sb d a d1
      → Added sb ip d 140 a d1 (record ip { addrs = put ip.addrs 12 a }) d1
  Added-own a d1 z l u m = record {
    inside = l;
    free = u;
    marked = m;
    part = omega arith;
    empty = z;
    same = refl;
    slots = λ j t. rw m.zeroed (ground arith);
    map = λ j t. refl;
    old = λ j t n. old_block l u m j (omega arith) n;
    fresh = λ t. absurd (omega arith);
  }

  -- A word of the indirect block is written.
  abbrev pub linked : Disk → ℕ → ℕ → Disk
  linked d1 i a = put d1 (ip.addrs 12) (store_word (d1 (ip.addrs 12)) (4 * i) a)

  slots_indirect :
      (i a : ℕ) (d1 : Disk)
      → i < 128
      → a < 2 ^ 32
      → ip.addrs 12 ≢ 0
      → d1 (ip.addrs 12) ≡ d (ip.addrs 12)
      → (j : ℕ) → j ≤ 140
      → slot ip (linked d1 i a) j ≡ (if j == i + 12 then a else slot ip d j)
  slots_indirect i a d1 h v there e j t = elim (Bool-cases (ltb j 12)) [
    | inl near ↦ rw (near, ==_ne j (i + 12) (ground arith)) refl
    | inr far ↦ elim (Bool-cases (j == 140)) [
      | inl last ↦ rw (far, last, ==_ne j (i + 12) (ground arith)) refl
      | inr some_word ↦
          let zero_no : (ip.addrs 12 == 0) ≡ false = ==_ne (ip.addrs 12) 0 there in
          elim (Bool-cases (j == i + 12)) [
            | inl this ↦
                let at : j - 12 ≡ i = ground arith in
                rw
                  (
                    far,
                    some_word,
                    zero_no,
                    this,
                    at,
                    put_self d1 (ip.addrs 12) (store_word (d1 (ip.addrs 12)) (4 * i) a),
                  )
                  (load_word-store_word (d1 (ip.addrs 12)) (4 * i) a v)
            | inr other ↦
                rw
                  (
                    far,
                    some_word,
                    zero_no,
                    other,
                    put_self d1 (ip.addrs 12) (store_word (d1 (ip.addrs 12)) (4 * i) a),
                    sym e,
                  )
                  (load_word-store_word_ne (d1 (ip.addrs 12)) (4 * i) a (4 * (j - 12))
                    (ground arith))
          ]
    ]
  ]

  pub Added-indirect :
      (i a : ℕ) (d1 : Disk)
      → i < 128
      → ip.addrs 12 ≢ 0
      → load_word (d (ip.addrs 12)) (4 * i) ≡ 0
      → a < sb.size
      → used sb d a ≡ 0
      → Marked sb d a d1
      → Added sb ip d (i + 12) a d1 ip (linked d1 i a)
  Added-indirect i a d1 h there z l u m =
      let word = store_word (d1 (ip.addrs 12)) (4 * i) a in
      record {
        inside = l;
        free = u;
        marked = m;
        part = omega arith;
        empty = slot_far ip d i h there ∙ z;
        same = refl;
        slots = λ j t.
            slots_indirect i a d1 h (omega (arith, f.laid.words)) there
              (old_block l u m 140 (omega arith) there) j t;
        map = λ j t.
            ap (λ (b : Block). bit (b (j % 4096 / 8)) (j % 4096 % 8))
              (put_ne d1 (ip.addrs 12) (bitmap_block sb j) word
                (f.slot_map 140 j (omega arith) there t));
        old = λ j t n.
            put_ne d1 (ip.addrs 12) (slot ip d j) word
              (λ e. absurd (omega (arith, f.apart j 140 (omega arith) (omega arith) n (sym e))))
            ∙ old_block l u m j (omega arith) n;
        fresh = λ t.
            put_ne d1 (ip.addrs 12) a word
              (λ e. f.slot_used 140 (omega arith) there (ap (used sb d) e ∙ u))
            ∙ m.zeroed;
      }
