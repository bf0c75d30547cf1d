-- ===== src/Fs/Content/Writes.antt =====
-- A write of one block of the disk, as a file sees it.
use strace_xv.Base.{
  ltb, ◌==◌, if◌then◌else◌, Bool-cases, put, put_ne, ℕ, ◌-◌, ◌*◌, ◌/◌, ◌%◌, ◌<◌, ◌≡◌, refl, sym, ap,
  ◌∙◌, ◌≢◌, inl, inr, arith,
}
use strace_xv.Fs.{Superblock, Block, Disk, bit, bitmap_block}
use strace_xv.Fs.Bitmap.{used}
use strace_xv.Fs.Inode.{Inode, load_word, inode_block}
use strace_xv.Fs.Content.Slots.{slot, byte, IsFile}

module _ (sb : Superblock) (ip : Inode) (d : Disk) (f : IsFile sb ip d) (x : ℕ) (b : Block)
    (off_map : (j : ℕ) → j < sb.size → x ≢ bitmap_block sb j)
    (off_links : ip.addrs 12 ≢ 0 → x ≢ ip.addrs 12) where
  pub used-put : (j : ℕ) → j < sb.size → used sb (put d x b) j ≡ used sb d j
  used-put j h =
      ap (λ (c : Block). bit (c (j % 4096 / 8)) (j % 4096 % 8))
        (put_ne d x (bitmap_block sb j) b (off_map j h))

  pub slot-put : (k : ℕ) → slot ip (put d x b) k ≡ slot ip d k
  slot-put k = elim (Bool-cases (ip.addrs 12 == 0)) [
    | inl z ↦ rw z refl
    | inr n ↦
        ap
          (λ (c : Block).
            if ltb k 12
            then ip.addrs k
            else if k == 140
            then ip.addrs 12
            else if ip.addrs 12 == 0
            then 0
            else load_word c (4 * (k - 12)))
          (put_ne d x (ip.addrs 12) b (off_links (ground arith)))
  ]

  pub IsFile-put : IsFile sb ip (put d x b)
  IsFile-put = record {
    laid = record {
      words = f.laid.words;
      map_size = f.laid.map_size;
      map = λ j h z. f.laid.map j h (sym (used-put (bitmap_block sb j) (f.laid.map_size j h)) ∙ z);
      boot = λ z. f.laid.boot (sym (used-put 0 (omega (arith, f.laid.home_size))) ∙ z);
      home_size = f.laid.home_size;
      home = λ z. f.laid.home (sym (used-put (inode_block sb ip.inum) f.laid.home_size) ∙ z);
      home_map = f.laid.home_map;
    };
    slot_size = λ k h. rw (slot-put k) (f.slot_size k h);
    slot_used = λ k h.
        rw (slot-put k)
          (λ n z. f.slot_used k h n (sym (used-put (slot ip d k) (f.slot_size k h n)) ∙ z));
    slot_map = λ k j h. rw (slot-put k) (f.slot_map k j h);
    slot_home = λ k h. rw (slot-put k) (f.slot_home k h);
    apart = λ i k h l. rw (slot-put i, slot-put k) (f.apart i k h l);
  }

  pub byte-put :
      (k p : ℕ) → (slot ip d k ≢ 0 → x ≢ slot ip d k) → byte ip (put d x b) k p ≡ byte ip d k p
  byte-put k p h = rw (slot-put k) (elim (Bool-cases (slot ip d k == 0)) [
    | inl z ↦ rw z refl
    | inr n ↦ rw n (ap (λ (c : Block). c p) (put_ne d x (slot ip d k) b (h (ground arith))))
  ])
