-- ===== src/Fs/Content/Truncated.antt =====
-- `itrunc` frees exactly the blocks of a file.
use strace_xv.Base.{
  ◌==◌, Bool-cases, occurs, put, put_self, put_ne, ℕ, ◌/◌, ◌%◌, ◌≤◌, ◌<◌, ◌≡◌, refl, sym, ap, ◌∙◌,
  subst, ◌≢◌, inl, inr, some, arith,
}
use strace_xv.Fs.{Superblock, Block, Disk, bit, bitmap_block}
use strace_xv.Fs.Bitmap.{used}
use strace_xv.Fs.Inode.{Inode, inode_block, store_inode, inode_at, iupdate}
use strace_xv.Fs.Content.{itrunc}
use strace_xv.Fs.Content.Slots.{slot, IsFile}
use strace_xv.Fs.Content.Frees.{
  free_all, Frees, free_all-Frees, parts-named, parts-there, parts-once,
}
use strace_xv.Fs.Content.Trunc.{
  file_blocks, finish, cleared, cleared-Clear, itrunc-direct, itrunc-far,
}

-- What `itrunc` leaves.
pub record Truncated (sb : Superblock) (ip : Inode) (d : Disk) (ip' : Inode) (d' : Disk)
    : Type 0 where
  pub size : ip'.size ≡ 0
  pub addrs : (k : ℕ) → k < 13 → ip'.addrs k ≡ 0
  pub same : ip' ≡ record ip { size = 0; addrs = ip'.addrs }
  pub freed : (k : ℕ) → k ≤ 140 → slot ip d k ≢ 0 → used sb d' (slot ip d k) ≡ 0
  pub kept :
      (b : ℕ) → b < sb.size → ((k : ℕ) → k ≤ 140 → slot ip d k ≢ b) → used sb d' b ≡ used sb d b
  pub others :
      (c : ℕ)
      → c ≢ inode_block sb ip.inum
      → ((j : ℕ) → j < sb.size → c ≢ bitmap_block sb j)
      → d' c ≡ d c

module _ (sb : Superblock) (ip : Inode) (d : Disk) (f : IsFile sb ip d) where
  blocks-freed :
      (d2 : Disk) × (free_all sb d (file_blocks ip d) ≡ some d2) × Frees sb d (file_blocks ip d) d2
  blocks-freed =
      free_all-Frees sb d (file_blocks ip d)
        (λ b. parts-once (slot ip d) 0 141 b (λ j k l u. f.apart j k (omega arith) (omega arith)))
        (λ b o.
          let (k, l, u, e, n) = parts-named (slot ip d) 0 141 b o in
          subst (λ x. x < sb.size) e (f.slot_size k (omega arith) (λ z. n (sym e ∙ z))))
        (λ b o.
          let (k, l, u, e, n) = parts-named (slot ip d) 0 141 b o in
          subst (λ x. used sb d x ≢ 0) e (f.slot_used k (omega arith) (λ z. n (sym e ∙ z))))

  truncated :
      (ip1 : Inode) (d2 : Disk)
      → ((k : ℕ) → k < 13 → ip1.addrs k ≡ 0)
      → ip1 ≡ record ip { addrs = ip1.addrs }
      → Frees sb d (file_blocks ip d) d2
      → Truncated sb ip d (finish sb ip1 d2).0 (finish sb ip1 d2).1
  unfolding iupdate
  truncated ip1 d2 z s g =
      let done = record ip1 { size = 0 } in
      let home = inode_block sb ip1.inum in
      let inum≡ : ip1.inum ≡ ip.inum = ap (λ (x : Inode). x.inum) s in
      let stored = store_inode (d2 home) (inode_at ip1.inum) done in
      let map = λ (j : ℕ) (h : j < sb.size).
        let e : used sb (put d2 home stored) j ≡ used sb d2 j =
          ap (λ (c : Block). bit (c (j % 4096 / 8)) (j % 4096 % 8))
            (put_ne d2 home (bitmap_block sb j) stored (
              subst (λ x. inode_block sb x ≢ bitmap_block sb j) (sym inum≡)
                (f.laid.home_map j h))) in
        e in
      record {
        size = refl;
        addrs = z;
        same = ap (λ (x : Inode). record x { size = 0 }) s;
        freed = λ k h n.
            map (slot ip d k) (f.slot_size k h n)
            ∙ g.gone (slot ip d k) (parts-there (slot ip d) 0 141 k (omega arith) (omega arith) n);
        kept = λ b h n.
            map b h
            ∙ g.kept b (elim (Bool-cases (occurs b (file_blocks ip d) == 0)) [
              | inl e ↦ ground arith
              | inr o ↦
                  let (k, l, u, e, t) = parts-named (slot ip d) 0 141 b (ground arith) in
                  absurd (n k (omega arith) e)
            ]);
        others = λ c h m.
            put_ne d2 home c stored (λ e. h (sym e ∙ ap (inode_block sb) inum≡)) ∙ g.others c m;
      }

  -- `itrunc` of a file does not panic, frees exactly the blocks of the file, and leaves it without
  -- blocks and with size 0; no block of the disk changes but those of the map and of the inode.
  pub itrunc-Truncated : (s : Inode × Disk) × (itrunc sb ip d ≡ some s) × Truncated sb ip d s.0 s.1
  itrunc-Truncated =
      let (d2, e, g) = blocks-freed in
      let c = cleared-Clear 0 12 ip in
      elim (Bool-cases (ip.addrs 12 == 0)) [
        | inl z ↦
            let z' : ip.addrs 12 ≡ 0 = ground arith in
            (
              finish sb (cleared 0 12 ip) d2,
              itrunc-direct sb ip d f z' ∙ rw e refl,
              truncated (cleared 0 12 ip) d2
                  (λ k h. elim (Bool-cases (k == 12)) [
                    | inl q ↦
                        let q' : k ≡ 12 = ground arith in
                        ap (cleared 0 12 ip).addrs q' ∙ c.kept 12 (inr (omega arith)) ∙ z'
                    | inr q ↦ c.gone k (omega arith) (ground arith)
                  ])
                  c.same g,
            )
        | inr t ↦
            let t' : ip.addrs 12 ≢ 0 = ground arith in
            (
              finish sb (record (cleared 0 12 ip) { addrs = put (cleared 0 12 ip).addrs 12 0 }) d2,
              itrunc-far sb ip d f t' ∙ rw e refl,
              truncated (record (cleared 0 12 ip) { addrs = put (cleared 0 12 ip).addrs 12 0 }) d2
                  (λ k h. elim (Bool-cases (k == 12)) [
                    | inl q ↦
                        let q' : 12 ≡ k = ground arith in
                        rw (sym q') (put_self (cleared 0 12 ip).addrs 12 0)
                    | inr q ↦
                        put_ne (cleared 0 12 ip).addrs 12 k 0 (ground arith)
                        ∙ c.gone k (omega arith) (ground arith)
                  ])
                  (ap (λ (x : Inode). record x { addrs = put (cleared 0 12 ip).addrs 12 0 }) c.same)
                  g,
            )
      ]
