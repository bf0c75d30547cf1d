-- ===== src/Fs/Inode/Stored.antt =====
-- An inode that is read back from the disk.
use strace_xv.Base.{
  ltb, ◌==◌, lt→ltb, Bool-cases, put_self, put_ne, ℕ, ◌+◌, ◌*◌, ◌%◌, ◌^◌, ◌≤◌, ◌<◌, ◌≡◌, refl, sym,
  ◌∙◌, ◌≢◌, ◌⊎◌, inl, inr, arith,
}
use strace_xv.Fs.{Superblock, Block, Disk}
use strace_xv.Fs.Inode.{
  Inode, load_short, store_short, load_word, store_word, inode_block, inode_at, store_inode,
  iupdate, load_inode,
}
use strace_xv.Fs.Inode.Words.{
  store_short-out, load_word-store_word, store_word-out, load_word-same, store_words-out,
  load_word-store_words, load_short-store_short, load_short-store_short_ne,
}

-- The numbers of an inode fit into their fields.
pub record Fits (ip : Inode) : Type 0 where
  pub type_short : ip.type < 65536
  pub major_short : ip.major < 65536
  pub minor_short : ip.minor < 65536
  pub nlink_short : ip.nlink < 65536
  pub size_word : ip.size < 2 ^ 32
  pub addrs_word : (i : ℕ) → i < 13 → ip.addrs i < 2 ^ 32

module _ (b : Block) (at : ℕ) (ip : Inode) where
  abbrev type_stored : Block
  type_stored = store_short b at ip.type

  abbrev major_stored : Block
  major_stored = store_short type_stored (at + 2) ip.major

  abbrev minor_stored : Block
  minor_stored = store_short major_stored (at + 4) ip.minor

  abbrev shorts_stored : Block
  shorts_stored = store_short minor_stored (at + 6) ip.nlink

  abbrev size_stored : Block
  size_stored = store_word shorts_stored (at + 8) ip.size

  stored-low : (j : ℕ) → j < at + 12 → store_inode b at ip j ≡ size_stored j
  unfolding store_inode
  stored-low j h = store_words-out size_stored (at + 12) ip.addrs 13 j (inl h)

  short-stored :
      (k : ℕ) → k + 2 ≤ at + 8 → load_short (store_inode b at ip) k ≡ load_short shorts_stored k
  short-stored k h =
      let low = λ (j : ℕ) (l : j < at + 8).
        stored-low j (omega arith) ∙ store_word-out shorts_stored (at + 8) ip.size j (inl l) in
      omega (arith, low k (omega arith), low (k + 1) (omega arith))

  module _ (v : Fits ip) where
    type-stored : load_short (store_inode b at ip) at ≡ ip.type
    type-stored =
        short-stored at (omega arith)
        ∙ load_short-store_short_ne minor_stored (at + 6) ip.nlink at (inl (omega arith))
        ∙ load_short-store_short_ne major_stored (at + 4) ip.minor at (inl (omega arith))
        ∙ load_short-store_short_ne type_stored (at + 2) ip.major at (inl (omega arith))
        ∙ load_short-store_short b at ip.type v.type_short

    major-stored : load_short (store_inode b at ip) (at + 2) ≡ ip.major
    major-stored =
        short-stored (at + 2) (omega arith)
        ∙ load_short-store_short_ne minor_stored (at + 6) ip.nlink (at + 2) (inl (omega arith))
        ∙ load_short-store_short_ne major_stored (at + 4) ip.minor (at + 2) (inl (omega arith))
        ∙ load_short-store_short type_stored (at + 2) ip.major v.major_short

    minor-stored : load_short (store_inode b at ip) (at + 4) ≡ ip.minor
    minor-stored =
        short-stored (at + 4) (omega arith)
        ∙ load_short-store_short_ne minor_stored (at + 6) ip.nlink (at + 4) (inl (omega arith))
        ∙ load_short-store_short major_stored (at + 4) ip.minor v.minor_short

    nlink-stored : load_short (store_inode b at ip) (at + 6) ≡ ip.nlink
    nlink-stored =
        short-stored (at + 6) (omega arith)
        ∙ load_short-store_short minor_stored (at + 6) ip.nlink v.nlink_short

    size-stored : load_word (store_inode b at ip) (at + 8) ≡ ip.size
    size-stored =
        load_word-same (store_inode b at ip) size_stored (at + 8)
          (λ j l u. stored-low j (omega arith))
        ∙ load_word-store_word shorts_stored (at + 8) ip.size v.size_word

    addrs-stored : (i : ℕ) → i < 13 → load_word (store_inode b at ip) (at + 12 + 4 * i) ≡ ip.addrs i
    unfolding store_inode
    addrs-stored i h = load_word-store_words size_stored (at + 12) ip.addrs 13 i v.addrs_word h

-- Two inodes that hold the same of a file.
pub record Alike (a b : Inode) : Type 0 where
  pub same_type : a.type ≡ b.type
  pub same_major : a.major ≡ b.major
  pub same_minor : a.minor ≡ b.minor
  pub same_nlink : a.nlink ≡ b.nlink
  pub same_size : a.size ≡ b.size
  pub same_addrs : (i : ℕ) → i < 13 → a.addrs i ≡ b.addrs i

load_inode-same :
    (sb : Superblock) (d d' : Disk) (old : Inode)
    → ((j : ℕ)
        → inode_at old.inum ≤ j
        → j < inode_at old.inum + 64
        → d' (inode_block sb old.inum) j ≡ d (inode_block sb old.inum) j)
    → Alike (load_inode sb d' old) (load_inode sb d old)
unfolding load_inode
load_inode-same sb d d' old h =
    let at = inode_at old.inum in
    let short = λ (k : ℕ) (l : at ≤ k) (u : k < at + 63).
      let e : load_short (d' (inode_block sb old.inum)) k
          ≡ load_short (d (inode_block sb old.inum)) k =
        omega (arith, h k l (omega arith), h (k + 1) (omega arith) (omega arith)) in
      e in
    record {
      same_type = short at (omega arith) (omega arith);
      same_major = short (at + 2) (omega arith) (omega arith);
      same_minor = short (at + 4) (omega arith) (omega arith);
      same_nlink = short (at + 6) (omega arith) (omega arith);
      same_size =
          load_word-same (d' (inode_block sb old.inum)) (d (inode_block sb old.inum)) (at + 8)
            (λ j l u. h j (omega arith) (omega arith));
      same_addrs = λ i u. rw (lt→ltb i 13 u) (
          load_word-same (d' (inode_block sb old.inum)) (d (inode_block sb old.inum))
            (at + 12 + 4 * i) (λ j l w. h j (omega arith) (omega arith)));
    }

-- `iupdate`: what it writes, `ilock` reads back; every other inode is read as before; and no
-- block but that of the inode changes.
pub record Stored (sb : Superblock) (d : Disk) (ip : Inode) (d' : Disk) : Type 0 where
  pub read : (old : Inode) → old.inum ≡ ip.inum → Alike (load_inode sb d' old) ip
  pub other :
      (old : Inode) → old.inum ≢ ip.inum → Alike (load_inode sb d' old) (load_inode sb d old)
  pub blocks : (c : ℕ) → c ≢ inode_block sb ip.inum → d' c ≡ d c

store_inode-out :
    (b : Block) (at : ℕ) (ip : Inode) (j : ℕ)
    → (j < at) ⊎ (at + 64 ≤ j)
    → store_inode b at ip j ≡ b j
unfolding store_inode
store_inode-out b at ip j h =
    store_words-out (size_stored b at ip) (at + 12) ip.addrs 13 j (ground arith)
    ∙ store_word-out (shorts_stored b at ip) (at + 8) ip.size j (ground arith)
    ∙ store_short-out (minor_stored b at ip) (at + 6) ip.nlink j (ground arith)
    ∙ store_short-out (major_stored b at ip) (at + 4) ip.minor j (ground arith)
    ∙ store_short-out (type_stored b at ip) (at + 2) ip.major j (ground arith)
    ∙ store_short-out b at ip.type j (ground arith)

module _ (sb : Superblock) (d : Disk) (ip : Inode) where
  iupdate-read :
      Fits ip → (old : Inode) → old.inum ≡ ip.inum → Alike (load_inode sb (iupdate sb ip d) old) ip
  unfolding iupdate load_inode
  iupdate-read v old e =
      let b = d (inode_block sb ip.inum) in
      let at = inode_at ip.inum in
      rw (e, put_self d (inode_block sb ip.inum) (store_inode b at ip))
        (record {
          same_type = type-stored b at ip v;
          same_major = major-stored b at ip v;
          same_minor = minor-stored b at ip v;
          same_nlink = nlink-stored b at ip v;
          same_size = size-stored b at ip v;
          same_addrs = λ i u. rw (lt→ltb i 13 u) (addrs-stored b at ip v i u);
        })

  iupdate-other :
      (old : Inode)
      → old.inum ≢ ip.inum
      → Alike (load_inode sb (iupdate sb ip d) old) (load_inode sb d old)
  unfolding iupdate
  iupdate-other old h = load_inode-same sb d (iupdate sb ip d) old (λ j l u.
      elim (Bool-cases (inode_block sb ip.inum == inode_block sb old.inum)) [
        | inr far ↦ rw far refl
        | inl near ↦
            let e : inode_block sb ip.inum ≡ inode_block sb old.inum = ground arith in
            rw (near, e)
              (store_inode-out (d (inode_block sb old.inum)) (inode_at ip.inum) ip j
                (elim (Bool-cases (ltb (ip.inum % 8) (old.inum % 8))) [
                  | inl b ↦ inr (ground arith)
                  | inr b ↦ inl (ground arith)
                ]))
      ])

  -- Behind `iupdate`, the inode is read back from the disk as it was in memory, every other inode
  -- is read as before, and only the block of the inode has changed, if the numbers of the inode
  -- fit into their fields.
  pub iupdate-Stored : Fits ip → Stored sb d ip (iupdate sb ip d)
  unfolding iupdate
  iupdate-Stored v = record {
    read = iupdate-read v;
    other = iupdate-other;
    blocks = λ c h.
        put_ne d (inode_block sb ip.inum) c
          (store_inode (d (inode_block sb ip.inum)) (inode_at ip.inum) ip) (λ e. h (sym e));
  }
