-- ===== src/Fs/Inode.antt =====
-- Inodes of kernel/fs.c in memory and on the disk, and the copying of bytes and words.
pub mod Words
pub mod Stored
use strace_xv.Base.{
  ltb, leb, ◌==◌, if◌then◌else◌, ==_iff, lt→ltb, Bool-cases, Option-cases, ◌>>=◌, length, get_elem?,
  get_or, set, replicate, length-append, length-replicate, length-set, get_elem?-set_self,
  get_elem?-set_ne, length-reverse, occurs, occurs-append, get_elem?-lt, put, put_self, put_ne,
  ==_self, ==_ne, ℕ, zero, suc, ◌+◌, ◌-◌, ◌*◌, ◌/◌, ◌%◌, ◌^◌, ◌≤◌, ◌<◌, ◌≡◌, refl, sym, ap, ◌∙◌,
  fun_ext, subst, ◌≢◌, ◌↔◌, ◌⊎◌, inl, inr, Bool, true, false, ◌&&◌, ◌||◌, not, Option, none, some,
  List, [], ◌∷◌, ◌++◌, append-nil, append_assoc, reverse-append, arith,
}
use strace_xv.Fs.{block_size, Superblock, Block, Disk}

-- What `struct inode` holds of a file; a negative `short` stands as its 16 bits.
pub record Inode : Type 0 where
  pub dev : ℕ
  pub inum : ℕ
  pub type : ℕ
  pub major : ℕ
  pub minor : ℕ
  pub nlink : ℕ
  pub size : ℕ
  pub addrs : ℕ → ℕ

-- `NDIRECT` and `NINDIRECT`.
abbrev pub ndirect : ℕ
ndirect = 12

abbrev pub nindirect : ℕ
nindirect = 128

-- `memmove` between two arrays of bytes.
unfoldable pub move : Block → ℕ → Block → ℕ → ℕ → Block
move dst at src from zero = dst
move dst at src from (suc n) = put (move dst at src from n) (at + n) (src (from + n))

-- Numbers of two and of four bytes, the low byte first.
abbrev pub load_short : Block → ℕ → ℕ
load_short b at = b at + 256 * b (at + 1)

abbrev pub store_short : Block → ℕ → ℕ → Block
store_short b at v = put (put b at (v % 256)) (at + 1) (v / 256 % 256)

abbrev pub load_word : Block → ℕ → ℕ
load_word b at = load_short b at + 65536 * load_short b (at + 2)

abbrev pub store_word : Block → ℕ → ℕ → Block
store_word b at v = store_short (store_short b at v) (at + 2) (v / 65536)

unfoldable pub store_words : Block → ℕ → (ℕ → ℕ) → ℕ → Block
store_words b at f zero = b
store_words b at f (suc n) = store_word (store_words b at f n) (at + 4 * n) (f n)

-- `IBLOCK`, and where `dip` points to in the block; `IPB` is 8, and `struct dinode` has 64 bytes.
abbrev pub inode_block : Superblock → ℕ → ℕ
inode_block sb inum = inum / 8 + sb.inodestart

abbrev pub inode_at : ℕ → ℕ
inode_at inum = 64 * (inum % 8)

-- The assignments of `iupdate`, at `dip`.
unfoldable pub store_inode : Block → ℕ → Inode → Block
store_inode b at ip =
    let shorts =
      store_short
        (store_short (store_short (store_short b at ip.type) (at + 2) ip.major) (at + 4) ip.minor)
        (at + 6) ip.nlink in
    store_words (store_word shorts (at + 8) ip.size) (at + 12) ip.addrs 13

unfoldable pub iupdate : Superblock → Inode → Disk → Disk
iupdate sb ip d =
    put d (inode_block sb ip.inum) (store_inode (d (inode_block sb ip.inum)) (inode_at ip.inum) ip)

-- The assignments of `ilock`, from `dip`; the array has 13 words.
unfoldable pub load_inode : Superblock → Disk → Inode → Inode
load_inode sb d ip =
    let b = d (inode_block sb ip.inum) in
    let at = inode_at ip.inum in
    record ip {
      type = load_short b at;
      major = load_short b (at + 2);
      minor = load_short b (at + 4);
      nlink = load_short b (at + 6);
      size = load_word b (at + 8);
      addrs = λ i. if ltb i 13 then load_word b (at + 12 + 4 * i) else ip.addrs i;
    }
