-- ===== src/Fs.antt =====
-- The blocks of the disk: the free map of kernel/fs.c.
pub mod Bits
pub mod Bitmap
pub mod Allocation
pub mod Inode
pub mod Content
pub mod Icache
pub mod Directory
mod Tests
use strace_xv.Base.{
  ltb, leb, ◌==◌, if◌then◌else◌, ==_iff, lt→ltb, Bool-cases, Option-cases, ◌>>=◌, length, get_elem?,
  get_or, set, replicate, length-append, length-replicate, length-set, get_elem?-set_self,
  get_elem?-set_ne, length-reverse, occurs, occurs-append, get_elem?-lt, put, put_self, put_ne,
  ==_self, ==_ne, ℕ, zero, suc, ◌+◌, ◌-◌, ◌*◌, ◌/◌, ◌%◌, ◌^◌, ◌≤◌, ◌<◌, ◌≡◌, refl, sym, ap, ◌∙◌,
  fun_ext, subst, ◌≢◌, ◌↔◌, ◌⊎◌, inl, inr, Bool, true, false, ◌&&◌, ◌||◌, not, Option, none, some,
  List, [], ◌∷◌, ◌++◌, append-nil, append_assoc, reverse-append, arith,
}

-- `BSIZE`, and the bits of a block, `BPB`.
abbrev pub block_size : ℕ
block_size = 512

abbrev pub block_bits : ℕ
block_bits = 4096

-- `struct superblock`, which `readsb` reads from block 1; it never changes.
pub record Superblock : Type 0 where
  pub size : ℕ
  pub nblocks : ℕ
  pub ninodes : ℕ
  pub nlog : ℕ
  pub logstart : ℕ
  pub inodestart : ℕ
  pub bmapstart : ℕ

-- The disk as a transaction sees it: what was last logged for a block, or else what lies on the
-- disk. `bread` reads a block of it, and `log_write` after a change of the buffer writes one. The panics of
-- `log_write` are left out: a transaction is one that the log has room for.
abbrev pub Block : Type 0
Block = ℕ → ℕ

abbrev pub Disk : Type 0
Disk = ℕ → Block

abbrev pub zero_block : Block
zero_block i = 0

-- `byte & (1 << k)`, `byte | (1 << k)` and `byte & ~(1 << k)`, digit by digit.
unfoldable pub bit : ℕ → ℕ → ℕ
bit byte zero = byte % 2
bit byte (suc k) = bit (byte / 2) k

unfoldable pub set_bit : ℕ → ℕ → ℕ
set_bit byte zero = if byte % 2 == 0 then byte + 1 else byte
set_bit byte (suc k) = 2 * set_bit (byte / 2) k + byte % 2

unfoldable pub clear_bit : ℕ → ℕ → ℕ
clear_bit byte zero = byte - byte % 2
clear_bit byte (suc k) = 2 * clear_bit (byte / 2) k + byte % 2

-- `BBLOCK`.
abbrev pub bitmap_block : Superblock → ℕ → ℕ
bitmap_block sb b = b / block_bits + sb.bmapstart

-- `bzero`.
abbrev pub bzero : Disk → ℕ → Disk
bzero d bno = put d bno zero_block

-- The inner loop of `balloc`, from the bit `bi` on with `left` rounds to go.
unfoldable pub find_free : ℕ → ℕ → Block → ℕ → ℕ → Option ℕ
find_free size b bytes bi zero = none
find_free size b bytes bi (suc left) =
    let rest = find_free size b bytes (bi + 1) left in
    if ltb (b + bi) size then if bit (bytes (bi / 8)) (bi % 8) == 0 then some bi else rest else none

-- The block `b` is marked in use and zeroed.
abbrev pub set_used : Superblock → Disk → ℕ → Disk
set_used sb d b =
    let at = bitmap_block sb b in
    let bi = b % block_bits in put d at (put (d at) (bi / 8) (set_bit (d at (bi / 8)) (bi % 8)))

-- The outer loop, with fuel for its rounds; `none` is the panic, or a lack of fuel.
unfoldable pub balloc_from : Superblock → Disk → ℕ → ℕ → Option (ℕ × Disk)
balloc_from sb d b zero = none
balloc_from sb d b (suc fuel) =
    let rest = balloc_from sb d (b + block_bits) fuel in
    if ltb b sb.size
    then elim (find_free sb.size b (d (bitmap_block sb b)) 0 block_bits) [
      | none ↦ rest
      | some bi ↦ some (b + bi, bzero (set_used sb d (b + bi)) (b + bi))
    ]
    else none

unfoldable pub balloc : Superblock → Disk → Option (ℕ × Disk)
balloc sb d = balloc_from sb d 0 (sb.size / block_bits + 1)

-- `bfree`; `none` is its panic.
unfoldable pub bfree : Superblock → Disk → ℕ → Option Disk
bfree sb d b =
    let at = bitmap_block sb b in
    let bi = b % block_bits in
    if bit (d at (bi / 8)) (bi % 8) == 0
    then none
    else some (put d at (put (d at) (bi / 8) (clear_bit (d at (bi / 8)) (bi % 8))))
