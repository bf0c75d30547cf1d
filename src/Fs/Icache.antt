-- ===== src/Fs/Icache.antt =====
-- The cache of inodes of kernel/fs.c: iget, idup, ilock, iunlock, iput and ialloc.
pub mod Scan
pub mod Calls
pub mod Holders
pub mod Net
use strace_xv.Base.{
  ltb, leb, ◌==◌, if◌then◌else◌, ==_iff, lt→ltb, Bool-cases, Option-cases, ◌>>=◌, length, get_elem?,
  get_or, set, replicate, length-append, length-replicate, length-set, get_elem?-set_self,
  get_elem?-set_ne, length-reverse, occurs, occurs-append, get_elem?-lt, put, put_self, put_ne,
  ==_self, ==_ne, ℕ, zero, suc, ◌+◌, ◌-◌, ◌*◌, ◌/◌, ◌%◌, ◌^◌, ◌≤◌, ◌<◌, ◌≡◌, refl, sym, ap, ◌∙◌,
  fun_ext, subst, ◌≢◌, ◌↔◌, ◌⊎◌, inl, inr, Bool, true, false, ◌&&◌, ◌||◌, not, Option, none, some,
  List, [], ◌∷◌, ◌++◌, append-nil, append_assoc, reverse-append, arith,
}
use strace_xv.Fs.{Superblock, Block, Disk}
use strace_xv.Fs.Inode.{Inode, load_short, store_short, inode_block, inode_at, iupdate, load_inode}
use strace_xv.Fs.Content.{itrunc}

-- An entry of the cache: `I_BUSY` and `I_VALID` of `flags` are two fields.
pub record Entry : Type 0 where
  pub inode : Inode
  pub ref : ℕ
  pub busy : Bool
  pub valid : Bool

-- `icache.inode`, in which a pointer is an index below `NINODE`.
abbrev pub Icache : Type 0
Icache = ℕ → Entry

abbrev pub ninode : ℕ
ninode = 50

-- The loop of `iget` from `i` on, with `left` entries to go and the empty entry seen so far.
pub data Slot : Type 0 where
  hit : ℕ → Slot
  miss : Option ℕ → Slot

abbrev pub is_cached : ℕ → ℕ → Entry → Bool
is_cached dev inum e = ltb 0 e.ref && (e.inode.dev == dev && e.inode.inum == inum)

abbrev pub note_empty : Option ℕ → ℕ → Entry → Option ℕ
note_empty (some j) i e = some j
note_empty none i e = if e.ref == 0 then some i else none

unfoldable pub scan : ℕ → ℕ → Icache → ℕ → ℕ → Option ℕ → Slot
scan dev inum t i zero empty = miss empty
scan dev inum t i (suc left) empty =
    let rest = scan dev inum t (i + 1) left (note_empty empty i (t i)) in
    if is_cached dev inum (t i) then hit i else rest

abbrev pub recycled : ℕ → ℕ → Entry → Entry
recycled dev inum e = record {
  inode = record (e.inode) { dev = dev; inum = inum };
  ref = 1;
  busy = false;
  valid = false;
}

abbrev pub more_refs : Entry → Entry
more_refs e = record e { ref = e.ref + 1 }

-- `iget`; `none` is its panic.
pub take_slot : ℕ → ℕ → Icache → Slot → Option (ℕ × Icache)
take_slot dev inum t (hit i) = some (i, put t i (more_refs (t i)))
take_slot dev inum t (miss none) = none
take_slot dev inum t (miss (some i)) = some (i, put t i (recycled dev inum (t i)))

unfoldable pub iget : ℕ → ℕ → Icache → Option (ℕ × Icache)
unfolding take_slot
iget dev inum t = take_slot dev inum t (scan dev inum t 0 ninode none)

unfoldable pub idup : ℕ → Icache → Icache
idup i t = put t i (more_refs (t i))

-- `ilock`, which sleeps at an entry that is locked; `none` is a panic.
pub data Lock : Type 0 where
  asleep : Lock
  locked : Icache → Lock

unfoldable pub ilock : Superblock → ℕ → Icache → Disk → Option Lock
ilock sb i t d =
    let e = t i in
    let read = load_inode sb d e.inode in
    if ltb e.ref 1
    then none
    else if e.busy
    then some asleep
    else if e.valid
    then some (locked (put t i (record e { busy = true })))
    else if read.type == 0
    then none
    else some (locked (put t i (record e { inode = read; busy = true; valid = true })))

-- `iunlock`; `none` is its panic.
unfoldable pub iunlock : ℕ → Icache → Option Icache
iunlock i t =
    if not (t i).busy || ltb (t i).ref 1
    then none
    else some (put t i (record (t i) { busy = false }))

-- `iput`; the end of the last reference to an inode without links frees the inode. This is one step,
-- although the code gives up the lock of the cache, with the entry busy, while it frees the blocks.
unfoldable pub iput : Superblock → ℕ → Icache → Disk → Option (Icache × Disk)
iput sb i t d =
    let e = t i in
    let freed = itrunc sb e.inode d >>= λ (ip, d').
    let none_left = record ip { type = 0 } in
    some (
      put t i (record { inode = none_left; ref = e.ref - 1; busy = false; valid = false }),
      iupdate sb none_left d',
    ) in
    if e.ref == 1 && (e.valid && e.inode.nlink == 0)
    then if e.busy then none else freed
    else some (put t i (record e { ref = e.ref - 1 }), d)

unfoldable pub iunlockput : Superblock → ℕ → Icache → Disk → Option (Icache × Disk)
iunlockput sb i t d = iunlock i t >>= λ t'. iput sb i t' d

-- The inode on the disk with the number `inum`, cleared and with its new type.
unfoldable pub clear_bytes : Block → ℕ → ℕ → Block
clear_bytes b at zero = b
clear_bytes b at (suc n) = put (clear_bytes b at n) (at + n) 0

abbrev pub mark_inode : Superblock → ℕ → ℕ → Disk → Disk
mark_inode sb type inum d =
    let at = inode_at inum in
    let home = inode_block sb inum in put d home (store_short (clear_bytes (d home) at 64) at type)

-- The loop of `ialloc` from `inum` on; `none` is its panic or that of `iget`.
unfoldable pub ialloc_from : Superblock → ℕ → ℕ → ℕ → ℕ → Icache → Disk → Option (ℕ × Icache × Disk)
ialloc_from sb dev type inum zero t d = none
ialloc_from sb dev type inum (suc left) t d =
    let rest = ialloc_from sb dev type (inum + 1) left t d in
    let found = iget dev inum t >>= λ (i, t'). some (i, t', mark_inode sb type inum d) in
    if load_short (d (inode_block sb inum)) (inode_at inum) == 0 then found else rest

unfoldable pub ialloc : Superblock → ℕ → ℕ → Icache → Disk → Option (ℕ × Icache × Disk)
ialloc sb dev type t d = ialloc_from sb dev type 1 (sb.ninodes - 1) t d
