-- ===== src/Log.antt =====
-- The write-ahead log: kernel/log.c over the buffer cache of kernel/bio.c and the disk.
pub mod Blocks
pub mod Header
pub mod Commit
pub mod Crash
pub mod Admission
mod Tests
use mathlib.Core.Option
use strace_xv.Base.{
  ltb, leb, ◌==◌, if◌then◌else◌, ==_iff, lt→ltb, Bool-cases, Option-cases, ◌>>=◌, length, get_elem?,
  get_or, set, replicate, length-append, length-replicate, length-set, get_elem?-set_self,
  get_elem?-set_ne, length-reverse, occurs, occurs-append, get_elem?-lt, put, put_self, put_ne,
  ==_self, ==_ne, ℕ, zero, suc, ◌+◌, ◌-◌, ◌*◌, ◌/◌, ◌%◌, ◌^◌, ◌≤◌, ◌<◌, ◌≡◌, refl, sym, ap, ◌∙◌,
  fun_ext, subst, ◌≢◌, ◌↔◌, ◌⊎◌, inl, inr, Bool, true, false, ◌&&◌, ◌||◌, not, Option, none, some,
  List, [], ◌∷◌, ◌++◌, append-nil, append_assoc, reverse-append, arith,
}

-- `LOGSIZE` and `MAXOPBLOCKS` of kernel/param.h, and the words of a block of `BSIZE` bytes.
abbrev pub log_size : ℕ
log_size = 30

abbrev pub max_op_blocks : ℕ
max_op_blocks = 10

abbrev pub block_words : ℕ
block_words = 128

-- The data of a block, as the `uint`s that it is read as.
abbrev pub Block : Type 0
Block = List ℕ

abbrev pub Disk : Type 0
Disk = ℕ → Block

abbrev pub set_at {ℓ} : {A : Type ℓ} → (ℕ → A) → ℕ → A → ℕ → A
set_at f i v j = if i == j then v else f j

-- The disk, the data of the buffers that are cached, and the writes to the disk so far, oldest
-- first. Eviction of a clean buffer does not change what `bread` returns, and is left out.
pub record Store : Type 0 where
  pub disk : Disk
  pub cache : ℕ → Option Block
  pub writes : List (ℕ × Block)

-- `bread`: the buffer's data, read from the disk if it was not cached.
unfoldable pub bread : ℕ → Store → Block × Store
bread b st = elim (st.cache b) [
  | some d ↦ (d, st)
  | none ↦ (st.disk b, record st { cache = set_at st.cache b (some (st.disk b)) })
]

-- The buffer's data is set, and `bwrite` writes it to the disk.
unfoldable pub bwrite : ℕ → Block → Store → Store
bwrite b d st = record {
  disk = set_at st.disk b d;
  cache = set_at st.cache b (some d);
  writes = st.writes ++ ((b, d) ∷ []);
}

-- `struct log`. Of `lh` the list holds `block[0]` to `block[n - 1]`; the rest of the array is
-- never read. `outstanding` is an `int`, as a word of 32 bits.
pub record Log : Type 0 where
  pub start : ℕ
  pub size : ℕ
  pub outstanding : ℕ
  pub committing : Bool
  pub lh : List ℕ

-- The loop of `install_trans`, from the log block `tail` on.
unfoldable pub install_trans : ℕ → ℕ → List ℕ → Store → Store
install_trans start tail [] st = st
install_trans start tail (b ∷ bs) st =
    let (lbuf, st1) = bread (start + tail + 1) st in
    let (dbuf, st2) = bread b st1 in install_trans start (tail + 1) bs (bwrite b lbuf st2)

-- The loop of `write_log`.
unfoldable pub write_log : ℕ → ℕ → List ℕ → Store → Store
write_log start tail [] st = st
write_log start tail (b ∷ bs) st =
    let (to, st1) = bread (start + tail + 1) st in
    let (from, st2) = bread b st1 in
    write_log start (tail + 1) bs (bwrite (start + tail + 1) from st2)

-- The loops over `hb->block[i]` and `lh->block[i]`, from the word `i` of the block on.
unfoldable pub set_words : Block → ℕ → List ℕ → Block
set_words d i [] = d
set_words d i (b ∷ bs) = set_words (set d i b) (i + 1) bs

unfoldable pub read_words : Block → ℕ → ℕ → List ℕ
read_words d i zero = []
read_words d i (suc n) = get_or d i 0 ∷ read_words d (i + 1) n

-- The header block with `n` and the block numbers written over `d`.
abbrev pub header : Block → List ℕ → Block
header d lh = set_words (set d 0 (length lh)) 1 lh

unfoldable pub write_head : ℕ → List ℕ → Store → Store
write_head start lh st = let (d, st1) = bread start st in bwrite start (header d lh) st1

-- `read_head`, from the disk.
unfoldable pub read_head : ℕ → Store → List ℕ × Store
read_head start st = let (d, st1) = bread start st in (read_words d 1 (get_or d 0 0), st1)

-- `recover_from_log`.
unfoldable pub recover_from_log : ℕ → Store → Store
recover_from_log start st =
    let (lh, st1) = read_head start st in write_head start [] (install_trans start 0 lh st1)

-- `commit`, with the header that it leaves.
unfoldable pub commit : ℕ → List ℕ → Store → List ℕ × Store
commit start [] st = ([], st)
commit start (b ∷ bs) st =
    let st1 = write_log start 0 (b ∷ bs) st in
    let st2 = write_head start (b ∷ bs) st1 in
    let st3 = install_trans start 0 (b ∷ bs) st2 in ([], write_head start [] st3)

-- `log_write`: the block number goes into the header unless it is there already, and the buffer
-- is pinned. `none` is a panic.
pub absorb : List ℕ → ℕ → List ℕ
absorb [] b = b ∷ []
absorb (c ∷ lh) b = if c == b then c ∷ lh else c ∷ absorb lh b

unfoldable pub log_write : ℕ → Log → Option Log
unfolding absorb
log_write b log =
    if leb log_size (length log.lh) || leb (log.size - 1) (length log.lh)
    then none
    else if (log.outstanding == 0) || leb (2 ^ 31) log.outstanding
    then none
    else some (record log { lh = absorb log.lh b })

-- `begin_op`, one round of its loop: `none` means that the caller sleeps. The count is at least -1.
unfoldable pub begin_op : Log → Option Log
begin_op log =
    if log.committing
    then none
    else if ltb log_size (length log.lh + (log.outstanding + 1) % 2 ^ 32 * max_op_blocks)
    then none
    else some (record log { outstanding = (log.outstanding + 1) % 2 ^ 32 })

-- `end_op` up to the release of the lock, with `do_commit`; `none` is a panic.
unfoldable pub end_op : Log → Option (Log × Bool)
end_op log =
    let left = (log.outstanding + (2 ^ 32 - 1)) % 2 ^ 32 in
    if log.committing
    then none
    else if left == 0
    then some (record log { outstanding = 0; committing = true }, true)
    else some (record log { outstanding = left }, false)

-- `end_op` after `commit`, which has emptied the header.
unfoldable pub end_commit : Log → Log
end_commit log = record log { committing = false; lh = [] }
