-- ===== src/Fs/Content.antt =====
-- The content of an inode: `bmap`, `itrunc`, `stati`, `readi` and `writei` of kernel/fs.c.
pub mod Slots
pub mod Links
pub mod Bmap
pub mod Writes
pub mod Chunks
pub mod Loops
pub mod Bytes
pub mod Frees
pub mod Trunc
pub mod Truncated
use strace_xv.Base.{
  ltb, leb, ◌==◌, if◌then◌else◌, ==_iff, lt→ltb, Bool-cases, Option-cases, ◌>>=◌, length, get_elem?,
  get_or, set, replicate, length-append, length-replicate, length-set, get_elem?-set_self,
  get_elem?-set_ne, length-reverse, occurs, occurs-append, get_elem?-lt, put, put_self, put_ne,
  ==_self, ==_ne, ℕ, zero, suc, ◌+◌, ◌-◌, ◌*◌, ◌/◌, ◌%◌, ◌^◌, ◌≤◌, ◌<◌, ◌≡◌, refl, sym, ap, ◌∙◌,
  fun_ext, subst, ◌≢◌, ◌↔◌, ◌⊎◌, inl, inr, Bool, true, false, ◌&&◌, ◌||◌, not, Option, none, some,
  List, [], ◌∷◌, ◌++◌, append-nil, append_assoc, reverse-append, arith,
}
use strace_xv.Fs.{block_size, Superblock, Block, Disk, balloc, bfree}
use strace_xv.Fs.Inode.{Inode, ndirect, nindirect, move, load_word, store_word, iupdate}

-- The block in `addrs[i]`, allocated if there is none; `none` is a panic, here and below.
unfoldable pub own_block : Superblock → Inode → ℕ → Disk → Option (ℕ × Inode × Disk)
own_block sb ip i d =
    let new = balloc sb d >>= λ (a, d'). some (a, record ip { addrs = put ip.addrs i a }, d') in
    if ip.addrs i == 0 then new else some (ip.addrs i, ip, d)

-- The block in the word `i` of the indirect block `addr`.
unfoldable pub indirect_block : Superblock → Inode → ℕ → ℕ → Disk → Option (ℕ × Inode × Disk)
indirect_block sb ip addr i d =
    let new =
      balloc sb d >>= λ (a, d'). some (a, ip, put d' addr (store_word (d' addr) (4 * i) a)) in
    if load_word (d addr) (4 * i) == 0 then new else some (load_word (d addr) (4 * i), ip, d)

unfoldable pub bmap : Superblock → Inode → ℕ → Disk → Option (ℕ × Inode × Disk)
bmap sb ip bn d =
    let far = own_block sb ip ndirect d >>= λ (addr, ip', d').
    indirect_block sb ip' addr (bn - ndirect) d' in
    if ltb bn ndirect
    then own_block sb ip bn d
    else if ltb (bn - ndirect) nindirect
    then far
    else none

-- The first loop of `itrunc`, from `i` on with `left` rounds to go.
unfoldable pub free_direct : Superblock → ℕ → ℕ → Inode → Disk → Option (Inode × Disk)
free_direct sb i zero ip d = some (ip, d)
free_direct sb i (suc left) ip d =
    let skip = free_direct sb (i + 1) left ip d in
    let freed = bfree sb d (ip.addrs i) >>= λ d'.
    free_direct sb (i + 1) left (record ip { addrs = put ip.addrs i 0 }) d' in
    if ip.addrs i == 0 then skip else freed

-- The second loop, over the words of the indirect block `a`.
unfoldable pub free_indirect : Superblock → Block → ℕ → ℕ → Disk → Option Disk
free_indirect sb a j zero d = some d
free_indirect sb a j (suc left) d =
    let skip = free_indirect sb a (j + 1) left d in
    let freed = bfree sb d (load_word a (4 * j)) >>= λ d'. free_indirect sb a (j + 1) left d' in
    if load_word a (4 * j) == 0 then skip else freed

unfoldable pub free_rest : Superblock → Inode → Disk → Option (Inode × Disk)
free_rest sb ip d =
    let all = free_indirect sb (d (ip.addrs ndirect)) 0 nindirect d >>= λ d1.
    bfree sb d1 (ip.addrs ndirect) >>= λ d2.
    some (record ip { addrs = put ip.addrs ndirect 0 }, d2) in
    if ip.addrs ndirect == 0 then some (ip, d) else all

unfoldable pub itrunc : Superblock → Inode → Disk → Option (Inode × Disk)
itrunc sb ip d = free_direct sb 0 ndirect ip d >>= λ (ip1, d1). free_rest sb ip1 d1 >>= λ (ip2, d2).
    let done = record ip2 { size = 0 } in some (done, iupdate sb done d2)

-- `struct stat`.
pub record Stat : Type 0 where
  pub type : ℕ
  pub dev : ℕ
  pub ino : ℕ
  pub nlink : ℕ
  pub size : ℕ

pub stati : Inode → Stat
stati ip = record { type = ip.type; dev = ip.dev; ino = ip.inum; nlink = ip.nlink; size = ip.size }

-- What a transfer comes to: -1, a call of the routine of the device `major`, or the bytes done.
pub data Transfer (A : Type 0) : Type 0 where
  refused : Transfer A
  device : ℕ → Transfer A
  moved : ℕ → A → Transfer A

-- `T_DEV` and `NDEV`; `has` says which entries of `devsw` have the routine. A negative major
-- number is not below `NDEV` as 16 bits either.
abbrev pub type_device : ℕ
type_device = 3

abbrev pub ndev : ℕ
ndev = 10

unfoldable pub to_device : (ℕ → Bool) → Inode → {A : Type 0} → Option (Transfer A)
to_device has ip =
    some (if leb ndev ip.major || not (has ip.major) then refused else device ip.major)

abbrev pub uint : ℕ → ℕ
uint n = n % 2 ^ 32

abbrev pub min : ℕ → ℕ → ℕ
min a b = if ltb a b then a else b

-- What a loop carries: the inode, the disk, and the memory of the caller.
abbrev pub Moving : Type 0
Moving = Inode × Disk × Block

-- The loop of `readi` to `dst`, with `left` bytes to go; each round moves at least one byte, so
-- `fuel` of `left` rounds is enough.
unfoldable pub read_chunk : Superblock → ℕ → ℕ → ℕ → Moving → Option Moving
read_chunk sb dst off m (ip, d, mem) = bmap sb ip (off / block_size) d >>= λ (a, ip', d').
    some (ip', d', move mem dst (d' a) (off % block_size) m)

unfoldable pub read_chunks : Superblock → ℕ → ℕ → ℕ → ℕ → Moving → Option Moving
read_chunks sb zero dst off left s = some s
read_chunks sb (suc fuel) dst off left s =
    let m = min left (block_size - off % block_size) in
    let round =
      read_chunk sb dst off m s >>= λ s'. read_chunks sb fuel (dst + m) (off + m) (left - m) s' in
    if ltb 0 left then round else some s

unfoldable pub readi :
    Superblock → (ℕ → Bool) → Inode → ℕ → ℕ → ℕ → Disk → Block → Option (Transfer Moving)
readi sb has ip dst off n d mem =
    let n' = if ltb ip.size (uint (off + n)) then ip.size - off else n in
    let go = read_chunks sb n' dst off n' (ip, d, mem) >>= λ s. some (moved n' s) in
    if ip.type == type_device
    then to_device has ip
    else if ltb ip.size off || ltb (uint (off + n)) off
    then some refused
    else go

-- The loop of `writei` from `src`.
unfoldable pub write_chunk : Superblock → ℕ → ℕ → ℕ → Moving → Option Moving
write_chunk sb src off m (ip, d, mem) = bmap sb ip (off / block_size) d >>= λ (a, ip', d').
    some (ip', put d' a (move (d' a) (off % block_size) mem src m), mem)

unfoldable pub write_chunks : Superblock → ℕ → ℕ → ℕ → ℕ → Moving → Option Moving
write_chunks sb zero src off left s = some s
write_chunks sb (suc fuel) src off left s =
    let m = min left (block_size - off % block_size) in
    let round =
      write_chunk sb src off m s >>= λ s'. write_chunks sb fuel (src + m) (off + m) (left - m) s' in
    if ltb 0 left then round else some s

-- Its end, at the offset behind the last byte.
unfoldable pub extend : Superblock → ℕ → ℕ → Moving → Moving
extend sb n off (ip, d, mem) =
    let longer = record ip { size = off } in
    if ltb 0 n && ltb ip.size off then (longer, iupdate sb longer d, mem) else (ip, d, mem)

-- `MAXFILE * BSIZE`.
abbrev pub max_bytes : ℕ
max_bytes = 71680

unfoldable pub writei :
    Superblock → (ℕ → Bool) → Inode → ℕ → ℕ → ℕ → Disk → Block → Option (Transfer Moving)
writei sb has ip src off n d mem =
    let go =
      write_chunks sb n src off n (ip, d, mem) >>= λ s. some (moved n (extend sb n (off + n) s)) in
    if ip.type == type_device
    then to_device has ip
    else if ltb ip.size off || ltb (uint (off + n)) off
    then some refused
    else if ltb max_bytes (uint (off + n))
    then some refused
    else go
