-- ===== src/Fs/Directory.antt =====
-- Directories and path names of kernel/fs.c.
pub mod Entries
pub mod Added
pub mod Lookup
pub mod Links
pub mod Paths
mod Tests
use strace_xv.Base.{
  ltb, leb, ◌==◌, if◌then◌else◌, ==_iff, lt→ltb, Bool-cases, Option-cases, ◌>>=◌, length, get_elem?,
  get_or, set, replicate, length-append, length-replicate, length-set, get_elem?-set_self,
  get_elem?-set_ne, length-reverse, occurs, occurs-append, get_elem?-lt, put, put_self, put_ne,
  ==_self, ==_ne, ℕ, zero, suc, ◌+◌, ◌-◌, ◌*◌, ◌/◌, ◌%◌, ◌^◌, ◌≤◌, ◌<◌, ◌≡◌, refl, sym, ap, ◌∙◌,
  fun_ext, subst, ◌≢◌, ◌↔◌, ◌⊎◌, inl, inr, Bool, true, false, ◌&&◌, ◌||◌, not, Option, none, some,
  List, [], ◌∷◌, ◌++◌, append-nil, append_assoc, reverse-append, arith,
}
use strace_xv.Fs.{Superblock, Block, Disk}
use strace_xv.Fs.Inode.{Inode, load_short, store_short}
use strace_xv.Fs.Content.{Moving, Transfer, refused, device, moved, readi, writei}
use strace_xv.Fs.Icache.{
  Entry, Icache, iget, idup, Lock, asleep, locked, ilock, iunlock, iput, iunlockput,
}

-- `DIRSIZ`, `sizeof(struct dirent)` and `T_DIR`. A `struct dirent` is its sixteen bytes.
abbrev pub name_size : ℕ
name_size = 14

abbrev pub entry_size : ℕ
entry_size = 16

abbrev pub type_dir : ℕ
type_dir = 1

-- The bytes of `de.name`.
abbrev pub name_of : Block → Block
name_of de i = de (i + 2)

-- Whether `strncmp` answers 0, from the character `i` on with `left` to go.
unfoldable pub same_from : Block → Block → ℕ → ℕ → Bool
same_from s t i zero = true
same_from s t i (suc left) =
    let rest = same_from s t (i + 1) left in
    if not (s i == 0) && s i == t i then rest else s i == t i

-- Whether `namecmp` answers 0.
unfoldable pub namecmp : Block → Block → Bool
namecmp s t = same_from s t 0 name_size

-- The loop of `dirlookup`, which answers the number and the offset of the entry; `none` is a panic.
-- An unfinished read is one. The fuel counts the entries that are left.
pub check_read : Option (Transfer Moving) → Option Moving
check_read none = none
check_read (some refused) = none
check_read (some (device major)) = none
check_read (some (moved n s)) = if n == entry_size then some s else none

unfoldable pub read_entry : Superblock → (ℕ → Bool) → ℕ → Moving → Option Moving
unfolding check_read
read_entry sb has off (dp, d, de) = check_read (readi sb has dp 0 off entry_size d de)

unfoldable pub look :
    Superblock → (ℕ → Bool) → Block → ℕ → ℕ → Moving → Option (Option (ℕ × ℕ) × Moving)
look sb has name zero off s = some (none, s)
look sb has name (suc left) off s = read_entry sb has off s >>= λ s'.
    let rest = look sb has name left (off + entry_size) s' in
    if load_short s'.2 0 == 0
    then rest
    else if namecmp name (name_of s'.2)
    then some (some (load_short s'.2 0, off), s')
    else rest

-- How often a loop over a directory runs.
abbrev pub entries : ℕ → ℕ
entries size = (size + 15) / 16

-- `dirlookup`: the entry of the cache with the offset, or `none` for 0.
abbrev pub Lookup : Type 0
Lookup = Option (ℕ × ℕ) × Inode × Disk × Icache

pub fetch : ℕ → Option (ℕ × ℕ) × Moving → Icache → Option Lookup
fetch dev (none, (dp, d, de)) t = some (none, dp, d, t)
fetch dev (some (inum, off), (dp, d, de)) t =
    iget dev inum t >>= λ (i, t'). some (some (i, off), dp, d, t')

unfoldable pub dirlookup : Superblock → (ℕ → Bool) → Inode → Block → Disk → Icache → Option Lookup
unfolding fetch
dirlookup sb has dp name d t =
    let found = look sb has name (entries dp.size) 0 (dp, d, λ i. 0) >>= λ r. fetch dp.dev r t in
    if dp.type == type_dir then found else none

-- The second loop of `dirlink`: the offset of the first entry without a number, or the end.
unfoldable pub find_empty : Superblock → (ℕ → Bool) → ℕ → ℕ → Moving → Option (ℕ × Moving)
find_empty sb has zero off s = some (off, s)
find_empty sb has (suc left) off s = read_entry sb has off s >>= λ s'.
    let rest = find_empty sb has left (off + entry_size) s' in
    if load_short s'.2 0 == 0 then some (off, s') else rest

-- `strncpy` into `de.name`, from the character `i` on; behind the end of the name it pads.
unfoldable pub pad_name : ℕ → ℕ → Block → Block
pad_name i zero de = de
pad_name i (suc left) de = pad_name (i + 1) left (put de (i + 2) 0)

unfoldable pub copy_name : Block → ℕ → ℕ → Block → Block
copy_name name i zero de = de
copy_name name i (suc left) de =
    let more = copy_name name (i + 1) left (put de (i + 2) (name i)) in
    let ends = pad_name (i + 1) left (put de (i + 2) 0) in if name i == 0 then ends else more

abbrev pub new_entry : Block → ℕ → Block → Block
new_entry name inum de = store_short (copy_name name 0 name_size de) 0 inum

-- `dirlink`; `false` is -1.
unfoldable pub write_entry :
    Superblock → (ℕ → Bool) → Block → ℕ → ℕ × Moving → Option (Inode × Disk)
unfolding check_read
write_entry sb has name inum (off, (dp, d, de)) =
    check_read (writei sb has dp 0 off entry_size d (new_entry name inum de)) >>= λ (dp', d', m).
    some (dp', d')

pub link : Superblock → (ℕ → Bool) → Block → ℕ → Lookup → Option (Bool × Inode × Disk × Icache)
link sb has name inum (some (i, off), dp, d, t) =
    iput sb i t d >>= λ (t', d'). some (false, dp, d', t')
link sb has name inum (none, dp, d, t) =
    find_empty sb has (entries dp.size) 0 (dp, d, λ i. 0) >>= λ r.
    write_entry sb has name inum r >>= λ (dp', d'). some (true, dp', d', t)

unfoldable pub dirlink :
    Superblock
    → (ℕ → Bool)
    → Inode
    → Block
    → ℕ
    → Disk
    → Icache
    → Option (Bool × Inode × Disk × Icache)
unfolding link
dirlink sb has dp name inum d t = dirlookup sb has dp name d t >>= λ r. link sb has name inum r

-- `skipelem` on the characters of a path before its NUL. The name is the buffer of `DIRSIZ` bytes.
unfoldable pub skip_slashes : List ℕ → List ℕ
skip_slashes [] = []
skip_slashes (c ∷ path) = if c == b'/' then skip_slashes path else c ∷ path

unfoldable pub element : List ℕ → List ℕ
element [] = []
element (c ∷ path) = let rest = element path in if c == b'/' then [] else c ∷ rest

unfoldable pub behind : List ℕ → List ℕ
behind [] = []
behind (c ∷ path) = let rest = behind path in if c == b'/' then c ∷ path else rest

-- `memmove` of the first `n` characters into the name, at `i`.
unfoldable pub move_name : List ℕ → ℕ → ℕ → Block → Block
move_name cs i zero name = name
move_name [] i (suc n) name = name
move_name (c ∷ cs) i (suc n) name = move_name cs (i + 1) n (put name i c)

unfoldable pub set_name : List ℕ → Block → Block
set_name cs name =
    if leb name_size (length cs)
    then move_name cs 0 name_size name
    else put (move_name cs 0 (length cs) name) (length cs) 0

pub split_path : List ℕ → Block → Option (List ℕ × Block)
split_path [] name = none
split_path (c ∷ path) name =
    some (skip_slashes (behind (c ∷ path)), set_name (element (c ∷ path)) name)

unfoldable pub skipelem : List ℕ → Block → Option (List ℕ × Block)
unfolding split_path
skipelem path name = split_path (skip_slashes path) name

-- What `namex` comes to: 0, an entry of the cache with the name that is left, a sleep for a lock,
-- after which it goes on, a panic, or a lack of fuel.
pub data Walk : Type 0 where
  missing : Icache → Disk → Walk
  arrived : ℕ → Block → Icache → Disk → Walk
  sleeps : ℕ → Walk
  panics : Walk
  no_fuel : Walk

-- The entry `i` behind `dirlookup`, which may have changed its inode.
abbrev pub keep_inode : ℕ → Inode → Icache → Icache
keep_inode i dp t = put t i (record (t i) { inode = dp })

-- `iunlockput` and then an answer.
pub leave : Superblock → ℕ → Icache → Disk → (Icache → Disk → Walk) → Walk
leave sb i t d answer = elim (iunlockput sb i t d) [ none ↦ panics | some (t', d') ↦ answer t' d' ]

-- The end of the loop of `namex`.
pub finish : Superblock → Bool → ℕ → Block → Icache → Disk → Walk
finish sb false i name t d = arrived i name t d
finish sb true i name t d = elim (iput sb i t d) [ none ↦ panics | some (t', d') ↦ missing t' d' ]

-- What follows `dirlookup` in the loop; `next` is the rest of the loop.
pub descend : Superblock → ℕ → (ℕ → Icache → Disk → Walk) → Option Lookup → Walk
unfolding leave
descend sb i next none = panics
descend sb i next (some (none, dp, d, t)) = leave sb i (keep_inode i dp t) d missing
descend sb i next (some (some (j, off), dp, d, t)) = leave sb i (keep_inode i dp t) d (next j)

-- The body of the loop, with the inode `i` locked and the path `rest` behind the name.
pub enter :
    Superblock
    → (ℕ → Bool)
    → Bool
    → List ℕ
    → Block
    → ℕ
    → (ℕ → Icache → Disk → Walk)
    → Icache
    → Disk
    → Walk
unfolding leave descend
enter sb has parent rest name i next t d =
    let stop : Walk = elim (iunlock i t) [ none ↦ panics | some t' ↦ arrived i name t' d ] in
    let is_last : Bool = elim rest [ [] ↦ true | c ∷ cs ↦ false ] in
    if not ((t i).inode.type == type_dir)
    then leave sb i t d missing
    else if parent && is_last
    then stop
    else descend sb i next (dirlookup sb has (t i).inode name d t)

pub lock_and_enter :
    Superblock
    → (ℕ → Bool)
    → Bool
    → List ℕ
    → Block
    → ℕ
    → (ℕ → Icache → Disk → Walk)
    → Icache
    → Disk
    → Walk
unfolding enter
lock_and_enter sb has parent rest name i next t d = elim (ilock sb i t d) [
  | none ↦ panics
  | some asleep ↦ sleeps i
  | some (locked t') ↦ enter sb has parent rest name i next t' d
]

-- The loop of `namex` at the inode `i`.
unfoldable pub walk : Superblock → (ℕ → Bool) → Bool → ℕ → List ℕ → ℕ → Block → Icache → Disk → Walk
unfolding finish lock_and_enter
walk sb has parent zero path i name t d = no_fuel
walk sb has parent (suc fuel) path i name t d = elim (skipelem path name) [
  | none ↦ finish sb parent i name t d
  | some (rest, name') ↦
      lock_and_enter sb has parent rest name' i
        (λ j t' d'. walk sb has parent fuel rest j name' t' d') t d
]

-- `namex` with the current directory `cwd`; `ROOTDEV` and `ROOTINO` are 1.
pub start_at : ℕ → List ℕ → Icache → Option (ℕ × Icache)
start_at cwd [] t = some (cwd, idup cwd t)
start_at cwd (c ∷ path) t = if c == b'/' then iget 1 1 t else some (cwd, idup cwd t)

unfoldable pub namex : Superblock → (ℕ → Bool) → ℕ → List ℕ → Bool → Block → Icache → Disk → Walk
unfolding start_at
namex sb has cwd path parent name t d = elim (start_at cwd path t) [
  | none ↦ panics
  | some (i, t') ↦ walk sb has parent (length path + 1) path i name t' d
]

unfoldable pub namei : Superblock → (ℕ → Bool) → ℕ → List ℕ → Icache → Disk → Walk
namei sb has cwd path t d = namex sb has cwd path false (λ i. 0) t d

unfoldable pub nameiparent : Superblock → (ℕ → Bool) → ℕ → List ℕ → Block → Icache → Disk → Walk
nameiparent sb has cwd path name t d = namex sb has cwd path true name t d
