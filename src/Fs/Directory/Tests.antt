-- ===== src/Fs/Directory/Tests.antt =====
-- Directories and paths at a small disk, and runs of the code.
use strace_xv.Base.{
  ◌==◌, if◌then◌else◌, put, ℕ, ◌+◌, ◌/◌, ◌%◌, ◌≤◌, ◌≡◌, refl, sym, ◌∙◌, ◌≢◌, Bool, true, false,
  none, some, List, [], ◌∷◌, arith,
}
use strace_xv.Fs.{Superblock, Block, Disk, bit}
use strace_xv.Fs.Inode.{Inode, move, iupdate}
use strace_xv.Fs.Content.{
  own_block, bmap, Moving, read_chunk, read_chunks, readi, write_chunk, write_chunks, extend,
  writei,
}
use strace_xv.Fs.Content.Slots.{slot, Keeps}
use strace_xv.Fs.Content.Chunks.{content}
use strace_xv.Fs.Icache.{Icache}
use strace_xv.Fs.Directory.{
  entries, same_from, namecmp, read_entry, look, fetch, dirlookup, find_empty, new_entry,
  write_entry, dirlink, skip_slashes, element, behind, move_name, set_name, skipelem, no_fuel,
  namex,
}
use strace_xv.Fs.Directory.Entries.{find_entry}
use strace_xv.Fs.Directory.Lookup.{IsDirectory, dirlookup-find_entry}
use strace_xv.Fs.Directory.Links.{Linking, dirlink_lem}
use strace_xv.Fs.Directory.Paths.{Split, skipelem-Split, namex_ends}

abbrev sb : Superblock
sb = record {
  size = 60;
  nblocks = 50;
  ninodes = 8;
  nlog = 0;
  logstart = 2;
  inodestart = 2;
  bmapstart = 3;
}

-- One entry stands in block 4, with the number 256.
abbrev disk : Disk
disk b i = if b == 3 then if i == 0 then 31 else 0 else if b == 4 then i % 256 else 0

abbrev folder : Inode
folder = record {
  dev = 1;
  inum = 1;
  type = 1;
  major = 0;
  minor = 0;
  nlink = 1;
  size = 16;
  addrs = λ i. if i == 0 then 4 else 0;
}

only : (k : ℕ) → k ≤ 140 → slot folder disk k ≢ 0 → (k ≡ 0) × (slot folder disk k ≡ 4)
only k h n = ground arith

folder-IsDirectory : IsDirectory sb folder disk
unfolding bit
folder-IsDirectory = record {
  file = record {
    laid = record {
      words = omega arith;
      map_size = λ b h. omega arith;
      map = λ b h. let e : b / 4096 + 3 ≡ 3 = omega arith in rw e (λ z. absurd (omega arith));
      boot = λ z. absurd (omega arith);
      home_size = omega arith;
      home = λ z. absurd (omega arith);
      home_map = λ b h z. absurd (omega arith);
    };
    slot_size = λ k h n. omega (arith, (only k h n).1);
    slot_used = λ k h n. rw ((only k h n).1) (λ z. absurd (omega arith));
    slot_map = λ k j h n l z. absurd (omega (arith, (only k h n).1));
    slot_home = λ k h n z. absurd (omega (arith, (only k h n).1));
    apart = λ i k h l n e. (only i h n).0 ∙ sym ((only k l (λ z. n (e ∙ z))).0);
  };
  dir = refl;
  small = omega arith;
  whole = refl;
  filled = λ p l. let e : p / 512 ≡ 0 = omega arith in rw e (λ z. absurd (omega arith));
}

no_devices : ℕ → Bool
no_devices major = false

-- The name `ab`.
abbrev name : Block
name i = if i == 0 then b'a' else if i == 1 then b'b' else 0

abbrev empty : Icache
empty i = record { inode = folder; ref = 0; busy = false; valid = false }

dirlookup-find_entry_example :
    (s : Moving) × (dirlookup sb no_devices folder name disk empty
      ≡ fetch 1 (find_entry (content folder disk) name 0 (entries 16), s) empty)
    × Keeps sb folder disk s.0 s.1
dirlookup-find_entry_example =
    dirlookup-find_entry sb no_devices folder name disk empty folder-IsDirectory

-- The entry goes to the end, so that the folder grows.
abbrev longer : Inode
longer = record folder { size = 32 }

abbrev entry_read : Block
entry_read = move (λ i. 0) 0 (disk 4) 0 16

abbrev linked : Disk
linked = iupdate sb longer (put disk 4 (move (disk 4) 16 (new_entry name 7 entry_read) 0 16))

name_absent : find_entry (content folder disk) name 0 1 ≡ none
unfolding find_entry namecmp same_from
name_absent = refl

dirlink-ab : dirlink sb no_devices folder name 7 disk empty ≡ some (true, longer, linked, empty)
unfolding dirlink dirlookup look read_entry find_empty write_entry readi read_chunks read_chunk
    writei write_chunks write_chunk bmap own_block extend move namecmp same_from fetch
dirlink-ab = refl

dirlink_lem_example :
    Linking sb no_devices folder name 7 disk empty (dirlink sb no_devices folder name 7 disk empty)
dirlink_lem_example =
    dirlink_lem sb no_devices folder name 7 disk empty folder-IsDirectory name_absent
      (λ z. absurd (omega arith)) (omega arith)

-- The examples above `skipelem`.
abbrev a_bb_c : List ℕ
a_bb_c = b'a' ∷ b'/' ∷ b'b' ∷ b'b' ∷ b'/' ∷ b'c' ∷ []

skipelem-a_bb_c :
    skipelem a_bb_c name ≡ some (b'b' ∷ b'b' ∷ b'/' ∷ b'c' ∷ [], put (put name 0 b'a') 1 0)
unfolding skipelem skip_slashes element behind move_name set_name
skipelem-a_bb_c = refl

skipelem_slashes : skipelem (b'/' ∷ b'/' ∷ []) name ≡ none
unfolding skipelem skip_slashes
skipelem_slashes = refl

skipelem-Split_example : Split a_bb_c (skipelem a_bb_c name)
skipelem-Split_example = skipelem-Split a_bb_c name

namex_ends_example : namex sb no_devices 0 a_bb_c false name empty disk ≢ no_fuel
namex_ends_example = namex_ends sb no_devices false 0 a_bb_c name empty disk
