-- ===== src/Fs/Tests.antt =====
-- The theorems on files at a small disk, and runs of the code.
use strace_xv.Base.{
  ◌==◌, if◌then◌else◌, put, ℕ, ◌+◌, ◌*◌, ◌/◌, ◌%◌, ◌≤◌, ◌<◌, ◌≡◌, refl, sym, ◌∙◌, ◌≢◌, Bool, false,
  none, some, arith,
}
use strace_xv.Fs.{
  Superblock, Block, Disk, zero_block, bit, set_bit, bzero, find_free, set_used, balloc_from,
  balloc, bfree,
}
use strace_xv.Fs.Bitmap.{used, MapUsed}
use strace_xv.Fs.Allocation.{Balloc, balloc-Balloc, bfree-balloc}
use strace_xv.Fs.Inode.{Inode, load_inode, move, iupdate}
use strace_xv.Fs.Inode.Stored.{Fits, Stored, iupdate-Stored}
use strace_xv.Fs.Content.{
  own_block, bmap, Moving, moved, readi, write_chunk, write_chunks, extend, writei, itrunc,
}
use strace_xv.Fs.Icache.{Icache, scan, recycled, iget, idup, ilock}
use strace_xv.Fs.Icache.Holders.{System, more, Step, Reach, IsSound}
use strace_xv.Fs.Icache.Net.{Answers, Reach-Answers}
use strace_xv.Fs.Content.Slots.{slot, IsLaid, IsFile}
use strace_xv.Fs.Content.Bmap.{Mapped, bmap-Mapped}
use strace_xv.Fs.Content.Bytes.{Read, readi-Read, Write, writei-Write, readi-writei}
use strace_xv.Fs.Content.Truncated.{Truncated, itrunc-Truncated}

-- Sixty blocks, with the inodes in block 2, the map in block 3 and a file in block 4.
abbrev sb : Superblock
sb = record {
  size = 60;
  nblocks = 50;
  ninodes = 8;
  nlog = 0;
  logstart = 2;
  inodestart = 2;
  bmapstart = 3;
}

abbrev disk : Disk
disk b i = if b == 3 then if i == 0 then 31 else 0 else if b == 4 then i % 256 else 0

abbrev file : Inode
file = record {
  dev = 1;
  inum = 5;
  type = 2;
  major = 0;
  minor = 0;
  nlink = 1;
  size = 10;
  addrs = λ i. if i == 0 then 4 else 0;
}

disk-MapUsed : MapUsed sb disk
unfolding bit
disk-MapUsed b h = let e : b / 4096 + 3 ≡ 3 = omega arith in rw e (λ z. absurd (omega arith))

disk-IsLaid : IsLaid sb 5 disk
unfolding bit
disk-IsLaid = record {
  words = omega arith;
  map_size = λ b h. omega arith;
  map = disk-MapUsed;
  boot = λ z. absurd (omega arith);
  home_size = omega arith;
  home = λ z. absurd (omega arith);
  home_map = λ b h z. absurd (omega arith);
}

-- The only block of the file.
only : (k : ℕ) → k ≤ 140 → slot file disk k ≢ 0 → (k ≡ 0) × (slot file disk k ≡ 4)
only k h n = ground arith

file-IsFile : IsFile sb file disk
unfolding bit
file-IsFile = record {
  laid = disk-IsLaid;
  slot_size = λ k h n. omega (arith, (only k h n).1);
  slot_used = λ k h n. rw ((only k h n).1) (λ z. absurd (omega arith));
  slot_map = λ k j h n l z. absurd (omega (arith, (only k h n).1));
  slot_home = λ k h n z. absurd (omega (arith, (only k h n).1));
  apart = λ i k h l n e. (only i h n).0 ∙ sym ((only k l (λ z. n (e ∙ z))).0);
}

file-Fits : Fits file
file-Fits = record {
  type_short = omega arith;
  major_short = omega arith;
  minor_short = omega arith;
  nlink_short = omega arith;
  size_word = omega arith;
  addrs_word = λ i h. ground arith;
}

no_devices : ℕ → Bool
no_devices major = false

abbrev memory : Block
memory i = i * 7

-- `balloc` takes the block 5, marks it and clears it.
abbrev after_balloc : Disk
after_balloc = bzero (set_used sb disk 5) 5

balloc-five : balloc sb disk ≡ some (5, after_balloc)
unfolding balloc balloc_from find_free bit set_bit
balloc-five = refl

bfree_free : bfree sb disk 9 ≡ none
unfolding bfree bit
bfree_free = refl

balloc-Balloc_example : Balloc sb disk (balloc sb disk)
balloc-Balloc_example = balloc-Balloc sb disk disk-MapUsed

bfree-balloc_example :
    (d2 : Disk) × (bfree sb after_balloc 5 ≡ some d2)
    × ((j : ℕ) → j < 60 → used sb d2 j ≡ used sb disk j)
bfree-balloc_example = bfree-balloc sb disk disk-MapUsed balloc-five

iupdate-Stored_example : Stored sb disk file (iupdate sb file disk)
iupdate-Stored_example = iupdate-Stored sb disk file file-Fits

bmap-Mapped_example : Mapped sb file disk 13 (bmap sb file 13 disk)
bmap-Mapped_example = bmap-Mapped sb file disk 13 file-IsFile (omega arith)

readi-Read_example :
    Read sb file disk memory 100 6 20 (readi sb no_devices file 100 6 20 disk memory)
readi-Read_example =
    readi-Read sb no_devices file disk memory 100 6 20 file-IsFile (λ z. absurd (omega arith))
      (omega arith) (omega arith) (omega arith)

writei-Write_example :
    Write sb file disk memory 100 6 20 (writei sb no_devices file 100 6 20 disk memory)
writei-Write_example =
    writei-Write sb no_devices file disk memory 100 6 20 file-IsFile (λ z. absurd (omega arith))
      (omega arith) (omega arith) (omega arith)

-- Three bytes are written at the offset 4 of the file.
abbrev after_write : Disk
after_write = put disk 4 (move (disk 4) 4 memory 8 3)

writei-three :
    writei sb no_devices file 8 4 3 disk memory ≡ some (moved 3 (file, after_write, memory))
unfolding writei write_chunks write_chunk bmap own_block extend
writei-three = refl

readi-writei_example :
    (s : Moving) × (readi sb no_devices file 50 4 3 after_write zero_block ≡ some (moved 3 s))
    × ((j : ℕ) → j < 3 → s.2 (50 + j) ≡ memory (8 + j))
readi-writei_example =
    readi-writei sb no_devices file disk memory 8 4 3 50 zero_block file-IsFile
      (λ z. absurd (omega arith)) (omega arith) (omega arith) (omega arith) writei-three

itrunc-Truncated_example :
    (s : Inode × Disk) × (itrunc sb file disk ≡ some s) × Truncated sb file disk s.0 s.1
itrunc-Truncated_example = itrunc-Truncated sb file disk file-IsFile

-- An empty cache, into which the file is fetched.
abbrev empty : Icache
empty i = record { inode = file; ref = 0; busy = false; valid = false }

abbrev start : System
start = record { disk = disk; table = empty; held = λ i. 0; locks = λ i. 0 }

start-IsSound : IsSound start
start-IsSound = record {
  counts = λ i l. refl;
  within = λ i l. absurd (omega arith);
  busy = λ i l. refl;
  owned = λ i. omega arith;
  unique = λ i j l u r c. absurd (omega arith);
}

abbrev fetched : Icache
fetched = put empty 0 (recycled 1 5 (empty 0))

iget-empty : iget 1 5 empty ≡ some (0, fetched)
unfolding iget scan
iget-empty = refl

ilock-fresh : ilock sb 0 fetched disk ≡ none
unfolding ilock load_inode
ilock-fresh = refl

Reach-Answers_example : Answers sb (record {
  disk = disk;
  table = idup 0 fetched;
  held = more (more (λ i. 0) 0) 0;
  locks = λ i. 0;
})
Reach-Answers_example =
    Reach-Answers start-IsSound
      (Reach.next (Reach.next Reach.here (Step.get 1 5 iget-empty)) (Step.dup 0 (omega arith)))
