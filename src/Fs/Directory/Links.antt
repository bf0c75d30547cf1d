-- ===== src/Fs/Directory/Links.antt =====
-- `dirlink` against the entries of a directory.
use strace_xv.Base.{
  ltb, ◌==◌, if◌then◌else◌, lt→ltb, Bool-cases, ◌>>=◌, ℕ, ◌+◌, ◌-◌, ◌*◌, ◌/◌, ◌%◌, ◌≤◌, ◌<◌, ◌≡◌,
  refl, sym, ap, ◌∙◌, ◌≢◌, inl, inr, Bool, true, false, Option, none, some, arith,
}
use strace_xv.Fs.{Superblock, Block, Disk}
use strace_xv.Fs.Inode.{Inode}
use strace_xv.Fs.Content.{Moving, Transfer}
use strace_xv.Fs.Content.Slots.{slot, Keeps, Keeps-trans}
use strace_xv.Fs.Content.Chunks.{content}
use strace_xv.Fs.Content.Bytes.{Written, Write, writei-Write}
use strace_xv.Fs.Icache.{Icache}
use strace_xv.Fs.Directory.{
  entries, name_of, namecmp, new_entry, check_read, fetch, write_entry, link, dirlink,
}
use strace_xv.Fs.Directory.Added.{
  grown, find_hole_bounds, grown_lem, Added, find_entry-new, find_entry-old,
}
use strace_xv.Fs.Directory.Entries.{
  name_at, find_entry, find_hole, namecmp-same, namecmp_self, find_entry-same, find_hole-same,
  namecmp-copy,
}
use strace_xv.Fs.Directory.Lookup.{
  IsDirectory, IsDirectory-Keeps, find_empty_lem, same_content, size_kept, dirlookup-find_entry,
}

module _ (sb : Superblock) (has : ℕ → Bool) where
  -- What a link of a new name leaves.
  pub record Linked (dp : Inode) (name : Block) (inum : ℕ) (d : Disk) (dp' : Inode) (d' : Disk)
      : Type 0 where
    pub directory : IsDirectory sb dp' d'
    pub linked :
        find_entry (content dp' d') name 0 (entries dp'.size)
        ≡ some (inum, find_hole (content dp d) 0 (entries dp.size))
    pub others :
        (other : Block)
        → namecmp other name ≡ false
        → find_entry (content dp' d') other 0 (entries dp'.size)
          ≡ find_entry (content dp d) other 0 (entries dp.size)

  -- What a link of a new name comes to: a panic if the directory has to grow, and is the largest or
  -- has no block for the new end, or else the link.
  pub data Linking (dp : Inode) (name : Block) (inum : ℕ) (d : Disk) (t : Icache)
      : Option (Bool × Inode × Disk × Icache) → Type 0 where
    largest :
        find_hole (content dp d) 0 (entries dp.size) ≡ dp.size
        → 71680 < dp.size + 16
        → Linking dp name inum d t none
    no_block :
        (p : ℕ)
        → find_hole (content dp d) 0 (entries dp.size) ≡ dp.size
        → dp.size ≤ p
        → p < dp.size + 16
        → slot dp d (p / 512) ≡ 0
        → Linking dp name inum d t none
    linked :
        (dp' : Inode) (d' : Disk)
        → Linked dp name inum d dp' d'
        → Linking dp name inum d t (some (true, dp', d', t))

  -- The new entry in the content.
  Added-Written :
      (dp : Inode) (name : Block) (inum : ℕ) (d : Disk) (s : Moving) (at : ℕ) {dp' : Inode}
      {d' : Disk}
      → Keeps sb dp d s.0 s.1
      → inum < 65536
      → Written sb s.0 s.1 (new_entry name inum s.2) 0 at 16 dp' d'
      → (c : Block) → ((p : ℕ) → p < 71680 → c p ≡ content dp' d' p)
      → ((p : ℕ) → 71680 ≤ p → c p ≡ content dp d p)
      → at + 16 ≤ 71680
      → Added (content dp d) c name inum at
  Added-Written dp name inum d s at {dp'} {d'} k l w c low high fits =
      let byte = λ (j : ℕ) (u : j < 16).
        let e : c (at + j) ≡ new_entry name inum s.2 j =
          low (at + j) (omega arith)
          ∙ w.inside (at + j) (omega arith) (omega arith)
          ∙ ap (new_entry name inum s.2) (let q : 0 + (at + j - at) ≡ j = omega arith in q) in
        e in
      record {
        number =
            let first : c at ≡ new_entry name inum s.2 0 =
              ap c (let q : at ≡ at + 0 = omega arith in q) ∙ byte 0 (omega arith) in
            let bytes : new_entry name inum s.2 0 + 256 * new_entry name inum s.2 1 ≡ inum =
              omega arith in
            omega (arith, first, byte 1 (omega arith), bytes);
        named = λ o.
            namecmp-same o (name_at c at) (name_of (new_entry name inum s.2))
              (λ j u. byte (j + 2) (omega arith))
            ∙ namecmp-copy name o s.2 inum;
        others = λ p h. elim (Bool-cases (ltb p 71680)) [
          | inl u ↦
              low p (ground arith)
              ∙ w.outside p (ground arith) h
              ∙ same_content sb has p k (ground arith)
          | inr u ↦ high p (ground arith)
        ];
      }

  hole_bounds :
      {dp : Inode} {d : Disk}
      → IsDirectory sb dp d
      → (find_hole (content dp d) 0 (entries dp.size) ≤ dp.size)
        × (find_hole (content dp d) 0 (entries dp.size) % 16 ≡ 0)
  hole_bounds {dp} {d} h =
      let (a, b, m) = find_hole_bounds (content dp d) 0 (entries dp.size) in
      (omega (arith, h.whole), omega arith)

  module _ (dp : Inode) (name : Block) (inum : ℕ) (d : Disk) (s : Moving) {dp' : Inode} {d' : Disk}
      (h : IsDirectory sb dp d) (k : Keeps sb dp d s.0 s.1) (pos : inum ≢ 0) (l : inum < 65536)
      (w : Written sb s.0 s.1
        (new_entry name inum s.2)
        0
        (find_hole (content dp d) 0 (entries dp.size))
        16
        dp'
        d')
      (fits : find_hole (content dp d) 0 (entries dp.size) + 16 ≤ 71680) where
    abbrev hole : ℕ
    hole = find_hole (content dp d) 0 (entries dp.size)

    -- The content within the largest file.
    abbrev clipped : Block
    clipped p = if ltb p 71680 then content dp' d' p else content dp d p

    clipped-Added : Added (content dp d) clipped name inum hole
    clipped-Added =
        Added-Written dp name inum d s hole k l w clipped (λ p u. rw (lt→ltb p 71680 u) refl)
          (λ p u. let e : ltb p 71680 ≡ false = ground arith in rw e refl) fits

    size_linked : dp'.size ≡ (if ltb dp.size (hole + 16) then hole + 16 else dp.size)
    size_linked = w.size ∙ ap (λ n. if ltb n (hole + 16) then hole + 16 else n) (size_kept sb has k)

    hole_le : (hole ≤ dp.size) × (hole % 16 ≡ 0)
    hole_le = hole_bounds h

    entries-grown : entries dp'.size ≡ grown (content dp d) 0 (entries dp.size)
    entries-grown =
        let (a, m) = hole_le in
        let g = grown_lem (content dp d) 0 (entries dp.size) in
        elim (Bool-cases (ltb hole (0 + 16 * entries dp.size))) [
          | inl inner ↦
              let g' : grown (content dp d) 0 (entries dp.size) ≡ entries dp.size =
                g ∙ rw inner refl in
              ground (arith, g', size_linked, h.whole)
          | inr end ↦
              let g' : grown (content dp d) 0 (entries dp.size) ≡ entries dp.size + 1 =
                g ∙ rw end refl in
              ground (arith, g', size_linked, h.whole)
        ]

    in_clip :
        (other : Block)
        → find_entry (content dp' d') other 0 (entries dp'.size)
          ≡ find_entry clipped other 0 (grown (content dp d) 0 (entries dp.size))
    in_clip other =
        find_entry-same (content dp' d') clipped other 0 (entries dp'.size) (λ p a b.
          sym (rw (lt→ltb p 71680 (ground (arith, size_linked, h.small, entries_small))) refl))
        ∙ ap (find_entry clipped other 0) entries-grown
      where
        entries_small : 16 * entries dp'.size ≤ 71680
        entries_small = ground (arith, size_linked, h.small, h.whole, hole_le.1)

    -- The size of the directory stays a whole number of entries.
    IsDirectory-linked : IsDirectory sb dp' d'
    IsDirectory-linked =
        let (a, m) = hole_le in
        let before = IsDirectory-Keeps h k in
        record {
          file = w.file;
          dir = ap (λ (x : Inode). x.type) w.same ∙ before.dir;
          small = ground (arith, size_linked, h.small);
          whole = ground (arith, size_linked, h.whole);
          filled = λ p u. elim (Bool-cases (ltb p hole)) [
            | inl low ↦
                let t = before.filled p (ground (arith, size_kept sb has k)) in
                λ z. t (sym (w.slots (p / 512) (ground (arith, h.small)) t) ∙ z)
            | inr high ↦ elim (Bool-cases (ltb p (hole + 16))) [
              | inl new ↦ w.filled p (ground arith) (ground arith)
              | inr far ↦
                  let t = before.filled p (ground (arith, size_kept sb has k, size_linked)) in
                  λ z. t (sym (w.slots (p / 512) (ground (arith, h.small, size_linked)) t) ∙ z)
            ]
          ];
        }

    Linked-Written :
        find_entry (content dp d) name 0 (entries dp.size) ≡ none → Linked dp name inum d dp' d'
    Linked-Written n = record {
      directory = IsDirectory-linked;
      linked =
          in_clip name
          ∙ find_entry-new (content dp d) clipped name inum pos name 0 (entries dp.size)
              clipped-Added (namecmp_self name) n;
      others = λ other e.
          in_clip other
          ∙ find_entry-old (content dp d) clipped name inum pos other 0 (entries dp.size)
              clipped-Added e;
    }

  -- The call of `dirlink` with a name that the directory does not have.
  dirlink_absent :
      (dp : Inode) (name : Block) (inum : ℕ) (d : Disk) (t : Icache)
      → IsDirectory sb dp d
      → find_entry (content dp d) name 0 (entries dp.size) ≡ none
      → (s : Moving) × Keeps sb dp d s.0 s.1
        × (dirlink sb has dp name inum d t ≡ (
            write_entry sb has name inum (find_hole (content dp d) 0 (entries dp.size), s)
            >>= λ (dp', d'). some (true, dp', d', t)))
  unfolding dirlink link fetch
  dirlink_absent dp name inum d t h n =
      let (s1, e1, k1) = dirlookup-find_entry sb has dp name d t h in
      let (s2, e2, k2) =
        find_empty_lem sb has (entries s1.0.size) 0 s1.0 s1.1 (λ i. 0) (IsDirectory-Keeps h k1)
          (omega (arith, (IsDirectory-Keeps h k1).whole)) in
      let same : find_hole (content s1.0 s1.1) 0 (entries s1.0.size)
          ≡ find_hole (content dp d) 0 (entries dp.size) =
        find_hole-same (content s1.0 s1.1) (content dp d) 0 (entries s1.0.size) (λ p a b.
          same_content sb has p k1
            (omega (arith, (IsDirectory-Keeps h k1).small, (IsDirectory-Keeps h k1).whole)))
        ∙ ap (λ (m : ℕ). find_hole (content dp d) 0 (entries m)) (size_kept sb has k1) in
      (s2, Keeps-trans k1 k2, rw (e1, n) (rw (e2, same) refl))

  -- The write of the new entry.
  Linking-Write :
      (dp : Inode) (name : Block) (inum : ℕ) (d : Disk) (t : Icache) (s : Moving)
      {o : Option (Transfer Moving)}
      → IsDirectory sb dp d
      → Keeps sb dp d s.0 s.1
      → find_entry (content dp d) name 0 (entries dp.size) ≡ none
      → inum ≢ 0
      → inum < 65536
      → Write sb s.0 s.1
          (new_entry name inum s.2)
          0
          (find_hole (content dp d) 0 (entries dp.size))
          16
          o
      → Linking dp name inum d t (
          ◌>>=◌ {B = Bool × Inode × Disk × Icache}
            (◌>>=◌ {B = Inode × Disk} (check_read o) (λ (x, y, m). some (x, y)))
            (λ (x, y). some (true, x, y, t)))
  unfolding check_read
  Linking-Write dp name inum d t s h k n pos l (Write.outside u) =
      let (a, m) = hole_bounds h in
      largest (ground (arith, size_kept sb has k, h.small, h.whole))
        (ground (arith, size_kept sb has k))
  Linking-Write dp name inum d t s h k n pos l (Write.hole p b u z) =
      let (a, m) = hole_bounds h in
      let none_there : slot dp d (p / 512) ≡ 0 = elim (Bool-cases (slot dp d (p / 512) == 0)) [
        | inl e ↦ ground arith
        | inr e ↦
            let there : slot dp d (p / 512) ≢ 0 = ground arith in
            absurd (there (sym (k.slots (p / 512) (omega (arith, h.small)) there) ∙ z))
      ] in
      let end : dp.size ≤ p = elim (Bool-cases (ltb p dp.size)) [
        | inl e ↦ absurd (h.filled p (ground arith) none_there)
        | inr e ↦ ground arith
      ] in
      no_block p (omega (arith, h.whole)) end (omega arith) none_there
  Linking-Write dp name inum d t s h k n pos l (Write.done dp' d' b fits w) =
      linked dp' d' (Linked-Written dp name inum d s h k pos l w fits n)

  -- Let a directory have whole entries, no missing parts and at most the largest size, its blocks be
  -- distinct, in use and apart from the map and the block of its inode, and the log have room. Then a
  -- link of a name that it does not have, to a number of 16 bits that is not 0, panics only if no
  -- entry is free and the directory is the largest or has no block yet for the entry at its end; else
  -- it answers 0 and leaves such a directory, in which the name is found with this number, at the
  -- first entry that was free or else at the end, and every name that differs from it as before; the
  -- cache of inodes stays as it is.
  pub dirlink_lem :
      (dp : Inode) (name : Block) (inum : ℕ) (d : Disk) (t : Icache)
      → IsDirectory sb dp d
      → find_entry (content dp d) name 0 (entries dp.size) ≡ none
      → inum ≢ 0
      → inum < 65536
      → Linking dp name inum d t (dirlink sb has dp name inum d t)
  unfolding write_entry
  dirlink_lem dp name inum d t h n pos l =
      let (s, k, q) = dirlink_absent dp name inum d t h n in
      rw q (
        Linking-Write dp name inum d t s h k n pos l (
          writei-Write sb has s.0 s.1 (new_entry name inum s.2) 0
            (find_hole (content dp d) 0 (entries dp.size)) 16 k.file
            (λ z. absurd (omega (arith, (IsDirectory-Keeps h k).dir))) (IsDirectory-Keeps h k).small
            (omega (arith, (hole_bounds h).0, h.small)) (omega arith)))
