-- ===== src/Fs/Directory/Lookup.antt =====
-- `dirlookup` and `dirlink` against the entries of a directory.
use strace_xv.Base.{
  ◌==◌, Bool-cases, ℕ, zero, suc, ◌+◌, ◌*◌, ◌/◌, ◌%◌, ◌≤◌, ◌<◌, ◌≡◌, refl, sym, ap, ◌∙◌, ◌≢◌, inl,
  inr, Bool, true, Option, some, arith,
}
use strace_xv.Fs.{Superblock, Block, Disk}
use strace_xv.Fs.Inode.{Inode, load_short}
use strace_xv.Fs.Content.{Moving, Transfer}
use strace_xv.Fs.Content.Slots.{slot, IsFile, Keeps, Keeps-refl, Keeps-trans}
use strace_xv.Fs.Content.Chunks.{content}
use strace_xv.Fs.Content.Bytes.{Read, readi-Read}
use strace_xv.Fs.Icache.{Icache}
use strace_xv.Fs.Directory.{
  entries, name_of, namecmp, check_read, read_entry, look, fetch, dirlookup, find_empty,
}
use strace_xv.Fs.Directory.Entries.{
  number_at, name_at, find_entry, find_hole, namecmp-same, find_entry-same, find_hole-same,
}

-- A directory with no parts missing.
pub record IsDirectory (sb : Superblock) (dp : Inode) (d : Disk) : Type 0 where
  pub file : IsFile sb dp d
  pub dir : dp.type ≡ 1
  pub small : dp.size ≤ 71680
  pub whole : dp.size % 16 ≡ 0
  pub filled : (p : ℕ) → p < dp.size → slot dp d (p / 512) ≢ 0

pub IsDirectory-Keeps :
    {sb : Superblock} {dp dp' : Inode} {d d' : Disk}
    → IsDirectory sb dp d
    → Keeps sb dp d dp' d'
    → IsDirectory sb dp' d'
IsDirectory-Keeps {sb} {dp} {dp'} {d} {d'} h k =
    let size≡ : dp'.size ≡ dp.size = ap (λ (x : Inode). x.size) k.same in
    record {
      file = k.file;
      dir = ap (λ (x : Inode). x.type) k.same ∙ h.dir;
      small = omega (arith, h.small);
      whole = ap (λ (n : ℕ). n % 16) size≡ ∙ h.whole;
      filled = λ p l z.
          let t = h.filled p (omega arith) in
          t (sym (k.slots (p / 512) (omega (arith, h.small)) t) ∙ z);
    }

module _ (sb : Superblock) (has : ℕ → Bool) where
  record EntryRead (dp : Inode) (d : Disk) (off : ℕ) (s : Moving) : Type 0 where
    keeps : Keeps sb dp d s.0 s.1
    bytes : (j : ℕ) → j < 16 → s.2 j ≡ content dp d (off + j)

  read_entry_lem :
      (dp : Inode) (d : Disk) (de : Block) (off : ℕ)
      → IsDirectory sb dp d
      → off + 16 ≤ dp.size
      → (s : Moving) × (read_entry sb has off (dp, d, de) ≡ some s) × EntryRead dp d off s
  unfolding read_entry
  read_entry_lem dp d de off h l = go (
      readi-Read sb has dp d de 0 off 16 h.file (λ z. absurd (omega (arith, h.dir))) h.small
        (omega (arith, h.small)) (omega arith))
    where
      go :
          {o : Option (Transfer Moving)}
          → Read sb dp d de 0 off 16 o
          → (s : Moving) × (check_read o ≡ some s) × EntryRead dp d off s
      go (Read.outside t) = absurd (ground (arith, h.small))
      go (Read.hole p a b c z) = absurd (h.filled p c z)
      go (Read.done m ip' d' mem' u e k i o) =
          let m≡ : m ≡ 16 = ground arith in
          (
            (ip', d', mem'),
            rw m≡ refl,
            record {
              keeps = k;
              bytes = λ j w.
                  i j (omega arith) (omega arith) ∙ ap (λ x. content dp d (off + x)) (omega arith);
            },
          )

  pub same_content :
      {dp dp' : Inode} {d d' : Disk} (p : ℕ)
      → Keeps sb dp d dp' d'
      → p < 71680
      → content dp' d' p ≡ content dp d p
  same_content p k l = k.bytes (p / 512) (p % 512) (omega arith)

  -- The entry in the buffer is that of the content.
  number_read :
      {dp : Inode} {d : Disk} {off : ℕ} {s : Moving}
      → EntryRead dp d off s
      → load_short s.2 0 ≡ number_at (content dp d) off
  number_read {dp} {d} {off} {s} r =
      let first : s.2 0 ≡ content dp d off =
        r.bytes 0 (omega arith)
        ∙ ap (λ x. content dp d x) (let e : off + 0 ≡ off = omega arith in e) in
      omega (arith, first, r.bytes 1 (omega arith))

  name_read :
      (name : Block) {dp : Inode} {d : Disk} {off : ℕ} {s : Moving}
      → EntryRead dp d off s
      → namecmp name (name_of s.2) ≡ namecmp name (name_at (content dp d) off)
  name_read name {dp} {d} {off} {s} r =
      namecmp-same name (name_of s.2) (name_at (content dp d) off)
        (λ j l. r.bytes (j + 2) (omega arith))

  pub size_kept : {dp dp' : Inode} {d d' : Disk} → Keeps sb dp d dp' d' → dp'.size ≡ dp.size
  size_kept k = ap (λ (x : Inode). x.size) k.same

  look_lem :
      (name : Block) (left off : ℕ) (dp : Inode) (d : Disk) (de : Block)
      → IsDirectory sb dp d
      → off + 16 * left ≤ dp.size
      → (s : Moving) × (look sb has name left off (dp, d, de)
          ≡ some (find_entry (content dp d) name off left, s))
        × Keeps sb dp d s.0 s.1
  unfolding look find_entry
  look_lem name zero off dp d de h l = ((dp, d, de), refl, Keeps-refl sb dp d h.file)
  look_lem name (suc left) off dp d de h l =
      let (s, e, r) = read_entry_lem dp d de off h (omega arith) in
      let (s2, e2, k2) =
        look_lem name left (off + 16) s.0 s.1 s.2 (IsDirectory-Keeps h r.keeps)
          (omega (arith, size_kept r.keeps)) in
      let same : find_entry (content s.0 s.1) name (off + 16) left
          ≡ find_entry (content dp d) name (off + 16) left =
        find_entry-same (content s.0 s.1) (content dp d) name (off + 16) left
          (λ p a b. same_content p r.keeps (omega (arith, h.small))) in
      rw (e, sym (number_read r), sym (name_read name r))
        (elim (Bool-cases (load_short s.2 0 == 0)) [
          | inl z ↦ rw z (s2, e2 ∙ ap (λ x. some (x, s2)) same, Keeps-trans r.keeps k2)
          | inr t ↦ elim (Bool-cases (namecmp name (name_of s.2))) [
            | inl y ↦ rw (t, y) (s, refl, r.keeps)
            | inr y ↦ rw (t, y) (s2, e2 ∙ ap (λ x. some (x, s2)) same, Keeps-trans r.keeps k2)
          ]
        ])

  pub find_empty_lem :
      (left off : ℕ) (dp : Inode) (d : Disk) (de : Block)
      → IsDirectory sb dp d
      → off + 16 * left ≤ dp.size
      → (s : Moving) × (find_empty sb has left off (dp, d, de)
          ≡ some (find_hole (content dp d) off left, s))
        × Keeps sb dp d s.0 s.1
  unfolding find_empty find_hole
  find_empty_lem zero off dp d de h l = ((dp, d, de), refl, Keeps-refl sb dp d h.file)
  find_empty_lem (suc left) off dp d de h l =
      let (s, e, r) = read_entry_lem dp d de off h (omega arith) in
      let (s2, e2, k2) =
        find_empty_lem left (off + 16) s.0 s.1 s.2 (IsDirectory-Keeps h r.keeps)
          (omega (arith, size_kept r.keeps)) in
      let same : find_hole (content s.0 s.1) (off + 16) left
          ≡ find_hole (content dp d) (off + 16) left =
        find_hole-same (content s.0 s.1) (content dp d) (off + 16) left
          (λ p a b. same_content p r.keeps (omega (arith, h.small))) in
      rw (e, sym (number_read r))
        (elim (Bool-cases (load_short s.2 0 == 0)) [
          | inl z ↦ rw z (s, refl, r.keeps)
          | inr t ↦ rw t (s2, e2 ∙ ap (λ x. some (x, s2)) same, Keeps-trans r.keeps k2)
        ])

  -- `dirlookup` of a directory without missing parts finds the first entry in its content that has a
  -- number and compares equal with the name, fetches its inode, and changes no byte of the directory.
  pub dirlookup-find_entry :
      (dp : Inode) (name : Block) (d : Disk) (t : Icache)
      → IsDirectory sb dp d
      → (s : Moving) × (dirlookup sb has dp name d t
          ≡ fetch dp.dev (find_entry (content dp d) name 0 (entries dp.size), s) t)
        × Keeps sb dp d s.0 s.1
  unfolding dirlookup
  dirlookup-find_entry dp name d t h =
      let (s, e, k) = look_lem name (entries dp.size) 0 dp d (λ i. 0) h (omega (arith, h.whole)) in
      let dir : (dp.type == 1) ≡ true = ground (arith, h.dir) in (s, rw (dir, e) refl, k)
