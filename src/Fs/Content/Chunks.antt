-- ===== src/Fs/Content/Chunks.antt =====
-- The loops of `readi` and `writei` against the content of a file as one array of bytes.
use strace_xv.Base.{
  ◌==◌, Bool-cases, ◌>>=◌, put, put_self, ==_ne, ℕ, ◌+◌, ◌-◌, ◌/◌, ◌%◌, ◌≤◌, ◌<◌, ◌≡◌, refl, sym,
  ap, ◌∙◌, subst, ◌≢◌, ◌⊎◌, inl, inr, Option, none, some, arith,
}
use strace_xv.Fs.{Superblock, Block, Disk, bitmap_block}
use strace_xv.Fs.Inode.{Inode, move}
use strace_xv.Fs.Inode.Words.{move-in, move-out}
use strace_xv.Fs.Content.{Moving, read_chunk, write_chunk}
use strace_xv.Fs.Content.Slots.{slot, byte, IsFile, Keeps, Grows, Grows-same}
use strace_xv.Fs.Content.Bmap.{Mapped, bmap-Mapped}
use strace_xv.Fs.Content.Writes.{used-put, slot-put, IsFile-put, byte-put}

-- The byte at an offset; a part without a block has zeros.
abbrev pub content : Inode → Disk → ℕ → ℕ
content ip d p = byte ip d (p / 512) (p % 512)

-- What a read of `n` bytes at `off` comes to. It panics only if a part of the range has no block.
pub data Reading (sb : Superblock) (ip : Inode) (d : Disk) (mem : Block) (dst off n : ℕ)
    : Option Moving → Type 0 where
  hole :
      (p : ℕ) → off ≤ p → p < off + n → slot ip d (p / 512) ≡ 0 → Reading sb ip d mem dst off n none
  read :
      (ip' : Inode) (d' : Disk) (mem' : Block)
      → Keeps sb ip d ip' d'
      → ((j : ℕ) → dst ≤ j → j < dst + n → mem' j ≡ content ip d (off + (j - dst)))
      → ((j : ℕ) → (j < dst) ⊎ (dst + n ≤ j) → mem' j ≡ mem j)
      → Reading sb ip d mem dst off n (some (ip', d', mem'))

-- What a write of `n` bytes at `off` does to a file.
pub record Wrote (sb : Superblock) (ip : Inode) (d : Disk) (mem : Block) (src off n : ℕ)
    (ip' : Inode) (d' : Disk) : Type 0 where
  pub file : IsFile sb ip' d'
  pub inside : (p : ℕ) → off ≤ p → p < off + n → content ip' d' p ≡ mem (src + (p - off))
  pub outside : (p : ℕ) → p < 71680 → (p < off) ⊎ (off + n ≤ p) → content ip' d' p ≡ content ip d p
  pub slots : (k : ℕ) → k ≤ 140 → slot ip d k ≢ 0 → slot ip' d' k ≡ slot ip d k
  pub filled : (p : ℕ) → off ≤ p → p < off + n → slot ip' d' (p / 512) ≢ 0
  pub grows : Grows sb ip d ip' d'
  pub same : ip' ≡ record ip { addrs = ip'.addrs }

pub data Writing (sb : Superblock) (ip : Inode) (d : Disk) (mem : Block) (src off n : ℕ)
    : Option Moving → Type 0 where
  hole :
      (p : ℕ) → off ≤ p → p < off + n → slot ip d (p / 512) ≡ 0 → Writing sb ip d mem src off n none
  wrote :
      (ip' : Inode) (d' : Disk)
      → Wrote sb ip d mem src off n ip' d'
      → Writing sb ip d mem src off n (some (ip', d', mem))

-- A run of `m` bytes within one block of the file, of which all blocks are kept.
module _ (sb : Superblock) {ip : Inode} {d : Disk} (mem : Block) (src off m : ℕ) (ip' : Inode)
    (d' : Disk) (k : Keeps sb ip d ip' d') (there : slot ip' d' (off / 512) ≢ 0) (pos : 0 < m)
    (h : m ≤ 512 - off % 512) (l : off < 71680) where
  abbrev place : ℕ
  place = slot ip' d' (off / 512)

  abbrev edited : Block
  edited = move (d' place) (off % 512) mem src m

  off_map : (j : ℕ) → j < sb.size → place ≢ bitmap_block sb j
  off_map j u = k.file.slot_map (off / 512) j (omega arith) there u

  off_links : ip'.addrs 12 ≢ 0 → place ≢ ip'.addrs 12
  off_links t e =
      absurd (omega (arith, k.file.apart (off / 512) 140 (omega arith) (omega arith) there e))

  here : (q : ℕ) → byte ip' (put d' place edited) (off / 512) q ≡ edited q
  here q =
      rw (slot-put sb ip' d' k.file place edited off_map off_links (off / 512), ==_ne place 0 there)
        (ap (λ (c : Block). c q) (put_self d' place edited))

  before : (q : ℕ) → d' place q ≡ byte ip d (off / 512) q
  before q = sym (rw (==_ne place 0 there) refl) ∙ k.bytes (off / 512) q (omega arith)

  inside_chunk :
      (p : ℕ) → off ≤ p → p < off + m → content ip' (put d' place edited) p ≡ mem (src + (p - off))
  inside_chunk p t u =
      let q : p / 512 ≡ off / 512 = omega arith in
      let r : p % 512 - off % 512 ≡ p - off = omega arith in
      rw q (here (p % 512))
      ∙ move-in (d' place) (off % 512) mem src m (p % 512) (omega arith) (omega arith)
      ∙ ap (λ x. mem (src + x)) r

  outside_chunk :
      (p : ℕ)
      → p < 71680
      → (p < off) ⊎ (off + m ≤ p)
      → content ip' (put d' place edited) p ≡ content ip d p
  outside_chunk p u t = elim (Bool-cases (p / 512 == off / 512)) [
    | inl e ↦
        let q : p / 512 ≡ off / 512 = ground arith in
        let apart : (p % 512 < off % 512) ⊎ (off % 512 + m ≤ p % 512) = elim t [
          | inl b ↦ inl (omega arith)
          | inr b ↦ inr (omega arith)
        ] in
        rw q (
          here (p % 512)
          ∙ move-out (d' place) (off % 512) mem src m (p % 512) apart
          ∙ before (p % 512))
    | inr n ↦
        let other : off / 512 ≢ p / 512 = ground arith in
        byte-put sb ip' d' k.file place edited off_map off_links (p / 512) (p % 512)
          (λ z e. other (k.file.apart (off / 512) (p / 512) (omega arith) (omega arith) there e))
        ∙ k.bytes (p / 512) (p % 512) (omega arith)
  ]

  Wrote-chunk : Wrote sb ip d mem src off m ip' (put d' place edited)
  Wrote-chunk = record {
    file = IsFile-put sb ip' d' k.file place edited off_map off_links;
    inside = inside_chunk;
    outside = outside_chunk;
    slots = λ j u n. slot-put sb ip' d' k.file place edited off_map off_links j ∙ k.slots j u n;
    filled = λ p t u z.
        let q : p / 512 ≡ off / 512 = omega arith in
        there (
          sym (slot-put sb ip' d' k.file place edited off_map off_links (off / 512))
          ∙ ap (slot ip' (put d' place edited)) (sym q)
          ∙ z);
    grows =
        Grows-same k.grows (slot-put sb ip' d' k.file place edited off_map off_links)
          (used-put sb ip' d' k.file place edited off_map off_links);
    same = k.same;
  }

module _ (sb : Superblock) (ip : Inode) (d : Disk) (mem : Block) where
  pub read_chunk-Reading :
      (dst off m : ℕ)
      → IsFile sb ip d
      → 0 < m
      → m ≤ 512 - off % 512
      → off < 71680
      → Reading sb ip d mem dst off m (read_chunk sb dst off m (ip, d, mem))
  unfolding read_chunk
  read_chunk-Reading dst off m f pos h l = go (bmap-Mapped sb ip d (off / 512) f (omega arith))
    where
      go :
          {o : Option (ℕ × Inode × Disk)}
          → Mapped sb ip d (off / 512) o
          → Reading sb ip d mem dst off m
              (o >>= λ (a, ip', d'). some (ip', d', move mem dst (d' a) (off % 512) m))
      go (Mapped.out_of_blocks z spare n) = hole off (omega arith) (omega arith) z
      go (Mapped.found a ip' d' e n k) =
          read ip' d' _ k
            (λ j t u.
              let q : (off + (j - dst)) / 512 ≡ off / 512 = omega arith in
              let r : (off + (j - dst)) % 512 ≡ off % 512 + (j - dst) = omega arith in
              move-in mem dst (d' a) (off % 512) m j t u
              ∙ sym (
                  rw (q, r)
                    (sym (k.bytes (off / 512) (off % 512 + (j - dst)) (omega arith))
                      ∙ rw (e, ==_ne a 0 n) refl)))
            (λ j t. move-out mem dst (d' a) (off % 512) m j t)

  pub write_chunk-Writing :
      (src off m : ℕ)
      → IsFile sb ip d
      → 0 < m
      → m ≤ 512 - off % 512
      → off < 71680
      → Writing sb ip d mem src off m (write_chunk sb src off m (ip, d, mem))
  unfolding write_chunk
  write_chunk-Writing src off m f pos h l = go (bmap-Mapped sb ip d (off / 512) f (omega arith))
    where
      go :
          {o : Option (ℕ × Inode × Disk)}
          → Mapped sb ip d (off / 512) o
          → Writing sb ip d mem src off m
              (o >>= λ (a, ip', d'). some (ip', put d' a (move (d' a) (off % 512) mem src m), mem))
      go (Mapped.out_of_blocks z spare n) = hole off (omega arith) (omega arith) z
      go (Mapped.found a ip' d' e n k) = wrote ip' _ (
          subst
            (λ x. Wrote sb ip d mem src off m ip' (put d' x (move (d' x) (off % 512) mem src m))) e
            (Wrote-chunk sb mem src off m ip' d' k (λ z. n (sym e ∙ z)) pos h l))
