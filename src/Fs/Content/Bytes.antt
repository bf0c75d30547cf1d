-- ===== src/Fs/Content/Bytes.antt =====
-- `readi` and `writei` as operations on one array of bytes with a size.
use strace_xv.Base.{
  ltb, if◌then◌else◌, lt→ltb, Bool-cases, ◌>>=◌, put, ==_ne, ℕ, ◌+◌, ◌-◌, ◌/◌, ◌%◌, ◌^◌, ◌≤◌, ◌<◌,
  ◌≡◌, refl, sym, ap, ◌∙◌, subst, ◌≢◌, ◌⊎◌, inl, inr, Bool, true, false, ◌&&◌, Option, none, some,
  arith,
}
use strace_xv.Fs.{Superblock, Block, Disk}
use strace_xv.Fs.Inode.{Inode, inode_block, store_inode, inode_at, iupdate}
use strace_xv.Fs.Content.{min, uint, Moving, Transfer, refused, moved, readi, extend, writei}
use strace_xv.Fs.Content.Slots.{slot, IsFile, Keeps, Grows, Grows-same}
use strace_xv.Fs.Content.Writes.{used-put, slot-put, IsFile-put, byte-put}
use strace_xv.Fs.Content.Chunks.{content, Reading, Wrote, Writing}
use strace_xv.Fs.Content.Loops.{read_chunks-Reading, write_chunks-Writing}

-- What `readi` comes to.
pub data Read (sb : Superblock) (ip : Inode) (d : Disk) (mem : Block) (dst off n : ℕ)
    : Option (Transfer Moving) → Type 0 where
  outside : (ip.size < off) ⊎ (2 ^ 32 ≤ off + n) → Read sb ip d mem dst off n (some refused)
  hole :
      (p : ℕ)
      → off ≤ p
      → p < off + n
      → p < ip.size
      → slot ip d (p / 512) ≡ 0
      → Read sb ip d mem dst off n none
  done :
      (m : ℕ) (ip' : Inode) (d' : Disk) (mem' : Block)
      → off ≤ ip.size
      → m ≡ min n (ip.size - off)
      → Keeps sb ip d ip' d'
      → ((j : ℕ) → dst ≤ j → j < dst + m → mem' j ≡ content ip d (off + (j - dst)))
      → ((j : ℕ) → (j < dst) ⊎ (dst + m ≤ j) → mem' j ≡ mem j)
      → Read sb ip d mem dst off n (some (moved m (ip', d', mem')))

module _ (sb : Superblock) (has : ℕ → Bool) (ip : Inode) (d : Disk) (mem : Block) where
  Read-Reading :
      {dst off n : ℕ} (m : ℕ) {o : Option Moving}
      → off ≤ ip.size
      → m ≡ min n (ip.size - off)
      → Reading sb ip d mem dst off m o
      → Read sb ip d mem dst off n (o >>= λ s. some (moved m s))
  Read-Reading m h e (Reading.hole p l u z) = hole p l (ground arith) (ground arith) z
  Read-Reading m h e (Reading.read ip' d' mem' k i o) = done m ip' d' mem' h e k i o

  -- `readi` of a file fails exactly behind the end of the file or of the offsets; else it moves the
  -- bytes of the file from the offset on, as many as were asked for and are there, changes no byte of
  -- the file and nothing else in memory, and panics only at a part of the file without a block.
  pub readi-Read :
      (dst off n : ℕ)
      → IsFile sb ip d
      → ip.type ≢ 3
      → ip.size ≤ 71680
      → off < 2 ^ 32
      → n < 2 ^ 32
      → Read sb ip d mem dst off n (readi sb has ip dst off n d mem)
  unfolding readi
  readi-Read dst off n f t s o b = rw (==_ne ip.type 3 t) (elim (Bool-cases (ltb ip.size off)) [
    | inl far ↦ rw far (outside (inl (ground arith)))
    | inr near ↦ elim (Bool-cases (ltb (uint (off + n)) off)) [
      | inl over ↦ rw (near, over) (outside (inr (ground arith)))
      | inr fits ↦
          rw (near, fits)
            (Read-Reading (if ltb ip.size (uint (off + n)) then ip.size - off else n) (ground arith)
              (ground arith)
              (read_chunks-Reading sb (if ltb ip.size (uint (off + n)) then ip.size - off else n)
                dst off (if ltb ip.size (uint (off + n)) then ip.size - off else n) ip d mem f
                (omega arith) (ground arith)))
    ]
  ])

-- What `writei` does to a file.
pub record Written (sb : Superblock) (ip : Inode) (d : Disk) (mem : Block) (src off n : ℕ)
    (ip' : Inode) (d' : Disk) : Type 0 where
  pub file : IsFile sb ip' d'
  pub inside : (p : ℕ) → off ≤ p → p < off + n → content ip' d' p ≡ mem (src + (p - off))
  pub outside : (p : ℕ) → p < 71680 → (p < off) ⊎ (off + n ≤ p) → content ip' d' p ≡ content ip d p
  pub slots : (k : ℕ) → k ≤ 140 → slot ip d k ≢ 0 → slot ip' d' k ≡ slot ip d k
  pub filled : (p : ℕ) → off ≤ p → p < off + n → slot ip' d' (p / 512) ≢ 0
  pub grows : Grows sb ip d ip' d'
  pub size : ip'.size ≡ (if ltb ip.size (off + n) then off + n else ip.size)
  pub same : ip' ≡ record ip { addrs = ip'.addrs; size = ip'.size }

pub data Write (sb : Superblock) (ip : Inode) (d : Disk) (mem : Block) (src off n : ℕ)
    : Option (Transfer Moving) → Type 0 where
  outside : (ip.size < off) ⊎ (71680 < off + n) → Write sb ip d mem src off n (some refused)
  hole :
      (p : ℕ) → off ≤ p → p < off + n → slot ip d (p / 512) ≡ 0 → Write sb ip d mem src off n none
  done :
      (ip' : Inode) (d' : Disk)
      → off ≤ ip.size
      → off + n ≤ 71680
      → Written sb ip d mem src off n ip' d'
      → Write sb ip d mem src off n (some (moved n (ip', d', mem)))

IsFile-size :
    (sb : Superblock) (ip : Inode) (d : Disk) (s : ℕ)
    → IsFile sb ip d
    → IsFile sb (record ip { size = s }) d
IsFile-size sb ip d s f = record {
  laid = f.laid;
  slot_size = f.slot_size;
  slot_used = f.slot_used;
  slot_map = f.slot_map;
  slot_home = f.slot_home;
  apart = f.apart;
}

module _ (sb : Superblock) (has : ℕ → Bool) {ip : Inode} {d : Disk} {mem : Block}
    {src off n : ℕ} where
  module _ (ip' : Inode) (d' : Disk) (w : Wrote sb ip d mem src off n ip' d') where
    same_size : ip'.size ≡ ip.size
    same_size = ap (λ (x : Inode). x.size) w.same

    -- No new size.
    Written-kept : (ip.size < off + n → ⊥) → Written sb ip d mem src off n ip' d'
    Written-kept h = record {
      file = w.file;
      inside = w.inside;
      outside = w.outside;
      slots = w.slots;
      filled = w.filled;
      grows = w.grows;
      size = same_size ∙ ground arith;
      same = w.same ∙ ap (λ x. record ip { addrs = ip'.addrs; size = x }) (sym same_size);
    }

    abbrev longer : Inode
    longer = record ip' { size = off + n }

    abbrev home : ℕ
    home = inode_block sb ip'.inum

    abbrev stored : Block
    stored = store_inode (d' home) (inode_at ip'.inum) longer

    longer-IsFile : IsFile sb longer d'
    longer-IsFile = IsFile-size sb ip' d' (off + n) w.file

    home_links : ip'.addrs 12 ≢ 0 → home ≢ ip'.addrs 12
    home_links t e = w.file.slot_home 140 (omega arith) t (sym e)

    content-stored : (p : ℕ) → p < 71680 → content longer (put d' home stored) p ≡ content ip' d' p
    content-stored p h =
        byte-put sb longer d' longer-IsFile home stored w.file.laid.home_map home_links (p / 512)
          (p % 512) (λ t e. w.file.slot_home (p / 512) (omega arith) t (sym e))

    slot-stored : (k : ℕ) → slot longer (put d' home stored) k ≡ slot ip' d' k
    slot-stored k =
        slot-put sb longer d' longer-IsFile home stored w.file.laid.home_map home_links k

    Written-longer :
        ip.size < off + n
        → off + n ≤ 71680
        → Written sb ip d mem src off n longer (iupdate sb longer d')
    unfolding iupdate
    Written-longer h b = record {
      file = IsFile-put sb longer d' longer-IsFile home stored w.file.laid.home_map home_links;
      inside = λ p l u. content-stored p (omega arith) ∙ w.inside p l u;
      outside = λ p l u. content-stored p l ∙ w.outside p l u;
      slots = λ k l t. slot-stored k ∙ w.slots k l t;
      filled = λ p l u z. w.filled p l u (sym (slot-stored (p / 512)) ∙ z);
      grows =
          Grows-same w.grows slot-stored
            (used-put sb longer d' longer-IsFile home stored w.file.laid.home_map home_links);
      size = sym (rw (lt→ltb ip.size (off + n) h) refl);
      same = ap (λ (x : Inode). record x { size = off + n }) w.same;
    }

  Write-Writing :
      {o : Option Moving}
      → off ≤ ip.size
      → off + n ≤ 71680
      → Writing sb ip d mem src off n o
      → Write sb ip d mem src off n (o >>= λ s. some (moved n (extend sb n (off + n) s)))
  unfolding extend
  Write-Writing h b (Writing.hole p l u z) = hole p l u z
  Write-Writing h b (Writing.wrote ip' d' w) = elim (Bool-cases (ltb ip'.size (off + n))) [
    | inl grows ↦
        let g : ip.size < off + n = ground (arith, same_size ip' d' w) in
        rw (lt→ltb 0 n (omega arith), grows) (done _ _ h b (Written-longer ip' d' w g b))
    | inr fits ↦
        let g : ip.size < off + n → ⊥ = λ l. ground (arith, same_size ip' d' w) in
        let e : (ltb 0 n && ltb ip'.size (off + n)) ≡ false = rw fits (and_false (ltb 0 n)) in
        rw e (done ip' d' h b (Written-kept ip' d' w g))
  ]
    where
      and_false : (b : Bool) → (b && false) ≡ false
      and_false true = refl
      and_false false = refl

module _ (sb : Superblock) (has : ℕ → Bool) (ip : Inode) (d : Disk) (mem : Block) where
  -- Let the blocks of a file that is no device, of at most the largest size, be distinct, in use and
  -- apart from the map and the block of its own inode, and the log have room. Then `writei` at an
  -- offset and for a number of 32 bits fails exactly behind the end of the file or of the largest
  -- file; else it changes the bytes from the offset on to those of the caller and no other, grows the
  -- file to their end if that lies behind its own, and keeps its blocks so; a part of the file gets a
  -- block only if that was free before, and no block becomes free. It panics only if a part of the
  -- range has no block.
  pub writei-Write :
      (src off n : ℕ)
      → IsFile sb ip d
      → ip.type ≢ 3
      → ip.size ≤ 71680
      → off < 2 ^ 32
      → n < 2 ^ 32
      → Write sb ip d mem src off n (writei sb has ip src off n d mem)
  unfolding writei
  writei-Write src off n f t s o b = rw (==_ne ip.type 3 t) (elim (Bool-cases (ltb ip.size off)) [
    | inl far ↦ rw far (outside (inl (ground arith)))
    | inr near ↦ elim (Bool-cases (ltb (uint (off + n)) off)) [
      | inl over ↦ rw (near, over) (outside (inr (ground arith)))
      | inr fits ↦ elim (Bool-cases (ltb 71680 (uint (off + n)))) [
        | inl large ↦ rw (near, fits, large) (outside (inr (ground arith)))
        | inr small ↦
            rw (near, fits, small)
              (Write-Writing sb has (ground arith) (ground arith)
                (write_chunks-Writing sb n src off n ip d mem f (omega arith) (ground arith)))
      ]
    ]
  ])

  written :
      {src off n : ℕ} {ip1 : Inode} {d1 : Disk} {mem1 : Block} {o : Option (Transfer Moving)}
      → Write sb ip d mem src off n o
      → o ≡ some (moved n (ip1, d1, mem1))
      → (off ≤ ip.size) × (off + n ≤ 71680) × Written sb ip d mem src off n ip1 d1
  written (Write.outside h) e = absurd (cc)
  written (Write.hole p l u z) e = absurd (cc)
  written {src} {off} {n} {ip1} {d1} (Write.done ip' d' h b w) e =
      let i≡ : ip' ≡ ip1 = cc in
      let d≡ : d' ≡ d1 = cc in
      (
        h,
        b,
        subst (λ x. Written sb ip d mem src off n x d1) i≡
            (subst (λ x. Written sb ip d mem src off n ip' x) d≡ w),
      )

  read_back :
      {src off n dst : ℕ} {mem' : Block} {ip1 : Inode} {d1 : Disk} {o : Option (Transfer Moving)}
      → off ≤ ip.size
      → off + n ≤ 71680
      → Written sb ip d mem src off n ip1 d1
      → Read sb ip1 d1 mem' dst off n o
      → (s : Moving) × (o ≡ some (moved n s)) × ((j : ℕ) → j < n → s.2 (dst + j) ≡ mem (src + j))
  read_back h b w (Read.outside t) = absurd (ground (arith, w.size))
  read_back h b w (Read.hole p l u v z) = absurd (w.filled p l u z)
  read_back {src} {off} {n} {dst} {mem'} {ip1} {d1} h b w (Read.done m ip2 d2 mem2 l e k i o) =
      let all : m ≡ n = ground (arith, w.size) in
      (
        (ip2, d2, mem2),
        ap (λ x. some (moved x (ip2, d2, mem2))) all,
        λ j u.
            let e1 : dst + j - dst ≡ j = omega arith in
            let e2 : off + j - off ≡ j = omega arith in
            i (dst + j) (omega arith) (omega arith)
            ∙ ap (λ x. content ip1 d1 (off + x)) e1
            ∙ w.inside (off + j) (omega arith) (omega arith)
            ∙ ap (λ x. mem (src + x)) e2,
      )

  -- After a write of `n` bytes, a read of `n` bytes at the same offset, into any memory, succeeds and
  -- gives those bytes.
  pub readi-writei :
      (src off n dst : ℕ) (mem' : Block) {ip1 : Inode} {d1 : Disk} {mem1 : Block}
      → IsFile sb ip d
      → ip.type ≢ 3
      → ip.size ≤ 71680
      → off < 2 ^ 32
      → n < 2 ^ 32
      → writei sb has ip src off n d mem ≡ some (moved n (ip1, d1, mem1))
      → (s : Moving) × (readi sb has ip1 dst off n d1 mem' ≡ some (moved n s))
        × ((j : ℕ) → j < n → s.2 (dst + j) ≡ mem (src + j))
  readi-writei src off n dst mem' {ip1} {d1} {mem1} f t s o b e =
      let (h, u, w) = written (writei-Write src off n f t s o b) e in
      let type≡ : ip1.type ≡ ip.type = ap (λ (x : Inode). x.type) w.same in
      read_back h u w (
        readi-Read sb has ip1 d1 mem' dst off n w.file (λ z. t (sym type≡ ∙ z))
          (ground (arith, w.size)) o b)
