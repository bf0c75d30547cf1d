-- ===== src/Fs/Content/Slots.antt =====
-- The blocks of a file, and what one more block does to it.
use strace_xv.Base.{
  ltb, ◌==◌, if◌then◌else◌, Bool-cases, ==_self, ==_ne, ℕ, ◌+◌, ◌-◌, ◌*◌, ◌^◌, ◌≤◌, ◌<◌, ◌≡◌, refl,
  sym, ap, ◌∙◌, subst, ◌≢◌, inl, inr, false, arith,
}
use strace_xv.Fs.{Superblock, Block, Disk, zero_block, bitmap_block}
use strace_xv.Fs.Bitmap.{used, MapUsed}
use strace_xv.Fs.Allocation.{Marked}
use strace_xv.Fs.Inode.{Inode, load_word, inode_block}

-- The block that holds the part `k` of a file, 0 for none; 140 stands for the indirect block.
abbrev pub slot : Inode → Disk → ℕ → ℕ
slot ip d k =
    if ltb k 12
    then ip.addrs k
    else if k == 140
    then ip.addrs 12
    else if ip.addrs 12 == 0
    then 0
    else load_word (d (ip.addrs 12)) (4 * (k - 12))

pub slot_far :
    (ip : Inode) (d : Disk) (i : ℕ)
    → i < 128
    → ip.addrs 12 ≢ 0
    → slot ip d (i + 12) ≡ load_word (d (ip.addrs 12)) (4 * i)
slot_far ip d i h t =
    let at : i + 12 - 12 ≡ i = omega arith in
    let far : ltb (i + 12) 12 ≡ false = ground arith in
    rw (far, ==_ne (i + 12) 140 (omega arith), ==_ne (ip.addrs 12) 0 t, at) refl

-- A byte of the part `k`.
abbrev pub byte : Inode → Disk → ℕ → ℕ → ℕ
byte ip d k p = if slot ip d k == 0 then 0 else d (slot ip d k) p

-- The blocks of the disk that are apart from a file: the boot block, the map, and the block of its
-- own inode.
pub record IsLaid (sb : Superblock) (inum : ℕ) (d : Disk) : Type 0 where
  pub words : sb.size ≤ 2 ^ 32
  pub map_size : (b : ℕ) → b < sb.size → bitmap_block sb b < sb.size
  pub map : MapUsed sb d
  pub boot : used sb d 0 ≢ 0
  pub home_size : inode_block sb inum < sb.size
  pub home : used sb d (inode_block sb inum) ≢ 0
  pub home_map : (b : ℕ) → b < sb.size → inode_block sb inum ≢ bitmap_block sb b

-- The blocks of a file are distinct, in use, on the disk, and none of those.
pub record IsFile (sb : Superblock) (ip : Inode) (d : Disk) : Type 0 where
  pub laid : IsLaid sb ip.inum d
  pub slot_size : (k : ℕ) → k ≤ 140 → slot ip d k ≢ 0 → slot ip d k < sb.size
  pub slot_used : (k : ℕ) → k ≤ 140 → slot ip d k ≢ 0 → used sb d (slot ip d k) ≢ 0
  pub slot_map :
      (k j : ℕ) → k ≤ 140 → slot ip d k ≢ 0 → j < sb.size → slot ip d k ≢ bitmap_block sb j
  pub slot_home : (k : ℕ) → k ≤ 140 → slot ip d k ≢ 0 → slot ip d k ≢ inode_block sb ip.inum
  pub apart : (i k : ℕ) → i ≤ 140 → k ≤ 140 → slot ip d i ≢ 0 → slot ip d i ≡ slot ip d k → i ≡ k

-- A part of a file gets a block only if that was free, so none of another file, of the map or of
-- any inode, and no block becomes free.
pub record Grows (sb : Superblock) (ip : Inode) (d : Disk) (ip' : Inode) (d' : Disk) : Type 0 where
  pub fresh :
      (k : ℕ) → k ≤ 140 → slot ip d k ≡ 0 → slot ip' d' k ≢ 0 → used sb d (slot ip' d' k) ≡ 0
  pub stays : (b : ℕ) → b < sb.size → used sb d b ≢ 0 → used sb d' b ≢ 0

pub Grows-refl : (sb : Superblock) (ip : Inode) (d : Disk) → Grows sb ip d ip d
Grows-refl sb ip d = record { fresh = λ k h z n. absurd (n z); stays = λ b h u. u }

pub Grows-trans :
    {sb : Superblock} {a b c : Inode} {d e g : Disk}
    → Grows sb a d b e
    → Grows sb b e c g
    → ((k : ℕ) → k ≤ 140 → slot b e k ≢ 0 → slot c g k ≡ slot b e k)
    → ((k : ℕ) → k ≤ 140 → slot c g k ≢ 0 → slot c g k < sb.size)
    → Grows sb a d c g
Grows-trans {sb} {a} {b} {c} {d} {e} {g} k l kept size = record {
  fresh = λ j h z n. elim (Bool-cases (slot b e j == 0)) [
    | inl t ↦ elim (Bool-cases (used sb d (slot c g j) == 0)) [
      | inl free ↦ ground arith
      | inr taken ↦
          absurd (k.stays (slot c g j) (size j h n) (ground arith) (l.fresh j h (ground arith) n))
    ]
    | inr t ↦
        let there : slot b e j ≢ 0 = ground arith in
        ap (used sb d) (kept j h there) ∙ k.fresh j h z there
  ];
  stays = λ j h u. l.stays j h (k.stays j h u);
}

-- A write that changes neither the parts nor the map.
pub Grows-same :
    {sb : Superblock} {a b c : Inode} {d e g : Disk}
    → Grows sb a d b e
    → ((k : ℕ) → slot c g k ≡ slot b e k)
    → ((j : ℕ) → j < sb.size → used sb g j ≡ used sb e j)
    → Grows sb a d c g
Grows-same {sb} {d = d} k parts map = record {
  fresh = λ j h z n. ap (used sb d) (parts j) ∙ k.fresh j h z (λ t. n (parts j ∙ t));
  stays = λ j h u z. k.stays j h u (sym (map j h) ∙ z);
}

-- A step that adds blocks to a file at most.
pub record Keeps (sb : Superblock) (ip : Inode) (d : Disk) (ip' : Inode) (d' : Disk) : Type 0 where
  pub file : IsFile sb ip' d'
  pub bytes : (k p : ℕ) → k < 140 → byte ip' d' k p ≡ byte ip d k p
  pub slots : (k : ℕ) → k ≤ 140 → slot ip d k ≢ 0 → slot ip' d' k ≡ slot ip d k
  pub grows : Grows sb ip d ip' d'
  pub same : ip' ≡ record ip { addrs = ip'.addrs }

-- The block `a` was allocated for the part `k`.
pub record Added (sb : Superblock) (ip : Inode) (d : Disk) (k a : ℕ) (d1 : Disk) (ip' : Inode)
    (d' : Disk) : Type 0 where
  pub inside : a < sb.size
  pub free : used sb d a ≡ 0
  pub marked : Marked sb d a d1
  pub part : k ≤ 140
  pub empty : slot ip d k ≡ 0
  pub same : ip' ≡ record ip { addrs = ip'.addrs }
  pub slots : (j : ℕ) → j ≤ 140 → slot ip' d' j ≡ (if j == k then a else slot ip d j)
  pub map : (j : ℕ) → j < sb.size → used sb d' j ≡ used sb d1 j
  pub old : (j : ℕ) → j < 140 → slot ip d j ≢ 0 → d' (slot ip d j) ≡ d (slot ip d j)
  pub fresh : k < 140 → d' a ≡ zero_block

module _ (sb : Superblock) (ip : Inode) (d : Disk) (f : IsFile sb ip d) {k a : ℕ} {d1 : Disk}
    {ip' : Inode} {d' : Disk} (s : Added sb ip d k a d1 ip' d') where
  grown : (b : ℕ) → b < sb.size → used sb d b ≢ 0 → used sb d' b ≢ 0
  grown b h u = elim (Bool-cases (b == a)) [
    | inl e ↦ let e' : b ≡ a = ground arith in λ z. u (ap (used sb d) e' ∙ s.free)
    | inr n ↦ λ z. u (sym (s.map b h ∙ s.marked.kept b h (ground arith)) ∙ z)
  ]

  used_new : used sb d' a ≢ 0
  used_new z = cc (sym s.marked.mark ∙ sym (s.map a s.inside) ∙ z)

  inum_same : ip'.inum ≡ ip.inum
  inum_same = ap (λ (x : Inode). x.inum) s.same

  pub at_new : slot ip' d' k ≡ a
  at_new = s.slots k s.part ∙ rw (==_self k) refl

  at_old : (j : ℕ) → j ≤ 140 → j ≢ k → slot ip' d' j ≡ slot ip d j
  at_old j h n = s.slots j h ∙ rw (==_ne j k n) refl

  IsLaid-grown : IsLaid sb ip'.inum d'
  IsLaid-grown = rw inum_same (record {
    words = f.laid.words;
    map_size = f.laid.map_size;
    map = λ b h. grown (bitmap_block sb b) (f.laid.map_size b h) (f.laid.map b h);
    boot = grown 0 (omega (arith, s.inside)) f.laid.boot;
    home_size = f.laid.home_size;
    home = grown (inode_block sb ip.inum) f.laid.home_size f.laid.home;
    home_map = f.laid.home_map;
  })

  pub new_ne : a ≢ 0
  new_ne z = f.laid.boot (ap (used sb d) (sym z) ∙ s.free)

  -- What holds of the new block and of the old ones holds of each.
  each :
      (P : ℕ → Type 0)
      → P a
      → ((j : ℕ) → j ≤ 140 → slot ip d j ≢ 0 → P (slot ip d j))
      → (j : ℕ) → j ≤ 140
      → slot ip' d' j ≢ 0
      → P (slot ip' d' j)
  each P new old j h n = elim (Bool-cases (j == k)) [
    | inl e ↦ let e' : j ≡ k = ground arith in subst P (sym (ap (slot ip' d') e' ∙ at_new)) new
    | inr o ↦
        let e : slot ip' d' j ≡ slot ip d j = at_old j h (ground arith) in
        subst P (sym e) (old j h (λ z. n (e ∙ z)))
  ]

  -- The new block was free, so it is no old one.
  taken : (j : ℕ) → j ≤ 140 → slot ip d j ≢ 0 → a ≢ slot ip d j
  taken j h n e = f.slot_used j h n (ap (used sb d) (sym e) ∙ s.free)

  apart_grown :
      (i j : ℕ) → i ≤ 140 → j ≤ 140 → slot ip' d' i ≢ 0 → slot ip' d' i ≡ slot ip' d' j → i ≡ j
  apart_grown i j h l n e = elim (Bool-cases (i == k)) [
    | inl ik ↦ elim (Bool-cases (j == k)) [
      | inl jk ↦ ground arith
      | inr jk ↦
          let i' : i ≡ k = ground arith in
          let e' : a ≡ slot ip d j =
            sym (ap (slot ip' d') i' ∙ at_new) ∙ e ∙ at_old j l (ground arith) in
          absurd (taken j l (λ z. new_ne (e' ∙ z)) e')
    ]
    | inr ik ↦
        let e1 : slot ip' d' i ≡ slot ip d i = at_old i h (ground arith) in
        let n1 : slot ip d i ≢ 0 = λ z. n (e1 ∙ z) in
        elim (Bool-cases (j == k)) [
          | inl jk ↦
              let j' : j ≡ k = ground arith in
              absurd (taken i h n1 (sym (ap (slot ip' d') j' ∙ at_new) ∙ sym e ∙ e1))
          | inr jk ↦ f.apart i j h l n1 (sym e1 ∙ e ∙ at_old j l (ground arith))
        ]
  ]

  IsFile-grown : IsFile sb ip' d'
  IsFile-grown = record {
    laid = IsLaid-grown;
    slot_size = each (λ b. b < sb.size) s.inside f.slot_size;
    slot_used =
        each (λ b. used sb d' b ≢ 0) used_new
          (λ j h n. grown (slot ip d j) (f.slot_size j h n) (f.slot_used j h n));
    slot_map = λ j c h n l.
        each (λ b. b ≢ bitmap_block sb c) (λ e. f.laid.map c l (ap (used sb d) (sym e) ∙ s.free))
          (λ i u m. f.slot_map i c u m l) j h n;
    slot_home = λ j h n. rw inum_same (
        each (λ b. b ≢ inode_block sb ip.inum) (λ e. f.laid.home (ap (used sb d) (sym e) ∙ s.free))
          f.slot_home j h n);
    apart = apart_grown;
  }

  bytes_grown : (j p : ℕ) → j < 140 → byte ip' d' j p ≡ byte ip d j p
  bytes_grown j p h = elim (Bool-cases (j == k)) [
    | inl e ↦
        let e' : j ≡ k = ground arith in
        let new : slot ip' d' j ≡ a = ap (slot ip' d') e' ∙ at_new in
        let before : slot ip d j ≡ 0 = ap (slot ip d) e' ∙ s.empty in
        rw (new, before, s.fresh (omega arith), ==_ne a 0 new_ne) refl
    | inr o ↦
        let e : slot ip' d' j ≡ slot ip d j = at_old j (omega arith) (ground arith) in
        elim (Bool-cases (slot ip d j == 0)) [
          | inl z ↦ rw (e, z) refl
          | inr n ↦ rw (e, n) (ap (λ (b : Block). b p) (s.old j h (ground arith)))
        ]
  ]

  pub Keeps-grown : Keeps sb ip d ip' d'
  Keeps-grown = record {
    file = IsFile-grown;
    bytes = bytes_grown;
    slots = λ j h n. elim (Bool-cases (j == k)) [
      | inl e ↦ let e' : j ≡ k = ground arith in absurd (n (ap (slot ip d) e' ∙ s.empty))
      | inr o ↦ at_old j h (ground arith)
    ];
    grows = record {
      fresh = λ j h z n. elim (Bool-cases (j == k)) [
        | inl e ↦
            let e' : j ≡ k = ground arith in ap (used sb d) (ap (slot ip' d') e' ∙ at_new) ∙ s.free
        | inr o ↦ absurd (n (at_old j h (ground arith) ∙ z))
      ];
      stays = grown;
    };
    same = s.same;
  }

pub Keeps-refl : (sb : Superblock) (ip : Inode) (d : Disk) → IsFile sb ip d → Keeps sb ip d ip d
Keeps-refl sb ip d f = record {
  file = f;
  bytes = λ k p h. refl;
  slots = λ k h n. refl;
  grows = Grows-refl sb ip d;
  same = refl;
}

pub Keeps-trans :
    {sb : Superblock} {a b c : Inode} {d e g : Disk}
    → Keeps sb a d b e
    → Keeps sb b e c g
    → Keeps sb a d c g
Keeps-trans {sb} {a} {b} {c} {d} {e} {g} k l = record {
  file = l.file;
  bytes = λ j p h. l.bytes j p h ∙ k.bytes j p h;
  slots = λ j h n. l.slots j h (λ z. n (sym (k.slots j h n) ∙ z)) ∙ k.slots j h n;
  grows = Grows-trans k.grows l.grows l.slots l.file.slot_size;
  same = l.same ∙ ap (λ (x : Inode). record x { addrs = c.addrs }) k.same;
}
