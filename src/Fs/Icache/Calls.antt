-- ===== src/Fs/Icache/Calls.antt =====
-- What ilock, iunlock and iput do to the entry that they are called with.
use strace_xv.Base.{
  ltb, ◌==◌, Bool-cases, Option-cases, put, ℕ, zero, suc, ◌+◌, ◌-◌, ◌<◌, ◌≡◌, refl, sym, ap, ◌∙◌,
  ◌≢◌, inl, inr, true, false, ◌&&◌, Option, none, some, arith,
}
use strace_xv.Fs.{Superblock, Disk, bfree}
use strace_xv.Fs.Inode.{Inode, load_inode}
use strace_xv.Fs.Content.{free_direct, free_indirect, free_rest, itrunc}
use strace_xv.Fs.Icache.{Entry, Icache, locked, ilock, iunlock, iput}

-- An entry that keeps the number of its inode.
pub record Kept (t : Icache) (i : ℕ) (e : Entry) : Type 0 where
  pub same_dev : (e.inode).dev ≡ (t i).inode.dev
  pub same_inum : (e.inode).inum ≡ (t i).inode.inum

pub ilock_lem :
    (sb : Superblock) (i : ℕ) (t : Icache) (d : Disk) {t' : Icache}
    → ilock sb i t d ≡ some (locked t')
    → (e : Entry) × (t' ≡ put t i e)
      × Kept t i e
      × (e.ref ≡ (t i).ref)
      × (e.busy ≡ true)
      × ((t i).busy ≡ false)
unfolding ilock load_inode
ilock_lem sb i t d {t'} h = elim (Bool-cases (ltb (t i).ref 1)) [
  | inl none_held ↦ absurd (let e = rw none_held at h in ground arith)
  | inr some_held ↦ elim (Bool-cases (t i).busy) [
    | inl b ↦ absurd (let e = rw (some_held, b) at h in cc)
    | inr b ↦ elim (Bool-cases (t i).valid) [
      | inl v ↦
          let e = rw (some_held, b, v) at h in
          (
            record (t i) { busy = true },
            cc,
            record { same_dev = refl; same_inum = refl },
            refl,
            refl,
            b,
          )
      | inr v ↦ elim (Bool-cases ((load_inode sb d (t i).inode).type == 0)) [
        | inl z ↦ absurd (let e = rw (some_held, b, v, z) at h in ground arith)
        | inr z ↦
            let e = rw (some_held, b, v, z) at h in
            (
              record (t i) { inode = load_inode sb d (t i).inode; busy = true; valid = true },
              cc,
              record { same_dev = refl; same_inum = refl },
              refl,
              refl,
              b,
            )
      ]
    ]
  ]
]

pub iunlock_lem :
    (i : ℕ) (t : Icache) {t' : Icache}
    → iunlock i t ≡ some t'
    → (t' ≡ put t i (record (t i) { busy = false })) × ((t i).busy ≡ true)
unfolding iunlock
iunlock_lem i t h = elim (Bool-cases (t i).busy) [
  | inr b ↦ absurd (let e = rw b at h in ground arith)
  | inl b ↦ elim (Bool-cases (ltb (t i).ref 1)) [
    | inl z ↦ absurd (let e = rw (b, z) at h in ground arith)
    | inr z ↦ let e = rw (b, z) at h in (cc, b)
  ]
]

free_direct_same :
    (sb : Superblock) (i left : ℕ) (ip : Inode) (d : Disk) {ip' : Inode} {d' : Disk}
    → free_direct sb i left ip d ≡ some (ip', d')
    → (ip'.dev ≡ ip.dev) × (ip'.inum ≡ ip.inum)
unfolding free_direct
free_direct_same sb i zero ip d h = (cc, cc)
free_direct_same sb i (suc left) ip d h = elim (Bool-cases (ip.addrs i == 0)) [
  | inl z ↦ free_direct_same sb (i + 1) left ip d (rw z at h)
  | inr t ↦ elim (Option-cases (bfree sb d (ip.addrs i))) [
    | inl e ↦ absurd (let q = rw (t, e) at h in ground arith)
    | inr (d1, e) ↦
        free_direct_same sb (i + 1) left (record ip { addrs = put ip.addrs i 0 }) d1
          (rw (t, e) at h)
  ]
]

free_rest_same :
    (sb : Superblock) (ip : Inode) (d : Disk) {ip' : Inode} {d' : Disk}
    → free_rest sb ip d ≡ some (ip', d')
    → (ip'.dev ≡ ip.dev) × (ip'.inum ≡ ip.inum)
unfolding free_rest
free_rest_same sb ip d h = elim (Bool-cases (ip.addrs 12 == 0)) [
  | inl z ↦ let e = rw z at h in (cc, cc)
  | inr t ↦ elim (Option-cases (free_indirect sb (d (ip.addrs 12)) 0 128 d)) [
    | inl q ↦ absurd (let e = rw (t, q) at h in ground arith)
    | inr (d1, q) ↦ elim (Option-cases (bfree sb d1 (ip.addrs 12))) [
      | inl r ↦ absurd (let e = rw (t, q, r) at h in ground arith)
      | inr (d2, r) ↦
          let e = rw (t, q, r) at h in
          (
            ap (λ (o : Option (Inode × Disk)). dev_of o) (sym e),
            ap (λ (o : Option (Inode × Disk)). inum_of o) (sym e),
          )
    ]
  ]
]
  where
    dev_of : Option (Inode × Disk) → ℕ
    dev_of none = 0
    dev_of (some (x, y)) = x.dev

    inum_of : Option (Inode × Disk) → ℕ
    inum_of none = 0
    inum_of (some (x, y)) = x.inum

itrunc_same :
    (sb : Superblock) (ip : Inode) (d : Disk) {ip' : Inode} {d' : Disk}
    → itrunc sb ip d ≡ some (ip', d')
    → (ip'.dev ≡ ip.dev) × (ip'.inum ≡ ip.inum)
unfolding itrunc
itrunc_same sb ip d {ip'} {d'} h = elim (Option-cases (free_direct sb 0 12 ip d)) [
  | inl e ↦ absurd (let q = rw e at h in ground arith)
  | inr ((ip1, d1), e) ↦ elim (Option-cases (free_rest sb ip1 d1)) [
    | inl q ↦ absurd (let r = rw (e, q) at h in ground arith)
    | inr ((ip2, d2), q) ↦
        let r = rw (e, q) at h in
        let done : record ip2 { size = 0 } ≡ ip' = cc in
        let (a, b) = free_direct_same sb 0 12 ip d e in
        let (x, y) = free_rest_same sb ip1 d1 q in
        (
          sym (ap (λ (v : Inode). v.dev) done) ∙ x ∙ a,
          sym (ap (λ (v : Inode). v.inum) done) ∙ y ∙ b,
        )
  ]
]

pub iput_lem :
    (sb : Superblock) (i : ℕ) (t : Icache) (d : Disk) {t' : Icache} {d' : Disk}
    → iput sb i t d ≡ some (t', d')
    → (e : Entry) × (t' ≡ put t i e) × Kept t i e × (e.ref ≡ (t i).ref - 1) × (e.busy ≡ (t i).busy)
unfolding iput
iput_lem sb i t d {t'} {d'} h =
    elim (Bool-cases ((t i).ref == 1 && ((t i).valid && (t i).inode.nlink == 0))) [
      | inr more_left ↦
          let e = rw more_left at h in
          (
            record (t i) { ref = (t i).ref - 1 },
            cc,
            record { same_dev = refl; same_inum = refl },
            refl,
            refl,
          )
      | inl last ↦ elim (Bool-cases (t i).busy) [
        | inl b ↦ absurd (let e = rw (last, b) at h in ground arith)
        | inr b ↦ elim (Option-cases (itrunc sb (t i).inode d)) [
          | inl q ↦ absurd (let e = rw (last, b, q) at h in ground arith)
          | inr ((ip, d1), q) ↦
              let e = rw (last, b, q) at h in
              let (dev, inum) = itrunc_same sb (t i).inode d q in
              (
                record {
                  inode = record ip { type = 0 };
                  ref = (t i).ref - 1;
                  busy = false;
                  valid = false;
                },
                cc,
                record { same_dev = dev; same_inum = inum },
                refl,
                sym b,
              )
        ]
      ]
    ]

-- The panics of the three.
pub ilock-none :
    (sb : Superblock) (i : ℕ) (t : Icache) (d : Disk)
    → 0 < (t i).ref
    → ilock sb i t d ≡ none
    → (load_inode sb d (t i).inode).type ≡ 0
unfolding ilock
ilock-none sb i t d pos h =
    let some_held : ltb (t i).ref 1 ≡ false = ground arith in
    elim (Bool-cases (t i).busy) [
      | inl b ↦ absurd (let e = rw (some_held, b) at h in cc)
      | inr b ↦ elim (Bool-cases (t i).valid) [
        | inl v ↦ absurd (let e = rw (some_held, b, v) at h in cc)
        | inr v ↦ elim (Bool-cases ((load_inode sb d (t i).inode).type == 0)) [
          | inl z ↦ ground arith
          | inr z ↦ absurd (let e = rw (some_held, b, v, z) at h in cc)
        ]
      ]
    ]

pub iunlock-some : (i : ℕ) (t : Icache) → 0 < (t i).ref → (t i).busy ≡ true → iunlock i t ≢ none
unfolding iunlock
iunlock-some i t pos b h =
    let some_held : ltb (t i).ref 1 ≡ false = ground arith in let e = rw (b, some_held) at h in cc

pub iput-none :
    (sb : Superblock) (i : ℕ) (t : Icache) (d : Disk)
    → ((t i).ref ≡ 1 → (t i).busy ≡ false)
    → iput sb i t d ≡ none
    → ((t i).ref ≡ 1) × ((t i).inode.nlink ≡ 0) × (itrunc sb (t i).inode d ≡ none)
unfolding iput
iput-none sb i t d idle h =
    elim (Bool-cases ((t i).ref == 1 && ((t i).valid && (t i).inode.nlink == 0))) [
      | inr more_left ↦ absurd (let e = rw more_left at h in cc)
      | inl last ↦
          let one : (t i).ref ≡ 1 = ground arith in
          let none_linked : (t i).inode.nlink ≡ 0 = ground arith in
          (
            one,
            none_linked,
            elim (Option-cases (itrunc sb (t i).inode d)) [
              | inl q ↦ q
              | inr (x, q) ↦ absurd (let e = rw (last, idle one, q) at h in cc)
            ],
          )
    ]
