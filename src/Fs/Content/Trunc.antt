-- ===== src/Fs/Content/Trunc.antt =====
-- `itrunc` as the end of one list of blocks.
use strace_xv.Base.{
  ltb, ◌==◌, if◌then◌else◌, lt→ltb, Bool-cases, Option-cases, ◌>>=◌, put, put_self, put_ne, ==_ne,
  ℕ, zero, suc, ◌+◌, ◌*◌, ◌≤◌, ◌<◌, ◌≡◌, refl, sym, ap, ◌∙◌, subst, ◌≢◌, ◌⊎◌, inl, inr, true, false,
  some, List, [], ◌∷◌, ◌++◌, append-nil, arith,
}
use strace_xv.Fs.{Superblock, Block, Disk, bfree}
use strace_xv.Fs.Inode.{Inode, load_word, iupdate}
use strace_xv.Fs.Content.{free_direct, free_indirect, free_rest, itrunc}
use strace_xv.Fs.Content.Slots.{slot, slot_far, IsFile}
use strace_xv.Fs.Content.Frees.{
  parts, free_all, free_all-append, free_all-others, free_all_one, parts-append, parts-same,
  parts-named, parts-shift, parts_none, parts_one,
}

free_indirect-free_all :
    (sb : Superblock) (a : Block) (j left : ℕ) (d : Disk)
    → free_indirect sb a j left d ≡ free_all sb d (parts (λ k. load_word a (4 * k)) j left)
unfolding free_indirect free_all parts
free_indirect-free_all sb a j zero d = refl
free_indirect-free_all sb a j (suc left) d = elim (Bool-cases (load_word a (4 * j) == 0)) [
  | inl z ↦ rw z (free_indirect-free_all sb a (j + 1) left d)
  | inr t ↦ rw t (elim (Option-cases (bfree sb d (load_word a (4 * j)))) [
    | inl e ↦ rw e refl
    | inr (d1, e) ↦ rw e (free_indirect-free_all sb a (j + 1) left d1)
  ])
]

-- The inode with the words `i` to `i + left` set to 0.
pub cleared : ℕ → ℕ → Inode → Inode
cleared i zero ip = ip
cleared i (suc left) ip =
    cleared (i + 1) left (if ip.addrs i == 0 then ip else record ip { addrs = put ip.addrs i 0 })

free_direct-free_all :
    (sb : Superblock) (i left : ℕ) (ip : Inode) (d : Disk)
    → free_direct sb i left ip d
      ≡ (free_all sb d (parts ip.addrs i left) >>= λ d'. some (cleared i left ip, d'))
unfolding free_direct free_all parts cleared
free_direct-free_all sb i zero ip d = refl
free_direct-free_all sb i (suc left) ip d = elim (Bool-cases (ip.addrs i == 0)) [
  | inl z ↦ rw z (free_direct-free_all sb (i + 1) left ip d)
  | inr t ↦
      let later : parts (put ip.addrs i 0) (i + 1) left ≡ parts ip.addrs (i + 1) left =
        parts-same (put ip.addrs i 0) ip.addrs (i + 1) left
          (λ k l u. put_ne ip.addrs i k 0 (λ e. absurd (omega arith))) in
      rw t (elim (Option-cases (bfree sb d (ip.addrs i))) [
        | inl e ↦ rw e refl
        | inr (d1, e) ↦ rw e (
            free_direct-free_all sb (i + 1) left (record ip { addrs = put ip.addrs i 0 }) d1
            ∙ rw later refl)
      ])
]

-- What `cleared` leaves.
pub record Clear (i left : ℕ) (ip ip' : Inode) : Type 0 where
  pub gone : (k : ℕ) → i ≤ k → k < i + left → ip'.addrs k ≡ 0
  pub kept : (k : ℕ) → (k < i) ⊎ (i + left ≤ k) → ip'.addrs k ≡ ip.addrs k
  pub same : ip' ≡ record ip { addrs = ip'.addrs }

Clear-one :
    (i : ℕ) (ip : Inode)
    → Clear i 1 ip (if ip.addrs i == 0 then ip else record ip { addrs = put ip.addrs i 0 })
Clear-one i ip = elim (Bool-cases (ip.addrs i == 0)) [
  | inl z ↦ rw z (record {
    gone = λ k l u. let e : k ≡ i = omega arith in ap (ip.addrs) e ∙ ground arith;
    kept = λ k h. refl;
    same = refl;
  })
  | inr t ↦ rw t (record {
    gone = λ k l u. let e : i ≡ k = omega arith in rw (sym e) (put_self ip.addrs i 0);
    kept = λ k h. put_ne ip.addrs i k 0 (λ e. absurd (ground arith));
    same = refl;
  })
]

Clear-then :
    {i left : ℕ} {ip ip1 ip2 : Inode}
    → Clear i 1 ip ip1
    → Clear (i + 1) left ip1 ip2
    → Clear i (suc left) ip ip2
Clear-then {i} {left} {ip} {ip1} {ip2} c t = record {
  gone = λ k l u. elim (Bool-cases (k == i)) [
    | inl e ↦ t.kept k (inl (ground arith)) ∙ c.gone k l (ground arith)
    | inr n ↦ t.gone k (ground arith) (omega arith)
  ];
  kept = λ k h. t.kept k (ground arith) ∙ c.kept k (ground arith);
  same = t.same ∙ ap (λ (x : Inode). record x { addrs = ip2.addrs }) c.same;
}

pub cleared-Clear : (i left : ℕ) (ip : Inode) → Clear i left ip (cleared i left ip)
unfolding cleared
cleared-Clear i zero ip = record {
  gone = λ k l u. absurd (omega arith);
  kept = λ k h. refl;
  same = refl;
}
cleared-Clear i (suc left) ip = Clear-then (Clear-one i ip) (
    cleared-Clear (i + 1) left
      (if ip.addrs i == 0 then ip else record ip { addrs = put ip.addrs i 0 }))

-- The blocks of a file in the order in which `itrunc` frees them.
abbrev pub file_blocks : Inode → Disk → List ℕ
file_blocks ip d = parts (slot ip d) 0 141

file_blocks-parts :
    (ip : Inode) (d : Disk)
    → ip.addrs 12 ≢ 0
    → file_blocks ip d
      ≡ parts ip.addrs 0 12
        ++ (parts (λ k. load_word (d (ip.addrs 12)) (4 * k)) 0 128 ++ (ip.addrs 12 ∷ []))
file_blocks-parts ip d t =
    parts-append (slot ip d) 0 12 129
    ∙ (ap (λ l. l ++ parts (slot ip d) 12 129)
          (parts-same (slot ip d) ip.addrs 0 12 (λ k l u. rw (lt→ltb k 12 (omega arith)) refl))
        ∙ ap (λ l. parts ip.addrs 0 12 ++ l)
            (parts-append (slot ip d) 12 128 1
              ∙ (ap (λ l. l ++ parts (slot ip d) 140 1)
                    (parts-shift (slot ip d) 0 12 128
                      ∙ parts-same (λ k. slot ip d (k + 12))
                          (λ k. load_word (d (ip.addrs 12)) (4 * k)) 0 128
                          (λ k l u. slot_far ip d k (omega arith) t))
                  ∙ ap (λ l. parts (λ k. load_word (d (ip.addrs 12)) (4 * k)) 0 128 ++ l)
                      (parts_one (slot ip d) 140 t))))

file_blocks-direct :
    (ip : Inode) (d : Disk) → ip.addrs 12 ≡ 0 → file_blocks ip d ≡ parts ip.addrs 0 12
file_blocks-direct ip d t =
    parts-append (slot ip d) 0 12 129
    ∙ (ap (λ l. l ++ parts (slot ip d) 12 129)
          (parts-same (slot ip d) ip.addrs 0 12 (λ k l u. rw (lt→ltb k 12 (omega arith)) refl))
        ∙ (ap (λ l. parts ip.addrs 0 12 ++ l)
              (parts_none (slot ip d) 12 129 (λ k l u. far_empty k l))
            ∙ append-nil (parts ip.addrs 0 12)))
  where
    far_empty : (k : ℕ) → 12 ≤ k → slot ip d k ≡ 0
    far_empty k h = elim (Bool-cases (k == 140)) [
      | inl last ↦ let n : ltb k 12 ≡ false = ground arith in rw (n, last) t
      | inr other ↦
          let n : ltb k 12 ≡ false = ground arith in
          let z : (ip.addrs 12 == 0) ≡ true = ground arith in rw (n, other, z) refl
    ]

-- The whole of `itrunc` behind the blocks, with the inode `ip1` then.
abbrev pub finish : Superblock → Inode → Disk → Inode × Disk
finish sb ip1 d2 = let done = record ip1 { size = 0 } in (done, iupdate sb done d2)

module _ (sb : Superblock) (ip : Inode) (d : Disk) (f : IsFile sb ip d) where
  pub itrunc-direct :
      ip.addrs 12 ≡ 0
      → itrunc sb ip d
        ≡ (free_all sb d (file_blocks ip d) >>= λ d2. some (finish sb (cleared 0 12 ip) d2))
  unfolding itrunc free_rest
  itrunc-direct z =
      let c12 : (cleared 0 12 ip).addrs 12 ≡ 0 =
        (cleared-Clear 0 12 ip).kept 12 (inr (omega arith)) ∙ z in
      rw (file_blocks-direct ip d z, free_direct-free_all sb 0 12 ip d)
        (elim (Option-cases (free_all sb d (parts ip.addrs 0 12))) [
          | inl e ↦ rw e refl
          | inr (d1, e) ↦ rw (e, c12) refl
        ])

  -- The indirect block is read behind the end of the direct ones, which it is none of.
  links_kept :
      {d1 : Disk}
      → ip.addrs 12 ≢ 0
      → free_all sb d (parts ip.addrs 0 12) ≡ some d1
      → d1 (ip.addrs 12) ≡ d (ip.addrs 12)
  links_kept t e =
      free_all-others sb d (parts ip.addrs 0 12) (ip.addrs 12)
        (λ b o.
          let (k, l, u, q, n) = parts-named ip.addrs 0 12 b o in
          let q' : slot ip d k ≡ b = rw (lt→ltb k 12 (omega arith)) q in
          f.slot_map 140 b (omega arith) t
            (subst (λ x. x < sb.size) q' (f.slot_size k (omega arith) (λ z. n (sym q' ∙ z)))))
        e

  last :
      ip.addrs 12 ≢ 0
      → (d1 : Disk)
      → ((free_all sb d1 (parts (λ k. load_word (d (ip.addrs 12)) (4 * k)) 0 128) >>= λ d2.
            bfree sb d2 (ip.addrs 12) >>= λ d3.
            some (record (cleared 0 12 ip) { addrs = put (cleared 0 12 ip).addrs 12 0 }, d3))
          >>= λ (ip2, d2). some (finish sb ip2 d2))
        ≡ (free_all sb d1
              (parts (λ k. load_word (d (ip.addrs 12)) (4 * k)) 0 128 ++ (ip.addrs 12 ∷ []))
            >>= λ d2. some (
                finish sb
                  (record (cleared 0 12 ip) { addrs = put (cleared 0 12 ip).addrs 12 0 })
                  d2))
  last t d1 =
      rw
        (free_all-append sb d1 (parts (λ k. load_word (d (ip.addrs 12)) (4 * k)) 0 128)
          (ip.addrs 12 ∷ []))
        (elim (Option-cases
          (free_all sb d1 (parts (λ k. load_word (d (ip.addrs 12)) (4 * k)) 0 128))) [
            | inl e ↦ rw e refl
            | inr (d2, e) ↦
                rw (e, free_all_one sb d2 (ip.addrs 12))
                  (elim (Option-cases (bfree sb d2 (ip.addrs 12))) [
                    | inl q ↦ rw q refl
                    | inr (d3, q) ↦ rw q refl
                  ])
          ])

  pub itrunc-far :
      ip.addrs 12 ≢ 0
      → itrunc sb ip d ≡ (
          free_all sb d (file_blocks ip d) >>= λ d2.
          some
            (finish sb (record (cleared 0 12 ip) { addrs = put (cleared 0 12 ip).addrs 12 0 }) d2))
  unfolding itrunc free_rest
  itrunc-far t =
      let c12 : (cleared 0 12 ip).addrs 12 ≡ ip.addrs 12 =
        (cleared-Clear 0 12 ip).kept 12 (inr (omega arith)) in
      let some_block : (ip.addrs 12 == 0) ≡ false = ==_ne (ip.addrs 12) 0 t in
      rw
        (
          file_blocks-parts ip d t,
          free_all-append sb d (parts ip.addrs 0 12)
              (parts (λ k. load_word (d (ip.addrs 12)) (4 * k)) 0 128 ++ (ip.addrs 12 ∷ [])),
          free_direct-free_all sb 0 12 ip d,
        )
        (elim (Option-cases (free_all sb d (parts ip.addrs 0 12))) [
          | inl e ↦ rw e refl
          | inr (d1, e) ↦
              rw
                (
                  e,
                  c12,
                  some_block,
                  free_indirect-free_all sb (d1 (ip.addrs 12)) 0 128 d1,
                  links_kept t e,
                )
                (last t d1)
        ])
