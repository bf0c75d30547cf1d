-- ===== src/Fs/Content/Loops.antt =====
-- `readi` and `writei` on the content of a file.
use strace_xv.Base.{
  ltb, ◌==◌, Bool-cases, ◌>>=◌, ℕ, zero, suc, ◌+◌, ◌-◌, ◌/◌, ◌%◌, ◌≤◌, ◌<◌, ◌≡◌, refl, sym, ap, ◌∙◌,
  subst, ◌≢◌, inl, inr, Option, some, arith,
}
use strace_xv.Fs.{Superblock, Block, Disk}
use strace_xv.Fs.Inode.{Inode}
use strace_xv.Fs.Content.{min, Moving, read_chunks, write_chunks}
use strace_xv.Fs.Content.Slots.{slot, IsFile, Keeps-refl, Keeps-trans, Grows-refl, Grows-trans}
use strace_xv.Fs.Content.Chunks.{
  content, Reading, Wrote, Writing, read_chunk-Reading, write_chunk-Writing,
}

min_bounds :
    (left off : ℕ)
    → 0 < left
    → (0 < min left (512 - off % 512))
      × (min left (512 - off % 512) ≤ 512 - off % 512)
      × (min left (512 - off % 512) ≤ left)
min_bounds left off h = (ground arith, ground arith, ground arith)

module _ (sb : Superblock) where
  Reading-nothing :
      (ip : Inode) (d : Disk) (mem : Block) (dst off : ℕ)
      → IsFile sb ip d
      → Reading sb ip d mem dst off 0 (some (ip, d, mem))
  Reading-nothing ip d mem dst off f =
      Reading.read ip d mem (Keeps-refl sb ip d f) (λ j l h. absurd (omega arith)) (λ j h. refl)

  Reading-then :
      {ip : Inode} {d : Disk} {mem : Block} {dst off m n : ℕ} {o : Option Moving}
      (go : Moving → Option Moving)
      → off + n ≤ 71680
      → m ≤ n
      → Reading sb ip d mem dst off m o
      → ((ip' : Inode) (d' : Disk) (mem' : Block)
          → IsFile sb ip' d'
          → Reading sb ip' d' mem' (dst + m) (off + m) (n - m) (go (ip', d', mem')))
      → Reading sb ip d mem dst off n (o >>= go)
  Reading-then {ip} {d} {mem} {dst} {off} {m} {n} go b h (Reading.hole p l u z) rest =
      Reading.hole p l (omega arith) z
  Reading-then {ip} {d} {mem} {dst} {off} {m} {n} go b h (Reading.read ip' d' mem' k i o) rest =
      join (rest ip' d' mem' k.file)
    where
      join :
          {q : Option Moving}
          → Reading sb ip' d' mem' (dst + m) (off + m) (n - m) q
          → Reading sb ip d mem dst off n q
      join (Reading.hole p l u z) =
          Reading.hole p (omega arith) (omega arith) (elim (Bool-cases (slot ip d (p / 512) == 0)) [
            | inl e ↦ ground arith
            | inr e ↦
                let t : slot ip d (p / 512) ≢ 0 = ground arith in
                absurd (t (sym (k.slots (p / 512) (omega arith) t) ∙ z))
          ])
      join (Reading.read ip2 d2 mem2 k2 i2 o2) =
          Reading.read ip2 d2 mem2 (Keeps-trans k k2)
            (λ j l u. elim (Bool-cases (ltb j (dst + m))) [
              | inl near ↦ o2 j (inl (ground arith)) ∙ i j l (ground arith)
              | inr far ↦
                  let e : off + m + (j - (dst + m)) ≡ off + (j - dst) = ground arith in
                  i2 j (ground arith) (ground arith)
                  ∙ ap (content ip' d') e
                  ∙ k.bytes ((off + (j - dst)) / 512) ((off + (j - dst)) % 512) (omega arith)
            ])
            (λ j l. o2 j (ground arith) ∙ o j (ground arith))

  pub read_chunks-Reading :
      (fuel dst off left : ℕ) (ip : Inode) (d : Disk) (mem : Block)
      → IsFile sb ip d
      → left ≤ fuel
      → off + left ≤ 71680
      → Reading sb ip d mem dst off left (read_chunks sb fuel dst off left (ip, d, mem))
  unfolding read_chunks
  read_chunks-Reading zero dst off left ip d mem f h b =
      let e : 0 ≡ left = omega arith in
      subst (λ n. Reading sb ip d mem dst off n (some (ip, d, mem))) e
        (Reading-nothing ip d mem dst off f)
  read_chunks-Reading (suc fuel) dst off left ip d mem f h b = elim (Bool-cases (ltb 0 left)) [
    | inr done ↦
        let e : 0 ≡ left = ground arith in
        rw done (
          subst (λ n. Reading sb ip d mem dst off n (some (ip, d, mem))) e
            (Reading-nothing ip d mem dst off f))
    | inl more ↦
        let (pos, fit, all) = min_bounds left off (ground arith) in
        rw more (
          Reading-then
            (λ s.
              read_chunks sb fuel (dst + min left (512 - off % 512))
                (off + min left (512 - off % 512)) (left - min left (512 - off % 512)) s)
            b all
            (read_chunk-Reading sb ip d mem dst off (min left (512 - off % 512)) f pos fit
              (ground arith))
            (λ ip' d' mem' g.
              read_chunks-Reading fuel (dst + min left (512 - off % 512))
                (off + min left (512 - off % 512)) (left - min left (512 - off % 512)) ip' d' mem' g
                (omega arith) (omega arith)))
  ]

  Wrote-nothing :
      (ip : Inode) (d : Disk) (mem : Block) (src off : ℕ)
      → IsFile sb ip d
      → Wrote sb ip d mem src off 0 ip d
  Wrote-nothing ip d mem src off f = record {
    file = f;
    inside = λ p l u. absurd (omega arith);
    outside = λ p l u. refl;
    slots = λ k h n. refl;
    filled = λ p l u. absurd (omega arith);
    grows = Grows-refl sb ip d;
    same = refl;
  }

  Wrote-then :
      {ip ip1 ip2 : Inode} {d d1 d2 : Disk} {mem : Block} {src off m n : ℕ}
      → off + n ≤ 71680
      → m ≤ n
      → Wrote sb ip d mem src off m ip1 d1
      → Wrote sb ip1 d1 mem (src + m) (off + m) (n - m) ip2 d2
      → Wrote sb ip d mem src off n ip2 d2
  Wrote-then {ip} {ip1} {ip2} {d} {d1} {d2} {mem} {src} {off} {m} {n} b h v w = record {
    file = w.file;
    inside = λ p l u. elim (Bool-cases (ltb p (off + m))) [
      | inl near ↦ w.outside p (omega arith) (inl (ground arith)) ∙ v.inside p l (ground arith)
      | inr far ↦
          let e : src + m + (p - (off + m)) ≡ src + (p - off) = ground arith in
          w.inside p (ground arith) (ground arith) ∙ ap mem e
    ];
    outside = λ p l u. w.outside p l (ground arith) ∙ v.outside p l (ground arith);
    slots = λ k l z. w.slots k l (λ e. z (sym (v.slots k l z) ∙ e)) ∙ v.slots k l z;
    filled = λ p l u. elim (Bool-cases (ltb p (off + m))) [
      | inl near ↦
          let t : slot ip1 d1 (p / 512) ≢ 0 = v.filled p l (ground arith) in
          λ z. t (sym (w.slots (p / 512) (omega arith) t) ∙ z)
      | inr far ↦ w.filled p (ground arith) (ground arith)
    ];
    grows = Grows-trans v.grows w.grows w.slots w.file.slot_size;
    same = w.same ∙ ap (λ (x : Inode). record x { addrs = ip2.addrs }) v.same;
  }

  Writing-then :
      {ip : Inode} {d : Disk} {mem : Block} {src off m n : ℕ} {o : Option Moving}
      (go : Moving → Option Moving)
      → off + n ≤ 71680
      → m ≤ n
      → Writing sb ip d mem src off m o
      → ((ip' : Inode) (d' : Disk)
          → IsFile sb ip' d'
          → Writing sb ip' d' mem (src + m) (off + m) (n - m) (go (ip', d', mem)))
      → Writing sb ip d mem src off n (o >>= go)
  Writing-then {ip} {d} {mem} {src} {off} {m} {n} go b h (Writing.hole p l u z) rest =
      Writing.hole p l (omega arith) z
  Writing-then {ip} {d} {mem} {src} {off} {m} {n} go b h (Writing.wrote ip' d' v) rest =
      join (rest ip' d' v.file)
    where
      join :
          {q : Option Moving}
          → Writing sb ip' d' mem (src + m) (off + m) (n - m) q
          → Writing sb ip d mem src off n q
      join (Writing.hole p l u z) =
          Writing.hole p (omega arith) (omega arith) (elim (Bool-cases (slot ip d (p / 512) == 0)) [
            | inl e ↦ ground arith
            | inr e ↦
                let t : slot ip d (p / 512) ≢ 0 = ground arith in
                absurd (t (sym (v.slots (p / 512) (omega arith) t) ∙ z))
          ])
      join (Writing.wrote ip2 d2 w) = Writing.wrote ip2 d2 (Wrote-then b h v w)

  pub write_chunks-Writing :
      (fuel src off left : ℕ) (ip : Inode) (d : Disk) (mem : Block)
      → IsFile sb ip d
      → left ≤ fuel
      → off + left ≤ 71680
      → Writing sb ip d mem src off left (write_chunks sb fuel src off left (ip, d, mem))
  unfolding write_chunks
  write_chunks-Writing zero src off left ip d mem f h b =
      let e : 0 ≡ left = omega arith in
      subst (λ n. Writing sb ip d mem src off n (some (ip, d, mem))) e
        (Writing.wrote ip d (Wrote-nothing ip d mem src off f))
  write_chunks-Writing (suc fuel) src off left ip d mem f h b = elim (Bool-cases (ltb 0 left)) [
    | inr done ↦
        let e : 0 ≡ left = ground arith in
        rw done (
          subst (λ n. Writing sb ip d mem src off n (some (ip, d, mem))) e
            (Writing.wrote ip d (Wrote-nothing ip d mem src off f)))
    | inl more ↦
        let (pos, fit, all) = min_bounds left off (ground arith) in
        rw more (
          Writing-then
            (λ s.
              write_chunks sb fuel (src + min left (512 - off % 512))
                (off + min left (512 - off % 512)) (left - min left (512 - off % 512)) s)
            b all
            (write_chunk-Writing sb ip d mem src off (min left (512 - off % 512)) f pos fit
              (ground arith))
            (λ ip' d' g.
              write_chunks-Writing fuel (src + min left (512 - off % 512))
                (off + min left (512 - off % 512)) (left - min left (512 - off % 512)) ip' d' mem g
                (omega arith) (omega arith)))
  ]
