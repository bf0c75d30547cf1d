-- ===== src/Fs/Directory/Added.antt =====
-- One more entry in a directory.
use strace_xv.Base.{
  ltb, ◌==◌, if◌then◌else◌, Bool-cases, ==_ne, ℕ, zero, suc, ◌+◌, ◌-◌, ◌*◌, ◌%◌, ◌≤◌, ◌<◌, ◌≡◌,
  refl, sym, ◌∙◌, ◌≢◌, ◌⊎◌, inl, inr, true, false, none, some, arith,
}
use strace_xv.Fs.{Block}
use strace_xv.Fs.Directory.{namecmp}
use strace_xv.Fs.Directory.Entries.{
  number_at, name_at, find_entry, find_hole, find_entry-same, namecmp-same,
}

-- The number of entries behind a new one.
pub grown : Block → ℕ → ℕ → ℕ
grown c off zero = 1
grown c off (suc left) =
    let rest = grown c (off + 16) left in if number_at c off == 0 then suc left else suc rest

pub find_hole_bounds :
    (c : Block) (off left : ℕ)
    → (off ≤ find_hole c off left)
      × (find_hole c off left ≤ off + 16 * left)
      × ((find_hole c off left - off) % 16 ≡ 0)
unfolding find_hole
find_hole_bounds c off zero = (omega arith, omega arith, omega arith)
find_hole_bounds c off (suc left) =
    let (a, b, m) = find_hole_bounds c (off + 16) left in
    elim (Bool-cases (number_at c off == 0)) [
      | inl z ↦ rw z (omega arith, omega arith, omega arith)
      | inr t ↦ rw t (omega arith, omega arith, omega arith)
    ]

pub grown_lem :
    (c : Block) (off left : ℕ)
    → grown c off left ≡ (if ltb (find_hole c off left) (off + 16 * left) then left else left + 1)
unfolding grown find_hole
grown_lem c off zero = ground arith
grown_lem c off (suc left) =
    let ih = grown_lem c (off + 16) left in
    elim (Bool-cases (number_at c off == 0)) [
      | inl z ↦ let e : ltb off (off + 16 * suc left) ≡ true = ground arith in rw (z, e) refl
      | inr t ↦
          let e : off + 16 * suc left ≡ off + 16 + 16 * left = omega arith in
          rw (t, e, ih)
            (elim (Bool-cases (ltb (find_hole c (off + 16) left) (off + 16 + 16 * left))) [
              | inl y ↦ rw y refl
              | inr y ↦ rw y (omega arith)
            ])
    ]

-- The entry at `at` of `c'` is new.
pub record Added (c c' name : Block) (inum at : ℕ) : Type 0 where
  pub number : number_at c' at ≡ inum
  pub named : (s : Block) → namecmp s (name_at c' at) ≡ namecmp s name
  pub others : (p : ℕ) → (p < at) ⊎ (at + 16 ≤ p) → c' p ≡ c p

module _ (c c' name : Block) (inum : ℕ) (pos : inum ≢ 0) (other : Block) where
  here : (at : ℕ) → Added c c' name inum at → (number_at c' at == 0) ≡ false
  here at h = ==_ne (number_at c' at) 0 (λ z. pos (sym h.number ∙ z))

  -- An entry before the new one.
  before :
      (off at : ℕ)
      → off + 16 ≤ at
      → Added c c' name inum at
      → (number_at c' off ≡ number_at c off)
        × (namecmp other (name_at c' off) ≡ namecmp other (name_at c off))
  before off at l h = (
    omega (arith, h.others off (inl (omega arith)), h.others (off + 1) (inl (omega arith))),
    namecmp-same' (λ j u. h.others (off + (j + 2)) (inl (omega arith))),
  )
    where
      namecmp-same' :
          ((j : ℕ) → j < 14 → name_at c' off j ≡ name_at c off j)
          → namecmp other (name_at c' off) ≡ namecmp other (name_at c off)
      namecmp-same' = namecmp-same other (name_at c' off) (name_at c off)

  pub find_entry-new :
      (off left : ℕ)
      → Added c c' name inum (find_hole c off left)
      → namecmp other name ≡ true
      → find_entry c other off left ≡ none
      → find_entry c' other off (grown c off left) ≡ some (inum, find_hole c off left)
  unfolding find_entry find_hole grown
  find_entry-new off zero h e n = rw (here off h, h.named other, e, h.number) refl
  find_entry-new off (suc left) h e n = elim (Bool-cases (number_at c off == 0)) [
    | inl z ↦
        let h' : Added c c' name inum off = rw z at h in
        rw (z, here off h', h'.named other, e, h'.number) refl
    | inr t ↦
        let h' : Added c c' name inum (find_hole c (off + 16) left) = rw t at h in
        let (a, b) =
          before off (find_hole c (off + 16) left) (find_hole_bounds c (off + 16) left).0 h' in
        elim (Bool-cases (namecmp other (name_at c off))) [
          | inl y ↦ absurd (let q = rw (t, y) at n in cc)
          | inr y ↦ rw (t, a, b, t, y) (find_entry-new (off + 16) left h' e (rw (t, y) at n))
        ]
  ]

  pub find_entry-old :
      (off left : ℕ)
      → Added c c' name inum (find_hole c off left)
      → namecmp other name ≡ false
      → find_entry c' other off (grown c off left) ≡ find_entry c other off left
  unfolding find_entry find_hole grown
  find_entry-old off zero h e = rw (here off h, h.named other, e) refl
  find_entry-old off (suc left) h e = elim (Bool-cases (number_at c off == 0)) [
    | inl z ↦
        let h' : Added c c' name inum off = rw z at h in
        rw (z, here off h', h'.named other, e)
          (find_entry-same c' c other (off + 16) left (λ p a b. h'.others p (inr a)))
    | inr t ↦
        let h' : Added c c' name inum (find_hole c (off + 16) left) = rw t at h in
        let (a, b) =
          before off (find_hole c (off + 16) left) (find_hole_bounds c (off + 16) left).0 h' in
        rw (t, a, b, t, find_entry-old (off + 16) left h' e) refl
  ]
