-- ===== src/Fs/Directory/Entries.antt =====
-- The entries of a directory in the bytes of its content.
use strace_xv.Base.{
  ◌==◌, if◌then◌else◌, Bool-cases, put, put_self, put_ne, ==_self, ℕ, zero, suc, ◌+◌, ◌*◌, ◌≤◌, ◌<◌,
  ◌≡◌, refl, sym, ap, ◌∙◌, subst, ◌≢◌, ◌⊎◌, inl, inr, true, Option, none, some, arith,
}
use strace_xv.Fs.{Block}
use strace_xv.Fs.Directory.{same_from, namecmp, name_of, pad_name, copy_name, new_entry}

-- The number and the name of the entry at `off`.
abbrev pub number_at : Block → ℕ → ℕ
number_at c off = c off + 256 * c (off + 1)

abbrev pub name_at : Block → ℕ → Block
name_at c off i = c (off + (i + 2))

-- The first entry with a number and this name, of `left` entries from `off` on.
unfoldable pub find_entry : Block → Block → ℕ → ℕ → Option (ℕ × ℕ)
find_entry c name off zero = none
find_entry c name off (suc left) =
    let rest = find_entry c name (off + 16) left in
    if number_at c off == 0
    then rest
    else if namecmp name (name_at c off)
    then some (number_at c off, off)
    else rest

-- The first entry without a number, or the end.
unfoldable pub find_hole : Block → ℕ → ℕ → ℕ
find_hole c off zero = off
find_hole c off (suc left) =
    let rest = find_hole c (off + 16) left in if number_at c off == 0 then off else rest

same_from-same :
    (s t t' : Block) (i left : ℕ)
    → ((j : ℕ) → i ≤ j → j < i + left → t j ≡ t' j)
    → same_from s t i left ≡ same_from s t' i left
unfolding same_from
same_from-same s t t' i zero h = refl
same_from-same s t t' i (suc left) h =
    rw
      (
        h i (omega arith) (omega arith),
        same_from-same s t t' (i + 1) left (λ j l u. h j (omega arith) (omega arith)),
      )
      refl

same_from_self : (s : Block) (i left : ℕ) → same_from s s i left ≡ true
unfolding same_from
same_from_self s i zero = refl
same_from_self s i (suc left) =
    rw (==_self (s i), same_from_self s (i + 1) left)
      (elim (Bool-cases (s i == 0)) [ inl z ↦ rw z refl | inr n ↦ rw n refl ])

pub namecmp_self : (s : Block) → namecmp s s ≡ true
unfolding namecmp
namecmp_self s = same_from_self s 0 14

pub namecmp-same : (s t t' : Block) → ((j : ℕ) → j < 14 → t j ≡ t' j) → namecmp s t ≡ namecmp s t'
unfolding namecmp
namecmp-same s t t' h = same_from-same s t t' 0 14 (λ j l u. h j (omega arith))

pub find_entry-same :
    (c c' name : Block) (off left : ℕ)
    → ((p : ℕ) → off ≤ p → p < off + 16 * left → c p ≡ c' p)
    → find_entry c name off left ≡ find_entry c' name off left
unfolding find_entry
find_entry-same c c' name off zero h = refl
find_entry-same c c' name off (suc left) h =
    rw
      (
        h off (omega arith) (omega arith),
        h (off + 1) (omega arith) (omega arith),
        namecmp-same name (name_at c off) (name_at c' off)
            (λ j l. h (off + (j + 2)) (omega arith) (omega arith)),
        find_entry-same c c' name (off + 16) left (λ p l u. h p (omega arith) (omega arith)),
      )
      refl

pub find_hole-same :
    (c c' : Block) (off left : ℕ)
    → ((p : ℕ) → off ≤ p → p < off + 16 * left → c p ≡ c' p)
    → find_hole c off left ≡ find_hole c' off left
unfolding find_hole
find_hole-same c c' off zero h = refl
find_hole-same c c' off (suc left) h =
    rw
      (
        h off (omega arith) (omega arith),
        h (off + 1) (omega arith) (omega arith),
        find_hole-same c c' (off + 16) left (λ p l u. h p (omega arith) (omega arith)),
      )
      refl

-- Where an entry is found, its name and its number are.
pub find_entry-some :
    (c name : Block) (off left : ℕ) {inum at : ℕ}
    → find_entry c name off left ≡ some (inum, at)
    → (off ≤ at)
      × (at < off + 16 * left)
      × (number_at c at ≡ inum)
      × (inum ≢ 0)
      × (namecmp name (name_at c at) ≡ true)
unfolding find_entry
find_entry-some c name off zero e = absurd (cc)
find_entry-some c name off (suc left) {inum} {at} e = elim (Bool-cases (number_at c off == 0)) [
  | inl z ↦
      let (a, b, n, m, q) = find_entry-some c name (off + 16) left (rw z at e) in
      (omega arith, omega arith, n, m, q)
  | inr t ↦ elim (Bool-cases (namecmp name (name_at c off))) [
    | inl s ↦
        let e' = rw (t, s) at e in
        let at≡ : off ≡ at = cc in
        let n≡ : number_at c off ≡ inum = cc in
        (
          omega arith,
          omega arith,
          ap (number_at c) (sym at≡) ∙ n≡,
          ground arith,
          ap (λ o. namecmp name (name_at c o)) (sym at≡) ∙ s,
        )
    | inr s ↦
        let (a, b, n, m, q) = find_entry-some c name (off + 16) left (rw (t, s) at e) in
        (omega arith, omega arith, n, m, q)
  ]
]

-- A copied name compares as the name itself does.
module _ (name : Block) where
  pad_name-out :
      (i left : ℕ) (de : Block) (j : ℕ)
      → (j < i + 2) ⊎ (i + 2 + left ≤ j)
      → pad_name i left de j ≡ de j
  unfolding pad_name
  pad_name-out i zero de j h = refl
  pad_name-out i (suc left) de j h =
      pad_name-out (i + 1) left (put de (i + 2) 0) j (ground arith)
      ∙ put_ne de (i + 2) j 0 (λ e. absurd (ground arith))

  copy_name-out :
      (i left : ℕ) (de : Block) (j : ℕ)
      → (j < i + 2) ⊎ (i + 2 + left ≤ j)
      → copy_name name i left de j ≡ de j
  unfolding copy_name
  copy_name-out i zero de j h = refl
  copy_name-out i (suc left) de j h = elim (Bool-cases (name i == 0)) [
    | inl z ↦ rw z (
        pad_name-out (i + 1) left (put de (i + 2) 0) j (ground arith)
        ∙ put_ne de (i + 2) j 0 (λ e. absurd (ground arith)))
    | inr t ↦ rw t (
        copy_name-out (i + 1) left (put de (i + 2) (name i)) j (ground arith)
        ∙ put_ne de (i + 2) j (name i) (λ e. absurd (ground arith)))
  ]

  same_from-copy :
      (s : Block) (i left : ℕ) (de : Block)
      → same_from s (name_of (copy_name name i left de)) i left ≡ same_from s name i left
  unfolding same_from copy_name
  same_from-copy s i zero de = refl
  same_from-copy s i (suc left) de = elim (Bool-cases (name i == 0)) [
    | inl z ↦
        let here : name_of (pad_name (i + 1) left (put de (i + 2) 0)) i ≡ 0 =
          pad_name-out (i + 1) left (put de (i + 2) 0) (i + 2) (inl (omega arith))
          ∙ put_self de (i + 2) 0 in
        let there : name i ≡ 0 = ground arith in
        rw (z, here, there) (elim (Bool-cases (s i == 0)) [ inl y ↦ rw y refl | inr y ↦ rw y refl ])
    | inr t ↦
        let here : name_of (copy_name name (i + 1) left (put de (i + 2) (name i))) i ≡ name i =
          copy_name-out (i + 1) left (put de (i + 2) (name i)) (i + 2) (inl (omega arith))
          ∙ put_self de (i + 2) (name i) in
        let step : copy_name name i (suc left) de
            ≡ copy_name name (i + 1) left (put de (i + 2) (name i)) =
          rw t refl in
        subst (λ (b : Block). same_from s (name_of b) i (suc left) ≡ same_from s name i (suc left))
          (sym step) (rw (here, same_from-copy s (i + 1) left (put de (i + 2) (name i))) refl)
  ]

  pub namecmp-copy :
      (s de : Block) (inum : ℕ) → namecmp s (name_of (new_entry name inum de)) ≡ namecmp s name
  unfolding namecmp
  namecmp-copy s de inum =
      same_from-same s _ _ 0 14 (λ j l u. ground arith) ∙ same_from-copy s 0 14 de
