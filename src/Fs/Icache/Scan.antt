-- ===== src/Fs/Icache/Scan.antt =====
-- The loop of `iget`.
use strace_xv.Base.{
  ◌==◌, Bool-cases, ℕ, zero, suc, ◌+◌, ◌≤◌, ◌<◌, ◌≡◌, refl, subst, ◌≢◌, inl, inr, Option, none,
  some, arith,
}
use strace_xv.Fs.Icache.{Entry, Icache, Slot, hit, miss, is_cached, note_empty, scan}

-- An entry of the range that is in use for the inode.
abbrev pub Cached : ℕ → ℕ → Entry → Type 0
Cached dev inum e = (0 < e.ref) × (e.inode.dev ≡ dev) × (e.inode.inum ≡ inum)

pub data Scanned (dev inum : ℕ) (t : Icache) (i left : ℕ) : Slot → Type 0 where
  found : (k : ℕ) → i ≤ k → k < i + left → Cached dev inum (t k) → Scanned dev inum t i left (hit k)
  free :
      (k : ℕ)
      → k < i + left
      → (t k).ref ≡ 0
      → ((j : ℕ) → i ≤ j → j < i + left → Cached dev inum (t j) → ⊥)
      → Scanned dev inum t i left (miss (some k))
  full :
      ((j : ℕ) → i ≤ j → j < i + left → 0 < (t j).ref)
      → ((j : ℕ) → i ≤ j → j < i + left → Cached dev inum (t j) → ⊥)
      → Scanned dev inum t i left (miss none)

module _ (dev inum : ℕ) (t : Icache) where
  -- The empty entry that the loop carries lies before `i`.
  abbrev pub Before : ℕ → Option ℕ → Type 0
  Before i none = Unit {0}
  Before i (some k) = (k < i) × ((t k).ref ≡ 0)

  later :
      (i left : ℕ) {s : Slot}
      → (Cached dev inum (t i) → ⊥)
      → Scanned dev inum t (i + 1) left s
      → ((s ≡ miss none) → 0 < (t i).ref)
      → Scanned dev inum t i (suc left) s
  later i left h (found k l u c) z = found k (omega arith) (omega arith) c
  later i left h (free k u e n) z = free k (omega arith) e (λ j l w c. elim (Bool-cases (i == j)) [
    | inl q ↦ let q' : j ≡ i = ground arith in h (subst (λ x. Cached dev inum (t x)) q' c)
    | inr q ↦ n j (ground arith) (omega arith) c
  ])
  later i left h (full f n) z =
      full
        (λ j l w. elim (Bool-cases (i == j)) [
          | inl q ↦ let q' : i ≡ j = ground arith in subst (λ x. 0 < (t x).ref) q' (z refl)
          | inr q ↦ f j (ground arith) (omega arith)
        ])
        (λ j l w c. elim (Bool-cases (i == j)) [
          | inl q ↦ let q' : j ≡ i = ground arith in h (subst (λ x. Cached dev inum (t x)) q' c)
          | inr q ↦ n j (ground arith) (omega arith) c
        ])

  Before-note_empty :
      (i : ℕ) (empty : Option ℕ) → Before i empty → Before (i + 1) (note_empty empty i (t i))
  Before-note_empty i none b = elim (Bool-cases ((t i).ref == 0)) [
    | inl z ↦ rw z (omega arith, ground arith)
    | inr n ↦ rw n tt
  ]
  Before-note_empty i (some k) (l, z) = (omega arith, z)

  -- Once an empty entry was seen, the loop does not end without one.
  scan-some : (i left k : ℕ) → scan dev inum t i left (some k) ≢ miss none
  unfolding scan
  scan-some i zero k e = ground arith
  scan-some i (suc left) k e = elim (Bool-cases (is_cached dev inum (t i))) [
    | inl c ↦ let e' = rw c at e in ground arith
    | inr c ↦ scan-some (i + 1) left k (rw c at e)
  ]

  in_use :
      (i left : ℕ) (empty : Option ℕ)
      → scan dev inum t (i + 1) left (note_empty empty i (t i)) ≡ miss none
      → 0 < (t i).ref
  in_use i left (some k) e = absurd (scan-some (i + 1) left k e)
  in_use i left none e = elim (Bool-cases ((t i).ref == 0)) [
    | inl z ↦ absurd (scan-some (i + 1) left i (rw z at e))
    | inr n ↦ ground arith
  ]

  pub scan-Scanned :
      (i left : ℕ) (empty : Option ℕ)
      → Before i empty
      → Scanned dev inum t i left (scan dev inum t i left empty)
  unfolding scan
  scan-Scanned i zero none b = full (λ j l u. absurd (omega arith)) (λ j l u. absurd (omega arith))
  scan-Scanned i zero (some k) (l, z) = free k (omega arith) z (λ j l u. absurd (omega arith))
  scan-Scanned i (suc left) empty b = elim (Bool-cases (is_cached dev inum (t i))) [
    | inl c ↦ rw c (found i (omega arith) (omega arith) (ground arith, ground arith, ground arith))
    | inr c ↦ rw c (
        later i left (λ (r, d, n). ground arith)
          (scan-Scanned (i + 1) left (note_empty empty i (t i)) (Before-note_empty i empty b))
          (in_use i left empty))
  ]
