-- ===== src/Bytes/Copy.antt =====
-- Copies of memory, also between places that overlap.
use strace_xv.Base.{
  ltb, leb, ◌==◌, if◌then◌else◌, Bool-cases, ℕ, zero, suc, ◌+◌, ◌-◌, ◌≤◌, ◌<◌, ◌≡◌, refl, ◌∙◌, inl,
  inr, true, false, ◌&&◌, arith,
}
use strace_xv.Bytes.{Memory, poke, copy_up, copy_down, memmove}

-- The memory in which `n` bytes from `src` on stand at `dst`.
abbrev pub copied : ℕ → ℕ → ℕ → Memory → Memory
copied dst src n m a = if leb dst a && ltb a (dst + n) then m (src + (a - dst)) else m a

copied-up :
    (d s n : ℕ) (m : Memory) (a : ℕ)
    → (s < d → s + suc n ≤ d)
    → copied (d + 1) (s + 1) n (poke m d (m s)) a ≡ copied d s (suc n) m a
copied-up d s n m a h = elim (Bool-cases (leb (d + 1) a && ltb a (d + 1 + n))) [
  | inl i ↦
      let whole : (leb d a && ltb a (d + suc n)) ≡ true = ground arith in
      let at : s + 1 + (a - (d + 1)) ≡ s + (a - d) = ground arith in
      let far : (d == (s + (a - d))) ≡ false = ground arith in rw (i, whole, at, far) refl
  | inr i ↦ elim (Bool-cases (d == a)) [
    | inl e ↦
        let whole : (leb d a && ltb a (d + suc n)) ≡ true = ground arith in
        let at : s + (a - d) ≡ s = ground arith in rw (i, e, whole, at) refl
    | inr e ↦
        let outside : (leb d a && ltb a (d + suc n)) ≡ false = ground arith in
        rw (i, e, outside) refl
  ]
]

copied-down :
    (d s n : ℕ) (m : Memory) (a : ℕ)
    → s < d
    → copied d s n (poke m (d + n) (m (s + n))) a ≡ copied d s (suc n) m a
copied-down d s n m a h = elim (Bool-cases (leb d a && ltb a (d + n))) [
  | inl i ↦
      let whole : (leb d a && ltb a (d + suc n)) ≡ true = ground arith in
      let far : ((d + n) == (s + (a - d))) ≡ false = ground arith in rw (i, whole, far) refl
  | inr i ↦ elim (Bool-cases ((d + n) == a)) [
    | inl e ↦
        let whole : (leb d a && ltb a (d + suc n)) ≡ true = ground arith in
        let at : s + (a - d) ≡ s + n = ground arith in rw (i, e, whole, at) refl
    | inr e ↦
        let outside : (leb d a && ltb a (d + suc n)) ≡ false = ground arith in
        rw (i, e, outside) refl
  ]
]

copy_up_lem :
    (d s n : ℕ) (m : Memory) (a : ℕ) → (s < d → s + n ≤ d) → copy_up d s n m a ≡ copied d s n m a
unfolding copy_up
copy_up_lem d s zero m a h = ground arith
copy_up_lem d s (suc n) m a h =
    copy_up_lem (d + 1) (s + 1) n (poke m d (m s)) a (λ l. omega (arith, h (omega arith)))
    ∙ copied-up d s n m a h

copy_down_lem : (d s n : ℕ) (m : Memory) (a : ℕ) → s < d → copy_down d s n m a ≡ copied d s n m a
unfolding copy_down
copy_down_lem d s zero m a h = ground arith
copy_down_lem d s (suc n) m a h =
    copy_down_lem d s n (poke m (d + n) (m (s + n))) a h ∙ copied-down d s n m a h

-- `memmove` leaves at `dst` the bytes that stood at `src` before the call, also where the two
-- places overlap, and changes no other byte.
pub memmove_lem :
    (dst src n : ℕ) (m : Memory) (a : ℕ) → memmove dst src n m a ≡ copied dst src n m a
unfolding memmove
memmove_lem dst src n m a = elim (Bool-cases (ltb src dst && ltb dst (src + n))) [
  | inl e ↦ rw (memmove, e) (copy_down_lem dst src n m a (ground arith))
  | inr e ↦ rw (memmove, e) (copy_up_lem dst src n m a (λ l. ground arith))
]
