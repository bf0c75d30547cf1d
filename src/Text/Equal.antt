-- ===== src/Text/Equal.antt =====
-- What `streq` of kernel/strace.c decides.
use strace_xv.Base.{
  ◌==◌, if◌then◌else◌, length, ℕ, ◌≡◌, refl, inl, inr, Bool, true, false, ◌&&◌, some, List, [], ◌∷◌,
  arith,
}
use strace_xv.Text.{Buf, text, strlen, streq_loop, streq}
use strace_xv.Text.Concat.{text-cases}

-- A string up to and with its first newline.
pub first_line : List ℕ → List ℕ
first_line [] = []
first_line (c ∷ s) = if c == b'\n' then c ∷ [] else c ∷ first_line s

pub starts_with : List ℕ → List ℕ → Bool
starts_with s [] = true
starts_with [] (c ∷ p) = false
starts_with (d ∷ s) (c ∷ p) = (d == c) && starts_with s p

strlen_lem : (d : Buf) {s : List ℕ} → text d ≡ some s → strlen d ≡ some (length s)
unfolding strlen
strlen_lem [] h = cc
strlen_lem (c ∷ d) h = elim (text-cases c d h) [
  | inl (z, e) ↦ rw (z, e) refl
  | inr (t, nz, h', e) ↦ rw (nz, e, strlen_lem d h') refl
]

streq_loop_lem :
    (s1 s2 : Buf) (a b : List ℕ)
    → text s1 ≡ some a
    → text s2 ≡ some b
    → streq_loop (length b) s1 s2 ≡ some (starts_with a (first_line b))
unfolding streq_loop starts_with first_line
streq_loop_lem s1 s2 a [] ha hb = refl
streq_loop_lem [] s2 a (c ∷ b) ha hb = cc
streq_loop_lem (x ∷ s1) [] a (c ∷ b) ha hb = cc
streq_loop_lem (x ∷ s1) (y ∷ s2) a (c ∷ b) ha hb = elim (text-cases y s2 hb) [
  | inl (z, e) ↦ cc
  | inr (t, nz, hb', e) ↦ elim (text-cases x s1 ha) [
    | inl (z, e') ↦ rw e' (ground arith)
    | inr (t', nz', ha', e') ↦ rw e' (ground (arith, streq_loop_lem s1 s2 t' b ha'))
  ]
]

-- `streq` stays inside the two objects and decides whether the first string starts with the
-- second one, cut behind its first newline; a longer first string is still accepted.
pub streq_lem :
    (s1 s2 : Buf) (a b : List ℕ)
    → text s1 ≡ some a
    → text s2 ≡ some b
    → streq s1 s2 ≡ some (starts_with a (first_line b))
unfolding streq
streq_lem s1 s2 a b ha hb = rw (strlen_lem s2 hb) (streq_loop_lem s1 s2 a b ha hb)
