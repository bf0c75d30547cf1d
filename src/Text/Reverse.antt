-- ===== src/Text/Reverse.antt =====
-- `reverse` of kernel/strace.c turns round the first `length` characters.
use mathlib.Core.List
use strace_xv.Base.{
  ltb, length, get_elem?, set, length-append, ℕ, zero, suc, ◌+◌, ◌-◌, ◌≤◌, ◌≡◌, refl, sym, ap, ◌∙◌,
  ◌⊎◌, inl, inr, true, false, some, List, [], ◌∷◌, ◌++◌, append_assoc, reverse-append, arith,
}
use strace_xv.Text.{poke, swap_chars, reverse_loop, reverse}

ltb-false : (a b : ℕ) → b ≤ a → ltb a b ≡ false
ltb-false a b h = ground arith

get_elem?-append_mid :
    (p : List ℕ) (x : ℕ) (q : List ℕ) → get_elem? (p ++ (x ∷ q)) (length p) ≡ some x
get_elem?-append_mid [] x q = refl
get_elem?-append_mid (y ∷ p) x q = get_elem?-append_mid p x q

set-append_mid :
    (p : List ℕ) (x v : ℕ) (q : List ℕ) → set (p ++ (x ∷ q)) (length p) v ≡ p ++ (v ∷ q)
set-append_mid [] x v q = refl
set-append_mid (y ∷ p) x v q = ap (λ r. y ∷ r) (set-append_mid p x v q)

-- Writing at the position just behind `p`.
pub poke-append_mid :
    (p : List ℕ) (x v : ℕ) (q : List ℕ) (i : ℕ)
    → i ≡ length p
    → poke (p ++ (x ∷ q)) i v ≡ some (p ++ (v ∷ q))
poke-append_mid p x v q i e =
    rw (e, set-append_mid p x v q) (ground (arith, length-append p (x ∷ q)))

tail_nil : (m : List ℕ) → suc (length m) ≤ 1 → m ≡ []
tail_nil [] h = refl
tail_nil (x ∷ m) h = absurd (omega arith)

-- A list is empty, a single item, or has two ends.
ends :
    (m : List ℕ) → (length m ≤ 1) ⊎ ((x : ℕ) × (r : List ℕ) × (y : ℕ) × (m ≡ x ∷ (r ++ (y ∷ []))))
ends [] = inl (omega arith)
ends (x ∷ []) = inl (omega arith)
ends (x ∷ y ∷ m) = elim (ends (y ∷ m)) [
  | inl s ↦ inr (x, [], y, ap (λ t. x ∷ y ∷ t) (tail_nil m s))
  | inr (a, r, b, e) ↦ inr (x, a ∷ r, b, ap (λ t. x ∷ t) e)
]

short_reverse : (m : List ℕ) → length m ≤ 1 → List.reverse m ≡ m
short_reverse [] h = refl
short_reverse (x ∷ []) h = refl
short_reverse (x ∷ y ∷ m) h = absurd (omega arith)

reverse_ends :
    (x : ℕ) (r : List ℕ) (y : ℕ)
    → List.reverse (x ∷ (r ++ (y ∷ []))) ≡ y ∷ (List.reverse r ++ (x ∷ []))
reverse_ends x r y = reverse-append (x ∷ r) (y ∷ []) ∙ ap (λ t. y ∷ t) (reverse-append (x ∷ []) r)

swap_chars_lem :
    (p : List ℕ) (x : ℕ) (r : List ℕ) (y : ℕ) (q : List ℕ) (start end : ℕ)
    → start ≡ length p
    → end ≡ length (p ++ (x ∷ r))
    → swap_chars (p ++ (x ∷ (r ++ (y ∷ q)))) start end ≡ some (p ++ (y ∷ (r ++ (x ∷ q))))
unfolding swap_chars
swap_chars_lem p x r y q start end s e = rw s (
    rw (get_elem?-append_mid p x (r ++ (y ∷ q)))
      (rw (e, last) (rw (poke-append_mid p x y (r ++ (y ∷ q)) (length p) refl) second)))
  where
    last : get_elem? (p ++ (x ∷ (r ++ (y ∷ q)))) (length (p ++ (x ∷ r))) ≡ some y
    last = rw (append_assoc p (x ∷ r) (y ∷ q)) at (get_elem?-append_mid (p ++ (x ∷ r)) y q)

    second :
        poke (p ++ (y ∷ (r ++ (y ∷ q)))) (length (p ++ (x ∷ r))) x
        ≡ some (p ++ (y ∷ (r ++ (x ∷ q))))
    second =
        rw (append_assoc p (y ∷ r) (y ∷ q), append_assoc p (y ∷ r) (x ∷ q)) at
          (poke-append_mid (p ++ (y ∷ r)) y x q (length (p ++ (x ∷ r)))
            (length-append p (x ∷ r) ∙ sym (length-append p (y ∷ r))))

-- The rounds that are left turn round the middle part `m`.
reverse_loop_lem :
    (fuel : ℕ) (p m q : List ℕ) (start end : ℕ)
    → length m ≤ fuel
    → start ≡ length p
    → end ≡ length p + length m - 1
    → reverse_loop fuel (p ++ (m ++ q)) start end ≡ some (p ++ (List.reverse m ++ q))
unfolding reverse_loop
reverse_loop_lem zero p m q start end f s e = rw (short_reverse m (omega arith)) refl
reverse_loop_lem (suc fuel) p m q start end f s e = elim (ends m) [
  | inl short ↦ rw (ltb-false start end (omega arith), short_reverse m short) refl
  | inr (x, r, y, split) ↦
      let len : length m ≡ suc (length r + 1) =
        ap length split ∙ ap suc (length-append r (y ∷ [])) in
      let test : ltb start end ≡ true = ground arith in
      let flat : m ++ q ≡ x ∷ (r ++ (y ∷ q)) =
        ap (λ t. t ++ q) split ∙ ap (λ t. x ∷ t) (append_assoc r (y ∷ []) q) in
      let after : p ++ (y ∷ (r ++ (x ∷ q))) ≡ (p ++ (y ∷ [])) ++ (r ++ (x ∷ q)) =
        sym (append_assoc p (y ∷ []) (r ++ (x ∷ q))) in
      rw (test, flat, swap_chars_lem p x r y q start end s (omega (arith, length-append p (x ∷ r))))
        (rw after (
          rw
            (reverse_loop_lem fuel (p ++ (y ∷ [])) r (x ∷ q) (start + 1) (end - 1) (omega arith)
              (omega (arith, length-append p (y ∷ []))) (omega (arith, length-append p (y ∷ []))))
            (rw (split, reverse_ends x r y) (simp append_assoc))))
]

-- If `m` is the first `length m` characters of an object, `reverse(str, length m)` stays inside
-- the object, turns `m` round and leaves what follows.
pub reverse_lem : (m q : List ℕ) → reverse (m ++ q) (length m) ≡ some (List.reverse m ++ q)
unfolding reverse
reverse_lem m q =
    reverse_loop_lem (length m) [] m q 0 (length m - 1) (omega arith) refl (omega arith)
