-- ===== src/Fs/Bits.antt =====
-- Setting and clearing one bit of a byte.
use strace_xv.Base.{ℕ, zero, suc, ◌/◌, ◌≤◌, ◌≡◌, refl, ap, ◌∙◌, ◌≢◌, arith}
use strace_xv.Fs.{bit, set_bit, clear_bit}

half_set : (x k : ℕ) → set_bit x (suc k) / 2 ≡ set_bit (x / 2) k
unfolding set_bit
half_set x k = omega arith

half_clear : (x k : ℕ) → clear_bit x (suc k) / 2 ≡ clear_bit (x / 2) k
unfolding clear_bit
half_clear x k = omega arith

pub bit-set_bit : (x k : ℕ) → bit (set_bit x k) k ≡ 1
unfolding bit set_bit
bit-set_bit x zero = ground arith
bit-set_bit x (suc k) = ap (λ y. bit y k) (half_set x k) ∙ bit-set_bit (x / 2) k

pub bit-set_bit_ne : (x k j : ℕ) → k ≢ j → bit (set_bit x k) j ≡ bit x j
unfolding bit set_bit
bit-set_bit_ne x zero zero h = absurd (h refl)
bit-set_bit_ne x zero (suc j) h = ap (λ y. bit y j) (ground arith)
bit-set_bit_ne x (suc k) zero h = omega arith
bit-set_bit_ne x (suc k) (suc j) h =
    ap (λ y. bit y j) (half_set x k) ∙ bit-set_bit_ne (x / 2) k j (λ e. h (ap suc e))

pub bit-clear_bit : (x k : ℕ) → bit (clear_bit x k) k ≡ 0
unfolding bit clear_bit
bit-clear_bit x zero = omega arith
bit-clear_bit x (suc k) = ap (λ y. bit y k) (half_clear x k) ∙ bit-clear_bit (x / 2) k

pub bit-clear_bit_ne : (x k j : ℕ) → k ≢ j → bit (clear_bit x k) j ≡ bit x j
unfolding bit clear_bit
bit-clear_bit_ne x zero zero h = absurd (h refl)
bit-clear_bit_ne x zero (suc j) h = ap (λ y. bit y j) (omega arith)
bit-clear_bit_ne x (suc k) zero h = omega arith
bit-clear_bit_ne x (suc k) (suc j) h =
    ap (λ y. bit y j) (half_clear x k) ∙ bit-clear_bit_ne (x / 2) k j (λ e. h (ap suc e))

pub bit-le : (x k : ℕ) → bit x k ≤ 1
unfolding bit
bit-le x zero = omega arith
bit-le x (suc k) = bit-le (x / 2) k
