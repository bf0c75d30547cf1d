-- ===== src/Base/Maps.antt =====
-- Functions on numbers that change at one place.
use Prim.Native.Nat.{ℕ}
use mathlib.Core.Path.{◌≡◌, refl}
use mathlib.Core.Logic.{◌≢◌}
use mathlib.Core.Bool.{true, false}
use native.Mathlib.Omega.{arith}
use strace_xv.Base.Bools.{◌==◌, if◌then◌else◌}

module _ {ℓ} {A : Type ℓ} where
  abbrev pub put : (ℕ → A) → ℕ → A → ℕ → A
  put f i v j = if i == j then v else f j

  pub put_self : (f : ℕ → A) (i : ℕ) (v : A) → put f i v i ≡ v
  put_self f i v = let e : (i == i) ≡ true = ground arith in rw e refl

  pub put_ne : (f : ℕ → A) (i j : ℕ) (v : A) → i ≢ j → put f i v j ≡ f j
  put_ne f i j v h = let e : (i == j) ≡ false = ground arith in rw e refl

pub ==_self : (i : ℕ) → (i == i) ≡ true
==_self i = ground arith

pub ==_ne : (i j : ℕ) → i ≢ j → (i == j) ≡ false
==_ne i j h = ground arith
