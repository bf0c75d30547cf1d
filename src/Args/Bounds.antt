-- ===== src/Args/Bounds.antt =====
-- What a fetched argument points to lies in the memory of the process.
use mathlib.Core.Option
use mathlib.Core.Bool.{true≢false}
use strace_xv.Base.{
  ltb, leb, ◌==◌, if◌then◌else◌, ==_iff, Bool-cases, Option-cases, ◌>>=◌, ℕ, zero, suc, ◌+◌, ◌-◌,
  ◌^◌, ◌≤◌, ◌<◌, ◌≡◌, refl, sym, ◌∙◌, subst, ◌≢◌, inl, inr, Bool, ◌&&◌, ◌||◌, Option, none, some,
  arith,
}
use strace_xv.Args.{User, word, kernel_base, uint, fetchint, find_nul, fetchstr, argint, argptr}

-- The bytes `a` to `b - 1` lie in the memory of the process.
abbrev pub inside : User → ℕ → ℕ → Bool
inside u a b = ltb a u.sz && leb b u.sz

-- `fetchint` answers exactly at the addresses whose four bytes lie in the process, with the word
-- there, if the process ends below the kernel: no sum of the test wraps round.
pub fetchint_lem :
    (u : User) (addr : ℕ)
    → u.sz ≤ kernel_base
    → fetchint u addr ≡ (if inside u addr (addr + 4) then some (word u.memory addr) else none)
unfolding fetchint
fetchint_lem u addr low = ground arith

-- For a size that is not negative, `argptr` answers exactly for the blocks that lie in the
-- process, if the process ends below the kernel.
pub argptr_lem :
    (u : User) (n size : ℕ)
    → u.sz ≤ kernel_base
    → size < 2 ^ 31
    → argptr u n size ≡ (argint u n >>= λ i. if inside u i (i + size) then some i else none)
unfolding argptr
argptr_lem u n size low small = elim (Option-cases (argint u n)) [
  | inl e ↦ rw e refl
  | inr (i, e) ↦ rw e (exact i)
]
  where
    exact :
        (i : ℕ)
        → (if leb u.sz i || ltb u.sz (uint (i + size)) then none else some i)
          ≡ (if inside u i (i + size) then some i else none)
    exact i = ground arith

-- A negative size `-k` is accepted for every pointer into the process that is at least `k`.
pub argptr-negative :
    (u : User) (n k i : ℕ)
    → u.sz ≤ kernel_base
    → 0 < k
    → argint u n ≡ some i
    → k ≤ i
    → i < u.sz
    → argptr u n (2 ^ 32 - k) ≡ some i
unfolding argptr
argptr-negative u n k i low pos e above below = rw e (ground arith)

-- What the loop of `fetchstr` finds from `s` on: the first NUL below `s + left`, if there is one.
pub data Scan (m : ℕ → ℕ) (left s : ℕ) : Option ℕ → Type 0 where
  absent : ((k : ℕ) → s ≤ k → k < s + left → m k ≢ 0) → Scan m left s none
  found :
      (t : ℕ)
      → s ≤ t
      → t < s + left
      → m t ≡ 0
      → ((k : ℕ) → s ≤ k → k < t → m k ≢ 0)
      → Scan m left s (some t)

from_next : (m : ℕ → ℕ) {s k : ℕ} → m s ≢ 0 → s ≤ k → (s + 1 ≤ k → m k ≢ 0) → m k ≢ 0
from_next m {s} {k} h a next = elim (Bool-cases (s == k)) [
  | inl e ↦ subst (λ j. m j ≢ 0) ((==_iff s k).0 e) h
  | inr e ↦ next (ground arith)
]

Scan-next :
    {m : ℕ → ℕ} {left s : ℕ} {o : Option ℕ}
    → m s ≢ 0
    → Scan m left (s + 1) o
    → Scan m (suc left) s o
Scan-next {m} {left} {s} h (absent none_of) =
    absent (λ k a b. from_next m h a (λ a'. none_of k a' (omega arith)))
Scan-next {m} {left} {s} h (found t a b nul before) =
    found t (omega arith) (omega arith) nul (λ k a b. from_next m h a (λ a'. before k a' b))

pub find_nul_lem : (m : ℕ → ℕ) (left s : ℕ) → Scan m left s (find_nul m left s)
unfolding find_nul
find_nul_lem m zero s = absent (λ k a b. omega arith)
find_nul_lem m (suc left) s = elim (Bool-cases (m s == 0)) [
  | inl e ↦ rw e (found s (omega arith) (omega arith) ((==_iff (m s) 0).0 e) (λ k a b. omega arith))
  | inr e ↦
      rw e
        (Scan-next (λ z. true≢false (sym ((==_iff (m s) 0).1 z) ∙ e)) (find_nul_lem m left (s + 1)))
]

-- What `fetchstr` answers at an address: the pointer is the address, and the string with its NUL
-- lies in the memory of the process; or from the address on the process has no NUL.
pub data Fetched (u : User) (addr : ℕ) : Option (ℕ × ℕ) → Type 0 where
  refused : ((k : ℕ) → addr ≤ k → k < u.sz → u.memory k ≢ 0) → Fetched u addr none
  fetched :
      (len : ℕ)
      → addr + len < u.sz
      → u.memory (addr + len) ≡ 0
      → ((k : ℕ) → k < len → u.memory (addr + k) ≢ 0)
      → Fetched u addr (some (addr, len))

-- `fetchstr` returns the address and the length of the string there, which lies with its NUL in
-- the memory of the process, if the process has a NUL from the address on, and -1 otherwise.
pub fetchstr_lem : (u : User) (addr : ℕ) → Fetched u addr (fetchstr u addr)
unfolding fetchstr
fetchstr_lem u addr = elim (Bool-cases (leb u.sz addr)) [
  | inl e ↦ rw e (refused (λ k a b. ground arith))
  | inr e ↦ rw e (scanned (ground arith) (find_nul_lem u.memory (u.sz - addr) addr))
]
  where
    scanned :
        {o : Option ℕ}
        → addr < u.sz
        → Scan u.memory (u.sz - addr) addr o
        → Fetched u addr (Option.map (λ s. (addr, s - addr)) o)
    scanned l (absent none_of) = refused (λ k a b. none_of k a (omega arith))
    scanned l (found t a b nul before) =
        fetched (t - addr) (omega arith) (subst (λ j. u.memory j ≡ 0) (omega arith) nul)
          (λ k b. before (addr + k) (omega arith) (omega arith))
