-- ===== src/Args.antt =====
-- The arguments of a system call: the fetching functions of kernel/syscall.c.
pub mod Bounds
mod Tests
use mathlib.Core.Option
use strace_xv.Base.{
  ltb, leb, ◌==◌, if◌then◌else◌, ==_iff, lt→ltb, Bool-cases, Option-cases, ◌>>=◌, length, get_elem?,
  get_or, set, replicate, length-append, length-replicate, length-set, get_elem?-set_self,
  get_elem?-set_ne, length-reverse, ℕ, zero, suc, ◌+◌, ◌-◌, ◌*◌, ◌/◌, ◌%◌, ◌^◌, ◌≤◌, ◌<◌, ◌≡◌, refl,
  sym, ap, ◌∙◌, fun_ext, ◌≢◌, ◌↔◌, ◌⊎◌, inl, inr, Bool, true, false, ◌&&◌, ◌||◌, not, Option, none,
  some, List, [], ◌∷◌, ◌++◌, append-nil, append_assoc, reverse-append, arith,
}

-- `KERNBASE`, above which no process has memory, and an unsigned sum of 32 bits.
abbrev pub kernel_base : ℕ
kernel_base = 2 ^ 31

abbrev pub uint : ℕ → ℕ
uint n = n % 2 ^ 32

-- What the functions read of `proc`: the bytes of its memory, `sz`, and `tf->esp`.
pub record User : Type 0 where
  pub memory : ℕ → ℕ
  pub sz : ℕ
  pub esp : ℕ

-- The word at an address, the low byte first.
abbrev pub word : (ℕ → ℕ) → ℕ → ℕ
word m a = m a + 2 ^ 8 * m (a + 1) + 2 ^ 16 * m (a + 2) + 2 ^ 24 * m (a + 3)

-- `fetchint`; `none` is -1.
unfoldable pub fetchint : User → ℕ → Option ℕ
fetchint u addr =
    if leb u.sz addr || ltb u.sz (uint (addr + 4)) then none else some (word u.memory addr)

-- The loop of `fetchstr` from `s` on, with `left` addresses before `ep`.
unfoldable pub find_nul : (ℕ → ℕ) → ℕ → ℕ → Option ℕ
find_nul m zero s = none
find_nul m (suc left) s = let rest = find_nul m left (s + 1) in if m s == 0 then some s else rest

-- `fetchstr`: the pointer and the length. Behind -1 the pointer is not used.
unfoldable pub fetchstr : User → ℕ → Option (ℕ × ℕ)
fetchstr u addr =
    if leb u.sz addr
    then none
    else Option.map (λ s. (addr, s - addr)) (find_nul u.memory (u.sz - addr) addr)

unfoldable pub argint : User → ℕ → Option ℕ
argint u n = fetchint u (uint (u.esp + 4 + 4 * n))

-- `argptr`; `size` is an `int` as its 32 bits.
unfoldable pub argptr : User → ℕ → ℕ → Option ℕ
argptr u n size =
    argint u n >>= λ i. if leb u.sz i || ltb u.sz (uint (i + size)) then none else some i

unfoldable pub argstr : User → ℕ → Option (ℕ × ℕ)
argstr u n = argint u n >>= λ addr. fetchstr u addr
