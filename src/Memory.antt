-- ===== src/Memory.antt =====
-- The allocator of physical pages: kernel/kalloc.c.
pub mod Pages
pub mod Range
pub mod Start
mod Tests
use strace_xv.Base.{
  ltb, leb, ◌==◌, if◌then◌else◌, ==_iff, lt→ltb, Bool-cases, Option-cases, ◌>>=◌, length, get_elem?,
  get_or, set, replicate, length-append, length-replicate, length-set, get_elem?-set_self,
  get_elem?-set_ne, length-reverse, occurs, occurs-append, ℕ, zero, suc, ◌+◌, ◌-◌, ◌*◌, ◌/◌, ◌%◌,
  ◌^◌, ◌≤◌, ◌<◌, ◌≡◌, refl, sym, ap, ◌∙◌, fun_ext, subst, ◌≢◌, ◌↔◌, ◌⊎◌, inl, inr, Bool, true,
  false, ◌&&◌, ◌||◌, not, Option, none, some, List, [], ◌∷◌, ◌++◌, append-nil, append_assoc,
  reverse-append, arith,
}

-- `PGSIZE`, `KERNBASE` and `PHYSTOP` of kernel/mmu.h and kernel/memlayout.h.
abbrev pub page_size : ℕ
page_size = 4096

abbrev pub kernel_base : ℕ
kernel_base = 2 ^ 31

abbrev pub phys_top : ℕ
phys_top = 14 * 2 ^ 24

abbrev pub uint : ℕ → ℕ
uint n = n % 2 ^ 32

abbrev pub v2p : ℕ → ℕ
v2p v = uint (v + (2 ^ 32 - kernel_base))

-- `PGROUNDUP`.
abbrev pub page_round_up : ℕ → ℕ
page_round_up v = uint (v + (page_size - 1)) / page_size * page_size

-- `kmem`, with the words of the memory that its list runs through.
pub record Kmem : Type 0 where
  pub memory : ℕ → ℕ
  pub use_lock : Bool
  pub freelist : ℕ

abbrev pub is_in_page : ℕ → ℕ → Bool
is_in_page v a = leb v a && ltb a (v + page_size)

-- `memset(v, 1, PGSIZE)`: every word of the page is 0x01010101.
abbrev pub fill : (ℕ → ℕ) → ℕ → ℕ → ℕ
fill m v a = if is_in_page v a then 16843009 else m a

abbrev pub store : (ℕ → ℕ) → ℕ → ℕ → ℕ → ℕ
store m p w a = if p == a then w else m a

-- `kalloc`.
unfoldable pub kalloc : Kmem → ℕ × Kmem
kalloc k = let r = k.freelist in if r == 0 then (0, k) else (r, record k { freelist = k.memory r })

-- `kernel_end` is the address `end` that the linker sets behind the kernel.
module _ (kernel_end : ℕ) where
  -- `kfree`; `none` is its panic.
  unfoldable pub kfree : ℕ → Kmem → Option Kmem
  kfree v k =
      if not (v % page_size == 0) || ltb v kernel_end || leb phys_top (v2p v)
      then none
      else some (record k { memory = store (fill k.memory v) v k.freelist; freelist = v })

  -- The loop of `freerange`, with fuel for its rounds; `none` is a panic.
  unfoldable pub free_pages : ℕ → ℕ → ℕ → Kmem → Option Kmem
  free_pages zero p vend k = none
  free_pages (suc fuel) p vend k =
      if leb (p + page_size) vend
      then (kfree p k >>= λ k'. free_pages fuel (p + page_size) vend k')
      else some k

  unfoldable pub freerange : ℕ → ℕ → Kmem → Option Kmem
  freerange vstart vend k = free_pages (suc (vend / page_size)) (page_round_up vstart) vend k

  unfoldable pub kinit1 : ℕ → ℕ → Kmem → Option Kmem
  kinit1 vstart vend k = freerange vstart vend (record k { use_lock = false })

  unfoldable pub kinit2 : ℕ → ℕ → Kmem → Option Kmem
  kinit2 vstart vend k = freerange vstart vend k >>= λ k'. some (record k' { use_lock = true })
