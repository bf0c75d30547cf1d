-- ===== src/Memory/Tests.antt =====
-- The allocator at a kernel of 1 MB.
use strace_xv.Base.{
  ◌>>=◌, occurs, ℕ, ◌+◌, ◌*◌, ◌^◌, ◌<◌, ◌≡◌, refl, subst, ◌⊎◌, false, none, some, [], ◌∷◌, ◌++◌,
  arith,
}
use strace_xv.Memory.{
  Kmem, page_size, kernel_base, phys_top, store, kalloc, kfree, free_pages, freerange, kinit1,
  kinit2,
}
use strace_xv.Memory.Pages.{
  Chain, link, System, IsPage, IsOwned, allocated, written, Reach, here, next, Reach-kalloc,
}
use strace_xv.Memory.Start.{Started, kinit_lem}

abbrev kernel_end : ℕ
kernel_end = kernel_base + 1000000

abbrev page : ℕ
page = kernel_base + 2 ^ 20

abbrev empty : Kmem
empty = record { memory = λ a. 0; use_lock = false; freelist = 0 }

empty-IsOwned : IsOwned kernel_end (record { kmem = empty; held = [] }) []
empty-IsOwned = record {
  chain = Chain.end;
  pages = λ v h. absurd (omega arith);
  distinct = λ v. omega arith;
}

-- One free page, which a client gets and writes into.
abbrev one : Kmem
one = record { memory = λ a. 0; use_lock = false; freelist = page }

one-IsOwned : IsOwned kernel_end (record { kmem = one; held = [] }) (page ∷ [])
one-IsOwned = record {
  chain = link (omega arith) Chain.end;
  pages = λ v h.
      subst (IsPage kernel_end) {x = page} (ground arith)
        (record { aligned = refl; above = omega arith; below = omega arith; word = omega arith });
  distinct = λ v. ground arith;
}

abbrev used : System
used = record {
  kmem = record { memory = store (λ a. 0) (page + 8) 7; use_lock = false; freelist = 0 };
  held = page ∷ [];
}

used-Reach : Reach kernel_end (record { kmem = one; held = [] }) used
unfolding kalloc
used-Reach =
    next (next here (allocated page refl (omega arith)))
      (written page (page + 8) 7 (omega arith) refl)

Reach-kalloc_example :
    ((((kalloc used.kmem).0 ≡ 0) × ((v : ℕ) → occurs v used.held ≡ occurs v ((page ∷ []) ++ [])))
      ⊎ (IsPage kernel_end (kalloc used.kmem).0 × (occurs (kalloc used.kmem).0 used.held ≡ 0)))
    × ((v : ℕ) → 0 < occurs v used.held → (k : Kmem) × (kfree kernel_end v used.kmem ≡ some k))
Reach-kalloc_example = Reach-kalloc kernel_end (omega arith) one-IsOwned used-Reach

kinit_lem_example :
    Started kernel_end (omega arith) (kernel_base + 2 ^ 22) (kernel_base + phys_top) (
      kinit1 kernel_end kernel_end (kernel_base + 2 ^ 22) empty >>= λ k'.
      kinit2 kernel_end (kernel_base + 2 ^ 22) (kernel_base + phys_top) k')
kinit_lem_example =
    kinit_lem kernel_end (omega arith) (kernel_base + 2 ^ 22) (kernel_base + phys_top) empty refl
      (omega arith) (omega arith) refl (omega arith) (omega arith)

-- The last freed page comes first; an address that is not the start of a page is refused.
freerange_last :
    (freerange kernel_end page (page + 2 * page_size) empty >>= λ k. some (kalloc k).0)
    ≡ some (page + page_size)
unfolding freerange free_pages kfree kalloc
freerange_last = refl

kfree_inside : kfree kernel_end (page + 4) empty ≡ none
unfolding kfree
kfree_inside = refl
