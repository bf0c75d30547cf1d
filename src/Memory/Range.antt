-- ===== src/Memory/Range.antt =====
-- The start of the allocator: `freerange` puts exactly the whole pages of its range on the list.
use strace_xv.Base.{
  leb, ◌==◌, if◌then◌else◌, ==_iff, Bool-cases, occurs, occurs-append, ℕ, zero, suc, ◌+◌, ◌*◌, ◌/◌,
  ◌%◌, ◌^◌, ◌≤◌, ◌<◌, ◌≡◌, refl, sym, subst, inl, inr, Bool, ◌&&◌, Option, some, List, [], ◌∷◌,
  arith,
}
use strace_xv.Memory.{
  Kmem, page_size, kernel_base, phys_top, page_round_up, kfree, free_pages, freerange,
}
use strace_xv.Memory.Pages.{IsPage, IsOwned, kfree_lem, Kept-free}

-- The page at `v` lies in the range.
abbrev pub in_range : ℕ → ℕ → ℕ → Bool
in_range p vend v = (v % page_size == 0) && leb p v && leb (v + page_size) vend

abbrev pub count_in : ℕ → ℕ → ℕ → ℕ
count_in p vend v = if in_range p vend v then 1 else 0

-- The pages on the list `free` lie below `p`.
abbrev pub AllBelow : ℕ → List ℕ → Type 0
AllBelow p free = (v : ℕ) → 0 < occurs v free → v < p

module _ (kernel_end : ℕ) (pos : 0 < kernel_end) where
  -- The allocator behind the loop: the pages of the range have joined those of the list.
  pub record Freed (k : Kmem) (free : List ℕ) (p vend : ℕ) (r : Option Kmem) : Type 0 where
    pub kmem : Kmem
    pub list : List ℕ
    pub returns : r ≡ some kmem
    pub owned : IsOwned kernel_end (record { kmem = kmem; held = [] }) list
    pub pages : (v : ℕ) → occurs v list ≡ occurs v free + count_in p vend v

  -- A page that is free nowhere can be taken for one that is in use.
  IsOwned-page :
      {k : Kmem} {free : List ℕ} (p : ℕ)
      → IsOwned kernel_end (record { kmem = k; held = [] }) free
      → IsPage kernel_end p
      → AllBelow p free
      → IsOwned kernel_end (record { kmem = k; held = p ∷ [] }) free
  IsOwned-page {k} {free} p o page low = record {
    chain = o.chain;
    pages = λ v h. elim (Bool-cases (v == p)) [
      | inl e ↦ subst (IsPage kernel_end) (sym ((==_iff v p).0 e)) page
      | inr e ↦ o.pages v (ground (arith, occurs-append v free [], occurs-append v free (p ∷ [])))
    ];
    distinct = λ v.
        ground (arith, o.distinct v, low v, occurs-append v free [], occurs-append v free (p ∷ []));
  }

  -- `kfree` of a page above the list.
  record Joined (k : Kmem) (free : List ℕ) (p : ℕ) : Type 0 where
    kmem : Kmem
    list : List ℕ
    frees : kfree kernel_end p k ≡ some kmem
    owned : IsOwned kernel_end (record { kmem = kmem; held = [] }) list
    pages : (v : ℕ) → occurs v list ≡ occurs v free + (if v == p then 1 else 0)

  joined :
      (p : ℕ) (k : Kmem) (free : List ℕ)
      → IsPage kernel_end p
      → IsOwned kernel_end (record { kmem = k; held = [] }) free
      → AllBelow p free
      → Joined k free p
  joined p k free page o low =
      let e = kfree_lem kernel_end p k page in
      let kept = Kept-free kernel_end pos k _ [] p [] free e (IsOwned-page p o page low) in
      record {
        kmem = _;
        list = kept.left;
        frees = e;
        owned = kept.owned;
        pages = λ v.
            omega (arith, kept.same v, occurs-append v kept.left [], occurs-append v free (p ∷ []));
      }

  -- The pages from `p` on, split at the first one.
  count_in-first :
      (p vend v : ℕ)
      → p + page_size ≤ vend
      → p % page_size ≡ 0
      → count_in p vend v ≡ (if v == p then 1 else 0) + count_in (p + page_size) vend v
  count_in-first p vend v fits al = ground arith

  count_in-end : (p vend v : ℕ) → vend < p + page_size → count_in p vend v ≡ 0
  count_in-end p vend v full = ground arith

  -- The range lies between the kernel and `PHYSTOP`, and the rounds suffice.
  record IsRange (fuel p vend : ℕ) : Type 0 where
    aligned : p % page_size ≡ 0
    above : kernel_end ≤ p
    mapped : kernel_base ≤ p
    below : vend ≤ kernel_base + phys_top
    some_fuel : 0 < fuel
    enough : vend < p + fuel * page_size

  first-IsPage :
      {fuel p vend : ℕ} → IsRange fuel p vend → p + page_size ≤ vend → IsPage kernel_end p
  first-IsPage {fuel} {p} {vend} r fits = record {
    aligned = r.aligned;
    above = r.above;
    below = omega (arith, r.mapped, r.below);
    word = omega (arith, r.below);
  }

  rest-IsRange :
      {fuel p vend : ℕ}
      → IsRange (suc fuel) p vend
      → p + page_size ≤ vend
      → IsRange fuel (p + page_size) vend
  rest-IsRange {fuel} {p} {vend} r fits = record {
    some_fuel = omega (arith, r.enough);
    aligned = omega (arith, r.aligned);
    above = omega (arith, r.above);
    mapped = omega (arith, r.mapped);
    below = r.below;
    enough = omega (arith, r.enough);
  }

  free_pages_lem :
      (fuel p vend : ℕ) (k : Kmem) (free : List ℕ)
      → IsRange fuel p vend
      → IsOwned kernel_end (record { kmem = k; held = [] }) free
      → AllBelow p free
      → Freed k free p vend (free_pages kernel_end fuel p vend k)
  unfolding free_pages
  free_pages_lem zero p vend k free r o low = absurd (omega (arith, r.some_fuel))
  free_pages_lem (suc fuel) p vend k free r o low = elim (Bool-cases (leb (p + page_size) vend)) [
    | inl e ↦
        let j = joined p k free (first-IsPage r (ground arith)) o low in
        let f =
          free_pages_lem fuel (p + page_size) vend j.kmem j.list (rest-IsRange r (ground arith))
            j.owned (λ v h. ground (arith, low v, j.pages v)) in
        rw (e, j.frees)
          (record {
            kmem = f.kmem;
            list = f.list;
            returns = f.returns;
            owned = f.owned;
            pages = λ v.
                ground
                  (arith, f.pages v, j.pages v, count_in-first p vend v (ground arith) r.aligned);
          })
    | inr e ↦ rw e (record {
      kmem = k;
      list = free;
      returns = refl;
      owned = o;
      pages = λ v. ground (arith, count_in-end p vend v (ground arith));
    })
  ]

  -- `freerange` returns, and has put on the list exactly the whole pages of its range, each once,
  -- if the range lies between the kernel and `PHYSTOP` and above the pages that were on the list.
  pub freerange_lem :
      (vstart vend : ℕ) (k : Kmem) (free : List ℕ)
      → kernel_end ≤ vstart
      → kernel_base ≤ vstart
      → vstart + page_size ≤ 2 ^ 32
      → vend ≤ kernel_base + phys_top
      → IsOwned kernel_end (record { kmem = k; held = [] }) free
      → AllBelow (page_round_up vstart) free
      → Freed k free (page_round_up vstart) vend (freerange kernel_end vstart vend k)
  unfolding freerange
  freerange_lem vstart vend k free above mapped word below o low =
      free_pages_lem (suc (vend / page_size)) (page_round_up vstart) vend k free
        (record {
          aligned = omega arith;
          above = omega arith;
          mapped = omega arith;
          below = below;
          some_fuel = omega arith;
          enough = omega arith;
        })
        o low
