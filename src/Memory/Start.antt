-- ===== src/Memory/Start.antt =====
-- The start of the allocator in two phases, as kernel/main.c makes it.
use strace_xv.Base.{
  ◌>>=◌, occurs, ℕ, ◌+◌, ◌%◌, ◌≤◌, ◌<◌, ◌≡◌, refl, sym, ap, ◌∙◌, subst, true, false, Option, some,
  List, [], arith,
}
use strace_xv.Memory.{Kmem, page_size, kernel_base, phys_top, page_round_up, kinit1, kinit2}
use strace_xv.Memory.Pages.{Chain, IsOwned}
use strace_xv.Memory.Range.{count_in, AllBelow, Freed, freerange_lem}

module _ (kernel_end : ℕ) (pos : 0 < kernel_end) where
  -- The allocator behind both phases of its start.
  pub record Started (vmid vend : ℕ) (r : Option Kmem) : Type 0 where
    pub kmem : Kmem
    pub list : List ℕ
    pub returns : r ≡ some kmem
    pub locked : kmem.use_lock ≡ true
    pub owned : IsOwned kernel_end (record { kmem = kmem; held = [] }) list
    pub pages :
        (v : ℕ) → occurs v list ≡ count_in (page_round_up kernel_end) vmid v + count_in vmid vend v

  second_phase :
      {vmid vend : ℕ} (k : Kmem) {r : Option Kmem}
      → kernel_base ≤ vmid
      → kernel_end ≤ vmid
      → vmid % page_size ≡ 0
      → vmid ≤ vend
      → vend ≤ kernel_base + phys_top
      → Freed kernel_end pos k [] (page_round_up kernel_end) vmid r
      → Started vmid vend (r >>= λ k'. kinit2 kernel_end vmid vend k')
  unfolding kinit2
  second_phase {vmid} {vend} k mapped above al le below f =
      let aligned : page_round_up vmid ≡ vmid = omega arith in
      let low : AllBelow (page_round_up vmid) f.list = λ v h. ground (arith, f.pages v) in
      let g =
        freerange_lem kernel_end pos vmid vend f.kmem f.list above mapped (omega arith) below
          f.owned low in
      rw (f.returns, g.returns)
        (record {
          kmem = record (g.kmem) { use_lock = true };
          list = g.list;
          returns = refl;
          locked = refl;
          owned = record {
            chain = IsOwned.chain g.owned;
            pages = IsOwned.pages g.owned;
            distinct = IsOwned.distinct g.owned;
          };
          pages = λ v. g.pages v ∙ omega (arith, f.pages v, ap (λ q. count_in q vend v) aligned);
        })

  -- The start of the allocator returns, from an empty list, with its lock on and with exactly the
  -- whole pages between the end of the kernel and `vend` on the list, each once, if `vmid` is the start of a page behind the kernel and `vend` is not above
  -- `PHYSTOP`.
  pub kinit_lem :
      (vmid vend : ℕ) (k : Kmem)
      → k.freelist ≡ 0
      → kernel_base ≤ kernel_end
      → kernel_end ≤ vmid
      → vmid % page_size ≡ 0
      → vmid ≤ vend
      → vend ≤ kernel_base + phys_top
      → Started vmid vend
          (kinit1 kernel_end kernel_end vmid k >>= λ k'. kinit2 kernel_end vmid vend k')
  unfolding kinit1
  kinit_lem vmid vend k e mapped above al le below =
      second_phase (record k { use_lock = false }) (omega arith) above al le below
        (freerange_lem kernel_end pos kernel_end vmid (record k { use_lock = false }) []
          (omega arith) mapped (omega arith) (omega arith)
          (record {
            chain = subst (λ q. Chain k.memory q []) (sym e) Chain.end;
            pages = λ v h. absurd (omega arith);
            distinct = λ v. omega arith;
          })
          (λ v h. absurd (omega arith)))
