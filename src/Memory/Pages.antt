-- ===== src/Memory/Pages.antt =====
-- No page is handed out twice, and none is lost: the free list and the pages in use.
use strace_xv.Base.{
  occurs, occurs-append, ℕ, ◌%◌, ◌^◌, ◌≤◌, ◌<◌, ◌≡◌, refl, sym, ap, ◌∙◌, subst, ◌≢◌, ◌⊎◌, inl, inr,
  true, some, List, [], ◌∷◌, ◌++◌, arith,
}
use strace_xv.Memory.{Kmem, page_size, phys_top, v2p, is_in_page, fill, store, kalloc, kfree}

-- The list that starts at `p`, its words read from the memory.
pub data Chain (m : ℕ → ℕ) : ℕ → List ℕ → Type 0 where
  end : Chain m 0 []
  link : {p : ℕ} {ps : List ℕ} → 0 < p → Chain m (m p) ps → Chain m p (p ∷ ps)

pub Chain-frame :
    {m m' : ℕ → ℕ} {p : ℕ} {ps : List ℕ}
    → ((a : ℕ) → 0 < occurs a ps → m' a ≡ m a)
    → Chain m p ps
    → Chain m' p ps
Chain-frame same end = end
Chain-frame {m} {m'} {p} same (link {ps = ps} h c) = link h (
    subst (λ q. Chain m' q ps) (sym (same p (ground arith)))
      (Chain-frame (λ a k. same a (omega arith)) c))

-- The memory manager and its clients: `held` are the pages in use.
pub record System : Type 0 where
  pub kmem : Kmem
  pub held : List ℕ

module _ (kernel_end : ℕ) where
  -- A page that may be freed.
  pub record IsPage (v : ℕ) : Type 0 where
    pub aligned : v % page_size ≡ 0
    pub above : kernel_end ≤ v
    pub below : v2p v < phys_top
    pub word : v < 2 ^ 32

  -- A client gets a page, gives back one that it holds, or writes into one that it holds.
  pub data Step : System → System → Type 0 where
    allocated :
        {k k' : Kmem} {held : List ℕ} (r : ℕ)
        → kalloc k ≡ (r, k')
        → 0 < r
        → Step (record { kmem = k; held = held }) (record { kmem = k'; held = r ∷ held })
    freed :
        {k k' : Kmem} (before : List ℕ) (v : ℕ) (after : List ℕ)
        → kfree kernel_end v k ≡ some k'
        → Step
            (record { kmem = k; held = before ++ (v ∷ after) })
            (record { kmem = k'; held = before ++ after })
    written :
        {k : Kmem} {held : List ℕ} (v a w : ℕ)
        → 0 < occurs v held
        → is_in_page v a ≡ true
        → Step
            (record { kmem = k; held = held })
            (record { kmem = record k { memory = store k.memory a w }; held = held })

  pub data Reach (s : System) : System → Type 0 where
    here : Reach s s
    next : {t u : System} → Reach s t → Step t u → Reach s u

  -- The free list is `free`, and no page stands twice in it and in the pages in use.
  pub record IsOwned (s : System) (free : List ℕ) : Type 0 where
    pub chain : Chain s.kmem.memory s.kmem.freelist free
    pub pages : (v : ℕ) → 0 < occurs v (free ++ s.held) → IsPage v
    pub distinct : (v : ℕ) → occurs v (free ++ s.held) ≤ 1

  -- What `kfree` does to a page, and that it panics at nothing else.
  pub kfree_lem :
      (v : ℕ) (k : Kmem)
      → IsPage v
      → kfree kernel_end v k
        ≡ some (record k { memory = store (fill k.memory v) v k.freelist; freelist = v })
  unfolding kfree
  kfree_lem v k p = ground (arith, p.aligned, p.above, p.below)

  pub kfree-cases :
      (v : ℕ) (k k' : Kmem)
      → kfree kernel_end v k ≡ some k'
      → (k' ≡ record k { memory = store (fill k.memory v) v k.freelist; freelist = v })
        × (v % page_size ≡ 0)
  unfolding kfree
  kfree-cases v k k' e = ground arith

Chain-cases :
    {m : ℕ → ℕ} {p : ℕ} {ps : List ℕ}
    → Chain m p ps
    → 0 < p
    → (rest : List ℕ) × (ps ≡ p ∷ rest) × Chain m (m p) rest
Chain-cases end h = absurd (omega arith)
Chain-cases (link {ps = ps} h c) k = (ps, refl, c)

kalloc-page : (k : Kmem) → (kalloc k).0 ≡ k.freelist
unfolding kalloc
kalloc-page k = ground arith

-- `kalloc` returns the first page of the list, or null if the list is empty.
kalloc-first :
    (k : Kmem) {ps : List ℕ}
    → Chain k.memory k.freelist ps
    → (((kalloc k).0 ≡ 0) × (ps ≡ [])) ⊎ (0 < occurs (kalloc k).0 ps)
kalloc-first k {ps} c =
    subst (λ r. ((r ≡ 0) × (ps ≡ [])) ⊎ (0 < occurs r ps)) (sym (kalloc-page k)) (go c)
  where
    go :
        {m : ℕ → ℕ} {p : ℕ} {ps : List ℕ} → Chain m p ps → ((p ≡ 0) × (ps ≡ [])) ⊎ (0 < occurs p ps)
    go end = inl (refl, refl)
    go (link h c) = inr (ground arith)

-- `v` is a page that none of `ps` is.
abbrev Apart : ℕ → List ℕ → Type 0
Apart v ps = (a : ℕ) → 0 < occurs a ps → (a % page_size ≡ 0) × (v ≢ a)

-- A page joins the list, or a word of it is written.
kfree-Chain :
    {v : ℕ} {ps : List ℕ} (k : Kmem)
    → 0 < v
    → v % page_size ≡ 0
    → Apart v ps
    → Chain k.memory k.freelist ps
    → Chain (store (fill k.memory v) v k.freelist) v (v ∷ ps)
kfree-Chain {v} {ps} k h al off c = link h (
    subst (λ q. Chain (store (fill k.memory v) v k.freelist) q ps) self
      (Chain-frame (λ a m. outside (off a m)) c))
  where
    self : k.freelist ≡ store (fill k.memory v) v k.freelist v
    self = ground arith

    outside :
        {a : ℕ}
        → (a % page_size ≡ 0) × (v ≢ a)
        → store (fill k.memory v) v k.freelist a ≡ k.memory a
    outside (al', ne) = ground arith

store-Chain :
    {m : ℕ → ℕ} {v p : ℕ} {ps : List ℕ} (a w : ℕ)
    → v % page_size ≡ 0
    → is_in_page v a ≡ true
    → Apart v ps
    → Chain m p ps
    → Chain (store m a w) p ps
store-Chain {m} {v} a w al inside off c = Chain-frame (λ b h. outside (off b h)) c
  where
    outside : {b : ℕ} → (b % page_size ≡ 0) × (v ≢ b) → store m a w b ≡ m b
    outside (al', ne) = ground arith

module _ (kernel_end : ℕ) (pos : 0 < kernel_end) where
  -- A page in use is a page, and none of the free ones.
  held-Apart :
      {s : System} {free : List ℕ} (v : ℕ)
      → IsOwned kernel_end s free
      → 0 < occurs v s.held
      → IsPage kernel_end v × Apart v free
  held-Apart {s} {free} v o h = (
    o.pages v (omega (arith, occurs-append v free s.held)),
    λ a m. (
      IsPage.aligned (o.pages a (omega (arith, occurs-append a free s.held))),
      λ e. omega (arith, o.distinct v, occurs-append v free s.held, ap (λ x. occurs x free) e),
    ),
  )

  -- What a step keeps: the free list is one again, and all pages are there.
  pub record Kept (s t : System) (free : List ℕ) : Type 0 where
    pub left : List ℕ
    pub owned : IsOwned kernel_end t left
    pub same : (v : ℕ) → occurs v (left ++ t.held) ≡ occurs v (free ++ s.held)

  -- The same pages, elsewhere.
  moved :
      {s t : System} {free : List ℕ} (left : List ℕ)
      → IsOwned kernel_end s free
      → Chain t.kmem.memory t.kmem.freelist left
      → ((v : ℕ) → occurs v (left ++ t.held) ≡ occurs v (free ++ s.held))
      → Kept s t free
  moved left o c same = record {
    left = left;
    owned = record {
      chain = c;
      pages = λ v h. o.pages v (omega (arith, same v));
      distinct = λ v. omega (arith, same v, o.distinct v);
    };
    same = same;
  }

  pub Kept-alloc :
      (k k' : Kmem) (held free : List ℕ) (r : ℕ)
      → kalloc k ≡ (r, k')
      → 0 < r
      → IsOwned kernel_end (record { kmem = k; held = held }) free
      → Kept (record { kmem = k; held = held }) (record { kmem = k'; held = r ∷ held }) free
  unfolding kalloc
  Kept-alloc k k' held free r e h o =
      let at : k.freelist ≡ r = ground arith in
      let after : k' ≡ record k { freelist = k.memory k.freelist } = ground arith in
      let (rest, split, c) = Chain-cases o.chain (omega arith) in
      moved rest o (subst (λ q. Chain q.memory q.freelist rest) (sym after) c) (λ v. omega (
        arith,
        occurs-append v rest (r ∷ held),
        occurs-append v rest held,
        ap (λ l. occurs v (l ++ held)) split,
        ap (λ x. occurs v (x ∷ [])) at,
      ))

  pub Kept-free :
      (k k' : Kmem) (before : List ℕ) (v : ℕ) (after free : List ℕ)
      → kfree kernel_end v k ≡ some k'
      → IsOwned kernel_end (record { kmem = k; held = before ++ (v ∷ after) }) free
      → Kept
          (record { kmem = k; held = before ++ (v ∷ after) })
          (record { kmem = k'; held = before ++ after })
          free
  Kept-free k k' before v after free e o =
      let (becomes, aligned) = kfree-cases kernel_end v k k' e in
      let (page, off) = held-Apart v o (ground (arith, occurs-append v before (v ∷ after))) in
      moved (v ∷ free) o
        (subst (λ q. Chain q.memory q.freelist (v ∷ free)) (sym becomes)
          (kfree-Chain k (omega (arith, page.above)) aligned off o.chain))
        (λ x. omega (
          arith,
          occurs-append x free (before ++ (v ∷ after)),
          occurs-append x before (v ∷ after),
          occurs-append x free (before ++ after),
          occurs-append x before after,
        ))

  Step-Kept :
      {s t : System} {free : List ℕ}
      → Step kernel_end s t
      → IsOwned kernel_end s free
      → Kept s t free
  Step-Kept {free = free} (allocated {k} {k'} {held} r e h) o = Kept-alloc k k' held free r e h o
  Step-Kept {free = free} (freed {k} {k'} before v after e) o =
      Kept-free k k' before v after free e o
  Step-Kept {free = free} (written v a w h inside) o =
      let (page, off) = held-Apart v o h in
      moved free o (store-Chain a w page.aligned inside off o.chain) (λ x. refl)

  -- From a state in which each page is once either on the free list or in use, every run of
  -- allocations, frees and writes into pages in use leads to such a state with the same pages.
  pub Reach-Kept :
      {s t : System} {free : List ℕ}
      → IsOwned kernel_end s free
      → Reach kernel_end s t
      → Kept s t free
  Reach-Kept {free = free} o here = moved free o o.chain (λ v. refl)
  Reach-Kept {free = free} o (next r st) =
      let k = Reach-Kept o r in
      let l = Step-Kept st k.owned in
      record { left = l.left; owned = l.owned; same = λ v. l.same v ∙ k.same v }

  -- In every state that allocations, frees and writes into pages in use reach from one in which
  -- each page is once either free or in use, `kalloc` returns a null pointer only if all pages are
  -- in use, and else a page that is not in use; and `kfree` of a page in use does not panic.
  pub Reach-kalloc :
      {s t : System} {free : List ℕ}
      → IsOwned kernel_end s free
      → Reach kernel_end s t
      → ((((kalloc t.kmem).0 ≡ 0) × ((v : ℕ) → occurs v t.held ≡ occurs v (free ++ s.held)))
          ⊎ (IsPage kernel_end (kalloc t.kmem).0 × (occurs (kalloc t.kmem).0 t.held ≡ 0)))
        × ((v : ℕ) → 0 < occurs v t.held → (k : Kmem) × (kfree kernel_end v t.kmem ≡ some k))
  Reach-kalloc {s} {t} {free} o r =
      let k = Reach-Kept o r in
      (
        first k (kalloc-first t.kmem (IsOwned.chain k.owned)),
        λ v h. (_, kfree_lem kernel_end v t.kmem (held-Apart v k.owned h).0),
      )
    where
      first :
          (k : Kept s t free)
          → (((kalloc t.kmem).0 ≡ 0) × (k.left ≡ [])) ⊎ (0 < occurs (kalloc t.kmem).0 k.left)
          → (((kalloc t.kmem).0 ≡ 0) × ((v : ℕ) → occurs v t.held ≡ occurs v (free ++ s.held)))
            ⊎ (IsPage kernel_end (kalloc t.kmem).0 × (occurs (kalloc t.kmem).0 t.held ≡ 0))
      first k (inl (e, none_left)) = inl (
        e,
        λ v. subst (λ l. occurs v (l ++ t.held) ≡ occurs v (free ++ s.held)) none_left (k.same v),
      )
      first k (inr h) =
          let r = (kalloc t.kmem).0 in
          inr (
            IsOwned.pages k.owned r (omega (arith, occurs-append r k.left t.held)),
            omega (arith, IsOwned.distinct k.owned r, occurs-append r k.left t.held),
          )
