-- ===== src/Fs/Content/Frees.antt =====
-- A list of blocks that are freed one after another.
use strace_xv.Base.{
  ◌==◌, if◌then◌else◌, Bool-cases, Option-cases, ◌>>=◌, occurs, ==_self, ==_ne, ℕ, zero, suc, ◌+◌,
  ◌≤◌, ◌<◌, ◌≡◌, refl, sym, ap, ◌∙◌, subst, ◌≢◌, inl, inr, false, Option, some, List, [], ◌∷◌, ◌++◌,
  arith,
}
use strace_xv.Fs.{Superblock, Disk, bitmap_block, bfree}
use strace_xv.Fs.Bitmap.{used}
use strace_xv.Fs.Allocation.{Freed, Bfree, bfree-Bfree}

-- The blocks that the words `f` name from `i` on, `n` of them.
unfoldable pub parts : (ℕ → ℕ) → ℕ → ℕ → List ℕ
parts f i zero = []
parts f i (suc n) = let rest = parts f (i + 1) n in if f i == 0 then rest else f i ∷ rest

unfoldable pub free_all : Superblock → Disk → List ℕ → Option Disk
free_all sb d [] = some d
free_all sb d (b ∷ bs) = bfree sb d b >>= λ d'. free_all sb d' bs

-- What the end of the blocks `bs` does to the disk.
pub record Frees (sb : Superblock) (d : Disk) (bs : List ℕ) (d' : Disk) : Type 0 where
  pub gone : (b : ℕ) → occurs b bs ≢ 0 → used sb d' b ≡ 0
  pub kept : (b : ℕ) → occurs b bs ≡ 0 → used sb d' b ≡ used sb d b
  pub others : (c : ℕ) → ((j : ℕ) → j < sb.size → c ≢ bitmap_block sb j) → d' c ≡ d c

-- Blocks that are distinct and in use are freed without a panic.
pub free_all-Frees :
    (sb : Superblock) (d : Disk) (bs : List ℕ)
    → ((b : ℕ) → occurs b bs ≤ 1)
    → ((b : ℕ) → occurs b bs ≢ 0 → b < sb.size)
    → ((b : ℕ) → occurs b bs ≢ 0 → used sb d b ≢ 0)
    → (d' : Disk) × (free_all sb d bs ≡ some d') × Frees sb d bs d'
unfolding free_all
free_all-Frees sb d [] one size u =
    (d, refl, record { gone = λ b h. absurd (h refl); kept = λ b h. refl; others = λ c h. refl })
free_all-Frees sb d (x ∷ bs) one size u =
    go (λ d1 h. free_all-Frees sb d1 bs (λ b. omega (arith, one b)) (λ b t. size b (weaker b t)) h)
      (bfree-Bfree sb d x)
  where
    there : occurs x (x ∷ bs) ≢ 0
    there = rw (==_self x) (λ z. absurd (omega arith))

    not_again : occurs x bs ≡ 0
    not_again =
        let h : occurs x (x ∷ bs) ≡ 1 + occurs x bs = rw (==_self x) refl in omega (arith, one x)

    weaker : (b : ℕ) → occurs b bs ≢ 0 → occurs b (x ∷ bs) ≢ 0
    weaker b h z = absurd (h (omega arith))

    join : {d1 d2 : Disk} → Freed sb d x d1 → Frees sb d1 bs d2 → Frees sb d (x ∷ bs) d2
    join {d1} {d2} f g = record {
      gone = λ b h. elim (Bool-cases (b == x)) [
        | inl e ↦ let e' : b ≡ x = ground arith in rw e' (g.kept x not_again ∙ f.mark)
        | inr n ↦ g.gone b (λ z. h (rw n (omega arith)))
      ];
      kept = λ b h.
          let n : b ≢ x = λ e. there (subst (λ y. occurs y (x ∷ bs) ≡ 0) e h) in
          g.kept b (omega arith) ∙ f.kept b n;
      others = λ c h. g.others c h ∙ f.others c (h x (size x there));
    }

    go :
        {o : Option Disk}
        → ((d1 : Disk)
            → ((b : ℕ) → occurs b bs ≢ 0 → used sb d1 b ≢ 0)
            → (d' : Disk) × (free_all sb d1 bs ≡ some d') × Frees sb d1 bs d')
        → Bfree sb d x o
        → (d' : Disk) × ((o >>= λ d1. free_all sb d1 bs) ≡ some d') × Frees sb d (x ∷ bs) d'
    go rest (Bfree.free_block z) = absurd (u x there z)
    go rest (Bfree.freed d1 n f) =
        let (d', e, g) = rest d1 (λ b h z.
          u b (weaker b h) (sym (f.kept b (λ s. h (ap (λ y. occurs y bs) s ∙ not_again))) ∙ z)) in
        (d', e, join f g)

pub free_all-append :
    (sb : Superblock) (d : Disk) (xs ys : List ℕ)
    → free_all sb d (xs ++ ys) ≡ (free_all sb d xs >>= λ d'. free_all sb d' ys)
unfolding free_all
free_all-append sb d [] ys = refl
free_all-append sb d (x ∷ xs) ys = elim (Option-cases (bfree sb d x)) [
  | inl e ↦ rw e refl
  | inr (d1, e) ↦ rw e (free_all-append sb d1 xs ys)
]

-- Only blocks of the map change.
pub free_all-others :
    (sb : Superblock) (d : Disk) (bs : List ℕ) (c : ℕ) {d1 : Disk}
    → ((b : ℕ) → occurs b bs ≢ 0 → c ≢ bitmap_block sb b)
    → free_all sb d bs ≡ some d1
    → d1 c ≡ d c
unfolding free_all
free_all-others sb d [] c {d1} h e = let same : d1 ≡ d = cc in ap (λ (x : Disk). x c) same
free_all-others sb d (x ∷ bs) c {d1} h e =
    go (λ d2 q. free_all-others sb d2 bs c (λ b o. h b (λ z. absurd (o (omega arith)))) q)
      (bfree-Bfree sb d x) e
  where
    go :
        {o : Option Disk}
        → ((d2 : Disk) → free_all sb d2 bs ≡ some d1 → d1 c ≡ d2 c)
        → Bfree sb d x o
        → (o >>= λ d2. free_all sb d2 bs) ≡ some d1
        → d1 c ≡ d c
    go rest (Bfree.free_block z) e = absurd (cc)
    go rest (Bfree.freed d2 u f) e =
        rest d2 e ∙ f.others c (h x (rw (==_self x) (λ z. absurd (omega arith))))

pub free_all_one : (sb : Superblock) (d : Disk) (b : ℕ) → free_all sb d (b ∷ []) ≡ bfree sb d b
unfolding free_all
free_all_one sb d b = elim (Option-cases (bfree sb d b)) [
  | inl e ↦ rw e refl
  | inr (d1, e) ↦ rw e refl
]

pub parts-append : (f : ℕ → ℕ) (i m n : ℕ) → parts f i (m + n) ≡ parts f i m ++ parts f (i + m) n
unfolding parts
parts-append f i zero n =
    let e : 0 + n ≡ n = omega arith in let z : i + 0 ≡ i = omega arith in rw (e, z) refl
parts-append f i (suc m) n =
    let e : suc m + n ≡ suc (m + n) = omega arith in
    let z : i + suc m ≡ i + 1 + m = omega arith in
    rw (e, z)
      (elim (Bool-cases (f i == 0)) [
        | inl none_there ↦ rw none_there (parts-append f (i + 1) m n)
        | inr there ↦ rw there (ap (λ l. f i ∷ l) (parts-append f (i + 1) m n))
      ])

pub parts-same :
    (f g : ℕ → ℕ) (i n : ℕ) → ((k : ℕ) → i ≤ k → k < i + n → f k ≡ g k) → parts f i n ≡ parts g i n
unfolding parts
parts-same f g i zero h = refl
parts-same f g i (suc n) h =
    rw
      (
        h i (omega arith) (omega arith),
        parts-same f g (i + 1) n (λ k l u. h k (omega arith) (omega arith)),
      )
      refl

-- A block of the list is named by a word, and by one only if the words are distinct.
pub parts-named :
    (f : ℕ → ℕ) (i n b : ℕ)
    → occurs b (parts f i n) ≢ 0
    → (k : ℕ) × (i ≤ k) × (k < i + n) × (f k ≡ b) × (b ≢ 0)
unfolding parts
parts-named f i zero b h = absurd (h refl)
parts-named f i (suc n) b h = elim (Bool-cases (f i == 0)) [
  | inl z ↦
      let (k, l, u, e, t) = parts-named f (i + 1) n b (λ o. h (rw z o)) in
      (k, omega arith, omega arith, e, t)
  | inr t ↦ elim (Bool-cases (b == f i)) [
    | inl e ↦ (i, omega arith, omega arith, ground arith, ground arith)
    | inr e ↦
        let (k, l, u, q, v) = parts-named f (i + 1) n b (λ o. h (rw (t, e) (omega arith))) in
        (k, omega arith, omega arith, q, v)
  ]
]

pub parts-there :
    (f : ℕ → ℕ) (i n k : ℕ) → i ≤ k → k < i + n → f k ≢ 0 → occurs (f k) (parts f i n) ≢ 0
unfolding parts
parts-there f i zero k l u t = absurd (omega arith)
parts-there f i (suc n) k l u t = elim (Bool-cases (k == i)) [
  | inl e ↦
      let e' : k ≡ i = ground arith in
      let s : (f i == 0) ≡ false = ==_ne (f i) 0 (λ z. t (ap f e' ∙ z)) in
      rw (e', s, ==_self (f i)) (λ z. absurd (omega arith))
  | inr other ↦ λ z.
      parts-there f (i + 1) n k (ground arith) (omega arith) t (elim (Bool-cases (f i == 0)) [
        | inl s ↦ rw s at z
        | inr s ↦ let z' = rw s at z in omega arith
      ])
]

pub parts-once :
    (f : ℕ → ℕ) (i n b : ℕ)
    → ((j k : ℕ) → j < i + n → k < i + n → f j ≢ 0 → f j ≡ f k → j ≡ k)
    → occurs b (parts f i n) ≤ 1
unfolding parts
parts-once f i zero b h = omega arith
parts-once f i (suc n) b h =
    let ih : occurs b (parts f (i + 1) n) ≤ 1 =
      parts-once f (i + 1) n b (λ j k l u. h j k (omega arith) (omega arith)) in
    elim (Bool-cases (f i == 0)) [
      | inl z ↦ rw z ih
      | inr t ↦ elim (Bool-cases (b == f i)) [
        | inr e ↦ rw (t, e) (omega arith)
        | inl e ↦ elim (Bool-cases (occurs b (parts f (i + 1) n) == 0)) [
          | inl gone ↦ rw (t, e) (ground arith)
          | inr again ↦
              let (k, l, u, q, v) = parts-named f (i + 1) n b (ground arith) in
              let b' : b ≡ f i = ground arith in
              absurd
                (omega (arith, h i k (omega arith) (omega arith) (ground arith) (sym b' ∙ sym q)))
        ]
      ]
    ]

pub parts-shift : (f : ℕ → ℕ) (i s n : ℕ) → parts f (i + s) n ≡ parts (λ k. f (k + s)) i n
unfolding parts
parts-shift f i s zero = refl
parts-shift f i s (suc n) =
    let e : i + s + 1 ≡ i + 1 + s = omega arith in
    let ih : parts f (i + s + 1) n ≡ parts (λ k. f (k + s)) (i + 1) n =
      ap (λ j. parts f j n) e ∙ parts-shift f (i + 1) s n in
    rw ih refl

pub parts_none : (f : ℕ → ℕ) (i n : ℕ) → ((k : ℕ) → i ≤ k → k < i + n → f k ≡ 0) → parts f i n ≡ []
unfolding parts
parts_none f i zero h = refl
parts_none f i (suc n) h =
    rw (h i (omega arith) (omega arith))
      (parts_none f (i + 1) n (λ k l u. h k (omega arith) (omega arith)))

pub parts_one : (f : ℕ → ℕ) (i : ℕ) → f i ≢ 0 → parts f i 1 ≡ f i ∷ []
unfolding parts
parts_one f i h = rw (==_ne (f i) 0 h) refl
