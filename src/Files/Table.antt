-- ===== src/Files/Table.antt =====
-- The reference counts of the table against the references that exist.
use strace_xv.Base.{
  ltb, ◌==◌, ==_iff, Bool-cases, Option-cases, ◌>>=◌, get_elem?, set, get_elem?-set_self,
  get_elem?-set_ne, occurs, get_elem?-lt, ℕ, zero, suc, ◌+◌, ◌-◌, ◌<◌, ◌≡◌, refl, sym, ap, ◌∙◌,
  subst, ◌≢◌, inl, inr, Option, none, some, List, [], ◌∷◌, arith,
}
use strace_xv.Files.{File, Closing, Table, filealloc, filedup, fileclose, closing, fd_none}

abbrev pub ref_in : Option File → ℕ
ref_in none = 0
ref_in (some f) = f.ref

-- Each file counts the references to it, `holders`, and a file without one has no type.
pub record IsCounted (t : Table) (holders : List ℕ) : Type 0 where
  pub counts : (i : ℕ) → ref_in (get_elem? t i) ≡ occurs i holders
  pub idle : (i : ℕ) (f : File) → get_elem? t i ≡ some f → f.ref ≡ 0 → f.file_type ≡ fd_none

-- One file and the references to it change.
pub IsCounted-set :
    {t : Table} {holders holders' : List ℕ} {i : ℕ} {f : File} (f' : File)
    → IsCounted t holders
    → get_elem? t i ≡ some f
    → (f'.ref ≡ occurs i holders')
    → ((j : ℕ) → i ≢ j → occurs j holders' ≡ occurs j holders)
    → (f'.ref ≡ 0 → f'.file_type ≡ fd_none)
    → IsCounted (set t i f') holders'
IsCounted-set {t} {holders} {holders'} {i} {f} f' c e at others no_type = record {
  counts = λ j. elim (Bool-cases (i == j)) [
    | inl q ↦
        subst (λ j. ref_in (get_elem? (set t i f') j) ≡ occurs j holders') ((==_iff i j).0 q)
          (ap ref_in self ∙ at)
    | inr q ↦
        let ne : i ≢ j = ground arith in
        ap ref_in (get_elem?-set_ne t i j f' ne) ∙ c.counts j ∙ sym (others j ne)
  ];
  idle = λ j g h z. elim (Bool-cases (i == j)) [
    | inl q ↦
        let h' : get_elem? (set t i f') i ≡ some g =
          subst (λ j. get_elem? (set t i f') j ≡ some g) (sym ((==_iff i j).0 q)) h in
        let same : f' ≡ g = cc self in
        subst (λ g. g.file_type ≡ fd_none) same (no_type (ap (λ g. g.ref) same ∙ z))
    | inr q ↦ let ne : i ≢ j = ground arith in c.idle j g (sym (get_elem?-set_ne t i j f' ne) ∙ h) z
  ];
}
  where
    self : get_elem? (set t i f') i ≡ some f'
    self = get_elem?-set_self t i f' (get_elem?-lt t i e)

-- What `filealloc` answers.
pub data Alloc (t : Table) : Option (ℕ × Table) → Type 0 where
  full : ((i : ℕ) (f : File) → get_elem? t i ≡ some f → 0 < f.ref) → Alloc t none
  found :
      (i : ℕ) (f : File)
      → get_elem? t i ≡ some f
      → f.ref ≡ 0
      → Alloc t (some (i, set t i (record f { ref = 1 })))

Alloc-suc :
    {t : Table} {f : File} {o : Option (ℕ × Table)}
    → 0 < f.ref
    → Alloc t o
    → Alloc (f ∷ t) (o >>= λ (i, t'). some (suc i, f ∷ t'))
Alloc-suc {t} {f} h (full all) = full go
  where
    go : (i : ℕ) (g : File) → get_elem? (f ∷ t) i ≡ some g → 0 < g.ref
    go zero g e = let same : f ≡ g = cc in subst (λ g. 0 < g.ref) same h
    go (suc i) g e = all i g e
Alloc-suc {t} {f} h (found i g e z) = found (suc i) g e z

pub filealloc_lem : (t : Table) → Alloc t (filealloc t)
unfolding filealloc
filealloc_lem [] = full (λ i f e. ground arith)
filealloc_lem (f ∷ t) = elim (Bool-cases (f.ref == 0)) [
  | inl e ↦ rw e (found 0 f refl (ground arith))
  | inr e ↦ rw e (Alloc-suc (ground arith) (filealloc_lem t))
]

-- The references behind `filealloc`, `filedup` and `fileclose`.
pub filealloc-IsCounted :
    {t : Table} {holders : List ℕ} {i : ℕ} {f : File}
    → IsCounted t holders
    → get_elem? t i ≡ some f
    → f.ref ≡ 0
    → (IsCounted (set t i (record f { ref = 1 })) (i ∷ holders)) × (occurs i holders ≡ 0)
filealloc-IsCounted {t} {holders} {i} {f} c e z =
    let free : occurs i holders ≡ 0 = sym (c.counts i) ∙ ap ref_in e ∙ z in
    (
      IsCounted-set (record f { ref = 1 }) c e (ground arith) (λ j ne. ground arith)
          (λ z. absurd (omega arith)),
      free,
    )

-- A file that is held.
pub held-cases :
    {t : Table} {holders : List ℕ} (i : ℕ)
    → IsCounted t holders
    → 0 < occurs i holders
    → (f : File) × (get_elem? t i ≡ some f) × (f.ref ≡ occurs i holders)
held-cases {t} {holders} i c h = elim (Option-cases (get_elem? t i)) [
  | inl e ↦ absurd (omega (arith, sym (c.counts i) ∙ ap ref_in e))
  | inr (f, e) ↦ (f, e, sym (ap ref_in e) ∙ c.counts i)
]

pub filedup-IsCounted :
    {t : Table} {holders : List ℕ} (i : ℕ)
    → IsCounted t holders
    → 0 < occurs i holders
    → (t' : Table) × (filedup i t ≡ some t') × IsCounted t' (i ∷ holders)
unfolding filedup
filedup-IsCounted {t} {holders} i c h =
    let (f, e, n) = held-cases i c h in
    (
      set t i (record f { ref = f.ref + 1 }),
      rw e (ground arith),
      IsCounted-set (record f { ref = f.ref + 1 }) c e (ground arith) (λ j ne. ground arith)
          (λ z. absurd (omega arith)),
    )

pub fileclose-IsCounted :
    {t : Table} {holders : List ℕ} (i : ℕ)
    → IsCounted t (i ∷ holders)
    → (t' : Table) × (cs : List Closing) × (fileclose i t ≡ some (t', cs)) × IsCounted t' holders
unfolding fileclose
fileclose-IsCounted {t} {holders} i c =
    let (f, e, n) = held-cases i c (ground arith) in
    elim (Bool-cases (ltb 0 (f.ref - 1))) [
      | inl more ↦ (
        set t i (record f { ref = f.ref - 1 }),
        [],
        rw (e, more) (ground arith),
        IsCounted-set (record f { ref = f.ref - 1 }) c e (ground arith) (λ j ne. ground arith)
            (λ z. ground arith),
      )
      | inr last ↦ (
        set t i (record f { ref = 0; file_type = fd_none }),
        closing f,
        rw (e, last) (ground arith),
        IsCounted-set (record f { ref = 0; file_type = fd_none }) c e (ground arith)
            (λ j ne. ground arith) (λ z. refl),
      )
    ]
