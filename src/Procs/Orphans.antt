-- ===== src/Procs/Orphans.antt =====
-- The parents behind exit: the children of the process that exits become those of init.
use strace_xv.Base.{
  ltb, leb, ◌==◌, if◌then◌else◌, ==_iff, Bool-cases, Option-cases, ◌>>=◌, length, get_elem?,
  get_elem?-lt, ℕ, zero, suc, ◌+◌, ◌≤◌, ◌≡◌, refl, ap, ◌∙◌, subst, ◌≢◌, inl, inr, true, false, ◌&&◌,
  Option, none, some, [], ◌∷◌, arith,
}
use strace_xv.Procs.{
  zombie, Proc, Table, is_zombie, points_to, modify, wakeup1, parent_chan, pass_child,
  pass_children, exit,
}
use strace_xv.Procs.Running.{get_elem?-modify_self, get_elem?-modify_ne}

abbrev parent_in : Option Proc → Option ℕ
parent_in o = o >>= λ p. p.parent

-- The parent of the entry `j`.
abbrev pub parent_at : Table → ℕ → Option ℕ
parent_at ps j = parent_in (get_elem? ps j)

-- The parent `o` with the children of `cur` passed to `initproc`.
abbrev pub passed : ℕ → ℕ → Option ℕ → Option ℕ
passed cur initproc o = if points_to cur o then some initproc else o

parent_at-wakeup1 : (chan : ℕ) (ps : Table) (j : ℕ) → parent_at (wakeup1 chan ps) j ≡ parent_at ps j
unfolding wakeup1
parent_at-wakeup1 chan [] j = refl
parent_at-wakeup1 chan (p ∷ ps) zero = ground arith
parent_at-wakeup1 chan (p ∷ ps) (suc j) = parent_at-wakeup1 chan ps j

parent_at-same :
    (ps : Table) (i : ℕ) (f : Proc → Proc)
    → ((p : Proc) → (f p).parent ≡ p.parent)
    → (j : ℕ) → parent_at (modify ps i f) j ≡ parent_at ps j
unfolding modify
parent_at-same [] i f h j = refl
parent_at-same (p ∷ ps) zero f h zero = h p
parent_at-same (p ∷ ps) zero f h (suc j) = refl
parent_at-same (p ∷ ps) (suc i) f h zero = refl
parent_at-same (p ∷ ps) (suc i) f h (suc j) = parent_at-same ps i f h j

module _ (addr : ℕ → ℕ) (cur initproc : ℕ) where
  -- One round of the loop.
  parent_at-pass_self :
      (i : ℕ) (ps : Table)
      → parent_at (pass_child addr cur initproc i ps) i ≡ passed cur initproc (parent_at ps i)
  unfolding pass_child
  parent_at-pass_self i ps = elim (Option-cases (get_elem? ps i)) [
    | inl e ↦ rw (pass_child, e) (ap parent_in e)
    | inr (p, e) ↦
        let adopt : Proc → Proc = λ p. record p { parent = some initproc } in
        let adopted : parent_at (modify ps i adopt) i ≡ some initproc =
          ap parent_in (get_elem?-modify_self ps i adopt)
          ∙ ap (λ o. parent_in (o >>= λ p. some (adopt p))) e in
        elim (Bool-cases (points_to cur p.parent)) [
          | inl child ↦ elim (Bool-cases (is_zombie p)) [
            | inl z ↦ rw (pass_child, e, child, z) (parent_at-wakeup1 (addr initproc) _ i ∙ adopted)
            | inr z ↦ rw (pass_child, e, child, z) adopted
          ]
          | inr other ↦ rw (pass_child, e, other) (ap parent_in e)
        ]
  ]

  parent_at-pass_ne :
      (i : ℕ) (ps : Table) (j : ℕ)
      → i ≢ j
      → parent_at (pass_child addr cur initproc i ps) j ≡ parent_at ps j
  unfolding pass_child
  parent_at-pass_ne i ps j ne = elim (Option-cases (get_elem? ps i)) [
    | inl e ↦ rw (pass_child, e) refl
    | inr (p, e) ↦
        let adopt : Proc → Proc = λ p. record p { parent = some initproc } in
        let same : parent_at (modify ps i adopt) j ≡ parent_at ps j =
          ap parent_in (get_elem?-modify_ne ps i j adopt ne) in
        elim (Bool-cases (points_to cur p.parent)) [
          | inl child ↦ elim (Bool-cases (is_zombie p)) [
            | inl z ↦ rw (pass_child, e, child, z) (parent_at-wakeup1 (addr initproc) _ j ∙ same)
            | inr z ↦ rw (pass_child, e, child, z) same
          ]
          | inr other ↦ rw (pass_child, e, other) refl
        ]
  ]

  -- The loop passes on the entries `i` to `i + left - 1`.
  parent_at-loop :
      (left i : ℕ) (ps : Table) (j : ℕ)
      → parent_at (pass_children addr cur initproc left i ps) j ≡ (
          if leb i j && ltb j (i + left)
          then passed cur initproc (parent_at ps j)
          else parent_at ps j)
  unfolding pass_children
  parent_at-loop zero i ps j = ground arith
  parent_at-loop (suc left) i ps j =
      parent_at-loop left (i + 1) (pass_child addr cur initproc i ps) j
      ∙ elim (Bool-cases (i == j)) [
        | inl e ↦
            let start : (leb (i + 1) j && ltb j (i + 1 + left)) ≡ false = ground arith in
            let whole : (leb i j && ltb j (i + suc left)) ≡ true = ground arith in
            let own : parent_at (pass_child addr cur initproc i ps) j
                ≡ passed cur initproc (parent_at ps j) =
              subst
                (λ j.
                  parent_at (pass_child addr cur initproc i ps) j
                  ≡ passed cur initproc (parent_at ps j))
                ((==_iff i j).0 e) (parent_at-pass_self i ps) in
            rw (start, whole) own
        | inr e ↦ rw (parent_at-pass_ne i ps j (ground arith)) (ground arith)
      ]

  -- Beyond the table there is no parent.
  parent_at-beyond : (ps : Table) (j : ℕ) → length ps ≤ j → parent_at ps j ≡ none
  parent_at-beyond ps j h = elim (Option-cases (get_elem? ps j)) [
    | inl e ↦ ap parent_in e
    | inr (p, e) ↦ absurd (omega (arith, get_elem?-lt ps j e))
  ]

  whole_table :
      (ps ps' : Table) (j : ℕ)
      → parent_at ps' j ≡ parent_at ps j
      → (if leb 0 j && ltb j (0 + length ps)
          then passed cur initproc (parent_at ps' j)
          else parent_at ps' j)
        ≡ passed cur initproc (parent_at ps j)
  whole_table ps ps' j same = elim (Bool-cases (ltb j (length ps))) [
    | inl e ↦
        let within : (leb 0 j && ltb j (0 + length ps)) ≡ true = ground arith in
        rw within (ap (passed cur initproc) same)
    | inr e ↦
        let beyond : (leb 0 j && ltb j (0 + length ps)) ≡ false = ground arith in
        let no_parent = parent_at-beyond ps j (ground arith) in
        rw (beyond, no_parent) (same ∙ no_parent)
  ]

  -- `exit` makes `initproc` the parent of exactly the children of the process, which is then the
  -- parent of none: it panics only for `initproc` itself.
  pub exit-parents :
      (parent : Option ℕ) (ps : Table)
      → cur ≢ initproc
      → (ps' : Table) × (exit addr cur initproc parent ps ≡ some ps')
        × ((j : ℕ) → parent_at ps' j ≡ passed cur initproc (parent_at ps j))
        × ((j : ℕ) → points_to cur (parent_at ps' j) ≡ false)
  unfolding exit
  exit-parents parent ps ne =
      let lives : (cur == initproc) ≡ false = ground arith in
      (left_table, rw lives refl, parents, λ j. rw (parents j) (none_left (parent_at ps j)))
    where
      woken : Table
      woken = wakeup1 (parent_chan addr parent) ps

      left_table : Table
      left_table =
          modify (pass_children addr cur initproc (length ps) 0 woken) cur
            (λ p. record p { state = zombie })

      parents : (j : ℕ) → parent_at left_table j ≡ passed cur initproc (parent_at ps j)
      parents j =
          parent_at-same _ cur (λ p. record p { state = zombie }) (λ p. refl) j
          ∙ parent_at-loop (length ps) 0 woken j
          ∙ whole_table ps woken j (parent_at-wakeup1 (parent_chan addr parent) ps j)

      none_left : (o : Option ℕ) → points_to cur (passed cur initproc o) ≡ false
      none_left none = refl
      none_left (some i) = ground arith
