-- ===== src/Log/Blocks.antt =====
-- What `bread` returns, and how the cache and the writes move.
use strace_xv.Base.{
  ℕ, ◌≡◌, refl, sym, ap, ◌∙◌, fun_ext, ◌≢◌, ◌⊎◌, inl, inr, none, some, List, [], ◌∷◌, ◌++◌,
  append-nil, append_assoc, arith,
}
use strace_xv.Log.{Block, Disk, set_at, Store, bread, bwrite}

-- What `bread` returns.
abbrev pub view : Store → Disk
view st b = elim (st.cache b) [ some d ↦ d | none ↦ st.disk b ]

pub bread-data : (b : ℕ) (st : Store) → (bread b st).0 ≡ view st b
unfolding bread
bread-data b st = ground arith

pub view-bread : (b : ℕ) (st : Store) (c : ℕ) → view (bread b st).1 c ≡ view st c
unfolding bread
view-bread b st c = ground arith

pub disk-bread : (b : ℕ) (st : Store) → (bread b st).1.disk ≡ st.disk
unfolding bread
disk-bread b st = ground arith

pub writes-bread : (b : ℕ) (st : Store) → (bread b st).1.writes ≡ st.writes
unfolding bread
writes-bread b st = ground arith

pub view-bwrite :
    (b : ℕ) (d : Block) (st : Store) (c : ℕ) → view (bwrite b d st) c ≡ set_at (view st) b d c
unfolding bwrite
view-bwrite b d st c = ground arith

-- The disk after a list of writes.
abbrev pub apply : Disk → List (ℕ × Block) → Disk
apply disk [] = disk
apply disk ((b, d) ∷ w) = apply (set_at disk b d) w

pub apply-append :
    (w v : List (ℕ × Block)) (disk : Disk) → apply disk (w ++ v) ≡ apply (apply disk w) v
apply-append [] v disk = refl
apply-append ((b, d) ∷ w) v disk = apply-append w v (set_at disk b d)

-- Writes elsewhere.
abbrev pub Avoids : ℕ → List (ℕ × Block) → Type 0
Avoids c [] = Unit
Avoids c ((b, d) ∷ w) = (b ≢ c) × Avoids c w

pub apply-Avoids :
    (w : List (ℕ × Block)) (disk : Disk) (c : ℕ) → Avoids c w → apply disk w c ≡ disk c
apply-Avoids [] disk c a = refl
apply-Avoids ((b, d) ∷ w) disk c (ne, a) = apply-Avoids w (set_at disk b d) c a ∙ ground arith

pub Avoids-prefix : (p l : List (ℕ × Block)) (c : ℕ) → Avoids c (p ++ l) → Avoids c p
Avoids-prefix [] l c a = tt
Avoids-prefix ((b, d) ∷ p) l c (ne, a) = (ne, Avoids-prefix p l c a)

-- A prefix of two lists after one another.
pub split-append {ℓ} :
    {A : Type ℓ} (p l a b : List A)
    → p ++ l ≡ a ++ b
    → ((r : List A) × (a ≡ p ++ r)) ⊎ ((q : List A) × (p ≡ a ++ q) × (q ++ l ≡ b))
split-append [] l a b e = inl (a, refl)
split-append (x ∷ p) l [] b e = inr (x ∷ p, refl, e)
split-append (x ∷ p) l (y ∷ a) b e =
    let h : x ≡ y = cc in
    elim (split-append p l a b (cc)) [ inl (r, f) ↦ inl (r, cc) | inr (q, f, g) ↦ inr (q, cc, g) ]

-- What running a piece of code that makes the writes `w` does to a store.
pub record Ran (st st' : Store) (w : List (ℕ × Block)) : Type 0 where
  pub views : (c : ℕ) → view st' c ≡ apply (view st) w c
  pub disks : (c : ℕ) → st'.disk c ≡ apply st.disk w c
  pub journal : st'.writes ≡ st.writes ++ w

pub apply-cong :
    (w : List (ℕ × Block)) (d e : Disk)
    → ((c : ℕ) → d c ≡ e c)
    → (c : ℕ) → apply d w c ≡ apply e w c
apply-cong w d e h c = ap (λ x. apply x w c) (fun_ext h)

pub Ran-trans :
    {st st' st'' : Store} (w v : List (ℕ × Block))
    → Ran st st' w
    → Ran st' st'' v
    → Ran st st'' (w ++ v)
Ran-trans {st} {st'} {st''} w v p q = record {
  views = λ c.
      q.views c
      ∙ apply-cong v (view st') (apply (view st) w) p.views c
      ∙ ap (λ x. x c) (sym (apply-append w v (view st)));
  disks = λ c.
      q.disks c
      ∙ apply-cong v st'.disk (apply st.disk w) p.disks c
      ∙ ap (λ x. x c) (sym (apply-append w v st.disk));
  journal = q.journal ∙ ap (λ x. x ++ v) p.journal ∙ append_assoc st.writes w v;
}

pub bread-Ran : (b : ℕ) (st : Store) → Ran st (bread b st).1 []
bread-Ran b st = record {
  views = view-bread b st;
  disks = λ c. ap (λ d. d c) (disk-bread b st);
  journal = writes-bread b st ∙ sym (append-nil st.writes);
}

pub bwrite-Ran : (b : ℕ) (d : Block) (st : Store) → Ran st (bwrite b d st) ((b, d) ∷ [])
unfolding bwrite
bwrite-Ran b d st = record { views = view-bwrite b d st; disks = λ c. refl; journal = refl }

-- The buffers of two blocks are read, and the second is written.
pub copy-Ran :
    (a b c : ℕ) (d : Block) (st : Store)
    → Ran st (bwrite c d (bread b (bread a st).1).1) ((c, d) ∷ [])
copy-Ran a b c d st =
    Ran-trans [] _ (bread-Ran a st) (Ran-trans [] _ (bread-Ran b (bread a st).1) (bwrite-Ran c d _))
