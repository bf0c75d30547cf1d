-- ===== src/Fs/Icache/Holders.antt =====
-- The cache of inodes with all that hold references to its entries, and what their calls keep.
use strace_xv.Base.{
  ◌==◌, if◌then◌else◌, Bool-cases, put, put_self, put_ne, ℕ, ◌+◌, ◌-◌, ◌≤◌, ◌<◌, ◌≡◌, refl, sym, ap,
  ◌∙◌, subst, ◌≢◌, inl, inr, Bool, false, none, some, arith,
}
use strace_xv.Fs.{Superblock, Disk}
use strace_xv.Fs.Inode.{Inode}
use strace_xv.Fs.Icache.{
  Entry, Icache, Slot, scan, recycled, more_refs, take_slot, iget, idup, locked, ilock, iunlock,
  iput,
}
use strace_xv.Fs.Icache.Calls.{Kept, ilock_lem, iunlock_lem, iput_lem}
use strace_xv.Fs.Icache.Scan.{Cached, Scanned, scan-Scanned}

-- The disk and the cache, with how many references to each entry are held, and how many locks.
pub record System : Type 0 where
  pub disk : Disk
  pub table : Icache
  pub held : ℕ → ℕ
  pub locks : ℕ → ℕ

abbrev pub more : (ℕ → ℕ) → ℕ → ℕ → ℕ
more f i = put f i (f i + 1)

abbrev pub less : (ℕ → ℕ) → ℕ → ℕ → ℕ
less f i = put f i (f i - 1)

-- What the holder of a lock may do to its inode.
abbrev pub changed : Inode → Entry → Entry
changed ip e = record e { inode = record ip { dev = (e.inode).dev; inum = (e.inode).inum } }

-- A reference is put by one that does not hold the lock by it.
pub data Step (sb : Superblock) : System → System → Type 0 where
  get :
      {s : System} {i : ℕ} {t : Icache} (dev inum : ℕ)
      → iget dev inum s.table ≡ some (i, t)
      → Step sb s (record s { table = t; held = more s.held i })
  dup :
      {s : System} (i : ℕ)
      → 0 < s.held i
      → Step sb s (record s { table = idup i s.table; held = more s.held i })
  lock :
      {s : System} {t : Icache} (i : ℕ)
      → s.locks i < s.held i
      → ilock sb i s.table s.disk ≡ some (locked t)
      → Step sb s (record s { table = t; locks = more s.locks i })
  unlock :
      {s : System} {t : Icache} (i : ℕ)
      → 0 < s.locks i
      → iunlock i s.table ≡ some t
      → Step sb s (record s { table = t; locks = less s.locks i })
  drop :
      {s : System} {t : Icache} {d : Disk} (i : ℕ)
      → s.locks i < s.held i
      → iput sb i s.table s.disk ≡ some (t, d)
      → Step sb s (record s { disk = d; table = t; held = less s.held i })
  change :
      {s : System} (i : ℕ) (ip : Inode) (d : Disk)
      → 0 < s.locks i
      → Step sb s (record s { disk = d; table = put s.table i (changed ip (s.table i)) })

pub data Reach (sb : Superblock) (s : System) : System → Type 0 where
  here : Reach sb s s
  next : {t u : System} → Reach sb s t → Step sb t u → Reach sb s u

-- Each count is exact, an entry is busy exactly while it is locked, and no inode has two entries.
pub record IsSound (s : System) : Type 0 where
  pub counts : (i : ℕ) → i < 50 → (s.table i).ref ≡ s.held i
  pub within : (i : ℕ) → 0 < s.held i → i < 50
  pub busy : (i : ℕ) → i < 50 → (if (s.table i).busy then 1 else 0) ≡ s.locks i
  pub owned : (i : ℕ) → s.locks i ≤ s.held i
  pub unique :
      (i j : ℕ)
      → i < 50
      → j < 50
      → 0 < (s.table i).ref
      → Cached (s.table i).inode.dev (s.table i).inode.inum (s.table j)
      → i ≡ j

-- One entry changes, with its counts.
record Changes (s : System) (i : ℕ) (e : Entry) (held' locks' : ℕ → ℕ) : Type 0 where
  inside : i < 50
  refs : e.ref ≡ held' i
  busies : (if e.busy then 1 else 0) ≡ locks' i
  owns : locks' i ≤ held' i
  other_refs : (j : ℕ) → j ≢ i → held' j ≡ s.held j
  other_locks : (j : ℕ) → j ≢ i → locks' j ≡ s.locks j
  alone : (j : ℕ) → j < 50 → j ≢ i → 0 < e.ref → Cached (e.inode).dev (e.inode).inum (s.table j) → ⊥

IsSound-put :
    {s : System} {i : ℕ} {e : Entry} {held' locks' : ℕ → ℕ} (d : Disk)
    → IsSound s
    → Changes s i e held' locks'
    → IsSound (record { disk = d; table = put s.table i e; held = held'; locks = locks' })
IsSound-put {s} {i} {e} {held'} {locks'} d h c = record {
  counts = λ j l. elim (Bool-cases (i == j)) [
    | inl q ↦ let q' : i ≡ j = ground arith in rw q (c.refs ∙ ap held' q')
    | inr q ↦ rw q (h.counts j l ∙ sym (c.other_refs j (ground arith)))
  ];
  within = λ j l. elim (Bool-cases (i == j)) [
    | inl q ↦ let q' : i ≡ j = ground arith in subst (λ x. x < 50) q' c.inside
    | inr q ↦ h.within j (subst (λ x. 0 < x) (c.other_refs j (ground arith)) l)
  ];
  busy = λ j l. elim (Bool-cases (i == j)) [
    | inl q ↦ let q' : i ≡ j = ground arith in rw q (c.busies ∙ ap locks' q')
    | inr q ↦ rw q (h.busy j l ∙ sym (c.other_locks j (ground arith)))
  ];
  owned = λ j. elim (Bool-cases (i == j)) [
    | inl q ↦ let q' : i ≡ j = ground arith in subst (λ x. locks' x ≤ held' x) q' c.owns
    | inr q ↦
        omega (arith, h.owned j, c.other_refs j (ground arith), c.other_locks j (ground arith))
  ];
  unique = λ j k l u. elim (Bool-cases (i == j)) [
    | inl q ↦ elim (Bool-cases (i == k)) [
      | inl r ↦ λ a b. ground arith
      | inr r ↦ rw (q, r) (λ a b. absurd (c.alone k u (ground arith) a b))
    ]
    | inr q ↦ elim (Bool-cases (i == k)) [
      | inl r ↦ rw (q, r) (λ a (b, x, y). absurd (c.alone j l (ground arith) b (a, sym x, sym y)))
      | inr r ↦ rw (q, r) (h.unique j k l u)
    ]
  ];
}

module _ {s : System} (h : IsSound s) where
  pub iget-Scanned :
      (dev inum : ℕ) → Scanned dev inum s.table 0 50 (scan dev inum s.table 0 50 none)
  iget-Scanned dev inum = scan-Scanned dev inum s.table 0 50 none tt

  -- An entry that keeps its inode has no second one.
  still_alone :
      (i : ℕ) (e : Entry)
      → i < 50
      → 0 < (s.table i).ref
      → (e.inode).dev ≡ (s.table i).inode.dev
      → (e.inode).inum ≡ (s.table i).inode.inum
      → (j : ℕ) → j < 50
      → j ≢ i
      → 0 < e.ref
      → Cached (e.inode).dev (e.inode).inum (s.table j)
      → ⊥
  still_alone i e l r d n j u o t (b, x, y) = o (sym (h.unique i j l u r (b, x ∙ d, y ∙ n)))

  get-IsSound :
      {i : ℕ} {t : Icache} (dev inum : ℕ) {o : Slot}
      → Scanned dev inum s.table 0 50 o
      → take_slot dev inum s.table o ≡ some (i, t)
      → IsSound (record s { table = t; held = more s.held i })
  unfolding take_slot
  get-IsSound dev inum (Scanned.full f n) e = absurd (cc)
  get-IsSound {i} {t} dev inum (Scanned.found k l u (r, x, y)) e =
      let k≡ : k ≡ i = cc in
      let t≡ : put s.table k (more_refs (s.table k)) ≡ t = cc in
      subst (λ v. IsSound (record s { table = v; held = more s.held i })) t≡
        (subst
          (λ v.
            IsSound
              (record s { table = put s.table k (more_refs (s.table k)); held = more s.held v }))
          k≡
          (IsSound-put s.disk h (record {
            inside = u;
            refs = ap (λ v. v + 1) (h.counts k u) ∙ sym (put_self s.held k (s.held k + 1));
            busies = h.busy k u;
            owns = rw (put_self s.held k (s.held k + 1)) (omega (arith, h.owned k));
            other_refs = λ j o. put_ne s.held k j (s.held k + 1) (λ z. o (sym z));
            other_locks = λ j o. refl;
            alone = still_alone k (more_refs (s.table k)) u r refl refl;
          })))
  get-IsSound {i} {t} dev inum (Scanned.free k u z n) e =
      let k≡ : k ≡ i = cc in
      let t≡ : put s.table k (recycled dev inum (s.table k)) ≡ t = cc in
      let idle : s.held k ≡ 0 = sym (h.counts k u) ∙ z in
      subst (λ v. IsSound (record s { table = v; held = more s.held i })) t≡
        (subst
          (λ v. IsSound (record s {
            table = put s.table k (recycled dev inum (s.table k));
            held = more s.held v;
          }))
          k≡
          (IsSound-put s.disk h (record {
            inside = u;
            refs = rw (put_self s.held k (s.held k + 1)) (omega arith);
            busies = omega (arith, h.owned k);
            owns = rw (put_self s.held k (s.held k + 1)) (omega (arith, h.owned k));
            other_refs = λ j o. put_ne s.held k j (s.held k + 1) (λ w. o (sym w));
            other_locks = λ j o. refl;
            alone = λ j l o r c. n j (omega arith) l c;
          })))

  -- The entry of a call that keeps the number of its inode.
  entry-IsSound :
      (i : ℕ) (e : Entry) (held' locks' : ℕ → ℕ) {t : Icache} (d : Disk)
      → t ≡ put s.table i e
      → Kept s.table i e
      → 0 < s.held i
      → e.ref ≡ held' i
      → (if e.busy then 1 else 0) ≡ locks' i
      → locks' i ≤ held' i
      → ((j : ℕ) → j ≢ i → held' j ≡ s.held j)
      → ((j : ℕ) → j ≢ i → locks' j ≡ s.locks j)
      → IsSound (record { disk = d; table = t; held = held'; locks = locks' })
  entry-IsSound i e held' locks' d q k pos r b o x y =
      let inside = h.within i pos in
      rw q (
        IsSound-put d h (record {
          inside = inside;
          refs = r;
          busies = b;
          owns = o;
          other_refs = x;
          other_locks = y;
          alone = still_alone i e inside (omega (arith, h.counts i inside)) k.same_dev k.same_inum;
        }))

  other : (f : ℕ → ℕ) (i v j : ℕ) → j ≢ i → put f i v j ≡ f j
  other f i v j o = put_ne f i j v (λ z. o (sym z))

pub Step-IsSound : {sb : Superblock} {s t : System} → IsSound s → Step sb s t → IsSound t
unfolding iget idup
Step-IsSound h (Step.get dev inum e) = get-IsSound h dev inum (iget-Scanned h dev inum) e
Step-IsSound {sb} {s} h (Step.dup i pos) =
    entry-IsSound h i (more_refs (s.table i)) (more s.held i) s.locks s.disk refl
      (record { same_dev = refl; same_inum = refl }) pos
      (rw (put_self s.held i (s.held i + 1)) (omega (arith, h.counts i (h.within i pos))))
      (h.busy i (h.within i pos)) (rw (put_self s.held i (s.held i + 1)) (omega (arith, h.owned i)))
      (other h s.held i (s.held i + 1)) (λ j o. refl)
Step-IsSound {sb} {s} h (Step.lock i pos e) =
    let (x, q, k, r, b, free) = ilock_lem sb i s.table s.disk e in
    let inside = h.within i (omega arith) in
    let unlocked : s.locks i ≡ 0 = sym (h.busy i inside) ∙ rw free refl in
    entry-IsSound h i x s.held (more s.locks i) s.disk q k (omega arith) (r ∙ h.counts i inside)
      (rw (b, put_self s.locks i (s.locks i + 1)) (omega arith))
      (rw (put_self s.locks i (s.locks i + 1)) (omega arith)) (λ j o. refl)
      (other h s.locks i (s.locks i + 1))
Step-IsSound {sb} {s} h (Step.unlock i pos e) =
    let (q, b) = iunlock_lem i s.table e in
    let inside = h.within i (omega (arith, h.owned i)) in
    let one : s.locks i ≡ 1 = sym (h.busy i inside) ∙ rw b refl in
    entry-IsSound h i (record (s.table i) { busy = false }) s.held (less s.locks i) s.disk q
      (record { same_dev = refl; same_inum = refl }) (omega (arith, h.owned i)) (h.counts i inside)
      (rw (put_self s.locks i (s.locks i - 1)) (omega arith))
      (rw (put_self s.locks i (s.locks i - 1)) (omega (arith, h.owned i))) (λ j o. refl)
      (other h s.locks i (s.locks i - 1))
Step-IsSound {sb} {s} h (Step.drop {d = d} i pos e) =
    let (x, q, k, r, b) = iput_lem sb i s.table s.disk e in
    let inside = h.within i (omega arith) in
    entry-IsSound h i x (less s.held i) s.locks d q k (omega arith)
      (rw (put_self s.held i (s.held i - 1)) (omega (arith, h.counts i inside)))
      (ap (λ (y : Bool). let n : ℕ = if y then 1 else 0 in n) b ∙ h.busy i inside)
      (rw (put_self s.held i (s.held i - 1)) (omega arith)) (other h s.held i (s.held i - 1))
      (λ j o. refl)
Step-IsSound {sb} {s} h (Step.change i ip d pos) =
    let inside = h.within i (omega (arith, h.owned i)) in
    entry-IsSound h i (changed ip (s.table i)) s.held s.locks d refl
      (record { same_dev = refl; same_inum = refl }) (omega (arith, h.owned i)) (h.counts i inside)
      (h.busy i inside) (h.owned i) (λ j o. refl) (λ j o. refl)
