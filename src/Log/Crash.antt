-- ===== src/Log/Crash.antt =====
-- A crash between any two disk writes of `commit`, followed by `recover_from_log`.
use strace_xv.Base.{
  ◌==◌, if◌then◌else◌, Bool-cases, length, get_or, ℕ, ◌+◌, ◌≤◌, ◌<◌, ◌≡◌, refl, sym, ap, ◌∙◌, ◌≢◌,
  ◌⊎◌, inl, inr, Bool, false, ◌||◌, none, List, [], ◌∷◌, ◌++◌, append-nil, arith,
}
use strace_xv.Log.{
  Block, Disk, bread, bwrite, Store, log_size, block_words, write_head, install_trans, read_head,
  header, set_at, recover_from_log, commit,
}
use strace_xv.Log.Blocks.{
  view, bread-data, apply, apply-append, apply-cong, Avoids, apply-Avoids, Avoids-prefix,
  split-append, bread-Ran,
}
use strace_xv.Log.Header.{
  read_header, read_header-header, read_header-empty, length-header, header-empty,
}
use strace_xv.Log.Commit.{
  Writes, IsHome, AreHome, log_writes, home_writes, LogHolds, home-ne-log, LogHolds-cong,
  install_trans-Ran, write_head-Ran, log_writes-Avoids, log_writes-LogHolds, LogHolds-Avoids,
  home_writes-Avoids, commit_writes, commit-Ran,
}

-- The store after a restart: nothing is cached.
abbrev pub boot : Disk → Store
boot d = record { disk = d; cache = λ _. none; writes = [] }

-- `recover_from_log` after a restart.
abbrev pub recover : ℕ → Disk → Disk
recover start d = (recover_from_log start (boot d)).disk

-- Does the transaction write the block?
abbrev pub in_transaction : ℕ → List ℕ → Bool
in_transaction c [] = false
in_transaction c (b ∷ bs) = (b == c) || in_transaction c bs

-- Recovery from a disk whose header names `bs` and whose log holds `v` installs `v`.
recover-installs :
    (room start : ℕ) (bs : List ℕ) (v d : Disk) (c : ℕ)
    → length bs ≤ room
    → AreHome room start bs
    → read_header (d start) ≡ bs
    → LogHolds start d 0 bs v
    → IsHome room start c
    → recover start d c ≡ apply d (home_writes bs v) c
unfolding recover_from_log read_head write_head bwrite
recover-installs room start bs v d c l h e k hc =
    rw (bread-data start (boot d), e)
      (let first = bread-Ran start (boot d) in
        let second =
          install_trans-Ran room start 0 bs v (bread start (boot d)).1 (omega arith) h
            (LogHolds-cong start _ _ 0 bs v first.views k) in
        let third = write_head-Ran start [] (install_trans start 0 bs (bread start (boot d)).1) in
        third.disks c
        ∙ ground (arith, hc)
        ∙ second.disks c
        ∙ apply-cong (home_writes bs v) _ _ first.disks c)

-- The new value of a home block.
apply-home_writes :
    (bs : List ℕ) (v d : Disk) (c : ℕ)
    → apply d (home_writes bs v) c ≡ (if in_transaction c bs then v c else d c)
apply-home_writes [] v d c = refl
apply-home_writes (b ∷ bs) v d c =
    apply-home_writes bs v (apply d ((b, v b) ∷ [])) c ∙ ground (arith, ap {A = ℕ} v)

-- Recovery with an empty header changes no home.
recover-empty :
    (room start : ℕ) (d : Disk) (c : ℕ)
    → get_or (d start) 0 0 ≡ 0
    → IsHome room start c
    → recover start d c ≡ d c
recover-empty room start d c e hc =
    recover-installs room start [] d d c (omega arith) tt (read_header-empty (d start) e) tt hc

-- The disk behind some of the writes to the homes is one where the others still have their values.
redo :
    (bs : List ℕ) (v d : Disk) (q r : Writes) (c : ℕ)
    → home_writes bs v ≡ q ++ r
    → apply (apply d q) (home_writes bs v) c ≡ apply d (home_writes bs v) c
redo bs v d q r c e = elim (Bool-cases (in_transaction c bs)) [
  | inl t ↦ rw (apply-home_writes bs v (apply d q) c, apply-home_writes bs v d c, t) refl
  | inr f ↦
      rw (apply-home_writes bs v (apply d q) c, apply-home_writes bs v d c, f)
        (apply-Avoids q d c (Avoids-prefix q r c (rw e at (not_in bs f))))
]
  where
    not_in : (bs : List ℕ) → in_transaction c bs ≡ false → Avoids c (home_writes bs v)
    not_in [] f = tt
    not_in (b ∷ bs) f = (ground arith, not_in bs (ground arith))

append-cancel : (p a b : Writes) → p ++ a ≡ p ++ b → a ≡ b
append-cancel [] a b e = e
append-cancel (x ∷ p) a b e = append-cancel p a b (cc)

-- When a transaction can commit: it has at most `room` blocks, the log area has room for
-- `room` and the header for that many numbers, no block lies in the log area, and the header on the disk is empty and has the size of a block.
pub record CanCommit (room start : ℕ) (bs : List ℕ) (st : Store) : Type 0 where
  pub few : length bs ≤ room
  pub fits : room ≤ log_size
  pub homes : AreHome room start bs
  pub clean : get_or (st.disk start) 0 0 ≡ 0
  pub sized : length (view st start) ≡ block_words

-- The two outcomes: no home has changed, or every block of the transaction has its new value.
abbrev pub Old : ℕ → ℕ → Store → Disk → Type 0
Old room start st d = (c : ℕ) → IsHome room start c → d c ≡ st.disk c

abbrev pub New : ℕ → ℕ → List ℕ → Store → Disk → Type 0
New room start bs st d =
    (c : ℕ) → IsHome room start c → d c ≡ (if in_transaction c bs then view st c else st.disk c)

module _ (room start : ℕ) (bs : List ℕ) (st : Store) (can : CanCommit room start bs st) where
  abbrev logged : Disk
  logged = apply st.disk (log_writes start 0 bs (view st))

  abbrev head : Block
  head = header (view st start) bs

  log-home : (c : ℕ) → IsHome room start c → logged c ≡ st.disk c
  log-home c hc = apply-Avoids (log_writes start 0 bs (view st)) st.disk c (
      log_writes-Avoids start 0 bs (view st) c
        (λ k lo hi. home-ne-log room start k c (omega (arith, can.few)) hc))

  -- Before the header is written.
  crash-before :
      (done r : Writes)
      → log_writes start 0 bs (view st) ≡ done ++ r
      → Old room start st (recover start (apply st.disk done))
  crash-before done r e c hc =
      recover-empty room start (apply st.disk done) c
        (ap (λ x. get_or x 0 0) (quiet start (λ k lo hi. omega arith)) ∙ can.clean) hc
      ∙ quiet c (λ k lo hi. home-ne-log room start k c (omega (arith, can.few)) hc)
    where
      quiet :
          (x : ℕ)
          → ((k : ℕ) → 0 ≤ k → k < 0 + length bs → start + k + 1 ≢ x)
          → apply st.disk done x ≡ st.disk x
      quiet x ne =
          apply-Avoids done st.disk x
            (Avoids-prefix done r x (rw e at (log_writes-Avoids start 0 bs (view st) x ne)))

  abbrev committed : Disk
  committed = set_at logged start head

  homes-Avoid :
      (q r : Writes) (x : ℕ)
      → home_writes bs (view st) ≡ q ++ r
      → ((b : ℕ) → IsHome room start b → b ≢ x)
      → Avoids x q
  homes-Avoid q r x e ne =
      Avoids-prefix q r x (rw e at (home_writes-Avoids room start bs (view st) x can.homes ne))

  -- What the transaction is meant to leave.
  new-value :
      (c : ℕ)
      → IsHome room start c
      → apply committed (home_writes bs (view st)) c
        ≡ (if in_transaction c bs then view st c else st.disk c)
  new-value c hc =
      apply-home_writes bs (view st) committed c
      ∙ ap (λ x. if in_transaction c bs then view st c else x) (ground (arith, log-home c hc))

  committed-LogHolds : LogHolds start committed 0 bs (view st)
  committed-LogHolds =
      LogHolds-Avoids start 0 bs (view st) logged ((start, head) ∷ [])
        (λ k lo hi. (omega arith, tt)) (log_writes-LogHolds start 0 bs (view st) st.disk)

  -- Between the header and the empty header.
  crash-during :
      (q r : Writes)
      → home_writes bs (view st) ≡ q ++ r
      → New room start bs st (recover start (apply committed q))
  crash-during q r e c hc =
      recover-installs room start bs (view st) (apply committed q) c can.few can.homes named held hc
      ∙ redo bs (view st) committed q r c e
      ∙ new-value c hc
    where
      named : read_header (apply committed q start) ≡ bs
      named =
          ap read_header (
            apply-Avoids q committed start (homes-Avoid q r start e (λ b hb. ground arith))
            ∙ ground arith)
          ∙ read_header-header (view st start) bs can.sized (omega (arith, can.few, can.fits))

      held : LogHolds start (apply committed q) 0 bs (view st)
      held =
          LogHolds-Avoids start 0 bs (view st) committed q
            (λ k lo hi.
              homes-Avoid q r (start + k + 1) e
                (λ b hb f. home-ne-log room start k b (omega (arith, can.few)) hb (sym f)))
            committed-LogHolds

  -- After the empty header.
  crash-after :
      New room start bs st (
        recover start
          (apply committed (home_writes bs (view st) ++ ((start, header head []) ∷ []))))
  crash-after c hc =
      rw (apply-append (home_writes bs (view st)) ((start, header head []) ∷ []) committed) (
        recover-empty room start _ c
          (ground (arith, header-empty head (length-header (view st start) bs ∙ can.sized))) hc
        ∙ ground (arith, new-value c hc))

  -- Behind the header: some of the writes to the homes, or all and some of the last write.
  crash-tail :
      (q later : Writes)
      → q ++ later ≡ (start, header head []) ∷ []
      → New room start bs st (recover start (apply committed (home_writes bs (view st) ++ q)))
  crash-tail [] later g =
      rw append-nil (crash-during (home_writes bs (view st)) [] (sym (append-nil _)))
  crash-tail (x ∷ []) later g = let e : x ≡ (start, header head []) = cc in rw e crash-after
  crash-tail (x ∷ y ∷ q) later g = absurd (omega (arith, ap {A = Writes} length g))

  crash-behind :
      (q later : Writes)
      → q ++ later ≡ home_writes bs (view st) ++ ((start, header head []) ∷ [])
      → New room start bs st (recover start (apply committed q))
  crash-behind q later g = elim (split-append q later (home_writes bs (view st)) _ g) [
    | inl (r, f) ↦ crash-during q r f
    | inr (q', f, g') ↦ rw f (crash-tail q' later g')
  ]

  crash-header :
      (q later : Writes)
      → q ++ later ≡ (start, head) ∷ (home_writes bs (view st) ++ ((start, header head []) ∷ []))
      → Old room start st (recover start (apply logged q))
        ⊎ New room start bs st (recover start (apply logged q))
  crash-header [] later g =
      inl (crash-before (log_writes start 0 bs (view st)) [] (sym (append-nil _)))
  crash-header (x ∷ q) later g =
      let e : x ≡ (start, head) = cc in rw e (inr (crash-behind q later (cc)))

  -- The three stretches of the writes of `commit`.
  crash-at :
      (done later : Writes)
      → commit_writes start bs st ≡ done ++ later
      → Old room start st (recover start (apply st.disk done))
        ⊎ New room start bs st (recover start (apply st.disk done))
  crash-at done later e =
      elim (split-append done later (log_writes start 0 bs (view st)) _ (sym e)) [
        | inl (r, f) ↦ inl (crash-before done r f)
        | inr (q, f, g) ↦
            rw (f, apply-append (log_writes start 0 bs (view st)) q st.disk)
              (crash-header q later g)
      ]

  commit-end : New room start bs st (apply st.disk (commit_writes start bs st))
  commit-end c hc =
      rw
        (
          apply-append (log_writes start 0 bs (view st)) _ st.disk,
          apply-append (home_writes bs (view st)) ((start, header head []) ∷ []) committed,
        )
        (ground (arith, new-value c hc))

-- However many of the disk writes of a commit were done before a crash, `recover_from_log` leaves
-- the homes either all as they were before the commit, or with exactly the blocks of the
-- transaction changed to what the buffers held.
pub commit-crash :
    (room start b : ℕ) (bs : List ℕ) (st : Store)
    → CanCommit room start (b ∷ bs) st
    → (done later : Writes) → (commit start (b ∷ bs) st).1.writes ≡ st.writes ++ (done ++ later)
    → Old room start st (recover start (apply st.disk done))
      ⊎ New room start (b ∷ bs) st (recover start (apply st.disk done))
commit-crash room start b bs st can done later e = crash-at room start (b ∷ bs) st can done later (
    append-cancel st.writes _ _ (sym (commit-Ran room start b bs st can.few can.homes).journal ∙ e))

-- Without a crash, a commit leaves the homes on the disk with exactly the blocks of the
-- transaction changed to what the buffers held.
pub commit-New :
    (room start b : ℕ) (bs : List ℕ) (st : Store)
    → CanCommit room start (b ∷ bs) st
    → New room start (b ∷ bs) st (commit start (b ∷ bs) st).1.disk
commit-New room start b bs st can c hc =
    (commit-Ran room start b bs st can.few can.homes).disks c
    ∙ commit-end room start (b ∷ bs) st can c hc
