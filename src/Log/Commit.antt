-- ===== src/Log/Commit.antt =====
-- The writes of `write_log`, `write_head`, `install_trans` and `commit`, in their order.
use strace_xv.Base.{
  length, ℕ, ◌+◌, ◌≤◌, ◌<◌, ◌≡◌, refl, sym, ◌∙◌, ◌≢◌, ◌⊎◌, List, [], ◌∷◌, ◌++◌, append-nil, arith,
}
use strace_xv.Log.{Block, Disk, Store, bread, install_trans, write_log, header, write_head, commit}
use strace_xv.Log.Blocks.{
  view, bread-data, view-bread, apply, Avoids, apply-Avoids, Ran, Ran-trans, copy-Ran, bread-Ran,
  bwrite-Ran,
}

abbrev pub Writes : Type 0
Writes = List (ℕ × Block)

-- A block that is neither the header nor one of the `room` log blocks behind it.
abbrev pub IsHome : ℕ → ℕ → ℕ → Type 0
IsHome room start b = (b < start) ⊎ (start + room < b)

abbrev pub AreHome : ℕ → ℕ → List ℕ → Type 0
AreHome room start [] = Unit
AreHome room start (b ∷ bs) = IsHome room start b × AreHome room start bs

-- The blocks `bs`, with the contents `v`, to the log; and to their homes.
abbrev pub log_writes : ℕ → ℕ → List ℕ → Disk → Writes
log_writes start tail [] v = []
log_writes start tail (b ∷ bs) v = (start + tail + 1, v b) ∷ log_writes start (tail + 1) bs v

abbrev pub home_writes : List ℕ → Disk → Writes
home_writes [] v = []
home_writes (b ∷ bs) v = (b, v b) ∷ home_writes bs v

-- The log blocks from `tail` on hold the contents `v` of the blocks `bs`.
abbrev pub LogHolds : ℕ → Disk → ℕ → List ℕ → Disk → Type 0
LogHolds start d tail [] v = Unit
LogHolds start d tail (b ∷ bs) v = (d (start + tail + 1) ≡ v b) × LogHolds start d (tail + 1) bs v

pub home-ne-log : (room start tail b : ℕ) → tail < room → IsHome room start b → start + tail + 1 ≢ b
home-ne-log room start tail b h k = ground arith

pub LogHolds-cong :
    (start : ℕ) (d e : Disk) (tail : ℕ) (bs : List ℕ) (v : Disk)
    → ((c : ℕ) → e c ≡ d c)
    → LogHolds start d tail bs v
    → LogHolds start e tail bs v
LogHolds-cong start d e tail [] v h k = tt
LogHolds-cong start d e tail (b ∷ bs) v h (k, ks) =
    (h _ ∙ k, LogHolds-cong start d e (tail + 1) bs v h ks)

-- A write to a home leaves the log.
LogHolds-home :
    (room start : ℕ) (d : Disk) (tail : ℕ) (bs : List ℕ) (v : Disk) (b : ℕ) (x : Block)
    → tail + length bs ≤ room
    → IsHome room start b
    → LogHolds start d tail bs v
    → LogHolds start (apply d ((b, x) ∷ [])) tail bs v
LogHolds-home room start d tail [] v b x l h k = tt
LogHolds-home room start d tail (c ∷ bs) v b x l h (k, ks) = (
  ground (arith, home-ne-log room start tail b),
  LogHolds-home room start d (tail + 1) bs v b x (omega arith) h ks,
)

-- `install_trans` writes to the homes what the log holds.
pub install_trans-Ran :
    (room start tail : ℕ) (bs : List ℕ) (v : Disk) (st : Store)
    → tail + length bs ≤ room
    → AreHome room start bs
    → LogHolds start (view st) tail bs v
    → Ran st (install_trans start tail bs st) (home_writes bs v)
unfolding install_trans
install_trans-Ran room start tail [] v st l h k = record {
  views = λ c. refl;
  disks = λ c. refl;
  journal = sym (append-nil st.writes);
}
install_trans-Ran room start tail (b ∷ bs) v st l (hb, h) (k, ks) =
    let first = copy-Ran (start + tail + 1) b b (v b) st in
    rw (bread-data (start + tail + 1) st, k)
      (Ran-trans ((b, v b) ∷ []) (home_writes bs v) first (
        install_trans-Ran room start (tail + 1) bs v _ (omega arith) h (
          LogHolds-cong start _ _ (tail + 1) bs v first.views
            (LogHolds-home room start (view st) (tail + 1) bs v b (v b) (omega arith) hb ks))))

-- The homes hold `v` as far as `bread` is concerned.
abbrev pub HomesAre : ℕ → ℕ → Store → Disk → Type 0
HomesAre room start st v = (b : ℕ) → IsHome room start b → view st b ≡ v b

pub write_log-Ran :
    (room start tail : ℕ) (bs : List ℕ) (v : Disk) (st : Store)
    → tail + length bs ≤ room
    → AreHome room start bs
    → HomesAre room start st v
    → Ran st (write_log start tail bs st) (log_writes start tail bs v)
unfolding write_log
write_log-Ran room start tail [] v st l h k = record {
  views = λ c. refl;
  disks = λ c. refl;
  journal = sym (append-nil st.writes);
}
write_log-Ran room start tail (b ∷ bs) v st l (hb, h) k =
    let first = copy-Ran (start + tail + 1) b (start + tail + 1) (v b) st in
    let from : (bread b (bread (start + tail + 1) st).1).0 ≡ v b =
      bread-data b (bread (start + tail + 1) st).1 ∙ view-bread (start + tail + 1) st b ∙ k b hb in
    rw from (
      Ran-trans ((start + tail + 1, v b) ∷ []) (log_writes start (tail + 1) bs v) first (
        write_log-Ran room start (tail + 1) bs v _ (omega arith) h
          (λ c hc. first.views c ∙ (ground (arith, home-ne-log room start tail c, k c hc)))))

pub write_head-Ran :
    (start : ℕ) (lh : List ℕ) (st : Store)
    → Ran st (write_head start lh st) ((start, header (view st start) lh) ∷ [])
unfolding write_head
write_head-Ran start lh st =
    rw (bread-data start st)
      (Ran-trans [] _ (bread-Ran start st) (bwrite-Ran start (header (view st start) lh) _))

-- The log writes leave the homes and the header, and the log then holds what was written.
pub log_writes-Avoids :
    (start tail : ℕ) (bs : List ℕ) (v : Disk) (c : ℕ)
    → ((k : ℕ) → tail ≤ k → k < tail + length bs → start + k + 1 ≢ c)
    → Avoids c (log_writes start tail bs v)
log_writes-Avoids start tail [] v c h = tt
log_writes-Avoids start tail (b ∷ bs) v c h = (
  h tail (omega arith) (omega arith),
  log_writes-Avoids start (tail + 1) bs v c (λ k lo hi. h k (omega arith) (omega arith)),
)

pub log_writes-LogHolds :
    (start tail : ℕ) (bs : List ℕ) (v d : Disk)
    → LogHolds start (apply d (log_writes start tail bs v)) tail bs v
log_writes-LogHolds start tail [] v d = tt
log_writes-LogHolds start tail (b ∷ bs) v d = (
  apply-Avoids (log_writes start (tail + 1) bs v) _ (start + tail + 1)
        (log_writes-Avoids start (tail + 1) bs v _ (λ k lo hi. omega arith))
      ∙ ground arith,
  log_writes-LogHolds start (tail + 1) bs v _,
)

-- A write outside the log blocks keeps what the log holds.
pub LogHolds-Avoids :
    (start tail : ℕ) (bs : List ℕ) (v d : Disk) (w : Writes)
    → ((k : ℕ) → tail ≤ k → k < tail + length bs → Avoids (start + k + 1) w)
    → LogHolds start d tail bs v
    → LogHolds start (apply d w) tail bs v
LogHolds-Avoids start tail [] v d w h k = tt
LogHolds-Avoids start tail (b ∷ bs) v d w h (k, ks) = (
  apply-Avoids w d (start + tail + 1) (h tail (omega arith) (omega arith)) ∙ k,
  LogHolds-Avoids start (tail + 1) bs v d w (λ i lo hi. h i (omega arith) (omega arith)) ks,
)

pub home_writes-Avoids :
    (room start : ℕ) (bs : List ℕ) (v : Disk) (c : ℕ)
    → AreHome room start bs
    → ((b : ℕ) → IsHome room start b → b ≢ c)
    → Avoids c (home_writes bs v)
home_writes-Avoids room start [] v c h ne = tt
home_writes-Avoids room start (b ∷ bs) v c (hb, h) ne =
    (ne b hb, home_writes-Avoids room start bs v c h ne)

-- The writes of `commit`, in their order: the blocks to the log, the header that commits them, the
-- blocks to their homes, and the empty header.
abbrev pub commit_writes : ℕ → List ℕ → Store → Writes
commit_writes start bs st =
    let h = header (view st start) bs in
    log_writes start 0 bs (view st)
    ++ ((start, h) ∷ (home_writes bs (view st) ++ ((start, header h []) ∷ [])))

-- After the header is written over a store that holds the log, the log is still held.
head-LogHolds :
    (room start : ℕ) (bs : List ℕ) (v : Disk) (x : Block) (st st' : Store)
    → length bs ≤ room
    → LogHolds start (view st) 0 bs v
    → Ran st st' ((start, x) ∷ [])
    → LogHolds start (view st') 0 bs v
head-LogHolds room start bs v x st st' l k r =
    LogHolds-cong start _ _ 0 bs v r.views
      (LogHolds-Avoids start 0 bs v (view st) ((start, x) ∷ []) (λ i lo hi. (omega arith, tt)) k)

-- The installation leaves the header as it was written.
install-header :
    (room start : ℕ) (bs : List ℕ) (v : Disk) (x : Block) (st1 st2 st3 : Store)
    → AreHome room start bs
    → Ran st1 st2 ((start, x) ∷ [])
    → Ran st2 st3 (home_writes bs v)
    → view st3 start ≡ x
install-header room start bs v x st1 st2 st3 h r2 r3 =
    r3.views start
    ∙ apply-Avoids (home_writes bs v) (view st2) start
        (home_writes-Avoids room start bs v start h (λ b hb. ground arith))
    ∙ r2.views start
    ∙ ground arith

-- The log writes leave the header.
log-header :
    (start : ℕ) (bs : List ℕ) (v : Disk) (st st1 : Store)
    → Ran st st1 (log_writes start 0 bs v)
    → view st1 start ≡ view st start
log-header start bs v st st1 r =
    r.views start
    ∙ apply-Avoids (log_writes start 0 bs v) (view st) start
        (log_writes-Avoids start 0 bs v start (λ k lo hi. omega arith))

write_head-at :
    (start : ℕ) (lh : List ℕ) (x : Block) (st : Store)
    → view st start ≡ x
    → Ran st (write_head start lh st) ((start, header x lh) ∷ [])
write_head-at start lh x st e = rw e at (write_head-Ran start lh st)

-- `commit` of a transaction of at most `room` blocks outside the log area makes exactly these writes.
pub commit-Ran :
    (room start b : ℕ) (bs : List ℕ) (st : Store)
    → length (b ∷ bs) ≤ room
    → AreHome room start (b ∷ bs)
    → Ran st (commit start (b ∷ bs) st).1 (commit_writes start (b ∷ bs) st)
unfolding commit
commit-Ran room start b bs st l h =
    Ran-trans (log_writes start 0 lh v) _ r1
      (Ran-trans _ _ r2 (Ran-trans (home_writes lh v) _ r3 r4))
  where
    lh : List ℕ
    lh = b ∷ bs

    v : Disk
    v = view st

    st1 : Store
    st1 = write_log start 0 (b ∷ bs) st

    st2 : Store
    st2 = write_head start (b ∷ bs) st1

    st3 : Store
    st3 = install_trans start 0 (b ∷ bs) st2

    r1 : Ran st st1 (log_writes start 0 lh v)
    r1 = write_log-Ran room start 0 lh v st (omega arith) h (λ c hc. refl)

    r2 : Ran st1 st2 ((start, header (v start) lh) ∷ [])
    r2 = write_head-at start lh (v start) st1 (log-header start lh v st st1 r1)

    held : LogHolds start (view st2) 0 lh v
    held =
        head-LogHolds room start lh v _ st1 st2 l
          (LogHolds-cong start _ _ 0 lh v r1.views (log_writes-LogHolds start 0 lh v v)) r2

    r3 : Ran st2 st3 (home_writes lh v)
    r3 = install_trans-Ran room start 0 lh v st2 (omega arith) h held

    r4 : Ran st3 (write_head start [] st3) ((start, header (header (v start) lh) []) ∷ [])
    r4 =
        write_head-at start [] (header (v start) lh) st3
          (install-header room start lh v _ st1 st2 st3 h r2 r3)
