-- ===== src/Fs/Icache/Net.antt =====
-- What the holders of references to the cache of inodes rely on.
use strace_xv.Base.{Bool-cases, ℕ, ◌<◌, ◌≡◌, refl, sym, ◌∙◌, ◌≢◌, inl, inr, none, arith}
use strace_xv.Fs.{Superblock}
use strace_xv.Fs.Inode.{load_inode}
use strace_xv.Fs.Content.{itrunc}
use strace_xv.Fs.Icache.{Slot, take_slot, iget, ilock, iunlock, iput}
use strace_xv.Fs.Icache.Calls.{ilock-none, iunlock-some, iput-none}
use strace_xv.Fs.Icache.Scan.{Scanned}
use strace_xv.Fs.Icache.Holders.{System, Reach, IsSound, iget-Scanned, Step-IsSound}

-- What holds in a sound state: no call of a holder panics but for what the disk holds, and `iget`
-- only if every entry is in use.
pub record Answers (sb : Superblock) (s : System) : Type 0 where
  pub sound : IsSound s
  pub get : (dev inum : ℕ) → iget dev inum s.table ≡ none → (i : ℕ) → i < 50 → 0 < s.held i
  pub lock :
      (i : ℕ)
      → s.locks i < s.held i
      → ilock sb i s.table s.disk ≡ none
      → (load_inode sb s.disk (s.table i).inode).type ≡ 0
  pub unlock : (i : ℕ) → 0 < s.locks i → iunlock i s.table ≢ none
  pub drop :
      (i : ℕ)
      → s.locks i < s.held i
      → iput sb i s.table s.disk ≡ none
      → (s.held i ≡ 1) × ((s.table i).inode.nlink ≡ 0) × (itrunc sb (s.table i).inode s.disk ≡ none)

get_none :
    {s : System} (dev inum : ℕ) {o : Slot}
    → IsSound s
    → Scanned dev inum s.table 0 50 o
    → take_slot dev inum s.table o ≡ none
    → (i : ℕ) → i < 50
    → 0 < s.held i
unfolding take_slot
get_none dev inum h (Scanned.full f n) e = λ i l. omega (arith, f i (omega arith) l, h.counts i l)
get_none dev inum h (Scanned.found k l u c) e = absurd (cc)
get_none dev inum h (Scanned.free k u z n) e = absurd (cc)

Answers-IsSound : {sb : Superblock} {s : System} → IsSound s → Answers sb s
unfolding iget
Answers-IsSound {sb} {s} h = record {
  sound = h;
  get = λ dev inum e. get_none dev inum h (iget-Scanned h dev inum) e;
  lock = λ i l e.
      ilock-none sb i s.table s.disk (omega (arith, h.counts i (h.within i (omega arith)))) e;
  unlock = λ i l.
      let inside = h.within i (omega (arith, h.owned i)) in
      iunlock-some i s.table (omega (arith, h.counts i inside, h.owned i))
        (elim (Bool-cases (s.table i).busy) [
          | inl b ↦ b
          | inr b ↦
              absurd (let z : s.locks i ≡ 0 = sym (h.busy i inside) ∙ rw b refl in omega arith)
        ]);
  drop = λ i l e.
      let inside = h.within i (omega arith) in
      let (one, n, q) =
        iput-none sb i s.table s.disk
          (λ r. elim (Bool-cases (s.table i).busy) [
            | inl b ↦ absurd (
                let z : 1 ≡ s.locks i = rw b at (h.busy i inside) in
                omega (arith, h.counts i inside))
            | inr b ↦ b
          ])
          e in
      (sym (h.counts i inside) ∙ one, n, q);
}

-- In every state that holders of references reach from a sound one by iget, idup, ilock, iunlock,
-- iput and changes of locked inodes: each count is the number of references that are held, an entry
-- is busy exactly while it is locked, no inode has two entries, `iget` panics only if every entry is
-- held, `ilock` only at an inode without a type on the disk, `iunlock` never, and `iput` only where
-- it frees an inode without links whose blocks `itrunc` cannot free.
pub Reach-Answers : {sb : Superblock} {s t : System} → IsSound s → Reach sb s t → Answers sb t
Reach-Answers h r = Answers-IsSound (sound h r)
  where
    sound : {sb : Superblock} {s t : System} → IsSound s → Reach sb s t → IsSound t
    sound h Reach.here = h
    sound h (Reach.next r m) = Step-IsSound (sound h r) m
