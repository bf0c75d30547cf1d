-- ===== src/Cache/Tests.antt =====
-- A cache of two buffers.
use strace_xv.Base.{◌≡◌, refl, Bool, true, false, [], ◌∷◌, arith}
use strace_xv.Cache.{
  Buf, binit, find_cached, recycle, got, sleeps, panics, bget, unlink, brelse, no_device,
}
use strace_xv.Cache.Net.{gets, releases, Reach, here, next, IsCache, Reach-IsCache}

abbrev first : Bool → Buf
first busy = record { id = 0; dev = 1; blockno = 5; busy = busy; valid = false; dirty = false }

abbrev other : Buf
other = record { id = 1; dev = no_device; blockno = 0; busy = false; valid = false; dirty = false }

-- The block is read into the buffer at the end, and then released to the front.
cached-Reach : Reach (binit 2) (first false ∷ other ∷ [])
unfolding binit bget find_cached recycle brelse unlink
cached-Reach =
    next (next here (gets {bs' = other ∷ first true ∷ []} 1 5 (omega arith) refl)) (releases 0 refl)

Reach-IsCache_example : IsCache 2 (first false ∷ other ∷ [])
Reach-IsCache_example = Reach-IsCache cached-Reach

bget-hit : bget 1 5 (first false ∷ other ∷ []) ≡ got 0 (first true ∷ other ∷ [])
unfolding bget find_cached
bget-hit = refl

bget-busy : bget 1 5 (first true ∷ other ∷ []) ≡ sleeps
unfolding bget find_cached
bget-busy = refl

bget-full : bget 1 6 (first true ∷ []) ≡ panics
unfolding bget find_cached recycle
bget-full = refl
