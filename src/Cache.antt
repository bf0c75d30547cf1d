-- ===== src/Cache.antt =====
-- The list of buffers: binit, bget, brelse and bwrite of kernel/bio.c.
pub mod Unique
pub mod Net
mod Tests
use strace_xv.Base.{
  ltb, leb, ◌==◌, if◌then◌else◌, ==_iff, lt→ltb, Bool-cases, Option-cases, ◌>>=◌, length, get_elem?,
  get_or, set, replicate, length-append, length-replicate, length-set, get_elem?-set_self,
  get_elem?-set_ne, length-reverse, occurs, occurs-append, get_elem?-lt, ℕ, zero, suc, ◌+◌, ◌-◌,
  ◌*◌, ◌/◌, ◌%◌, ◌^◌, ◌≤◌, ◌<◌, ◌≡◌, refl, sym, ap, ◌∙◌, fun_ext, subst, ◌≢◌, ◌↔◌, ◌⊎◌, inl, inr,
  Bool, true, false, ◌&&◌, ◌||◌, not, Option, none, some, List, [], ◌∷◌, ◌++◌, append-nil,
  append_assoc, reverse-append, arith,
}

-- `NBUF`, and the device -1 that no buffer of a block has.
abbrev pub buffers : ℕ
buffers = 30

abbrev pub no_device : ℕ
no_device = 2 ^ 32 - 1

-- `struct buf` without its data; `id` is its place in the array `bcache.buf`. The list runs from
-- `head.next` to `head.prev`: the buffer that was released last comes first.
pub record Buf : Type 0 where
  pub id : ℕ
  pub dev : ℕ
  pub blockno : ℕ
  pub busy : Bool
  pub valid : Bool
  pub dirty : Bool

-- `binit`, with `n` buffers in the array.
unfoldable pub binit : ℕ → List Buf
binit zero = []
binit (suc n) =
    record { id = n; dev = no_device; blockno = 0; busy = false; valid = false; dirty = false }
    ∷ binit n

abbrev pub is_for : ℕ → ℕ → Buf → Bool
is_for dev blockno b = (b.dev == dev) && (b.blockno == blockno)

-- How the search for a cached block ends: there is none; it is busy, and the caller sleeps; or the
-- buffer is taken.
pub data Cached : Type 0 where
  absent : Cached
  is_busy : Cached
  taken : ℕ → List Buf → Cached

abbrev pub behind : Buf → Cached → Cached
behind b absent = absent
behind b is_busy = is_busy
behind b (taken i bs) = taken i (b ∷ bs)

-- The first loop of `bget`.
unfoldable pub find_cached : ℕ → ℕ → List Buf → Cached
find_cached dev blockno [] = absent
find_cached dev blockno (b ∷ bs) =
    let rest = behind b (find_cached dev blockno bs) in
    if is_for dev blockno b
    then if not b.busy then taken b.id (record b { busy = true } ∷ bs) else is_busy
    else rest

abbrev pub recycled : ℕ → ℕ → Buf → Buf
recycled dev blockno b = record b {
  dev = dev;
  blockno = blockno;
  busy = true;
  valid = false;
  dirty = false;
}

-- The second loop, from the end of the list.
unfoldable pub recycle : ℕ → ℕ → List Buf → Option (ℕ × List Buf)
recycle dev blockno [] = none
recycle dev blockno (b ∷ bs) =
    let this : Option (ℕ × List Buf) =
      if not b.busy && not b.dirty then some (b.id, recycled dev blockno b ∷ bs) else none in
    elim (recycle dev blockno bs) [ none ↦ this | some (i, bs') ↦ some (i, b ∷ bs') ]

-- One round of `bget`.
pub data Got : Type 0 where
  panics : Got
  sleeps : Got
  got : ℕ → List Buf → Got

unfoldable pub bget : ℕ → ℕ → List Buf → Got
bget dev blockno bs = elim (find_cached dev blockno bs) [
  | is_busy ↦ sleeps
  | taken i bs' ↦ got i bs'
  | absent ↦ elim (recycle dev blockno bs) [ none ↦ panics | some (i, bs') ↦ got i bs' ]
]

-- The buffer `i` and the others, in their order.
pub unlink : ℕ → List Buf → Option (Buf × List Buf)
unlink i [] = none
unlink i (b ∷ bs) =
    let rest = unlink i bs >>= λ (c, bs'). some (c, b ∷ bs') in
    if b.id == i then some (b, bs) else rest

-- `brelse`; `none` is its panic.
unfoldable pub brelse : ℕ → List Buf → Option (List Buf)
unfolding unlink
brelse i bs = unlink i bs >>= λ (b, rest).
    if not b.busy then none else some (record b { busy = false } ∷ rest)

-- A change of the flags of the buffer `i`, as by `bread`, `bwrite`, the disk and `log_write`.
unfoldable pub set_flags : ℕ → Bool → Bool → List Buf → List Buf
set_flags i valid dirty [] = []
set_flags i valid dirty (b ∷ bs) =
    (if b.id == i then record b { valid = valid; dirty = dirty } else b)
    ∷ set_flags i valid dirty bs
