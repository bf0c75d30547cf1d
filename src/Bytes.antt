-- ===== src/Bytes.antt =====
-- The routines on memory of kernel/string.c.
pub mod Copy
mod Tests
use strace_xv.Base.{
  ltb, leb, ◌==◌, if◌then◌else◌, ==_iff, lt→ltb, Bool-cases, Option-cases, ◌>>=◌, length, get_elem?,
  get_or, set, replicate, length-append, length-replicate, length-set, get_elem?-set_self,
  get_elem?-set_ne, length-reverse, occurs, occurs-append, get_elem?-lt, ℕ, zero, suc, ◌+◌, ◌-◌,
  ◌*◌, ◌/◌, ◌%◌, ◌^◌, ◌≤◌, ◌<◌, ◌≡◌, refl, sym, ap, ◌∙◌, fun_ext, subst, ◌≢◌, ◌↔◌, ◌⊎◌, inl, inr,
  Bool, true, false, ◌&&◌, ◌||◌, not, Option, none, some, List, [], ◌∷◌, ◌++◌, append-nil,
  append_assoc, reverse-append, arith,
}

-- Memory is a byte for each address; the arguments do not run over the end of the addresses.
abbrev pub Memory : Type 0
Memory = ℕ → ℕ

abbrev pub poke : Memory → ℕ → ℕ → Memory
poke m a c b = if a == b then c else m b

-- An unsigned difference as the 32 bits of an `int`.
abbrev pub minus : ℕ → ℕ → ℕ
minus a b = (a + (2 ^ 32 - b)) % 2 ^ 32

-- `memset`; the words that `stosl` stores at aligned addresses are four times the byte.
unfoldable pub memset : ℕ → ℕ → ℕ → Memory → Memory
memset dst c zero m = m
memset dst c (suc n) m = memset (dst + 1) c n (poke m dst (c % 2 ^ 8))

unfoldable pub memcmp : ℕ → ℕ → ℕ → Memory → ℕ
memcmp s1 s2 zero m = 0
memcmp s1 s2 (suc n) m =
    let rest = memcmp (s1 + 1) (s2 + 1) n m in if m s1 == m s2 then rest else minus (m s1) (m s2)

-- The two loops of `memmove`: with `n` bytes left at `d` and `s`, upwards or downwards.
unfoldable pub copy_up : ℕ → ℕ → ℕ → Memory → Memory
copy_up d s zero m = m
copy_up d s (suc n) m = copy_up (d + 1) (s + 1) n (poke m d (m s))

unfoldable pub copy_down : ℕ → ℕ → ℕ → Memory → Memory
copy_down d s zero m = m
copy_down d s (suc n) m = copy_down d s n (poke m (d + n) (m (s + n)))

unfoldable pub memmove : ℕ → ℕ → ℕ → Memory → Memory
memmove dst src n m =
    if ltb src dst && ltb dst (src + n) then copy_down dst src n m else copy_up dst src n m

unfoldable pub memcpy : ℕ → ℕ → ℕ → Memory → Memory
memcpy dst src n m = memmove dst src n m

unfoldable pub strncmp : ℕ → ℕ → ℕ → Memory → ℕ
strncmp p q zero m = 0
strncmp p q (suc n) m =
    let rest = strncmp (p + 1) (q + 1) n m in
    if not (m p == 0) && (m p == m q) then rest else minus (m p) (m q)

-- The loops of `strncpy`.
unfoldable pub pad : ℕ → ℕ → Memory → Memory
pad s zero m = m
pad s (suc n) m = pad (s + 1) n (poke m s 0)

unfoldable pub strncpy : ℕ → ℕ → ℕ → Memory → Memory
strncpy s t zero m = m
strncpy s t (suc n) m =
    let m' = poke m s (m t) in
    let more = strncpy (s + 1) (t + 1) n m' in
    let full = pad (s + 1) n m' in if m t == 0 then full else more

-- The loop of `safestrcpy`, with `n` characters left before the last byte.
unfoldable pub copy_safe : ℕ → ℕ → ℕ → Memory → Memory
copy_safe s t zero m = poke m s 0
copy_safe s t (suc n) m =
    let m' = poke m s (m t) in
    let more = copy_safe (s + 1) (t + 1) n m' in
    let ends = poke m' (s + 1) 0 in if m t == 0 then ends else more

unfoldable pub safestrcpy : ℕ → ℕ → ℕ → Memory → Memory
safestrcpy s t zero m = m
safestrcpy s t (suc n) m = copy_safe s t n m
