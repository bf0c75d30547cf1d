-- ===== src/Bytes/Tests.antt =====
-- The routines at a memory that counts up from 1, with a NUL at every fourth address.
use strace_xv.Base.{◌==◌, if◌then◌else◌, ◌-◌, ◌%◌, ◌^◌, ◌≡◌, refl}
use strace_xv.Bytes.{
  Memory, memcmp, copy_down, memmove, strncmp, pad, strncpy, copy_safe, safestrcpy,
}

abbrev memory : Memory
memory a = if a % 4 == 0 then 0 else a

memmove-overlap : memmove 12 10 6 memory 14 ≡ 0
unfolding memmove copy_down
memmove-overlap = refl

memcmp-less : memcmp 1 5 2 memory ≡ 2 ^ 32 - 4
unfolding memcmp
memcmp-less = refl

strncmp_self : strncmp 1 1 9 memory ≡ 0
unfolding strncmp
strncmp_self = refl

-- The rest of the destination is padded.
strncpy-padded : strncpy 40 1 8 memory 47 ≡ 0
unfolding strncpy pad
strncpy-padded = refl

-- The copy is cut, and ends with a NUL.
safestrcpy-cut : safestrcpy 41 1 3 memory 43 ≡ 0
unfolding safestrcpy copy_safe
safestrcpy-cut = refl
