-- ===== src/Text.antt =====
-- NUL-terminated strings in buffers: kernel/strace.c, kernel/string.c and the parts of user/ulib.c
-- that read numbers. A buffer is the list of bytes from a pointer to the end of its object, and a
-- pointer that walks is recursion on that list. `none` is an access outside the object.
pub mod Concat
pub mod Reverse
pub mod Number
pub mod Equal
mod Tests
use mathlib.Core.Option
use Prim.Native.Char.{code}
use Prim.Native.String
use Prim.Native.String.{String}
use strace_xv.Base.{
  ltb, leb, ◌==◌, if◌then◌else◌, ==_iff, Bool-cases, Option-cases, ◌>>=◌, length, get_elem?, get_or,
  set, replicate, length-append, length-replicate, length-set, get_elem?-set_self, get_elem?-set_ne,
  length-reverse, ℕ, zero, suc, ◌+◌, ◌-◌, ◌*◌, ◌/◌, ◌%◌, ◌^◌, ◌≤◌, ◌<◌, ◌≡◌, refl, sym, ap, ◌∙◌,
  fun_ext, ◌≢◌, ◌↔◌, ◌⊎◌, inl, inr, Bool, true, false, ◌&&◌, ◌||◌, not, Option, none, some, List,
  [], ◌∷◌, ◌++◌, append-nil, append_assoc, reverse-append, arith,
}

abbrev pub Buf : Type 0
Buf = List ℕ

-- The string that a buffer holds, if a NUL byte ends it.
abbrev pub text : Buf → Option (List ℕ)
text [] = none
text (c ∷ d) = if c == 0 then some [] else Option.map (λ s. c ∷ s) (text d)

-- The second loop of `strcat`: `*ptr++ = *src++` up to the NUL, then the terminator.
unfoldable pub append_chars : Buf → Buf → Option Buf
append_chars [] src = none
append_chars (_ ∷ ptr) [] = none
append_chars (_ ∷ ptr) (c ∷ src) =
    if c == 0 then some (0 ∷ ptr) else Option.map (λ d. c ∷ d) (append_chars ptr src)

-- The first loop walks to the NUL of `dest`.
unfoldable pub strcat : Buf → Buf → Option Buf
unfolding append_chars
strcat [] src = none
strcat (c ∷ dest) src =
    if c == 0 then append_chars (c ∷ dest) src else Option.map (λ d. c ∷ d) (strcat dest src)

-- `*(str + i) = c`.
abbrev pub poke : Buf → ℕ → ℕ → Option Buf
poke str i c = if ltb i (length str) then some (set str i c) else none

-- The body of the loop of `reverse`: exchange `str[start]` and `str[end]`.
pub swap_chars : Buf → ℕ → ℕ → Option Buf
swap_chars str start end = do
  temp ← get_elem? str start
  last ← get_elem? str end
  str' ← poke str start last
  poke str' end temp

-- `reverse`. The fuel is the length, which is at least the number of swaps. `end` starts at
-- `length - 1`; where that is -1 the test `start < end` fails as it does with 0.
pub reverse_loop : ℕ → Buf → ℕ → ℕ → Option Buf
unfolding swap_chars
reverse_loop zero str start end = some str
reverse_loop (suc fuel) str start end =
    let rest = swap_chars str start end >>= λ str'. reverse_loop fuel str' (start + 1) (end - 1) in
    if ltb start end then rest else some str

unfoldable pub reverse : Buf → ℕ → Option Buf
unfolding reverse_loop
reverse str len = reverse_loop len str 0 (len - 1)

-- A string literal: its characters and the terminator.
abbrev pub chars : String → List ℕ
chars String.[] = []
chars (String.◌∷◌ c s) = code c ∷ chars s

abbrev pub literal : String → Buf
literal s = chars s ++ (0 ∷ [])

-- `strlen`, in kernel/string.c and user/ulib.c; the first loop of `streq` is the same.
unfoldable pub strlen : Buf → Option ℕ
strlen [] = none
strlen (c ∷ s) = if c == 0 then some 0 else Option.map suc (strlen s)

-- `streq`: the loop with `n` rounds left, and the whole function.
unfoldable pub streq_loop : ℕ → Buf → Buf → Option Bool
streq_loop zero string1 string2 = some true
streq_loop (suc n) [] string2 = none
streq_loop (suc n) (a ∷ string1) [] = none
streq_loop (suc n) (a ∷ string1) (b ∷ string2) =
    if not (a == b)
    then some false
    else if a == b'\n'
    then some true
    else streq_loop n string1 string2

unfoldable pub streq : Buf → Buf → Option Bool
streq string1 string2 = strlen string2 >>= λ n. streq_loop n string1 string2
