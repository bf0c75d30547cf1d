-- ===== src/Args/Tests.antt =====
-- The fetching functions at a concrete process.
use strace_xv.Base.{
  if◌then◌else◌, ◌>>=◌, get_or, replicate, ℕ, ◌+◌, ◌-◌, ◌^◌, ◌≡◌, refl, none, some, List, [], ◌∷◌,
  ◌++◌, arith,
}
use strace_xv.Args.{User, fetchint, find_nul, fetchstr, argint, argptr, argstr}
use strace_xv.Args.Bounds.{inside, argptr_lem, argptr-negative}

-- A process of 64 bytes: at 0 the arguments 24 and 8 behind the return address; at 24 "hi".
abbrev bytes : List ℕ
bytes = 0 ∷ 0 ∷ 0 ∷ 0 ∷ 24 ∷ 0 ∷ 0 ∷ 0 ∷ 8 ∷ 0 ∷ 0 ∷ 0 ∷ replicate 12 0 ++ (104 ∷ 105 ∷ 0 ∷ [])

abbrev user : User
user = record { memory = λ a. get_or bytes a 0; sz = 64; esp = 0 }

argptr_lem_example :
    argptr user 0 40 ≡ (argint user 0 >>= λ i. if inside user i (i + 40) then some i else none)
argptr_lem_example = argptr_lem user 0 40 (omega arith) (omega arith)

argptr_fits : argptr user 0 40 ≡ some 24
unfolding argptr argint fetchint
argptr_fits = refl

argptr_beyond : argptr user 0 41 ≡ none
unfolding argptr argint fetchint
argptr_beyond = refl

argint-user : argint user 0 ≡ some 24
unfolding argint fetchint
argint-user = refl

argptr-negative_example : argptr user 0 (2 ^ 32 - 20) ≡ some 24
argptr-negative_example =
    argptr-negative user 0 20 24 (omega arith) (omega arith) argint-user (omega arith) (omega arith)

argstr-user : argstr user 0 ≡ some (24, 2)
unfolding argstr argint fetchint fetchstr find_nul
argstr-user = refl
