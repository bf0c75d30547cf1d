-- ===== src/Fs/Directory/Paths.antt =====
-- Path names: what `skipelem` splits off, and that `namex` ends.
use strace_xv.Base.{
  leb, ◌==◌, Bool-cases, Option-cases, length, get_elem?, length-append, put, put_self, put_ne,
  ==_ne, ℕ, zero, suc, ◌+◌, ◌<◌, ◌≡◌, refl, sym, ap, ◌∙◌, subst, ◌≢◌, inl, inr, Bool, false, ◌&&◌,
  not, Option, none, some, List, [], ◌∷◌, ◌++◌, append-nil, arith,
}
use strace_xv.Fs.{Superblock, Block, Disk}
use strace_xv.Fs.Icache.{Icache, Lock, asleep, locked, ilock, iunlock, iput, iunlockput}
use strace_xv.Fs.Directory.{
  dirlookup, Lookup, skip_slashes, element, behind, move_name, set_name, split_path, skipelem, Walk,
  missing, sleeps, panics, no_fuel, leave, finish, descend, enter, lock_and_enter, walk, start_at,
  namex,
}

-- Characters that are all slashes, or all none.
abbrev pub AllSlashes : List ℕ → Type 0
AllSlashes [] = Unit {0}
AllSlashes (c ∷ cs) = (c ≡ b'/') × AllSlashes cs

abbrev pub NoSlash : List ℕ → Type 0
NoSlash [] = Unit {0}
NoSlash (c ∷ cs) = (c ≢ b'/') × NoSlash cs

abbrev pub StartsClean : List ℕ → Type 0
StartsClean [] = Unit {0}
StartsClean (c ∷ cs) = c ≢ b'/'

-- The slashes at the front of a path.
slashes_of :
    (path : List ℕ)
    → (s : List ℕ) × AllSlashes s
      × (path ≡ s ++ skip_slashes path)
      × StartsClean (skip_slashes path)
unfolding skip_slashes
slashes_of [] = ([], tt, refl, tt)
slashes_of (c ∷ path) = elim (Bool-cases (c == b'/')) [
  | inl e ↦
      let (s, a, q, n) = slashes_of path in rw e (c ∷ s, (ground arith, a), ap (λ l. c ∷ l) q, n)
  | inr e ↦ rw e ([], tt, refl, ground arith)
]

element-behind : (path : List ℕ) → (path ≡ element path ++ behind path) × NoSlash (element path)
unfolding element behind
element-behind [] = (refl, tt)
element-behind (c ∷ path) = elim (Bool-cases (c == b'/')) [
  | inl e ↦ rw e (refl, tt)
  | inr e ↦ let (q, n) = element-behind path in rw e (ap (λ l. c ∷ l) q, (ground arith, n))
]

-- The name holds the first characters of `cs`, fourteen at most, and ends them if there are fewer.
pub record Names (cs : List ℕ) (name : Block) : Type 0 where
  pub chars : (j : ℕ) → j < length cs → j < 14 → get_elem? cs j ≡ some (name j)
  pub ends : length cs < 14 → name (length cs) ≡ 0

move_name-before :
    (cs : List ℕ) (i n : ℕ) (name : Block) (j : ℕ) → j < i → move_name cs i n name j ≡ name j
unfolding move_name
move_name-before cs i zero name j h = refl
move_name-before [] i (suc n) name j h = refl
move_name-before (c ∷ cs) i (suc n) name j h =
    move_name-before cs (i + 1) n (put name i c) j (omega arith)
    ∙ put_ne name i j c (λ e. absurd (omega arith))

move_name-in :
    (cs : List ℕ) (i n : ℕ) (name : Block) (j : ℕ)
    → j < n
    → j < length cs
    → get_elem? cs j ≡ some (move_name cs i n name (i + j))
unfolding move_name
move_name-in cs i zero name j h l = absurd (omega arith)
move_name-in [] i (suc n) name j h l = absurd (omega arith)
move_name-in (c ∷ cs) i (suc n) name zero h l =
    let e : i + 0 ≡ i = omega arith in
    ap some (
      sym (
        ap (move_name cs (i + 1) n (put name i c)) e
        ∙ move_name-before cs (i + 1) n (put name i c) i (omega arith)
        ∙ put_self name i c))
move_name-in (c ∷ cs) i (suc n) name (suc j) h l =
    let e : i + 1 + j ≡ i + suc j = omega arith in
    move_name-in cs (i + 1) n (put name i c) j (omega arith) (omega arith)
    ∙ ap (λ x. some (move_name cs (i + 1) n (put name i c) x)) e

Names-set_name : (cs : List ℕ) (name : Block) → Names cs (set_name cs name)
unfolding set_name
Names-set_name cs name = elim (Bool-cases (leb 14 (length cs))) [
  | inl long ↦ rw long (record {
    chars = λ j l u.
        move_name-in cs 0 14 name j u l ∙ ap (λ x. some (move_name cs 0 14 name x)) (omega arith);
    ends = λ h. absurd (ground arith);
  })
  | inr short ↦ rw short (record {
    chars = λ j l u.
        let e : 0 + j ≡ j = omega arith in
        move_name-in cs 0 (length cs) name j l l
        ∙ ap (λ x. some (move_name cs 0 (length cs) name x)) e
        ∙ ap some (
            sym (
              put_ne (move_name cs 0 (length cs) name) (length cs) j 0
                (λ z. absurd (omega arith))));
    ends = λ h. put_self (move_name cs 0 (length cs) name) (length cs) 0;
  })
]

-- What `skipelem` splits off: behind the slashes at the front, the characters up to the next slash
-- or the end, and the slashes behind those.
pub data Split (path : List ℕ) : Option (List ℕ × Block) → Type 0 where
  nothing : AllSlashes path → Split path none
  split :
      (before elem after rest : List ℕ) (name : Block)
      → path ≡ before ++ (elem ++ (after ++ rest))
      → AllSlashes before
      → NoSlash elem
      → 0 < length elem
      → AllSlashes after
      → StartsClean rest
      → (0 < length rest → 0 < length after)
      → Names elem name
      → Split path (some (rest, name))

element_some : (c : ℕ) (path : List ℕ) → c ≢ b'/' → 0 < length (element (c ∷ path))
unfolding element
element_some c path h = rw (==_ne c b'/' h) (omega arith)

abbrev StartsSlash : List ℕ → Type 0
StartsSlash [] = Unit {0}
StartsSlash (c ∷ cs) = c ≡ b'/'

behind_slash : (path : List ℕ) → StartsSlash (behind path)
unfolding behind
behind_slash [] = tt
behind_slash (c ∷ path) = elim (Bool-cases (c == b'/')) [
  | inl e ↦ rw e (ground arith)
  | inr e ↦ rw e (behind_slash path)
]

-- What lies behind an element starts with a slash.
followed :
    (b s l : List ℕ) → b ≡ s ++ l → StartsSlash b → StartsClean l → 0 < length l → 0 < length s
followed b (c ∷ s) l q x y h = omega arith
followed b [] [] q x y h = h
followed b [] (c ∷ l) q x y h = absurd (y (subst StartsSlash q x))

-- The split of a path that does not start with a slash.
Split-split_path :
    (path : List ℕ) (name : Block) {all : List ℕ} (before : List ℕ)
    → StartsClean path
    → AllSlashes before
    → all ≡ before ++ path
    → Split all (split_path path name)
unfolding split_path
Split-split_path [] name before h a q = nothing (subst AllSlashes (sym (q ∙ append-nil before)) a)
Split-split_path (c ∷ path) name before h a q =
    let (e, n) = element-behind (c ∷ path) in
    let (s, b, r, t) = slashes_of (behind (c ∷ path)) in
    split before (element (c ∷ path)) s (skip_slashes (behind (c ∷ path))) _
      (q ∙ ap (λ l. before ++ l) (e ∙ ap (λ l. element (c ∷ path) ++ l) r)) a n
      (element_some c path h) b t
      (followed (behind (c ∷ path)) s (skip_slashes (behind (c ∷ path))) r (behind_slash (c ∷ path))
        t)
      (Names-set_name (element (c ∷ path)) name)

-- `skipelem` splits off the first element of a path with the slashes around it, and puts it into the
-- name, cut after fourteen characters and ended if it is shorter; it answers 0 exactly if the path is
-- all slashes.
pub skipelem-Split : (path : List ℕ) (name : Block) → Split path (skipelem path name)
unfolding skipelem
skipelem-Split path name =
    let (s, a, q, n) = slashes_of path in Split-split_path (skip_slashes path) name s n a q

shorter :
    {path : List ℕ} {o : Option (List ℕ × Block)} {rest : List ℕ} {name : Block}
    → Split path o
    → o ≡ some (rest, name)
    → length rest < length path
shorter (nothing a) e = absurd (cc)
shorter {rest = rest} (split before elem after rest' name' q a n pos b t f m) e =
    let same : rest' ≡ rest = cc in
    omega (
      arith,
      ap length q,
      ap length same,
      length-append before (elem ++ (after ++ rest')),
      length-append elem (after ++ rest'),
      length-append after rest',
    )

module _ (sb : Superblock) (has : ℕ → Bool) (parent : Bool) where
  leave_ends :
      (i : ℕ) (t : Icache) (d : Disk) (answer : Icache → Disk → Walk)
      → ((t' : Icache) (d' : Disk) → answer t' d' ≢ no_fuel)
      → leave sb i t d answer ≢ no_fuel
  unfolding leave
  leave_ends i t d answer h = elim (Option-cases (iunlockput sb i t d)) [
    | inl e ↦ λ z. let q = rw (leave, e) at z in cc
    | inr ((t', d'), e) ↦ λ z. h t' d' (rw (leave, e) at z)
  ]

  descend_ends :
      (i : ℕ) (next : ℕ → Icache → Disk → Walk) (o : Option Lookup)
      → ((j : ℕ) (t' : Icache) (d' : Disk) → next j t' d' ≢ no_fuel)
      → descend sb i next o ≢ no_fuel
  unfolding descend
  descend_ends i next none h = λ z. cc
  descend_ends i next (some (none, dp, d, t)) h = leave_ends i _ d missing (λ t' d' z. cc)
  descend_ends i next (some (some (j, off), dp, d, t)) h = leave_ends i _ d (next j) (h j)

  enter_ends :
      (rest : List ℕ) (name : Block) (i : ℕ) (next : ℕ → Icache → Disk → Walk) (t : Icache)
      (d : Disk)
      → ((j : ℕ) (t' : Icache) (d' : Disk) → next j t' d' ≢ no_fuel)
      → enter sb has parent rest name i next t d ≢ no_fuel
  unfolding enter
  enter_ends [] name i next t d h = elim (Bool-cases (not ((t i).inode.type == 1))) [
    | inl e ↦ rw e (leave_ends i t d missing (λ t' d' z. cc))
    | inr e ↦ elim (Bool-cases parent) [
      | inr p ↦ rw (e, p) (descend_ends i next (dirlookup sb has (t i).inode name d t) h)
      | inl p ↦ elim (Option-cases (iunlock i t)) [
        | inl q ↦ rw (e, p, q) (λ z. cc)
        | inr (t', q) ↦ rw (e, p, q) (λ z. cc)
      ]
    ]
  ]
  enter_ends (c ∷ rest) name i next t d h = elim (Bool-cases (not ((t i).inode.type == 1))) [
    | inl e ↦ rw e (leave_ends i t d missing (λ t' d' z. cc))
    | inr e ↦
        let not_last : (parent && false) ≡ false = ground arith in
        rw (e, not_last) (descend_ends i next (dirlookup sb has (t i).inode name d t) h)
  ]

  lock_ends :
      (rest : List ℕ) (name : Block) (i : ℕ) (next : ℕ → Icache → Disk → Walk) (t : Icache)
      (d : Disk)
      → ((j : ℕ) (t' : Icache) (d' : Disk) → next j t' d' ≢ no_fuel)
      → lock_and_enter sb has parent rest name i next t d ≢ no_fuel
  unfolding lock_and_enter
  lock_ends rest name i next t d h = go (ilock sb i t d)
    where
      go :
          (o : Option Lock)
          → elim o [
            | none ↦ panics
            | some asleep ↦ sleeps i
            | some (locked t') ↦ enter sb has parent rest name i next t' d
          ]
            ≢ no_fuel
      go none = λ z. cc
      go (some asleep) = λ z. cc
      go (some (locked t')) = enter_ends rest name i next t' d h

  finish_ends :
      (i : ℕ) (name : Block) (t : Icache) (d : Disk) → finish sb parent i name t d ≢ no_fuel
  unfolding finish
  finish_ends i name t d = elim (Bool-cases parent) [
    | inr p ↦ rw p (λ z. cc)
    | inl p ↦ elim (Option-cases (iput sb i t d)) [
      | inl q ↦ rw (p, finish, q) (λ z. cc)
      | inr (x, q) ↦ rw (p, finish, q) (λ z. cc)
    ]
  ]

  walk_ends :
      (fuel : ℕ) (path : List ℕ) (i : ℕ) (name : Block) (t : Icache) (d : Disk)
      → length path < fuel
      → walk sb has parent fuel path i name t d ≢ no_fuel
  unfolding walk
  walk_ends zero path i name t d h = absurd (omega arith)
  walk_ends (suc fuel) path i name t d h = elim (Option-cases (skipelem path name)) [
    | inl e ↦ rw (walk, e) (finish_ends i name t d)
    | inr ((rest, name'), e) ↦
        rw (walk, e)
          (lock_ends rest name' i (λ j t' d'. walk sb has parent fuel rest j name' t' d') t d
            (λ j t' d'.
              walk_ends fuel rest j name' t' d'
                (omega (arith, shorter (skipelem-Split path name) e))))
  ]

  -- `namex` ends for every path, with 0, an inode, a sleep for a lock, or a panic: its loop runs at
  -- most once for each character, as each round takes an element off the path.
  pub namex_ends :
      (cwd : ℕ) (path : List ℕ) (name : Block) (t : Icache) (d : Disk)
      → namex sb has cwd path parent name t d ≢ no_fuel
  unfolding namex
  namex_ends cwd path name t d = elim (Option-cases (start_at cwd path t)) [
    | inl e ↦ rw (namex, e) (λ z. cc)
    | inr ((i, t'), e) ↦ rw (namex, e) (walk_ends (length path + 1) path i name t' d (omega arith))
  ]
