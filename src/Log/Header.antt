-- ===== src/Log/Header.antt =====
-- The header block: what `write_head` writes is what `read_head` reads.
use strace_xv.Base.{
  length, get_or, set, length-set, ℕ, zero, suc, ◌+◌, ◌≤◌, ◌<◌, ◌≡◌, refl, ap, ◌∙◌, ◌≢◌, List, [],
  ◌∷◌, arith,
}
use strace_xv.Log.{Block, log_size, block_words, set_words, read_words, header}

length-set_words : (d : Block) (i : ℕ) (bs : List ℕ) → length (set_words d i bs) ≡ length d
unfolding set_words
length-set_words d i [] = refl
length-set_words d i (b ∷ bs) = length-set_words (set d i b) (i + 1) bs ∙ length-set d i b

get_or-set_self : (d : Block) (i v : ℕ) → i < length d → get_or (set d i v) i 0 ≡ v
get_or-set_self [] i v h = elim h [ ]
get_or-set_self (x ∷ d) zero v h = refl
get_or-set_self (x ∷ d) (suc i) v h = get_or-set_self d i v (omega arith)

get_or-set_ne : (d : Block) (i j v : ℕ) → i ≢ j → get_or (set d i v) j 0 ≡ get_or d j 0
get_or-set_ne [] i j v h = refl
get_or-set_ne (x ∷ d) zero zero v h = absurd (h refl)
get_or-set_ne (x ∷ d) zero (suc j) v h = refl
get_or-set_ne (x ∷ d) (suc i) zero v h = refl
get_or-set_ne (x ∷ d) (suc i) (suc j) v h = get_or-set_ne d i j v (λ e. h (ap suc e))

set_words-below :
    (d : Block) (i j : ℕ) (bs : List ℕ) → j < i → get_or (set_words d i bs) j 0 ≡ get_or d j 0
unfolding set_words
set_words-below d i j [] h = refl
set_words-below d i j (b ∷ bs) h =
    set_words-below (set d i b) (i + 1) j bs (omega arith) ∙ get_or-set_ne d i j b (omega arith)

read_words-set_words :
    (d : Block) (i : ℕ) (bs : List ℕ)
    → i + length bs ≤ length d
    → read_words (set_words d i bs) i (length bs) ≡ bs
unfolding set_words read_words
read_words-set_words d i [] h = refl
read_words-set_words d i (b ∷ bs) h =
    rw
      (
        set_words-below (set d i b) (i + 1) i bs (omega arith),
        get_or-set_self d i b (omega arith),
        read_words-set_words (set d i b) (i + 1) bs (omega (arith, length-set d i b)),
      )
      refl

-- The list of blocks that `read_head` finds in a header block.
abbrev pub read_header : Block → List ℕ
read_header d = read_words d 1 (get_or d 0 0)

pub length-header : (d : Block) (lh : List ℕ) → length (header d lh) ≡ length d
length-header d lh = length-set_words (set d 0 (length lh)) 1 lh ∙ length-set d 0 (length lh)

-- Over any block of the right size, `read_head` reads the list that `write_head` wrote.
pub read_header-header :
    (d : Block) (lh : List ℕ)
    → length d ≡ block_words
    → length lh ≤ log_size
    → read_header (header d lh) ≡ lh
read_header-header d lh l h =
    rw
      (
        set_words-below (set d 0 (length lh)) 1 0 lh (omega arith),
        get_or-set_self d 0 (length lh) (omega arith),
      )
      (read_words-set_words (set d 0 (length lh)) 1 lh (omega (arith, length-set d 0 (length lh))))

pub read_header-empty : (d : Block) → get_or d 0 0 ≡ 0 → read_header d ≡ []
unfolding read_words
read_header-empty d h = rw h refl

-- An empty header has the count 0.
pub header-empty : (d : Block) → length d ≡ block_words → get_or (header d []) 0 0 ≡ 0
unfolding set_words
header-empty d l = get_or-set_self d 0 0 (omega arith)
