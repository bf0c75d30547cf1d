-- ===== src/Fs/Inode/Words.antt =====
-- Words in a block, and bytes that are moved.
use strace_xv.Base.{
  ◌==◌, Bool-cases, ℕ, zero, suc, ◌+◌, ◌-◌, ◌*◌, ◌/◌, ◌%◌, ◌^◌, ◌≤◌, ◌<◌, ◌≡◌, refl, ap, ◌∙◌, ◌⊎◌,
  inl, inr, false, arith,
}
use strace_xv.Fs.{Block}
use strace_xv.Fs.Inode.{move, load_short, store_short, load_word, store_word, store_words}

pub move-in :
    (dst : Block) (at : ℕ) (src : Block) (from n j : ℕ)
    → at ≤ j
    → j < at + n
    → move dst at src from n j ≡ src (from + (j - at))
unfolding move
move-in dst at src from zero j l h = absurd (omega arith)
move-in dst at src from (suc n) j l h = elim (Bool-cases (at + n == j)) [
  | inl e ↦ let e' : n ≡ j - at = ground arith in rw e (ap (λ k. src (from + k)) e')
  | inr e ↦ rw e (move-in dst at src from n j l (ground arith))
]

pub move-out :
    (dst : Block) (at : ℕ) (src : Block) (from n j : ℕ)
    → (j < at) ⊎ (at + n ≤ j)
    → move dst at src from n j ≡ dst j
unfolding move
move-out dst at src from zero j h = refl
move-out dst at src from (suc n) j h =
    let e : (at + n == j) ≡ false = ground arith in
    rw e (move-out dst at src from n j (ground arith))

pub load_short-store_short :
    (b : Block) (at v : ℕ) → v < 65536 → load_short (store_short b at v) at ≡ v
load_short-store_short b at v h = ground arith

-- A number that stands apart is not changed.
pub load_short-store_short_ne :
    (b : Block) (at v other : ℕ)
    → (other + 2 ≤ at) ⊎ (at + 2 ≤ other)
    → load_short (store_short b at v) other ≡ load_short b other
load_short-store_short_ne b at v other h = ground arith

pub store_short-out :
    (b : Block) (at v j : ℕ) → (j < at) ⊎ (at + 2 ≤ j) → store_short b at v j ≡ b j
store_short-out b at v j h = ground arith

pub load_word-store_word :
    (b : Block) (at v : ℕ) → v < 2 ^ 32 → load_word (store_word b at v) at ≡ v
load_word-store_word b at v h =
    let top : v / 65536 < 65536 = omega arith in
    let low : load_short (store_word b at v) at ≡ v % 65536 =
      load_short-store_short_ne (store_short b at v) (at + 2) (v / 65536) at (inl (omega arith))
      ∙ ground arith in
    omega (arith, low, load_short-store_short (store_short b at v) (at + 2) (v / 65536) top)

pub store_word-out : (b : Block) (at v j : ℕ) → (j < at) ⊎ (at + 4 ≤ j) → store_word b at v j ≡ b j
store_word-out b at v j h =
    store_short-out (store_short b at v) (at + 2) (v / 65536) j (ground arith)
    ∙ store_short-out b at v j (ground arith)

-- Two bytes, or four, that are the same.
pub load_word-same :
    (b c : Block) (at : ℕ)
    → ((j : ℕ) → at ≤ j → j < at + 4 → b j ≡ c j)
    → load_word b at ≡ load_word c at
load_word-same b c at h = omega (
  arith,
  h at (omega arith) (omega arith),
  h (at + 1) (omega arith) (omega arith),
  h (at + 2) (omega arith) (omega arith),
  h (at + 2 + 1) (omega arith) (omega arith),
)

pub load_word-store_word_ne :
    (b : Block) (at v other : ℕ)
    → (other + 4 ≤ at) ⊎ (at + 4 ≤ other)
    → load_word (store_word b at v) other ≡ load_word b other
load_word-store_word_ne b at v other h =
    load_word-same _ _ other (λ j l u. store_word-out b at v j (ground arith))

pub store_words-out :
    (b : Block) (at : ℕ) (f : ℕ → ℕ) (n j : ℕ)
    → (j < at) ⊎ (at + 4 * n ≤ j)
    → store_words b at f n j ≡ b j
unfolding store_words
store_words-out b at f zero j h = refl
store_words-out b at f (suc n) j h =
    store_word-out (store_words b at f n) (at + 4 * n) (f n) j (ground arith)
    ∙ store_words-out b at f n j (ground arith)

pub load_word-store_words :
    (b : Block) (at : ℕ) (f : ℕ → ℕ) (n i : ℕ)
    → ((k : ℕ) → k < n → f k < 2 ^ 32)
    → i < n
    → load_word (store_words b at f n) (at + 4 * i) ≡ f i
unfolding store_words
load_word-store_words b at f zero i h l = elim l [ ]
load_word-store_words b at f (suc n) i h l = elim (Bool-cases (i == n)) [
  | inl e ↦
      let e' : i ≡ n = ground arith in
      rw e' (load_word-store_word (store_words b at f n) (at + 4 * n) (f n) (h n (omega arith)))
  | inr e ↦
      load_word-store_word_ne (store_words b at f n) (at + 4 * n) (f n) (at + 4 * i)
        (inl (ground arith))
      ∙ load_word-store_words b at f n i (λ k u. h k (omega arith)) (ground arith)
]
