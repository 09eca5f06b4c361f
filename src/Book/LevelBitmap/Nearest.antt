-- ===== src/Book/LevelBitmap/Nearest.antt =====
-- The bit scans of include/lx/book/level_bitmap.hpp within one word, and what the nearest occupied
-- level is.
use lite_exchange.Base.{
  ℕ, zero, suc, ◌+◌, ◌-◌, ◌*◌, ◌/◌, ◌%◌, ◌^◌, ◌≤◌, ◌<◌, ◌≡◌, refl, Bool, true, false, ==_iff, ◌≢◌,
  ◌⊎◌, inl, inr, Bool-cases, ◌==◌, arith, bit_at, bit_at-lt, lt-pow_of_bit, if◌then◌else◌,
}
use native.Mathlib.Nat.{pow-suc}
use lite_exchange.Book.Order.{null_idx}
use lite_exchange.Book.LevelBitmap.{Words, shl64, shr64, word_max, lowest_bit, highest_bit}
use lite_exchange.Book.LevelBitmap.Bits.{level_bit, IsWords, pow-lt}

pub lowest_bit_lem :
    (n x : ℕ)
    → x < 2 ^ n
    → x ≢ 0
    → (bit_at x (lowest_bit n x) ≡ 1)
      × (lowest_bit n x < n)
      × ((i : ℕ) → i < lowest_bit n x → bit_at x i ≡ 0)
unfolding lowest_bit
lowest_bit_lem zero x p q = absurd (omega arith)
lowest_bit_lem (suc n) x p q = elim (Bool-cases (x % 2 == 1)) [
  | inl odd ↦ rw odd (ground arith, omega arith, λ i h. absurd (omega arith))
  | inr even ↦
      let (at, small, below) =
        lowest_bit_lem n (x / 2) (omega (arith, pow-suc 2 n)) (ground arith) in
      rw even (at, omega arith, later even below)
]
  where
    later :
        (x % 2 == 1) ≡ false
        → ((i : ℕ) → i < lowest_bit n (x / 2) → bit_at (x / 2) i ≡ 0)
        → (i : ℕ) → i < suc (lowest_bit n (x / 2))
        → bit_at x i ≡ 0
    later even below zero h = ground arith
    later even below (suc i) h = below i (omega arith)

pub highest_bit_lem :
    (n x : ℕ)
    → x < 2 ^ n
    → x ≢ 0
    → (bit_at x (highest_bit n x) ≡ 1)
      × (highest_bit n x < n)
      × ((i : ℕ) → highest_bit n x < i → i < n → bit_at x i ≡ 0)
unfolding highest_bit
highest_bit_lem zero x p q = absurd (omega arith)
highest_bit_lem (suc n) x p q = elim (Bool-cases (bit_at x n == 1)) [
  | inl top ↦ rw top (ground arith, omega arith, λ i h k. absurd (omega arith))
  | inr off ↦
      let clear_top : bit_at x n ≡ 0 = ground (arith, bit_at-lt x n) in
      let (at, small, above) = highest_bit_lem n x (lt-pow_of_bit n x p clear_top) q in
      rw off (at, omega arith, later clear_top above)
]
  where
    later :
        bit_at x n ≡ 0
        → ((i : ℕ) → highest_bit n x < i → i < n → bit_at x i ≡ 0)
        → (i : ℕ) → highest_bit n x < i
        → i < suc n
        → bit_at x i ≡ 0
    later e above i h k = grind (arith, above i)

-- Words of 64 bits in which only levels below `n` are marked.
pub record Fits (n : ℕ) (words : Words) : Type 0 where
  pub words_64 : IsWords words
  pub within : (i : ℕ) → n ≤ i → level_bit words i ≡ 0

-- `r` is the lowest marked level from `from` up, or `null_idx` where there is none.
abbrev pub IsLowest : Words → ℕ → ℕ → Type 0
IsLowest words from r =
    ((r ≡ null_idx) × ((i : ℕ) → from ≤ i → level_bit words i ≡ 0))
    ⊎ ((level_bit words r ≡ 1) × (from ≤ r) × ((i : ℕ) → from ≤ i → i < r → level_bit words i ≡ 0))

abbrev pub IsHighest : Words → ℕ → ℕ → Type 0
IsHighest words from r =
    ((r ≡ null_idx) × ((i : ℕ) → i ≤ from → level_bit words i ≡ 0))
    ⊎ ((level_bit words r ≡ 1) × (r ≤ from) × ((i : ℕ) → r < i → i ≤ from → level_bit words i ≡ 0))

-- Level `w * 64 + k` is bit `k` of word `w`.
pub bit_in_word :
    (words : Words) (w k i : ℕ) → k < 64 → i ≡ w * 64 + k → level_bit words i ≡ bit_at (words w) k
bit_in_word words w k i h e = rw (word, place)
  where
    word : i / 64 ≡ w
    word = omega arith

    place : i % 64 ≡ k
    place = omega arith

-- ~0ULL << k and ~0ULL >> (63 - k), for each shift.
each_shift : (ℕ → Bool) → ℕ → Bool
each_shift ok zero = ok zero
each_shift ok (suc k) = if ok (suc k) then each_shift ok k else false

each_shift-le : (ok : ℕ → Bool) (last k : ℕ) → k ≤ last → each_shift ok last ≡ true → ok k ≡ true
unfolding each_shift
each_shift-le ok zero zero below all = all
each_shift-le ok zero (suc k) below all = absurd (omega arith)
each_shift-le ok (suc last) k below all = elim (Bool-cases (k == suc last)) [
  | inl here ↦ rw ((==_iff k (suc last)).0 here) (ground (arith, all))
  | inr lower ↦ each_shift-le ok last k (ground arith) (ground (arith, all))
]

pub mask_up : (k : ℕ) → k < 64 → shl64 word_max k ≡ 2 ^ 64 - 1 - (2 ^ k - 1)
mask_up k h =
    (==_iff _ _).0
      (each_shift-le (λ k. shl64 word_max k == 2 ^ 64 - 1 - (2 ^ k - 1)) 63 k (omega arith) table)
  where
    table : each_shift (λ k. shl64 word_max k == 2 ^ 64 - 1 - (2 ^ k - 1)) 63 ≡ true
    table = unfold each_shift in refl

pub mask_down : (k : ℕ) → k < 64 → shr64 word_max (63 - k) ≡ 2 ^ suc k - 1
mask_down k h =
    (==_iff _ _).0
      (each_shift-le (λ k. shr64 word_max (63 - k) == 2 ^ suc k - 1) 63 k (omega arith) table)
  where
    table : each_shift (λ k. shr64 word_max (63 - k) == 2 ^ suc k - 1) 63 ≡ true
    table = unfold each_shift in refl

pub ones_small : (k : ℕ) → k < 64 → 2 ^ k - 1 < 2 ^ 64
ones_small k h = omega (arith, pow-lt k h)
