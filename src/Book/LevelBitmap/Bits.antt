-- ===== src/Book/LevelBitmap/Bits.antt =====
-- `set`, `clear` and `test` of include/lx/book/level_bitmap.hpp as operations on a set of levels.
use lite_exchange.Base.{
  ℕ, suc, ◌/◌, ◌%◌, ◌^◌, ◌<◌, ◌≡◌, true, false, ◌==◌, if◌then◌else◌, arith, bit_at, bit_at-lt,
  bit_at-bit_or, bit_at-bit_and, bit_at-pow, bit_at-complement, bit_and-pow, bit_or-lt, bit_and-lt,
  one-le-pow,
}
use lite_exchange.Book.LevelBitmap.{Words, set, clear, test, not64, shl64}
use native.Mathlib.Nat.{pow-le-pow_right, pow-suc}

-- The bit of level `i`.
abbrev pub level_bit : Words → ℕ → ℕ
level_bit words i = bit_at (words (i / 64)) (i % 64)

-- Each word fits 64 bits.
abbrev pub IsWords : Words → Type 0
IsWords words = (w : ℕ) → words w < 2 ^ 64

pub pow-lt : (k : ℕ) → k < 64 → 2 ^ k < 2 ^ 64
pow-lt k h = omega (
  arith,
  pow-suc 2 k,
  one-le-pow k,
  pow-le-pow_right {n = 2} (omega arith) {i = suc k} {j = 64} h,
)

-- 1ULL << (i & 63)
pub shl64-one : (i : ℕ) → shl64 1 (i % 64) ≡ 2 ^ (i % 64)
shl64-one i = let small = pow-lt (i % 64) (omega arith) in omega arith

pub test-eq-bit : (words : Words) (i : ℕ) → test words i ≡ (level_bit words i == 1)
unfolding test
test-eq-bit words i =
    rw (shl64-one i, bit_and-pow (i % 64) (words (i / 64)))
      (ground (arith, one-le-pow (i % 64), bit_at-lt (words (i / 64)) (i % 64)))

pub bit-set :
    (idx j : ℕ) (words : Words)
    → level_bit (set idx words) j ≡ (if j == idx then 1 else level_bit words j)
unfolding set
bit-set idx j words = rw (shl64-one idx) (
    ground (
      arith,
      bit_at-bit_or (j % 64) (words (idx / 64)) (2 ^ (idx % 64)),
      bit_at-pow (idx % 64) (j % 64),
      bit_at-lt (words (idx / 64)) (j % 64),
    ))

pub bit-clear :
    (idx j : ℕ) (words : Words)
    → level_bit (clear idx words) j ≡ (if j == idx then 0 else level_bit words j)
unfolding clear
bit-clear idx j words = rw (shl64-one idx) (
    ground (
      arith,
      bit_at-bit_and (j % 64) (words (idx / 64)) (not64 (2 ^ (idx % 64))),
      bit_at-complement 64 (j % 64) (2 ^ (idx % 64)) (pow-lt (idx % 64) (omega arith))
          (omega arith),
      bit_at-pow (idx % 64) (j % 64),
      bit_at-lt (words (idx / 64)) (j % 64),
    ))

-- After `set`, exactly the level set is added to those that `test` finds.
pub test-set :
    (idx j : ℕ) (words : Words) → test (set idx words) j ≡ (if j == idx then true else test words j)
test-set idx j words =
    rw (test-eq-bit (set idx words) j, test-eq-bit words j, bit-set idx j words) (ground arith)

-- After `clear`, exactly the level cleared is missing from those that `test` finds.
test-clear :
    (idx j : ℕ) (words : Words)
    → test (clear idx words) j ≡ (if j == idx then false else test words j)
test-clear idx j words =
    rw (test-eq-bit (clear idx words) j, test-eq-bit words j, bit-clear idx j words) (ground arith)

pub set-IsWords : (idx : ℕ) {words : Words} → IsWords words → IsWords (set idx words)
unfolding set
set-IsWords idx {words} h w = rw (shl64-one idx) (
    ground (
      arith,
      h w,
      h (idx / 64),
      bit_or-lt 64 (words (idx / 64)) (2 ^ (idx % 64)) (h (idx / 64))
          (pow-lt (idx % 64) (omega arith)),
    ))

pub clear-IsWords : (idx : ℕ) {words : Words} → IsWords words → IsWords (clear idx words)
unfolding clear
clear-IsWords idx {words} h w =
    ground
      (arith, h w, bit_and-lt 64 (words (idx / 64)) (not64 (shl64 1 (idx % 64))) (h (idx / 64)))
