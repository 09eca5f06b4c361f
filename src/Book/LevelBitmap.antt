-- ===== src/Book/LevelBitmap.antt =====
-- include/lx/book/level_bitmap.hpp: one bit for each price level, in words of 64 bits.
pub mod Bits
pub mod Nearest
pub mod Up
pub mod Down
use Prim.Native.Nat.{bit_and, bit_or}
use lite_exchange.Base.{
  ℕ, zero, suc, ◌+◌, ◌-◌, ◌*◌, ◌/◌, ◌%◌, ◌^◌, Bool, not, leb, ◌==◌, if◌then◌else◌, update, bit_at,
}
use lite_exchange.Book.Order.{null_idx}

-- `words_[NUM_WORDS]`.
abbrev pub Words : Type 0
Words = ℕ → ℕ

abbrev pub word_max : ℕ
word_max = 2 ^ 64 - 1

-- ~x, x << k and x >> k on 64 bits.
abbrev pub not64 : ℕ → ℕ
not64 x = word_max - x

abbrev pub shl64 : ℕ → ℕ → ℕ
shl64 x k = x * 2 ^ k % 2 ^ 64

abbrev pub shr64 : ℕ → ℕ → ℕ
shr64 x k = x / 2 ^ k

-- `__builtin_ctzll` and `63 - __builtin_clzll` of a word that is not 0, over a width.
unfoldable pub lowest_bit : ℕ → ℕ → ℕ
lowest_bit zero x = 0
lowest_bit (suc n) x = if x % 2 == 1 then 0 else suc (lowest_bit n (x / 2))

unfoldable pub highest_bit : ℕ → ℕ → ℕ
highest_bit zero x = 0
highest_bit (suc n) x = if bit_at x n == 1 then n else highest_bit n x

abbrev pub num_words : ℕ → ℕ
num_words n = (n + 63) / 64

unfoldable pub set : ℕ → Words → Words
set idx words = update words (idx / 64) (bit_or (words (idx / 64)) (shl64 1 (idx % 64)))

unfoldable pub clear : ℕ → Words → Words
clear idx words = update words (idx / 64) (bit_and (words (idx / 64)) (not64 (shl64 1 (idx % 64))))

unfoldable pub test : Words → ℕ → Bool
test words idx = not (bit_and (words (idx / 64)) (shl64 1 (idx % 64)) == 0)

-- The loop of `next_up`, with the number of words as fuel: `w` grows in each round.
unfoldable pub scan_up : ℕ → ℕ → Words → ℕ → ℕ → ℕ
scan_up zero nw words w bits = null_idx
scan_up (suc fuel) nw words w bits =
    let rest = scan_up fuel nw words (w + 1) (words (w + 1)) in
    if not (bits == 0)
    then w * 64 + lowest_bit 64 bits
    else if leb nw (w + 1)
    then null_idx
    else rest

unfoldable pub next_up : ℕ → Words → ℕ → ℕ
next_up n words from =
    let w = from / 64 in
    if leb n from
    then null_idx
    else scan_up (num_words n) (num_words n) words w
        (bit_and (words w) (shl64 word_max (from % 64)))

-- The loop of `next_down` counts `w` down.
unfoldable pub scan_down : ℕ → Words → ℕ → ℕ
scan_down zero words bits = if not (bits == 0) then 0 * 64 + highest_bit 64 bits else null_idx
scan_down (suc w) words bits =
    let rest = scan_down w words (words w) in
    if not (bits == 0) then suc w * 64 + highest_bit 64 bits else rest

unfoldable pub next_down : ℕ → Words → ℕ → ℕ
next_down n words from =
    let w = from / 64 in
    if leb n from
    then null_idx
    else scan_down w words (bit_and (words w) (shr64 word_max (63 - from % 64)))
