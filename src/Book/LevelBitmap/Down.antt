-- ===== src/Book/LevelBitmap/Down.antt =====
-- `next_down` of include/lx/book/level_bitmap.hpp: the scan towards lower levels.
use Prim.Native.Nat.{bit_and}
use lite_exchange.Base.{
  ℕ, zero, suc, ◌+◌, ◌-◌, ◌*◌, ◌/◌, ◌%◌, ◌^◌, ◌≤◌, ◌<◌, ◌≡◌, refl, ap, false, leb, ◌≢◌, inl, inr,
  Bool-cases, ◌==◌, if◌then◌else◌, arith, bit_at, bit_at-lt, bit_at-bit_and, bit_at-zero,
  bit_at-ones, bit_and-lt,
}
use lite_exchange.Book.LevelBitmap.{Words, shr64, word_max, highest_bit, scan_down, next_down}
use lite_exchange.Book.LevelBitmap.Bits.{level_bit, IsWords}
use lite_exchange.Book.LevelBitmap.Nearest.{highest_bit_lem, IsHighest, bit_in_word, mask_down}

-- `bits` is word `w` less the levels above `from`.
abbrev MasksDown : Words → ℕ → ℕ → ℕ → Type 0
MasksDown words from w bits =
    (k : ℕ) → k < 64 → bit_at bits k ≡ (if leb (w * 64 + k) from then bit_at (words w) k else 0)

-- The level found in word `w` is the highest, if the words above it up to `from` are empty.
IsHighest-in_word :
    (words : Words) (from w bits : ℕ)
    → MasksDown words from w bits
    → bits < 2 ^ 64
    → bits ≢ 0
    → ((i : ℕ) → w * 64 + 64 ≤ i → i ≤ from → level_bit words i ≡ 0)
    → IsHighest words from (w * 64 + highest_bit 64 bits)
IsHighest-in_word words from w bits mask lt some_here before =
    let (at, small, above) = highest_bit_lem 64 bits lt some_here in
    inr (
      ground (
        arith,
        bit_in_word words w (highest_bit 64 bits) (w * 64 + highest_bit 64 bits) small refl,
        mask (highest_bit 64 bits) small,
      ),
      ground (arith, mask (highest_bit 64 bits) small),
      λ i h k. elim (Bool-cases (leb (w * 64 + 64) i)) [
        | inl old ↦ before i (ground arith) k
        | inr new ↦ ground (
          arith,
          bit_in_word words w (i - w * 64) i (ground arith) (ground arith),
          mask (i - w * 64) (ground arith),
          above (i - w * 64) (ground arith) (ground arith),
        )
      ],
    )

empty_word_down :
    (words : Words) (from w bits : ℕ)
    → MasksDown words from w bits
    → bits ≡ 0
    → ((i : ℕ) → w * 64 + 64 ≤ i → i ≤ from → level_bit words i ≡ 0)
    → (i : ℕ) → w * 64 ≤ i
    → i ≤ from
    → level_bit words i ≡ 0
empty_word_down words from w bits mask e before i lo hi = elim (Bool-cases (leb (w * 64 + 64) i)) [
  | inl old ↦ before i (ground arith) hi
  | inr new ↦ ground (
    arith,
    bit_in_word words w (i - w * 64) i (ground arith) (ground arith),
    mask (i - w * 64) (ground arith),
    bit_at-zero (i - w * 64),
  )
]

scan_down_lem :
    (w from : ℕ) {words : Words} (bits : ℕ)
    → IsWords words
    → MasksDown words from w bits
    → bits < 2 ^ 64
    → w * 64 ≤ from
    → ((i : ℕ) → w * 64 + 64 ≤ i → i ≤ from → level_bit words i ≡ 0)
    → IsHighest words from (scan_down w words bits)
unfolding scan_down
scan_down_lem zero from {words} bits wide mask lt near before = elim (Bool-cases (bits == 0)) [
  | inl none_here ↦ rw none_here (
      inl (
        refl,
        λ i h. empty_word_down words from 0 bits mask (ground arith) before i (omega arith) h,
      ))
  | inr some_here ↦ rw some_here (IsHighest-in_word words from 0 bits mask lt (ground arith) before)
]
scan_down_lem (suc w) from {words} bits wide mask lt near before = elim (Bool-cases (bits == 0)) [
  | inl none_here ↦ rw none_here (
      scan_down_lem w from (words w) wide (λ k h. ground arith) (wide w) (omega arith)
        (λ i h k.
          empty_word_down words from (suc w) bits mask (ground arith) before i (omega arith) k))
  | inr some_here ↦
      rw some_here (IsHighest-in_word words from (suc w) bits mask lt (ground arith) before)
]

-- `next_down` returns the highest marked level at or below `from`, and `NULL_IDX` exactly where no
-- such level is marked, for every `from` on the ladder.
pub next_down-IsHighest :
    (n from : ℕ) {words : Words}
    → IsWords words
    → from < n
    → IsHighest words from (next_down n words from)
unfolding next_down
next_down-IsHighest n from {words} wide inside =
    let in_range : leb n from ≡ false = ground arith in
    rw in_range (
      scan_down_lem (from / 64) from masked wide mask small (omega arith)
        (λ i h k. absurd (omega arith)))
  where
    masked : ℕ
    masked = bit_and (words (from / 64)) (shr64 word_max (63 - from % 64))

    small : masked < 2 ^ 64
    small = bit_and-lt 64 (words (from / 64)) (shr64 word_max (63 - from % 64)) (wide _)

    mask : MasksDown words from (from / 64) masked
    mask k h = ground (
      arith,
      bit_at-bit_and k (words (from / 64)) (shr64 word_max (63 - from % 64)),
      ap (λ (t : ℕ). bit_at t k) (mask_down (from % 64) (omega arith)),
      bit_at-ones (suc (from % 64)) k,
      bit_at-lt (words (from / 64)) k,
    )
