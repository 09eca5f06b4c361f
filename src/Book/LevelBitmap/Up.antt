-- ===== src/Book/LevelBitmap/Up.antt =====
-- `next_up` of include/lx/book/level_bitmap.hpp: the scan towards higher levels.
use Prim.Native.Nat.{bit_and}
use lite_exchange.Base.{
  ℕ, zero, suc, ◌+◌, ◌-◌, ◌*◌, ◌/◌, ◌%◌, ◌^◌, ◌≤◌, ◌<◌, ◌≡◌, refl, true, ltb, leb, inl, inr,
  Bool-cases, ◌==◌, if◌then◌else◌, arith, bit_at, bit_at-lt, bit_at-bit_and, bit_at-complement,
  bit_at-zero, bit_at-ones, bit_and-lt,
}
use lite_exchange.Book.LevelBitmap.{Words, shl64, word_max, lowest_bit, num_words, scan_up, next_up}
use lite_exchange.Book.LevelBitmap.Bits.{level_bit}
use lite_exchange.Book.LevelBitmap.Nearest.{
  lowest_bit_lem, Fits, IsLowest, bit_in_word, mask_up, ones_small,
}

-- `bits` is word `w` less the levels below `from`.
abbrev MasksUp : Words → ℕ → ℕ → ℕ → Type 0
MasksUp words from w bits =
    (k : ℕ) → k < 64 → bit_at bits k ≡ (if leb from (w * 64 + k) then bit_at (words w) k else 0)

empty_word_up :
    (words : Words) (from w bits i : ℕ)
    → MasksUp words from w bits
    → bits ≡ 0
    → from ≤ i
    → w * 64 ≤ i
    → i < w * 64 + 64
    → level_bit words i ≡ 0
empty_word_up words from w bits i mask e low lo hi = ground (
  arith,
  bit_in_word words w (i - w * 64) i (omega arith) (omega arith),
  mask (i - w * 64) (omega arith),
  bit_at-zero (i - w * 64),
)

scan_up_lem :
    (fuel n : ℕ) {words : Words} (from w bits : ℕ)
    → Fits n words
    → MasksUp words from w bits
    → bits < 2 ^ 64
    → from < w * 64 + 64
    → ((i : ℕ) → from ≤ i → i < w * 64 → level_bit words i ≡ 0)
    → w < num_words n
    → num_words n ≤ w + fuel
    → IsLowest words from (scan_up fuel (num_words n) words w bits)
unfolding scan_up
scan_up_lem zero n from w bits fits mask lt near before inside enough = absurd (omega arith)
scan_up_lem (suc fuel) n {words} from w bits fits mask lt near before inside enough =
    elim (Bool-cases (bits == 0)) [
      | inl none_here ↦ rw none_here (elim (Bool-cases (leb (num_words n) (w + 1))) [
        | inl last ↦ rw last (
            inl (
              refl,
              λ i h. elim (Bool-cases (leb (w * 64 + 64) i)) [
                | inl above ↦ fits.within i (ground arith)
                | inr here ↦ passed none_here i h (ground arith)
              ],
            ))
        | inr more ↦ rw more (
            scan_up_lem fuel n from (w + 1) (words (w + 1)) fits (λ k h. ground arith)
              (fits.words_64 (w + 1)) (omega arith) (λ i h k. passed none_here i h (omega arith))
              (ground arith) (omega arith))
      ])
      | inr some_here ↦
          let (at, small, below) = lowest_bit_lem 64 bits lt (ground arith) in
          rw some_here (inr (found at small, reached at small, first small below))
    ]
  where
    passed : (bits == 0) ≡ true → (i : ℕ) → from ≤ i → i < w * 64 + 64 → level_bit words i ≡ 0
    passed e i h k = elim (Bool-cases (ltb i (w * 64))) [
      | inl old ↦ before i h (ground arith)
      | inr new ↦ empty_word_up words from w bits i mask (ground arith) h (ground arith) k
    ]

    found :
        bit_at bits (lowest_bit 64 bits) ≡ 1
        → lowest_bit 64 bits < 64
        → level_bit words (w * 64 + lowest_bit 64 bits) ≡ 1
    found at small = ground (
      arith,
      bit_in_word words w (lowest_bit 64 bits) (w * 64 + lowest_bit 64 bits) small refl,
      mask (lowest_bit 64 bits) small,
    )

    reached :
        bit_at bits (lowest_bit 64 bits) ≡ 1
        → lowest_bit 64 bits < 64
        → from ≤ w * 64 + lowest_bit 64 bits
    reached at small = ground (arith, mask (lowest_bit 64 bits) small)

    first :
        lowest_bit 64 bits < 64
        → ((i : ℕ) → i < lowest_bit 64 bits → bit_at bits i ≡ 0)
        → (i : ℕ) → from ≤ i
        → i < w * 64 + lowest_bit 64 bits
        → level_bit words i ≡ 0
    first small below i h k = elim (Bool-cases (ltb i (w * 64))) [
      | inl old ↦ before i h (ground arith)
      | inr new ↦ ground (
        arith,
        bit_in_word words w (i - w * 64) i (ground arith) (ground arith),
        mask (i - w * 64) (ground arith),
        below (i - w * 64) (ground arith),
      )
    ]

-- `next_up` returns the lowest marked level at or above `from`, and `NULL_IDX` exactly where no such
-- level is marked, for every `from` and every bitmap that marks levels below `n` only.
pub next_up-IsLowest :
    (n from : ℕ) {words : Words} → Fits n words → IsLowest words from (next_up n words from)
unfolding next_up
next_up-IsLowest n from {words} fits = elim (Bool-cases (leb n from)) [
  | inl out ↦ rw out (inl (refl, λ i h. fits.within i (ground arith)))
  | inr in_range ↦ rw in_range (
      scan_up_lem (num_words n) n from (from / 64) masked fits mask small (omega arith)
        (λ i h k. absurd (omega arith)) (ground arith) (omega arith))
]
  where
    masked : ℕ
    masked = bit_and (words (from / 64)) (shl64 word_max (from % 64))

    small : masked < 2 ^ 64
    small = bit_and-lt 64 (words (from / 64)) (shl64 word_max (from % 64)) (fits.words_64 _)

    high :
        (k : ℕ)
        → k < 64
        → bit_at (shl64 word_max (from % 64)) k ≡ (if ltb k (from % 64) then 0 else 1)
    high k h = rw (mask_up (from % 64) (omega arith)) (
        ground (
          arith,
          bit_at-complement 64 k (2 ^ (from % 64) - 1) (ones_small (from % 64) (omega arith)) h,
          bit_at-ones (from % 64) k,
        ))

    mask : MasksUp words from (from / 64) masked
    mask k h = ground (
      arith,
      bit_at-bit_and k (words (from / 64)) (shl64 word_max (from % 64)),
      high k h,
      bit_at-lt (words (from / 64)) k,
    )
