-- ===== src/Book/OrderBook/BestLevel.antt =====
-- One side of the book of include/lx/book/order_book.hpp: its levels are queues, its bitmap marks the
-- levels that hold an order, and its best index is the best of them.
use lite_exchange.Base.{
  ℕ, ◌+◌, ◌-◌, ◌^◌, ◌<◌, ◌≤◌, ◌≡◌, refl, ap, ◌≢◌, ◌⊎◌, Bool, true, false, ◌==◌, leb, ltb,
  if◌then◌else◌, arith, List, [], ◌∷◌, add32, Bool-cases, inl, inr,
}
use lite_exchange.Book.Order.{Order, null_idx}
use lite_exchange.Book.PriceLevel.{empty}
use lite_exchange.Book.PriceLevel.Fifo.{Represents}
use lite_exchange.Book.LevelBitmap
use lite_exchange.Book.LevelBitmap.{Words}
use lite_exchange.Book.LevelBitmap.Bits.{level_bit, bit-clear, bit-set, clear-IsWords, set-IsWords}
use lite_exchange.Book.LevelBitmap.Nearest.{Fits}
use lite_exchange.Book.LevelBitmap.Up.{next_up-IsLowest}
use lite_exchange.Book.LevelBitmap.Down.{next_down-IsHighest}
use lite_exchange.Book.Matching.{Dims, Ladder, advance, find_after, find_best}

abbrev pub is_nil : List ℕ → Bool
is_nil [] = true
is_nil (x ∷ xs) = false

-- A better price than level `b` on a side: higher for bids, lower for asks.
abbrev pub Beyond : Bool → ℕ → ℕ → Type 0
Beyond true i b = b < i
Beyond false i b = i < b

-- `b` is the best marked level of a side, or `null_idx` where none is marked.
abbrev pub IsBest : Bool → Words → ℕ → Type 0
IsBest bid occ b =
    ((b ≡ null_idx) × ((i : ℕ) → level_bit occ i ≡ 0))
    ⊎ ((level_bit occ b ≡ 1) × ((i : ℕ) → Beyond bid i b → level_bit occ i ≡ 0))

-- The template arguments are of the size that the code has indices for.
abbrev pub IsSized : Dims → Type 0
IsSized d = (d.ladder_size ≤ 2 ^ 31) × (d.max_orders < 2 ^ 32)

pub record IsLadder (bid : Bool) (d : Dims) (slots : ℕ → Order) (l : Ladder) (q : ℕ → List ℕ)
    : Type 0 where
  pub level : (i : ℕ) → Represents slots (l.levels i) (q i)
  pub fits : Fits d.ladder_size l.occ
  pub marked : (i : ℕ) → level_bit l.occ i ≡ (if is_nil (q i) then 0 else 1)
  pub best : IsBest bid l.occ l.best_idx

pub clear-Fits : (n b : ℕ) (occ : Words) → Fits n occ → Fits n (LevelBitmap.clear b occ)
clear-Fits n b occ f = record {
  words_64 = clear-IsWords b f.words_64;
  within = λ i h. rw (bit-clear b i occ) (ground (arith, f.within i h));
}

pub set-Fits : (n b : ℕ) (occ : Words) → b < n → Fits n occ → Fits n (LevelBitmap.set b occ)
set-Fits n b occ hb f = record {
  words_64 = set-IsWords b f.words_64;
  within = λ i h. rw (bit-set b i occ) (ground (arith, f.within i h));
}

-- A marked level lies on the ladder.
pub marked-lt : (n b : ℕ) {occ : Words} → Fits n occ → level_bit occ b ≡ 1 → b < n
marked-lt n b {occ} f e = elim (Bool-cases (leb n b)) [
  | inl out ↦ absurd (ground (arith, f.within b (ground arith)))
  | inr inside ↦ ground arith
]

-- When the best level is cleared, `find_after` finds the best of the others.
pub find_after-IsBest :
    (bid : Bool) (d : Dims) (occ : Words) (b : ℕ)
    → IsSized d
    → Fits d.ladder_size occ
    → b < d.ladder_size
    → ((i : ℕ) → Beyond bid i b → level_bit occ i ≡ 0)
    → let cleared = LevelBitmap.clear b occ in IsBest bid cleared (find_after bid d cleared b)
unfolding find_after find_best
find_after-IsBest false d occ b sz f hb beyond =
    rw next (upward (next_up-IsLowest d.ladder_size (b + 1) (clear-Fits d.ladder_size b occ f)))
  where
    next : add32 b 1 ≡ b + 1
    next = omega arith

    below : (i : ℕ) → i < b + 1 → level_bit (LevelBitmap.clear b occ) i ≡ 0
    below i h = rw (bit-clear b i occ) (ground (arith, beyond i))

    upward :
        {r : ℕ}
        → ((r ≡ null_idx) × ((i : ℕ) → b + 1 ≤ i → level_bit (LevelBitmap.clear b occ) i ≡ 0))
          ⊎ ((level_bit (LevelBitmap.clear b occ) r ≡ 1)
              × (b + 1 ≤ r)
              × ((i : ℕ) → b + 1 ≤ i → i < r → level_bit (LevelBitmap.clear b occ) i ≡ 0))
        → IsBest false (LevelBitmap.clear b occ) r
    upward (inl (e, none)) = inl (
      e,
      λ i. elim (Bool-cases (ltb i (b + 1))) [
        | inl low ↦ below i (ground arith)
        | inr high ↦ none i (ground arith)
      ],
    )
    upward (inr (at, h, first)) = inr (
      at,
      λ i k. elim (Bool-cases (ltb i (b + 1))) [
        | inl low ↦ below i (ground arith)
        | inr high ↦ first i (ground arith) k
      ],
    )
find_after-IsBest true d occ b sz f hb beyond = elim (Bool-cases (ltb 0 b)) [
  | inl some_below ↦ rw some_below (
      downward
        (next_down-IsHighest d.ladder_size (b - 1) (clear-IsWords b f.words_64) (omega arith))
        (ground arith))
  | inr at_bottom ↦ rw at_bottom (inl (refl, λ i. above i (ground arith)))
]
  where
    above : (i : ℕ) → b ≤ i → level_bit (LevelBitmap.clear b occ) i ≡ 0
    above i h = rw (bit-clear b i occ) (ground (arith, beyond i))

    downward :
        {r : ℕ}
        → ((r ≡ null_idx) × ((i : ℕ) → i ≤ b - 1 → level_bit (LevelBitmap.clear b occ) i ≡ 0))
          ⊎ ((level_bit (LevelBitmap.clear b occ) r ≡ 1)
              × (r ≤ b - 1)
              × ((i : ℕ) → r < i → i ≤ b - 1 → level_bit (LevelBitmap.clear b occ) i ≡ 0))
        → 0 < b
        → IsBest true (LevelBitmap.clear b occ) r
    downward (inl (e, none)) p = inl (
      e,
      λ i. elim (Bool-cases (ltb i b)) [
        | inl low ↦ none i (ground arith)
        | inr high ↦ above i (ground arith)
      ],
    )
    downward (inr (at, h, first)) p = inr (
      at,
      λ i k. elim (Bool-cases (ltb i b)) [
        | inl low ↦ first i k (ground arith)
        | inr high ↦ above i (ground arith)
      ],
    )

-- After a walk over the best level, whose queue is now `q b`, `advance` restores the side.
pub advance-IsLadder :
    (bid : Bool) (d : Dims) (slots : ℕ → Order) (l : Ladder) (q : ℕ → List ℕ)
    → IsSized d
    → ((i : ℕ) → Represents slots (l.levels i) (q i))
    → Fits d.ladder_size l.occ
    → ((i : ℕ) → i ≢ l.best_idx → level_bit l.occ i ≡ (if is_nil (q i) then 0 else 1))
    → level_bit l.occ l.best_idx ≡ 1
    → ((i : ℕ) → Beyond bid i l.best_idx → level_bit l.occ i ≡ 0)
    → IsLadder bid d slots (advance bid d l) q
unfolding advance
advance-IsLadder bid d slots l q sz level fits marked at beyond = go (q l.best_idx) refl
  where
    go : (xs : List ℕ) → q l.best_idx ≡ xs → IsLadder bid d slots (advance bid d l) q
    go [] e =
        let gone : empty (l.levels l.best_idx) ≡ true =
          ground (arith, (rw e at (level l.best_idx)).chain.0) in
        rw gone (record {
          level = level;
          fits = clear-Fits d.ladder_size l.best_idx l.occ fits;
          marked =
              λ i. rw (bit-clear l.best_idx i l.occ) (ground (arith, marked i, e, ap is_nil e));
          best =
              find_after-IsBest bid d l.occ l.best_idx sz fits
                (marked-lt d.ladder_size l.best_idx fits at) beyond;
        })
    go (x ∷ xs) e =
        let here = rw e at (level l.best_idx) in
        let some_left : empty (l.levels l.best_idx) ≡ false =
          ground (arith, here.chain.0, here.chain.1) in
        rw some_left (record {
          level = level;
          fits = fits;
          marked = λ i. elim (Bool-cases (i == l.best_idx)) [
            | inl at_best ↦ let same : i ≡ l.best_idx = ground arith in rw (same, at, e) refl
            | inr off ↦ marked i (ground arith)
          ];
          best = inr (at, beyond);
        })
