-- ===== src/Book/OrderBook/Unlink.antt =====
-- `cancel_order` of include/lx/book/order_book.hpp on the side of its order.
use lite_exchange.Base.{
  ℕ, ◌-◌, ◌≡◌, refl, ◌∙◌, ap, ◌≢◌, Bool, true, false, ◌==◌, leb, ltb, if◌then◌else◌, arith, List,
  [], ◌∷◌, ◌++◌, update, update_self, All, Absent, Bool-cases, inl, inr, add32, Absent-append_left,
  Absent-append_right,
}
use lite_exchange.Book.Order.{Order, null_idx}
use lite_exchange.Book.PriceLevel.{PriceLevel, remove, empty}
use lite_exchange.Book.PriceLevel.Chain.{Chain, before-ne, head-ne}
use lite_exchange.Book.PriceLevel.Fifo.{IsNarrow, Represents}
use lite_exchange.Book.PriceLevel.Remove.{remove-Represents, not_self}
use lite_exchange.Book.LevelBitmap
use lite_exchange.Book.LevelBitmap.{Words, next_down}
use lite_exchange.Book.LevelBitmap.Bits.{level_bit, bit-clear}
use lite_exchange.Book.Matching.{Dims, Ladder, find_best, find_after}
use lite_exchange.Book.OrderBook.{unlink}
use lite_exchange.Book.OrderBook.BestLevel.{
  IsLadder, IsSized, IsBest, Beyond, is_nil, clear-Fits, marked-lt, find_after-IsBest,
}
use lite_exchange.Book.OrderBook.Match.{Represents-frame}
use lite_exchange.Book.OrderBook.Rest.{Relinks}

pub remove-Relinks :
    (slots : ℕ → Order) (l : PriceLevel) (idx : ℕ) → Relinks slots (remove l idx slots).1
unfolding remove
remove-Relinks slots l idx = record {
  order_id = λ i. ground arith;
  price = λ i. ground arith;
  side = λ i. ground arith;
  qty = λ i. ground arith;
  symbol = λ i. ground arith;
}

remove-off :
    (slots : ℕ → Order) (l : PriceLevel) (x i : ℕ)
    → x ≢ (slots x).prev_idx
    → i ≢ (slots x).prev_idx
    → ((slots x).next_idx ≢ null_idx → i ≢ (slots x).next_idx)
    → (remove l x slots).1 i ≡ slots i
unfolding remove
remove-off slots l x i n p k = ground arith

next-ne :
    (slots : ℕ → Order) (prev h t y x : ℕ) (xs ys : List ℕ)
    → Chain slots prev h t (xs ++ x ∷ ys)
    → Absent y ys
    → y ≢ null_idx
    → y ≢ (slots x).next_idx
next-ne slots prev h t y x [] ys c a n = head-ne slots x (slots x).next_idx t y ys c.3 a n
next-ne slots prev h t y x (z ∷ xs) ys c a n =
    next-ne slots z (slots z).next_idx t y x xs ys c.3 a n

-- `remove` writes to the neighbours of the slot alone.
pub remove-frame :
    {slots : ℕ → Order} {l : PriceLevel} (x : ℕ) (xs ys : List ℕ) (i : ℕ)
    → Represents slots l (xs ++ x ∷ ys)
    → i ≢ null_idx
    → Absent i (xs ++ x ∷ ys)
    → (remove l x slots).1 i ≡ slots i
remove-frame {slots} {l} x xs ys i r n a =
    remove-off slots l x i (not_self x xs ys r)
      (before-ne slots null_idx l.head_idx l.tail_idx i x xs ys r.chain
        (Absent-append_left i xs (x ∷ ys) a) n)
      (λ z.
        next-ne slots null_idx l.head_idx l.tail_idx i x xs ys r.chain
          (Absent-append_right i xs (x ∷ ys) a).1 n)

-- The search of `cancel_order` is that of `match`.
search-same :
    (bid : Bool) (d : Dims) (occ : Words) (u : ℕ)
    → IsSized d
    → find_best bid d occ (if bid then (if ltb 0 u then u - 1 else null_idx) else add32 u 1)
      ≡ find_after bid d occ u
unfolding find_best find_after next_down
search-same false d occ u z = refl
search-same true d occ u z = elim (Bool-cases (ltb 0 u)) [
  | inl up ↦ rw up refl
  | inr bottom ↦
      let out : leb d.ladder_size null_idx ≡ true = ground (arith, z.0) in rw (bottom, out) refl
]

-- The best level where level `u` is cleared.
clear-IsBest :
    (bid : Bool) (d : Dims) (occ : Words) (u best : ℕ)
    → IsBest bid occ best
    → best ≢ u
    → IsBest bid (LevelBitmap.clear u occ) best
clear-IsBest bid d occ u best (inl (e, none)) ne =
    inl (e, λ i. rw (bit-clear u i occ) (ground (arith, none i)))
clear-IsBest bid d occ u best (inr (at, beyond)) ne = inr (
  rw (bit-clear u best occ) (ground (arith, at)),
  λ i h. rw (bit-clear u i occ) (ground (arith, beyond i h)),
)

module _ (bid : Bool) (d : Dims) {slots : ℕ → Order} {l : Ladder} {q : ℕ → List ℕ} (u x : ℕ)
    (xs ys : List ℕ) (sized : IsSized d) (narrow : IsNarrow slots) (v : IsLadder bid d slots l q)
    (here : q u ≡ xs ++ x ∷ ys) where
  level_u : Represents slots (l.levels u) (xs ++ x ∷ ys)
  level_u = rw here at (v.level u)

  removed_u : Represents (remove (l.levels u) x slots).1 (remove (l.levels u) x slots).0 (xs ++ ys)
  removed_u = remove-Represents x xs ys narrow level_u

  some_marked : level_bit l.occ u ≡ 1
  some_marked = v.marked u ∙ rw (here, not_nil xs) refl
    where
      not_nil : (xs : List ℕ) → is_nil (xs ++ x ∷ ys) ≡ false
      not_nil [] = refl
      not_nil (z ∷ zs) = refl

  levels_after :
      ((i : ℕ) → i ≢ u → All (λ y. (remove (l.levels u) x slots).1 y ≡ slots y) (q i))
      → (i : ℕ)
      → Represents
          (remove (l.levels u) x slots).1
          (update l.levels u (remove (l.levels u) x slots).0 i)
          (update q u (xs ++ ys) i)
  levels_after frame i = elim (Bool-cases (i == u)) [
    | inl at ↦ rw at removed_u
    | inr off ↦
        rw off
          (Represents-frame slots _ (l.levels i) (q i) (frame i (λ z. ground arith)) (v.level i))
  ]

  pub unlink-IsLadder :
      ((i : ℕ) → i ≢ u → All (λ y. (remove (l.levels u) x slots).1 y ≡ slots y) (q i))
      → let (l', slots') = unlink bid d u x l slots in
        IsLadder bid d slots' l' (update q u (xs ++ ys))
  unfolding unlink
  unlink-IsLadder frame = go (xs ++ ys) refl
    where
      go :
          (zs : List ℕ)
          → xs ++ ys ≡ zs
          → IsLadder bid d
              (unlink bid d u x l slots).1
              (unlink bid d u x l slots).0
              (update q u (xs ++ ys))
      go [] e =
          let gone : empty (remove (l.levels u) x slots).0 ≡ true =
            ground (arith, (rw e at removed_u).chain.0) in
          rw gone (record {
            level = levels_after frame;
            fits = clear-Fits d.ladder_size u l.occ v.fits;
            marked = λ i. rw (bit-clear u i l.occ) (ground (arith, v.marked i, e, ap is_nil e));
            best = elim (Bool-cases (l.best_idx == u)) [
              | inl best ↦
                  rw (best, search-same bid d (LevelBitmap.clear u l.occ) u sized)
                    (find_after-IsBest bid d l.occ u sized v.fits
                      (marked-lt d.ladder_size u v.fits some_marked)
                      (beyond_u v.best (ground arith)))
              | inr other ↦
                  rw other (clear-IsBest bid d l.occ u l.best_idx v.best (λ z. ground arith))
            ];
          })
        where
          beyond_u :
              IsBest bid l.occ l.best_idx
              → l.best_idx ≡ u
              → (i : ℕ) → Beyond bid i u
              → level_bit l.occ i ≡ 0
          beyond_u (inl (k, none)) b i h = none i
          beyond_u (inr (at, beyond)) b i h = beyond i (rw b h)
      go (z ∷ zs) e =
          let removed = rw e at removed_u in
          let left : empty (remove (l.levels u) x slots).0 ≡ false =
            ground (arith, removed.chain.0, removed.chain.1) in
          rw left (record {
            level = levels_after frame;
            fits = v.fits;
            marked = λ i. elim (Bool-cases (i == u)) [
              | inl at ↦
                  let same : i ≡ u = ground arith in
                  rw (same, some_marked, update_self q u (xs ++ ys), e) refl
              | inr off ↦ rw off (v.marked i)
            ];
            best = v.best;
          })
