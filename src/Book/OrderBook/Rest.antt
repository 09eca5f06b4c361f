-- ===== src/Book/OrderBook/Rest.antt =====
-- `add_order` of include/lx/book/order_book.hpp puts the remainder of an order at the end of its level.
use lite_exchange.Base.{
  ℕ, ◌<◌, ◌≡◌, refl, sym, ◌∙◌, ◌≢◌, Bool, true, false, ◌||◌, ◌==◌, ltb, if◌then◌else◌, arith, List,
  [], ◌∷◌, ◌++◌, update, ==_iff, All, Absent, Bool-cases, inl, inr, Absent-All, All-zip,
}
use lite_exchange.Book.Order.{Order, null_idx}
use lite_exchange.Book.PriceLevel.{PriceLevel, push_back}
use lite_exchange.Book.PriceLevel.Chain.{tail-ne}
use lite_exchange.Book.PriceLevel.Fifo.{Represents, push_back-Represents}
use lite_exchange.Book.LevelBitmap
use lite_exchange.Book.LevelBitmap.{Words}
use lite_exchange.Book.LevelBitmap.Bits.{level_bit, bit-set}
use lite_exchange.Book.Matching.{Dims, Ladder}
use lite_exchange.Book.OrderBook.{rest_order}
use lite_exchange.Book.OrderBook.BestLevel.{
  IsLadder, IsSized, IsBest, Beyond, is_nil, set-Fits, marked-lt,
}
use lite_exchange.Book.OrderBook.Match.{Represents-frame}

-- The slots `slots` hold the orders of `base`, apart from their links.
pub record Relinks (base slots : ℕ → Order) : Type 0 where
  pub order_id : (i : ℕ) → (slots i).order_id ≡ (base i).order_id
  pub price : (i : ℕ) → (slots i).price ≡ (base i).price
  pub side : (i : ℕ) → (slots i).side ≡ (base i).side
  pub qty : (i : ℕ) → (slots i).qty ≡ (base i).qty
  pub symbol : (i : ℕ) → (slots i).symbol ≡ (base i).symbol

pub push_back-Relinks :
    (slots : ℕ → Order) (l : PriceLevel) (idx : ℕ) → Relinks slots (push_back l idx slots).1
unfolding push_back
push_back-Relinks slots l idx = record {
  order_id = λ i. ground arith;
  price = λ i. ground arith;
  side = λ i. ground arith;
  qty = λ i. ground arith;
  symbol = λ i. ground arith;
}

push_back-off :
    (slots : ℕ → Order) (l : PriceLevel) (idx i : ℕ)
    → i ≢ idx
    → (l.tail_idx ≢ null_idx → i ≢ l.tail_idx)
    → (push_back l idx slots).1 i ≡ slots i
unfolding push_back
push_back-off slots l idx i p k = ground arith

-- `push_back` writes to the slot and to the last order of the queue alone.
pub push_back-frame :
    {slots : ℕ → Order} {l : PriceLevel} (xs : List ℕ) (idx i : ℕ)
    → Represents slots l xs
    → i ≢ idx
    → Absent i xs
    → (push_back l idx slots).1 i ≡ slots i
push_back-frame {slots} {l} xs idx i r p a = push_back-off slots l idx i p (λ n.
    elim (Bool-cases (i == null_idx)) [
      | inl null ↦ λ e. n (sym e ∙ (==_iff i null_idx).0 null)
      | inr some ↦ tail-ne slots null_idx l.head_idx l.tail_idx i xs r.chain a (λ z. ground arith)
    ])

nonempty_last : (xs : List ℕ) (x : ℕ) → is_nil (xs ++ x ∷ []) ≡ false
nonempty_last [] x = refl
nonempty_last (y ∷ ys) x = refl

-- The best index after level `u` is marked.
abbrev better_of : Bool → ℕ → ℕ → ℕ
better_of bid u best =
    if (best == null_idx) || (if bid then ltb best u else ltb u best) then u else best

IsBest-is_new :
    (bid : Bool) (occ : Words) (u : ℕ)
    → ((i : ℕ) → Beyond bid i u → level_bit occ i ≡ 0)
    → IsBest bid (LevelBitmap.set u occ) u
IsBest-is_new bid occ u none =
    inr (bit-set u u occ ∙ ground arith, λ i h. rw (bit-set u i occ) (not_u bid i h (none i h)))
  where
    not_u :
        (c : Bool) (i : ℕ)
        → Beyond c i u
        → level_bit occ i ≡ 0
        → (if i == u then 1 else level_bit occ i) ≡ 0
    not_u true i h e = ground arith
    not_u false i h e = ground arith

Beyond-trans :
    (bid : Bool) (i u b : ℕ)
    → Beyond bid i u
    → (if bid then ltb b u else ltb u b) ≡ true
    → Beyond bid i b
Beyond-trans true i u b h e = ground arith
Beyond-trans false i u b h e = ground arith

Beyond-ne :
    (bid : Bool) (i u b : ℕ) → Beyond bid i b → (if bid then ltb b u else ltb u b) ≡ false → i ≢ u
Beyond-ne true i u b h e = ground arith
Beyond-ne false i u b h e = ground arith

set-IsBest :
    (bid : Bool) (occ : Words) (u best : ℕ)
    → IsBest bid occ best
    → (level_bit occ best ≡ 1 → best ≢ null_idx)
    → IsBest bid (LevelBitmap.set u occ) (better_of bid u best)
set-IsBest bid occ u best (inl (e, none)) n = rw e (IsBest-is_new bid occ u (λ i h. none i))
set-IsBest bid occ u best (inr (at, beyond)) n =
    elim (Bool-cases (if bid then ltb best u else ltb u best)) [
      | inl up ↦
          let chosen : better_of bid u best ≡ u = ground arith in
          rw chosen (IsBest-is_new bid occ u (λ i h. beyond i (Beyond-trans bid i u best h up)))
      | inr stay ↦
          let chosen : better_of bid u best ≡ best = ground (arith, n at) in
          rw chosen (
            inr (
              rw (bit-set u best occ) (ground (arith, at)),
              λ i h.
                  rw (bit-set u i occ) (ground (arith, beyond i h, Beyond-ne bid i u best h stay)),
            ))
    ]

-- The side after an order rests on it.
pub rest_order-IsLadder :
    (bid : Bool) (d : Dims) {slots : ℕ → Order} {l : Ladder} {q : ℕ → List ℕ} (uidx slot : ℕ)
    → IsSized d
    → IsLadder bid d slots l q
    → uidx < d.ladder_size
    → slot ≢ null_idx
    → ((i : ℕ) → Absent slot (q i))
    → ((i j : ℕ) → i ≢ j → All (λ x. Absent x (q j)) (q i))
    → let (l', slots') = rest_order bid uidx slot l slots in
      IsLadder bid d slots' l' (update q uidx (q uidx ++ slot ∷ []))
unfolding rest_order
rest_order-IsLadder bid d {slots} {l} {q} uidx slot sized v h n fresh apart = record {
  level = λ i. elim (Bool-cases (i == uidx)) [
    | inl here ↦ rw here (push_back-Represents slot (q uidx) (v.level uidx) (fresh uidx) n)
    | inr off ↦ rw off (
        Represents-frame slots _ (l.levels i) (q i)
          (All-zip (q i) (λ x p a. push_back-frame (q uidx) slot x (v.level uidx) p a)
            (Absent-All slot (q i) (fresh i)) (apart i uidx (λ z. ground arith)))
          (v.level i))
  ];
  fits = set-Fits d.ladder_size uidx l.occ h v.fits;
  marked = λ i. rw (bit-set uidx i l.occ) (elim (Bool-cases (i == uidx)) [
    | inl here ↦ rw (here, nonempty_last (q uidx) slot) refl
    | inr off ↦ rw off (v.marked i)
  ]);
  best =
      set-IsBest bid l.occ uidx l.best_idx v.best
        (λ at z. ground (arith, marked-lt d.ladder_size l.best_idx v.fits at, sized.0));
}
