-- ===== src/Book/OrderBook/Step.antt =====
-- One round of the inner loop of `match` in include/lx/book/order_book.hpp: the fill of an aggressor
-- against the oldest order of a level.
use lite_exchange.Base.{
  ℕ, ◌-◌, ◌^◌, ◌≤◌, ◌<◌, ◌≡◌, refl, sym, ◌∙◌, ◌≢◌, arith, sub32, List, [], ◌∷◌, Absent,
}
use lite_exchange.Book.Order.{Order, null_idx}
use lite_exchange.Book.PriceLevel.{PriceLevel}
use lite_exchange.Book.PriceLevel.Chain.{Chain, qty_sum}
use lite_exchange.Book.PriceLevel.Fifo.{IsNarrow, Represents}
use lite_exchange.Book.Matching.{set_qty}

-- The slots `slots` hold the orders of `base`, apart from quantities and links.
pub record SameOrders (base slots : ℕ → Order) : Type 0 where
  pub order_id : (i : ℕ) → (slots i).order_id ≡ (base i).order_id
  pub price : (i : ℕ) → (slots i).price ≡ (base i).price
  pub side : (i : ℕ) → (slots i).side ≡ (base i).side
  pub symbol : (i : ℕ) → (slots i).symbol ≡ (base i).symbol

Chain-links :
    (base slots : ℕ → Order) (prev h t : ℕ) (xs : List ℕ)
    → ((i : ℕ) → (slots i).next_idx ≡ (base i).next_idx)
    → ((i : ℕ) → (slots i).prev_idx ≡ (base i).prev_idx)
    → Chain base prev h t xs
    → Chain slots prev h t xs
Chain-links base slots prev h t [] n p c = c
Chain-links base slots prev h t (x ∷ xs) n p c =
    (c.0, c.1, p x ∙ c.2, rw (n x) (Chain-links base slots x (base x).next_idx t xs n p c.3))

qty_sum-off :
    (base slots : ℕ → Order) (x y : ℕ) (xs : List ℕ)
    → ((i : ℕ) → i ≢ x → i ≢ y → (slots i).qty ≡ (base i).qty)
    → Absent x xs
    → Absent y xs
    → qty_sum slots xs ≡ qty_sum base xs
qty_sum-off base slots x y [] h ax ay = refl
qty_sum-off base slots x y (z ∷ xs) h ax ay =
    omega (
      arith,
      h z (λ e. ax.0 (sym e)) (λ e. ay.0 (sym e)),
      qty_sum-off base slots x y xs h ax.1 ay.1,
    )

-- The slots after both quantities are lowered by `f`.
abbrev pub filled : (ℕ → Order) → ℕ → ℕ → ℕ → ℕ → Order
filled slots agg x f =
    let slots1 = set_qty slots agg (sub32 (slots agg).qty f) in
    set_qty slots1 x (sub32 (slots1 x).qty f)

abbrev pub lowered : PriceLevel → ℕ → PriceLevel
lowered level f = record level { total_qty = sub32 level.total_qty f }

module _ (slots : ℕ → Order) (agg x f : ℕ) (ne : agg ≢ x) where
  pub filled-agg :
      f ≤ (slots agg).qty
      → (slots agg).qty < 2 ^ 32
      → (filled slots agg x f agg).qty ≡ (slots agg).qty - f
  filled-agg h n = ground arith

  pub filled-head :
      f ≤ (slots x).qty → (slots x).qty < 2 ^ 32 → (filled slots agg x f x).qty ≡ (slots x).qty - f
  filled-head h n = ground arith

  pub filled-other : (i : ℕ) → i ≢ agg → i ≢ x → (filled slots agg x f i).qty ≡ (slots i).qty
  filled-other i p q = ground arith

  pub filled-next : (i : ℕ) → (filled slots agg x f i).next_idx ≡ (slots i).next_idx
  filled-next i = ground arith

  pub filled-prev : (i : ℕ) → (filled slots agg x f i).prev_idx ≡ (slots i).prev_idx
  filled-prev i = ground arith

  pub filled-SameOrders : SameOrders slots (filled slots agg x f)
  filled-SameOrders = record {
    order_id = λ i. ground arith;
    price = λ i. ground arith;
    side = λ i. ground arith;
    symbol = λ i. ground arith;
  }

  pub filled-IsNarrow : IsNarrow slots → IsNarrow (filled slots agg x f)
  filled-IsNarrow h i = ground (arith, h i)

  pub filled-Represents :
      {level : PriceLevel} (xs : List ℕ)
      → f ≤ (slots x).qty
      → f ≤ (slots agg).qty
      → IsNarrow slots
      → Absent agg xs
      → Represents slots level (x ∷ xs)
      → Represents (filled slots agg x f) (lowered level f) (x ∷ xs)
  filled-Represents {level} xs fx fa n a r = record {
    chain =
        Chain-links slots (filled slots agg x f) null_idx level.head_idx level.tail_idx (x ∷ xs)
          filled-next filled-prev r.chain;
    distinct = r.distinct;
    counted = r.counted;
    quantity = ground (
      arith,
      r.quantity,
      n x,
      filled-head fx (n x),
      qty_sum-off slots (filled slots agg x f) x agg xs (λ i p q. filled-other i q p) r.distinct.0
          a,
    );
  }
