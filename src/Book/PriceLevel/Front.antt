-- ===== src/Book/PriceLevel/Front.antt =====
-- `pop_front` of include/lx/book/price_level.hpp as the removal of the oldest slot of the queue.
use lite_exchange.Base.{ℕ, ◌%◌, ◌^◌, ◌≡◌, refl, ◌≢◌, List, ◌∷◌, Absent, ◌==◌, if◌then◌else◌, arith}
use lite_exchange.Book.Order.{Order, null_idx}
use lite_exchange.Book.PriceLevel.{PriceLevel, pop_front}
use lite_exchange.Book.PriceLevel.Chain.{qty_sum, qty_sum-same, Chain-null}
use lite_exchange.Book.PriceLevel.Links.{Joined, Chain-tail}
use lite_exchange.Book.PriceLevel.Fifo.{IsNarrow, Represents}

pop_front-Joined :
    (slots : ℕ → Order) (l : PriceLevel)
    → l.head_idx ≢ null_idx
    → Joined slots (pop_front l slots).2 null_idx (slots l.head_idx).next_idx
unfolding pop_front
pop_front-Joined slots l n = record {
  next_p = λ e. absurd (e refl);
  prev_n = λ e. ground arith;
  others = record {
    next_same = λ i p. ground arith;
    prev_same = λ i p. ground arith;
    qty_same = λ i. ground arith;
  };
}

-- `pop_front` returns the oldest slot and leaves the queue of the others.
pub pop_front-Represents :
    {slots : ℕ → Order} {l : PriceLevel} (x : ℕ) (xs : List ℕ)
    → IsNarrow slots
    → Represents slots l (x ∷ xs)
    → let (idx, l', slots') = pop_front l slots in (idx ≡ x) × Represents slots' l' xs
pop_front-Represents {slots} {l} x xs narrow r = (
  unfold pop_front in ground arith,
  record {
    chain =
        rw (head, tail)
          (Chain-tail l.head_idx l.tail_idx x xs joined refl absent.1 r.distinct r.chain);
    distinct = r.distinct.1;
    counted = unfold pop_front in ground (arith, r.counted);
    quantity = sums;
  },
)
  where
    at : l.head_idx ≡ x
    at = r.chain.0

    some_head : l.head_idx ≢ null_idx
    some_head = ground (arith, r.chain.1)

    absent : Absent null_idx (x ∷ xs)
    absent = Chain-null slots null_idx l.head_idx l.tail_idx (x ∷ xs) r.chain

    joined : Joined slots (pop_front l slots).2 null_idx (slots x).next_idx
    joined = rw (← at) (pop_front-Joined slots l some_head)

    head : (pop_front l slots).1.head_idx ≡ (slots x).next_idx
    head = unfold pop_front in ground (arith, at, some_head)

    tail :
        (pop_front l slots).1.tail_idx
        ≡ (if (slots x).next_idx == null_idx then null_idx else l.tail_idx)
    tail = unfold pop_front in ground (arith, at, some_head)

    sums : (pop_front l slots).1.total_qty ≡ qty_sum (pop_front l slots).2 xs % 2 ^ 32
    sums =
        rw
          (qty_sum-same slots (pop_front l slots).2 xs
            (pop_front-Joined slots l some_head).others.qty_same)
          (unfold pop_front in ground (arith, at, some_head, r.quantity, narrow x))

-- `pop_front` changes the backward link of the next slot only.
pub record Popped (base slots : ℕ → Order) (n : ℕ) : Type 0 where
  pub order_id : (i : ℕ) → (slots i).order_id ≡ (base i).order_id
  pub price : (i : ℕ) → (slots i).price ≡ (base i).price
  pub side : (i : ℕ) → (slots i).side ≡ (base i).side
  pub symbol : (i : ℕ) → (slots i).symbol ≡ (base i).symbol
  pub qty : (i : ℕ) → (slots i).qty ≡ (base i).qty
  pub others : (i : ℕ) → (n ≢ null_idx → i ≢ n) → slots i ≡ base i

pub pop_front-Popped :
    (slots : ℕ → Order) (l : PriceLevel)
    → Popped slots (pop_front l slots).2 (slots l.head_idx).next_idx
unfolding pop_front
pop_front-Popped slots l = record {
  order_id = λ i. ground arith;
  price = λ i. ground arith;
  side = λ i. ground arith;
  symbol = λ i. ground arith;
  qty = λ i. ground arith;
  others = λ i p. ground arith;
}
