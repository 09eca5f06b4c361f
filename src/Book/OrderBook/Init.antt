-- ===== src/Book/OrderBook/Init.antt =====
-- include/lx/book/order_book.hpp: a fresh book over a fresh arena.
use lite_exchange.Base.{ℕ, ◌%◌, ◌^◌, ◌<◌, refl, ℤ, Bool, true, false, [], arith, bit_at-zero, inl}
use lite_exchange.Book.Order.{Order}
use lite_exchange.Book.Pool
use lite_exchange.Book.Pool.Free.{init-IsPool}
use lite_exchange.Book.PriceLevel.Fifo.{init-Represents}
use lite_exchange.Book.Matching.{Dims}
use lite_exchange.Book.OrderBook.{own, empty_ladder, init}
use lite_exchange.Book.OrderBook.BestLevel.{IsLadder, IsSized}
use lite_exchange.Book.OrderBook.Invariant.{IsBook}

pub empty_ladder-IsLadder :
    (bid : Bool) (d : Dims) (slots : ℕ → Order) → IsLadder bid d slots empty_ladder (λ _. [])
empty_ladder-IsLadder bid d slots = record {
  level = λ i. init-Represents slots;
  fits = record { words_64 = λ i. omega arith; within = λ i h. bit_at-zero (i % 64) };
  marked = λ i. bit_at-zero (i % 64);
  best = inl (refl, λ i. bit_at-zero (i % 64));
}

-- A fresh book over a fresh arena is a well-formed book with no order.
pub init-IsBook :
    (d : Dims) (base_price tick_size : ℤ) (zero_order : Order) (owner : ℕ → ℕ)
    → IsSized d
    → zero_order.qty < 2 ^ 32
    → IsBook d
        (init base_price tick_size)
        (record { pool = Pool.init d.max_orders zero_order; order_session = owner })
        (λ _. false)
        (λ _ _. [])
unfolding init Pool.init
init-IsBook d base_price tick_size zero_order owner sized h = record {
  sized = sized;
  narrow = λ i. h;
  pool = init-IsPool d.max_orders zero_order;
  side = sides;
  members = λ bid. record { at = λ i. tt };
}
  where
    sides :
        (bid : Bool)
        → IsLadder bid d
            (λ _. zero_order)
            (own bid (record {
              base_price = base_price;
              tick_size = tick_size;
              bids = empty_ladder;
              asks = empty_ladder;
            }))
            (λ _. [])
    sides true = empty_ladder-IsLadder true d _
    sides false = empty_ladder-IsLadder false d _
