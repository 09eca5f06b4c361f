-- ===== src/Book/OrderBook/Touches.antt =====
-- include/lx/book/order_book.hpp: what an operation of a book does to the arena that it shares with the
-- other books of its shard.
use lite_exchange.Base.{ℕ, ◌<◌, ◌≡◌, ◌⊎◌, Bool, true, List, Absent, Present}
use lite_exchange.Book.Order.{Order}
use lite_exchange.Book.Pool.Ages.{Older}

-- From the slots `base`, their generations `gen`, those in use `live` and the book's queues `q` to `slots`,
-- `gen'`, `live'` and `q'`, where the orders that come to the book are of `symbol`.
pub record Touches (n symbol : ℕ) (base slots : ℕ → Order) (gen gen' : ℕ → ℕ)
    (live live' : ℕ → Bool) (q q' : Bool → ℕ → List ℕ) : Type 0 where
  -- The orders of other books stay as they are.
  pub elsewhere :
      (x : ℕ)
      → x < n
      → live x ≡ true
      → ((bid : Bool) (i : ℕ) → Absent x (q bid i))
      → (slots x ≡ base x) × (live' x ≡ true)
  -- No order of another symbol comes to a queue.
  pub only :
      (x : ℕ) (bid : Bool) (i : ℕ)
      → Present x (q' bid i)
      → ((slots x).symbol ≡ symbol) ⊎ (((slots x).symbol ≡ (base x).symbol) × Present x (q bid i))
  -- A slot that is in use is in a queue, or was in use and is in the queues where it was.
  pub kept :
      (x : ℕ)
      → live' x ≡ true
      → ((bid : Bool) × (i : ℕ) × Present x (q' bid i))
        ⊎ ((live x ≡ true) × ((bid : Bool) (i : ℕ) → Present x (q bid i) → Present x (q' bid i)))
  -- No slot is freed but that its generation goes on.
  pub ages : (x : ℕ) → Older (live x) (live' x) (gen x) (gen' x)
