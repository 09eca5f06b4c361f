-- ===== src/Book/OrderBook/Uncrossed.antt =====
-- `add_order` of include/lx/book/order_book.hpp does not leave a crossed book where its match ran to the
-- end.
use lite_exchange.Base.{ℕ, ◌+◌, ◌*◌, ◌≤◌, ◌<◌, Bool, true, false}
use lite_exchange.Book.OrderHandle.{OrderHandle}
use lite_exchange.Book.OrderBook.{Book}

-- A side whose best level is `best` and an order of the other side `n` above the base price, where a tick is `t`:
-- the level of asks starts above the order's price, or that of bids ends at or below it.
abbrev pub Apart : Bool → ℕ → ℕ → ℕ → Type 0
Apart true t best n = (best + 1) * t ≤ n
Apart false t best n = n < best * t
