-- ===== src/Book/Order.antt =====
-- include/lx/book/order.hpp: an order of the arena. Links are slots of the same arena.
use lite_exchange.Base.{ℕ, ℤ, uint32_max}
use lite_exchange.Proto.Messages.{Side, TimeInForce}

abbrev pub null_idx : ℕ
null_idx = uint32_max

pub record Order : Type 0 where
  pub order_id : ℕ
  pub price : ℤ
  pub qty : ℕ
  pub next_idx : ℕ
  pub prev_idx : ℕ
  pub symbol : ℕ
  pub side : Side
  pub tif : TimeInForce
