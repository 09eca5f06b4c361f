-- ===== src/Book/PriceLevel.antt =====
-- include/lx/book/price_level.hpp: the intrusive queue of one price level. `base` is the arena's
-- slot array; an operation returns the level and the array as it leaves them.
pub mod Chain
pub mod Links
pub mod Fifo
pub mod Front
pub mod Remove
use lite_exchange.Base.{ℕ, ◌==◌, Bool, if◌then◌else◌, update, add32, sub32}
use lite_exchange.Book.Order.{Order, null_idx}

pub record PriceLevel : Type 0 where
  pub head_idx : ℕ
  pub tail_idx : ℕ
  pub order_count : ℕ
  pub total_qty : ℕ

abbrev pub init : PriceLevel
init = record { head_idx = null_idx; tail_idx = null_idx; order_count = 0; total_qty = 0 }

abbrev pub empty : PriceLevel → Bool
empty l = l.head_idx == null_idx

abbrev pub set_next : (ℕ → Order) → ℕ → ℕ → ℕ → Order
set_next base i n = update base i (record (base i) { next_idx = n })

abbrev pub set_prev : (ℕ → Order) → ℕ → ℕ → ℕ → Order
set_prev base i p = update base i (record (base i) { prev_idx = p })

unfoldable pub push_back : PriceLevel → ℕ → (ℕ → Order) → PriceLevel × (ℕ → Order)
push_back l idx base =
    let base1 =
      update base idx (record (base idx) { prev_idx = l.tail_idx; next_idx = null_idx }) in
    let linked = l.tail_idx == null_idx in
    (
      record {
        head_idx = if linked then idx else l.head_idx;
        tail_idx = idx;
        order_count = add32 l.order_count 1;
        total_qty = add32 l.total_qty (base idx).qty;
      },
      if linked then base1 else set_next base1 l.tail_idx idx,
    )

-- The popped slot, the level and the array.
unfoldable pub pop_front : PriceLevel → (ℕ → Order) → ℕ × PriceLevel × (ℕ → Order)
pop_front l base =
    let idx = l.head_idx in
    let next = (base idx).next_idx in
    let last = next == null_idx in
    if l.head_idx == null_idx then (null_idx, l, base) else (
      idx,
      record {
        head_idx = next;
        tail_idx = if last then null_idx else l.tail_idx;
        order_count = sub32 l.order_count 1;
        total_qty = sub32 l.total_qty (base idx).qty;
      },
      if last then base else set_prev base next null_idx,
    )

-- `o` is a reference: `o.next_idx` is read again after the first write, which may have hit it.
unfoldable pub remove : PriceLevel → ℕ → (ℕ → Order) → PriceLevel × (ℕ → Order)
remove l idx base =
    let prev = (base idx).prev_idx in
    let first = prev == null_idx in
    let base1 = if first then base else set_next base prev (base idx).next_idx in
    let next = (base1 idx).next_idx in
    let last = next == null_idx in
    (
      record {
        head_idx = if first then (base idx).next_idx else l.head_idx;
        tail_idx = if last then (base1 idx).prev_idx else l.tail_idx;
        order_count = sub32 l.order_count 1;
        total_qty = sub32 l.total_qty (base idx).qty;
      },
      if last then base1 else set_prev base1 next (base1 idx).prev_idx,
    )
