-- ===== src/Book/OrderBook.antt =====
-- include/lx/book/order_book.hpp: the order book over a borrowed arena; `Book/Matching` has its sides and
-- `match`.
pub mod Step
pub mod FillOne
pub mod Sweep
pub mod Level
pub mod LevelLoop
pub mod BestLevel
pub mod Path
pub mod Match
pub mod MatchDone
pub mod Rounds
pub mod MatchLoop
pub mod Rest
pub mod Invariant
pub mod Admit
pub mod Matched
pub mod Rested
pub mod Standing
pub mod Settle
pub mod AddOrder
pub mod Unlink
pub mod Cancel
pub mod Init
pub mod Fills
pub mod Uncrossed
pub mod Examples
pub mod FillRound
pub mod RoundQueues
pub mod RoundWalks
pub mod RoundJoins
pub mod LoopSteps
pub mod AddDone
pub mod MatchExamples
pub mod Forged
pub mod Prices
pub mod Touches
pub mod CancelTouches
use lite_exchange.Base.{
  ℕ, zero, suc, ◌-◌, ◌*◌, ◌^◌, ℤ, pos, ◌+ℤ◌, ◌-ℤ◌, ◌*ℤ◌, quot, wrap32, int64_min, int64_max, Bool,
  true, false, not, ◌&&◌, ◌||◌, ltb, leb, ◌==◌, if◌then◌else◌, min, List, [], ◌∷◌, ◌++◌, length,
  update, add32, sub32,
}
use lite_exchange.Proto.Messages.{NewOrder, Fill, MsgType, is_buy, is_ioc}
use lite_exchange.Book.Order.{Order, null_idx}
use lite_exchange.Book.Pool.{Pool, alloc, free, invalid_idx, with_slots}
use lite_exchange.Book.PriceLevel.{PriceLevel, empty, push_back, pop_front, remove}
use lite_exchange.Book.PriceLevel
use lite_exchange.Book.LevelBitmap
use lite_exchange.Book.LevelBitmap.{Words, next_up, next_down}
use lite_exchange.Book.OrderHandle.{OrderHandle, none_handle, from_token}
use lite_exchange.Book.Matching.{
  Dims, Ladder, Arena, find_best, Matching, with_pool, Flow, match_loop, match_fuel, finished,
}

pub record Book : Type 0 where
  pub base_price : ℤ
  pub tick_size : ℤ
  pub bids : Ladder
  pub asks : Ladder

abbrev pub empty_ladder : Ladder
empty_ladder = record { best_idx = null_idx; levels = λ _. PriceLevel.init; occ = λ _. 0 }

unfoldable pub init : ℤ → ℤ → Book
init base_price tick_size = record {
  base_price = base_price;
  tick_size = tick_size;
  bids = empty_ladder;
  asks = empty_ladder;
}

-- The 32-bit pattern of `price_to_idx`; the code reads it as signed and as unsigned. The difference
-- of two prices is taken as an integer: the language gives its overflow no meaning.
unfoldable pub price_to_idx : Book → ℤ → ℕ
price_to_idx b price = wrap32 (quot (price -ℤ b.base_price) b.tick_size)

-- idx < 0 || uidx >= LADDER_SIZE
abbrev pub off_ladder : Dims → ℕ → Bool
off_ladder d uidx = leb (2 ^ 31) uidx || leb d.ladder_size uidx

unfoldable pub best_bid_price : Book → ℤ
best_bid_price b =
    if b.bids.best_idx == null_idx
    then int64_min
    else b.base_price +ℤ pos b.bids.best_idx *ℤ b.tick_size

unfoldable pub best_ask_price : Book → ℤ
best_ask_price b =
    if b.asks.best_idx == null_idx
    then int64_max
    else b.base_price +ℤ pos b.asks.best_idx *ℤ b.tick_size

-- Resting at level `uidx` of the own side.
unfoldable pub rest_order : Bool → ℕ → ℕ → Ladder → (ℕ → Order) → Ladder × (ℕ → Order)
rest_order bid uidx slot l slots =
    let (level, slots') = push_back (l.levels uidx) slot slots in
    let better = if bid then ltb l.best_idx uidx else ltb uidx l.best_idx in
    (
      record {
        levels = update l.levels uidx level;
        occ = LevelBitmap.set uidx l.occ;
        best_idx = if (l.best_idx == null_idx) || better then uidx else l.best_idx;
      },
      slots',
    )

abbrev pub own : Bool → Book → Ladder
own true b = b.bids
own false b = b.asks

abbrev pub with_own : Bool → Ladder → Book → Book
with_own true l b = record b { bids = l }
with_own false l b = record b { asks = l }

-- The order as `add_order` writes it into its slot.
abbrev pub order_of : NewOrder → Order
order_of msg = record {
  order_id = msg.order_id;
  price = msg.price;
  qty = msg.qty;
  next_idx = null_idx;
  prev_idx = null_idx;
  symbol = msg.symbol_id;
  side = msg.side;
  tif = msg.tif;
}

-- What `add_order` leaves: its handle, the fills (with `fill_count` their number), the book and the
-- arena. `flow` tells how the match ended.
pub record Added : Type 0 where
  pub handle : OrderHandle
  pub fills : List Fill
  pub book : Book
  pub arena : Arena
  pub flow : Flow

-- After the match of a `bid`: the remainder rests, or the slot is freed.
unfoldable pub settle : Bool → NewOrder → ℕ → ℕ → Book → Flow × Matching → Added
settle bid msg slot uidx b (flow, m) =
    let matched = with_own (not bid) m.passive b in
    let p = m.arena.pool in
    let (ladder, slots) = rest_order bid uidx slot (own bid matched) p.slots in
    if ltb 0 (p.slots slot).qty && not (is_ioc msg.tif)
    then record {
      handle = record { slot = slot; gen = p.gen slot };
      fills = m.fills;
      book = with_own bid ladder matched;
      arena = with_pool m.arena (with_slots slots p);
      flow = flow;
    }
    else record {
      handle = none_handle;
      fills = m.fills;
      book = matched;
      arena = with_pool m.arena (free slot p);
      flow = flow;
    }

-- The slot is written, and the order is matched against the other side.
unfoldable pub admit : Dims → ℕ → NewOrder → ℕ → ℕ → Book → Arena → Added
admit d max_fills msg slot uidx b a =
    let bid = is_buy msg.side in
    let m : Matching = record {
      passive = own (not bid) b;
      arena = record {
        pool = with_slots (update a.pool.slots slot (order_of msg)) a.pool;
        order_session = update a.order_session slot msg.hdr.session_id;
      };
      fills = [];
    } in
    settle bid msg slot uidx b (match_loop (match_fuel d) (not bid) d max_fills slot uidx m)

abbrev refused : List Fill → Book → Arena → Added
refused fills b a = record {
  handle = none_handle;
  fills = fills;
  book = b;
  arena = a;
  flow = finished;
}

-- `fills` is what the caller's buffer holds: the early returns leave it.
unfoldable pub add_order : Dims → ℕ → NewOrder → List Fill → Book → Arena → Added
add_order d max_fills msg fills b a =
    let uidx = price_to_idx b msg.price in
    let (slot, pool) = alloc a.pool in
    if off_ladder d uidx
    then refused fills b a
    else if slot == invalid_idx
    then refused fills b (with_pool a pool)
    else admit d max_fills msg slot uidx b (with_pool a pool)

-- `cancel_order` on the side of its order: `level.remove`, and the best price where the level is gone.
unfoldable pub unlink : Bool → Dims → ℕ → ℕ → Ladder → (ℕ → Order) → Ladder × (ℕ → Order)
unlink bid d uidx slot l slots =
    let (level, slots') = remove (l.levels uidx) slot slots in
    let occ = LevelBitmap.clear uidx l.occ in
    let from = if bid then (if ltb 0 uidx then uidx - 1 else null_idx) else add32 uidx 1 in
    let l' = record l { levels = update l.levels uidx level } in
    (
      if empty level
          then record l' {
            occ = occ;
            best_idx = if l.best_idx == uidx then find_best bid d occ from else l.best_idx;
          }
          else l',
      slots',
    )

unfoldable pub cancel_order : Dims → OrderHandle → Book → Arena → Bool × Book × Arena
cancel_order d h b a =
    let o = a.pool.slots h.slot in
    let bid = is_buy o.side in
    let (ladder, slots) = unlink bid d (price_to_idx b o.price) h.slot (own bid b) a.pool.slots in
    if leb d.max_orders h.slot || not (a.pool.gen h.slot == h.gen)
    then (false, b, a)
    else (true, with_own bid ladder b, with_pool a (free h.slot (with_slots slots a.pool)))

unfoldable pub cancel_by_token : Dims → ℕ → Book → Arena → Bool × Book × Arena
cancel_by_token d token b a = cancel_order d (from_token token) b a
