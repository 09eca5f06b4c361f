-- ===== src/Book/OrderBook/Examples.antt =====
-- The order book of include/lx/book/order_book.hpp on a small ladder: the theorems at work.
use lite_exchange.Base.{
  ℕ, ◌<◌, ◌≤◌, ◌≡◌, refl, sym, ap, ◌∙◌, ◌⊎◌, inl, inr, pos, Bool, true, false, not, List, [], ◌∷◌,
  arith, update, length, quot, wrap32, ◌-ℤ◌, ◌+ℤ◌, ◌-◌, ◌^◌, if◌then◌else◌,
}
use mathlib.Core.Bool.{false≢true}
use lite_exchange.Proto.Messages.{MsgType, Side, TimeInForce, NewOrder, is_buy}
use lite_exchange.Book.Order.{Order}
use lite_exchange.Book.Pool
use lite_exchange.Book.Pool.{alloc, free, with_slots}
use lite_exchange.Book.Pool.Free.{IsPool, init-IsPool, live_count}
use lite_exchange.Book.PriceLevel.{push_back, pop_front}
use lite_exchange.Book.OrderHandle.{OrderHandle, none_handle}
use lite_exchange.Book.OrderBook.Prices.{price_to_idx_lem}
use lite_exchange.Book.OrderBook.Forged.{cancel_order-forged}
use lite_exchange.Book.Matching.{
  Dims, Arena, match_loop, match_level, fill_one, fill_of, retire, advance, find_after, find_best,
}
use lite_exchange.Book.OrderBook.{
  Book, Added, init, add_order, cancel_order, price_to_idx, refused, off_ladder, admit, settle,
  rest_order,
}
use lite_exchange.Book.OrderBook.Sweep.{Swept, sweep, fills_qty}
use lite_exchange.Book.OrderBook.Invariant.{IsBook, pick}
use lite_exchange.Book.OrderBook.Admit.{intended}
use lite_exchange.Book.OrderBook.AddOrder.{add_order-AddDone}
use lite_exchange.Book.OrderBook.AddDone.{AddDone, rests}
use lite_exchange.Book.OrderBook.Cancel.{cancel_order-IsBook}
use lite_exchange.Book.OrderBook.Init.{init-IsBook}
use lite_exchange.Book.OrderBook.Fills.{add_order-fills, add_order-in_full, Limits}

abbrev pub dims : Dims
dims = record { max_orders = 4; ladder_size = 8 }

abbrev zero_order : Order
zero_order = record {
  order_id = 0;
  price = pos 0;
  qty = 0;
  next_idx = 0;
  prev_idx = 0;
  symbol = 0;
  side = Side.buy;
  tif = TimeInForce.gtc;
}

abbrev pub fresh_book : Book
fresh_book = init (pos 100) (pos 5)

abbrev pub fresh_arena : Arena
fresh_arena = record { pool = Pool.init 4 zero_order; order_session = λ _. 0 }

abbrev pub order : ℕ → Side → ℕ → ℕ → TimeInForce → NewOrder
order id side price qty tif = record {
  hdr = record { len = 32; type = MsgType.new_order; flags = 0; session_id = id };
  order_id = id;
  price = pos price;
  qty = qty;
  symbol_id = 0;
  side = side;
  tif = tif;
}

fresh_tick : fresh_book.tick_size ≡ pos 5
unfolding init
fresh_tick = refl

-- Three ticks and a rest from the base price.
price_to_idx_lem_example :
    (price_to_idx fresh_book (fresh_book.base_price +ℤ pos 17) ≡ 3)
    × (price_to_idx fresh_book (fresh_book.base_price -ℤ pos 17) ≡ 2 ^ 32 - 3)
price_to_idx_lem_example = price_to_idx_lem fresh_book 5 3 2 fresh_tick (omega arith)

-- A handle of the third slot, from no order.
abbrev forged : OrderHandle
forged = record { slot = 2; gen = 0 }

fresh_gen : fresh_arena.pool.gen 2 ≡ 0
unfolding Pool.init
fresh_gen = refl

cancel_order-forged_example :
    let (done, b', a') = cancel_order dims forged fresh_book fresh_arena in
    (done ≡ true) × ¬ IsPool 4 a'.pool (λ _. false)
cancel_order-forged_example =
    cancel_order-forged (λ _. false) dims forged fresh_book fresh_arena (init-IsPool 4 zero_order)
      (omega arith) (omega arith) refl fresh_gen

fresh-IsBook : IsBook dims fresh_book fresh_arena (λ _. false) (λ _ _. [])
fresh-IsBook =
    init-IsBook dims (pos 100) (pos 5) zero_order (λ _. 0) (omega arith, omega arith) (omega arith)

-- An offer of 10 at 115, which rests at level 3.
abbrev pub offer : NewOrder
offer = order 1 Side.sell 115 10 TimeInForce.gtc

abbrev pub offered : Added
offered = add_order dims 64 offer [] fresh_book fresh_arena

offer_index : price_to_idx fresh_book offer.price ≡ 3
unfolding price_to_idx init quot wrap32 ◌-ℤ◌
offer_index = refl

offer_slot : (alloc fresh_arena.pool).0 ≡ 3
unfolding alloc Pool.init
offer_slot = refl

abbrev walk : Swept
walk = intended dims 64 offer (price_to_idx fresh_book offer.price) fresh_arena (λ _ _. [])

pub offer_taken :
    AddDone dims fresh_book fresh_arena.pool.slots
      (λ _. false)
      offer
      (alloc fresh_arena.pool).0
      fresh_arena.pool.gen
      (price_to_idx fresh_book offer.price)
      (λ _ _. [])
      walk
      offered
offer_taken = elim (add_order-AddDone fresh-IsBook 64 offer [] (omega arith)) [
  | inl (inl off, same) ↦ absurd (false≢true (sym (ap (off_ladder dims) offer_index) ∙ off))
  | inl (inr full, same) ↦ absurd (omega arith)
  | inr (below, free, done) ↦ done
]

-- The handle of the offer.
abbrev pub handle : OrderHandle
handle = record { slot = 3; gen = 0 }

offer-rests : rests offer walk.left ≡ true
unfolding sweep price_to_idx init quot wrap32 ◌-ℤ◌
offer-rests = refl

pub offered_queue : ℕ → List ℕ
offered_queue =
    if rests offer walk.left
    then update (λ _. []) (price_to_idx fresh_book offer.price) ((alloc fresh_arena.pool).0 ∷ [])
    else (λ _. [])

offered_handle : offered.handle ≡ handle
offered_handle = offer_taken.handle ∙ rw (offer-rests, offer_slot) (unfold Pool.init in refl)

offered_side : is_buy (offered.arena.pool.slots 3).side ≡ false
unfolding add_order admit settle match_loop rest_order push_back price_to_idx init alloc Pool.init
    with_slots quot wrap32 ◌-ℤ◌
offered_side = refl

offered_index : price_to_idx offered.book (offered.arena.pool.slots 3).price ≡ 3
unfolding add_order admit settle match_loop rest_order push_back price_to_idx init alloc Pool.init
    with_slots quot wrap32 ◌-ℤ◌
offered_index = refl

offered_gen : offered.arena.pool.gen 3 ≡ 0
unfolding add_order admit settle match_loop rest_order push_back price_to_idx init alloc Pool.init
    with_slots quot wrap32 ◌-ℤ◌
offered_gen = refl

-- The queues of the book with the offer.
abbrev pub queues : Bool → ℕ → List ℕ
queues = pick false offered_queue offer_taken.queues

pub offered-IsBook : IsBook dims offered.book offered.arena offer_taken.in_use queues
unfolding offered_queue
offered-IsBook = offer_taken.book

offered_at : offered_queue 3 ≡ 3 ∷ []
unfolding offered_queue sweep price_to_idx init alloc Pool.init quot wrap32 ◌-ℤ◌
offered_at = refl

cancel_order-IsBook_example :
    let (done, b', a') = cancel_order dims handle offered.book offered.arena in
    (done ≡ true)
    × IsBook dims b' a' (update offer_taken.in_use 3 false) (
        let bid = is_buy (offered.arena.pool.slots 3).side in
        pick bid
          (update (queues bid) (price_to_idx offered.book (offered.arena.pool.slots 3).price) [])
          (queues (not bid)))
    × (cancel_order dims handle b' a' ≡ (false, b', a'))
cancel_order-IsBook_example = cancel_order-IsBook handle [] [] offered-IsBook offered_gen at_level
  where
    at_level :
        queues
          (is_buy (offered.arena.pool.slots 3).side)
          (price_to_idx offered.book (offered.arena.pool.slots 3).price)
        ≡ 3 ∷ []
    at_level = rw (offered_side, offered_index) offered_at

-- Bids that meet the offer: one for part of it, one for more.
abbrev small_bid : NewOrder
small_bid = order 2 Side.buy 120 4 TimeInForce.gtc

abbrev pub large_bid : NewOrder
large_bid = order 3 Side.buy 115 25 TimeInForce.gtc

add_order-AddDone_example :
    let uidx = price_to_idx offered.book large_bid.price in
    let slot = (alloc offered.arena.pool).0 in
    let r = add_order dims 64 large_bid [] offered.book offered.arena in
    (((off_ladder dims uidx ≡ true) ⊎ (live_count offer_taken.in_use 4 ≡ 4))
      × (r ≡ refused [] offered.book offered.arena))
    ⊎ ((slot < 4)
        × (offer_taken.in_use slot ≡ false)
        × AddDone dims offered.book offered.arena.pool.slots offer_taken.in_use large_bid slot
            offered.arena.pool.gen uidx queues
            (intended dims 64 large_bid uidx offered.arena queues)
            r)
add_order-AddDone_example = add_order-AddDone offered-IsBook 64 large_bid [] (omega arith)

add_order-fills_example :
    let fills = (add_order dims 64 large_bid [] offered.book offered.arena).fills in
    (length fills ≤ 64) × (fills_qty fills ≤ 25) × Limits offered.book large_bid fills
add_order-fills_example = add_order-fills 64 large_bid offered-IsBook (omega arith)

-- What the program does with the bid, by computation.
abbrev bought : Added
bought = add_order dims 64 small_bid [] offered.book offered.arena

bought_handle : bought.handle ≡ none_handle
unfolding add_order admit settle match_loop match_level fill_one fill_of retire advance find_after
    find_best rest_order push_back pop_front price_to_idx init alloc free Pool.init with_slots quot
    wrap32 ◌-ℤ◌
bought_handle = refl

bought_qty : fills_qty bought.fills ≡ 4
unfolding add_order admit settle match_loop match_level fill_one fill_of retire advance find_after
    find_best rest_order push_back pop_front price_to_idx init alloc free Pool.init with_slots quot
    wrap32 ◌-ℤ◌
bought_qty = refl

add_order-in_full_example :
    (bought ≡ refused [] offered.book offered.arena) ⊎ (fills_qty bought.fills ≡ 4)
add_order-in_full_example =
    add_order-in_full 64 small_bid offered-IsBook (omega arith) refl bought_handle
