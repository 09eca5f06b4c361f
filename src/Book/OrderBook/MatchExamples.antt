-- ===== src/Book/OrderBook/MatchExamples.antt =====
-- include/lx/book/order_book.hpp: a bid that crosses the resting offer, through the loops of `match`.
use lite_exchange.Proto.Messages.{Side, TimeInForce, NewOrder}
use lite_exchange.Base.{
  pos, map, ◌∷◌, ℕ, ◌<◌, ◌≡◌, refl, inl, inr, Bool, true, false, [], arith, update, quot, wrap32,
  ◌-ℤ◌,
}
use lite_exchange.Book.LevelBitmap
use lite_exchange.Book.Pool
use lite_exchange.Book.Pool.{alloc, free, with_slots}
use lite_exchange.Book.Pool.Free.{IsPool, alloc-IsPool}
use lite_exchange.Book.PriceLevel.{push_back, pop_front}
use lite_exchange.Book.Matching.{
  Matching, match_loop, match_level, match_fuel, with_pool, fill_one, fill_of, retire, advance,
  find_after, find_best,
}
use lite_exchange.Book.OrderBook.{
  Added, init, add_order, price_to_idx, off_ladder, admit, settle, rest_order,
}
use lite_exchange.Book.OrderBook.LevelLoop.{level_sweep, match_level-LevelDone}
use lite_exchange.Book.OrderBook.Level.{LevelDone}
use lite_exchange.Book.OrderBook.Match.{MatchReady, level_ready}
use lite_exchange.Book.OrderBook.MatchDone.{MatchDone, match_sweep}
use lite_exchange.Book.OrderBook.MatchLoop.{match_loop-MatchDone, pending-lt}
use lite_exchange.Book.OrderBook.Admit.{CanAdmit, opening, opening-MatchReady}
use lite_exchange.Book.OrderBook.AddOrder.{can_admit}
use lite_exchange.Book.OrderBook.Examples.{
  order, fresh_book, fresh_arena, dims, offered, offer_taken, queues, offered-IsBook, large_bid,
}

next_slot : (alloc offered.arena.pool).0 ≡ 2
unfolding add_order admit settle match_loop rest_order push_back price_to_idx init alloc Pool.init
    with_slots quot wrap32 ◌-ℤ◌
next_slot = refl

on_ladder : off_ladder dims (price_to_idx offered.book large_bid.price) ≡ false
unfolding add_order admit settle match_loop rest_order push_back price_to_idx init alloc Pool.init
    with_slots quot wrap32 ◌-ℤ◌
on_ladder = refl

bid_admitted :
    CanAdmit dims offered.book
      (with_pool offered.arena (alloc offered.arena.pool).1)
      offer_taken.in_use
      queues
      large_bid
      (alloc offered.arena.pool).0
bid_admitted = can_admit offered-IsBook 64 large_bid [] on_ladder (omega arith) taken
  where
    taken :
        ((alloc offered.arena.pool).0 < 4)
        × (offer_taken.in_use (alloc offered.arena.pool).0 ≡ false)
        × IsPool 4
            (alloc offered.arena.pool).1
            (update offer_taken.in_use (alloc offered.arena.pool).0 true)
    taken = elim (alloc-IsPool 4 offered-IsBook.pool (omega arith)) [
      | inl (full, none, same) ↦ absurd (omega (arith, next_slot, none))
      | inr t ↦ t
    ]

-- The match of the large bid, in its slot.
abbrev bidding : Matching
bidding =
    opening large_bid (alloc offered.arena.pool).0 offered.book
      (with_pool offered.arena (alloc offered.arena.pool).1)

abbrev bid_use : ℕ → Bool
bid_use = update offer_taken.in_use (alloc offered.arena.pool).0 true

bidding-MatchReady :
    MatchReady false dims
      (price_to_idx offered.book)
      bid_use
      (alloc offered.arena.pool).0
      (queues false)
      bidding
bidding-MatchReady = opening-MatchReady bid_admitted false refl

match_loop-MatchDone_example :
    let slot = (alloc offered.arena.pool).0 in
    let (flow, m') = match_loop (match_fuel dims) false dims 64 slot 3 bidding in
    MatchDone false dims
      (price_to_idx offered.book)
      bid_use
      slot
      3
      (queues false)
      bidding
      (match_sweep false dims 64 slot 3 (queues false) bidding)
      flow
      m'
match_loop-MatchDone_example =
    match_loop-MatchDone (match_fuel dims) false dims (price_to_idx offered.book) 64
      (alloc offered.arena.pool).0 3 bid_use (queues false) bidding bidding-MatchReady (omega arith)
      (pending-lt false dims (alloc offered.arena.pool).0 bidding-MatchReady)

match_level-LevelDone_example :
    let slot = (alloc offered.arena.pool).0 in
    let best = bidding.passive.best_idx in
    let (flow, m') = match_level 65 64 slot best bidding in
    LevelDone 4 bid_use slot best
      (queues false best)
      bidding
      (level_sweep 64 slot (queues false best) bidding)
      flow
      m'
match_level-LevelDone_example =
    match_level-LevelDone 65 64 4 bid_use (alloc offered.arena.pool).0 bidding.passive.best_idx
      (queues false bidding.passive.best_idx) bidding (level_ready bidding-MatchReady) (omega arith)
      (omega arith)

-- A bid of two ticks above the base price rests below the offer at three.
abbrev low_bid : NewOrder
low_bid = order 4 Side.buy 110 25 TimeInForce.gtc

abbrev bid_added : Added
bid_added = add_order dims 64 low_bid [] offered.book offered.arena

-- An offer at 118 stands on the level of 115, and a bid of 115 is filled at 118.
abbrev off_tick : Added
off_tick = add_order dims 64 (order 1 Side.sell 118 10 TimeInForce.gtc) [] fresh_book fresh_arena

abbrev overpaid : Added
overpaid =
    add_order dims 64 (order 2 Side.buy 115 4 TimeInForce.ioc) [] off_tick.book off_tick.arena

overpaid_prices : map (λ f. f.price) overpaid.fills ≡ pos 118 ∷ []
unfolding add_order admit settle match_loop match_level fill_one fill_of retire advance find_after
    find_best rest_order push_back pop_front price_to_idx init alloc free Pool.init with_slots quot
    wrap32 ◌-ℤ◌ LevelBitmap.next_up LevelBitmap.scan_up LevelBitmap.clear LevelBitmap.set
overpaid_prices = refl
