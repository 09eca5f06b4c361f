-- ===== src/Book/Examples.antt =====
-- The parts of the book on small inputs: the theorems at work.
use lite_exchange.Base.{
  ℕ, ◌%◌, ◌<◌, ◌≡◌, refl, ◌⊎◌, inl, inr, pos, true, false, [], ◌∷◌, arith, update, add32,
  bit_at-zero,
}
use lite_exchange.Proto.Messages.{Side, TimeInForce}
use lite_exchange.Book.Order.{Order, null_idx}
use lite_exchange.Book.Pool.{Pool, alloc, free, init, invalid_idx}
use lite_exchange.Book.Pool.Free.{IsPool, live_count, init-IsPool, alloc-IsPool, free-IsPool}
use lite_exchange.Book.PriceLevel.{PriceLevel, push_back, pop_front, remove}
use lite_exchange.Book.PriceLevel
use lite_exchange.Book.PriceLevel.Fifo.{IsNarrow, Represents, init-Represents, push_back-Represents}
use lite_exchange.Book.PriceLevel.Remove.{remove-Represents}
use lite_exchange.Book.LevelBitmap.{
  Words, set, next_up, next_down, scan_up, scan_down, lowest_bit, highest_bit,
}
use lite_exchange.Book.LevelBitmap.Bits.{set-IsWords, IsWords, bit-set}
use lite_exchange.Book.LevelBitmap.Nearest.{Fits, IsLowest, IsHighest}
use lite_exchange.Book.LevelBitmap.Up.{next_up-IsLowest}
use lite_exchange.Book.LevelBitmap.Down.{next_down-IsHighest}
use lite_exchange.Book.OrderHandle.{OrderHandle, to_token, from_token, token_shard}
use lite_exchange.Book.OrderHandle.Token.{from_token-to_token}

-- An arena of two slots.
abbrev arena : Pool ℕ
arena = init 2 0

abbrev taken : Pool ℕ
taken = (alloc arena).1

alloc-IsPool_example :
    ((live_count (λ _. false) 2 ≡ 2) × ((alloc arena).0 ≡ invalid_idx) × (taken ≡ arena))
    ⊎ (((alloc arena).0 < 2)
        × (false ≡ false)
        × IsPool 2 taken (update (λ _. false) (alloc arena).0 true))
alloc-IsPool_example = alloc-IsPool 2 (init-IsPool 2 0) (omega arith)

arena-IsPool : IsPool 2 arena (λ _. false)
arena-IsPool = init-IsPool 2 0

one_taken : IsPool 2 taken (update (λ _. false) 1 true)
unfolding init alloc
one_taken = elim (alloc-IsPool 2 arena-IsPool (omega arith)) [
  | inl (full, none, same) ↦ absurd (omega arith)
  | inr (below, unused, v) ↦ v
]

free-IsPool_example :
    (taken.free_top < 2)
    × ((free 1 taken).gen 1 ≡ add32 (taken.gen 1) 1)
    × IsPool 2 (free 1 taken) (update (update (λ _. false) 1 true) 1 false)
free-IsPool_example = free-IsPool 2 1 one_taken (omega arith) (omega arith) refl

-- A level with the orders of slots 4 and 7.
abbrev blank : ℕ → Order
blank i = record {
  order_id = i;
  price = pos 100;
  qty = 5;
  next_idx = null_idx;
  prev_idx = null_idx;
  symbol = 0;
  side = Side.buy;
  tif = TimeInForce.gtc;
}

abbrev one_order : PriceLevel × (ℕ → Order)
one_order = push_back PriceLevel.init 4 blank

abbrev two_orders : PriceLevel × (ℕ → Order)
two_orders = push_back one_order.0 7 one_order.1

one_order-Represents : Represents one_order.1 one_order.0 (4 ∷ [])
one_order-Represents = push_back-Represents 4 [] (init-Represents blank) tt (λ e. omega arith)

two_orders-Represents : Represents two_orders.1 two_orders.0 (4 ∷ 7 ∷ [])
two_orders-Represents =
    push_back-Represents 7 (4 ∷ []) one_order-Represents ((λ e. omega arith), tt) (λ e. omega arith)

two_orders-IsNarrow : IsNarrow two_orders.1
unfolding push_back
two_orders-IsNarrow i = ground arith

remove-Represents_example :
    let (l, slots) = remove two_orders.0 7 two_orders.1 in Represents slots l (4 ∷ [])
remove-Represents_example =
    remove-Represents 7 (4 ∷ []) [] two_orders-IsNarrow two_orders-Represents

-- A bitmap of 100 levels with level 70 marked.
abbrev marked : Words
marked = set 70 (λ _. 0)

marked-IsWords : IsWords marked
marked-IsWords = set-IsWords 70 (λ i. omega arith)

marked-Fits : Fits 100 marked
marked-Fits = record {
  words_64 = marked-IsWords;
  within = λ i h. rw (bit-set 70 i (λ _. 0), bit_at-zero (i % 64)) (ground arith);
}

next_up-IsLowest_example : IsLowest marked 2 (next_up 100 marked 2)
next_up-IsLowest_example = next_up-IsLowest 100 2 marked-Fits

next_up_far : next_up 100 marked 2 ≡ 70
unfolding next_up scan_up lowest_bit set
next_up_far = refl

next_down-IsHighest_example : IsHighest marked 99 (next_down 100 marked 99)
next_down-IsHighest_example = next_down-IsHighest 100 99 marked-IsWords (omega arith)

next_down_far : next_down 100 marked 99 ≡ 70
unfolding next_down scan_down highest_bit set
next_down_far = refl

abbrev handle : OrderHandle
handle = record { slot = 1000; gen = 9 }

from_token-to_token_example :
    (from_token (to_token 3 handle) ≡ handle) × (token_shard (to_token 3 handle) ≡ 3)
from_token-to_token_example = from_token-to_token 3 handle (omega arith) (omega arith) (omega arith)
