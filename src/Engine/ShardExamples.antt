-- ===== src/Engine/ShardExamples.antt =====
-- A shard with two of eight symbols takes an order and its cancel: the theorems at work.
use lite_exchange.Base.{
  length, Bool, ℕ, ◌+◌, ◌^◌, ◌≤◌, ◌<◌, ◌≡◌, ◌⊎◌, inr, refl, arith, pos, true, false, some, [], ◌∷◌,
  ◌++◌, inl,
}
use lite_exchange.Proto.Messages.{MsgType, InboundMsg, OutboundMsg, CancelOrder}
use lite_exchange.Book.Pool
use lite_exchange.Book.Pool.{alloc}
use lite_exchange.Book.OrderHandle.{OrderHandle, to_token, from_token}
use lite_exchange.Queue.Spsc
use lite_exchange.Queue.Spsc.{SpscQueue, pop}
use lite_exchange.Queue.Spsc.Fifo.{IsRing, init-IsRing, push-IsRing}
use lite_exchange.Book.Pool.{with_slots}
use lite_exchange.Book.PriceLevel.{push_back}
use lite_exchange.Book.LevelBitmap
use lite_exchange.Book.OrderBook
use lite_exchange.Book.Matching.{match_loop}
use lite_exchange.Book.OrderBook.{add_order, admit, settle, rest_order, price_to_idx}
use lite_exchange.Engine.Shard.{
  dispatch, handle_new, emit_fills, emit_ack, with_added, Shard, init, tick, run, handle_cancel,
  local_book, symbol_table, assign_books,
}
use lite_exchange.Engine.Shard.Invariant.{IsShard}
use lite_exchange.Engine.Shard.Start.{init-IsShard}
use lite_exchange.Engine.Shard.Handlers.{Honest}
use lite_exchange.Engine.Shard.Ticks.{tick_handles}
use lite_exchange.Engine.Shard.Served.{Served, Allowed, Tracked, Served-Tracked}
use lite_exchange.Engine.Shard.Room.{Pushes}
use lite_exchange.Engine.Shard.Rounds.{aside, serve, run-serve}
use lite_exchange.Engine.Shard.Cancels.{stale, refusal, handle_cancel-answer}
use lite_exchange.Engine.Examples.{order, config, zero_order, shard}

abbrev msg : InboundMsg
msg = InboundMsg.new_order order

init-IsShard_example :
    (v : IsShard config shard) × ((x : ℕ) → v.live x ≡ false)
    × ((k : ℕ) (bid : Bool) (i : ℕ) → v.queues k bid i ≡ [])
init-IsShard_example =
    init-IsShard config (pos 100) (pos 5) 2 (6 ∷ 2 ∷ []) zero_order msg (omega arith) (omega arith)
      (omega arith)

fresh : IsShard config shard
fresh =
    (init-IsShard config (pos 100) (pos 5) 2 (6 ∷ 2 ∷ []) zero_order msg (omega arith) (omega arith)
      (omega arith)).0

abbrev empty_ring : SpscQueue InboundMsg
empty_ring = record { head = 0; tail = 0; slots = λ _. msg }

-- The order waits.
abbrev queued : Shard
queued = record shard { inbound = (Spsc.push 4 msg empty_ring).1 }

taken : (pop 4 queued.inbound).0 ≡ some msg
unfolding pop Spsc.push
taken = refl

abbrev handle : OrderHandle
handle = record { slot = 3; gen = 0 }

handles : tick_handles config queued ≡ handle ∷ []
unfolding pop Spsc.push init local_book symbol_table assign_books add_order admit settle match_loop
    rest_order alloc Pool.init OrderBook.init with_slots price_to_idx push_back LevelBitmap.set
    lite_exchange.Base.wrap32 lite_exchange.Base.quot lite_exchange.Base.◌-ℤ◌
handles = refl

allowed : (m : InboundMsg) → (pop 4 queued.inbound).0 ≡ some m → Allowed queued [] m
allowed m e = let same : msg ≡ m = cc (taken, e) in rw (← same) (omega arith)

id_8 : shard.shard_id < 2 ^ 8
unfolding init
id_8 = omega arith

started : Served config shard shard []
started = Served.started

reached : Served config shard (tick config queued) (tick_handles config queued ++ [])
unfolding init Pool.init
reached = Served.ticked (Served.around started queued.inbound [] true) (λ x. omega arith) allowed

tracked : Tracked config (tick config queued) (tick_handles config queued ++ [])
tracked = Served-Tracked fresh id_8 (omega arith) reached

Served-Tracked_example : Tracked config (tick config queued) (tick_handles config queued ++ [])
Served-Tracked_example = Served-Tracked fresh id_8 (omega arith) reached

-- The ring holds the order.
waiting : IsRing 4 0 queued.inbound (msg ∷ [])
waiting = elim (push-IsRing 4 0 msg empty_ring [] empty) [
  | inl (room, done, r) ↦ r
  | inr (full, refused, same) ↦ absurd (omega (arith, full))
]
  where
    empty : IsRing 4 0 empty_ring []
    empty = unfold Spsc.init in (init-IsRing 4 msg (omega arith))

on : queued.running ≡ true
unfolding init
on = refl

-- One acknowledgement.
one_report : length (serve config (msg ∷ []) queued).outbound ≤ 2 ^ 4
unfolding dispatch handle_new emit_fills emit_ack with_added pop Spsc.push init local_book
    symbol_table assign_books add_order admit settle match_loop rest_order alloc Pool.init
    OrderBook.init with_slots price_to_idx push_back LevelBitmap.set lite_exchange.Base.wrap32
    lite_exchange.Base.quot lite_exchange.Base.◌-ℤ◌
one_report = omega arith

run-serve_example :
    (ring : SpscQueue InboundMsg) × IsRing 4 1 ring []
    × (run 3 config queued ≡ aside ring true (serve config (msg ∷ []) queued))
    × Pushes 16 queued.outbound (run 3 config queued).outbound
run-serve_example = run-serve 3 0 config queued (msg ∷ []) waiting on (omega arith) one_report

-- The client cancels with the token of its acknowledgement.
abbrev cancel : CancelOrder
cancel = record {
  hdr = record { len = 16; type = MsgType.cancel_order; flags = 0; session_id = 1 };
  order_token = to_token 2 handle;
}

back : from_token cancel.order_token ≡ handle
unfolding from_token to_token
back = refl

honest : Honest config (tick config queued) tracked.shard.live (from_token cancel.order_token)
honest = rw back (λ below same. (rw handles at tracked.known).0.2 same)

handle_cancel-answer_example :
    let s = tick config queued in
    let s' = handle_cancel config cancel 1 s in
    ((stale config s (from_token cancel.order_token) ≡ true) × (s' ≡ refusal 1 s))
    ⊎ ((stale config s (from_token cancel.order_token) ≡ false)
        × (s'.outbound
            ≡ s.outbound
              ++ OutboundMsg.ack (record {
                hdr = record { len = 24; type = MsgType.ack; flags = 0; session_id = 1 };
                order_id = 0;
                order_token = cancel.order_token;
              })
                ∷ [])
        × ((session' : ℕ) → handle_cancel config cancel session' s' ≡ refusal session' s'))
handle_cancel-answer_example = handle_cancel-answer tracked.shard cancel 1 honest
