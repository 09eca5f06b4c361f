-- ===== src/Engine/ShardRouter/Routes.antt =====
-- include/lx/engine/shard_router.hpp: a cancel goes to the shard that issued its token.
use lite_exchange.Base.{ℕ, ◌%◌, ◌^◌, ◌≤◌, ◌<◌, ◌≡◌, sym, ◌∙◌, ap, arith, some}
use native.Mathlib.Nat.{mod-eq_of_lt}
use lite_exchange.Proto.Messages.{MsgType, NewOrder, CancelOrder, InboundMsg}
use lite_exchange.Book.OrderHandle.{OrderHandle, to_token}
use lite_exchange.Book.OrderHandle.Token.{from_token-to_token}
use lite_exchange.Engine.ShardRouter.{route}

-- Of n shards, at most 256: the cancel of an order goes where its new order went, if its token is that
-- of the shard there, whatever handle that shard gave it.
pub route-token :
    (n : ℕ) (order : NewOrder) (cancel : CancelOrder) (shard : ℕ) (h : OrderHandle)
    → n ≤ 2 ^ 8
    → h.gen < 2 ^ 32
    → h.slot < 2 ^ 24
    → order.hdr.type ≡ MsgType.new_order
    → cancel.hdr.type ≡ MsgType.cancel_order
    → shard < n
    → route n (InboundMsg.new_order order) ≡ some shard
    → cancel.order_token ≡ to_token shard h
    → route n (InboundMsg.cancel cancel) ≡ route n (InboundMsg.new_order order)
unfolding route
route-token n order cancel shard h hn hg hl eo ec hs e t =
    rw (ec, t, (from_token-to_token shard h (omega arith) hg hl).1)
      (ap some (small shard hs) ∙ sym e)
  where
    small : (s : ℕ) → s < n → s % n ≡ s
    small s h = mod-eq_of_lt h
