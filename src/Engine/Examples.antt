-- ===== src/Engine/Examples.antt =====
-- Routing over four shards: the theorems at work.
use lite_exchange.Base.{◌≡◌, refl, arith, some, pos, [], ◌∷◌, ◌++◌, if◌then◌else◌, ◌==◌}
use lite_exchange.Proto.Messages.{
  MsgType, Side, TimeInForce, NewOrder, CancelOrder, InboundMsg, OutboundMsg, RejectReason,
}
use lite_exchange.Book.OrderHandle.{OrderHandle, to_token}
use lite_exchange.Book.Order.{Order}
use lite_exchange.Book.OrderBook.{add_order}
use lite_exchange.Engine.Shard.{ShardConfig, Shard, init, handle_new, local_book, no_book}
use lite_exchange.Engine.Shard.Reports.{reports, answer, handle_new-outbound}
use lite_exchange.Engine.ShardRouter.{route}
use lite_exchange.Engine.ShardRouter.Routes.{route-token}

abbrev pub order : NewOrder
order = record {
  hdr = record { len = 32; type = MsgType.new_order; flags = 0; session_id = 1 };
  order_id = 1;
  price = pos 100;
  qty = 10;
  symbol_id = 6;
  side = Side.buy;
  tif = TimeInForce.gtc;
}

abbrev handle : OrderHandle
handle = record { slot = 5; gen = 1 }

abbrev cancel : CancelOrder
cancel = record {
  hdr = record { len = 16; type = MsgType.cancel_order; flags = 0; session_id = 1 };
  order_token = to_token 2 handle;
}

to_shard_2 : route 4 (InboundMsg.new_order order) ≡ some 2
unfolding route
to_shard_2 = refl

route-token_example : route 4 (InboundMsg.cancel cancel) ≡ route 4 (InboundMsg.new_order order)
route-token_example =
    route-token 4 order cancel 2 handle (omega arith) (omega arith) (omega arith) refl refl
      (omega arith) to_shard_2 refl

-- A shard with two symbols of eight.
abbrev pub config : ShardConfig
config = record {
  dims = record { max_orders = 4; ladder_size = 8 };
  ring_bits = 4;
  max_symbols = 2;
  symbol_space = 8;
}

abbrev pub zero_order : Order
zero_order = record {
  order_id = 0;
  price = pos 0;
  qty = 0;
  next_idx = 0;
  prev_idx = 0;
  symbol = 0;
  side = Side.buy;
  tif = TimeInForce.gtc;
}

abbrev pub shard : Shard
shard = init config (pos 100) (pos 5) 2 (6 ∷ 2 ∷ []) zero_order (InboundMsg.new_order order)

handle_new-outbound_example :
    let book = local_book config shard 6 in
    let r = add_order config.dims 64 order [] (shard.books book) shard.arena in
    (handle_new config order 9 shard).outbound
    ≡ shard.outbound
      ++ (if book == no_book
          then OutboundMsg.reject (record {
            hdr = record { len = 24; type = MsgType.reject; flags = 0; session_id = 9 };
            order_id = 1;
            reason = RejectReason.unknown_symbol;
          })
            ∷ []
          else reports 9 r.fills ++ answer shard.shard_id order r 9)
handle_new-outbound_example = handle_new-outbound config order 9 shard
