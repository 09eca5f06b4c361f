-- ===== src/Proto/Examples.antt =====
-- A new order on the wire: the theorems at work.
use lite_exchange.Base.{◌^◌, ◌≡◌, refl, negsuc, arith, length}
use lite_exchange.Proto.Messages.{MsgType, Side, TimeInForce, NewOrder}
use lite_exchange.Proto.Codec.{read_new_order, write_new_order}
use lite_exchange.Proto.Codec.RoundTrip.{IsNewOrder, read_new_order-write_new_order}

abbrev pub order : NewOrder
order = record {
  hdr = record { len = 32; type = MsgType.new_order; flags = 0; session_id = 70000 };
  order_id = 2 ^ 40;
  price = negsuc 4;
  qty = 300;
  symbol_id = 258;
  side = Side.sell;
  tif = TimeInForce.ioc;
}

order-IsNewOrder : IsNewOrder order
order-IsNewOrder = record {
  hdr = record { len = omega arith; type = refl; flags = omega arith; session_id = omega arith };
  order_id = omega arith;
  price = omega arith;
  qty = omega arith;
  symbol_id = omega arith;
  side = refl;
  tif = refl;
}

read_new_order-write_new_order_example :
    (read_new_order (write_new_order order) ≡ order) × (length (write_new_order order) ≡ 32)
read_new_order-write_new_order_example = read_new_order-write_new_order order order-IsNewOrder
