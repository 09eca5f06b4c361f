-- ===== src/Proto/Codec/Outbound.antt =====
-- include/lx/proto/messages.hpp: the bytes of the messages that go to a client.
use lite_exchange.Base.{ℕ, ◌++◌, take}
use lite_exchange.Proto.Messages.{RejectReason, Ack, Reject, Fill, OutboundMsg, outbound_hdr}
use lite_exchange.Proto.Codec.{Bytes, write_le, write_header, pattern64}

unfoldable pub reason_code : RejectReason → ℕ
reason_code RejectReason.unknown_symbol = 0
reason_code RejectReason.invalid_price = 1
reason_code RejectReason.invalid_qty = 2
reason_code RejectReason.unknown_order = 3

unfoldable pub write_ack : Ack → Bytes
write_ack m = write_header m.hdr ++ (write_le 8 m.order_id ++ write_le 8 m.order_token)

unfoldable pub write_reject : Reject → Bytes
write_reject m =
    write_header m.hdr
    ++ (write_le 8 m.order_id ++ (write_le 1 (reason_code m.reason) ++ write_le 7 0))

unfoldable pub write_fill : Fill → Bytes
write_fill m =
    write_header m.hdr
    ++ (write_le 8 m.aggressor_id
        ++ (write_le 8 m.resting_id
            ++ (write_le 8 (pattern64 m.price) ++ (write_le 4 m.qty ++ write_le 4 0))))

-- The active member of the union.
unfoldable pub write_outbound : OutboundMsg → Bytes
unfolding write_ack write_reject write_fill
write_outbound (OutboundMsg.ack m) = write_ack m
write_outbound (OutboundMsg.reject m) = write_reject m
write_outbound (OutboundMsg.fill m) = write_fill m

-- The `hdr.len` bytes that a gateway sends of it; the shard sets `len` to the size of the member.
unfoldable pub wire : OutboundMsg → Bytes
unfolding write_outbound
wire m = take (outbound_hdr m).len (write_outbound m)
