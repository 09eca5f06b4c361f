-- ===== src/Net/Examples/Uring.antt =====
-- An io_uring gateway with a client: the theorems at work.
use lite_exchange.Base.{ℕ, ◌≡◌, refl, ◌++◌, true, List, [], ◌∷◌, pos}
use lite_exchange.Proto.Messages.{MsgType, OutboundMsg}
use lite_exchange.Engine.Examples.{shard}
use lite_exchange.Net.UringGateway.{
  UringGateway, Effect, Cqe, tag, op_recv, tag_op, tag_payload, op_accept, start, handle_cqe,
  drain_outbound, get_sqe, arm_accept, submit_all, accepted, on_accept, arm_recv, add_conn, deliver,
  drain_queue, post_send, poll_once, handle_cqes, await_cqe, submit, wait_cqe, cq_advance, prep,
  recv, set_nodelay, alloc_send_slot,
}

-- `io_uring_get_sqe` is full once, each time.
abbrev busy : List Effect → ℕ
busy effects = 1

abbrev ack : OutboundMsg
ack = OutboundMsg.ack (record {
  hdr = record { len = 24; type = MsgType.ack; flags = 0; session_id = 1 };
  order_id = 1;
  order_token = 7;
})

abbrev begun : UringGateway
begun = start busy 4 3 8080 (record shard { outbound = ack ∷ [] }) ack

-- The first client, at descriptor 9; more will come.
abbrev connected : Cqe
connected = record { user_data = tag op_accept 0; res = pos 9; more = true; buf = [] }

abbrev served : UringGateway
served = handle_cqe busy 4 connected begun

-- The acknowledgement is on its way from the last slot.
abbrev sending : UringGateway
sending = drain_outbound busy 4 served

-- Meanwhile the shard sends again.
abbrev again : UringGateway
again = record sending { shard = record sending.shard { outbound = ack ∷ ack ∷ [] } }

-- The two messages go from the two slots below.
again_top : (drain_outbound busy 4 again).free_top ≡ 509
unfolding start arm_accept get_sqe submit_all handle_cqe on_accept accepted arm_recv add_conn
    drain_outbound drain_queue deliver alloc_send_slot post_send tag tag_op tag_payload
again_top = refl

-- A poll of 1500 ms that finds the first client.
abbrev polled : UringGateway
polled = poll_once busy 4 1500 (connected ∷ []) begun

-- It waits for a second and a half.
polled_trace :
    polled.trace
    ≡ begun.trace
      ++ submit
        ∷ wait_cqe 1 500000000
        ∷ set_nodelay 9
        ∷ submit
        ∷ prep (recv 9) (tag op_recv 9)
        ∷ cq_advance 1
        ∷ []
unfolding start arm_accept get_sqe submit_all poll_once handle_cqes handle_cqe on_accept accepted
    add_conn arm_recv drain_outbound drain_queue deliver await_cqe tag tag_op tag_payload
polled_trace = refl
