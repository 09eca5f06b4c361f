-- ===== src/Net/Examples/Gateways.antt =====
-- An epoll gateway with one shard: the theorems at work.
use lite_exchange.Base.{
  false, ℕ, ◌+◌, ◌≤◌, ◌<◌, ◌≡◌, refl, arith, true, none, some, [], ◌∷◌, update,
}
use lite_exchange.Proto.Messages.{MsgType, OutboundMsg}
use lite_exchange.Proto.Codec.{Bytes, write_new_order}
use lite_exchange.Proto.Codec.Outbound.{wire}
use lite_exchange.Engine.ShardSet.{ShardSet}
use lite_exchange.Engine.Examples.{shard}
use lite_exchange.Proto.Examples.{order}
use lite_exchange.Net.Session.{init}
use lite_exchange.Net.Examples.Kernel.{Kernel, sockets, posix, finite, setup, posix_setup}
use lite_exchange.Net.Listener.{make_gateway, open_listener, threw, FailedCall}
use lite_exchange.Net.Listener.Outcome.{Outcome, make_gateway-Outcome}
use lite_exchange.Net.Gateway.{Gateway, poll_once, accept_one, accept_all, send_all, drain_outbound}
use lite_exchange.Net.Gateway.Invariant.{IsGateway, Kept}
use lite_exchange.Net.Gateway.Invariant.Polls.{poll_once-Kept}
use lite_exchange.Net.Gateway.Delivery.{Sent, send_all-Sent}
use lite_exchange.Net.Gateway.Delivery.Drain.{Delivered, pending, drain_outbound-Delivered}
use lite_exchange.Net.Gateway.Loops.{accept_all-backlog}

-- One client waits, and will send an order.
abbrev kernel : Kernel
kernel = record {
  next_fd = 5;
  waiting = 1;
  inbox = write_new_order order ∷ [];
  streams = λ _. [];
  bound = λ _. false;
  listening = λ _. false;
}

abbrev pub shards : ShardSet
shards = record { count = 1; ring_bits = 4; shards = λ _. shard }

abbrev before : Gateway Kernel
before = record {
  shards = shards;
  listen_fd = 3;
  epoll_fd = 4;
  port = 8080;
  next_session_id = 1;
  sessions = λ _. none;
  sid_to_fd = λ _. none;
  running = true;
  kernel = kernel;
}

before-IsGateway : IsGateway (posix 7).is_open before
before-IsGateway = record {
  routing = record { routed = λ sid fd e. cc; listed = λ fd s e. cc };
  held = λ fd s e. cc;
}

accepted : (accept_all (sockets 7) 2 before).sid_to_fd 1 ≡ some 5
unfolding accept_all accept_one
accepted = refl

poll_once-Kept_example : Kept (posix 7).is_open 2 before (poll_once (sockets 7) 2 10 before)
poll_once-Kept_example =
    poll_once-Kept (sockets 7) (posix 7) 2 10 before (omega arith) before-IsGateway

-- With a client of session 1 at descriptor 5, and an acknowledgement for it and one for a client who left.
abbrev ack : ℕ → OutboundMsg
ack sid = OutboundMsg.ack (record {
  hdr = record { len = 24; type = MsgType.ack; flags = 0; session_id = sid };
  order_id = 1;
  order_token = 7;
})

abbrev served : Gateway Kernel
served = record before {
  next_session_id = 3;
  sessions = update (λ _. none) 5 (some (init 1));
  sid_to_fd = update (λ _. none) 1 (some 5);
  shards = record {
    count = 1;
    ring_bits = 4;
    shards = λ _. record shard { outbound = ack 1 ∷ ack 2 ∷ [] };
  };
}

-- Sends of at most 7 bytes each.
willing : (j x : ℕ) (xs : Bytes) (k : Kernel) → 0 < ((sockets 7).send j (x ∷ xs) k).0
willing j x xs k = omega arith

drain_outbound-Delivered_example :
    Delivered
      (sockets 7)
      (posix 7)
      willing
      (pending 1 0 served.shards)
      (λ i. (0 ≤ i) × (i < 0 + 1))
      served
      (drain_outbound (sockets 7) served)
drain_outbound-Delivered_example = drain_outbound-Delivered (sockets 7) (posix 7) willing served

send_all-Sent_example :
    Sent
      (sockets 7)
      (posix 7)
      5
      (wire (ack 1))
      kernel
      (send_all (sockets 7) 5 (wire (ack 1)) kernel)
send_all-Sent_example = send_all-Sent (sockets 7) (posix 7) 5 (wire (ack 1)) kernel

accept_all-backlog_example : accept_all (sockets 7) 2 before ≡ accept_all (sockets 7) 9 before
accept_all-backlog_example =
    accept_all-backlog (sockets 7) (finite 7) 2 9 before (omega arith) (omega arith)

-- A port that is not given: the descriptor 5 is open afterwards.
refused :
    make_gateway setup (sockets 7) shards 80 kernel
    ≡ threw FailedCall.bind (record kernel { next_fd = 6; bound = update kernel.bound 5 false })
unfolding make_gateway open_listener
refused = refl

make_gateway-Outcome_example :
    Outcome (posix_setup 7) kernel (some 5) (make_gateway setup (sockets 7) shards 8080 kernel)
make_gateway-Outcome_example =
    make_gateway-Outcome setup (sockets 7) (posix 7) (posix_setup 7) shards 8080 kernel
