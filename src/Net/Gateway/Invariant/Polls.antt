-- ===== src/Net/Gateway/Invariant/Polls.antt =====
-- include/lx/net/gateway.hpp: reading, draining and whole polls keep the maps in agreement.
use lite_exchange.Base.{
  ℕ, zero, suc, ◌+◌, ◌^◌, ◌<◌, ◌≡◌, refl, ◌∙◌, inl, inr, arith, true, ◌||◌, ◌==◌, Bool-cases,
  Option-cases, some, List, [], ◌∷◌, length, drop, ◌*◌,
}
use lite_exchange.Proto.Messages.{OutboundMsg, outbound_hdr}
use lite_exchange.Proto.Codec.{Bytes}
use lite_exchange.Proto.Codec.Outbound.{wire}
use lite_exchange.Engine.ShardSet.{ShardSet, outbound, with_outbound}
use lite_exchange.Net.Session.{Session, append, consume}
use lite_exchange.Net.Routing.{replace-IsRouting}
use lite_exchange.Net.Sockets.{Sockets, IsPosix, Received, bytes, hung_up, failed}
use lite_exchange.Net.Session.Ends.{consume-session_id}
use lite_exchange.Engine.ShardSet
use lite_exchange.Net.Gateway.{
  Gateway, receive, received, read_session, send_rest, send_all, deliver, drain_shard, drain_from,
  drain_outbound, handle_event, handle_events, poll_once,
}
use lite_exchange.Net.Gateway.Invariant.{
  IsGateway, Kept, unchanged, at_most, Kept-trans, onward, accept_all-Kept, close_session-Kept,
}

module _ {K : Type 0} (net : Sockets K) (posix : IsPosix net) where
  -- Reading leaves the session's id and every descriptor.
  pub receive-kept :
      (rounds fd : ℕ) (s : Session) (shards : ShardSet) (k : K)
      → let r = receive net rounds fd s shards k in
        (r.session.session_id ≡ s.session_id)
        × ((j : ℕ) → posix.is_open k j ≡ true → posix.is_open r.kernel j ≡ true)
  unfolding receive append
  receive-kept zero fd s shards k = (refl, λ j h. h)
  receive-kept (suc rounds) fd s shards k =
      by_result (net.recv fd k).0 refl (receive-kept rounds fd)
    where
      keeps : (j : ℕ) → posix.is_open k j ≡ true → posix.is_open (net.recv fd k).1 j ≡ true
      keeps = posix.recv_keeps fd k

      by_result :
          (r : Received)
          → (net.recv fd k).0 ≡ r
          → ((s : Session) (shards : ShardSet) (k : K)
              → let r = receive net rounds fd s shards k in
                (r.session.session_id ≡ s.session_id)
                × ((j : ℕ) → posix.is_open k j ≡ true → posix.is_open r.kernel j ≡ true))
          → let r = receive net (suc rounds) fd s shards k in
            (r.session.session_id ≡ s.session_id)
            × ((j : ℕ) → posix.is_open k j ≡ true → posix.is_open r.kernel j ≡ true)
      by_result (bytes buf) e later =
          let c = consume ShardSet.push (append buf s) shards in
          let r = later c.1 c.2 (net.recv fd k).1 in
          rw (e, receive)
            (r.0 ∙ consume-session_id ShardSet.push (append buf s) shards, λ j h. r.1 j (keeps j h))
      by_result hung_up e later = rw (e, receive) (refl, keeps)
      by_result failed e later = rw (e, receive) (refl, keeps)

  received-Kept :
      (rounds fd : ℕ) (s : Session) (g : Gateway K)
      → g.sessions fd ≡ some s
      → IsGateway posix.is_open g
      → Kept posix.is_open 0 g (received net fd (receive net rounds fd s g.shards g.kernel) g)
  unfolding received
  received-Kept rounds fd s g e v = record {
    gateway = record {
      routing =
          replace-IsRouting g.sessions g.sid_to_fd g.next_session_id fd s _ e kept.0 v.routing;
      held = λ j t h. kept.1 j (elim (Bool-cases (j == fd)) [
        | inl same ↦ ground (arith, same, v.held fd s e)
        | inr other ↦ v.held j t (ground (arith, other, h))
      ]);
    };
    retired = λ sid h e. e;
    least = omega arith;
    most = omega arith;
  }
    where
      kept :
          let r = receive net rounds fd s g.shards g.kernel in
          (r.session.session_id ≡ s.session_id)
          × ((j : ℕ) → posix.is_open g.kernel j ≡ true → posix.is_open r.kernel j ≡ true)
      kept = receive-kept rounds fd s g.shards g.kernel

  pub read_session-Kept :
      (rounds fd : ℕ) (g : Gateway K)
      → IsGateway posix.is_open g
      → Kept posix.is_open 0 g (read_session net rounds fd g)
  unfolding read_session
  read_session-Kept rounds fd g v = elim (Option-cases (g.sessions fd)) [
    | inl h ↦ rw (h, read_session) (unchanged g v)
    | inr (s, h) ↦
        let r = receive net rounds fd s g.shards g.kernel in
        let read = received-Kept rounds fd s g h v in
        rw (h, read_session)
          (elim (Bool-cases (r.hung_up || r.session.closed)) [
            | inl gone ↦
                rw gone (Kept-trans 0 0 g _ _ read (close_session-Kept net posix fd _ read.gateway))
            | inr stays ↦ rw stays read
          ])
  ]

  send_rest-keeps :
      (rounds fd : ℕ) (bs : Bytes) (k : K) (j : ℕ)
      → posix.is_open k j ≡ true
      → posix.is_open (send_rest net rounds fd bs k) j ≡ true
  unfolding send_rest
  send_rest-keeps zero fd bs k j h = h
  send_rest-keeps (suc rounds) fd [] k j h = h
  send_rest-keeps (suc rounds) fd (b ∷ bs) k j h =
      elim (Bool-cases ((net.send fd (b ∷ bs) k).0 == 0)) [
        | inl e ↦ rw e (posix.send_keeps fd (b ∷ bs) k j h)
        | inr e ↦
            let w = (net.send fd (b ∷ bs) k).0 in
            rw e
              (send_rest-keeps rounds fd (drop w (b ∷ bs)) _ j (posix.send_keeps fd (b ∷ bs) k j h))
      ]

  deliver-Kept :
      (m : OutboundMsg) (g : Gateway K)
      → IsGateway posix.is_open g
      → Kept posix.is_open 0 g (deliver net m g)
  unfolding deliver send_all
  deliver-Kept m g v = elim (Option-cases (g.sid_to_fd (outbound_hdr m).session_id)) [
    | inl h ↦ rw (h, deliver) (unchanged g v)
    | inr (fd, h) ↦
        rw (h, deliver)
          (onward g _ g.shards (send_rest-keeps (length (wire m)) fd (wire m) g.kernel) v)
  ]

  drain_shard-Kept :
      (i : ℕ) (ms : List OutboundMsg) (g : Gateway K)
      → IsGateway posix.is_open g
      → Kept posix.is_open 0 g (drain_shard net i ms g)
  unfolding drain_shard
  drain_shard-Kept i [] g v = unchanged g v
  drain_shard-Kept i (m ∷ ms) g v =
      let popped = onward g g.kernel (with_outbound i ms g.shards) (λ j h. h) v in
      let sent = deliver-Kept m _ popped.gateway in
      Kept-trans 0 0 g _ _ popped (Kept-trans 0 0 _ _ _ sent (drain_shard-Kept i ms _ sent.gateway))

  drain_from-Kept :
      (todo i : ℕ) (g : Gateway K)
      → IsGateway posix.is_open g
      → Kept posix.is_open 0 g (drain_from net todo i g)
  unfolding drain_from
  drain_from-Kept zero i g v = unchanged g v
  drain_from-Kept (suc todo) i g v =
      let one = drain_shard-Kept i (outbound i g.shards) g v in
      Kept-trans 0 0 g _ _ one (drain_from-Kept todo (i + 1) _ one.gateway)

  pub drain_outbound-Kept :
      (g : Gateway K) → IsGateway posix.is_open g → Kept posix.is_open 0 g (drain_outbound net g)
  unfolding drain_outbound
  drain_outbound-Kept g v = drain_from-Kept g.shards.count 0 g v

  handle_event-Kept :
      (rounds fd : ℕ) (g : Gateway K)
      → g.next_session_id + rounds < 2 ^ 32
      → IsGateway posix.is_open g
      → Kept posix.is_open rounds g (handle_event net rounds fd g)
  unfolding handle_event
  handle_event-Kept rounds fd g small v = elim (Bool-cases (fd == g.listen_fd)) [
    | inl h ↦ rw h (accept_all-Kept net posix rounds g small v)
    | inr h ↦ rw h (at_most 0 rounds g _ (omega arith) (read_session-Kept rounds fd g v))
  ]

  handle_events-Kept :
      (rounds : ℕ) (fds : List ℕ) (g : Gateway K)
      → g.next_session_id + length fds * rounds < 2 ^ 32
      → IsGateway posix.is_open g
      → Kept posix.is_open (length fds * rounds) g (handle_events net rounds fds g)
  unfolding handle_events
  handle_events-Kept rounds [] g small v = at_most 0 (0 * rounds) g g (omega arith) (unchanged g v)
  handle_events-Kept rounds (fd ∷ fds) g small v =
      let one = handle_event-Kept rounds fd g (grind arith) v in
      let rest =
        handle_events-Kept rounds fds (handle_event net rounds fd g) (grind (arith, one.most))
          one.gateway in
      at_most (rounds + length fds * rounds) (length (fd ∷ fds) * rounds) g _ (grind arith)
        (Kept-trans rounds (length fds * rounds) g _ _ one rest)

  -- A poll keeps the maps in agreement over open descriptors, and an id whose client is gone stays
  -- without a descriptor, whatever descriptors are reused; `rounds` bounds each loop of accepts, and the
  -- ids that the poll can give out fit 32 bits.
  pub poll_once-Kept :
      (rounds timeout_ms : ℕ) (g : Gateway K)
      → let ids = length (net.wait timeout_ms g.kernel).0 * rounds in
        g.next_session_id + ids < 2 ^ 32
        → IsGateway posix.is_open g
        → Kept posix.is_open ids g (poll_once net rounds timeout_ms g)
  unfolding poll_once
  poll_once-Kept rounds timeout_ms g small v =
      let (events, k) = net.wait timeout_ms g.kernel in
      let ids = length events * rounds in
      let waited = onward g k g.shards (posix.wait_keeps timeout_ms g.kernel) v in
      let handled =
        handle_events-Kept rounds events (record g { kernel = k }) small waited.gateway in
      let drained = drain_outbound-Kept _ handled.gateway in
      at_most (0 + (ids + 0)) ids g _ (omega arith)
        (Kept-trans 0 (ids + 0) g _ _ waited (Kept-trans ids 0 _ _ _ handled drained))
