-- ===== src/Net/Gateway/Invariant.antt =====
-- include/lx/net/gateway.hpp: the maps of the gateway agree, over descriptors that are open, and every
-- operation keeps it so.
pub mod Polls
use lite_exchange.Base.{
  ℕ, zero, suc, ◌+◌, ◌^◌, ◌≤◌, ◌<◌, ◌≡◌, refl, ◌∙◌, ap, inl, inr, arith, Bool, true, false, ◌||◌,
  ◌==◌, Bool-cases, Option-cases, Option, none, some, List, [], ◌∷◌, length, drop, ◌*◌,
}
use lite_exchange.Proto.Messages.{OutboundMsg, outbound_hdr}
use lite_exchange.Proto.Codec.{Bytes}
use lite_exchange.Proto.Codec.Outbound.{wire}
use lite_exchange.Engine.ShardSet.{ShardSet, outbound, with_outbound}
use lite_exchange.Net.Session.{Session, init, append, consume}
use lite_exchange.Net.Routing.{
  IsRouting, try_emplace-update, try_emplace-IsRouting, replace-IsRouting, erase-IsRouting,
  update-unrouted, forget-unrouted,
}
use lite_exchange.Net.Sockets.{Sockets, IsPosix, Received, bytes, hung_up, failed}
use lite_exchange.Net.Session.Ends.{consume-session_id}
use lite_exchange.Engine.ShardSet
use lite_exchange.Net.Gateway.{
  Gateway, accept_one, accept_all, close_session, receive, received, read_session, send_rest,
  send_all, deliver, drain_shard, drain_from, drain_outbound, handle_event, handle_events,
  poll_once,
}

-- The maps agree, and each session has a descriptor that is open.
pub record IsGateway {K : Type 0} (is_open : K → ℕ → Bool) (g : Gateway K) : Type 0 where
  pub routing : IsRouting g.sessions g.sid_to_fd g.next_session_id
  pub held : (fd : ℕ) (s : Session) → g.sessions fd ≡ some s → is_open g.kernel fd ≡ true

-- What an operation keeps: the invariant, the ids that no client has any more, and how many ids it gives.
pub record Kept {K : Type 0} (is_open : K → ℕ → Bool) (ids : ℕ) (g g' : Gateway K) : Type 0 where
  pub gateway : IsGateway is_open g'
  pub retired :
      (sid : ℕ) → sid < g.next_session_id → g.sid_to_fd sid ≡ none → g'.sid_to_fd sid ≡ none
  pub least : g.next_session_id ≤ g'.next_session_id
  pub most : g'.next_session_id ≤ g.next_session_id + ids

module _ {K : Type 0} {is_open : K → ℕ → Bool} where
  pub unchanged : (g : Gateway K) → IsGateway is_open g → Kept is_open 0 g g
  unchanged g v = record {
    gateway = v;
    retired = λ sid h e. e;
    least = omega arith;
    most = omega arith;
  }

  pub at_most : (m n : ℕ) (g g' : Gateway K) → m ≤ n → Kept is_open m g g' → Kept is_open n g g'
  at_most m n g g' h a = record {
    gateway = a.gateway;
    retired = a.retired;
    least = a.least;
    most = omega (arith, a.most);
  }

  pub Kept-trans :
      (m n : ℕ) (g g' g'' : Gateway K)
      → Kept is_open m g g'
      → Kept is_open n g' g''
      → Kept is_open (m + n) g g''
  Kept-trans m n g g' g'' a b = record {
    gateway = b.gateway;
    retired = λ sid h e. b.retired sid (omega (arith, a.least)) (a.retired sid h e);
    least = omega (arith, a.least, b.least);
    most = omega (arith, a.most, b.most);
  }

  -- The kernel and the shards go on, and no descriptor is closed.
  pub onward :
      (g : Gateway K) (k : K) (shards : ShardSet)
      → ((j : ℕ) → is_open g.kernel j ≡ true → is_open k j ≡ true)
      → IsGateway is_open g
      → Kept is_open 0 g (record g { kernel = k; shards = shards })
  onward g k shards h v = record {
    gateway = record { routing = v.routing; held = λ fd s e. h fd (v.held fd s e) };
    retired = λ sid h e. e;
    least = omega arith;
    most = omega arith;
  }

  -- A descriptor that is not open has no session.
  pub closed-none :
      (g : Gateway K) (fd : ℕ)
      → IsGateway is_open g
      → is_open g.kernel fd ≡ false
      → g.sessions fd ≡ none
  closed-none g fd v e = elim (Option-cases (g.sessions fd)) [
    | inl h ↦ h
    | inr (s, h) ↦ ground (arith, e, v.held fd s h)
  ]

module _ {K : Type 0} (net : Sockets K) (posix : IsPosix net) where
  accept_one-Kept :
      (cfd : ℕ) (g : Gateway K)
      → g.next_session_id + 1 < 2 ^ 32
      → g.sessions cfd ≡ none
      → posix.is_open g.kernel cfd ≡ true
      → IsGateway posix.is_open g
      → Kept posix.is_open 1 g (accept_one net cfd g)
  unfolding accept_one
  accept_one-Kept cfd g small unused opened v = record {
    gateway = record {
      routing =
          try_emplace-IsRouting g.sessions g.sid_to_fd g.next_session_id cfd small unused v.routing;
      held = λ fd s e. prepared fd (elim (Bool-cases (fd == cfd)) [
        | inl same ↦ ground (arith, same, opened)
        | inr other ↦ v.held fd s (
            ground (
              arith,
              e,
              other,
              ap (λ (m : ℕ → Option Session). m fd)
                  (try_emplace-update g.sessions g.sid_to_fd g.next_session_id cfd
                    (init g.next_session_id) unused),
            ))
      ]);
    };
    retired = λ sid h e. update-unrouted g.sessions g.sid_to_fd g.next_session_id sid cfd h e;
    least = omega arith;
    most = omega arith;
  }
    where
      prepared :
          (j : ℕ)
          → posix.is_open g.kernel j ≡ true
          → posix.is_open (net.watch cfd (net.set_nodelay cfd (net.set_nonblocking cfd g.kernel))) j
            ≡ true
      prepared j h =
          posix.watch_keeps cfd _ j
            (posix.nodelay_keeps cfd _ j (posix.nonblocking_keeps cfd g.kernel j h))

  pub accept_all-Kept :
      (rounds : ℕ) (g : Gateway K)
      → g.next_session_id + rounds < 2 ^ 32
      → IsGateway posix.is_open g
      → Kept posix.is_open rounds g (accept_all net rounds g)
  unfolding accept_all
  accept_all-Kept zero g small v = unchanged g v
  accept_all-Kept (suc rounds) g small v = elim (Option-cases (net.accept g.kernel).0) [
    | inl h ↦
        rw (h, accept_all)
          (at_most 0 (suc rounds) g _ (omega arith)
            (onward g (net.accept g.kernel).1 g.shards (posix.accept_keeps g.kernel) v))
    | inr (fd, h) ↦
        let g1 = record g { kernel = (net.accept g.kernel).1 } in
        let ready = onward g g1.kernel g.shards (posix.accept_keeps g.kernel) v in
        let one =
          accept_one-Kept fd g1 (omega arith)
            (closed-none g fd v (posix.accept_fresh g.kernel fd h))
            (posix.accept_opens g.kernel fd h) ready.gateway in
        let rest =
          accept_all-Kept rounds (accept_one net fd g1) (omega (arith, one.most)) one.gateway in
        rw (h, accept_all)
          (at_most (0 + (1 + rounds)) (suc rounds) g _ (omega arith)
            (Kept-trans 0 (1 + rounds) g g1 _ ready (Kept-trans 1 rounds g1 _ _ one rest)))
  ]

  pub close_session-Kept :
      (fd : ℕ) (g : Gateway K)
      → IsGateway posix.is_open g
      → Kept posix.is_open 0 g (close_session net fd g)
  unfolding close_session
  close_session-Kept fd g v = record {
    gateway = record {
      routing = erase-IsRouting g.sessions g.sid_to_fd g.next_session_id fd v.routing;
      held = λ j s e. elim (Bool-cases (j == fd)) [
        | inl same ↦ ground (arith, same, e)
        | inr other ↦
            posix.close_keeps fd _ j (ground (arith, other))
              (posix.unwatch_keeps fd g.kernel j (v.held j s (ground (arith, other, e))))
      ];
    };
    retired = λ sid h e. forget-unrouted g.sessions g.sid_to_fd g.next_session_id sid fd e;
    least = omega arith;
    most = omega arith;
  }
