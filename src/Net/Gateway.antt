-- ===== src/Net/Gateway.antt =====
-- include/lx/net/gateway.hpp: the epoll reactor over a set of shards. The state of the kernel is a part of
-- the state; the loops that end when a call has no more to give are on fuel, a number of rounds.
pub mod Invariant
pub mod Delivery
pub mod Loops
pub mod Shutdown
use lite_exchange.Base.{
  ℕ, zero, suc, ◌+◌, Bool, true, false, ◌||◌, ◌==◌, if◌then◌else◌, Option, none, some, List, [],
  ◌∷◌, length, drop, update, add32,
}
use lite_exchange.Proto.Messages.{InboundMsg, OutboundMsg, outbound_hdr}
use lite_exchange.Proto.Codec.{Bytes}
use lite_exchange.Proto.Codec.Outbound.{wire}
use lite_exchange.Engine.ShardSet.{ShardSet, outbound, with_outbound}
use lite_exchange.Engine.ShardSet
use lite_exchange.Net.Session.{Session, append, consume}
use lite_exchange.Net.Session
use lite_exchange.Net.Routing.{Sessions, try_emplace, forget}
use lite_exchange.Net.Sockets.{Sockets, Received, bytes, hung_up, failed}

pub record Gateway (K : Type 0) : Type 0 where
  pub shards : ShardSet
  pub listen_fd : ℕ
  pub epoll_fd : ℕ
  pub port : ℕ
  pub next_session_id : ℕ
  pub sessions : Sessions
  pub sid_to_fd : ℕ → Option ℕ
  pub running : Bool
  pub kernel : K

-- What the loop of `read_session` leaves.
pub record Receiving (K : Type 0) : Type 0 where
  pub session : Session
  pub shards : ShardSet
  pub kernel : K
  pub hung_up : Bool

module _ {K : Type 0} (net : Sockets K) where
  -- The body of the loop of `accept_all`.
  unfoldable pub accept_one : ℕ → Gateway K → Gateway K
  accept_one cfd g =
      let sid = g.next_session_id in
      record g {
        kernel = net.watch cfd (net.set_nodelay cfd (net.set_nonblocking cfd g.kernel));
        next_session_id = add32 sid 1;
        sessions = try_emplace cfd (Session.init sid) g.sessions;
        sid_to_fd = update g.sid_to_fd sid (some cfd);
      }

  unfoldable pub accept_all : ℕ → Gateway K → Gateway K
  accept_all zero g = g
  accept_all (suc rounds) g =
      let (cfd, kernel) = net.accept g.kernel in
      elim cfd [
        | none ↦ record g { kernel = kernel }
        | some fd ↦ accept_all rounds (accept_one fd (record g { kernel = kernel }))
      ]

  unfoldable pub close_session : ℕ → Gateway K → Gateway K
  close_session fd g = record g {
    sid_to_fd = forget fd g.sessions g.sid_to_fd;
    kernel = net.close fd (net.unwatch fd g.kernel);
    sessions = update g.sessions fd none;
  }

  -- The loop of `read_session`, until `recv` has no bytes.
  unfoldable pub receive : ℕ → ℕ → Session → ShardSet → K → Receiving K
  receive zero fd s shards k = record { session = s; shards = shards; kernel = k; hung_up = false }
  receive (suc rounds) fd s shards k =
      let (r, kernel) = net.recv fd k in
      elim r [
        | bytes buf ↦
            let (count, s', shards') = consume ShardSet.push (append buf s) shards in
            receive rounds fd s' shards' kernel
        | hung_up ↦ record { session = s; shards = shards; kernel = kernel; hung_up = true }
        | failed ↦ record { session = s; shards = shards; kernel = kernel; hung_up = false }
      ]

  unfoldable pub received : ℕ → Receiving K → Gateway K → Gateway K
  received fd r g = record g {
    sessions = update g.sessions fd (some r.session);
    shards = r.shards;
    kernel = r.kernel;
  }

  unfoldable pub read_session : ℕ → ℕ → Gateway K → Gateway K
  read_session rounds fd g = elim (g.sessions fd) [
    | none ↦ g
    | some s ↦
        let r = receive rounds fd s g.shards g.kernel in
        let g' = received fd r g in
        if r.hung_up || r.session.closed then close_session fd g' else g'
  ]

  -- The loop of `send_all`; a round sends at least a byte, so the length is fuel enough.
  unfoldable pub send_rest : ℕ → ℕ → Bytes → K → K
  send_rest zero fd bs k = k
  send_rest (suc rounds) fd [] k = k
  send_rest (suc rounds) fd (b ∷ bs) k =
      let (w, kernel) = net.send fd (b ∷ bs) k in
      let rest = send_rest rounds fd (drop w (b ∷ bs)) kernel in if w == 0 then kernel else rest

  unfoldable pub send_all : ℕ → Bytes → K → K
  unfolding send_rest
  send_all fd bs k = send_rest (length bs) fd bs k

  -- The body of the loop of `drain_outbound`.
  unfoldable pub deliver : OutboundMsg → Gateway K → Gateway K
  deliver m g = elim (g.sid_to_fd (outbound_hdr m).session_id) [
    | none ↦ g
    | some fd ↦ record g { kernel = send_all fd (wire m) g.kernel }
  ]

  -- `while (outbound(i).pop(out))`, over the messages that are there.
  unfoldable pub drain_shard : ℕ → List OutboundMsg → Gateway K → Gateway K
  drain_shard i [] g = g
  drain_shard i (m ∷ ms) g =
      drain_shard i ms (deliver m (record g { shards = with_outbound i ms g.shards }))

  -- `todo` shards from `i` on.
  unfoldable pub drain_from : ℕ → ℕ → Gateway K → Gateway K
  drain_from zero i g = g
  drain_from (suc todo) i g = drain_from todo (i + 1) (drain_shard i (outbound i g.shards) g)

  unfoldable pub drain_outbound : Gateway K → Gateway K
  unfolding drain_from
  drain_outbound g = drain_from g.shards.count 0 g

  unfoldable pub handle_event : ℕ → ℕ → Gateway K → Gateway K
  handle_event rounds fd g =
      if fd == g.listen_fd then accept_all rounds g else read_session rounds fd g

  unfoldable pub handle_events : ℕ → List ℕ → Gateway K → Gateway K
  handle_events rounds [] g = g
  handle_events rounds (fd ∷ fds) g = handle_events rounds fds (handle_event rounds fd g)

  unfoldable pub poll_once : ℕ → ℕ → Gateway K → Gateway K
  poll_once rounds timeout_ms g =
      let (events, kernel) = net.wait timeout_ms g.kernel in
      drain_outbound (handle_events rounds events (record g { kernel = kernel }))

  -- `run`, for a number of polls: the flag is read before each.
  unfoldable pub run : ℕ → ℕ → Gateway K → Gateway K
  run zero rounds g = g
  run (suc polls) rounds g = elim g.running [
    | true ↦ run polls rounds (poll_once rounds 10 g)
    | false ↦ g
  ]

  -- The loop of the destructor over the keys of the map.
  unfoldable pub close_all : List ℕ → K → K
  close_all [] k = k
  close_all (fd ∷ fds) k = close_all fds (net.close fd k)

  -- `~Gateway`; `fds` are the descriptors of `sessions_`, in the order of the map. The other two are not
  -- negative: the constructor throws before the object is there.
  unfoldable pub destroy : List ℕ → Gateway K → K
  unfolding close_all
  destroy fds g = net.close g.listen_fd (net.close g.epoll_fd (close_all fds g.kernel))

unfoldable pub stop : {K : Type 0} → Gateway K → Gateway K
stop g = record g { running = false }
