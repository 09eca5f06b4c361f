-- ===== src/Net/UringGateway/Invariant.antt =====
-- include/lx/net/uring_gateway.hpp: what is in flight, and what holds of it in every state that the
-- gateway can reach.
pub mod Flight
pub mod Conns
pub mod Sends
pub mod Posts
pub mod Steps
pub mod Completions
pub mod Reached
pub mod Polls
use lite_exchange.Base.{
  ℕ, zero, suc, ◌+◌, ◌-◌, ◌^◌, ◌≤◌, ◌<◌, ◌≡◌, refl, sym, ◌∙◌, ap, ◌≢◌, ◌⊎◌, inl, inr, arith, Bool,
  true, false, ◌&&◌, ◌==◌, if◌then◌else◌, Bool-cases, Option, none, some, List, [], ◌∷◌, ◌++◌, ℤ,
  pos, negsuc, update, All, drop, length,
}
use lite_exchange.Proto.Messages.{OutboundMsg}
use lite_exchange.Engine.Shard.{Shard}
use lite_exchange.Book.Pool.{Pool}
use lite_exchange.Book.Pool.Free.{IsPool}
use lite_exchange.Net.Routing.{IsRouting}
use lite_exchange.Net.UringGateway.{
  UringGateway, Effect, prep, submit, call, Cqe, tag, op_accept, op_recv, op_send, handle_cqe,
  drain_outbound, start,
}

abbrev pub count : ℕ → List ℕ → ℕ
count x [] = 0
count x (y ∷ ys) = (if x == y then 1 else 0) + count x ys

pub count-append : (x : ℕ) (xs ys : List ℕ) → count x (xs ++ ys) ≡ count x xs + count x ys
count-append x [] ys = omega arith
count-append x (y ∷ xs) ys = omega (arith, count-append x xs ys)

-- The user data of the entries that were prepared.
unfoldable pub prepared : List Effect → List ℕ
prepared [] = []
prepared (prep r d ∷ es) = d ∷ prepared es
prepared (e ∷ es) = prepared es

-- Those of the steps from a state to a later one.
abbrev pub entries_since : UringGateway → UringGateway → List ℕ
entries_since u u' = drop (length (prepared u.trace)) (prepared u'.trace)

abbrev pub present {ℓ} : {A : Type ℓ} → Option A → ℕ
present none = 0
present (some a) = 1

-- What a request in flight can be, by its user data.
pub data Known : ℕ → Type 0 where
  accepting : {d : ℕ} → d ≡ tag op_accept 0 → Known d
  receiving : {d : ℕ} (fd : ℕ) → fd < 2 ^ 31 → d ≡ tag op_recv fd → Known d
  sending : {d : ℕ} (slot : ℕ) → slot < 512 → d ≡ tag op_send slot → Known d

-- The send slots as an arena of messages.
abbrev pub as_pool : UringGateway → Pool OutboundMsg
as_pool u = record {
  slots = u.send_pool;
  free_list = u.free_slots;
  gen = λ _. 0;
  free_top = u.free_top;
}

-- With `flight` in flight: the maps agree; there is one accept, one receive of each connection and of no
-- other descriptor, and one send of each slot that is not free and of no other.
pub record IsUring (u : UringGateway) (flight : List ℕ) : Type 0 where
  pub routing : IsRouting u.conns u.sid_to_fd u.next_session_id
  pub live : ℕ → Bool
  pub pool : IsPool 512 (as_pool u) live
  pub accepts : count (tag op_accept 0) flight ≡ 1
  pub receives : (fd : ℕ) → fd < 2 ^ 31 → count (tag op_recv fd) flight ≡ present (u.conns fd)
  pub sends :
      (slot : ℕ) → slot < 512 → count (tag op_send slot) flight ≡ (if live slot then 1 else 0)
  pub known : All Known flight
  pub fds : (fd : ℕ) → 2 ^ 31 ≤ fd → u.conns fd ≡ none

-- A completion takes its request out of flight, but for an accept that goes on.
abbrev pub after : Cqe → List ℕ → List ℕ → List ℕ
after c a b = if c.more && c.user_data == tag op_accept 0 then a ++ c.user_data ∷ b else a ++ b

-- The kernel accepts a connection at a descriptor that is not in use, and counts in an `int`; fewer than
-- 2 ^ 32 clients came.
pub record Accepts (c : Cqe) (u : UringGateway) : Type 0 where
  pub fresh : (fd : ℕ) → c.res ≡ pos fd → u.conns fd ≡ none
  pub small : (fd : ℕ) → c.res ≡ pos fd → fd < 2 ^ 31
  pub ids : u.next_session_id + 1 < 2 ^ 32

module _ (busy : List Effect → ℕ) (ring_bits : ℕ) where
  -- The states, with what is in flight: the gateway drains its shard's messages, handles a completion of
  -- what is in flight, or calls what prepares no entry, and the shard's thread, which runs beside it, takes
  -- messages and sends more, in any order.
  pub data Reach : UringGateway → List ℕ → Type 0 where
    started :
        {u : UringGateway} {flight : List ℕ} (listen_fd port : ℕ) (shard : Shard)
        (zero_msg : OutboundMsg)
        → u ≡ start busy ring_bits listen_fd port shard zero_msg
        → flight ≡ prepared u.trace
        → Reach u flight
    drained :
        {u u' : UringGateway} {flight flight' : List ℕ}
        → Reach u flight
        → u' ≡ drain_outbound busy ring_bits u
        → flight' ≡ flight ++ entries_since u u'
        → Reach u' flight'
    handled :
        {u u' : UringGateway} {flight flight' : List ℕ} (c : Cqe) (a b : List ℕ)
        → Reach u flight
        → flight ≡ a ++ c.user_data ∷ b
        → Accepts c u
        → u' ≡ handle_cqe busy ring_bits c u
        → flight' ≡ after c a b ++ entries_since u u'
        → Reach u' flight'
    sent :
        {u u' : UringGateway} {flight flight' : List ℕ} (shard : Shard)
        → Reach u flight
        → u' ≡ record u { shard = shard }
        → flight' ≡ flight
        → Reach u' flight'
    called :
        {u u' : UringGateway} {flight flight' : List ℕ} (e : Effect)
        → Reach u flight
        → prepared (e ∷ []) ≡ []
        → u' ≡ call e u
        → flight' ≡ flight
        → Reach u' flight'
