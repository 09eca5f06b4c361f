-- ===== src/Net/UringGateway/Invariant/Conns.antt =====
-- include/lx/net/uring_gateway.hpp: connections that come, stay and go.
use lite_exchange.Base.{
  ℕ, ◌+◌, ◌^◌, ◌≤◌, ◌<◌, ◌≡◌, refl, ◌∙◌, ◌≢◌, inl, inr, arith, true, false, ◌==◌, ==→eq, Bool-cases,
  Option, none, some, List, [], ◌∷◌, ◌++◌, update,
}
use lite_exchange.Net.Session.{Session, init}
use lite_exchange.Engine.Shard.{Shard}
use lite_exchange.Net.Routing.{
  try_emplace, try_emplace-update, try_emplace-IsRouting, replace-IsRouting, erase-IsRouting,
}
use lite_exchange.Net.UringGateway.{
  UringGateway, Effect, tag, op_accept, op_recv, op_send, add_conn, close_conn,
}
use lite_exchange.Net.UringGateway.Invariant.{IsUring, receiving, present}
use lite_exchange.Net.UringGateway.Invariant.Flight.{
  count-within, count-last, Known-without, Known-last, tag-ne,
}

-- Tags of receives, and of what is no receive.
recv-same : (j fd : ℕ) → j ≡ fd → (tag op_recv j == tag op_recv fd) ≡ true
recv-same j fd e = rw e (ground arith)

recv-apart :
    (j fd : ℕ) → j < 2 ^ 31 → fd < 2 ^ 31 → j ≢ fd → (tag op_recv j == tag op_recv fd) ≡ false
recv-apart j fd hj hf n =
    tag-ne op_recv op_recv j fd (omega arith) (omega arith) (omega arith) (omega arith) (inr n)

accept-recv : (fd : ℕ) → fd < 2 ^ 31 → (tag op_accept 0 == tag op_recv fd) ≡ false
accept-recv fd h =
    tag-ne op_accept op_recv 0 fd (omega arith) (omega arith) (omega arith) (omega arith)
      (inl (λ e. omega arith))

send-recv : (slot fd : ℕ) → slot < 512 → fd < 2 ^ 31 → (tag op_send slot == tag op_recv fd) ≡ false
send-recv slot fd hs h =
    tag-ne op_send op_recv slot fd (omega arith) (omega arith) (omega arith) (omega arith)
      (inl (λ e. omega arith))

-- A new connection, with its receive.
pub add_conn-IsUring :
    (busy : List Effect → ℕ) (ring_bits fd : ℕ) (u : UringGateway) (flight : List ℕ)
    → u.conns fd ≡ none
    → fd < 2 ^ 31
    → u.next_session_id + 1 < 2 ^ 32
    → IsUring u flight
    → IsUring (add_conn busy ring_bits fd u) (flight ++ tag op_recv fd ∷ [])
unfolding add_conn
add_conn-IsUring busy ring_bits fd u flight unused h small v = record {
  routing = try_emplace-IsRouting u.conns u.sid_to_fd u.next_session_id fd small unused v.routing;
  live = v.live;
  pool = v.pool;
  accepts = count-last _ _ flight ∙ ground (arith, accept-recv fd h, v.accepts);
  receives = λ j hj.
      count-last _ _ flight
      ∙ rw entry (elim (Bool-cases (j == fd)) [
        | inl same ↦ ground (arith, same, recv-same j fd (==→eq j fd same), v.receives j hj, unused)
        | inr other ↦
            ground (arith, other, recv-apart j fd hj h (ground (arith, other)), v.receives j hj)
      ]);
  sends =
      λ slot hs. count-last _ _ flight ∙ ground (arith, send-recv slot fd hs h, v.sends slot hs);
  known = Known-last _ flight v.known (receiving fd h refl);
  fds = λ j hj. rw entry (ground (arith, v.fds j hj));
}
  where
    entry :
        try_emplace fd (init u.next_session_id) u.conns
        ≡ update u.conns fd (some (init u.next_session_id))
    entry =
        try_emplace-update u.conns u.sid_to_fd u.next_session_id fd (init u.next_session_id) unused

-- A session goes on; the shard may have changed.
pub replaced-IsUring :
    (fd : ℕ) (s s' : Session) (shard : Shard) (u : UringGateway) (flight : List ℕ)
    → u.conns fd ≡ some s
    → s'.session_id ≡ s.session_id
    → IsUring u flight
    → IsUring (record u { conns = update u.conns fd (some s'); shard = shard }) flight
replaced-IsUring fd s s' shard u flight e same v = record {
  routing = replace-IsRouting u.conns u.sid_to_fd u.next_session_id fd s s' e same v.routing;
  live = v.live;
  pool = v.pool;
  accepts = v.accepts;
  receives = λ j hj. v.receives j hj ∙ ground (arith, e);
  sends = v.sends;
  known = v.known;
  fds = λ j hj. ground (arith, e, v.fds j hj);
}

present-le : (o : Option Session) → present o ≤ 1
present-le none = omega arith
present-le (some s) = omega arith

-- A connection closes when its receive has completed.
pub close_conn-IsUring :
    (fd : ℕ) (u : UringGateway) (a b : List ℕ)
    → fd < 2 ^ 31
    → IsUring u (a ++ tag op_recv fd ∷ b)
    → IsUring (close_conn fd u) (a ++ b)
unfolding close_conn
close_conn-IsUring fd u a b h v = record {
  routing = erase-IsRouting u.conns u.sid_to_fd u.next_session_id fd v.routing;
  live = v.live;
  pool = v.pool;
  accepts =
      ground
        (arith, count-within (tag op_accept 0) (tag op_recv fd) a b, accept-recv fd h, v.accepts);
  receives = λ j hj. elim (Bool-cases (j == fd)) [
    | inl same ↦ ground (
      arith,
      same,
      count-within (tag op_recv j) (tag op_recv fd) a b,
      recv-same j fd (==→eq j fd same),
      v.receives j hj,
      present-le (u.conns j),
    )
    | inr other ↦ ground (
      arith,
      other,
      count-within (tag op_recv j) (tag op_recv fd) a b,
      recv-apart j fd hj h (ground (arith, other)),
      v.receives j hj,
    )
  ];
  sends = λ slot hs. ground (
    arith,
    count-within (tag op_send slot) (tag op_recv fd) a b,
    send-recv slot fd hs h,
    v.sends slot hs,
  );
  known = Known-without _ a b v.known;
  fds = λ j hj. ground (arith, v.fds j hj);
}
