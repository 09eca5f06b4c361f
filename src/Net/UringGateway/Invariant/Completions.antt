-- ===== src/Net/UringGateway/Invariant/Completions.antt =====
-- include/lx/net/uring_gateway.hpp: the completions of receives, and of all requests.
use lite_exchange.Base.{
  ℕ, zero, suc, ◌^◌, ◌≤◌, ◌<◌, ◌≡◌, ◌∙◌, ap, ◌≢◌, inl, inr, arith, ◌==◌, Bool-cases, Option-cases,
  some, List, [], ◌∷◌, ◌++◌, update, ℤ, pos, negsuc, take,
}
use mathlib.Core.Path.{subst}
use mathlib.Core.List.{append-nil}
use lite_exchange.Proto.Codec.{Bytes}
use lite_exchange.Engine.Shard.{Shard}
use lite_exchange.Net.Session.{Session, append, consume}
use lite_exchange.Net.Session.Ends.{consume-session_id}
use lite_exchange.Net.UringGateway.{
  UringGateway, Effect, close, Cqe, tag, tag_op, tag_payload, op_accept, op_recv, op_send,
  close_conn, on_bytes, on_recv, push_inbound, free_send_slot, handle_cqe,
}
use lite_exchange.Net.UringGateway.Tags.{tag_payload-tag}
use lite_exchange.Net.UringGateway.Invariant.{
  IsUring, Known, accepting, receiving, sending, count, present, prepared, after, Accepts,
}
use lite_exchange.Net.UringGateway.Invariant.Flight.{
  count-within, Known-within, tag-ne, retrace, Added, none_added, call-Added,
}
use lite_exchange.Net.UringGateway.Invariant.Conns.{replaced-IsUring, close_conn-IsUring}
use lite_exchange.Net.UringGateway.Invariant.Sends.{free_send_slot-IsUring}
use lite_exchange.Net.UringGateway.Invariant.Steps.{
  Stepped, quiet, after-other, rearmed, arm_recv-trace, on_accept-Stepped,
}

module _ (busy : List Effect → ℕ) (ring_bits : ℕ) where
  on_bytes-Stepped :
      (fd n : ℕ) (buf : Bytes) (t : Session) (u : UringGateway) (a b : List ℕ)
      → fd < 2 ^ 31
      → u.conns fd ≡ some t
      → IsUring u (a ++ tag op_recv fd ∷ b)
      → Stepped u (on_bytes busy ring_bits fd n buf t u) (a ++ b)
  unfolding on_bytes append close_conn prepared
  on_bytes-Stepped fd n buf t u a b h e v = elim (Bool-cases r.1.closed) [
    | inl gone ↦ rw gone (
        quiet u (close_conn fd u1) (a ++ b) (call-Added (close fd) u)
          (close_conn-IsUring fd u1 a b h v1))
    | inr stays ↦
        let armed = arm_recv-trace busy ring_bits fd u1 in
        let v2 : IsUring u1 ((a ++ tag op_recv fd ∷ b) ++ []) =
          rw (append-nil (a ++ tag op_recv fd ∷ b)) v1 in
        rw (stays, armed.1)
          (record {
            new = tag op_recv fd ∷ [];
            added = armed.2;
            uring =
                retrace u1 armed.0 ((a ++ b) ++ tag op_recv fd ∷ [])
                  (rearmed u1 (tag op_recv fd) a b [] v2);
          })
  ]
    where
      r : ℕ × Session × Shard
      r = consume (push_inbound ring_bits) (append (take n buf) t) u.shard

      u1 : UringGateway
      u1 = record u { conns = update u.conns fd (some r.1); shard = r.2 }

      v1 : IsUring u1 (a ++ tag op_recv fd ∷ b)
      v1 =
          replaced-IsUring fd t r.1 r.2 u (a ++ tag op_recv fd ∷ b) e
            (consume-session_id (push_inbound ring_bits) (append (take n buf) t) u.shard) v

  on_recv-Stepped :
      (fd : ℕ) (c : Cqe) (u : UringGateway) (a b : List ℕ)
      → fd < 2 ^ 31
      → IsUring u (a ++ tag op_recv fd ∷ b)
      → Stepped u (on_recv busy ring_bits fd c u) (a ++ b)
  unfolding on_recv close_conn prepared
  on_recv-Stepped fd c u a b h v = elim (Option-cases (u.conns fd)) [
    | inl absent ↦ absurd (omega (arith, armed, v.receives fd h, ap present absent))
    | inr (t, e) ↦ rw (e, on_recv) (by_result c.res t e)
  ]
    where
      armed : 1 ≤ count (tag op_recv fd) (a ++ tag op_recv fd ∷ b)
      armed = ground (arith, count-within (tag op_recv fd) (tag op_recv fd) a b)

      closed : Stepped u (close_conn fd u) (a ++ b)
      closed =
          quiet u (close_conn fd u) (a ++ b) (call-Added (close fd) u)
            (close_conn-IsUring fd u a b h v)

      by_result :
          (res : ℤ) (t : Session)
          → u.conns fd ≡ some t
          → Stepped u
              (elim res as (λ _. UringGateway) [
                | pos n ↦ elim n [
                  | zero ↦ close_conn fd u
                  | suc k ↦ on_bytes busy ring_bits fd (suc k) c.buf t u
                ]
                | negsuc n ↦ close_conn fd u
              ])
              (a ++ b)
      by_result (negsuc n) t e = closed
      by_result (pos zero) t e = closed
      by_result (pos (suc k)) t e = on_bytes-Stepped fd (suc k) c.buf t u a b h e v

  -- A completion of what is in flight.
  pub handle_cqe-Stepped :
      (c : Cqe) (u : UringGateway) (a b : List ℕ)
      → Accepts c u
      → IsUring u (a ++ c.user_data ∷ b)
      → Stepped u (handle_cqe busy ring_bits c u) (after c a b)
  unfolding handle_cqe
  handle_cqe-Stepped c u a b k v = by_kind (Known-within c.user_data a b v.known)
    where
      -- The tag of what completed, taken apart.
      parts :
          (op x : ℕ)
          → op < 2 ^ 8
          → x < 2 ^ 56
          → c.user_data ≡ tag op x
          → (tag_op c.user_data ≡ op) × (tag_payload c.user_data ≡ x)
      parts op x ho hx e = (
        ap tag_op e ∙ (tag_payload-tag op x ho hx).0,
        ap tag_payload e ∙ (tag_payload-tag op x ho hx).1,
      )

      at_tag : (d : ℕ) → c.user_data ≡ d → IsUring u (a ++ d ∷ b)
      at_tag d e = subst (λ (d : ℕ). IsUring u (a ++ d ∷ b)) e v

      no_accept :
          (op x : ℕ)
          → op < 2 ^ 8
          → x < 2 ^ 56
          → op ≢ op_accept
          → c.user_data ≡ tag op x
          → after c a b ≡ a ++ b
      no_accept op x ho hx n e = after-other c a b (
          ap (λ (d : ℕ). d == tag op_accept 0) e
          ∙ tag-ne op op_accept x 0 ho (omega arith) hx (omega arith) (inl n))

      by_kind : Known c.user_data → Stepped u (handle_cqe busy ring_bits c u) (after c a b)
      by_kind (accepting e) =
          rw (parts op_accept 0 (omega arith) (omega arith) e).0
            (on_accept-Stepped busy ring_bits c u a b e k v)
      by_kind (receiving fd h e) =
          let p = parts op_recv fd (omega arith) (omega arith) e in
          rw (no_accept op_recv fd (omega arith) (omega arith) (λ e. omega arith) e)
            (rw (p.0, p.1) (on_recv-Stepped fd c u a b h (at_tag (tag op_recv fd) e)))
      by_kind (sending slot h e) =
          let p = parts op_send slot (omega arith) (omega arith) e in
          rw (no_accept op_send slot (omega arith) (omega arith) (λ e. omega arith) e) (
            rw (p.0, p.1)
              (quiet u (free_send_slot slot u) (a ++ b) (same_trace slot)
                (free_send_slot-IsUring slot u a b h (at_tag (tag op_send slot) e))))
        where
          same_trace : (slot : ℕ) → Added [] u (free_send_slot slot u)
          same_trace slot = unfold free_send_slot in none_added u
