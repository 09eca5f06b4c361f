-- ===== src/Net/Session/Stamped.antt =====
-- What `consume` of include/lx/net/session.hpp forwards: whatever the client wrote into a header, the
-- engine sees the id of the session, and a type that says which member of the union is active.
use lite_exchange.Base.{
  ℕ, zero, suc, ◌+◌, ◌≡◌, refl, sym, arith, inl, inr, Bool, ◌==◌, Bool-cases, length, drop,
}
use lite_exchange.Proto.Messages.{MsgType, InboundMsg, inbound_hdr, msg_type_of}
use lite_exchange.Proto.Codec.{
  Bytes, DecodeResult, try_decode, read_le, read_header, read_new_order, read_cancel,
}
use lite_exchange.Net.Session.{
  Session, send, forward, new_order_msg, cancel_msg, consume_loop, consume,
}
use lite_exchange.Net.Session.Chunks.Loop.{Forward-cases, DecodeResult-cases}

-- The header's type, by the active member.
abbrev pub member_type : InboundMsg → MsgType
member_type (InboundMsg.header h) = MsgType.logon
member_type (InboundMsg.new_order m) = MsgType.new_order
member_type (InboundMsg.cancel m) = MsgType.cancel_order

pub record IsStamped (sid : ℕ) (m : InboundMsg) : Type 0 where
  pub session : (inbound_hdr m).session_id ≡ sid
  pub typed : (inbound_hdr m).type ≡ member_type m

decoded-type :
    (bytes : Bytes) (type : MsgType) (len : ℕ)
    → try_decode bytes ≡ DecodeResult.ok type len
    → msg_type_of (read_le 1 (drop 2 bytes)) ≡ type
unfolding try_decode
decoded-type bytes type len e = ground (arith, e)

forward-IsStamped :
    (sid : ℕ) (type : MsgType) (len : ℕ) (bytes : Bytes) (m : InboundMsg)
    → msg_type_of (read_le 1 (drop 2 bytes)) ≡ type
    → forward sid type len bytes ≡ send m
    → IsStamped sid m
unfolding forward new_order_msg cancel_msg read_new_order read_cancel read_header
forward-IsStamped sid MsgType.new_order len bytes m t e = elim (Bool-cases (len == 32)) [
  | inl whole ↦
      let same : new_order_msg sid bytes ≡ m = ground (arith, e, whole) in
      rw (sym same) (record { session = refl; typed = t })
  | inr other ↦ ground (arith, e, other)
]
forward-IsStamped sid MsgType.cancel_order len bytes m t e = elim (Bool-cases (len == 16)) [
  | inl whole ↦
      let same : cancel_msg sid bytes ≡ m = ground (arith, e, whole) in
      rw (sym same) (record { session = refl; typed = t })
  | inr other ↦ ground (arith, e, other)
]
forward-IsStamped sid MsgType.logon len bytes m t e = cc
forward-IsStamped sid MsgType.ack len bytes m t e = cc
forward-IsStamped sid MsgType.reject len bytes m t e = cc
forward-IsStamped sid MsgType.fill len bytes m t e = cc
forward-IsStamped sid (MsgType.raw n) len bytes m t e = cc

module _ {ℓ κ} {Q : Type ℓ} (push : InboundMsg → Q → Bool × Q) (P : Q → Type κ) where
  loop-IsStamped :
      (f sid : ℕ) (bytes : Bytes) (count : ℕ) (q : Q)
      → ((m : InboundMsg) (q : Q) → IsStamped sid m → P q → P (push m q).1)
      → P q
      → P (consume_loop push f sid bytes count q).sink
  unfolding consume_loop
  loop-IsStamped zero sid bytes count q keeps p = p
  loop-IsStamped (suc f) sid bytes count q keeps p = elim (DecodeResult-cases (try_decode bytes)) [
    | inl e ↦ rw (e, consume_loop) p
    | inr (inl e) ↦ rw (e, consume_loop) p
    | inr (inr (type, len, e)) ↦ elim (Forward-cases (forward sid type len bytes)) [
      | inl h ↦
          rw (e, consume_loop, h) (loop-IsStamped f sid (drop len bytes) (count + 1) q keeps p)
      | inr (m, h) ↦
          let stamped = forward-IsStamped sid type len bytes m (decoded-type bytes type len e) h in
          rw (e, consume_loop, h)
            (elim (Bool-cases (push m q).0) [
              | inl taken ↦ rw taken (
                  loop-IsStamped f sid (drop len bytes) (count + 1) (push m q).1 keeps
                    (keeps m q stamped p))
              | inr full ↦ rw full (keeps m q stamped p)
            ])
    ]
  ]

  -- A fact about the sink that the push of a stamped message keeps is kept by `consume`, whatever bytes
  -- the client sent.
  pub consume-IsStamped :
      (s : Session) (q : Q)
      → ((m : InboundMsg) (q : Q) → IsStamped s.session_id m → P q → P (push m q).1)
      → P q
      → P (consume push s q).2
  unfolding consume
  consume-IsStamped s q keeps p = elim (Bool-cases s.closed) [
    | inl shut ↦ rw shut p
    | inr opened ↦
        rw opened (loop-IsStamped (suc (length s.recv_buf)) s.session_id s.recv_buf 0 q keeps p)
  ]
