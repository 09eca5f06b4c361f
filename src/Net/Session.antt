-- ===== src/Net/Session.antt =====
-- include/lx/net/session.hpp: reassembly and framing of a client's bytes. The sink of `consume` is any
-- type with a `push`, as in the code's template.
pub mod Ends
pub mod Chunks
pub mod Stamped
use lite_exchange.Base.{
  ℕ, zero, suc, ◌+◌, ◌-◌, ◌*◌, Bool, true, false, ◌&&◌, ltb, ◌==◌, if◌then◌else◌, List, [], ◌∷◌,
  ◌++◌, length, take, drop,
}
use lite_exchange.Proto.Messages.{MsgType, Header, NewOrder, CancelOrder, InboundMsg}
use lite_exchange.Proto.Codec.{
  Bytes, DecodeResult, try_decode, read_new_order, read_cancel, size_new_order, size_cancel_order,
}

-- `recv_buf` is the first `recv_len_` bytes of the buffer.
pub record Session : Type 0 where
  pub session_id : ℕ
  pub recv_buf : Bytes
  pub closed : Bool

abbrev pub recv_buf_size : ℕ
recv_buf_size = 4096

unfoldable pub init : ℕ → Session
init sid = record { session_id = sid; recv_buf = []; closed = false }

-- What does not fit is dropped.
unfoldable pub append : Bytes → Session → Session
append bytes s = record s {
  recv_buf = s.recv_buf ++ take (recv_buf_size - length s.recv_buf) bytes;
}

-- The message of a frame that is forwarded, with the server's session id.
unfoldable pub new_order_msg : ℕ → Bytes → InboundMsg
new_order_msg sid frame =
    let m = read_new_order frame in
    InboundMsg.new_order (record m { hdr = record m.hdr { session_id = sid } })

unfoldable pub cancel_msg : ℕ → Bytes → InboundMsg
cancel_msg sid frame =
    let m = read_cancel frame in
    InboundMsg.cancel (record m { hdr = record m.hdr { session_id = sid } })

-- What the loop does with a frame: forward a message, or skip the frame.
pub data Forward : Type 0 where
  send : InboundMsg → Forward
  skip : Forward

unfoldable pub forward : ℕ → MsgType → ℕ → Bytes → Forward
forward sid MsgType.new_order len frame =
    if len == size_new_order then send (new_order_msg sid frame) else skip
forward sid MsgType.cancel_order len frame =
    if len == size_cancel_order then send (cancel_msg sid frame) else skip
forward sid _ len frame = skip

-- How the loop of `consume` ends: the bytes left, whether the session closes, the frames counted, and
-- the sink. `stuck` is the end of the fuel.
pub record Consumed {ℓ} (Q : Type ℓ) : Type ℓ where
  pub rest : Bytes
  pub invalid : Bool
  pub count : ℕ
  pub sink : Q
  pub stuck : Bool

module _ {ℓ} {Q : Type ℓ} (push : InboundMsg → Q → Bool × Q) where
  abbrev stop : Bytes → Bool → ℕ → Q → Consumed Q
  stop bytes bad count q = record {
    rest = bytes;
    invalid = bad;
    count = count;
    sink = q;
    stuck = false;
  }

  -- The rounds of the loop, on fuel; `bytes` is what is not consumed yet.
  unfoldable pub consume_loop : ℕ → ℕ → Bytes → ℕ → Q → Consumed Q
  consume_loop zero sid bytes count q = record {
    rest = bytes;
    invalid = false;
    count = count;
    sink = q;
    stuck = true;
  }
  consume_loop (suc fuel) sid bytes count q = elim (try_decode bytes) [
    | DecodeResult.need_more ↦ stop bytes false count q
    | DecodeResult.invalid ↦ stop bytes true count q
    | DecodeResult.ok type len ↦ elim (forward sid type len bytes) [
      | skip ↦ consume_loop fuel sid (drop len bytes) (count + 1) q
      | send m ↦
          let (taken, q') = push m q in
          let rest = consume_loop fuel sid (drop len bytes) (count + 1) q' in
          if taken then rest else stop bytes false count q'
    ]
  ]

  -- The fuel is the number of bytes and one round more: a frame has at least 8 bytes.
  unfoldable pub consume : Session → Q → ℕ × Session × Q
  unfolding consume_loop
  consume s q =
      let r = consume_loop (suc (length s.recv_buf)) s.session_id s.recv_buf 0 q in
      if s.closed
      then (0, s, q)
      else (r.count, record s { recv_buf = r.rest; closed = r.invalid }, r.sink)
