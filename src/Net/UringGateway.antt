-- ===== src/Net/UringGateway.antt =====
-- include/lx/net/uring_gateway.hpp: the io_uring reactor over a shard, as a machine that takes completions
-- and leaves a trace of its calls of the library and the kernel. `busy` says how often `io_uring_get_sqe`
-- has no place before it has one, by what was called before.
pub mod Tags
pub mod Invariant
use Prim.Native.Nat.{bit_and, bit_or}
use lite_exchange.Base.{
  ℕ, zero, suc, ◌+◌, ◌-◌, ◌*◌, ◌/◌, ◌%◌, ◌^◌, ℤ, pos, negsuc, Bool, true, false, ◌==◌,
  if◌then◌else◌, Option, none, some, List, [], ◌∷◌, ◌++◌, length, take, update, add32, uint32_max,
}
use lite_exchange.Proto.Messages.{InboundMsg, OutboundMsg, outbound_hdr}
use lite_exchange.Proto.Codec.{Bytes}
use lite_exchange.Proto.Codec.Outbound.{wire}
use lite_exchange.Queue.Spsc
use lite_exchange.Engine.Shard.{Shard}
use lite_exchange.Net.Session.{Session, append, consume}
use lite_exchange.Net.Session
use lite_exchange.Net.Routing.{Sessions, try_emplace, forget}

abbrev pub send_slots : ℕ
send_slots = 512

-- INVALID_SLOT
abbrev pub invalid_slot : ℕ
invalid_slot = uint32_max

-- OP_ACCEPT, OP_RECV and OP_SEND
abbrev pub op_accept : ℕ
op_accept = 0

abbrev pub op_recv : ℕ
op_recv = 1

abbrev pub op_send : ℕ
op_send = 2

unfoldable pub tag : ℕ → ℕ → ℕ
tag op payload = bit_or (op * 2 ^ 56 % 2 ^ 64) payload

unfoldable pub tag_op : ℕ → ℕ
tag_op d = d / 2 ^ 56

-- d & 0x00FFFFFFFFFFFFFF
unfoldable pub tag_payload : ℕ → ℕ
tag_payload d = bit_and d (2 ^ 56 - 1)

-- What is prepared in a submission entry; a send by its descriptor, its slot and its length.
pub data Request : Type 0 where
  multishot_accept : ℕ → Request
  recv : ℕ → Request
  send : ℕ → ℕ → ℕ → Request

-- The calls: an entry with its user data; `io_uring_submit`; the wait with its seconds and nanoseconds;
-- `io_uring_cq_advance`; the blocking `send`; and of the destructor, `io_uring_queue_exit`.
pub data Effect : Type 0 where
  prep : Request → ℕ → Effect
  submit queue_exit : Effect
  wait_cqe : ℕ → ℕ → Effect
  cq_advance : ℕ → Effect
  send_now : ℕ → Bytes → Effect
  set_nodelay close : ℕ → Effect

-- A completion; of a receive, with the bytes that the kernel left in the buffer of the connection.
-- `more` is IORING_CQE_F_MORE.
pub record Cqe : Type 0 where
  pub user_data : ℕ
  pub res : ℤ
  pub more : Bool
  pub buf : Bytes

-- A `Conn` is its session here.
pub record UringGateway : Type 0 where
  pub shard : Shard
  pub listen_fd : ℕ
  pub port : ℕ
  pub next_session_id : ℕ
  pub conns : Sessions
  pub sid_to_fd : ℕ → Option ℕ
  pub running : Bool
  pub send_pool : ℕ → OutboundMsg
  pub free_slots : ℕ → ℕ
  pub free_top : ℕ
  pub trace : List Effect

abbrev pub call : Effect → UringGateway → UringGateway
call e u = record u { trace = u.trace ++ e ∷ [] }

unfoldable pub submit_all : ℕ → UringGateway → UringGateway
submit_all zero u = u
submit_all (suc n) u = submit_all n (call submit u)

-- `inbound().push` of the shard.
unfoldable pub push_inbound : ℕ → InboundMsg → Shard → Bool × Shard
push_inbound ring_bits msg shard =
    let (taken, ring) = Spsc.push ring_bits msg shard.inbound in
    (taken, record shard { inbound = ring })

unfoldable pub alloc_send_slot : UringGateway → ℕ × UringGateway
alloc_send_slot u =
    if u.free_top == 0
    then (invalid_slot, u)
    else (u.free_slots (u.free_top - 1), record u { free_top = u.free_top - 1 })

unfoldable pub free_send_slot : ℕ → UringGateway → UringGateway
free_send_slot slot u = record u {
  free_slots = update u.free_slots u.free_top slot;
  free_top = add32 u.free_top 1;
}

unfoldable pub close_conn : ℕ → UringGateway → UringGateway
close_conn fd u =
    call (close fd)
      (record u { sid_to_fd = forget fd u.conns u.sid_to_fd; conns = update u.conns fd none })

-- The members before the first request; `zero_msg` is what the pool holds then.
abbrev pub blank : ℕ → ℕ → Shard → OutboundMsg → UringGateway
blank listen_fd port shard zero_msg = record {
  shard = shard;
  listen_fd = listen_fd;
  port = port;
  next_session_id = 1;
  conns = λ _. none;
  sid_to_fd = λ _. none;
  running = true;
  send_pool = λ _. zero_msg;
  free_slots = λ i. i;
  free_top = send_slots;
  trace = [];
}

module _ (busy : List Effect → ℕ) (ring_bits : ℕ) where
  unfoldable pub get_sqe : UringGateway → UringGateway
  unfolding submit_all
  get_sqe u = submit_all (busy u.trace) u

  unfoldable pub arm_accept : UringGateway → UringGateway
  arm_accept u = call (prep (multishot_accept u.listen_fd) (tag op_accept 0)) (get_sqe u)

  -- `conns_.at(fd)` is there in both callers.
  unfoldable pub arm_recv : ℕ → UringGateway → UringGateway
  arm_recv fd u = call (prep (recv fd) (tag op_recv fd)) (get_sqe u)

  unfoldable pub add_conn : ℕ → UringGateway → UringGateway
  add_conn cfd u =
      let sid = u.next_session_id in
      call (set_nodelay cfd) (record u {
        next_session_id = add32 sid 1;
        conns = try_emplace cfd (Session.init sid) u.conns;
        sid_to_fd = update u.sid_to_fd sid (some cfd);
      })

  -- `if (cqe->res >= 0)`
  unfoldable pub accepted : ℤ → UringGateway → UringGateway
  accepted (pos cfd) u = arm_recv cfd (add_conn cfd u)
  accepted (negsuc n) u = u

  unfoldable pub on_accept : Cqe → UringGateway → UringGateway
  on_accept c u = let u' = accepted c.res u in if c.more then u' else arm_accept u'

  -- Of a connection with its session, for `n` bytes.
  unfoldable pub on_bytes : ℕ → ℕ → Bytes → Session → UringGateway → UringGateway
  on_bytes fd n buf s u =
      let (count, s', shard) = consume (push_inbound ring_bits) (append (take n buf) s) u.shard in
      let u' = record u { conns = update u.conns fd (some s'); shard = shard } in
      if s'.closed then close_conn fd u' else arm_recv fd u'

  unfoldable pub on_recv : ℕ → Cqe → UringGateway → UringGateway
  on_recv fd c u = elim (u.conns fd) [
    | none ↦ u
    | some s ↦ elim c.res [
      | pos n ↦ elim n [ zero ↦ close_conn fd u | suc k ↦ on_bytes fd (suc k) c.buf s u ]
      | negsuc n ↦ close_conn fd u
    ]
  ]

  unfoldable pub handle_cqe : Cqe → UringGateway → UringGateway
  handle_cqe c u =
      let op = tag_op c.user_data in
      let payload = tag_payload c.user_data in
      if op == op_accept
      then on_accept c u
      else if op == op_recv
      then on_recv payload c u
      else if op == op_send
      then free_send_slot payload u
      else u

  -- `send_pool_[slot] = out`, and the send of it.
  unfoldable pub post_send : ℕ → ℕ → OutboundMsg → UringGateway → UringGateway
  post_send fd slot m u =
      call (prep (send fd slot (outbound_hdr m).len) (tag op_send slot))
        (get_sqe (record u { send_pool = update u.send_pool slot m }))

  -- The body of the loop of `drain_outbound`.
  unfoldable pub deliver : OutboundMsg → UringGateway → UringGateway
  deliver m u = elim (u.sid_to_fd (outbound_hdr m).session_id) [
    | none ↦ u
    | some fd ↦
        let (slot, u') = alloc_send_slot u in
        if slot == invalid_slot then call (send_now fd (wire m)) u' else post_send fd slot m u'
  ]

  -- `while (outbound().pop(out))`, over the messages that are there.
  unfoldable pub drain_queue : List OutboundMsg → UringGateway → UringGateway
  drain_queue [] u = u
  drain_queue (m ∷ ms) u =
      drain_queue ms (deliver m (record u { shard = record u.shard { outbound = ms } }))

  unfoldable pub drain_outbound : UringGateway → UringGateway
  unfolding drain_queue
  drain_outbound u = drain_queue u.shard.outbound u

  unfoldable pub handle_cqes : List Cqe → UringGateway → UringGateway
  handle_cqes [] u = u
  handle_cqes (c ∷ cs) u = handle_cqes cs (handle_cqe c u)

  -- `if (timeout_ms > 0)`
  unfoldable pub await_cqe : ℕ → UringGateway → UringGateway
  await_cqe timeout_ms u =
      if timeout_ms == 0
      then u
      else call (wait_cqe (timeout_ms / 1000) (timeout_ms % 1000 * 1000000)) u

  -- `io_uring_for_each_cqe`: the completions that are there by then, `cqes`.
  unfoldable pub poll_once : ℕ → List Cqe → UringGateway → UringGateway
  unfolding drain_outbound handle_cqes await_cqe
  poll_once timeout_ms cqes u =
      let waited = await_cqe timeout_ms (call submit (drain_outbound u)) in
      call (cq_advance (length cqes)) (handle_cqes cqes waited)

  -- For what the polls find; the flag is read before each.
  unfoldable pub run : List (List Cqe) → UringGateway → UringGateway
  run [] u = u
  run (cqes ∷ polls) u = elim u.running [ true ↦ run polls (poll_once 10 cqes u) | false ↦ u ]

  -- The end of the constructor, with the listener that it opened.
  unfoldable pub start : ℕ → ℕ → Shard → OutboundMsg → UringGateway
  start listen_fd port shard zero_msg =
      call submit (arm_accept (blank listen_fd port shard zero_msg))

-- The loop of the destructor over the keys of the map.
unfoldable pub close_all : List ℕ → UringGateway → UringGateway
close_all [] u = u
close_all (fd ∷ fds) u = close_all fds (call (close fd) u)

-- `~UringGateway`; `fds` are the descriptors of `conns_`, in the order of the map.
unfoldable pub destroy : List ℕ → UringGateway → UringGateway
unfolding close_all
destroy fds u = call (close u.listen_fd) (close_all fds (call queue_exit u))

unfoldable pub stop : UringGateway → UringGateway
stop u = record u { running = false }
