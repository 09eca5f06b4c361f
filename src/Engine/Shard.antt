-- ===== src/Engine/Shard.antt =====
-- include/lx/engine/shard.hpp: the books of a shard over one arena, and the handlers of its messages.
-- `push_out` retries until the outbound ring takes the message, so what a shard sends is the list of
-- its messages in order; how the ring carries them is `Queue/Spsc`.
pub mod Reports
pub mod Invariant
pub mod Emits
pub mod Handlers
pub mod Ticks
pub mod Cancels
pub mod Room
pub mod Rounds
pub mod Served
pub mod Start
use lite_exchange.Base.{
  ℕ, zero, suc, ◌+◌, ◌-◌, ◌^◌, ℤ, int64_min, int64_max, Bool, true, false, not, ◌&&◌, ◌||◌, ltb,
  leb, ◌==◌, if◌then◌else◌, none, some, List, [], ◌∷◌, ◌++◌, update,
}
use lite_exchange.Proto.Messages.{
  MsgType, NewOrder, CancelOrder, Fill, RejectReason, InboundMsg, OutboundMsg,
}
use lite_exchange.Book.Order.{Order}
use lite_exchange.Book.Pool
use lite_exchange.Book.OrderHandle.{valid, to_token, from_token}
use lite_exchange.Book.Matching.{Dims, Arena}
use lite_exchange.Book.OrderBook.{
  Book, Added, add_order, cancel_order, best_bid_price, best_ask_price,
}
use lite_exchange.Book.OrderBook
use lite_exchange.Queue.Spsc.{SpscQueue, pop}

-- `ring_bits` is the logarithm of `queue_depth`.
pub record ShardConfig : Type 0 where
  pub dims : Dims
  pub open dims use *
  pub ring_bits : ℕ
  pub max_symbols : ℕ
  pub symbol_space : ℕ

abbrev pub max_fills_per_order : ℕ
max_fills_per_order = 64

-- UINT16_MAX
abbrev pub no_book : ℕ
no_book = 2 ^ 16 - 1

-- `SYMBOL_SPACE`
abbrev pub symbol_range : ShardConfig → ℕ
symbol_range c = if c.symbol_space == 0 then c.max_symbols else c.symbol_space

pub record Shard : Type 0 where
  pub arena : Arena
  pub books : ℕ → Book
  pub local_of : ℕ → ℕ
  pub inbound : SpscQueue InboundMsg
  pub outbound : List OutboundMsg
  pub running : Bool
  pub shard_id : ℕ

-- for (s : symbols) local_of_[s] = next++
unfoldable pub assign_books : List ℕ → ℕ → (ℕ → ℕ) → ℕ → ℕ
assign_books [] next local_of = local_of
assign_books (s ∷ symbols) next local_of = assign_books symbols (next + 1) (update local_of s next)

-- The mapping of the constructor: the identity on [0, max_symbols) for an empty list of symbols.
unfoldable pub symbol_table : ShardConfig → List ℕ → ℕ → ℕ
unfolding assign_books
symbol_table c [] = λ s. if ltb s c.max_symbols && ltb s (symbol_range c) then s else no_book
symbol_table c (s ∷ symbols) = assign_books (s ∷ symbols) 0 (λ _. no_book)

unfoldable pub local_book : ShardConfig → Shard → ℕ → ℕ
local_book c s symbol = if ltb symbol (symbol_range c) then s.local_of symbol else no_book

unfoldable pub best_bid : ShardConfig → Shard → ℕ → ℤ
best_bid c s symbol =
    let book = local_book c s symbol in
    if book == no_book then int64_min else best_bid_price (s.books book)

unfoldable pub best_ask : ShardConfig → Shard → ℕ → ℤ
best_ask c s symbol =
    let book = local_book c s symbol in
    if book == no_book then int64_max else best_ask_price (s.books book)

abbrev pub push_out : OutboundMsg → Shard → Shard
push_out m s = record s { outbound = s.outbound ++ m ∷ [] }

unfoldable pub emit_ack : ℕ → ℕ → ℕ → Shard → Shard
emit_ack order_id token session_id s =
    push_out
      (OutboundMsg.ack (record {
        hdr = record { len = 24; type = MsgType.ack; flags = 0; session_id = session_id };
        order_id = order_id;
        order_token = token;
      }))
      s

unfoldable pub emit_reject : ℕ → RejectReason → ℕ → Shard → Shard
emit_reject order_id reason session_id s =
    push_out
      (OutboundMsg.reject (record {
        hdr = record { len = 24; type = MsgType.reject; flags = 0; session_id = session_id };
        order_id = order_id;
        reason = reason;
      }))
      s

abbrev pub addressed : ℕ → Fill → Fill
addressed session f = record f { hdr = record f.hdr { session_id = session } }

unfoldable pub emit_fill : ℕ → Fill → Shard → Shard
emit_fill aggressor_session f s =
    let passive = push_out (OutboundMsg.fill f) s in
    if aggressor_session == f.hdr.session_id
    then passive
    else push_out (OutboundMsg.fill (addressed aggressor_session f)) passive

unfoldable pub emit_fills : ℕ → List Fill → Shard → Shard
emit_fills session [] s = s
emit_fills session (f ∷ fs) s = emit_fills session fs (emit_fill session f s)

unfoldable pub with_added : ℕ → Added → Shard → Shard
with_added book r s = record s { books = update s.books book r.book; arena = r.arena }

unfoldable pub handle_new : ShardConfig → NewOrder → ℕ → Shard → Shard
handle_new c order session_id s =
    let book = local_book c s order.symbol_id in
    let r = add_order c.dims max_fills_per_order order [] (s.books book) s.arena in
    let filled = emit_fills session_id r.fills (with_added book r s) in
    if book == no_book
    then emit_reject order.order_id RejectReason.unknown_symbol session_id s
    else if valid r.handle
    then emit_ack order.order_id (to_token s.shard_id r.handle) session_id filled
    else filled

unfoldable pub handle_cancel : ShardConfig → CancelOrder → ℕ → Shard → Shard
handle_cancel c cancel session_id s =
    let h = from_token cancel.order_token in
    let book = local_book c s (s.arena.pool.slots h.slot).symbol in
    let (done, b, a) = cancel_order c.dims h (s.books book) s.arena in
    let refused = emit_reject 0 RejectReason.unknown_order session_id s in
    if leb c.max_orders h.slot || not (s.arena.pool.gen h.slot == h.gen)
    then refused
    else if (book == no_book) || not done
    then refused
    else emit_ack 0 cancel.order_token session_id
        (record s { books = update s.books book b; arena = a })

-- The switch of `tick` on the type of the header. Reading a member that is not active has no meaning
-- in the language; `Session::consume` makes the two agree.
unfoldable pub dispatch : ShardConfig → InboundMsg → Shard → Shard
dispatch c (InboundMsg.header h) s = s
dispatch c (InboundMsg.new_order m) s = elim m.hdr.type [
  | MsgType.new_order ↦ handle_new c m m.hdr.session_id s
  | _ ↦ s
]
dispatch c (InboundMsg.cancel m) s = elim m.hdr.type [
  | MsgType.cancel_order ↦ handle_cancel c m m.hdr.session_id s
  | _ ↦ s
]

unfoldable pub tick : ShardConfig → Shard → Shard
tick c s =
    let (msg, rest) = pop c.ring_bits s.inbound in
    elim msg [ none ↦ s | some m ↦ dispatch c m (record s { inbound = rest }) ]

-- `run`, for a number of rounds: the flag is read before each.
unfoldable pub run : ℕ → ShardConfig → Shard → Shard
run zero c s = s
run (suc rounds) c s = elim s.running [ true ↦ run rounds c (tick c s) | false ↦ s ]

unfoldable pub stop : Shard → Shard
stop s = record s { running = false }

unfoldable pub init : ShardConfig → ℤ → ℤ → ℕ → List ℕ → Order → InboundMsg → Shard
init c base_price tick_size shard_id symbols zero_order zero_msg = record {
  arena = record { pool = Pool.init c.max_orders zero_order; order_session = λ _. 0 };
  books = λ _. OrderBook.init base_price tick_size;
  local_of = symbol_table c symbols;
  inbound = record { head = 0; tail = 0; slots = λ _. zero_msg };
  outbound = [];
  running = true;
  shard_id = shard_id;
}
