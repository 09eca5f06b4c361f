-- ===== src/Engine/Shard/Room.antt =====
-- include/lx/engine/shard.hpp: `push_out` spins while the outbound ring is full. Here is when it does not.
use lite_exchange.Base.{
  ℕ, ◌<◌, ◌≤◌, ◌≡◌, refl, sym, ◌∙◌, ap, ◌==◌, ◌||◌, not, leb, inl, inr, Bool-cases, List, [], ◌∷◌,
  ◌++◌, length, length-append, arith,
}
use mathlib.Core.Path.{subst}
use mathlib.Core.List.{append-nil, append_assoc}
use lite_exchange.Proto.Messages.{MsgType, InboundMsg, OutboundMsg, CancelOrder}
use lite_exchange.Book.OrderHandle.{from_token}
use lite_exchange.Book.OrderBook.{cancel_order}
use lite_exchange.Engine.Shard.{
  ShardConfig, Shard, handle_new, handle_cancel, emit_ack, emit_reject, local_book, no_book,
  dispatch,
}
use lite_exchange.Engine.Shard.Reports.{handle_new-outbound}

-- From one outbound queue to a later one by pushes, each of which finds fewer than `depth` messages.
pub data Pushes (depth : ℕ) : List OutboundMsg → List OutboundMsg → Type 0 where
  none_left : {o o' : List OutboundMsg} → o' ≡ o → Pushes depth o o'
  pushed :
      {o o' : List OutboundMsg} (m : OutboundMsg)
      → length o < depth
      → Pushes depth (o ++ m ∷ []) o'
      → Pushes depth o o'

append-Pushes :
    (depth : ℕ) (o ms : List OutboundMsg) → length (o ++ ms) ≤ depth → Pushes depth o (o ++ ms)
append-Pushes depth o [] h = none_left (append-nil o)
append-Pushes depth o (m ∷ ms) h =
    let e = append_assoc o (m ∷ []) ms in
    pushed m (omega (arith, h, length-append o (m ∷ ms))) (
      subst (Pushes depth (o ++ m ∷ [])) e
        (append-Pushes depth (o ++ m ∷ []) ms (omega (arith, h, ap length e))))

-- What is sent comes after what was.
abbrev pub Extends : Shard → Shard → Type 0
Extends s s' = (ms : List OutboundMsg) × (s'.outbound ≡ s.outbound ++ ms)

nothing_sent : (s : Shard) → Extends s s
nothing_sent s = ([], sym (append-nil s.outbound))

pub Extends-trans : (s t u : Shard) → Extends s t → Extends t u → Extends s u
Extends-trans s t u (ms, e) (ns, f) =
    (ms ++ ns, f ∙ ap (λ (o : List OutboundMsg). o ++ ns) e ∙ append_assoc s.outbound ms ns)

pub Extends-Pushes :
    (depth : ℕ) (s s' : Shard)
    → Extends s s'
    → length s'.outbound ≤ depth
    → Pushes depth s.outbound s'.outbound
Extends-Pushes depth s s' (ms, e) h = rw e (append-Pushes depth s.outbound ms (rw e at h))

handle_cancel-Extends :
    (c : ShardConfig) (cancel : CancelOrder) (session : ℕ) (s : Shard)
    → Extends s (handle_cancel c cancel session s)
unfolding handle_cancel emit_ack emit_reject
handle_cancel-Extends c cancel session s =
    let h = from_token cancel.order_token in
    let book = local_book c s (s.arena.pool.slots h.slot).symbol in
    let out = cancel_order c.dims h (s.books book) s.arena in
    elim (Bool-cases (leb c.max_orders h.slot || not (s.arena.pool.gen h.slot == h.gen))) [
      | inl stale ↦ rw stale (_, refl)
      | inr current ↦ elim (Bool-cases ((book == no_book) || not out.0)) [
        | inl refused ↦ rw (current, refused) (_, refl)
        | inr done ↦ rw (current, done) (_, refl)
      ]
    ]

pub dispatch-Extends : (c : ShardConfig) (m : InboundMsg) (s : Shard) → Extends s (dispatch c m s)
unfolding dispatch
dispatch-Extends c (InboundMsg.header h) s = nothing_sent s
dispatch-Extends c (InboundMsg.new_order m) s = by_type m.hdr.type
  where
    by_type :
        (t : MsgType)
        → Extends s (elim t [ MsgType.new_order ↦ handle_new c m m.hdr.session_id s | _ ↦ s ])
    by_type MsgType.logon = nothing_sent s
    by_type MsgType.new_order = (_, handle_new-outbound c m m.hdr.session_id s)
    by_type MsgType.cancel_order = nothing_sent s
    by_type MsgType.ack = nothing_sent s
    by_type MsgType.reject = nothing_sent s
    by_type MsgType.fill = nothing_sent s
    by_type (MsgType.raw n) = nothing_sent s
dispatch-Extends c (InboundMsg.cancel m) s = by_type m.hdr.type
  where
    by_type :
        (t : MsgType)
        → Extends s (elim t [ MsgType.cancel_order ↦ handle_cancel c m m.hdr.session_id s | _ ↦ s ])
    by_type MsgType.logon = nothing_sent s
    by_type MsgType.new_order = nothing_sent s
    by_type MsgType.cancel_order = handle_cancel-Extends c m m.hdr.session_id s
    by_type MsgType.ack = nothing_sent s
    by_type MsgType.reject = nothing_sent s
    by_type MsgType.fill = nothing_sent s
    by_type (MsgType.raw n) = nothing_sent s
