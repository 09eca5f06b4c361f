-- ===== src/Engine/Shard/Reports.antt =====
-- include/lx/engine/shard.hpp: what `handle_new` sends, in order.
use lite_exchange.Base.{
  ℕ, ◌≡◌, refl, sym, ◌∙◌, ap, ◌==◌, if◌then◌else◌, inl, inr, Bool-cases, List, [], ◌∷◌, ◌++◌,
}
use mathlib.Core.List.{append-nil, append_assoc}
use lite_exchange.Proto.Messages.{MsgType, NewOrder, Fill, RejectReason, OutboundMsg}
use lite_exchange.Book.OrderHandle.{valid, to_token}
use lite_exchange.Book.OrderBook.{Added, add_order}
use lite_exchange.Engine.Shard.{
  ShardConfig, Shard, handle_new, emit_fill, emit_fills, emit_ack, emit_reject, addressed,
  local_book, no_book, max_fills_per_order, with_added,
}

-- The reports of a fill: one to the owner of the resting order, and one to the aggressor unless it is
-- the same session.
abbrev pub fill_reports : ℕ → Fill → List OutboundMsg
fill_reports session f =
    if session == f.hdr.session_id
    then OutboundMsg.fill f ∷ []
    else OutboundMsg.fill f ∷ OutboundMsg.fill (addressed session f) ∷ []

abbrev pub reports : ℕ → List Fill → List OutboundMsg
reports session [] = []
reports session (f ∷ fs) = fill_reports session f ++ reports session fs

emit_fill-outbound :
    (session : ℕ) (f : Fill) (s : Shard)
    → (emit_fill session f s).outbound ≡ s.outbound ++ fill_reports session f
unfolding emit_fill
emit_fill-outbound session f s = elim (Bool-cases (session == f.hdr.session_id)) [
  | inl self ↦ rw self refl
  | inr other ↦ rw other (
      append_assoc s.outbound (OutboundMsg.fill f ∷ [])
        (OutboundMsg.fill (addressed session f) ∷ []))
]

emit_fills-outbound :
    (session : ℕ) (fs : List Fill) (s : Shard)
    → (emit_fills session fs s).outbound ≡ s.outbound ++ reports session fs
unfolding emit_fills
emit_fills-outbound session [] s = sym (append-nil s.outbound)
emit_fills-outbound session (f ∷ fs) s =
    emit_fills-outbound session fs (emit_fill session f s)
    ∙ ap (λ (ms : List OutboundMsg). ms ++ reports session fs) (emit_fill-outbound session f s)
    ∙ append_assoc s.outbound (fill_reports session f) (reports session fs)

-- The answer to the client: an acknowledgement with the cancel token where the order rests.
abbrev pub answer : ℕ → NewOrder → Added → ℕ → List OutboundMsg
answer shard order r session =
    if valid r.handle
    then OutboundMsg.ack (record {
      hdr = record { len = 24; type = MsgType.ack; flags = 0; session_id = session };
      order_id = order.order_id;
      order_token = to_token shard r.handle;
    })
      ∷ []
    else []

-- For a symbol of the shard, `handle_new` sends the reports of the fills in the order in which the book
-- made them, and then the acknowledgement if the order rests; for any other symbol, one reject.
pub handle_new-outbound :
    (c : ShardConfig) (order : NewOrder) (session : ℕ) (s : Shard)
    → let book = local_book c s order.symbol_id in
      let r = add_order c.dims max_fills_per_order order [] (s.books book) s.arena in
      (handle_new c order session s).outbound
      ≡ s.outbound
        ++ (if book == no_book
            then OutboundMsg.reject (record {
              hdr = record { len = 24; type = MsgType.reject; flags = 0; session_id = session };
              order_id = order.order_id;
              reason = RejectReason.unknown_symbol;
            })
              ∷ []
            else reports session r.fills ++ answer s.shard_id order r session)
unfolding handle_new emit_ack emit_reject with_added
handle_new-outbound c order session s =
    elim (Bool-cases (local_book c s order.symbol_id == no_book)) [
      | inl elsewhere ↦ rw elsewhere refl
      | inr here ↦ elim (Bool-cases (valid r.handle)) [
        | inr gone ↦
            rw (here, gone)
              (filled
                ∙ ap (λ (ms : List OutboundMsg). s.outbound ++ ms)
                    (sym (append-nil (reports session r.fills))))
        | inl rested ↦
            rw (here, rested) (rw filled (append_assoc s.outbound (reports session r.fills) _))
      ]
    ]
  where
    r : Added
    r =
        add_order c.dims max_fills_per_order order [] (s.books (local_book c s order.symbol_id))
          s.arena

    filled :
        (emit_fills session r.fills (with_added (local_book c s order.symbol_id) r s)).outbound
        ≡ s.outbound ++ reports session r.fills
    filled =
        unfold with_added in
        emit_fills-outbound session r.fills (with_added (local_book c s order.symbol_id) r s)
