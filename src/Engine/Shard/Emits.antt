-- ===== src/Engine/Shard/Emits.antt =====
-- include/lx/engine/shard.hpp: a report leaves the books alone.
use lite_exchange.Base.{ℕ, refl, ◌==◌, List, [], ◌∷◌, Bool-cases, inl, inr}
use lite_exchange.Proto.Messages.{Fill, RejectReason}
use lite_exchange.Engine.Shard.{Shard, emit_fill, emit_fills, emit_ack, emit_reject}
use lite_exchange.Engine.Shard.Invariant.{SameBooks, SameBooks-trans}

pub unmoved : (s : Shard) → SameBooks s s
unmoved s = record { arena = refl; books = refl; local_of = refl; shard_id = refl }

pub emit_ack-SameBooks :
    (order_id token session : ℕ) (s : Shard) → SameBooks s (emit_ack order_id token session s)
unfolding emit_ack
emit_ack-SameBooks order_id token session s = record {
  arena = refl;
  books = refl;
  local_of = refl;
  shard_id = refl;
}

pub emit_reject-SameBooks :
    (order_id : ℕ) (reason : RejectReason) (session : ℕ) (s : Shard)
    → SameBooks s (emit_reject order_id reason session s)
unfolding emit_reject
emit_reject-SameBooks order_id reason session s = record {
  arena = refl;
  books = refl;
  local_of = refl;
  shard_id = refl;
}

emit_fill-SameBooks : (session : ℕ) (f : Fill) (s : Shard) → SameBooks s (emit_fill session f s)
unfolding emit_fill
emit_fill-SameBooks session f s = elim (Bool-cases (session == f.hdr.session_id)) [
  | inl self ↦ rw self (record { arena = refl; books = refl; local_of = refl; shard_id = refl })
  | inr other ↦ rw other (record { arena = refl; books = refl; local_of = refl; shard_id = refl })
]

pub emit_fills-SameBooks :
    (session : ℕ) (fs : List Fill) (s : Shard) → SameBooks s (emit_fills session fs s)
unfolding emit_fills
emit_fills-SameBooks session [] s = unmoved s
emit_fills-SameBooks session (f ∷ fs) s =
    SameBooks-trans (emit_fill-SameBooks session f s)
      (emit_fills-SameBooks session fs (emit_fill session f s))
