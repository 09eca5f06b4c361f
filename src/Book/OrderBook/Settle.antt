-- ===== src/Book/OrderBook/Settle.antt =====
-- include/lx/book/order_book.hpp: `add_order` after its match: the remainder rests, or the slot is freed.
use lite_exchange.Base.{
  ℕ, ◌≡◌, refl, ◌∙◌, Bool, true, false, not, arith, List, update, update_ne, Bool-cases, inl, inr,
  sym, ◌==◌, ==_iff,
}
use mathlib.Core.Bool.{false≢true}
use lite_exchange.Proto.Messages.{NewOrder, is_buy}
use lite_exchange.Book.Order.{Order}
use lite_exchange.Book.Pool.{Pool, with_slots, free}
use lite_exchange.Book.Matching.{Dims, Arena, Matching, Flow}
use lite_exchange.Book.OrderBook.{Book, price_to_idx, settle}
use lite_exchange.Book.OrderBook.Sweep.{Swept}
use lite_exchange.Book.OrderBook.MatchDone.{MatchDone}
use lite_exchange.Book.OrderBook.Admit.{CanAdmit, opening}
use lite_exchange.Book.OrderBook.AddDone.{rests, AddDone}
use lite_exchange.Book.OrderBook.Matched.{uidx, was_other, slot_use, slot_gen}
use lite_exchange.Book.OrderBook.Rested.{
  rested-Relinks, rested_elsewhere, rested-IsBook, freed-IsBook, settled_rest, settled_free,
}
use lite_exchange.Book.OrderBook.Standing.{
  matched_elsewhere, matched_symbols, stands, rested_ages, freed_ages, came, slot_stands, not_met,
}

free_slots : (x : ℕ) (p : Pool Order) → (free x p).slots ≡ p.slots
unfolding free
free_slots x p = refl

module _ {d : Dims} {b : Book} {a : Arena} {live : ℕ → Bool} {q : Bool → ℕ → List ℕ}
    {msg : NewOrder} {slot : ℕ} (v : CanAdmit d b a live q msg slot) {s : Swept} {flow : Flow}
    {m : Matching}
    (e : MatchDone
      (not (is_buy msg.side))
      d
      (price_to_idx b)
      (update live slot true)
      slot
      (price_to_idx b msg.price)
      (q (not (is_buy msg.side)))
      (opening msg slot b a)
      s
      flow
      m) where
  pub settle-AddDone :
      AddDone d b a.pool.slots live msg slot a.pool.gen
        (price_to_idx b msg.price)
        q
        s
        (settle (is_buy msg.side) msg slot (price_to_idx b msg.price) b (flow, m))
  unfolding with_slots
  settle-AddDone = elim (Bool-cases (rests msg s.left)) [
    | inl stays ↦ rw (settled_rest v e stays) (record {
      queues = e.queues;
      in_use = e.in_use;
      fills = e.fills;
      ended = e.flow_is;
      handle = rw (stays, slot_gen v e) refl;
      met = e.rest;
      not_met = not_met v e;
      book = rw stays (rested-IsBook v e (ground arith));
      rested = λ h. (slot_use v e, slot_gen v e);
      touches = record {
        elsewhere = λ x n h k.
            let (same, used) = matched_elsewhere v e x h k in
            (rested_elsewhere v e x h k ∙ same, used);
        only =
            λ x c i p. (came v e) x c i ((rested-Relinks v e).symbol x ∙ matched_symbols v e x) p;
        kept = λ x h. elim (Bool-cases (x == slot)) [
          | inl new ↦
              inl (is_buy msg.side, uidx v e, rw ((==_iff x slot).0 new) (slot_stands v e stays))
          | inr old ↦ inr (stands v e x (λ z. ground arith) h)
        ];
        ages = rested_ages v e;
      };
    })
    | inr goes ↦ rw (settled_free v e goes) (record {
      queues = e.queues;
      in_use = update e.in_use slot false;
      fills = e.fills;
      ended = e.flow_is;
      handle = rw goes refl;
      met = e.rest;
      not_met = not_met v e;
      book = rw goes (freed-IsBook v e);
      rested = λ h. absurd (false≢true (sym goes ∙ h));
      touches = record {
        elsewhere = λ x n h k.
            let (same, used) = matched_elsewhere v e x h k in
            (
              rw (free_slots slot m.arena.pool) same,
              update_ne e.in_use slot false x (was_other v e x h) ∙ used,
            );
        only = λ x c i p.
            (came v e) x c i (rw (free_slots slot m.arena.pool) (matched_symbols v e x)) p;
        kept = λ x h. elim (Bool-cases (x == slot)) [
          | inl new ↦ ground (arith, new, h)
          | inr old ↦ inr (stands v e x (λ z. ground arith) (ground (arith, old, h)))
        ];
        ages = freed_ages v e;
      };
    })
  ]
