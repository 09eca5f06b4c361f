-- ===== src/Book/OrderBook/Matched.antt =====
-- include/lx/book/order_book.hpp: what `add_order` finds after its match: the own side as it was, and the slot of
-- the new order.
use lite_exchange.Base.{
  ℕ, ◌<◌, ◌≡◌, ◌∙◌, ap, ◌≢◌, Bool, true, not, arith, List, update, update_self, All, All-zip,
  Absent, Absent-All, sym,
}
use mathlib.Core.Bool.{false≢true}
use lite_exchange.Proto.Messages.{NewOrder, is_buy}
use lite_exchange.Book.Order.{Order, null_idx}
use lite_exchange.Book.Pool.{with_slots}
use lite_exchange.Book.Matching.{Dims, Arena, Matching, Flow, slots_of}
use lite_exchange.Book.OrderBook.{Book, own, price_to_idx, order_of}
use lite_exchange.Book.OrderBook.Sweep.{Swept}
use lite_exchange.Book.OrderBook.BestLevel.{IsLadder}
use lite_exchange.Book.OrderBook.Match.{Member}
use lite_exchange.Book.OrderBook.MatchDone.{MatchDone}
use lite_exchange.Book.OrderBook.Invariant.{Members, IsLadder-frame, Members-frame}
use lite_exchange.Book.OrderBook.Admit.{
  CanAdmit, opening, opening-slots, opening-use, slot-Absent, own-apart,
}

module _ {d : Dims} {b : Book} {a : Arena} {live : ℕ → Bool} {q : Bool → ℕ → List ℕ}
    {msg : NewOrder} {slot : ℕ} (v : CanAdmit d b a live q msg slot) {s : Swept} {flow : Flow}
    {m : Matching}
    (e : MatchDone
      (not (is_buy msg.side))
      d
      (price_to_idx b)
      (update live slot true)
      slot
      (price_to_idx b msg.price)
      (q (not (is_buy msg.side)))
      (opening msg slot b a)
      s
      flow
      m) where
  abbrev pub uidx : ℕ
  uidx = price_to_idx b msg.price

  pub small : slot ≢ null_idx
  small z = ground (arith, v.in_arena, v.sized.1)

  pub was_other : (x : ℕ) → live x ≡ true → x ≢ slot
  was_other x h z = false≢true (sym v.was_free ∙ ap live (sym z) ∙ h)

  -- The own side is as it was.
  pub own_slots : (i : ℕ) → All (λ x. slots_of m x ≡ a.pool.slots x) (q (is_buy msg.side) i)
  own_slots i =
      All-zip (q (is_buy msg.side) i) (λ x k h. k ∙ h)
        (All-zip (q (is_buy msg.side) i) (λ x p k. e.others x p k)
          (Absent-All slot (q (is_buy msg.side) i) (slot-Absent v (is_buy msg.side) i))
          (own-apart v (is_buy msg.side) i))
        (opening-slots v (is_buy msg.side) i)

  own_use : (i : ℕ) → All (λ x. e.in_use x ≡ live x) (q (is_buy msg.side) i)
  own_use i =
      All-zip (q (is_buy msg.side) i) (λ x k h. e.others_use x k ∙ h)
        (own-apart v (is_buy msg.side) i) (opening-use v (is_buy msg.side) i)

  pub own-IsLadder :
      IsLadder (is_buy msg.side) d (slots_of m) (own (is_buy msg.side) b) (q (is_buy msg.side))
  own-IsLadder = IsLadder-frame own_slots (v.side (is_buy msg.side))

  pub own-Members :
      Members
        (is_buy msg.side)
        (price_to_idx b)
        (slots_of m)
        e.in_use
        d.max_orders
        (q (is_buy msg.side))
  own-Members = Members-frame own_slots own_use (v.members (is_buy msg.side))

  pub other-Members :
      Members (not (is_buy msg.side)) (price_to_idx b) (slots_of m) e.in_use d.max_orders e.queues
  other-Members = record { at = e.ready.members }

  pub slot_use : e.in_use slot ≡ true
  slot_use = e.others_use slot (slot-Absent v (not (is_buy msg.side))) ∙ update_self live slot true

  pub slot_gen : m.arena.pool.gen slot ≡ a.pool.gen slot
  unfolding with_slots
  slot_gen = e.gens slot (slot-Absent v (not (is_buy msg.side)))

  pub own_fresh : (i : ℕ) → Absent slot (q (is_buy msg.side) i)
  own_fresh = slot-Absent v (is_buy msg.side)

  -- The remainder, where it rests.
  pub slot-Member :
      0 < s.left
      → Member
          (is_buy msg.side)
          (price_to_idx b)
          (slots_of m)
          e.in_use
          d.max_orders
          (price_to_idx b msg.price)
          slot
  unfolding with_slots
  slot-Member h = (
    v.in_arena,
    slot_use,
    rw e.agg_left h,
    ap is_buy (
        e.same.side slot
        ∙ ap (λ (o : Order). o.side) (update_self a.pool.slots slot (order_of msg))),
    ap (price_to_idx b) (
        e.same.price slot
        ∙ ap (λ (o : Order). o.price) (update_self a.pool.slots slot (order_of msg))),
  )
