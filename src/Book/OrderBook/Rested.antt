-- ===== src/Book/OrderBook/Rested.antt =====
-- include/lx/book/order_book.hpp: the end of `add_order`, where the remainder rests and where the slot is freed.
use lite_exchange.Base.{
  ℕ, ◌<◌, ◌≡◌, refl, ap, Bool, true, false, not, List, [], ◌∷◌, ◌++◌, update, update_ne, All,
  All-map, All-zip, Absent, Absent-All,
}
use lite_exchange.Proto.Messages.{NewOrder, is_buy}
use lite_exchange.Book.Order.{Order}
use lite_exchange.Book.Pool.{with_slots, free}
use lite_exchange.Book.Pool.Free.{free-IsPool}
use lite_exchange.Book.OrderHandle.{none_handle}
use lite_exchange.Book.Matching.{Dims, Arena, Ladder, Matching, Flow, with_pool, slots_of}
use lite_exchange.Book.OrderBook.{Book, own, with_own, price_to_idx, settle, rest_order}
use lite_exchange.Book.OrderBook.FillOne.{pool_with_slots}
use lite_exchange.Book.OrderBook.Sweep.{Swept}
use lite_exchange.Book.OrderBook.MatchDone.{MatchDone}
use lite_exchange.Book.OrderBook.Rest.{
  Relinks, push_back-Relinks, push_back-frame, rest_order-IsLadder,
}
use lite_exchange.Book.OrderBook.Invariant.{
  IsBook, Members-relink, IsLadder-frame, Members-frame, side-Absent, level-Absent, assemble, pick,
}
use lite_exchange.Book.OrderBook.Admit.{CanAdmit, opening, not-ne}
use lite_exchange.Book.OrderBook.AddDone.{rests, Members-push, own_after, own_back}
use lite_exchange.Book.OrderBook.Matched.{
  small, was_other, own_slots, own-IsLadder, own-Members, other-Members, slot_use, own_fresh,
  slot-Member,
}

module _ {d : Dims} {b : Book} {a : Arena} {live : ℕ → Bool} {q : Bool → ℕ → List ℕ}
    {msg : NewOrder} {slot : ℕ} (v : CanAdmit d b a live q msg slot) {s : Swept} {flow : Flow}
    {m : Matching}
    (e : MatchDone
      (not (is_buy msg.side))
      d
      (price_to_idx b)
      (update live slot true)
      slot
      (price_to_idx b msg.price)
      (q (not (is_buy msg.side)))
      (opening msg slot b a)
      s
      flow
      m) where
  abbrev rested : Ladder × (ℕ → Order)
  rested =
      rest_order (is_buy msg.side) (price_to_idx b msg.price) slot (own (is_buy msg.side) b)
        (slots_of m)

  pub rested-Relinks : Relinks (slots_of m) rested.1
  unfolding rest_order
  rested-Relinks = push_back-Relinks (slots_of m) _ slot

  rested-other : (i : ℕ) → All (λ x. rested.1 x ≡ slots_of m x) (e.queues i)
  unfolding rest_order
  rested-other i =
      All-zip (e.queues i)
        (λ x p k.
          push_back-frame (q (is_buy msg.side) (price_to_idx b msg.price)) slot x
            ((own-IsLadder v e).level _) p (k _))
        (Absent-All slot (e.queues i) (e.ready.apart i))
        (side-Absent (own-Members v e) (not-ne (is_buy msg.side)) (other-Members v e) i)

  pub rested_elsewhere :
      (x : ℕ) → live x ≡ true → ((c : Bool) (i : ℕ) → Absent x (q c i)) → rested.1 x ≡ slots_of m x
  unfolding rest_order
  rested_elsewhere x h k =
      push_back-frame (q (is_buy msg.side) (price_to_idx b msg.price)) slot x
        ((own-IsLadder v e).level _) (was_other v e x h) (k (is_buy msg.side) _)

  pub rested-IsBook :
      0 < s.left
      → IsBook d
          (with_own (is_buy msg.side) rested.0 (with_own (not (is_buy msg.side)) m.passive b))
          (with_pool m.arena (with_slots rested.1 m.arena.pool))
          e.in_use
          (pick
            (is_buy msg.side)
            (update
              (q (is_buy msg.side))
              (price_to_idx b msg.price)
              (q (is_buy msg.side) (price_to_idx b msg.price) ++ slot ∷ []))
            e.queues)
  unfolding with_slots
  rested-IsBook h =
      assemble (is_buy msg.side) b rested.0 m.passive v.sized
        (λ i. rw (rested-Relinks.qty i) (e.ready.narrow i)) (pool_with_slots rested.1 e.ready.pool)
        (rest_order-IsLadder (is_buy msg.side) d (price_to_idx b msg.price) slot v.sized
          (own-IsLadder v e) v.on_ladder (small v e) (own_fresh v e)
          (level-Absent (own-Members v e)))
        (IsLadder-frame rested-other e.ready.ladder)
        (Members-relink rested-Relinks
          (Members-push (price_to_idx b msg.price) slot (slot-Member v e h) (own-Members v e)))
        (Members-relink rested-Relinks (other-Members v e))

  -- The slot, where nothing rests.
  freed_use :
      (q' : ℕ → List ℕ)
      → ((i : ℕ) → Absent slot (q' i))
      → (i : ℕ) → All (λ x. update e.in_use slot false x ≡ e.in_use x) (q' i)
  freed_use q' fresh i =
      All-map (q' i) (λ x p. update_ne e.in_use slot false x p) (Absent-All slot (q' i) (fresh i))

  pub freed-IsBook :
      IsBook d
        (with_own
          (is_buy msg.side)
          (own (is_buy msg.side) b)
          (with_own (not (is_buy msg.side)) m.passive b))
        (with_pool m.arena (free slot m.arena.pool))
        (update e.in_use slot false)
        (pick (is_buy msg.side) (q (is_buy msg.side)) e.queues)
  unfolding free
  freed-IsBook =
      assemble (is_buy msg.side) b (own (is_buy msg.side) b) m.passive v.sized e.ready.narrow
        (free-IsPool d.max_orders slot e.ready.pool v.sized.1 v.in_arena (slot_use v e)).2
        (own-IsLadder v e) e.ready.ladder
        (Members-frame (λ i. All-map (q (is_buy msg.side) i) (λ x p. refl) (own_slots v e i))
          (freed_use _ (own_fresh v e)) (own-Members v e))
        (Members-frame (λ i. All-map (e.queues i) (λ x p. refl) (rested-other i))
          (freed_use _ e.ready.apart) (other-Members v e))

  pub settled_rest :
      rests msg s.left ≡ true
      → settle (is_buy msg.side) msg slot (price_to_idx b msg.price) b (flow, m) ≡ record {
        handle = record { slot = slot; gen = m.arena.pool.gen slot };
        fills = m.fills;
        book = with_own (is_buy msg.side) rested.0 (with_own (not (is_buy msg.side)) m.passive b);
        arena = with_pool m.arena (with_slots rested.1 m.arena.pool);
        flow = flow;
      }
  unfolding settle
  settled_rest stays = rw (e.agg_left, stays, own_after (is_buy msg.side) m.passive b) refl

  pub settled_free :
      rests msg s.left ≡ false
      → settle (is_buy msg.side) msg slot (price_to_idx b msg.price) b (flow, m) ≡ record {
        handle = none_handle;
        fills = m.fills;
        book =
            with_own
              (is_buy msg.side)
              (own (is_buy msg.side) b)
              (with_own (not (is_buy msg.side)) m.passive b);
        arena = with_pool m.arena (free slot m.arena.pool);
        flow = flow;
      }
  unfolding settle
  settled_free goes =
      rw (e.agg_left, goes)
        (ap
          (λ (k : Book). record {
            handle = none_handle;
            fills = m.fills;
            book = k;
            arena = with_pool m.arena (free slot m.arena.pool);
            flow = flow;
          })
          (own_back (is_buy msg.side) m.passive b))
