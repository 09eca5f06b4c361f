-- ===== src/Book/OrderBook/Admit.antt =====
-- `add_order` of include/lx/book/order_book.hpp up to its match: the order is in its slot.
use lite_exchange.Base.{
  ℕ, ◌-◌, ◌^◌, ◌<◌, ◌≡◌, refl, sym, ◌≢◌, Bool, true, false, not, arith, List, [], ◌∷◌, update,
  update_ne, update_self, All, All-map, Absent, Absent-All,
}
use native.Mathlib.Nat.{sub-zero}
use lite_exchange.Proto.Messages.{NewOrder, is_buy}
use lite_exchange.Book.Order.{Order}
use lite_exchange.Book.Pool.{with_slots}
use lite_exchange.Book.Pool.Free.{IsPool}
use lite_exchange.Book.PriceLevel.Fifo.{IsNarrow}
use lite_exchange.Book.Matching.{Dims, Arena, Matching, slots_of, match_loop, match_fuel}
use lite_exchange.Book.OrderBook.{Book, own, price_to_idx, order_of}
use lite_exchange.Book.OrderBook.FillOne.{pool_with_slots}
use lite_exchange.Book.OrderBook.Sweep.{Swept, sweep}
use lite_exchange.Book.OrderBook.BestLevel.{IsLadder, IsSized}
use lite_exchange.Book.OrderBook.Path.{priority}
use lite_exchange.Book.OrderBook.Rounds.{All-path}
use lite_exchange.Book.OrderBook.Match.{MatchReady}
use lite_exchange.Book.OrderBook.MatchDone.{MatchDone, match_sweep}
use lite_exchange.Book.OrderBook.MatchLoop.{match_loop-MatchDone, pending-lt}
use lite_exchange.Book.OrderBook.Invariant.{
  Members, IsLadder-frame, Members-frame, free-Absent, side-Absent,
}

-- The match that `admit` starts.
abbrev pub opening : NewOrder → ℕ → Book → Arena → Matching
opening msg slot b a = record {
  passive = own (not (is_buy msg.side)) b;
  arena = record {
    pool = with_slots (update a.pool.slots slot (order_of msg)) a.pool;
    order_session = update a.order_session slot msg.hdr.session_id;
  };
  fills = [];
}

-- The walk that an order is meant to make: over the orders of the other side that cross with level
-- `uidx`, best price first and oldest first.
abbrev pub intended : Dims → ℕ → NewOrder → ℕ → Arena → (Bool → ℕ → List ℕ) → Swept
intended d max_fills msg uidx a q =
    let other = not (is_buy msg.side) in
    sweep a.pool.slots a.order_session msg.order_id max_fills msg.qty
      (priority other d.ladder_size (q other) uidx)

-- A slot was taken for an order whose price is on the ladder.
pub record CanAdmit (d : Dims) (b : Book) (a : Arena) (live : ℕ → Bool) (q : Bool → ℕ → List ℕ)
    (msg : NewOrder) (slot : ℕ) : Type 0 where
  pub sized : IsSized d
  pub narrow : IsNarrow a.pool.slots
  pub pool : IsPool d.max_orders a.pool (update live slot true)
  pub side : (bid : Bool) → IsLadder bid d a.pool.slots (own bid b) (q bid)
  pub members : (bid : Bool) → Members bid (price_to_idx b) a.pool.slots live d.max_orders (q bid)
  pub in_arena : slot < d.max_orders
  pub was_free : live slot ≡ false
  pub on_ladder : price_to_idx b msg.price < d.ladder_size
  pub qty_32 : msg.qty < 2 ^ 32

-- A walk depends on the orders that it visits and their owners alone.
sweep-local :
    (base slots : ℕ → Order) (owner session : ℕ → ℕ) (agg_id room qty : ℕ) (xs : List ℕ)
    → All (λ x. (slots x ≡ base x) × (session x ≡ owner x)) xs
    → sweep slots session agg_id room qty xs ≡ sweep base owner agg_id room qty xs
unfolding sweep
sweep-local base slots owner session agg_id room qty [] h = refl
sweep-local base slots owner session agg_id room qty (x ∷ xs) h = rw (
  h.0.0,
  h.0.1,
  sweep-local base slots owner session agg_id (room - 1) (qty - (base x).qty) xs h.1,
)

pub not-ne : (c : Bool) → not c ≢ c
not-ne true e = absurd cc
not-ne false e = absurd cc

module _ {d : Dims} {b : Book} {a : Arena} {live : ℕ → Bool} {q : Bool → ℕ → List ℕ}
    {msg : NewOrder} {slot : ℕ} (v : CanAdmit d b a live q msg slot) where
  pub slot-Absent : (bid : Bool) (i : ℕ) → Absent slot (q bid i)
  slot-Absent bid = free-Absent (v.members bid) slot v.was_free

  slot_off : (bid : Bool) (i : ℕ) → All (λ x. x ≢ slot) (q bid i)
  slot_off bid i = Absent-All slot (q bid i) (slot-Absent bid i)

  pub opening-slots :
      (bid : Bool) (i : ℕ) → All (λ x. slots_of (opening msg slot b a) x ≡ a.pool.slots x) (q bid i)
  unfolding with_slots
  opening-slots bid i =
      All-map (q bid i) (λ x p. update_ne a.pool.slots slot (order_of msg) x p) (slot_off bid i)

  pub opening-use : (bid : Bool) (i : ℕ) → All (λ x. update live slot true x ≡ live x) (q bid i)
  opening-use bid i = All-map (q bid i) (λ x p. update_ne live slot true x p) (slot_off bid i)

  pub opening-MatchReady :
      (bid : Bool)
      → not (is_buy msg.side) ≡ bid
      → MatchReady bid d
          (price_to_idx b)
          (update live slot true)
          slot
          (q bid)
          (opening msg slot b a)
  unfolding with_slots
  opening-MatchReady bid e = record {
    sized = v.sized;
    narrow = λ i. ground (arith, v.narrow i, v.qty_32);
    ladder = rw e (IsLadder-frame (opening-slots bid) (v.side bid));
    apart = slot-Absent bid;
    pool = pool_with_slots (update a.pool.slots slot (order_of msg)) v.pool;
    members = (Members-frame (opening-slots bid) (opening-use bid) (v.members bid)).at;
  }

  -- What the match makes is the intended walk.
  pub opening-sweep :
      (max_fills : ℕ)
      → match_sweep
          (not (is_buy msg.side))
          d
          max_fills
          slot
          (price_to_idx b msg.price)
          (q (not (is_buy msg.side)))
          (opening msg slot b a)
        ≡ intended d max_fills msg (price_to_idx b msg.price) a q
  unfolding with_slots
  opening-sweep max_fills =
      let other = not (is_buy msg.side) in
      rw (update_self a.pool.slots slot (order_of msg), sub-zero)
        (sweep-local a.pool.slots _ a.order_session _ msg.order_id max_fills msg.qty _ (
          All-path _ other (q other) _ _ (λ i.
            All-map (q other i)
              (λ x p. (
                update_ne a.pool.slots slot (order_of msg) x p,
                update_ne a.order_session slot msg.hdr.session_id x p,
              ))
              (slot_off other i))))

  -- Orders of the own side are none of those that a match may touch.
  pub own-apart : (bid : Bool) (i : ℕ) → All (λ x. (j : ℕ) → Absent x (q (not bid) j)) (q bid i)
  own-apart bid i = side-Absent (v.members (not bid)) (λ e. not-ne bid (sym e)) (v.members bid) i

  pub opening-MatchDone :
      (max_fills : ℕ)
      → let (flow, m') =
          match_loop
            (match_fuel d)
            (not (is_buy msg.side))
            d
            max_fills
            slot
            (price_to_idx b msg.price)
            (opening msg slot b a) in
        MatchDone
          (not (is_buy msg.side))
          d
          (price_to_idx b)
          (update live slot true)
          slot
          (price_to_idx b msg.price)
          (q (not (is_buy msg.side)))
          (opening msg slot b a)
          (intended d max_fills msg (price_to_idx b msg.price) a q)
          flow
          m'
  opening-MatchDone max_fills =
      let ready = opening-MatchReady (not (is_buy msg.side)) refl in
      rw (← opening-sweep max_fills) (
        match_loop-MatchDone (match_fuel d) _ d _ max_fills slot (price_to_idx b msg.price) _ _ _
          ready (omega arith) (pending-lt _ d slot ready))
