-- ===== src/Book/OrderBook/AddOrder.antt =====
-- `add_order` of include/lx/book/order_book.hpp as a whole.
use lite_exchange.Base.{
  ℕ, ◌^◌, ◌<◌, ◌≡◌, refl, ◌∙◌, ap, ◌⊎◌, inl, inr, Bool, true, false, ◌==◌, arith, List, update,
  Bool-cases,
}
use lite_exchange.Proto.Messages.{NewOrder, Fill}
use lite_exchange.Book.Order.{Order}
use lite_exchange.Book.Pool.{Pool, alloc, invalid_idx}
use lite_exchange.Book.Pool.Free.{IsPool, live_count, alloc-IsPool}
use lite_exchange.Book.Matching.{Dims, Arena, with_pool}
use lite_exchange.Book.OrderBook.{Book, price_to_idx, add_order, admit, refused, off_ladder}
use lite_exchange.Book.OrderBook.Invariant.{IsBook}
use lite_exchange.Book.OrderBook.Admit.{CanAdmit, intended, opening-MatchDone}
use lite_exchange.Book.OrderBook.Settle.{settle-AddDone}
use lite_exchange.Book.OrderBook.AddDone.{AddDone}

admit-AddDone :
    {d : Dims} {b : Book} {a : Arena} {live : ℕ → Bool} {q : Bool → ℕ → List ℕ} {msg : NewOrder}
    {slot : ℕ} (max_fills : ℕ)
    → CanAdmit d b a live q msg slot
    → AddDone d b a.pool.slots live msg slot a.pool.gen
        (price_to_idx b msg.price)
        q
        (intended d max_fills msg (price_to_idx b msg.price) a q)
        (admit d max_fills msg slot (price_to_idx b msg.price) b a)
unfolding admit
admit-AddDone max_fills v = settle-AddDone v (opening-MatchDone v max_fills)

alloc-same : (p : Pool Order) → ((alloc p).1.slots ≡ p.slots) × ((alloc p).1.gen ≡ p.gen)
unfolding alloc
alloc-same p = elim (Bool-cases (p.free_top == 0)) [
  | inl e ↦ rw e (refl, refl)
  | inr e ↦ rw e (refl, refl)
]

module _ {d : Dims} {b : Book} {a : Arena} {live : ℕ → Bool} {q : Bool → ℕ → List ℕ}
    (v : IsBook d b a live q) (max_fills : ℕ) (msg : NewOrder) (buffer : List Fill) where
  pub can_admit :
      off_ladder d (price_to_idx b msg.price) ≡ false
      → msg.qty < 2 ^ 32
      → ((alloc a.pool).0 < d.max_orders)
        × (live (alloc a.pool).0 ≡ false)
        × IsPool d.max_orders (alloc a.pool).1 (update live (alloc a.pool).0 true)
      → CanAdmit d b (with_pool a (alloc a.pool).1) live q msg (alloc a.pool).0
  can_admit on h taken = record {
    sized = v.sized;
    narrow = rw (alloc-same a.pool).0 v.narrow;
    pool = taken.2;
    side = rw (alloc-same a.pool).0 v.side;
    members = rw (alloc-same a.pool).0 v.members;
    in_arena = taken.0;
    was_free = taken.1;
    on_ladder = ground (arith, on);
    qty_32 = h;
  }

  add_off :
      off_ladder d (price_to_idx b msg.price) ≡ true
      → add_order d max_fills msg buffer b a ≡ refused buffer b a
  unfolding add_order
  add_off e = rw e refl

  add_full :
      off_ladder d (price_to_idx b msg.price) ≡ false
      → ((alloc a.pool).0 == invalid_idx) ≡ true
      → add_order d max_fills msg buffer b a ≡ refused buffer b (with_pool a (alloc a.pool).1)
  unfolding add_order
  add_full e f = rw (e, f) refl

  add_taken :
      off_ladder d (price_to_idx b msg.price) ≡ false
      → ((alloc a.pool).0 == invalid_idx) ≡ false
      → add_order d max_fills msg buffer b a
        ≡ admit d max_fills msg
            (alloc a.pool).0
            (price_to_idx b msg.price)
            b
            (with_pool a (alloc a.pool).1)
  unfolding add_order
  add_taken e f = rw (e, f) refl

  -- An order off the ladder, or for which the arena has no slot, leaves everything as it was. Any other
  -- is matched as intended, and its remainder rests at the end of its level unless it is an IOC.
  pub add_order-AddDone :
      msg.qty < 2 ^ 32
      → let uidx = price_to_idx b msg.price in
        let slot = (alloc a.pool).0 in
        let r = add_order d max_fills msg buffer b a in
        (((off_ladder d uidx ≡ true) ⊎ (live_count live d.max_orders ≡ d.max_orders))
          × (r ≡ refused buffer b a))
        ⊎ ((slot < d.max_orders)
            × (live slot ≡ false)
            × AddDone d b a.pool.slots live msg slot a.pool.gen uidx q
                (intended d max_fills msg uidx a q)
                r)
  add_order-AddDone h = elim (Bool-cases (off_ladder d (price_to_idx b msg.price))) [
    | inl off ↦ inl (inl off, add_off off)
    | inr on ↦ elim (alloc-IsPool d.max_orders v.pool v.sized.1) [
      | inl (full, none, same) ↦ inl (
        inr full,
        add_full on (ground arith) ∙ ap (λ (p : Pool Order). refused buffer b (with_pool a p)) same,
      )
      | inr taken ↦ inr (
        taken.0,
        taken.1,
        rw (add_taken on (ground (arith, taken.0, v.sized.1))) (
            rw ((alloc-same a.pool).0, (alloc-same a.pool).1) at
              (admit-AddDone max_fills (can_admit on h taken))),
      )
    ]
  ]
