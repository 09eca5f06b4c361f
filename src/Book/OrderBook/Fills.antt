-- ===== src/Book/OrderBook/Fills.antt =====
-- The fills of `add_order` of include/lx/book/order_book.hpp: their number, quantities and prices.
use lite_exchange.Base.{
  ℕ, zero, suc, ◌-◌, ◌^◌, ◌<◌, ◌≤◌, ◌≡◌, sym, ◌∙◌, ap, ◌⊎◌, inl, inr, ℤ, Bool, true, false, not,
  ◌||◌, ◌==◌, leb, if◌then◌else◌, arith, List, [], ◌∷◌, length, All, All-map, All-append,
  Bool-cases,
}
use lite_exchange.Proto.Messages.{NewOrder, Fill, is_buy, is_ioc}
use lite_exchange.Book.Order.{Order}
use lite_exchange.Book.Pool.{alloc}
use lite_exchange.Book.Matching.{Dims, Arena, crosses}
use lite_exchange.Book.OrderBook.{Book, price_to_idx, add_order, refused}
use lite_exchange.Book.OrderHandle.{OrderHandle, none_handle}
use lite_exchange.Book.OrderBook.Sweep.{sweep, sweep-qty, sweep-room, fills_qty}
use lite_exchange.Book.OrderBook.Path.{path, priority, crossing, top, worse}
use lite_exchange.Book.OrderBook.Invariant.{IsBook}
use lite_exchange.Book.OrderBook.Admit.{intended}
use lite_exchange.Book.OrderBook.AddDone.{rests}
use lite_exchange.Book.OrderBook.AddOrder.{add_order-AddDone}

-- What holds of the orders of a walk holds of its fills.
sweep-All :
    (P : ℤ → Type 0) (slots : ℕ → Order) (session : ℕ → ℕ) (agg_id room qty : ℕ) (xs : List ℕ)
    → All (λ x. P (slots x).price) xs
    → All (λ (f : Fill). P f.price) (sweep slots session agg_id room qty xs).fills
unfolding sweep
sweep-All P slots session agg_id room qty [] h = tt
sweep-All P slots session agg_id room qty (x ∷ xs) h =
    elim (Bool-cases ((qty == 0) || (room == 0))) [
      | inl stop ↦ rw stop tt
      | inr go ↦ elim (Bool-cases (leb (slots x).qty qty)) [
        | inl gone ↦
            rw (go, gone)
              (h.0, sweep-All P slots session agg_id (room - 1) (qty - (slots x).qty) xs h.1)
        | inr kept ↦ rw (go, kept) (h.0, tt)
      ]
    ]

-- The levels of a path that starts with `crossing` levels cross.
path-All :
    (P : ℕ → Type 0) (bid : Bool) (q : ℕ → List ℕ) (agg_idx b k : ℕ)
    → k ≤ crossing bid b agg_idx
    → ((i : ℕ) → crosses bid i agg_idx ≡ true → All P (q i))
    → All P (path bid q b k)
path-All P bid q agg_idx b zero h f = tt
path-All P bid q agg_idx b (suc k) h f =
    All-append P (q b) (path bid q (worse bid b) k) (f b (here bid h))
      (path-All P bid q agg_idx (worse bid b) k (next bid h) f)
  where
    here : (c : Bool) → suc k ≤ crossing c b agg_idx → crosses c b agg_idx ≡ true
    here true h = ground arith
    here false h = ground arith

    next : (c : Bool) → suc k ≤ crossing c b agg_idx → k ≤ crossing c (worse c b) agg_idx
    next true h = omega arith
    next false h = omega arith

-- The fills respect the limit of the order: each is at a level that crosses with the order's.
intended-limit :
    {d : Dims} {b : Book} {a : Arena} {live : ℕ → Bool} {q : Bool → ℕ → List ℕ} (max_fills : ℕ)
    (msg : NewOrder) (uidx : ℕ)
    → IsBook d b a live q
    → All
        (λ (f : Fill). crosses (not (is_buy msg.side)) (price_to_idx b f.price) uidx ≡ true)
        (intended d max_fills msg uidx a q).fills
intended-limit {d} {b} {a} {live} {q} max_fills msg uidx v =
    let other = not (is_buy msg.side) in
    sweep-All (λ p. crosses other (price_to_idx b p) uidx ≡ true) a.pool.slots a.order_session
      msg.order_id max_fills msg.qty (priority other d.ladder_size (q other) uidx)
      (path-All _ other (q other) uidx (top other d.ladder_size)
        (crossing other (top other d.ladder_size) uidx) (omega arith)
        (λ i h.
          All-map (q other i) (λ x g. ap (λ (j : ℕ). crosses other j uidx) g.4 ∙ h)
            ((v.members other).at i)))

abbrev pub Limits : Book → NewOrder → List Fill → Type 0
Limits b msg fills =
    All
      (λ (f : Fill).
        crosses (not (is_buy msg.side)) (price_to_idx b f.price) (price_to_idx b msg.price) ≡ true)
      fills

-- There are at most `max_fills` fills, they add up to at most the quantity of the order, and the level of each
-- fill's price, its index, is not beyond that of the order's limit: at a bid's level or below, or at an
-- offer's level or above. Prices that share a level are not compared.
pub add_order-fills :
    {d : Dims} {b : Book} {a : Arena} {live : ℕ → Bool} {q : Bool → ℕ → List ℕ} (max_fills : ℕ)
    (msg : NewOrder)
    → IsBook d b a live q
    → msg.qty < 2 ^ 32
    → let fills = (add_order d max_fills msg [] b a).fills in
      (length fills ≤ max_fills) × (fills_qty fills ≤ msg.qty) × Limits b msg fills
add_order-fills {d} {b} {a} {live} {q} max_fills msg v h =
    elim (add_order-AddDone v max_fills msg [] h) [
      | inl (why, same) ↦ rw same (omega arith, omega arith, tt)
      | inr (below, fresh, r) ↦
          let uidx = price_to_idx b msg.price in
          let other = not (is_buy msg.side) in
          let xs = priority other d.ladder_size (q other) uidx in
          rw r.fills (
            sweep-room a.pool.slots a.order_session msg.order_id max_fills msg.qty xs,
            omega (arith, sweep-qty a.pool.slots a.order_session msg.order_id max_fills msg.qty xs),
            intended-limit max_fills msg uidx v,
          )
    ]

-- An order that is taken, is no IOC and does not rest was filled in full.
pub add_order-in_full :
    {d : Dims} {b : Book} {a : Arena} {live : ℕ → Bool} {q : Bool → ℕ → List ℕ} (max_fills : ℕ)
    (msg : NewOrder)
    → IsBook d b a live q
    → msg.qty < 2 ^ 32
    → is_ioc msg.tif ≡ false
    → let r = add_order d max_fills msg [] b a in
      r.handle ≡ none_handle → (r ≡ refused [] b a) ⊎ (fills_qty r.fills ≡ msg.qty)
add_order-in_full {d} {b} {a} {live} {q} max_fills msg v h gtc none =
    elim (add_order-AddDone v max_fills msg [] h) [
      | inl (why, same) ↦ inl same
      | inr (below, fresh, r) ↦
          let uidx = price_to_idx b msg.price in
          let other = not (is_buy msg.side) in
          let xs = priority other d.ladder_size (q other) uidx in
          let s = intended d max_fills msg uidx a q in
          let used : s.left ≡ 0 =
            nothing_left s.left (a.pool.gen (alloc a.pool).0) below v.sized.1
              (sym r.handle ∙ none) in
          inr (
            rw r.fills (
              omega (
                arith,
                used,
                sweep-qty a.pool.slots a.order_session msg.order_id max_fills msg.qty xs,
              )))
    ]
  where
    nothing_left :
        (left gen : ℕ) {slot n : ℕ}
        → slot < n
        → n < 2 ^ 32
        → (if rests msg left then record { slot = slot; gen = gen } else none_handle) ≡ none_handle
        → left ≡ 0
    nothing_left left gen {slot} {n} below small e =
        ground (arith, gtc, ap (λ (k : OrderHandle). k.slot) e)
