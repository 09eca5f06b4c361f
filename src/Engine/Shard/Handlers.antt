-- ===== src/Engine/Shard/Handlers.antt =====
-- include/lx/engine/shard.hpp: the two handlers keep a shard well formed.
use lite_exchange.Base.{
  ℕ, ◌^◌, ◌<◌, ◌≡◌, refl, sym, ap, Bool, true, not, ◌||◌, ◌==◌, ==_iff, leb, arith, List, [], ◌∷◌,
  ◌++◌, update, All-Present, Present-parts, Bool-cases, inl, inr, ◌≢◌, if◌then◌else◌,
}
use mathlib.Core.Path.{fun_ext}
use lite_exchange.Proto.Messages.{MsgType, NewOrder, CancelOrder, RejectReason, InboundMsg, is_buy}
use lite_exchange.Book.OrderHandle.{OrderHandle, valid, from_token}
use lite_exchange.Book.OrderBook.{Added, add_order, cancel_order, price_to_idx}
use lite_exchange.Book.OrderBook.AddDone.{AddDone-current}
use lite_exchange.Book.OrderBook.AddOrder.{add_order-AddDone}
use lite_exchange.Book.OrderBook.Cancel.{cancel_order-IsBook}
use lite_exchange.Book.OrderBook.CancelTouches.{cancel_order-Touches}
use lite_exchange.Engine.Shard.{
  ShardConfig, Shard, handle_new, handle_cancel, emit_reject, local_book, no_book,
  max_fills_per_order, with_added,
}
use lite_exchange.Engine.Shard.Invariant.{
  IsShard, After, unchanged, then_SameBooks, with_book, with_book-After,
}
use lite_exchange.Engine.Shard.Emits.{
  emit_ack-SameBooks, emit_reject-SameBooks, emit_fills-SameBooks,
}

update_same {ℓ} : {A : Type ℓ} (f : ℕ → A) (k : ℕ) → update f k (f k) ≡ f
update_same f k = fun_ext (λ j. elim (Bool-cases (j == k)) [
  | inl here ↦ rw here (ap f (sym ((==_iff j k).0 here)))
  | inr off ↦ rw off refl
])

-- The handle that an order gets, if it rests.
abbrev pub issued : Added → List OrderHandle
issued r = if valid r.handle then r.handle ∷ [] else []

abbrev pub given : ShardConfig → NewOrder → Shard → List OrderHandle
given c order s =
    let book = local_book c s order.symbol_id in
    if book == no_book
    then []
    else issued (add_order c.dims max_fills_per_order order [] (s.books book) s.arena)

abbrev pub issued_by : ShardConfig → InboundMsg → Shard → List OrderHandle
issued_by c (InboundMsg.header h) s = []
issued_by c (InboundMsg.new_order m) s = elim m.hdr.type [
  | MsgType.new_order ↦ given c m s
  | _ ↦ []
]
issued_by c (InboundMsg.cancel m) s = []

-- A handle that names no free slot at its current generation.
abbrev pub Honest : ShardConfig → Shard → (ℕ → Bool) → OrderHandle → Type 0
Honest c s live h = h.slot < c.max_orders → s.arena.pool.gen h.slot ≡ h.gen → live h.slot ≡ true

-- What a message must be: quantities are of 32 bits, and the token of a cancel is honest.
abbrev pub Fair : ShardConfig → Shard → (ℕ → Bool) → InboundMsg → Type 0
Fair c s live (InboundMsg.header h) = Unit {0}
Fair c s live (InboundMsg.new_order m) = m.qty < 2 ^ 32
Fair c s live (InboundMsg.cancel m) = Honest c s live (from_token m.order_token)

module _ {c : ShardConfig} {s : Shard} (v : IsShard c s) where
  added-After :
      (order : NewOrder)
      → order.qty < 2 ^ 32
      → local_book c s order.symbol_id ≢ no_book
      → let book = local_book c s order.symbol_id in
        let r = add_order c.dims max_fills_per_order order [] (s.books book) s.arena in
        After v (issued r) (with_book book r.book r.arena s)
  added-After order h here =
      let book = local_book c s order.symbol_id in
      let r = add_order c.dims max_fills_per_order order [] (s.books book) s.arena in
      elim (add_order-AddDone (v.book book) max_fills_per_order order [] h) [
        | inl (why, same) ↦ rw same (
            unchanged v (record {
              arena = refl;
              books = update_same s.books book;
              local_of = refl;
              shard_id = refl;
            }))
        | inr (below, unused, done) ↦
            with_book-After v order.symbol_id done.book done.touches here (issued r)
              (elim (Bool-cases (valid r.handle)) [
                | inr gone ↦ rw gone tt
                | inl rests ↦ rw rests (AddDone-current done rests, tt)
              ])
      ]

  pub handle_new-After :
      (order : NewOrder) (session : ℕ)
      → order.qty < 2 ^ 32
      → After v (given c order s) (handle_new c order session s)
  unfolding handle_new with_added
  handle_new-After order session h =
      let book = local_book c s order.symbol_id in
      let r = add_order c.dims max_fills_per_order order [] (s.books book) s.arena in
      elim (Bool-cases (book == no_book)) [
        | inl elsewhere ↦ rw elsewhere (unchanged v (emit_reject-SameBooks _ _ session s))
        | inr here ↦
            let filled =
              then_SameBooks v (added-After order h (λ e. ground (arith, here, e)))
                (emit_fills-SameBooks session r.fills _) in
            elim (Bool-cases (valid r.handle)) [
              | inl rested ↦
                  rw (here, rested)
                    (then_SameBooks v (rw rested at filled) (emit_ack-SameBooks _ _ session _))
              | inr gone ↦ rw (here, gone) (rw gone at filled)
            ]
      ]

  -- Where an order that is in use stands.
  pub stands_at :
      (x : ℕ)
      → v.live x ≡ true
      → let o = s.arena.pool.slots x in
        let k = local_book c s o.symbol in
        (xs : List ℕ) × (ys : List ℕ) × (v.queues k
            (is_buy o.side)
            (price_to_idx (s.books k) o.price)
          ≡ xs ++ x ∷ ys)
  stands_at x h =
      let (j, bid, i, p) = v.placed x h in
      let at_home = All-Present _ x _ (v.home j bid i) p in
      let g = All-Present _ x _ (((v.book j).members bid).at i) p in
      rw (at_home, g.3, g.4) (Present-parts x _ p)

  cancelled-After :
      (h : OrderHandle)
      → s.arena.pool.gen h.slot ≡ h.gen
      → v.live h.slot ≡ true
      → local_book c s (s.arena.pool.slots h.slot).symbol ≢ no_book
      → let book = local_book c s (s.arena.pool.slots h.slot).symbol in
        let out = cancel_order c.dims h (s.books book) s.arena in
        After v [] (with_book book out.1 out.2 s)
  cancelled-After h g used hosted =
      let symbol = (s.arena.pool.slots h.slot).symbol in
      let there = v.book (local_book c s symbol) in
      let (xs, ys, here) = stands_at h.slot used in
      with_book-After v symbol (cancel_order-IsBook h xs ys there g here).1
        (cancel_order-Touches h xs ys symbol there g here) hosted [] tt

  pub handle_cancel-After :
      (cancel : CancelOrder) (session : ℕ)
      → Honest c s v.live (from_token cancel.order_token)
      → After v [] (handle_cancel c cancel session s)
  unfolding handle_cancel
  handle_cancel-After cancel session honest =
      let h = from_token cancel.order_token in
      let book = local_book c s (s.arena.pool.slots h.slot).symbol in
      let stale = leb c.max_orders h.slot || not (s.arena.pool.gen h.slot == h.gen) in
      let out = cancel_order c.dims h (s.books book) s.arena in
      let rejected : After v [] (emit_reject 0 RejectReason.unknown_order session s) =
        unchanged v (emit_reject-SameBooks _ _ session s) in
      elim (Bool-cases stale) [
        | inl old ↦ rw old rejected
        | inr current ↦ elim (Bool-cases ((book == no_book) || not out.0)) [
          | inl none_here ↦ rw (current, none_here) rejected
          | inr done ↦
              rw (current, done)
                (then_SameBooks v
                  (cancelled-After h (ground (arith, current))
                    (honest (ground (arith, current)) (ground (arith, current)))
                    (λ e. ground (arith, done, e)))
                  (emit_ack-SameBooks _ _ session _))
        ]
      ]
