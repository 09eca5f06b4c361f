-- ===== src/Book/OrderBook/AddDone.antt =====
-- include/lx/book/order_book.hpp: what `add_order` leaves.
use lite_exchange.Base.{
  ap, sym, ◌∙◌, ℕ, ◌≡◌, refl, ◌⊎◌, ℤ, Bool, true, false, not, ◌&&◌, ◌==◌, ltb, if◌then◌else◌, List,
  [], ◌∷◌, ◌++◌, update, ==_iff, All-append, Bool-cases, inl, inr,
}
use lite_exchange.Proto.Messages.{NewOrder, is_buy, is_ioc}
use lite_exchange.Book.Order.{Order}
use lite_exchange.Book.OrderHandle.{OrderHandle, none_handle, valid}
use mathlib.Core.Bool.{false≢true}
use lite_exchange.Book.Matching.{Dims, Ladder, crosses}
use lite_exchange.Book.OrderBook.{Book, Added, own, with_own}
use lite_exchange.Book.OrderBook.Sweep.{Swept}
use lite_exchange.Book.OrderBook.Level.{flow_of}
use lite_exchange.Book.OrderBook.Path.{priority}
use lite_exchange.Book.OrderBook.Match.{Member}
use lite_exchange.Book.OrderBook.Touches.{Touches}
use lite_exchange.Book.OrderBook.Invariant.{IsBook, Members, pick}

-- Whether the remainder of an order rests.
abbrev pub rests : NewOrder → ℕ → Bool
rests msg left = ltb 0 left && not (is_ioc msg.tif)

-- The queues of both sides afterwards, with those of the other side.
abbrev pub queues_after :
    NewOrder → ℕ → ℕ → (Bool → ℕ → List ℕ) → Swept → (ℕ → List ℕ) → Bool → ℕ → List ℕ
queues_after msg slot uidx q s queues =
    let bid = is_buy msg.side in
    pick bid (if rests msg s.left then update (q bid) uidx (q bid uidx ++ slot ∷ []) else q bid)
      queues

-- What `add_order` leaves of an order that it takes into `slot`, for the walk `s`; `base` and `live` are the
-- slots, and those in use, before.
pub record AddDone (d : Dims) (b : Book) (base : ℕ → Order) (live : ℕ → Bool) (msg : NewOrder)
    (slot : ℕ) (gen : ℕ → ℕ) (uidx : ℕ) (q : Bool → ℕ → List ℕ) (s : Swept) (r : Added)
    : Type 0 where
  pub queues : ℕ → List ℕ
  pub in_use : ℕ → Bool
  pub fills : r.fills ≡ s.fills
  pub ended : r.flow ≡ flow_of s.left s.rest
  pub handle :
      r.handle ≡ (if rests msg s.left then record { slot = slot; gen = gen slot } else none_handle)
  pub met : priority (not (is_buy msg.side)) d.ladder_size queues uidx ≡ s.rest
  pub not_met :
      (i : ℕ)
      → (crosses (not (is_buy msg.side)) i uidx ≡ true) ⊎ (queues i ≡ q (not (is_buy msg.side)) i)
  pub book : IsBook d r.book r.arena in_use (queues_after msg slot uidx q s queues)
  pub rested : rests msg s.left ≡ true → (in_use slot ≡ true) × (r.arena.pool.gen slot ≡ gen slot)
  pub touches :
      Touches d.max_orders msg.symbol_id base r.arena.pool.slots gen r.arena.pool.gen live in_use q
        (queues_after msg slot uidx q s queues)

pub Members-push :
    {bid : Bool} {idx : ℤ → ℕ} {slots : ℕ → Order} {live : ℕ → Bool} {n : ℕ} {q : ℕ → List ℕ}
    (u x : ℕ)
    → Member bid idx slots live n u x
    → Members bid idx slots live n q
    → Members bid idx slots live n (update q u (q u ++ x ∷ []))
Members-push {q = q} u x g m = record {
  at = λ i. elim (Bool-cases (i == u)) [
    | inl here ↦ rw (here, (==_iff i u).0 here) (All-append _ (q u) (x ∷ []) (m.at u) (g, tt))
    | inr off ↦ rw off (m.at i)
  ];
}

pub own_after : (bid : Bool) (p : Ladder) (b : Book) → own bid (with_own (not bid) p b) ≡ own bid b
own_after true p b = refl
own_after false p b = refl

pub own_back :
    (bid : Bool) (p : Ladder) (b : Book)
    → with_own (not bid) p b ≡ with_own bid (own bid b) (with_own (not bid) p b)
own_back true p b = refl
own_back false p b = refl

-- A handle that is valid is that of an order that rests.
pub AddDone-current :
    {d : Dims} {b : Book} {base : ℕ → Order} {live : ℕ → Bool} {msg : NewOrder} {slot : ℕ}
    {gen : ℕ → ℕ} {uidx : ℕ} {q : Bool → ℕ → List ℕ} {s : Swept} {r : Added}
    (done : AddDone d b base live msg slot gen uidx q s r)
    → valid r.handle ≡ true
    → (done.in_use r.handle.slot ≡ true) × (r.arena.pool.gen r.handle.slot ≡ r.handle.gen)
AddDone-current {msg = msg} {slot = slot} {gen = gen} {s = s} {r = r} done h =
    elim (Bool-cases (rests msg s.left)) [
      | inl stays ↦
          let e : r.handle ≡ record { slot = slot; gen = gen slot } = done.handle ∙ rw stays refl in
          let (used, same) = done.rested stays in
          (
            rw (ap (λ (k : OrderHandle). k.slot) e) used,
            rw (ap (λ (k : OrderHandle). k.slot) e) same ∙ sym (ap (λ (k : OrderHandle). k.gen) e),
          )
      | inr goes ↦
          let e : r.handle ≡ none_handle = done.handle ∙ rw goes refl in
          absurd (false≢true (sym (ap valid e) ∙ h))
    ]
