-- ===== src/Book/OrderBook/CancelTouches.antt =====
-- include/lx/book/order_book.hpp: what `cancel_order` does to the arena that it shares with other books.
use lite_exchange.Base.{
  ℕ, ◌≡◌, ◌∙◌, ◌≢◌, Bool, false, not, ◌==◌, arith, List, ◌∷◌, ◌++◌, update, update_ne, ==_iff,
  Absent-append_right, Present, Present-insert, Present-without, Bool-cases, inl, inr,
}
use lite_exchange.Proto.Messages.{is_buy}
use lite_exchange.Book.Pool.{with_slots, free}
use lite_exchange.Book.Pool.Ages.{Aged-Older, free-Aged}
use lite_exchange.Book.OrderHandle.{OrderHandle}
use lite_exchange.Book.Matching.{Dims, Arena}
use lite_exchange.Book.OrderBook.{Book, price_to_idx, cancel_order}
use lite_exchange.Book.OrderBook.Touches.{Touches}
use lite_exchange.Book.OrderBook.Invariant.{IsBook, pick, pick_cases}
use lite_exchange.Book.OrderBook.Cancel.{
  x-Member, unlinked, unlinked-Relinks, unlinked-same, cancel_taken,
}

module _ {d : Dims} {b : Book} {a : Arena} {live : ℕ → Bool} {q : Bool → ℕ → List ℕ}
    (v : IsBook d b a live q) (bid : Bool) (u x : ℕ) (xs ys : List ℕ)
    (here : q bid u ≡ xs ++ x ∷ ys) where
  queue_only : (y i : ℕ) → Present y (update (q bid) u (xs ++ ys) i) → Present y (q bid i)
  queue_only y i p = elim (Bool-cases (i == u)) [
    | inr off ↦ rw off at p
    | inl at ↦ rw ((==_iff i u).0 at, here) (Present-insert y x xs ys (rw at at p))
  ]

  queue_kept : (y i : ℕ) → y ≢ x → Present y (q bid i) → Present y (update (q bid) u (xs ++ ys) i)
  queue_kept y i ne p = elim (Bool-cases (i == u)) [
    | inr off ↦ rw off p
    | inl at ↦ rw at (Present-without y x xs ys ne (rw ((==_iff i u).0 at, here) at p))
  ]

  unlinked-Touches :
      (symbol : ℕ)
      → Touches d.max_orders symbol a.pool.slots
          (unlinked v bid u x xs ys here).1
          a.pool.gen
          (free x (with_slots (unlinked v bid u x xs ys here).1 a.pool)).gen
          live
          (update live x false)
          q
          (pick bid (update (q bid) u (xs ++ ys)) (q (not bid)))
  unfolding with_slots
  unlinked-Touches symbol = record {
    elsewhere = λ y n h k. (
      unlinked-same v bid u x xs ys here y n (k bid u),
      update_ne live x false y (Absent-append_right y xs (x ∷ ys) (rw here at (k bid u))).0 ∙ h,
    );
    only = λ y c i p. inr (
      (unlinked-Relinks v bid u x xs ys here).symbol y,
      pick_cases (λ c' z. Present y (z i) → Present y (q c' i)) bid (queue_only y i) (λ p. p) c p,
    );
    kept = λ y h. elim (Bool-cases (y == x)) [
      | inl gone ↦ ground (arith, gone, h)
      | inr other ↦ inr (
        ground (arith, other, h),
        λ c i.
            pick_cases (λ c' z. Present y (q c' i) → Present y (z i)) bid
              (queue_kept y i (λ e. ground (arith, other, e))) (λ p. p) c,
      )
    ];
    ages = λ y. Aged-Older (
        free-Aged (with_slots (unlinked v bid u x xs ys here).1 a.pool) live x
          (x-Member v bid u x xs ys here).1 y);
  }

-- The cancel of a resting order leaves the orders of other books as they are.
pub cancel_order-Touches :
    {d : Dims} {b : Book} {a : Arena} {live : ℕ → Bool} {q : Bool → ℕ → List ℕ} (h : OrderHandle)
    (xs ys : List ℕ) (symbol : ℕ)
    → IsBook d b a live q
    → a.pool.gen h.slot ≡ h.gen
    → let o = a.pool.slots h.slot in
      let bid = is_buy o.side in
      let u = price_to_idx b o.price in
      q bid u ≡ xs ++ h.slot ∷ ys
      → let (done, b', a') = cancel_order d h b a in
        Touches d.max_orders symbol a.pool.slots a'.pool.slots a.pool.gen a'.pool.gen live
          (update live h.slot false)
          q
          (pick bid (update (q bid) u (xs ++ ys)) (q (not bid)))
unfolding free with_slots
cancel_order-Touches {d} {b} {a} h xs ys symbol v g here =
    let o = a.pool.slots h.slot in
    let bid = is_buy o.side in
    let u = price_to_idx b o.price in
    let member = x-Member v bid u h.slot xs ys here in
    rw (cancel_taken d h b a (ground (arith, g, member.0)))
      (unlinked-Touches v bid u h.slot xs ys here symbol)
