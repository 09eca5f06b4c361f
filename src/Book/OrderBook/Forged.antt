-- ===== src/Book/OrderBook/Forged.antt =====
-- include/lx/book/order_book.hpp: `cancel_order` for a slot that no order is in.
use lite_exchange.Base.{
  ℕ, suc, ◌+◌, ◌^◌, ◌<◌, ◌≡◌, refl, sym, ◌∙◌, Bool, true, false, arith, update_self, update_ne,
  add32,
}
use lite_exchange.Book.Order.{Order}
use lite_exchange.Book.Pool.{Pool, free, with_slots}
use lite_exchange.Book.Pool.Free.{IsPool, live_count}
use lite_exchange.Book.OrderHandle.{OrderHandle}
use lite_exchange.Book.Matching.{Dims, Arena}
use lite_exchange.Book.OrderBook.{Book, cancel_order}
use lite_exchange.Book.OrderBook.Cancel.{cancel_taken}

top_next : (t n c : ℕ) → t + c ≡ n → suc n < 2 ^ 32 → t < add32 t 1
top_next t n c e h = ground (arith, e)

-- A slot that is free already stands twice in the free stack after it is freed again.
free-twice :
    {n : ℕ} {p : Pool Order} {live live' : ℕ → Bool} (x : ℕ) (slots : ℕ → Order)
    → IsPool n p live
    → suc n < 2 ^ 32
    → x < n
    → live x ≡ false
    → ¬ IsPool n (free x (with_slots slots p)) live'
unfolding free with_slots
free-twice {n} {p} {live} x slots v h hx e v' =
    let (k, hk, ek) = v.kept x hx e in
    v'.once k p.free_top hk (top_next p.free_top n (live_count live n) v.total h) (
      update_ne p.free_list p.free_top x k (omega arith)
      ∙ ek
      ∙ sym (update_self p.free_list p.free_top x))

-- A handle that names the generation of a slot without an order, as any handle of generation 0 does in
-- a fresh arena, is accepted by `cancel_order`, and the arena that it leaves is not well formed, whichever
-- slots are taken to be in use.
pub cancel_order-forged :
    {live : ℕ → Bool} (live' : ℕ → Bool) (d : Dims) (h : OrderHandle) (b : Book) (a : Arena)
    → IsPool d.max_orders a.pool live
    → suc d.max_orders < 2 ^ 32
    → h.slot < d.max_orders
    → live h.slot ≡ false
    → a.pool.gen h.slot ≡ h.gen
    → let (done, b', a') = cancel_order d h b a in
      (done ≡ true) × ¬ IsPool d.max_orders a'.pool live'
cancel_order-forged live' d h b a v sized hs e g =
    rw (cancel_taken d h b a (ground (arith, g))) (refl, free-twice h.slot _ v sized hs e)
