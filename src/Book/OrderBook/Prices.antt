-- ===== src/Book/OrderBook/Prices.antt =====
-- include/lx/book/order_book.hpp: the prices that `price_to_idx` takes to one level.
use native.Mathlib.Nat.{mul-add-div_right, div-eq_of_lt, zero-div}
use lite_exchange.Base.{
  ℕ, zero, suc, ◌+◌, ◌-◌, ◌*◌, ◌/◌, ◌%◌, ◌^◌, ◌<◌, ◌≡◌, refl, ◌∙◌, ℤ, pos, negsuc, sub_ℕ, ◌+ℤ◌,
  ◌-ℤ◌, quot, wrap32, arith,
}
use lite_exchange.Book.OrderBook.{Book, price_to_idx}

sub_ℕ-zero : (n : ℕ) → sub_ℕ 0 (suc n) ≡ negsuc n
sub_ℕ-zero n = ground arith

above : (a : ℤ) (n : ℕ) → (a +ℤ pos n) -ℤ a ≡ pos n
unfolding ◌+ℤ◌ ◌-ℤ◌
above (pos k) n = ground arith
above (negsuc k) n = ground arith

below : (a : ℤ) (n : ℕ) → (a -ℤ pos n) -ℤ a ≡ sub_ℕ 0 n
unfolding ◌-ℤ◌
below (pos k) n = ground arith
below (negsuc k) n = ground arith

quot_below : (n t : ℕ) → quot (sub_ℕ 0 n) (pos t) ≡ sub_ℕ 0 (n / t)
unfolding quot
quot_below zero t = rw (zero-div t) refl
quot_below (suc n) t = rw (sub_ℕ-zero n) refl

wrap_below : (q : ℕ) → wrap32 (sub_ℕ 0 q) ≡ (2 ^ 32 - q % 2 ^ 32) % 2 ^ 32
unfolding wrap32
wrap_below zero = refl
wrap_below (suc q) = ground arith

-- Where a tick is `t`: `i` ticks and less than a tick above the base price is the index `i`, modulo 2 ^ 32, and
-- as much below the base price is the index -`i`, modulo 2 ^ 32; so less than a tick below is level 0 too.
pub price_to_idx_lem :
    (b : Book) (t i r : ℕ)
    → b.tick_size ≡ pos t
    → r < t
    → (price_to_idx b (b.base_price +ℤ pos (i * t + r)) ≡ i % 2 ^ 32)
      × (price_to_idx b (b.base_price -ℤ pos (i * t + r)) ≡ (2 ^ 32 - i % 2 ^ 32) % 2 ^ 32)
unfolding price_to_idx quot wrap32
price_to_idx_lem b t i r e h =
    let n = i * t + r in
    let ticks : n / t ≡ i =
      mul-add-div_right (omega (arith, h)) i r ∙ omega (arith, div-eq_of_lt h) in
    (
      rw (above b.base_price n, e, ticks) refl,
      rw (below b.base_price n, e, quot_below n t, ticks) (wrap_below i),
    )
