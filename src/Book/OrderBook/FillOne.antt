-- ===== src/Book/OrderBook/FillOne.antt =====
-- One round of the inner loop of `match` in include/lx/book/order_book.hpp: what it leaves of the
-- level, the arena and the other orders.
use lite_exchange.Base.{
  ℕ, ◌-◌, ◌^◌, ◌<◌, ◌≡◌, refl, ◌≢◌, Bool, true, false, leb, if◌then◌else◌, arith, update, List, [],
  ◌∷◌, ◌++◌, Absent,
}
use lite_exchange.Book.Order.{Order, null_idx}
use lite_exchange.Book.Pool.{Pool, free, with_slots}
use lite_exchange.Book.Pool.Ages.{Aged}
use lite_exchange.Book.Pool.Free.{IsPool}
use lite_exchange.Book.PriceLevel.{pop_front}
use lite_exchange.Book.PriceLevel.Chain.{Chain}
use lite_exchange.Book.PriceLevel.Fifo.{IsNarrow, Represents}
use lite_exchange.Book.Matching.{Matching, slots_of, fill_of, fill_one, retire, with_pool}
use lite_exchange.Book.OrderBook.Step.{SameOrders, filled, lowered}

-- The aggressor takes the whole order at the head.
abbrev pub takes : ℕ → ℕ → Matching → Bool
takes agg x m = leb (slots_of m x).qty (slots_of m agg).qty

-- What a round leaves, for the order `x` at the head of level `best` and `xs` behind it.
pub record FillOne (n : ℕ) (live : ℕ → Bool) (agg best x : ℕ) (xs : List ℕ) (m m' : Matching)
    : Type 0 where
  pub same : SameOrders (slots_of m) (slots_of m')
  pub agg_qty : (slots_of m' agg).qty ≡ (slots_of m agg).qty - (slots_of m x).qty
  pub head_qty : (slots_of m' x).qty ≡ (slots_of m x).qty - (slots_of m agg).qty
  pub other_qty : (i : ℕ) → i ≢ agg → i ≢ x → (slots_of m' i).qty ≡ (slots_of m i).qty
  pub others : (i : ℕ) → i ≢ agg → Absent i (x ∷ xs) → slots_of m' i ≡ slots_of m i
  pub narrow : IsNarrow (slots_of m')
  pub level :
      Represents (slots_of m') (m'.passive.levels best) (if takes agg x m then xs else x ∷ xs)
  pub pool : IsPool n m'.arena.pool (if takes agg x m then update live x false else live)
  pub gens : (i : ℕ) → i ≢ x → m'.arena.pool.gen i ≡ m.arena.pool.gen i
  pub ages :
      (i : ℕ)
      → Aged
          (live i)
          ((if takes agg x m then update live x false else live) i)
          (m.arena.pool.gen i)
          (m'.arena.pool.gen i)
  pub other_levels : (j : ℕ) → j ≢ best → m'.passive.levels j ≡ m.passive.levels j
  pub best_same : m'.passive.best_idx ≡ m.passive.best_idx
  pub occ_same : m'.passive.occ ≡ m.passive.occ
  pub sessions : m'.arena.order_session ≡ m.arena.order_session
  pub fills : m'.fills ≡ m.fills ++ fill_of agg best m ∷ []

-- The state between the fill and `if (resting.qty == 0)`.
abbrev pub lowered_match : ℕ → ℕ → Matching → Matching
lowered_match agg best m =
    let f = fill_of agg best m in
    record {
      passive = record m.passive {
        levels = update m.passive.levels best (lowered (m.passive.levels best) f.qty);
      };
      arena = with_pool m.arena (
          with_slots (filled (slots_of m) agg (m.passive.levels best).head_idx f.qty) m.arena.pool);
      fills = m.fills ++ f ∷ [];
    }

-- The state after the head was popped and freed.
abbrev pub popped_match : ℕ → ℕ → Matching → Matching
popped_match best x m =
    let (_, level, slots) = pop_front (m.passive.levels best) (slots_of m) in
    record m {
      passive = record m.passive { levels = update m.passive.levels best level };
      arena = with_pool m.arena (free x (with_slots slots m.arena.pool));
    }

pub fill_one-retire :
    (agg best : ℕ) (m : Matching)
    → fill_one agg best m ≡ retire best (m.passive.levels best).head_idx (lowered_match agg best m)
unfolding fill_one
fill_one-retire agg best m = refl

pub retire-gone :
    (best x : ℕ) (m : Matching) → (slots_of m x).qty ≡ 0 → retire best x m ≡ popped_match best x m
unfolding retire
retire-gone best x m e = rw e

pub retire-kept : (best x : ℕ) (m : Matching) → (slots_of m x).qty ≢ 0 → retire best x m ≡ m
unfolding retire
retire-kept best x m e = ground arith

slots-free : (x : ℕ) (p : Pool Order) → (free x p).slots ≡ p.slots
unfolding free
slots-free x p = refl

pub gen-free : (x : ℕ) (p : Pool Order) (i : ℕ) → i ≢ x → (free x p).gen i ≡ p.gen i
unfolding free
gen-free x p i h = ground arith

pub pool_with_slots :
    {n : ℕ} {p : Pool Order} {live : ℕ → Bool} (slots : ℕ → Order)
    → IsPool n p live
    → IsPool n (with_slots slots p) live
unfolding with_slots
pool_with_slots slots v = record {
  below = v.below;
  unused = v.unused;
  once = v.once;
  kept = v.kept;
  total = v.total;
}

pub not-head :
    (slots : ℕ → Order) (prev h t y : ℕ) (xs : List ℕ)
    → Chain slots prev h t xs
    → Absent y xs
    → h ≢ null_idx
    → y ≢ h
not-head slots prev h t y [] c a n = absurd (n c.0)
not-head slots prev h t y (x ∷ xs) c a n = ground arith

-- What a round needs: the level holds `x` and then `xs`, the aggressor is none of them, and `x` is a
-- slot of the arena in use.
pub record CanFill (n : ℕ) (live : ℕ → Bool) (agg best x : ℕ) (xs : List ℕ) (m : Matching)
    : Type 0 where
  pub small : n < 2 ^ 32
  pub narrow : IsNarrow (slots_of m)
  pub level : Represents (slots_of m) (m.passive.levels best) (x ∷ xs)
  pub apart : Absent agg (x ∷ xs)
  pub pool : IsPool n m.arena.pool live
  pub in_arena : x < n
  pub in_use : live x ≡ true
