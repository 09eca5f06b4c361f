-- ===== src/Book/OrderBook/FillRound.antt =====
-- include/lx/book/order_book.hpp: one round of the inner loop of `match`, with the order at the head filled
-- in part or popped and freed.
use lite_exchange.Base.{
  ℕ, ◌-◌, ◌≡◌, refl, ◌∙◌, ap, ◌≢◌, inl, inr, Bool, true, false, arith, update, Bool-cases, List, [],
  ◌∷◌, ◌++◌, Absent, min, update_ne, update_self,
}
use lite_exchange.Book.Order.{Order}
use lite_exchange.Book.Pool.{free, with_slots}
use lite_exchange.Book.Pool.Ages.{Aged, free-Aged}
use lite_exchange.Book.Pool.Free.{IsPool, free-IsPool}
use lite_exchange.Book.PriceLevel.{PriceLevel, pop_front}
use lite_exchange.Book.PriceLevel.Fifo.{IsNarrow, Represents}
use lite_exchange.Book.PriceLevel.Front.{pop_front-Represents, Popped, pop_front-Popped}
use lite_exchange.Book.Matching.{Matching, slots_of, fill_of, fill_one, retire, with_pool}
use lite_exchange.Book.OrderBook.Step.{
  SameOrders, filled, lowered, filled-agg, filled-head, filled-SameOrders, filled-IsNarrow,
  filled-Represents,
}
use lite_exchange.Book.OrderBook.FillOne.{
  takes, FillOne, lowered_match, popped_match, fill_one-retire, retire-gone, retire-kept, gen-free,
  pool_with_slots, not-head, CanFill,
}

module _ (n : ℕ) (live : ℕ → Bool) (agg best x : ℕ) (xs : List ℕ) (m : Matching)
    (can : CanFill n live agg best x xs m) where
  slots : ℕ → Order
  slots = slots_of m

  level : PriceLevel
  level = m.passive.levels best

  f : ℕ
  f = min (slots_of m agg).qty (slots_of m x).qty

  -- The slots and the level after the fill.
  low : ℕ → Order
  low = filled (slots_of m) agg x (min (slots_of m agg).qty (slots_of m x).qty)

  head_is : level.head_idx ≡ x
  unfolding level
  head_is = can.level.chain.0

  fill_qty : (fill_of agg best m).qty ≡ f
  unfolding fill_of f level
  fill_qty = ap (λ (h : ℕ). min (slots_of m agg).qty (slots_of m h).qty) head_is

  low-head : (low x).qty ≡ (slots_of m x).qty - (slots_of m agg).qty
  unfolding low
  low-head = omega (
    arith,
    filled-head (slots_of m) agg x (min (slots_of m agg).qty (slots_of m x).qty) can.apart.0
        (omega arith) (can.narrow x),
  )

  low-agg : (low agg).qty ≡ (slots_of m agg).qty - (slots_of m x).qty
  unfolding low
  low-agg = omega (
    arith,
    filled-agg (slots_of m) agg x (min (slots_of m agg).qty (slots_of m x).qty) can.apart.0
        (omega arith) (can.narrow agg),
  )

  low-level : Represents low (lowered level f) (x ∷ xs)
  unfolding low level f
  low-level =
      filled-Represents (slots_of m) agg x (min (slots_of m agg).qty (slots_of m x).qty) can.apart.0
        xs (omega arith) (omega arith) can.narrow can.apart.1 can.level

  low-IsNarrow : IsNarrow low
  unfolding low
  low-IsNarrow = filled-IsNarrow (slots_of m) agg x _ can.apart.0 can.narrow

  low-same : SameOrders slots low
  unfolding low slots
  low-same = filled-SameOrders (slots_of m) agg x _ can.apart.0

  low-other : (i : ℕ) → i ≢ agg → i ≢ x → (low i) ≡ (slots_of m i)
  unfolding low
  low-other i p q = ground arith

  -- `lowered_match` by its parts.
  after : Matching
  unfolding low level f
  after = record {
    passive = record m.passive { levels = update m.passive.levels best (lowered level f) };
    arena = with_pool m.arena (with_slots low m.arena.pool);
    fills = m.fills ++ fill_of agg best m ∷ [];
  }

  lowered-after : lowered_match agg best m ≡ after
  unfolding after low level f
  lowered-after = rw (head_is, fill_qty) refl

  after-level : after.passive.levels best ≡ lowered level f
  unfolding after
  after-level = update_self m.passive.levels best (lowered level f)

  after-FillOne : takes agg x m ≡ false → FillOne n live agg best x xs m after
  unfolding after slots with_slots
  after-FillOne e = record {
    same = low-same;
    agg_qty = low-agg;
    head_qty = low-head;
    other_qty = λ i p q. ap (λ (o : Order). o.qty) (low-other i p q);
    others = λ i p q. low-other i p q.0;
    narrow = low-IsNarrow;
    level = rw (e, update_self m.passive.levels best (lowered level f)) low-level;
    pool = rw e (pool_with_slots low can.pool);
    gens = λ i p. refl;
    ages = λ i. rw e (inl (refl, refl));
    other_levels = λ j p. update_ne m.passive.levels best (lowered level f) j p;
    best_same = refl;
    occ_same = refl;
    sessions = refl;
    fills = refl;
  }

  popped : ℕ × PriceLevel × (ℕ → Order)
  popped = pop_front (after.passive.levels best) low

  popped-lowered : popped ≡ pop_front (lowered level f) low
  unfolding popped
  popped-lowered = rw after-level

  popped-Represents : Represents popped.2 popped.1 xs
  popped-Represents = rw popped-lowered (pop_front-Represents x xs low-IsNarrow low-level).1

  Popped-links : Popped low popped.2 (low x).next_idx
  Popped-links = rw popped-lowered (rw (← head_is) (pop_front-Popped low (lowered level f)))

  popped-other : (i : ℕ) → Absent i (x ∷ xs) → popped.2 i ≡ low i
  popped-other i a = Popped-links.others i (λ some_next.
      not-head low x (low x).next_idx (lowered level f).tail_idx i xs low-level.chain.3 a.1
        some_next)

  -- `popped_match` by its parts.
  gone : Matching
  unfolding popped low level f
  gone = record {
    passive = record m.passive {
      levels = update (update m.passive.levels best (lowered level f)) best popped.1;
    };
    arena = with_pool m.arena (free x (with_slots popped.2 m.arena.pool));
    fills = m.fills ++ fill_of agg best m ∷ [];
  }

  popped-gone : popped_match best x after ≡ gone
  unfolding after gone popped with_slots
  popped-gone = refl

  gone-slots : slots_of gone ≡ popped.2
  unfolding gone free with_slots
  gone-slots = refl

  gone-qty : (i : ℕ) → (slots_of gone i).qty ≡ (low i).qty
  gone-qty i = rw gone-slots (Popped-links.qty i)

  gone-same : SameOrders (slots_of m) (slots_of gone)
  unfolding slots
  gone-same = rw gone-slots (record {
    order_id = λ i. Popped-links.order_id i ∙ low-same.order_id i;
    price = λ i. Popped-links.price i ∙ low-same.price i;
    side = λ i. Popped-links.side i ∙ low-same.side i;
    symbol = λ i. Popped-links.symbol i ∙ low-same.symbol i;
  })

  gone-pool : IsPool n gone.arena.pool (update live x false)
  unfolding gone
  gone-pool =
      (free-IsPool n x (pool_with_slots popped.2 can.pool) can.small can.in_arena can.in_use).2

  gone-gens : (i : ℕ) → i ≢ x → gone.arena.pool.gen i ≡ m.arena.pool.gen i
  unfolding gone with_slots
  gone-gens i h = gen-free x (with_slots popped.2 m.arena.pool) i h

  gone-ages :
      (i : ℕ) → Aged (live i) (update live x false i) (m.arena.pool.gen i) (gone.arena.pool.gen i)
  unfolding gone with_slots
  gone-ages i = free-Aged (with_slots popped.2 m.arena.pool) live x can.in_use i

  gone-level : gone.passive.levels best ≡ popped.1
  unfolding gone
  gone-level = update_self (update m.passive.levels best (lowered level f)) best popped.1

  gone-levels : (j : ℕ) → j ≢ best → gone.passive.levels j ≡ m.passive.levels j
  unfolding gone
  gone-levels j p =
      update_ne (update m.passive.levels best (lowered level f)) best popped.1 j p
      ∙ update_ne m.passive.levels best (lowered level f) j p

  gone-rest :
      (gone.passive.best_idx ≡ m.passive.best_idx)
      × (gone.passive.occ ≡ m.passive.occ)
      × (gone.arena.order_session ≡ m.arena.order_session)
      × (gone.fills ≡ m.fills ++ fill_of agg best m ∷ [])
  unfolding gone
  gone-rest = (refl, refl, refl, refl)

  gone-FillOne : takes agg x m ≡ true → FillOne n live agg best x xs m gone
  gone-FillOne e = record {
    same = gone-same;
    agg_qty = gone-qty agg ∙ low-agg;
    head_qty = gone-qty x ∙ low-head;
    other_qty = λ i p q. gone-qty i ∙ ap (λ (o : Order). o.qty) (low-other i p q);
    others = λ i p q. rw gone-slots (popped-other i q ∙ low-other i p q.0);
    narrow = λ i. rw (gone-qty i) (low-IsNarrow i);
    level = rw (e, gone-slots, gone-level) popped-Represents;
    pool = rw e gone-pool;
    gens = gone-gens;
    ages = λ i. rw e (gone-ages i);
    other_levels = gone-levels;
    best_same = gone-rest.0;
    occ_same = gone-rest.1;
    sessions = gone-rest.2;
    fills = gone-rest.3;
  }

  pub fill_one-FillOne : FillOne n live agg best x xs m (fill_one agg best m)
  fill_one-FillOne = rw by_parts (elim (Bool-cases (takes agg x m)) [
    | inl e ↦ rw (retire-gone best x after (used_up e), popped-gone) (gone-FillOne e)
    | inr e ↦ rw (retire-kept best x after (left_over e)) (after-FillOne e)
  ])
    where
      by_parts : fill_one agg best m ≡ retire best x after
      by_parts =
          fill_one-retire agg best m
          ∙ ap (λ (h : ℕ). retire best h (lowered_match agg best m)) can.level.chain.0
          ∙ ap (retire best x) lowered-after

      used_up : takes agg x m ≡ true → (slots_of after x).qty ≡ 0
      used_up e = unfold after with_slots in ground (arith, low-head)

      left_over : takes agg x m ≡ false → (slots_of after x).qty ≢ 0
      left_over e = unfold after with_slots in ground (arith, low-head)
