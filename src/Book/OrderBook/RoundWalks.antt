-- ===== src/Book/OrderBook/RoundWalks.antt =====
-- include/lx/book/order_book.hpp: the walk over all crossing orders is that of a round of the outer loop of
-- `match`, and the walk over what the round leaves.
use lite_exchange.Base.{
  ℕ, ◌-◌, ◌≡◌, refl, ◌∙◌, ap, ◌≢◌, ◌⊎◌, ℤ, Bool, true, false, ◌==◌, arith, List, [], ◌++◌, length,
  length-append, update, update_ne, update_self, All, Bool-cases, inl, inr, All-zip, Absent-All,
}
use lite_exchange.Book.Order.{Order}
use lite_exchange.Book.Matching.{Matching, Dims, Flow, slots_of}
use lite_exchange.Book.OrderBook.Sweep.{
  Swept, sweep, sweep-same, sweep-append, sweep-zero, then_sweep, unswept,
}
use lite_exchange.Book.OrderBook.BestLevel.{Beyond, marked-lt}
use lite_exchange.Book.OrderBook.Path.{priority, path_first, priority_from}
use lite_exchange.Book.OrderBook.Match.{elsewhere}
use lite_exchange.Book.OrderBook.MatchDone.{
  match_sweep, Beyond-empty, priority_best, crosses-crossing, behind, behind-update,
}
use lite_exchange.Book.OrderBook.Rounds.{
  Joins, All-path, Joins-used_up, Joins-filled, Round, round_sweep, round_queues, round_state,
}

module _ (agg_idx max_fills : ℕ) {bid : Bool} {d : Dims} {idx : ℤ → ℕ} {live : ℕ → Bool} {agg : ℕ}
    {q : ℕ → List ℕ} {m : Matching} {flow : Flow} {m' : Matching}
    (o : Round agg_idx max_fills bid d idx live agg q m flow m') where
  walk_from :
      priority bid d.ladder_size q agg_idx
      ≡ q m.passive.best_idx ++ (behind bid q m.passive.best_idx agg_idx)
  walk_from =
      priority_best o.before.ladder agg_idx o.at o.beyond
      ∙ path_first bid q m.passive.best_idx agg_idx
          (crosses-crossing bid m.passive.best_idx agg_idx o.cross)

  pub walk_after :
      priority bid d.ladder_size (round_queues max_fills agg q m) agg_idx
      ≡ (round_sweep max_fills agg q m).rest ++ (behind bid q m.passive.best_idx agg_idx)
  walk_after =
      priority_from bid d.ladder_size (round_queues max_fills agg q m) m.passive.best_idx agg_idx
        (marked-lt d.ladder_size m.passive.best_idx o.before.ladder.fits o.at)
        (λ i h p.
          update_ne q m.passive.best_idx (round_sweep max_fills agg q m).rest i (not_best i p)
          ∙ Beyond-empty o.before.ladder o.beyond i p)
      ∙ path_first bid (round_queues max_fills agg q m) m.passive.best_idx agg_idx
          (crosses-crossing bid m.passive.best_idx agg_idx o.cross)
      ∙ rw
          (
            update_self q m.passive.best_idx (round_sweep max_fills agg q m).rest,
            behind-update bid q m.passive.best_idx agg_idx (round_sweep max_fills agg q m).rest,
          )
          refl
    where
      not_best : (i : ℕ) → Beyond bid i m.passive.best_idx → i ≢ m.passive.best_idx
      not_best i p = side bid p
        where
          side : (c : Bool) → Beyond c i m.passive.best_idx → i ≢ m.passive.best_idx
          side true p = omega arith
          side false p = omega arith

  tail_same :
      All (λ y. (slots_of m' y).qty ≡ (slots_of m y).qty) (behind bid q m.passive.best_idx agg_idx)
  tail_same = rw (← behind-update bid q m.passive.best_idx agg_idx []) (
      All-path (λ y. (slots_of m' y).qty ≡ (slots_of m y).qty) bid (update q m.passive.best_idx [])
        _ _ level_same)
    where
      off :
          (i : ℕ)
          → i ≢ m.passive.best_idx
          → All (λ y. (slots_of m' y).qty ≡ (slots_of m y).qty) (q i)
      off i ne =
          All-zip (q i) (λ y p a. ap (λ (o : Order). o.qty) (o.level.others y p a))
            (Absent-All agg (q i) (o.before.apart i)) (elsewhere o.before i m.passive.best_idx ne)

      level_same :
          (i : ℕ)
          → All (λ y. (slots_of m' y).qty ≡ (slots_of m y).qty) (update q m.passive.best_idx [] i)
      level_same i = elim (Bool-cases (i == m.passive.best_idx)) [
        | inl here ↦ rw here tt
        | inr other ↦ rw other (off i (λ z. ground arith))
      ]

  pub second_sweep : Swept
  second_sweep =
      sweep (slots_of m) m.arena.order_session (slots_of m agg).order_id
        (max_fills - length m.fills - length (round_sweep max_fills agg q m).fills)
        (round_sweep max_fills agg q m).left (behind bid q m.passive.best_idx agg_idx)

  pub whole_walk :
      match_sweep bid d max_fills agg agg_idx q m
      ≡ then_sweep
          (round_sweep max_fills agg q m)
          (behind bid q m.passive.best_idx agg_idx)
          second_sweep
  unfolding second_sweep
  whole_walk = rw walk_from (sweep-append _ _ _ _ _ _ _)

  pub room :
      max_fills - length m'.fills
      ≡ max_fills - length m.fills - length (round_sweep max_fills agg q m).fills
  room =
      omega (
        arith,
        ap length o.level.fills,
        length-append m.fills (round_sweep max_fills agg q m).fills,
      )

  next_sweep_used_up :
      (round_sweep max_fills agg q m).rest ≡ []
      → match_sweep bid d max_fills agg agg_idx
          (round_queues max_fills agg q m)
          (round_state bid d m')
        ≡ second_sweep
  unfolding second_sweep
  next_sweep_used_up e =
      rw (walk_after, e, o.level.sessions, o.level.same.order_id agg, o.level.agg_left, room)
        (sweep-same (slots_of m) (slots_of m') _ _ _ _ _ o.level.same tail_same)

  next_sweep_filled :
      (round_sweep max_fills agg q m).left ≡ 0
      → match_sweep bid d max_fills agg agg_idx
          (round_queues max_fills agg q m)
          (round_state bid d m')
        ≡ unswept 0
            ((round_sweep max_fills agg q m).rest ++ behind bid q m.passive.best_idx agg_idx)
  next_sweep_filled e = rw (walk_after, o.level.agg_left, e) (sweep-zero _ _ _ _ _)

  -- The round's walk and that of the rounds after it are the walk of the whole match.
  pub joins :
      ((round_sweep max_fills agg q m).rest ≡ [])
        ⊎ (((round_sweep max_fills agg q m).rest ≢ []) × ((round_sweep max_fills agg q m).left ≡ 0))
      → Joins (match_sweep bid d max_fills agg agg_idx q m) (round_sweep max_fills agg q m) (
          match_sweep bid d max_fills agg agg_idx
            (round_queues max_fills agg q m)
            (round_state bid d m'))
  joins (inl e) = rw (whole_walk, next_sweep_used_up e) (Joins-used_up _ _ _ e)
  joins (inr (ne, z)) = rw (whole_walk, next_sweep_filled z) (Joins-filled _ _ _ ne z)
