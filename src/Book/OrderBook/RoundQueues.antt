-- ===== src/Book/OrderBook/RoundQueues.antt =====
-- include/lx/book/order_book.hpp: the queues that a round of the outer loop of `match` leaves.
use lite_exchange.Base.{
  ℕ, ◌≡◌, ℤ, Bool, true, ◌==◌, List, ◌++◌, Absent, Bool-cases, inl, inr, Absent-append_left,
  Absent-append_right, Present, Present-rest, Present-right, ==_iff,
}
use lite_exchange.Book.Matching.{Matching, Dims, Flow}
use lite_exchange.Book.OrderBook.Level.{released}
use lite_exchange.Book.OrderBook.Sweep.{sweep-parts}
use lite_exchange.Book.OrderBook.Match.{released_kept}
use lite_exchange.Book.OrderBook.Rounds.{Round, round_sweep, round_queues}

module _ (agg_idx max_fills : ℕ) {bid : Bool} {d : Dims} {idx : ℤ → ℕ} {live : ℕ → Bool} {agg : ℕ}
    {q : ℕ → List ℕ} {m : Matching} {flow : Flow} {m' : Matching}
    (o : Round agg_idx max_fills bid d idx live agg q m flow m') where
  in_rest :
      (x : ℕ) → Absent x (q m.passive.best_idx) → Absent x (round_sweep max_fills agg q m).rest
  in_rest x a =
      Absent-append_right x (round_sweep max_fills agg q m).taken
        (round_sweep max_fills agg q m).rest (rw (sweep-parts _ _ _ _ _ (q m.passive.best_idx)) a)

  pub in_taken :
      (x : ℕ) → Absent x (q m.passive.best_idx) → Absent x (round_sweep max_fills agg q m).taken
  in_taken x a =
      Absent-append_left x (round_sweep max_fills agg q m).taken
        (round_sweep max_fills agg q m).rest (rw (sweep-parts _ _ _ _ _ (q m.passive.best_idx)) a)

  pub q1-Absent :
      (i : ℕ) → ((j : ℕ) → Absent i (q j)) → (j : ℕ) → Absent i ((round_queues max_fills agg q m) j)
  q1-Absent i a j = elim (Bool-cases (j == m.passive.best_idx)) [
    | inl here ↦ rw here (in_rest i (a m.passive.best_idx))
    | inr off ↦ rw off (a j)
  ]

  -- A slot in use after the round was in use before it, and is still where it stood.
  pub round_kept :
      (x : ℕ)
      → released (round_sweep max_fills agg q m).taken live x ≡ true
      → (live x ≡ true) × ((j : ℕ) → Present x (q j) → Present x (round_queues max_fills agg q m j))
  round_kept x h =
      let (used, off) = released_kept (round_sweep max_fills agg q m).taken live x h in
      (
        used,
        λ j p. elim (Bool-cases (j == m.passive.best_idx)) [
          | inl here ↦ rw here (
              Present-rest x (round_sweep max_fills agg q m).taken
                (round_sweep max_fills agg q m).rest off
                (rw
                  (
                    sweep-parts _ _ _ _ _ (q m.passive.best_idx),
                    ← (==_iff j m.passive.best_idx).0 here,
                  )
                  p))
          | inr other ↦ rw other p
        ],
      )

  pub round_only : (x j : ℕ) → Present x (round_queues max_fills agg q m j) → Present x (q j)
  round_only x j p = elim (Bool-cases (j == m.passive.best_idx)) [
    | inr other ↦ rw other at p
    | inl here ↦
        let there : Present x
            ((round_sweep max_fills agg q m).taken ++ (round_sweep max_fills agg q m).rest) =
          Present-right x (round_sweep max_fills agg q m).taken (round_sweep max_fills agg q m).rest
            (rw here at p) in
        rw ((==_iff j m.passive.best_idx).0 here)
          (rw (sweep-parts _ _ _ _ _ (q m.passive.best_idx)) at there)
  ]
