-- ===== src/Book/OrderBook/MatchLoop.antt =====
-- The outer loop of `match` in include/lx/book/order_book.hpp ends, and does what the walk over the
-- orders in priority says.
use lite_exchange.Base.{
  ℕ, zero, suc, ◌<◌, ◌≤◌, ◌≡◌, refl, sym, ◌∙◌, ap, ◌≢◌, ◌⊎◌, ℤ, Bool, true, false, ◌==◌, arith,
  List, [], ◌∷◌, length, Bool-cases, inl, inr,
}
use lite_exchange.Book.Matching.{
  Matching, Dims, Flow, finished, returned, slots_of, crosses, match_level, match_loop, match_fuel,
}
use lite_exchange.Book.OrderBook.Sweep.{sweep, sweep-zero, unswept}
use lite_exchange.Book.OrderBook.Level.{flow_of}
use lite_exchange.Book.OrderBook.LevelLoop.{match_level-LevelDone}
use lite_exchange.Book.OrderBook.BestLevel.{IsBest, marked-lt}
use lite_exchange.Book.OrderBook.Path.{path, priority, path_empty}
use lite_exchange.Book.OrderBook.Match.{MatchReady, level_ready}
use lite_exchange.Book.OrderBook.MatchDone.{
  MatchDone, match_sweep, nothing_done, none_marked, priority_best, crossing_none,
}
use lite_exchange.Book.OrderBook.Rounds.{Round, round_sweep, round_queues, round_state}
use lite_exchange.Book.OrderBook.RoundWalks.{joins}
use lite_exchange.Book.OrderBook.RoundJoins.{then_done, full_done}
use lite_exchange.Book.OrderBook.LoopSteps.{
  goes_on, loop_stop, loop_next, loop_full, span, pending, span-pos, after, best-lt, moves_on,
  still_room,
}

-- The loop ends within the rounds that may be left, and what it leaves is what the walk over the
-- crossing orders in priority leaves.
pub match_loop-MatchDone :
    (fuel : ℕ) (bid : Bool) (d : Dims) (idx : ℤ → ℕ) (max_fills agg agg_idx : ℕ) (live : ℕ → Bool)
    (q : ℕ → List ℕ) (m : Matching)
    → MatchReady bid d idx live agg q m
    → length m.fills ≤ max_fills
    → pending bid d agg m < fuel
    → let (flow, m') = match_loop fuel bid d max_fills agg agg_idx m in
      MatchDone bid d idx live agg agg_idx q m (match_sweep bid d max_fills agg agg_idx q m) flow m'
match_loop-MatchDone zero bid d idx max_fills agg agg_idx live q m r h k = absurd (omega arith)
match_loop-MatchDone (suc fuel) bid d idx max_fills agg agg_idx live q m r h k =
    by_best (match_loop-MatchDone fuel bid d idx max_fills agg agg_idx) r.ladder.best
  where
    Goal : Flow × Matching → Type 0
    Goal out =
        MatchDone bid d idx live agg agg_idx q m (match_sweep bid d max_fills agg agg_idx q m) out.0
          out.1

    Later : Type 0
    Later =
        (live : ℕ → Bool) (q : ℕ → List ℕ) (m : Matching)
        → MatchReady bid d idx live agg q m
        → length m.fills ≤ max_fills
        → pending bid d agg m < fuel
        → let (flow, m') = match_loop fuel bid d max_fills agg agg_idx m in
          MatchDone bid d idx live agg agg_idx q m (match_sweep bid d max_fills agg agg_idx q m)
            flow m'

    nothing :
        goes_on bid agg agg_idx m ≡ false
        → match_sweep bid d max_fills agg agg_idx q m
          ≡ unswept (slots_of m agg).qty (priority bid d.ladder_size q agg_idx)
        → flow_of (slots_of m agg).qty (priority bid d.ladder_size q agg_idx) ≡ finished
        → Goal (match_loop (suc fuel) bid d max_fills agg agg_idx m)
    nothing e s f =
        rw (loop_stop fuel bid d max_fills agg agg_idx m e) (nothing_done agg agg_idx r s f)

    no_path :
        goes_on bid agg agg_idx m ≡ false
        → priority bid d.ladder_size q agg_idx ≡ []
        → Goal (match_loop (suc fuel) bid d max_fills agg agg_idx m)
    no_path e p = nothing e (rw p (unfold sweep in refl)) (rw p refl)

    flow_zero : (z : ℕ) → z ≡ 0 → (xs : List ℕ) → flow_of z xs ≡ finished
    flow_zero z e [] = refl
    flow_zero z e (x ∷ xs) = rw e refl

    round :
        Later
        → Round agg_idx max_fills bid d idx live agg q m
            (match_level (suc max_fills) max_fills agg m.passive.best_idx m).0
            (match_level (suc max_fills) max_fills agg m.passive.best_idx m).1
        → goes_on bid agg agg_idx m ≡ true
        → Goal (match_loop (suc fuel) bid d max_fills agg agg_idx m)
    round later o go = by_rest (round_sweep max_fills agg q m).rest refl
      where
        qn : (slots_of m agg).qty ≢ 0
        qn z = ground arith

        next :
            (match_level (suc max_fills) max_fills agg m.passive.best_idx m).0 ≡ finished
            → ((round_sweep max_fills agg q m).rest ≡ [])
              ⊎ (((round_sweep max_fills agg q m).rest ≢ [])
                  × ((round_sweep max_fills agg q m).left ≡ 0))
            → pending bid d agg (
                round_state bid d
                  (match_level (suc max_fills) max_fills agg m.passive.best_idx m).1)
              < fuel
            → Goal (match_loop (suc fuel) bid d max_fills agg agg_idx m)
        next f end less = rw (loop_next fuel bid d max_fills agg agg_idx m go f) (
            then_done agg_idx max_fills o (joins agg_idx max_fills o end) (
              later _ (round_queues max_fills agg q m) _ (after agg_idx max_fills o)
                (still_room agg_idx max_fills o h) less))

        by_rest :
            (xs : List ℕ)
            → (round_sweep max_fills agg q m).rest ≡ xs
            → Goal (match_loop (suc fuel) bid d max_fills agg agg_idx m)
        by_rest [] e =
            next (o.level.flow_is ∙ rw e refl) (inl e)
              (omega (arith, moves_on agg_idx max_fills o qn e))
        by_rest (x ∷ xs) e = elim (Bool-cases ((round_sweep max_fills agg q m).left == 0)) [
          | inl z ↦
              next (o.level.flow_is ∙ rw (e, z) refl)
                (inr (λ w. list_ne x xs (sym e ∙ w), ground arith))
                (ground (
                  arith,
                  o.level.agg_left,
                  best-lt agg_idx max_fills o,
                  o.before.sized.0,
                  span-pos bid d m.passive.best_idx (best-lt agg_idx max_fills o),
                ))
          | inr z ↦
              let f : (match_level (suc max_fills) max_fills agg m.passive.best_idx m).0
                  ≡ returned =
                o.level.flow_is ∙ rw (e, z) refl in
              rw (loop_full fuel bid d max_fills agg agg_idx m go f)
                (full_done agg_idx max_fills o (λ w. list_ne x xs (sym e ∙ w)) f)
        ]
          where
            list_ne : (x : ℕ) (xs : List ℕ) → (x ∷ xs) ≢ []
            list_ne x xs z = absurd (cc)

    by_best :
        Later
        → IsBest bid m.passive.occ m.passive.best_idx
        → Goal (match_loop (suc fuel) bid d max_fills agg agg_idx m)
    by_best later (inl (none, unmarked)) =
        no_path (ground arith) (path_empty bid q _ _ (none_marked r.ladder unmarked))
    by_best later (inr (at, beyond)) = elim (Bool-cases (goes_on bid agg agg_idx m)) [
      | inl go ↦
          round later
            (record {
              before = r;
              at = at;
              beyond = beyond;
              cross = ground arith;
              level =
                  match_level-LevelDone (suc max_fills) max_fills d.max_orders live agg
                    m.passive.best_idx (q m.passive.best_idx) m (level_ready r) h (omega arith);
            })
            go
      | inr stop ↦ elim (Bool-cases ((slots_of m agg).qty == 0)) [
        | inl used ↦
            let z : (slots_of m agg).qty ≡ 0 = ground arith in
            nothing stop (rw z (sweep-zero _ _ _ _ _)) (flow_zero (slots_of m agg).qty z _)
        | inr wants ↦
            let here : m.passive.best_idx < d.ladder_size =
              marked-lt d.ladder_size m.passive.best_idx r.ladder.fits at in
            let apart : crosses bid m.passive.best_idx agg_idx ≡ false =
              ground (arith, r.sized.0) in
            no_path stop (
              priority_best r.ladder agg_idx at beyond
              ∙ ap (path bid q m.passive.best_idx)
                  (crossing_none bid m.passive.best_idx agg_idx apart))
      ]
    ]

-- The rounds that `match` is given are enough for every ladder.
pub pending-lt :
    (bid : Bool) (d : Dims) {idx : ℤ → ℕ} (agg : ℕ) {live : ℕ → Bool} {q : ℕ → List ℕ}
    {m : Matching}
    → MatchReady bid d idx live agg q m
    → pending bid d agg m < match_fuel d
pending-lt bid d agg {q = q} {m = m} r = by_best r.ladder.best
  where
    span-le :
        (c : Bool)
        → m.passive.best_idx < d.ladder_size
        → span c d m.passive.best_idx ≤ d.ladder_size
    span-le true h = omega arith
    span-le false h = omega arith

    by_best : IsBest bid m.passive.occ m.passive.best_idx → pending bid d agg m < match_fuel d
    by_best (inl (none, h)) = rw none (ground arith)
    by_best (inr (at, h)) =
        ground (arith, span-le bid (marked-lt d.ladder_size m.passive.best_idx r.ladder.fits at))
