-- ===== src/Book/OrderBook/RoundJoins.antt =====
-- include/lx/book/order_book.hpp: what a round of the outer loop of `match` does and what the later rounds do, taken
-- together.
use lite_exchange.Base.{
  ℕ, ◌≡◌, refl, sym, ◌∙◌, ap, ◌≢◌, ℤ, Bool, false, arith, List, [], ◌∷◌, ◌++◌, update_ne,
}
use mathlib.Core.Bool.{false≢true}
use mathlib.Core.List.{append_assoc}
use lite_exchange.Proto.Messages.{Fill}
use lite_exchange.Book.Pool.Ages.{Aged-trans}
use lite_exchange.Book.PriceLevel.{empty}
use lite_exchange.Book.Matching.{Matching, Dims, Flow, returned, advance, crosses}
use lite_exchange.Book.OrderBook.Sweep.{Swept, then_sweep}
use lite_exchange.Book.OrderBook.Level.{released}
use lite_exchange.Book.OrderBook.Match.{round_ready, released_other}
use lite_exchange.Book.OrderBook.MatchDone.{MatchDone, match_sweep, behind}
use lite_exchange.Book.OrderBook.Rounds.{Joins, Round, round_sweep, round_queues, round_state}
use lite_exchange.Book.OrderBook.RoundQueues.{in_taken, q1-Absent, round_kept, round_only}
use lite_exchange.Book.OrderBook.RoundWalks.{walk_after, second_sweep, whole_walk}

module _ (agg_idx max_fills : ℕ) {bid : Bool} {d : Dims} {idx : ℤ → ℕ} {live : ℕ → Bool} {agg : ℕ}
    {q : ℕ → List ℕ} {m : Matching} {flow : Flow} {m' : Matching}
    (o : Round agg_idx max_fills bid d idx live agg q m flow m') where
  -- What the later rounds do is added to what this one did.
  pub then_done :
      {s : Swept} {flow2 : Flow} {m2 : Matching}
      → Joins s (round_sweep max_fills agg q m) (
          match_sweep bid d max_fills agg agg_idx
            (round_queues max_fills agg q m)
            (round_state bid d m'))
      → MatchDone bid d idx
          (released (round_sweep max_fills agg q m).taken live)
          agg
          agg_idx
          (round_queues max_fills agg q m)
          (round_state bid d m')
          (match_sweep bid d max_fills agg agg_idx
            (round_queues max_fills agg q m)
            (round_state bid d m'))
          flow2
          m2
      → MatchDone bid d idx live agg agg_idx q m s flow2 m2
  then_done {s} {flow2} {m2} j k = record {
    queues = k.queues;
    in_use = k.in_use;
    ready = k.ready;
    same = record {
      order_id = λ i. k.same.order_id i ∙ o.level.same.order_id i;
      price = λ i. k.same.price i ∙ o.level.same.price i;
      side = λ i. k.same.side i ∙ o.level.same.side i;
      symbol = λ i. k.same.symbol i ∙ o.level.same.symbol i;
    };
    others = λ i p a.
        k.others i p (q1-Absent agg_idx max_fills o i a)
        ∙ o.level.others i p (a m.passive.best_idx);
    others_use = λ i a.
        k.others_use i (q1-Absent agg_idx max_fills o i a)
        ∙ released_other (round_sweep max_fills agg q m).taken live i
            (in_taken agg_idx max_fills o i (a m.passive.best_idx));
    kept = λ i h.
        let (used, there) = k.kept i h in
        let (was, here) = round_kept agg_idx max_fills o i used in (was, λ j p. there j (here j p));
    ages = λ i. Aged-trans (o.level.ages i) (k.ages i);
    only = λ i j p. (round_only agg_idx max_fills o) i j (k.only i j p);
    gens =
        λ i a. k.gens i (q1-Absent agg_idx max_fills o i a) ∙ o.level.gens i (a m.passive.best_idx);
    sessions = k.sessions ∙ o.level.sessions;
    agg_left = k.agg_left ∙ sym j.left;
    fills =
        k.fills
        ∙ ap
            (λ (l : List Fill).
              l
              ++ (match_sweep bid d max_fills agg agg_idx (round_queues max_fills agg q m)
                  (round_state bid d m')).fills)
            o.level.fills
        ∙ append_assoc m.fills (round_sweep max_fills agg q m).fills _
        ∙ ap (λ (l : List Fill). m.fills ++ l) (sym j.fills);
    rest = k.rest ∙ sym j.rest;
    off_path = λ i h. k.off_path i h ∙ update_ne q m.passive.best_idx _ i (off i h);
    flow_is = rw (j.left, j.rest) k.flow_is;
  }
    where
      off : (i : ℕ) → crosses bid i agg_idx ≡ false → i ≢ m.passive.best_idx
      off i h e = false≢true (sym h ∙ ap (λ (j : ℕ). crosses bid j agg_idx) e ∙ o.cross)

  rest_left :
      (round_sweep max_fills agg q m).rest ≢ []
      → empty (m'.passive.levels m'.passive.best_idx) ≡ false
  rest_left ne = rw o.level.best_same (go (round_sweep max_fills agg q m).rest refl)
    where
      go :
          (xs : List ℕ)
          → (round_sweep max_fills agg q m).rest ≡ xs
          → empty (m'.passive.levels m.passive.best_idx) ≡ false
      go [] e = absurd (ne e)
      go (x ∷ xs) e = let r = (rw e at o.level.level) in ground (arith, r.chain.0, r.chain.1)

  -- A level that keeps an order is still the best.
  kept_best : (round_sweep max_fills agg q m).rest ≢ [] → advance bid d m'.passive ≡ m'.passive
  unfolding advance
  kept_best ne = rw (rest_left ne)

  -- Where the (room agg_idx max_fills o) for fills runs out, the loop returns within a level.
  pub full_done :
      (round_sweep max_fills agg q m).rest ≢ []
      → flow ≡ returned
      → MatchDone bid d idx live agg agg_idx q m
          (match_sweep bid d max_fills agg agg_idx q m)
          returned
          m'
  full_done ne ret =
      rw (whole_walk agg_idx max_fills o) (go (round_sweep max_fills agg q m).rest refl)
    where
      go :
          (xs : List ℕ)
          → (round_sweep max_fills agg q m).rest ≡ xs
          → MatchDone bid d idx live agg agg_idx q m
              (then_sweep
                (round_sweep max_fills agg q m)
                (behind bid q m.passive.best_idx agg_idx)
                (second_sweep agg_idx max_fills o))
              returned
              m'
      go [] e = absurd (ne e)
      go (x ∷ xs) e = rw e (record {
        queues = round_queues max_fills agg q m;
        in_use = released (round_sweep max_fills agg q m).taken live;
        ready = rw (kept_best ne) at (round_ready o.before max_fills o.at o.beyond o.level);
        same = o.level.same;
        others = λ i p a. o.level.others i p (a m.passive.best_idx);
        others_use = λ i a.
            released_other (round_sweep max_fills agg q m).taken live i
              (in_taken agg_idx max_fills o i (a m.passive.best_idx));
        kept = λ i h. (round_kept agg_idx max_fills o) i h;
        only = round_only agg_idx max_fills o;
        ages = o.level.ages;
        gens = λ i a. o.level.gens i (a m.passive.best_idx);
        sessions = o.level.sessions;
        agg_left = o.level.agg_left;
        fills = o.level.fills;
        rest = walk_after agg_idx max_fills o ∙ rw e refl;
        off_path = λ i h.
            update_ne q m.passive.best_idx _ i
              (λ z. false≢true (sym h ∙ ap (λ (j : ℕ). crosses bid j agg_idx) z ∙ o.cross));
        flow_is = sym ret ∙ o.level.flow_is ∙ rw e refl;
      })
