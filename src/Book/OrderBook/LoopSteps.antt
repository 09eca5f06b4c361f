-- ===== src/Book/OrderBook/LoopSteps.antt =====
-- include/lx/book/order_book.hpp: the outer loop of `match` stops, goes on to the next level, or is at the
-- end of its room.
use lite_exchange.Base.{
  ℕ, suc, ◌+◌, ◌-◌, ◌<◌, ◌≤◌, ◌≡◌, ◌∙◌, ap, ◌≢◌, ℤ, Bool, true, false, not, ◌&&◌, ◌==◌, ltb,
  if◌then◌else◌, arith, List, [], ◌∷◌, length, length-append, update_ne, update_self, Bool-cases,
  inl, inr,
}
use lite_exchange.Book.Order.{null_idx}
use lite_exchange.Book.LevelBitmap.Bits.{level_bit}
use lite_exchange.Book.Matching.{
  Matching, Dims, Flow, finished, returned, slots_of, advance, crosses, match_level, match_loop,
}
use lite_exchange.Book.OrderBook.Sweep.{sweep-room}
use lite_exchange.Book.OrderBook.Level.{released}
use lite_exchange.Book.OrderBook.BestLevel.{Beyond, IsBest, is_nil, marked-lt}
use lite_exchange.Book.OrderBook.Match.{MatchReady, round_ready}
use lite_exchange.Book.OrderBook.MatchDone.{Beyond-empty}
use lite_exchange.Book.OrderBook.Rounds.{Round, round_sweep, round_queues, round_state}

-- `while (aggressor.qty > 0 && best != NULL_IDX)` and the test of the prices.
abbrev pub goes_on : Bool → ℕ → ℕ → Matching → Bool
goes_on bid agg agg_idx m =
    ltb 0 (slots_of m agg).qty
    && not (m.passive.best_idx == null_idx)
    && crosses bid m.passive.best_idx agg_idx

pub loop_stop :
    (fuel : ℕ) (bid : Bool) (d : Dims) (max_fills agg agg_idx : ℕ) (m : Matching)
    → goes_on bid agg agg_idx m ≡ false
    → match_loop (suc fuel) bid d max_fills agg agg_idx m ≡ (finished, m)
unfolding match_loop
loop_stop fuel bid d max_fills agg agg_idx m e = rw e

pub loop_next :
    (fuel : ℕ) (bid : Bool) (d : Dims) (max_fills agg agg_idx : ℕ) (m : Matching)
    → goes_on bid agg agg_idx m ≡ true
    → let (flow, m') = match_level (suc max_fills) max_fills agg m.passive.best_idx m in
      flow ≡ finished
      → match_loop (suc fuel) bid d max_fills agg agg_idx m
        ≡ match_loop fuel bid d max_fills agg agg_idx (round_state bid d m')
unfolding match_loop
loop_next fuel bid d max_fills agg agg_idx m e f = rw (e, f)

pub loop_full :
    (fuel : ℕ) (bid : Bool) (d : Dims) (max_fills agg agg_idx : ℕ) (m : Matching)
    → goes_on bid agg agg_idx m ≡ true
    → let (flow, m') = match_level (suc max_fills) max_fills agg m.passive.best_idx m in
      flow ≡ returned → match_loop (suc fuel) bid d max_fills agg agg_idx m ≡ (returned, m')
unfolding match_loop
loop_full fuel bid d max_fills agg agg_idx m e f = rw (e, f)

-- The levels from `b` on.
abbrev pub span : Bool → Dims → ℕ → ℕ
span true d b = b + 1
span false d b = d.ladder_size - b

-- The rounds that may be left.
abbrev pub pending : Bool → Dims → ℕ → Matching → ℕ
pending bid d agg m =
    if (slots_of m agg).qty == 0
    then 0
    else if m.passive.best_idx == null_idx
    then 0
    else span bid d m.passive.best_idx

span-lt :
    (bid : Bool) (d : Dims) (b b' : ℕ)
    → b < d.ladder_size
    → b' < d.ladder_size
    → b' ≢ b
    → ¬ Beyond bid b' b
    → span bid d b' < span bid d b
span-lt true d b b' h h' ne worse = elim (Bool-cases (ltb b b')) [
  | inl e ↦ absurd (worse (ground arith))
  | inr e ↦ ground arith
]
span-lt false d b b' h h' ne worse = elim (Bool-cases (ltb b' b)) [
  | inl e ↦ absurd (worse (ground arith))
  | inr e ↦ ground arith
]

pub span-pos : (bid : Bool) (d : Dims) (b : ℕ) → b < d.ladder_size → 0 < span bid d b
span-pos true d b h = omega arith
span-pos false d b h = omega arith

bit_of_nil : (xs : List ℕ) (b : ℕ) → b ≡ (if is_nil xs then 0 else 1) → xs ≡ [] → b ≡ 0
bit_of_nil [] b h e = h
bit_of_nil (x ∷ xs) b h e = absurd (ground arith)

module _ (agg_idx max_fills : ℕ) {bid : Bool} {d : Dims} {idx : ℤ → ℕ} {live : ℕ → Bool} {agg : ℕ}
    {q : ℕ → List ℕ} {m : Matching} {flow : Flow} {m' : Matching}
    (o : Round agg_idx max_fills bid d idx live agg q m flow m') where
  pub best-lt : m.passive.best_idx < d.ladder_size
  best-lt = marked-lt d.ladder_size m.passive.best_idx o.before.ladder.fits o.at

  pub after :
      MatchReady bid d idx
        (released (round_sweep max_fills agg q m).taken live)
        agg
        (round_queues max_fills agg q m)
        (round_state bid d m')
  after = round_ready o.before max_fills o.at o.beyond o.level

  -- A round that uses a level up moves the best price on.
  pub moves_on :
      (slots_of m agg).qty ≢ 0
      → (round_sweep max_fills agg q m).rest ≡ []
      → pending bid d agg (round_state bid d m') < pending bid d agg m
  moves_on qn e = by_best after.ladder.best
    where
      now : pending bid d agg m ≡ span bid d m.passive.best_idx
      now = ground (arith, best-lt, o.before.sized.0)

      by_best :
          IsBest bid (advance bid d m'.passive).occ (advance bid d m'.passive).best_idx
          → pending bid d agg (round_state bid d m') < pending bid d agg m
      by_best (inl (none, h)) =
          rw (now, none) (ground (arith, span-pos bid d m.passive.best_idx best-lt))
      by_best (inr (at, h)) =
          let b' = (advance bid d m'.passive).best_idx in
          let other : b' ≢ m.passive.best_idx = λ z.
            marked_not b' at
              (rw z (update_self q m.passive.best_idx (round_sweep max_fills agg q m).rest ∙ e)) in
          let shorter : span bid d b' < span bid d m.passive.best_idx =
            span-lt bid d m.passive.best_idx b' best-lt
              (marked-lt d.ladder_size b' after.ladder.fits at) other
              (λ k. marked_not b' at (
                update_ne q m.passive.best_idx (round_sweep max_fills agg q m).rest b' other
                ∙ Beyond-empty o.before.ladder o.beyond b' k)) in
          rw now (ground arith)
        where
          marked_not :
              (i : ℕ)
              → level_bit (advance bid d m'.passive).occ i ≡ 1
              → round_queues max_fills agg q m i ≢ []
          marked_not i at1 nil = absurd (
              ground (
                arith,
                bit_of_nil (round_queues max_fills agg q m i) _ (after.ladder.marked i) nil,
              ))

  pub still_room : length m.fills ≤ max_fills → length m'.fills ≤ max_fills
  still_room h = omega (
    arith,
    ap length o.level.fills,
    length-append m.fills (round_sweep max_fills agg q m).fills,
    sweep-room (slots_of m) m.arena.order_session (slots_of m agg).order_id
        (max_fills - length m.fills) (slots_of m agg).qty (q m.passive.best_idx),
  )
