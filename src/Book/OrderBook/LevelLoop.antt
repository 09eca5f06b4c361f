-- ===== src/Book/OrderBook/LevelLoop.antt =====
-- The inner loop of `match` in include/lx/book/order_book.hpp, as a whole.
use lite_exchange.Base.{
  ℕ, zero, suc, ◌+◌, ◌-◌, ◌<◌, ◌≤◌, ◌≡◌, refl, ◌∙◌, ap, ◌≢◌, Bool, true, false, ◌&&◌, not, leb, ltb,
  if◌then◌else◌, arith, min, List, [], ◌∷◌, length, length-append, Bool-cases, inl, inr,
}
use lite_exchange.Book.Order.{null_idx}
use lite_exchange.Book.PriceLevel.{empty}
use lite_exchange.Book.Matching.{
  Matching, finished, returned, slots_of, fill_of, fill_one, match_level,
}
use lite_exchange.Book.OrderBook.FillOne.{FillOne, takes}
use lite_exchange.Book.OrderBook.FillRound.{fill_one-FillOne}
use lite_exchange.Book.OrderBook.Sweep.{
  Swept, sweep, sweep_step, sweep_full, unswept, cons_swept, fill_for,
}
use lite_exchange.Book.OrderBook.Level.{
  LevelReady, LevelDone, untouched, can_fill, step_ready, same_tail, step_done, rest_of, live_of,
}

-- The walk that the loop stands for.
abbrev pub level_sweep : ℕ → ℕ → List ℕ → Matching → Swept
level_sweep max_fills agg xs m =
    sweep (slots_of m) m.arena.order_session (slots_of m agg).order_id (max_fills - length m.fills)
      (slots_of m agg).qty xs

level_stop :
    (fuel max_fills agg best : ℕ) (m : Matching)
    → (ltb 0 (slots_of m agg).qty && not (empty (m.passive.levels best))) ≡ false
    → match_level (suc fuel) max_fills agg best m ≡ (finished, m)
unfolding match_level
level_stop fuel max_fills agg best m e = rw e

level_full :
    (fuel max_fills agg best : ℕ) (m : Matching)
    → (ltb 0 (slots_of m agg).qty && not (empty (m.passive.levels best))) ≡ true
    → leb max_fills (length m.fills) ≡ true
    → match_level (suc fuel) max_fills agg best m ≡ (returned, m)
unfolding match_level
level_full fuel max_fills agg best m e e' = rw (e, e')

level_next :
    (fuel max_fills agg best : ℕ) (m : Matching)
    → (ltb 0 (slots_of m agg).qty && not (empty (m.passive.levels best))) ≡ true
    → leb max_fills (length m.fills) ≡ false
    → match_level (suc fuel) max_fills agg best m
      ≡ match_level fuel max_fills agg best (fill_one agg best m)
unfolding match_level
level_next fuel max_fills agg best m e e' = rw (e, e')

fill_of-head :
    (agg best x : ℕ) (m : Matching)
    → (m.passive.levels best).head_idx ≡ x
    → fill_of agg best m
      ≡ fill_for
          (slots_of m)
          m.arena.order_session
          (slots_of m agg).order_id
          x
          (if takes agg x m then (slots_of m x).qty else (slots_of m agg).qty)
unfolding fill_of
fill_of-head agg best x m e = rw (e, least) refl
  where
    least :
        min (slots_of m agg).qty (slots_of m x).qty
        ≡ (if takes agg x m then (slots_of m x).qty else (slots_of m agg).qty)
    least = ground arith

-- The loop ends within one round more than there is room for fills, and does what the walk over the
-- queue says.
pub match_level-LevelDone :
    (fuel max_fills n : ℕ) (live : ℕ → Bool) (agg best : ℕ) (xs : List ℕ) (m : Matching)
    → LevelReady n live agg best xs m
    → length m.fills ≤ max_fills
    → max_fills - length m.fills < fuel
    → let (flow, m') = match_level fuel max_fills agg best m in
      LevelDone n live agg best xs m (level_sweep max_fills agg xs m) flow m'
match_level-LevelDone zero max_fills n live agg best xs m r h k = absurd (omega arith)
match_level-LevelDone (suc fuel) max_fills n live agg best [] m r h k =
    rw (level_stop fuel max_fills agg best m none_left)
      (unfold sweep in untouched n live agg best [] m finished r refl)
  where
    none_left : (ltb 0 (slots_of m agg).qty && not (empty (m.passive.levels best))) ≡ false
    none_left = ground (arith, r.level.chain.0)
match_level-LevelDone (suc fuel) max_fills n live agg best (x ∷ xs) m r h k =
    elim (Bool-cases (ltb 0 (slots_of m agg).qty)) [
      | inr used ↦
          let zero_left : (slots_of m agg).qty ≡ 0 = ground arith in
          rw (level_stop fuel max_fills agg best m (ground arith), spent zero_left)
            (untouched n live agg best (x ∷ xs) m finished r (ground arith))
      | inl wants ↦ elim (Bool-cases (leb max_fills (length m.fills))) [
        | inl full ↦
            rw (level_full fuel max_fills agg best m (more wants) full, no_room (ground arith))
              (untouched n live agg best (x ∷ xs) m returned r (ground arith))
        | inr room ↦
            let f = fill_one-FillOne n live agg best x xs m (can_fill r) in
            rw (level_next fuel max_fills agg best m (more wants) room, walks f wants room)
              (step_done r f (
                match_level-LevelDone fuel max_fills n (live_of live agg x m) agg best
                  (rest_of agg x xs m) (fill_one agg best m) (step_ready r f)
                  (omega (arith, fill_count f, some_room room))
                  (omega (arith, fill_count f, some_room room))))
      ]
    ]
  where
    fill_count :
        FillOne n live agg best x xs m (fill_one agg best m)
        → length (fill_one agg best m).fills ≡ length m.fills + 1
    fill_count f = ap length f.fills ∙ length-append m.fills (fill_of agg best m ∷ [])

    room_left :
        FillOne n live agg best x xs m (fill_one agg best m)
        → max_fills - length (fill_one agg best m).fills ≡ max_fills - length m.fills - 1
    room_left f = omega (arith, fill_count f)

    some_here : (m.passive.levels best).head_idx ≢ null_idx
    some_here = ground (arith, r.level.chain.1)

    more :
        ltb 0 (slots_of m agg).qty ≡ true
        → (ltb 0 (slots_of m agg).qty && not (empty (m.passive.levels best))) ≡ true
    more e = rw e (ground (arith, some_here))

    spent :
        (slots_of m agg).qty ≡ 0
        → level_sweep max_fills agg (x ∷ xs) m ≡ unswept (slots_of m agg).qty (x ∷ xs)
    spent e = unfold sweep in ground arith

    no_room :
        max_fills - length m.fills ≡ 0
        → level_sweep max_fills agg (x ∷ xs) m ≡ unswept (slots_of m agg).qty (x ∷ xs)
    no_room e = rw e (sweep_full _ _ _ _ _)

    some_qty : ltb 0 (slots_of m agg).qty ≡ true → (slots_of m agg).qty ≢ 0
    some_qty e z = ground arith

    some_room : leb max_fills (length m.fills) ≡ false → max_fills - length m.fills ≢ 0
    some_room e z = ground arith

    walks :
        FillOne n live agg best x xs m (fill_one agg best m)
        → ltb 0 (slots_of m agg).qty ≡ true
        → leb max_fills (length m.fills) ≡ false
        → level_sweep max_fills agg (x ∷ xs) m
          ≡ cons_swept
              (fill_of agg best m)
              (takes agg x m)
              x
              (level_sweep max_fills agg (rest_of agg x xs m) (fill_one agg best m))
    walks f e e' =
        rw
          (
            f.sessions,
            f.same.order_id agg,
            room_left f,
            f.agg_qty,
            fill_of-head agg best x m r.level.chain.0,
          )
          (sweep_step (slots_of m) (slots_of (fill_one agg best m)) m.arena.order_session
            (slots_of m agg).order_id (max_fills - length m.fills) (slots_of m agg).qty x xs f.same
            (same_tail r f) (some_qty e) (some_room e'))
