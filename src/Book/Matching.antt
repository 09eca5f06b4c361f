-- ===== src/Book/Matching.antt =====
-- include/lx/book/order_book.hpp: what a book is made of, and `match`. The fields of one side of the book
-- (`best_bid_idx_`, `bid_levels_`, `bid_occ_` and their ask twins) are a `Ladder`, which the code's `Side`
-- template selects. An aggressor is a reference into the arena, here its slot.
use lite_exchange.Base.{
  ℕ, zero, suc, ◌-◌, ◌*◌, Bool, true, false, not, ◌&&◌, ltb, leb, ◌==◌, if◌then◌else◌, min, List,
  [], ◌∷◌, ◌++◌, length, update, add32, sub32,
}
use lite_exchange.Proto.Messages.{Fill, MsgType}
use lite_exchange.Book.Order.{Order, null_idx}
use lite_exchange.Book.Pool.{Pool, free, with_slots}
use lite_exchange.Book.PriceLevel.{PriceLevel, empty, pop_front}
use lite_exchange.Book.LevelBitmap
use lite_exchange.Book.LevelBitmap.{Words, next_up, next_down}

-- The template arguments `MAX_ORDERS` and `LADDER_SIZE`.
pub record Dims : Type 0 where
  pub max_orders : ℕ
  pub ladder_size : ℕ

pub record Ladder : Type 0 where
  pub best_idx : ℕ
  pub levels : ℕ → PriceLevel
  pub occ : Words

-- What a shard's books borrow: the arena, and the owner session of each slot.
pub record Arena : Type 0 where
  pub pool : Pool Order
  pub order_session : ℕ → ℕ

-- `find_best` of the bids (true) or the asks (false).
unfoldable pub find_best : Bool → Dims → Words → ℕ → ℕ
find_best true d occ from = next_down d.ladder_size occ from
find_best false d occ from = next_up d.ladder_size occ from

-- The next best level of `match`, after `best` is empty.
unfoldable pub find_after : Bool → Dims → Words → ℕ → ℕ
unfolding find_best
find_after true d occ best = if ltb 0 best then find_best true d occ (best - 1) else null_idx
find_after false d occ best = find_best false d occ (add32 best 1)

-- The passive side of a match, the arena and the fills written so far, in order.
pub record Matching : Type 0 where
  pub passive : Ladder
  pub arena : Arena
  pub fills : List Fill

abbrev pub slots_of : Matching → ℕ → Order
slots_of m = m.arena.pool.slots

abbrev pub with_pool : Arena → Pool Order → Arena
with_pool a p = record a { pool = p }

abbrev pub set_qty : (ℕ → Order) → ℕ → ℕ → ℕ → Order
set_qty base i q = update base i (record (base i) { qty = q })

-- How a loop of `match` ended.
pub data Flow : Type 0 where
  returned finished no_fuel : Flow

-- `if (resting.qty == 0) { level.pop_front(...); pool_.free(rslot); }` at level `best`.
unfoldable pub retire : ℕ → ℕ → Matching → Matching
retire best rslot m =
    let (_, level, slots) = pop_front (m.passive.levels best) m.arena.pool.slots in
    if (m.arena.pool.slots rslot).qty == 0
    then record m {
      passive = record m.passive { levels = update m.passive.levels best level };
      arena = with_pool m.arena (free rslot (with_slots slots m.arena.pool));
    }
    else m

-- The fill of the aggressor `agg` against the order at the head of level `best`.
unfoldable pub fill_of : ℕ → ℕ → Matching → Fill
fill_of agg best m =
    let slots = m.arena.pool.slots in
    let rslot = (m.passive.levels best).head_idx in
    record {
      hdr = record {
        len = 40;
        type = MsgType.fill;
        flags = 0;
        session_id = m.arena.order_session rslot;
      };
      aggressor_id = (slots agg).order_id;
      resting_id = (slots rslot).order_id;
      price = (slots rslot).price;
      qty = min (slots agg).qty (slots rslot).qty;
    }

-- From the fill to the end of the round of the inner loop.
unfoldable pub fill_one : ℕ → ℕ → Matching → Matching
fill_one agg best m =
    let level = m.passive.levels best in
    let f = fill_of agg best m in
    let rslot = level.head_idx in
    let slots0 = m.arena.pool.slots in
    let slots1 = set_qty slots0 agg (sub32 (slots0 agg).qty f.qty) in
    let slots2 = set_qty slots1 rslot (sub32 (slots1 rslot).qty f.qty) in
    let level' = record level { total_qty = sub32 level.total_qty f.qty } in
    retire best rslot (record {
      passive = record m.passive { levels = update m.passive.levels best level' };
      arena = with_pool m.arena (with_slots slots2 m.arena.pool);
      fills = m.fills ++ f ∷ [];
    })

-- `while (aggressor.qty > 0 && !level.empty())`, on fuel.
unfoldable pub match_level : ℕ → ℕ → ℕ → ℕ → Matching → Flow × Matching
match_level zero max_fills agg best m = (no_fuel, m)
match_level (suc fuel) max_fills agg best m =
    let rest = match_level fuel max_fills agg best (fill_one agg best m) in
    if ltb 0 (m.arena.pool.slots agg).qty && not (empty (m.passive.levels best))
    then (if leb max_fills (length m.fills) then (returned, m) else rest)
    else (finished, m)

-- `if (level.empty())`: the bit of the level goes, and the best price moves on.
unfoldable pub advance : Bool → Dims → Ladder → Ladder
advance bid d l =
    let occ = LevelBitmap.clear l.best_idx l.occ in
    if empty (l.levels l.best_idx)
    then record l { occ = occ; best_idx = find_after bid d occ l.best_idx }
    else l

-- A bid meets the passive level `best` if it is at most `agg_idx`, an offer if it is at least that.
-- `bid` is the passive side.
abbrev pub crosses : Bool → ℕ → ℕ → Bool
crosses true best agg_idx = leb agg_idx best
crosses false best agg_idx = leb best agg_idx

-- `match`, on fuel for the rounds of the outer loop; `bid` is the passive side.
unfoldable pub match_loop : ℕ → Bool → Dims → ℕ → ℕ → ℕ → Matching → Flow × Matching
match_loop zero bid d max_fills agg agg_idx m = (no_fuel, m)
match_loop (suc fuel) bid d max_fills agg agg_idx m =
    let best = m.passive.best_idx in
    let (flow, m') = match_level (suc max_fills) max_fills agg best m in
    let rest =
      match_loop fuel bid d max_fills agg agg_idx
        (record m' { passive = advance bid d m'.passive }) in
    if ltb 0 (m.arena.pool.slots agg).qty && not (best == null_idx) && crosses bid best agg_idx
    then elim flow [ finished ↦ rest | returned ↦ (returned, m') | no_fuel ↦ (no_fuel, m') ]
    else (finished, m)

-- The rounds of the outer loop: two more than the bits of the bitmap.
abbrev pub match_fuel : Dims → ℕ
match_fuel d = suc (suc (LevelBitmap.num_words d.ladder_size * 64))
