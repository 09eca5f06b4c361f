-- ===== src/Book/OrderBook/Rounds.antt =====
-- The rounds of the outer loop of `match` in include/lx/book/order_book.hpp add up to one walk.
use lite_exchange.Base.{
  ℕ, zero, suc, ◌≡◌, refl, sym, ◌≢◌, ℤ, Bool, true, List, [], ◌∷◌, ◌++◌, update, All, All-append,
}
use mathlib.Core.List.{append-nil}
use lite_exchange.Book.LevelBitmap.Bits.{level_bit}
use lite_exchange.Book.Matching.{Matching, Dims, Flow, advance, crosses}
use lite_exchange.Book.OrderBook.Sweep.{Swept, then_sweep, unswept}
use lite_exchange.Book.OrderBook.Level.{LevelDone}
use lite_exchange.Book.OrderBook.LevelLoop.{level_sweep}
use lite_exchange.Book.OrderBook.BestLevel.{Beyond}
use lite_exchange.Book.OrderBook.Path.{path, worse}
use lite_exchange.Book.OrderBook.Match.{MatchReady}

-- A walk `s` is the walk `s1` and then `s2`.
pub record Joins (s s1 s2 : Swept) : Type 0 where
  pub fills : s.fills ≡ s1.fills ++ s2.fills
  pub left : s.left ≡ s2.left
  pub rest : s.rest ≡ s2.rest

pub All-path :
    (P : ℕ → Type 0) (bid : Bool) (q : ℕ → List ℕ) (b k : ℕ)
    → ((i : ℕ) → All P (q i))
    → All P (path bid q b k)
All-path P bid q b zero h = tt
All-path P bid q b (suc k) h =
    All-append P (q b) (path bid q (worse bid b) k) (h b) (All-path P bid q (worse bid b) k h)

-- The walks join where the first queue is used up, and where the order is.
pub Joins-used_up : (s1 s2 : Swept) (ys : List ℕ) → s1.rest ≡ [] → Joins (then_sweep s1 ys s2) s1 s2
Joins-used_up s1 s2 ys e = rw e (record { fills = refl; left = refl; rest = refl })

pub Joins-filled :
    (s1 t : Swept) (ys : List ℕ)
    → s1.rest ≢ []
    → s1.left ≡ 0
    → Joins (then_sweep s1 ys t) s1 (unswept 0 (s1.rest ++ ys))
Joins-filled s1 t ys ne z = go s1.rest refl
  where
    go : (r : List ℕ) → s1.rest ≡ r → Joins (then_sweep s1 ys t) s1 (unswept 0 (s1.rest ++ ys))
    go [] e = absurd (ne e)
    go (x ∷ xs) e = rw e (record { fills = sym (append-nil s1.fills); left = z; rest = refl })

-- A round of the loop in which the inner loop runs, at the best level.
pub record Round (agg_idx max_fills : ℕ) (bid : Bool) (d : Dims) (idx : ℤ → ℕ) (live : ℕ → Bool)
    (agg : ℕ) (q : ℕ → List ℕ) (m : Matching) (flow : Flow) (m' : Matching) : Type 0 where
  pub before : MatchReady bid d idx live agg q m
  pub at : level_bit m.passive.occ m.passive.best_idx ≡ 1
  pub beyond : (i : ℕ) → Beyond bid i m.passive.best_idx → level_bit m.passive.occ i ≡ 0
  pub cross : crosses bid m.passive.best_idx agg_idx ≡ true
  pub level :
      LevelDone d.max_orders live agg m.passive.best_idx
        (q m.passive.best_idx)
        m
        (level_sweep max_fills agg (q m.passive.best_idx) m)
        flow
        m'

-- The walk of the round, and the queues after it.
abbrev pub round_sweep : ℕ → ℕ → (ℕ → List ℕ) → Matching → Swept
round_sweep max_fills agg q m = level_sweep max_fills agg (q m.passive.best_idx) m

abbrev pub round_queues : ℕ → ℕ → (ℕ → List ℕ) → Matching → ℕ → List ℕ
round_queues max_fills agg q m = update q m.passive.best_idx (round_sweep max_fills agg q m).rest

abbrev pub round_state : Bool → Dims → Matching → Matching
round_state bid d m' = record m' { passive = advance bid d m'.passive }
