-- ===== src/Book/OrderBook/MatchDone.antt =====
-- `match` of include/lx/book/order_book.hpp as a walk over the resting orders in price-time priority:
-- what its outer loop leaves, and how the rounds add up.
use lite_exchange.Base.{
  ℕ, zero, suc, ◌+◌, ◌-◌, ◌≡◌, refl, sym, ◌≢◌, ℤ, Bool, true, false, if◌then◌else◌, arith, List, [],
  ◌∷◌, ◌++◌, update, Absent, Present, inl,
}
use mathlib.Core.List.{append-nil}
use lite_exchange.Book.Order.{Order}
use lite_exchange.Book.Pool.Ages.{Aged}
use lite_exchange.Book.LevelBitmap.Bits.{level_bit}
use lite_exchange.Book.Matching.{Matching, Dims, Ladder, Flow, finished, slots_of, crosses}
use lite_exchange.Book.OrderBook.Step.{SameOrders}
use lite_exchange.Book.OrderBook.Sweep.{Swept, unswept}
use lite_exchange.Book.OrderBook.Level.{flow_of}
use lite_exchange.Book.OrderBook.LevelLoop.{level_sweep}
use lite_exchange.Book.OrderBook.BestLevel.{IsLadder, is_nil, Beyond, marked-lt}
use lite_exchange.Book.OrderBook.Path.{
  path, worse, crossing, priority, priority_from, path-update_up, path-update_down,
}
use lite_exchange.Book.OrderBook.Match.{MatchReady}

-- The walk that a match stands for: over the orders that cross with `agg_idx`, best price first and
-- oldest first.
abbrev pub match_sweep : Bool → Dims → ℕ → ℕ → ℕ → (ℕ → List ℕ) → Matching → Swept
match_sweep bid d max_fills agg agg_idx q m =
    level_sweep max_fills agg (priority bid d.ladder_size q agg_idx) m

pub record MatchDone (bid : Bool) (d : Dims) (idx : ℤ → ℕ) (live : ℕ → Bool) (agg agg_idx : ℕ)
    (q : ℕ → List ℕ) (m : Matching) (s : Swept) (flow : Flow) (m' : Matching) : Type 0 where
  pub queues : ℕ → List ℕ
  pub in_use : ℕ → Bool
  pub ready : MatchReady bid d idx in_use agg queues m'
  pub same : SameOrders (slots_of m) (slots_of m')
  pub others : (i : ℕ) → i ≢ agg → ((j : ℕ) → Absent i (q j)) → slots_of m' i ≡ slots_of m i
  pub others_use : (i : ℕ) → ((j : ℕ) → Absent i (q j)) → in_use i ≡ live i
  pub kept :
      (i : ℕ)
      → in_use i ≡ true
      → (live i ≡ true) × ((j : ℕ) → Present i (q j) → Present i (queues j))
  pub only : (i j : ℕ) → Present i (queues j) → Present i (q j)
  pub ages : (i : ℕ) → Aged (live i) (in_use i) (m.arena.pool.gen i) (m'.arena.pool.gen i)
  pub gens : (i : ℕ) → ((j : ℕ) → Absent i (q j)) → m'.arena.pool.gen i ≡ m.arena.pool.gen i
  pub sessions : m'.arena.order_session ≡ m.arena.order_session
  pub agg_left : (slots_of m' agg).qty ≡ s.left
  pub fills : m'.fills ≡ m.fills ++ s.fills
  pub rest : priority bid d.ladder_size queues agg_idx ≡ s.rest
  pub off_path : (i : ℕ) → crosses bid i agg_idx ≡ false → queues i ≡ q i
  pub flow_is : flow ≡ flow_of s.left s.rest

-- A match that has nothing to do.
pub nothing_done :
    {bid : Bool} {d : Dims} {idx : ℤ → ℕ} {live : ℕ → Bool} (agg agg_idx : ℕ) {q : ℕ → List ℕ}
    {m : Matching} {s : Swept}
    → MatchReady bid d idx live agg q m
    → s ≡ unswept (slots_of m agg).qty (priority bid d.ladder_size q agg_idx)
    → flow_of (slots_of m agg).qty (priority bid d.ladder_size q agg_idx) ≡ finished
    → MatchDone bid d idx live agg agg_idx q m s finished m
nothing_done agg agg_idx {q} {m} r e f = rw e (record {
  queues = q;
  in_use = _;
  ready = r;
  same = record { order_id = λ i. refl; price = λ i. refl; side = λ i. refl; symbol = λ i. refl };
  others = λ i p a. refl;
  others_use = λ i a. refl;
  kept = λ i e. (e, λ j h. h);
  only = λ i j h. h;
  ages = λ i. inl (refl, refl);
  gens = λ i a. refl;
  sessions = refl;
  agg_left = refl;
  fills = sym (append-nil m.fills);
  rest = refl;
  off_path = λ i h. refl;
  flow_is = sym f;
})

empty_of_bit : (xs : List ℕ) (b : ℕ) → b ≡ (if is_nil xs then 0 else 1) → b ≡ 0 → xs ≡ []
empty_of_bit [] b h e = refl
empty_of_bit (x ∷ xs) b h e = absurd (ground arith)

module _ {bid : Bool} {d : Dims} {slots : ℕ → Order} {l : Ladder} {q : ℕ → List ℕ}
    (v : IsLadder bid d slots l q) where
  pub none_marked : ((i : ℕ) → level_bit l.occ i ≡ 0) → (i : ℕ) → q i ≡ []
  none_marked h i = empty_of_bit (q i) (level_bit l.occ i) (v.marked i) (h i)

  pub Beyond-empty :
      ((i : ℕ) → Beyond bid i l.best_idx → level_bit l.occ i ≡ 0)
      → (i : ℕ) → Beyond bid i l.best_idx
      → q i ≡ []
  Beyond-empty h i p = empty_of_bit (q i) (level_bit l.occ i) (v.marked i) (h i p)

  -- The orders that cross, from the best level on.
  pub priority_best :
      (agg_idx : ℕ)
      → level_bit l.occ l.best_idx ≡ 1
      → ((i : ℕ) → Beyond bid i l.best_idx → level_bit l.occ i ≡ 0)
      → priority bid d.ladder_size q agg_idx
        ≡ path bid q l.best_idx (crossing bid l.best_idx agg_idx)
  priority_best agg_idx at beyond =
      priority_from bid d.ladder_size q l.best_idx agg_idx
        (marked-lt d.ladder_size l.best_idx v.fits at) (λ i h p. Beyond-empty beyond i p)

pub crosses-crossing :
    (bid : Bool) (b agg_idx : ℕ) → crosses bid b agg_idx ≡ true → crossing bid b agg_idx ≢ 0
crosses-crossing true b agg_idx h z = ground arith
crosses-crossing false b agg_idx h z = ground arith

pub crossing_none :
    (bid : Bool) (b agg_idx : ℕ) → crosses bid b agg_idx ≡ false → crossing bid b agg_idx ≡ 0
crossing_none true b agg_idx h = ground arith
crossing_none false b agg_idx h = ground arith

-- The orders behind those of level `b`.
abbrev pub behind : Bool → (ℕ → List ℕ) → ℕ → ℕ → List ℕ
behind bid q b agg_idx = path bid q (worse bid b) (crossing bid b agg_idx - 1)

pub behind-update :
    (bid : Bool) (q : ℕ → List ℕ) (b agg_idx : ℕ) (xs : List ℕ)
    → behind bid (update q b xs) b agg_idx ≡ behind bid q b agg_idx
behind-update true q zero agg_idx xs =
    let none_left : 1 - agg_idx - 1 ≡ 0 = omega arith in rw none_left
behind-update true q (suc b) agg_idx xs =
    path-update_down q (suc b - 1) (suc b + 1 - agg_idx - 1) (suc b) xs (omega arith)
behind-update false q b agg_idx xs =
    path-update_up q (b + 1) (agg_idx + 1 - b - 1) b xs (omega arith)
