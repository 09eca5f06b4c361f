-- ===== src/Book/OrderBook/Level.antt =====
-- The inner loop of `match` in include/lx/book/order_book.hpp is a walk over the level's queue.
use lite_exchange.Base.{
  ℕ, ◌^◌, ◌<◌, ◌≡◌, refl, sym, ◌∙◌, ap, ◌≢◌, ◌⊎◌, Bool, true, false, ◌==◌, if◌then◌else◌, arith,
  List, [], ◌∷◌, ◌++◌, All, update, Absent, Bool-cases, inl, inr,
}
use mathlib.Core.List.{append-nil, append_assoc}
use lite_exchange.Proto.Messages.{Fill}
use lite_exchange.Book.Order.{Order}
use lite_exchange.Book.Pool.Ages.{Aged, Aged-trans}
use lite_exchange.Book.Pool.Free.{IsPool}
use lite_exchange.Book.PriceLevel.Fifo.{IsNarrow, Represents}
use lite_exchange.Book.Matching.{Matching, Flow, finished, returned, slots_of, fill_of}
use lite_exchange.Book.OrderBook.Step.{SameOrders}
use lite_exchange.Book.OrderBook.FillOne.{FillOne, CanFill, takes}
use lite_exchange.Book.OrderBook.Sweep.{Swept, unswept, cons_swept}

-- A slot of the arena in use, whose order has quantity left.
abbrev pub Resting : (ℕ → Order) → (ℕ → Bool) → ℕ → ℕ → Type 0
Resting slots live n x = (x < n) × (live x ≡ true) × (0 < (slots x).qty)

-- The slots in use after those of a list were freed.
abbrev pub released : List ℕ → (ℕ → Bool) → ℕ → Bool
released [] live = live
released (x ∷ xs) live = released xs (update live x false)

abbrev pub flow_of : ℕ → List ℕ → Flow
flow_of left [] = finished
flow_of left (x ∷ xs) = if left == 0 then finished else returned

-- Before the loop: the level `best` holds the queue `xs`, and the aggressor is none of it.
pub record LevelReady (n : ℕ) (live : ℕ → Bool) (agg best : ℕ) (xs : List ℕ) (m : Matching)
    : Type 0 where
  pub small : n < 2 ^ 32
  pub narrow : IsNarrow (slots_of m)
  pub level : Represents (slots_of m) (m.passive.levels best) xs
  pub apart : Absent agg xs
  pub pool : IsPool n m.arena.pool live
  pub members : All (Resting (slots_of m) live n) xs

-- After it, for the walk `s`.
pub record LevelDone (n : ℕ) (live : ℕ → Bool) (agg best : ℕ) (xs : List ℕ) (m : Matching)
    (s : Swept) (flow : Flow) (m' : Matching) : Type 0 where
  pub same : SameOrders (slots_of m) (slots_of m')
  pub agg_left : (slots_of m' agg).qty ≡ s.left
  pub others : (i : ℕ) → i ≢ agg → Absent i xs → slots_of m' i ≡ slots_of m i
  pub narrow : IsNarrow (slots_of m')
  pub level : Represents (slots_of m') (m'.passive.levels best) s.rest
  pub pool : IsPool n m'.arena.pool (released s.taken live)
  pub members : All (Resting (slots_of m') (released s.taken live) n) s.rest
  pub gens : (i : ℕ) → Absent i xs → m'.arena.pool.gen i ≡ m.arena.pool.gen i
  pub ages :
      (i : ℕ) → Aged (live i) (released s.taken live i) (m.arena.pool.gen i) (m'.arena.pool.gen i)
  pub other_levels : (j : ℕ) → j ≢ best → m'.passive.levels j ≡ m.passive.levels j
  pub best_same : m'.passive.best_idx ≡ m.passive.best_idx
  pub occ_same : m'.passive.occ ≡ m.passive.occ
  pub sessions : m'.arena.order_session ≡ m.arena.order_session
  pub fills : m'.fills ≡ m.fills ++ s.fills
  pub flow_is : flow ≡ flow_of s.left s.rest

-- A predicate of the members of a list, off two slots that are none of them.
All-off :
    {P Q : ℕ → Type 0} (x y : ℕ) (xs : List ℕ)
    → ((i : ℕ) → i ≢ x → i ≢ y → P i → Q i)
    → Absent x xs
    → Absent y xs
    → All P xs
    → All Q xs
All-off x y [] f ax ay h = tt
All-off x y (z ∷ xs) f ax ay h =
    (f z (λ e. ax.0 (sym e)) (λ e. ay.0 (sym e)) h.0, All-off x y xs f ax.1 ay.1 h.1)

All-any :
    {Q : ℕ → Type 0} (x y : ℕ) (xs : List ℕ)
    → ((i : ℕ) → i ≢ x → i ≢ y → Q i)
    → Absent x xs
    → Absent y xs
    → All Q xs
All-any x y [] f ax ay = tt
All-any x y (z ∷ xs) f ax ay =
    (f z (λ e. ax.0 (sym e)) (λ e. ay.0 (sym e)), All-any x y xs f ax.1 ay.1)

pub untouched :
    (n : ℕ) (live : ℕ → Bool) (agg best : ℕ) (xs : List ℕ) (m : Matching) (flow : Flow)
    → LevelReady n live agg best xs m
    → flow ≡ flow_of (slots_of m agg).qty xs
    → LevelDone n live agg best xs m (unswept (slots_of m agg).qty xs) flow m
untouched n live agg best xs m flow r e = record {
  same = record { order_id = λ i. refl; price = λ i. refl; side = λ i. refl; symbol = λ i. refl };
  agg_left = refl;
  others = λ i p q. refl;
  narrow = r.narrow;
  level = r.level;
  pool = r.pool;
  members = r.members;
  gens = λ i p. refl;
  ages = λ i. inl (refl, refl);
  other_levels = λ j p. refl;
  best_same = refl;
  occ_same = refl;
  sessions = refl;
  fills = sym (append-nil m.fills);
  flow_is = e;
}

-- The queue after one fill.
abbrev pub rest_of : ℕ → ℕ → List ℕ → Matching → List ℕ
rest_of agg x xs m = if takes agg x m then xs else x ∷ xs

abbrev pub live_of : (ℕ → Bool) → ℕ → ℕ → Matching → ℕ → Bool
live_of live agg x m = if takes agg x m then update live x false else live

module _ {n : ℕ} {live : ℕ → Bool} {agg best x : ℕ} {xs : List ℕ} {m : Matching}
    (r : LevelReady n live agg best (x ∷ xs) m) where
  pub can_fill : CanFill n live agg best x xs m
  can_fill = record {
    small = r.small;
    narrow = r.narrow;
    level = r.level;
    apart = r.apart;
    pool = r.pool;
    in_arena = r.members.0.0;
    in_use = r.members.0.1;
  }

  pub step_ready :
      {m' : Matching}
      → FillOne n live agg best x xs m m'
      → LevelReady n (live_of live agg x m) agg best (rest_of agg x xs m) m'
  step_ready {m'} f = record {
    small = r.small;
    narrow = f.narrow;
    level = f.level;
    apart = ground (arith, r.apart);
    pool = f.pool;
    members = kept (Bool-cases (takes agg x m));
  }
    where
      kept :
          ((takes agg x m) ≡ true) ⊎ ((takes agg x m) ≡ false)
          → All (Resting (slots_of m') (live_of live agg x m) n) (rest_of agg x xs m)
      kept (inl e) = rw e (
          All-off agg x xs (λ i p q h. (h.0, ground (arith, h.1), rw (f.other_qty i p q) h.2))
            r.apart.1 r.level.distinct.0 r.members.1)
      kept (inr e) = rw e (
        (r.members.0.0, r.members.0.1, ground (arith, f.head_qty)),
        All-off agg x xs (λ i p q h. (h.0, h.1, rw (f.other_qty i p q) h.2)) r.apart.1
            r.level.distinct.0 r.members.1,
      )

  pub same_tail :
      {m' : Matching}
      → FillOne n live agg best x xs m m'
      → All (λ y. (slots_of m' y).qty ≡ (slots_of m y).qty) xs
  same_tail {m'} f = All-any agg x xs f.other_qty r.apart.1 r.level.distinct.0

  pub step_done :
      {m1 m' : Matching} {s : Swept} {flow : Flow}
      → FillOne n live agg best x xs m m1
      → LevelDone n (live_of live agg x m) agg best (rest_of agg x xs m) m1 s flow m'
      → LevelDone n live agg best
          (x ∷ xs)
          m
          (cons_swept (fill_of agg best m) (takes agg x m) x s)
          flow
          m'
  step_done {m1} {m'} {s} {flow} f d = record {
    same = record {
      order_id = λ i. d.same.order_id i ∙ f.same.order_id i;
      price = λ i. d.same.price i ∙ f.same.price i;
      side = λ i. d.same.side i ∙ f.same.side i;
      symbol = λ i. d.same.symbol i ∙ f.same.symbol i;
    };
    agg_left = d.agg_left;
    others = λ i p q. d.others i p (fewer i q) ∙ f.others i p q;
    narrow = d.narrow;
    level = d.level;
    pool = rw lives d.pool;
    members = rw lives d.members;
    ages = λ i. rw lives (Aged-trans (f.ages i) (d.ages i));
    gens = λ i q. d.gens i (fewer i q) ∙ f.gens i q.0;
    other_levels = λ j p. d.other_levels j p ∙ f.other_levels j p;
    best_same = d.best_same ∙ f.best_same;
    occ_same = d.occ_same ∙ f.occ_same;
    sessions = d.sessions ∙ f.sessions;
    fills =
        d.fills
        ∙ ap (λ (l : List Fill). l ++ s.fills) f.fills
        ∙ append_assoc m.fills (fill_of agg best m ∷ []) s.fills;
    flow_is = d.flow_is;
  }
    where
      fewer : (i : ℕ) → Absent i (x ∷ xs) → Absent i (rest_of agg x xs m)
      fewer i q = ground (arith, q)

      lives :
          released (if takes agg x m then x ∷ s.taken else s.taken) live
          ≡ released s.taken (live_of live agg x m)
      lives = elim (Bool-cases (takes agg x m)) [ inl e ↦ rw e | inr e ↦ rw e ]
