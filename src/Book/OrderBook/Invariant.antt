-- ===== src/Book/OrderBook/Invariant.antt =====
-- include/lx/book/order_book.hpp: what holds of a book and its arena between two operations.
use lite_exchange.Base.{
  ℕ, ◌≡◌, refl, sym, ◌∙◌, ◌≢◌, ℤ, Bool, true, false, not, List, All, All-map, All-zip, Absent,
  Absent-of,
}
use mathlib.Core.Bool.{false≢true}
use lite_exchange.Book.Order.{Order}
use lite_exchange.Book.Pool.Free.{IsPool}
use lite_exchange.Book.PriceLevel.Fifo.{IsNarrow}
use lite_exchange.Book.Matching.{Dims, Arena, Ladder}
use lite_exchange.Book.OrderBook.{Book, own, with_own, price_to_idx}
use lite_exchange.Book.OrderBook.BestLevel.{IsLadder, IsSized}
use lite_exchange.Book.OrderBook.Rest.{Relinks}
use lite_exchange.Book.OrderBook.Match.{Member, Represents-frame}

-- The orders of the queues of one side are where they belong.
pub record Members (bid : Bool) (idx : ℤ → ℕ) (slots : ℕ → Order) (live : ℕ → Bool) (n : ℕ)
    (q : ℕ → List ℕ) : Type 0 where
  pub at : (i : ℕ) → All (Member bid idx slots live n i) (q i)

-- The book `b` over the arena `a`: both sides hold the queues `q`, their orders are in use, each where
-- its price and its side say.
pub record IsBook (d : Dims) (b : Book) (a : Arena) (live : ℕ → Bool) (q : Bool → ℕ → List ℕ)
    : Type 0 where
  pub sized : IsSized d
  pub narrow : IsNarrow a.pool.slots
  pub pool : IsPool d.max_orders a.pool live
  pub side : (bid : Bool) → IsLadder bid d a.pool.slots (own bid b) (q bid)
  pub members : (bid : Bool) → Members bid (price_to_idx b) a.pool.slots live d.max_orders (q bid)

-- The queues `x` of the side `bid` and those of the other.
abbrev pub pick : Bool → (ℕ → List ℕ) → (ℕ → List ℕ) → Bool → ℕ → List ℕ
pick true x y true = x
pick true x y false = y
pick false x y true = y
pick false x y false = x

pub pick_cases :
    {x y : ℕ → List ℕ} (P : Bool → (ℕ → List ℕ) → Type 0) (bid : Bool)
    → P bid x
    → P (not bid) y
    → (c : Bool) → P c (pick bid x y c)
pick_cases P true h k true = h
pick_cases P true h k false = k
pick_cases P false h k true = k
pick_cases P false h k false = h

pub pick_self : {x : ℕ → List ℕ} (y : ℕ → List ℕ) (bid : Bool) → pick bid x y bid ≡ x
pick_self y true = refl
pick_self y false = refl

pub assemble :
    {d : Dims} (bid : Bool) (b : Book) (l p : Ladder) {a : Arena} {live : ℕ → Bool}
    {x y : ℕ → List ℕ}
    → IsSized d
    → IsNarrow a.pool.slots
    → IsPool d.max_orders a.pool live
    → IsLadder bid d a.pool.slots l x
    → IsLadder (not bid) d a.pool.slots p y
    → Members bid (price_to_idx b) a.pool.slots live d.max_orders x
    → Members (not bid) (price_to_idx b) a.pool.slots live d.max_orders y
    → IsBook d (with_own bid l (with_own (not bid) p b)) a live (pick bid x y)
unfolding price_to_idx
assemble {d} true b l p {a} {live} {x} {y} s n v lx ly mx my = record {
  sized = s;
  narrow = n;
  pool = v;
  side = sides;
  members = queues;
}
  where
    after : Book
    after = with_own true l (with_own false p b)

    sides : (c : Bool) → IsLadder c d a.pool.slots (own c after) (pick true x y c)
    sides true = lx
    sides false = ly

    queues :
        (c : Bool) → Members c (price_to_idx after) a.pool.slots live d.max_orders (pick true x y c)
    queues true = mx
    queues false = my
assemble {d} false b l p {a} {live} {x} {y} s n v lx ly mx my = record {
  sized = s;
  narrow = n;
  pool = v;
  side = sides;
  members = queues;
}
  where
    after : Book
    after = with_own false l (with_own true p b)

    sides : (c : Bool) → IsLadder c d a.pool.slots (own c after) (pick false x y c)
    sides true = ly
    sides false = lx

    queues :
        (c : Bool)
        → Members c (price_to_idx after) a.pool.slots live d.max_orders (pick false x y c)
    queues true = my
    queues false = mx

pub IsLadder-frame :
    {bid : Bool} {d : Dims} {base slots : ℕ → Order} {l : Ladder} {q : ℕ → List ℕ}
    → ((i : ℕ) → All (λ x. slots x ≡ base x) (q i))
    → IsLadder bid d base l q
    → IsLadder bid d slots l q
IsLadder-frame {base = base} {slots = slots} {l = l} {q = q} h v = record {
  level = λ i. Represents-frame base slots (l.levels i) (q i) (h i) (v.level i);
  fits = v.fits;
  marked = v.marked;
  best = v.best;
}

pub Members-frame :
    {bid : Bool} {idx : ℤ → ℕ} {base slots : ℕ → Order} {live live' : ℕ → Bool} {n : ℕ}
    {q : ℕ → List ℕ}
    → ((i : ℕ) → All (λ x. slots x ≡ base x) (q i))
    → ((i : ℕ) → All (λ x. live' x ≡ live x) (q i))
    → Members bid idx base live n q
    → Members bid idx slots live' n q
Members-frame {base = base} {slots = slots} {live = live} {live' = live'} {q = q} h k m = record {
  at = λ i.
      All-zip (q i) (λ x e g. (g.0, e.1 ∙ g.1, rw e.0 g.2, rw e.0 g.3, rw e.0 g.4))
        (All-zip {R = λ x. (slots x ≡ base x) × (live' x ≡ live x)} (q i) (λ x p q. (p, q)) (h i)
          (k i))
        (m.at i);
}

pub Members-relink :
    {bid : Bool} {idx : ℤ → ℕ} {base slots : ℕ → Order} {live : ℕ → Bool} {n : ℕ} {q : ℕ → List ℕ}
    → Relinks base slots
    → Members bid idx base live n q
    → Members bid idx slots live n q
Members-relink {q = q} l m = record {
  at = λ i.
      All-map (q i) (λ x g. (g.0, g.1, rw (l.qty x) g.2, rw (l.side x) g.3, rw (l.price x) g.4))
        (m.at i);
}

module _ {bid : Bool} {idx : ℤ → ℕ} {slots : ℕ → Order} {live : ℕ → Bool} {n : ℕ} {q : ℕ → List ℕ}
    (m : Members bid idx slots live n q) where
  -- A free slot is in no queue.
  pub free-Absent : (x : ℕ) → live x ≡ false → (i : ℕ) → Absent x (q i)
  free-Absent x e i =
      Absent-of (λ y. live y ≡ true) x (q i) (All-map (q i) (λ y g. g.1) (m.at i))
        (λ t. false≢true (sym e ∙ t))

  -- The orders of one side are not on the other.
  pub side-Absent :
      {other : Bool} {q' : ℕ → List ℕ}
      → other ≢ bid
      → Members other idx slots live n q'
      → (i : ℕ) → All (λ x. (j : ℕ) → Absent x (q j)) (q' i)
  side-Absent {other} {q'} ne m' i =
      All-map (q' i) (λ x g j. Absent-of _ x (q j) (m.at j) (λ k. ne (sym g.3 ∙ k.3))) (m'.at i)

  pub level-Absent : (i j : ℕ) → i ≢ j → All (λ x. Absent x (q j)) (q i)
  level-Absent i j ne =
      All-map (q i) (λ x h. Absent-of _ x (q j) (m.at j) (λ k. ne (sym h.4 ∙ k.4))) (m.at i)
