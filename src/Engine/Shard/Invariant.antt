-- ===== src/Engine/Shard/Invariant.antt =====
-- include/lx/engine/shard.hpp: what holds of a shard between two messages: every book over the arena
-- that they share, and every order in the book of its symbol.

use lite_exchange.Base.{
  ℕ, ◌<◌, ◌≡◌, ◌≢◌, ◌⊎◌, refl, sym, ◌∙◌, Bool, true, ◌==◌, ==_iff, arith, List, [], update,
  update_ne, update_self, All, All-Present, All-map, All-zip, All-of, Absent, Absent-of, Present,
  Bool-cases, inl, inr,
}
use lite_exchange.Book.Pool.Free.{IsPool}
use lite_exchange.Book.PriceLevel.Fifo.{IsNarrow}
use lite_exchange.Book.Pool.Ages.{Older}
use lite_exchange.Book.OrderHandle.{OrderHandle}
use lite_exchange.Book.Matching.{Dims, Arena}
use lite_exchange.Book.OrderBook.{Book}
use lite_exchange.Book.OrderBook.Invariant.{IsBook, IsLadder-frame, Members-frame}
use lite_exchange.Book.OrderBook.Touches.{Touches}
use lite_exchange.Engine.Shard.{ShardConfig, Shard, local_book, no_book}

pub record IsShard (c : ShardConfig) (s : Shard) : Type 0 where
  -- The slots in use, and the queues of each book.
  pub live : ℕ → Bool
  pub queues : ℕ → Bool → ℕ → List ℕ
  -- A symbol of the shard has a book that there is.
  pub hosted :
      (symbol : ℕ) → (local_book c s symbol ≡ no_book) ⊎ (local_book c s symbol < c.max_symbols)
  pub book : (k : ℕ) → IsBook c.dims (s.books k) s.arena live (queues k)
  -- The orders of a book are of its symbols, and every slot in use is in a queue.
  pub home :
      (k : ℕ) (bid : Bool) (i : ℕ)
      → All (λ x. local_book c s (s.arena.pool.slots x).symbol ≡ k) (queues k bid i)
  pub nowhere : (bid : Bool) (i : ℕ) → queues no_book bid i ≡ []
  pub placed :
      (x : ℕ) → live x ≡ true → (k : ℕ) × (bid : Bool) × (i : ℕ) × Present x (queues k bid i)

-- Two shards with the same books, arena and symbols.
pub record SameBooks (s s' : Shard) : Type 0 where
  pub arena : s'.arena ≡ s.arena
  pub books : s'.books ≡ s.books
  pub local_of : s'.local_of ≡ s.local_of
  pub shard_id : s'.shard_id ≡ s.shard_id

pub SameBooks-trans : {s s' s'' : Shard} → SameBooks s s' → SameBooks s' s'' → SameBooks s s''
SameBooks-trans e f = record {
  arena = f.arena ∙ e.arena;
  books = f.books ∙ e.books;
  local_of = f.local_of ∙ e.local_of;
  shard_id = f.shard_id ∙ e.shard_id;
}

pub local_book-same :
    (c : ShardConfig) {s s' : Shard} (symbol : ℕ)
    → SameBooks s s'
    → local_book c s' symbol ≡ local_book c s symbol
unfolding local_book
local_book-same c symbol e = rw e.local_of refl

-- An order that rests in its slot under the handle `h`.
abbrev pub Current : Shard → (ℕ → Bool) → OrderHandle → Type 0
Current s live h = (live h.slot ≡ true) × (s.arena.pool.gen h.slot ≡ h.gen)

-- What a message leaves of a well-formed shard, if it gives out the handles `fresh`.
pub record After {c : ShardConfig} {s : Shard} (v : IsShard c s) (fresh : List OrderHandle)
    (s' : Shard) : Type 0 where
  pub shard : IsShard c s'
  pub ages : (x : ℕ) → Older (v.live x) (shard.live x) (s.arena.pool.gen x) (s'.arena.pool.gen x)
  pub current : All (Current s' shard.live) fresh
  pub same_id : s'.shard_id ≡ s.shard_id

module _ {c : ShardConfig} {s : Shard} (v : IsShard c s) where
  pub unchanged : {s' : Shard} → SameBooks s s' → After v [] s'
  unchanged {s'} e = record {
    shard = record {
      live = v.live;
      queues = v.queues;
      hosted = λ symbol. rw (local_book-same c symbol e) (v.hosted symbol);
      book = λ k. rw (e.books, e.arena) (v.book k);
      home = λ k bid i.
          All-map (v.queues k bid i) (λ x h. local_book-same c _ e ∙ rw e.arena h) (v.home k bid i);
      nowhere = v.nowhere;
      placed = v.placed;
    };
    ages = λ x. inl (rw e.arena refl, λ h. h);
    current = tt;
    same_id = e.shard_id;
  }

  pub then_SameBooks :
      {fresh : List OrderHandle} {s' s'' : Shard}
      → After v fresh s'
      → SameBooks s' s''
      → After v fresh s''
  then_SameBooks {fresh} {s'} {s''} a e = record {
    shard = record {
      live = a.shard.live;
      queues = a.shard.queues;
      hosted = λ symbol. rw (local_book-same c symbol e) (a.shard.hosted symbol);
      book = λ k. rw (e.books, e.arena) (a.shard.book k);
      home = λ k bid i.
          All-map (a.shard.queues k bid i) (λ x h. local_book-same c _ e ∙ rw e.arena h)
            (a.shard.home k bid i);
      nowhere = a.shard.nowhere;
      placed = a.shard.placed;
    };
    ages = λ x. rw e.arena (a.ages x);
    current = rw e.arena a.current;
    same_id = e.shard_id ∙ a.same_id;
  }

-- A book does not notice what happens to slots of other books.
IsBook-frame :
    {d : Dims} {b : Book} {a a' : Arena} {live live' : ℕ → Bool} {q : Bool → ℕ → List ℕ}
    → ((bid : Bool) (i : ℕ)
        → All (λ x. (a'.pool.slots x ≡ a.pool.slots x) × (live' x ≡ live x)) (q bid i))
    → IsNarrow a'.pool.slots
    → IsPool d.max_orders a'.pool live'
    → IsBook d b a live q
    → IsBook d b a' live' q
IsBook-frame {q = q} h n p v = record {
  sized = v.sized;
  narrow = n;
  pool = p;
  side = λ bid. IsLadder-frame (λ i. All-map (q bid i) (λ x e. e.0) (h bid i)) (v.side bid);
  members = λ bid.
      Members-frame (λ i. All-map (q bid i) (λ x e. e.0) (h bid i))
        (λ i. All-map (q bid i) (λ x e. e.1) (h bid i)) (v.members bid);
}

abbrev pub with_book : ℕ → Book → Arena → Shard → Shard
with_book k b a s = record s { books = update s.books k b; arena = a }

-- An operation of one book.
module _ {c : ShardConfig} {s : Shard} (v : IsShard c s) (symbol : ℕ) {b' : Book} {a' : Arena}
    {live' : ℕ → Bool} {q' : Bool → ℕ → List ℕ} (bk : IsBook c.dims b' a' live' q')
    (t : Touches c.max_orders symbol s.arena.pool.slots a'.pool.slots s.arena.pool.gen a'.pool.gen
      v.live live'
      (v.queues (local_book c s symbol))
      q')
    (ne_no_book : local_book c s symbol ≢ no_book) (fresh : List OrderHandle)
    (current : All (Current (with_book (local_book c s symbol) b' a' s) live') fresh) where
  apart :
      (j : ℕ)
      → j ≢ local_book c s symbol
      → (bid : Bool) (i : ℕ)
      → All
          (λ x. (bid' : Bool) (i' : ℕ) → Absent x (v.queues (local_book c s symbol) bid' i'))
          (v.queues j bid i)
  apart j ne bid i =
      All-map (v.queues j bid i)
        (λ x e bid' i'. Absent-of _ x _ (v.home _ bid' i') (λ e'. ne (sym e ∙ e'))) (v.home j bid i)

  others :
      (j : ℕ)
      → j ≢ local_book c s symbol
      → (bid : Bool) (i : ℕ)
      → All
          (λ x. (a'.pool.slots x ≡ s.arena.pool.slots x) × (live' x ≡ v.live x))
          (v.queues j bid i)
  others j ne bid i =
      All-zip (v.queues j bid i)
        (λ x g p. let (same, used) = t.elsewhere x g.0 g.1 p in (same, used ∙ sym g.1))
        (((v.book j).members bid).at i) (apart j ne bid i)

  home_here :
      (bid : Bool) (i : ℕ)
      → All (λ x. local_book c s (a'.pool.slots x).symbol ≡ local_book c s symbol) (q' bid i)
  home_here bid i = All-of _ (q' bid i) (λ x p. elim (t.only x bid i p) [
    | inl e ↦ rw e refl
    | inr (e, there) ↦ rw e (All-Present _ x _ (v.home _ bid i) there)
  ])

  home_off :
      (j : ℕ)
      → j ≢ local_book c s symbol
      → (bid : Bool) (i : ℕ)
      → All (λ x. local_book c s (a'.pool.slots x).symbol ≡ j) (v.queues j bid i)
  home_off j ne bid i =
      All-zip (v.queues j bid i) (λ x e h. rw e.0 h) (others j ne bid i) (v.home j bid i)

  still_placed :
      (x : ℕ)
      → live' x ≡ true
      → (j : ℕ) × (bid : Bool) × (i : ℕ) × Present x
          (update v.queues (local_book c s symbol) q' j bid i)
  still_placed x h = elim (t.kept x h) [
    | inl (bid, i, p) ↦
        (local_book c s symbol, bid, i, rw (update_self v.queues (local_book c s symbol) q') p)
    | inr (used, there) ↦
        let (j, bid, i, p) = v.placed x used in
        (
          j,
          bid,
          i,
          elim (Bool-cases (j == local_book c s symbol)) [
            | inl here ↦ rw here (there bid i (rw ((==_iff j (local_book c s symbol)).0 here) at p))
            | inr off ↦ rw off p
          ],
        )
  ]

  pub with_book-After : After v fresh (with_book (local_book c s symbol) b' a' s)
  unfolding local_book
  with_book-After = record {
    shard = record {
      live = live';
      queues = update v.queues (local_book c s symbol) q';
      hosted = v.hosted;
      book = λ j. elim (Bool-cases (j == local_book c s symbol)) [
        | inl here ↦ rw here bk
        | inr off ↦
            rw off
              (IsBook-frame (others j (λ e. ground (arith, off, e))) bk.narrow bk.pool (v.book j))
      ];
      home = λ j bid i. elim (Bool-cases (j == local_book c s symbol)) [
        | inl here ↦ rw (here, (==_iff j (local_book c s symbol)).0 here) (home_here bid i)
        | inr off ↦ rw off (home_off j (λ e. ground (arith, off, e)) bid i)
      ];
      nowhere = λ bid i.
          rw (update_ne v.queues (local_book c s symbol) q' no_book (λ e. ne_no_book (sym e)))
            (v.nowhere bid i);
      placed = still_placed;
    };
    ages = t.ages;
    current = current;
    same_id = refl;
  }
