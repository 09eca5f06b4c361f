-- ===== src/Engine/Shard/Start.antt =====
-- include/lx/engine/shard.hpp: the constructor of a shard.
use lite_exchange.Base.{
  ℕ, ◌+◌, ◌^◌, ◌≤◌, ◌<◌, ◌≡◌, ◌⊎◌, ◌==◌, ℤ, ltb, ◌&&◌, Bool, false, arith, List, [], ◌∷◌, length,
  update, Bool-cases, inl, inr, refl,
}
use mathlib.Core.Bool.{false≢true}
use lite_exchange.Proto.Messages.{InboundMsg}
use lite_exchange.Book.Order.{Order}
use lite_exchange.Book.OrderBook.BestLevel.{IsSized}
use lite_exchange.Book.OrderBook.Init.{init-IsBook}
use lite_exchange.Engine.Shard.{
  ShardConfig, symbol_range, assign_books, symbol_table, local_book, no_book, init,
}
use lite_exchange.Engine.Shard.Invariant.{IsShard}

-- A table names books that there are.
abbrev Hosts : ℕ → (ℕ → ℕ) → Type 0
Hosts n local_of = (s : ℕ) → (local_of s ≡ no_book) ⊎ (local_of s < n)

assign_books-Hosts :
    (n : ℕ) (symbols : List ℕ) (next : ℕ) (local_of : ℕ → ℕ)
    → next + length symbols ≤ n
    → Hosts n local_of
    → Hosts n (assign_books symbols next local_of)
unfolding assign_books
assign_books-Hosts n [] next local_of h v = v
assign_books-Hosts n (s ∷ symbols) next local_of h v =
    assign_books-Hosts n symbols (next + 1) (update local_of s next) (omega arith) (λ j.
      elim (Bool-cases (j == s)) [
        | inl here ↦ rw here (inr (omega arith))
        | inr off ↦ rw off (v j)
      ])

symbol_table-Hosts :
    (c : ShardConfig) (symbols : List ℕ)
    → length symbols ≤ c.max_symbols
    → Hosts c.max_symbols (symbol_table c symbols)
unfolding symbol_table
symbol_table-Hosts c [] h s = elim (Bool-cases (ltb s c.max_symbols && ltb s (symbol_range c))) [
  | inl here ↦ rw here (inr (ground (arith, here)))
  | inr off ↦ rw off (inl refl)
]
symbol_table-Hosts c (first ∷ symbols) h s =
    assign_books-Hosts c.max_symbols (first ∷ symbols) 0 (λ _. no_book) (omega arith)
      (λ j. inl refl) s

-- A new shard is well formed, with no slot in use and every queue empty, if it is given no more symbols than
-- it has books.
pub init-IsShard :
    (c : ShardConfig) (base_price tick_size : ℤ) (shard_id : ℕ) (symbols : List ℕ)
    (zero_order : Order) (zero_msg : InboundMsg)
    → IsSized c.dims
    → length symbols ≤ c.max_symbols
    → zero_order.qty < 2 ^ 32
    → (v : IsShard c (init c base_price tick_size shard_id symbols zero_order zero_msg)) × ((x : ℕ)
        → v.live x ≡ false)
      × ((k : ℕ) (bid : Bool) (i : ℕ) → v.queues k bid i ≡ [])
unfolding init local_book
init-IsShard c base_price tick_size shard_id symbols zero_order zero_msg sized few small = (
  record {
    live = λ _. false;
    queues = λ _ _ _. [];
    hosted = λ s. elim (Bool-cases (ltb s (symbol_range c))) [
      | inl here ↦ rw here (symbol_table-Hosts c symbols few s)
      | inr off ↦ rw off (inl refl)
    ];
    book = λ k. init-IsBook c.dims base_price tick_size zero_order (λ _. 0) sized small;
    home = λ k bid i. tt;
    nowhere = λ bid i. refl;
    placed = λ x h. absurd (false≢true h);
  },
  (λ x. refl),
  (λ k bid i. refl),
)
