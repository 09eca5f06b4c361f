-- ===== src/Book/PriceLevel/Fifo.antt =====
-- include/lx/book/price_level.hpp as a queue: the three operations on the list of slots that a level
-- represents, oldest first, with its order count and its total quantity.
use lite_exchange.Base.{
  ℕ, ◌%◌, ◌^◌, ◌<◌, ◌≡◌, refl, sym, ◌≢◌, List, [], ◌∷◌, ◌++◌, length, Absent, Distinct, arith,
  length-append, true, ◌↔◌,
}
use lite_exchange.Book.Order.{Order, null_idx}
use lite_exchange.Book.PriceLevel.{PriceLevel, init, empty, push_back}
use lite_exchange.Book.PriceLevel.Chain.{
  Chain, tail-ne, qty_sum, qty_sum-same, qty_sum-append, Distinct-append_last, Chain-null,
}
use lite_exchange.Book.PriceLevel.Links.{Linked, Chain-append}

-- Quantities of the arena fit 32 bits.
abbrev pub IsNarrow : (ℕ → Order) → Type 0
IsNarrow slots = (i : ℕ) → (slots i).qty < 2 ^ 32

-- The level, with the links of the arena, is the queue of `xs`.
pub record Represents (slots : ℕ → Order) (l : PriceLevel) (xs : List ℕ) : Type 0 where
  pub chain : Chain slots null_idx l.head_idx l.tail_idx xs
  pub distinct : Distinct xs
  pub counted : l.order_count ≡ length xs % 2 ^ 32
  pub quantity : l.total_qty ≡ qty_sum slots xs % 2 ^ 32

pub init-Represents : (slots : ℕ → Order) → Represents slots init []
init-Represents slots = record {
  chain = (refl, refl);
  distinct = tt;
  counted = refl;
  quantity = refl;
}

-- `empty` finds exactly the empty queue.
pub empty-Represents :
    {slots : ℕ → Order} {l : PriceLevel} (xs : List ℕ)
    → Represents slots l xs
    → (empty l ≡ true) ↔ (xs ≡ [])
empty-Represents [] r = (λ e. refl, λ e. ground arith)
empty-Represents (x ∷ xs) r = (λ e. absurd (ground (arith, r.chain.1)), λ e. cc)

push_back-Linked :
    (slots : ℕ → Order) (l : PriceLevel) (idx : ℕ)
    → l.tail_idx ≢ null_idx
    → idx ≢ l.tail_idx
    → Linked slots (push_back l idx slots).1 l.tail_idx idx
unfolding push_back
push_back-Linked slots l idx n ne = record {
  next_t = ground arith;
  next_idx = ground arith;
  prev_idx = ground arith;
  next_same = λ i p q. ground arith;
  prev_same = λ i p. ground arith;
}

pub push_back-qty :
    (slots : ℕ → Order) (l : PriceLevel) (idx i : ℕ)
    → ((push_back l idx slots).1 i).qty ≡ (slots i).qty
unfolding push_back
push_back-qty slots l idx i = ground arith

push_back-Chain :
    (slots : ℕ → Order) (l : PriceLevel) (idx : ℕ) (xs : List ℕ)
    → Chain slots null_idx l.head_idx l.tail_idx xs
    → Distinct xs
    → Absent idx xs
    → idx ≢ null_idx
    → let (l', slots') = push_back l idx slots in
      Chain slots' null_idx l'.head_idx l'.tail_idx (xs ++ idx ∷ [])
push_back-Chain slots l idx [] c d a n =
    unfold push_back in (ground arith, n, ground arith, (ground arith, refl))
push_back-Chain slots l idx (x ∷ xs) c d a n =
    rw (head, tail)
      (Chain-append null_idx l.head_idx x xs (push_back-Linked slots l idx nt it) a d n c)
  where
    absent : Absent null_idx (x ∷ xs)
    absent = Chain-null slots null_idx l.head_idx l.tail_idx (x ∷ xs) c

    nt : l.tail_idx ≢ null_idx
    nt e = tail-ne slots x (slots x).next_idx l.tail_idx null_idx xs c.3 absent.1 absent.0 (sym e)

    it : idx ≢ l.tail_idx
    it = tail-ne slots x (slots x).next_idx l.tail_idx idx xs c.3 a.1 a.0

    head : (push_back l idx slots).0.head_idx ≡ l.head_idx
    head = unfold push_back in ground (arith, nt)

    tail : (push_back l idx slots).0.tail_idx ≡ idx
    tail = unfold push_back in refl

-- `push_back` appends the slot to the queue, if it is in none of the level's places.
pub push_back-Represents :
    {slots : ℕ → Order} {l : PriceLevel} (idx : ℕ) (xs : List ℕ)
    → Represents slots l xs
    → Absent idx xs
    → idx ≢ null_idx
    → let (l', slots') = push_back l idx slots in Represents slots' l' (xs ++ idx ∷ [])
push_back-Represents {slots} {l} idx xs r a n = record {
  chain = push_back-Chain slots l idx xs r.chain r.distinct a n;
  distinct = Distinct-append_last idx xs a r.distinct;
  counted = unfold push_back in omega (arith, r.counted, length-append xs (idx ∷ []));
  quantity = sums;
}
  where
    slots' : ℕ → Order
    slots' = (push_back l idx slots).1

    sums : (push_back l idx slots).0.total_qty ≡ qty_sum slots' (xs ++ idx ∷ []) % 2 ^ 32
    sums =
        rw
          (
            qty_sum-same slots slots' (xs ++ idx ∷ []) (push_back-qty slots l idx),
            qty_sum-append slots xs (idx ∷ []),
          )
          (unfold push_back in omega (arith, r.quantity))
