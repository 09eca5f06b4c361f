-- ===== src/Book/OrderBook/Match.antt =====
-- `match` of include/lx/book/order_book.hpp before and after its outer loop: the passive side, and what
-- one round of the loop does to it.
use lite_exchange.Base.{
  ℕ, ◌<◌, ◌≡◌, refl, sym, ◌∙◌, ap, ◌≢◌, ℤ, Bool, true, false, ◌==◌, arith, List, [], ◌∷◌, ◌++◌,
  update, update_ne, ==_iff, All, Absent, Bool-cases, inl, inr, All-map, All-zip, All-append_right,
  Absent-of, Absent-All, Absent-append_left, Absent-append_right,
}
use lite_exchange.Proto.Messages.{is_buy}
use lite_exchange.Book.Order.{Order, null_idx}
use lite_exchange.Book.Pool.Free.{IsPool}
use lite_exchange.Book.PriceLevel.{PriceLevel}
use lite_exchange.Book.PriceLevel.Chain.{Chain, qty_sum}
use lite_exchange.Book.PriceLevel.Fifo.{IsNarrow, Represents}
use lite_exchange.Book.LevelBitmap.Bits.{level_bit}
use lite_exchange.Book.Matching.{Matching, Dims, Flow, slots_of, advance}
use lite_exchange.Book.OrderBook.Sweep.{Swept, sweep-parts}
use lite_exchange.Book.OrderBook.Level.{released, LevelReady, LevelDone}
use lite_exchange.Book.OrderBook.LevelLoop.{level_sweep}
use lite_exchange.Book.OrderBook.BestLevel.{IsLadder, IsSized, Beyond, advance-IsLadder}

-- An order that rests at level `i` of a side: in the arena, in use, with quantity left, and where its
-- price and side say; `idx` is the level of a price.
abbrev pub Member : Bool → (ℤ → ℕ) → (ℕ → Order) → (ℕ → Bool) → ℕ → ℕ → ℕ → Type 0
Member bid idx slots live n i x =
    (x < n)
    × (live x ≡ true)
    × (0 < (slots x).qty)
    × (is_buy (slots x).side ≡ bid)
    × (idx (slots x).price ≡ i)

-- The match of the order in slot `agg` against a side that holds the queues `q`.
pub record MatchReady (bid : Bool) (d : Dims) (idx : ℤ → ℕ) (live : ℕ → Bool) (agg : ℕ)
    (q : ℕ → List ℕ) (m : Matching) : Type 0 where
  pub sized : IsSized d
  pub narrow : IsNarrow (slots_of m)
  pub ladder : IsLadder bid d (slots_of m) m.passive q
  pub apart : (i : ℕ) → Absent agg (q i)
  pub pool : IsPool d.max_orders m.arena.pool live
  pub members : (i : ℕ) → All (Member bid idx (slots_of m) live d.max_orders i) (q i)

-- A queue does not notice writes to slots outside it.
pub Represents-frame :
    (base slots : ℕ → Order) (l : PriceLevel) (xs : List ℕ)
    → All (λ x. slots x ≡ base x) xs
    → Represents base l xs
    → Represents slots l xs
Represents-frame base slots l xs h r = record {
  chain = chain null_idx l.head_idx l.tail_idx xs h r.chain;
  distinct = r.distinct;
  counted = r.counted;
  quantity = rw (total xs h) r.quantity;
}
  where
    chain :
        (prev h t : ℕ) (xs : List ℕ)
        → All (λ x. slots x ≡ base x) xs
        → Chain base prev h t xs
        → Chain slots prev h t xs
    chain prev h t [] a c = c
    chain prev h t (x ∷ xs) a c = (
      c.0,
      c.1,
      ap (λ (o : Order). o.prev_idx) a.0 ∙ c.2,
      rw a.0 (chain x (base x).next_idx t xs a.1 c.3),
    )

    total : (xs : List ℕ) → All (λ x. slots x ≡ base x) xs → qty_sum slots xs ≡ qty_sum base xs
    total [] a = refl
    total (x ∷ xs) a = rw (a.0, total xs a.1)

pub released_other :
    (taken : List ℕ) (live : ℕ → Bool) (x : ℕ) → Absent x taken → released taken live x ≡ live x
released_other [] live x a = refl
released_other (y ∷ ys) live x a =
    released_other ys (update live y false) x a.1 ∙ update_ne live y false x a.0

-- A slot that is still in use was in use, and is none of those that were freed.
pub released_kept :
    (taken : List ℕ) (live : ℕ → Bool) (x : ℕ)
    → released taken live x ≡ true
    → (live x ≡ true) × Absent x taken
released_kept [] live x h = (h, tt)
released_kept (y ∷ ys) live x h =
    let (used, off) = released_kept ys (update live y false) x h in
    elim (Bool-cases (x == y)) [
      | inl same ↦ ground (arith, same, used)
      | inr other ↦ (ground (arith, other, used), ((λ e. ground (arith, other, e)), off))
    ]

-- The side that one round of the outer loop leaves, with its queues and the slots in use.
module _ {bid : Bool} {d : Dims} {idx : ℤ → ℕ} {live : ℕ → Bool} {agg : ℕ} {q : ℕ → List ℕ}
    {m : Matching} (r : MatchReady bid d idx live agg q m) where
  -- Orders of different levels are different.
  pub elsewhere : (i j : ℕ) → i ≢ j → All (λ x. Absent x (q j)) (q i)
  elsewhere i j ne =
      All-map (q i) (λ x h. Absent-of _ x (q j) (r.members j) (λ k. ne (sym h.4 ∙ k.4)))
        (r.members i)

  pub level_ready : LevelReady d.max_orders live agg m.passive.best_idx (q m.passive.best_idx) m
  level_ready = record {
    small = r.sized.1;
    narrow = r.narrow;
    level = r.ladder.level m.passive.best_idx;
    apart = r.apart m.passive.best_idx;
    pool = r.pool;
    members =
        All-map (q m.passive.best_idx) (λ x h. (h.0, h.1, h.2)) (r.members m.passive.best_idx);
  }

  pub round_ready :
      (max_fills : ℕ) {flow : Flow} {m' : Matching}
      → level_bit m.passive.occ m.passive.best_idx ≡ 1
      → ((i : ℕ) → Beyond bid i m.passive.best_idx → level_bit m.passive.occ i ≡ 0)
      → let b = m.passive.best_idx in
        let s = level_sweep max_fills agg (q b) m in
        LevelDone d.max_orders live agg b (q b) m s flow m'
        → MatchReady bid d idx
            (released s.taken live)
            agg
            (update q b s.rest)
            (record m' { passive = advance bid d m'.passive })
  round_ready max_fills {flow} {m'} at beyond e = record {
    sized = r.sized;
    narrow = e.narrow;
    ladder =
        advance-IsLadder bid d (slots_of m') m'.passive q' r.sized levels
          (rw e.occ_same r.ladder.fits)
          (λ i p.
            rw (e.occ_same, update_ne q b s.rest i (rw (← e.best_same) p)) (r.ladder.marked i))
          (rw (e.occ_same, e.best_same) at) (rw (e.occ_same, e.best_same) beyond);
    apart = λ i. elim (Bool-cases (i == b)) [
      | inl here ↦ rw here (in_rest agg (r.apart b))
      | inr off ↦ rw off (r.apart i)
    ];
    pool = e.pool;
    members = λ i. elim (Bool-cases (i == b)) [
      | inl here ↦ rw here (stayed i ((==_iff i b).0 here))
      | inr off ↦ rw off (untouched i (λ z. ground arith))
    ];
  }
    where
      b : ℕ
      b = m.passive.best_idx

      s : Swept
      s = level_sweep max_fills agg (q m.passive.best_idx) m

      q' : ℕ → List ℕ
      q' = update q b s.rest

      parts : s.taken ++ s.rest ≡ q b
      parts = sweep-parts _ _ _ _ _ (q b)

      in_rest : (x : ℕ) → Absent x (q b) → Absent x s.rest
      in_rest x a = Absent-append_right x s.taken s.rest (rw parts a)

      in_taken : (x : ℕ) → Absent x (q b) → Absent x s.taken
      in_taken x a = Absent-append_left x s.taken s.rest (rw parts a)

      same_slots : (i : ℕ) → i ≢ b → All (λ x. slots_of m' x ≡ slots_of m x) (q i)
      same_slots i ne =
          All-zip (q i) (λ x p a. e.others x p a) (Absent-All agg (q i) (r.apart i))
            (elsewhere i b ne)

      levels : (i : ℕ) → Represents (slots_of m') (m'.passive.levels i) (q' i)
      levels i = elim (Bool-cases (i == b)) [
        | inl here ↦ rw (here, (==_iff i b).0 here) e.level
        | inr off ↦
            let ne : i ≢ b = λ z. ground arith in
            rw (off, e.other_levels i ne)
              (Represents-frame (slots_of m) (slots_of m') (m.passive.levels i) (q i)
                (same_slots i ne) (r.ladder.level i))
      ]

      stayed :
          (i : ℕ)
          → i ≡ b
          → All (Member bid idx (slots_of m') (released s.taken live) d.max_orders i) s.rest
      stayed i at_b =
          let old : All (Member bid idx (slots_of m) live d.max_orders b) s.rest =
            All-append_right (Member bid idx (slots_of m) live d.max_orders b) s.taken s.rest
              (rw parts (r.members b)) in
          All-zip s.rest
            (λ x h k. (
              h.0,
              h.1,
              h.2,
              ap is_buy (e.same.side x) ∙ k.3,
              ap idx (e.same.price x) ∙ k.4 ∙ sym at_b,
            ))
            e.members old

      untouched :
          (i : ℕ)
          → i ≢ b
          → All (Member bid idx (slots_of m') (released s.taken live) d.max_orders i) (q i)
      untouched i ne =
          let both : All (λ x. (slots_of m' x ≡ slots_of m x) × Absent x (q b)) (q i) =
            All-zip (q i) (λ x p a. (p, a)) (same_slots i ne) (elsewhere i b ne) in
          All-zip (q i)
            (λ x h k. (
              h.0,
              released_other s.taken live x (in_taken x k.1) ∙ h.1,
              rw k.0 h.2,
              rw k.0 h.3,
              rw k.0 h.4,
            ))
            (r.members i) both
