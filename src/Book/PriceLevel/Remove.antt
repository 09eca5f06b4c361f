-- ===== src/Book/PriceLevel/Remove.antt =====
-- `remove` of include/lx/book/price_level.hpp as the removal of one slot from anywhere in the queue.
use lite_exchange.Base.{
  Absent-append_left, Absent-append_right, ℕ, suc, ◌+◌, ◌%◌, ◌^◌, ◌≡◌, refl, sym, ◌≢◌, List, [],
  ◌∷◌, ◌++◌, length, Absent, Distinct, ◌==◌, if◌then◌else◌, arith, length-append,
}
use lite_exchange.Book.Order.{Order, null_idx}
use lite_exchange.Book.PriceLevel.{PriceLevel, remove}
use lite_exchange.Book.PriceLevel.Chain.{
  Chain, before-ne, qty_sum, qty_sum-same, qty_sum-append, Chain-null, Distinct-drop_mid,
}
use lite_exchange.Book.PriceLevel.Links.{Joined, Chain-tail, Chain-remove}
use lite_exchange.Book.PriceLevel.Fifo.{IsNarrow, Represents}

remove-Joined :
    (slots : ℕ → Order) (l : PriceLevel) (x : ℕ)
    → x ≢ (slots x).prev_idx
    → Joined slots (remove l x slots).1 (slots x).prev_idx (slots x).next_idx
unfolding remove
remove-Joined slots l x n = record {
  next_p = λ e. ground arith;
  prev_n = λ e. ground arith;
  others = record {
    next_same = λ i p. ground arith;
    prev_same = λ i p. ground arith;
    qty_same = λ i. ground arith;
  };
}

qty_sum-mid :
    (slots : ℕ → Order) (x : ℕ) (xs ys : List ℕ)
    → qty_sum slots (xs ++ x ∷ ys) ≡ (slots x).qty + qty_sum slots (xs ++ ys)
qty_sum-mid slots x xs ys =
    omega (arith, qty_sum-append slots xs (x ∷ ys), qty_sum-append slots xs ys)

length-mid : (x : ℕ) (xs ys : List ℕ) → length (xs ++ x ∷ ys) ≡ suc (length (xs ++ ys))
length-mid x xs ys = omega (arith, length-append xs (x ∷ ys), length-append xs ys)

module _ {slots : ℕ → Order} {l : PriceLevel} (x : ℕ) (xs ys : List ℕ)
    (r : Represents slots l (xs ++ x ∷ ys)) where
  pub not_self : x ≢ (slots x).prev_idx
  not_self =
      before-ne slots null_idx l.head_idx l.tail_idx x x xs ys r.chain (absent_before xs r.distinct)
        (not_null xs l.head_idx null_idx r.chain)
    where
      absent_before : (xs : List ℕ) → Distinct (xs ++ x ∷ ys) → Absent x xs
      absent_before [] d = tt
      absent_before (y ∷ xs) d =
          (λ e. (Absent-append_right y xs (x ∷ ys) d.0).0 (sym e), absent_before xs d.1)

      not_null :
          (xs : List ℕ) (h prev : ℕ) → Chain slots prev h l.tail_idx (xs ++ x ∷ ys) → x ≢ null_idx
      not_null [] h prev c = c.1
      not_null (y ∷ xs) h prev c = not_null xs (slots y).next_idx y c.3

remove-Chain :
    (slots : ℕ → Order) (l : PriceLevel) (x : ℕ) (xs ys : List ℕ)
    → x ≢ (slots x).prev_idx
    → Distinct (xs ++ x ∷ ys)
    → Chain slots null_idx l.head_idx l.tail_idx (xs ++ x ∷ ys)
    → let (l', slots') = remove l x slots in
      Chain slots' null_idx l'.head_idx l'.tail_idx (xs ++ ys)
remove-Chain slots l x xs ys n d c = rw tail (by_place xs d c)
  where
    next : ℕ
    next = (slots x).next_idx

    tail :
        (remove l x slots).0.tail_idx
        ≡ (if next == null_idx then (slots x).prev_idx else l.tail_idx)
    tail = unfold remove in ground (arith, n)

    joined : Joined slots (remove l x slots).1 (slots x).prev_idx next
    joined = remove-Joined slots l x n

    by_place :
        (xs : List ℕ)
        → Distinct (xs ++ x ∷ ys)
        → Chain slots null_idx l.head_idx l.tail_idx (xs ++ x ∷ ys)
        → Chain
            (remove l x slots).1
            null_idx
            (remove l x slots).0.head_idx
            (if next == null_idx then (slots x).prev_idx else l.tail_idx)
            (xs ++ ys)
    by_place [] d c =
        let head : (remove l x slots).0.head_idx ≡ next = unfold remove in ground (arith, c.2) in
        let first : Joined slots (remove l x slots).1 null_idx next = rw (← c.2) joined in
        let absent = Chain-null slots x next l.tail_idx ys c.3 in
        rw (head, c.2) (Chain-tail {base = slots} l.head_idx l.tail_idx x ys first refl absent d c)
    by_place (y ∷ xs) d c =
        let absent = Chain-null slots null_idx l.head_idx l.tail_idx (y ∷ xs ++ x ∷ ys) c in
        let some_before : null_idx ≢ (slots x).prev_idx =
          before-ne slots y (slots y).next_idx l.tail_idx null_idx x xs ys c.3
            (Absent-append_left null_idx xs (x ∷ ys) absent.1) absent.0 in
        let head : (remove l x slots).0.head_idx ≡ l.head_idx =
          unfold remove in ground (arith, some_before) in
        rw head (
          Chain-remove {base = slots} null_idx l.head_idx l.tail_idx y x xs ys joined refl refl d c)

-- `remove` takes the slot out of the queue wherever it stands, and keeps the order of the others.
pub remove-Represents :
    {slots : ℕ → Order} {l : PriceLevel} (x : ℕ) (xs ys : List ℕ)
    → IsNarrow slots
    → Represents slots l (xs ++ x ∷ ys)
    → let (l', slots') = remove l x slots in Represents slots' l' (xs ++ ys)
remove-Represents {slots} {l} x xs ys narrow r = record {
  chain = remove-Chain slots l x xs ys n r.distinct r.chain;
  distinct = Distinct-drop_mid x xs ys r.distinct;
  counted = unfold remove in ground (arith, r.counted, length-mid x xs ys);
  quantity = sums;
}
  where
    n : x ≢ (slots x).prev_idx
    n = not_self x xs ys r

    sums : (remove l x slots).0.total_qty ≡ qty_sum (remove l x slots).1 (xs ++ ys) % 2 ^ 32
    sums =
        rw
          (qty_sum-same slots (remove l x slots).1 (xs ++ ys)
            (remove-Joined slots l x n).others.qty_same)
          (unfold remove in ground (arith, r.quantity, narrow x, qty_sum-mid slots x xs ys))
