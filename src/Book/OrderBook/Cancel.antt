-- ===== src/Book/OrderBook/Cancel.antt =====
-- `cancel_order` of include/lx/book/order_book.hpp as a whole.
use lite_exchange.Base.{
  ℕ, ◌<◌, ◌≡◌, refl, sym, ap, ◌≢◌, ℤ, Bool, true, false, not, ◌||◌, ◌==◌, leb, arith, List, [], ◌∷◌,
  ◌++◌, update, update_ne, update_self, ==_iff, add32, All, All-map, All-zip, All-append,
  All-append_left, All-append_right, Absent, Absent-append_right, Absent-All, Distinct, Bool-cases,
  inl, inr,
}
use lite_exchange.Proto.Messages.{is_buy}
use lite_exchange.Book.Order.{Order}
use lite_exchange.Book.Pool.{Pool, with_slots, free}
use lite_exchange.Book.Pool.Free.{free-IsPool}
use lite_exchange.Book.OrderHandle.{OrderHandle}
use lite_exchange.Book.Matching.{Dims, Arena, Ladder, with_pool}
use lite_exchange.Book.OrderBook.{Book, own, with_own, price_to_idx, cancel_order, unlink}
use lite_exchange.Book.OrderBook.FillOne.{pool_with_slots}
use lite_exchange.Book.OrderBook.BestLevel.{IsLadder}
use lite_exchange.Book.OrderBook.Match.{Member}
use lite_exchange.Book.OrderBook.Rest.{Relinks}
use lite_exchange.Book.OrderBook.Unlink.{remove-Relinks, remove-frame, unlink-IsLadder}
use lite_exchange.Book.OrderBook.Invariant.{
  IsBook, Members, Members-relink, IsLadder-frame, Members-frame, side-Absent, level-Absent,
  assemble, pick,
}
use lite_exchange.Book.OrderBook.Admit.{not-ne}

Absent-mid : (x : ℕ) (xs ys : List ℕ) → Distinct (xs ++ x ∷ ys) → Absent x (xs ++ ys)
Absent-mid x [] ys d = d.0
Absent-mid x (z ∷ xs) ys d =
    ((λ e. (Absent-append_right z xs (x ∷ ys) d.0).0 (sym e)), Absent-mid x xs ys d.1)

Members-drop :
    {bid : Bool} {idx : ℤ → ℕ} {slots : ℕ → Order} {live : ℕ → Bool} {n : ℕ} {q : ℕ → List ℕ}
    (u x : ℕ) (xs ys : List ℕ)
    → q u ≡ xs ++ x ∷ ys
    → Members bid idx slots live n q
    → Members bid idx slots live n (update q u (xs ++ ys))
Members-drop {q = q} u x xs ys e m = record {
  at = λ i. elim (Bool-cases (i == u)) [
    | inl here ↦
        let all = rw e at (m.at u) in
        rw (here, (==_iff i u).0 here)
          (All-append _ xs ys (All-append_left _ xs (x ∷ ys) all)
            (All-append_right _ xs (x ∷ ys) all).1)
    | inr off ↦ rw off (m.at i)
  ];
}

module _ {d : Dims} {b : Book} {a : Arena} {live : ℕ → Bool} {q : Bool → ℕ → List ℕ}
    (v : IsBook d b a live q) (bid : Bool) (u x : ℕ) (xs ys : List ℕ)
    (here : q bid u ≡ xs ++ x ∷ ys) where
  abbrev pub unlinked : Ladder × (ℕ → Order)
  unlinked = unlink bid d u x (own bid b) a.pool.slots

  pub x-Member : Member bid (price_to_idx b) a.pool.slots live d.max_orders u x
  x-Member = (All-append_right _ xs (x ∷ ys) (rw here at ((v.members bid).at u))).0

  pub unlinked-Relinks : Relinks a.pool.slots unlinked.1
  unfolding unlink
  unlinked-Relinks = remove-Relinks a.pool.slots _ x

  -- Every other queue is as it was.
  pub unlinked-same :
      (y : ℕ) → y < d.max_orders → Absent y (q bid u) → unlinked.1 y ≡ a.pool.slots y
  unfolding unlink
  unlinked-same y h p =
      remove-frame x xs ys y (rw here at ((v.side bid).level u)) (λ z. ground (arith, v.sized.1))
        (rw here at p)

  own_frame : (i : ℕ) → i ≢ u → All (λ y. unlinked.1 y ≡ a.pool.slots y) (q bid i)
  own_frame i ne =
      All-zip (q bid i) (λ y g p. unlinked-same y g.0 p) ((v.members bid).at i)
        (level-Absent (v.members bid) i u ne)

  unlinked-IsLadder : IsLadder bid d unlinked.1 unlinked.0 (update (q bid) u (xs ++ ys))
  unfolding unlink
  unlinked-IsLadder = unlink-IsLadder bid d u x xs ys v.sized v.narrow (v.side bid) here own_frame

  other_apart : (i : ℕ) → All (λ y. (j : ℕ) → Absent y (q bid j)) (q (not bid) i)
  other_apart = side-Absent (v.members bid) (not-ne bid) (v.members (not bid))

  other_frame : (i : ℕ) → All (λ y. unlinked.1 y ≡ a.pool.slots y) (q (not bid) i)
  other_frame i =
      All-zip (q (not bid) i) (λ y g p. unlinked-same y g.0 (p u)) ((v.members (not bid)).at i)
        (other_apart i)

  -- The slot is in no queue any more.
  own_gone : (i : ℕ) → Absent x (update (q bid) u (xs ++ ys) i)
  own_gone i = elim (Bool-cases (i == u)) [
    | inl at ↦ rw at (Absent-mid x xs ys (rw here at ((v.side bid).level u)).distinct)
    | inr off ↦
        rw off
          (All-append_right _ xs (x ∷ ys)
            (rw here at (level-Absent (v.members bid) u i (λ z. ground arith)))).0
  ]

  other_gone : (i : ℕ) → Absent x (q (not bid) i)
  other_gone i =
      (All-append_right _ xs (x ∷ ys) (
          rw here at
            (side-Absent (v.members (not bid)) (λ e. not-ne bid (sym e)) (v.members bid) u))).0
        i

  use_after :
      (q' : ℕ → List ℕ)
      → ((i : ℕ) → Absent x (q' i))
      → (i : ℕ) → All (λ y. update live x false y ≡ live y) (q' i)
  use_after q' gone i =
      All-map (q' i) (λ y p. update_ne live x false y p) (Absent-All x (q' i) (gone i))

  All-refl : (xs : List ℕ) → All (λ y. unlinked.1 y ≡ unlinked.1 y) xs
  All-refl [] = tt
  All-refl (y ∷ ys) = (refl, All-refl ys)

  -- The book after the order in slot `x` is taken off it.
  pub unlinked-IsBook :
      IsBook d
        (with_own bid unlinked.0 (with_own (not bid) (own (not bid) b) b))
        (with_pool a (free x (with_slots unlinked.1 a.pool)))
        (update live x false)
        (pick bid (update (q bid) u (xs ++ ys)) (q (not bid)))
  unfolding free with_slots
  unlinked-IsBook =
      assemble bid b unlinked.0 (own (not bid) b) v.sized
        (λ i. rw (unlinked-Relinks.qty i) (v.narrow i))
        (free-IsPool d.max_orders x (pool_with_slots unlinked.1 v.pool) v.sized.1 x-Member.0
          x-Member.1).2
        unlinked-IsLadder (IsLadder-frame other_frame (v.side (not bid)))
        (Members-frame (λ i. All-refl _) (use_after _ own_gone)
          (Members-relink unlinked-Relinks (Members-drop u x xs ys here (v.members bid))))
        (Members-frame other_frame (use_after _ other_gone) (v.members (not bid)))

own_kept :
    (bid : Bool) (l : Ladder) (b : Book)
    → with_own bid l b ≡ with_own bid l (with_own (not bid) (own (not bid) b) b)
own_kept true l b = refl
own_kept false l b = refl

pub cancel_taken :
    (d : Dims) (h : OrderHandle) (b : Book) (a : Arena)
    → (leb d.max_orders h.slot || not (a.pool.gen h.slot == h.gen)) ≡ false
    → let o = a.pool.slots h.slot in
      let bid = is_buy o.side in
      let (ladder, slots) = unlink bid d (price_to_idx b o.price) h.slot (own bid b) a.pool.slots in
      cancel_order d h b a ≡ (
        true,
        with_own bid ladder (with_own (not bid) (own (not bid) b) b),
        with_pool a (free h.slot (with_slots slots a.pool)),
      )
unfolding cancel_order
cancel_taken d h b a e =
    let o = a.pool.slots h.slot in
    let bid = is_buy o.side in
    let (ladder, slots) = unlink bid d (price_to_idx b o.price) h.slot (own bid b) a.pool.slots in
    rw e (
      ap (λ (k : Book). (true, k, with_pool a (free h.slot (with_slots slots a.pool))))
        (own_kept bid ladder b))

cancel_refused :
    (d : Dims) (h : OrderHandle) (b : Book) (a : Arena)
    → (leb d.max_orders h.slot || not (a.pool.gen h.slot == h.gen)) ≡ true
    → cancel_order d h b a ≡ (false, b, a)
unfolding cancel_order
cancel_refused d h b a e = rw e refl

free-gen :
    (x : ℕ) (p : Pool Order) (slots : ℕ → Order)
    → (free x (with_slots slots p)).gen x ≡ add32 (p.gen x) 1
unfolding free with_slots
free-gen x p slots = update_self p.gen x _

pub cancel_order-gen :
    (d : Dims) (h : OrderHandle) (b : Book) (a : Arena)
    → (leb d.max_orders h.slot || not (a.pool.gen h.slot == h.gen)) ≡ false
    → (cancel_order d h b a).2.pool.gen h.slot ≡ add32 (a.pool.gen h.slot) 1
cancel_order-gen d h b a e = rw (cancel_taken d h b a e) (free-gen h.slot a.pool _)

-- The cancel of a resting order by its handle succeeds: the order alone leaves its queue, wherever it
-- stands, the slot is free, and the same handle is refused from then on.
pub cancel_order-IsBook :
    {d : Dims} {b : Book} {a : Arena} {live : ℕ → Bool} {q : Bool → ℕ → List ℕ} (h : OrderHandle)
    (xs ys : List ℕ)
    → IsBook d b a live q
    → a.pool.gen h.slot ≡ h.gen
    → let o = a.pool.slots h.slot in
      let bid = is_buy o.side in
      let u = price_to_idx b o.price in
      q bid u ≡ xs ++ h.slot ∷ ys
      → let (done, b', a') = cancel_order d h b a in
        (done ≡ true)
        × IsBook d b' a'
            (update live h.slot false)
            (pick bid (update (q bid) u (xs ++ ys)) (q (not bid)))
        × (cancel_order d h b' a' ≡ (false, b', a'))
cancel_order-IsBook {d} {b} {a} {live} {q} h xs ys v g here =
    let o = a.pool.slots h.slot in
    let member = x-Member v (is_buy o.side) (price_to_idx b o.price) h.slot xs ys here in
    rw (cancel_taken d h b a (ground (arith, g, member.0))) (
      refl,
      unlinked-IsBook v (is_buy o.side) (price_to_idx b o.price) h.slot xs ys here,
      cancel_refused d h _ _ (rw (free-gen h.slot a.pool _) (ground (arith, g))),
    )
