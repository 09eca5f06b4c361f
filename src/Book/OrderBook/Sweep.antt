-- ===== src/Book/OrderBook/Sweep.antt =====
-- What matching an order against a queue is meant to do, as a walk over the resting orders in their
-- priority, apart from levels, links and bitmaps of include/lx/book/order_book.hpp.
use lite_exchange.Base.{
  ℕ, suc, ◌+◌, ◌-◌, ◌≤◌, ◌≡◌, refl, ◌≢◌, Bool, true, false, ◌||◌, ◌==◌, leb, if◌then◌else◌, arith,
  List, [], ◌∷◌, ◌++◌, length, All, Bool-cases, inl, inr,
}
use native.Mathlib.Nat.{sub-zero}
use lite_exchange.Proto.Messages.{Fill, MsgType}
use lite_exchange.Book.Order.{Order}
use lite_exchange.Book.OrderBook.Step.{SameOrders}

-- What a walk yields: the fills, the quantity left, the orders used up and those that stay.
pub record Swept : Type 0 where
  pub fills : List Fill
  pub left : ℕ
  pub taken : List ℕ
  pub rest : List ℕ

-- The fill of `qty` against the order of slot `x`, at that order's price and for its owner.
abbrev pub fill_for : (ℕ → Order) → (ℕ → ℕ) → ℕ → ℕ → ℕ → Fill
fill_for slots session agg_id x qty = record {
  hdr = record { len = 40; type = MsgType.fill; flags = 0; session_id = session x };
  aggressor_id = agg_id;
  resting_id = (slots x).order_id;
  price = (slots x).price;
  qty = qty;
}

abbrev pub cons_swept : Fill → Bool → ℕ → Swept → Swept
cons_swept f gone x s = record {
  fills = f ∷ s.fills;
  left = s.left;
  taken = if gone then x ∷ s.taken else s.taken;
  rest = s.rest;
}

abbrev pub unswept : ℕ → List ℕ → Swept
unswept qty xs = record { fills = []; left = qty; taken = []; rest = xs }

-- The orders of `xs` are filled in turn, while quantity is left and at most `room` times.
unfoldable pub sweep : (ℕ → Order) → (ℕ → ℕ) → ℕ → ℕ → ℕ → List ℕ → Swept
sweep slots session agg_id room qty [] = unswept qty []
sweep slots session agg_id room qty (x ∷ xs) =
    if (qty == 0) || (room == 0)
    then unswept qty (x ∷ xs)
    else if leb (slots x).qty qty
    then cons_swept (fill_for slots session agg_id x (slots x).qty) true x
        (sweep slots session agg_id (room - 1) (qty - (slots x).qty) xs)
    else cons_swept (fill_for slots session agg_id x qty) false x (unswept 0 (x ∷ xs))

-- The walk depends on the orders it visits alone.
pub sweep-same :
    (base slots : ℕ → Order) (session : ℕ → ℕ) (agg_id room qty : ℕ) (xs : List ℕ)
    → SameOrders base slots
    → All (λ x. (slots x).qty ≡ (base x).qty) xs
    → sweep slots session agg_id room qty xs ≡ sweep base session agg_id room qty xs
unfolding sweep
sweep-same base slots session agg_id room qty [] same q = refl
sweep-same base slots session agg_id room qty (x ∷ xs) same q = rw (
  same.order_id x,
  same.price x,
  q.0,
  sweep-same base slots session agg_id (room - 1) (qty - (base x).qty) xs same q.1,
)

pub sweep-zero :
    (slots : ℕ → Order) (session : ℕ → ℕ) (agg_id room : ℕ) (xs : List ℕ)
    → sweep slots session agg_id room 0 xs ≡ unswept 0 xs
unfolding sweep
sweep-zero slots session agg_id room [] = refl
sweep-zero slots session agg_id room (x ∷ xs) = refl

pub sweep_full :
    (slots : ℕ → Order) (session : ℕ → ℕ) (agg_id qty : ℕ) (xs : List ℕ)
    → sweep slots session agg_id 0 qty xs ≡ unswept qty xs
unfolding sweep
sweep_full slots session agg_id qty [] = refl
sweep_full slots session agg_id qty (x ∷ xs) = ground arith

-- One fill, and the walk from there.
pub sweep_step :
    (base slots : ℕ → Order) (session : ℕ → ℕ) (agg_id room qty x : ℕ) (xs : List ℕ)
    → SameOrders base slots
    → All (λ y. (slots y).qty ≡ (base y).qty) xs
    → qty ≢ 0
    → room ≢ 0
    → let gone = leb (base x).qty qty in
      sweep base session agg_id room qty (x ∷ xs)
      ≡ cons_swept
          (fill_for base session agg_id x (if gone then (base x).qty else qty))
          gone
          x
          (sweep slots session agg_id (room - 1) (qty - (base x).qty) (if gone then xs else x ∷ xs))
sweep_step base slots session agg_id room qty x xs same q nq nr =
    elim (Bool-cases (leb (base x).qty qty)) [
      | inl gone ↦
          rw (gone, sweep-same base slots session agg_id (room - 1) (qty - (base x).qty) xs same q)
            (unfold sweep in ground arith)
      | inr kept ↦
          let used : qty - (base x).qty ≡ 0 = ground arith in
          rw (kept, used, sweep-zero slots session agg_id (room - 1) (x ∷ xs))
            (unfold sweep in ground arith)
    ]

-- No slot of the walk is lost.
pub sweep-parts :
    (slots : ℕ → Order) (session : ℕ → ℕ) (agg_id room qty : ℕ) (xs : List ℕ)
    → let s = sweep slots session agg_id room qty xs in s.taken ++ s.rest ≡ xs
unfolding sweep
sweep-parts slots session agg_id room qty [] = refl
sweep-parts slots session agg_id room qty (x ∷ xs) =
    ground (arith, sweep-parts slots session agg_id (room - 1) (qty - (slots x).qty) xs)

abbrev pub fills_qty : List Fill → ℕ
fills_qty [] = 0
fills_qty (f ∷ fs) = f.qty + fills_qty fs

-- The fills and the quantity left make up the order.
pub sweep-qty :
    (slots : ℕ → Order) (session : ℕ → ℕ) (agg_id room qty : ℕ) (xs : List ℕ)
    → let s = sweep slots session agg_id room qty xs in fills_qty s.fills + s.left ≡ qty
unfolding sweep
sweep-qty slots session agg_id room qty [] = omega arith
sweep-qty slots session agg_id room qty (x ∷ xs) =
    ground (arith, sweep-qty slots session agg_id (room - 1) (qty - (slots x).qty) xs)

pub sweep-room :
    (slots : ℕ → Order) (session : ℕ → ℕ) (agg_id room qty : ℕ) (xs : List ℕ)
    → length (sweep slots session agg_id room qty xs).fills ≤ room
unfolding sweep
sweep-room slots session agg_id room qty [] = omega arith
sweep-room slots session agg_id room qty (x ∷ xs) =
    ground (arith, sweep-room slots session agg_id (room - 1) (qty - (slots x).qty) xs)

-- The walk over two queues in turn: the second is reached only if the first is used up.
abbrev pub then_sweep : Swept → List ℕ → Swept → Swept
then_sweep s ys t = elim s.rest [
  | [] ↦ record {
    fills = s.fills ++ t.fills;
    left = t.left;
    taken = s.taken ++ t.taken;
    rest = t.rest;
  }
  | z ∷ zs ↦ record s { rest = z ∷ (zs ++ ys) }
]

pub sweep-append :
    (slots : ℕ → Order) (session : ℕ → ℕ) (agg_id room qty : ℕ) (xs ys : List ℕ)
    → let s = sweep slots session agg_id room qty xs in
      sweep slots session agg_id room qty (xs ++ ys)
      ≡ then_sweep s ys (sweep slots session agg_id (room - length s.fills) s.left ys)
unfolding sweep
sweep-append slots session agg_id room qty [] ys = rw sub-zero
sweep-append slots session agg_id room qty (x ∷ xs) ys =
    elim (Bool-cases ((qty == 0) || (room == 0))) [
      | inl stop ↦ rw stop
      | inr go ↦ elim (Bool-cases (leb (slots x).qty qty)) [
        | inr kept ↦ rw (go, kept)
        | inl gone ↦
            rw (go, gone)
              (rw
                (
                  sweep-append slots session agg_id (room - 1) (qty - (slots x).qty) xs ys,
                  one_less (
                      length
                        (sweep slots session agg_id (room - 1) (qty - (slots x).qty) xs).fills),
                )
                (fold (sweep slots session agg_id (room - 1) (qty - (slots x).qty) xs) _))
      ]
    ]
  where
    one_less : (k : ℕ) → room - suc k ≡ room - 1 - k
    one_less k = omega arith

    fold :
        (s t : Swept)
        → cons_swept (fill_for slots session agg_id x (slots x).qty) true x (then_sweep s ys t)
          ≡ then_sweep (cons_swept (fill_for slots session agg_id x (slots x).qty) true x s) ys t
    fold s t = split s.rest refl
      where
        split :
            (r : List ℕ)
            → s.rest ≡ r
            → cons_swept (fill_for slots session agg_id x (slots x).qty) true x (then_sweep s ys t)
              ≡ then_sweep
                  (cons_swept (fill_for slots session agg_id x (slots x).qty) true x s)
                  ys
                  t
        split [] e = rw e
        split (z ∷ zs) e = rw e
