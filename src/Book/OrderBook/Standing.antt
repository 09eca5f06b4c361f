-- ===== src/Book/OrderBook/Standing.antt =====
-- include/lx/book/order_book.hpp: what `add_order` leaves of the orders that were there.
use lite_exchange.Base.{
  ℕ, ◌≡◌, refl, ◌∙◌, ap, ◌≢◌, ◌⊎◌, Bool, true, false, not, arith, List, [], ◌∷◌, ◌++◌, update,
  update_ne, update_self, Absent, Bool-cases, inl, inr, sym, Present, Present-left, Present-right,
  add32, Present-last, ◌==◌, ==_iff, if◌then◌else◌,
}
use lite_exchange.Proto.Messages.{NewOrder, is_buy}
use lite_exchange.Book.Pool.{with_slots, free}
use lite_exchange.Book.Pool.Ages.{Older}
use lite_exchange.Book.Matching.{Dims, Arena, Matching, Flow, slots_of, crosses}
use lite_exchange.Book.OrderBook.{Book, price_to_idx, order_of}
use lite_exchange.Book.OrderBook.Sweep.{Swept}
use lite_exchange.Book.OrderBook.MatchDone.{MatchDone}
use lite_exchange.Book.OrderBook.Invariant.{pick_cases, pick_self}
use lite_exchange.Book.OrderBook.Admit.{CanAdmit, opening}
use lite_exchange.Book.OrderBook.AddDone.{rests, queues_after}
use lite_exchange.Book.OrderBook.Matched.{uidx, was_other, slot_gen}

module _ {d : Dims} {b : Book} {a : Arena} {live : ℕ → Bool} {q : Bool → ℕ → List ℕ}
    {msg : NewOrder} {slot : ℕ} (v : CanAdmit d b a live q msg slot) {s : Swept} {flow : Flow}
    {m : Matching}
    (e : MatchDone
      (not (is_buy msg.side))
      d
      (price_to_idx b)
      (update live slot true)
      slot
      (price_to_idx b msg.price)
      (q (not (is_buy msg.side)))
      (opening msg slot b a)
      s
      flow
      m) where
  pub matched_elsewhere :
      (x : ℕ)
      → live x ≡ true
      → ((c : Bool) (i : ℕ) → Absent x (q c i))
      → (slots_of m x ≡ a.pool.slots x) × (e.in_use x ≡ true)
  unfolding with_slots
  matched_elsewhere x h k =
      let ne = was_other v e x h in
      (
        e.others x ne (k (not (is_buy msg.side))) ∙ update_ne a.pool.slots slot (order_of msg) x ne,
        e.others_use x (k (not (is_buy msg.side))) ∙ update_ne live slot true x ne ∙ h,
      )

  pub matched_symbols :
      (x : ℕ)
      → (slots_of m x).symbol ≡ (if x == slot then msg.symbol_id else (a.pool.slots x).symbol)
  unfolding with_slots
  matched_symbols x = e.same.symbol x ∙ ground arith

  matched_kept :
      (x : ℕ)
      → x ≢ slot
      → e.in_use x ≡ true
      → (live x ≡ true)
        × ((i : ℕ) → Present x (q (not (is_buy msg.side)) i) → Present x (e.queues i))
  matched_kept x ne h =
      let (used, there) = e.kept x h in (sym (update_ne live slot true x ne) ∙ used, there)

  -- The queues of the own side only grow.
  own_grows :
      (x i : ℕ)
      → Present x (q (is_buy msg.side) i)
      → Present x (
          (if rests msg s.left
              then update
                  (q (is_buy msg.side))
                  (uidx v e)
                  (q (is_buy msg.side) (uidx v e) ++ slot ∷ [])
              else q (is_buy msg.side))
            i)
  own_grows x i p = elim (Bool-cases (rests msg s.left)) [
    | inr goes ↦ rw goes p
    | inl stays ↦ elim (Bool-cases (i == uidx v e)) [
      | inr off ↦ rw (stays, off) p
      | inl here ↦
          rw (stays, here)
            (Present-left x (q (is_buy msg.side) (uidx v e)) (slot ∷ [])
              (rw (← (==_iff i (uidx v e)).0 here) p))
    ]
  ]

  pub stands :
      (x : ℕ)
      → x ≢ slot
      → e.in_use x ≡ true
      → (live x ≡ true)
        × ((c : Bool) (i : ℕ)
            → Present x (q c i)
            → Present x (queues_after msg slot (uidx v e) q s e.queues c i))
  stands x ne h =
      let (used, there) = matched_kept x ne h in
      (
        used,
        λ c i.
            pick_cases (λ c' y. Present x (q c' i) → Present x (y i)) (is_buy msg.side)
              (own_grows x i) (there i) c,
      )

  pub rested_ages : (x : ℕ) → Older (live x) (e.in_use x) (a.pool.gen x) (m.arena.pool.gen x)
  unfolding with_slots
  rested_ages x = elim (e.ages x) [
    | inl (g, l) ↦ inl (g, λ h. l ∙ ground (arith, h))
    | inr (g, used, l) ↦ inr (g, l)
  ]

  pub freed_ages :
      (x : ℕ)
      → Older
          (live x)
          (update e.in_use slot false x)
          (a.pool.gen x)
          ((free slot m.arena.pool).gen x)
  unfolding free
  freed_ages x = elim (Bool-cases (x == slot)) [
    | inr off ↦ rw off (rested_ages x)
    | inl here ↦ rw here (
        inr (
          ap (λ (n : ℕ). add32 n 1) (slot_gen v e ∙ ap a.pool.gen (sym ((==_iff x slot).0 here))),
          refl,
        ))
  ]

  -- What is in a queue is the new order or was there.
  own_only :
      (x i : ℕ)
      → Present x (
          (if rests msg s.left
              then update
                  (q (is_buy msg.side))
                  (uidx v e)
                  (q (is_buy msg.side) (uidx v e) ++ slot ∷ [])
              else q (is_buy msg.side))
            i)
      → (x ≡ slot) ⊎ Present x (q (is_buy msg.side) i)
  own_only x i p = elim (Bool-cases (rests msg s.left)) [
    | inr goes ↦ inr (rw goes at p)
    | inl stays ↦ elim (Bool-cases (i == uidx v e)) [
      | inr off ↦ inr (rw (stays, off) at p)
      | inl here ↦
          rw ((==_iff i (uidx v e)).0 here)
            (Present-last x slot (q (is_buy msg.side) (uidx v e)) (rw (stays, here) at p))
    ]
  ]

  pub came :
      (x : ℕ) (c : Bool) (i : ℕ) {symbol : ℕ}
      → symbol ≡ (if x == slot then msg.symbol_id else (a.pool.slots x).symbol)
      → Present x (queues_after msg slot (uidx v e) q s e.queues c i)
      → (symbol ≡ msg.symbol_id) ⊎ ((symbol ≡ (a.pool.slots x).symbol) × Present x (q c i))
  came x c i e_symbol p =
      elim (pick_cases (λ c' y. Present x (y i) → (x ≡ slot) ⊎ Present x (q c' i)) (is_buy msg.side)
        (own_only x i) (λ p. inr (e.only x i p)) c p) [
          | inl new ↦ inl (ground (arith, e_symbol, new))
          | inr old ↦ elim (Bool-cases (x == slot)) [
            | inl new ↦ inl (ground (arith, e_symbol, new))
            | inr other ↦ inr (ground (arith, e_symbol, other), old)
          ]
        ]

  pub slot_stands :
      rests msg s.left ≡ true
      → Present slot (queues_after msg slot (uidx v e) q s e.queues (is_buy msg.side) (uidx v e))
  slot_stands stays =
      rw
        (
          pick_self e.queues (is_buy msg.side),
          stays,
          update_self (q (is_buy msg.side)) (uidx v e)
              (q (is_buy msg.side) (uidx v e) ++ slot ∷ []),
        )
        (Present-right slot (q (is_buy msg.side) (uidx v e)) (slot ∷ []) (inl refl))

  pub not_met :
      (i : ℕ)
      → (crosses (not (is_buy msg.side)) i (price_to_idx b msg.price) ≡ true)
        ⊎ (e.queues i ≡ q (not (is_buy msg.side)) i)
  not_met i = elim (Bool-cases (crosses (not (is_buy msg.side)) i (price_to_idx b msg.price))) [
    | inl h ↦ inl h
    | inr h ↦ inr (e.off_path i h)
  ]
