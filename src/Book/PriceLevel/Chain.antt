-- ===== src/Book/PriceLevel/Chain.antt =====
-- The links of include/lx/book/price_level.hpp: what it means that a level's head, tail and the
-- links of the arena spell a list of slots, and how a chain bears writes to the arena.
use lite_exchange.Base.{
  ℕ, ◌+◌, ◌≡◌, refl, sym, ◌∙◌, ap, ◌≢◌, List, [], ◌∷◌, ◌++◌, Absent, Distinct, arith,
}
use lite_exchange.Book.Order.{Order, null_idx}

-- From `h` on the forward links run through `xs` and end, `t` is the last of `xs`, and each backward
-- link leads to the one before; `prev` is what stands before `xs`.
abbrev pub Chain : (ℕ → Order) → ℕ → ℕ → ℕ → List ℕ → Type 0
Chain slots prev h t [] = (h ≡ null_idx) × (t ≡ prev)
Chain slots prev h t (x ∷ xs) =
    (h ≡ x) × (x ≢ null_idx) × ((slots x).prev_idx ≡ prev) × Chain slots x (slots x).next_idx t xs

-- The quantity that rests in the slots.
abbrev pub qty_sum : (ℕ → Order) → List ℕ → ℕ
qty_sum slots [] = 0
qty_sum slots (x ∷ xs) = (slots x).qty + qty_sum slots xs

-- The slots differ in the forward link of `p` and the backward link of `n` at most.
pub record Relinked (base slots : ℕ → Order) (p n : ℕ) : Type 0 where
  pub next_same : (i : ℕ) → i ≢ p → (slots i).next_idx ≡ (base i).next_idx
  pub prev_same : (i : ℕ) → i ≢ n → (slots i).prev_idx ≡ (base i).prev_idx
  pub qty_same : (i : ℕ) → (slots i).qty ≡ (base i).qty

pub Absent-drop_mid : (y x : ℕ) (xs ys : List ℕ) → Absent y (xs ++ x ∷ ys) → Absent y (xs ++ ys)
Absent-drop_mid y x [] ys a = a.1
Absent-drop_mid y x (z ∷ xs) ys a = (a.0, Absent-drop_mid y x xs ys a.1)

pub Distinct-drop_mid : (x : ℕ) (xs ys : List ℕ) → Distinct (xs ++ x ∷ ys) → Distinct (xs ++ ys)
Distinct-drop_mid x [] ys d = d.1
Distinct-drop_mid x (z ∷ xs) ys d = (Absent-drop_mid z x xs ys d.0, Distinct-drop_mid x xs ys d.1)

pub Distinct-append_last :
    (x : ℕ) (xs : List ℕ) → Absent x xs → Distinct xs → Distinct (xs ++ x ∷ [])
Distinct-append_last x [] a d = (tt, tt)
Distinct-append_last x (y ∷ xs) a d =
    (last y xs d.0 (λ e. a.0 (sym e)), Distinct-append_last x xs a.1 d.1)
  where
    last : (y : ℕ) (xs : List ℕ) → Absent y xs → y ≢ x → Absent y (xs ++ x ∷ [])
    last y [] a n = (n, tt)
    last y (z ∷ xs) a n = (a.0, last y xs a.1 n)

pub qty_sum-same :
    (base slots : ℕ → Order) (xs : List ℕ)
    → ((i : ℕ) → (slots i).qty ≡ (base i).qty)
    → qty_sum slots xs ≡ qty_sum base xs
qty_sum-same base slots [] h = refl
qty_sum-same base slots (x ∷ xs) h = omega (arith, h x, qty_sum-same base slots xs h)

pub qty_sum-append :
    (slots : ℕ → Order) (xs ys : List ℕ)
    → qty_sum slots (xs ++ ys) ≡ qty_sum slots xs + qty_sum slots ys
qty_sum-append slots [] ys = omega arith
qty_sum-append slots (x ∷ xs) ys = omega (arith, qty_sum-append slots xs ys)

-- A chain keeps its place under writes to links of other slots.
pub Chain-frame :
    {base slots : ℕ → Order} {p n : ℕ} (prev h t : ℕ) (xs : List ℕ)
    → Relinked base slots p n
    → Absent p xs
    → Absent n xs
    → Chain base prev h t xs
    → Chain slots prev h t xs
Chain-frame prev h t [] r ap an c = c
Chain-frame {base} {slots} prev h t (x ∷ xs) r ap an c =
    let next : (slots x).next_idx ≡ (base x).next_idx = r.next_same x (λ e. ap.0 (sym e)) in
    (
      c.0,
      c.1,
      r.prev_same x (λ e. an.0 (sym e)) ∙ c.2,
      rw next (Chain-frame x (base x).next_idx t xs r ap.1 an.1 c.3),
    )

-- The head of a chain is the list's, or `null_idx` for an empty list.
pub head-ne :
    (slots : ℕ → Order) (prev h t y : ℕ) (xs : List ℕ)
    → Chain slots prev h t xs
    → Absent y xs
    → y ≢ null_idx
    → y ≢ h
head-ne slots prev h t y [] c a n = ground arith
head-ne slots prev h t y (x ∷ xs) c a n = ground arith

-- The tail of a chain is one of its slots, or what stands before it.
pub tail-ne :
    (slots : ℕ → Order) (prev h t y : ℕ) (xs : List ℕ)
    → Chain slots prev h t xs
    → Absent y xs
    → y ≢ prev
    → y ≢ t
tail-ne slots prev h t y [] c a n = ground arith
tail-ne slots prev h t y (x ∷ xs) c a n = tail-ne slots x (slots x).next_idx t y xs c.3 a.1 a.0

-- So is the slot before `x` in a chain through `x`.
pub before-ne :
    (slots : ℕ → Order) (prev h t y x : ℕ) (xs ys : List ℕ)
    → Chain slots prev h t (xs ++ x ∷ ys)
    → Absent y xs
    → y ≢ prev
    → y ≢ (slots x).prev_idx
before-ne slots prev h t y x [] ys c a n = ground arith
before-ne slots prev h t y x (z ∷ xs) ys c a n =
    before-ne slots z (slots z).next_idx t y x xs ys c.3 a.1 a.0

-- No slot of a chain is `null_idx`.
pub Chain-null :
    (slots : ℕ → Order) (prev h t : ℕ) (xs : List ℕ) → Chain slots prev h t xs → Absent null_idx xs
Chain-null slots prev h t [] c = tt
Chain-null slots prev h t (x ∷ xs) c =
    (λ e. c.1 (sym e), Chain-null slots x (slots x).next_idx t xs c.3)
