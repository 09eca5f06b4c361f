-- ===== src/Book/PriceLevel/Links.antt =====
-- The chain of a level under the link writes of `push_back`, `pop_front` and `remove`.
use lite_exchange.Base.{
  Absent-append_left, ℕ, ◌≡◌, refl, sym, ◌∙◌, ap, ◌≢◌, List, [], ◌∷◌, ◌++◌, Absent, Distinct, ◌==◌,
  if◌then◌else◌, arith,
}
use lite_exchange.Book.Order.{Order, null_idx}
use lite_exchange.Book.PriceLevel.Chain.{Chain, Relinked, Chain-frame, head-ne, tail-ne, before-ne}

-- The slots of `push_back` with a non-empty level: `idx` is linked behind `t`.
pub record Linked (base slots : ℕ → Order) (t idx : ℕ) : Type 0 where
  pub next_t : (slots t).next_idx ≡ idx
  pub next_idx : (slots idx).next_idx ≡ null_idx
  pub prev_idx : (slots idx).prev_idx ≡ t
  pub next_same : (i : ℕ) → i ≢ t → i ≢ idx → (slots i).next_idx ≡ (base i).next_idx
  pub prev_same : (i : ℕ) → i ≢ idx → (slots i).prev_idx ≡ (base i).prev_idx

pub Chain-append :
    {base slots : ℕ → Order} {t idx : ℕ} (prev h x : ℕ) (xs : List ℕ)
    → Linked base slots t idx
    → Absent idx (x ∷ xs)
    → Distinct (x ∷ xs)
    → idx ≢ null_idx
    → Chain base prev h t (x ∷ xs)
    → Chain slots prev h idx (x ∷ xs ++ idx ∷ [])
Chain-append {base} {slots} {t} {idx} prev h x [] l a d n c = (
  c.0,
  c.1,
  l.prev_same x (ground arith) ∙ c.2,
  (rw (← c.3.1) l.next_t, n, l.prev_idx ∙ c.3.1, (l.next_idx, refl)),
)
Chain-append {base} {slots} {t} {idx} prev h x (y ∷ xs) l a d n c =
    let ne : x ≢ t = tail-ne base y (base y).next_idx t x xs c.3.3 d.0.1 d.0.0 in
    let next : (slots x).next_idx ≡ (base x).next_idx = l.next_same x ne (ground arith) in
    (
      c.0,
      c.1,
      l.prev_same x (ground arith) ∙ c.2,
      rw next (Chain-append x (base x).next_idx y xs l a.1 d.1 n c.3),
    )

-- The slots of `pop_front` and `remove`: `p` and `n` are linked to one another.
pub record Joined (base slots : ℕ → Order) (p n : ℕ) : Type 0 where
  pub next_p : p ≢ null_idx → (slots p).next_idx ≡ n
  pub prev_n : n ≢ null_idx → (slots n).prev_idx ≡ p
  pub others : Relinked base slots p n

-- The chain after `x`, once it hangs on what stood before `x`.
pub Chain-tail :
    {base slots : ℕ → Order} {p n : ℕ} (h t x : ℕ) (xs : List ℕ)
    → Joined base slots p n
    → n ≡ (base x).next_idx
    → Absent p xs
    → Distinct (x ∷ xs)
    → Chain base p h t (x ∷ xs)
    → Chain slots p n (if n == null_idx then p else t) xs
Chain-tail {base} {slots} {p} {n} h t x [] j e ap d c = (e ∙ c.3.0, ground arith)
Chain-tail {base} {slots} {p} {n} h t x (y ∷ xs) j e ap d c =
    let at : n ≡ y = e ∙ c.3.0 in
    let next : (slots y).next_idx ≡ (base y).next_idx = j.others.next_same y (λ q. ap.0 (sym q)) in
    let tail : (if n == null_idx then p else t) ≡ t = ground arith in
    let ny : n ≢ null_idx = ground arith in
    (
      at,
      c.3.1,
      rw (← at) (j.prev_n ny),
      rw (next, tail) (Chain-frame y (base y).next_idx t xs j.others ap.1 (rw at d.1.0) c.3.3),
    )

-- The slot after `x` is none of those before it.
after-ne :
    (slots : ℕ → Order) (prev h t y x : ℕ) (xs ys : List ℕ)
    → Chain slots prev h t (xs ++ x ∷ ys)
    → Absent y (xs ++ x ∷ ys)
    → y ≢ null_idx
    → y ≢ (slots x).next_idx
after-ne slots prev h t y x [] ys c a n = head-ne slots x (slots x).next_idx t y ys c.3 a.1 n
after-ne slots prev h t y x (z ∷ xs) ys c a n =
    after-ne slots z (slots z).next_idx t y x xs ys c.3 a.1 n

-- A slot `x` with some slot before it leaves the chain.
pub Chain-remove :
    {base slots : ℕ → Order} {p n : ℕ} (prev h t y x : ℕ) (xs ys : List ℕ)
    → Joined base slots p n
    → p ≡ (base x).prev_idx
    → n ≡ (base x).next_idx
    → Distinct (y ∷ xs ++ x ∷ ys)
    → Chain base prev h t (y ∷ xs ++ x ∷ ys)
    → Chain slots prev h (if n == null_idx then p else t) (y ∷ xs ++ ys)
Chain-remove {base} {slots} {p} {n} prev h t y x [] ys j ep en d c =
    let at : p ≡ y = ep ∙ c.3.2 in
    let ny : y ≢ n = rw en (head-ne base x (base x).next_idx t y ys c.3.3 d.0.1 c.1) in
    let np : p ≢ null_idx = ground arith in
    let rest : Chain base p (base y).next_idx t (x ∷ ys) = rw at c.3 in
    let moved = Chain-tail (base y).next_idx t x ys j en (rw at d.0.1) d.1 rest in
    (c.0, c.1, j.others.prev_same y ny ∙ c.2, rw (← at, j.next_p np) moved)
Chain-remove {base} {slots} {p} {n} prev h t y x (z ∷ xs) ys j ep en d c =
    let ny : y ≢ n = rw en (after-ne base y (base y).next_idx t y x (z ∷ xs) ys c.3 d.0 c.1) in
    let np : y ≢ p = rw ep (
      before-ne base z (base z).next_idx t y x xs ys c.3.3 (Absent-append_left y xs (x ∷ ys) d.0.1)
        d.0.0) in
    (
      c.0,
      c.1,
      j.others.prev_same y ny ∙ c.2,
      rw (j.others.next_same y np) (Chain-remove y (base y).next_idx t z x xs ys j ep en d.1 c.3),
    )
