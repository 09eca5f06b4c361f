-- ===== src/Book/OrderBook/Path.antt =====
-- The resting orders that an order can meet, in priority: the levels of the passive side from the best
-- price on, as far as they cross, each oldest first.
use lite_exchange.Base.{
  ℕ, zero, suc, ◌+◌, ◌-◌, ◌<◌, ◌≤◌, ◌≡◌, refl, ◌∙◌, ap, ◌≢◌, Bool, true, false, arith, List, [],
  ◌++◌, update, update_ne,
}
use lite_exchange.Book.OrderBook.BestLevel.{Beyond}

-- The next level from `b` away from the best price.
abbrev pub worse : Bool → ℕ → ℕ
worse true b = b - 1
worse false b = b + 1

-- The queues of `k` levels from `b` on.
abbrev pub path : Bool → (ℕ → List ℕ) → ℕ → ℕ → List ℕ
path bid q b zero = []
path bid q b (suc k) = q b ++ path bid q (worse bid b) k

-- How many levels from `b` on cross with `agg_idx`.
abbrev pub crossing : Bool → ℕ → ℕ → ℕ
crossing true b agg_idx = b + 1 - agg_idx
crossing false b agg_idx = agg_idx + 1 - b

-- The level at the best end of a ladder of `n`.
abbrev pub top : Bool → ℕ → ℕ
top true n = n - 1
top false n = 0

-- All resting orders that cross with `agg_idx`, in priority.
abbrev pub priority : Bool → ℕ → (ℕ → List ℕ) → ℕ → List ℕ
priority bid n q agg_idx = path bid q (top bid n) (crossing bid (top bid n) agg_idx)

pub path_empty :
    (bid : Bool) (q : ℕ → List ℕ) (b k : ℕ) → ((i : ℕ) → q i ≡ []) → path bid q b k ≡ []
path_empty bid q b zero h = refl
path_empty bid q b (suc k) h = rw (h b) (path_empty bid q (worse bid b) k h)

-- The first level of a path that crosses.
pub path_first :
    (bid : Bool) (q : ℕ → List ℕ) (b agg_idx : ℕ)
    → crossing bid b agg_idx ≢ 0
    → path bid q b (crossing bid b agg_idx)
      ≡ q b ++ path bid q (worse bid b) (crossing bid b agg_idx - 1)
path_first bid q b agg_idx h = go (crossing bid b agg_idx) refl
  where
    go :
        (k : ℕ)
        → crossing bid b agg_idx ≡ k
        → path bid q b (crossing bid b agg_idx)
          ≡ q b ++ path bid q (worse bid b) (crossing bid b agg_idx - 1)
    go zero e = absurd (h e)
    go (suc k) e = rw e (ap (λ (j : ℕ). q b ++ path bid q (worse bid b) j) (omega arith))

-- Empty levels may be skipped: for asks from `b` up, for bids from `b` down.
skip_one :
    (bid : Bool) (q : ℕ → List ℕ) (b agg_idx k : ℕ)
    → q b ≡ []
    → crossing bid b agg_idx ≡ k
    → crossing bid (worse bid b) agg_idx ≡ k - 1
    → path bid q b (crossing bid b agg_idx)
      ≡ path bid q (worse bid b) (crossing bid (worse bid b) agg_idx)
skip_one bid q b agg_idx zero h e e' = rw (e, e')
skip_one bid q b agg_idx (suc k) h e e' =
    let less : suc k - 1 ≡ k = omega arith in rw (e, e', h, less)

skip_up :
    (g : ℕ) (q : ℕ → List ℕ) (b agg_idx : ℕ)
    → ((i : ℕ) → b ≤ i → i < b + g → q i ≡ [])
    → path false q b (agg_idx + 1 - b) ≡ path false q (b + g) (agg_idx + 1 - (b + g))
skip_up zero q b agg_idx h = ap (λ (j : ℕ). path false q j (agg_idx + 1 - j)) (omega arith)
skip_up (suc g) q b agg_idx h =
    let shift : b + 1 + g ≡ b + suc g = omega arith in
    skip_one false q b agg_idx (agg_idx + 1 - b) (h b (omega arith) (omega arith)) refl
      (omega arith)
    ∙ skip_up g q (b + 1) agg_idx (λ i p r. h i (omega arith) (omega arith))
    ∙ ap (λ (j : ℕ). path false q j (agg_idx + 1 - j)) shift

skip_down :
    (g : ℕ) (q : ℕ → List ℕ) (b agg_idx : ℕ)
    → g ≤ b
    → ((i : ℕ) → b - g < i → i ≤ b → q i ≡ [])
    → path true q b (b + 1 - agg_idx) ≡ path true q (b - g) (b - g + 1 - agg_idx)
skip_down zero q b agg_idx hg h = ap (λ (j : ℕ). path true q j (j + 1 - agg_idx)) (omega arith)
skip_down (suc g) q b agg_idx hg h =
    let shift : b - 1 - g ≡ b - suc g = omega arith in
    skip_one true q b agg_idx (b + 1 - agg_idx) (h b (omega arith) (omega arith)) refl (omega arith)
    ∙ skip_down g q (b - 1) agg_idx (omega arith) (λ i p r. h i (omega arith) (omega arith))
    ∙ ap (λ (j : ℕ). path true q j (j + 1 - agg_idx)) shift

-- The orders that cross are those from level `b` on, if no better level holds any.
pub priority_from :
    (bid : Bool) (n : ℕ) (q : ℕ → List ℕ) (b agg_idx : ℕ)
    → b < n
    → ((i : ℕ) → i < n → Beyond bid i b → q i ≡ [])
    → priority bid n q agg_idx ≡ path bid q b (crossing bid b agg_idx)
priority_from true n q b agg_idx hb h =
    let at : n - 1 - (n - 1 - b) ≡ b = omega arith in
    skip_down (n - 1 - b) q (n - 1) agg_idx (omega arith) (λ i p r. h i (omega arith) (omega arith))
    ∙ ap (λ (j : ℕ). path true q j (j + 1 - agg_idx)) at
priority_from false n q b agg_idx hb h =
    let at : 0 + b ≡ b = omega arith in
    skip_up b q 0 agg_idx (λ i p r. h i (omega arith) (omega arith))
    ∙ ap (λ (j : ℕ). path false q j (agg_idx + 1 - j)) at

-- A write to a level that the path has passed does not show.
pub path-update_up :
    (q : ℕ → List ℕ) (b k c : ℕ) (xs : List ℕ)
    → c < b
    → path false (update q c xs) b k ≡ path false q b k
path-update_up q b zero c xs h = refl
path-update_up q b (suc k) c xs h =
    rw (update_ne q c xs b (omega arith), path-update_up q (b + 1) k c xs (omega arith))

pub path-update_down :
    (q : ℕ → List ℕ) (b k c : ℕ) (xs : List ℕ)
    → b < c
    → path true (update q c xs) b k ≡ path true q b k
path-update_down q b zero c xs h = refl
path-update_down q b (suc k) c xs h =
    rw (update_ne q c xs b (omega arith), path-update_down q (b - 1) k c xs (omega arith))
