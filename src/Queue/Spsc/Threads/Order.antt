-- ===== src/Queue/Spsc/Threads/Order.antt =====
-- include/lx/queue/spsc.hpp with its two threads: what each of them knows of the ring.
use lite_exchange.Base.{
  ℕ, ◌+◌, ◌-◌, ◌%◌, ◌^◌, ◌≤◌, ◌<◌, ◌≡◌, sym, ◌∙◌, ap, ◌≢◌, inl, inr, arith, false, ltb, ◌==◌, ==→eq,
  Bool-cases, List, [], ◌∷◌, ◌++◌, length,
}
use lite_exchange.Queue.Spsc.{masked, add64, sub64}
use lite_exchange.Queue.Spsc.Slots.{masked-wrap, place-ne}
use lite_exchange.Queue.Spsc.Fifo.{Window, capacity-lt}
use lite_exchange.Queue.Spsc.Threads.{Counter, store, Producer, Consumer, Threads}

-- What `push` tests: there is room where fewer values than the capacity are in the ring, as far as it saw.
pub room-lt :
    (k h i : ℕ)
    → k < 63
    → i ≤ h
    → h ≤ i + 2 ^ k
    → ltb (2 ^ k) (sub64 (add64 (h % 2 ^ 64) 1) (i % 2 ^ 64)) ≡ false
    → h < i + 2 ^ k
room-lt k h i small low high t = ground (arith, t, used)
  where
    used : sub64 (add64 (h % 2 ^ 64) 1) (i % 2 ^ 64) ≡ h + 1 - i
    used = omega (arith, capacity-lt k small)

-- What `pop` tests: a store of `head_` that differs is a later one.
pub later-lt : (t i : ℕ) → t ≤ i → (i % 2 ^ 64 == t % 2 ^ 64) ≡ false → t < i
later-lt t i h e = elim (Bool-cases (i == t)) [
  | inl same ↦ elim (same_false (==→eq i t same)) [ ]
  | inr other ↦ ground (arith, other, h)
]
  where
    same_false : i ≡ t → ⊥
    same_false q = ground (arith, e, ap (λ (x : ℕ). x % 2 ^ 64) q)

pub store-values :
    (c : Counter) (x : ℕ)
    → x ≡ (c.last + 1) % 2 ^ 64
    → ((i : ℕ) → i ≤ c.last → c.stored i ≡ i % 2 ^ 64)
    → (i : ℕ) → i ≤ c.last + 1
    → (store x c).stored i ≡ i % 2 ^ 64
store-values c x e h i b = elim (Bool-cases (i == c.last + 1)) [
  | inl new ↦ ground (arith, new, e)
  | inr old ↦ ground (arith, old, b, h i)
]

pub place : (k x n : ℕ) → k < 63 → x ≡ n % 2 ^ 64 → masked k x ≡ n % 2 ^ k
place k x n small e = ap (masked k) e ∙ masked-wrap k n (omega arith)

-- Two counts less than a lap apart have different places.
pub places-ne : (k t h : ℕ) → t < h → h < t + 2 ^ k → t % 2 ^ k ≢ h % 2 ^ k
places-ne k t h above below e =
    place-ne (2 ^ k) t 0 (h - t) (omega arith) (omega arith)
      (ap (λ (n : ℕ). n % 2 ^ k) first ∙ e ∙ ap (λ (n : ℕ). n % 2 ^ k) last)
  where
    first : t + 0 ≡ t
    first = omega arith

    last : h ≡ t + (h - t)
    last = omega arith

module _ {ℓ} {T : Type ℓ} where
  pub first_pending :
      (slots : ℕ → T) (k t : ℕ) (pending : List T)
      → 1 ≤ length pending
      → Window slots k t pending
      → (ys : List T) × (pending ≡ slots (t % 2 ^ k) ∷ ys)
  first_pending slots k t [] h w = absurd (omega arith)
  first_pending slots k t (x ∷ xs) h w = (xs, ap (λ (y : T). y ∷ xs) (sym w.0))

module _ {ℓ} {T : Type ℓ} (k : ℕ) where
  -- What the producer knows, after `h` stores of `head_` of which it saw `seen` of `tail_`.
  abbrev pub ProducerKnows : Producer T → (ℕ → T) → ℕ → ℕ → Type ℓ
  ProducerKnows Producer.idle slots h seen = Unit
  ProducerKnows (Producer.loaded val head) slots h seen = (head ≡ h % 2 ^ 64) × Unit {ℓ}
  ProducerKnows (Producer.room val head) slots h seen =
      (head ≡ h % 2 ^ 64) × (h < seen + 2 ^ k) × Unit {ℓ}
  ProducerKnows (Producer.written val head) slots h seen =
      (head ≡ h % 2 ^ 64) × (h < seen + 2 ^ k) × (slots (h % 2 ^ k) ≡ val)

  -- What the consumer knows, after `t` stores of `tail_`, with `pending` in the ring.
  abbrev pub ConsumerKnows : Consumer T → List T → ℕ → ℕ → Type ℓ
  ConsumerKnows Consumer.idle pending t seen = Unit
  ConsumerKnows (Consumer.loaded tail) pending t seen = (tail ≡ t % 2 ^ 64) × Unit {ℓ}
  ConsumerKnows (Consumer.ready tail) pending t seen = (tail ≡ t % 2 ^ 64) × (t < seen) × Unit {ℓ}
  ConsumerKnows (Consumer.copied tail val) pending t seen =
      (tail ≡ t % 2 ^ 64) × (t < seen) × (ys : List T) × (pending ≡ val ∷ ys)

  -- The counters and the slots: `pending` is what is in the ring.
  pub record IsCounted (head tail : Counter) (tail_seen head_seen : ℕ) (slots : ℕ → T)
      (sent received pending : List T) : Type ℓ where
    pub head_values : (i : ℕ) → i ≤ head.last → head.stored i ≡ i % 2 ^ 64
    pub tail_values : (i : ℕ) → i ≤ tail.last → tail.stored i ≡ i % 2 ^ 64
    pub seen_tail : tail_seen ≤ tail.last
    pub ahead : tail.last ≤ head_seen
    pub seen_head : head_seen ≤ head.last
    pub bounded : head.last ≤ tail_seen + 2 ^ k
    pub split : sent ≡ received ++ pending
    pub waiting : head.last ≡ tail.last + length pending
    pub window : Window slots k tail.last pending

  pub record IsShared (s : Threads T) : Type ℓ where
    pub pending : List T
    pub ring : IsCounted s.head s.tail s.tail_seen s.head_seen s.slots s.sent s.received pending
    pub producer : ProducerKnows s.producer s.slots s.head.last s.tail_seen
    pub consumer : ConsumerKnows s.consumer pending s.tail.last s.head_seen
