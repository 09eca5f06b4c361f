-- ===== src/Queue/Spsc/Fifo.antt =====
-- include/lx/queue/spsc.hpp as a bounded queue: the two operations of the ring on the list of values
-- that it holds, oldest first.
use lite_exchange.Base.{
  ℕ, ◌+◌, ◌-◌, ◌%◌, ◌^◌, ◌≤◌, ◌<◌, ◌≡◌, refl, ◌∙◌, ap, ◌≢◌, ◌⊎◌, inl, inr, arith, List, [], ◌∷◌,
  ◌++◌, length, length-append, true, false, ltb, ltb→lt, ◌==◌, Bool-cases, none, some, update,
  update_self, update_ne,
}
use native.Mathlib.Nat.{pow-le-pow_right}
use lite_exchange.Queue.Spsc.{SpscQueue, init, push, pop, masked, add64, sub64}
use lite_exchange.Queue.Spsc.Slots.{masked-wrap, place-ne}

pub capacity-lt : (k : ℕ) → k < 63 → 2 ^ k < 2 ^ 63
capacity-lt k h = omega (arith, power)
  where
    power : 2 ^ k ≤ 2 ^ 62
    power = pow-le-pow_right (omega arith) {j = 62} (omega arith)

module _ {ℓ} {T : Type ℓ} where
  -- From place `t` on, the slots hold the values of a list.
  abbrev pub Window : (ℕ → T) → ℕ → ℕ → List T → Type ℓ
  Window slots k t [] = Unit
  Window slots k t (x ∷ xs) = (slots (t % 2 ^ k) ≡ x) × Window slots k (t + 1) xs

  -- The ring holds `xs`; `t` counts the pops without a wrap.
  pub record IsRing (k t : ℕ) (q : SpscQueue T) (xs : List T) : Type ℓ where
    pub small : k < 63
    pub tail : q.tail ≡ t % 2 ^ 64
    pub head : q.head ≡ (t + length xs) % 2 ^ 64
    pub fits : length xs ≤ 2 ^ k
    pub window : Window q.slots k t xs

  pub init-IsRing : (k : ℕ) (x : T) → k < 63 → IsRing k 0 (init x) []
  unfolding init
  init-IsRing k x h = record {
    small = h;
    tail = refl;
    head = refl;
    fits = omega arith;
    window = tt;
  }

  pub Window-update :
      (slots : ℕ → T) (k t j : ℕ) (v : T) (xs : List T)
      → t + length xs ≤ j
      → j < t + 2 ^ k
      → Window slots k t xs
      → Window (update slots (j % 2 ^ k) v) k t xs
  Window-update slots k t j v [] h h' w = tt
  Window-update slots k t j v (x ∷ xs) h h' w = (
    update_ne slots (j % 2 ^ k) v (t % 2 ^ k) ne ∙ w.0,
    Window-update slots k (t + 1) j v xs (omega arith) (omega arith) w.1,
  )
    where
      ne : t % 2 ^ k ≢ j % 2 ^ k
      ne e =
          place-ne (2 ^ k) t 0 (j - t) (omega arith) (omega arith)
            (ap (λ (y : ℕ). y % 2 ^ k) first ∙ e ∙ ap (λ (y : ℕ). y % 2 ^ k) last)
        where
          first : t + 0 ≡ t
          first = omega arith

          last : j ≡ t + (j - t)
          last = omega arith

  pub Window-last :
      (slots : ℕ → T) (k t : ℕ) (v : T) (xs : List T)
      → slots ((t + length xs) % 2 ^ k) ≡ v
      → Window slots k t xs
      → Window slots k t (xs ++ v ∷ [])
  Window-last slots k t v [] e w = (ap (λ (j : ℕ). slots (j % 2 ^ k)) (omega arith) ∙ e, tt)
  Window-last slots k t v (x ∷ xs) e w = (
    w.0,
    Window-last slots k (t + 1) v xs (ap (λ (j : ℕ). slots (j % 2 ^ k)) (omega arith) ∙ e) w.1,
  )

  -- `push` appends the value where the ring has room, and refuses it, changing nothing, exactly where
  -- the ring is full.
  pub push-IsRing :
      (k t : ℕ) (val : T) (q : SpscQueue T) (xs : List T)
      → IsRing k t q xs
      → let (taken, q') = push k val q in
        ((length xs < 2 ^ k) × (taken ≡ true) × IsRing k t q' (xs ++ val ∷ []))
        ⊎ ((length xs ≡ 2 ^ k) × (taken ≡ false) × (q' ≡ q))
  unfolding push
  push-IsRing k t val q xs r = elim (Bool-cases (ltb (2 ^ k) (sub64 (add64 q.head 1) q.tail))) [
    | inl full ↦ rw full (inr (omega (arith, used, r.fits, ltb→lt _ _ full), refl, refl))
    | inr room ↦
        let short : length xs < 2 ^ k = ground (arith, used, r.fits) in
        rw room (
          inl (
            short,
            refl,
            record {
              small = r.small;
              tail = r.tail;
              head = omega (arith, r.head, length-append xs (val ∷ []));
              fits = omega (arith, length-append xs (val ∷ []));
              window =
                  Window-last (update q.slots (masked k q.head) val) k t val xs
                    (rw place (update_self q.slots ((t + length xs) % 2 ^ k) val))
                    (rw place (
                      Window-update q.slots k t (t + length xs) val xs (omega arith) (omega arith)
                        r.window));
            },
          ))
  ]
    where
      used : sub64 (add64 q.head 1) q.tail ≡ length xs + 1
      used = omega (arith, r.head, r.tail, r.fits, capacity-lt k r.small)

      place : masked k q.head ≡ (t + length xs) % 2 ^ k
      place = ap (masked k) r.head ∙ masked-wrap k (t + length xs) (omega (arith, r.small))

  -- `pop` returns the oldest value, and nothing exactly where the ring is empty.
  pub pop-IsRing :
      (k t : ℕ) (q : SpscQueue T) (xs : List T)
      → IsRing k t q xs
      → let (val, q') = pop k q in
        ((xs ≡ []) × (val ≡ none) × (q' ≡ q))
        ⊎ ((x : T) × (ys : List T) × (xs ≡ x ∷ ys) × (val ≡ some x) × IsRing k (t + 1) q' ys)
  unfolding pop
  pop-IsRing k t q [] r =
      let same : (q.head == q.tail) ≡ true = ground (arith, r.head, r.tail) in
      rw same (inl (refl, refl, refl))
  pop-IsRing k t q (x ∷ xs) r =
      let apart : (q.head == q.tail) ≡ false =
        ground (arith, r.head, r.tail, r.fits, capacity-lt k r.small) in
      let place : masked k q.tail ≡ t % 2 ^ k =
        ap (masked k) r.tail ∙ masked-wrap k t (omega (arith, r.small)) in
      rw apart (
        inr (
          x,
          xs,
          refl,
          ap some (ap q.slots place ∙ r.window.0),
          record {
            small = r.small;
            tail = omega (arith, r.tail);
            head = r.head ∙ ap (λ (y : ℕ). y % 2 ^ 64) (omega arith);
            fits = omega (arith, r.fits);
            window = r.window.1;
          },
        ))
