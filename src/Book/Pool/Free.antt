-- ===== src/Book/Pool/Free.antt =====
-- include/lx/book/pool.hpp: the free stack and the slots in use make up the arena.
use lite_exchange.Base.{
  ℕ, zero, suc, ◌+◌, ◌-◌, ◌^◌, ◌≤◌, ◌<◌, ◌≡◌, refl, sym, ◌∙◌, ◌≢◌, ◌⊎◌, inl, inr, Bool, true, false,
  ◌==◌, if◌then◌else◌, arith, update, add32, Bool-cases, update_self, update_ne, ==_iff,
}
use lite_exchange.Book.Pool.{Pool, alloc, free, init, invalid_idx}

-- How many of the first `n` slots are in use.
abbrev pub live_count : (ℕ → Bool) → ℕ → ℕ
live_count live zero = 0
live_count live (suc n) = (if live n then 1 else 0) + live_count live n

-- The arena of capacity `n`, with the slots that are in use: the free stack holds the others, each
-- once, and as many as there are.
pub record IsPool {ℓ} {T : Type ℓ} (n : ℕ) (p : Pool T) (live : ℕ → Bool) : Type 0 where
  pub below : (k : ℕ) → k < p.free_top → p.free_list k < n
  pub unused : (k : ℕ) → k < p.free_top → live (p.free_list k) ≡ false
  pub once : (j k : ℕ) → j < k → k < p.free_top → p.free_list j ≢ p.free_list k
  pub kept : (x : ℕ) → x < n → live x ≡ false → (k : ℕ) × (k < p.free_top) × (p.free_list k ≡ x)
  pub total : p.free_top + live_count live n ≡ n

count-update_above :
    (live : ℕ → Bool) (n x : ℕ) (v : Bool)
    → n ≤ x
    → live_count (update live x v) n ≡ live_count live n
count-update_above live zero x v h = refl
count-update_above live (suc n) x v h = ground (arith, count-update_above live n x v (omega arith))

count-update :
    (live : ℕ → Bool) (n x : ℕ) (v : Bool)
    → x < n
    → live_count (update live x v) n + (if live x then 1 else 0)
      ≡ live_count live n + (if v then 1 else 0)
count-update live zero x v h = absurd (omega arith)
count-update live (suc n) x v h = elim (Bool-cases (n == x)) [
  | inl here ↦
      let e : n ≡ x = ground arith in
      rw e (ground (arith, count-update_above live x x v (omega arith)))
  | inr later ↦ ground (arith, count-update live n x v (ground arith))
]

still_below : (k t n : ℕ) → t < n → n < 2 ^ 32 → k < add32 t 1 → (k == t) ≡ false → k < t
still_below k t n h h' hk e = ground arith

top_grows : (k t n : ℕ) → t < n → n < 2 ^ 32 → k ≤ t → k < add32 t 1
top_grows k t n h h' hk = ground arith

count-le : (live : ℕ → Bool) (n : ℕ) → live_count live n ≤ n
count-le live zero = omega arith
count-le live (suc n) = ground (arith, count-le live n)

count-init : (n : ℕ) → live_count (λ _. false) n ≡ 0
count-init zero = refl
count-init (suc n) = ground (arith, count-init n)

module _ {ℓ} {T : Type ℓ} where
  -- A fresh arena has every slot free.
  pub init-IsPool : (n : ℕ) (zero_slot : T) → IsPool n (init n zero_slot) (λ _. false)
  unfolding init
  init-IsPool n zero_slot = record {
    below = λ k h. h;
    unused = λ k h. refl;
    once = λ j k h h'. omega arith;
    kept = λ x h e. (x, h, refl);
    total = omega (arith, count-init n);
  }

  -- `alloc` fails exactly when all slots are in use, and otherwise takes a slot that is in range and
  -- not in use.
  pub alloc-IsPool :
      (n : ℕ) {p : Pool T} {live : ℕ → Bool}
      → IsPool n p live
      → n < 2 ^ 32
      → let (slot, p') = alloc p in
        ((live_count live n ≡ n) × (slot ≡ invalid_idx) × (p' ≡ p))
        ⊎ ((slot < n) × (live slot ≡ false) × IsPool n p' (update live slot true))
  unfolding alloc
  alloc-IsPool n {p} {live} v h = elim (Bool-cases (p.free_top == 0)) [
    | inl full ↦ rw full (inl (ground (arith, v.total), refl, refl))
    | inr room ↦
        let last : p.free_top - 1 < p.free_top = ground arith in
        rw room (inr (v.below (p.free_top - 1) last, v.unused (p.free_top - 1) last, taken last))
  ]
    where
      taken :
          p.free_top - 1 < p.free_top
          → IsPool n
              (record p { free_top = p.free_top - 1 })
              (update live (p.free_list (p.free_top - 1)) true)
      taken last = record {
        below = λ k h. v.below k (omega arith);
        unused = λ k h. ground (arith, v.unused k (omega arith), v.once k (p.free_top - 1) h last);
        once = λ j k h h'. v.once j k h (omega arith);
        kept = λ x h e.
            let was : live x ≡ false = ground arith in
            let (k, hk, ek) = v.kept x h was in (k, ground arith, ek);
        total = ground (
          arith,
          v.total,
          v.unused (p.free_top - 1) last,
          count-update live n (p.free_list (p.free_top - 1)) true (v.below (p.free_top - 1) last),
        );
      }

  -- `free` of a slot in use stays within the stack, returns the slot and starts its next generation.
  pub free-IsPool :
      (n : ℕ) {p : Pool T} {live : ℕ → Bool} (idx : ℕ)
      → IsPool n p live
      → n < 2 ^ 32
      → idx < n
      → live idx ≡ true
      → (p.free_top < n)
        × ((free idx p).gen idx ≡ add32 (p.gen idx) 1)
        × IsPool n (free idx p) (update live idx false)
  unfolding free
  free-IsPool n {p} {live} idx v h hi e = (
    room,
    ground arith,
    record {
      below = λ k hk. elim (Bool-cases (k == p.free_top)) [
        | inl new ↦ rw new hi
        | inr old ↦ rw old (v.below k (still_below k p.free_top n room h hk old))
      ];
      unused = λ k hk. ground (arith, v.unused k);
      once = λ j k hj hk. ground (arith, v.once j k, v.unused j, v.unused k);
      kept = λ x hx ex. elim (Bool-cases (x == idx)) [
        | inl new ↦ returned x new
        | inr old ↦
            let (k, hk, ek) = v.kept x hx (ground arith) in
            (
              k,
              top_grows k p.free_top n room h (omega arith),
              update_ne p.free_list p.free_top idx k (omega arith) ∙ ek,
            )
      ];
      total = ground (arith, v.total, count-update live n idx false hi);
    },
  )
    where
      room : p.free_top < n
      room = ground (arith, v.total, count-update live n idx false hi)

      returned :
          (x : ℕ)
          → (x == idx) ≡ true
          → (k : ℕ) × (k < add32 p.free_top 1) × (update p.free_list p.free_top idx k ≡ x)
      returned x new =
          let same : idx ≡ x = sym ((==_iff x idx).0 new) in
          (
            p.free_top,
            top_grows p.free_top p.free_top n room h (omega arith),
            update_self p.free_list p.free_top idx ∙ same,
          )
