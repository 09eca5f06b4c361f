-- ===== src/Queue/Spsc/Slots.antt =====
-- The places of the ring of include/lx/queue/spsc.hpp: counters masked to the capacity.
use lite_exchange.Base.{
  ℕ, ◌+◌, ◌-◌, ◌*◌, ◌%◌, ◌^◌, ◌≤◌, ◌<◌, ◌≡◌, sym, ◌∙◌, ap, ◌≢◌, inl, inr, arith, leb, leb→le,
  Bool-cases, false, bit_and-mask, mod-mul, pow-add,
}
use lite_exchange.Queue.Spsc.{masked}
use native.Mathlib.Nat.{mod-eq_of_lt, mod-lt, mod-add-mod, mod-eq-sub-mod}

-- The wrap of a counter at 64 bits does not show in its place.
pub masked-wrap : (k t : ℕ) → k ≤ 64 → masked k (t % 2 ^ 64) ≡ t % 2 ^ k
masked-wrap k t h =
    bit_and-mask k (t % 2 ^ 64)
    ∙ ap (λ (m : ℕ). t % m % 2 ^ k) split
    ∙ mod-mul t (2 ^ k) (2 ^ (64 - k))
  where
    split : 2 ^ 64 ≡ 2 ^ k * 2 ^ (64 - k)
    split = ap (λ (e : ℕ). 2 ^ e) all ∙ pow-add k (64 - k)
      where
        all : 64 ≡ k + (64 - k)
        all = omega arith

-- Less than a lap apart, two counters have different places.
pub place-ne : (m t i j : ℕ) → i < j → j < i + m → (t + i) % m ≢ (t + j) % m
place-ne m t i j h h' e = elim (Bool-cases (leb m (a + (j - i)))) [
  | inr low ↦ absurd (omega (arith, e, a-lt, sym (mod-eq_of_lt (low-lt low)) ∙ same))
  | inl high ↦ absurd (
      omega (
        arith,
        a-lt,
        sym (mod-eq_of_lt wrapped-lt) ∙ sym (mod-eq-sub-mod (leb→le m (a + (j - i)) high)) ∙ same,
        leb→le m (a + (j - i)) high,
      ))
]
  where
    a : ℕ
    a = (t + i) % m

    a-lt : a < m
    a-lt = mod-lt (t + i) (omega arith)

    same : (a + (j - i)) % m ≡ a
    same = mod-add-mod (t + i) m (j - i) ∙ ap (λ (y : ℕ). y % m) later ∙ sym e
      where
        later : t + i + (j - i) ≡ t + j
        later = omega arith

    low-lt : leb m (a + (j - i)) ≡ false → a + (j - i) < m
    low-lt low = ground arith

    wrapped-lt : a + (j - i) - m < m
    wrapped-lt = omega (arith, a-lt)
