-- ===== src/Util/Tsc/Convert.antt =====
-- include/lx/util/tsc.hpp: where the conversion is exact.
use lite_exchange.Base.{
  ℕ, ◌+◌, ◌-◌, ◌*◌, ◌/◌, ◌%◌, ◌^◌, ◌≤◌, ◌<◌, ◌≡◌, refl, ◌∙◌, ap, arith, some, List, [], ◌∷◌,
  Bool-cases, Option-cases, ltb, inl, inr,
}
use native.Mathlib.Nat.{div-add-mod, mod-lt, div-eq_of_lt}
use lite_exchange.Util.Tsc.{
  tsc_to_ns, ns_per_sec, sample_ns, TimeSpec, elapsed_ns, first_late, tsc_hz,
}

round_down : (x d : ℕ) → 0 < d → (x / d * d ≤ x) × (x < (x / d + 1) * d)
round_down x d h = (grind (arith, div-add-mod x d), grind (arith, div-add-mod x d, mod-lt x h))

-- Up to 18446744073 ticks (some seconds) the nanoseconds are those of the ticks, rounded down.
pub tsc_to_ns_lem :
    (ticks hz : ℕ)
    → 0 < hz
    → ticks ≤ 18446744073
    → (tsc_to_ns ticks hz * hz ≤ ticks * ns_per_sec)
      × (ticks * ns_per_sec < (tsc_to_ns ticks hz + 1) * hz)
unfolding tsc_to_ns
tsc_to_ns_lem ticks hz h b = rw whole (round_down (ticks * ns_per_sec) hz h)
  where
    whole : ticks * ns_per_sec % 2 ^ 64 ≡ ticks * ns_per_sec
    whole = omega arith

-- One more tick, and the product wraps: at any frequency above 1 GHz the result is 0.
pub tsc_to_ns-wraps : (hz : ℕ) → ns_per_sec < hz → tsc_to_ns 18446744074 hz ≡ 0
unfolding tsc_to_ns
tsc_to_ns-wraps hz h = ap (λ (x : ℕ). x / hz) wrapped ∙ div-eq_of_lt (omega arith)
  where
    wrapped : 18446744074 * ns_per_sec % 2 ^ 64 ≡ 290448384
    wrapped = refl

late :
    (t0 : TimeSpec) (ts : List TimeSpec) (t1 : TimeSpec)
    → first_late t0 ts ≡ some t1
    → sample_ns ≤ elapsed_ns t0 t1
unfolding first_late
late t0 [] t1 e = cc
late t0 (t ∷ ts) t1 e = elim (Bool-cases (ltb (elapsed_ns t0 t) sample_ns)) [
  | inl h ↦ late t0 ts t1 (ground (arith, h, e))
  | inr h ↦ ground (arith, h, e)
]

-- A frequency that `tsc_hz` returns is that of the counts over a wait of 100 ms at least, rounded down, if
-- the counts did not differ by more than 18446744073 ticks.
tsc_hz_lem :
    (c0 ticks : ℕ) (t0 : TimeSpec) (ts : List TimeSpec) (hz : ℕ)
    → c0 < 2 ^ 64
    → ticks ≤ 18446744073
    → tsc_hz c0 ((c0 + ticks) % 2 ^ 64) t0 ts ≡ some hz
    → (ns : ℕ) × (sample_ns ≤ ns)
      × (hz * ns ≤ ticks * ns_per_sec)
      × (ticks * ns_per_sec < (hz + 1) * ns)
unfolding tsc_hz
tsc_hz_lem c0 ticks t0 ts hz h b e = elim (Option-cases (first_late t0 ts)) [
  | inl g ↦ ground (arith, g, e)
  | inr (t1, g) ↦
      let long = late t0 ts t1 g in
      let same : ticks * ns_per_sec / elapsed_ns t0 t1 ≡ hz = ground (arith, g, e, difference) in
      let r = rw same at (round_down (ticks * ns_per_sec) (elapsed_ns t0 t1) (omega arith)) in
      (elapsed_ns t0 t1, long, r.0, r.1)
]
  where
    difference : ((c0 + ticks) % 2 ^ 64 + 2 ^ 64 - c0) * ns_per_sec % 2 ^ 64 ≡ ticks * ns_per_sec
    difference = omega arith
