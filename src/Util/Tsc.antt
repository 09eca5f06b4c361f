-- ===== src/Util/Tsc.antt =====
-- include/lx/util/tsc.hpp: the arithmetic of the clock. `rdtscp` and `clock_gettime` are parameters, by
-- the values that they return.
pub mod Convert
use lite_exchange.Base.{
  ℕ, suc, zero, ◌+◌, ◌-◌, ◌*◌, ◌/◌, ◌%◌, ◌^◌, List, [], ◌∷◌, Option, none, some, ltb, if◌then◌else◌,
}
use Prim.Native.Nat.{bit_or}

-- NS_PER_SEC
abbrev pub ns_per_sec : ℕ
ns_per_sec = 1000000000

abbrev pub sample_ns : ℕ
sample_ns = 100000000

-- The two halves that the instruction leaves in 32-bit registers.
unfoldable pub rdtscp : ℕ → ℕ → ℕ
rdtscp hi lo = bit_or (hi * 2 ^ 32 % 2 ^ 64) lo

-- ticks * NS_PER_SEC / hz on 64 bits
unfoldable pub tsc_to_ns : ℕ → ℕ → ℕ
tsc_to_ns ticks hz = ticks * ns_per_sec % 2 ^ 64 / hz

-- A `timespec`.
pub record TimeSpec : Type 0 where
  pub tv_sec : ℕ
  pub tv_nsec : ℕ

-- The difference of two readings, on 64 bits: the nanoseconds of the second may be fewer.
unfoldable pub elapsed_ns : TimeSpec → TimeSpec → ℕ
elapsed_ns t0 t1 =
    ((t1.tv_sec + 2 ^ 64 - t0.tv_sec) * ns_per_sec + (t1.tv_nsec + 2 ^ 64 - t0.tv_nsec)) % 2 ^ 64

-- The wait of `tsc_hz`, over the readings of the clock: the first that is late enough.
unfoldable pub first_late : TimeSpec → List TimeSpec → Option TimeSpec
first_late t0 [] = none
first_late t0 (t1 ∷ ts) =
    let rest = first_late t0 ts in if ltb (elapsed_ns t0 t1) sample_ns then rest else some t1

-- `tsc_hz`, for the counts before and after the wait.
unfoldable pub tsc_hz : ℕ → ℕ → TimeSpec → List TimeSpec → Option ℕ
unfolding first_late
tsc_hz c0 c1 t0 ts = elim (first_late t0 ts) [
  | none ↦ none
  | some t1 ↦ some ((c1 + 2 ^ 64 - c0) * ns_per_sec % 2 ^ 64 / elapsed_ns t0 t1)
]
