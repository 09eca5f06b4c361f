-- ===== src/Base/Bits.antt =====
-- The bits of the results of `|`, `&` and `~`, at every width, from the digit recursion that the
-- native operations stand for.
use Prim.Native.Nat.{
  ℕ, zero, suc, ◌+◌, ◌-◌, ◌*◌, ◌/◌, ◌%◌, ◌^◌, ◌≤◌, ◌<◌, min, max, digits, bit_and, bit_or,
  bit_and-bitwise, bit_or-bitwise,
}
use mathlib.Core.Path.{◌≡◌, refl, ap}
use native.Mathlib.Nat.{pow-suc}
use native.Mathlib.Omega.{arith}
use lite_exchange.Base.Tests.{◌==◌, ltb, if◌then◌else◌}

-- Bit `i` of a number.
abbrev pub bit_at : ℕ → ℕ → ℕ
bit_at x zero = x % 2
bit_at x (suc i) = bit_at (x / 2) i

pub bit_at-lt : (x i : ℕ) → bit_at x i < 2
bit_at-lt x zero = omega arith
bit_at-lt x (suc i) = bit_at-lt (x / 2) i

module _ (z : ℕ → ℕ) (f : ℕ → ℕ → ℕ) where
  -- Fuel above the number adds nothing.
  digits-eq : (k m a b : ℕ) → a ≤ k → a ≤ m → digits z f k a b ≡ digits z f m a b
  digits-eq zero m (suc a) b p q = absurd (omega arith)
  digits-eq (suc k) zero (suc a) b p q = absurd (omega arith)
  digits-eq zero zero zero b p q = refl
  digits-eq zero (suc m) zero b p q = refl
  digits-eq (suc k) zero zero b p q = refl
  digits-eq (suc k) (suc m) zero b p q = refl
  digits-eq (suc k) (suc m) (suc a) b p q =
      rw (digits-eq k m (suc a / 2) (b / 2) (omega arith) (omega arith))

pub bit_or_halves : (a b : ℕ) → bit_or a b ≡ bit_or (a / 2) (b / 2) * 2 + max (a % 2) (b % 2)
bit_or_halves zero b = omega (arith, bit_or-bitwise 0 b, bit_or-bitwise 0 (b / 2))
bit_or_halves (suc a) b = omega (
  arith,
  bit_or-bitwise (suc a) b,
  bit_or-bitwise (suc a / 2) (b / 2),
  digits-eq (λ y. y) max a (suc a / 2) (suc a / 2) (b / 2) (omega arith) (omega arith),
)

pub bit_and_halves : (a b : ℕ) → bit_and a b ≡ bit_and (a / 2) (b / 2) * 2 + min (a % 2) (b % 2)
bit_and_halves zero b = omega (bit_and-bitwise 0 (b / 2), bit_and-bitwise 0 b, arith)
bit_and_halves (suc a) b = omega (
  arith,
  digits-eq (λ y. 0) min a (suc a / 2) (suc a / 2) (b / 2) (omega arith) (omega arith),
  bit_and-bitwise (suc a / 2) (b / 2),
  bit_and-bitwise (suc a) b,
)

half-bit_or : (a b : ℕ) → bit_or a b / 2 ≡ bit_or (a / 2) (b / 2)
half-bit_or a b = omega (arith, bit_or_halves a b)

half-bit_and : (a b : ℕ) → bit_and a b / 2 ≡ bit_and (a / 2) (b / 2)
half-bit_and a b = omega (arith, bit_and_halves a b)

pub bit_at-bit_or : (i a b : ℕ) → bit_at (bit_or a b) i ≡ max (bit_at a i) (bit_at b i)
bit_at-bit_or zero a b = omega (arith, bit_or_halves a b)
bit_at-bit_or (suc i) a b = rw (half-bit_or a b) (bit_at-bit_or i (a / 2) (b / 2))

pub bit_at-bit_and : (i a b : ℕ) → bit_at (bit_and a b) i ≡ min (bit_at a i) (bit_at b i)
bit_at-bit_and zero a b = omega (arith, bit_and_halves a b)
bit_at-bit_and (suc i) a b = rw (half-bit_and a b) (bit_at-bit_and i (a / 2) (b / 2))

pub bit_or-lt : (w a b : ℕ) → a < 2 ^ w → b < 2 ^ w → bit_or a b < 2 ^ w
bit_or-lt zero zero zero p q = omega arith
bit_or-lt zero (suc a) b p q = absurd (omega arith)
bit_or-lt zero zero (suc b) p q = absurd (omega arith)
bit_or-lt (suc w) a b p q =
    let ih =
      bit_or-lt w (a / 2) (b / 2) (omega (arith, pow-suc 2 w)) (omega (arith, pow-suc 2 w)) in
    omega (arith, pow-suc 2 w, bit_or_halves a b)

pub bit_and-lt : (w a b : ℕ) → a < 2 ^ w → bit_and a b < 2 ^ w
bit_and-lt zero zero b p = omega (arith, bit_and-bitwise 0 b)
bit_and-lt zero (suc a) b p = absurd (omega arith)
bit_and-lt (suc w) a b p =
    let ih = bit_and-lt w (a / 2) (b / 2) (omega (arith, pow-suc 2 w)) in
    omega (arith, pow-suc 2 w, bit_and_halves a b)

pub bit_at-zero : (i : ℕ) → bit_at 0 i ≡ 0
bit_at-zero zero = refl
bit_at-zero (suc i) = bit_at-zero i

bit_and-zero_below : (bound a : ℕ) → a < suc bound → bit_and a 0 ≡ 0
bit_and-zero_below zero zero below = refl
bit_and-zero_below zero (suc a) below = absurd (omega arith)
bit_and-zero_below (suc bound) a below =
    omega (arith, bit_and-zero_below bound (a / 2) (omega arith), bit_and_halves a 0)

half-pow : (k : ℕ) → 2 ^ suc k / 2 ≡ 2 ^ k
half-pow k = omega (arith, pow-suc 2 k)

pub bit_and-lt_right : (w a b : ℕ) → b < 2 ^ w → bit_and a b < 2 ^ w
bit_and-lt_right zero a zero p = ground (arith, bit_and-zero_below a a (omega arith))
bit_and-lt_right zero a (suc b) p = absurd (omega arith)
bit_and-lt_right (suc w) a b p =
    let ih = bit_and-lt_right w (a / 2) (b / 2) (omega (arith, pow-suc 2 w)) in
    omega (arith, pow-suc 2 w, bit_and_halves a b)

-- `x & (1 << k)` is the bit at its place.
pub bit_and-pow : (k x : ℕ) → bit_and x (2 ^ k) ≡ bit_at x k * 2 ^ k
bit_and-pow zero x =
    omega (arith, bit_and_halves x 1, bit_and-zero_below (x / 2) (x / 2) (omega arith))
bit_and-pow (suc k) x = omega (
  arith,
  pow-suc 2 k,
  bit_and_halves x (2 ^ suc k),
  ap (bit_and (x / 2)) (half-pow k),
  bit_and-pow k (x / 2),
  ap (λ (t : ℕ). bit_at (x / 2) k * t) (pow-suc 2 k),
)

pub bit_at-pow : (k i : ℕ) → bit_at (2 ^ k) i ≡ (if i == k then 1 else 0)
bit_at-pow zero zero = refl
bit_at-pow zero (suc i) = ground (arith, bit_at-zero i)
bit_at-pow (suc k) zero = ground (arith, pow-suc 2 k)
bit_at-pow (suc k) (suc i) = rw (half-pow k) (ground (arith, bit_at-pow k i))

pub one-le-pow : (k : ℕ) → 1 ≤ 2 ^ k
one-le-pow zero = omega arith
one-le-pow (suc k) = omega (arith, pow-suc 2 k, one-le-pow k)

-- 2 ^ k - 1 has the low `k` bits.
pub bit_at-ones : (k i : ℕ) → bit_at (2 ^ k - 1) i ≡ (if ltb i k then 1 else 0)
bit_at-ones zero i = rw (bit_at-zero i) (ground arith)
bit_at-ones (suc k) zero = ground (arith, pow-suc 2 k, one-le-pow k)
bit_at-ones (suc k) (suc i) = rw half (ground (arith, bit_at-ones k i))
  where
    half : (2 ^ suc k - 1) / 2 ≡ 2 ^ k - 1
    half = omega (arith, pow-suc 2 k, one-le-pow k)

-- The complement at width `w`.
pub bit_at-complement : (w i x : ℕ) → x < 2 ^ w → i < w → bit_at (2 ^ w - 1 - x) i ≡ 1 - bit_at x i
bit_at-complement zero i x p q = absurd (omega arith)
bit_at-complement (suc w) zero x p q = omega (arith, pow-suc 2 w)
bit_at-complement (suc w) (suc i) x p q =
    rw half (bit_at-complement w i (x / 2) (omega (arith, pow-suc 2 w)) (omega arith))
  where
    half : (2 ^ suc w - 1 - x) / 2 ≡ 2 ^ w - 1 - x / 2
    half = omega (arith, pow-suc 2 w, one-le-pow w)

-- A number below 2 ^ (w + 1) whose bit `w` is clear is below 2 ^ w.
pub lt-pow_of_bit : (w x : ℕ) → x < 2 ^ suc w → bit_at x w ≡ 0 → x < 2 ^ w
lt-pow_of_bit zero x p e = omega arith
lt-pow_of_bit (suc w) x p e =
    let ih = lt-pow_of_bit w (x / 2) (omega (arith, pow-suc 2 (suc w))) e in
    omega (arith, pow-suc 2 w)
