-- ===== src/Base/Masks.antt =====
-- Masks of the low and of the high bits, and remainders by powers of two.
use Prim.Native.Nat.{ℕ, zero, suc, ◌+◌, ◌-◌, ◌*◌, ◌/◌, ◌%◌, ◌^◌, ◌≤◌, ◌<◌, min, bit_and, bit_or}
use mathlib.Core.Path.{◌≡◌, refl, sym, ap, ◌∙◌}
use native.Mathlib.Nat.{pow-suc, mod-eq_of_lt, mul-add-mod_self_left, div-add-mod, mod-lt, mod-le}
use native.Mathlib.Omega.{arith}
use lite_exchange.Base.Bits.{bit_and_halves, bit_or_halves, bit_and-lt_right, one-le-pow}

-- The lowest bit apart.
mod-double : (p x : ℕ) → 0 < p → x % (p * 2) ≡ x / 2 % p * 2 + x % 2
mod-double p x h =
    ap (λ (y : ℕ). y % (p * 2)) whole
    ∙ mul-add-mod_self_left (p * 2) (x / 2 / p) (x / 2 % p * 2 + x % 2)
    ∙ mod-eq_of_lt (omega (arith, mod-lt (x / 2) h))
  where
    whole : x ≡ p * 2 * (x / 2 / p) + (x / 2 % p * 2 + x % 2)
    whole = grind (arith, div-add-mod (x / 2) p)

pub bit_and-mask : (k x : ℕ) → bit_and x (2 ^ k - 1) ≡ x % 2 ^ k
bit_and-mask zero x = omega (arith, bit_and-lt_right 0 x 0 (omega arith))
bit_and-mask (suc k) x =
    bit_and_halves x (2 ^ suc k - 1)
    ∙ ap (λ (m : ℕ). bit_and (x / 2) m * 2 + min (x % 2) ((2 ^ suc k - 1) % 2)) half
    ∙ omega (
      arith,
      bit_and-mask k (x / 2),
      mod-double (2 ^ k) x (one-le-pow k),
      pow-suc 2 k,
      one-le-pow k,
      ap (λ (m : ℕ). x % m) (pow-suc 2 k),
    )
  where
    half : (2 ^ suc k - 1) / 2 ≡ 2 ^ k - 1
    half = omega (arith, pow-suc 2 k, one-le-pow k)

pub mod-mul : (x m n : ℕ) → x % (m * n) % m ≡ x % m
mod-mul x m n =
    sym (mul-add-mod_self_left m (n * (x / (m * n))) (x % (m * n)))
    ∙ ap (λ (y : ℕ). y % m) (grind (arith, div-add-mod x (m * n)))

pub pow-add : (k m : ℕ) → 2 ^ (k + m) ≡ 2 ^ k * 2 ^ m
pow-add k zero = ap (λ (e : ℕ). 2 ^ e) none ∙ omega arith
  where
    none : k + 0 ≡ k
    none = omega arith
pow-add k (suc m) = grind (arith, pow-suc 2 (k + m), pow-suc 2 m, pow-add k m)

-- The mask of all but the low `k` of `w` bits rounds down to a multiple of 2 ^ k.
pub bit_and-high : (w k x : ℕ) → k ≤ w → x < 2 ^ w → bit_and x (2 ^ w - 2 ^ k) ≡ x - x % 2 ^ k
bit_and-high w zero x h b = bit_and-mask w x ∙ mod-eq_of_lt b ∙ omega arith
bit_and-high zero (suc k) x h b = absurd (omega arith)
bit_and-high (suc w) (suc k) x h b =
    bit_and_halves x (2 ^ suc w - 2 ^ suc k)
    ∙ ap (λ (m : ℕ). bit_and (x / 2) m * 2 + min (x % 2) ((2 ^ suc w - 2 ^ suc k) % 2)) half
    ∙ omega (
      arith,
      bit_and-high w k (x / 2) (omega arith) (omega (arith, pow-suc 2 w)),
      mod-double (2 ^ k) x (one-le-pow k),
      pow-suc 2 k,
      pow-suc 2 w,
      mod-lt (x / 2) (one-le-pow k),
      ap (λ (m : ℕ). x % m) (pow-suc 2 k),
      mod-le (x / 2) (2 ^ k),
    )
  where
    half : (2 ^ suc w - 2 ^ suc k) / 2 ≡ 2 ^ w - 2 ^ k
    half = omega (arith, pow-suc 2 k, pow-suc 2 w)

bit_or-zero : (fuel a : ℕ) → a ≤ fuel → bit_or a 0 ≡ a
bit_or-zero zero zero h = refl
bit_or-zero zero (suc a) h = absurd (omega arith)
bit_or-zero (suc fuel) a h =
    omega (arith, bit_or_halves a 0, bit_or-zero fuel (a / 2) (omega arith))

shift-suc : (w a : ℕ) → a * 2 ^ suc w ≡ a * 2 ^ w * 2
shift-suc w a = grind (arith, pow-suc 2 w)

half_shift : (w a : ℕ) → a * 2 ^ suc w / 2 ≡ a * 2 ^ w
half_shift w a = omega (arith, shift-suc w a)

-- Fields that do not overlap: `bit_or` is their sum.
pub bit_or-disjoint : (w a b : ℕ) → b < 2 ^ w → bit_or (a * 2 ^ w) b ≡ a * 2 ^ w + b
bit_or-disjoint zero a zero h = omega (arith, bit_or-zero (a * 1) (a * 1) (omega arith))
bit_or-disjoint zero a (suc b) h = absurd (omega arith)
bit_or-disjoint (suc w) a b h = omega (
  arith,
  bit_or_halves (a * 2 ^ suc w) b,
  shift-suc w a,
  ap (λ (x : ℕ). bit_or x (b / 2)) (half_shift w a),
  bit_or-disjoint w a (b / 2) (omega (arith, pow-suc 2 w)),
)
