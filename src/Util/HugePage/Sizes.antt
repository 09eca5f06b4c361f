-- ===== src/Util/HugePage/Sizes.antt =====
-- include/lx/util/huge_page.hpp: the pages hold the array.
use lite_exchange.Base.{
  ℕ, ◌+◌, ◌-◌, ◌*◌, ◌/◌, ◌%◌, ◌^◌, ◌≤◌, ◌<◌, ◌≡◌, ◌∙◌, ap, ◌⊎◌, inl, inr, arith, Bool, true, false,
  Option, none, some, bit_and-high, one-le-pow, Option-cases,
}
use native.Mathlib.Nat.{
  mod-lt, mod-eq_of_lt, mod-le, div-add-mod, mul-add-mod_self_left, pow-le-pow_right,
}
use Prim.Native.Nat.{bit_and}
use lite_exchange.Util.HugePage.{
  align_up, array_bytes, map_bytes, map_pages, huge_page_size, Mapping,
}

multiple : (m x : ℕ) → 0 < m → (x - x % m) % m ≡ 0
multiple m x h = ap (λ (y : ℕ). y % m) whole ∙ mul-add-mod_self_left m (x / m) 0 ∙ mod-eq_of_lt h
  where
    whole : x - x % m ≡ m * (x / m) + 0
    whole = grind (arith, div-add-mod x m)

-- For a power of two, `align_up` is the least multiple at or above a size, if the sum fits 64 bits.
pub align_up_lem :
    (k n : ℕ)
    → k < 64
    → n + 2 ^ k ≤ 2 ^ 64
    → let r = align_up n (2 ^ k) in (r % 2 ^ k ≡ 0) × (n ≤ r) × (r < n + 2 ^ k)
unfolding align_up
align_up_lem k n h fits = rw rounded (
  multiple (2 ^ k) (n + 2 ^ k - 1) (one-le-pow k),
  omega (arith, bound),
  omega (arith, bound, mod-le (n + 2 ^ k - 1) (2 ^ k), one-le-pow k),
)
  where
    bound : (n + 2 ^ k - 1) % 2 ^ k < 2 ^ k
    bound = mod-lt (n + 2 ^ k - 1) (one-le-pow k)

    small : 2 ^ k ≤ 2 ^ 63
    small = pow-le-pow_right (omega arith) {j = 63} (omega arith)

    total : (n + 2 ^ k + 2 ^ 64 - 1) % 2 ^ 64 ≡ n + 2 ^ k - 1
    total = omega (arith, one-le-pow k)

    mask : 2 ^ 64 - 1 - (2 ^ k + 2 ^ 64 - 1) % 2 ^ 64 ≡ 2 ^ 64 - 2 ^ k
    mask = omega (arith, one-le-pow k)

    rounded :
        bit_and ((n + 2 ^ k + 2 ^ 64 - 1) % 2 ^ 64) (2 ^ 64 - 1 - (2 ^ k + 2 ^ 64 - 1) % 2 ^ 64)
        ≡ n + 2 ^ k - 1 - (n + 2 ^ k - 1) % 2 ^ k
    rounded =
        ap (λ (x : ℕ). bit_and x (2 ^ 64 - 1 - (2 ^ k + 2 ^ 64 - 1) % 2 ^ 64)) total
        ∙ ap (λ (x : ℕ). bit_and (n + 2 ^ k - 1) x) mask
        ∙ bit_and-high 64 k (n + 2 ^ k - 1) (omega arith) (omega arith)

-- What the constructor promises of an array of `total` bytes, where it asks for `wanted`.
abbrev pub Held : (Bool → ℕ → Option ℕ) → ℕ → ℕ → Option Mapping → Type 0
Held mmap total wanted (some m) =
    (total ≤ m.bytes)
    × (m.bytes % huge_page_size ≡ 0)
    × ((mmap true m.bytes ≡ some m.ptr) ⊎ (mmap false m.bytes ≡ some m.ptr))
Held mmap total wanted none = (mmap true wanted ≡ none) × (mmap false wanted ≡ none)

map_bytes-Held :
    (mmap : Bool → ℕ → Option ℕ) (total b : ℕ)
    → total ≤ b
    → b % huge_page_size ≡ 0
    → Held mmap total b (map_bytes mmap b)
unfolding map_bytes
map_bytes-Held mmap total b h m = elim (Option-cases (mmap true b)) [
  | inr (p, e) ↦ rw (e, Held) (h, m, inl e)
  | inl e ↦ elim (Option-cases (mmap false b)) [
    | inr (p, g) ↦ rw (e, g, Held) (h, m, inr g)
    | inl g ↦ rw (e, g, Held) (e, g)
  ]
]

-- Where the array and a huge page more fit 64 bits, the constructor holds pages that the kernel gave, whole
-- huge pages and no fewer bytes than the array has, or throws after the kernel refused both kinds.
pub map_pages-Held :
    (mmap : Bool → ℕ → Option ℕ) (n size : ℕ)
    → n * size + 2 ^ 21 ≤ 2 ^ 64
    → Held mmap (n * size) (align_up (array_bytes n size) huge_page_size) (map_pages mmap n size)
unfolding map_pages
map_pages-Held mmap n size fits =
    map_bytes-Held mmap (n * size) (align_up (array_bytes n size) huge_page_size)
      (omega (arith, r.1, total)) r.0
  where
    total : n * size % 2 ^ 64 ≡ n * size
    total = omega arith

    r :
        let b = align_up (array_bytes n size) huge_page_size in
        (b % 2 ^ 21 ≡ 0) × (n * size % 2 ^ 64 ≤ b) × (b < n * size % 2 ^ 64 + 2 ^ 21)
    r = align_up_lem 21 (array_bytes n size) (omega arith) (omega (arith, total))
