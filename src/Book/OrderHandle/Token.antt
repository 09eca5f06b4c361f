-- ===== src/Book/OrderHandle/Token.antt =====
-- The cancel token of include/lx/book/order_book.hpp carries the shard, the generation and the slot.
use Prim.Native.Nat.{bit_or}
use lite_exchange.Base.{ℕ, ◌+◌, ◌*◌, ◌/◌, ◌%◌, ◌^◌, ◌<◌, ◌≡◌, refl, ◌∙◌, ap, arith, bit_or-disjoint}
use lite_exchange.Book.OrderHandle.{OrderHandle, to_token, from_token, token_shard}

-- The layout of a token: 8 bits of the shard, 32 of the generation, 24 of the slot.
token-sum :
    (shard : ℕ) (h : OrderHandle)
    → shard < 2 ^ 8
    → h.gen < 2 ^ 32
    → to_token shard h ≡ shard * 2 ^ 56 + h.gen * 2 ^ 24 + h.slot % 2 ^ 24
unfolding to_token
token-sum shard h hs hg =
    let high : shard * 2 ^ 56 % 2 ^ 64 ≡ shard * 2 ^ 56 = omega arith in
    let mid : h.gen * 2 ^ 24 % 2 ^ 64 ≡ h.gen * 2 ^ 24 = omega arith in
    let both : shard * 2 ^ 56 + h.gen * 2 ^ 24 ≡ (shard * 2 ^ 32 + h.gen) * 2 ^ 24 = omega arith in
    ap (λ (x : ℕ). bit_or (bit_or x (h.gen * 2 ^ 24 % 2 ^ 64)) (h.slot % 2 ^ 24)) high
    ∙ ap (λ (x : ℕ). bit_or (bit_or (shard * 2 ^ 56) x) (h.slot % 2 ^ 24)) mid
    ∙ ap (λ (x : ℕ). bit_or x (h.slot % 2 ^ 24))
        (bit_or-disjoint 56 shard (h.gen * 2 ^ 24) (omega arith))
    ∙ ap (λ (x : ℕ). bit_or x (h.slot % 2 ^ 24)) both
    ∙ bit_or-disjoint 24 (shard * 2 ^ 32 + h.gen) (h.slot % 2 ^ 24) (omega arith)
    ∙ omega arith

-- A handle comes back from its token, and so does its shard, where the slot fits 24 bits.
pub from_token-to_token :
    (shard : ℕ) (h : OrderHandle)
    → shard < 2 ^ 8
    → h.gen < 2 ^ 32
    → h.slot < 2 ^ 24
    → (from_token (to_token shard h) ≡ h) × (token_shard (to_token shard h) ≡ shard)
unfolding from_token token_shard
from_token-to_token shard h hs hg hl = rw (token-sum shard h hs hg) (back, omega arith)
  where
    sum : ℕ
    sum = shard * 2 ^ 56 + h.gen * 2 ^ 24 + h.slot % 2 ^ 24

    slot_back : sum % 2 ^ 24 ≡ h.slot
    slot_back = omega arith

    gen_back : sum / 2 ^ 24 % 2 ^ 32 ≡ h.gen
    gen_back = omega arith

    pair : (s g : ℕ) → s ≡ h.slot → g ≡ h.gen → record { slot = s; gen = g } ≡ h
    pair s g e e' = rw (e, e') refl

    back : record { slot = sum % 2 ^ 24; gen = sum / 2 ^ 24 % 2 ^ 32 } ≡ h
    back = pair _ _ slot_back gen_back
