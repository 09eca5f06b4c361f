-- ===== src/Net/UringGateway/Tags.antt =====
-- include/lx/net/uring_gateway.hpp: the operation and its descriptor or slot come back from the user data.
use Prim.Native.Nat.{bit_or}
use lite_exchange.Base.{
  ℕ, ◌+◌, ◌*◌, ◌/◌, ◌%◌, ◌^◌, ◌<◌, ◌≡◌, ◌∙◌, ap, arith, bit_or-disjoint, bit_and-mask,
}
use lite_exchange.Net.UringGateway.{tag, tag_op, tag_payload}

pub tag-sum :
    (op payload : ℕ) → op < 2 ^ 8 → payload < 2 ^ 56 → tag op payload ≡ op * 2 ^ 56 + payload
unfolding tag
tag-sum op payload ho hp = ap (λ (x : ℕ). bit_or x payload) high ∙ bit_or-disjoint 56 op payload hp
  where
    high : op * 2 ^ 56 % 2 ^ 64 ≡ op * 2 ^ 56
    high = omega arith

-- For a byte of the operation and 56 bits of the rest.
pub tag_payload-tag :
    (op payload : ℕ)
    → op < 2 ^ 8
    → payload < 2 ^ 56
    → (tag_op (tag op payload) ≡ op) × (tag_payload (tag op payload) ≡ payload)
unfolding tag_op tag_payload
tag_payload-tag op payload ho hp = (
  ap (λ (x : ℕ). x / 2 ^ 56) (tag-sum op payload ho hp) ∙ omega arith,
  bit_and-mask 56 (tag op payload)
      ∙ ap (λ (x : ℕ). x % 2 ^ 56) (tag-sum op payload ho hp)
      ∙ omega arith,
)
