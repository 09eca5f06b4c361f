-- ===== src/Book/OrderHandle.antt =====
-- `OrderHandle` of include/lx/book/order_book.hpp: a slot with its generation, and the cancel token
-- that carries both.
pub mod Token
use Prim.Native.Nat.{bit_or}
use lite_exchange.Base.{ℕ, ◌*◌, ◌/◌, ◌%◌, ◌^◌, Bool, not, ◌==◌, uint32_max}

pub record OrderHandle : Type 0 where
  pub slot : ℕ
  pub gen : ℕ

abbrev pub invalid : ℕ
invalid = uint32_max

-- `OrderHandle{}`
abbrev pub none_handle : OrderHandle
none_handle = record { slot = invalid; gen = 0 }

abbrev pub valid : OrderHandle → Bool
valid h = not (h.slot == invalid)

-- x << 56 and x << 24 on 64 bits; `& 0xFFFFFF` keeps the low 24 bits.
unfoldable pub to_token : ℕ → OrderHandle → ℕ
to_token shard h =
    bit_or (bit_or (shard * 2 ^ 56 % 2 ^ 64) (h.gen * 2 ^ 24 % 2 ^ 64)) (h.slot % 2 ^ 24)

unfoldable pub from_token : ℕ → OrderHandle
from_token token = record { slot = token % 2 ^ 24; gen = token / 2 ^ 24 % 2 ^ 32 }

unfoldable pub token_shard : ℕ → ℕ
token_shard token = token / 2 ^ 56 % 2 ^ 8
