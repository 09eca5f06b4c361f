-- ===== src/Queue/Spsc.antt =====
-- include/lx/queue/spsc.hpp: the ring of 2 ^ k slots, with counters that wrap at 64 bits. Here are
-- the two operations as one thread after the other runs them.
pub mod Slots
pub mod Fifo
pub mod Threads
use Prim.Native.Nat.{bit_and}
use lite_exchange.Base.{
  ℕ, ◌+◌, ◌-◌, ◌%◌, ◌^◌, Bool, true, false, Option, none, some, ltb, ◌==◌, if◌then◌else◌, update,
}

pub record SpscQueue {ℓ} (T : Type ℓ) : Type ℓ where
  pub head : ℕ
  pub tail : ℕ
  pub slots : ℕ → T

abbrev pub add64 : ℕ → ℕ → ℕ
add64 a b = (a + b) % 2 ^ 64

abbrev pub sub64 : ℕ → ℕ → ℕ
sub64 a b = (a + 2 ^ 64 - b) % 2 ^ 64

-- x & kMask
abbrev pub masked : ℕ → ℕ → ℕ
masked k x = bit_and x (2 ^ k - 1)

module _ {ℓ} {T : Type ℓ} where
  unfoldable pub init : T → SpscQueue T
  init zero_slot = record { head = 0; tail = 0; slots = λ _. zero_slot }

  unfoldable pub push : ℕ → T → SpscQueue T → Bool × SpscQueue T
  push k val q =
      let next = add64 q.head 1 in
      if ltb (2 ^ k) (sub64 next q.tail)
      then (false, q)
      else (true, record q { slots = update q.slots (masked k q.head) val; head = next })

  -- The value goes out through `val`.
  unfoldable pub pop : ℕ → SpscQueue T → Option T × SpscQueue T
  pop k q =
      if q.head == q.tail
      then (none, q)
      else (some (q.slots (masked k q.tail)), record q { tail = add64 q.tail 1 })
