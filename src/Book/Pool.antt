-- ===== src/Book/Pool.antt =====
-- include/lx/book/pool.hpp: the index arena with its free stack and generations, for any capacity.
-- The `assert` of `free` and of the subscript is not part of it.
pub mod Free
pub mod Ages
use lite_exchange.Base.{ℕ, ◌+◌, ◌-◌, ◌==◌, if◌then◌else◌, update, add32, sub32, uint32_max}

-- `Pool<T, N>`; the capacity is an argument of the theorems.
pub record Pool {ℓ} (T : Type ℓ) : Type ℓ where
  pub slots : ℕ → T
  pub free_list : ℕ → ℕ
  pub gen : ℕ → ℕ
  pub free_top : ℕ

abbrev pub invalid_idx : ℕ
invalid_idx = uint32_max

module _ {ℓ} {T : Type ℓ} where
  -- The constructor: `zero_slot` is what fresh pages of the arena hold.
  unfoldable pub init : ℕ → T → Pool T
  init n zero_slot = record {
    slots = λ _. zero_slot;
    free_list = λ i. i;
    gen = λ _. 0;
    free_top = n;
  }

  unfoldable pub alloc : Pool T → ℕ × Pool T
  alloc p =
      if p.free_top == 0
      then (invalid_idx, p)
      else (p.free_list (p.free_top - 1), record p { free_top = p.free_top - 1 })

  unfoldable pub free : ℕ → Pool T → Pool T
  free idx p = record p {
    gen = update p.gen idx (add32 (p.gen idx) 1);
    free_list = update p.free_list p.free_top idx;
    free_top = add32 p.free_top 1;
  }

  -- A write through `operator[]` or `data()`.
  unfoldable pub with_slots : (ℕ → T) → Pool T → Pool T
  with_slots s p = record p { slots = s }
