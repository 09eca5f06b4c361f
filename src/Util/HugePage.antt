-- ===== src/Util/HugePage.antt =====
-- include/lx/util/huge_page.hpp: the size of a mapping, the constructor with `mmap` and the destructor with
-- `munmap` as a parameter.
pub mod Sizes
use Prim.Native.Nat.{bit_and}
use lite_exchange.Base.{ℕ, ◌+◌, ◌-◌, ◌*◌, ◌%◌, ◌^◌, Bool, Option, none, some}

-- HUGE_PAGE_SIZE
abbrev pub huge_page_size : ℕ
huge_page_size = 2 * 1024 * 1024

-- (n + align - 1) & ~(align - 1) on 64 bits
unfoldable pub align_up : ℕ → ℕ → ℕ
align_up n align =
    bit_and ((n + align + 2 ^ 64 - 1) % 2 ^ 64) (2 ^ 64 - 1 - (align + 2 ^ 64 - 1) % 2 ^ 64)

-- What the constructor holds: where the pages are and how many bytes.
pub record Mapping : Type 0 where
  pub ptr : ℕ
  pub bytes : ℕ

-- `N * sizeof(T)`; `N` is 32 bits wide and the product 64.
abbrev pub array_bytes : ℕ → ℕ → ℕ
array_bytes n size = n * size % 2 ^ 64

-- `mmap`, with MAP_HUGETLB or without: an address, or MAP_FAILED. None is the exception.
unfoldable pub map_bytes : (Bool → ℕ → Option ℕ) → ℕ → Option Mapping
map_bytes mmap bytes = elim (mmap Bool.true bytes) [
  | some ptr ↦ some (record { ptr = ptr; bytes = bytes })
  | none ↦ elim (mmap Bool.false bytes) [
    | some ptr ↦ some (record { ptr = ptr; bytes = bytes })
    | none ↦ none
  ]
]

-- The constructor, for `n` objects of a size.
unfoldable pub map_pages : (Bool → ℕ → Option ℕ) → ℕ → ℕ → Option Mapping
map_pages mmap n size = map_bytes mmap (align_up (array_bytes n size) huge_page_size)

-- `~HugePage`, with `munmap` on a state of the kernel.
unfoldable pub unmap_pages {ℓ} : {K : Type ℓ} → (ℕ → ℕ → K → K) → Mapping → K → K
unmap_pages munmap m k = munmap m.ptr m.bytes k
