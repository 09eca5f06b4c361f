-- ===== src/Util/Examples.antt =====
-- Sizes and ticks on small inputs: the theorems at work.
use lite_exchange.Base.{
  ℕ, ◌+◌, ◌*◌, ◌%◌, ◌^◌, ◌≤◌, ◌<◌, ◌≡◌, refl, arith, Bool, Option, none, some, if◌then◌else◌, List,
  [], ◌∷◌,
}
use lite_exchange.Util.HugePage.{align_up, map_pages, map_bytes, array_bytes, huge_page_size}
use lite_exchange.Util.HugePage.Sizes.{map_pages-Held, Held}
use lite_exchange.Util.Tsc.{tsc_to_ns, tsc_hz, first_late, elapsed_ns, TimeSpec, ns_per_sec}
use lite_exchange.Util.Tsc.Convert.{tsc_to_ns_lem, tsc_to_ns-wraps}

-- No huge pages are left; the small ones are at 4096.
abbrev mmap : Bool → ℕ → Option ℕ
mmap huge bytes = if huge then none else some 4096

test_map : map_pages mmap 65536 64 ≡ some (record { ptr = 4096; bytes = 2 ^ 22 })
unfolding map_pages map_bytes align_up
test_map = refl

map_pages-Held_example :
    Held mmap
      (65536 * 64)
      (align_up (array_bytes 65536 64) huge_page_size)
      (map_pages mmap 65536 64)
map_pages-Held_example = map_pages-Held mmap 65536 64 (omega arith)

tsc_to_ns_lem_example :
    (tsc_to_ns 7000 3000000000 * 3000000000 ≤ 7000 * ns_per_sec)
    × (7000 * ns_per_sec < (tsc_to_ns 7000 3000000000 + 1) * 3000000000)
tsc_to_ns_lem_example = tsc_to_ns_lem 7000 3000000000 (omega arith) (omega arith)

tsc_to_ns-wraps_example : tsc_to_ns 18446744074 3000000000 ≡ 0
tsc_to_ns-wraps_example = tsc_to_ns-wraps 3000000000 (omega arith)

-- The clock is read too early once.
abbrev start : TimeSpec
start = record { tv_sec = 5; tv_nsec = 950000000 }

abbrev readings : List TimeSpec
readings =
    record { tv_sec = 5; tv_nsec = 999999999 } ∷ record { tv_sec = 6; tv_nsec = 50000000 } ∷ []

hz_found : tsc_hz 1000 ((1000 + 300000000) % 2 ^ 64) start readings ≡ some 3000000000
unfolding tsc_hz first_late elapsed_ns
hz_found = refl
