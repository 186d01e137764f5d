-- ===== src/Libc/Stdlib/Rand.antt =====
-- `rand` of kernel/libs/libc/stdlib.cpp.
use ice.Prelude.{ℕ, ◌%◌, ◌^◌, ◌≤◌, ◌<◌, ◌≡◌, arith}
use ice.Libc.Stdlib.{rand}

-- A number from `rand` is at most RAND_MAX, the seed stays a 64-bit number, and the number depends
-- on the lowest 31 binary digits of the seed only.
pub rand_lem :
    (cseed : ℕ)
    → ((rand cseed).0 ≤ 32767)
      × ((rand cseed).1 < 2 ^ 64)
      × ((rand cseed).0 ≡ (rand (cseed % 2 ^ 31)).0)
unfolding rand
rand_lem cseed = (omega arith, omega arith, omega arith)
