-- ===== src/Time.antt =====
-- src/c/time.c: `iot_time_nsecs`. A call is the
-- clock's reading, what it loads of `lasttime` in rounds whose exchange fails, in any number, and
-- `lasttime` where the exchange succeeds. The clock is an argument.
pub mod Ascent
mod Tests
use iotech_c_utils.Common.{ℕ, ◌+◌, ◌*◌, ◌/◌, ◌%◌, ◌^◌, List, [], ◌∷◌, if◌then◌else◌, leb}

-- `iot_time_nanosecs` from the two fields of the clock.
abbrev pub nanosecs : (tv_sec tv_nsec : ℕ) → ℕ
nanosecs tv_sec tv_nsec = (tv_sec * 1000000000 + tv_nsec) % 2 ^ 64

-- `if (result <= prev) result = prev + 1`.
abbrev pub bump : (result prev : ℕ) → ℕ
bump result prev = if leb result prev then (prev + 1) % 2 ^ 64 else result

-- The loop: rounds that fail, and the last one.
abbrev pub nsecs : (result : ℕ) → List ℕ → (lasttime : ℕ) → ℕ
nsecs result [] lasttime = bump result lasttime
nsecs result (prev ∷ failed) lasttime = nsecs (bump result prev) failed lasttime

-- The results of calls, in the order of their exchanges, each with its reading and its failed rounds.
abbrev pub results : (lasttime : ℕ) → List (ℕ × List ℕ) → List ℕ
results lasttime [] = []
results lasttime ((clock, failed) ∷ calls) =
    let result = nsecs clock failed lasttime in result ∷ results result calls
