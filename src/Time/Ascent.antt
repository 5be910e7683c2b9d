-- ===== src/Time/Ascent.antt =====
-- src/c/time.c: the results of `iot_time_nsecs` in order.
use iotech_c_utils.Common.{ℕ, ◌+◌, ◌^◌, ◌<◌, ◌≤◌, arith, List, [], ◌∷◌, length}
use iotech_c_utils.Time.{bump, nsecs, results}

-- Each number is greater than the one before.
abbrev pub Ascends : ℕ → List ℕ → Type 0
Ascends last [] = Unit
Ascends last (t ∷ ts) = (last < t) × Ascends t ts

-- Everything that calls read from the clock or load is below a bound.
abbrev pub AllBelow : ℕ → List ℕ → Type 0
AllBelow bound [] = Unit
AllBelow bound (p ∷ ps) = (p < bound) × AllBelow bound ps

abbrev pub CallsBelow : ℕ → List (ℕ × List ℕ) → Type 0
CallsBelow bound [] = Unit
CallsBelow bound ((clock, failed) ∷ calls) =
    (clock < bound) × AllBelow bound failed × CallsBelow bound calls

nsecs_above :
    (result : ℕ) (failed : List ℕ) (lasttime : ℕ)
    → lasttime + 1 < 2 ^ 64
    → lasttime < nsecs result failed lasttime
nsecs_above result [] lasttime h = ground arith
nsecs_above result (prev ∷ failed) lasttime h = nsecs_above (bump result prev) failed lasttime h

nsecs_below :
    (bound result : ℕ) (failed : List ℕ) (lasttime : ℕ)
    → result ≤ bound
    → AllBelow bound failed
    → lasttime < bound
    → bound < 2 ^ 64
    → nsecs result failed lasttime ≤ bound
nsecs_below bound result [] lasttime r f l b = ground arith
nsecs_below bound result (prev ∷ failed) lasttime r f l b =
    nsecs_below bound (bump result prev) failed lasttime (ground (arith, f.0)) f.1 l b

AllBelow-later : (a b : ℕ) (ps : List ℕ) → a ≤ b → AllBelow a ps → AllBelow b ps
AllBelow-later a b [] h p = tt
AllBelow-later a b (q ∷ ps) h p = (omega (arith, p.0), AllBelow-later a b ps h p.1)

CallsBelow-later : (a b : ℕ) (cs : List (ℕ × List ℕ)) → a ≤ b → CallsBelow a cs → CallsBelow b cs
CallsBelow-later a b [] h p = tt
CallsBelow-later a b ((c, f) ∷ cs) h p =
    (omega (arith, p.0), AllBelow-later a b f h p.1, CallsBelow-later a b cs h p.2)

-- Whatever the clock reads and whatever the rounds that fail load, each call gives a greater time
-- than the one before, if these readings and the last time are below a bound and the bound with the
-- number of calls is below `2 ^ 64`.
pub results-Ascends :
    (bound lasttime : ℕ) (calls : List (ℕ × List ℕ))
    → lasttime < bound
    → CallsBelow bound calls
    → bound + length calls < 2 ^ 64
    → Ascends lasttime (results lasttime calls)
results-Ascends bound lasttime [] l c b = tt
results-Ascends bound lasttime ((clock, failed) ∷ calls) l c b =
    let below = nsecs_below bound clock failed lasttime (omega (arith, c.0)) c.1 l (omega arith) in
    (
      nsecs_above clock failed lasttime (omega arith),
      results-Ascends (bound + 1) (nsecs clock failed lasttime) calls (omega (arith, below))
          (CallsBelow-later bound (bound + 1) calls (omega arith) c.2) (omega arith),
    )
