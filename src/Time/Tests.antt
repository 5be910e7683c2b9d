-- ===== src/Time/Tests.antt =====
-- src/c/time.c: the theorem on times at concrete readings.
use iotech_c_utils.Common.{arith, [], ◌∷◌}
use iotech_c_utils.Time.{results}
use iotech_c_utils.Time.Ascent.{Ascends, results-Ascends}

results-Ascends_example : Ascends 9 (results 9 ((7, 8 ∷ []) ∷ (7, []) ∷ []))
results-Ascends_example =
    results-Ascends 20 9 ((7, 8 ∷ []) ∷ (7, []) ∷ []) (omega arith)
      (omega arith, (omega arith, tt), (omega arith, tt, tt)) (omega arith)
