-- ===== src/Logger/Tests.antt =====
-- src/c/logger.c: loggers at concrete inputs.
use iotech_c_utils.Common.{
  ◌≡◌, refl, arith, ◌==◌, if◌then◌else◌, true, false, [], ◌∷◌, Option, none, some,
}
use iotech_c_utils.RbTree.{◌>>=◌}
use iotech_c_utils.Logger.{
  Logger, Loggers, alloc_custom, logger_free, set_next, va_log, logger_start, logger_stop,
}
use iotech_c_utils.Logger.Chain.{last, link, admitting, va_log-Chain}

abbrev default_only : Loggers
default_only = record {
  logger = λ i. record { level = 2; save = 2; state = 0; next = none; refs = 1; freed = false };
  count = 1;
}

-- Logger 2 before logger 1, which only logger 2 refers to any more.
abbrev two_loggers : Option Loggers
two_loggers =
    let first = alloc_custom default_only 3 true none in
    let second = alloc_custom first.0 5 true (some 1) in logger_free 3 second.0 (some 1)

logs_both : (two_loggers >>= λ s. va_log 3 s 2 3) ≡ some (2 ∷ 1 ∷ [])
unfolding alloc_custom logger_free va_log
logs_both = refl

-- The next logger is set to the one that it is: it is freed before it is referred to again.
frees_next : (two_loggers >>= λ s. set_next 3 s 2 (some 1) >>= λ s'. va_log 3 s' 2 3) ≡ none
unfolding alloc_custom logger_free va_log set_next
frees_next = refl

-- Stopped twice and started, a logger has lost its level.
stopped_twice : (s : Logger) → (logger_start (logger_stop (logger_stop s))).level ≡ 0
stopped_twice s = refl

-- Logger 3 with level 5 before logger 2 with level 1 before logger 1 with level 4.
abbrev three_loggers : Loggers
three_loggers = record {
  logger = λ i.
      if i == 3
      then record { level = 5; save = 5; state = 0; next = some 2; refs = 1; freed = false }
      else if i == 2
      then record { level = 1; save = 1; state = 0; next = some 1; refs = 1; freed = false }
      else record { level = 4; save = 4; state = 0; next = none; refs = 1; freed = false };
  count = 4;
}

va_log-Chain_example :
    va_log 3 three_loggers 3 3 ≡ some (admitting three_loggers 3 (3 ∷ 2 ∷ 1 ∷ []))
va_log-Chain_example =
    va_log-Chain 3 3 (link refl refl (link refl refl (last refl refl))) (omega arith)
