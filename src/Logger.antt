-- ===== src/Logger.antt =====
-- src/c/logger.c: loggers with a level, in chains. A logger is a number, 0 the default one, and the
-- loggers are a function on numbers. `none` is the use of a logger that was freed, or a loop out of
-- fuel. What a logger does with a message is not modelled: a log is the list of the loggers that take it.
pub mod Chain
mod Tests
use iotech_c_utils.Common.{
  ℕ, zero, suc, ◌+◌, ◌-◌, Bool, true, false, ◌&&◌, List, [], ◌∷◌, ◌++◌, Option, none, some,
  if◌then◌else◌, ◌==◌, leb,
}
use iotech_c_utils.RbTree.{◌>>=◌}
use iotech_c_utils.Component.{initial, set_running, set_stopped, add_ref, dec_ref}

abbrev pub log_none : ℕ
log_none = 0

abbrev pub loglevel_default : ℕ
loglevel_default = 2

-- What the code reads of `iot_logger_impl_t`, and whether it was freed.
pub record Logger : Type 0 where
  pub level : ℕ
  pub save : ℕ
  pub state : ℕ
  pub next : Option ℕ
  pub refs : ℕ
  pub freed : Bool

pub record Loggers : Type 0 where
  pub logger : ℕ → Logger
  pub count : ℕ

abbrev pub with_logger : Loggers → ℕ → Logger → Loggers
with_logger s i l = record s { logger = λ j. if j == i then l else s.logger j }

-- `iot_log_levels`, and `iot_logger_level_to_string`.
abbrev pub level_to_string : ℕ → List ℕ
level_to_string level =
    if level == 1
    then b'E' ∷ b'R' ∷ b'R' ∷ b'O' ∷ b'R' ∷ []
    else if level == 2
    then b'W' ∷ b'A' ∷ b'R' ∷ b'N' ∷ []
    else if level == 3
    then b'I' ∷ b'n' ∷ b'f' ∷ b'o' ∷ []
    else if level == 4
    then b'D' ∷ b'e' ∷ b'b' ∷ b'u' ∷ b'g' ∷ []
    else if level == 5
    then b'T' ∷ b'r' ∷ b'a' ∷ b'c' ∷ b'e' ∷ []
    else []

-- The first character, or the terminator.
abbrev pub first_char : List ℕ → ℕ
first_char [] = 0
first_char (c ∷ s) = c

-- The loop of `iot_logger_level_from_string`, with the levels left and the one reached.
unfoldable pub level_loop : ℕ → ℕ → ℕ → ℕ
level_loop zero lvl c = loglevel_default
level_loop (suc left) lvl c =
    let rest = level_loop left (suc lvl) c in
    if first_char (level_to_string lvl) == c then lvl else rest

-- `iot_logger_level_from_string`; `toupper` of the C library is an argument.
unfoldable pub level_from_string : (ℕ → ℕ) → Option (List ℕ) → ℕ
unfolding level_loop
level_from_string toupper none = loglevel_default
level_from_string toupper (some name) = level_loop 6 0 (toupper (first_char name))

-- `iot_logger_set_level`, `iot_logger_start` and `iot_logger_stop`.
abbrev pub logger_set_level : Logger → ℕ → Logger
logger_set_level l level = record l { level = level }

abbrev pub logger_start : Logger → Logger
logger_start l = record l { state = (set_running l.state).0; level = l.save }

abbrev pub logger_stop : Logger → Logger
logger_stop l = record l { state = (set_stopped l.state).0; save = l.level; level = log_none }

-- `iot_logger_add_ref`.
unfoldable pub logger_add_ref : Loggers → Option ℕ → Loggers
logger_add_ref s none = s
logger_add_ref s (some i) =
    with_logger s i (record (s.logger i) { refs = add_ref (s.logger i).refs })

-- `iot_logger_free`, which frees the loggers behind along with the last reference.
unfoldable pub logger_free : ℕ → Loggers → Option ℕ → Option Loggers
logger_free zero s i = none
logger_free (suc fuel) s none = some s
logger_free (suc fuel) s (some i) =
    let l = s.logger i in
    let counted = with_logger s i (record l { refs = (dec_ref l.refs).0 }) in
    let emptied = logger_free fuel counted l.next >>= λ s'.
    some (with_logger s' i (record (s'.logger i) { freed = true })) in
    if l.freed
    then none
    else if i == 0
    then some s
    else if (dec_ref l.refs).1
    then emptied
    else some counted

-- `iot_logger_alloc_custom`: the loggers, and the new one.
unfoldable pub alloc_custom : Loggers → ℕ → Bool → Option ℕ → Loggers × ℕ
unfolding logger_add_ref
alloc_custom s level start next =
    let l : Logger = record {
      level = 0;
      save = level;
      state = initial;
      next = next;
      refs = 1;
      freed = false;
    } in
    let s' = logger_add_ref s next in
    (
      with_logger (record s' { count = suc s.count }) s.count (if start then logger_start l else l),
      s.count,
    )

-- `iot_logger_set_next`.
unfoldable pub set_next : ℕ → Loggers → ℕ → Option ℕ → Option Loggers
unfolding logger_free logger_add_ref
set_next fuel s i next = logger_free fuel s (s.logger i).next >>= λ s1.
    let s2 = logger_add_ref s1 next in
    some (with_logger s2 i (record (s2.logger i) { next = next }))

-- `iot_log__va_log`: the loggers that take the message.
unfoldable pub va_log : ℕ → Loggers → ℕ → ℕ → Option (List ℕ)
va_log zero s i level = none
va_log (suc fuel) s i level =
    let l = s.logger i in
    let here = if leb level l.level then i ∷ [] else [] in
    let chained : Option (List ℕ) = elim l.next [
      | none ↦ some here
      | some j ↦ va_log fuel s j level >>= λ rest. some (here ++ rest)
    ] in
    if l.freed then none else chained
