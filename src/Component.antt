-- ===== src/Component.antt =====
-- src/c/component.c: the state of a component and its reference count. The mutex makes each
-- function one step; a wait on the condition is a test that its caller repeats.
pub mod States
pub mod Refs
pub mod Read
mod Tests
use iotech_c_utils.Common.{
  ℕ, zero, suc, ◌+◌, ◌-◌, ◌%◌, ◌^◌, bit_and, Bool, true, false, not, ◌||◌, List, [], ◌∷◌,
  if◌then◌else◌, ◌==◌, leb,
}

-- `iot_component_state_t`.
abbrev pub initial : ℕ
initial = 0

abbrev pub stopped : ℕ
stopped = 1

abbrev pub running : ℕ
running = 2

abbrev pub deleted : ℕ
deleted = 4

abbrev pub starting : ℕ
starting = 8

-- The switch of `iot_component_set_state`: whether a component in state `now` may take the state.
abbrev pub is_valid : ℕ → ℕ → Bool
is_valid now state =
    if (state == stopped) || ((state == running) || (state == starting))
    then not (now == deleted)
    else if state == deleted
    then not (now == running)
    else false

-- `iot_component_set_state`: the new state, and whether it changed.
unfoldable pub set_state : ℕ → ℕ → ℕ × Bool
set_state now state = if is_valid now state then (state, not (now == state)) else (now, false)

abbrev pub set_running : ℕ → ℕ × Bool
set_running now = set_state now running

abbrev pub set_stopped : ℕ → ℕ × Bool
set_stopped now = set_state now stopped

abbrev pub set_deleted : ℕ → ℕ × Bool
set_deleted now = set_state now deleted

abbrev pub set_starting : ℕ → ℕ × Bool
set_starting now = set_state now starting

-- Whether `iot_component_wait_and_lock` returns in a state, for a mask of states.
abbrev pub wait_ends : ℕ → ℕ → Bool
wait_ends now states = not (bit_and now states == 0)

-- `iot_component_add_ref`: an `atomic_uint_fast32_t` of 32 bits.
abbrev pub add_ref : ℕ → ℕ
add_ref refs = (refs + 1) % 2 ^ 32

-- `iot_component_dec_ref`: the count that is left, and whether it was the last reference.
abbrev pub dec_ref : ℕ → ℕ × Bool
dec_ref refs = ((refs + 2 ^ 32 - 1) % 2 ^ 32, leb refs 1)

pub add_refs : ℕ → ℕ → ℕ
add_refs zero refs = refs
add_refs (suc n) refs = add_refs n (add_ref refs)

-- The results of so many `iot_component_dec_ref` calls in a row.
pub dec_refs : ℕ → ℕ → List Bool
dec_refs zero refs = []
dec_refs (suc n) refs = (dec_ref refs).1 ∷ dec_refs n (dec_ref refs).0
