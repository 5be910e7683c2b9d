-- ===== src/Component/Tests.antt =====
-- src/c/component.c: the theorems on components at concrete inputs.
use iotech_c_utils.Common.{◌≡◌, ◌≢◌, ◌⊎◌, refl, not, ◌==◌, inl, inr}
use iotech_c_utils.Component.{running, deleted, set_state}
use iotech_c_utils.Component.States.{IsState, set_state_lem}

set_state_lem_example :
    IsState (set_state running deleted).0
    × ((set_state running deleted).1 ≡ not (running == (set_state running deleted).0))
    × ((running ≢ running) ⊎ ((set_state running deleted).0 ≢ deleted))
    × ((running ≢ deleted) ⊎ ((set_state running deleted).0 ≡ deleted))
set_state_lem_example = set_state_lem running deleted (inr (inr (inl refl)))
