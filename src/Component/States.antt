-- ===== src/Component/States.antt =====
-- src/c/component.c: the states of a component and the changes between them.
use iotech_c_utils.Common.{ℕ, ◌≡◌, ◌≢◌, ◌⊎◌, inl, inr, arith, not, ◌==◌}
use iotech_c_utils.Component.{initial, stopped, running, deleted, starting, set_state}

abbrev pub IsState : ℕ → Type 0
IsState s = (s ≡ initial) ⊎ ((s ≡ stopped) ⊎ ((s ≡ running) ⊎ ((s ≡ deleted) ⊎ (s ≡ starting))))

-- A request for any number takes a component from a state of the enumeration to one of them; the
-- result says whether the state changed; a running component does not become deleted at once, and a
-- deleted one stays deleted.
pub set_state_lem :
    (now state : ℕ)
    → IsState now
    → IsState (set_state now state).0
      × ((set_state now state).1 ≡ not (now == (set_state now state).0))
      × ((now ≢ running) ⊎ ((set_state now state).0 ≢ deleted))
      × ((now ≢ deleted) ⊎ ((set_state now state).0 ≡ deleted))
unfolding set_state
set_state_lem now state (inl h) = ground arith
set_state_lem now state (inr (inl h)) = ground arith
set_state_lem now state (inr (inr (inl h))) = ground arith
set_state_lem now state (inr (inr (inr (inl h)))) = ground arith
set_state_lem now state (inr (inr (inr (inr h)))) = ground arith

pub set_state-deleted : (state : ℕ) → (set_state deleted state).0 ≡ deleted
unfolding set_state
set_state-deleted state = ground arith
