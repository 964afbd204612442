-- ===== src/Machine/Run.antt =====
-- The calls that change a machine, and a history of them.
use libpolycall_v.Prelude.{ℕ, Bool, Option, List, [], ◌∷◌}
use libpolycall_v.Machine.{Pointer, State, StateMachine}
use libpolycall_v.Machine.Build.{add_state, add_transition}
use libpolycall_v.Machine.Execute.{execute_transition}
use libpolycall_v.Machine.Integrity.{verify_state_integrity, lock_state, unlock_state}
use libpolycall_v.Machine.Snapshot.{StateSnapshot, restore_state_from_snapshot}

pub data Request : Type 0 where
  adds_state : Option (List ℕ) → Pointer → Pointer → Bool → ℕ → Request
  adds_transition : Option (List ℕ) → ℕ → ℕ → Pointer → Option (State → State → Bool) → Request
  executes : Option (List ℕ) → ℕ → Request
  verifies : ℕ → Request
  locks : ℕ → ℕ → Request
  unlocks : ℕ → ℕ → Request
  restores : Option StateSnapshot → ℕ → Request

-- The machine that a call leaves, whatever its status.
unfoldable pub step : StateMachine → Request → StateMachine
step sm (adds_state name on_enter on_exit is_final now) =
    (add_state sm name on_enter on_exit is_final now).0
step sm (adds_transition name from_state to_state action guard) =
    (add_transition sm name from_state to_state action guard).0
step sm (executes name now) = (execute_transition sm name now).machine
step sm (verifies state_id) = (verify_state_integrity sm state_id).0
step sm (locks state_id now) = (lock_state sm state_id now).0
step sm (unlocks state_id now) = (unlock_state sm state_id now).0
step sm (restores snapshot now) = (restore_state_from_snapshot sm snapshot now).0

unfoldable pub run : StateMachine → List Request → StateMachine
run sm [] = sm
run sm (r ∷ rs) = run (step sm r) rs
