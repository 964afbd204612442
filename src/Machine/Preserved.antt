-- ===== src/Machine/Preserved.antt =====
-- Every call keeps a machine valid, and so does every history of calls.
pub mod Build
pub mod Execute
pub mod Integrity
pub mod Snapshot
use Build.{add_state-IsValid, add_transition-IsValid}
use Execute.{execute_transition-IsValid}
use Integrity.{verify_state_integrity-IsValid, lock_state-IsValid, unlock_state-IsValid}
use Snapshot.{IsSound, restore_state_from_snapshot-IsValid}
use libpolycall_v.Prelude.{
  ℕ, zero, suc, ◌+◌, ◌≤◌, ◌<◌, ◌≡◌, refl, ◌⊎◌, inl, inr, Bool, true, false, not, Option, none, some,
  List, [], ◌∷◌, ◌||◌, get_or, set, take, length, arith, ltb, leb, ◌==◌, if◌then◌else◌, Bool-cases,
  Option-cases, if_rule, ◌∙◌,
}
use libpolycall_v.Machine.{
  Pointer, State, Transition, StateMachine, Status, success, max_states, max_transitions,
  zero_state, zero_transition, calculate_state_checksum, update_state_timestamp,
}
use libpolycall_v.Machine.Build.{
  initialized_state, add_named_state, add_state, initialized_transition, add_named_transition,
  add_transition,
}
use libpolycall_v.Machine.Execute.{
  Executed, guard_refuses, count_failure, find_transition, follow, execute_found,
  execute_transition,
}
use libpolycall_v.Machine.Integrity.{
  check_refuses, count_violation, verify_state_integrity, set_lock, lock_state, unlock_state,
}
use libpolycall_v.Machine.Snapshot.{StateSnapshot, restore_snapshot, restore_state_from_snapshot}
use libpolycall_v.Machine.Run.{
  Request, adds_state, adds_transition, executes, verifies, locks, unlocks, restores, step, run,
}
use libpolycall_v.Machine.Found.{IsFirst, find_transition-IsFirst}
use libpolycall_v.Machine.Invariant.{
  IsValid, IsIntact, Keeps, state_at, transition_at, new_machine-IsValid, written-IsValid,
  extended-IsValid, joined-IsValid, checksum_update, checksum_lock,
}

abbrev pub IsSoundRequest : Request → Type 0
IsSoundRequest (restores snapshot now) = IsSound snapshot
IsSoundRequest _ = Unit {0}

-- Every call, whatever its arguments and its status, keeps a valid machine valid; a snapshot that
-- is put back has to be sound.
pub step-IsValid :
    {sm : StateMachine} (r : Request) → IsSoundRequest r → IsValid sm → IsValid (step sm r)
unfolding step
step-IsValid (adds_state name on_enter on_exit is_final now) c v =
    add_state-IsValid name on_enter on_exit is_final now v
step-IsValid (adds_transition name from to action guard) c v =
    add_transition-IsValid name from to action guard v
step-IsValid (executes name now) c v = (execute_transition-IsValid name now v).valid
step-IsValid (verifies state_id) c v = verify_state_integrity-IsValid state_id v
step-IsValid (locks state_id now) c v = lock_state-IsValid state_id now v
step-IsValid (unlocks state_id now) c v = unlock_state-IsValid state_id now v
step-IsValid (restores snapshot now) c v = restore_state_from_snapshot-IsValid snapshot now c v

abbrev pub AllSound : List Request → Type 0
AllSound [] = Unit {0}
AllSound (r ∷ rs) = IsSoundRequest r × AllSound rs

-- A valid machine is valid after every history of calls, whatever their arguments and their
-- statuses, when every snapshot that is put back is sound.
pub run-IsValid :
    {sm : StateMachine} (rs : List Request) → AllSound rs → IsValid sm → IsValid (run sm rs)
unfolding run
run-IsValid {sm} [] c v = v
run-IsValid {sm} (r ∷ rs) c v = run-IsValid {sm = step sm r} rs c.1 (step-IsValid r c.0 v)
