-- ===== src/Machine/Snapshot.antt =====
-- Snapshots of a state, and putting one back.
use libpolycall_v.Prelude.{
  ℕ, Bool, not, ◌||◌, Option, none, some, get_or, set, leb, ◌==◌, if◌then◌else◌,
}
use libpolycall_v.Machine.{
  State, StateMachine, Status, success, error_invalid_state, error_not_initialized,
  error_state_locked, error_version_mismatch, zero_state, calculate_state_checksum,
  update_state_timestamp,
}

pub record StateSnapshot : Type 0 where
  pub state : State
  pub timestamp : ℕ
  pub checksum : ℕ

-- `has_out` says whether the out pointer is there; the snapshot written through it comes first.
unfoldable pub create_state_snapshot : StateMachine → ℕ → Bool → ℕ → Option StateSnapshot × Status
create_state_snapshot sm state_id has_out now =
    if not sm.is_initialized || not has_out
    then (none, error_not_initialized)
    else if leb sm.num_states state_id
    then (none, error_invalid_state)
    else let state = get_or sm.states state_id zero_state in
      (
        some (record { state = state; timestamp = now; checksum = calculate_state_checksum state }),
        success,
      )

unfoldable pub restore_snapshot : StateMachine → StateSnapshot → ℕ → StateMachine × Status
restore_snapshot sm snapshot now =
    if leb sm.num_states snapshot.state.id
    then (sm, error_invalid_state)
    else let state = get_or sm.states snapshot.state.id zero_state in
      if state.is_locked
      then (sm, error_state_locked)
      else if not (state.version == snapshot.state.version)
      then (sm, error_version_mismatch)
      else (
        record sm {
          states = set sm.states snapshot.state.id (update_state_timestamp now snapshot.state);
        },
        success,
      )

unfoldable pub restore_state_from_snapshot :
    StateMachine → Option StateSnapshot → ℕ → StateMachine × Status
restore_state_from_snapshot sm none now = (sm, error_not_initialized)
restore_state_from_snapshot sm (some snapshot) now =
    if not sm.is_initialized then (sm, error_not_initialized) else restore_snapshot sm snapshot now
