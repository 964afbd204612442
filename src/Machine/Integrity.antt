-- ===== src/Machine/Integrity.antt =====
-- Integrity checks, locks and the two read-only queries.
use libpolycall_v.Prelude.{
  ℕ, ◌+◌, Bool, true, false, not, Option, none, some, get_or, set, leb, ◌==◌, if◌then◌else◌, u32,
}
use libpolycall_v.Machine.{
  State, StateMachine, Status, success, error_invalid_state, error_not_initialized,
  error_integrity_check_failed, zero_state, calculate_state_checksum, update_state_timestamp,
}

abbrev pub count_violation : StateMachine → StateMachine
count_violation sm = record sm { integrity_violations = u32 (sm.integrity_violations + 1) }

abbrev pub check_refuses : Option (State → Bool) → State → Bool
check_refuses none state = false
check_refuses (some check) state = not (check state)

unfoldable pub verify_state_integrity : StateMachine → ℕ → StateMachine × Status
verify_state_integrity sm state_id =
    if not sm.is_initialized
    then (sm, error_not_initialized)
    else if leb sm.num_states state_id
    then (sm, error_invalid_state)
    else let state = get_or sm.states state_id zero_state in
      if not (calculate_state_checksum state == state.checksum)
      then (count_violation sm, error_integrity_check_failed)
      else if check_refuses sm.integrity_check state
      then (count_violation sm, error_integrity_check_failed)
      else (sm, success)

-- The body that `lock_state` and `unlock_state` share in the source but for the value stored.
unfoldable pub set_lock : Bool → StateMachine → ℕ → ℕ → StateMachine × Status
set_lock locked sm state_id now =
    if not sm.is_initialized
    then (sm, error_not_initialized)
    else if leb sm.num_states state_id
    then (sm, error_invalid_state)
    else let state = record (get_or sm.states state_id zero_state) { is_locked = locked } in
      (record sm { states = set sm.states state_id (update_state_timestamp now state) }, success)

unfoldable pub lock_state : StateMachine → ℕ → ℕ → StateMachine × Status
lock_state sm state_id now = set_lock true sm state_id now

unfoldable pub unlock_state : StateMachine → ℕ → ℕ → StateMachine × Status
unlock_state sm state_id now = set_lock false sm state_id now

-- `has_out` says whether the out pointer is there; the value written through it is the first part.
unfoldable pub get_state_version : StateMachine → ℕ → Bool → Option ℕ × Status
get_state_version sm state_id has_out =
    if not sm.is_initialized
    then (none, error_not_initialized)
    else if not has_out
    then (none, error_not_initialized)
    else if leb sm.num_states state_id
    then (none, error_invalid_state)
    else (some (get_or sm.states state_id zero_state).version, success)

pub record StateDiagnostics : Type 0 where
  pub state_id : ℕ
  pub creation_time : ℕ
  pub last_modified : ℕ
  pub transition_count : ℕ
  pub integrity_check_count : ℕ
  pub is_locked : Bool
  pub current_checksum : ℕ

unfoldable pub get_state_diagnostics : StateMachine → ℕ → Bool → Option StateDiagnostics × Status
get_state_diagnostics sm state_id has_out =
    if not sm.is_initialized
    then (none, error_not_initialized)
    else if not has_out
    then (none, error_not_initialized)
    else if leb sm.num_states state_id
    then (none, error_invalid_state)
    else let state = get_or sm.states state_id zero_state in
      (
        some (record {
          state_id = state.id;
          creation_time = state.timestamp;
          last_modified = state.timestamp;
          transition_count = 0;
          integrity_check_count = 0;
          is_locked = state.is_locked;
          current_checksum = state.checksum;
        }),
        success,
      )
