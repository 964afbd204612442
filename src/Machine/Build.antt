-- ===== src/Machine/Build.antt =====
-- Creating a machine and adding states and transitions.
use libpolycall_v.Prelude.{
  ℕ, ◌+◌, ◌-◌, Bool, true, false, ◌||◌, not, Option, none, some, List, replicate, set, get_or, leb,
  ◌==◌, if◌then◌else◌, store_name,
}
use libpolycall_v.Machine.{
  Pointer, State, Transition, StateMachine, Status, success, error_invalid_state,
  error_invalid_transition, error_max_states_reached, error_max_transitions_reached,
  error_invalid_context, error_not_initialized, zero_state, zero_transition, max_states,
  max_transitions, max_name_length, calculate_state_checksum, update_state_timestamp,
}

-- The zeroed struct with the fields that creation sets.
abbrev pub new_machine : Pointer → Option (State → Bool) → ℕ → StateMachine
new_machine ctx integrity_check now = record {
  states = replicate max_states zero_state;
  transitions = replicate max_transitions zero_transition;
  current_state = 0;
  num_states = 0;
  num_transitions = 0;
  ctx = ctx;
  is_initialized = true;
  integrity_check = integrity_check;
  machine_checksum = 0;
  failed_transitions = 0;
  integrity_violations = 0;
  last_verification = now;
}

-- `has_out` says whether the out pointer `sm` is there, `allocated` whether `calloc` succeeds. The
-- machine that `*sm` receives is the first component.
unfoldable pub create_with_integrity :
    Pointer → Bool → Option (State → Bool) → Bool → ℕ → Option StateMachine × Status
create_with_integrity ctx has_out integrity_check allocated now =
    if ctx == 0 || not has_out
    then (none, error_invalid_context)
    else if not allocated
    then (none, error_not_initialized)
    else (some (new_machine ctx integrity_check now), success)

-- The slot as `add_state` fills it; then the timestamp, and the checksum over the result.
unfoldable pub initialized_state : ℕ → List ℕ → Pointer → Pointer → Bool → ℕ → State → State
initialized_state id name on_enter on_exit is_final now slot =
    let state = update_state_timestamp now (record slot {
      name = store_name (max_name_length - 1) name;
      on_enter = on_enter;
      on_exit = on_exit;
      is_final = is_final;
      id = id;
      version = 1;
      is_locked = false;
    }) in
    record state { checksum = calculate_state_checksum state }

unfoldable pub add_named_state :
    StateMachine → List ℕ → Pointer → Pointer → Bool → ℕ → StateMachine × Status
add_named_state sm name on_enter on_exit is_final now =
    if leb max_states sm.num_states
    then (sm, error_max_states_reached)
    else let state =
        initialized_state sm.num_states name on_enter on_exit is_final now
          (get_or sm.states sm.num_states zero_state) in
      (
        record sm { states = set sm.states sm.num_states state; num_states = sm.num_states + 1 },
        success,
      )

unfoldable pub add_state :
    StateMachine → Option (List ℕ) → Pointer → Pointer → Bool → ℕ → StateMachine × Status
add_state sm none on_enter on_exit is_final now = (sm, error_invalid_state)
add_state sm (some name) on_enter on_exit is_final now =
    if not sm.is_initialized
    then (sm, error_invalid_state)
    else add_named_state sm name on_enter on_exit is_final now

unfoldable pub initialized_transition :
    List ℕ → ℕ → ℕ → Pointer → Option (State → State → Bool) → Transition → Transition
initialized_transition name from_state to_state action guard_condition slot = record slot {
  name = store_name (max_name_length - 1) name;
  from_state = from_state;
  to_state = to_state;
  action = action;
  guard_condition = guard_condition;
  is_valid = true;
}

unfoldable pub add_named_transition :
    StateMachine → List ℕ → ℕ → ℕ → Pointer → Option (State → State → Bool) → StateMachine × Status
add_named_transition sm name from_state to_state action guard_condition =
    if leb max_transitions sm.num_transitions
    then (sm, error_max_transitions_reached)
    else if leb sm.num_states from_state || leb sm.num_states to_state
    then (sm, error_invalid_state)
    else let transition =
        initialized_transition name from_state to_state action guard_condition
          (get_or sm.transitions sm.num_transitions zero_transition) in
      (
        record sm {
          transitions = set sm.transitions sm.num_transitions transition;
          num_transitions = sm.num_transitions + 1;
        },
        success,
      )

unfoldable pub add_transition :
    StateMachine
    → Option (List ℕ)
    → ℕ
    → ℕ
    → Pointer
    → Option (State → State → Bool)
    → StateMachine × Status
add_transition sm none from_state to_state action guard_condition = (sm, error_invalid_transition)
add_transition sm (some name) from_state to_state action guard_condition =
    if not sm.is_initialized
    then (sm, error_invalid_transition)
    else add_named_transition sm name from_state to_state action guard_condition
