-- ===== src/Machine/Execute.antt =====
-- Executing a transition by name. The callbacks that the code runs are recorded in order, each with
-- the context pointer that it is given.
use libpolycall_v.Prelude.{
  ℕ, ◌+◌, Bool, false, ◌||◌, not, Option, none, some, List, [], ◌∷◌, ◌++◌, get_or, set, take, ◌==◌,
  if◌then◌else◌, strcmp_eq, u32,
}
use libpolycall_v.Machine.{
  Pointer, State, Transition, StateMachine, Status, success, error_invalid_transition,
  error_state_locked, zero_state, update_state_timestamp,
}

-- One call `action(ctx)`.
pub record Call : Type 0 where
  pub action : Pointer
  pub ctx : Pointer

pub record Executed : Type 0 where
  pub machine : StateMachine
  pub status : Status
  pub calls : List Call

-- The search loop: the first transition whose stored name matches.
unfoldable pub find_transition : List Transition → List ℕ → Option Transition
find_transition [] name = none
find_transition (t ∷ ts) name = if strcmp_eq t.name name then some t else find_transition ts name

-- `if (action) action(ctx)`.
abbrev pub call_if_set : Pointer → Pointer → List Call
call_if_set action ctx = if action == 0 then [] else record { action = action; ctx = ctx } ∷ []

abbrev pub guard_refuses : Option (State → State → Bool) → State → State → Bool
guard_refuses none from to = false
guard_refuses (some guard) from to = not (guard from to)

abbrev pub count_failure : StateMachine → StateMachine
count_failure sm = record sm { failed_transitions = u32 (sm.failed_transitions + 1) }

-- From the lock test on, with the transition found.
unfoldable pub follow : StateMachine → Transition → ℕ → Executed
follow sm t now =
    let from_state = get_or sm.states t.from_state zero_state in
    let to_state = get_or sm.states t.to_state zero_state in
    if from_state.is_locked || to_state.is_locked
    then record { machine = sm; status = error_state_locked; calls = [] }
    else if guard_refuses t.guard_condition from_state to_state
    then record { machine = count_failure sm; status = error_invalid_transition; calls = [] }
    else record {
      machine = record sm {
        current_state = t.to_state;
        states = set sm.states t.to_state (update_state_timestamp now to_state);
      };
      status = success;
      calls =
          call_if_set from_state.on_exit sm.ctx
          ++ (call_if_set t.action sm.ctx ++ call_if_set to_state.on_enter sm.ctx);
    }

-- `if (!transition || !transition->is_valid)`.
unfoldable pub execute_found : StateMachine → Option Transition → ℕ → Executed
execute_found sm none now = record {
  machine = count_failure sm;
  status = error_invalid_transition;
  calls = [];
}
execute_found sm (some t) now =
    if not t.is_valid
    then record { machine = count_failure sm; status = error_invalid_transition; calls = [] }
    else follow sm t now

unfoldable pub execute_transition : StateMachine → Option (List ℕ) → ℕ → Executed
execute_transition sm none now = record {
  machine = sm;
  status = error_invalid_transition;
  calls = [];
}
execute_transition sm (some name) now =
    if not sm.is_initialized
    then record { machine = sm; status = error_invalid_transition; calls = [] }
    else execute_found sm (find_transition (take sm.num_transitions sm.transitions) name) now
