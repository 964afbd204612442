-- ===== src/Machine/Executed.antt =====
-- What executing a transition by name does, on every path.
use libpolycall_v.Prelude.{
  refl, none, some, true, false, [], List, Option, ◌≡◌, ℕ, ◌≢◌, arith, set, take, if_rule, ◌∙◌, not,
  ap, ◌++◌,
}
use libpolycall_v.Machine.{
  StateMachine, Transition, error_invalid_transition, success, update_state_timestamp,
}
use libpolycall_v.Machine.Execute.{
  execute_found, execute_transition, Executed, follow, count_failure, find_transition,
  guard_refuses, call_if_set,
}
use libpolycall_v.Machine.Invariant.{state_at, IsValid}
use libpolycall_v.Machine.Found.{IsFirst, find_transition-IsFirst, find_transition_first}

-- The transition found may be taken: it is valid, neither end is locked, its guard accepts.
pub record IsEnabled (sm : StateMachine) (t : Transition) : Type 0 where
  pub valid : t.is_valid ≡ true
  pub from_free : (state_at sm t.from_state).is_locked ≡ false
  pub to_free : (state_at sm t.to_state).is_locked ≡ false
  pub accepted :
      guard_refuses t.guard_condition (state_at sm t.from_state) (state_at sm t.to_state) ≡ false

-- The target is entered with a new timestamp and version; the exit action of the source, the
-- transition's own and the entry action of the target run in this order.
abbrev pub taken : StateMachine → Transition → ℕ → Executed
taken sm t now =
    let from = state_at sm t.from_state in
    let to = state_at sm t.to_state in
    record {
      machine = record sm {
        current_state = t.to_state;
        states = set sm.states t.to_state (update_state_timestamp now to);
      };
      status = success;
      calls =
          call_if_set from.on_exit sm.ctx
          ++ (call_if_set t.action sm.ctx ++ call_if_set to.on_enter sm.ctx);
    }

abbrev pub refused : StateMachine → Executed
refused sm = record { machine = count_failure sm; status = error_invalid_transition; calls = [] }

execute_found_enabled :
    (sm : StateMachine) (t : Transition) (now : ℕ)
    → IsEnabled sm t
    → execute_found sm (some t) now ≡ taken sm t now
unfolding execute_found follow
execute_found_enabled sm t now e = ground arith

execute_found_success :
    (sm : StateMachine) (t : Option Transition) (now : ℕ)
    → (execute_found sm t now).status ≡ success
    → (u : Transition) × (t ≡ some u) × IsEnabled sm u
unfolding execute_found follow
execute_found_success sm none now h = cc
execute_found_success sm (some t) now h = (
  t,
  refl,
  record {
    valid = ground arith;
    from_free = ground arith;
    to_free = ground arith;
    accepted = ground arith;
  },
)

pub execute_initialized :
    (sm : StateMachine) (name : List ℕ) (now : ℕ)
    → sm.is_initialized ≡ true
    → execute_transition sm (some name) now
      ≡ execute_found sm (find_transition (take sm.num_transitions sm.transitions) name) now
unfolding execute_transition
execute_initialized sm name now i = ground arith

-- On a valid machine, the first transition with the name, if it is enabled, is taken.
pub execute_transition_enabled :
    (sm : StateMachine) (name : List ℕ) (now i : ℕ) (t : Transition)
    → IsValid sm
    → IsFirst sm.transitions sm.num_transitions name t i
    → IsEnabled sm t
    → execute_transition sm (some name) now ≡ taken sm t now
execute_transition_enabled sm name now i t v f e =
    execute_initialized sm name now v.initialized
    ∙ ap (λ o. execute_found sm o now)
        (find_transition_first sm.num_transitions sm.transitions name t i f
          (omega (arith, v.num_transitions_le, v.transitions_size)))
    ∙ execute_found_enabled sm t now e

-- On a valid machine success is reported for nothing else: then the transition taken is the
-- first of that name, and enabled.
pub execute_transition_success :
    (sm : StateMachine) (name : List ℕ) (now : ℕ)
    → IsValid sm
    → (execute_transition sm (some name) now).status ≡ success
    → (t : Transition) × (i : ℕ) × IsFirst sm.transitions sm.num_transitions name t i
      × IsEnabled sm t
      × (execute_transition sm (some name) now ≡ taken sm t now)
execute_transition_success sm name now v h =
    let found = find_transition (take sm.num_transitions sm.transitions) name in
    let same = execute_initialized sm name now v.initialized in
    let (t, e, able) = execute_found_success sm found now (rw same at h) in
    let (i, f) = find_transition-IsFirst sm.num_transitions sm.transitions name t e in
    (t, i, f, able, execute_transition_enabled sm name now i t v f able)

abbrev Idle : StateMachine → Executed → Type 0
Idle sm r =
    r.status ≢ success
    → (r.calls ≡ [])
      × (r.machine.states ≡ sm.states)
      × (r.machine.transitions ≡ sm.transitions)
      × (r.machine.current_state ≡ sm.current_state)

execute_found-Idle :
    (sm : StateMachine) (t : Option Transition) (now : ℕ) → Idle sm (execute_found sm t now)
unfolding execute_found follow
execute_found-Idle sm none now h = (refl, refl, refl, refl)
execute_found-Idle sm (some t) now h = (ground arith, ground arith, ground arith, ground arith)

-- On any status but success nothing is called, no state and no transition changes and the
-- machine stays where it is.
pub execute_transition_failure :
    (sm : StateMachine) (name : Option (List ℕ)) (now : ℕ)
    → (execute_transition sm name now).status ≢ success
    → let r = execute_transition sm name now in
      (r.calls ≡ [])
      × (r.machine.states ≡ sm.states)
      × (r.machine.transitions ≡ sm.transitions)
      × (r.machine.current_state ≡ sm.current_state)
unfolding execute_transition
execute_transition_failure sm none now h = (refl, refl, refl, refl)
execute_transition_failure sm (some name) now h =
    if_rule (Idle sm) (not sm.is_initialized) (λ _ _. (refl, refl, refl, refl))
      (λ _.
        execute_found-Idle sm (find_transition (take sm.num_transitions sm.transitions) name) now)
      h
