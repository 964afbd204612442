-- ===== src/Machine/Preserved/Execute.antt =====
-- Executing a transition keeps a machine valid.
use libpolycall_v.Prelude.{
  ℕ, ◌<◌, ◌≡◌, refl, not, Option, none, some, List, ◌||◌, take, arith, if_rule, ◌∙◌,
}
use libpolycall_v.Machine.{Transition, StateMachine, max_states, update_state_timestamp}
use libpolycall_v.Machine.Execute.{
  Executed, guard_refuses, count_failure, find_transition, follow, execute_found,
  execute_transition,
}
use libpolycall_v.Machine.Found.{find_transition-IsFirst}
use libpolycall_v.Machine.Invariant.{IsValid, state_at, written-IsValid, checksum_update}

-- A record, so that the rule for conditionals finds the branches.
pub record KeepsAll (r : Executed) : Type 0 where
  pub valid : IsValid r.machine

count_failure-IsValid : {sm : StateMachine} → IsValid sm → IsValid (count_failure sm)
count_failure-IsValid v = record {
  initialized = v.initialized;
  states_size = v.states_size;
  transitions_size = v.transitions_size;
  num_states_le = v.num_states_le;
  num_transitions_le = v.num_transitions_le;
  current_lt = v.current_lt;
  numbered = v.numbered;
  intact = v.intact;
  stored = v.stored;
  wired = v.wired;
}

entered-IsValid :
    {sm : StateMachine} (k : ℕ)
    → k < max_states
    → IsValid sm
    → IsValid (record sm { current_state = k })
entered-IsValid k h v = record {
  initialized = v.initialized;
  states_size = v.states_size;
  transitions_size = v.transitions_size;
  num_states_le = v.num_states_le;
  num_transitions_le = v.num_transitions_le;
  current_lt = h;
  numbered = v.numbered;
  intact = v.intact;
  stored = v.stored;
  wired = v.wired;
}

follow-IsValid :
    {sm : StateMachine} (t : Transition) (now : ℕ)
    → t.to_state < sm.num_states
    → IsValid sm
    → KeepsAll (follow sm t now)
unfolding follow
follow-IsValid {sm} t now h v =
    let from = state_at sm t.from_state in
    let to = state_at sm t.to_state in
    if_rule KeepsAll (from.is_locked || to.is_locked) (λ _. record { valid = v })
      λ _.
        if_rule KeepsAll (guard_refuses t.guard_condition from to)
          (λ _. record { valid = count_failure-IsValid v })
          λ _. record {
            valid = entered-IsValid t.to_state (omega (arith, v.num_states_le)) (
                written-IsValid v t.to_state (update_state_timestamp now to) h (v.numbered _ h)
                  (checksum_update now to ∙ v.intact _ h));
          }

execute_found-IsValid :
    {sm : StateMachine} (t : Option Transition) (now : ℕ)
    → ((u : Transition) → t ≡ some u → u.to_state < sm.num_states)
    → IsValid sm
    → KeepsAll (execute_found sm t now)
unfolding execute_found
execute_found-IsValid none now h v = record { valid = count_failure-IsValid v }
execute_found-IsValid (some t) now h v =
    if_rule KeepsAll (not t.is_valid) (λ _. record { valid = count_failure-IsValid v })
      (λ _. follow-IsValid t now (h t refl) v)

-- The transition that the search finds leads to a state that exists.
pub find_transition-wired :
    {sm : StateMachine} (name : List ℕ) (t : Transition)
    → IsValid sm
    → find_transition (take sm.num_transitions sm.transitions) name ≡ some t
    → (t.from_state < sm.num_states) × (t.to_state < sm.num_states)
find_transition-wired {sm} name t v e =
    let (i, f) = find_transition-IsFirst sm.num_transitions sm.transitions name t e in
    rw f.here at (v.wired i f.below)

pub execute_transition-IsValid :
    {sm : StateMachine} (name : Option (List ℕ)) (now : ℕ)
    → IsValid sm
    → KeepsAll (execute_transition sm name now)
unfolding execute_transition
execute_transition-IsValid none now v = record { valid = v }
execute_transition-IsValid {sm} (some name) now v =
    if_rule KeepsAll (not sm.is_initialized) (λ _. record { valid = v })
      λ _.
        execute_found-IsValid (find_transition (take sm.num_transitions sm.transitions) name) now
          (λ t e. (find_transition-wired name t v e).1) v
