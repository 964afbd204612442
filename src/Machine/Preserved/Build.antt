-- ===== src/Machine/Preserved/Build.antt =====
-- Creating a machine and adding to it keep it valid.
use libpolycall_v.Prelude.{
  ℕ, ◌≡◌, refl, Bool, not, Option, none, some, List, ◌||◌, arith, leb, if_rule,
}
use libpolycall_v.Prelude.{store_name, ◌-◌}
use libpolycall_v.Machine.{max_name_length}
use libpolycall_v.Machine.{
  Pointer, State, Transition, StateMachine, max_states, max_transitions, calculate_state_checksum,
}
use libpolycall_v.Machine.Build.{
  initialized_state, add_named_state, add_state, initialized_transition, add_named_transition,
  add_transition,
}
use libpolycall_v.Machine.Invariant.{
  IsValid, IsIntact, Keeps, state_at, transition_at, extended-IsValid, joined-IsValid,
}

initialized_state-IsIntact :
    (id : ℕ) (name : List ℕ) (on_enter on_exit : Pointer) (is_final : Bool) (now : ℕ) (slot : State)
    → IsIntact (initialized_state id name on_enter on_exit is_final now slot)
unfolding initialized_state calculate_state_checksum
initialized_state-IsIntact id name on_enter on_exit is_final now slot = refl

initialized_state-id :
    (id : ℕ) (name : List ℕ) (on_enter on_exit : Pointer) (is_final : Bool) (now : ℕ) (slot : State)
    → (initialized_state id name on_enter on_exit is_final now slot).id ≡ id
unfolding initialized_state
initialized_state-id id name on_enter on_exit is_final now slot = refl

initialized_transition-ends :
    (name : List ℕ) (from to : ℕ) (action : Pointer) (guard : Option (State → State → Bool))
    (slot : Transition)
    → ((initialized_transition name from to action guard slot).from_state ≡ from)
      × ((initialized_transition name from to action guard slot).to_state ≡ to)
      × ((initialized_transition name from to action guard slot).name
          ≡ store_name (max_name_length - 1) name)
unfolding initialized_transition
initialized_transition-ends name from to action guard slot = (refl, refl, refl)

add_named_state-IsValid :
    {sm : StateMachine} (name : List ℕ) (on_enter on_exit : Pointer) (is_final : Bool) (now : ℕ)
    → IsValid sm
    → Keeps (add_named_state sm name on_enter on_exit is_final now)
unfolding add_named_state
add_named_state-IsValid {sm} name on_enter on_exit is_final now v =
    if_rule Keeps (leb max_states sm.num_states) (λ full. v)
      λ room.
        let slot = state_at sm sm.num_states in
        extended-IsValid v _ (ground arith)
          (initialized_state-id sm.num_states name on_enter on_exit is_final now slot)
          (initialized_state-IsIntact sm.num_states name on_enter on_exit is_final now slot)

pub add_state-IsValid :
    {sm : StateMachine} (name : Option (List ℕ)) (on_enter on_exit : Pointer) (is_final : Bool)
    (now : ℕ)
    → IsValid sm
    → Keeps (add_state sm name on_enter on_exit is_final now)
unfolding add_state
add_state-IsValid none on_enter on_exit is_final now v = v
add_state-IsValid {sm} (some name) on_enter on_exit is_final now v =
    if_rule Keeps (not sm.is_initialized) (λ _. v)
      (λ _. add_named_state-IsValid name on_enter on_exit is_final now v)

add_named_transition-IsValid :
    {sm : StateMachine} (name : List ℕ) (from to : ℕ) (action : Pointer)
    (guard : Option (State → State → Bool))
    → IsValid sm
    → Keeps (add_named_transition sm name from to action guard)
unfolding add_named_transition
add_named_transition-IsValid {sm} name from to action guard v =
    let ends =
      initialized_transition-ends name from to action guard (transition_at sm sm.num_transitions) in
    if_rule Keeps (leb max_transitions sm.num_transitions) (λ full. v)
      λ room.
        if_rule Keeps (leb sm.num_states from || leb sm.num_states to) (λ bad. v)
          λ good.
            joined-IsValid v _ (ground arith) (rw ends.0 (ground arith)) (rw ends.1 (ground arith))
              (name, ends.2)

pub add_transition-IsValid :
    {sm : StateMachine} (name : Option (List ℕ)) (from to : ℕ) (action : Pointer)
    (guard : Option (State → State → Bool))
    → IsValid sm
    → Keeps (add_transition sm name from to action guard)
unfolding add_transition
add_transition-IsValid none from to action guard v = v
add_transition-IsValid {sm} (some name) from to action guard v =
    if_rule Keeps (not sm.is_initialized) (λ _. v)
      (λ _. add_named_transition-IsValid name from to action guard v)
