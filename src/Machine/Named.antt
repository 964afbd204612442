-- ===== src/Machine/Named.antt =====
-- Transitions and their names: a name is stored in 32 bytes, and looked up as stored.
use libpolycall_v.Prelude.{
  refl, some, true, false, inl, inr, List, ℕ, IsText, Option, ◌<◌, ◌-◌, Bool, strcmp_eq, length,
  ◌≡◌, set, ◌≤◌, ◌+◌, Bool-cases, arith, length-le_of_stored, get_or-set_self, ◌++◌, ◌∙◌,
  get_or-set, ap, strcmp_eq-store_name,
}
use libpolycall_v.Machine.Execute.{execute_found, execute_transition, guard_refuses, call_if_set}
use libpolycall_v.Machine.{
  StateMachine, Pointer, Transition, max_name_length, State, max_transitions, success,
  zero_transition, Status,
}
use libpolycall_v.Machine.Build.{add_transition, initialized_transition, add_named_transition}
use libpolycall_v.Machine.Invariant.{IsValid, transition_at, state_at}
use libpolycall_v.Machine.Found.{IsFirst, find_transition-none}
use libpolycall_v.Machine.Executed.{refused, execute_initialized, execute_transition_enabled}
use libpolycall_v.Machine.Preserved.Build.{add_transition-IsValid}

-- On a valid machine, a name of more than 31 bytes is never that of a transition: executing it
-- only counts one more failure.
pub execute_transition_long :
    (sm : StateMachine) (name : List ℕ) (now : ℕ)
    → IsValid sm
    → IsText name
    → max_name_length - 1 < length name
    → execute_transition sm (some name) now ≡ refused sm
unfolding execute_found
execute_transition_long sm name now v text long =
    execute_initialized sm name now v.initialized
    ∙ ap (λ o. execute_found sm o now)
        (find_transition-none sm.num_transitions sm.transitions name apart
          (omega (arith, v.num_transitions_le, v.transitions_size)))
  where
    apart : (j : ℕ) → j < sm.num_transitions → strcmp_eq (transition_at sm j).name name ≡ false
    apart j h = elim (Bool-cases (strcmp_eq (transition_at sm j).name name)) [
      | inr no_match ↦ no_match
      | inl match ↦
          let (n, e) = v.stored j h in
          absurd (omega (arith, length-le_of_stored 31 n name text (rw e at match)))
    ]

-- The transition that `add_transition` stores.
abbrev added : StateMachine → List ℕ → ℕ → ℕ → Pointer → Option (State → State → Bool) → Transition
added sm name from to action guard =
    initialized_transition name from to action guard (transition_at sm sm.num_transitions)

add_transition_room :
    (sm : StateMachine) (name : List ℕ) (from to : ℕ) (action : Pointer)
    (guard : Option (State → State → Bool))
    → sm.is_initialized ≡ true
    → sm.num_transitions < max_transitions
    → from < sm.num_states
    → to < sm.num_states
    → add_transition sm (some name) from to action guard ≡ (
      record sm {
        transitions = set sm.transitions sm.num_transitions (added sm name from to action guard);
        num_transitions = sm.num_transitions + 1;
      },
      success,
    )
unfolding add_transition add_named_transition
add_transition_room sm name from to action guard i h f e = ground arith

added-IsFirst :
    (sm : StateMachine) (name : List ℕ) (t : Transition)
    → IsValid sm
    → sm.num_transitions < max_transitions
    → strcmp_eq t.name name ≡ true
    → ((j : ℕ) → j < sm.num_transitions → strcmp_eq (transition_at sm j).name name ≡ false)
    → IsFirst
        (set sm.transitions sm.num_transitions t)
        (sm.num_transitions + 1)
        name
        t
        sm.num_transitions
added-IsFirst sm name t v room named fresh = record {
  below = omega arith;
  here =
      get_or-set_self sm.transitions sm.num_transitions t zero_transition
        (omega (arith, v.transitions_size));
  named = named;
  earlier = λ j h.
      ground (arith, get_or-set sm.transitions sm.num_transitions j t zero_transition, fresh j h);
}

-- Round trip on a valid machine with room: a transition added under a new name of at most 31
-- bytes, between existing, unlocked states and with a guard that accepts them, is the one that
-- executing that name takes, with the calls of its ends. Where the machine stood before does
-- not matter.
pub execute_transition-add_transition :
    (sm : StateMachine) (name : List ℕ) (from to : ℕ) (action : Pointer)
    (guard : Option (State → State → Bool)) (now : ℕ)
    → IsValid sm
    → IsText name
    → length name ≤ max_name_length - 1
    → sm.num_transitions < max_transitions
    → from < sm.num_states
    → to < sm.num_states
    → ((j : ℕ) → j < sm.num_transitions → strcmp_eq (transition_at sm j).name name ≡ false)
    → (state_at sm from).is_locked ≡ false
    → (state_at sm to).is_locked ≡ false
    → guard_refuses guard (state_at sm from) (state_at sm to) ≡ false
    → let next = (add_transition sm (some name) from to action guard).0 in
      let r = execute_transition next (some name) now in
      (r.status ≡ success)
      × (r.machine.current_state ≡ to)
      × (r.calls
          ≡ call_if_set (state_at sm from).on_exit sm.ctx
            ++ (call_if_set action sm.ctx ++ call_if_set (state_at sm to).on_enter sm.ctx))
unfolding initialized_transition
execute_transition-add_transition sm name from to action guard now v text short room f e fresh free
      open' accepts =
    let t = added sm name from to action guard in
    let next = (add_transition sm (some name) from to action guard).0 in
    let made =
      ap (λ (r : StateMachine × Status). r.0)
        (add_transition_room sm name from to action guard v.initialized room f e) in
    let first = added-IsFirst sm name t v room (strcmp_eq-store_name 31 name text short) fresh in
    let run_it =
      execute_transition_enabled
        (record sm {
          transitions = set sm.transitions sm.num_transitions t;
          num_transitions = sm.num_transitions + 1;
        })
        name now sm.num_transitions t
        (rw made at (add_transition-IsValid (some name) from to action guard v)) first
        (record { valid = refl; from_free = free; to_free = open'; accepted = accepts }) in
    rw (made, run_it) (refl, refl, refl)
