-- ===== src/Machine/Started.antt =====
-- What `initialize_state_machine` delivers.
use libpolycall_v.Context
use libpolycall_v.Machine.{success, Pointer, StateMachine}
use libpolycall_v.Prelude.{
  refl, none, some, true, false, [], ◌∷◌, List, ℕ, Bool, ◌≢◌, codes, ◌≡◌, arith, strcmp_eq,
  store_name, ◌<◌, map, ◌∙◌, take,
}
use libpolycall_v.Machine.Default.{
  Callbacks, initialize_state_machine, populated, init_states, init_transitions,
}
use libpolycall_v.Machine.Run.{Request, run, adds_state, step, adds_transition}
use libpolycall_v.Machine.Build.{
  new_machine, add_state, add_named_state, add_transition, add_named_transition, initialized_state,
  initialized_transition, create_with_integrity,
}
use libpolycall_v.Machine.Invariant.{IsValid, new_machine-IsValid}
use libpolycall_v.Machine.Preserved.{run-IsValid}

-- The calls that set the default machine up.
abbrev pub default_requests : Callbacks → (ℕ → ℕ) → List Request
default_requests c now =
    adds_state (some (codes "INIT")) c.on_init 0 false (now 1)
    ∷ adds_state (some (codes "READY")) c.on_ready 0 false (now 2)
    ∷ adds_state (some (codes "RUNNING")) c.on_running 0 false (now 3)
    ∷ adds_state (some (codes "PAUSED")) c.on_paused 0 false (now 4)
    ∷ adds_state (some (codes "ERROR")) c.on_error 0 true (now 5)
    ∷ adds_transition (some (codes "to_ready")) 0 1 0 none
    ∷ adds_transition (some (codes "to_running")) 1 2 0 none
    ∷ adds_transition (some (codes "to_paused")) 2 3 0 none
    ∷ adds_transition (some (codes "pause_to_running")) 3 2 0 none
    ∷ adds_transition (some (codes "to_error")) 2 4 0 none
    ∷ []

abbrev pub default_machine : Callbacks → Pointer → (ℕ → ℕ) → StateMachine
default_machine c address now = run (new_machine address none (now 0)) (default_requests c now)

initialize-populated :
    (c : Callbacks) (address : ℕ) (now : ℕ → ℕ)
    → 0 < address
    → initialize_state_machine c true address true true now
      ≡ populated c (new_machine address none (now 0)) now
unfolding initialize_state_machine Context.init_with_config create_with_integrity
initialize-populated c address now h = ground arith

populated_lem :
    (c : Callbacks) (address : ℕ) (now : ℕ → ℕ)
    → populated c (new_machine address none (now 0)) now
      ≡ (some (default_machine c address now), success)
unfolding populated init_states init_transitions run step add_state add_named_state add_transition
    add_named_transition initialized_state initialized_transition strcmp_eq store_name
populated_lem c address now = refl

-- The state numbers that the transitions of a machine join.
abbrev pub ends_of : StateMachine → List (ℕ × ℕ)
ends_of sm = map (λ t. (t.from_state, t.to_state)) (take sm.num_transitions sm.transitions)

default_machine_shape :
    (c : Callbacks) (address : ℕ) (now : ℕ → ℕ)
    → let sm = default_machine c address now in
      (sm.num_states ≡ 5)
      × (sm.current_state ≡ 0)
      × (ends_of sm ≡ (0, 1) ∷ (1, 2) ∷ (2, 3) ∷ (3, 2) ∷ (2, 4) ∷ [])
unfolding run step add_state add_named_state add_transition add_named_transition initialized_state
    initialized_transition
default_machine_shape c address now = (refl, refl, refl)

-- With memory at hand, initialisation succeeds: the names of the tables are resolved to the
-- states' numbers, and the machine starts valid, in state 0, with five states and the five
-- transitions between them.
pub initialize_state_machine_lem :
    (c : Callbacks) (address : ℕ) (now : ℕ → ℕ)
    → 0 < address
    → let sm = default_machine c address now in
      (initialize_state_machine c true address true true now ≡ (some sm, success))
      × IsValid sm
      × (sm.num_states ≡ 5)
      × (sm.current_state ≡ 0)
      × (ends_of sm ≡ (0, 1) ∷ (1, 2) ∷ (2, 3) ∷ (3, 2) ∷ (2, 4) ∷ [])
initialize_state_machine_lem c address now h =
    let shape = default_machine_shape c address now in
    (
      initialize-populated c address now h ∙ populated_lem c address now,
      run-IsValid (default_requests c now)
          (tt, (tt, (tt, (tt, (tt, (tt, (tt, (tt, (tt, (tt, tt))))))))))
          (new_machine-IsValid address none (now 0)),
      shape.0,
      shape.1,
      shape.2,
    )

-- When initialisation reports anything but success, no machine is handed out.
pub initialize_state_machine_failure :
    (c : Callbacks) (has_ctx has_sm allocated : Bool) (address : ℕ) (now : ℕ → ℕ)
    → (initialize_state_machine c has_ctx address has_sm allocated now).1 ≢ success
    → (initialize_state_machine c has_ctx address has_sm allocated now).0 ≡ none
unfolding initialize_state_machine populated
initialize_state_machine_failure c has_ctx has_sm allocated address now h = ground arith
