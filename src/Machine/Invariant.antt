-- ===== src/Machine/Invariant.antt =====
-- What holds of a machine between two calls: the counts stay within the arrays, every transition
-- joins states that exist under a terminated name, every state carries its own index and a checksum of its own bytes.
use libpolycall_v.Prelude.{
  ℕ, ◌+◌, ◌≤◌, ◌<◌, ◌≡◌, refl, Bool, true, Option, get_or, set, length, length-set, get_or-set,
  store_name, Bool-cases, inl, inr, ◌==◌, ◌-◌, arith,
}
use libpolycall_v.Machine.{
  Pointer, State, Transition, StateMachine, Status, max_name_length, max_states, max_transitions,
  zero_state, zero_transition, calculate_state_checksum, update_state_timestamp, List,
}
use libpolycall_v.Machine.Build.{new_machine}

-- The i-th slot.
abbrev pub state_at : StateMachine → ℕ → State
state_at sm i = get_or sm.states i zero_state

abbrev pub transition_at : StateMachine → ℕ → Transition
transition_at sm i = get_or sm.transitions i zero_transition

-- The stored checksum is that of the state's bytes.
abbrev pub IsIntact : State → Type 0
IsIntact state = calculate_state_checksum state ≡ state.checksum

pub record IsValid (sm : StateMachine) : Type 0 where
  pub initialized : sm.is_initialized ≡ true
  pub states_size : length sm.states ≡ max_states
  pub transitions_size : length sm.transitions ≡ max_transitions
  pub num_states_le : sm.num_states ≤ max_states
  pub num_transitions_le : sm.num_transitions ≤ max_transitions
  pub current_lt : sm.current_state < max_states
  pub numbered : (i : ℕ) → i < sm.num_states → (state_at sm i).id ≡ i
  pub intact : (i : ℕ) → i < sm.num_states → IsIntact (state_at sm i)
  pub stored :
      (i : ℕ)
      → i < sm.num_transitions
      → (n : List ℕ) × ((transition_at sm i).name ≡ store_name (max_name_length - 1) n)
  pub wired :
      (i : ℕ)
      → i < sm.num_transitions
      → ((transition_at sm i).from_state < sm.num_states)
        × ((transition_at sm i).to_state < sm.num_states)

-- The checksum does not cover the timestamp, the version and the lock.
pub checksum_update :
    (now : ℕ) (s : State)
    → calculate_state_checksum (update_state_timestamp now s) ≡ calculate_state_checksum s
unfolding calculate_state_checksum
checksum_update now s = refl

pub checksum_lock :
    (b : Bool) (s : State)
    → calculate_state_checksum (record s { is_locked = b }) ≡ calculate_state_checksum s
unfolding calculate_state_checksum
checksum_lock b s = refl

pub new_machine-IsValid :
    (ctx : Pointer) (check : Option (State → Bool)) (now : ℕ) → IsValid (new_machine ctx check now)
new_machine-IsValid ctx check now = record {
  initialized = refl;
  states_size = refl;
  transitions_size = refl;
  num_states_le = omega arith;
  num_transitions_le = omega arith;
  current_lt = omega arith;
  numbered = λ i h. absurd (omega arith);
  intact = λ i h. absurd (omega arith);
  stored = λ i h. absurd (omega arith);
  wired = λ i h. absurd (omega arith);
}

-- A write of an intact state with the slot's number keeps the machine valid.
module _ {sm : StateMachine} (v : IsValid sm) (k : ℕ) (s : State) where
  abbrev written : StateMachine
  written = record sm { states = set sm.states k s }

  pub written-IsValid : k < sm.num_states → s.id ≡ k → IsIntact s → IsValid written
  written-IsValid h e c = record {
    initialized = v.initialized;
    states_size = omega (arith, length-set sm.states k s, v.states_size);
    transitions_size = v.transitions_size;
    num_states_le = v.num_states_le;
    num_transitions_le = v.num_transitions_le;
    current_lt = v.current_lt;
    numbered = λ i hi. ground (arith, get_or-set sm.states k i s zero_state, v.numbered i hi);
    intact = λ i hi. ground (arith, get_or-set sm.states k i s zero_state, v.intact i hi);
    stored = v.stored;
    wired = v.wired;
  }

-- A new state at the end keeps the machine valid.
module _ {sm : StateMachine} (v : IsValid sm) (s : State) where
  abbrev extended : StateMachine
  extended = record sm { states = set sm.states sm.num_states s; num_states = sm.num_states + 1 }

  pub extended-IsValid :
      sm.num_states < max_states → s.id ≡ sm.num_states → IsIntact s → IsValid extended
  extended-IsValid h e c = record {
    initialized = v.initialized;
    states_size = omega (arith, length-set sm.states sm.num_states s, v.states_size);
    transitions_size = v.transitions_size;
    num_states_le = omega arith;
    num_transitions_le = v.num_transitions_le;
    current_lt = v.current_lt;
    numbered = λ i hi.
        ground
          (arith, get_or-set sm.states sm.num_states i s zero_state, v.numbered i, v.states_size);
    intact = λ i hi.
        ground
          (arith, get_or-set sm.states sm.num_states i s zero_state, v.intact i, v.states_size);
    stored = v.stored;
    wired = λ i hi. (omega (arith, v.wired i hi), omega (arith, v.wired i hi));
  }

-- So does a new transition between states that exist.
module _ {sm : StateMachine} (v : IsValid sm) (t : Transition) where
  abbrev joined : StateMachine
  joined = record sm {
    transitions = set sm.transitions sm.num_transitions t;
    num_transitions = sm.num_transitions + 1;
  }

  pub joined-IsValid :
      sm.num_transitions < max_transitions
      → t.from_state < sm.num_states
      → t.to_state < sm.num_states
      → (n : List ℕ) × (t.name ≡ store_name (max_name_length - 1) n)
      → IsValid joined
  joined-IsValid h f e named = record {
    initialized = v.initialized;
    states_size = v.states_size;
    transitions_size =
        omega (arith, length-set sm.transitions sm.num_transitions t, v.transitions_size);
    num_states_le = v.num_states_le;
    num_transitions_le = omega arith;
    current_lt = v.current_lt;
    numbered = v.numbered;
    intact = v.intact;
    stored = λ i hi.
        let read = get_or-set sm.transitions sm.num_transitions i t zero_transition in
        elim (Bool-cases (sm.num_transitions == i)) [
          | inl new ↦ (named.0, ground (arith, read, named.1, v.transitions_size))
          | inr old ↦
              let before = v.stored i (ground arith) in
              (before.0, ground (arith, read, before.1, v.transitions_size))
        ];
    wired = λ i hi. ground (
      arith,
      get_or-set sm.transitions sm.num_transitions i t zero_transition,
      v.wired i,
      v.transitions_size,
    );
  }

-- The machine that a call leaves is valid.
abbrev pub Keeps : StateMachine × Status → Type 0
Keeps r = IsValid r.0
