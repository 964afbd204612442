-- ===== src/Machine/Default.antt =====
-- The machine that `initialize_state_machine` sets up: five states and five transitions.
use libpolycall_v.Prelude.{
  none, some, true, false, [], ◌∷◌, List, ℕ, Bool, codes, ◌+◌, take, Option, if◌then◌else◌, not,
  strcmp_eq, ◌==◌,
}
use libpolycall_v.Context.{Context, zero_config}
use libpolycall_v.Machine.{
  Status, success, Pointer, StateMachine, State, error_not_initialized, error_invalid_context,
}
use libpolycall_v.Machine.Build.{add_state, add_transition, create_with_integrity}
use libpolycall_v.Context

-- The addresses of the file's static callbacks.
pub record Callbacks : Type 0 where
  pub on_init : Pointer
  pub on_ready : Pointer
  pub on_running : Pointer
  pub on_paused : Pointer
  pub on_error : Pointer

pub record StateConfig : Type 0 where
  pub name : List ℕ
  pub on_enter : Pointer
  pub on_exit : Pointer
  pub is_final : Bool

abbrev state_config : List ℕ → Pointer → Bool → StateConfig
state_config name on_enter is_final = record {
  name = name;
  on_enter = on_enter;
  on_exit = 0;
  is_final = is_final;
}

abbrev pub default_states : Callbacks → List StateConfig
default_states c =
    state_config (codes "INIT") c.on_init false
    ∷ state_config (codes "READY") c.on_ready false
    ∷ state_config (codes "RUNNING") c.on_running false
    ∷ state_config (codes "PAUSED") c.on_paused false
    ∷ state_config (codes "ERROR") c.on_error true
    ∷ []

pub record Edge : Type 0 where
  pub name : List ℕ
  pub from : List ℕ
  pub to : List ℕ

abbrev edge : List ℕ → List ℕ → List ℕ → Edge
edge name from to = record { name = name; from = from; to = to }

abbrev pub default_transitions : List Edge
default_transitions =
    edge (codes "to_ready") (codes "INIT") (codes "READY")
    ∷ edge (codes "to_running") (codes "READY") (codes "RUNNING")
    ∷ edge (codes "to_paused") (codes "RUNNING") (codes "PAUSED")
    ∷ edge (codes "pause_to_running") (codes "PAUSED") (codes "RUNNING")
    ∷ edge (codes "to_error") (codes "RUNNING") (codes "ERROR")
    ∷ []

unfoldable pub init_state : StateMachine → StateConfig → ℕ → StateMachine × Status
init_state sm config now =
    add_state sm (some config.name) config.on_enter config.on_exit config.is_final now

-- The loop over the state table; it stops at the first failure. Each state reads the clock, `now`,
-- the first of them for the `i`-th time.
unfoldable pub init_states : StateMachine → List StateConfig → ℕ → (ℕ → ℕ) → StateMachine × Status
unfolding init_state
init_states sm [] i now = (sm, success)
init_states sm (config ∷ configs) i now =
    let (next, status) = init_state sm config (now i) in
    let rest = init_states next configs (i + 1) now in
    elim status [ success ↦ rest | other ↦ (next, other) ]

-- The inner loop that looks a state up by name: the last match wins, and 0 stands for none.
unfoldable pub find_id : List State → ℕ → List ℕ → ℕ → ℕ
find_id [] j name found = found
find_id (s ∷ ss) j name found = find_id ss (j + 1) name (if strcmp_eq s.name name then j else found)

unfoldable pub init_transitions : StateMachine → List Edge → StateMachine × Status
unfolding find_id
init_transitions sm [] = (sm, success)
init_transitions sm (e ∷ es) =
    let known = take sm.num_states sm.states in
    let (next, status) =
      add_transition sm (some e.name) (find_id known 0 e.from 0) (find_id known 0 e.to 0) 0 none in
    let rest = init_transitions next es in elim status [ success ↦ rest | other ↦ (next, other) ]

-- On failure the machine is destroyed and the context cleaned up.
unfoldable pub populated : Callbacks → StateMachine → (ℕ → ℕ) → Option StateMachine × Status
populated callbacks sm now =
    let (with_states, states_status) = init_states sm (default_states callbacks) 1 now in
    let (ready, status) = init_transitions with_states default_transitions in
    elim states_status [
      | success ↦ elim status [ success ↦ (some ready, success) | other ↦ (none, other) ]
      | other ↦ (none, other)
    ]

-- `initialize_state_machine`: `address` is what `malloc` returns for the context (0 on failure),
-- `allocated` whether `calloc` has room for the machine, `now` the clock as it is read, time after
-- time: at the creation, and for each state.
unfoldable pub initialize_state_machine :
    Callbacks → Bool → Pointer → Bool → Bool → (ℕ → ℕ) → Option StateMachine × Status
initialize_state_machine callbacks has_ctx address has_sm allocated now =
    elim (Context.init_with_config has_ctx (some zero_config) (not (address == 0))).1 [
      | Context.PolycallStatus.success ↦
          elim (create_with_integrity address has_sm none allocated (now 0)).0 [
            | some sm ↦ populated callbacks sm now
            | none ↦ (none, error_not_initialized)
          ]
      | _ ↦ (none, error_invalid_context)
    ]
