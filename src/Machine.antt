-- ===== src/Machine.antt =====
-- The state machine of src/polycall_state_machine.c: its records (include/polycall_state_machine.h)
-- and the two helpers that every operation shares. An array of the C struct is a list of fixed
-- length with an explicit count, as in the source; a function pointer that is only called is its
-- address, with 0 for NULL; one whose result the code uses is an `Option` of a function.
pub mod Build
pub mod Execute
pub mod Integrity
pub mod Snapshot
pub mod Run
pub mod Invariant
pub mod Found
pub mod Preserved
pub mod Versions
pub mod Restored
pub mod Verified
pub mod Default
pub mod Started
mod Tests
pub mod Executed
pub mod Named
pub mod Anywhere
use libpolycall_v.Prelude.{
  ℕ, zero, suc, ◌+◌, ◌/◌, ◌%◌, Bool, true, false, Option, none, List, [], ◌∷◌, ◌++◌, replicate, u32,
  fold_rotl, le_bytes,
}

abbrev pub max_name_length : ℕ
max_name_length = 32

abbrev pub max_states : ℕ
max_states = 32

abbrev pub max_transitions : ℕ
max_transitions = 64

-- A pointer as its address.
abbrev pub Pointer : Type 0
Pointer = ℕ

pub record State : Type 0 where
  pub name : List ℕ
  pub on_enter : Pointer
  pub on_exit : Pointer
  pub is_final : Bool
  pub id : ℕ
  pub checksum : ℕ
  pub timestamp : ℕ
  pub version : ℕ
  pub is_locked : Bool

pub record Transition : Type 0 where
  pub name : List ℕ
  pub from_state : ℕ
  pub to_state : ℕ
  pub action : Pointer
  pub is_valid : Bool
  pub guard_condition : Option (State → State → Bool)
  pub guard_checksum : ℕ

pub record StateMachine : Type 0 where
  pub states : List State
  pub transitions : List Transition
  pub current_state : ℕ
  pub num_states : ℕ
  pub num_transitions : ℕ
  pub ctx : Pointer
  pub is_initialized : Bool
  pub integrity_check : Option (State → Bool)
  pub machine_checksum : ℕ
  pub failed_transitions : ℕ
  pub integrity_violations : ℕ
  pub last_verification : ℕ

pub data Status : Type 0 where
  success error_invalid_state error_invalid_transition error_max_states_reached : Status
  error_max_transitions_reached error_invalid_context error_not_initialized : Status
  error_integrity_check_failed error_state_locked error_version_mismatch : Status

-- What `calloc` leaves in a slot that is not in use.
abbrev pub zero_state : State
zero_state = record {
  name = replicate max_name_length 0;
  on_enter = 0;
  on_exit = 0;
  is_final = false;
  id = 0;
  checksum = 0;
  timestamp = 0;
  version = 0;
  is_locked = false;
}

abbrev pub zero_transition : Transition
zero_transition = record {
  name = replicate max_name_length 0;
  from_state = 0;
  to_state = 0;
  action = 0;
  is_valid = false;
  guard_condition = none;
  guard_checksum = 0;
}

abbrev pub bool_byte : Bool → ℕ
bool_byte true = 1
bool_byte false = 0

-- The bytes of a `PolyCall_State` below `offsetof(PolyCall_State, checksum)`, as a 64-bit
-- little-endian machine lays them out, with the three padding bytes of the zeroed slot.
unfoldable pub state_bytes : State → List ℕ
state_bytes s =
    s.name
    ++ (le_bytes 8 s.on_enter
        ++ (le_bytes 8 s.on_exit ++ (bool_byte s.is_final ∷ 0 ∷ 0 ∷ 0 ∷ le_bytes 4 s.id)))

unfoldable pub calculate_state_checksum : State → ℕ
unfolding state_bytes
calculate_state_checksum state = fold_rotl 8 0 (state_bytes state)

abbrev pub update_state_timestamp : ℕ → State → State
update_state_timestamp now state = record state {
  timestamp = now;
  version = u32 (state.version + 1);
}
