-- ===== src/Protocol.antt =====
-- The message protocol of src/polycall_protocol.c: its states, its context and its callbacks
-- (include/polycall_protocol.h).
use libpolycall_v.Prelude.{
  refl, none, some, true, false, zero, suc, [], inl, inr, ◌∷◌, List, ℕ, Bool, Option,
}
use libpolycall_v.Machine.{Pointer, StateMachine}
pub mod Wire
pub mod Send
pub mod Process
pub mod Session
pub mod Delivered
pub mod RoundTrip
pub mod Edges
pub mod Actions
pub mod Stuck
pub mod Reached
mod Tests

abbrev pub protocol_version : ℕ
protocol_version = 1

abbrev pub protocol_buffer_size : ℕ
protocol_buffer_size = 4096

abbrev pub protocol_magic : ℕ
protocol_magic = 0x504c43

pub data ProtocolState : Type 0 where
  init handshake auth ready error closed : ProtocolState

-- The flags that the code itself sends with.
abbrev pub flag_encrypted : ℕ
flag_encrypted = 1

abbrev pub flag_reliable : ℕ
flag_reliable = 8

-- Which callbacks are set.
pub record Callbacks : Type 0 where
  pub on_handshake : Bool
  pub on_auth_request : Bool
  pub on_command : Bool
  pub on_error : Bool
  pub on_state_change : Bool

-- `polycall_protocol_context_t`. The endpoint is only tested against NULL and handed on.
pub record ProtocolContext : Type 0 where
  pub pc_ctx : Pointer
  pub state_machine : Option StateMachine
  pub has_endpoint : Bool
  pub next_sequence : ℕ
  pub state : ProtocolState
  pub user_data : Pointer

-- What the code writes into its static error buffer.
pub data ProtocolError : Type 0 where
  invalid_parameters allocation_failed machine_failed checksum_failed : ProtocolError
  version_mismatch invalid_type too_large : ℕ → ProtocolError

-- A callback that the code runs, with what it is handed besides the context.
pub data Event : Type 0 where
  handshakes : Event
  requests_auth commands errs : List ℕ → Event
  changes : ProtocolState → ProtocolState → Event
