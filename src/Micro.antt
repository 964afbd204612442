-- ===== src/Micro.antt =====
-- The service layer of src/polycall_micro.c: its records (include/polycall_micro.h). Of a service
-- the arrays `endpoints` and `memory_pool`, which the code only clears, are left out. The 32-bit
-- `active_mask` is the list of its bits, lowest first.
use libpolycall_v.Machine.{StateMachine}
use libpolycall_v.Prelude.{
  refl, none, some, true, false, zero, suc, [], inl, inr, ◌∷◌, List, ℕ, Bool, Option, replicate,
  codes,
}
pub mod Services
pub mod Commands
pub mod Filter
pub mod Context
mod Tests
pub mod History
pub mod Created
pub mod Unique
pub mod Collected
pub mod Valid
pub mod Batch
pub mod Mask

abbrev pub max_services : ℕ
max_services = 32

abbrev pub max_commands : ℕ
max_commands = 64

abbrev pub buffer_size : ℕ
buffer_size = 4096

-- The zeroed payload buffer is [].
pub record Command : Type 0 where
  pub id : ℕ
  pub flags : ℕ
  pub payload_size : ℕ
  pub payload : List ℕ

pub record CommandArray : Type 0 where
  pub commands : List Command
  pub count : ℕ
  pub capacity : ℕ

pub record ServiceState : Type 0 where
  pub id : ℕ
  pub flags : ℕ
  pub state : ℕ
  pub last_update : ℕ
  pub endpoint_count : ℕ
  pub command_queue : CommandArray

pub record ServiceArray : Type 0 where
  pub services : List ServiceState
  pub count : ℕ
  pub active_mask : List Bool
  pub last_gc : ℕ

pub data MicroStatus : Type 0 where
  success error_init error_service error_command error_protocol error_memory : MicroStatus

abbrev pub zero_command : Command
zero_command = record { id = 0; flags = 0; payload_size = 0; payload = [] }

-- `reset_command_array`.
abbrev pub reset_command_array : CommandArray
reset_command_array = record {
  commands = replicate max_commands zero_command;
  count = 0;
  capacity = max_commands;
}

-- `reset_service_state`.
abbrev pub reset_service_state : ServiceState
reset_service_state = record {
  id = 0;
  flags = 0;
  state = 0;
  last_update = 0;
  endpoint_count = 0;
  command_queue = reset_command_array;
}

-- A service as `memset` leaves it: its queue has no capacity until it is reset.
abbrev pub zero_service : ServiceState
zero_service = record reset_service_state {
  command_queue = record reset_command_array { capacity = 0 };
}

-- The service array as initialisation leaves it.
abbrev pub zero_services : ℕ → ServiceArray
zero_services now = record {
  services = replicate max_services zero_service;
  count = 0;
  active_mask = replicate max_services false;
  last_gc = now;
}

-- `polycall_micro_status_string`.
abbrev pub status_string : MicroStatus → List ℕ
status_string success = codes "Success"
status_string error_init = codes "Initialization error"
status_string error_service = codes "Service error"
status_string error_command = codes "Command error"
status_string error_protocol = codes "Protocol error"
status_string error_memory = codes "Memory error"
