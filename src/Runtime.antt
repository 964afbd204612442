-- ===== src/Runtime.antt =====
-- The program of src/main.c: its runtime, the table of port mappings, the services that a
-- directory and its files configure, and the commands of its console.
use libpolycall_v.Prelude.{
  refl, none, some, true, false, zero, suc, [], inl, inr, ◌∷◌, List, ℕ, Bool, if◌then◌else◌, Option,
  ◌++◌, leb, length,
}
use libpolycall_v.Network.{NetworkProgram}
use libpolycall_v.Machine.{StateMachine}
pub mod Ports
pub mod Services
pub mod History
pub mod Commands
pub mod Serve
pub mod Show
pub mod Apart
pub mod Table
pub mod Remembered
mod Tests

abbrev pub max_input : ℕ
max_input = 256

abbrev pub max_ports : ℕ
max_ports = 64

abbrev pub max_programs : ℕ
max_programs = 8

abbrev pub history_size : ℕ
history_size = 10

pub record PortMapping : Type 0 where
  pub host_port : ℕ
  pub container_port : ℕ
  pub is_active : Bool

-- `PPI_Runtime`, but for the fields that nothing reads. The arrays are given up to their counts;
-- that of the programs has `max_programs` places.
pub record PpiRuntime : Type 0 where
  pub programs : List NetworkProgram
  pub pc_ctx : ℕ
  pub state_machine : Option StateMachine
  pub command_history : List (List ℕ)
  pub port_mappings : List PortMapping
  pub running : Bool

-- The runtime before the program starts.
abbrev pub zero_runtime : PpiRuntime
zero_runtime = record {
  programs = [];
  pc_ctx = 0;
  state_machine = none;
  command_history = [];
  port_mappings = [];
  running = false;
}

-- The first endpoint on another port; none when there is no endpoint.
unfoldable pub configure_network_port : NetworkProgram → ℕ → Option NetworkProgram
configure_network_port program port = elim program.endpoints [
  | [] ↦ none
  | endpoint ∷ endpoints ↦
      some (record program { endpoints = record endpoint { port = port } ∷ endpoints })
]

-- The handlers of the program, all set.
abbrev pub with_handlers : NetworkProgram → NetworkProgram
with_handlers program = record program {
  on_receive = true;
  on_connect = true;
  on_disconnect = true;
}

-- What a step of the program gives: a value, or the runtime before a write past the end of the
-- array of programs, which has no defined behaviour.
pub data Attempt {ℓ} (A : Type ℓ) : Type ℓ where
  went : A → Attempt A
  overran : PpiRuntime → Attempt A

abbrev pub followed_by {ℓ κ} : {A : Type ℓ} {B : Type κ} → Attempt A → (A → Attempt B) → Attempt B
followed_by (went a) f = f a
followed_by (overran runtime) f = overran runtime

-- `g_runtime.programs[g_runtime.program_count++] = program`, which no test goes before.
unfoldable pub started : PpiRuntime → NetworkProgram → Attempt PpiRuntime
started runtime program =
    if leb max_programs (length runtime.programs)
    then overran runtime
    else went (record runtime { programs = runtime.programs ++ program ∷ [] })
