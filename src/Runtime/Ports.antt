-- ===== src/Runtime/Ports.antt =====
-- The table of port mappings.
use libpolycall_v.Prelude.{
  none, some, true, false, [], ◌∷◌, List, ℕ, Bool, if◌then◌else◌, Option, ltb, ◌&&◌, not, ◌==◌, leb,
  ◌||◌, ◌++◌, length,
}
use libpolycall_v.Runtime.{
  went, PortMapping, PpiRuntime, started, configure_network_port, with_handlers, max_ports, Attempt,
  followed_by,
}
use libpolycall_v.Network.{NetworkProgram}

abbrev pub validate_port_mapping : PortMapping → Bool
validate_port_mapping mapping = ltb 0 mapping.host_port && ltb 0 mapping.container_port

abbrev pub takes_port : PortMapping → ℕ → Bool
takes_port mapping port =
    mapping.is_active && (mapping.host_port == port || mapping.container_port == port)

unfoldable pub is_port_available : List PortMapping → ℕ → Bool
is_port_available [] port = true
is_port_available (mapping ∷ mappings) port =
    let rest = is_port_available mappings port in if takes_port mapping port then false else rest

-- What the system gives to a new mapping: whether its directory is there or could be made, and
-- the program as `net_init_program` leaves it, if there was memory for it.
pub record MappingAnswers : Type 0 where
  pub directory : Bool
  pub program : Option NetworkProgram

abbrev pub new_mapping : ℕ → ℕ → PortMapping
new_mapping host_port container_port = record {
  host_port = host_port;
  container_port = container_port;
  is_active = true;
}

abbrev pub with_mapping : PpiRuntime → PortMapping → PpiRuntime
with_mapping runtime mapping = record runtime {
  port_mappings = runtime.port_mappings ++ mapping ∷ [];
}

abbrev pub mapped : PpiRuntime → PortMapping → Option NetworkProgram → Attempt (PpiRuntime × Bool)
mapped runtime mapping none = went (runtime, false)
mapped runtime mapping (some program) =
    followed_by (started (with_mapping runtime mapping) (with_handlers program))
      (λ next. went (next, true))

-- The program on its port, if it has an endpoint.
abbrev pub program_on : Option NetworkProgram → ℕ → Option NetworkProgram
program_on none port = none
program_on (some program) port = configure_network_port program port

-- The guards in their order; a program without an endpoint takes its mapping back.
unfoldable pub add_port_mapping :
    MappingAnswers → PpiRuntime → Option (List ℕ) → ℕ → ℕ → Attempt (PpiRuntime × Bool)
add_port_mapping os runtime none host_port container_port = went (runtime, false)
add_port_mapping os runtime (some service_name) host_port container_port =
    if not (validate_port_mapping (new_mapping host_port container_port))
    then went (runtime, false)
    else if leb max_ports (length runtime.port_mappings)
    then went (runtime, false)
    else if not (is_port_available runtime.port_mappings host_port)
        || not (is_port_available runtime.port_mappings container_port)
    then went (runtime, false)
    else if not os.directory
    then went (runtime, false)
    else mapped runtime (new_mapping host_port container_port)
        (program_on os.program container_port)
