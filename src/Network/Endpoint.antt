-- ===== src/Network/Endpoint.antt =====
-- Opening and closing an endpoint.
use libpolycall_v.Prelude.{
  none, some, true, false, zero, suc, [], ◌∷◌, List, ℕ, Bool, if◌then◌else◌, Option, not, ◌+◌, ◌&&◌,
  ltb, replicate, ◌==◌, ◌-◌, ◌||◌, codes,
}
use libpolycall_v.Network.{
  tcp, server, lock, unlock, closed, NetworkProtocol, NetworkRole, NetworkEndpoint, NetworkProgram,
  endpoint_lock, zero_endpoint, net_max_clients, zero_client, Event,
}

-- `socket` gives no descriptor, or `bind` answers whether it could.
abbrev pub net_is_port_in_use : Option Bool → Bool
net_is_port_in_use none = true
net_is_port_in_use (some bound) = not bound

-- The ports from `port` on, `n` of them.
unfoldable pub find_from : (ℕ → Option Bool) → ℕ → ℕ → ℕ
find_from probe port zero = 0
find_from probe port (suc n) =
    let rest = find_from probe (port + 1) n in
    if not (net_is_port_in_use (probe port)) then port else rest

-- For an end port below 65535, where the counter does not wrap.
abbrev pub find_available_port : (ℕ → Option Bool) → ℕ → ℕ → ℕ
find_available_port probe start_port end_port =
    find_from probe start_port (end_port + 1 - start_port)

-- `socket` gives no descriptor, or `setsockopt` and `bind` answer whether they could.
abbrev pub net_release_port : Option (Bool × Bool) → Bool
net_release_port none = false
net_release_port (some (option_set, bound)) = option_set && bound

-- What the system answers to the calls of `net_init`, in their order.
pub record Opening : Type 0 where
  pub probe : Option Bool
  pub release : Option (Bool × Bool)
  pub opened : Option ℕ
  pub option_set : Bool
  pub bound : Bool
  pub listening : Bool

abbrev af_inet : ℕ
af_inet = 2

abbrev pub is_tcp : NetworkProtocol → Bool
is_tcp tcp = true
is_tcp _ = false

abbrev pub is_server : NetworkRole → Bool
is_server server = true
is_server _ = false

abbrev pub with_address : NetworkEndpoint → NetworkEndpoint
with_address endpoint = record endpoint {
  addr = record { family = af_inet; sin_port = endpoint.port; sin_addr = 0 };
}

abbrev pub given_up : ℕ → List Event
given_up fd = closed fd ∷ unlock endpoint_lock ∷ []

-- The endpoint, whether it is open, and the events. A descriptor -1 is kept as 0: `net_close`
-- and `net_run` ask only whether it is positive.
abbrev open_on : Opening → NetworkEndpoint → ℕ → NetworkEndpoint × Bool × List Event
open_on os endpoint fd =
    if not os.option_set
    then (record endpoint { socket_fd = fd }, false, given_up fd)
    else let next = with_address (record endpoint { socket_fd = fd }) in
      if is_server endpoint.role && (not os.bound || is_tcp endpoint.protocol && not os.listening)
      then (next, false, given_up fd)
      else (next, true, unlock endpoint_lock ∷ [])

abbrev opening : Opening → NetworkEndpoint → Option ℕ → NetworkEndpoint × Bool × List Event
opening os endpoint none = (record endpoint { socket_fd = 0 }, false, unlock endpoint_lock ∷ [])
opening os endpoint (some fd) = open_on os endpoint fd

unfoldable pub net_init : Opening → NetworkEndpoint → NetworkEndpoint × Bool × List Event
net_init os endpoint =
    if net_is_port_in_use os.probe && not (net_release_port os.release)
    then (endpoint, false, [])
    else let result = opening os endpoint os.opened in
      (result.0, result.1, lock endpoint_lock ∷ result.2)

unfoldable pub net_close : NetworkEndpoint → NetworkEndpoint × List Event
net_close endpoint =
    if ltb 0 endpoint.socket_fd
    then (
      record endpoint { socket_fd = 0 },
      lock endpoint_lock ∷ closed endpoint.socket_fd ∷ unlock endpoint_lock ∷ [],
    )
    else (endpoint, lock endpoint_lock ∷ unlock endpoint_lock ∷ [])

-- The program as `memset` leaves it, with the flag set.
abbrev pub bare_program : NetworkProgram
bare_program = record {
  endpoints = [];
  clients = replicate net_max_clients zero_client;
  running = true;
  on_receive = false;
  on_connect = false;
  on_disconnect = false;
}

abbrev pub default_endpoint : ℕ → NetworkEndpoint
default_endpoint port = record zero_endpoint {
  address = codes "0.0.0.0";
  port = port;
  protocol = tcp;
  role = server;
}

abbrev pub program_with : NetworkEndpoint × Bool × List Event → NetworkProgram
program_with (endpoint, opened, events) =
    if opened then record bare_program { endpoints = endpoint ∷ [] } else bare_program

-- `net_init_program`, the memory of the endpoint given. `probe` answers the search for a port
-- and `os` the calls of `net_init`.
unfoldable pub net_init_program : (ℕ → Option Bool) → Opening → NetworkProgram
net_init_program probe os =
    let port = find_available_port probe 8080 8180 in
    if port == 0 then bare_program else program_with (net_init os (default_endpoint port))

-- `net_send` and `net_receive` with an endpoint and a packet: what the system answers, and the
-- events.
abbrev pub net_transfer {ℓ} : {A : Type ℓ} → A → A × List Event
net_transfer answer = (answer, lock endpoint_lock ∷ unlock endpoint_lock ∷ [])
