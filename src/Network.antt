-- ===== src/Network.antt =====
-- The network of src/network.c: its endpoints, its clients and what a thread does with them. What
-- the operating system answers is an argument of the functions.
use libpolycall_v.Prelude.{
  refl, none, some, true, false, zero, suc, [], inl, inr, ◌∷◌, List, ℕ, Bool, if◌then◌else◌,
}
pub mod Endpoint
pub mod Clients
pub mod Run
pub mod Locks
pub mod Deadlock
pub mod Table
pub mod Round
mod Tests

pub data NetworkProtocol : Type 0 where
  tcp udp raw protocol_max : NetworkProtocol

pub data NetworkRole : Type 0 where
  client server peer role_max : NetworkRole

-- A socket address, its numbers in the order of the host.
pub record SocketAddress : Type 0 where
  pub family : ℕ
  pub sin_port : ℕ
  pub sin_addr : ℕ

abbrev pub zero_address : SocketAddress
zero_address = record { family = 0; sin_port = 0; sin_addr = 0 }

-- A client but for its mutex.
pub record ClientState : Type 0 where
  pub is_active : Bool
  pub socket_fd : ℕ
  pub addr : SocketAddress

abbrev pub zero_client : ClientState
zero_client = record { is_active = false; socket_fd = 0; addr = zero_address }

-- An endpoint but for its mutex and the pointers that the network never follows.
pub record NetworkEndpoint : Type 0 where
  pub address : List ℕ
  pub port : ℕ
  pub protocol : NetworkProtocol
  pub role : NetworkRole
  pub socket_fd : ℕ
  pub addr : SocketAddress

abbrev pub zero_endpoint : NetworkEndpoint
zero_endpoint = record {
  address = [];
  port = 0;
  protocol = tcp;
  role = client;
  socket_fd = 0;
  addr = zero_address;
}

-- The handlers by whether they are set, and the endpoints up to their count: none for a pointer
-- that is NULL.
pub record NetworkProgram : Type 0 where
  pub endpoints : List NetworkEndpoint
  pub clients : List ClientState
  pub running : Bool
  pub on_receive : Bool
  pub on_connect : Bool
  pub on_disconnect : Bool

abbrev pub net_max_clients : ℕ
net_max_clients = 10

pub data Mutex : Type 0 where
  clients_lock endpoint_lock : Mutex
  client_lock : ℕ → Mutex

-- What a thread does, in its order: the mutexes it asks for and gives back, the sockets it
-- closes, the handlers it calls.
pub data Event : Type 0 where
  lock unlock : Mutex → Event
  closed connected disconnected : ℕ → Event
  received : ℕ → List ℕ → Event
