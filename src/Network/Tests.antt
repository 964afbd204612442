-- ===== src/Network/Tests.antt =====
-- Runs of the network, and the theorems at them.
use libpolycall_v.Prelude.{refl, none, some, true, [], ◌∷◌, ◌==◌, replicate, not, ◌≡◌, arith}
use libpolycall_v.Network.{NetworkEndpoint, SocketAddress, NetworkProgram, zero_client}
use libpolycall_v.Network.Run.{Answers, accept_client, watched_from, net_run}
use libpolycall_v.Network.Endpoint.{
  net_init_program, default_endpoint, bare_program, find_from, net_init, with_address,
}
use libpolycall_v.Network.Table.{
  has_client, active_clients, new_client, net_remove_client-net_add_client, has_room, peer_of,
}
use libpolycall_v.Network.Deadlock.{some_gone}
use libpolycall_v.Network.Clients.{net_remove_client, net_add_client}
use libpolycall_v.Network.Locks.{held_after}
use libpolycall_v.Network.Round.{net_run_lem}

abbrev listener : NetworkEndpoint
listener = record (default_endpoint 8080) { socket_fd = 3 }

abbrev peer_address : SocketAddress
peer_address = record { family = 2; sin_port = 40000; sin_addr = 16777343 }

abbrev one_client : NetworkProgram
one_client = record bare_program {
  endpoints = listener ∷ [];
  clients = new_client 5 peer_address ∷ replicate 9 zero_client;
  on_disconnect = true;
}

-- The client has closed its connection.
abbrev hung_up : Answers
hung_up = record {
  select = λ watched. some (λ fd. fd == 5);
  accept = none;
  nonblocking = true;
  recv = λ fd. some [];
}

opens_first_free :
    (net_init_program
      (λ port. some (not (port == 8080)))
      (record {
        probe = some true;
        release = none;
        opened = some 3;
        option_set = true;
        bound = true;
        listening = true;
      })).endpoints
    ≡ record (with_address (default_endpoint 8081)) { socket_fd = 3 } ∷ []
unfolding net_init_program find_from net_init
opens_first_free = refl

net_run_lem_example : held_after [] (net_run hung_up one_client).1 ≡ none
unfolding accept_client some_gone watched_from
net_run_lem_example =
    net_run_lem hung_up one_client listener [] (λ fd. fd == 5) refl refl (omega arith) refl

net_remove_client-net_add_client_example :
    let added = net_add_client one_client 6 peer_address in
    (added.1 ≡ true)
    × (peer_of added.0.clients 6 ≡ some peer_address)
    × (active_clients (net_remove_client added.0 6).0.clients ≡ active_clients one_client.clients)
unfolding has_client has_room
net_remove_client-net_add_client_example =
    net_remove_client-net_add_client one_client 6 peer_address refl
