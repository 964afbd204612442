-- ===== src/Network/Clients.antt =====
-- The table of clients.
use libpolycall_v.Prelude.{
  true, false, [], ◌∷◌, List, ℕ, Bool, if◌then◌else◌, ◌&&◌, ◌+◌, ◌++◌, ltb, not, ◌==◌,
}
use libpolycall_v.Network.{
  lock, unlock, closed, clients_lock, client_lock, ClientState, NetworkProgram, NetworkEndpoint,
  SocketAddress, Event,
}
use libpolycall_v.Network.Endpoint.{net_close}

abbrev pub one_look : ℕ → List Event
one_look i = lock (client_lock i) ∷ unlock (client_lock i) ∷ []

-- The loop of `net_add_client` from client `i` on.
unfoldable pub add_from :
    ℕ → List ClientState → ℕ → SocketAddress → List ClientState × Bool × List Event
add_from i [] socket_fd addr = ([], false, [])
add_from i (c ∷ clients) socket_fd addr =
    let rest = add_from (i + 1) clients socket_fd addr in
    if not c.is_active
    then (
      record { is_active = true; socket_fd = socket_fd; addr = addr } ∷ clients,
      true,
      one_look i,
    )
    else (c ∷ rest.0, rest.1, one_look i ++ rest.2)

-- The program, whether the client was added, and the events.
unfoldable pub net_add_client :
    NetworkProgram → ℕ → SocketAddress → NetworkProgram × Bool × List Event
net_add_client program socket_fd addr =
    let result = add_from 0 program.clients socket_fd addr in
    (
      record program { clients = result.0 },
      result.1,
      lock clients_lock ∷ (result.2 ++ unlock clients_lock ∷ []),
    )

abbrev pub is_client : ℕ → ClientState → Bool
is_client socket_fd c = c.is_active && c.socket_fd == socket_fd

abbrev pub gone : ClientState → ClientState
gone c = record c { is_active = false; socket_fd = 0 }

-- The loop of `net_remove_client` from client `i` on.
unfoldable pub remove_from : ℕ → List ClientState → ℕ → List ClientState × List Event
remove_from i [] socket_fd = ([], [])
remove_from i (c ∷ clients) socket_fd =
    let rest = remove_from (i + 1) clients socket_fd in
    if is_client socket_fd c
    then (
      gone c ∷ rest.0,
      lock (client_lock i) ∷ closed c.socket_fd ∷ unlock (client_lock i) ∷ rest.1,
    )
    else (c ∷ rest.0, one_look i ++ rest.1)

unfoldable pub net_remove_client : NetworkProgram → ℕ → NetworkProgram × List Event
net_remove_client program socket_fd =
    let result = remove_from 0 program.clients socket_fd in
    (
      record program { clients = result.0 },
      lock clients_lock ∷ (result.1 ++ unlock clients_lock ∷ []),
    )

-- `net_cleanup_client_state`.
abbrev pub cleanup_client : ℕ → ClientState → ClientState × List Event
cleanup_client i c = (
  record c { is_active = false; socket_fd = 0 },
  if ltb 0 c.socket_fd
      then lock (client_lock i) ∷ closed c.socket_fd ∷ unlock (client_lock i) ∷ []
      else one_look i,
)

unfoldable pub cleanup_clients : ℕ → List ClientState → List ClientState × List Event
cleanup_clients i [] = ([], [])
cleanup_clients i (c ∷ clients) =
    let one = cleanup_client i c in
    let rest = cleanup_clients (i + 1) clients in (one.0 ∷ rest.0, one.1 ++ rest.1)

unfoldable pub close_all : List NetworkEndpoint → List Event
close_all [] = []
close_all (endpoint ∷ endpoints) = (net_close endpoint).1 ++ close_all endpoints

-- `net_cleanup_program`.
unfoldable pub net_cleanup_program : NetworkProgram → NetworkProgram × List Event
net_cleanup_program program =
    let result = cleanup_clients 0 program.clients in
    (
      record program { running = false; endpoints = []; clients = result.0 },
      lock clients_lock ∷ (close_all program.endpoints ++ (result.1 ++ unlock clients_lock ∷ [])),
    )
