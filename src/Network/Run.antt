-- ===== src/Network/Run.antt =====
-- One round of the network: `net_run`.
use libpolycall_v.Prelude.{
  none, some, true, false, zero, suc, [], ◌∷◌, List, ℕ, Bool, if◌then◌else◌, Option, ◌+◌, ◌++◌, not,
  ◌&&◌, get_or, ltb, ◌==◌,
}
use libpolycall_v.Network.{
  lock, unlock, closed, connected, disconnected, received, clients_lock, client_lock, ClientState,
  NetworkProgram, SocketAddress, net_max_clients, NetworkEndpoint, zero_client, Event,
}
use libpolycall_v.Network.Clients.{net_add_client, net_remove_client, one_look}

-- What the system answers. `select` answers which of the watched descriptors are ready, if it does
-- not fail; `recv` nothing on an error.
pub record Answers : Type 0 where
  pub select : List ℕ → Option (ℕ → Bool)
  pub accept : Option (ℕ × SocketAddress)
  pub nonblocking : Bool
  pub recv : ℕ → Option (List ℕ)

-- The active clients' descriptors, and the locks taken to read them.
unfoldable pub watched_from : ℕ → List ClientState → List ℕ × List Event
watched_from i [] = ([], [])
watched_from i (c ∷ clients) =
    let rest = watched_from (i + 1) clients in
    (
      if c.is_active && ltb 0 c.socket_fd then c.socket_fd ∷ rest.0 else rest.0,
      one_look i ++ rest.1,
    )

abbrev pub event_when : Bool → Event → List Event
event_when b e = if b then e ∷ [] else []

abbrev pub added_client :
    NetworkProgram → ℕ → NetworkProgram × Bool × List Event → NetworkProgram × List Event
added_client program fd (next, added, events) = (
  next,
  events ++ (if added then event_when program.on_connect (connected fd) else closed fd ∷ []),
)

-- What `accept` gave, and whether the socket could be set not to block.
abbrev pub accepting :
    NetworkProgram → Bool → Option (ℕ × SocketAddress) → NetworkProgram × List Event × Bool
accepting program nonblocking none = (program, [], true)
accepting program false (some (fd, addr)) = (program, closed fd ∷ [], false)
accepting program true (some (fd, addr)) =
    let result = added_client program fd (net_add_client program fd addr) in
    (result.0, result.1, true)

-- A new connection: the program and the events, and whether the round goes on.
unfoldable pub accept_client : Answers → NetworkProgram → Bool → NetworkProgram × List Event × Bool
accept_client os program false = (program, [], true)
accept_client os program true = accepting program os.nonblocking os.accept

-- `recv` gave nothing, or the connection's end.
abbrev pub is_end : Option (List ℕ) → Bool
is_end none = true
is_end (some []) = true
is_end (some (b ∷ bytes)) = false

abbrev pub bytes_read : Option (List ℕ) → List ℕ
bytes_read none = []
bytes_read (some bytes) = bytes

abbrev pub is_gone : Answers → (ℕ → Bool) → ClientState → Bool
is_gone os ready c = c.is_active && ready c.socket_fd && is_end (os.recv c.socket_fd)

-- The client whose connection has ended is removed.
abbrev pub dropped : NetworkProgram → ℕ → NetworkProgram × List Event
dropped program fd =
    let result = net_remove_client program fd in
    (result.0, event_when program.on_disconnect (disconnected fd) ++ result.1)

-- What is done for a client while its mutex is held.
unfoldable pub serve_client :
    Answers → (ℕ → Bool) → NetworkProgram → ClientState → NetworkProgram × List Event
serve_client os ready program c =
    if not (c.is_active && ready c.socket_fd)
    then (program, [])
    else if is_end (os.recv c.socket_fd)
    then dropped program c.socket_fd
    else (
      program,
      event_when program.on_receive (received c.socket_fd (bytes_read (os.recv c.socket_fd))),
    )

-- The last loop, from client `i` on for `n` clients.
unfoldable pub serve_from :
    Answers → (ℕ → Bool) → ℕ → ℕ → NetworkProgram → NetworkProgram × List Event
serve_from os ready i zero program = (program, [])
serve_from os ready i (suc n) program =
    let one = serve_client os ready program (get_or program.clients i zero_client) in
    let rest = serve_from os ready (i + 1) n one.0 in
    (rest.0, lock (client_lock i) ∷ (one.1 ++ unlock (client_lock i) ∷ rest.1))

unfoldable pub serve : Answers → (ℕ → Bool) → NetworkProgram → NetworkProgram × List Event
serve os ready program =
    let result = serve_from os ready 0 net_max_clients program in
    (result.0, lock clients_lock ∷ (result.1 ++ unlock clients_lock ∷ []))

abbrev pub then_serve :
    Answers → (ℕ → Bool) → NetworkProgram × List Event × Bool → NetworkProgram × List Event
then_serve os ready (program, events, false) = (program, events)
then_serve os ready (program, events, true) =
    let result = serve os ready program in (result.0, events ++ result.1)

abbrev pub after_select :
    Answers → NetworkProgram → ℕ → List Event → Option (ℕ → Bool) → NetworkProgram × List Event
after_select os program listener before none = (program, before)
after_select os program listener before (some ready) =
    let result = then_serve os ready (accept_client os program (ready listener)) in
    (result.0, before ++ result.1)

abbrev pub looks : List Event → List Event
looks events = lock clients_lock ∷ (events ++ unlock clients_lock ∷ [])

-- The round for a listening socket.
unfoldable pub run_on : Answers → NetworkProgram → ℕ → NetworkProgram × List Event
run_on os program listener =
    let watched = watched_from 0 program.clients in
    after_select os program listener (looks watched.1) (os.select (listener ∷ watched.0))

unfoldable pub run_endpoints :
    Answers → NetworkProgram → List NetworkEndpoint → NetworkProgram × List Event
run_endpoints os program [] = (program, [])
run_endpoints os program (endpoint ∷ _) =
    if endpoint.socket_fd == 0 then (program, []) else run_on os program endpoint.socket_fd

unfoldable pub net_run : Answers → NetworkProgram → NetworkProgram × List Event
net_run os program =
    if not program.running then (program, []) else run_endpoints os program program.endpoints
