-- ===== src/Network/Round.antt =====
-- A round of the network from its start.
use libpolycall_v.Prelude.{
  refl, none, some, true, false, [], inl, inr, ◌∷◌, List, ℕ, Bool, if◌then◌else◌, ◌≡◌, Bool-cases,
  ◌&&◌, ◌<◌, ◌==◌, arith, ◌∙◌, ap, Option,
}
use libpolycall_v.Network.{
  closed, connected, clients_lock, Event, NetworkProgram, SocketAddress, NetworkEndpoint,
  net_max_clients,
}
use libpolycall_v.Network.Clients.{net_add_client, add_from}
use libpolycall_v.Network.Locks.{
  held_after, holds, IsBalanced, around_lem, add_from-IsBalanced, held_after-append,
  watched_from-IsBalanced, then_events, append-IsBalanced,
}
use libpolycall_v.Network.Run.{
  accept_client, Answers, run_on, net_run, run_endpoints, watched_from, then_serve, serve,
  added_client, looks, after_select, accepting,
}
use libpolycall_v.Network.Deadlock.{some_gone, serve_lem}

net_add_client-IsBalanced :
    (program : NetworkProgram) (fd : ℕ) (addr : SocketAddress)
    → IsBalanced [] (net_add_client program fd addr).2
unfolding net_add_client held_after holds
net_add_client-IsBalanced program fd addr =
    around_lem clients_lock [] (add_from 0 program.clients fd addr).2 [] refl
      (add_from-IsBalanced 0 program.clients fd addr)

added_client-IsBalanced :
    (program next : NetworkProgram) (fd : ℕ) (added : Bool) (events : List Event)
    → IsBalanced [] events
    → IsBalanced [] (added_client program fd (next, added, events)).1
unfolding held_after
added_client-IsBalanced program next fd true events b = elim (Bool-cases program.on_connect) [
  | inl t ↦ rw t (append-IsBalanced [] events (connected fd ∷ []) b refl)
  | inr t ↦ rw t (append-IsBalanced [] events [] b refl)
]
added_client-IsBalanced program next fd false events b =
    append-IsBalanced [] events (closed fd ∷ []) b refl

accepting-IsBalanced :
    (program : NetworkProgram) (nonblocking : Bool) (o : Option (ℕ × SocketAddress))
    → IsBalanced [] (accepting program nonblocking o).1
unfolding held_after
accepting-IsBalanced program nonblocking none = refl
accepting-IsBalanced program false (some (fd, addr)) = refl
accepting-IsBalanced program true (some (fd, addr)) =
    let result = net_add_client program fd addr in
    added_client-IsBalanced program result.0 fd result.1 result.2
      (net_add_client-IsBalanced program fd addr)

accept_client-IsBalanced :
    (os : Answers) (program : NetworkProgram) (new : Bool)
    → IsBalanced [] (accept_client os program new).1
unfolding accept_client held_after
accept_client-IsBalanced os program false = refl
accept_client-IsBalanced os program true = accepting-IsBalanced program os.nonblocking os.accept

then_serve_lem :
    (os : Answers) (ready : ℕ → Bool) (program : NetworkProgram) (events : List Event)
    (goes_on : Bool)
    → IsBalanced [] events
    → held_after [] (then_serve os ready (program, events, goes_on)).1
      ≡ (if goes_on && some_gone os ready program 0 net_max_clients then none else some [])
then_serve_lem os ready program events false b = b
then_serve_lem os ready program events true b =
    held_after-append events (serve os ready program).1 []
    ∙ ap (λ o. then_events o (serve os ready program).1) b
    ∙ serve_lem os ready program

nothing_held : held_after [] [] ≡ some []
unfolding held_after
nothing_held = refl

run_on_lem :
    (os : Answers) (program : NetworkProgram) (listener : ℕ) (ready : ℕ → Bool)
    → os.select (listener ∷ (watched_from 0 program.clients).0) ≡ some ready
    → held_after [] (run_on os program listener).1 ≡ (
        if (accept_client os program (ready listener)).2
          && some_gone os ready (accept_client os program (ready listener)).0 0 net_max_clients
        then none
        else some [])
unfolding run_on holds
run_on_lem os program listener ready e =
    let accepted = accept_client os program (ready listener) in
    let watched = watched_from 0 program.clients in
    let rest = (then_serve os ready accepted).1 in
    let b : IsBalanced [] (looks watched.1) =
      around_lem clients_lock [] watched.1 [] refl (watched_from-IsBalanced 0 program.clients)
      ∙ nothing_held in
    ap (λ o. held_after [] (after_select os program listener (looks watched.1) o).1) e
    ∙ held_after-append (looks watched.1) rest []
    ∙ ap (λ o. then_events o rest) b
    ∙ then_serve_lem os ready accepted.0 accepted.1 accepted.2
        (accept_client-IsBalanced os program (ready listener))

-- With mutexes that are not recursive, a round that reaches `select` with success gives back
-- every mutex it takes, unless it goes on to the clients and the connection of one of them has
-- ended: then the thread asks for a mutex that it holds.
pub net_run_lem :
    (os : Answers) (program : NetworkProgram) (listener : NetworkEndpoint)
    (others : List NetworkEndpoint) (ready : ℕ → Bool)
    → program.running ≡ true
    → program.endpoints ≡ listener ∷ others
    → 0 < listener.socket_fd
    → os.select (listener.socket_fd ∷ (watched_from 0 program.clients).0) ≡ some ready
    → held_after [] (net_run os program).1 ≡ (
        if (accept_client os program (ready listener.socket_fd)).2
          && some_gone os ready
              (accept_client os program (ready listener.socket_fd)).0
              0
              net_max_clients
        then none
        else some [])
unfolding net_run run_endpoints
net_run_lem os program listener others ready r es p e =
    let f : (listener.socket_fd == 0) ≡ false = ground (arith, p) in
    let go : net_run os program ≡ run_on os program listener.socket_fd = rw (r, es, f) refl in
    ap (λ o. held_after [] o.1) go ∙ run_on_lem os program listener.socket_fd ready e
