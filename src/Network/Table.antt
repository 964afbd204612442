-- ===== src/Network/Table.antt =====
-- Adding a client and removing it.
use libpolycall_v.Prelude.{
  none, some, Option, not, refl, true, false, [], inl, inr, ◌∷◌, List, ℕ, Bool, if◌then◌else◌, ◌≡◌,
  ◌||◌, arith, ap, Bool-cases, ◌+◌, ==_refl, ◌∙◌, sym,
}
use libpolycall_v.Network.{ClientState, SocketAddress, NetworkProgram}
use libpolycall_v.Network.Clients.{
  remove_from, net_remove_client, is_client, add_from, net_add_client,
}

unfoldable pub active_clients : List ClientState → List ClientState
active_clients [] = []
active_clients (c ∷ clients) =
    let rest = active_clients clients in if c.is_active then c ∷ rest else rest

unfoldable pub has_client : List ClientState → ℕ → Bool
has_client [] socket_fd = false
has_client (c ∷ clients) socket_fd = is_client socket_fd c || has_client clients socket_fd

remove_from-same :
    (i : ℕ) (clients : List ClientState) (socket_fd : ℕ)
    → has_client clients socket_fd ≡ false
    → (remove_from i clients socket_fd).0 ≡ clients
unfolding remove_from has_client
remove_from-same i [] socket_fd h = refl
remove_from-same i (c ∷ clients) socket_fd h =
    let a : is_client socket_fd c ≡ false = ground (arith, h) in
    rw a (ap (c ∷◌) (remove_from-same (i + 1) clients socket_fd (ground (arith, h))))

add_from-active :
    (j : ℕ) (c : ClientState) (clients : List ClientState) (socket_fd : ℕ) (addr : SocketAddress)
    → c.is_active ≡ true
    → (add_from j (c ∷ clients) socket_fd addr).0 ≡ c ∷ (add_from (j + 1) clients socket_fd addr).0
unfolding add_from
add_from-active j c clients socket_fd addr t = simp t

active_clients-active :
    (c : ClientState) (clients : List ClientState)
    → c.is_active ≡ true
    → active_clients (c ∷ clients) ≡ c ∷ active_clients clients
unfolding active_clients
active_clients-active c clients t = simp t

active_clients-free :
    (c : ClientState) (clients : List ClientState)
    → c.is_active ≡ false
    → active_clients (c ∷ clients) ≡ active_clients clients
unfolding active_clients
active_clients-free c clients t = simp t

abbrev pub new_client : ℕ → SocketAddress → ClientState
new_client socket_fd addr = record { is_active = true; socket_fd = socket_fd; addr = addr }

add_from-free :
    (j : ℕ) (c : ClientState) (clients : List ClientState) (socket_fd : ℕ) (addr : SocketAddress)
    → c.is_active ≡ false
    → (add_from j (c ∷ clients) socket_fd addr).0 ≡ new_client socket_fd addr ∷ clients
unfolding add_from
add_from-free j c clients socket_fd addr t = simp t

remove_from-new :
    (i : ℕ) (clients : List ClientState) (socket_fd : ℕ) (addr : SocketAddress)
    → active_clients (remove_from i (new_client socket_fd addr ∷ clients) socket_fd).0
      ≡ active_clients (remove_from (i + 1) clients socket_fd).0
unfolding remove_from active_clients
remove_from-new i clients socket_fd addr = rw (==_refl socket_fd) refl

remove_from-other :
    (i : ℕ) (c : ClientState) (clients : List ClientState) (socket_fd : ℕ)
    → is_client socket_fd c ≡ false
    → (remove_from i (c ∷ clients) socket_fd).0 ≡ c ∷ (remove_from (i + 1) clients socket_fd).0
unfolding remove_from
remove_from-other i c clients socket_fd a = rw a refl

remove_from-add_from :
    (i j : ℕ) (clients : List ClientState) (socket_fd : ℕ) (addr : SocketAddress)
    → has_client clients socket_fd ≡ false
    → active_clients (remove_from i (add_from j clients socket_fd addr).0 socket_fd).0
      ≡ active_clients clients
unfolding has_client remove_from add_from
remove_from-add_from i j [] socket_fd addr h = refl
remove_from-add_from i j (c ∷ clients) socket_fd addr h =
    let a : is_client socket_fd c ≡ false = ground (arith, h) in
    let k : has_client clients socket_fd ≡ false = ground (arith, h) in
    let rest = (add_from (j + 1) clients socket_fd addr).0 in
    elim (Bool-cases c.is_active) [
      | inl t ↦
          ap (λ cs. active_clients (remove_from i cs socket_fd).0)
            (add_from-active j c clients socket_fd addr t)
          ∙ ap active_clients (remove_from-other i c rest socket_fd a)
          ∙ active_clients-active c (remove_from (i + 1) rest socket_fd).0 t
          ∙ ap (c ∷◌) (remove_from-add_from (i + 1) (j + 1) clients socket_fd addr k)
          ∙ sym (active_clients-active c clients t)
      | inr t ↦
          ap (λ cs. active_clients (remove_from i cs socket_fd).0)
            (add_from-free j c clients socket_fd addr t)
          ∙ remove_from-new i clients socket_fd addr
          ∙ ap active_clients (remove_from-same (i + 1) clients socket_fd k)
          ∙ sym (active_clients-free c clients t)
    ]

-- The address of the active client under a descriptor.
unfoldable pub peer_of : List ClientState → ℕ → Option SocketAddress
peer_of [] socket_fd = none
peer_of (c ∷ clients) socket_fd =
    let rest = peer_of clients socket_fd in if is_client socket_fd c then some c.addr else rest

unfoldable pub has_room : List ClientState → Bool
has_room [] = false
has_room (c ∷ clients) = not c.is_active || has_room clients

abbrev pub some_if {ℓ} : {A : Type ℓ} → Bool → A → Option A
some_if b a = if b then some a else none

peer_of-other :
    (c : ClientState) (clients : List ClientState) (socket_fd : ℕ)
    → is_client socket_fd c ≡ false
    → peer_of (c ∷ clients) socket_fd ≡ peer_of clients socket_fd
unfolding peer_of
peer_of-other c clients socket_fd a = rw a refl

peer_of-new :
    (clients : List ClientState) (socket_fd : ℕ) (addr : SocketAddress)
    → peer_of (new_client socket_fd addr ∷ clients) socket_fd ≡ some addr
unfolding peer_of
peer_of-new clients socket_fd addr = rw (==_refl socket_fd) refl

peer_of-add_from :
    (j : ℕ) (clients : List ClientState) (socket_fd : ℕ) (addr : SocketAddress)
    → has_client clients socket_fd ≡ false
    → peer_of (add_from j clients socket_fd addr).0 socket_fd ≡ some_if (has_room clients) addr
unfolding has_client has_room add_from peer_of
peer_of-add_from j [] socket_fd addr h = refl
peer_of-add_from j (c ∷ clients) socket_fd addr h =
    let a : is_client socket_fd c ≡ false = ground (arith, h) in
    let k : has_client clients socket_fd ≡ false = ground (arith, h) in
    elim (Bool-cases c.is_active) [
      | inl t ↦
          ap (λ cs. peer_of cs socket_fd) (add_from-active j c clients socket_fd addr t)
          ∙ peer_of-other c (add_from (j + 1) clients socket_fd addr).0 socket_fd a
          ∙ peer_of-add_from (j + 1) clients socket_fd addr k
          ∙ ap (λ b. some_if (not b || has_room clients) addr) (sym t)
      | inr t ↦
          ap (λ cs. peer_of cs socket_fd) (add_from-free j c clients socket_fd addr t)
          ∙ peer_of-new clients socket_fd addr
          ∙ ap (λ b. some_if (not b || has_room clients) addr) (sym t)
    ]

add_from-has_room :
    (j : ℕ) (clients : List ClientState) (socket_fd : ℕ) (addr : SocketAddress)
    → (add_from j clients socket_fd addr).1 ≡ has_room clients
unfolding add_from has_room
add_from-has_room j [] socket_fd addr = refl
add_from-has_room j (c ∷ clients) socket_fd addr =
    let ih = add_from-has_room (j + 1) clients socket_fd addr in ground (arith, ih)

-- Adding a client under an unused descriptor succeeds exactly when a slot is free; then the
-- client is found under that descriptor with its address; and removing the descriptor gives
-- back the active clients, in their order.
pub net_remove_client-net_add_client :
    (program : NetworkProgram) (socket_fd : ℕ) (addr : SocketAddress)
    → has_client program.clients socket_fd ≡ false
    → let added = net_add_client program socket_fd addr in
      (added.1 ≡ has_room program.clients)
      × (peer_of added.0.clients socket_fd ≡ some_if (has_room program.clients) addr)
      × (active_clients (net_remove_client added.0 socket_fd).0.clients
          ≡ active_clients program.clients)
unfolding net_remove_client net_add_client
net_remove_client-net_add_client program socket_fd addr h = (
  add_from-has_room 0 program.clients socket_fd addr,
  peer_of-add_from 0 program.clients socket_fd addr h,
  remove_from-add_from 0 0 program.clients socket_fd addr h,
)
