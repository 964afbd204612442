-- ===== src/Network/Deadlock.antt =====
-- When a round of the network blocks itself: removing a client takes the mutexes that the loop
-- around it holds.
use libpolycall_v.Prelude.{
  refl, none, some, true, false, zero, suc, [], inl, inr, ◌∷◌, ℕ, Bool, if◌then◌else◌, get_or, ◌≡◌,
  ◌&&◌, ◌||◌, arith, Bool-cases, ◌+◌, ◌∙◌, ap,
}
use libpolycall_v.Network.{
  unlock, clients_lock, client_lock, NetworkProgram, ClientState, zero_client, net_max_clients,
}
use libpolycall_v.Network.Run.{Answers, serve_client, serve_from, serve, is_gone, is_end}
use libpolycall_v.Network.Clients.{net_remove_client}
use libpolycall_v.Network.Locks.{
  held_after, holds, table_held, released, IsBalanced, held_after-append, then_events, around_lem,
}

-- Whether the connection of one of the `n` clients from `i` on has ended.
unfoldable pub some_gone : Answers → (ℕ → Bool) → NetworkProgram → ℕ → ℕ → Bool
some_gone os ready program i zero = false
some_gone os ready program i (suc n) =
    is_gone os ready (get_or program.clients i zero_client) || some_gone os ready program (i + 1) n

serve_client-gone :
    (os : Answers) (ready : ℕ → Bool) (program : NetworkProgram) (c : ClientState) (i : ℕ)
    → is_gone os ready c ≡ true
    → held_after (client_lock i ∷ table_held) (serve_client os ready program c).1 ≡ none
unfolding serve_client net_remove_client held_after holds
serve_client-gone os ready program c i g =
    let a : (c.is_active && ready c.socket_fd) ≡ true = ground (arith, g) in
    let b : is_end (os.recv c.socket_fd) ≡ true = ground (arith, g) in
    elim (Bool-cases program.on_disconnect) [
      | inl d ↦ rw (a, b, d) refl
      | inr d ↦ rw (a, b, d) refl
    ]

serve_client-kept :
    (os : Answers) (ready : ℕ → Bool) (program : NetworkProgram) (c : ClientState) (i : ℕ)
    → is_gone os ready c ≡ false
    → ((serve_client os ready program c).0 ≡ program)
      × IsBalanced (client_lock i ∷ table_held) (serve_client os ready program c).1
unfolding serve_client held_after
serve_client-kept os ready program c i g = elim (Bool-cases (c.is_active && ready c.socket_fd)) [
  | inl a ↦
      let b : is_end (os.recv c.socket_fd) ≡ false = ground (arith, g, a) in
      elim (Bool-cases program.on_receive) [
        | inl d ↦ (rw (a, b) refl, rw (a, b, d) refl)
        | inr d ↦ (rw (a, b) refl, rw (a, b, d) refl)
      ]
  | inr a ↦ (rw a refl, rw a refl)
]

serve_from_lem :
    (os : Answers) (ready : ℕ → Bool) (program : NetworkProgram) (i n : ℕ)
    → held_after table_held (serve_from os ready i n program).1
      ≡ (if some_gone os ready program i n then none else some table_held)
unfolding serve_from some_gone held_after holds
serve_from_lem os ready program i zero = refl
serve_from_lem os ready program i (suc n) =
    let c = get_or program.clients i zero_client in
    let one = serve_client os ready program c in
    let rest = serve_from os ready (i + 1) n one.0 in
    elim (Bool-cases (is_gone os ready c)) [
      | inl g ↦ rw g (
          held_after-append one.1 (unlock (client_lock i) ∷ rest.1) (client_lock i ∷ table_held)
          ∙ ap (λ o. then_events o (unlock (client_lock i) ∷ rest.1))
              (serve_client-gone os ready program c i g))
      | inr g ↦
          let (same, b) = serve_client-kept os ready program c i g in
          rw g (
            around_lem (client_lock i) table_held one.1 rest.1 refl b
            ∙ ap (λ p. held_after table_held (serve_from os ready (i + 1) n p).1) same
            ∙ serve_from_lem os ready program (i + 1) n)
    ]

pub serve_lem :
    (os : Answers) (ready : ℕ → Bool) (program : NetworkProgram)
    → held_after [] (serve os ready program).1
      ≡ (if some_gone os ready program 0 net_max_clients then none else some [])
unfolding serve held_after holds released
serve_lem os ready program =
    held_after-append (serve_from os ready 0 net_max_clients program).1 (unlock clients_lock ∷ [])
      table_held
    ∙ ap (λ o. then_events o (unlock clients_lock ∷ []))
        (serve_from_lem os ready program 0 net_max_clients)
    ∙ elim (Bool-cases (some_gone os ready program 0 net_max_clients)) [
      | inl g ↦ rw g refl
      | inr g ↦ rw g refl
    ]
