-- ===== src/Network/Locks.antt =====
-- The mutexes that a thread holds: taking one that it holds already blocks it for ever, as a
-- mutex that `pthread_mutex_init` makes with no attributes does outside Windows.
use libpolycall_v.Prelude.{
  refl, none, some, true, false, [], inl, inr, ◌∷◌, List, ℕ, Bool, if◌then◌else◌, Option, ◌==◌,
  ◌||◌, ◌++◌, ◌≡◌, ==_refl, Bool-cases, ◌∙◌, ◌+◌, ap,
}
use libpolycall_v.Network.{
  lock, unlock, closed, connected, disconnected, received, clients_lock, endpoint_lock, client_lock,
  Event, Mutex, ClientState, SocketAddress,
}
use libpolycall_v.Network.Clients.{one_look, add_from, remove_from, is_client}
use libpolycall_v.Network.Run.{watched_from}

abbrev pub same_mutex : Mutex → Mutex → Bool
same_mutex clients_lock clients_lock = true
same_mutex endpoint_lock endpoint_lock = true
same_mutex (client_lock i) (client_lock j) = i == j
same_mutex _ _ = false

unfoldable pub holds : List Mutex → Mutex → Bool
holds [] m = false
holds (h ∷ held) m = same_mutex h m || holds held m

unfoldable pub released : List Mutex → Mutex → List Mutex
released [] m = []
released (h ∷ held) m = let rest = released held m in if same_mutex h m then held else h ∷ rest

-- The mutexes held at the end, if the thread is never blocked for ever.
unfoldable pub held_after : List Mutex → List Event → Option (List Mutex)
held_after held [] = some held
held_after held (lock m ∷ events) =
    let rest = held_after (m ∷ held) events in if holds held m then none else rest
held_after held (unlock m ∷ events) = held_after (released held m) events
held_after held (_ ∷ events) = held_after held events

abbrev pub then_events : Option (List Mutex) → List Event → Option (List Mutex)
then_events none events = none
then_events (some held) events = held_after held events

pub held_after-append :
    (events more : List Event) (held : List Mutex)
    → held_after held (events ++ more) ≡ then_events (held_after held events) more
unfolding held_after
held_after-append [] more held = refl
held_after-append (lock m ∷ events) more held =
    let ih = held_after-append events more (m ∷ held) in
    elim (Bool-cases (holds held m)) [ inl f ↦ rw f refl | inr f ↦ rw f ih ]
held_after-append (unlock m ∷ events) more held = held_after-append events more (released held m)
held_after-append (closed fd ∷ events) more held = held_after-append events more held
held_after-append (connected fd ∷ events) more held = held_after-append events more held
held_after-append (disconnected fd ∷ events) more held = held_after-append events more held
held_after-append (received fd bytes ∷ events) more held = held_after-append events more held

-- Events that leave the mutexes held as they were.
abbrev pub IsBalanced : List Mutex → List Event → Type 0
IsBalanced held events = held_after held events ≡ some held

pub append-IsBalanced :
    (held : List Mutex) (events more : List Event)
    → IsBalanced held events
    → IsBalanced held more
    → IsBalanced held (events ++ more)
append-IsBalanced held events more p q =
    held_after-append events more held ∙ ap (λ o. then_events o more) p ∙ q

abbrev pub table_held : List Mutex
table_held = clients_lock ∷ []

same_mutex_refl : (m : Mutex) → same_mutex m m ≡ true
same_mutex_refl clients_lock = refl
same_mutex_refl endpoint_lock = refl
same_mutex_refl (client_lock i) = ==_refl i

-- Events within a mutex that is taken and given back.
pub around_lem :
    (m : Mutex) (held : List Mutex) (events more : List Event)
    → holds held m ≡ false
    → IsBalanced (m ∷ held) events
    → held_after held (lock m ∷ (events ++ unlock m ∷ more)) ≡ held_after held more
unfolding held_after released
around_lem m held events more f p =
    let back : released (m ∷ held) m ≡ held = rw (released, same_mutex_refl m) refl in
    rw f (
      held_after-append events (unlock m ∷ more) (m ∷ held)
      ∙ ap (λ o. then_events o (unlock m ∷ more)) p
      ∙ ap (λ h. held_after h more) back)

pub one_look-IsBalanced : (i : ℕ) → IsBalanced table_held (one_look i)
unfolding held_after holds released
one_look-IsBalanced i = rw (==_refl i) refl

pub add_from-IsBalanced :
    (i : ℕ) (clients : List ClientState) (socket_fd : ℕ) (addr : SocketAddress)
    → IsBalanced table_held (add_from i clients socket_fd addr).2
unfolding add_from held_after
add_from-IsBalanced i [] socket_fd addr = refl
add_from-IsBalanced i (c ∷ clients) socket_fd addr = elim (Bool-cases c.is_active) [
  | inl a ↦ rw a (
      append-IsBalanced table_held (one_look i) (add_from (i + 1) clients socket_fd addr).2
        (one_look-IsBalanced i) (add_from-IsBalanced (i + 1) clients socket_fd addr))
  | inr a ↦ rw a (one_look-IsBalanced i)
]

pub remove_from-IsBalanced :
    (i : ℕ) (clients : List ClientState) (socket_fd : ℕ)
    → IsBalanced table_held (remove_from i clients socket_fd).1
unfolding remove_from held_after holds released
remove_from-IsBalanced i [] socket_fd = refl
remove_from-IsBalanced i (c ∷ clients) socket_fd =
    let ih = remove_from-IsBalanced (i + 1) clients socket_fd in
    elim (Bool-cases (is_client socket_fd c)) [
      | inl a ↦ rw (a, ==_refl i) ih
      | inr a ↦ rw a (
          append-IsBalanced table_held (one_look i) (remove_from (i + 1) clients socket_fd).1
            (one_look-IsBalanced i) ih)
    ]

pub watched_from-IsBalanced :
    (i : ℕ) (clients : List ClientState) → IsBalanced table_held (watched_from i clients).1
unfolding watched_from held_after
watched_from-IsBalanced i [] = refl
watched_from-IsBalanced i (c ∷ clients) =
    append-IsBalanced table_held (one_look i) (watched_from (i + 1) clients).1
      (one_look-IsBalanced i) (watched_from-IsBalanced (i + 1) clients)
