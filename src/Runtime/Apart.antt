-- ===== src/Runtime/Apart.antt =====
-- Tables of port mappings without a shared port, and the runs that keep them.
use libpolycall_v.Prelude.{
  ◌≢◌, ◌<◌, [], ◌∷◌, refl, true, List, ℕ, ◌≡◌, length, ◌≤◌, ◌++◌, arith, suc,
}
use libpolycall_v.Runtime.{
  went, overran, Attempt, PortMapping, PpiRuntime, max_programs, followed_by,
}
use libpolycall_v.Runtime.Ports.{is_port_available, validate_port_mapping, new_mapping}

-- A mapping shares no port with any of the others.
unfoldable pub SharesNone : PortMapping → List PortMapping → Type 0
SharesNone m [] = Unit {0}
SharesNone m (n ∷ mappings) =
    (m.host_port ≢ n.host_port)
    × (m.host_port ≢ n.container_port)
    × (m.container_port ≢ n.host_port)
    × (m.container_port ≢ n.container_port)
    × SharesNone m mappings

-- Every mapping is active, has ports, and shares no port with a later one.
unfoldable pub AllApart : List PortMapping → Type 0
AllApart [] = Unit {0}
AllApart (m ∷ mappings) =
    (m.is_active ≡ true)
    × (0 < m.host_port)
    × (0 < m.container_port)
    × SharesNone m mappings
    × AllApart mappings

-- The table, and one program for each mapping in it.
pub record IsPorts (runtime : PpiRuntime) : Type 0 where
  pub programs_le : length runtime.programs ≤ max_programs
  pub apart : AllApart runtime.port_mappings
  pub programs_eq : length runtime.programs ≡ length runtime.port_mappings

-- Before the write past the array: every place is taken, and there is one mapping more.
pub record IsFull (runtime : PpiRuntime) : Type 0 where
  pub programs_eq : length runtime.programs ≡ max_programs
  pub mappings_eq : length runtime.port_mappings ≡ suc max_programs
  pub apart : AllApart runtime.port_mappings

abbrev pub AllGoes {ℓ} : {A : Type ℓ} → (A → Type 0) → Attempt A → Type 0
AllGoes P (went a) = P a
AllGoes P (overran runtime) = IsFull runtime

pub followed_by-AllGoes {ℓ κ} :
    {A : Type ℓ} {B : Type κ} (P : A → Type 0) (Q : B → Type 0) (o : Attempt A) (f : A → Attempt B)
    → AllGoes P o
    → ((a : A) → P a → AllGoes Q (f a))
    → AllGoes Q (followed_by o f)
followed_by-AllGoes P Q (went a) f p q = q a p
followed_by-AllGoes P Q (overran runtime) f p q = p

abbrev pub HasPorts {ℓ} : {A : Type ℓ} → PpiRuntime × A → Type 0
HasPorts (runtime, a) = IsPorts runtime

append-SharesNone :
    (m : PortMapping) (mappings : List PortMapping) (n : PortMapping)
    → SharesNone m mappings
    → SharesNone m (n ∷ [])
    → SharesNone m (mappings ++ n ∷ [])
unfolding SharesNone
append-SharesNone m [] n s d = d
append-SharesNone m (k ∷ mappings) n (a, b, c, d, s) e =
    (a, b, c, d, append-SharesNone m mappings n s e)

-- Ports that are available are not those of an active mapping.
available-SharesNone :
    (m : PortMapping) (mappings : List PortMapping) (host container : ℕ)
    → m.is_active ≡ true
    → is_port_available (m ∷ mappings) host ≡ true
    → is_port_available (m ∷ mappings) container ≡ true
    → SharesNone m (new_mapping host container ∷ [])
unfolding SharesNone is_port_available
available-SharesNone m mappings host container on h c =
    (ground (arith, on, h), ground (arith, on, c), ground (arith, on, h), ground (arith, on, c), tt)

is_port_available-tail :
    (m : PortMapping) (mappings : List PortMapping) (port : ℕ)
    → is_port_available (m ∷ mappings) port ≡ true
    → is_port_available mappings port ≡ true
unfolding is_port_available
is_port_available-tail m mappings port a = ground (arith, a)

pub append-AllApart :
    (mappings : List PortMapping) (host container : ℕ)
    → AllApart mappings
    → validate_port_mapping (new_mapping host container) ≡ true
    → is_port_available mappings host ≡ true
    → is_port_available mappings container ≡ true
    → AllApart (mappings ++ new_mapping host container ∷ [])
unfolding AllApart SharesNone
append-AllApart [] host container a v h c = (refl, ground (arith, v), ground (arith, v), tt, tt)
append-AllApart (m ∷ mappings) host container (on, p, q, s, a) v h c = (
  on,
  p,
  q,
  append-SharesNone m mappings (new_mapping host container) s
      (available-SharesNone m mappings host container on h c),
  append-AllApart mappings host container a v (is_port_available-tail m mappings host h)
      (is_port_available-tail m mappings container c),
)
