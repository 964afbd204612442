-- ===== src/Micro/Mask.antt =====
-- The mask of active slots: how many bits it has set, and where the searches end.
use mathlib.Core.Option.{map}
use libpolycall_v.Prelude.{
  refl, none, some, true, false, zero, suc, [], ◌∷◌, List, ℕ, Bool, if◌then◌else◌, ◌≤◌, ◌<◌, get_or,
  length, ◌≡◌, Option, arith, ap, set, ◌&&◌, if_rule, ◌==◌,
}
use libpolycall_v.Micro.Services.{free_slot, find_service}
use libpolycall_v.Micro.{ServiceState, reset_service_state}

-- The number of active slots.
unfoldable pub actives : List Bool → ℕ
actives [] = 0
actives (b ∷ mask) = if b then suc (actives mask) else actives mask

pub actives-le : (mask : List Bool) → actives mask ≤ length mask
unfolding actives
actives-le [] = omega arith
actives-le (b ∷ mask) = ground (arith, actives-le mask)

-- Unless every bit is set, the search for a free slot ends at one.
pub free_slot-free :
    (mask : List Bool)
    → actives mask < length mask
    → (free_slot mask < length mask) × (get_or mask (free_slot mask) false ≡ false)
unfolding actives free_slot
free_slot-free [] h = absurd (omega arith)
free_slot-free (true ∷ mask) h =
    let rest = free_slot-free mask (omega arith) in (omega (arith, rest.0), rest.1)
free_slot-free (false ∷ mask) h = (omega arith, refl)

pub free_slot_full : (mask : List Bool) → actives mask ≡ length mask → free_slot mask ≡ length mask
unfolding actives free_slot
free_slot_full [] h = refl
free_slot_full (true ∷ mask) h = ap suc (free_slot_full mask (omega arith))
free_slot_full (false ∷ mask) h = absurd (omega (arith, actives-le mask))

pub actives-set-true :
    (mask : List Bool) (i : ℕ)
    → i < length mask
    → get_or mask i false ≡ false
    → actives (set mask i true) ≡ suc (actives mask)
unfolding actives
actives-set-true [] i h k = absurd (omega arith)
actives-set-true (b ∷ mask) zero h k = rw k refl
actives-set-true (true ∷ mask) (suc i) h k = ap suc (actives-set-true mask i (omega arith) k)
actives-set-true (false ∷ mask) (suc i) h k = actives-set-true mask i (omega arith) k

pub actives-set-false :
    (mask : List Bool) (i : ℕ)
    → get_or mask i false ≡ true
    → suc (actives (set mask i false)) ≡ actives mask
unfolding actives
actives-set-false [] i k = ground (arith, k)
actives-set-false (b ∷ mask) zero k = rw k refl
actives-set-false (true ∷ mask) (suc i) k = ap suc (actives-set-false mask i k)
actives-set-false (false ∷ mask) (suc i) k = actives-set-false mask i k

-- The slot `i` is active and holds the service.
pub record IsAt (mask : List Bool) (services : List ServiceState) (service_id i : ℕ) : Type 0 where
  pub active : get_or mask i false ≡ true
  pub matches : (get_or services i reset_service_state).id ≡ service_id
  pub below : i < length services

-- What the search has found, `o`: the first slot that holds the service, or that none does.
abbrev pub IsFirstAt : List Bool → List ServiceState → ℕ → Option ℕ → Type 0
IsFirstAt mask services service_id none = (j : ℕ) → ¬ IsAt mask services service_id j
IsFirstAt mask services service_id (some i) =
    IsAt mask services service_id i × ((j : ℕ) → j < i → ¬ IsAt mask services service_id j)

above :
    (b : Bool) (mask : List Bool) (s : ServiceState) (services : List ServiceState)
    (service_id j : ℕ)
    → IsAt (b ∷ mask) (s ∷ services) service_id (suc j)
    → IsAt mask services service_id j
above b mask s services service_id j h = record {
  active = h.active;
  matches = h.matches;
  below = omega (arith, h.below);
}

earlier_shifted :
    (b : Bool) (mask : List Bool) (s : ServiceState) (services : List ServiceState)
    (service_id i : ℕ)
    → (b && s.id == service_id) ≡ false
    → ((j : ℕ) → j < i → ¬ IsAt mask services service_id j)
    → (j : ℕ) → j < suc i
    → ¬ IsAt (b ∷ mask) (s ∷ services) service_id j
earlier_shifted b mask s services service_id i f h zero l k =
    absurd (ground (arith, f, k.active, k.matches))
earlier_shifted b mask s services service_id i f h (suc j) l k =
    h j (omega (arith, l)) (above b mask s services service_id j k)

none_shifted :
    (b : Bool) (mask : List Bool) (s : ServiceState) (services : List ServiceState) (service_id : ℕ)
    → (b && s.id == service_id) ≡ false
    → ((j : ℕ) → ¬ IsAt mask services service_id j)
    → (j : ℕ) → ¬ IsAt (b ∷ mask) (s ∷ services) service_id j
none_shifted b mask s services service_id f h zero k =
    absurd (ground (arith, f, k.active, k.matches))
none_shifted b mask s services service_id f h (suc j) k =
    h j (above b mask s services service_id j k)

-- What is found past the first slot, which does not hold the service.
shifted :
    (b : Bool) (mask : List Bool) (s : ServiceState) (services : List ServiceState) (service_id : ℕ)
    → (b && s.id == service_id) ≡ false
    → (o : Option ℕ) → IsFirstAt mask services service_id o
    → IsFirstAt (b ∷ mask) (s ∷ services) service_id (map suc o)
shifted b mask s services service_id f none h = none_shifted b mask s services service_id f h
shifted b mask s services service_id f (some i) h = (
  record { active = h.0.active; matches = h.0.matches; below = omega (arith, h.0.below) },
  earlier_shifted b mask s services service_id i f h.1,
)

pub find_service_lem :
    (mask : List Bool) (services : List ServiceState) (service_id : ℕ)
    → IsFirstAt mask services service_id (find_service mask services service_id)
unfolding find_service
find_service_lem [] services service_id = λ j h. absurd (ground (arith, h.active))
find_service_lem (b ∷ mask) [] service_id = λ j h. absurd (omega (arith, h.below))
find_service_lem (b ∷ mask) (s ∷ services) service_id =
    if_rule (IsFirstAt (b ∷ mask) (s ∷ services) service_id) (b && s.id == service_id)
      (λ t. (
        record { active = ground (arith, t); matches = ground (arith, t); below = omega arith },
        λ j h. absurd (omega (arith, h)),
      ))
      (λ f.
        shifted b mask s services service_id f (find_service mask services service_id)
          (find_service_lem mask services service_id))
