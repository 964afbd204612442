-- ===== src/Micro/Created.antt =====
-- What creating a service does, and that destroying it takes it back.
use libpolycall_v.Micro.Valid.{IsValid}
use libpolycall_v.Micro.{
  success, ServiceState, ServiceArray, reset_service_state, max_services, MicroStatus,
}
use libpolycall_v.Prelude.{
  refl, some, true, false, zero, suc, [], inl, inr, ◌∷◌, List, ℕ, Bool, set, get_or, ◌<◌, ◌≡◌, ap,
  sym, arith, get_or-set, length, if_rule, length-set, leb, ◌+◌, ◌%◌,
}
use libpolycall_v.Micro.Services.{
  create_service, find_service, free_slot, destroy_service, destroy_at,
}
use libpolycall_v.Micro.Mask.{IsAt, free_slot-free, find_service_lem}
use libpolycall_v.Micro.Unique.{active_at, found_unique}
use libpolycall_v.Micro.Collected.{cases_at}

abbrev pub fresh_service : ℕ → ℕ → ℕ → ServiceState
fresh_service service_id flags now = record reset_service_state {
  id = service_id;
  flags = flags;
  last_update = now;
}

-- One inactive slot becomes an active one with the fresh service; the other slots and the rest
-- stay as they are.
pub record IsCreated (ctx : ServiceArray) (service : ServiceState) (out : ServiceArray)
    : Type 0 where
  pub slot : ℕ
  pub slot_lt : slot < max_services
  pub was_free : active_at ctx slot ≡ false
  pub count : out.count ≡ suc ctx.count
  pub active_mask : out.active_mask ≡ set ctx.active_mask slot true
  pub services : out.services ≡ set ctx.services slot service
  pub last_gc : out.last_gc ≡ ctx.last_gc

-- On a valid array with fewer than 32 services, creating one succeeds and takes one inactive
-- slot for it; every other slot stays as it was.
pub create_service_lem :
    {ctx : ServiceArray} (service_id flags now : ℕ)
    → IsValid ctx
    → ctx.count < max_services
    → IsCreated ctx (fresh_service service_id flags now) (create_service ctx service_id flags now).0
      × ((create_service ctx service_id flags now).1 ≡ success)
unfolding create_service
create_service_lem {ctx} service_id flags now v h =
    let free = free_slot-free ctx.active_mask (omega (arith, h, v.mask_size, v.counted)) in
    let slot_lt : free_slot ctx.active_mask < max_services = omega (arith, free.0, v.mask_size) in
    let P : ServiceArray × MicroStatus → Type 0 =
      λ r. IsCreated ctx (fresh_service service_id flags now) r.0 × (r.1 ≡ success) in
    if_rule P (leb max_services ctx.count) (λ t. absurd (ground (arith, t, h)))
      (λ f.
        if_rule P (leb max_services (free_slot ctx.active_mask))
          (λ t. absurd (ground (arith, t, slot_lt)))
          (λ g. (
            record {
              slot = free_slot ctx.active_mask;
              slot_lt = slot_lt;
              was_free = free.1;
              count = ground (arith, h);
              active_mask = refl;
              services = refl;
              last_gc = refl;
            },
            refl,
          )))

pub set-set {ℓ} : {A : Type ℓ} (xs : List A) (i : ℕ) (a b : A) → set (set xs i a) i b ≡ set xs i b
set-set [] i a b = refl
set-set (x ∷ xs) zero a b = refl
set-set (x ∷ xs) (suc i) a b = ap (x ∷◌) (set-set xs i a b)

pub set_same : (xs : List Bool) (i : ℕ) → get_or xs i false ≡ false → set xs i false ≡ xs
set_same [] i h = refl
set_same (x ∷ xs) zero h = ap (◌∷ xs) (sym h)
set_same (x ∷ xs) (suc i) h = ap (x ∷◌) (set_same xs i h)

-- The new service is the only one under its identifier.
found_created :
    {ctx out : ServiceArray} (service : ServiceState)
    → IsValid ctx
    → ((j : ℕ) → ¬ IsAt ctx.active_mask ctx.services service.id j)
    → (c : IsCreated ctx service out)
    → find_service out.active_mask out.services service.id ≡ some c.slot
found_created {ctx} {out} service v n c =
    found_unique out service.id c.slot (find_service_lem out.active_mask out.services service.id)
      (record {
        active = ground (
          arith,
          c.active_mask,
          get_or-set ctx.active_mask c.slot c.slot true false,
          c.slot_lt,
          v.mask_size,
        );
        matches = ground (
          arith,
          c.services,
          get_or-set ctx.services c.slot c.slot service reset_service_state,
          c.slot_lt,
          v.services_size,
        );
        below = omega (
          arith,
          ap length c.services,
          length-set ctx.services c.slot service,
          c.slot_lt,
          v.services_size,
        );
      })
      (λ j h. elim (cases_at c.slot j) [
        | inl e ↦ e
        | inr m ↦ absurd (
            n j (record {
              active = ground (
                arith,
                m,
                h.active,
                c.active_mask,
                get_or-set ctx.active_mask c.slot j true false,
              );
              matches = ground (
                arith,
                m,
                h.matches,
                c.services,
                get_or-set ctx.services c.slot j service reset_service_state,
              );
              below =
                  omega
                    (arith, h.below, ap length c.services, length-set ctx.services c.slot service);
            }))
      ])

one_less : (n : ℕ) → n < max_services → (suc n + 4294967295) % 4294967296 ≡ n
one_less n h = omega (arith, h)

-- On a valid array with fewer than 32 services, destroying a service that was just created
-- under an unused identifier succeeds and gives back the mask, the count and every other slot;
-- the slot itself is cleared.
pub destroy_service-create_service :
    {ctx : ServiceArray} (service_id flags now : ℕ)
    → IsValid ctx
    → ctx.count < max_services
    → ((j : ℕ) → ¬ IsAt ctx.active_mask ctx.services service_id j)
    → (slot : ℕ) × (active_at ctx slot ≡ false)
      × (destroy_service (create_service ctx service_id flags now).0 service_id
          ≡ (record ctx { services = set ctx.services slot reset_service_state }, success))
unfolding destroy_service destroy_at
destroy_service-create_service {ctx} service_id flags now v h n =
    let out = (create_service ctx service_id flags now).0 in
    let c = (create_service_lem service_id flags now v h).0 in
    let found = found_created (fresh_service service_id flags now) v n c in
    (
      c.slot,
      c.was_free,
      rw
          (
            found,
            c.services,
            c.active_mask,
            c.count,
            c.last_gc,
            set-set ctx.services c.slot (fresh_service service_id flags now) reset_service_state,
            set-set ctx.active_mask c.slot true false,
            set_same ctx.active_mask c.slot c.was_free,
            one_less ctx.count h,
          )
          refl,
    )
