-- ===== src/Micro/Valid.antt =====
-- What holds of the service array between two calls, and that every call keeps it: the count is the
-- number of active slots, and every queue is within its array.
use libpolycall_v.Prelude.{
  refl, none, some, true, false, zero, suc, inl, inr, List, ℕ, Bool, get_or, length, if_rule,
  Option-cases, set, ◌+◌, ◌≡◌, arith, leb, length-set, Option, ◌&&◌, get_or-set, ◌∙◌, ltb, ◌==◌,
  replicate,
}
use libpolycall_v.Micro.{
  ServiceArray, ServiceState, reset_command_array, zero_services, max_services, reset_service_state,
  zero_service, CommandArray, MicroStatus,
}
use libpolycall_v.Micro.Batch.{IsQueue, enqueue_all-IsQueue}
use libpolycall_v.Micro.Mask.{
  actives, find_service_lem, free_slot-free, actives-le, actives-set-true, actives-set-false,
}
use libpolycall_v.Micro.Services.{
  create_service, destroy_at, destroy_service, update_service_state, collect_slot, collect_from,
  collect_garbage, find_service, update_at, free_slot, timeout, age,
}
use libpolycall_v.Micro.Commands.{batch_process, batch_at}

abbrev pub service_at : ServiceArray → ℕ → ServiceState
service_at ctx i = get_or ctx.services i reset_service_state

pub record IsValid (ctx : ServiceArray) : Type 0 where
  pub services_size : length ctx.services ≡ max_services
  pub mask_size : length ctx.active_mask ≡ max_services
  pub counted : ctx.count ≡ actives ctx.active_mask
  pub queues : (i : ℕ) → IsQueue (service_at ctx i).command_queue

pub reset-IsQueue : IsQueue reset_command_array
reset-IsQueue = record { within = omega arith; room = omega arith }

zero-IsQueue : IsQueue zero_service.command_queue
zero-IsQueue = record { within = omega arith; room = omega arith }

-- The queues of an array that holds cleared services alone.
replicate-queues :
    (n i : ℕ) → IsQueue (get_or (replicate n zero_service) i reset_service_state).command_queue
replicate-queues zero i = reset-IsQueue
replicate-queues (suc n) zero = zero-IsQueue
replicate-queues (suc n) (suc i) = replicate-queues n i

pub zero_services-IsValid : (now : ℕ) → IsValid (zero_services now)
unfolding actives
zero_services-IsValid now = record {
  services_size = refl;
  mask_size = refl;
  counted = refl;
  queues = replicate-queues max_services;
}

-- The queues after one service is replaced.
pub set-queues :
    (services : List ServiceState) (i : ℕ) (service : ServiceState)
    → IsQueue service.command_queue
    → ((j : ℕ) → IsQueue (get_or services j reset_service_state).command_queue)
    → (j : ℕ) → IsQueue (get_or (set services i service) j reset_service_state).command_queue
set-queues services i service q h j = rw (get_or-set services i j service reset_service_state) (
    if_rule (λ (s : ServiceState). IsQueue s.command_queue) (i == j && ltb i (length services))
      (λ t. q) (λ f. h j))

pub create_service-IsValid :
    {ctx : ServiceArray} (service_id flags now : ℕ)
    → IsValid ctx
    → IsValid (create_service ctx service_id flags now).0
unfolding create_service
create_service-IsValid {ctx} service_id flags now v =
    if_rule (λ (r : ServiceArray × MicroStatus). IsValid r.0) (leb max_services ctx.count) (λ t. v)
      (λ f.
        if_rule (λ (r : ServiceArray × MicroStatus). IsValid r.0)
          (leb max_services (free_slot ctx.active_mask)) (λ t. v)
          (λ g.
            let slot = free_slot ctx.active_mask in
            let free = free_slot-free ctx.active_mask (ground (arith, f, v.mask_size, v.counted)) in
            record {
              services_size = length-set ctx.services slot _ ∙ v.services_size;
              mask_size = length-set ctx.active_mask slot true ∙ v.mask_size;
              counted =
                  ground (arith, f, v.counted, actives-set-true ctx.active_mask slot free.0 free.1);
              queues = set-queues ctx.services slot _ reset-IsQueue v.queues;
            }))

pub destroy_at-IsValid :
    {ctx : ServiceArray} (i : ℕ)
    → get_or ctx.active_mask i false ≡ true
    → IsValid ctx
    → IsValid (destroy_at ctx (some i)).0
unfolding destroy_at
destroy_at-IsValid {ctx} i h v = record {
  services_size = length-set ctx.services i _ ∙ v.services_size;
  mask_size = length-set ctx.active_mask i false ∙ v.mask_size;
  counted = ground (
    arith,
    v.counted,
    v.mask_size,
    actives-le ctx.active_mask,
    actives-set-false ctx.active_mask i h,
  );
  queues = set-queues ctx.services i _ reset-IsQueue v.queues;
}

-- What is found is active.
found_active :
    (mask : List Bool) (services : List ServiceState) (service_id i : ℕ)
    → find_service mask services service_id ≡ some i
    → get_or mask i false ≡ true
found_active mask services service_id i e =
    (rw e at (find_service_lem mask services service_id)).0.active

pub destroy_service-IsValid :
    {ctx : ServiceArray} (service_id : ℕ) → IsValid ctx → IsValid (destroy_service ctx service_id).0
unfolding destroy_service destroy_at
destroy_service-IsValid {ctx} service_id v =
    elim (Option-cases (find_service ctx.active_mask ctx.services service_id)) [
      | inl e ↦ rw e v
      | inr (i, e) ↦ rw e (destroy_at-IsValid i (found_active _ _ service_id i e) v)
    ]

-- One service replaced by one whose queue is within its array.
replaced-IsValid :
    {ctx : ServiceArray} (i : ℕ) (service : ServiceState)
    → IsQueue service.command_queue
    → IsValid ctx
    → IsValid (record ctx { services = set ctx.services i service })
replaced-IsValid {ctx} i service q v = record {
  services_size = length-set ctx.services i service ∙ v.services_size;
  mask_size = v.mask_size;
  counted = v.counted;
  queues = set-queues ctx.services i service q v.queues;
}

pub update_service_state-IsValid :
    {ctx : ServiceArray} (service_id new_state now : ℕ)
    → IsValid ctx
    → IsValid (update_service_state ctx service_id new_state now).0
unfolding update_service_state update_at
update_service_state-IsValid {ctx} service_id new_state now v =
    elim (Option-cases (find_service ctx.active_mask ctx.services service_id)) [
      | inl e ↦ rw e v
      | inr (i, e) ↦ rw e (replaced-IsValid i _ (v.queues i) v)
    ]

pub batch_process-IsValid :
    {ctx : ServiceArray} (service_id : ℕ) (commands : Option CommandArray) (now : ℕ)
    → IsValid ctx
    → IsValid (batch_process ctx service_id commands now).0
unfolding batch_process batch_at
batch_process-IsValid service_id none now v = v
batch_process-IsValid {ctx} service_id (some commands) now v =
    elim (Option-cases (find_service ctx.active_mask ctx.services service_id)) [
      | inl e ↦ rw e v
      | inr (i, e) ↦ rw e (replaced-IsValid i _ (enqueue_all-IsQueue _ _ (v.queues i)) v)
    ]

collect_slot-IsValid :
    {ctx : ServiceArray} (now i : ℕ) → IsValid ctx → IsValid (collect_slot now i ctx)
unfolding collect_slot
collect_slot-IsValid {ctx} now i v =
    if_rule IsValid (get_or ctx.active_mask i false && ltb timeout (age now (service_at ctx i)))
      (λ t. destroy_service-IsValid (service_at ctx i).id v) (λ f. v)

collect_from-IsValid :
    {ctx : ServiceArray} (now rounds i : ℕ) → IsValid ctx → IsValid (collect_from now rounds i ctx)
unfolding collect_from
collect_from-IsValid {ctx} now zero i v = v
collect_from-IsValid {ctx} now (suc rounds) i v =
    collect_from-IsValid {ctx = collect_slot now i ctx} now rounds (i + 1)
      (collect_slot-IsValid now i v)

pub collect_garbage-IsValid :
    {ctx : ServiceArray} (now : ℕ) → IsValid ctx → IsValid (collect_garbage ctx now).0
unfolding collect_garbage
collect_garbage-IsValid now v =
    let w = collect_from-IsValid now max_services 0 v in
    record {
      services_size = w.services_size;
      mask_size = w.mask_size;
      counted = w.counted;
      queues = w.queues;
    }
