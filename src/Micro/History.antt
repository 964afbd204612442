-- ===== src/Micro/History.antt =====
-- Histories of calls on the service layer.
use libpolycall_v.Micro.Valid.{
  IsValid, create_service-IsValid, destroy_service-IsValid, update_service_state-IsValid,
  batch_process-IsValid, collect_garbage-IsValid, zero_services-IsValid,
}
use libpolycall_v.Prelude.{some, [], ◌∷◌, List, ℕ, Option, ◌≡◌, ◌≤◌, arith}
use libpolycall_v.Micro.{ServiceArray, CommandArray, zero_services, max_services}
use libpolycall_v.Micro.Services.{
  get_active_services, create_service, destroy_service, update_service_state, collect_garbage,
}
use libpolycall_v.Micro.Mask.{actives, actives-le}
use libpolycall_v.Micro.Commands.{batch_process}

pub data ServiceRequest : Type 0 where
  creates : (service_id flags now : ℕ) → ServiceRequest
  destroys : (service_id : ℕ) → ServiceRequest
  updates : (service_id new_state now : ℕ) → ServiceRequest
  batches : (service_id : ℕ) (commands : Option CommandArray) (now : ℕ) → ServiceRequest
  collects : (now : ℕ) → ServiceRequest

unfoldable pub serve : ServiceArray → ServiceRequest → ServiceArray
serve ctx (creates service_id flags now) = (create_service ctx service_id flags now).0
serve ctx (destroys service_id) = (destroy_service ctx service_id).0
serve ctx (updates service_id new_state now) = (update_service_state ctx service_id new_state now).0
serve ctx (batches service_id commands now) = (batch_process ctx service_id commands now).0
serve ctx (collects now) = (collect_garbage ctx now).0

unfoldable pub serve_all : ServiceArray → List ServiceRequest → ServiceArray
serve_all ctx [] = ctx
serve_all ctx (r ∷ rs) = serve_all (serve ctx r) rs

serve-IsValid : {ctx : ServiceArray} (r : ServiceRequest) → IsValid ctx → IsValid (serve ctx r)
unfolding serve
serve-IsValid (creates service_id flags now) v = create_service-IsValid service_id flags now v
serve-IsValid (destroys service_id) v = destroy_service-IsValid service_id v
serve-IsValid (updates service_id new_state now) v =
    update_service_state-IsValid service_id new_state now v
serve-IsValid (batches service_id commands now) v = batch_process-IsValid service_id commands now v
serve-IsValid (collects now) v = collect_garbage-IsValid now v

serve_all-IsValid :
    {ctx : ServiceArray} (rs : List ServiceRequest) → IsValid ctx → IsValid (serve_all ctx rs)
unfolding serve_all
serve_all-IsValid {ctx} [] v = v
serve_all-IsValid {ctx} (r ∷ rs) v = serve_all-IsValid {ctx = serve ctx r} rs (serve-IsValid r v)

-- After any history of calls on an initialised context the service array is valid, every queue
-- within its array, and the service count that is reported is the number of active slots,
-- which is at most 32.
pub serve_all_lem :
    (now : ℕ) (rs : List ServiceRequest)
    → IsValid (serve_all (zero_services now) rs)
      × (get_active_services (some (serve_all (zero_services now) rs))
          ≡ actives (serve_all (zero_services now) rs).active_mask)
      × (get_active_services (some (serve_all (zero_services now) rs)) ≤ max_services)
unfolding get_active_services
serve_all_lem now rs =
    let v = serve_all-IsValid rs (zero_services-IsValid now) in
    (
      v,
      v.counted,
      omega (
        arith,
        v.counted,
        v.mask_size,
        actives-le (serve_all (zero_services now) rs).active_mask,
      ),
    )
