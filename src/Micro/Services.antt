-- ===== src/Micro/Services.antt =====
-- Creating, finding, updating and destroying services. The functions work on the service array of
-- a context that is not NULL; `now` is what `time` returns.
use libpolycall_v.Micro.{
  success, ServiceArray, ServiceState, MicroStatus, error_service, reset_service_state,
  max_services,
}
use libpolycall_v.Prelude.{
  none, some, true, false, zero, suc, [], ◌∷◌, List, ℕ, Bool, if◌then◌else◌, Option, ◌&&◌, ◌+◌,
  get_or, leb, ◌==◌, ◌-◌, set, ◌%◌, ltb, u32, u32_mod,
}
use mathlib.Core.Option

-- `while (mask & (1U << slot)) slot++`.
unfoldable pub free_slot : List Bool → ℕ
free_slot [] = 0
free_slot (b ∷ mask) = let rest = free_slot mask in if b then suc rest else 0

unfoldable pub create_service : ServiceArray → ℕ → ℕ → ℕ → ServiceArray × MicroStatus
create_service ctx service_id flags now =
    if leb max_services ctx.count
    then (ctx, error_service)
    else let slot = free_slot ctx.active_mask in
      if leb max_services slot
      then (ctx, error_service)
      else let service = record reset_service_state {
        id = service_id;
        flags = flags;
        last_update = now;
      } in
        (
          record ctx {
            services = set ctx.services slot service;
            active_mask = set ctx.active_mask slot true;
            count = u32 (ctx.count + 1);
          },
          success,
        )

-- The search that four functions share: the first active slot with the id.
unfoldable pub find_service : List Bool → List ServiceState → ℕ → Option ℕ
find_service [] services service_id = none
find_service (b ∷ mask) [] service_id = none
find_service (b ∷ mask) (s ∷ services) service_id =
    if b && s.id == service_id
    then some 0
    else Option.map suc (find_service mask services service_id)

-- The body of the loop at the slot found.
unfoldable pub destroy_at : ServiceArray → Option ℕ → ServiceArray × MicroStatus
destroy_at ctx none = (ctx, error_service)
destroy_at ctx (some i) = (
  record ctx {
    services = set ctx.services i reset_service_state;
    active_mask = set ctx.active_mask i false;
    count = u32 (ctx.count + (u32_mod - 1));
  },
  success,
)

unfoldable pub destroy_service : ServiceArray → ℕ → ServiceArray × MicroStatus
destroy_service ctx service_id =
    destroy_at ctx (find_service ctx.active_mask ctx.services service_id)

unfoldable pub update_at : ServiceArray → Option ℕ → ℕ → ℕ → ServiceArray × MicroStatus
update_at ctx none new_state now = (ctx, error_service)
update_at ctx (some i) new_state now =
    let service = get_or ctx.services i reset_service_state in
    (
      record ctx {
        services = set ctx.services i (record service { state = new_state; last_update = now });
      },
      success,
    )

unfoldable pub update_service_state : ServiceArray → ℕ → ℕ → ℕ → ServiceArray × MicroStatus
update_service_state ctx service_id new_state now =
    update_at ctx (find_service ctx.active_mask ctx.services service_id) new_state now

-- `current_time - service->last_update` on a `uint64_t`.
abbrev pub age : ℕ → ServiceState → ℕ
age now service = (now + 18446744073709551616 - service.last_update) % 18446744073709551616

abbrev pub timeout : ℕ
timeout = 3600

-- One round of the collection's loop.
unfoldable pub collect_slot : ℕ → ℕ → ServiceArray → ServiceArray
collect_slot now i ctx =
    let service = get_or ctx.services i reset_service_state in
    if get_or ctx.active_mask i false && ltb timeout (age now service)
    then (destroy_service ctx service.id).0
    else ctx

-- The loop from slot `i`, with `rounds` slots to go.
unfoldable pub collect_from : ℕ → ℕ → ℕ → ServiceArray → ServiceArray
collect_from now zero i ctx = ctx
collect_from now (suc rounds) i ctx = collect_from now rounds (i + 1) (collect_slot now i ctx)

unfoldable pub collect_garbage : ServiceArray → ℕ → ServiceArray × MicroStatus
collect_garbage ctx now = (record (collect_from now max_services 0 ctx) { last_gc = now }, success)

unfoldable pub get_active_services : Option ServiceArray → ℕ
get_active_services none = 0
get_active_services (some ctx) = ctx.count

-- The loop of `polycall_micro_cleanup` from slot `i` on: its bound is the count, which sinks with
-- every service that is destroyed.
unfoldable pub cleanup_from : ℕ → ℕ → ServiceArray → ServiceArray
cleanup_from zero i ctx = ctx
cleanup_from (suc fuel) i ctx =
    let next =
      if get_or ctx.active_mask i false
      then (destroy_service ctx (get_or ctx.services i reset_service_state).id).0
      else ctx in
    let rest = cleanup_from fuel (i + 1) next in if leb ctx.count i then ctx else rest

-- No count is more than the 32 slots.
abbrev pub cleanup_services : ServiceArray → ServiceArray
cleanup_services ctx = cleanup_from (max_services + 1) 0 ctx
