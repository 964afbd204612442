-- ===== src/Micro/Tests.antt =====
-- Runs of the service layer, and the theorems at them.
use libpolycall_v.Context.{Config}
use libpolycall_v.Protocol.{init}
use libpolycall_v.Micro.Context.{Memory, MicroContext}
use libpolycall_v.Micro.{
  success, ServiceArray, Command, CommandArray, zero_services, zero_command, reset_command_array,
  reset_service_state,
}
use libpolycall_v.Micro.Valid.{
  IsValid, service_at, zero_services-IsValid, create_service-IsValid, reset-IsQueue,
}
use libpolycall_v.Micro.History.{ServiceRequest, creates, batches, serve_all, serve_all_lem}
use libpolycall_v.Prelude.{
  refl, some, true, false, zero, suc, [], ◌∷◌, List, ℕ, replicate, take, set, ◌≡◌, ◌∙◌, ◌++◌, arith,
  sym, ◌-◌, ◌≤◌, get_or-replicate, none, ◌&&◌,
}
use libpolycall_v.Micro.Batch.{queued, fits, enqueue_all_lem}
use libpolycall_v.Micro.Created.{
  IsCreated, fresh_service, create_service_lem, destroy_service-create_service,
}
use libpolycall_v.Micro.Unique.{active_at, IsUnique}
use libpolycall_v.Micro.Collected.{collect_garbage_lem, is_recent}
use libpolycall_v.Micro.Services.{
  create_service, get_active_services, free_slot, collect_garbage, destroy_service, collect_from,
  collect_slot, destroy_at, find_service, cleanup_from, cleanup_services,
}
use libpolycall_v.Micro.Commands.{filter_commands, enqueue_all}
use libpolycall_v.Micro.Mask.{actives}
use libpolycall_v.Micro.Filter.{keep, filter_commands_lem}
use libpolycall_v.Machine.Build.{new_machine}

abbrev ping : Command
ping = record zero_command { id = 1; payload_size = 4 }

abbrev pong : Command
pong = record zero_command { id = 2; payload_size = 4 }

abbrev huge : Command
huge = record zero_command { id = 3; payload_size = 5000 }

abbrev batch : CommandArray
batch = record reset_command_array {
  commands = ping ∷ huge ∷ pong ∷ replicate 61 zero_command;
  count = 3;
}

filter_commands_lem_example :
    take (filter_commands batch (some fits)).0.count (filter_commands batch (some fits)).0.commands
    ≡ keep fits (take 3 batch.commands)
filter_commands_lem_example = filter_commands_lem batch fits (omega arith)

enqueue_all_lem_example :
    queued (enqueue_all reset_command_array (ping ∷ huge ∷ pong ∷ []))
    ≡ queued reset_command_array ++ take (64 - 0) (keep fits (ping ∷ huge ∷ pong ∷ []))
enqueue_all_lem_example =
    enqueue_all_lem reset_command_array (ping ∷ huge ∷ pong ∷ []) reset-IsQueue

abbrev service_requests : List ServiceRequest
service_requests = creates 5 0 10 ∷ creates 6 0 20 ∷ batches 5 (some batch) 30 ∷ []

serve_all_lem_example :
    IsValid (serve_all (zero_services 1) service_requests)
    × (get_active_services (some (serve_all (zero_services 1) service_requests))
        ≡ actives (serve_all (zero_services 1) service_requests).active_mask)
    × (get_active_services (some (serve_all (zero_services 1) service_requests)) ≤ 32)
serve_all_lem_example = serve_all_lem 1 service_requests

create_service_lem_example :
    IsCreated (zero_services 1) (fresh_service 5 0 10) (create_service (zero_services 1) 5 0 10).0
    × ((create_service (zero_services 1) 5 0 10).1 ≡ success)
create_service_lem_example = create_service_lem 5 0 10 (zero_services-IsValid 1) (omega arith)

none_active : (j : ℕ) → active_at (zero_services 1) j ≡ true → ⊥
none_active j h = ground (arith, h, get_or-replicate 32 j false)

destroy_service-create_service_example :
    (slot : ℕ) × (active_at (zero_services 1) slot ≡ false)
    × (destroy_service (create_service (zero_services 1) 5 0 10).0 5 ≡ (
      record (zero_services 1) {
        services = set (zero_services 1).services slot reset_service_state;
      },
      success,
    ))
destroy_service-create_service_example =
    destroy_service-create_service 5 0 10 (zero_services-IsValid 1) (omega arith)
      (λ j h. none_active j h.active)

-- One service, in the first slot.
abbrev one_service : ServiceArray
one_service = record (zero_services 1) {
  services = set (zero_services 1).services 0 (fresh_service 5 0 10);
  count = 1;
  active_mask = set (zero_services 1).active_mask 0 true;
}

one_service_created : (create_service (zero_services 1) 5 0 10).0 ≡ one_service
unfolding create_service free_slot
one_service_created = refl

one_service-IsValid : IsValid one_service
one_service-IsValid =
    rw (one_service_created) at (create_service-IsValid 5 0 10 (zero_services-IsValid 1))

only_first : (i : ℕ) → active_at one_service i ≡ true → i ≡ 0
only_first zero h = refl
only_first (suc i) h = ground (arith, h, get_or-replicate 31 i false)

one_service-IsUnique : IsUnique one_service
one_service-IsUnique = record { only = λ i j a b e. only_first i a ∙ sym (only_first j b) }

collect_garbage_lem_example :
    let survives =
      active_at one_service 0 && is_recent 3610 (service_at one_service 0).last_update in
    (active_at (collect_garbage one_service 3610).0 0 ≡ survives)
    × (survives ≡ true
        → service_at (collect_garbage one_service 3610).0 0 ≡ service_at one_service 0)
collect_garbage_lem_example =
    collect_garbage_lem 3610 0 one_service-IsValid one_service-IsUnique (omega arith) (omega arith)
      (omega arith)

-- The last use lies two seconds ahead of the clock, and the service is destroyed.
ahead_collected : active_at (collect_garbage one_service 8).0 0 ≡ false
unfolding collect_garbage collect_from collect_slot destroy_service destroy_at find_service
ahead_collected = refl

-- Two services under one identifier: the first, used a moment ago, is destroyed in place of the
-- second.
abbrev twins : ServiceArray
twins = record (zero_services 1) {
  services =
      set (set (zero_services 1).services 0 (fresh_service 5 0 9000)) 1 (fresh_service 5 0 10);
  count = 2;
  active_mask = set (set (zero_services 1).active_mask 0 true) 1 true;
}

twins_collected :
    (active_at (collect_garbage twins 9000).0 0 ≡ false)
    × (active_at (collect_garbage twins 9000).0 1 ≡ true)
unfolding collect_garbage collect_from collect_slot destroy_service destroy_at find_service
twins_collected = (refl, refl)

abbrev library_config : Config
library_config = record { flags = 1; memory_pool_size = 0; user_data = 9 }

abbrev all_memory : Memory
all_memory = record { machine = true; protocol = true; protocol_machine = true }

abbrev initial_context : MicroContext
initial_context = record {
  service_array = zero_services 4;
  state_machine = new_machine 9 none 4;
  protocol_ctx = record {
    pc_ctx = 9;
    state_machine = some (new_machine 9 none 4);
    has_endpoint = true;
    next_sequence = 1;
    state = init;
    user_data = 9;
  };
  flags = 1;
  startup_time = 4;
}

-- The count sinks under the loop of the cleanup: of three services it leaves one.
cleanup_leaves_one :
    (cleanup_services
      (create_service
        (create_service (create_service (zero_services 0) 1 0 0).0 2 0 0).0
        3
        0
        0).0).count
    ≡ 1
unfolding cleanup_from create_service free_slot destroy_service destroy_at find_service
cleanup_leaves_one = refl
