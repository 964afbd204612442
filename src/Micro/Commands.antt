-- ===== src/Micro/Commands.antt =====
-- Commands: transforming, filtering in place, and queueing a batch at a service.
use libpolycall_v.Micro.{
  success, Command, CommandArray, ServiceState, ServiceArray, MicroStatus, error_command,
  error_service, zero_command, buffer_size, reset_service_state,
}
use libpolycall_v.Prelude.{
  none, some, zero, suc, [], ◌∷◌, List, ℕ, Bool, Option, get_or, if◌then◌else◌, ltb, take, not,
  ◌==◌, set,
}
use libpolycall_v.Micro.Services.{find_service}

-- A chain of transforms; an entry may be NULL.
pub record TransformChain : Type 0 where
  pub transforms : Option (List (Option (Command → Command)))
  pub transform_count : ℕ

unfoldable pub create_transform_chain :
    Option (List (Option (Command → Command))) → ℕ → TransformChain
create_transform_chain none count = record { transforms = none; transform_count = 0 }
create_transform_chain (some transforms) count =
    if ltb 0 count
    then record { transforms = some transforms; transform_count = count }
    else record { transforms = none; transform_count = 0 }

abbrev pub apply_set : Option (Command → Command) → Command → Command
apply_set none cmd = cmd
apply_set (some f) cmd = f cmd

unfoldable pub apply_all : List (Option (Command → Command)) → Command → Command
apply_all [] cmd = cmd
apply_all (f ∷ fs) cmd = apply_all fs (apply_set f cmd)

-- On a command that is there and a chain or NULL.
unfoldable pub transform_command : Command → Option TransformChain → Command × MicroStatus
transform_command cmd none = (cmd, error_command)
transform_command cmd (some chain) = elim chain.transforms [
  | none ↦ (cmd, error_command)
  | some fs ↦ (apply_all (take chain.transform_count fs) cmd, success)
]

module _ {ℓ} {A : Type ℓ} (d : A) where
  -- The copy of the command at `read_idx` down to `write_idx`.
  unfoldable pub copy_down : ℕ → ℕ → List A → List A
  copy_down read_idx write_idx commands =
      if not (write_idx == read_idx)
      then set commands write_idx (get_or commands read_idx d)
      else commands

-- The loop of the in-place filter: `rounds` commands are still to be read, from `read_idx` on.
module _ {ℓ} {A : Type ℓ} (predicate : A → Bool) (d : A) where
  unfoldable pub filter_loop : ℕ → ℕ → ℕ → List A → List A × ℕ
  filter_loop zero read_idx write_idx commands = (commands, write_idx)
  filter_loop (suc rounds) read_idx write_idx commands =
      let keep = predicate (get_or commands read_idx d) in
      filter_loop rounds (suc read_idx) (if keep then suc write_idx else write_idx)
        (if keep then copy_down d read_idx write_idx commands else commands)

unfoldable pub filter_commands : CommandArray → Option (Command → Bool) → CommandArray × MicroStatus
filter_commands array none = (array, error_command)
filter_commands array (some predicate) =
    let (commands, write_idx) = filter_loop predicate zero_command array.count 0 0 array.commands in
    (record array { commands = commands; count = write_idx }, success)

unfoldable pub process_commands :
    ServiceState → Option (ServiceState → ServiceState) → ℕ → ServiceState × MicroStatus
process_commands service none now = (service, error_command)
process_commands service (some operation) now =
    (record (operation service) { last_update = now }, success)

-- One round of the batch loop: an oversized command is skipped, and one that finds the queue full
-- is dropped.
unfoldable pub enqueue : CommandArray → Command → CommandArray
enqueue queue cmd =
    if ltb buffer_size cmd.payload_size
    then queue
    else if ltb queue.count queue.capacity
    then record queue { commands = set queue.commands queue.count cmd; count = suc queue.count }
    else queue

unfoldable pub enqueue_all : CommandArray → List Command → CommandArray
enqueue_all queue [] = queue
enqueue_all queue (cmd ∷ cmds) = enqueue_all (enqueue queue cmd) cmds

unfoldable pub batch_at : ServiceArray → Option ℕ → CommandArray → ℕ → ServiceArray × MicroStatus
batch_at ctx none commands now = (ctx, error_service)
batch_at ctx (some i) commands now =
    let service = get_or ctx.services i reset_service_state in
    let queue = enqueue_all service.command_queue (take commands.count commands.commands) in
    (
      record ctx {
        services = set ctx.services i (record service { command_queue = queue; last_update = now });
      },
      success,
    )

unfoldable pub batch_process :
    ServiceArray → ℕ → Option CommandArray → ℕ → ServiceArray × MicroStatus
batch_process ctx service_id none now = (ctx, error_command)
batch_process ctx service_id (some commands) now =
    batch_at ctx (find_service ctx.active_mask ctx.services service_id) commands now

-- `polycall_micro_destroy_transform_chain`.
abbrev pub destroy_transform_chain : TransformChain → TransformChain
destroy_transform_chain chain = record { transforms = none; transform_count = 0 }
