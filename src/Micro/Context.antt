-- ===== src/Micro/Context.antt =====
-- `polycall_micro_init`: the service array, a state machine and a protocol context of its own.
use libpolycall_v.Micro.{
  success, ServiceArray, MicroStatus, error_init, error_protocol, zero_services,
}
use libpolycall_v.Context.{Config}
use libpolycall_v.Machine.{StateMachine}
use libpolycall_v.Protocol.{ProtocolContext, init}
use libpolycall_v.Micro.Valid.{IsValid, zero_services-IsValid}
use libpolycall_v.Prelude.{none, some, true, ℕ, Bool, Option, ◌≡◌, ◌<◌, arith}
use libpolycall_v.Protocol.Session.{protocol_init}
use libpolycall_v.Machine.Build.{create_with_integrity}
use libpolycall_v.Micro.Services.{get_active_services}

pub record MicroContext : Type 0 where
  pub service_array : ServiceArray
  pub state_machine : StateMachine
  pub protocol_ctx : ProtocolContext
  pub flags : ℕ
  pub startup_time : ℕ

-- The answers of the three allocations: the machine, then the protocol's context and machine.
pub record Memory : Type 0 where
  pub machine : Bool
  pub protocol : Bool
  pub protocol_machine : Bool

-- The context that is there after a success. The protocol's callbacks are NULL, and its endpoint is
-- a local variable of the function. `now` is the clock as it is read, time after time: for the
-- array, for the two machines, and at the end.
unfoldable pub micro_init : Option Config → Memory → (ℕ → ℕ) → Option MicroContext × MicroStatus
micro_init none memory now = (none, error_init)
micro_init (some config) memory now =
    elim (create_with_integrity config.user_data true none memory.machine (now 1)).0 [
      | none ↦ (none, error_init)
      | some machine ↦
          elim (protocol_init config.user_data true config.user_data
            (memory.protocol, memory.protocol_machine) (now 2)).0 [
              | none ↦ (none, error_protocol)
              | some protocol_ctx ↦ (
                some (record {
                  service_array = zero_services (now 0);
                  state_machine = machine;
                  protocol_ctx = protocol_ctx;
                  flags = config.flags;
                  startup_time = now 3;
                }),
                success,
              )
            ]
    ]

initial_services :
    (config : Config) (memory : Memory) (now : ℕ → ℕ) (ctx : MicroContext)
    → (micro_init (some config) memory now).0 ≡ some ctx
    → ctx.service_array ≡ zero_services (now 0)
unfolding micro_init protocol_init create_with_integrity
initial_services config memory now ctx e = ground (arith, e)

-- Initialisation hands out a context only for a configuration whose user data is not NULL,
-- which it passes on as the library context, and with memory for all three parts; then the
-- service array is valid and empty, and the protocol is in its first state.
pub micro_init_lem :
    (config : Config) (memory : Memory) (now : ℕ → ℕ) (ctx : MicroContext)
    → (micro_init (some config) memory now).0 ≡ some ctx
    → (0 < config.user_data)
      × (memory.machine ≡ true)
      × (memory.protocol ≡ true)
      × (memory.protocol_machine ≡ true)
      × IsValid ctx.service_array
      × (get_active_services (some ctx.service_array) ≡ 0)
      × (ctx.protocol_ctx.state ≡ init)
unfolding micro_init protocol_init create_with_integrity get_active_services
micro_init_lem config memory now ctx e = (
  ground (arith, e),
  ground (arith, e),
  ground (arith, e),
  ground (arith, e),
  rw (initial_services config memory now ctx e) (zero_services-IsValid (now 0)),
  ground (arith, e),
  ground (arith, e),
)
