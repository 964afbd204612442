-- ===== src/Protocol/Session.antt =====
-- The session: protocol states, the transitions between them through the state machine, and the
-- operations that a client calls. `now` is the time that a transition is stamped with.
use libpolycall_v.Machine.{success, Pointer, StateMachine}
use libpolycall_v.Protocol.{
  init, handshake, auth, ready, error, closed, ProtocolState, ProtocolContext, Callbacks, Event,
  ProtocolError, protocol_magic, changes, invalid_parameters, protocol_version, allocation_failed,
  machine_failed, flag_reliable, flag_encrypted,
}
use libpolycall_v.Protocol.Wire.{MessageType}
use libpolycall_v.Prelude.{
  none, some, true, false, [], ◌∷◌, List, ℕ, Bool, le_bytes, Option, codes, ◌==◌, is_some,
  if◌then◌else◌, leb, not, ◌||◌, ◌&&◌, ◌++◌, length, ltb, ◌+◌, store_name, ◌-◌,
}
use libpolycall_v.Machine.Execute.{Executed, execute_transition}
use libpolycall_v.Protocol.Send.{Sent, send}
use libpolycall_v.Machine.Build.{create_with_integrity}

-- `NULL` for `init`, which no transition leads to.
unfoldable pub transition_name : ProtocolState → Option (List ℕ)
transition_name init = none
transition_name handshake = some (codes "to_handshake")
transition_name auth = some (codes "to_auth")
transition_name ready = some (codes "to_ready")
transition_name error = some (codes "to_error")
transition_name closed = some (codes "to_closed")

pub record Moved : Type 0 where
  pub ctx : ProtocolContext
  pub is_ok : Bool
  pub events : List Event

abbrev pub stays : ProtocolContext → Moved
stays ctx = record { ctx = ctx; is_ok = false; events = [] }

-- The states' numbers in the enum.
abbrev pub state_code : ProtocolState → ℕ
state_code init = 0
state_code handshake = 1
state_code auth = 2
state_code ready = 3
state_code error = 4
state_code closed = 5

-- The notification, when the state is another and the callback is set.
abbrev pub notified : Callbacks → ProtocolState → ProtocolState → List Event
notified callbacks old new =
    if not (state_code new == state_code old) && callbacks.on_state_change
    then changes old new ∷ []
    else []

-- What follows the call of `polycall_sm_execute_transition`.
unfoldable pub after_execute : Callbacks → ProtocolContext → ProtocolState → Executed → Moved
after_execute callbacks ctx new_state r = elim r.status [
  | success ↦ record {
    ctx = record ctx { state_machine = some r.machine; state = new_state };
    is_ok = true;
    events = notified callbacks ctx.state new_state;
  }
  | _ ↦ stays (record ctx { state_machine = some r.machine })
]

unfoldable pub execute_named :
    Callbacks → ProtocolContext → StateMachine → ProtocolState → Option (List ℕ) → ℕ → Moved
execute_named callbacks ctx sm new_state none now = stays ctx
execute_named callbacks ctx sm new_state (some name) now =
    after_execute callbacks ctx new_state (execute_transition sm (some name) now)

unfoldable pub on_machine :
    Callbacks → ProtocolContext → Option StateMachine → ProtocolState → ℕ → Moved
on_machine callbacks ctx none new_state now = stays ctx
on_machine callbacks ctx (some sm) new_state now =
    execute_named callbacks ctx sm new_state (transition_name new_state) now

unfoldable pub transition_protocol_state : Callbacks → ProtocolContext → ProtocolState → ℕ → Moved
transition_protocol_state callbacks ctx new_state now =
    on_machine callbacks ctx ctx.state_machine new_state now

-- `polycall_protocol_init` with all its pointers given; `allocated` says whether `calloc` has room
-- for the context and then for the machine. The callbacks are copied into the internal context
-- alone, which the caller never sees.
unfoldable pub protocol_init :
    Pointer → Bool → Pointer → Bool × Bool → ℕ → Option ProtocolContext × Option ProtocolError
protocol_init pc_ctx has_endpoint user_data (context_allocated, machine_allocated) now =
    if pc_ctx == 0 || not has_endpoint
    then (none, some invalid_parameters)
    else if not context_allocated
    then (none, some allocation_failed)
    else elim (create_with_integrity pc_ctx true none machine_allocated now).0 [
      | none ↦ (none, some machine_failed)
      | some sm ↦ (
        some (record {
          pc_ctx = pc_ctx;
          state_machine = some sm;
          has_endpoint = has_endpoint;
          next_sequence = 1;
          state = init;
          user_data = user_data;
        }),
        none,
      )
    ]

-- Which state may follow which.
unfoldable pub follows : ProtocolState → ProtocolState → Bool
follows init target = state_code target == state_code handshake
follows handshake target = state_code target == state_code auth
follows auth target = state_code target == state_code ready
follows ready target =
    state_code target == state_code error || state_code target == state_code closed
follows error target = state_code target == state_code closed
follows closed target = false

unfoldable pub can_transition : ProtocolContext → ProtocolState → Bool
unfolding follows
can_transition ctx target = is_some ctx.state_machine && follows ctx.state target

-- The handshake struct in memory: magic, version, one byte of padding, flags.
abbrev pub handshake_payload : List ℕ
handshake_payload = le_bytes 4 protocol_magic ++ (protocol_version ∷ 0 ∷ le_bytes 2 0)

pub record Step : Type 0 where
  pub ctx : ProtocolContext
  pub is_ok : Bool
  pub events : List Event
  pub packet : Option (List ℕ)

abbrev pub moved_step : Option (List ℕ) → Moved → Step
moved_step packet m = record { ctx = m.ctx; is_ok = m.is_ok; events = m.events; packet = packet }

abbrev pub idle_step : ProtocolContext → Step
idle_step ctx = record { ctx = ctx; is_ok = false; events = []; packet = none }

-- `if (!send(...)) return false; return transition_protocol_state(...)`.
unfoldable pub send_then : Callbacks → Sent → ProtocolState → ℕ → Step
send_then callbacks sent target now =
    if not sent.is_ok
    then record { ctx = sent.ctx; is_ok = false; events = []; packet = sent.packet }
    else moved_step sent.packet (transition_protocol_state callbacks sent.ctx target now)

unfoldable pub start_handshake : (List ℕ → Option ℕ) → Callbacks → ProtocolContext → ℕ → Step
start_handshake deliver callbacks ctx now =
    if not (state_code ctx.state == state_code init)
    then idle_step ctx
    else send_then callbacks
        (send deliver ctx MessageType.handshake (some handshake_payload) flag_reliable) handshake
        now

unfoldable pub complete_handshake : Callbacks → ProtocolContext → ℕ → Step
complete_handshake callbacks ctx now =
    if not (state_code ctx.state == state_code handshake)
    then idle_step ctx
    else moved_step none (transition_protocol_state callbacks ctx auth now)

unfoldable pub authenticate :
    (List ℕ → Option ℕ) → Callbacks → ProtocolContext → Option (List ℕ) → ℕ → Step
authenticate deliver callbacks ctx none now = idle_step ctx
authenticate deliver callbacks ctx (some credentials) now =
    if length credentials == 0
    then idle_step ctx
    else send_then callbacks
        (send deliver ctx MessageType.auth (some credentials) (flag_encrypted + flag_reliable))
        ready now

unfoldable pub update_from :
    (List ℕ → Option ℕ) → Callbacks → ProtocolContext → ProtocolState → ℕ → Step
update_from deliver callbacks ctx init now =
    if can_transition ctx handshake
    then start_handshake deliver callbacks ctx now
    else idle_step ctx
update_from deliver callbacks ctx handshake now =
    if can_transition ctx auth
    then moved_step none (transition_protocol_state callbacks ctx auth now)
    else idle_step ctx
update_from deliver callbacks ctx auth now =
    if can_transition ctx ready
    then moved_step none (transition_protocol_state callbacks ctx ready now)
    else idle_step ctx
update_from deliver callbacks ctx _ now = idle_step ctx

unfoldable pub protocol_update : (List ℕ → Option ℕ) → Callbacks → ProtocolContext → ℕ → Step
protocol_update deliver callbacks ctx now = update_from deliver callbacks ctx ctx.state now

-- `protocol_context_internal_t`: a context with what lies behind it.
pub record InternalContext : Type 0 where
  pub base : ProtocolContext
  pub callbacks : Callbacks
  pub last_error : List ℕ

abbrev pub protocol_error_length : ℕ
protocol_error_length = 256

-- `polycall_protocol_set_error` with a text, on a context that is the base of an internal one. The
-- context that `polycall_protocol_init` hands out is a copy of the base alone: there the text is
-- written past the end of the caller's object, which has no defined behaviour.
unfoldable pub set_error : InternalContext → List ℕ → ℕ → InternalContext × Step
set_error ctx text now =
    let step = moved_step none (transition_protocol_state ctx.callbacks ctx.base error now) in
    (record ctx { base = step.ctx; last_error = store_name (protocol_error_length - 1) text }, step)

-- The observers, of a context or NULL.
unfoldable pub get_state : Option ProtocolContext → ProtocolState
get_state none = error
get_state (some ctx) = ctx.state

unfoldable pub is_connected : Option ProtocolContext → Bool
is_connected none = false
is_connected (some ctx) =
    leb (state_code handshake) (state_code ctx.state)
    && ltb (state_code ctx.state) (state_code error)

unfoldable pub is_authenticated : Option ProtocolContext → Bool
is_authenticated none = false
is_authenticated (some ctx) =
    leb (state_code ready) (state_code ctx.state) && ltb (state_code ctx.state) (state_code error)

unfoldable pub is_error : Option ProtocolContext → Bool
is_error none = true
is_error (some ctx) = state_code ctx.state == state_code error
