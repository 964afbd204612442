-- ===== src/Protocol/Tests.antt =====
-- Runs of a small session, and the theorems at it.
use libpolycall_v.Machine.Invariant.{IsValid, transition_at, new_machine-IsValid}
use libpolycall_v.Protocol.{init, ready, ProtocolContext, Callbacks, checksum_failed}
use libpolycall_v.Protocol.Wire.{MessageType, Header, header_bytes}
use libpolycall_v.Machine.Run.{Request, run, adds_state, adds_transition, step}
use libpolycall_v.Prelude.{
  refl, none, some, true, false, [], ◌∷◌, List, ℕ, Option, codes, ◌++◌, length, ◌≡◌, arith, u32,
  ◌+◌, strcmp_eq, store_name,
}
use libpolycall_v.Machine.Build.{
  add_state, new_machine, add_named_state, create_with_integrity, add_transition,
  add_named_transition, initialized_state, initialized_transition,
}
use libpolycall_v.Machine.Preserved.{run-IsValid}
use libpolycall_v.Protocol.Send.{send, outgoing_header}
use libpolycall_v.Protocol.Process.{process}
use libpolycall_v.Protocol.Edges.{Goes, protocol_update-Goes, authenticate_anywhere}
use libpolycall_v.Machine.{Transition, calculate_state_checksum, StateMachine}
use libpolycall_v.Machine.Found.{IsFirst}
use libpolycall_v.Protocol.Session.{protocol_init, protocol_update, authenticate}
use libpolycall_v.Protocol.Delivered.{received}
use libpolycall_v.Protocol.RoundTrip.{process_damaged, process-send}
use libpolycall_v.Protocol.Actions.{act_all, updates, act, completes_handshake}
use libpolycall_v.Machine.Execute.{execute_transition, find_transition, execute_found, follow}
use libpolycall_v.Protocol.Stuck.{protocol_init_stuck}
use libpolycall_v.Protocol.Reached.{Leads, protocol_update_ready}

abbrev callbacks_on : Callbacks
callbacks_on = record {
  on_handshake = true;
  on_auth_request = true;
  on_command = true;
  on_error = true;
  on_state_change = true;
}

-- A network that takes every byte.
abbrev takes_all : List ℕ → Option ℕ
takes_all packet = some (length packet)

abbrev session_requests : List Request
session_requests =
    adds_state (some (codes "auth")) 0 0 false 5
    ∷ adds_state (some (codes "ready")) 0 0 false 6
    ∷ adds_transition (some (codes "to_ready")) 0 1 0 none
    ∷ []

session_machine : StateMachine
unfolding run step add_state add_named_state add_transition add_named_transition initialized_state
    initialized_transition execute_transition find_transition execute_found follow strcmp_eq
    store_name calculate_state_checksum
session_machine = run (new_machine 7 none 1) session_requests

session_machine-IsValid : IsValid session_machine
unfolding session_machine
session_machine-IsValid =
    run-IsValid session_requests (tt, (tt, (tt, tt))) (new_machine-IsValid 7 none 1)

abbrev session_context : ProtocolContext
session_context = record {
  pc_ctx = 7;
  state_machine = some session_machine;
  has_endpoint = true;
  next_sequence = 1;
  state = init;
  user_data = 0;
}

abbrev sample_header : Header
sample_header = record {
  version = 1;
  type = 3;
  flags = 8;
  sequence = 77;
  payload_length = 300;
  checksum = 3735928559;
}

process-send_example :
    let sent = send takes_all session_context MessageType.command (some (codes "hi")) 8 in
    (packet : List ℕ) × (sent.packet ≡ some packet)
    × (sent.ctx.next_sequence ≡ u32 (session_context.next_sequence + 1))
    × (process callbacks_on (some packet) ≡ received callbacks_on MessageType.command (codes "hi"))
process-send_example =
    process-send takes_all callbacks_on session_context MessageType.command (codes "hi") 8 refl
      (omega arith) (omega arith) (omega arith)

process_damaged_example :
    process callbacks_on
      (some (header_bytes (outgoing_header 1 MessageType.command (codes "hi") 8) ++ codes "ho"))
    ≡ record { is_ok = false; events = []; failure = some checksum_failed }
process_damaged_example =
    process_damaged callbacks_on 1 MessageType.command (b'h' ∷ []) b'i' b'o' [] 8 (omega arith)
      (omega arith) (omega arith) (omega arith)

protocol_update-Goes_example :
    Goes callbacks_on session_context (protocol_update takes_all callbacks_on session_context 9)
protocol_update-Goes_example = protocol_update-Goes takes_all callbacks_on session_context 9

abbrev to_ready : Transition
to_ready = transition_at session_machine 0

to_ready-IsFirst :
    IsFirst session_machine.transitions session_machine.num_transitions
      (codes "to_ready")
      to_ready
      0
unfolding session_machine
to_ready-IsFirst = record {
  below = omega arith;
  here = refl;
  named = refl;
  earlier = λ j h. absurd (omega arith);
}

authenticate_anywhere_example :
    (authenticate takes_all callbacks_on session_context (some (codes "me")) 9).ctx.state ≡ ready
unfolding session_machine send header_bytes
authenticate_anywhere_example =
    authenticate_anywhere takes_all callbacks_on session_context session_machine (codes "me") 9 0
      to_ready refl session_machine-IsValid to_ready-IsFirst
      (record { valid = refl; from_free = refl; to_free = refl; accepted = refl }) refl
      (omega arith)

abbrev started : ProtocolContext
started = record {
  pc_ctx = 7;
  state_machine = some (new_machine 7 none 4);
  has_endpoint = true;
  next_sequence = 1;
  state = init;
  user_data = 0;
}

protocol_init_stuck_example :
    let end = act_all takes_all callbacks_on started ((updates, 5) ∷ []) in
    (end.state ≡ init) × ((act takes_all callbacks_on end completes_handshake 6).events ≡ [])
unfolding protocol_init create_with_integrity
protocol_init_stuck_example =
    protocol_init_stuck takes_all callbacks_on 7 true 0 (true, true) 4 started ((updates, 5) ∷ [])
      completes_handshake 6 refl

abbrev path_requests : List Request
path_requests =
    adds_state (some (codes "idle")) 0 0 false 5
    ∷ adds_state (some (codes "busy")) 0 0 false 6
    ∷ adds_transition (some (codes "to_handshake")) 0 1 0 none
    ∷ adds_transition (some (codes "to_auth")) 1 0 0 none
    ∷ adds_transition (some (codes "to_ready")) 0 1 0 none
    ∷ []

abbrev path_machine : StateMachine
path_machine = run (new_machine 7 none 1) path_requests

abbrev path_context : ProtocolContext
path_context = record session_context { state_machine = some path_machine }

abbrev executed : StateMachine → List ℕ → ℕ → StateMachine
executed sm name now = (execute_transition sm (some name) now).machine

abbrev shaken_machine : StateMachine
shaken_machine = executed path_machine (codes "to_handshake") 10

abbrev auth_machine : StateMachine
auth_machine = executed shaken_machine (codes "to_auth") 20

abbrev ready_machine : StateMachine
ready_machine = executed auth_machine (codes "to_ready") 30

to_handshake-Leads : Leads path_machine (codes "to_handshake") 10 shaken_machine
unfolding run step add_state add_named_state add_transition add_named_transition initialized_state
    initialized_transition execute_transition find_transition execute_found follow strcmp_eq
    store_name
to_handshake-Leads = record { status = refl; machine = refl }

to_auth-Leads : Leads shaken_machine (codes "to_auth") 20 auth_machine
unfolding run step add_state add_named_state add_transition add_named_transition initialized_state
    initialized_transition execute_transition find_transition execute_found follow strcmp_eq
    store_name
to_auth-Leads = record { status = refl; machine = refl }

to_ready-Leads : Leads auth_machine (codes "to_ready") 30 ready_machine
unfolding run step add_state add_named_state add_transition add_named_transition initialized_state
    initialized_transition execute_transition find_transition execute_found follow strcmp_eq
    store_name
to_ready-Leads = record { status = refl; machine = refl }

protocol_update_ready_example :
    let shaken = (protocol_update takes_all callbacks_on path_context 10).ctx in
    let authenticating = (protocol_update takes_all callbacks_on shaken 20).ctx in
    let last = (protocol_update takes_all callbacks_on authenticating 30).ctx in
    (last.state ≡ ready) × (last.state_machine ≡ some ready_machine)
unfolding send header_bytes
protocol_update_ready_example =
    protocol_update_ready takes_all callbacks_on path_context path_machine shaken_machine
      auth_machine ready_machine 10 20 30 refl refl refl to_handshake-Leads to_auth-Leads
      to_ready-Leads
