-- ===== src/Protocol/Stuck.antt =====
-- A context as `polycall_protocol_init` delivers it.
use libpolycall_v.Protocol.{
  init, handshake, auth, ready, ProtocolContext, Callbacks, ProtocolState, flag_encrypted,
  flag_reliable,
}
use libpolycall_v.Prelude.{
  refl, none, some, false, [], ◌∷◌, List, ℕ, Bool, Option, ◌≡◌, arith, if_rule, not, length, ◌∙◌,
  ◌==◌, ◌+◌,
}
use libpolycall_v.Protocol.Send.{Sent, send}
use libpolycall_v.Machine.Execute.{execute_transition, execute_found, find_transition, Executed}
use libpolycall_v.Protocol.Wire.{MessageType}
use libpolycall_v.Protocol.Session.{
  Step, start_handshake, transition_protocol_state, complete_handshake, protocol_update,
  authenticate, Moved, after_execute, execute_named, on_machine, send_then, idle_step, update_from,
  protocol_init, transition_name, moved_step, can_transition, stays, state_code, handshake_payload,
}
use libpolycall_v.Machine.{StateMachine, error_invalid_transition, Pointer}
use libpolycall_v.Protocol.Edges.{send-machine, send-state}
use libpolycall_v.Machine.Build.{new_machine, create_with_integrity}
use libpolycall_v.Protocol.Actions.{
  starts_handshake, completes_handshake, updates, authenticates, sends, act, act_all, Action,
}

-- There is a machine, and it has no transition.
abbrev pub HoldsEmpty : Option StateMachine → Type 0
HoldsEmpty none = ⊥
HoldsEmpty (some sm) = sm.num_transitions ≡ 0

-- A context in its first state whose machine has no transition.
pub record IsFresh (ctx : ProtocolContext) : Type 0 where
  pub machine : HoldsEmpty ctx.state_machine
  pub state : ctx.state ≡ init

execute_transition_empty :
    (sm : StateMachine) (name : List ℕ) (now : ℕ)
    → sm.num_transitions ≡ 0
    → let r = execute_transition sm (some name) now in
      (r.status ≡ error_invalid_transition) × (r.machine.num_transitions ≡ 0)
unfolding execute_transition execute_found find_transition
execute_transition_empty sm name now e = (ground arith, ground arith)

-- Nothing came of a move.
pub record Fails (m : Moved) : Type 0 where
  pub fresh : IsFresh m.ctx
  pub is_ok : m.is_ok ≡ false
  pub silent : m.events ≡ []

pub record Idles (s : Step) : Type 0 where
  pub fresh : IsFresh s.ctx
  pub silent : s.events ≡ []

after_execute_refused :
    (callbacks : Callbacks) (ctx : ProtocolContext) (target : ProtocolState) (r : Executed)
    → r.status ≡ error_invalid_transition
    → after_execute callbacks ctx target r ≡ stays (record ctx { state_machine = some r.machine })
unfolding after_execute
after_execute_refused callbacks ctx target r e = ground arith

execute_named-Fails :
    (callbacks : Callbacks) (ctx : ProtocolContext) (sm : StateMachine) (target : ProtocolState)
    (name : Option (List ℕ)) (now : ℕ)
    → IsFresh ctx
    → sm.num_transitions ≡ 0
    → Fails (execute_named callbacks ctx sm target name now)
unfolding execute_named
execute_named-Fails callbacks ctx sm target none now f e = record {
  fresh = f;
  is_ok = refl;
  silent = refl;
}
execute_named-Fails callbacks ctx sm target (some name) now f e =
    let r = execute_transition_empty sm name now e in
    rw (after_execute_refused callbacks ctx target (execute_transition sm (some name) now) r.0)
      (record { fresh = record { machine = r.1; state = f.state }; is_ok = refl; silent = refl })

on_machine-Fails :
    (callbacks : Callbacks) (ctx : ProtocolContext) (sm : Option StateMachine)
    (target : ProtocolState) (now : ℕ)
    → IsFresh ctx
    → HoldsEmpty sm
    → Fails (on_machine callbacks ctx sm target now)
unfolding on_machine
on_machine-Fails callbacks ctx none target now f e = absurd e
on_machine-Fails callbacks ctx (some sm) target now f e =
    execute_named-Fails callbacks ctx sm target (transition_name target) now f e

transition-Fails :
    (callbacks : Callbacks) (ctx : ProtocolContext) (target : ProtocolState) (now : ℕ)
    → IsFresh ctx
    → Fails (transition_protocol_state callbacks ctx target now)
unfolding transition_protocol_state
transition-Fails callbacks ctx target now f =
    on_machine-Fails callbacks ctx ctx.state_machine target now f f.machine

send-IsFresh :
    (deliver : List ℕ → Option ℕ) (ctx : ProtocolContext) (type : MessageType)
    (payload : Option (List ℕ)) (flags : ℕ)
    → IsFresh ctx
    → IsFresh (send deliver ctx type payload flags).ctx
send-IsFresh deliver ctx type payload flags f = record {
  machine = rw (send-machine deliver ctx type payload flags) f.machine;
  state = send-state deliver ctx type payload flags ∙ f.state;
}

moved-Idles : (packet : Option (List ℕ)) (m : Moved) → Fails m → Idles (moved_step packet m)
moved-Idles packet m f = record { fresh = f.fresh; silent = f.silent }

send_then-Idles :
    (callbacks : Callbacks) (sent : Sent) (target : ProtocolState) (now : ℕ)
    → IsFresh sent.ctx
    → Idles (send_then callbacks sent target now)
unfolding send_then
send_then-Idles callbacks sent target now f =
    if_rule Idles (not sent.is_ok) (λ _. record { fresh = f; silent = refl })
      (λ _. moved-Idles sent.packet _ (transition-Fails callbacks sent.ctx target now f))

idle-Idles : (ctx : ProtocolContext) → IsFresh ctx → Idles (idle_step ctx)
idle-Idles ctx f = record { fresh = f; silent = refl }

start_handshake-Idles :
    (deliver : List ℕ → Option ℕ) (callbacks : Callbacks) (ctx : ProtocolContext) (now : ℕ)
    → IsFresh ctx
    → Idles (start_handshake deliver callbacks ctx now)
unfolding start_handshake
start_handshake-Idles deliver callbacks ctx now f =
    if_rule Idles (not (state_code ctx.state == state_code init)) (λ _. idle-Idles ctx f)
      (λ _.
        send_then-Idles callbacks _ handshake now
          (send-IsFresh deliver ctx MessageType.handshake (some handshake_payload) flag_reliable f))

authenticate-Idles :
    (deliver : List ℕ → Option ℕ) (callbacks : Callbacks) (ctx : ProtocolContext)
    (credentials : Option (List ℕ)) (now : ℕ)
    → IsFresh ctx
    → Idles (authenticate deliver callbacks ctx credentials now)
unfolding authenticate
authenticate-Idles deliver callbacks ctx none now f = idle-Idles ctx f
authenticate-Idles deliver callbacks ctx (some credentials) now f =
    if_rule Idles (length credentials == 0) (λ _. idle-Idles ctx f)
      (λ _. send_then-Idles callbacks _ ready now (
        send-IsFresh deliver ctx MessageType.auth (some credentials)
          (flag_encrypted + flag_reliable) f))

update_from-Idles :
    (deliver : List ℕ → Option ℕ) (callbacks : Callbacks) (ctx : ProtocolContext)
    (s : ProtocolState) (now : ℕ)
    → IsFresh ctx
    → Idles (update_from deliver callbacks ctx s now)
unfolding update_from
update_from-Idles deliver callbacks ctx init now f =
    if_rule Idles (can_transition ctx handshake)
      (λ _. start_handshake-Idles deliver callbacks ctx now f) (λ _. idle-Idles ctx f)
update_from-Idles deliver callbacks ctx handshake now f =
    if_rule Idles (can_transition ctx auth)
      (λ _. moved-Idles none _ (transition-Fails callbacks ctx auth now f)) (λ _. idle-Idles ctx f)
update_from-Idles deliver callbacks ctx auth now f =
    if_rule Idles (can_transition ctx ready)
      (λ _. moved-Idles none _ (transition-Fails callbacks ctx ready now f)) (λ _. idle-Idles ctx f)
update_from-Idles deliver callbacks ctx _ now f = idle-Idles ctx f

act-Idles :
    (deliver : List ℕ → Option ℕ) (callbacks : Callbacks) (ctx : ProtocolContext) (a : Action)
    (now : ℕ)
    → IsFresh ctx
    → Idles (act deliver callbacks ctx a now)
unfolding act complete_handshake protocol_update
act-Idles deliver callbacks ctx starts_handshake now f =
    start_handshake-Idles deliver callbacks ctx now f
act-Idles deliver callbacks ctx completes_handshake now f =
    if_rule Idles (not (state_code ctx.state == state_code handshake)) (λ _. idle-Idles ctx f)
      (λ _. moved-Idles none _ (transition-Fails callbacks ctx auth now f))
act-Idles deliver callbacks ctx updates now f =
    update_from-Idles deliver callbacks ctx ctx.state now f
act-Idles deliver callbacks ctx (authenticates credentials) now f =
    authenticate-Idles deliver callbacks ctx credentials now f
act-Idles deliver callbacks ctx (sends type payload flags) now f = record {
  fresh = send-IsFresh deliver ctx type payload flags f;
  silent = refl;
}

act_all-IsFresh :
    (deliver : List ℕ → Option ℕ) (callbacks : Callbacks) (ctx : ProtocolContext)
    (actions : List (Action × ℕ))
    → IsFresh ctx
    → IsFresh (act_all deliver callbacks ctx actions)
unfolding act_all
act_all-IsFresh deliver callbacks ctx [] f = f
act_all-IsFresh deliver callbacks ctx ((a, now) ∷ rest) f =
    act_all-IsFresh deliver callbacks (act deliver callbacks ctx a now).ctx rest
      (act-Idles deliver callbacks ctx a now f).fresh

-- The context that a successful initialisation hands out.
abbrev initial : Pointer → Bool → Pointer → ℕ → ProtocolContext
initial pc_ctx has_endpoint user_data now = record {
  pc_ctx = pc_ctx;
  state_machine = some (new_machine pc_ctx none now);
  has_endpoint = has_endpoint;
  next_sequence = 1;
  state = init;
  user_data = user_data;
}

fresh_context :
    (pc_ctx : Pointer) (has_endpoint : Bool) (user_data : Pointer) (a b : Bool) (now : ℕ)
    (ctx : ProtocolContext)
    → (protocol_init pc_ctx has_endpoint user_data (a, b) now).0 ≡ some ctx
    → initial pc_ctx has_endpoint user_data now ≡ ctx
unfolding protocol_init create_with_integrity
fresh_context pc_ctx has_endpoint user_data a b now ctx e = ground arith

init-IsFresh :
    (pc_ctx : Pointer) (has_endpoint : Bool) (user_data : Pointer) (memory : Bool × Bool) (now : ℕ)
    (ctx : ProtocolContext)
    → (protocol_init pc_ctx has_endpoint user_data memory now).0 ≡ some ctx
    → IsFresh ctx
init-IsFresh pc_ctx has_endpoint user_data (a, b) now ctx e =
    rw (← fresh_context pc_ctx has_endpoint user_data a b now ctx e)
      (record { machine = refl; state = refl })

-- The machine that `polycall_protocol_init` creates never gets a transition by the protocol's
-- own functions, so whatever handshakes, authentications, updates and sendings the client asks
-- for afterwards, and whatever the network answers, the protocol stays in its first state and
-- no notification runs.
pub protocol_init_stuck :
    (deliver : List ℕ → Option ℕ) (callbacks : Callbacks) (pc_ctx : Pointer) (has_endpoint : Bool)
    (user_data : Pointer) (memory : Bool × Bool) (now : ℕ) (ctx : ProtocolContext)
    (actions : List (Action × ℕ)) (next : Action) (later : ℕ)
    → (protocol_init pc_ctx has_endpoint user_data memory now).0 ≡ some ctx
    → let end = act_all deliver callbacks ctx actions in
      (end.state ≡ init) × ((act deliver callbacks end next later).events ≡ [])
protocol_init_stuck deliver callbacks pc_ctx has_endpoint user_data memory now ctx actions next
      later e =
    let f =
      act_all-IsFresh deliver callbacks ctx actions
        (init-IsFresh pc_ctx has_endpoint user_data memory now ctx e) in
    (
      f.state,
      (act-Idles deliver callbacks (act_all deliver callbacks ctx actions) next later f).silent,
    )
