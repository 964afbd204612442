-- ===== src/Protocol/Edges.antt =====
-- Which protocol states follow which, whatever the state machine allows.
use libpolycall_v.Protocol.{
  init, handshake, auth, ready, ProtocolState, Callbacks, ProtocolContext, flag_reliable,
  flag_encrypted,
}
use libpolycall_v.Prelude.{
  refl, none, some, true, false, [], inl, inr, List, ℕ, ◌≡◌, ◌⊎◌, Option, arith, if_rule, not, ◌∙◌,
  ◌==◌, codes, ◌+◌, ◌<◌, length, ap,
}
use libpolycall_v.Protocol.Session.{
  transition_protocol_state, Step, notified, Moved, after_execute, execute_named, on_machine,
  moved_step, transition_name, stays, send_then, start_handshake, update_from, protocol_update,
  authenticate, can_transition, state_code, handshake_payload,
}
use libpolycall_v.Machine.Execute.{Executed, execute_transition}
use libpolycall_v.Machine.{StateMachine, success, Transition}
use libpolycall_v.Protocol.Send.{send, Sent}
use libpolycall_v.Protocol.Wire.{MessageType}
use libpolycall_v.Machine.Invariant.{IsValid}
use libpolycall_v.Machine.Found.{IsFirst}
use libpolycall_v.Machine.Executed.{IsEnabled, execute_transition_enabled}

-- The way of a connection.
infix 40 ◌⟶◌
pub data ◌⟶◌ : ProtocolState → ProtocolState → Type 0 where
  greet : init ⟶ handshake
  agree : handshake ⟶ auth
  admit : auth ⟶ ready

-- A step keeps the state and runs no notification, or it succeeds and goes along an edge, with the
-- notification if the callback is set.
pub data Goes (callbacks : Callbacks) (ctx : ProtocolContext) (s : Step) : Type 0 where
  waits : s.ctx.state ≡ ctx.state → s.is_ok ≡ false → s.events ≡ [] → Goes callbacks ctx s
  walks :
      ctx.state ⟶ s.ctx.state
      → s.is_ok ≡ true
      → s.events ≡ notified callbacks ctx.state s.ctx.state
      → Goes callbacks ctx s

-- A move that stays where it is, or that lands on its target.
pub data Lands (callbacks : Callbacks) (ctx : ProtocolContext) (target : ProtocolState) (m : Moved)
    : Type 0 where
  stayed : m.ctx.state ≡ ctx.state → m.is_ok ≡ false → m.events ≡ [] → Lands callbacks ctx target m
  landed :
      m.ctx.state ≡ target
      → m.is_ok ≡ true
      → m.events ≡ notified callbacks ctx.state target
      → Lands callbacks ctx target m

after_execute-Lands :
    (callbacks : Callbacks) (ctx : ProtocolContext) (target : ProtocolState) (r : Executed)
    → (r.status ≡ success)
      ⊎ (after_execute callbacks ctx target r
          ≡ stays (record ctx { state_machine = some r.machine }))
    → Lands callbacks ctx target (after_execute callbacks ctx target r)
unfolding after_execute
after_execute-Lands callbacks ctx target r (inl ok) =
    landed (ground arith) (ground arith) (ground arith)
after_execute-Lands callbacks ctx target r (inr e) = rw e (stayed refl refl refl)

after_execute_cases :
    (callbacks : Callbacks) (ctx : ProtocolContext) (target : ProtocolState) (r : Executed)
    → (r.status ≡ success)
      ⊎ (after_execute callbacks ctx target r
          ≡ stays (record ctx { state_machine = some r.machine }))
unfolding after_execute
after_execute_cases callbacks ctx target r = ground arith

execute_named-Lands :
    (callbacks : Callbacks) (ctx : ProtocolContext) (sm : StateMachine) (target : ProtocolState)
    (name : Option (List ℕ)) (now : ℕ)
    → Lands callbacks ctx target (execute_named callbacks ctx sm target name now)
unfolding execute_named
execute_named-Lands callbacks ctx sm target none now = stayed refl refl refl
execute_named-Lands callbacks ctx sm target (some name) now =
    let r = execute_transition sm (some name) now in
    after_execute-Lands callbacks ctx target r (after_execute_cases callbacks ctx target r)

on_machine-Lands :
    (callbacks : Callbacks) (ctx : ProtocolContext) (sm : Option StateMachine)
    (target : ProtocolState) (now : ℕ)
    → Lands callbacks ctx target (on_machine callbacks ctx sm target now)
unfolding on_machine
on_machine-Lands callbacks ctx none target now = stayed refl refl refl
on_machine-Lands callbacks ctx (some sm) target now =
    execute_named-Lands callbacks ctx sm target (transition_name target) now

pub transition-Lands :
    (callbacks : Callbacks) (ctx : ProtocolContext) (target : ProtocolState) (now : ℕ)
    → Lands callbacks ctx target (transition_protocol_state callbacks ctx target now)
unfolding transition_protocol_state
transition-Lands callbacks ctx target now =
    on_machine-Lands callbacks ctx ctx.state_machine target now

-- A landing on the target that an edge leads to.
moved_step-Goes :
    (callbacks : Callbacks) (ctx : ProtocolContext) (target : ProtocolState)
    (packet : Option (List ℕ)) (m : Moved)
    → ctx.state ⟶ target
    → Lands callbacks ctx target m
    → Goes callbacks ctx (moved_step packet m)
moved_step-Goes callbacks ctx target packet m e (stayed s o v) = waits s o v
moved_step-Goes callbacks ctx target packet m e (landed s o v) = walks (rw s e) o (rw s v)

pub send-state :
    (deliver : List ℕ → Option ℕ) (ctx : ProtocolContext) (type : MessageType)
    (payload : Option (List ℕ)) (flags : ℕ)
    → (send deliver ctx type payload flags).ctx.state ≡ ctx.state
unfolding send
send-state deliver ctx type none flags = refl
send-state deliver ctx type (some payload) flags = ground arith

send_then-Goes :
    (callbacks : Callbacks) (ctx : ProtocolContext) (sent : Sent) (target : ProtocolState) (now : ℕ)
    → sent.ctx.state ≡ ctx.state
    → ctx.state ⟶ target
    → Goes callbacks ctx (send_then callbacks sent target now)
unfolding send_then
send_then-Goes callbacks ctx sent target now same e =
    if_rule (Goes callbacks ctx) (not sent.is_ok) (λ _. waits same refl refl)
      λ _. elim (transition-Lands callbacks sent.ctx target now) [
        | stayed s o v ↦ waits (s ∙ same) o v
        | landed s o v ↦
            walks (rw s e) o (rw s (v ∙ ap (λ old. notified callbacks old target) same))
      ]

start_handshake-Goes :
    (deliver : List ℕ → Option ℕ) (callbacks : Callbacks) (ctx : ProtocolContext) (now : ℕ)
    → ctx.state ≡ init
    → Goes callbacks ctx (start_handshake deliver callbacks ctx now)
unfolding start_handshake
start_handshake-Goes deliver callbacks ctx now fresh =
    if_rule (Goes callbacks ctx) (not (state_code ctx.state == state_code init))
      (λ _. waits refl refl refl)
      λ _.
        send_then-Goes callbacks ctx
          (send deliver ctx MessageType.handshake (some handshake_payload) flag_reliable) handshake
          now (send-state deliver ctx MessageType.handshake (some handshake_payload) flag_reliable)
          (rw fresh greet)

update_from-Goes :
    (deliver : List ℕ → Option ℕ) (callbacks : Callbacks) (ctx : ProtocolContext)
    (s : ProtocolState) (now : ℕ)
    → ctx.state ≡ s
    → Goes callbacks ctx (update_from deliver callbacks ctx s now)
unfolding update_from
update_from-Goes deliver callbacks ctx init now e =
    if_rule (Goes callbacks ctx) (can_transition ctx handshake)
      (λ _. start_handshake-Goes deliver callbacks ctx now e) (λ _. waits refl refl refl)
update_from-Goes deliver callbacks ctx handshake now e =
    if_rule (Goes callbacks ctx) (can_transition ctx auth)
      (λ _.
        moved_step-Goes callbacks ctx auth none (transition_protocol_state callbacks ctx auth now)
          (rw e agree) (transition-Lands callbacks ctx auth now))
      (λ _. waits refl refl refl)
update_from-Goes deliver callbacks ctx auth now e =
    if_rule (Goes callbacks ctx) (can_transition ctx ready)
      (λ _.
        moved_step-Goes callbacks ctx ready none (transition_protocol_state callbacks ctx ready now)
          (rw e admit) (transition-Lands callbacks ctx ready now))
      (λ _. waits refl refl refl)
update_from-Goes deliver callbacks ctx _ now e = waits refl refl refl

-- Whatever its state machine allows, an update of a connection leaves its state alone or takes
-- it one step on from init through handshake and auth to ready, and reports exactly such a
-- step.
pub protocol_update-Goes :
    (deliver : List ℕ → Option ℕ) (callbacks : Callbacks) (ctx : ProtocolContext) (now : ℕ)
    → Goes callbacks ctx (protocol_update deliver callbacks ctx now)
unfolding protocol_update
protocol_update-Goes deliver callbacks ctx now =
    update_from-Goes deliver callbacks ctx ctx.state now refl

pub send-machine :
    (deliver : List ℕ → Option ℕ) (ctx : ProtocolContext) (type : MessageType)
    (payload : Option (List ℕ)) (flags : ℕ)
    → (send deliver ctx type payload flags).ctx.state_machine ≡ ctx.state_machine
unfolding send
send-machine deliver ctx type none flags = refl
send-machine deliver ctx type (some payload) flags = ground arith

-- Authentication asks nothing about the protocol state: a context in any state at all becomes
-- ready as soon as credentials that are not empty go out and its valid machine has an enabled
-- transition named to_ready.
pub authenticate_anywhere :
    (deliver : List ℕ → Option ℕ) (callbacks : Callbacks) (ctx : ProtocolContext)
    (sm : StateMachine) (credentials : List ℕ) (now i : ℕ) (t : Transition)
    → ctx.state_machine ≡ some sm
    → IsValid sm
    → IsFirst sm.transitions sm.num_transitions (codes "to_ready") t i
    → IsEnabled sm t
    → (send deliver ctx MessageType.auth (some credentials) (flag_encrypted + flag_reliable)).is_ok
      ≡ true
    → 0 < length credentials
    → (authenticate deliver callbacks ctx (some credentials) now).ctx.state ≡ ready
unfolding authenticate send_then transition_protocol_state on_machine execute_named transition_name
    after_execute
authenticate_anywhere deliver callbacks ctx sm credentials now i t has v first able sent h =
    ground (
      arith,
      send-machine deliver ctx MessageType.auth (some credentials) (flag_encrypted + flag_reliable),
      execute_transition_enabled sm (codes "to_ready") now i t v first able,
    )
