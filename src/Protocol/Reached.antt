-- ===== src/Protocol/Reached.antt =====
-- A session that reaches its last state by updates alone.
use mathlib.Core.Path.{subst}
use libpolycall_v.Protocol.Wire.{MessageType}
use libpolycall_v.Machine.{success, StateMachine}
use libpolycall_v.Protocol.{
  init, handshake, auth, ready, Callbacks, ProtocolContext, ProtocolState, flag_reliable,
}
use libpolycall_v.Prelude.{
  refl, none, some, true, List, ℕ, ◌≡◌, ◌∙◌, ap, Option, codes, is_some, arith, ◌==◌, sym,
}
use libpolycall_v.Machine.Execute.{execute_transition, Executed}
use libpolycall_v.Protocol.Session.{
  after_execute, transition_protocol_state, protocol_update, on_machine, update_from, execute_named,
  start_handshake, transition_name, send_then, can_transition, follows, handshake_payload,
  moved_step, state_code, Step,
}
use libpolycall_v.Protocol.Send.{send}
use libpolycall_v.Protocol.Edges.{send-machine}

-- Executing a name succeeds and leads to the next machine.
pub record Leads (sm : StateMachine) (name : List ℕ) (now : ℕ) (next : StateMachine) : Type 0 where
  pub status : (execute_transition sm (some name) now).status ≡ success
  pub machine : (execute_transition sm (some name) now).machine ≡ next

-- A context in a state, with a machine.
pub record IsAt (ctx : ProtocolContext) (state : ProtocolState) (sm : StateMachine) : Type 0 where
  pub state_eq : ctx.state ≡ state
  pub machine_eq : ctx.state_machine ≡ some sm

after_execute-IsAt :
    (callbacks : Callbacks) (ctx : ProtocolContext) (target : ProtocolState) (r : Executed)
    → r.status ≡ success
    → IsAt (after_execute callbacks ctx target r).ctx target r.machine
unfolding after_execute
after_execute-IsAt callbacks ctx target r e = rw e (record { state_eq = refl; machine_eq = refl })

transition-IsAt :
    (callbacks : Callbacks) (ctx : ProtocolContext) (target : ProtocolState) (name : List ℕ)
    (sm next : StateMachine) (now : ℕ)
    → ctx.state_machine ≡ some sm
    → transition_name target ≡ some name
    → Leads sm name now next
    → IsAt (transition_protocol_state callbacks ctx target now).ctx target next
unfolding transition_protocol_state on_machine execute_named after_execute
transition-IsAt callbacks ctx target name sm next now m n l =
    let r = execute_transition sm (some name) now in
    let w = after_execute-IsAt callbacks ctx target r l.status in
    rw (m, n) (record { state_eq = w.state_eq; machine_eq = w.machine_eq ∙ ap some l.machine })

IsAt-can_transition :
    (ctx : ProtocolContext) (state target : ProtocolState) (sm : StateMachine)
    → IsAt ctx state sm
    → follows state target ≡ true
    → can_transition ctx target ≡ true
unfolding can_transition
IsAt-can_transition ctx state target sm w f =
    let a : is_some ctx.state_machine ≡ true = ap is_some w.machine_eq in
    let b : follows ctx.state target ≡ true = ap (λ s. follows s target) w.state_eq ∙ f in
    ground (arith, a, b)

update_init_lem :
    (deliver : List ℕ → Option ℕ) (callbacks : Callbacks) (ctx : ProtocolContext) (now : ℕ)
    → ctx.state ≡ init
    → can_transition ctx handshake ≡ true
    → (send deliver ctx MessageType.handshake (some handshake_payload) flag_reliable).is_ok ≡ true
    → protocol_update deliver callbacks ctx now
      ≡ moved_step
          (send deliver ctx MessageType.handshake (some handshake_payload) flag_reliable).packet
          (transition_protocol_state callbacks
            (send deliver ctx MessageType.handshake (some handshake_payload) flag_reliable).ctx
            handshake
            now)
unfolding protocol_update update_from start_handshake send_then
update_init_lem deliver callbacks ctx now e c s =
    let at_init : (state_code ctx.state == state_code init) ≡ true =
      ap (λ state. state_code state == state_code init) e in
    ap (λ state. update_from deliver callbacks ctx state now) e ∙ rw (c, at_init, s) refl

update_init-IsAt :
    (deliver : List ℕ → Option ℕ) (callbacks : Callbacks) (ctx : ProtocolContext)
    (sm next : StateMachine) (now : ℕ)
    → IsAt ctx init sm
    → Leads sm (codes "to_handshake") now next
    → (send deliver ctx MessageType.handshake (some handshake_payload) flag_reliable).is_ok ≡ true
    → IsAt (protocol_update deliver callbacks ctx now).ctx handshake next
unfolding follows transition_name
update_init-IsAt deliver callbacks ctx sm next now w l s =
    let sent = send deliver ctx MessageType.handshake (some handshake_payload) flag_reliable in
    let m : sent.ctx.state_machine ≡ some sm =
      send-machine deliver ctx MessageType.handshake (some handshake_payload) flag_reliable
      ∙ w.machine_eq in
    let c = IsAt-can_transition ctx init handshake sm w refl in
    rw (update_init_lem deliver callbacks ctx now w.state_eq c s)
      (transition-IsAt callbacks sent.ctx handshake (codes "to_handshake") sm next now m refl l)

update_handshake-IsAt :
    (deliver : List ℕ → Option ℕ) (callbacks : Callbacks) (ctx : ProtocolContext)
    (sm next : StateMachine) (now : ℕ)
    → IsAt ctx handshake sm
    → Leads sm (codes "to_auth") now next
    → IsAt (protocol_update deliver callbacks ctx now).ctx auth next
unfolding follows transition_name protocol_update update_from
update_handshake-IsAt deliver callbacks ctx sm next now w l =
    let c = IsAt-can_transition ctx handshake auth sm w refl in
    let e : update_from deliver callbacks ctx handshake now
        ≡ moved_step none (transition_protocol_state callbacks ctx auth now) =
      rw c refl in
    subst (λ (s : Step). IsAt s.ctx auth next)
      (sym (ap (λ state. update_from deliver callbacks ctx state now) w.state_eq ∙ e))
      (transition-IsAt callbacks ctx auth (codes "to_auth") sm next now w.machine_eq refl l)

update_auth-IsAt :
    (deliver : List ℕ → Option ℕ) (callbacks : Callbacks) (ctx : ProtocolContext)
    (sm next : StateMachine) (now : ℕ)
    → IsAt ctx auth sm
    → Leads sm (codes "to_ready") now next
    → IsAt (protocol_update deliver callbacks ctx now).ctx ready next
unfolding follows transition_name protocol_update update_from
update_auth-IsAt deliver callbacks ctx sm next now w l =
    let c = IsAt-can_transition ctx auth ready sm w refl in
    let e : update_from deliver callbacks ctx auth now
        ≡ moved_step none (transition_protocol_state callbacks ctx ready now) =
      rw c refl in
    subst (λ (s : Step). IsAt s.ctx ready next)
      (sym (ap (λ state. update_from deliver callbacks ctx state now) w.state_eq ∙ e))
      (transition-IsAt callbacks ctx ready (codes "to_ready") sm next now w.machine_eq refl l)

-- A context in its first state becomes ready by three updates, when the handshake packet goes
-- out and its machine executes to_handshake, to_auth and to_ready with success, one after the
-- other, at the times of the updates.
pub protocol_update_ready :
    (deliver : List ℕ → Option ℕ) (callbacks : Callbacks) (ctx : ProtocolContext)
    (sm one two three : StateMachine) (first second third : ℕ)
    → ctx.state ≡ init
    → ctx.state_machine ≡ some sm
    → (send deliver ctx MessageType.handshake (some handshake_payload) flag_reliable).is_ok ≡ true
    → Leads sm (codes "to_handshake") first one
    → Leads one (codes "to_auth") second two
    → Leads two (codes "to_ready") third three
    → let shaken = (protocol_update deliver callbacks ctx first).ctx in
      let authenticating = (protocol_update deliver callbacks shaken second).ctx in
      let last = (protocol_update deliver callbacks authenticating third).ctx in
      (last.state ≡ ready) × (last.state_machine ≡ some three)
protocol_update_ready deliver callbacks ctx sm one two three first second third e m s l1 l2 l3 =
    let a =
      update_init-IsAt deliver callbacks ctx sm one first (record { state_eq = e; machine_eq = m })
        l1 s in
    let b = update_handshake-IsAt deliver callbacks _ one two second a l2 in
    let c = update_auth-IsAt deliver callbacks _ two three third b l3 in (c.state_eq, c.machine_eq)
