-- ===== src/Protocol/Actions.antt =====
-- Histories of a client's calls on a context.
use libpolycall_v.Protocol.{ProtocolContext, Callbacks}
use libpolycall_v.Prelude.{[], ◌∷◌, List, ℕ, Option}
use libpolycall_v.Protocol.Send.{Sent, send}
use libpolycall_v.Protocol.Wire.{MessageType}
use libpolycall_v.Protocol.Session.{
  Step, start_handshake, complete_handshake, protocol_update, authenticate,
}

-- What a client may call on a context after its initialisation. `polycall_protocol_set_error` is not
-- among it: it writes past the end of such a context.
pub data Action : Type 0 where
  starts_handshake completes_handshake updates : Action
  authenticates : Option (List ℕ) → Action
  sends : MessageType → Option (List ℕ) → ℕ → Action

abbrev sent_step : Sent → Step
sent_step s = record { ctx = s.ctx; is_ok = s.is_ok; events = []; packet = s.packet }

module _ (deliver : List ℕ → Option ℕ) (callbacks : Callbacks) where
  unfoldable pub act : ProtocolContext → Action → ℕ → Step
  act ctx starts_handshake now = start_handshake deliver callbacks ctx now
  act ctx completes_handshake now = complete_handshake callbacks ctx now
  act ctx updates now = protocol_update deliver callbacks ctx now
  act ctx (authenticates credentials) now = authenticate deliver callbacks ctx credentials now
  act ctx (sends type payload flags) now = sent_step (send deliver ctx type payload flags)

  unfoldable pub act_all : ProtocolContext → List (Action × ℕ) → ProtocolContext
  act_all ctx [] = ctx
  act_all ctx ((a, now) ∷ as') = act_all (act ctx a now).ctx as'
