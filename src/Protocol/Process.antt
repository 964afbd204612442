-- ===== src/Protocol/Process.antt =====
-- Processing a received message: validation, the checksum, and the callback of its type.
use libpolycall_v.Prelude.{
  none, some, true, false, [], ◌∷◌, List, ℕ, Bool, Option, if◌then◌else◌, ◌==◌, ltb, length, drop,
  not,
}
use libpolycall_v.Protocol.{
  Event, Callbacks, ProtocolError, handshakes, requests_auth, commands, errs, checksum_failed,
}
use libpolycall_v.Protocol.Wire.{header_size, read_header, validate_message_header, verify_checksum}

pub record Processed : Type 0 where
  pub is_ok : Bool
  pub events : List Event
  pub failure : Option ProtocolError

abbrev pub done : List Event → Processed
done events = record { is_ok = true; events = events; failure = none }

abbrev pub event_if : Bool → Event → List Event
event_if set event = if set then event ∷ [] else []

-- The `switch` on the type; `response` falls to its `default`.
unfoldable pub dispatch : Callbacks → ℕ → List ℕ → Processed
dispatch callbacks type payload =
    if type == 1
    then done (event_if callbacks.on_handshake handshakes)
    else if type == 2
    then done (event_if callbacks.on_auth_request (requests_auth payload))
    else if type == 3
    then done (event_if callbacks.on_command (commands payload))
    else if type == 5
    then done (event_if callbacks.on_error (errs payload))
    else if type == 6
    then done []
    else record { is_ok = false; events = []; failure = none }

-- `callbacks` are those that stand behind the context in memory, where the code's cast to its
-- internal type reads them. `bytes` is the buffer of the given length, or `none` for NULL.
unfoldable pub process : Callbacks → Option (List ℕ) → Processed
process callbacks none = record { is_ok = false; events = []; failure = none }
process callbacks (some bytes) =
    if ltb (length bytes) header_size
    then record { is_ok = false; events = []; failure = none }
    else let header = read_header bytes in
      let payload = drop header_size bytes in
      elim (validate_message_header header) [
        | some e ↦ record { is_ok = false; events = []; failure = some e }
        | none ↦
            if not (verify_checksum header payload)
            then record { is_ok = false; events = []; failure = some checksum_failed }
            else dispatch callbacks header.type payload
      ]
