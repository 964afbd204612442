-- ===== src/Protocol/Delivered.antt =====
-- A message that was sent, at the receiver.
use libpolycall_v.Protocol.Wire.{
  MessageType, handshake, auth, command, response, error, heartbeat, Header, read_header,
  validate_message_header, message_code, calculate_checksum, header_bytes, header_size,
  verify_checksum,
}
use libpolycall_v.Prelude.{
  refl, none, some, false, [], ◌∷◌, List, ℕ, ◌<◌, u32_mod, from_le, ◌++◌, ◌≡◌, arith, drop, length,
  le_bytes, fold_rotl-lt, if◌then◌else◌, five-IsRotation, ◌+◌, not,
}
use libpolycall_v.Protocol.{Callbacks, handshakes, requests_auth, checksum_failed, commands, errs}
use libpolycall_v.Protocol.Process.{dispatch, process, Processed, done, event_if}
use libpolycall_v.Protocol.Send.{outgoing_header}

-- The fields fit their widths in the header.
pub record IsSized (h : Header) : Type 0 where
  pub version_lt : h.version < 256
  pub type_lt : h.type < 256
  pub flags_lt : h.flags < 65536
  pub sequence_lt : h.sequence < u32_mod
  pub payload_length_lt : h.payload_length < u32_mod
  pub checksum_lt : h.checksum < u32_mod

from_le-two : (x : ℕ) → x < 65536 → from_le (le_bytes 2 x) ≡ x
from_le-two x h = omega arith

from_le-four : (x : ℕ) → x < u32_mod → from_le (le_bytes 4 x) ≡ x
from_le-four x h = omega arith

-- A header whose fields fit their widths is read back from its bytes, whatever follows them.
pub read_header-header_bytes :
    (h : Header) (rest : List ℕ) → IsSized h → read_header (header_bytes h ++ rest) ≡ h
unfolding read_header header_bytes
read_header-header_bytes h rest s = ground (
  arith,
  from_le-two h.flags s.flags_lt,
  from_le-four h.sequence s.sequence_lt,
  from_le-four h.payload_length s.payload_length_lt,
  from_le-four h.checksum s.checksum_lt,
)

-- What the receiver of an intact message does: it runs the callback of the type, if it is set. A
-- response is refused.
pub received : Callbacks → MessageType → List ℕ → Processed
received callbacks handshake payload = done (event_if callbacks.on_handshake handshakes)
received callbacks auth payload = done (event_if callbacks.on_auth_request (requests_auth payload))
received callbacks command payload = done (event_if callbacks.on_command (commands payload))
received callbacks response payload = record { is_ok = false; events = []; failure = none }
received callbacks error payload = done (event_if callbacks.on_error (errs payload))
received callbacks heartbeat payload = done []

pub dispatch-received :
    (callbacks : Callbacks) (type : MessageType) (payload : List ℕ)
    → dispatch callbacks (message_code type) payload ≡ received callbacks type payload
unfolding dispatch received
dispatch-received callbacks handshake payload = refl
dispatch-received callbacks auth payload = refl
dispatch-received callbacks command payload = refl
dispatch-received callbacks response payload = refl
dispatch-received callbacks error payload = refl
dispatch-received callbacks heartbeat payload = refl

pub outgoing_header-valid :
    (sequence : ℕ) (type : MessageType) (payload : List ℕ) (flags : ℕ)
    → validate_message_header (outgoing_header sequence type payload flags) ≡ none
unfolding validate_message_header outgoing_header
outgoing_header-valid sequence handshake payload flags = refl
outgoing_header-valid sequence auth payload flags = refl
outgoing_header-valid sequence command payload flags = refl
outgoing_header-valid sequence response payload flags = refl
outgoing_header-valid sequence error payload flags = refl
outgoing_header-valid sequence heartbeat payload flags = refl

message_code-lt : (type : MessageType) → message_code type < 256
message_code-lt handshake = omega arith
message_code-lt auth = omega arith
message_code-lt command = omega arith
message_code-lt response = omega arith
message_code-lt error = omega arith
message_code-lt heartbeat = omega arith

calculate_checksum-lt : (payload : List ℕ) → calculate_checksum payload < u32_mod
unfolding calculate_checksum
calculate_checksum-lt [] = omega arith
calculate_checksum-lt (b ∷ bs) = fold_rotl-lt five-IsRotation 0 (b ∷ bs) (omega arith)

pub outgoing_header-IsSized :
    (sequence : ℕ) (type : MessageType) (payload : List ℕ) (flags : ℕ)
    → sequence < u32_mod
    → IsSized (outgoing_header sequence type payload flags)
unfolding outgoing_header
outgoing_header-IsSized sequence type payload flags h = record {
  version_lt = omega arith;
  type_lt = message_code-lt type;
  flags_lt = omega arith;
  sequence_lt = h;
  payload_length_lt = omega arith;
  checksum_lt = calculate_checksum-lt payload;
}

drop-header_bytes : (h : Header) (rest : List ℕ) → drop header_size (header_bytes h ++ rest) ≡ rest
unfolding header_bytes
drop-header_bytes h rest = refl

length-header_bytes :
    (h : Header) (rest : List ℕ) → length (header_bytes h ++ rest) ≡ header_size + length rest
unfolding header_bytes
length-header_bytes h rest = omega arith

-- A buffer that a header of this protocol begins is processed by its checksum and its type.
pub process-bytes :
    (callbacks : Callbacks) (h : Header) (payload : List ℕ)
    → IsSized h
    → validate_message_header h ≡ none
    → process callbacks (some (header_bytes h ++ payload)) ≡ (
        if not (verify_checksum h payload)
        then record { is_ok = false; events = []; failure = some checksum_failed }
        else dispatch callbacks h.type payload)
unfolding process
process-bytes callbacks h payload s valid = ground (
  arith,
  length-header_bytes h payload,
  read_header-header_bytes h payload s,
  drop-header_bytes h payload,
  valid,
)
