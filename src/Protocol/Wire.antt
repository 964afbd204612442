-- ===== src/Protocol/Wire.antt =====
-- The message header in memory, the checksum, and header validation.
use libpolycall_v.Prelude.{
  none, some, false, [], ◌∷◌, List, ℕ, Bool, le_bytes, get_or, fold_rotl, ◌==◌, Option, ◌++◌,
  from_le, ◌%◌, take, if◌then◌else◌, u32, drop, not, ltb, ◌||◌,
}
use libpolycall_v.Protocol.{protocol_version, ProtocolError, version_mismatch, invalid_type}

pub record Header : Type 0 where
  pub version : ℕ
  pub type : ℕ
  pub flags : ℕ
  pub sequence : ℕ
  pub payload_length : ℕ
  pub checksum : ℕ

-- `sizeof(polycall_message_header_t)`: the fields are aligned, so there is no padding.
abbrev pub header_size : ℕ
header_size = 16

-- The header's bytes on a little-endian machine.
unfoldable pub header_bytes : Header → List ℕ
header_bytes h =
    h.version
    ∷ h.type
    ∷ (le_bytes 2 h.flags
        ++ (le_bytes 4 h.sequence ++ (le_bytes 4 h.payload_length ++ le_bytes 4 h.checksum)))

-- The cast of a received buffer to the header type.
unfoldable pub read_header : List ℕ → Header
read_header bytes = record {
  version = get_or bytes 0 0;
  type = get_or bytes 1 0;
  flags = from_le (take 2 (drop 2 bytes));
  sequence = from_le (take 4 (drop 4 bytes));
  payload_length = from_le (take 4 (drop 8 bytes));
  checksum = from_le (take 4 (drop 12 bytes));
}

unfoldable pub calculate_checksum : List ℕ → ℕ
calculate_checksum [] = 0
calculate_checksum (b ∷ bs) = fold_rotl 5 0 (b ∷ bs)

unfoldable pub verify_checksum : Header → List ℕ → Bool
verify_checksum h [] = false
verify_checksum h (b ∷ bs) = calculate_checksum (b ∷ bs) == h.checksum

pub data MessageType : Type 0 where
  handshake auth command response error heartbeat : MessageType

abbrev pub message_code : MessageType → ℕ
message_code handshake = 1
message_code auth = 2
message_code command = 3
message_code response = 4
message_code error = 5
message_code heartbeat = 6

-- What is wrong with a header, if anything.
unfoldable pub validate_message_header : Header → Option ProtocolError
validate_message_header h =
    if not (h.version == protocol_version)
    then some (version_mismatch h.version)
    else if ltb h.type 1 || ltb 6 h.type
    then some (invalid_type h.type)
    else none

unfoldable pub version_compatible : ℕ → Bool
version_compatible remote_version = remote_version == protocol_version

-- The header that `send` fills in, but for the sequence and the checksum.
unfoldable pub create_header : MessageType → ℕ → ℕ → Header
create_header type payload_length flags = record {
  version = protocol_version;
  type = message_code type;
  flags = flags % 65536;
  sequence = 0;
  payload_length = u32 payload_length;
  checksum = 0;
}
