-- ===== src/Protocol/Send.antt =====
-- Sending a message. `deliver` is the answer of `net_send`: the bytes that the socket took, or
-- `none` for -1.
use libpolycall_v.Prelude.{
  none, some, false, List, ℕ, Bool, Option, ◌==◌, if◌then◌else◌, not, ◌||◌, ◌%◌, length, u32, ◌+◌,
  ltb, ◌++◌,
}
use libpolycall_v.Protocol.{
  ProtocolContext, ProtocolError, protocol_version, protocol_buffer_size, too_large,
}
use libpolycall_v.Protocol.Wire.{
  MessageType, Header, message_code, calculate_checksum, header_size, header_bytes,
}

pub record Sent : Type 0 where
  pub ctx : ProtocolContext
  pub is_ok : Bool
  pub packet : Option (List ℕ)
  pub failure : Option ProtocolError

-- `== (ssize_t)total_size`.
abbrev pub took_all : Option ℕ → ℕ → Bool
took_all none size = false
took_all (some n) size = n == size

-- The header that goes out before the payload.
unfoldable pub outgoing_header : ℕ → MessageType → List ℕ → ℕ → Header
outgoing_header sequence type payload flags = record {
  version = protocol_version;
  type = message_code type;
  flags = flags % 65536;
  sequence = sequence;
  payload_length = u32 (length payload);
  checksum = calculate_checksum payload;
}

-- A NULL payload is `none`. The sequence number is used up before the size is checked.
unfoldable pub send :
    (List ℕ → Option ℕ) → ProtocolContext → MessageType → Option (List ℕ) → ℕ → Sent
unfolding outgoing_header
send deliver ctx type none flags = record {
  ctx = ctx;
  is_ok = false;
  packet = none;
  failure = none;
}
send deliver ctx type (some payload) flags =
    if not ctx.has_endpoint || length payload == 0
    then record { ctx = ctx; is_ok = false; packet = none; failure = none }
    else let next = record ctx { next_sequence = u32 (ctx.next_sequence + 1) } in
      let total_size = header_size + length payload in
      if ltb protocol_buffer_size total_size
      then record {
        ctx = next;
        is_ok = false;
        packet = none;
        failure = some (too_large total_size);
      }
      else let packet =
          header_bytes (outgoing_header ctx.next_sequence type payload flags) ++ payload in
        record {
          ctx = next;
          is_ok = took_all (deliver packet) total_size;
          packet = some packet;
          failure = none;
        }
