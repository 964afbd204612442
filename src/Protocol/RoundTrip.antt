-- ===== src/Protocol/RoundTrip.antt =====
-- From `send` to `process`: an intact message arrives, a damaged one is refused.
use libpolycall_v.Prelude.{
  none, some, true, false, [], ◌∷◌, List, ℕ, Option, ◌≡◌, ◌<◌, length, if◌then◌else◌, u32_mod, ◌≢◌,
  arith, not, ◌++◌, ◌+◌, ==_refl, fold_rotl, ◌≤◌, fold_rotl_detects, five-IsRotation, u32, sym, ap,
  ◌∙◌,
}
use libpolycall_v.Protocol.Send.{send, outgoing_header, took_all, Sent}
use libpolycall_v.Protocol.Wire.{
  verify_checksum, MessageType, Header, calculate_checksum, header_size, header_bytes,
}
use libpolycall_v.Protocol.{Callbacks, ProtocolContext, checksum_failed, protocol_buffer_size}
use libpolycall_v.Protocol.Process.{process, dispatch}
use libpolycall_v.Protocol.Delivered.{
  received, process-bytes, dispatch-received, outgoing_header-IsSized, outgoing_header-valid,
}

-- A payload that fits the buffer goes out behind its header, and one sequence number is used.
send_fits :
    (deliver : List ℕ → Option ℕ) (ctx : ProtocolContext) (type : MessageType) (payload : List ℕ)
    (flags : ℕ)
    → ctx.has_endpoint ≡ true
    → 0 < length payload
    → header_size + length payload ≤ protocol_buffer_size
    → let packet = header_bytes (outgoing_header ctx.next_sequence type payload flags) ++ payload in
      send deliver ctx type (some payload) flags ≡ record {
        ctx = record ctx { next_sequence = u32 (ctx.next_sequence + 1) };
        is_ok = took_all (deliver packet) (header_size + length payload);
        packet = some packet;
        failure = none;
      }
unfolding send
send_fits deliver ctx type payload flags e p h = ground arith

verified :
    (sequence : ℕ) (type : MessageType) (payload : List ℕ) (flags : ℕ)
    → 0 < length payload
    → verify_checksum (outgoing_header sequence type payload flags) payload ≡ true
unfolding verify_checksum outgoing_header
verified sequence type [] flags h = absurd (omega arith)
verified sequence type (b ∷ bs) flags h = ==_refl (calculate_checksum (b ∷ bs))

arrives :
    (callbacks : Callbacks) (sequence : ℕ) (type : MessageType) (payload : List ℕ) (flags : ℕ)
    → verify_checksum (outgoing_header sequence type payload flags) payload ≡ true
    → (if not (verify_checksum (outgoing_header sequence type payload flags) payload)
        then record { is_ok = false; events = []; failure = some checksum_failed }
        else dispatch callbacks (outgoing_header sequence type payload flags).type payload)
      ≡ received callbacks type payload
unfolding outgoing_header
arrives callbacks sequence type payload flags good =
    rw good (dispatch-received callbacks type payload)

refused_sum :
    (callbacks : Callbacks) (header : Header) (payload : List ℕ)
    → verify_checksum header payload ≡ false
    → (if not (verify_checksum header payload)
        then record { is_ok = false; events = []; failure = some checksum_failed }
        else dispatch callbacks header.type payload)
      ≡ record { is_ok = false; events = []; failure = some checksum_failed }
refused_sum callbacks header payload bad = rw bad

-- With an endpoint, a sequence number of 32 bits and a payload that is not empty and fits the
-- buffer, sending uses one sequence number, and what `process` does with the bytes that `send`
-- hands to the network is what the receiver of that type and that payload should do.
pub process-send :
    (deliver : List ℕ → Option ℕ) (callbacks : Callbacks) (ctx : ProtocolContext)
    (type : MessageType) (payload : List ℕ) (flags : ℕ)
    → ctx.has_endpoint ≡ true
    → ctx.next_sequence < u32_mod
    → 0 < length payload
    → header_size + length payload ≤ protocol_buffer_size
    → let sent = send deliver ctx type (some payload) flags in
      (packet : List ℕ) × (sent.packet ≡ some packet)
      × (sent.ctx.next_sequence ≡ u32 (ctx.next_sequence + 1))
      × (process callbacks (some packet) ≡ received callbacks type payload)
process-send deliver callbacks ctx type payload flags e s p h =
    let header = outgoing_header ctx.next_sequence type payload flags in
    let sized = outgoing_header-IsSized ctx.next_sequence type payload flags s in
    let valid = outgoing_header-valid ctx.next_sequence type payload flags in
    let good = verified ctx.next_sequence type payload flags p in
    let out = send_fits deliver ctx type payload flags e p h in
    (
      header_bytes header ++ payload,
      ap (λ (r : Sent). r.packet) out,
      ap (λ (r : Sent). r.ctx.next_sequence) out,
      process-bytes callbacks header payload sized valid
          ∙ arrives callbacks ctx.next_sequence type payload flags good,
    )

damaged_sum :
    (sequence : ℕ) (type : MessageType) (xs : List ℕ) (b d : ℕ) (ys : List ℕ) (flags : ℕ)
    → b < 256
    → d < 256
    → b ≢ d
    → verify_checksum (outgoing_header sequence type (xs ++ b ∷ ys) flags) (xs ++ d ∷ ys) ≡ false
unfolding verify_checksum outgoing_header calculate_checksum
damaged_sum sequence type [] b d ys flags hb hd differ = ground (arith, differs)
  where
    differs : fold_rotl 5 0 (d ∷ ys) ≡ fold_rotl 5 0 (b ∷ ys) → ⊥
    differs e = differ (fold_rotl_detects five-IsRotation 0 [] b d ys (omega arith) hb hd (sym e))
damaged_sum sequence type (x ∷ xs) b d ys flags hb hd differ = ground (arith, differs)
  where
    differs : fold_rotl 5 0 (x ∷ (xs ++ d ∷ ys)) ≡ fold_rotl 5 0 (x ∷ (xs ++ b ∷ ys)) → ⊥
    differs e =
        differ (fold_rotl_detects five-IsRotation 0 (x ∷ xs) b d ys (omega arith) hb hd (sym e))

-- A message with a sequence number of 32 bits in which one byte of the payload was changed on
-- the way is refused: no callback runs.
pub process_damaged :
    (callbacks : Callbacks) (sequence : ℕ) (type : MessageType) (xs : List ℕ) (b d : ℕ)
    (ys : List ℕ) (flags : ℕ)
    → sequence < u32_mod
    → b < 256
    → d < 256
    → b ≢ d
    → let header = outgoing_header sequence type (xs ++ b ∷ ys) flags in
      process callbacks (some (header_bytes header ++ (xs ++ d ∷ ys)))
      ≡ record { is_ok = false; events = []; failure = some checksum_failed }
process_damaged callbacks sequence type xs b d ys flags s hb hd differ =
    let header = outgoing_header sequence type (xs ++ b ∷ ys) flags in
    process-bytes callbacks header (xs ++ d ∷ ys)
      (outgoing_header-IsSized sequence type (xs ++ b ∷ ys) flags s)
      (outgoing_header-valid sequence type (xs ++ b ∷ ys) flags)
    ∙ refused_sum callbacks header (xs ++ d ∷ ys)
        (damaged_sum sequence type xs b d ys flags hb hd differ)
