-- ===== src/Scte104/Parser.antt =====
-- parse_SCTE_104 of src/core-packet-scte_104.c.
use libklvanc.Prelude.{
  ℕ, zero, suc, ◌+◌, ◌-◌, ◌/◌, ◌%◌, ◌^◌, List, [], ◌∷◌, Outcome, ok, err, fault, failed, enomem,
  ◌>>=◌, ◌>>◌, Bool, ltb, ◌==◌, not, if◌then◌else◌, guard, Option, none, some, length, drop, map,
}
use libklvanc.Word.{sanitize_word}
use libklvanc.Codec.{byte_at}
use libklvanc.Packet.{Header, first_words}
use libklvanc.Scte104.{
  Request, unset, sr_data, timesignal_data, dtmf_data, segmentation_data, avail_descriptor_data,
  descriptor_data, proprietary_data, tier_data, time_data, Operation, Timestamp, no_value,
  time_type_1, time_type_2, time_type_3, Mom, Scte104Packet, TimeDescriptor, mo_splice_request_data,
  mo_time_signal_request_data, mo_insert_descriptor_request_data, mo_insert_dtmf_request_data,
  mo_insert_avail_descriptor_request_data, mo_insert_segmentation_request_data,
  mo_proprietary_command_request_data, mo_insert_tier_data, mo_insert_time_descriptor,
}
use libklvanc.Scte104.Reading.{
  Parser, byte, short, long, bytes, parse_splice_request_data, parse_time_signal_request_data,
  parse_descriptor_request_data, parse_dtmf_request_data, parse_avail_request_data,
  parse_segmentation_request_data, parse_proprietary_command_request_data, parse_tier_data,
  parse_time_descriptor,
}
use libklvanc.Scte104.Fragments.{
  Held, Step, message_fragment_reset, message_fragment_continued, message_fragment_following,
  message_fragment_final,
}

-- What the allocator answers: for the packet, for the copy of a fragment, for the whole of the
-- fragments, for the array of operations, and for each operation its body and its bit stream.
pub record Allocs : Type 0 where
  pub packet_ok : Bool
  pub fragment_ok : Bool
  pub complete_ok : Bool
  pub ops_ok : Bool
  pub body_ok : ℕ → Bool
  pub klbs_ok : ℕ → Bool

-- `sizeof(pkt->payload)`
abbrev pub payload_size : ℕ
payload_size = 2000

-- A time type that is not known is reported, and read as no time.
unfoldable pub parse_mom_timestamp : Parser Timestamp
parse_mom_timestamp p = do
  (time_type, p) ← byte p
  (value, p) ←
      if time_type == 1
      then (do
        (utc_seconds, p) ← long p
        (utc_microseconds, p) ← short p
        ok (time_type_1 utc_seconds utc_microseconds, p))
      else if time_type == 2
      then (do
        (hours, p) ← byte p
        (minutes, p) ← byte p
        (seconds, p) ← byte p
        (frames, p) ← byte p
        ok (time_type_2 hours minutes seconds frames, p))
      else if time_type == 3
      then (do
        (gpi_number, p) ← byte p
        (gpi_edge, p) ← byte p
        ok (time_type_3 gpi_number gpi_edge, p))
      else ok (no_value, p)
  ok (record { time_type = time_type; value = value }, p)

-- The member of the union that a parser sets; the pointer it returns is dropped.
abbrev pub stored {ℓ} : {A : Type ℓ} → (A → Request) → Outcome (A × List ℕ) → Outcome Request
stored member m = m >>= λ r. ok (member r.0)

abbrev pub time_stored : Outcome TimeDescriptor → Outcome Request
time_stored (ok d) = ok (time_data d)
time_stored (err e) = ok unset
time_stored fault = fault

-- The dispatch on `o->opID`: any other identifier leaves the union as it is.
unfoldable pub parse_request : Bool → ℕ → ℕ → List ℕ → Outcome Request
parse_request klbs_ok op_id data_length body =
    if op_id == mo_splice_request_data
    then stored sr_data (parse_splice_request_data body)
    else if op_id == mo_time_signal_request_data
    then stored timesignal_data (parse_time_signal_request_data body)
    else if op_id == mo_insert_descriptor_request_data
    then stored descriptor_data
        (parse_descriptor_request_data ((data_length + 2 ^ 32 - 1) % 2 ^ 32) body)
    else if op_id == mo_insert_avail_descriptor_request_data
    then stored avail_descriptor_data (parse_avail_request_data body)
    else if op_id == mo_insert_dtmf_request_data
    then stored dtmf_data (parse_dtmf_request_data body)
    else if op_id == mo_insert_segmentation_request_data
    then stored segmentation_data (parse_segmentation_request_data body)
    else if op_id == mo_proprietary_command_request_data
    then stored proprietary_data (parse_proprietary_command_request_data data_length body)
    else if op_id == mo_insert_tier_data
    then stored tier_data (parse_tier_data body)
    else if op_id == mo_insert_time_descriptor
    then time_stored (parse_time_descriptor klbs_ok body)
    else ok unset

-- The loop over the operations. `p` is what is left of the array of `payload_size` bytes, so the
-- pointer has moved by the rest. The test leaves the four bytes in front of the body out.
unfoldable pub parse_ops : Allocs → ℕ → ℕ → ℕ → List ℕ → Outcome (List Operation)
parse_ops alloc zero i payload_length_bytes p = ok []
parse_ops alloc (suc rounds) i payload_length_bytes p = do
  (op_id, q) ← short p
  (data_length, q) ← short q
  guard (not (ltb payload_length_bytes (payload_size - length p + data_length))) (failed 1)
  guard (alloc.body_ok i) (failed 1)
  (body, q) ← bytes data_length q
  request ← parse_request (alloc.klbs_ok i) op_id data_length body
  ops ← parse_ops alloc rounds (i + 1) payload_length_bytes q
  ok (record { op_id = op_id; data_length = data_length; body = body; request = request } ∷ ops)

-- The branch for a multiple operation message.
unfoldable pub parse_mom : Allocs → ℕ → List ℕ → Outcome Mom
parse_mom alloc payload_length_bytes payload = do
  guard (not (ltb payload_length_bytes 10)) (failed 1)
  (rsvd, p) ← short payload
  (message_size, p) ← short p
  (protocol_version, p) ← byte p
  (as_index, p) ← byte p
  (message_number, p) ← byte p
  (dpi_pid_index, p) ← short p
  (scte35_protocol_version, p) ← byte p
  guard (not (ltb payload_length_bytes message_size)) (failed 1)
  (timestamp, p) ← parse_mom_timestamp p
  (num_ops, p) ← byte p
  guard alloc.ops_ok (failed 1)
  ops ← parse_ops alloc num_ops 0 payload_length_bytes p
  ok (record {
    rsvd = rsvd;
    message_size = message_size;
    protocol_version = protocol_version;
    as_index = as_index;
    message_number = message_number;
    dpi_pid_index = dpi_pid_index;
    scte35_protocol_version = scte35_protocol_version;
    timestamp = timestamp;
    num_ops = num_ops;
    ops = ops;
  })

-- `pkt->payload`: the words behind the descriptor byte, as bytes.
abbrev pub message_payload : Header → List ℕ
message_payload hdr = map sanitize_word (first_words payload_size (drop 1 hdr.payload))

-- `hdr->payloadLengthWords - 1`, as an `unsigned int`.
abbrev pub message_length : Header → ℕ
message_length hdr = (hdr.payload_length_words + 2 ^ 32 - 1) % 2 ^ 32

-- From the copy of the payload on, with the header that holds the whole message.
unfoldable pub parse_message : Allocs → ℕ → Header → Outcome Scte104Packet
parse_message alloc descriptor hdr = do
  let payload = message_payload hdr
  (op_id, _) ← short payload
  guard (op_id == 0xffff) (failed 1)
  mom ← parse_mom alloc (message_length hdr) payload
  ok (record {
    payload_descriptor_byte = descriptor;
    version = descriptor / 8 % 4;
    continued_pkt = descriptor / 4 % 2;
    following_pkt = descriptor / 2 % 2;
    duplicate_msg = descriptor % 2;
    payload = payload;
    payload_length_bytes = message_length hdr;
    so_msg_op_id = op_id;
    mo_msg = mom;
  })

-- What is reported to the caller of a step that only collects.
abbrev pub collecting : Step (Unit {0}) → Step (Option Scte104Packet)
collecting (held, ok _) = (held, err (failed 1))
collecting (held, err e) = (held, err (failed 1))
collecting (held, fault) = (held, fault)

abbrev pub delivered : Allocs → ℕ → Step Header → Step (Option Scte104Packet)
delivered alloc descriptor (held, complete) =
    (held, complete >>= λ hdr. parse_message alloc descriptor hdr >>= λ pkt. ok (some pkt))

-- From the test of the bit for a duplicate on.
unfoldable pub parse_descriptor : Allocs → Held → ℕ → Header → Step (Option Scte104Packet)
parse_descriptor alloc held descriptor hdr =
    if descriptor % 2 == 1
    then (held, err (failed 1))
    else if descriptor == 0x08
    then delivered alloc descriptor (message_fragment_reset held, ok hdr)
    else if descriptor / 4 % 2 == 1
    then if descriptor / 2 % 2 == 0
      then collecting
          (message_fragment_continued alloc.fragment_ok (message_fragment_reset held) hdr)
      else collecting (message_fragment_following alloc.fragment_ok held hdr)
    else if descriptor / 2 % 2 == 1
    then delivered alloc descriptor
        (message_fragment_final alloc.fragment_ok alloc.complete_ok held hdr)
    else (held, err (failed 1))

-- `parse_SCTE_104`. `registered` says whether there is a callback for this type; the packet is what the
-- callback gets and `*pp` is set to.
unfoldable pub parse_scte_104 : Bool → Allocs → Held → Header → Step (Option Scte104Packet)
parse_scte_104 registered alloc held hdr =
    if registered
    then if alloc.packet_ok
      then parse_descriptor alloc held (byte_at hdr 0) hdr
      else (held, err enomem)
    else (held, ok none)
