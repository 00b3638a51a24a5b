-- ===== src/Tests/Splice.antt =====
-- A splice message with its operations, in one packet and in three.
use libklvanc.Prelude.{
  Outcome, ap, ◌∙◌, ◌-◌, ℕ, ◌/◌, ◌%◌, ◌≡◌, ◌≢◌, ◌<◌, refl, List, [], ◌∷◌, ◌++◌, ok, fault, deref,
  ◌>>=◌, true, some, length, replicate, arith, map, All,
}
use libklvanc.Word.{parity}
use libklvanc.Codec.{Alloc, byte_at}
use libklvanc.Codec.Laws.{Grants}
use libklvanc.Packet.{Header, parse, scte_104}
use libklvanc.Packet.RoundTrip.{header_of, first_words-parity, first_words-pad}
use libklvanc.Payload.{generate_parity, copy_bytes}
use libklvanc.Scte104.{
  Request, sr_data, timesignal_data, no_operation, time_type_2, Mom, no_mom, Scte104Packet,
  klvanc_alloc_scte_104, klvanc_scte_104_add_mom_op,
}
use libklvanc.Scte104.Builder.{
  gen_request, klvanc_convert_scte_104_to_packet_bytes, klvanc_convert_scte_104_to_words,
}
use libklvanc.Scte104.Parser.{
  Allocs, parse_descriptor, parse_request, parse_message, message_payload, message_length,
  parse_scte_104,
}
use libklvanc.Scte104.Fragments.{
  message_fragment_append, message_fragment_reset, message_fragment_continued,
  message_fragment_following,
}
use libklvanc.Scte104.Arrival.{request_id, IsRequest, request_bytes, request_arrived}
use libklvanc.Scte104.Wire.{
  IsMessage, mom_bytes, mom_rest, mom_size, time_id, time_bytes, ops_bytes, op_bytes,
}
use libklvanc.Scte104.Received.{AllGranted}
use libklvanc.Scte104.Assembly.{IsWhole, joined}
use libklvanc.Scte104.Series.{Flags, collect, parse_scte_104-collect}
use libklvanc.Scte104.Bounds.{parse_scte_104-held}
use libklvanc.Scte104.Sound.{IsSoundPacket, parse_scte_104-IsSoundPacket}
use libklvanc.Scte104.Exchange.{parse_request-gen_request}
use libklvanc.Scte104.Building.{add_all, added, with_ops, add_all-alloc}
use libklvanc.Scte104.Converted.{convert-mom_bytes}
use libklvanc.Scte104.Delivered.{packet_arrived, parse_message_at}
use libklvanc.Scte104.RoundTrip.{
  mom_bytes-IsByte, with_type, parse_scte_104-convert_scte_104_to_words,
}
use libklvanc.Scte104.Fragmented.{carried, parse_scte_104-carried}

abbrev buffers : ℕ → Alloc
buffers n = record { klbs_ok = true; buffer = some (replicate n 0); words_ok = true }

small_buffers : (i : ℕ) → Grants 255 (buffers 255)
small_buffers i = record {
  mem = replicate 255 0;
  klbs = refl;
  buffer = refl;
  size = refl;
  words = refl;
}

large_buffer : Grants 2000 (buffers 2000)
large_buffer = record {
  mem = replicate 2000 0;
  klbs = refl;
  buffer = refl;
  size = refl;
  words = refl;
}

abbrev all_granted : Allocs
all_granted = record {
  packet_ok = true;
  fragment_ok = true;
  complete_ok = true;
  ops_ok = true;
  body_ok = λ i. true;
  klbs_ok = λ i. true;
}

all_granted-AllGranted : AllGranted all_granted
all_granted-AllGranted = record {
  packet = refl;
  fragment = refl;
  complete = refl;
  ops = refl;
  body = λ i. refl;
  klbs = λ i. refl;
}

abbrev splice : Request
splice = sr_data (record {
  splice_insert_type = 1;
  splice_event_id = 0x12345678;
  unique_program_id = 0x4321;
  pre_roll_time = 8000;
  brk_duration = 300;
  avail_num = 1;
  avails_expected = 2;
  auto_return_flag = 1;
})

abbrev message : Mom
message = record no_mom {
  as_index = 7;
  message_number = 99;
  dpi_pid_index = 0x1234;
  timestamp = record { time_type = 2; value = time_type_2 1 2 3 4 };
  num_ops = 2;
  ops =
      record no_operation { op_id = 0x101; request = splice }
      ∷ record no_operation { op_id = 0x104; request = timesignal_data 4000 }
      ∷ [];
}

message-IsMessage : IsMessage message
unfolding time_id request_id IsRequest
message-IsMessage = record {
  time = refl;
  count = refl;
  few = omega arith;
  operations = ((refl, tt), ((refl, tt), tt));
}

message-size : mom_size message ≡ 40
unfolding mom_rest time_bytes ops_bytes op_bytes request_bytes
message-size = refl

abbrev packet_of : Mom → Scte104Packet
packet_of m = record {
  payload_descriptor_byte = 8;
  version = 8;
  continued_pkt = 0;
  following_pkt = 0;
  duplicate_msg = 0;
  payload = [];
  payload_length_bytes = 0;
  so_msg_op_id = 0xffff;
  mo_msg = m;
}

parse_scte_104-convert_scte_104_to_words_example :
    (do
      words? ←
          klvanc_convert_scte_104_to_words true
            (buffers 2000)
            (λ i. buffers 255)
            (packet_of message)
      words ← deref words?
      (hdr, _) ← parse true words (length words) 0
      with_type hdr (parse_scte_104 true all_granted [] hdr))
    ≡ ok (scte_104, ([], ok (some (packet_arrived message))))
parse_scte_104-convert_scte_104_to_words_example =
    parse_scte_104-convert_scte_104_to_words (buffers 2000) (λ i. buffers 255) all_granted
      (packet_of message) [] 0 large_buffer small_buffers all_granted-AllGranted refl
      message-IsMessage (omega (arith, message-size))

convert-mom_bytes_example :
    (rest : List ℕ) × (klvanc_convert_scte_104_to_packet_bytes
        (buffers 2000)
        (λ i. buffers 255)
        (packet_of message)
      ≡ ok (mom_bytes (mom_size message) message ++ rest, mom_size message))
convert-mom_bytes_example =
    convert-mom_bytes (buffers 2000) (λ i. buffers 255) (packet_of message) large_buffer
      small_buffers refl message-IsMessage (omega (arith, message-size))

splice-IsRequest : IsRequest splice
unfolding IsRequest
splice-IsRequest = tt

parse_request-gen_request_example :
    (do
      made ← gen_request (buffers 255) (request_id splice) splice
      (buf, size) ← deref made
      body ← copy_bytes buf size
      parse_request true (request_id splice) size body)
    ≡ ok (request_arrived splice)
parse_request-gen_request_example =
    parse_request-gen_request (buffers 255) splice (small_buffers 0) splice-IsRequest

-- A message with one request, cut into three parts.
abbrev signal : Mom
signal = record no_mom {
  num_ops = 1;
  ops = record no_operation { op_id = 0x104; request = timesignal_data 4000 } ∷ [];
}

signal-IsMessage : IsMessage signal
unfolding time_id request_id IsRequest
signal-IsMessage = record {
  time = refl;
  count = refl;
  few = omega arith;
  operations = ((refl, tt), tt);
}

signal-size : mom_size signal ≡ 18
unfolding mom_rest time_bytes ops_bytes op_bytes request_bytes
signal-size = refl

abbrev part : ℕ → List ℕ → Header
part descriptor bytes = header_of 7 0x41 (descriptor ∷ bytes) []

abbrev part_1 : Header
part_1 = part 0x0c (0xff ∷ 0xff ∷ 0 ∷ 18 ∷ 0 ∷ [])

abbrev part_2 : Header
part_2 = part 0x0e (0 ∷ 0 ∷ 0 ∷ 0 ∷ 0 ∷ 0 ∷ 1 ∷ 1 ∷ [])

abbrev part_3 : Header
part_3 = part 0x0a (4 ∷ 0 ∷ 2 ∷ 4000 / 256 ∷ 4000 % 256 ∷ [])

abbrev Series : Type 0
Series = All IsWhole (part_1 ∷ part_2 ∷ part_3 ∷ [])

part_1-Flags : Flags part_1 1 0
unfolding header_of generate_parity parity
part_1-Flags = record { single = refl; first = refl; second = refl }

part_2-Flags : Flags part_2 1 1
unfolding header_of generate_parity parity
part_2-Flags = record { single = refl; first = refl; second = refl }

part_3-Flags : Flags part_3 0 1
unfolding header_of generate_parity parity
part_3-Flags = record { single = refl; first = refl; second = refl }

parts-IsWhole : Series
unfolding header_of
parts-IsWhole = (
  record { count = refl; some_word = omega arith; short = omega arith },
  (
    record { count = refl; some_word = omega arith; short = omega arith },
    (record { count = refl; some_word = omega arith; short = omega arith }, tt),
  ),
)

parts_carry : carried (part_1 ∷ part_2 ∷ part_3 ∷ []) ≡ mom_bytes (mom_size signal) signal
unfolding carried joined header_of generate_parity parity mom_rest time_bytes ops_bytes op_bytes
    request_bytes
parts_carry = refl

parse_scte_104-collect_example :
    (whole : Header) × (parse_scte_104 true all_granted
        (collect all_granted [] (part_1 ∷ part_2 ∷ []))
        part_3
      ≡ ([], parse_message all_granted (byte_at part_3 0) whole >>= λ pkt. ok (some pkt)))
    × (whole.payload ≡ joined 0 (part_1 ∷ part_2 ∷ part_3 ∷ []))
    × (whole.payload_length_words ≡ length whole.payload)
parse_scte_104-collect_example =
    parse_scte_104-collect all_granted [] part_1 (part_2 ∷ []) part_3 all_granted-AllGranted
      part_1-Flags (part_2-Flags, tt) part_3-Flags (omega arith) parts-IsWhole

parse_scte_104-carried_example :
    parse_scte_104 true all_granted (collect all_granted [] (part_1 ∷ part_2 ∷ [])) part_3 ≡ (
      [],
      ok (
          some (record (packet_arrived signal) {
            payload_descriptor_byte = byte_at part_3 0;
            version = byte_at part_3 0 / 8 % 4;
            continued_pkt = byte_at part_3 0 / 4 % 2;
            following_pkt = byte_at part_3 0 / 2 % 2;
            duplicate_msg = byte_at part_3 0 % 2;
          })),
    )
parse_scte_104-carried_example =
    parse_scte_104-carried all_granted [] part_1 (part_2 ∷ []) part_3 signal all_granted-AllGranted
      part_1-Flags (part_2-Flags, tt) part_3-Flags (omega arith) parts-IsWhole signal-IsMessage
      (omega (arith, signal-size)) parts_carry

parse_scte_104-held_example :
    (length (parse_scte_104 true all_granted (part_1 ∷ []) part_2).0 < 10)
    × ((message_fragment_continued true (message_fragment_reset (part_1 ∷ [])) part_2).1 ≢ fault)
    × ((message_fragment_following true (part_1 ∷ []) part_2).1 ≢ fault)
    × ((message_fragment_append true (part_1 ∷ []) part_2).1 ≢ fault)
parse_scte_104-held_example =
    parse_scte_104-held true all_granted (part_1 ∷ []) part_2 (omega arith)

add_all-alloc_example :
    ((klvanc_alloc_scte_104 true 0xffff >>= add_all (0x101 ∷ 0x104 ∷ [])) ≡ (
      klvanc_alloc_scte_104 true 0xffff >>= λ new.
      ok (with_ops new 2 (map added (0x101 ∷ 0x104 ∷ [])))))
    × (klvanc_scte_104_add_mom_op true 0x104 (packet_of (record no_mom { num_ops = 255 })) ≡ fault)
add_all-alloc_example =
    add_all-alloc (0x101 ∷ 0x104 ∷ []) 0x104 (packet_of (record no_mom { num_ops = 255 }))
      (omega arith) refl

abbrev signal_bytes : List ℕ
signal_bytes = mom_bytes (mom_size signal) signal

abbrev sent_whole : Header
sent_whole = header_of 7 0x41 (8 ∷ signal_bytes) []

sent_payload : message_payload sent_whole ≡ signal_bytes ++ replicate (2000 - mom_size signal) 0
unfolding header_of
sent_payload =
    first_words-parity 2000 signal_bytes
      (mom_bytes-IsByte (λ i. buffers 255) small_buffers signal signal-IsMessage)
    ∙ first_words-pad 2000 (2000 - mom_size signal) signal_bytes (omega (arith, signal-size))

sent_length : message_length sent_whole ≡ mom_size signal
unfolding header_of
sent_length = omega (arith, signal-size)

abbrev signal_arrived : Scte104Packet
signal_arrived = record (packet_arrived signal) {
  payload_descriptor_byte = 8;
  version = 1;
  continued_pkt = 0;
  following_pkt = 0;
  duplicate_msg = 0;
}

signal_delivered : parse_scte_104 true all_granted [] sent_whole ≡ ([], ok (some signal_arrived))
unfolding parse_scte_104 parse_descriptor message_fragment_reset header_of generate_parity parity
signal_delivered =
    ap (λ (m : Outcome Scte104Packet). ([], m >>= λ pkt. ok (some pkt)))
      (parse_message_at all_granted all_granted-AllGranted signal signal-IsMessage
        (omega (arith, signal-size)) 8 sent_whole sent_payload sent_length)

parse_scte_104-IsSoundPacket_example : IsSoundPacket signal_arrived
parse_scte_104-IsSoundPacket_example =
    parse_scte_104-IsSoundPacket true all_granted [] [] sent_whole signal_arrived signal_delivered
