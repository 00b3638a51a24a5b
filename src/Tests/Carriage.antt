-- ===== src/Tests/Carriage.antt =====
-- SMPTE 2038 on concrete packets.
use libklvanc.Prelude.{
  ℕ, ◌+◌, ◌≡◌, ◌<◌, refl, List, [], ◌∷◌, ◌++◌, map, ok, ◌>>=◌, Bool, true, some, length,
  length-append, length-replicate, replicate, arith, Option, All, All-replicate,
}
use libklvanc.Codec.Serialize.{serialize}
use libklvanc.Codec.Bytes.{length-serialize}
use libklvanc.Packet.{Header}
use libklvanc.Packet.RoundTrip.{packet, header_of}
use libklvanc.Smpte2038.{klvanc_smpte2038_convert_line_to_words}
use libklvanc.Smpte2038.Encoding.{line_of, whole_fields, length-whole_fields, IsShort}
use libklvanc.Smpte2038.Packetizer.{
  Packetizer, klvanc_smpte2038_packetizer_begin, klvanc_smpte2038_packetizer_end,
}
use libklvanc.Smpte2038.Packetizer.Append.{Holds, Reallocs}
use libklvanc.Smpte2038.Packetizer.Queue.{
  lines_bytes, append_all, append_all-Holds, IsPacketizer, begin-Holds,
}
use libklvanc.Smpte2038.Parser.{
  klvanc_smpte2038_parse_pes_packet, klvanc_smpte2038_parse_pes_payload,
}
use libklvanc.Smpte2038.Parser.Front.{front_of}
use libklvanc.Smpte2038.RoundTrip.{parse_pes_packet-packetizer_end, parse_pes_payload-lines_bytes}
use libklvanc.Smpte2038.RoundTrip.Words.{convert_line_to_words-line_of}

-- A context of 16384 bytes, and memory for as many more.
abbrev new_packetizer : Packetizer
new_packetizer = record {
  buf = replicate 16384 0;
  buflen = 16384;
  bufused = 14;
  buffree = 16370;
  has_bs = true;
}

new_packetizer-IsPacketizer : IsPacketizer new_packetizer
new_packetizer-IsPacketizer = record {
  size = length-replicate {A = ℕ} 16384 0;
  room = omega arith;
  small = omega arith;
  ready = refl;
}

abbrev more_memory : ℕ → Option (List ℕ)
more_memory n = some (replicate 16384 0)

more_memory-Reallocs : Reallocs more_memory
more_memory-Reallocs n = (
  replicate 16384 0,
  refl,
  length-replicate {A = ℕ} 16384 0,
  All-replicate (λ b. b < 256) 16384 0 (omega arith),
)

abbrev always : ℕ → Bool
always k = true

-- Closed captions, and a packet of one byte.
abbrev two_packets : List Header
two_packets = header_of 1 0x61 (0x96 ∷ 0x69 ∷ []) [] ∷ header_of 5 0x41 (0x44 ∷ []) [] ∷ []

abbrev first_line : List ℕ
first_line = serialize (whole_fields (header_of 1 0x61 (0x96 ∷ 0x69 ∷ []) []))

abbrev second_line : List ℕ
second_line = serialize (whole_fields (header_of 5 0x41 (0x44 ∷ []) []))

two_packets-length : length (lines_bytes two_packets) ≡ 22
unfolding lines_bytes header_of
two_packets-length = omega (
  arith,
  length-append first_line (second_line ++ []),
  length-append second_line [],
  length-serialize (whole_fields (header_of 1 0x61 (0x96 ∷ 0x69 ∷ []) [])),
  length-serialize (whole_fields (header_of 5 0x41 (0x44 ∷ []) [])),
  length-whole_fields (header_of 1 0x61 (0x96 ∷ 0x69 ∷ []) []),
  length-whole_fields (header_of 5 0x41 (0x44 ∷ []) []),
)

two_packets-IsShort : All IsShort two_packets
unfolding header_of
two_packets-IsShort = omega arith

parse_pes_packet-packetizer_end_example :
    (do
      appended ←
          append_all more_memory (klvanc_smpte2038_packetizer_begin new_packetizer) two_packets
      sent ← klvanc_smpte2038_packetizer_end appended 90000
      klvanc_smpte2038_parse_pes_packet always always true true sent.buf sent.bufused)
    ≡ ok (
      true,
      record (front_of (length (lines_bytes two_packets) + 8) 90000) {
        lines = map line_of two_packets;
      },
    )
parse_pes_packet-packetizer_end_example =
    parse_pes_packet-packetizer_end more_memory always always new_packetizer two_packets 90000
      more_memory-Reallocs (λ k. refl) (λ k. refl) new_packetizer-IsPacketizer two_packets-IsShort
      (omega arith) (omega (arith, two_packets-length))

parse_pes_payload-lines_bytes_example :
    klvanc_smpte2038_parse_pes_payload always always true true
      (lines_bytes two_packets ++ 0xff ∷ [])
      (length (lines_bytes two_packets))
    ≡ ok (true, map line_of two_packets)
parse_pes_payload-lines_bytes_example =
    parse_pes_payload-lines_bytes always always two_packets (0xff ∷ []) (λ k. refl) (λ k. refl)
      two_packets-IsShort (omega arith) (omega (arith, two_packets-length))

append_all-Holds_example :
    (ctx : Packetizer) × (append_all more_memory
        (klvanc_smpte2038_packetizer_begin new_packetizer)
        two_packets
      ≡ ok ctx)
    × Holds ctx ([] ++ lines_bytes two_packets)
append_all-Holds_example =
    append_all-Holds more_memory (klvanc_smpte2038_packetizer_begin new_packetizer) [] two_packets
      more_memory-Reallocs (begin-Holds new_packetizer new_packetizer-IsPacketizer)
      two_packets-IsShort (omega (arith, two_packets-length))

convert_line_to_words-line_of_example :
    klvanc_smpte2038_convert_line_to_words true (line_of (header_of 1 0x61 (0x96 ∷ 0x69 ∷ []) []))
    ≡ ok (packet 1 0x61 (0x96 ∷ 0x69 ∷ []))
convert_line_to_words-line_of_example =
    convert_line_to_words-line_of 1 0x61 (0x96 ∷ 0x69 ∷ []) [] (omega arith) (omega arith)
      (omega arith) (omega arith)
