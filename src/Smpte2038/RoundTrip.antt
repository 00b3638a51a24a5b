-- ===== src/Smpte2038/RoundTrip.antt =====
-- What the packetizer sends is what the parser gets.
pub mod Words
use libklvanc.Prelude.{
  ℕ, ◌+◌, ◌-◌, ◌*◌, ◌/◌, ◌%◌, ◌^◌, ◌≤◌, ◌<◌, ◌≡◌, refl, sym, ap, ◌∙◌, List, [], ◌∷◌, ◌++◌, map,
  Outcome, ok, ◌>>=◌, ◌>>◌, Bool, true, length, length-append, arith, All, take, drop,
  take-append-drop, Option, guard, failed, All-append,
}
use mathlib.Core.List.{append_assoc}
use libklvanc.Bitstream.Bits.{fields_bits, bits_of, bits_of-append, length-bits_of}
use libklvanc.Bitstream.{klbs_read_set_buffer, klbs_get_byte_count_free}
use libklvanc.Bitstream.ReadBit.{at}
use libklvanc.Bitstream.RoundTrip.{read_set_buffer-at, AreFields}
use libklvanc.Bitstream.Run.{FieldsAt}
use libklvanc.Bitstream.Stuffing.{drop-next}
use libklvanc.Bitstream.Store.{IsByte}
use libklvanc.Codec.Serialize.{serialize}
use libklvanc.Codec.Bytes.{bits_of-serialize_whole, length-serialize, serialize-IsByte}
use libklvanc.Packet.{Header}
use libklvanc.Smpte2038.{AncPacket}
use libklvanc.Smpte2038.Encoding.{line_of, lines_bits, IsShort, whole_fields, length-whole_fields}
use libklvanc.Smpte2038.Packetizer.{
  Packetizer, reset_offset, header_fields, pts_fields, flag_fields,
  klvanc_smpte2038_packetizer_begin, klvanc_smpte2038_packetizer_end,
}
use libklvanc.Smpte2038.Packetizer.Append.{Reallocs, Holds}
use libklvanc.Smpte2038.Packetizer.Queue.{
  lines_bytes, bits_of-lines_bytes, append_all, append_all-Holds, IsPacketizer, begin-Holds,
}
use libklvanc.Smpte2038.Packetizer.End.{Finished, end_lem, length-header, length-header_fields}
use libklvanc.Smpte2038.Parser.{
  klvanc_smpte2038_parse_pes_packet, parse_pes_payload_int, read_pes_header,
  klvanc_smpte2038_parse_pes_payload, parse_loop,
}
use libklvanc.Smpte2038.Parser.Lines.{parse_loop-lines, free_at}
use libklvanc.Smpte2038.Parser.Front.{front_of, read_pes_header-front}

-- A line takes at least one byte.
length-lines_bytes : (pkts : List Header) → length pkts ≤ length (lines_bytes pkts)
unfolding lines_bytes
length-lines_bytes [] = omega arith
length-lines_bytes (pkt ∷ pkts) = omega (
  arith,
  length-append (serialize (whole_fields pkt)) (lines_bytes pkts),
  length-serialize (whole_fields pkt),
  length-whole_fields pkt,
  length-lines_bytes pkts,
)

length-lines_bits : (pkts : List Header) → length (lines_bits pkts) ≡ 8 * length (lines_bytes pkts)
length-lines_bits pkts =
    ap (λ (l : List ℕ). length l) (sym (bits_of-lines_bytes pkts))
    ∙ length-bits_of (lines_bytes pkts)

header_fields-AreFields : (len pts : ℕ) → AreFields (header_fields len pts)
unfolding header_fields flag_fields pts_fields
header_fields-AreFields len pts = omega arith

-- The bits behind the packet.
abbrev tail_bits : Packetizer → List ℕ
tail_bits ctx = bits_of (drop ctx.bufused ctx.buf)

module _ (len pts : ℕ) (pkts : List Header) (ctx : Packetizer)
    (f : Finished len pts (lines_bytes pkts) ctx) where
  finished_bits :
      bits_of ctx.buf ≡ fields_bits (header_fields len pts) ++ (lines_bits pkts ++ tail_bits ctx)
  finished_bits =
      ap bits_of (sym (take-append-drop ctx.bufused ctx.buf))
      ∙ bits_of-append (take ctx.bufused ctx.buf) (drop ctx.bufused ctx.buf)
      ∙ ap (λ (l : List ℕ). bits_of l ++ tail_bits ctx) f.written
      ∙ ap (λ (l : List ℕ). l ++ tail_bits ctx)
          (bits_of-append (serialize (header_fields len pts)) (lines_bytes pkts))
      ∙ append_assoc (bits_of (serialize (header_fields len pts))) (bits_of (lines_bytes pkts))
          (tail_bits ctx)
      ∙ rw
          (
            bits_of-serialize_whole (header_fields len pts)
                (omega (arith, length-header_fields len pts)),
            bits_of-lines_bytes pkts,
          )
          refl

  front_FieldsAt :
      FieldsAt ctx.buf ctx.bufused 0 (header_fields len pts) (lines_bits pkts ++ tail_bits ctx)
  front_FieldsAt = record {
    follow = finished_bits;
    fits = omega (arith, length-header_fields len pts, f.used);
    owned = f.owned;
    bytes = f.as_bytes;
    small = header_fields-AreFields len pts;
  }

  module _ (realloc calloc : ℕ → Bool) (r : (k : ℕ) → realloc k ≡ true)
      (c : (k : ℕ) → calloc k ≡ true) (short : All IsShort pkts)
      (small : ctx.bufused < 2 ^ 31) where
    payload_back :
        parse_pes_payload_int realloc calloc (at ctx.buf ctx.bufused 112)
        ≡ ok (true, map line_of pkts)
    unfolding parse_pes_payload_int
    payload_back =
        ap
          (λ (m : ℕ). parse_loop realloc calloc (ctx.bufused + 1) m (at ctx.buf ctx.bufused 112) [])
          (free_at ctx.buf ctx.bufused 112 (omega (arith, f.used)) small)
        ∙ parse_loop-lines realloc calloc r c ctx.buf ctx.bufused f.owned small f.as_bytes pkts
            (ctx.bufused + 1) 112 [] (tail_bits ctx) short
            (omega (arith, f.used, length-lines_bytes pkts)) (omega arith)
            (drop-next (bits_of ctx.buf) (fields_bits (header_fields len pts))
              (lines_bits pkts ++ tail_bits ctx) 0 112 finished_bits (length-header_fields len pts))
            (omega (arith, f.used, length-lines_bits pkts))

    packet_back :
        klvanc_smpte2038_parse_pes_packet realloc calloc true true ctx.buf ctx.bufused
        ≡ ok (true, record (front_of len pts) { lines = map line_of pkts })
    unfolding klvanc_smpte2038_parse_pes_packet
    packet_back =
        rw
          (
            read_set_buffer-at ctx.buf ctx.bufused,
            read_pes_header-front len pts front_FieldsAt,
            payload_back,
          )
          refl

-- Where memory is found for all of it, and at least one packet, each of at most 255 words and all of
-- them of at most 113,986 bytes as lines, are appended behind a new start: what the packetizer sends is
-- parsed as a line for each of the packets, in their order, behind a PES header with the lowest 33 bits of
-- the time stamp and, as packet length, the lowest 16 bits of the number of bytes that follow it, which
-- is eight more than the lines have: that is not the number itself from 65,528 bytes of lines on.
pub parse_pes_packet-packetizer_end :
    (more : ℕ → Option (List ℕ)) (realloc calloc : ℕ → Bool) (ctx : Packetizer) (pkts : List Header)
    (pts : ℕ)
    → Reallocs more
    → ((k : ℕ) → realloc k ≡ true)
    → ((k : ℕ) → calloc k ≡ true)
    → IsPacketizer ctx
    → All IsShort pkts
    → 0 < length pkts
    → length (lines_bytes pkts) ≤ 113986
    → (do
      appended ← append_all more (klvanc_smpte2038_packetizer_begin ctx) pkts
      sent ← klvanc_smpte2038_packetizer_end appended pts
      klvanc_smpte2038_parse_pes_packet realloc calloc true true sent.buf sent.bufused)
      ≡ ok
          (true, record (front_of (length (lines_bytes pkts) + 8) pts) { lines = map line_of pkts })
parse_pes_packet-packetizer_end more realloc calloc ctx pkts pts m r c i short pos small =
    let (appended, e, h) =
      append_all-Holds more (klvanc_smpte2038_packetizer_begin ctx) [] pkts m (begin-Holds ctx i)
        short (omega arith) in
    let (sent, e', f) =
      end_lem appended (lines_bytes pkts) pts h (omega (arith, length-lines_bytes pkts)) in
    let len : appended.bufused - 6 ≡ length (lines_bytes pkts) + 8 = omega (arith, h.used) in
    rw e (
      rw e' (
        packet_back (appended.bufused - 6) pts pkts sent f realloc calloc r c short
          (omega (arith, f.used))
        ∙ ap (λ n. ok (true, record (front_of n pts) { lines = map line_of pkts })) len))

lines_bytes-IsByte : (pkts : List Header) → All IsByte (lines_bytes pkts)
unfolding lines_bytes
lines_bytes-IsByte [] = tt
lines_bytes-IsByte (pkt ∷ pkts) =
    All-append IsByte (serialize (whole_fields pkt)) (lines_bytes pkts)
      (serialize-IsByte (whole_fields pkt)) (lines_bytes-IsByte pkts)

-- Where memory is found, a payload of the lines of packets of at most 255 words each, with any bytes
-- behind it, is parsed as a line for each of the packets, in their order; a payload is shorter than
-- 2 ^ 31 bytes.
pub parse_pes_payload-lines_bytes :
    (realloc calloc : ℕ → Bool) (pkts : List Header) (rest : List ℕ)
    → ((k : ℕ) → realloc k ≡ true)
    → ((k : ℕ) → calloc k ≡ true)
    → All IsShort pkts
    → All IsByte rest
    → length (lines_bytes pkts) < 2 ^ 31
    → klvanc_smpte2038_parse_pes_payload realloc calloc true true
        (lines_bytes pkts ++ rest)
        (length (lines_bytes pkts))
      ≡ ok (true, map line_of pkts)
unfolding klvanc_smpte2038_parse_pes_payload parse_pes_payload_int
parse_pes_payload-lines_bytes realloc calloc pkts rest r c short a small =
    let mem : List ℕ = lines_bytes pkts ++ rest in
    let n : ℕ = length (lines_bytes pkts) in
    let bits : bits_of mem ≡ lines_bits pkts ++ bits_of rest =
      bits_of-append (lines_bytes pkts) rest
      ∙ ap (λ (l : List ℕ). l ++ bits_of rest) (bits_of-lines_bytes pkts) in
    rw (read_set_buffer-at mem n) (
      ap (λ (m : ℕ). parse_loop realloc calloc (n + 1) m (at mem n 0) [])
        (free_at mem n 0 (omega arith) small)
      ∙ parse_loop-lines realloc calloc r c mem n
          (omega (arith, length-append (lines_bytes pkts) rest)) small
          (All-append IsByte (lines_bytes pkts) rest (lines_bytes-IsByte pkts) a) pkts (n + 1) 0 []
          (bits_of rest) short (omega (arith, length-lines_bytes pkts)) (omega arith) bits
          (omega (arith, length-lines_bits pkts)))
