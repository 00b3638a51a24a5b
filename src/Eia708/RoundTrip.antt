-- ===== src/Eia708/RoundTrip.antt =====
-- A CDP that is built, sent as an ancillary packet, and parsed.
use libklvanc.Prelude.{
  ℕ, ◌%◌, ◌≡◌, ◌∙◌, List, ◌++◌, ok, deref, ◌>>=◌, true, arith, length, take, get_or,
  take-append_left, some,
}
use libklvanc.Codec.{Alloc, to_words}
use libklvanc.Codec.Laws.{Grants}
use libklvanc.Codec.Serialize.{serialize-word, serialize-byte}
use libklvanc.Packet.{parse}
use libklvanc.Packet.RoundTrip.{packet, parse-packet_alone}
use libklvanc.Payload.Laws.{create_payload_lem}
use libklvanc.Eia708.{Eia708Packet}
use libklvanc.Eia708.Parser.{byte_sum, parse_eia_708b}
use libklvanc.Eia708.Builder.{
  cdp_fields, in_arrays, klvanc_convert_eia_708b_to_words, klvanc_convert_eia_708b_to_packet_bytes,
}
use libklvanc.Eia708.Arrival.{cdp_length_of, cdp_front, cdp_bytes, cdp_arrived}
use libklvanc.Eia708.Sent.{cdp_length_of-size, convert-cdp_bytes}
use libklvanc.Eia708.Received.{IsCdp, cdp_size, cdp_parsed, cdp_bytes-sum}

third_byte :
    (pkt : Eia708Packet) (rest : List ℕ)
    → get_or (cdp_bytes pkt ++ rest) 2 0 ≡ cdp_length_of pkt % 256
unfolding cdp_bytes cdp_front cdp_fields
third_byte pkt rest = simp (serialize-word, serialize-byte)

IsCdp-in_arrays : (pkt : Eia708Packet) → IsCdp pkt → in_arrays pkt ≡ true
IsCdp-in_arrays pkt i = ground (arith, i.captions, i.services)

-- If the allocator grants the 255 bytes of the buffer, then klvanc_convert_EIA_708B_to_packetBytes makes
-- bytes of a CDP with at most 30 caption entries, at most 15 services and the footer's identifier, of
-- which the third is their number, and which add up to 0 modulo 256.
pub convert_to_packet_bytes-byte_sum :
    (alloc : Alloc) (pkt : Eia708Packet)
    → Grants 255 alloc
    → IsCdp pkt
    → (buf : List ℕ) × (count : ℕ) × (klvanc_convert_eia_708b_to_packet_bytes alloc pkt
        ≡ ok (buf, count))
      × (get_or buf 2 0 ≡ count)
      × (byte_sum (take count buf) ≡ 0)
convert_to_packet_bytes-byte_sum alloc pkt g i =
    let (l, small, big) = cdp_size pkt i in
    let (rest, e) =
      convert-cdp_bytes pkt i.foot alloc g (IsCdp-in_arrays pkt i)
        (omega (arith, l, small, cdp_length_of-size pkt i.foot)) in
    (
      cdp_bytes pkt ++ rest,
      cdp_length_of pkt,
      e,
      third_byte pkt rest ∙ omega (arith, l, small),
      rw (← l) (rw (take-append_left (cdp_bytes pkt) rest) (cdp_bytes-sum pkt)),
    )

to_words-cdp_bytes :
    (alloc : Alloc) (pkt : Eia708Packet)
    → Grants 255 alloc
    → IsCdp pkt
    → klvanc_convert_eia_708b_to_words alloc pkt ≡ ok (some (packet 1 0x61 (cdp_bytes pkt)))
unfolding klvanc_convert_eia_708b_to_words to_words
to_words-cdp_bytes alloc pkt g i =
    let (l, small, big) = cdp_size pkt i in
    let (rest, e) =
      convert-cdp_bytes pkt i.foot alloc g (IsCdp-in_arrays pkt i)
        (omega (arith, l, small, cdp_length_of-size pkt i.foot)) in
    rw (e, ← l, g.words)
      (rw (
        create_payload_lem 1 0x61 (cdp_bytes pkt) rest (omega arith) (omega arith)
          (omega (arith, big))))

pub parse_eia_708b-convert_eia_708b_to_words :
    (alloc : Alloc) (pkt : Eia708Packet) (failures : ℕ)
    → Grants 255 alloc
    → IsCdp pkt
    → (do
      words? ← klvanc_convert_eia_708b_to_words alloc pkt
      words ← deref words?
      (hdr, _) ← parse true words (length words) failures
      parse_eia_708b true true true hdr)
      ≡ ok (some (cdp_arrived pkt))
parse_eia_708b-convert_eia_708b_to_words alloc pkt failures g i =
    let (l, small, big) = cdp_size pkt i in
    rw (to_words-cdp_bytes alloc pkt g i) (
      rw
        (parse-packet_alone 1 0x61 (cdp_bytes pkt) failures (omega arith) (omega arith)
          (omega (arith, big)) (omega (arith, small)))
        (cdp_parsed pkt i (packet 1 0x61 (cdp_bytes pkt))))
