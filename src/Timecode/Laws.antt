-- ===== src/Timecode/Laws.antt =====
-- What is converted to words parses back.
use libklvanc.Prelude.{
  ℕ, ◌≡◌, refl, ap, List, ◌++◌, true, arith, ok, some, failed, deref, ◌>>=◌, length,
}
use mathlib.Core.List.{append_assoc}
use libklvanc.Bitstream.Bits.{to_bits, fields_bits}
use libklvanc.Packet.{parse}
use libklvanc.Packet.RoundTrip.{packet, header_of, IsBytes, parse-packet_alone}
use libklvanc.Payload.{klvanc_sdi_create_payload}
use libklvanc.Payload.Laws.{create_payload_lem}
use libklvanc.Codec.{Alloc, to_words, drop_result}
use libklvanc.Codec.Serialize.{serialize}
use libklvanc.Codec.Laws.{Grants, to_packet_bytes-serialize, byte_at-header_of}
use libklvanc.Timecode.{
  TimecodePacket, dbb2_of, parse_smpte_12_2, timecode_fields, any_failure,
  klvanc_convert_smpte_12_2_to_words, klvanc_convert_smpte_12_2_to_packet_bytes,
}
use libklvanc.Timecode.Fields.{
  front, back, coded, raised, put_dbb1, put_dbb2, serialize-timecode_fields,
}
use libklvanc.Timecode.Back.{IsRepresentable, read_back, timed}
use libklvanc.Timecode.Parsed.{timecode_bytes, parse_back}

module _ (p : TimecodePacket) (v : IsRepresentable p) where
  length-timecode_fields : length (fields_bits (timecode_fields p)) ≡ 128
  unfolding timecode_fields fields_bits to_bits
  length-timecode_fields = rw (timed p v) refl

  timecode_bytes-IsBytes : IsBytes (timecode_bytes p)
  unfolding coded
  timecode_bytes-IsBytes = (
    omega arith,
    (
      omega arith,
      (
        omega arith,
        (
          omega arith,
          (
            omega arith,
            (
              omega arith,
              (
                omega arith,
                (
                  omega arith,
                  (
                    omega arith,
                    (
                      omega arith,
                      (
                        omega arith,
                        (
                          omega arith,
                          (omega arith, (omega arith, (omega arith, (omega arith, _)))),
                        ),
                      ),
                    ),
                  ),
                ),
              ),
            ),
          ),
        ),
      ),
    ),
  )

  length-serialize : length (serialize (timecode_fields p)) ≡ 16
  unfolding raised
  length-serialize = rw (serialize-timecode_fields p (timed p v)) refl

  packet_bytes_lem :
      (alloc : Alloc)
      → Grants 16 alloc
      → (rest : List ℕ) × (klvanc_convert_smpte_12_2_to_packet_bytes alloc p
          ≡ ok (timecode_bytes p ++ rest, 16))
  unfolding klvanc_convert_smpte_12_2_to_packet_bytes
  packet_bytes_lem alloc g =
      let (rest, e) =
        to_packet_bytes-serialize alloc (failed 1) 16 (timecode_fields p) g
          (omega (arith, length-timecode_fields)) in
      let a : serialize (timecode_fields p) ++ rest
          ≡ raised (front p) ++ (raised (back p) ++ rest) =
        rw (serialize-timecode_fields p (timed p v))
          (append_assoc (raised (front p)) (raised (back p)) rest) in
      let z : timecode_bytes p ++ rest
          ≡ coded (front p) p.dbb1 ++ (coded (back p) (dbb2_of p) ++ rest) =
        append_assoc (coded (front p) p.dbb1) (coded (back p) (dbb2_of p)) rest in
      (
        rest,
        rw e (
            rw (a, length-serialize)
              (rw (put_dbb1 p (raised (back p) ++ rest) p.dbb1)
                (rw (put_dbb2 p rest p.dbb1 (dbb2_of p)) (rw z)))),
      )

  length-timecode_bytes : length (timecode_bytes p) ≡ 16
  unfolding coded
  length-timecode_bytes = refl

  created :
      (rest : List ℕ)
      → klvanc_sdi_create_payload true 0x60 0x60 (some (timecode_bytes p ++ rest)) 16 10
        ≡ ok (packet 0x60 0x60 (timecode_bytes p))
  unfolding coded
  created rest =
      create_payload_lem 0x60 0x60 (timecode_bytes p) rest (λ h. omega (arith, h))
        (λ h. omega (arith, h)) (λ h. omega (arith, h))

  convert_lem :
      (alloc : Alloc)
      → Grants 16 alloc
      → klvanc_convert_smpte_12_2_to_words alloc p ≡ ok (some (packet 0x60 0x60 (timecode_bytes p)))
  unfolding klvanc_convert_smpte_12_2_to_words to_words any_failure drop_result
  convert_lem alloc g =
      let (rest, e) = packet_bytes_lem alloc g in rw (e, g.words) (ap drop_result (created rest))

  parse_smpte_12_2-header_of :
      (raw : List ℕ)
      → parse_smpte_12_2 true true (header_of 0x60 0x60 (timecode_bytes p) raw)
        ≡ ok (some (read_back p))
  parse_smpte_12_2-header_of raw =
      parse_back p v (header_of 0x60 0x60 (timecode_bytes p) raw)
        (λ i h.
          byte_at-header_of 0x60 0x60 (timecode_bytes p) raw i timecode_bytes-IsBytes
            (omega (arith, h, length-timecode_bytes)))
        (unfold header_of in length-timecode_bytes)

-- Time code round trip: if the allocator grants the 16 bytes of the buffer, then the words that
-- klvanc_convert_SMPTE_12_2_to_words makes of a representable time code are one ancillary packet that
-- `parse` accepts, and parse_SMPTE_12_2 gives the time, the line and its flags back; but flag 14 comes
-- back as flag 15 and flag 74 as flag 75, and the other way round.
pub parse_smpte_12_2-convert_smpte_12_2_to_words :
    (alloc : Alloc) (p : TimecodePacket) (failures : ℕ)
    → Grants 16 alloc
    → IsRepresentable p
    → (do
      words? ← klvanc_convert_smpte_12_2_to_words alloc p
      words ← deref words?
      (hdr, _) ← parse true words (length words) failures
      parse_smpte_12_2 true true hdr)
      ≡ ok (some (read_back p))
parse_smpte_12_2-convert_smpte_12_2_to_words alloc p failures g v =
    let bytes : List ℕ = timecode_bytes p in
    let n = length-timecode_bytes p v in
    rw (convert_lem p v alloc g) (
      rw
        (parse-packet_alone 0x60 0x60 bytes failures (omega arith) (omega arith) (omega (arith, n))
          (omega (arith, n)))
        (parse_smpte_12_2-header_of p v (packet 0x60 0x60 bytes)))
