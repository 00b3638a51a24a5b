-- ===== src/Eia608/Laws.antt =====
-- What is converted to words parses back.
use libklvanc.Prelude.{
  ℕ, ◌+◌, ◌%◌, ◌<◌, ◌≡◌, refl, ◌∙◌, List, [], ◌∷◌, ok, enomem, deref, ◌>>=◌, true, some, length,
  arith, ◌==◌, get_or, if◌then◌else◌,
}
use libklvanc.Bitstream.Bits.{to_bits, fields_bits}
use libklvanc.Word.{test_bit}
use libklvanc.Packet.{Header, parse}
use libklvanc.Packet.RoundTrip.{packet, header_of, IsBytes}
use libklvanc.Codec.{Alloc, byte_at}
use libklvanc.Codec.Serialize.{serialize, serialize_laws, serialize-join}
use libklvanc.Codec.Laws.{Grants, parsed_as, byte_at-header_of}
use libklvanc.Eia608.{
  Eia608Packet, parse_eia_608, eia_608_fields, klvanc_convert_eia_608_to_words,
  klvanc_convert_eia_608_to_packet_bytes,
}

-- Field, reserved bits and line offset, in one byte.
abbrev first_byte : Eia608Packet → ℕ
first_byte p = (if p.field == 0 then 128 else 0) + p.line_offset % 32

-- The three bytes.
unfoldable pub eia_608_bytes : Eia608Packet → List ℕ
eia_608_bytes p = first_byte p ∷ p.cc_data_1 % 256 ∷ p.cc_data_2 % 256 ∷ []

first_fields :
    (p : Eia608Packet)
    → fields_bits ((if p.field == 0 then 1 else 0, 1) ∷ (0, 2) ∷ (p.line_offset, 5) ∷ [])
      ≡ to_bits 8 (first_byte p)
unfolding fields_bits to_bits
first_fields p = ground arith

serialize-eia_608_fields : (p : Eia608Packet) → serialize (eia_608_fields p) ≡ eia_608_bytes p
unfolding eia_608_fields eia_608_bytes
serialize-eia_608_fields p =
    let e : first_byte p % 256 ≡ first_byte p = ground arith in
    serialize-join ((if p.field == 0 then 1 else 0, 1) ∷ (0, 2) ∷ (p.line_offset, 5) ∷ [])
      ((p.cc_data_1, 8) ∷ (p.cc_data_2, 8) ∷ []) (first_byte p) (first_fields p)
    ∙ rw e (simp serialize_laws)

eia_608_bytes-IsBytes : (p : Eia608Packet) → IsBytes (eia_608_bytes p)
unfolding eia_608_bytes
eia_608_bytes-IsBytes p = (ground arith, (omega arith, (omega arith, _)))

-- What a packet of this type can carry.
pub record IsRepresentable (p : Eia608Packet) : Type 0 where
  pub field : p.field < 2
  pub line_offset : p.line_offset < 32
  pub cc_data_1 : p.cc_data_1 < 256
  pub cc_data_2 : p.cc_data_2 < 256

module _ (p : Eia608Packet) (hdr : Header) (v : IsRepresentable p)
    (b0 : byte_at hdr 0 ≡ first_byte p) (b1 : byte_at hdr 1 ≡ p.cc_data_1 % 256)
    (b2 : byte_at hdr 2 ≡ p.cc_data_2 % 256) where
  field_back : (if test_bit (byte_at hdr 0) 7 then 0 else 1) ≡ p.field
  field_back = ground (arith, b0, v.field)

  offset_back : byte_at hdr 0 % 32 ≡ p.line_offset
  offset_back = ground (arith, b0, v.line_offset)

  parse_back : parse_eia_608 true true hdr ≡ ok (some (record p { payload = eia_608_bytes p }))
  unfolding parse_eia_608 eia_608_bytes
  parse_back =
      let c1 : p.cc_data_1 % 256 ≡ p.cc_data_1 = omega (arith, v.cc_data_1) in
      let c2 : p.cc_data_2 % 256 ≡ p.cc_data_2 = omega (arith, v.cc_data_2) in
      rw (field_back, offset_back) (rw (b0, b1, b2) (rw (c1, c2)))

parse_eia_608-header_of :
    (p : Eia608Packet) (raw : List ℕ)
    → IsRepresentable p
    → parse_eia_608 true true (header_of 0x02 0x61 (eia_608_bytes p) raw)
      ≡ ok (some (record p { payload = eia_608_bytes p }))
unfolding eia_608_bytes
parse_eia_608-header_of p raw v =
    let bytes : List ℕ = eia_608_bytes p in
    let b : (i : ℕ) → i < 3 → byte_at (header_of 0x02 0x61 bytes raw) i ≡ get_or bytes i 0 =
      λ i h. byte_at-header_of 0x02 0x61 bytes raw i (eia_608_bytes-IsBytes p) h in
    parse_back p (header_of 0x02 0x61 bytes raw) v (b 0 (omega arith)) (b 1 (omega arith))
      (b 2 (omega arith))

length-eia_608_fields : (p : Eia608Packet) → length (fields_bits (eia_608_fields p)) ≡ 24
unfolding eia_608_fields fields_bits to_bits
length-eia_608_fields p = refl

length-eia_608_bytes : (p : Eia608Packet) → length (serialize (eia_608_fields p)) ≡ 3
unfolding eia_608_bytes
length-eia_608_bytes p = rw (serialize-eia_608_fields p) refl

-- EIA-608 round trip: if the allocator grants the 255 bytes of the buffer, then the words that
-- klvanc_convert_EIA_608_to_words makes of a representable packet are one ancillary packet that
-- `parse` accepts, and parse_EIA_608 gives the packet back, with the three bytes as its payload.
pub parse_eia_608-convert_eia_608_to_words :
    (alloc : Alloc) (p : Eia608Packet) (failures : ℕ)
    → Grants 255 alloc
    → IsRepresentable p
    → (do
      words? ← klvanc_convert_eia_608_to_words alloc p
      words ← deref words?
      (hdr, _) ← parse true words (length words) failures
      parse_eia_608 true true hdr)
      ≡ ok (some (record p { payload = eia_608_bytes p }))
unfolding klvanc_convert_eia_608_to_words klvanc_convert_eia_608_to_packet_bytes
parse_eia_608-convert_eia_608_to_words alloc p failures g v =
    let n = length-eia_608_bytes p in
    parsed_as alloc enomem 255 0x02 0x61 (eia_608_fields p) failures (parse_eia_608 true true) g
      (omega (arith, length-eia_608_fields p)) (omega (arith, n)) (omega (arith, n)) (omega arith)
      (omega arith) (omega arith) (omega arith)
      (rw (serialize-eia_608_fields p)
        (parse_eia_608-header_of p (packet 0x02 0x61 (eia_608_bytes p)) v))
