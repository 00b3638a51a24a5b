-- ===== src/Afd/Laws.antt =====
-- What is converted to words parses back.
use libklvanc.Prelude.{
  ℕ, ◌*◌, ◌/◌, ◌%◌, ◌^◌, ◌<◌, ◌≡◌, ◌≢◌, refl, ap, ◌∙◌, List, [], ◌∷◌, ok, enomem, deref, ◌>>=◌,
  true, some, length, arith, ◌==◌, get_or, Bool-cases, inl, inr, if◌then◌else◌,
}
use libklvanc.Bitstream.Bits.{to_bits, fields_bits}
use libklvanc.Word.{test_bit}
use libklvanc.Packet.{Header, parse}
use libklvanc.Packet.RoundTrip.{packet, header_of, IsBytes}
use libklvanc.Codec.{Alloc, byte_at}
use libklvanc.Codec.Serialize.{serialize, serialize_laws, serialize-byte}
use libklvanc.Codec.Laws.{Grants, parsed_as, byte_at-header_of, to_words-serialize}
use libklvanc.Afd.{
  AfdPacket, aspect_undefined, aspect_4x3, aspect_16x9, parse_afd, afd_byte, afd_fields,
  klvanc_convert_afd_to_words, bars_leftright, bars_topbottom, klvanc_convert_afd_to_packet_bytes,
  word16_at,
}

-- The pairs of bytes that go out behind the first four.
first_bar : AfdPacket → ℕ
first_bar p =
    if p.bar_data_flags == bars_topbottom
    then p.top
    else if p.bar_data_flags == bars_leftright
    then p.left
    else 0

second_bar : AfdPacket → ℕ
second_bar p =
    if p.bar_data_flags == bars_topbottom
    then p.bottom
    else if p.bar_data_flags == bars_leftright
    then p.right
    else 0

pub afd_bytes : AfdPacket → List ℕ
afd_bytes p =
    afd_byte p % 256
    ∷ 0
    ∷ 0
    ∷ p.bar_data_flags * 16 % 256
    ∷ first_bar p / 256 % 256
    ∷ first_bar p % 256
    ∷ second_bar p / 256 % 256
    ∷ second_bar p % 256
    ∷ []

-- The last four bytes.
abbrev bar_fields : AfdPacket → List (ℕ × ℕ)
bar_fields p =
    if p.bar_data_flags == bars_topbottom
    then (p.top, 16) ∷ (p.bottom, 16) ∷ []
    else if p.bar_data_flags == bars_leftright
    then (p.left, 16) ∷ (p.right, 16) ∷ []
    else (0, 32) ∷ []

abbrev bar_bytes : AfdPacket → List ℕ
bar_bytes p =
    first_bar p / 256 % 256 ∷ first_bar p % 256 ∷ second_bar p / 256 % 256 ∷ second_bar p % 256 ∷ []

serialize-bar_fields : (p : AfdPacket) → serialize (bar_fields p) ≡ bar_bytes p
unfolding first_bar second_bar
serialize-bar_fields p = elim (Bool-cases (p.bar_data_flags == bars_topbottom)) [
  | inl v ↦ rw v (simp serialize_laws)
  | inr v ↦ elim (Bool-cases (p.bar_data_flags == bars_leftright)) [
    | inl h ↦ rw (v, h) (simp serialize_laws)
    | inr h ↦ rw (v, h) (simp serialize_laws)
  ]
]

serialize-afd_fields : (p : AfdPacket) → serialize (afd_fields p) ≡ afd_bytes p
unfolding afd_fields afd_bytes
serialize-afd_fields p = simp (serialize-byte, serialize-bar_fields)

-- What a packet of this type can carry: a four-bit format, one of the two ratios, four-bit flags,
-- 16-bit bars, and no bar that the flags do not announce.
pub record IsRepresentable (p : AfdPacket) : Type 0 where
  pub ratio : p.aspect_ratio ≢ aspect_undefined
  pub format : p.afd < 16
  pub flags : p.bar_data_flags < 16
  pub top : p.top < 2 ^ 16
  pub bottom : p.bottom < 2 ^ 16
  pub left : p.left < 2 ^ 16
  pub right : p.right < 2 ^ 16
  pub vertical : p.bar_data_flags ≢ bars_topbottom → (p.top ≡ 0) × (p.bottom ≡ 0)
  pub horizontal : p.bar_data_flags ≢ bars_leftright → (p.left ≡ 0) × (p.right ≡ 0)

module _ (p : AfdPacket) (hdr : Header) (v : IsRepresentable p)
    (b0 : byte_at hdr 0 ≡ afd_byte p % 256) (b3 : byte_at hdr 3 ≡ p.bar_data_flags * 16 % 256)
    (first : word16_at hdr 4 ≡ first_bar p) (second : word16_at hdr 6 ≡ second_bar p) where
  ratio_back : (if test_bit (byte_at hdr 0) 2 then aspect_16x9 else aspect_4x3) ≡ p.aspect_ratio
  unfolding afd_byte
  ratio_back = ground (arith, b0, v.ratio)

  format_back : byte_at hdr 0 / 8 % 16 ≡ p.afd
  unfolding afd_byte
  format_back = ground (arith, b0, v.format)

  flags_back : byte_at hdr 3 / 16 ≡ p.bar_data_flags
  flags_back = omega (arith, b3, v.flags)

  parse_back : parse_afd true true hdr ≡ ok (some p)
  unfolding parse_afd first_bar second_bar
  parse_back =
      rw (flags_back, format_back, ratio_back, first, second)
        (ground (arith, v.vertical, v.horizontal))

afd_bytes-IsBytes : (p : AfdPacket) → IsBytes (afd_bytes p)
unfolding afd_bytes
afd_bytes-IsBytes p = (
  omega arith,
  (
    omega arith,
    (omega arith, (omega arith, (omega arith, (omega arith, (omega arith, (omega arith, _)))))),
  ),
)

first_bar-lt : (p : AfdPacket) → IsRepresentable p → first_bar p < 65536
unfolding first_bar
first_bar-lt p v = ground (arith, v.top, v.left)

second_bar-lt : (p : AfdPacket) → IsRepresentable p → second_bar p < 65536
unfolding second_bar
second_bar-lt p v = ground (arith, v.bottom, v.right)

-- The header that `parse` returns gives back the packet.
pub parse_afd-header_of :
    (p : AfdPacket) (raw : List ℕ)
    → IsRepresentable p
    → parse_afd true true (header_of 0x05 0x41 (afd_bytes p) raw) ≡ ok (some p)
unfolding afd_bytes
parse_afd-header_of p raw v =
    let bytes : List ℕ = afd_bytes p in
    let b : (i : ℕ) → i < 8 → byte_at (header_of 0x05 0x41 bytes raw) i ≡ get_or bytes i 0 =
      λ i h. byte_at-header_of 0x05 0x41 bytes raw i (afd_bytes-IsBytes p) h in
    parse_back p (header_of 0x05 0x41 bytes raw) v (b 0 (omega arith)) (b 3 (omega arith))
      (rw (b 4 (omega arith), b 5 (omega arith)) (omega (arith, first_bar-lt p v)))
      (rw (b 6 (omega arith), b 7 (omega arith)) (omega (arith, second_bar-lt p v)))

length-afd_fields : (p : AfdPacket) → length (fields_bits (afd_fields p)) ≡ 64
unfolding afd_fields fields_bits to_bits
length-afd_fields p = elim (Bool-cases (p.bar_data_flags == bars_topbottom)) [
  | inl v ↦ rw v refl
  | inr v ↦ elim (Bool-cases (p.bar_data_flags == bars_leftright)) [
    | inl h ↦ rw (v, h) refl
    | inr h ↦ rw (v, h) refl
  ]
]

length-afd_bytes : (p : AfdPacket) → length (serialize (afd_fields p)) ≡ 8
unfolding afd_bytes
length-afd_bytes p = rw (serialize-afd_fields p) refl

pub afd_bytes_size : (p : AfdPacket) → length (afd_bytes p) ≡ 8
unfolding afd_bytes
afd_bytes_size p = refl

-- The words of a packet.
pub convert_lem :
    (alloc : Alloc) (p : AfdPacket)
    → Grants 255 alloc
    → klvanc_convert_afd_to_words alloc p ≡ ok (some (packet 0x05 0x41 (afd_bytes p)))
unfolding klvanc_convert_afd_to_words klvanc_convert_afd_to_packet_bytes
convert_lem alloc p g =
    to_words-serialize alloc enomem 255 0x05 0x41 (afd_fields p) g
      (omega (arith, length-afd_fields p)) (λ h. omega (arith, h, length-afd_bytes p))
      (λ h. omega (arith, h)) (λ h. omega (arith, h))
    ∙ ap (λ (l : List ℕ). ok (some (packet 0x05 0x41 l))) (serialize-afd_fields p)

-- AFD round trip: if the allocator grants the 255 bytes of the buffer, then the words that
-- klvanc_convert_AFD_to_words makes of a representable packet are one ancillary packet that `parse`
-- accepts with a valid checksum, and parse_AFD gives exactly the packet back.
pub parse_afd-convert_afd_to_words :
    (alloc : Alloc) (p : AfdPacket) (failures : ℕ)
    → Grants 255 alloc
    → IsRepresentable p
    → (do
      words? ← klvanc_convert_afd_to_words alloc p
      words ← deref words?
      (hdr, _) ← parse true words (length words) failures
      parse_afd true true hdr)
      ≡ ok (some p)
unfolding klvanc_convert_afd_to_words klvanc_convert_afd_to_packet_bytes
parse_afd-convert_afd_to_words alloc p failures g v =
    let n = length-afd_bytes p in
    parsed_as alloc enomem 255 0x05 0x41 (afd_fields p) failures (parse_afd true true) g
      (omega (arith, length-afd_fields p)) (omega (arith, n)) (omega (arith, n)) (omega arith)
      (omega arith) (omega arith) (omega arith)
      (rw (serialize-afd_fields p) (parse_afd-header_of p (packet 0x05 0x41 (afd_bytes p)) v))
