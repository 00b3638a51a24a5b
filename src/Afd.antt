-- ===== src/Afd.antt =====
-- src/core-packet-afd.c: Active Format Description and bar data.
pub mod Laws
use libklvanc.Prelude.{
  ℕ, ◌+◌, ◌*◌, ◌/◌, ◌%◌, ◌^◌, List, [], ◌∷◌, ◌++◌, Outcome, ok, err, Error, enomem, failed, ◌>>=◌,
  ◌>>◌, Bool, true, false, ◌==◌, ◌&&◌, ◌||◌, not, if◌then◌else◌, guard, Option, none, some,
}
use libklvanc.Word.{set_bit, test_bit}
use libklvanc.Packet.{Header}
use libklvanc.Codec.{Alloc, to_packet_bytes, to_words, byte_at}

-- `enum klvanc_payload_aspect_ratio_e`
pub data AspectRatio : Type 0 where
  aspect_undefined aspect_4x3 aspect_16x9 : AspectRatio

-- `enum klvanc_payload_afd_barflags`
abbrev pub bars_leftright : ℕ
bars_leftright = 0x03

abbrev pub bars_topbottom : ℕ
bars_topbottom = 0x0c

-- `struct klvanc_packet_afd_s` without its copy of the header. The format and the flags are C
-- enumerations that are given any number.
pub record AfdPacket : Type 0 where
  pub aspect_ratio : AspectRatio
  pub afd : ℕ
  pub bar_data_flags : ℕ
  pub top : ℕ
  pub bottom : ℕ
  pub left : ℕ
  pub right : ℕ

-- The four bars, from a pair of words and the flags.
abbrev pub word16_at : Header → ℕ → ℕ
word16_at hdr i = byte_at hdr i * 256 + byte_at hdr (i + 1)

-- `parse_AFD`. `registered` says whether there is a callback for this type; the result is what the
-- callback gets and `*pp` is set to.
unfoldable pub parse_afd : Bool → Bool → Header → Outcome (Option AfdPacket)
parse_afd false calloc_ok hdr = ok none
parse_afd true calloc_ok hdr = do
  guard calloc_ok enomem
  let flags = byte_at hdr 3 / 16
  let vertical = flags == bars_topbottom
  let horizontal = not vertical && (flags == bars_leftright)
  ok (
      some (record {
        aspect_ratio = if test_bit (byte_at hdr 0) 2 then aspect_16x9 else aspect_4x3;
        afd = byte_at hdr 0 / 8 % 16;
        bar_data_flags = flags;
        top = if vertical then word16_at hdr 4 else 0;
        bottom = if vertical then word16_at hdr 6 else 0;
        left = if horizontal then word16_at hdr 4 else 0;
        right = if horizontal then word16_at hdr 6 else 0;
      }))

-- `klvanc_verify_afd_value`
unfoldable pub klvanc_verify_afd_value : ℕ → Bool
klvanc_verify_afd_value afd =
    afd == 0x00
    || afd == 0x02
    || afd == 0x03
    || afd == 0x04
    || afd == 0x08
    || afd == 0x09
    || afd == 0x0a
    || afd == 0x0b
    || afd == 0x0d
    || afd == 0x0e
    || afd == 0x0f

unfoldable pub klvanc_set_afd_val : AfdPacket → ℕ → Outcome AfdPacket
unfolding klvanc_verify_afd_value
klvanc_set_afd_val pkt val = do
  guard (klvanc_verify_afd_value val) (failed 1)
  ok (record pkt { afd = val })

-- `afd = pkt->afd << 3; if (pkt->aspectRatio == ASPECT_16x9) afd |= 0x04;`, on an `unsigned char`.
unfoldable pub afd_byte : AfdPacket → ℕ
afd_byte pkt =
    let shifted = pkt.afd * 8 % 256 in
    elim pkt.aspect_ratio [ aspect_16x9 ↦ set_bit shifted 2 | _ ↦ shifted ]

-- The calls of klbs_write_bits.
unfoldable pub afd_fields : AfdPacket → List (ℕ × ℕ)
unfolding afd_byte
afd_fields pkt =
    (afd_byte pkt, 8)
    ∷ (0, 8)
    ∷ (0, 8)
    ∷ (pkt.bar_data_flags * 16, 8)
    ∷ (if pkt.bar_data_flags == bars_topbottom
        then (pkt.top, 16) ∷ (pkt.bottom, 16) ∷ []
        else if pkt.bar_data_flags == bars_leftright
        then (pkt.left, 16) ∷ (pkt.right, 16) ∷ []
        else (0, 32) ∷ [])

-- The packet and the output pointer are not null.
unfoldable pub klvanc_convert_afd_to_packet_bytes : Alloc → AfdPacket → Outcome (List ℕ × ℕ)
klvanc_convert_afd_to_packet_bytes alloc pkt = to_packet_bytes alloc enomem 255 (afd_fields pkt)

unfoldable pub klvanc_convert_afd_to_words : Alloc → AfdPacket → Outcome (Option (List ℕ))
unfolding klvanc_convert_afd_to_packet_bytes
klvanc_convert_afd_to_words alloc pkt =
    klvanc_convert_afd_to_packet_bytes alloc pkt >>= to_words alloc 0x05 0x41
