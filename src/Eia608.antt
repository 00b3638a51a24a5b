-- ===== src/Eia608.antt =====
-- src/core-packet-eia_608.c: two bytes of EIA-608 captions.
pub mod Laws
use libklvanc.Prelude.{
  ℕ, ◌+◌, ◌*◌, ◌/◌, ◌%◌, ◌^◌, List, [], ◌∷◌, Outcome, ok, enomem, ◌>>=◌, ◌>>◌, Bool, true, false,
  ◌==◌, if◌then◌else◌, guard, Option, none, some,
}
use libklvanc.Word.{test_bit}
use libklvanc.Packet.{Header}
use libklvanc.Codec.{Alloc, to_packet_bytes, to_words, byte_at}

-- `struct klvanc_packet_eia_608_s` without its copy of the header and the unused `nr`; `line_offset`
-- is not negative.
pub record Eia608Packet : Type 0 where
  pub payload : List ℕ
  pub field : ℕ
  pub line_offset : ℕ
  pub cc_data_1 : ℕ
  pub cc_data_2 : ℕ

-- `parse_EIA_608`. The copies are `unsigned char`, so they keep the lowest eight bits.
unfoldable pub parse_eia_608 : Bool → Bool → Header → Outcome (Option Eia608Packet)
parse_eia_608 false calloc_ok hdr = ok none
parse_eia_608 true calloc_ok hdr = do
  guard calloc_ok enomem
  ok (
      some (record {
        payload = byte_at hdr 0 ∷ byte_at hdr 1 ∷ byte_at hdr 2 ∷ [];
        field = if test_bit (byte_at hdr 0) 7 then 0 else 1;
        line_offset = byte_at hdr 0 % 32;
        cc_data_1 = byte_at hdr 1;
        cc_data_2 = byte_at hdr 2;
      }))

-- The calls of klbs_write_bits.
unfoldable pub eia_608_fields : Eia608Packet → List (ℕ × ℕ)
eia_608_fields pkt =
    (if pkt.field == 0 then 1 else 0, 1)
    ∷ (0, 2)
    ∷ (pkt.line_offset, 5)
    ∷ (pkt.cc_data_1, 8)
    ∷ (pkt.cc_data_2, 8)
    ∷ []

-- The packet and the output pointer are not null.
unfoldable pub klvanc_convert_eia_608_to_packet_bytes : Alloc → Eia608Packet → Outcome (List ℕ × ℕ)
unfolding eia_608_fields
klvanc_convert_eia_608_to_packet_bytes alloc pkt =
    to_packet_bytes alloc enomem 255 (eia_608_fields pkt)

unfoldable pub klvanc_convert_eia_608_to_words : Alloc → Eia608Packet → Outcome (Option (List ℕ))
unfolding klvanc_convert_eia_608_to_packet_bytes
klvanc_convert_eia_608_to_words alloc pkt =
    klvanc_convert_eia_608_to_packet_bytes alloc pkt >>= to_words alloc 0x02 0x61
