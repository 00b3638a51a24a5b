-- ===== src/Counter.antt =====
-- src/core-packet-kl_u64le_counter.c: a counter of 64 bits.
pub mod Laws
use libklvanc.Prelude.{
  ℕ, ◌+◌, ◌*◌, ◌/◌, ◌%◌, ◌^◌, List, [], ◌∷◌, Outcome, ok, enomem, ◌>>=◌, ◌>>◌, Bool, true, false,
  guard, Option, none, some,
}
use libklvanc.Packet.{Header}
use libklvanc.Payload.{klvanc_sdi_create_payload}
use libklvanc.Codec.{byte_at, drop_result}

-- `struct klvanc_packet_kl_u64le_counter_s` without its copy of the header.
pub record CounterPacket : Type 0 where
  pub counter : ℕ

-- `parse_KL_U64LE_COUNTER`. Each byte is shifted to a place of its own, so `|=` adds it.
unfoldable pub parse_kl_u64le_counter : Bool → Bool → Header → Outcome (Option CounterPacket)
parse_kl_u64le_counter false calloc_ok hdr = ok none
parse_kl_u64le_counter true calloc_ok hdr = do
  guard calloc_ok enomem
  ok (
      some (record {
        counter =
            byte_at hdr 0 * 2 ^ 56
            + byte_at hdr 1 * 2 ^ 48
            + byte_at hdr 2 * 2 ^ 40
            + byte_at hdr 3 * 2 ^ 32
            + byte_at hdr 4 * 2 ^ 24
            + byte_at hdr 5 * 2 ^ 16
            + byte_at hdr 6 * 2 ^ 8
            + byte_at hdr 7;
      }))

-- `buf`
unfoldable pub counter_bytes : CounterPacket → List ℕ
counter_bytes pkt =
    pkt.counter / 2 ^ 56 % 256
    ∷ pkt.counter / 2 ^ 48 % 256
    ∷ pkt.counter / 2 ^ 40 % 256
    ∷ pkt.counter / 2 ^ 32 % 256
    ∷ pkt.counter / 2 ^ 24 % 256
    ∷ pkt.counter / 2 ^ 16 % 256
    ∷ pkt.counter / 2 ^ 8 % 256
    ∷ pkt.counter % 256
    ∷ []

unfoldable pub klvanc_convert_kl_u64le_counter_to_words :
    Bool → CounterPacket → Outcome (Option (List ℕ))
unfolding drop_result counter_bytes
klvanc_convert_kl_u64le_counter_to_words calloc_ok pkt =
    drop_result (klvanc_sdi_create_payload calloc_ok 0xfe 0x40 (some (counter_bytes pkt)) 8 10)
