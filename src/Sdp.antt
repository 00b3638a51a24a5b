-- ===== src/Sdp.antt =====
-- src/core-packet-sdp.c and src/libklvanc/vanc-sdp.h: subtitling description packets (SDP).
pub mod Laws
use libklvanc.Prelude.{
  ℕ, zero, suc, ◌+◌, ◌-◌, ◌*◌, ◌/◌, ◌%◌, ◌^◌, List, [], ◌∷◌, Outcome, ok, einval, enomem, ◌>>=◌,
  ◌>>◌, Bool, true, false, guard, Option, none, some, ◌==◌, ◌&&◌, ltb, if◌then◌else◌, replicate,
}
use libklvanc.Packet.{Header}
use libklvanc.Codec.{byte_at}

-- `struct klvanc_sdp_desc_s`; its `data`, of 45 bytes, is `bytes`.
pub record SdpDesc : Type 0 where
  pub line : ℕ
  pub field : ℕ
  pub bytes : List ℕ

-- `struct klvanc_packet_sdp_s` without its copy of the header; there are five descriptors.
pub record SdpPacket : Type 0 where
  pub identifier : ℕ
  pub format_code : ℕ
  pub descriptors : List SdpDesc
  pub sequence_counter : ℕ

-- A descriptor as `calloc` leaves it.
abbrev pub no_desc : SdpDesc
no_desc = record { line = 0; field = 0; bytes = replicate 45 0 }

-- The loop over `j`: the bytes of `n` words of the payload.
unfoldable pub data_at : Header → ℕ → ℕ → List ℕ
data_at hdr at zero = []
data_at hdr at (suc n) = byte_at hdr at ∷ data_at hdr (suc at) n

-- The loop over `i`, with `n` left of the five descriptors: the descriptors, and the `payloadBIndex`
-- behind them. Those that the loop does not reach stay cleared.
unfoldable pub read_descs : Header → ℕ → ℕ → ℕ → ℕ → List SdpDesc × ℕ
unfolding data_at
read_descs hdr length i index zero = ([], index)
read_descs hdr length i index (suc n) =
    let byte : ℕ = byte_at hdr (4 + i) in
    let bytes : List ℕ = if byte == 0 then no_desc.bytes else data_at hdr (9 + 45 * index) 45 in
    let rest : List SdpDesc × ℕ =
      read_descs hdr length (suc i) (if byte == 0 then index else suc index) n in
    if ltb (i + 8) length
    then (record { line = byte % 32; field = byte / 128; bytes = bytes } ∷ rest.0, rest.1)
    else (replicate (suc n) no_desc, index)

-- `parse_SDP`
unfoldable pub parse_sdp : Bool → Bool → Header → Outcome (Option SdpPacket)
unfolding read_descs
parse_sdp false calloc_ok hdr = ok none
parse_sdp true calloc_ok hdr = do
  guard ((byte_at hdr 0 == 0x51) && (byte_at hdr 1 == 0x15)) einval
  guard calloc_ok enomem
  let r : List SdpDesc × ℕ = read_descs hdr (byte_at hdr 2) 0 0 5
  ok (
      some (record {
        identifier = byte_at hdr 0 * 2 ^ 8 + byte_at hdr 1;
        format_code = byte_at hdr 3;
        descriptors = r.0;
        sequence_counter = byte_at hdr (9 + 45 * r.1 + 1) * 2 ^ 8 + byte_at hdr (9 + 45 * r.1 + 2);
      }))
