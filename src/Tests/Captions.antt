-- ===== src/Tests/Captions.antt =====
-- A caption distribution packet with all of its sections, subtitles, and HDR metadata.
use libklvanc.Prelude.{
  ℕ, ◌≡◌, refl, List, [], ◌∷◌, ok, deref, ◌>>=◌, true, false, some, length, replicate, arith,
  get_or, take, ◌<◌, inl, inr,
}
use libklvanc.Payload.{klvanc_sdi_create_payload}
use libklvanc.Sdp.{SdpDesc, SdpPacket, no_desc, parse_sdp}
use libklvanc.Sdp.Laws.{IsSdpDesc, IsSdp, sdp_bytes, parse_sdp-create_payload}
use libklvanc.Smpte2108.{parse_smpte_2108_1}
use libklvanc.Smpte2108.Laws.{Sent, mastering, light, other, sent_fields}
use libklvanc.Smpte2108.RoundTrip.{hdr_bytes, hdr_arrived, parse_smpte_2108_1-create_payload}
use libklvanc.Codec.Bytes.{length-serialize}
use libklvanc.Bitstream.RoundTrip.{length-fields_bits}
use libklvanc.Codec.{Alloc}
use libklvanc.Codec.Laws.{Grants}
use libklvanc.Packet.{parse}
use libklvanc.Eia708.{Eia708Packet, no_header, no_time_code, no_service, no_services}
use libklvanc.Eia708.Parser.{parse_eia_708b, byte_sum}
use libklvanc.Eia708.Builder.{
  klvanc_convert_eia_708b_to_words, klvanc_convert_eia_708b_to_packet_bytes,
}
use libklvanc.Eia708.Arrival.{cdp_arrived}
use libklvanc.Eia708.Received.{IsCdp}
use libklvanc.Eia708.RoundTrip.{
  parse_eia_708b-convert_eia_708b_to_words, convert_to_packet_bytes-byte_sum,
}

abbrev granted : Alloc
granted = record { klbs_ok = true; buffer = some (replicate 255 0); words_ok = true }

granted-Grants : Grants 255 granted
granted-Grants = record {
  mem = replicate 255 0;
  klbs = refl;
  buffer = refl;
  size = refl;
  words = refl;
}

-- A time code, two caption entries and one service.
abbrev caption_packet : Eia708Packet
caption_packet = record {
  payload = [];
  payload_length_bytes = 0;
  checksum_valid = false;
  header = record no_header {
    cdp_identifier = 0x9669;
    cdp_frame_rate = 4;
    time_code_present = 1;
    ccdata_present = 1;
    svcinfo_present = 1;
    caption_service_active = 1;
    cdp_hdr_sequence_cntr = 77;
  };
  tc = record no_time_code { time_code_section_id = 0x71; tc_1hrs = 9; tc_10sec = 5; tc_10fr = 2 };
  ccdata = record {
    ccdata_id = 0x72;
    cc_count = 2;
    cc = record { cc_valid = 1; cc_type = 0; cc_data_0 = 0x94; cc_data_1 = 0x2c } ∷ [];
  };
  ccsvc = record no_services {
    ccsvcinfo_id = 0x73;
    svc_count = 1;
    svc = record no_service { caption_service_number = 1 } ∷ [];
  };
  footer = record { cdp_footer_id = 0x74; cdp_ftr_sequence_cntr = 77; packet_checksum = 0 };
}

caption_packet-IsCdp : IsCdp caption_packet
caption_packet-IsCdp = record { foot = refl; captions = omega arith; services = omega arith }

parse_eia_708b-convert_eia_708b_to_words_example :
    (do
      words? ← klvanc_convert_eia_708b_to_words granted caption_packet
      words ← deref words?
      (hdr, _) ← parse true words (length words) 0
      parse_eia_708b true true true hdr)
    ≡ ok (some (cdp_arrived caption_packet))
parse_eia_708b-convert_eia_708b_to_words_example =
    parse_eia_708b-convert_eia_708b_to_words granted caption_packet 0 granted-Grants
      caption_packet-IsCdp

convert_to_packet_bytes-byte_sum_example :
    (buf : List ℕ) × (count : ℕ) × (klvanc_convert_eia_708b_to_packet_bytes granted caption_packet
      ≡ ok (buf, count))
    × (get_or buf 2 0 ≡ count)
    × (byte_sum (take count buf) ≡ 0)
convert_to_packet_bytes-byte_sum_example =
    convert_to_packet_bytes-byte_sum granted caption_packet granted-Grants caption_packet-IsCdp

-- A page with two descriptors, the second and the fourth.
abbrev used_desc : ℕ → SdpDesc
used_desc line = record { line = line; field = 1; bytes = replicate 45 0x2a }

abbrev subtitles : SdpPacket
subtitles = record {
  identifier = 0x5115;
  format_code = 2;
  descriptors = no_desc ∷ used_desc 7 ∷ no_desc ∷ used_desc 22 ∷ no_desc ∷ [];
  sequence_counter = 0x1234;
}

no_desc-IsSdpDesc : IsSdpDesc no_desc
no_desc-IsSdpDesc = record {
  line = omega arith;
  field = omega arith;
  size = refl;
  bytes = omega arith;
  unused = inr refl;
}

used_desc-IsSdpDesc : (line : ℕ) → line < 32 → IsSdpDesc (used_desc line)
used_desc-IsSdpDesc line h = record {
  line = h;
  field = omega arith;
  size = refl;
  bytes = omega arith;
  unused = inl (omega arith);
}

subtitles-IsSdp : IsSdp subtitles
subtitles-IsSdp = record {
  identifier = refl;
  format_code = omega arith;
  five = refl;
  descriptors = (
    no_desc-IsSdpDesc,
    (
      used_desc-IsSdpDesc 7 (omega arith),
      (no_desc-IsSdpDesc, (used_desc-IsSdpDesc 22 (omega arith), (no_desc-IsSdpDesc, tt))),
    ),
  );
  sequence_counter = omega arith;
}

parse_sdp-create_payload_example :
    (do
      words ←
          klvanc_sdi_create_payload true 0x02 0x43
            (some (sdp_bytes subtitles 0))
            (length (sdp_bytes subtitles 0))
            10
      (hdr, _) ← parse true words (length words) 0
      parse_sdp true true hdr)
    ≡ ok (some subtitles)
parse_sdp-create_payload_example =
    parse_sdp-create_payload subtitles 0 0 subtitles-IsSdp (omega arith)

-- A frame of each kind.
abbrev three_frames : List (ℕ × Sent)
three_frames =
    (0x8918, mastering 13250 34500 7500 3000 34000 16000 15635 16450 10000000 50)
    ∷ (0x9004, light 1000 400)
    ∷ (0x0402, other 6 (0x26 ∷ 0 ∷ []))
    ∷ []

three_frames_size : length (hdr_bytes three_frames) ≡ 42
unfolding hdr_bytes
three_frames_size = omega (
  arith,
  length-serialize (sent_fields three_frames),
  length-fields_bits (sent_fields three_frames),
)

parse_smpte_2108_1-create_payload_example :
    (do
      words ←
          klvanc_sdi_create_payload true 0x0c 0x41
            (some (hdr_bytes three_frames))
            (length (hdr_bytes three_frames))
            10
      (hdr, _) ← parse true words (length words) 0
      parse_smpte_2108_1 true true true hdr)
    ≡ ok (some (hdr_arrived three_frames))
parse_smpte_2108_1-create_payload_example =
    parse_smpte_2108_1-create_payload three_frames 0 (omega arith) (omega arith)
      (omega (arith, three_frames_size)) (omega (arith, three_frames_size))
