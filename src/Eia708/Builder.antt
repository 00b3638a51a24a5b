-- ===== src/Eia708/Builder.antt =====
-- The building of a CDP in src/core-packet-eia_708b.c.
use libklvanc.Prelude.{
  ℕ, ◌+◌, ◌-◌, ◌/◌, ◌%◌, List, [], ◌∷◌, ◌++◌, Outcome, ok, err, failed, enomem, ◌>>=◌, ◌>>◌, Bool,
  ltb, ◌==◌, ◌&&◌, not, if◌then◌else◌, guard, assert, Option, get_or, set, take, replicate, false,
}
use libklvanc.Timecode.Create.{gcd}
use libklvanc.Codec.{Alloc, to_packet_bytes, to_words}
use libklvanc.Eia708.{
  CdpHeader, TimeCodeSection, CcEntry, CcDataSection, max_cc_count, ServiceEntry, ServiceSection,
  Eia708Packet, no_cc_entry, no_service, no_header, no_time_code, no_ccdata, no_services, no_footer,
  first_entries, max_ccsvc_count,
}
use libklvanc.Eia708.Parser.{byte_sum}

-- The code of a reduced frame rate.
unfoldable pub frame_rate : ℕ → ℕ → Outcome ℕ
frame_rate num den =
    if num == 1001 && den == 24000
    then ok 1
    else if num == 1 && den == 24
    then ok 2
    else if num == 1 && den == 25
    then ok 3
    else if num == 1001 && den == 30000
    then ok 4
    else if num == 1 && den == 30
    then ok 5
    else if num == 1 && den == 50
    then ok 6
    else if num == 1001 && den == 60000
    then ok 7
    else if num == 1 && den == 60
    then ok 8
    else err (failed 1)

-- `klvanc_set_framerate_EIA_708B`, on natural numbers. A division by 0 fails.
unfoldable pub klvanc_set_framerate_eia_708b : Eia708Packet → ℕ → ℕ → Outcome Eia708Packet
unfolding gcd frame_rate
klvanc_set_framerate_eia_708b pkt num den = do
  divisor ← gcd num den
  assert (not (divisor == 0))
  rate ← frame_rate (num / divisor) (den / divisor)
  ok (record pkt { header = record (pkt.header) { cdp_frame_rate = rate } })

unfoldable pub klvanc_finalize_eia_708b : Eia708Packet → ℕ → Eia708Packet
klvanc_finalize_eia_708b pkt seq_num = record pkt {
  header = record (pkt.header) { cdp_hdr_sequence_cntr = seq_num };
  footer = record (pkt.footer) { cdp_ftr_sequence_cntr = seq_num };
}

-- `klvanc_create_eia708_cdp`, given memory.
unfoldable pub klvanc_create_eia708_cdp : Bool → Outcome Eia708Packet
klvanc_create_eia708_cdp calloc_ok = do
  guard calloc_ok enomem
  ok (record {
    payload = replicate 256 0;
    payload_length_bytes = 0;
    checksum_valid = false;
    header = record no_header { cdp_identifier = 0x9669 };
    tc = no_time_code;
    ccdata = record no_ccdata { ccdata_id = 0x72 };
    ccsvc = record no_services { ccsvcinfo_id = 0x73 };
    footer = record no_footer { cdp_footer_id = 0x74 };
  })

-- The calls of klbs_write_bits, section by section; `len` stands for the length.
unfoldable pub cdp_header_fields : ℕ → CdpHeader → List (ℕ × ℕ)
cdp_header_fields len h =
    (h.cdp_identifier, 16)
    ∷ (len, 8)
    ∷ (h.cdp_frame_rate, 4)
    ∷ (0x0f, 4)
    ∷ (h.time_code_present, 1)
    ∷ (h.ccdata_present, 1)
    ∷ (h.svcinfo_present, 1)
    ∷ (h.svc_info_start, 1)
    ∷ (h.svc_info_change, 1)
    ∷ (h.svc_info_complete, 1)
    ∷ (h.caption_service_active, 1)
    ∷ (1, 1)
    ∷ (h.cdp_hdr_sequence_cntr, 16)
    ∷ []

abbrev pub has_time_code : Eia708Packet → Bool
has_time_code pkt = not (pkt.header.time_code_present == 0) && pkt.tc.time_code_section_id == 0x71

unfoldable pub time_code_fields : TimeCodeSection → List (ℕ × ℕ)
time_code_fields tc =
    (tc.time_code_section_id, 8)
    ∷ (3, 2)
    ∷ (tc.tc_10hrs, 2)
    ∷ (tc.tc_1hrs, 4)
    ∷ (1, 1)
    ∷ (tc.tc_10min, 3)
    ∷ (tc.tc_1min, 4)
    ∷ (tc.tc_field_flag, 1)
    ∷ (tc.tc_10sec, 3)
    ∷ (tc.tc_1sec, 4)
    ∷ (1, 1)
    ∷ (tc.tc_10fr, 3)
    ∷ (tc.tc_1fr, 4)
    ∷ []

abbrev pub has_ccdata : Eia708Packet → Bool
has_ccdata pkt = not (pkt.header.ccdata_present == 0) && pkt.ccdata.ccdata_id == 0x72

unfoldable pub cc_fields : List CcEntry → List (ℕ × ℕ)
cc_fields [] = []
cc_fields (e ∷ entries) =
    (0x1f, 5)
    ∷ (e.cc_valid, 1)
    ∷ (e.cc_type, 2)
    ∷ (e.cc_data_0, 8)
    ∷ (e.cc_data_1, 8)
    ∷ cc_fields entries

unfoldable pub ccdata_fields : CcDataSection → List (ℕ × ℕ)
unfolding cc_fields
ccdata_fields s =
    (s.ccdata_id, 8)
    ∷ (7, 3)
    ∷ (s.cc_count, 5)
    ∷ cc_fields (first_entries no_cc_entry s.cc_count s.cc)

abbrev pub has_services : Eia708Packet → Bool
has_services pkt = not (pkt.header.svcinfo_present == 0) && pkt.ccsvc.ccsvcinfo_id == 0x73

unfoldable pub service_fields : List ServiceEntry → List (ℕ × ℕ)
service_fields [] = []
service_fields (e ∷ entries) =
    (7, 3)
    ∷ (e.caption_service_number, 5)
    ∷ (get_or e.svc_data_byte 0 0, 8)
    ∷ (get_or e.svc_data_byte 1 0, 8)
    ∷ (get_or e.svc_data_byte 2 0, 8)
    ∷ (get_or e.svc_data_byte 3 0, 8)
    ∷ (get_or e.svc_data_byte 4 0, 8)
    ∷ (get_or e.svc_data_byte 5 0, 8)
    ∷ service_fields entries

unfoldable pub ccsvc_fields : ServiceSection → List (ℕ × ℕ)
unfolding service_fields
ccsvc_fields s =
    (s.ccsvcinfo_id, 8)
    ∷ (1, 1)
    ∷ (s.svc_info_start, 1)
    ∷ (s.svc_info_change, 1)
    ∷ (s.svc_info_complete, 1)
    ∷ (s.svc_count, 4)
    ∷ service_fields (first_entries no_service s.svc_count s.svc)

-- Up to the sequence counter of the footer; the checksum comes behind it.
unfoldable pub cdp_fields : ℕ → Eia708Packet → List (ℕ × ℕ)
unfolding cdp_header_fields time_code_fields ccdata_fields ccsvc_fields
cdp_fields len pkt =
    cdp_header_fields len pkt.header
    ++ (if has_time_code pkt then time_code_fields pkt.tc else [])
    ++ (if has_ccdata pkt then ccdata_fields pkt.ccdata else [])
    ++ (if has_services pkt then ccsvc_fields pkt.ccsvc else [])
    ++ (pkt.footer.cdp_footer_id, 8) ∷ (pkt.footer.cdp_ftr_sequence_cntr, 16) ∷ []

-- The loops over the entries stay in the arrays.
abbrev pub in_arrays : Eia708Packet → Bool
in_arrays pkt =
    not (has_ccdata pkt && ltb max_cc_count pkt.ccdata.cc_count)
    && not (has_services pkt && ltb max_ccsvc_count pkt.ccsvc.svc_count)

-- `~sum + 1`, on `uint8_t`.
abbrev pub negate : ℕ → ℕ
negate sum = (255 - sum + 1) % 256

-- The packet and the output pointer are not null.
unfoldable pub klvanc_convert_eia_708b_to_packet_bytes : Alloc → Eia708Packet → Outcome (List ℕ × ℕ)
unfolding cdp_fields byte_sum
klvanc_convert_eia_708b_to_packet_bytes alloc pkt = do
  (buf, count) ←
      to_packet_bytes alloc enomem 255 (cdp_fields 0 pkt ++ (pkt.footer.packet_checksum, 8) ∷ [])
  assert (in_arrays pkt)
  let sized = set buf 2 (count % 256)
  ok (set sized (count - 1) (negate (byte_sum (take (count - 1) sized))), count)

unfoldable pub klvanc_convert_eia_708b_to_words : Alloc → Eia708Packet → Outcome (Option (List ℕ))
unfolding klvanc_convert_eia_708b_to_packet_bytes
klvanc_convert_eia_708b_to_words alloc pkt =
    klvanc_convert_eia_708b_to_packet_bytes alloc pkt >>= to_words alloc 0x01 0x61
