-- ===== src/Eia708/Arrival.antt =====
-- What arrives of a CDP: every member cut to the width it is sent with.
use libklvanc.Prelude.{
  ℕ, ◌+◌, ◌%◌, ◌^◌, List, [], ◌∷◌, ◌++◌, map, if◌then◌else◌, true, length, get_or,
}
use libklvanc.Packet.{first_words}
use libklvanc.Codec.Serialize.{serialize}
use libklvanc.Eia708.{
  CdpHeader, TimeCodeSection, CcEntry, CcDataSection, ServiceEntry, ServiceSection, Eia708Packet,
  no_time_code, no_ccdata, no_services, no_cc_entry, no_service, first_entries,
}
use libklvanc.Eia708.Parser.{byte_sum, service_entry}
use libklvanc.Eia708.Builder.{has_time_code, has_ccdata, has_services, cdp_fields, negate}

unfoldable pub header_arrived : ℕ → CdpHeader → CdpHeader
header_arrived len h = record {
  cdp_identifier = h.cdp_identifier % 2 ^ 16;
  cdp_length = len % 2 ^ 8;
  cdp_frame_rate = h.cdp_frame_rate % 2 ^ 4;
  time_code_present = h.time_code_present % 2;
  ccdata_present = h.ccdata_present % 2;
  svcinfo_present = h.svcinfo_present % 2;
  svc_info_start = h.svc_info_start % 2;
  svc_info_change = h.svc_info_change % 2;
  svc_info_complete = h.svc_info_complete % 2;
  caption_service_active = h.caption_service_active % 2;
  cdp_hdr_sequence_cntr = h.cdp_hdr_sequence_cntr % 2 ^ 16;
}

-- The drop frame flag is not sent: it arrives as 1.
unfoldable pub time_code_arrived : TimeCodeSection → TimeCodeSection
time_code_arrived tc = record {
  time_code_section_id = 0x71;
  tc_10hrs = tc.tc_10hrs % 2 ^ 2;
  tc_1hrs = tc.tc_1hrs % 2 ^ 4;
  tc_10min = tc.tc_10min % 2 ^ 3;
  tc_1min = tc.tc_1min % 2 ^ 4;
  tc_field_flag = tc.tc_field_flag % 2;
  tc_10sec = tc.tc_10sec % 2 ^ 3;
  tc_1sec = tc.tc_1sec % 2 ^ 4;
  drop_frame_flag = 1;
  tc_10fr = tc.tc_10fr % 2 ^ 2;
  tc_1fr = tc.tc_1fr % 2 ^ 4;
}

abbrev pub cc_arrived : CcEntry → CcEntry
cc_arrived e = record {
  cc_valid = e.cc_valid % 2;
  cc_type = e.cc_type % 2 ^ 2;
  cc_data_0 = e.cc_data_0 % 2 ^ 8;
  cc_data_1 = e.cc_data_1 % 2 ^ 8;
}

unfoldable pub ccdata_arrived : CcDataSection → CcDataSection
ccdata_arrived s = record {
  ccdata_id = 0x72;
  cc_count = s.cc_count;
  cc = map cc_arrived (first_entries no_cc_entry s.cc_count s.cc);
}

-- The members of a service come from its six bytes.
abbrev pub service_arrived : ServiceEntry → ServiceEntry
service_arrived e =
    service_entry (e.caption_service_number % 2 ^ 5) (get_or e.svc_data_byte 0 0 % 2 ^ 8)
      (get_or e.svc_data_byte 1 0 % 2 ^ 8) (get_or e.svc_data_byte 2 0 % 2 ^ 8)
      (get_or e.svc_data_byte 3 0 % 2 ^ 8) (get_or e.svc_data_byte 4 0 % 2 ^ 8)
      (get_or e.svc_data_byte 5 0 % 2 ^ 8)

unfoldable pub ccsvc_arrived : ServiceSection → ServiceSection
ccsvc_arrived s = record {
  ccsvcinfo_id = 0x73;
  svc_info_start = s.svc_info_start % 2;
  svc_info_change = s.svc_info_change % 2;
  svc_info_complete = s.svc_info_complete % 2;
  svc_count = s.svc_count;
  svc = map service_arrived (first_entries no_service s.svc_count s.svc);
}

-- How many bytes a CDP has, and the bytes.
unfoldable pub cdp_length_of : Eia708Packet → ℕ
cdp_length_of pkt = length (serialize (cdp_fields 0 pkt)) + 1

unfoldable pub cdp_front : Eia708Packet → List ℕ
cdp_front pkt = serialize (cdp_fields (cdp_length_of pkt) pkt)

unfoldable pub cdp_checksum : Eia708Packet → ℕ
cdp_checksum pkt = negate (byte_sum (cdp_front pkt))

unfoldable pub cdp_bytes : Eia708Packet → List ℕ
cdp_bytes pkt = cdp_front pkt ++ cdp_checksum pkt ∷ []

unfoldable pub cdp_arrived : Eia708Packet → Eia708Packet
cdp_arrived pkt = record {
  payload = first_words 256 (cdp_bytes pkt);
  payload_length_bytes = cdp_length_of pkt;
  checksum_valid = true;
  header = header_arrived (cdp_length_of pkt) pkt.header;
  tc = if has_time_code pkt then time_code_arrived pkt.tc else no_time_code;
  ccdata = if has_ccdata pkt then ccdata_arrived pkt.ccdata else no_ccdata;
  ccsvc = if has_services pkt then ccsvc_arrived pkt.ccsvc else no_services;
  footer = record {
    cdp_footer_id = 0x74;
    cdp_ftr_sequence_cntr = pkt.footer.cdp_ftr_sequence_cntr % 2 ^ 16;
    packet_checksum = cdp_checksum pkt;
  };
}
