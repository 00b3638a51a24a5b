-- ===== src/Eia708.antt =====
-- src/libklvanc/vanc-eia_708b.h and src/core-packet-eia_708b.c: caption distribution packets (CDP).
pub mod Parser
pub mod Builder
pub mod Arrival
pub mod Sections
pub mod Whole
pub mod Bytes
pub mod Sent
pub mod Widths
pub mod Received
pub mod RoundTrip
use libklvanc.Prelude.{ℕ, zero, suc, List, [], ◌∷◌, Bool, true, false, replicate}

-- `struct klvanc_packet_eia_708b_cdp_header`
pub record CdpHeader : Type 0 where
  pub cdp_identifier : ℕ
  pub cdp_length : ℕ
  pub cdp_frame_rate : ℕ
  pub time_code_present : ℕ
  pub ccdata_present : ℕ
  pub svcinfo_present : ℕ
  pub svc_info_start : ℕ
  pub svc_info_change : ℕ
  pub svc_info_complete : ℕ
  pub caption_service_active : ℕ
  pub cdp_hdr_sequence_cntr : ℕ

-- `struct klvanc_packet_eia_708b_time_code_section`
pub record TimeCodeSection : Type 0 where
  pub time_code_section_id : ℕ
  pub tc_10hrs : ℕ
  pub tc_1hrs : ℕ
  pub tc_10min : ℕ
  pub tc_1min : ℕ
  pub tc_field_flag : ℕ
  pub tc_10sec : ℕ
  pub tc_1sec : ℕ
  pub drop_frame_flag : ℕ
  pub tc_10fr : ℕ
  pub tc_1fr : ℕ

-- `struct klvanc_packet_eia_708b_ccdata_entry`
pub record CcEntry : Type 0 where
  pub cc_valid : ℕ
  pub cc_type : ℕ
  pub cc_data_0 : ℕ
  pub cc_data_1 : ℕ

-- `KLVANC_MAX_CC_COUNT`
abbrev pub max_cc_count : ℕ
max_cc_count = 30

-- `struct klvanc_packet_eia_708b_ccdata_section`: `cc` has the entries that were set, the others are 0.
pub record CcDataSection : Type 0 where
  pub ccdata_id : ℕ
  pub cc_count : ℕ
  pub cc : List CcEntry

-- `struct klvanc_packet_eia_708b_ccsvcinfo_entry`
pub record ServiceEntry : Type 0 where
  pub caption_service_number : ℕ
  pub svc_data_byte : List ℕ
  pub language : List ℕ
  pub digital_cc : ℕ
  pub csn : ℕ
  pub line21_field : ℕ
  pub easy_reader : ℕ
  pub wide_aspect_ratio : ℕ

-- `struct klvanc_packet_eia_708b_ccsvcinfo_section`
pub record ServiceSection : Type 0 where
  pub ccsvcinfo_id : ℕ
  pub svc_info_start : ℕ
  pub svc_info_change : ℕ
  pub svc_info_complete : ℕ
  pub svc_count : ℕ
  pub svc : List ServiceEntry

-- `struct klvanc_packet_eia_708b_cdp_footer`
pub record CdpFooter : Type 0 where
  pub cdp_footer_id : ℕ
  pub cdp_ftr_sequence_cntr : ℕ
  pub packet_checksum : ℕ

-- `struct klvanc_packet_eia_708b_s`, without its copy of the header.
pub record Eia708Packet : Type 0 where
  pub payload : List ℕ
  pub payload_length_bytes : ℕ
  pub checksum_valid : Bool
  pub header : CdpHeader
  pub tc : TimeCodeSection
  pub ccdata : CcDataSection
  pub ccsvc : ServiceSection
  pub footer : CdpFooter

-- The members that `calloc` leaves.
abbrev pub no_time_code : TimeCodeSection
no_time_code = record {
  time_code_section_id = 0;
  tc_10hrs = 0;
  tc_1hrs = 0;
  tc_10min = 0;
  tc_1min = 0;
  tc_field_flag = 0;
  tc_10sec = 0;
  tc_1sec = 0;
  drop_frame_flag = 0;
  tc_10fr = 0;
  tc_1fr = 0;
}

abbrev pub no_cc_entry : CcEntry
no_cc_entry = record { cc_valid = 0; cc_type = 0; cc_data_0 = 0; cc_data_1 = 0 }

abbrev pub no_ccdata : CcDataSection
no_ccdata = record { ccdata_id = 0; cc_count = 0; cc = [] }

abbrev pub no_services : ServiceSection
no_services = record {
  ccsvcinfo_id = 0;
  svc_info_start = 0;
  svc_info_change = 0;
  svc_info_complete = 0;
  svc_count = 0;
  svc = [];
}

abbrev pub no_footer : CdpFooter
no_footer = record { cdp_footer_id = 0; cdp_ftr_sequence_cntr = 0; packet_checksum = 0 }

abbrev pub no_header : CdpHeader
no_header = record {
  cdp_identifier = 0;
  cdp_length = 0;
  cdp_frame_rate = 0;
  time_code_present = 0;
  ccdata_present = 0;
  svcinfo_present = 0;
  svc_info_start = 0;
  svc_info_change = 0;
  svc_info_complete = 0;
  caption_service_active = 0;
  cdp_hdr_sequence_cntr = 0;
}

abbrev pub no_service : ServiceEntry
no_service = record {
  caption_service_number = 0;
  svc_data_byte = replicate 6 0;
  language = replicate 4 0;
  digital_cc = 0;
  csn = 0;
  line21_field = 0;
  easy_reader = 0;
  wide_aspect_ratio = 0;
}

-- `KLVANC_MAX_CCSVC_COUNT`
abbrev pub max_ccsvc_count : ℕ
max_ccsvc_count = 16

-- The first `n` entries of an array: behind those that were set, they are `unset`.
unfoldable pub first_entries : {A : Type 0} → A → ℕ → List A → List A
first_entries unset zero entries = []
first_entries unset (suc n) [] = unset ∷ first_entries unset n []
first_entries unset (suc n) (e ∷ entries) = e ∷ first_entries unset n entries
