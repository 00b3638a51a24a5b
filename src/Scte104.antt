-- ===== src/Scte104.antt =====
-- src/libklvanc/vanc-scte_104.h: the messages of ANSI/SCTE 104, their requests and their packet.
pub mod Requests
pub mod Reading
pub mod Fragments
pub mod Parser
pub mod Builder
pub mod Arrival
pub mod Bodies
pub mod Readback
pub mod Wire
pub mod Sent
pub mod Received
pub mod Assembly
pub mod Series
pub mod Bounds
pub mod Sound
pub mod Exchange
pub mod Building
pub mod Fields
pub mod Converted
pub mod Delivered
pub mod RoundTrip
pub mod Fragmented
use libklvanc.Prelude.{
  ℕ, ◌+◌, ◌%◌, List, [], ◌∷◌, ◌++◌, Outcome, ok, err, Error, failed, fault, Bool, true, false, ◌==◌,
  if◌then◌else◌, guard, ◌>>◌, ◌>>=◌, assert, take, not, ◌-◌,
}

-- The operation identifiers, `MO_..._REQUEST_DATA` and the like.
abbrev pub mo_splice_request_data : ℕ
mo_splice_request_data = 0x101

abbrev pub mo_splice_null_request_data : ℕ
mo_splice_null_request_data = 0x102

abbrev pub mo_time_signal_request_data : ℕ
mo_time_signal_request_data = 0x104

abbrev pub mo_insert_descriptor_request_data : ℕ
mo_insert_descriptor_request_data = 0x108

abbrev pub mo_insert_dtmf_request_data : ℕ
mo_insert_dtmf_request_data = 0x109

abbrev pub mo_insert_avail_descriptor_request_data : ℕ
mo_insert_avail_descriptor_request_data = 0x10a

abbrev pub mo_insert_segmentation_request_data : ℕ
mo_insert_segmentation_request_data = 0x10b

abbrev pub mo_proprietary_command_request_data : ℕ
mo_proprietary_command_request_data = 0x10c

abbrev pub mo_insert_tier_data : ℕ
mo_insert_tier_data = 0x10f

abbrev pub mo_insert_time_descriptor : ℕ
mo_insert_time_descriptor = 0x110

-- Arrays of the requests are the lists of the entries that were written: every entry behind is 0.
pub record SpliceRequest : Type 0 where
  pub splice_insert_type : ℕ
  pub splice_event_id : ℕ
  pub unique_program_id : ℕ
  pub pre_roll_time : ℕ
  pub brk_duration : ℕ
  pub avail_num : ℕ
  pub avails_expected : ℕ
  pub auto_return_flag : ℕ

pub record AvailRequest : Type 0 where
  pub num_provider_avails : ℕ
  pub provider_avail_id : List ℕ

pub record DescriptorRequest : Type 0 where
  pub descriptor_count : ℕ
  pub total_length : ℕ
  pub descriptor_bytes : List ℕ

pub record DtmfRequest : Type 0 where
  pub pre_roll_time : ℕ
  pub dtmf_length : ℕ
  pub dtmf_char : List ℕ

pub record SegmentationRequest : Type 0 where
  pub event_id : ℕ
  pub event_cancel_indicator : ℕ
  pub duration : ℕ
  pub upid_type : ℕ
  pub upid_length : ℕ
  pub upid : List ℕ
  pub type_id : ℕ
  pub segment_num : ℕ
  pub segments_expected : ℕ
  pub duration_extension_frames : ℕ
  pub delivery_not_restricted_flag : ℕ
  pub web_delivery_allowed_flag : ℕ
  pub no_regional_blackout_flag : ℕ
  pub archive_allowed_flag : ℕ
  pub device_restrictions : ℕ

pub record TimeDescriptor : Type 0 where
  pub tai_seconds : ℕ
  pub tai_ns : ℕ
  pub utc_offset : ℕ

pub record ProprietaryRequest : Type 0 where
  pub proprietary_id : ℕ
  pub proprietary_command : ℕ
  pub data_length : ℕ
  pub proprietary_data : List ℕ

-- The union of an operation: the member that was stored. `unset` is the union that `calloc` or `memset`
-- cleared; the requests with one member stand as that member.
pub data Request : Type 0 where
  unset : Request
  sr_data : SpliceRequest → Request
  timesignal_data : ℕ → Request
  dtmf_data : DtmfRequest → Request
  segmentation_data : SegmentationRequest → Request
  avail_descriptor_data : AvailRequest → Request
  descriptor_data : DescriptorRequest → Request
  proprietary_data : ProprietaryRequest → Request
  tier_data : ℕ → Request
  time_data : TimeDescriptor → Request

-- `struct klvanc_multiple_operation_message_operation`. `body` is the memory behind the pointer `data`.
pub record Operation : Type 0 where
  pub op_id : ℕ
  pub data_length : ℕ
  pub body : List ℕ
  pub request : Request

abbrev pub no_operation : Operation
no_operation = record { op_id = 0; data_length = 0; body = []; request = unset }

-- The union of a time stamp, in the same way.
pub data TimeValue : Type 0 where
  no_value : TimeValue
  time_type_1 : ℕ → ℕ → TimeValue
  time_type_2 : ℕ → ℕ → ℕ → ℕ → TimeValue
  time_type_3 : ℕ → ℕ → TimeValue

pub record Timestamp : Type 0 where
  pub time_type : ℕ
  pub value : TimeValue

-- `struct klvanc_multiple_operation_message`. `ops` holds the entries of the array behind the pointer.
pub record Mom : Type 0 where
  pub rsvd : ℕ
  pub message_size : ℕ
  pub protocol_version : ℕ
  pub as_index : ℕ
  pub message_number : ℕ
  pub dpi_pid_index : ℕ
  pub scte35_protocol_version : ℕ
  pub timestamp : Timestamp
  pub num_ops : ℕ
  pub ops : List Operation

abbrev pub no_mom : Mom
no_mom = record {
  rsvd = 0;
  message_size = 0;
  protocol_version = 0;
  as_index = 0;
  message_number = 0;
  dpi_pid_index = 0;
  scte35_protocol_version = 0;
  timestamp = record { time_type = 0; value = no_value };
  num_ops = 0;
  ops = [];
}

-- `struct klvanc_packet_scte_104_s`, less the copy of the header; of its single operation message only
-- `opID` is ever set.
pub record Scte104Packet : Type 0 where
  pub payload_descriptor_byte : ℕ
  pub version : ℕ
  pub continued_pkt : ℕ
  pub following_pkt : ℕ
  pub duplicate_msg : ℕ
  pub payload : List ℕ
  pub payload_length_bytes : ℕ
  pub so_msg_op_id : ℕ
  pub mo_msg : Mom

-- `klvanc_alloc_SCTE_104`
unfoldable pub klvanc_alloc_scte_104 : Bool → ℕ → Outcome Scte104Packet
klvanc_alloc_scte_104 calloc_ok op_id =
    guard calloc_ok (failed 1)
    >> ok (record {
      payload_descriptor_byte = 0x08;
      version = 0x08;
      continued_pkt = 0;
      following_pkt = 0;
      duplicate_msg = 0;
      payload = [];
      payload_length_bytes = 0;
      so_msg_op_id = op_id;
      mo_msg = if op_id == 0xffff then record no_mom { rsvd = 0xffff } else no_mom;
    })

-- `klvanc_SCTE_104_Add_MOM_Op`: the last entry is cleared and gets the identifier. The result of
-- `realloc` is not tested. The count is an `unsigned char`: where it comes back to 0, the entry that is
-- cleared lies in front of the array.
unfoldable pub klvanc_scte_104_add_mom_op : Bool → ℕ → Scte104Packet → Outcome Scte104Packet
klvanc_scte_104_add_mom_op realloc_ok op_id pkt = do
  let mom = pkt.mo_msg
  let num_ops = (mom.num_ops + 1) % 256
  assert realloc_ok
  assert (not (num_ops == 0))
  ok (record pkt {
    mo_msg = record mom {
      num_ops = num_ops;
      ops = take (num_ops - 1) mom.ops ++ record no_operation { op_id = op_id } ∷ [];
    };
  })
