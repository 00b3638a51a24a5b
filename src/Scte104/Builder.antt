-- ===== src/Scte104/Builder.antt =====
-- src/core-packet-scte_104.c: a message is converted to bytes, to a packet of SMPTE 2010, and to words.
use libklvanc.Prelude.{
  ℕ, zero, suc, ◌+◌, ◌/◌, ◌%◌, ◌^◌, List, [], ◌∷◌, ◌++◌, Outcome, ok, err, fault, failed, ◌>>=◌,
  ◌>>◌, Bool, leb, ◌==◌, if◌then◌else◌, guard, Option, none, some, set, alloc_or,
}
use libklvanc.Bitstream.{
  klbs_write_fields, klbs_write_set_buffer, klbs_write_buffer_complete, klbs_get_byte_count,
}
use libklvanc.Codec.{Alloc, to_words}
use libklvanc.Payload.{copy_bytes}
use libklvanc.Scte104.{
  Request, unset, sr_data, timesignal_data, dtmf_data, segmentation_data, avail_descriptor_data,
  descriptor_data, proprietary_data, tier_data, time_data, Operation, Timestamp, TimeValue,
  no_value, time_type_1, time_type_2, time_type_3, Mom, Scte104Packet, SpliceRequest, AvailRequest,
  DescriptorRequest, DtmfRequest, SegmentationRequest, TimeDescriptor, ProprietaryRequest,
  mo_splice_request_data, mo_splice_null_request_data, mo_time_signal_request_data,
  mo_insert_descriptor_request_data, mo_insert_dtmf_request_data,
  mo_insert_avail_descriptor_request_data, mo_insert_segmentation_request_data,
  mo_proprietary_command_request_data, mo_insert_tier_data, mo_insert_time_descriptor,
}
use libklvanc.Scte104.Requests.{
  entries, gen_splice_request_data, gen_splice_null_request_data, gen_time_signal_request_data,
  gen_descriptor_request_data, gen_dtmf_request_data, gen_avail_request_data,
  gen_segmentation_request_data, gen_proprietary_command_request_data, gen_tier_data,
  gen_time_descriptor,
}

-- Reads of a member of the union: a cleared union reads as zeros; to read another member than the one
-- that was stored is outside the model.
abbrev pub as_splice : Request → Outcome SpliceRequest
as_splice unset = ok (record {
  splice_insert_type = 0;
  splice_event_id = 0;
  unique_program_id = 0;
  pre_roll_time = 0;
  brk_duration = 0;
  avail_num = 0;
  avails_expected = 0;
  auto_return_flag = 0;
})
as_splice (sr_data d) = ok d
as_splice _ = fault

abbrev pub as_time_signal : Request → Outcome ℕ
as_time_signal unset = ok 0
as_time_signal (timesignal_data d) = ok d
as_time_signal _ = fault

abbrev pub as_descriptor : Request → Outcome DescriptorRequest
as_descriptor unset = ok (record { descriptor_count = 0; total_length = 0; descriptor_bytes = [] })
as_descriptor (descriptor_data d) = ok d
as_descriptor _ = fault

abbrev pub as_dtmf : Request → Outcome DtmfRequest
as_dtmf unset = ok (record { pre_roll_time = 0; dtmf_length = 0; dtmf_char = [] })
as_dtmf (dtmf_data d) = ok d
as_dtmf _ = fault

abbrev pub as_avail : Request → Outcome AvailRequest
as_avail unset = ok (record { num_provider_avails = 0; provider_avail_id = [] })
as_avail (avail_descriptor_data d) = ok d
as_avail _ = fault

abbrev pub as_segmentation : Request → Outcome SegmentationRequest
as_segmentation unset = ok (record {
  event_id = 0;
  event_cancel_indicator = 0;
  duration = 0;
  upid_type = 0;
  upid_length = 0;
  upid = [];
  type_id = 0;
  segment_num = 0;
  segments_expected = 0;
  duration_extension_frames = 0;
  delivery_not_restricted_flag = 0;
  web_delivery_allowed_flag = 0;
  no_regional_blackout_flag = 0;
  archive_allowed_flag = 0;
  device_restrictions = 0;
})
as_segmentation (segmentation_data d) = ok d
as_segmentation _ = fault

abbrev pub as_proprietary : Request → Outcome ProprietaryRequest
as_proprietary unset =
    ok (record {
      proprietary_id = 0;
      proprietary_command = 0;
      data_length = 0;
      proprietary_data = [];
    })
as_proprietary (proprietary_data d) = ok d
as_proprietary _ = fault

abbrev pub as_tier : Request → Outcome ℕ
as_tier unset = ok 0
as_tier (tier_data d) = ok d
as_tier _ = fault

abbrev pub as_time : Request → Outcome TimeDescriptor
as_time unset = ok (record { tai_seconds = 0; tai_ns = 0; utc_offset = 0 })
as_time (time_data d) = ok d
as_time _ = fault

-- The result of `gen_*` is dropped: where it fails, the body stays null and its size 0.
abbrev pub or_empty : Outcome (List ℕ × ℕ) → Outcome (Option (List ℕ × ℕ))
or_empty (ok r) = ok (some r)
or_empty (err e) = ok (some ([], 0))
or_empty fault = fault

-- The switch on `o->opID`; none stands for `continue`, at an identifier that is not known.
unfoldable pub gen_request : Alloc → ℕ → Request → Outcome (Option (List ℕ × ℕ))
gen_request alloc op_id request =
    if op_id == mo_splice_request_data
    then as_splice request >>= (λ d. or_empty (gen_splice_request_data alloc d))
    else if op_id == mo_splice_null_request_data
    then or_empty (gen_splice_null_request_data alloc)
    else if op_id == mo_time_signal_request_data
    then as_time_signal request >>= (λ d. or_empty (gen_time_signal_request_data alloc d))
    else if op_id == mo_insert_descriptor_request_data
    then as_descriptor request >>= (λ d. or_empty (gen_descriptor_request_data alloc d))
    else if op_id == mo_insert_dtmf_request_data
    then as_dtmf request >>= (λ d. or_empty (gen_dtmf_request_data alloc d))
    else if op_id == mo_insert_avail_descriptor_request_data
    then as_avail request >>= (λ d. or_empty (gen_avail_request_data alloc d))
    else if op_id == mo_insert_segmentation_request_data
    then as_segmentation request >>= (λ d. or_empty (gen_segmentation_request_data alloc d))
    else if op_id == mo_proprietary_command_request_data
    then as_proprietary request >>= (λ d. or_empty (gen_proprietary_command_request_data alloc d))
    else if op_id == mo_insert_tier_data
    then as_tier request >>= (λ d. or_empty (gen_tier_data alloc d))
    else if op_id == mo_insert_time_descriptor
    then as_time request >>= (λ d. or_empty (gen_time_descriptor alloc d))
    else ok none

-- The fields of one operation.
abbrev pub op_fields : ℕ → Option (List ℕ × ℕ) → Outcome (List (ℕ × ℕ))
op_fields op_id none = ok []
op_fields op_id (some (buf, size)) =
    copy_bytes buf size >>= λ body. ok ((op_id, 16) ∷ (size, 16) ∷ entries 8 body)

-- The loop over the operations; `allocs` answers `gen_*` at each of them.
unfoldable pub ops_fields : (ℕ → Alloc) → ℕ → ℕ → List Operation → Outcome (List (ℕ × ℕ))
ops_fields allocs zero i ops = ok []
ops_fields allocs (suc rounds) i [] = fault
ops_fields allocs (suc rounds) i (o ∷ ops) = do
  body ← gen_request (allocs i) o.op_id o.request
  fields ← op_fields o.op_id body
  more ← ops_fields allocs rounds (i + 1) ops
  ok (fields ++ more)

-- The members of the time stamp's union, read in the same way.
abbrev pub time_1_fields : TimeValue → Outcome (List (ℕ × ℕ))
time_1_fields no_value = ok ((0, 32) ∷ (0, 16) ∷ [])
time_1_fields (time_type_1 s us) = ok ((s, 32) ∷ (us, 16) ∷ [])
time_1_fields _ = fault

abbrev pub time_2_fields : TimeValue → Outcome (List (ℕ × ℕ))
time_2_fields no_value = ok ((0, 8) ∷ (0, 8) ∷ (0, 8) ∷ (0, 8) ∷ [])
time_2_fields (time_type_2 h m s f) = ok ((h, 8) ∷ (m, 8) ∷ (s, 8) ∷ (f, 8) ∷ [])
time_2_fields _ = fault

abbrev pub time_3_fields : TimeValue → Outcome (List (ℕ × ℕ))
time_3_fields no_value = ok ((0, 8) ∷ (0, 8) ∷ [])
time_3_fields (time_type_3 n e) = ok ((n, 8) ∷ (e, 8) ∷ [])
time_3_fields _ = fault

unfoldable pub timestamp_fields : Timestamp → Outcome (List (ℕ × ℕ))
timestamp_fields ts =
    if ts.time_type == 1
    then time_1_fields ts.value
    else if ts.time_type == 2
    then time_2_fields ts.value
    else if ts.time_type == 3
    then time_3_fields ts.value
    else ok []

abbrev pub mom_header_fields : Mom → List (ℕ × ℕ)
mom_header_fields m =
    (0xffff, 16)
    ∷ (m.message_size, 16)
    ∷ (m.protocol_version, 8)
    ∷ (m.as_index, 8)
    ∷ (m.message_number, 8)
    ∷ (m.dpi_pid_index, 16)
    ∷ (m.scte35_protocol_version, 8)
    ∷ (m.timestamp.time_type, 8)
    ∷ []

-- All that is written, in order.
unfoldable pub mom_fields : (ℕ → Alloc) → Mom → Outcome (List (ℕ × ℕ))
mom_fields allocs m = do
  time ← timestamp_fields m.timestamp
  ops ← ops_fields allocs m.num_ops 0 m.ops
  ok (mom_header_fields m ++ (time ++ (m.num_ops, 8) ∷ ops))

-- The size is stored in bytes 2 and 3, as an `uint16_t`.
abbrev pub with_size : List ℕ → ℕ → List ℕ × ℕ
with_size buf count = (set (set buf 2 (count / 256)) 3 (count % 256), count)

unfoldable pub klvanc_convert_scte_104_to_packet_bytes :
    Alloc → (ℕ → Alloc) → Scte104Packet → Outcome (List ℕ × ℕ)
klvanc_convert_scte_104_to_packet_bytes alloc allocs pkt = do
  guard (pkt.so_msg_op_id == 0xffff) (failed 1)
  guard alloc.klbs_ok (failed 1)
  mem ← alloc_or (failed 1) alloc.buffer
  fields ← mom_fields allocs pkt.mo_msg
  bs ← klbs_write_fields (klbs_write_set_buffer mem 2000) fields
  bs' ← klbs_write_buffer_complete bs
  ok (with_size bs'.buf (klbs_get_byte_count bs' % 2 ^ 16))

-- `klvanc_convert_SCTE_104_packetbytes_to_SMPTE_2010`
unfoldable pub klvanc_convert_scte_104_packetbytes_to_smpte_2010 :
    Bool → List ℕ → ℕ → Outcome (List ℕ × ℕ)
klvanc_convert_scte_104_packetbytes_to_smpte_2010 malloc_ok in_bytes in_count = do
  guard (leb in_count 2000) (failed 1)
  guard malloc_ok (failed 1)
  bytes ← copy_bytes in_bytes in_count
  ok (0x08 ∷ bytes, in_count + 1)

-- `klvanc_convert_SCTE_104_to_words`; `malloc_ok` is the answer to the conversion in between.
unfoldable pub klvanc_convert_scte_104_to_words :
    Bool → Alloc → (ℕ → Alloc) → Scte104Packet → Outcome (Option (List ℕ))
klvanc_convert_scte_104_to_words malloc_ok alloc allocs pkt = do
  (buf, byte_count) ← klvanc_convert_scte_104_to_packet_bytes alloc allocs pkt
  (s2010_packet, s2010_count) ←
      klvanc_convert_scte_104_packetbytes_to_smpte_2010 malloc_ok buf byte_count
  to_words alloc 0x07 0x41 (s2010_packet, s2010_count)
