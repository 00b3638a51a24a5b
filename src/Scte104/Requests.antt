-- ===== src/Scte104/Requests.antt =====
-- src/core-packet-scte_104.c: `gen_*` write the body of each request.
use libklvanc.Prelude.{
  ℕ, ◌%◌, List, [], ◌∷◌, ◌++◌, Outcome, ok, failed, leb, guard, assert, ◌>>◌, ◌>>=◌, map, alloc_or,
}
use libklvanc.Codec.{Alloc, to_packet_bytes}
use libklvanc.Packet.{first_words}
use libklvanc.Scte104.{
  SpliceRequest, AvailRequest, DescriptorRequest, DtmfRequest, SegmentationRequest, TimeDescriptor,
  ProprietaryRequest,
}

-- A run of entries of an array, each written with `width` bits.
abbrev pub entries : ℕ → List ℕ → List (ℕ × ℕ)
entries width values = map (λ v. (v, width)) values

-- What every `gen_*` does with its fields. MAX_DESC_SIZE is 255.
abbrev pub generate : Alloc → List (ℕ × ℕ) → Outcome (List ℕ × ℕ)
generate alloc fields = to_packet_bytes alloc (failed 1) 255 fields

-- `for (i = 0; i < count; i++)` over an array of `size` entries.
abbrev pub array_entries : ℕ → ℕ → ℕ → List ℕ → Outcome (List (ℕ × ℕ))
array_entries width size count values =
    assert (leb count size) >> ok (entries width (first_words count values))

abbrev pub splice_fields : SpliceRequest → List (ℕ × ℕ)
splice_fields d =
    (d.splice_insert_type, 8)
    ∷ (d.splice_event_id, 32)
    ∷ (d.unique_program_id, 16)
    ∷ (d.pre_roll_time, 16)
    ∷ (d.brk_duration, 16)
    ∷ (d.avail_num, 8)
    ∷ (d.avails_expected, 8)
    ∷ (d.auto_return_flag, 8)
    ∷ []

unfoldable pub gen_splice_request_data : Alloc → SpliceRequest → Outcome (List ℕ × ℕ)
gen_splice_request_data alloc d = generate alloc (splice_fields d)

-- No context is taken, and nothing is written into the buffer.
unfoldable pub gen_splice_null_request_data : Alloc → Outcome (List ℕ × ℕ)
gen_splice_null_request_data alloc = alloc_or (failed 1) alloc.buffer >>= (λ mem. ok (mem, 0))

unfoldable pub gen_time_signal_request_data : Alloc → ℕ → Outcome (List ℕ × ℕ)
gen_time_signal_request_data alloc pre_roll_time = generate alloc ((pre_roll_time, 16) ∷ [])

-- The allocations come before the entries are read.
abbrev pub allocated : Alloc → Outcome (List (ℕ × ℕ)) → Outcome (List ℕ × ℕ)
allocated alloc fields = do
  guard alloc.klbs_ok (failed 1)
  _ ← alloc_or (failed 1) alloc.buffer
  fields' ← fields
  generate alloc fields'

unfoldable pub gen_descriptor_request_data : Alloc → DescriptorRequest → Outcome (List ℕ × ℕ)
gen_descriptor_request_data alloc d = allocated alloc (
    array_entries 8 255 d.total_length d.descriptor_bytes >>= λ bytes.
    ok ((d.descriptor_count, 8) ∷ bytes))

unfoldable pub gen_dtmf_request_data : Alloc → DtmfRequest → Outcome (List ℕ × ℕ)
gen_dtmf_request_data alloc d = allocated alloc (
    array_entries 8 7 d.dtmf_length d.dtmf_char >>= λ chars.
    ok ((d.pre_roll_time, 8) ∷ (d.dtmf_length, 8) ∷ chars))

unfoldable pub gen_avail_request_data : Alloc → AvailRequest → Outcome (List ℕ × ℕ)
gen_avail_request_data alloc d = allocated alloc (
    array_entries 32 255 d.num_provider_avails d.provider_avail_id >>= λ ids.
    ok ((d.num_provider_avails, 8) ∷ ids))

abbrev pub segmentation_front : SegmentationRequest → List (ℕ × ℕ)
segmentation_front d =
    (d.event_id, 32)
    ∷ (d.event_cancel_indicator, 8)
    ∷ (d.duration, 16)
    ∷ (d.upid_type, 8)
    ∷ (d.upid_length, 8)
    ∷ []

abbrev pub segmentation_back : SegmentationRequest → List (ℕ × ℕ)
segmentation_back d =
    (d.type_id, 8)
    ∷ (d.segment_num, 8)
    ∷ (d.segments_expected, 8)
    ∷ (d.duration_extension_frames, 8)
    ∷ (d.delivery_not_restricted_flag, 8)
    ∷ (d.web_delivery_allowed_flag, 8)
    ∷ (d.no_regional_blackout_flag, 8)
    ∷ (d.archive_allowed_flag, 8)
    ∷ (d.device_restrictions, 8)
    ∷ []

unfoldable pub gen_segmentation_request_data : Alloc → SegmentationRequest → Outcome (List ℕ × ℕ)
gen_segmentation_request_data alloc d = allocated alloc (
    array_entries 8 255 d.upid_length d.upid >>= λ upid.
    ok (segmentation_front d ++ (upid ++ segmentation_back d)))

unfoldable pub gen_proprietary_command_request_data :
    Alloc → ProprietaryRequest → Outcome (List ℕ × ℕ)
gen_proprietary_command_request_data alloc d = allocated alloc (
    array_entries 8 255 d.data_length d.proprietary_data >>= λ bytes.
    ok ((d.proprietary_id, 32) ∷ (d.proprietary_command, 8) ∷ bytes))

unfoldable pub gen_tier_data : Alloc → ℕ → Outcome (List ℕ × ℕ)
gen_tier_data alloc tier = generate alloc ((tier % 4096, 16) ∷ [])

abbrev pub time_fields : TimeDescriptor → List (ℕ × ℕ)
time_fields d = (d.tai_seconds, 48) ∷ (d.tai_ns, 32) ∷ (d.utc_offset, 16) ∷ []

unfoldable pub gen_time_descriptor : Alloc → TimeDescriptor → Outcome (List ℕ × ℕ)
gen_time_descriptor alloc d = generate alloc (time_fields d)
