-- ===== src/Scte104/Reading.antt =====
-- src/core-packet-scte_104.c: `parse_*` read the body of each request.
use libklvanc.Prelude.{
  ℕ, zero, suc, ◌+◌, ◌-◌, ◌*◌, ◌%◌, ◌^◌, List, [], ◌∷◌, Outcome, ok, failed, fault, Bool, true,
  false, leb, ltb, guard, assert, ◌>>◌, ◌>>=◌, drop,
}
use libklvanc.Bitstream.{klbs_read_set_buffer, klbs_read_bits}
use libklvanc.Scte104.{
  SpliceRequest, AvailRequest, DescriptorRequest, DtmfRequest, SegmentationRequest, TimeDescriptor,
  ProprietaryRequest,
}

-- A parser gets the memory behind its pointer, and gives back what is behind the pointer it returns.
abbrev pub Parser : Type 0 → Type 0
Parser A = List ℕ → Outcome (A × List ℕ)

-- `*(p++)`
abbrev pub byte : Parser ℕ
byte [] = fault
byte (b ∷ p) = ok (b, p)

-- `p[0] << 8 | p[1]`; `p += 2`
abbrev pub short : Parser ℕ
short (a ∷ b ∷ p) = ok (a * 256 + b, p)
short _ = fault

-- The same of four bytes, kept in an `unsigned int`.
abbrev pub long : Parser ℕ
long (a ∷ b ∷ c ∷ d ∷ p) = ok (a * 16777216 + b * 65536 + c * 256 + d, p)
long _ = fault

-- `memcpy(array, p, count)`; `p += count`
unfoldable pub bytes : ℕ → Parser (List ℕ)
bytes zero p = ok ([], p)
bytes (suc count) [] = fault
bytes (suc count) (b ∷ p) = bytes count p >>= (λ r. ok (b ∷ r.0, r.1))

-- `p += count` over memory that is not read.
abbrev pub advance : ℕ → List ℕ → List ℕ
advance count p = drop count p

-- An insert type that is not known is reported, and changes nothing.
unfoldable pub parse_splice_request_data : Parser SpliceRequest
parse_splice_request_data p = do
  (splice_insert_type, p) ← byte p
  (splice_event_id, p) ← long p
  (unique_program_id, p) ← short p
  (pre_roll_time, p) ← short p
  (brk_duration, p) ← short p
  (avail_num, p) ← byte p
  (avails_expected, p) ← byte p
  (auto_return_flag, p) ← byte p
  ok (
    record {
      splice_insert_type = splice_insert_type;
      splice_event_id = splice_event_id;
      unique_program_id = unique_program_id;
      pre_roll_time = pre_roll_time;
      brk_duration = brk_duration;
      avail_num = avail_num;
      avails_expected = avails_expected;
      auto_return_flag = auto_return_flag;
    },
    p,
  )

unfoldable pub parse_time_signal_request_data : Parser ℕ
parse_time_signal_request_data p = short p

-- Bytes that fit the array are copied.
abbrev pub copied : Bool → ℕ → Parser (List ℕ)
copied true count p = bytes count p
copied false count p = ok ([], advance count p)

unfoldable pub parse_descriptor_request_data : ℕ → Parser DescriptorRequest
parse_descriptor_request_data descriptor_size p = do
  (descriptor_count, p) ← byte p
  (descriptor_bytes, p) ← copied (ltb descriptor_size 255) descriptor_size p
  ok (
    record {
      descriptor_count = descriptor_count;
      total_length = descriptor_size;
      descriptor_bytes = descriptor_bytes;
    },
    p,
  )

unfoldable pub parse_dtmf_request_data : Parser DtmfRequest
parse_dtmf_request_data p = do
  (pre_roll_time, p) ← byte p
  (dtmf_length, p) ← byte p
  (dtmf_char, p) ← copied (leb dtmf_length 7) dtmf_length p
  ok (record { pre_roll_time = pre_roll_time; dtmf_length = dtmf_length; dtmf_char = dtmf_char }, p)

-- The loop, over as many rounds as the byte in front says: never more than the array has entries.
unfoldable pub parse_avails : ℕ → Parser (List ℕ)
parse_avails zero p = ok ([], p)
parse_avails (suc rounds) p = do
  (id, p) ← long p
  (ids, p) ← parse_avails rounds p
  ok (id ∷ ids, p)

unfoldable pub parse_avail_request_data : Parser AvailRequest
unfolding parse_avails
parse_avail_request_data p = do
  (num_provider_avails, p) ← byte p
  (provider_avail_id, p) ← parse_avails num_provider_avails p
  ok (
    record { num_provider_avails = num_provider_avails; provider_avail_id = provider_avail_id },
    p,
  )

-- The length is a byte, so it never exceeds the 255 entries of `upid`.
unfoldable pub parse_segmentation_request_data : Parser SegmentationRequest
unfolding bytes
parse_segmentation_request_data p = do
  (event_id, p) ← long p
  (event_cancel_indicator, p) ← byte p
  (duration, p) ← short p
  (upid_type, p) ← byte p
  (upid_length, p) ← byte p
  (upid, p) ← bytes upid_length p
  (type_id, p) ← byte p
  (segment_num, p) ← byte p
  (segments_expected, p) ← byte p
  (duration_extension_frames, p) ← byte p
  (delivery_not_restricted_flag, p) ← byte p
  (web_delivery_allowed_flag, p) ← byte p
  (no_regional_blackout_flag, p) ← byte p
  (archive_allowed_flag, p) ← byte p
  (device_restrictions, p) ← byte p
  ok (
    record {
      event_id = event_id;
      event_cancel_indicator = event_cancel_indicator;
      duration = duration;
      upid_type = upid_type;
      upid_length = upid_length;
      upid = upid;
      type_id = type_id;
      segment_num = segment_num;
      segments_expected = segments_expected;
      duration_extension_frames = duration_extension_frames;
      delivery_not_restricted_flag = delivery_not_restricted_flag;
      web_delivery_allowed_flag = web_delivery_allowed_flag;
      no_regional_blackout_flag = no_regional_blackout_flag;
      archive_allowed_flag = archive_allowed_flag;
      device_restrictions = device_restrictions;
    },
    p,
  )

-- The number of bytes is not compared with the 255 of the array: more of them leave it.
unfoldable pub parse_proprietary_command_request_data : ℕ → Parser ProprietaryRequest
parse_proprietary_command_request_data descriptor_size p = do
  (proprietary_id, p) ← long p
  (proprietary_command, p) ← byte p
  let data_length = (descriptor_size + 2 ^ 32 - 5) % 2 ^ 32
  assert (leb data_length 255)
  (proprietary_data, p) ← bytes data_length p
  ok (
    record {
      proprietary_id = proprietary_id;
      proprietary_command = proprietary_command;
      data_length = data_length;
      proprietary_data = proprietary_data;
    },
    p,
  )

unfoldable pub parse_tier_data : Parser ℕ
parse_tier_data p = short p >>= (λ r. ok (r.0 % 4096, r.1))

-- The pointer that is returned is the one that was given. Without a context, null is returned, and
-- the request is not changed.
unfoldable pub parse_time_descriptor : Bool → List ℕ → Outcome TimeDescriptor
parse_time_descriptor klbs_ok p = do
  guard klbs_ok (failed 1)
  (tai_seconds, bs) ← klbs_read_bits 48 (klbs_read_set_buffer p 12)
  (tai_ns, bs) ← klbs_read_bits 32 bs
  (utc_offset, bs) ← klbs_read_bits 16 bs
  ok (record { tai_seconds = tai_seconds; tai_ns = tai_ns; utc_offset = utc_offset })
