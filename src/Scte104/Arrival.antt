-- ===== src/Scte104/Arrival.antt =====
-- A request that is sent: its identifier, its bytes, and what arrives of it.
use libklvanc.Prelude.{ℕ, ◌/◌, ◌%◌, ◌^◌, ◌≤◌, List, [], ◌∷◌, ◌++◌, map}
use libklvanc.Packet.{first_words}
use libklvanc.Scte104.{
  Request, unset, sr_data, timesignal_data, dtmf_data, segmentation_data, avail_descriptor_data,
  descriptor_data, proprietary_data, tier_data, time_data, mo_splice_request_data,
  mo_splice_null_request_data, mo_time_signal_request_data, mo_insert_descriptor_request_data,
  mo_insert_dtmf_request_data, mo_insert_avail_descriptor_request_data,
  mo_insert_segmentation_request_data, mo_proprietary_command_request_data, mo_insert_tier_data,
  mo_insert_time_descriptor,
}

-- The identifier that names the member; the null request has none.
unfoldable pub request_id : Request → ℕ
request_id unset = mo_splice_null_request_data
request_id (sr_data d) = mo_splice_request_data
request_id (timesignal_data d) = mo_time_signal_request_data
request_id (dtmf_data d) = mo_insert_dtmf_request_data
request_id (segmentation_data d) = mo_insert_segmentation_request_data
request_id (avail_descriptor_data d) = mo_insert_avail_descriptor_request_data
request_id (descriptor_data d) = mo_insert_descriptor_request_data
request_id (proprietary_data d) = mo_proprietary_command_request_data
request_id (tier_data d) = mo_insert_tier_data
request_id (time_data d) = mo_insert_time_descriptor

-- The counts stay in the arrays, and the body in the 255 bytes of its buffer.
unfoldable pub IsRequest : Request → Type 0
IsRequest (dtmf_data d) = d.dtmf_length ≤ 7
IsRequest (segmentation_data d) = d.upid_length ≤ 237
IsRequest (avail_descriptor_data d) = d.num_provider_avails ≤ 63
IsRequest (descriptor_data d) = d.total_length ≤ 254
IsRequest (proprietary_data d) = d.data_length ≤ 250
IsRequest _ = Unit {0}

-- A number of two bytes and one of four, the highest byte first, in front of other bytes.
abbrev pub word_bytes : ℕ → List ℕ → List ℕ
word_bytes v rest = v / 256 % 256 ∷ v % 256 ∷ rest

abbrev pub long_bytes : ℕ → List ℕ → List ℕ
long_bytes v rest = word_bytes (v / 65536) (word_bytes v rest)

abbrev pub longs_bytes : List ℕ → List ℕ
longs_bytes [] = []
longs_bytes (v ∷ values) = long_bytes v (longs_bytes values)

abbrev pub lowest : List ℕ → List ℕ
lowest values = map (λ v. v % 256) values

-- The bytes of a request, as the standard lays them out.
unfoldable pub request_bytes : Request → List ℕ
request_bytes unset = []
request_bytes (sr_data d) =
    d.splice_insert_type % 256
    ∷ long_bytes d.splice_event_id (
        word_bytes d.unique_program_id (
          word_bytes d.pre_roll_time (
            word_bytes d.brk_duration
              (d.avail_num % 256 ∷ d.avails_expected % 256 ∷ d.auto_return_flag % 256 ∷ []))))
request_bytes (timesignal_data t) = word_bytes t []
request_bytes (dtmf_data d) =
    d.pre_roll_time % 256 ∷ d.dtmf_length % 256 ∷ lowest (first_words d.dtmf_length d.dtmf_char)
request_bytes (segmentation_data d) = long_bytes d.event_id (
    d.event_cancel_indicator % 256
    ∷ word_bytes d.duration (
        d.upid_type % 256
        ∷ d.upid_length % 256
        ∷ (lowest (first_words d.upid_length d.upid)
            ++ (d.type_id % 256
                ∷ d.segment_num % 256
                ∷ d.segments_expected % 256
                ∷ d.duration_extension_frames % 256
                ∷ d.delivery_not_restricted_flag % 256
                ∷ d.web_delivery_allowed_flag % 256
                ∷ d.no_regional_blackout_flag % 256
                ∷ d.archive_allowed_flag % 256
                ∷ d.device_restrictions % 256
                ∷ []))))
request_bytes (avail_descriptor_data d) =
    d.num_provider_avails % 256
    ∷ longs_bytes (first_words d.num_provider_avails d.provider_avail_id)
request_bytes (descriptor_data d) =
    d.descriptor_count % 256 ∷ lowest (first_words d.total_length d.descriptor_bytes)
request_bytes (proprietary_data d) =
    long_bytes d.proprietary_id
      (d.proprietary_command % 256 ∷ lowest (first_words d.data_length d.proprietary_data))
request_bytes (tier_data t) = word_bytes (t % 4096) []
request_bytes (time_data d) =
    word_bytes (d.tai_seconds / 4294967296)
      (long_bytes d.tai_seconds (long_bytes d.tai_ns (word_bytes d.utc_offset [])))

-- The entries of an array that were sent, each cut to its width.
abbrev pub cut : ℕ → List ℕ → List ℕ
cut width values = map (λ v. v % 2 ^ width) values

-- Every member cut to its width, and every array to its count.
unfoldable pub request_arrived : Request → Request
request_arrived unset = unset
request_arrived (sr_data d) = sr_data (record {
  splice_insert_type = d.splice_insert_type % 2 ^ 8;
  splice_event_id = d.splice_event_id % 2 ^ 32;
  unique_program_id = d.unique_program_id % 2 ^ 16;
  pre_roll_time = d.pre_roll_time % 2 ^ 16;
  brk_duration = d.brk_duration % 2 ^ 16;
  avail_num = d.avail_num % 2 ^ 8;
  avails_expected = d.avails_expected % 2 ^ 8;
  auto_return_flag = d.auto_return_flag % 2 ^ 8;
})
request_arrived (timesignal_data t) = timesignal_data (t % 2 ^ 16)
request_arrived (dtmf_data d) = dtmf_data (record {
  pre_roll_time = d.pre_roll_time % 2 ^ 8;
  dtmf_length = d.dtmf_length;
  dtmf_char = cut 8 (first_words d.dtmf_length d.dtmf_char);
})
request_arrived (segmentation_data d) = segmentation_data (record {
  event_id = d.event_id % 2 ^ 32;
  event_cancel_indicator = d.event_cancel_indicator % 2 ^ 8;
  duration = d.duration % 2 ^ 16;
  upid_type = d.upid_type % 2 ^ 8;
  upid_length = d.upid_length;
  upid = cut 8 (first_words d.upid_length d.upid);
  type_id = d.type_id % 2 ^ 8;
  segment_num = d.segment_num % 2 ^ 8;
  segments_expected = d.segments_expected % 2 ^ 8;
  duration_extension_frames = d.duration_extension_frames % 2 ^ 8;
  delivery_not_restricted_flag = d.delivery_not_restricted_flag % 2 ^ 8;
  web_delivery_allowed_flag = d.web_delivery_allowed_flag % 2 ^ 8;
  no_regional_blackout_flag = d.no_regional_blackout_flag % 2 ^ 8;
  archive_allowed_flag = d.archive_allowed_flag % 2 ^ 8;
  device_restrictions = d.device_restrictions % 2 ^ 8;
})
request_arrived (avail_descriptor_data d) = avail_descriptor_data (record {
  num_provider_avails = d.num_provider_avails;
  provider_avail_id = cut 32 (first_words d.num_provider_avails d.provider_avail_id);
})
request_arrived (descriptor_data d) = descriptor_data (record {
  descriptor_count = d.descriptor_count % 2 ^ 8;
  total_length = d.total_length;
  descriptor_bytes = cut 8 (first_words d.total_length d.descriptor_bytes);
})
request_arrived (proprietary_data d) = proprietary_data (record {
  proprietary_id = d.proprietary_id % 2 ^ 32;
  proprietary_command = d.proprietary_command % 2 ^ 8;
  data_length = d.data_length;
  proprietary_data = cut 8 (first_words d.data_length d.proprietary_data);
})
request_arrived (tier_data t) = tier_data (t % 4096)
request_arrived (time_data d) = time_data (record {
  tai_seconds = d.tai_seconds % 2 ^ 48;
  tai_ns = d.tai_ns % 2 ^ 32;
  utc_offset = d.utc_offset % 2 ^ 16;
})
