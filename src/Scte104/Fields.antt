-- ===== src/Scte104/Fields.antt =====
-- The bytes of a request are those of the fields that are written.
use libklvanc.Prelude.{ℕ, ◌/◌, ◌%◌, ◌≡◌, refl, sym, ap, ◌∙◌, List, [], ◌∷◌, ◌++◌}
use mathlib.Core.List.{append_assoc}
use libklvanc.Bitstream.Bits.{to_bits, fields_bits, to_bytes}
use libklvanc.Bitstream.Writes.{padded}
use libklvanc.Packet.{first_words}
use libklvanc.Codec.Serialize.{serialize, serialize-byte, serialize-word, serialize-nil}
use libklvanc.Codec.Wide.{
  to_bits-halves, serialize-long, serialize-entries, serialize-entries_alone,
}
use libklvanc.Scte104.{
  Request, unset, sr_data, timesignal_data, dtmf_data, segmentation_data, avail_descriptor_data,
  descriptor_data, proprietary_data, tier_data, time_data,
}
use libklvanc.Scte104.Requests.{
  entries, splice_fields, time_fields, segmentation_front, segmentation_back,
}
use libklvanc.Scte104.Arrival.{request_bytes, longs_bytes}

unfoldable pub request_fields : Request → List (ℕ × ℕ)
request_fields unset = []
request_fields (sr_data d) = splice_fields d
request_fields (timesignal_data t) = (t, 16) ∷ []
request_fields (dtmf_data d) =
    (d.pre_roll_time, 8) ∷ (d.dtmf_length, 8) ∷ entries 8 (first_words d.dtmf_length d.dtmf_char)
request_fields (segmentation_data d) =
    segmentation_front d ++ (entries 8 (first_words d.upid_length d.upid) ++ segmentation_back d)
request_fields (avail_descriptor_data d) =
    (d.num_provider_avails, 8) ∷ entries 32 (first_words d.num_provider_avails d.provider_avail_id)
request_fields (descriptor_data d) =
    (d.descriptor_count, 8) ∷ entries 8 (first_words d.total_length d.descriptor_bytes)
request_fields (proprietary_data d) =
    (d.proprietary_id, 32)
    ∷ (d.proprietary_command, 8)
    ∷ entries 8 (first_words d.data_length d.proprietary_data)
request_fields (tier_data t) = (t % 4096, 16) ∷ []
request_fields (time_data d) = time_fields d

unfoldable pub request_wire : Request → List ℕ
request_wire r = serialize (request_fields r)

serialize-longs : (values : List ℕ) → serialize (entries 32 values) ≡ longs_bytes values
serialize-longs [] = serialize-nil
serialize-longs (v ∷ values) =
    serialize-long (entries 32 values) v ∙ rw (serialize-longs values) refl

-- A field of six bytes.
serialize-tai :
    (fields : List (ℕ × ℕ)) (v : ℕ)
    → serialize ((v, 48) ∷ fields) ≡ serialize ((v / 4294967296, 16) ∷ (v, 32) ∷ fields)
serialize-tai fields v =
    let e : fields_bits ((v, 48) ∷ fields) ≡ fields_bits ((v / 4294967296, 16) ∷ (v, 32) ∷ fields) =
      unfold fields_bits in
      (ap (λ (l : List ℕ). l ++ fields_bits fields) (to_bits-halves 16 32 v)
        ∙ append_assoc (to_bits 16 (v / 4294967296)) (to_bits 32 v) (fields_bits fields)) in
    unfold serialize in ap (λ (l : List ℕ). to_bytes (padded l)) e

ruleset byte_laws = (
  serialize-byte, serialize-word, serialize-long, serialize-nil, serialize-entries,
  serialize-entries_alone, serialize-longs, serialize-tai,
)

pub request_bytes-wire : (r : Request) → request_bytes r ≡ request_wire r
unfolding request_bytes request_wire request_fields
request_bytes-wire unset = sym serialize-nil
request_bytes-wire (sr_data d) = simp byte_laws
request_bytes-wire (timesignal_data t) = simp byte_laws
request_bytes-wire (dtmf_data d) = simp byte_laws
request_bytes-wire (segmentation_data d) = simp byte_laws
request_bytes-wire (avail_descriptor_data d) = simp byte_laws
request_bytes-wire (descriptor_data d) = simp byte_laws
request_bytes-wire (proprietary_data d) = simp byte_laws
request_bytes-wire (tier_data t) = simp byte_laws
request_bytes-wire (time_data d) = simp byte_laws
