-- ===== src/Scte104/Readback.antt =====
-- The bodies of the requests, read back by the parsers.
use libklvanc.Prelude.{
  ℕ, zero, suc, ◌+◌, ◌-◌, ◌*◌, ◌/◌, ◌%◌, ◌^◌, ◌≤◌, ◌≡◌, refl, sym, ap, ◌∙◌, List, [], ◌∷◌, ◌++◌, ok,
  Bool, true, leb, ltb, length, length-map, arith,
}
use mathlib.Core.List.{append-nil}
use libklvanc.Codec.Serialize.{serialize, serialize-nil, serialize-byte, serialize-word}
use libklvanc.Codec.Wide.{serialize-long, serialize-entries, serialize-entries_alone}
use libklvanc.Codec.Bytes.{length-serialize, serialize-IsByte, bits_of-serialize_whole}
use libklvanc.Bitstream.Bits.{fields_bits}
use libklvanc.Bitstream.Run.{FieldsAt, read_then}
use libklvanc.Bitstream.RoundTrip.{length-fields_bits, read_set_buffer-at}
use libklvanc.Packet.{first_words}
use libklvanc.Scte104.{
  Request, unset, sr_data, timesignal_data, dtmf_data, segmentation_data, avail_descriptor_data,
  descriptor_data, proprietary_data, tier_data, time_data, SpliceRequest, AvailRequest,
  SegmentationRequest, DtmfRequest, DescriptorRequest, ProprietaryRequest, TimeDescriptor,
}
use libklvanc.Scte104.Requests.{entries, time_fields}
use libklvanc.Scte104.Reading.{
  bytes, parse_splice_request_data, parse_time_signal_request_data, parse_descriptor_request_data,
  parse_dtmf_request_data, parse_avails, parse_avail_request_data, parse_segmentation_request_data,
  parse_proprietary_command_request_data, parse_tier_data, parse_time_descriptor,
}
use libklvanc.Scte104.Parser.{parse_request, time_stored}
use libklvanc.Scte104.Fields.{request_fields, request_wire, request_bytes-wire}
use libklvanc.Scte104.Arrival.{request_id, IsRequest, request_bytes, request_arrived, cut}
use libklvanc.Scte104.Bodies.{length-first_words, total-entries}

pub bytes-append : (xs rest : List ℕ) (n : ℕ) → n ≡ length xs → bytes n (xs ++ rest) ≡ ok (xs, rest)
unfolding bytes
bytes-append [] rest zero h = refl
bytes-append [] rest (suc n) h = absurd (omega arith)
bytes-append (x ∷ xs) rest zero h = absurd (omega arith)
bytes-append (x ∷ xs) rest (suc n) h = rw (bytes-append xs rest n (omega arith)) refl

bytes-whole : (xs : List ℕ) (n : ℕ) → n ≡ length xs → bytes n xs ≡ ok (xs, [])
bytes-whole xs n h = ap (bytes n) (sym (append-nil xs)) ∙ bytes-append xs [] n h

pub long_joined :
    (v : ℕ)
    → v / 65536 / 256 % 256 * 16777216 + v / 65536 % 256 * 65536 + v / 256 % 256 * 256 + v % 256
      ≡ v % 4294967296
long_joined v = omega arith

pub short_joined : (v : ℕ) → v / 256 % 256 * 256 + v % 256 ≡ v % 65536
short_joined v = omega arith

length-cut : (width n : ℕ) (xs : List ℕ) → n ≡ length (cut width (first_words n xs))
length-cut width n xs =
    omega (arith, length-map (first_words n xs) (λ v. v % 2 ^ width), length-first_words n xs)

bytes-cut :
    (n : ℕ) (xs rest : List ℕ)
    → bytes n (cut 8 (first_words n xs) ++ rest) ≡ ok (cut 8 (first_words n xs), rest)
bytes-cut n xs rest = bytes-append (cut 8 (first_words n xs)) rest n (length-cut 8 n xs)

bytes-cut_alone :
    (n : ℕ) (xs : List ℕ) → bytes n (cut 8 (first_words n xs)) ≡ ok (cut 8 (first_words n xs), [])
bytes-cut_alone n xs = bytes-whole (cut 8 (first_words n xs)) n (length-cut 8 n xs)

parse_avails-entries :
    (xs : List ℕ) (n : ℕ)
    → n ≡ length xs
    → parse_avails n (serialize (entries 32 xs)) ≡ ok (cut 32 xs, [])
unfolding parse_avails
parse_avails-entries [] zero h = rw serialize-nil refl
parse_avails-entries [] (suc n) h = absurd (omega arith)
parse_avails-entries (x ∷ xs) zero h = absurd (omega arith)
parse_avails-entries (x ∷ xs) (suc n) h =
    rw (serialize-long (entries 32 xs) x, long_joined x)
      (rw (parse_avails-entries xs n (omega arith)) refl)

ruleset body_laws = (
  serialize-byte, serialize-word, serialize-long, serialize-nil, serialize-entries,
  serialize-entries_alone, long_joined, short_joined, bytes-cut, bytes-cut_alone,
)

time_FieldsAt : (d : TimeDescriptor) → FieldsAt (serialize (time_fields d)) 12 0 (time_fields d) []
time_FieldsAt d =
    let l = length-fields_bits (time_fields d) in
    record {
      follow =
          bits_of-serialize_whole (time_fields d) (omega (arith, l))
          ∙ sym (append-nil (fields_bits (time_fields d)));
      fits = omega (arith, l);
      owned = omega (arith, l, length-serialize (time_fields d));
      bytes = serialize-IsByte (time_fields d);
      small = omega arith;
    }

module _ (k : Bool) (n : ℕ) where
  splice_read :
      (d : SpliceRequest)
      → parse_request k (request_id (sr_data d)) n (request_wire (sr_data d))
        ≡ ok (request_arrived (sr_data d))
  unfolding parse_request request_id request_wire request_fields request_arrived
      parse_splice_request_data
  splice_read d = simp body_laws

  dtmf_read :
      (d : DtmfRequest)
      → d.dtmf_length ≤ 7
      → parse_request k (request_id (dtmf_data d)) n (request_wire (dtmf_data d))
        ≡ ok (request_arrived (dtmf_data d))
  unfolding parse_request request_id request_wire request_fields request_arrived
      parse_dtmf_request_data
  dtmf_read d h =
      let e : d.dtmf_length % 256 ≡ d.dtmf_length = omega arith in
      let c : leb d.dtmf_length 7 ≡ true = ground arith in simp (body_laws, e, c)

  segmentation_read :
      (d : SegmentationRequest)
      → d.upid_length ≤ 237
      → parse_request k (request_id (segmentation_data d)) n (request_wire (segmentation_data d))
        ≡ ok (request_arrived (segmentation_data d))
  unfolding parse_request request_id request_wire request_fields request_arrived
      parse_segmentation_request_data
  segmentation_read d h =
      let e : d.upid_length % 256 ≡ d.upid_length = omega arith in simp (body_laws, e)

  avail_read :
      (d : AvailRequest)
      → d.num_provider_avails ≤ 63
      → parse_request k
          (request_id (avail_descriptor_data d))
          n
          (request_wire (avail_descriptor_data d))
        ≡ ok (request_arrived (avail_descriptor_data d))
  unfolding parse_request request_id request_wire request_fields request_arrived
      parse_avail_request_data
  avail_read d h =
      let c : ℕ = d.num_provider_avails in
      let ids : List ℕ = first_words c d.provider_avail_id in
      let e : c % 256 ≡ c = omega arith in
      simp
        (body_laws, e, parse_avails-entries ids c (sym (length-first_words c d.provider_avail_id)))

  -- The two requests whose size comes from the operation.
  descriptor_read :
      (d : DescriptorRequest)
      → d.total_length ≤ 254
      → n ≡ 1 + d.total_length
      → parse_request k (request_id (descriptor_data d)) n (request_wire (descriptor_data d))
        ≡ ok (request_arrived (descriptor_data d))
  unfolding parse_request request_id request_wire request_fields request_arrived
      parse_descriptor_request_data
  descriptor_read d h e =
      let l : (n + 2 ^ 32 - 1) % 2 ^ 32 ≡ d.total_length = omega arith in
      let t : ltb d.total_length 255 ≡ true = ground arith in rw l (simp (body_laws, t))

  proprietary_read :
      (d : ProprietaryRequest)
      → d.data_length ≤ 250
      → n ≡ 5 + d.data_length
      → parse_request k (request_id (proprietary_data d)) n (request_wire (proprietary_data d))
        ≡ ok (request_arrived (proprietary_data d))
  unfolding parse_request request_id request_wire request_fields request_arrived
      parse_proprietary_command_request_data
  proprietary_read d h e =
      let l : (n + 2 ^ 32 - 5) % 2 ^ 32 ≡ d.data_length = omega arith in
      let t : leb d.data_length 255 ≡ true = ground arith in simp (body_laws, l, t)

  time_read :
      (d : TimeDescriptor)
      → parse_request true (request_id (time_data d)) n (request_wire (time_data d))
        ≡ ok (request_arrived (time_data d))
  unfolding parse_request request_id request_wire request_fields request_arrived
      parse_time_descriptor
  time_read d = rw (read_set_buffer-at (serialize (time_fields d)) 12) (
      ap time_stored
        (read_then (time_FieldsAt d) _ (λ f. read_then f _ (λ f. read_then f _ (λ _. refl)))))

descriptor_size :
    (d : DescriptorRequest) → length (request_wire (descriptor_data d)) ≡ 1 + d.total_length
unfolding request_wire request_fields
descriptor_size d =
    let values : List ℕ = first_words d.total_length d.descriptor_bytes in
    let fields : List (ℕ × ℕ) = (d.descriptor_count, 8) ∷ entries 8 values in
    omega (
      arith,
      length-serialize fields,
      length-fields_bits fields,
      total-entries 8 values,
      length-first_words d.total_length d.descriptor_bytes,
    )

proprietary_size :
    (d : ProprietaryRequest) → length (request_wire (proprietary_data d)) ≡ 5 + d.data_length
unfolding request_wire request_fields
proprietary_size d =
    let values : List ℕ = first_words d.data_length d.proprietary_data in
    let fields : List (ℕ × ℕ) =
      (d.proprietary_id, 32) ∷ (d.proprietary_command, 8) ∷ entries 8 values in
    omega (
      arith,
      length-serialize fields,
      length-fields_bits fields,
      total-entries 8 values,
      length-first_words d.data_length d.proprietary_data,
    )

parse_request_wire :
    (r : Request)
    → IsRequest r
    → parse_request true (request_id r) (length (request_wire r)) (request_wire r)
      ≡ ok (request_arrived r)
unfolding IsRequest
parse_request_wire unset h = unfold parse_request request_id request_arrived in refl
parse_request_wire (sr_data d) h = splice_read true _ d
parse_request_wire (timesignal_data t) h =
    unfold parse_request request_id request_wire request_fields request_arrived
      parse_time_signal_request_data in
    simp body_laws
parse_request_wire (dtmf_data d) h = dtmf_read true _ d h
parse_request_wire (segmentation_data d) h = segmentation_read true _ d h
parse_request_wire (avail_descriptor_data d) h = avail_read true _ d h
parse_request_wire (descriptor_data d) h = descriptor_read true _ d h (descriptor_size d)
parse_request_wire (proprietary_data d) h = proprietary_read true _ d h (proprietary_size d)
parse_request_wire (tier_data t) h =
    unfold parse_request request_id request_wire request_fields request_arrived parse_tier_data in
    let e : t % 4096 % 65536 % 4096 ≡ t % 4096 = omega arith in simp (body_laws, e)
parse_request_wire (time_data d) h = time_read true _ d

-- Every request, under the length of its body.
pub parse_request_lem :
    (r : Request)
    → IsRequest r
    → parse_request true (request_id r) (length (request_bytes r)) (request_bytes r)
      ≡ ok (request_arrived r)
parse_request_lem r h = rw (request_bytes-wire r) (parse_request_wire r h)
