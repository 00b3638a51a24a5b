-- ===== src/Scte104/Bodies.antt =====
-- The bodies of the requests: `gen_*` makes the bytes of the fields, `parse_*` reads them back.
use libklvanc.Prelude.{
  ℕ, zero, suc, ◌*◌, ◌≤◌, ◌≡◌, refl, ap, ◌∙◌, List, [], ◌∷◌, ◌++◌, ok, failed, ◌>>=◌, ◌>>◌, Outcome,
  Bool, true, some, Option, leb, length, arith, guard, alloc_or,
}
use libklvanc.Codec.{Alloc}
use libklvanc.Codec.Laws.{Grants, to_packet_bytes-serialize}
use libklvanc.Codec.Serialize.{serialize, serialize-nil}
use libklvanc.Bitstream.Reads.{total, widths, total-append}
use libklvanc.Bitstream.RoundTrip.{length-fields_bits}
use libklvanc.Packet.{first_words}
use libklvanc.Scte104.{
  Request, unset, sr_data, timesignal_data, dtmf_data, segmentation_data, avail_descriptor_data,
  descriptor_data, proprietary_data, tier_data, time_data,
}
use libklvanc.Scte104.Requests.{
  segmentation_front, entries, segmentation_back, array_entries, allocated, generate,
  gen_splice_request_data, gen_splice_null_request_data, gen_time_signal_request_data,
  gen_descriptor_request_data, gen_dtmf_request_data, gen_avail_request_data,
  gen_segmentation_request_data, gen_proprietary_command_request_data, gen_tier_data,
  gen_time_descriptor,
}
use libklvanc.Scte104.Builder.{gen_request, or_empty}
use libklvanc.Scte104.Fields.{request_fields, request_wire, request_bytes-wire}
use libklvanc.Scte104.Arrival.{request_id, IsRequest, request_bytes}

pub length-first_words : (n : ℕ) (xs : List ℕ) → length (first_words n xs) ≡ n
unfolding first_words
length-first_words zero xs = refl
length-first_words (suc n) [] = ap suc (length-first_words n [])
length-first_words (suc n) (x ∷ xs) = ap suc (length-first_words n xs)

-- The number of bits of a run.
pub total-entries : (w : ℕ) (xs : List ℕ) → total (widths (entries w xs)) ≡ w * length xs
total-entries w [] = omega arith
total-entries w (x ∷ xs) = omega (arith, total-entries w xs)

-- The size of a body in bits.
pub body_small : (r : Request) → IsRequest r → total (widths (request_fields r)) ≤ 2040
unfolding IsRequest request_fields
body_small unset h = omega arith
body_small (sr_data d) h = omega arith
body_small (timesignal_data t) h = omega arith
body_small (dtmf_data d) h = omega (
  arith,
  total-entries 8 (first_words d.dtmf_length d.dtmf_char),
  length-first_words d.dtmf_length d.dtmf_char,
)
body_small (segmentation_data d) h = omega (
  arith,
  total-append (entries 8 (first_words d.upid_length d.upid)) (segmentation_back d),
  total-entries 8 (first_words d.upid_length d.upid),
  length-first_words d.upid_length d.upid,
)
body_small (avail_descriptor_data d) h = omega (
  arith,
  total-entries 32 (first_words d.num_provider_avails d.provider_avail_id),
  length-first_words d.num_provider_avails d.provider_avail_id,
)
body_small (descriptor_data d) h = omega (
  arith,
  total-entries 8 (first_words d.total_length d.descriptor_bytes),
  length-first_words d.total_length d.descriptor_bytes,
)
body_small (proprietary_data d) h = omega (
  arith,
  total-entries 8 (first_words d.data_length d.proprietary_data),
  length-first_words d.data_length d.proprietary_data,
)
body_small (tier_data t) h = omega arith
body_small (time_data d) h = omega arith

generated :
    (alloc : Alloc) (fields : List (ℕ × ℕ))
    → Grants 255 alloc
    → total (widths fields) ≤ 2040
    → (rest : List ℕ) × (generate alloc fields
        ≡ ok (serialize fields ++ rest, length (serialize fields)))
generated alloc fields g h =
    to_packet_bytes-serialize alloc (failed 1) 255 fields g
      (omega (arith, length-fields_bits fields))

granted :
    {read : Outcome (List (ℕ × ℕ))} {fields : List (ℕ × ℕ)} {mem : List ℕ}
    (next : List (ℕ × ℕ) → Outcome (List ℕ × ℕ)) (klbs_ok : Bool) (buffer : Option (List ℕ))
    → klbs_ok ≡ true
    → buffer ≡ some mem
    → read ≡ ok fields
    → (do guard klbs_ok (failed 1); _ ← alloc_or (failed 1) buffer; fields' ← read; next fields')
      ≡ next fields
granted next klbs_ok buffer a b c = rw (a, b, c) refl

-- The entries of an array are read after the allocations.
generated_array :
    (alloc : Alloc) {read : Outcome (List (ℕ × ℕ))} (fields : List (ℕ × ℕ))
    → Grants 255 alloc
    → total (widths fields) ≤ 2040
    → read ≡ ok fields
    → (rest : List ℕ) × (allocated alloc read
        ≡ ok (serialize fields ++ rest, length (serialize fields)))
generated_array alloc fields g h e =
    let (rest, e') = generated alloc fields g h in
    (rest, granted (generate alloc) alloc.klbs_ok alloc.buffer g.klbs g.buffer e ∙ e')

array_read :
    (width size count : ℕ) (values : List ℕ) (next : List (ℕ × ℕ) → List (ℕ × ℕ))
    → count ≤ size
    → (array_entries width size count values >>= λ fields. ok (next fields))
      ≡ ok (next (entries width (first_words count values)))
array_read width size count values next h =
    let e : leb count size ≡ true = ground arith in rw e refl

kept :
    {m : Outcome (List ℕ × ℕ)} (fields : List (ℕ × ℕ))
    → (rest : List ℕ) × (m ≡ ok (serialize fields ++ rest, length (serialize fields)))
    → (rest : List ℕ) × (or_empty m
        ≡ ok (some (serialize fields ++ rest, length (serialize fields))))
kept fields (rest, e) = (rest, rw e refl)

gen_request_wire :
    (alloc : Alloc) (r : Request)
    → Grants 255 alloc
    → IsRequest r
    → (rest : List ℕ) × (gen_request alloc (request_id r) r
        ≡ ok (some (request_wire r ++ rest, length (request_wire r))))
unfolding gen_request request_id request_wire request_fields IsRequest gen_splice_request_data
    gen_splice_null_request_data gen_time_signal_request_data gen_descriptor_request_data
    gen_dtmf_request_data gen_avail_request_data gen_segmentation_request_data
    gen_proprietary_command_request_data gen_tier_data gen_time_descriptor
gen_request_wire alloc unset g h = (g.mem, rw (g.buffer, serialize-nil) refl)
gen_request_wire alloc (sr_data d) g h = kept _ (generated alloc _ g (body_small (sr_data d) h))
gen_request_wire alloc (timesignal_data t) g h =
    kept _ (generated alloc _ g (body_small (timesignal_data t) h))
gen_request_wire alloc (dtmf_data d) g h = kept _ (
    generated_array alloc _ g (body_small (dtmf_data d) h) (
      array_read 8 7 d.dtmf_length d.dtmf_char (λ f. (d.pre_roll_time, 8) ∷ (d.dtmf_length, 8) ∷ f)
        h))
gen_request_wire alloc (segmentation_data d) g h = kept _ (
    generated_array alloc _ g (body_small (segmentation_data d) h) (
      array_read 8 255 d.upid_length d.upid
        (λ f. segmentation_front d ++ (f ++ segmentation_back d)) (omega arith)))
gen_request_wire alloc (avail_descriptor_data d) g h = kept _ (
    generated_array alloc _ g (body_small (avail_descriptor_data d) h) (
      array_read 32 255 d.num_provider_avails d.provider_avail_id
        (λ f. (d.num_provider_avails, 8) ∷ f) (omega arith)))
gen_request_wire alloc (descriptor_data d) g h = kept _ (
    generated_array alloc _ g (body_small (descriptor_data d) h) (
      array_read 8 255 d.total_length d.descriptor_bytes (λ f. (d.descriptor_count, 8) ∷ f)
        (omega arith)))
gen_request_wire alloc (proprietary_data d) g h = kept _ (
    generated_array alloc _ g (body_small (proprietary_data d) h) (
      array_read 8 255 d.data_length d.proprietary_data
        (λ f. (d.proprietary_id, 32) ∷ (d.proprietary_command, 8) ∷ f) (omega arith)))
gen_request_wire alloc (tier_data t) g h = kept _ (generated alloc _ g (body_small (tier_data t) h))
gen_request_wire alloc (time_data d) g h = kept _ (generated alloc _ g (body_small (time_data d) h))

-- What the switch makes of a request under its identifier.
pub gen_request_lem :
    (alloc : Alloc) (r : Request)
    → Grants 255 alloc
    → IsRequest r
    → (rest : List ℕ) × (gen_request alloc (request_id r) r
        ≡ ok (some (request_bytes r ++ rest, length (request_bytes r))))
gen_request_lem alloc r g h = rw (request_bytes-wire r) (gen_request_wire alloc r g h)
