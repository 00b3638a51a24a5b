-- ===== src/Eia708/Sent.antt =====
-- klvanc_convert_EIA_708B_to_packetBytes: the length and the checksum are set in the bytes.
use libklvanc.Prelude.{
  ℕ, zero, suc, ◌+◌, ◌-◌, ◌*◌, ◌%◌, ◌≤◌, ◌≡◌, refl, sym, ap, ◌∙◌, List, [], ◌∷◌, ◌++◌, ok, Bool,
  true, false, assert_then, enomem, arith, length, length-append, if◌then◌else◌, take, set,
  All-append, take-append_left,
}
use mathlib.Core.List.{append_assoc}
use libklvanc.Bitstream.Bits.{
  fields_bits, bits_of, bits_of-append, to_bytes, to_bytes-bits_of, to_bits-mod,
}
use libklvanc.Bitstream.Store.{IsByte}
use libklvanc.Bitstream.Reads.{total, widths, total-append}
use libklvanc.Bitstream.RoundTrip.{length-fields_bits}
use libklvanc.Codec.{Alloc}
use libklvanc.Codec.Laws.{Grants, to_packet_bytes-serialize}
use libklvanc.Codec.Serialize.{serialize, serialize-byte, serialize-word, fields_bits-append}
use libklvanc.Codec.Bytes.{length-serialize, serialize-IsByte, bits_of-serialize_whole}
use libklvanc.Eia708.{Eia708Packet, no_cc_entry, no_service, first_entries}
use libklvanc.Eia708.Parser.{byte_sum}
use libklvanc.Eia708.Builder.{
  cdp_header_fields, cdp_fields, has_time_code, has_ccdata, has_services, cc_fields, service_fields,
  negate, in_arrays, klvanc_convert_eia_708b_to_packet_bytes,
}
use libklvanc.Eia708.Arrival.{cdp_length_of, cdp_front, cdp_checksum, cdp_bytes}
use libklvanc.Eia708.Sections.{
  total_cc, total_services, length-first_entries, time_code_tail, ccdata_tail, ccsvc_tail,
}
use libklvanc.Eia708.Whole.{all_parts, cc_part, services_part, last_part, choose, before}
use libklvanc.Eia708.Bytes.{cdp_parts}

-- Behind whole bytes comes the byte of a field of eight bits.
serialize-snoc :
    (fields : List (ℕ × ℕ)) (v : ℕ)
    → length (fields_bits fields) % 8 ≡ 0
    → serialize (fields ++ (v, 8) ∷ []) ≡ serialize fields ++ v % 256 ∷ []
serialize-snoc fields v h =
    let both : List (ℕ × ℕ) = fields ++ (v, 8) ∷ [] in
    let bits : fields_bits both ≡ fields_bits fields ++ fields_bits ((v, 8) ∷ []) =
      fields_bits-append fields ((v, 8) ∷ []) in
    let one : fields_bits ((v, 8) ∷ []) ≡ bits_of (v % 256 ∷ []) =
      unfold fields_bits bits_of in
      ap (λ (l : List ℕ). l ++ []) (sym (to_bits-mod 8 8 v (omega arith))) in
    let l : length (fields_bits both) % 8 ≡ 0 = omega (
      arith,
      ap (λ (b : List ℕ). length b) bits,
      length-append (fields_bits fields) (fields_bits ((v, 8) ∷ [])),
      length-fields_bits ((v, 8) ∷ []),
    ) in
    sym (to_bytes-bits_of (serialize both) (serialize-IsByte both))
    ∙ ap to_bytes (
        bits_of-serialize_whole both l
        ∙ bits
        ∙ rw (← bits_of-serialize_whole fields h, one)
            (sym (bits_of-append (serialize fields) (v % 256 ∷ []))))
    ∙ to_bytes-bits_of (serialize fields ++ v % 256 ∷ []) (
        All-append IsByte (serialize fields) (v % 256 ∷ []) (serialize-IsByte fields) (omega arith))

-- The number of bytes of the sections.
abbrev pub size_of : Bool → Bool → Bool → ℕ → ℕ → ℕ
size_of t c s n m =
    11 + (if t then 5 else 0) + (if c then 2 + 3 * n else 0) + (if s then 2 + 7 * m else 0)

before_size :
    (b : Bool) (fields : List (ℕ × ℕ)) (next : ℕ) (more : List (ℕ × ℕ))
    → total (widths (before b fields next more))
      ≡ (if b then total (widths fields) + 8 else 0) + total (widths more)
before_size true fields next more = omega (arith, total-append fields ((next, 8) ∷ more))
before_size false fields next more = omega arith

module _ (pkt : Eia708Packet) (len sum : ℕ) where
  ccdata_size : total (widths (ccdata_tail pkt.ccdata)) ≡ 8 + 24 * pkt.ccdata.cc_count
  ccdata_size =
      let cc = first_entries no_cc_entry pkt.ccdata.cc_count pkt.ccdata.cc in
      omega (
        arith,
        total_cc cc [],
        total-append (cc_fields cc) [],
        length-first_entries no_cc_entry pkt.ccdata.cc_count pkt.ccdata.cc,
      )

  ccsvc_size : total (widths (ccsvc_tail pkt.ccsvc)) ≡ 8 + 56 * pkt.ccsvc.svc_count
  ccsvc_size =
      let sv = first_entries no_service pkt.ccsvc.svc_count pkt.ccsvc.svc in
      omega (
        arith,
        total_services sv [],
        total-append (service_fields sv) [],
        length-first_entries no_service pkt.ccsvc.svc_count pkt.ccsvc.svc,
      )

  all_parts-size :
      (t c s : Bool)
      → total (widths (all_parts pkt t c s len sum))
        ≡ 8 * size_of t c s pkt.ccdata.cc_count pkt.ccsvc.svc_count
  unfolding cdp_header_fields
  all_parts-size t c s = ground (
    arith,
    before_size t (time_code_tail pkt.tc) (choose c 0x72 (choose s 0x73 0x74))
        (cc_part pkt t c s len sum),
    before_size c (ccdata_tail pkt.ccdata) (choose s 0x73 0x74) (services_part pkt t c s len sum),
    before_size s (ccsvc_tail pkt.ccsvc) 0x74 (last_part pkt t c s len sum),
    ccdata_size,
    ccsvc_size,
  )

set-append :
    (front rest : List ℕ) (x v n : ℕ)
    → n ≡ length front
    → set (front ++ x ∷ rest) n v ≡ front ++ v ∷ rest
set-append [] rest x v zero e = refl
set-append [] rest x v (suc n) e = absurd (omega arith)
set-append (y ∷ front) rest x v zero e = absurd (omega arith)
set-append (y ∷ front) rest x v (suc n) e = rw (set-append front rest x v n (omega arith))

-- Byte 2 of a CDP is its length.
set_length :
    (pkt : Eia708Packet) (len : ℕ) (rest : List ℕ)
    → set (serialize (cdp_fields 0 pkt) ++ rest) 2 (len % 256)
      ≡ serialize (cdp_fields len pkt) ++ rest
unfolding cdp_fields
set_length pkt len rest = simp (serialize-word, serialize-byte)

module _ (pkt : Eia708Packet) (foot : pkt.footer.cdp_footer_id ≡ 0x74) where
  abbrev pub size : ℕ
  size =
      size_of (has_time_code pkt) (has_ccdata pkt) (has_services pkt) pkt.ccdata.cc_count
        pkt.ccsvc.svc_count

  pub cdp_whole :
      (len sum : ℕ) → length (fields_bits (cdp_fields len pkt ++ (sum, 8) ∷ [])) ≡ 8 * size
  cdp_whole len sum =
      let parts : List (ℕ × ℕ) =
        all_parts pkt (has_time_code pkt) (has_ccdata pkt) (has_services pkt) len sum in
      ap (λ (l : List ℕ). length l) (cdp_parts pkt foot len sum)
      ∙ length-fields_bits parts
      ∙ all_parts-size pkt len sum (has_time_code pkt) (has_ccdata pkt) (has_services pkt)

  cdp_fields-size : (len : ℕ) → length (fields_bits (cdp_fields len pkt)) + 8 ≡ 8 * size
  cdp_fields-size len = omega (
    arith,
    ap (λ (l : List ℕ). length l) (fields_bits-append (cdp_fields len pkt) ((0, 8) ∷ [])),
    length-append (fields_bits (cdp_fields len pkt)) (fields_bits ((0, 8) ∷ [])),
    length-fields_bits ((0, 8) ∷ []),
    cdp_whole len 0,
  )

  length-cdp_fields : (len : ℕ) → length (serialize (cdp_fields len pkt)) + 1 ≡ size
  length-cdp_fields len = omega (arith, length-serialize (cdp_fields len pkt), cdp_fields-size len)

  pub cdp_length_of-size : cdp_length_of pkt ≡ size
  unfolding cdp_length_of
  cdp_length_of-size = length-cdp_fields 0

  pub length-cdp_front : length (cdp_front pkt) + 1 ≡ cdp_length_of pkt
  unfolding cdp_front cdp_length_of
  length-cdp_front = length-cdp_fields (cdp_length_of pkt) ∙ sym (length-cdp_fields 0)

  pub cdp_bytes-serialize :
      cdp_bytes pkt ≡ serialize (cdp_fields (cdp_length_of pkt) pkt ++ (cdp_checksum pkt, 8) ∷ [])
  unfolding cdp_bytes cdp_front
  cdp_bytes-serialize =
      let c : cdp_checksum pkt % 256 ≡ cdp_checksum pkt = unfold cdp_checksum in omega arith in
      sym (
        serialize-snoc (cdp_fields (cdp_length_of pkt) pkt) (cdp_checksum pkt)
          (omega (arith, cdp_fields-size (cdp_length_of pkt)))
        ∙ rw c)

  -- What the two stores make of the bytes that were written.
  stored :
      (b : ℕ) (rest : List ℕ) (count : ℕ)
      → count ≡ cdp_length_of pkt
      → (let sized = set (serialize (cdp_fields 0 pkt) ++ b ∷ rest) 2 (count % 256) in
          set sized (count - 1) (negate (byte_sum (take (count - 1) sized))))
        ≡ cdp_bytes pkt ++ rest
  unfolding cdp_bytes cdp_checksum
  stored b rest count e =
      let front : List ℕ = cdp_front pkt in
      let k : count - 1 ≡ length front = omega (arith, length-cdp_front) in
      let s : set (serialize (cdp_fields 0 pkt) ++ b ∷ rest) 2 (count % 256) ≡ front ++ b ∷ rest =
        set_length pkt count (b ∷ rest) ∙ rw e (unfold cdp_front in refl) in
      let t : take (count - 1) (front ++ b ∷ rest) ≡ front =
        rw k (take-append_left front (b ∷ rest)) in
      rw (s, t)
        (set-append front rest b (negate (byte_sum front)) (count - 1) k
          ∙ sym (append_assoc front (negate (byte_sum front) ∷ []) rest))

  pub convert-cdp_bytes :
      (alloc : Alloc)
      → Grants 255 alloc
      → in_arrays pkt ≡ true
      → size ≤ 255
      → (rest : List ℕ) × (klvanc_convert_eia_708b_to_packet_bytes alloc pkt
          ≡ ok (cdp_bytes pkt ++ rest, cdp_length_of pkt))
  unfolding klvanc_convert_eia_708b_to_packet_bytes
  convert-cdp_bytes alloc g i h =
      let ck : ℕ = pkt.footer.packet_checksum in
      let all : List (ℕ × ℕ) = cdp_fields 0 pkt ++ (ck, 8) ∷ [] in
      let bits = cdp_fields-size 0 in
      let snoc : serialize all ≡ serialize (cdp_fields 0 pkt) ++ ck % 256 ∷ [] =
        serialize-snoc (cdp_fields 0 pkt) ck (omega (arith, bits)) in
      let (rest, e) = to_packet_bytes-serialize alloc enomem 255 all g (
        omega (
          arith,
          bits,
          ap (λ (l : List ℕ). length l) (fields_bits-append (cdp_fields 0 pkt) ((ck, 8) ∷ [])),
          length-append (fields_bits (cdp_fields 0 pkt)) (fields_bits ((ck, 8) ∷ [])),
          length-fields_bits ((ck, 8) ∷ []),
        )) in
      let n : length (serialize all) ≡ cdp_length_of pkt = omega (
        arith,
        ap (λ (l : List ℕ). length l) snoc,
        length-append (serialize (cdp_fields 0 pkt)) (ck % 256 ∷ []),
        length-cdp_fields 0,
        cdp_length_of-size,
      ) in
      let buf : serialize all ++ rest ≡ serialize (cdp_fields 0 pkt) ++ ck % 256 ∷ rest =
        rw snoc (append_assoc (serialize (cdp_fields 0 pkt)) (ck % 256 ∷ []) rest) in
      (
        rest,
        rw (e, buf, n)
            (assert_then (in_arrays pkt) _ i
              ∙ ap (λ (l : List ℕ). ok (l, cdp_length_of pkt))
                  (stored (ck % 256) rest (cdp_length_of pkt) refl)),
      )
