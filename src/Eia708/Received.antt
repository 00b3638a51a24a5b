-- ===== src/Eia708/Received.antt =====
-- What parse_EIA_708B gets of the packet around the bytes of a CDP.
use libklvanc.Prelude.{
  ℕ, ◌+◌, ◌-◌, ◌%◌, ◌^◌, ◌≤◌, ◌<◌, ◌≡◌, refl, ap, ◌∙◌, List, [], ◌∷◌, ◌++◌, map, ok, ◌>>=◌, true,
  ◌==◌, arith, length, length-append, if◌then◌else◌, take, replicate, All, All-append,
  All-replicate, take-append_left, some,
}
use libklvanc.Word.{sanitize_word}
use libklvanc.Bitstream.{Klbs, klbs_read_set_buffer}
use libklvanc.Bitstream.Bits.{fields_bits, bits_of, bits_of-append, length-bits_of}
use libklvanc.Bitstream.ReadBit.{at}
use libklvanc.Bitstream.Store.{IsByte}
use libklvanc.Bitstream.RoundTrip.{read_set_buffer-at}
use libklvanc.Bitstream.Run.{FieldsAt}
use libklvanc.Codec.Bytes.{serialize-IsByte, bits_of-serialize_whole}
use libklvanc.Packet.{Header, first_words}
use libklvanc.Packet.RoundTrip.{header_of, first_words-parity, first_words-pad}
use libklvanc.Eia708.{Eia708Packet, no_time_code, no_ccdata, no_services}
use libklvanc.Eia708.Parser.{byte_sum, read_sections, parse_eia_708b}
use libklvanc.Eia708.Builder.{cdp_fields, has_time_code, has_ccdata, has_services, negate}
use libklvanc.Eia708.Arrival.{
  cdp_length_of, cdp_front, cdp_checksum, cdp_bytes, cdp_arrived, header_arrived, time_code_arrived,
  ccdata_arrived, ccsvc_arrived,
}
use libklvanc.Eia708.Whole.{all_parts, read_sections-Reads}
use libklvanc.Eia708.Bytes.{cdp_parts}
use libklvanc.Eia708.Sent.{cdp_whole, cdp_length_of-size, length-cdp_front, cdp_bytes-serialize}
use libklvanc.Eia708.Widths.{all_parts-AreFields}

-- A CDP with its footer, and as many entries as an array and a count can hold.
pub record IsCdp (pkt : Eia708Packet) : Type 0 where
  pub foot : pkt.footer.cdp_footer_id ≡ 0x74
  pub captions : pkt.ccdata.cc_count ≤ 30
  pub services : pkt.ccsvc.svc_count < 16

byte_sum-snoc : (xs : List ℕ) (c : ℕ) → byte_sum (xs ++ c ∷ []) ≡ (byte_sum xs + c) % 256
unfolding byte_sum
byte_sum-snoc [] c = omega arith
byte_sum-snoc (x ∷ xs) c = omega (arith, byte_sum-snoc xs c)

byte_sum-lt : (xs : List ℕ) → byte_sum xs < 256
unfolding byte_sum
byte_sum-lt [] = omega arith
byte_sum-lt (x ∷ xs) = omega arith

-- The bytes of a CDP add up to 0.
pub cdp_bytes-sum : (pkt : Eia708Packet) → byte_sum (cdp_bytes pkt) ≡ 0
unfolding cdp_bytes cdp_checksum
cdp_bytes-sum pkt =
    byte_sum-snoc (cdp_front pkt) (negate (byte_sum (cdp_front pkt)))
    ∙ omega (arith, byte_sum-lt (cdp_front pkt))

parse_from :
    (hdr : Header) (bs : Klbs) {a : Eia708Packet}
    → read_sections (map sanitize_word (first_words 256 hdr.payload)) hdr.payload_length_words (
        klbs_read_set_buffer
          (map sanitize_word (first_words 256 hdr.payload))
          hdr.payload_length_words)
      ≡ ok (a, bs)
    → parse_eia_708b true true true hdr ≡ ok (some a)
unfolding parse_eia_708b
parse_from hdr bs e = ap (λ m. m >>= λ r. ok (some r.0)) e

module _ (pkt : Eia708Packet) (i : IsCdp pkt) where
  abbrev bytes : List ℕ
  bytes = cdp_bytes pkt

  pub cdp_size :
      (length (cdp_bytes pkt) ≡ cdp_length_of pkt)
      × (length (cdp_bytes pkt) ≤ 255)
      × (11 ≤ length (cdp_bytes pkt))
  unfolding cdp_bytes
  cdp_size =
      let l = length-append (cdp_front pkt) (cdp_checksum pkt ∷ []) in
      let f = length-cdp_front pkt i.foot in
      let n = cdp_length_of-size pkt i.foot in
      let e : length (cdp_front pkt ++ cdp_checksum pkt ∷ []) ≡ cdp_length_of pkt =
        omega (arith, l, f) in
      (e, ground (arith, e, n, i.captions, i.services), ground (arith, e, n))

  cdp_bits :
      bits_of (cdp_bytes pkt)
      ≡ fields_bits (
          all_parts pkt
            (has_time_code pkt)
            (has_ccdata pkt)
            (has_services pkt)
            (cdp_length_of pkt)
            (cdp_checksum pkt))
  cdp_bits =
      let all : List (ℕ × ℕ) = cdp_fields (cdp_length_of pkt) pkt ++ (cdp_checksum pkt, 8) ∷ [] in
      ap bits_of (cdp_bytes-serialize pkt i.foot)
      ∙ bits_of-serialize_whole all
          (omega (arith, cdp_whole pkt i.foot (cdp_length_of pkt) (cdp_checksum pkt)))
      ∙ cdp_parts pkt i.foot (cdp_length_of pkt) (cdp_checksum pkt)

  abbrev zeros : List ℕ
  zeros = replicate (256 - length (cdp_bytes pkt)) 0

  cdp_buffer : first_words 256 (cdp_bytes pkt) ≡ cdp_bytes pkt ++ zeros
  cdp_buffer =
      first_words-pad 256 (256 - length (cdp_bytes pkt)) (cdp_bytes pkt) (omega (arith, cdp_size.1))

  cdp_bytes-IsByte : All IsByte (cdp_bytes pkt)
  cdp_bytes-IsByte =
      rw (cdp_bytes-serialize pkt i.foot)
        (serialize-IsByte (cdp_fields (cdp_length_of pkt) pkt ++ (cdp_checksum pkt, 8) ∷ []))

  cdp_FieldsAt :
      FieldsAt
        (cdp_bytes pkt ++ zeros)
        (length (cdp_bytes pkt))
        0
        (all_parts pkt
          (has_time_code pkt)
          (has_ccdata pkt)
          (has_services pkt)
          (cdp_length_of pkt)
          (cdp_checksum pkt))
        (bits_of zeros)
  cdp_FieldsAt = record {
    follow =
        bits_of-append (cdp_bytes pkt) zeros ∙ ap (λ (l : List ℕ). l ++ bits_of zeros) cdp_bits;
    fits = omega (arith, ap (λ (l : List ℕ). length l) cdp_bits, length-bits_of (cdp_bytes pkt));
    owned = omega (arith, length-append (cdp_bytes pkt) zeros);
    bytes =
        All-append IsByte (cdp_bytes pkt) zeros cdp_bytes-IsByte
          (All-replicate IsByte (256 - length (cdp_bytes pkt)) 0 (omega arith));
    small =
        all_parts-AreFields pkt (has_time_code pkt) (has_ccdata pkt) (has_services pkt)
          (cdp_length_of pkt) (cdp_checksum pkt);
  }

  abbrev as_read : Eia708Packet
  as_read = record {
    payload = cdp_bytes pkt ++ zeros;
    payload_length_bytes = length (cdp_bytes pkt);
    checksum_valid = byte_sum (take (length (cdp_bytes pkt)) (cdp_bytes pkt ++ zeros)) == 0;
    header = header_arrived (cdp_length_of pkt) pkt.header;
    tc = if has_time_code pkt then time_code_arrived pkt.tc else no_time_code;
    ccdata = if has_ccdata pkt then ccdata_arrived pkt.ccdata else no_ccdata;
    ccsvc = if has_services pkt then ccsvc_arrived pkt.ccsvc else no_services;
    footer = record {
      cdp_footer_id = 0x74;
      cdp_ftr_sequence_cntr = pkt.footer.cdp_ftr_sequence_cntr % 2 ^ 16;
      packet_checksum = cdp_checksum pkt % 2 ^ 8;
    };
  }

  as_read-arrived : as_read ≡ cdp_arrived pkt
  unfolding cdp_arrived
  as_read-arrived =
      let sum : byte_sum (take (length (cdp_bytes pkt)) (cdp_bytes pkt ++ zeros)) ≡ 0 =
        rw (take-append_left (cdp_bytes pkt) zeros) (cdp_bytes-sum pkt) in
      let c : cdp_checksum pkt % 2 ^ 8 ≡ cdp_checksum pkt = unfold cdp_checksum in omega arith in
      rw (sum, c, ← cdp_buffer, cdp_size.0) refl

  pub cdp_parsed :
      (raw : List ℕ)
      → parse_eia_708b true true true (header_of 1 0x61 (cdp_bytes pkt) raw)
        ≡ ok (some (cdp_arrived pkt))
  cdp_parsed raw =
      let n : ℕ = length (cdp_bytes pkt) in
      let r =
        read_sections-Reads (omega (arith, cdp_size.1)) pkt (has_time_code pkt) (has_ccdata pkt)
          (has_services pkt) (cdp_length_of pkt) (cdp_checksum pkt) i.captions i.services
          cdp_FieldsAt in
      parse_from (header_of 1 0x61 (cdp_bytes pkt) raw) (at (cdp_bytes pkt ++ zeros) n r.end) (
        unfold header_of in
        (ap (λ (l : List ℕ). read_sections l n (klbs_read_set_buffer l n))
            (first_words-parity 256 (cdp_bytes pkt) cdp_bytes-IsByte ∙ cdp_buffer)
          ∙ ap (λ bs. read_sections (cdp_bytes pkt ++ zeros) n bs)
              (read_set_buffer-at (cdp_bytes pkt ++ zeros) n)
          ∙ r.result
          ∙ ap (λ (a : Eia708Packet). ok (a, at (cdp_bytes pkt ++ zeros) n r.end)) as_read-arrived))
