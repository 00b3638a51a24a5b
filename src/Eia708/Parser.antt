-- ===== src/Eia708/Parser.antt =====
-- parse_EIA_708B of src/core-packet-eia_708b.c.
use libklvanc.Prelude.{
  ℕ, zero, suc, ◌+◌, ◌*◌, ◌%◌, List, [], ◌∷◌, map, Outcome, ok, enomem, ◌>>=◌, ◌>>◌, Bool, true,
  false, ltb, ◌==◌, not, if◌then◌else◌, guard, assert, Option, none, some, take,
}
use libklvanc.Word.{test_bit, sanitize_word}
use libklvanc.Bitstream.{Klbs, klbs_read_set_buffer, klbs_read_bits, klbs_get_byte_count_free}
use libklvanc.Packet.{Header, first_words}
use libklvanc.Eia708.{
  CdpHeader, TimeCodeSection, CcEntry, max_cc_count, CcDataSection, ServiceEntry, ServiceSection,
  CdpFooter, Eia708Packet, no_time_code, no_ccdata, no_services, no_footer,
}

-- `if (klbs_get_byte_count_free(bs) < k)`: the packet is given up.
abbrev pub need : ℕ → Klbs → Outcome (Unit {0})
need k bs = guard (not (ltb (klbs_get_byte_count_free bs) k)) enomem

unfoldable pub read_header : Klbs → Outcome (CdpHeader × Klbs)
read_header bs = do
  need 7 bs
  (identifier, bs) ← klbs_read_bits 16 bs
  (cdp_length, bs) ← klbs_read_bits 8 bs
  (rate, bs) ← klbs_read_bits 4 bs
  (_, bs) ← klbs_read_bits 4 bs
  (time_code, bs) ← klbs_read_bits 1 bs
  (ccdata, bs) ← klbs_read_bits 1 bs
  (svcinfo, bs) ← klbs_read_bits 1 bs
  (start, bs) ← klbs_read_bits 1 bs
  (change, bs) ← klbs_read_bits 1 bs
  (complete, bs) ← klbs_read_bits 1 bs
  (active, bs) ← klbs_read_bits 1 bs
  (_, bs) ← klbs_read_bits 1 bs
  (sequence, bs) ← klbs_read_bits 16 bs
  ok (
    record {
      cdp_identifier = identifier;
      cdp_length = cdp_length;
      cdp_frame_rate = rate;
      time_code_present = time_code;
      ccdata_present = ccdata;
      svcinfo_present = svcinfo;
      svc_info_start = start;
      svc_info_change = change;
      svc_info_complete = complete;
      caption_service_active = active;
      cdp_hdr_sequence_cntr = sequence;
    },
    bs,
  )

-- Each section is read if its identifier came last; the next identifier is read behind it.
unfoldable pub read_time_code : ℕ → Klbs → Outcome ((TimeCodeSection × ℕ) × Klbs)
read_time_code id bs = elim (id == 0x71) [
  | false ↦ ok ((no_time_code, id), bs)
  | true ↦ do
    need 5 bs
    (_, bs) ← klbs_read_bits 2 bs
    (hrs10, bs) ← klbs_read_bits 2 bs
    (hrs1, bs) ← klbs_read_bits 4 bs
    (_, bs) ← klbs_read_bits 1 bs
    (min10, bs) ← klbs_read_bits 3 bs
    (min1, bs) ← klbs_read_bits 4 bs
    (field, bs) ← klbs_read_bits 1 bs
    (sec10, bs) ← klbs_read_bits 3 bs
    (sec1, bs) ← klbs_read_bits 4 bs
    (drop_frame, bs) ← klbs_read_bits 1 bs
    (_, bs) ← klbs_read_bits 1 bs
    (fr10, bs) ← klbs_read_bits 2 bs
    (fr1, bs) ← klbs_read_bits 4 bs
    (next, bs) ← klbs_read_bits 8 bs
    ok (
      (
        record {
          time_code_section_id = id;
          tc_10hrs = hrs10;
          tc_1hrs = hrs1;
          tc_10min = min10;
          tc_1min = min1;
          tc_field_flag = field;
          tc_10sec = sec10;
          tc_1sec = sec1;
          drop_frame_flag = drop_frame;
          tc_10fr = fr10;
          tc_1fr = fr1;
        },
        next,
      ),
      bs,
    )
]

-- The loop over the caption entries.
unfoldable pub read_cc : ℕ → Klbs → Outcome (List CcEntry × Klbs)
read_cc zero bs = ok ([], bs)
read_cc (suc n) bs = do
  (_, bs) ← klbs_read_bits 5 bs
  (valid, bs) ← klbs_read_bits 1 bs
  (type, bs) ← klbs_read_bits 2 bs
  (data_0, bs) ← klbs_read_bits 8 bs
  (data_1, bs) ← klbs_read_bits 8 bs
  (entries, bs) ← read_cc n bs
  ok (
    record { cc_valid = valid; cc_type = type; cc_data_0 = data_0; cc_data_1 = data_1 } ∷ entries,
    bs,
  )

-- The entries, and the identifier behind them. An entry behind the end of the array is stored outside
-- it.
unfoldable pub read_cc_entries : ℕ → Klbs → Outcome ((List CcEntry × ℕ) × Klbs)
unfolding read_cc
read_cc_entries count bs = do
  need (count * 3) bs
  assert (not (ltb max_cc_count count))
  (entries, bs) ← read_cc count bs
  (next, bs) ← klbs_read_bits 8 bs
  ok ((entries, next), bs)

unfoldable pub read_ccdata : ℕ → Klbs → Outcome ((CcDataSection × ℕ) × Klbs)
unfolding read_cc_entries
read_ccdata id bs = elim (id == 0x72) [
  | false ↦ ok ((no_ccdata, id), bs)
  | true ↦ do
    need 2 bs
    (_, bs) ← klbs_read_bits 3 bs
    (count, bs) ← klbs_read_bits 5 bs
    ((entries, next), bs) ← read_cc_entries count bs
    ok ((record { ccdata_id = id; cc_count = count; cc = entries }, next), bs)
]

-- The members of a service entry out of its number and its six bytes.
unfoldable pub service_entry : ℕ → ℕ → ℕ → ℕ → ℕ → ℕ → ℕ → ServiceEntry
service_entry number b0 b1 b2 b3 b4 b5 = record {
  caption_service_number = number;
  svc_data_byte = b0 ∷ b1 ∷ b2 ∷ b3 ∷ b4 ∷ b5 ∷ [];
  language = b0 ∷ b1 ∷ b2 ∷ 0 ∷ [];
  digital_cc = if test_bit b3 7 then 1 else 0;
  csn = if test_bit b3 7 then b3 % 64 else 0;
  line21_field = if test_bit b3 7 then 0 else b3 % 2;
  easy_reader = if test_bit b4 7 then 1 else 0;
  wide_aspect_ratio = if test_bit b4 6 then 1 else 0;
}

unfoldable pub read_services : ℕ → Klbs → Outcome (List ServiceEntry × Klbs)
unfolding service_entry
read_services zero bs = ok ([], bs)
read_services (suc n) bs = do
  (_, bs) ← klbs_read_bits 3 bs
  (number, bs) ← klbs_read_bits 5 bs
  (b0, bs) ← klbs_read_bits 8 bs
  (b1, bs) ← klbs_read_bits 8 bs
  (b2, bs) ← klbs_read_bits 8 bs
  (b3, bs) ← klbs_read_bits 8 bs
  (b4, bs) ← klbs_read_bits 8 bs
  (b5, bs) ← klbs_read_bits 8 bs
  (entries, bs) ← read_services n bs
  ok (service_entry number b0 b1 b2 b3 b4 b5 ∷ entries, bs)

unfoldable pub read_service_entries : ℕ → Klbs → Outcome ((List ServiceEntry × ℕ) × Klbs)
unfolding read_services
read_service_entries count bs = do
  need (count * 7) bs
  (entries, bs) ← read_services count bs
  (next, bs) ← klbs_read_bits 8 bs
  ok ((entries, next), bs)

unfoldable pub read_ccsvc : ℕ → Klbs → Outcome ((ServiceSection × ℕ) × Klbs)
unfolding read_service_entries
read_ccsvc id bs = elim (id == 0x73) [
  | false ↦ ok ((no_services, id), bs)
  | true ↦ do
    need 3 bs
    (_, bs) ← klbs_read_bits 1 bs
    (start, bs) ← klbs_read_bits 1 bs
    (change, bs) ← klbs_read_bits 1 bs
    (complete, bs) ← klbs_read_bits 1 bs
    (count, bs) ← klbs_read_bits 4 bs
    ((entries, next), bs) ← read_service_entries count bs
    ok (
      (
        record {
          ccsvcinfo_id = id;
          svc_info_start = start;
          svc_info_change = change;
          svc_info_complete = complete;
          svc_count = count;
          svc = entries;
        },
        next,
      ),
      bs,
    )
]

unfoldable pub read_footer : ℕ → Klbs → Outcome (CdpFooter × Klbs)
read_footer id bs = elim (id == 0x74) [
  | false ↦ ok (no_footer, bs)
  | true ↦ do
    need 3 bs
    (sequence, bs) ← klbs_read_bits 16 bs
    (sum, bs) ← klbs_read_bits 8 bs
    ok (record { cdp_footer_id = id; cdp_ftr_sequence_cntr = sequence; packet_checksum = sum }, bs)
]

-- `sum` over the bytes of the packet, on `uint8_t`.
unfoldable pub byte_sum : List ℕ → ℕ
byte_sum [] = 0
byte_sum (b ∷ bytes) = (b + byte_sum bytes) % 256

-- From the header to the footer; `payload` is the buffer of 256 bytes.
unfoldable pub read_sections : List ℕ → ℕ → Klbs → Outcome (Eia708Packet × Klbs)
unfolding read_header read_time_code read_ccdata read_ccsvc read_footer byte_sum
read_sections payload count bs = do
  (header, bs) ← read_header bs
  need 1 bs
  (id, bs) ← klbs_read_bits 8 bs
  ((tc, id), bs) ← read_time_code id bs
  ((ccdata, id), bs) ← read_ccdata id bs
  ((ccsvc, id), bs) ← read_ccsvc id bs
  (footer, bs) ← read_footer id bs
  ok (
    record {
      payload = payload;
      payload_length_bytes = count;
      checksum_valid = byte_sum (take count payload) == 0;
      header = header;
      tc = tc;
      ccdata = ccdata;
      ccsvc = ccsvc;
      footer = footer;
    },
    bs,
  )

-- `parse_EIA_708B`: without a callback nothing is done. What the callback gets is the result.
unfoldable pub parse_eia_708b : Bool → Bool → Bool → Header → Outcome (Option Eia708Packet)
unfolding read_sections
parse_eia_708b false klbs_ok calloc_ok hdr = ok none
parse_eia_708b true klbs_ok calloc_ok hdr = do
  guard klbs_ok enomem
  guard calloc_ok enomem
  let payload = map sanitize_word (first_words 256 hdr.payload)
  let count = hdr.payload_length_words
  (pkt, _) ← read_sections payload count (klbs_read_set_buffer payload count)
  ok (some pkt)
