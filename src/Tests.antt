-- ===== src/Tests.antt =====
-- Runs of the definitions on concrete inputs.
mod Captions
mod Carriage
mod Placing
mod Scanning
mod Splice
use libklvanc.Prelude.{
  ℕ, ◌+◌, ◌*◌, ◌/◌, ◌%◌, ◌≡◌, ◌≤◌, refl, List, [], ◌∷◌, ◌++◌, ok, err, enomem, failed, fault, deref,
  ◌>>=◌, Bool, true, false, none, some, ltb, length, take, map, replicate, inl, arith,
}
use libklvanc.Word.{sanitize_word, builtin_parity}
use libklvanc.Bitstream.{
  Klbs, klbs_write_set_buffer, klbs_write_fields, klbs_write_buffer_complete, klbs_read_fields,
  klbs_read_set_buffer,
}
use libklvanc.Bitstream.Bits.{fields_bits, to_bits, to_bytes}
use libklvanc.Bitstream.Writes.{Message, write_message_lem}
use libklvanc.Bitstream.Reads.{widths, field_values}
use libklvanc.Bitstream.RoundTrip.{first, read_fields-write_fields}
use libklvanc.Checksum.{klvanc_checksum_calculate, klvanc_checksum_is_valid}
use libklvanc.Checksum.Laws.{sum, calculate-sum, is_valid_detects}
use libklvanc.Payload.{generate_parity, klvanc_sdi_create_payload}
use libklvanc.Payload.Laws.{generate_parity_even}
use libklvanc.Packet.{Header, parse}
use libklvanc.Packet.RoundTrip.{packet, header_of, parse-create_payload}
use libklvanc.Cache.{CacheEntry, cache_index, empty_line, klvanc_cache_lookup, klvanc_cache_reset}
use libklvanc.Cache.History.{fresh_cache, update_all, times_seen, last_seen, lookup-update_all}
use libklvanc.Cache.Reset.{reset-update_all}
use libklvanc.Codec.{Alloc, to_packet_bytes, to_words}
use libklvanc.Codec.Serialize.{serialize}
use libklvanc.Codec.Laws.{Grants}
use libklvanc.Eia608.{Eia608Packet, klvanc_convert_eia_608_to_words, parse_eia_608}
use libklvanc.Eia608.Laws.{eia_608_bytes, parse_eia_608-convert_eia_608_to_words}
use libklvanc.Counter.{
  CounterPacket, klvanc_convert_kl_u64le_counter_to_words, parse_kl_u64le_counter,
}
use libklvanc.Counter.Laws.{parse_counter-convert_counter_to_words}
use libklvanc.Timecode.{TimecodePacket, klvanc_convert_smpte_12_2_to_words, parse_smpte_12_2}
use libklvanc.Timecode.Back
use libklvanc.Timecode.Back.{read_back}
use libklvanc.Timecode.Create.{
  klvanc_create_smpte_12_2_from_st370, klvanc_smpte_12_2_preferred_line,
}
use libklvanc.Timecode.Create.Laws.{create-IsRepresentable}
use libklvanc.Timecode.Laws.{parse_smpte_12_2-convert_smpte_12_2_to_words}
use libklvanc.Afd.{AfdPacket, aspect_16x9, klvanc_convert_afd_to_words, parse_afd}
use libklvanc.Afd.Laws.{IsRepresentable, parse_afd-convert_afd_to_words}

-- Eleven bits in a buffer of three bytes.
abbrev two_fields : List (ℕ × ℕ)
two_fields = (5, 3) ∷ (0xab, 8) ∷ []

abbrev three_bytes : List ℕ
three_bytes = 7 ∷ 8 ∷ 9 ∷ []

two_fields-fit : length (fields_bits two_fields) ≡ 11
unfolding fields_bits to_bits
two_fields-fit = refl

two_fields-length : length (serialize two_fields) ≡ 2
unfolding serialize fields_bits to_bits to_bytes
two_fields-length = refl

read_fields-write_fields_example :
    (do
      t ← klbs_write_fields (klbs_write_set_buffer three_bytes 3) two_fields
      u ← klbs_write_buffer_complete t
      first (klbs_read_fields (widths two_fields) (klbs_read_set_buffer u.buf u.buflen_used)))
    ≡ ok (field_values two_fields)
read_fields-write_fields_example =
    read_fields-write_fields three_bytes 3 two_fields (omega arith) (omega (arith, two_fields-fit))
      (omega arith) (omega arith)

-- The identifiers, the count, one byte, and the checksum.
abbrev good_words : List ℕ
good_words = 0x241 ∷ 0x205 ∷ 0x101 ∷ 0x17f ∷ []

calculate-sum_example :
    (c : ℕ) × (klvanc_checksum_calculate (good_words ++ []) (length good_words) ≡ ok c)
    × (c % 512 ≡ sum good_words % 512)
    × (c / 512 + c / 256 % 2 ≡ 1)
calculate-sum_example = calculate-sum good_words [] (omega arith)

good_packet :
    klvanc_checksum_is_valid (((0x241 ∷ []) ++ 0x205 ∷ 0x101 ∷ 0x17f ∷ []) ++ 0x2c6 ∷ []) 5
    ≡ ok true
unfolding klvanc_checksum_is_valid klvanc_checksum_calculate
good_packet = refl

is_valid_detects_example :
    klvanc_checksum_is_valid (((0x241 ∷ []) ++ 0x204 ∷ 0x101 ∷ 0x17f ∷ []) ++ 0x2c6 ∷ []) 5
    ≡ ok false
is_valid_detects_example =
    is_valid_detects (0x241 ∷ []) (0x101 ∷ 0x17f ∷ []) [] 0x205 0x204 0x2c6 (omega arith)
      (λ h. omega (arith, h)) good_packet

generate_parity_even_example :
    (generate_parity 0x7f % 256 ≡ 0x7f)
    × (builtin_parity (generate_parity 0x7f % 512) ≡ 0)
    × (generate_parity 0x7f / 512 + generate_parity 0x7f / 256 % 2 ≡ 1)
generate_parity_even_example = generate_parity_even 0x7f (omega arith)

parse-create_payload_example :
    ((do
      words ← klvanc_sdi_create_payload true 5 0x41 (some three_bytes) 3 10
      parse true (words ++ 0x40 ∷ []) 11 0)
      ≡ ok (header_of 5 0x41 three_bytes (take 11 (packet 5 0x41 three_bytes ++ 0x40 ∷ [])), 0))
    × (map sanitize_word (map generate_parity three_bytes) ≡ three_bytes)
parse-create_payload_example =
    parse-create_payload 5 0x41 three_bytes (0x40 ∷ []) 11 0 (λ h. omega (arith, h))
      (λ h. omega (arith, h)) (λ h. omega (arith, h)) (omega arith) (omega arith) (omega arith)
      (omega arith) (omega arith) (omega arith) (omega arith)

-- A packet on line 9, and one on line 10.
abbrev on_line : ℕ → Header
on_line line = record (header_of 5 0x41 three_bytes []) { line_nr = line }

-- The copy of the second one finds no memory.
abbrev seen : List (Bool × Header)
seen = (true, on_line 9) ∷ (false, on_line 10) ∷ (true, on_line 9) ∷ []

lookup-update_all_example :
    (e : CacheEntry) × (klvanc_cache_lookup (some (update_all fresh_cache seen)) 0x41 5 ≡ some e)
    × ((e.lines 9).active ≡ ltb 0 (times_seen 0x41 5 9 seen))
    × ((e.lines 9).pkt ≡ last_seen 0x41 5 9 none seen)
    × ((e.lines 9).count ≡ times_seen 0x41 5 9 seen % 18446744073709551616)
lookup-update_all_example =
    lookup-update_all seen 0x41 5 9 (omega arith) (omega arith) (omega arith)

reset-update_all_example :
    ((klvanc_cache_reset (update_all fresh_cache seen) (cache_index 0x41 5)).active_count ≡ 0)
    × ((klvanc_cache_reset (update_all fresh_cache seen) (cache_index 0x41 5)).lines 9 ≡ empty_line)
reset-update_all_example =
    reset-update_all seen 0x41 5 9 (omega arith) (omega arith) (omega arith) (omega arith)

-- An allocator that has memory.
abbrev plenty : Alloc
plenty = record { klbs_ok = true; buffer = some (replicate 255 0); words_ok = true }

plenty-Grants : Grants 255 plenty
plenty-Grants = record {
  mem = replicate 255 0;
  klbs = refl;
  buffer = refl;
  size = refl;
  words = refl;
}

abbrev letterbox : AfdPacket
letterbox = record {
  aspect_ratio = aspect_16x9;
  afd = 10;
  bar_data_flags = 0x0c;
  top = 300;
  bottom = 500;
  left = 0;
  right = 0;
}

letterbox-IsRepresentable : IsRepresentable letterbox
letterbox-IsRepresentable = record {
  ratio = λ h. cc;
  format = omega arith;
  flags = omega arith;
  top = omega arith;
  bottom = omega arith;
  left = omega arith;
  right = omega arith;
  vertical = λ h. absurd (h refl);
  horizontal = λ h. (refl, refl);
}

parse_afd-convert_afd_to_words_example :
    (do
      words? ← klvanc_convert_afd_to_words plenty letterbox
      words ← deref words?
      (hdr, _) ← parse true words (length words) 0
      parse_afd true true hdr)
    ≡ ok (some letterbox)
parse_afd-convert_afd_to_words_example =
    parse_afd-convert_afd_to_words plenty letterbox 0 plenty-Grants letterbox-IsRepresentable

abbrev captions : Eia608Packet
captions = record { payload = []; field = 0; line_offset = 9; cc_data_1 = 0x94; cc_data_2 = 0x2c }

parse_eia_608-convert_eia_608_to_words_example :
    (do
      words? ← klvanc_convert_eia_608_to_words plenty captions
      words ← deref words?
      (hdr, _) ← parse true words (length words) 0
      parse_eia_608 true true hdr)
    ≡ ok (some (record captions { payload = eia_608_bytes captions }))
parse_eia_608-convert_eia_608_to_words_example =
    parse_eia_608-convert_eia_608_to_words plenty captions 0 plenty-Grants (record {
      field = omega arith;
      line_offset = omega arith;
      cc_data_1 = omega arith;
      cc_data_2 = omega arith;
    })

abbrev counted : CounterPacket
counted = record { counter = 0x0123456789 }

parse_counter-convert_counter_to_words_example :
    (do
      words? ← klvanc_convert_kl_u64le_counter_to_words true counted
      words ← deref words?
      (hdr, _) ← parse true words (length words) 0
      parse_kl_u64le_counter true true hdr)
    ≡ ok (some counted)
parse_counter-convert_counter_to_words_example =
    parse_counter-convert_counter_to_words counted 0 (omega arith)

-- 23:59:59, frame 29, with the drop-frame flag.
abbrev last_frame : TimecodePacket
last_frame = record {
  dbb1 = 1;
  dbb2 = 0;
  vitc_line_select = 14;
  line_duplication_flag = 0;
  tc_validity_flag = 1;
  user_bits_process_flag = 0;
  frames = 29;
  seconds = 59;
  minutes = 59;
  hours = 23;
  flag14 = 1;
  flag15 = 0;
  flag35 = 1;
  flag55 = 0;
  flag74 = 0;
  flag75 = 0;
}

abbrev sixteen : Alloc
sixteen = record { klbs_ok = true; buffer = some (replicate 16 0xff); words_ok = true }

sixteen-Grants : Grants 16 sixteen
sixteen-Grants = record {
  mem = replicate 16 0xff;
  klbs = refl;
  buffer = refl;
  size = refl;
  words = refl;
}

parse_smpte_12_2-convert_smpte_12_2_to_words_example :
    (do
      words? ← klvanc_convert_smpte_12_2_to_words sixteen last_frame
      words ← deref words?
      (hdr, _) ← parse true words (length words) 0
      parse_smpte_12_2 true true hdr)
    ≡ ok (some (read_back last_frame))
parse_smpte_12_2-convert_smpte_12_2_to_words_example =
    parse_smpte_12_2-convert_smpte_12_2_to_words sixteen last_frame 0 sixteen-Grants (record {
      dbb1 = omega arith;
      select = omega arith;
      duplication = omega arith;
      validity = omega arith;
      process = omega arith;
      frames = omega arith;
      seconds = omega arith;
      minutes = omega arith;
      hours = omega arith;
      flag14 = omega arith;
      flag15 = omega arith;
      flag35 = omega arith;
      flag55 = omega arith;
      flag74 = omega arith;
      flag75 = omega arith;
    })

create-IsRepresentable_example :
    (p : TimecodePacket) × (klvanc_create_smpte_12_2_from_st370 true 0x29595923 1001 30000 ≡ ok p)
    × Back.IsRepresentable p
create-IsRepresentable_example = create-IsRepresentable 0x29595923 1001 30000 (omega arith)
