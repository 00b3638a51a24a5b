-- ===== src/Smpte2038/Parser.antt =====
-- The parser of src/smpte2038.c: the lines of a PES payload, and the header of a PES packet.
pub mod Step
pub mod Lines
pub mod Front
use libklvanc.Prelude.{
  ℕ, zero, suc, ◌+◌, ◌-◌, ◌*◌, ◌/◌, ◌%◌, ◌^◌, List, [], ◌∷◌, ◌++◌, Outcome, ok, err, fault, Error,
  failed, out_of_fuel, ◌>>=◌, ◌>>◌, Bool, true, false, ltb, ◌==◌, ◌&&◌, ◌||◌, not, if◌then◌else◌,
  guard, assert, length, replicate,
}
use libklvanc.Bitstream.{
  Klbs, klbs_read_set_buffer, klbs_read_bits, klbs_read_bit, klbs_read_fields, klbs_peek_bits,
  klbs_read_byte_stuff, klbs_get_byte_count_free,
}
use libklvanc.Smpte2038.{AncLine, AncPacket, vanc8}

-- `rem > 4`, on an `int` that holds `rem`.
unfoldable pub over_four : ℕ → Bool
over_four rem = ltb 4 rem && ltb rem (2 ^ 31)

-- `while (rem && klbs_peek_bits(bs, 1) == 1) { rem = ...; klbs_read_bit(bs); }`. The count is taken
-- before the bit is read.
unfoldable pub flush_stuffing : ℕ → ℕ → Klbs → Outcome (ℕ × Klbs)
flush_stuffing zero rem bs = err out_of_fuel
flush_stuffing (suc fuel) rem bs =
    if rem == 0
    then ok (rem, bs)
    else klbs_peek_bits 1 bs >>= (λ bit. elim (bit == 1) [
      | true ↦ klbs_read_bit bs >>= (λ r. flush_stuffing fuel (klbs_get_byte_count_free bs) r.1)
      | false ↦ ok (rem, bs)
    ])

-- What follows a line: the rest of its last byte is skipped, and where there was none, stuffing. A
-- round reads a bit, and a context that is past its buffer fails: `8 * buflen + 16` rounds are enough.
unfoldable pub skip_stuffing : Klbs → Outcome (ℕ × Klbs)
unfolding flush_stuffing
skip_stuffing bs = klbs_read_byte_stuff bs >>= (λ bs'.
    if (bs.reg_used == 0) && not (klbs_get_byte_count_free bs' == 0)
    then flush_stuffing (8 * bs'.buflen + 16) (klbs_get_byte_count_free bs') bs'
    else ok (klbs_get_byte_count_free bs', bs'))

-- The time stamp, in its three parts.
unfoldable pub read_pts : Klbs → Outcome (ℕ × Klbs)
read_pts bs = do
  (a, bs) ← klbs_read_bits 3 bs
  (_, bs) ← klbs_read_bits 1 bs
  (b, bs) ← klbs_read_bits 15 bs
  (_, bs) ← klbs_read_bits 1 bs
  (c, bs) ← klbs_read_bits 15 bs
  (_, bs) ← klbs_read_bits 1 bs
  ok (a * 2 ^ 30 + b * 2 ^ 15 + c, bs)

-- The members up to the time stamp, each test after the last of its reads.
unfoldable pub read_pes_header : Klbs → Outcome (AncPacket × Klbs)
unfolding read_pts
read_pes_header bs = do
  (prefix, bs) ← klbs_read_bits 24 bs
  guard (prefix == 1) (failed 1)
  (stream_id, bs) ← klbs_read_bits 8 bs
  guard (stream_id == 0xbd) (failed 1)
  (packet_length, bs) ← klbs_read_bits 16 bs
  (_, bs) ← klbs_read_bits 2 bs
  (scrambling, bs) ← klbs_read_bits 2 bs
  guard (scrambling == 0) (failed 1)
  (priority, bs) ← klbs_read_bits 1 bs
  (alignment, bs) ← klbs_read_bits 1 bs
  (copyright, bs) ← klbs_read_bits 1 bs
  (original, bs) ← klbs_read_bits 1 bs
  (pts_dts, bs) ← klbs_read_bits 2 bs
  (escr, bs) ← klbs_read_bits 1 bs
  (es_rate, bs) ← klbs_read_bits 1 bs
  (trick_mode, bs) ← klbs_read_bits 1 bs
  (copy_info, bs) ← klbs_read_bits 1 bs
  (crc, bs) ← klbs_read_bits 1 bs
  (extension, bs) ← klbs_read_bits 1 bs
  guard
      (pts_dts == 2
        && escr == 0
        && es_rate == 0
        && trick_mode == 0
        && copy_info == 0
        && crc == 0
        && extension == 0)
      (failed 1)
  (data_length, bs) ← klbs_read_bits 8 bs
  (_, bs) ← klbs_read_bits 4 bs
  guard (data_length == 5) (failed 1)
  (pts, bs) ← read_pts bs
  ok (
    record {
      packet_start_code_prefix = prefix;
      stream_id = stream_id;
      pes_packet_length = packet_length;
      pes_scrambling_control = scrambling;
      pes_priority = priority;
      data_alignment_indicator = alignment;
      copyright = copyright;
      original_or_copy = original;
      pts_dts_flags = pts_dts;
      escr_flag = escr;
      es_rate_flag = es_rate;
      dsm_trick_mode_flag = trick_mode;
      additional_copy_info_flag = copy_info;
      pes_crc_flag = crc;
      pes_extension_flag = extension;
      pes_header_data_length = data_length;
      pts = pts;
      lines = [];
    },
    bs,
  )

-- `realloc k` and `calloc k` say whether memory is found for line `k` and for its words. Neither is
-- tested: a line is cleared, and words are stored, through a null pointer.
module _ (realloc calloc : ℕ → Bool) where
  -- One line, of which `goto err` is the failure.
  unfoldable pub read_line : ℕ → Klbs → Outcome (AncLine × Klbs)
  read_line k bs = do
    assert (realloc k)
    (reserved, bs) ← klbs_read_bits 6 bs
    guard (reserved == 0) (failed 1)
    (c_not_y, bs) ← klbs_read_bits 1 bs
    guard (c_not_y == 0) (failed 1)
    (line_number, bs) ← klbs_read_bits 11 bs
    (offset, bs) ← klbs_read_bits 12 bs
    (did, bs) ← klbs_read_bits 10 bs
    (sdid, bs) ← klbs_read_bits 10 bs
    (data_count, bs) ← klbs_read_bits 10 bs
    guard (not (ltb (klbs_get_byte_count_free bs) ((vanc8 data_count + 1) * 10 / 8))) (failed 1)
    assert (calloc k || vanc8 data_count == 0)
    (words, bs) ← klbs_read_fields (replicate (vanc8 data_count) 10) bs
    (checksum, bs) ← klbs_read_bits 10 bs
    ok (
      record {
        reserved_000000 = reserved;
        c_not_y_channel_flag = c_not_y;
        line_number = line_number;
        horizontal_offset = offset;
        did = did;
        sdid = sdid;
        data_count = data_count;
        user_data_words = words;
        checksum_word = checksum;
      },
      bs,
    )

  -- The loop, after `lines`. The result is whether the function returns 0, and the lines; the line
  -- that fails is not counted.
  unfoldable pub parse_loop : ℕ → ℕ → Klbs → List AncLine → Outcome (Bool × List AncLine)
  unfolding read_line skip_stuffing
  parse_loop zero rem bs lines = err out_of_fuel
  parse_loop (suc fuel) rem bs lines = elim (over_four rem) [
    | false ↦ ok (true, lines)
    | true ↦ elim (read_line (length lines) bs) [
      | fault ↦ fault
      | err e ↦ ok (false, lines)
      | ok r ↦ skip_stuffing r.1 >>= (λ s. parse_loop fuel s.0 s.1 (lines ++ r.0 ∷ []))
    ]
  ]

  -- `smpte2038_parse_pes_payload_int`. A line takes bytes: `buflen + 1` rounds are enough.
  unfoldable pub parse_pes_payload_int : Klbs → Outcome (Bool × List AncLine)
  unfolding parse_loop
  parse_pes_payload_int bs = parse_loop (bs.buflen + 1) (klbs_get_byte_count_free bs) bs []

  -- `klvanc_smpte2038_parse_pes_payload`. The packet is given back whatever is returned; all its
  -- members but the lines are 0.
  unfoldable pub klvanc_smpte2038_parse_pes_payload :
      Bool → Bool → List ℕ → ℕ → Outcome (Bool × List AncLine)
  unfolding parse_pes_payload_int
  klvanc_smpte2038_parse_pes_payload klbs_ok calloc_ok payload byte_count = do
    guard klbs_ok (failed 1)
    guard calloc_ok (failed 1)
    parse_pes_payload_int (klbs_read_set_buffer payload byte_count)

  -- `klvanc_smpte2038_parse_pes_packet`. A header that is refused gives no packet.
  unfoldable pub klvanc_smpte2038_parse_pes_packet :
      Bool → Bool → List ℕ → ℕ → Outcome (Bool × AncPacket)
  unfolding read_pes_header parse_pes_payload_int
  klvanc_smpte2038_parse_pes_packet klbs_ok calloc_ok section byte_count = do
    guard klbs_ok (failed 1)
    guard calloc_ok (failed 1)
    (h, bs) ← read_pes_header (klbs_read_set_buffer section byte_count)
    (success, lines) ← parse_pes_payload_int bs
    ok (success, record h { lines = lines })
