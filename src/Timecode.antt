-- ===== src/Timecode.antt =====
-- src/core-packet-smpte_12_2.c: SMPTE 12-2 ancillary time code.
pub mod Fields
pub mod Back
pub mod Parsed
pub mod Create
pub mod Laws
use libklvanc.Prelude.{
  ℕ, zero, suc, ◌+◌, ◌*◌, ◌/◌, ◌%◌, ◌^◌, List, [], ◌∷◌, ◌++◌, Outcome, ok, err, fault, einval,
  enomem, failed, ◌>>=◌, ◌>>◌, Bool, true, false, ◌==◌, ◌||◌, if◌then◌else◌, guard, Option, none,
  some,
}
use libklvanc.Word.{test_bit, set_bit}
use libklvanc.Packet.{Header}
use libklvanc.Codec.{Alloc, to_packet_bytes, to_words, payload_at}

-- `struct klvanc_packet_smpte_12_2_s` without its copy of the header and the two members that are
-- never used, `payload` and `payloadLengthBytes`.
pub record TimecodePacket : Type 0 where
  pub dbb1 : ℕ
  pub dbb2 : ℕ
  pub vitc_line_select : ℕ
  pub line_duplication_flag : ℕ
  pub tc_validity_flag : ℕ
  pub user_bits_process_flag : ℕ
  pub frames : ℕ
  pub seconds : ℕ
  pub minutes : ℕ
  pub hours : ℕ
  pub flag14 : ℕ
  pub flag15 : ℕ
  pub flag35 : ℕ
  pub flag55 : ℕ
  pub flag74 : ℕ
  pub flag75 : ℕ

-- `dbb |= ((hdr->payload[i] >> 3) & 0x01) << i`, for `rounds` words from word `i` on.
unfoldable pub code_at : ℕ → Header → ℕ → ℕ
code_at zero hdr i = 0
code_at (suc rounds) hdr i = payload_at hdr i / 8 % 2 + 2 * code_at rounds hdr (i + 1)

-- `(hdr->payload[i] >> 4) & 0x0f`
abbrev pub units : Header → ℕ → ℕ
units hdr i = payload_at hdr i / 16 % 16

-- `value` where bit `k` of payload word `i` is set.
abbrev pub if_bit : Header → ℕ → ℕ → ℕ → ℕ
if_bit hdr i k value = if test_bit (payload_at hdr i) k then value else 0

-- ATC_LTC, ATC_VITC1 and ATC_VITC2
abbrev pub is_timecode : ℕ → Bool
is_timecode dbb1 = dbb1 == 0 || dbb1 == 1 || dbb1 == 2

-- The members that parse_SMPTE_12_2 sets.
unfoldable pub parse_timecode : Header → TimecodePacket
unfolding code_at
parse_timecode hdr =
    let dbb1 = code_at 8 hdr 0 in
    let dbb2 = code_at 8 hdr 8 in
    let timed = is_timecode dbb1 in
    record {
      dbb1 = dbb1;
      dbb2 = dbb2;
      vitc_line_select = dbb2 % 32;
      line_duplication_flag = if test_bit dbb2 5 then 1 else 0;
      tc_validity_flag = if test_bit dbb2 6 then 1 else 0;
      user_bits_process_flag = if test_bit dbb2 7 then 1 else 0;
      frames = if timed then units hdr 0 + if_bit hdr 2 4 10 + if_bit hdr 2 5 20 else 0;
      flag14 = if timed then if_bit hdr 2 6 1 else 0;
      flag15 = if timed then if_bit hdr 2 7 1 else 0;
      seconds =
          if timed
          then units hdr 4 + if_bit hdr 6 4 10 + if_bit hdr 6 5 20 + if_bit hdr 6 6 40
          else 0;
      flag35 = if timed then if_bit hdr 6 7 1 else 0;
      minutes =
          if timed
          then units hdr 8 + if_bit hdr 10 4 10 + if_bit hdr 10 5 20 + if_bit hdr 10 6 40
          else 0;
      flag55 = if timed then if_bit hdr 10 7 1 else 0;
      hours = if timed then units hdr 12 + if_bit hdr 14 4 10 + if_bit hdr 14 5 20 else 0;
      flag74 = if timed then if_bit hdr 14 6 1 else 0;
      flag75 = if timed then if_bit hdr 14 7 1 else 0;
    }

-- `parse_SMPTE_12_2`
unfoldable pub parse_smpte_12_2 : Bool → Bool → Header → Outcome (Option TimecodePacket)
unfolding parse_timecode
parse_smpte_12_2 false calloc_ok hdr = ok none
parse_smpte_12_2 true calloc_ok hdr = do
  guard (hdr.payload_length_words == 16) einval
  guard calloc_ok enomem
  ok (some (parse_timecode hdr))

-- A word of units, or of a binary group: four bits, and four zeros.
abbrev pub nibble_word : ℕ → List (ℕ × ℕ)
nibble_word v = (v, 4) ∷ (0, 4) ∷ []

-- A word of two flags and two bits of tens, and one of one flag and three bits of tens.
abbrev pub tens_word2 : ℕ → ℕ → ℕ → List (ℕ × ℕ)
tens_word2 f g v = (f, 1) ∷ (g, 1) ∷ (v / 20 % 2, 1) ∷ (v / 10 % 2, 1) ∷ (0, 4) ∷ []

abbrev pub tens_word3 : ℕ → ℕ → List (ℕ × ℕ)
tens_word3 f v = (f, 1) ∷ (v / 40 % 2, 1) ∷ (v / 20 % 2, 1) ∷ (v / 10 % 2, 1) ∷ (0, 4) ∷ []

-- The calls of klbs_write_bits.
unfoldable pub timecode_fields : TimecodePacket → List (ℕ × ℕ)
timecode_fields pkt =
    if is_timecode pkt.dbb1
    then nibble_word (pkt.frames % 10)
      ++ nibble_word 0
      ++ tens_word2 pkt.flag14 pkt.flag15 pkt.frames
      ++ nibble_word 0
      ++ nibble_word (pkt.seconds % 10)
      ++ nibble_word 0
      ++ tens_word3 pkt.flag35 pkt.seconds
      ++ nibble_word 0
      ++ nibble_word (pkt.minutes % 10)
      ++ nibble_word 0
      ++ tens_word3 pkt.flag55 pkt.minutes
      ++ nibble_word 0
      ++ nibble_word (pkt.hours % 10)
      ++ nibble_word 0
      ++ tens_word2 pkt.flag74 pkt.flag75 pkt.hours
      ++ nibble_word 0
    else []

-- `buf[i] |= ((code >> i) & 0x01) << 3`, for `rounds` bytes behind the first `skip`.
unfoldable pub put_code : ℕ → ℕ → ℕ → List ℕ → Outcome (List ℕ)
put_code zero zero code buf = ok buf
put_code zero (suc rounds) code [] = fault
put_code zero (suc rounds) code (b ∷ buf) =
    put_code zero rounds (code / 2) buf
    >>= (λ rest. ok ((if code % 2 == 1 then set_bit b 3 else b) ∷ rest))
put_code (suc skip) rounds code [] = fault
put_code (suc skip) rounds code (b ∷ buf) =
    put_code skip rounds code buf >>= (λ rest. ok (b ∷ rest))

-- `dbb2 = vitc_line_select` with the three flags, on a `uint8_t`.
unfoldable pub dbb2_of : TimecodePacket → ℕ
dbb2_of pkt =
    let select = pkt.vitc_line_select in
    let duplicated = if pkt.line_duplication_flag == 0 then select else set_bit select 5 in
    let validated = if pkt.tc_validity_flag == 0 then duplicated else set_bit duplicated 6 in
    if pkt.user_bits_process_flag == 0 then validated else set_bit validated 7

-- The packet and the output pointer are not null.
unfoldable pub klvanc_convert_smpte_12_2_to_packet_bytes :
    Alloc → TimecodePacket → Outcome (List ℕ × ℕ)
unfolding timecode_fields put_code dbb2_of
klvanc_convert_smpte_12_2_to_packet_bytes alloc pkt = do
  (buf, byte_count) ← to_packet_bytes alloc (failed 1) 16 (timecode_fields pkt)
  buf' ← put_code 0 8 pkt.dbb1 buf
  buf'' ← put_code 8 8 (dbb2_of pkt) buf'
  ok (buf'', byte_count)

-- Every failure is returned as -1.
unfoldable pub any_failure : {A : Type 0} → Outcome A → Outcome A
any_failure (ok a) = ok a
any_failure (err e) = err (failed 1)
any_failure fault = fault

unfoldable pub klvanc_convert_smpte_12_2_to_words :
    Alloc → TimecodePacket → Outcome (Option (List ℕ))
unfolding klvanc_convert_smpte_12_2_to_packet_bytes any_failure
klvanc_convert_smpte_12_2_to_words alloc pkt =
    any_failure (klvanc_convert_smpte_12_2_to_packet_bytes alloc pkt) >>= to_words alloc 0x60 0x60
