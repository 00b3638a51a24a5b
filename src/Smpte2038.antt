-- ===== src/Smpte2038.antt =====
-- src/libklvanc/smpte2038.h and src/smpte2038.c: ancillary packets in the PES packets of SMPTE 2038.
pub mod Parser
pub mod Packetizer
pub mod Encoding
pub mod RoundTrip
use libklvanc.Prelude.{
  ℕ, zero, suc, ◌+◌, ◌*◌, ◌/◌, ◌%◌, ◌^◌, List, [], ◌∷◌, ◌++◌, Outcome, ok, enomem, ◌>>=◌, ◌>>◌,
  Bool, guard, ◌==◌, if◌then◌else◌,
}
use libklvanc.Word.{set_bit, builtin_parity}
use libklvanc.Payload.{copy_bytes}

-- `VANC8`
abbrev pub vanc8 : ℕ → ℕ
vanc8 n = n % 256

-- `struct klvanc_smpte2038_anc_data_line_s`
pub record AncLine : Type 0 where
  pub reserved_000000 : ℕ
  pub c_not_y_channel_flag : ℕ
  pub line_number : ℕ
  pub horizontal_offset : ℕ
  pub did : ℕ
  pub sdid : ℕ
  pub data_count : ℕ
  pub user_data_words : List ℕ
  pub checksum_word : ℕ

-- `struct klvanc_smpte2038_anc_data_packet_s`, without its two members that are never set. `lines` has
-- `lineCount` entries.
pub record AncPacket : Type 0 where
  pub packet_start_code_prefix : ℕ
  pub stream_id : ℕ
  pub pes_packet_length : ℕ
  pub pes_scrambling_control : ℕ
  pub pes_priority : ℕ
  pub data_alignment_indicator : ℕ
  pub copyright : ℕ
  pub original_or_copy : ℕ
  pub pts_dts_flags : ℕ
  pub escr_flag : ℕ
  pub es_rate_flag : ℕ
  pub dsm_trick_mode_flag : ℕ
  pub additional_copy_info_flag : ℕ
  pub pes_crc_flag : ℕ
  pub pes_extension_flag : ℕ
  pub pes_header_data_length : ℕ
  pub pts : ℕ
  pub lines : List AncLine

-- `add_parity`: bits 8 and 9 stay if one of them is set.
unfoldable pub add_parity : ℕ → ℕ
add_parity val =
    if val / 256 % 4 == 0
    then if builtin_parity val == 0 then set_bit val 9 else set_bit val 8
    else val

-- `klvanc_smpte2038_convert_line_to_words`, where the three pointers are not null.
unfoldable pub klvanc_smpte2038_convert_line_to_words : Bool → AncLine → Outcome (List ℕ)
unfolding add_parity copy_bytes
klvanc_smpte2038_convert_line_to_words malloc_ok l = do
  guard malloc_ok enomem
  words ← copy_bytes l.user_data_words (vanc8 l.data_count)
  ok (
      0 ∷ 0x3ff ∷ 0x3ff ∷ add_parity l.did ∷ add_parity l.sdid ∷ add_parity l.data_count ∷ words
      ++ l.checksum_word ∷ [])
