-- ===== src/Smpte2038/Parser/Front.antt =====
-- read_pes_header, where the header of the packetizer follows.
use libklvanc.Prelude.{ℕ, ◌+◌, ◌*◌, ◌/◌, ◌%◌, ◌^◌, ◌≡◌, refl, ap, List, [], ok, arith}
use libklvanc.Bitstream.ReadBit.{at}
use libklvanc.Bitstream.Run.{FieldsAt, read_then}
use libklvanc.Smpte2038.{AncPacket}
use libklvanc.Smpte2038.Packetizer.{pts_fields, flag_fields, header_fields}
use libklvanc.Smpte2038.Parser.{read_pts, read_pes_header}

-- The header that the packetizer writes, as it is read.
unfoldable pub front_of : ℕ → ℕ → AncPacket
front_of len pts = record {
  packet_start_code_prefix = 1;
  stream_id = 0xbd;
  pes_packet_length = len % 2 ^ 16;
  pes_scrambling_control = 0;
  pes_priority = 0;
  data_alignment_indicator = 1;
  copyright = 0;
  original_or_copy = 0;
  pts_dts_flags = 2;
  escr_flag = 0;
  es_rate_flag = 0;
  dsm_trick_mode_flag = 0;
  additional_copy_info_flag = 0;
  pes_crc_flag = 0;
  pes_extension_flag = 0;
  pes_header_data_length = 5;
  pts = pts % 2 ^ 33;
  lines = [];
}

module _ {mem : List ℕ} {n : ℕ} {rest : List ℕ} where
  read_pts-next :
      (pts : ℕ)
      → FieldsAt mem n 76 (pts_fields pts) rest
      → read_pts (at mem n 76) ≡ ok (pts % 2 ^ 33, at mem n 112)
  unfolding read_pts pts_fields
  read_pts-next pts f =
      let e : pts / 2 ^ 30 % 2 ^ 3 * 2 ^ 30
            + pts / 2 ^ 15 % 2 ^ 15 % 2 ^ 15 * 2 ^ 15
            + pts % 2 ^ 15 % 2 ^ 15
          ≡ pts % 2 ^ 33 =
        omega arith in
      read_then f _ (λ f. read_then f _ (λ f. read_then f _ (λ f.
        read_then f _
          (λ f. read_then f _ (λ f. read_then f _ (λ f. ap (λ t. ok (t, at mem n 112)) e))))))

  pub read_pes_header-front :
      (len pts : ℕ)
      → FieldsAt mem n 0 (header_fields len pts) rest
      → read_pes_header (at mem n 0) ≡ ok (front_of len pts, at mem n 112)
  unfolding read_pes_header header_fields flag_fields front_of
  read_pes_header-front len pts f = read_then f _ (λ f. read_then f _ (λ f. read_then f _ (λ f.
      read_then f _ (λ f. read_then f _ (λ f. read_then f _ (λ f. read_then f _ (λ f.
        read_then f _ (λ f. read_then f _ (λ f. read_then f _ (λ f. read_then f _ (λ f.
          read_then f _ (λ f. read_then f _ (λ f. read_then f _ (λ f. read_then f _ (λ f.
            read_then f _ (λ f.
              read_then f _
                (λ f. read_then f _ (λ f. rw (read_pts-next pts f) refl))))))))))))))))))
