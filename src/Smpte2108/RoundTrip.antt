-- ===== src/Smpte2108/RoundTrip.antt =====
-- Frames that are sent are parsed by parse_SMPTE_2108_1.
use libklvanc.Prelude.{
  ℕ, suc, ◌∷◌, ◌-◌, ◌*◌, ◌%◌, ◌<◌, ◌≤◌, ◌≡◌, refl, ap, ◌∙◌, List, [], ◌++◌, ok, ◌>>=◌, true, false,
  some, length, length-append, arith, All, All-append, All-replicate, map, replicate, ltb,
}
use mathlib.Core.List.{append-nil}
use libklvanc.Word.{sanitize_word}
use libklvanc.Bitstream.Bits.{bits_of, bits_of-append, length-bits_of}
use libklvanc.Bitstream.Reads.{total, widths, total-append}
use libklvanc.Bitstream.RoundTrip.{AreFields, length-fields_bits, read_set_buffer-at}
use libklvanc.Bitstream.Run.{FieldsAt}
use libklvanc.Codec.Serialize.{serialize}
use libklvanc.Codec.Bytes.{serialize-IsByte, bits_of-serialize_whole, length-serialize}
use libklvanc.Packet.{parse, first_words}
use libklvanc.Packet.RoundTrip.{
  packet, header_of, parse-packet_alone, first_words-parity, first_words-pad,
}
use libklvanc.Payload.{generate_parity, klvanc_sdi_create_payload}
use libklvanc.Payload.Laws.{create_payload-exact}
use libklvanc.Smpte2108.{HdrPacket, max_frames, parse_smpte_2108_1}
use libklvanc.Smpte2108.Laws.{
  Sent, IsOther, length_of, content_fields, sent_fields, arrived, total-content, entries-AreFields,
  frames-Reads,
}

abbrev pub IsSent : ℕ × Sent → Type 0
IsSent s = IsOther s.1 × (length_of s.1 < 256)

-- The bytes of the frames.
unfoldable pub hdr_bytes : List (ℕ × Sent) → List ℕ
hdr_bytes sents = serialize (sent_fields sents)

-- What arrives in a packet of them.
abbrev pub hdr_arrived : List (ℕ × Sent) → HdrPacket
hdr_arrived sents = record {
  payload = hdr_bytes sents ++ replicate (256 - length (hdr_bytes sents)) 0;
  payload_length_bytes = length (hdr_bytes sents);
  frames = map (λ s. arrived s.1) sents;
}

total-sent :
    (sents : List (ℕ × Sent))
    → (total (widths (sent_fields sents)) % 8 ≡ 0)
      × (16 * length sents ≤ total (widths (sent_fields sents)))
total-sent [] = (refl, omega arith)
total-sent ((sei, s) ∷ sents) =
    let t = total-append (content_fields s) (sent_fields sents) in
    let c = total-content s in
    let (m, l) = total-sent sents in (omega (arith, t, c, m), omega (arith, t, c, l))

sent_fields-AreFields : (sents : List (ℕ × Sent)) → AreFields (sent_fields sents)
sent_fields-AreFields [] = tt
sent_fields-AreFields ((sei, s) ∷ sents) = (
  omega arith,
  (
    omega arith,
    (
      omega arith,
      All-append (λ f. f.1 ≤ 64) (content_fields s) (sent_fields sents) (entries-AreFields s)
          (sent_fields-AreFields sents),
    ),
  ),
)

module _ (sents : List (ℕ × Sent)) (l : length (hdr_bytes sents) < 256) where
  abbrev zeros : List ℕ
  zeros = replicate (256 - length (hdr_bytes sents)) 0

  hdr_FieldsAt :
      FieldsAt
        (hdr_bytes sents ++ zeros)
        (length (hdr_bytes sents))
        0
        (sent_fields sents)
        (bits_of zeros)
  unfolding hdr_bytes
  hdr_FieldsAt =
      let fields = sent_fields sents in
      let w = length-fields_bits fields in
      let t = total-sent sents in
      let b = bits_of-serialize_whole fields (omega (arith, w, t.0)) in
      record {
        follow = bits_of-append (hdr_bytes sents) zeros ∙ ap (λ (l : List ℕ). l ++ bits_of zeros) b;
        fits = omega (arith, ap (λ (l : List ℕ). length l) b, length-bits_of (hdr_bytes sents));
        owned = omega (arith, length-append (hdr_bytes sents) zeros);
        bytes =
            All-append (λ b. b < 256) (hdr_bytes sents) zeros (serialize-IsByte fields)
              (All-replicate (λ b. b < 256) (256 - length (hdr_bytes sents)) 0 (omega arith));
        small = sent_fields-AreFields sents;
      }

  frames_parsed :
      (raw : List ℕ)
      → length sents ≤ max_frames
      → All IsSent sents
      → parse_smpte_2108_1 true true true (header_of 0x0c 0x41 (hdr_bytes sents) raw)
        ≡ ok (some (hdr_arrived sents))
  unfolding parse_smpte_2108_1 header_of
  frames_parsed raw ten a =
      let bytes : List ℕ = hdr_bytes sents in
      let n : ℕ = length bytes in
      let small : ltb 256 n ≡ false = ground (arith, l) in
      let copied : map sanitize_word (first_words n (map generate_parity bytes)) ≡ bytes =
        first_words-parity n bytes (unfold hdr_bytes in serialize-IsByte (sent_fields sents))
        ∙ first_words-pad n 0 bytes (omega arith)
        ∙ append-nil bytes in
      let r =
        frames-Reads sents (suc n) max_frames 0 (omega (arith, l))
          (omega (arith, length-bits_of zeros, length-append bytes zeros))
          (unfold hdr_bytes in
            omega (
              arith,
              (total-sent sents).1,
              length-fields_bits (sent_fields sents),
              length-serialize (sent_fields sents),
            ))
          ten a hdr_FieldsAt in
      rw (small, copied, read_set_buffer-at (bytes ++ zeros) n, r.result) refl

-- For at most ten frames that are sent, each in a length of a byte, other types as bytes above 1, whose
-- bytes are at least one and fewer than 256: the words that klvanc_sdi_create_payload makes of them are
-- one ancillary packet that `parse` accepts, and given memory parse_SMPTE_2108_1 gives the frames in
-- order, each member in its width, with their number and the bytes as payload.
pub parse_smpte_2108_1-create_payload :
    (sents : List (ℕ × Sent)) (failures : ℕ)
    → length sents ≤ max_frames
    → All IsSent sents
    → 0 < length (hdr_bytes sents)
    → length (hdr_bytes sents) < 256
    → (do
      words ←
          klvanc_sdi_create_payload true 0x0c 0x41
            (some (hdr_bytes sents))
            (length (hdr_bytes sents))
            10
      (hdr, _) ← parse true words (length words) failures
      parse_smpte_2108_1 true true true hdr)
      ≡ ok (some (hdr_arrived sents))
parse_smpte_2108_1-create_payload sents failures ten a pos l =
    let bytes : List ℕ = hdr_bytes sents in
    rw
      (create_payload-exact 0x0c 0x41 bytes (λ k. omega (arith, k)) (λ k. omega (arith, k))
        (λ k. omega (arith, k, pos)))
      (rw (parse-packet_alone 0x0c 0x41 bytes failures (omega arith) (omega arith) pos l)
        (frames_parsed sents l (packet 0x0c 0x41 bytes) ten a))
