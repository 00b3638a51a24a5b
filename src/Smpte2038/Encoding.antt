-- ===== src/Smpte2038/Encoding.antt =====
-- The bits that stand for a line, and the line that is read from them.
use libklvanc.Prelude.{
  ℕ, zero, suc, ◌+◌, ◌*◌, ◌%◌, ◌^◌, ◌<◌, ◌≡◌, refl, ap, List, [], ◌∷◌, ◌++◌, map, length, arith,
  length-append,
}
use mathlib.Core.List.{append_assoc}
use libklvanc.Bitstream.Bits.{to_bits, fields_bits, length-to_bits}
use libklvanc.Bitstream.Stuffing.{ones, gap}
use libklvanc.Codec.Serialize.{fields_bits-append}
use libklvanc.Packet.{Header, first_words}
use libklvanc.Smpte2038.{AncLine, vanc8, add_parity}
use libklvanc.Smpte2038.Packetizer.{line_fields}

abbrev pub words_of : Header → List ℕ
words_of pkt = first_words pkt.payload_length_words pkt.payload

-- What a line holds of a packet: the fields cut to their widths.
unfoldable pub line_of : Header → AncLine
line_of pkt = record {
  reserved_000000 = 0;
  c_not_y_channel_flag = 0;
  line_number = pkt.line_nr % 2 ^ 11;
  horizontal_offset = 0;
  did = add_parity pkt.did % 2 ^ 10;
  sdid = add_parity pkt.dbnsdid % 2 ^ 10;
  data_count = add_parity pkt.payload_length_words % 2 ^ 10;
  user_data_words = map (λ w. w % 2 ^ 10) (words_of pkt);
  checksum_word = pkt.checksum % 2 ^ 10;
}

-- The fields with the ones that fill the last byte.
unfoldable pub whole_fields : Header → List (ℕ × ℕ)
whole_fields pkt = line_fields pkt ++ ones (gap (70 + 10 * pkt.payload_length_words))

unfoldable pub lines_bits : List Header → List ℕ
lines_bits [] = []
lines_bits (pkt ∷ pkts) = fields_bits (whole_fields pkt) ++ lines_bits pkts

pub length-first_words : (n : ℕ) (payload : List ℕ) → length (first_words n payload) ≡ n
unfolding first_words
length-first_words zero payload = refl
length-first_words (suc n) [] = ap suc (length-first_words n [])
length-first_words (suc n) (w ∷ payload) = ap suc (length-first_words n payload)

length-word_fields : (ws : List ℕ) → length (fields_bits (map (λ w. (w, 10)) ws)) ≡ 10 * length ws
unfolding fields_bits
length-word_fields [] = refl
length-word_fields (w ∷ ws) = omega (
  arith,
  length-append (to_bits 10 w) (fields_bits (map (λ w. (w, 10)) ws)),
  length-to_bits 10 w,
  length-word_fields ws,
)

pub length-ones : (n : ℕ) → length (fields_bits (ones n)) ≡ n
unfolding fields_bits to_bits
length-ones zero = refl
length-ones (suc n) = ap suc (length-ones n)

-- The bits of a line, field by field.
module _ (pkt : Header) where
  pub line_fields-bits :
      (rest : List ℕ)
      → fields_bits (line_fields pkt) ++ rest
        ≡ to_bits 6 0
          ++ (to_bits 1 0
              ++ (to_bits 11 pkt.line_nr
                  ++ (to_bits 12 0
                      ++ (to_bits 10 (add_parity pkt.did)
                          ++ (to_bits 10 (add_parity pkt.dbnsdid)
                              ++ (to_bits 10 (add_parity pkt.payload_length_words)
                                  ++ (fields_bits (map (λ w. (w, 10)) (words_of pkt))
                                      ++ (to_bits 10 pkt.checksum ++ rest))))))))
  unfolding line_fields fields_bits
  line_fields-bits rest = simp (
    fields_bits-append (map (λ w. (w, 10)) (words_of pkt)) ((pkt.checksum, 10) ∷ []),
    append_assoc,
  )

  pub length-line_fields :
      length (fields_bits (line_fields pkt)) ≡ 70 + 10 * pkt.payload_length_words
  unfolding line_fields fields_bits to_bits
  length-line_fields =
      let ws : List (ℕ × ℕ) = map (λ w. (w, 10)) (words_of pkt) in
      let last : List ℕ = to_bits 10 pkt.checksum ++ [] in
      omega (
        arith,
        ap (λ (l : List ℕ). length l) (fields_bits-append ws ((pkt.checksum, 10) ∷ [])),
        length-append (fields_bits ws) last,
        length-word_fields (words_of pkt),
        length-first_words pkt.payload_length_words pkt.payload,
      )

  pub length-whole_fields :
      length (fields_bits (whole_fields pkt))
      ≡ 70 + 10 * pkt.payload_length_words + gap (70 + 10 * pkt.payload_length_words)
  unfolding whole_fields
  length-whole_fields =
      let n : ℕ = gap (70 + 10 * pkt.payload_length_words) in
      omega (
        arith,
        ap (λ (l : List ℕ). length l) (fields_bits-append (line_fields pkt) (ones n)),
        length-append (fields_bits (line_fields pkt)) (fields_bits (ones n)),
        length-line_fields,
        length-ones n,
      )

pub count_back : (n : ℕ) → n < 256 → vanc8 (add_parity n % 2 ^ 10) ≡ n
unfolding add_parity
count_back n h = ground arith

-- How many bits a line takes.
abbrev pub line_size : Header → ℕ
line_size pkt = 70 + 10 * pkt.payload_length_words + gap (70 + 10 * pkt.payload_length_words)

abbrev pub IsShort : Header → Type 0
IsShort pkt = pkt.payload_length_words < 256
