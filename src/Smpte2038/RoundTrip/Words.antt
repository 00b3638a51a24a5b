-- ===== src/Smpte2038/RoundTrip/Words.antt =====
-- The words of a packet, after the way through a PES packet.
use libklvanc.Prelude.{
  ℕ, ◌%◌, ◌^◌, ◌<◌, ◌≡◌, refl, sym, ap, ◌∙◌, List, [], ◌∷◌, map, ok, true, length, length-map,
  take_all, arith,
}
use libklvanc.Word.{parity-lt}
use libklvanc.Packet.{first_words}
use libklvanc.Packet.RoundTrip.{packet, header_of, IsBytes}
use libklvanc.Payload.{generate_parity, copy_bytes}
use libklvanc.Payload.Laws.{generate_parity_byte, body}
use libklvanc.Packet.Parsing.{copy_bytes-take}
use libklvanc.Checksum.Laws.{checksum_word, checksum_word_bits}
use libklvanc.Smpte2038.{add_parity, klvanc_smpte2038_convert_line_to_words}
use libklvanc.Smpte2038.Encoding.{line_of, count_back}

-- On a byte, both of the functions that set the parity bits agree.
add_parity_byte : (w : ℕ) → w < 256 → add_parity w % 2 ^ 10 ≡ generate_parity w
unfolding add_parity generate_parity
add_parity_byte w h = ground (arith, parity-lt 32 w)

-- What has its parity bits keeps them.
add_parity_again : (w : ℕ) → w < 256 → add_parity (generate_parity w) ≡ generate_parity w
unfolding add_parity
add_parity_again w h = ground (arith, generate_parity_byte w h)

first_words_all : (ws : List ℕ) → first_words (length ws) ws ≡ ws
unfolding first_words
first_words_all [] = refl
first_words_all (w ∷ ws) = rw (first_words_all ws)

small_words :
    (src : List ℕ)
    → IsBytes src
    → map (λ w. w % 2 ^ 10) (map generate_parity src) ≡ map generate_parity src
small_words [] h = refl
small_words (b ∷ src) h =
    let e : generate_parity b % 2 ^ 10 ≡ generate_parity b =
      ground (arith, generate_parity_byte b h.0) in
    rw (e, small_words src h.1)

small_checksum : (words : List ℕ) → checksum_word words % 2 ^ 10 ≡ checksum_word words
small_checksum words = let (low, high) = checksum_word_bits words in omega arith

parity_twice : (w : ℕ) → w < 256 → add_parity (add_parity w % 2 ^ 10) ≡ generate_parity w
parity_twice w h = rw (add_parity_byte w h) (add_parity_again w h)

-- For a packet of fewer than 256 bytes under identifiers below 256, the line that stands for its header
-- is converted back to the words of the packet.
pub convert_line_to_words-line_of :
    (sdid did : ℕ) (src raw : List ℕ)
    → sdid < 256
    → did < 256
    → length src < 256
    → IsBytes src
    → klvanc_smpte2038_convert_line_to_words true (line_of (header_of sdid did src raw))
      ≡ ok (packet sdid did src)
unfolding klvanc_smpte2038_convert_line_to_words line_of header_of
convert_line_to_words-line_of sdid did src raw s8 d8 l8 a =
    let ws : List ℕ = map generate_parity src in
    let n : length src ≡ length ws = sym (length-map src generate_parity) in
    let front : first_words (length src) ws ≡ ws = rw n (first_words_all ws) in
    let copied : copy_bytes ws (length src) ≡ ok ws =
      ap (copy_bytes ws) n
      ∙ copy_bytes-take ws (length ws) (omega arith)
      ∙ ap ok (take_all (length ws) ws refl) in
    rw (front, small_words src a, count_back (length src) l8, copied)
      (rw
        (
          parity_twice did d8,
          parity_twice sdid s8,
          parity_twice (length src) l8,
          small_checksum (body did sdid src),
        )
        refl)
