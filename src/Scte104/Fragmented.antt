-- ===== src/Scte104/Fragmented.antt =====
-- A message that was cut into parts, and what is parsed of it.
use libklvanc.Prelude.{
  ℕ, zero, suc, ◌+◌, ◌-◌, ◌/◌, ◌%◌, ◌≤◌, ◌<◌, ◌≡◌, refl, ap, ◌∙◌, List, [], ◌∷◌, ◌++◌, ok, true,
  some, length, length-append, length-drop, length-map, drop, map, replicate, All, arith,
}
use libklvanc.Word.{sanitize_word}
use libklvanc.Codec.{byte_at}
use libklvanc.Packet.{Header, first_words}
use libklvanc.Packet.RoundTrip.{first_words-pad}
use libklvanc.Scte104.{Mom}
use libklvanc.Scte104.Fragments.{Held}
use libklvanc.Scte104.Parser.{Allocs, message_payload, message_length, parse_scte_104}
use libklvanc.Scte104.Received.{AllGranted}
use libklvanc.Scte104.Assembly.{IsWhole, joined}
use libklvanc.Scte104.Series.{collect, Flags, parse_scte_104-collect}
use libklvanc.Scte104.Wire.{IsMessage, mom_bytes, mom_size}
use libklvanc.Scte104.Delivered.{packet_arrived, parse_message_at}

map-first_words :
    (n : ℕ) (xs : List ℕ)
    → map sanitize_word (first_words n xs) ≡ first_words n (map sanitize_word xs)
unfolding first_words
map-first_words zero xs = refl
map-first_words (suc n) [] = ap (λ (l : List ℕ). 0 ∷ l) (map-first_words n [])
map-first_words (suc n) (x ∷ xs) = ap (λ (l : List ℕ). x % 256 ∷ l) (map-first_words n xs)

-- The bytes that the packets carry: without the parity bits, and without the first descriptor byte.
unfoldable pub carried : List Header → List ℕ
unfolding joined
carried hdrs = map sanitize_word (drop 1 (joined 0 hdrs))

joined_some : (hdr : Header) (hdrs : List Header) → IsWhole hdr → 0 < length (joined 0 (hdr ∷ hdrs))
unfolding joined
joined_some hdr hdrs w = omega (arith, length-append hdr.payload (joined 1 hdrs), w.some_word)

module _ (hdr : Header) (hdrs : List Header) (whole : Header) (m : Mom) (w : IsWhole hdr)
    (p : whole.payload ≡ joined 0 (hdr ∷ hdrs))
    (c : whole.payload_length_words ≡ length whole.payload)
    (e : carried (hdr ∷ hdrs) ≡ mom_bytes (mom_size m) m) where
  words_behind : map sanitize_word (drop 1 whole.payload) ≡ mom_bytes (mom_size m) m
  words_behind = ap (λ (l : List ℕ). map sanitize_word (drop 1 l)) p ∙ (unfold carried in e)

  words_count : length whole.payload ≡ mom_size m + 1
  words_count = omega (
    arith,
    ap (λ (l : List ℕ). length l) words_behind,
    length-map (drop 1 whole.payload) sanitize_word,
    length-drop 1 whole.payload,
    ap (λ (l : List ℕ). length l) p,
    joined_some hdr hdrs w,
  )

  payload_carried :
      mom_size m ≤ 2000
      → message_payload whole ≡ mom_bytes (mom_size m) m ++ replicate (2000 - mom_size m) 0
  payload_carried h =
      map-first_words 2000 (drop 1 whole.payload)
      ∙ ap (first_words 2000) words_behind
      ∙ first_words-pad 2000 (2000 - mom_size m) (mom_bytes (mom_size m) m) (omega (arith, h))

  length_carried : mom_size m ≤ 2000 → message_length whole ≡ mom_size m
  length_carried h = omega (arith, c, words_count)

-- If every allocation of the parser succeeds, then a message of at most 2000 bytes whose bytes are sent
-- in a first packet, at most eight packets in the middle and a last one, cut anywhere, each packet with
-- its flags and at most 255 payload words, is delivered by the last call of parse_SCTE_104 with
-- every request that was sent, each member cut to its width, whatever was held before; no packet is
-- held afterwards.
pub parse_scte_104-carried :
    (alloc : Allocs) (held : Held) (first : Header) (middle : List Header) (last : Header) (m : Mom)
    → AllGranted alloc
    → Flags first 1 0
    → All (λ h. Flags h 1 1) middle
    → Flags last 0 1
    → length middle ≤ 8
    → All IsWhole (first ∷ middle ++ last ∷ [])
    → IsMessage m
    → mom_size m ≤ 2000
    → carried (first ∷ middle ++ last ∷ []) ≡ mom_bytes (mom_size m) m
    → parse_scte_104 true alloc (collect alloc held (first ∷ middle)) last ≡ (
      [],
      ok (
          some (record (packet_arrived m) {
            payload_descriptor_byte = byte_at last 0;
            version = byte_at last 0 / 8 % 4;
            continued_pkt = byte_at last 0 / 4 % 2;
            following_pkt = byte_at last 0 / 2 % 2;
            duplicate_msg = byte_at last 0 % 2;
          })),
    )
parse_scte_104-carried alloc held first middle last m g f k l n a h small e =
    let (whole, r, p, c) = parse_scte_104-collect alloc held first middle last g f k l n a in
    let rest : List Header = middle ++ last ∷ [] in
    let payload = payload_carried first rest whole m a.0 p c e small in
    let count = length_carried first rest whole m a.0 p c e small in
    r ∙ rw (parse_message_at alloc g m h small (byte_at last 0) whole payload count) refl
