-- ===== src/Scte104/Series.antt =====
-- parse_SCTE_104 on the packets of a message that was sent in parts, one call after the other.
use libklvanc.Prelude.{
  ℕ, ◌+◌, ◌/◌, ◌%◌, ◌≤◌, ◌<◌, ◌≡◌, refl, sym, ap, ◌∙◌, List, [], ◌∷◌, ◌++◌, ok, ◌>>=◌, true, false,
  ltb, ◌==◌, length, length-append, length-map, map, All, arith, if_true, Option, some,
}
use mathlib.Core.List.{append_assoc, append-nil, map-append}
use libklvanc.Codec.{byte_at}
use libklvanc.Packet.{Header}
use libklvanc.Packet.Append.{klvanc_packet_copy}
use libklvanc.Scte104.{Scte104Packet}
use libklvanc.Scte104.Fragments.{
  Held, Step, as_fragment, message_fragment_append, message_fragment_reset,
  message_fragment_continued, message_fragment_following, message_fragment_final,
  complete_fragments, append_fragments, emptied,
}
use libklvanc.Scte104.Parser.{Allocs, parse_message, parse_descriptor, parse_scte_104}
use libklvanc.Scte104.Received.{AllGranted}
use libklvanc.Scte104.Assembly.{IsWhole, joined, assembled}

-- What is held after the calls, one for each packet.
unfoldable pub collect : Allocs → Held → List Header → Held
collect alloc held [] = held
collect alloc held (hdr ∷ hdrs) = collect alloc (parse_scte_104 true alloc held hdr).0 hdrs

-- The flags of the descriptor byte: continued, following, duplicate.
pub record Flags (hdr : Header) (continued following : ℕ) : Type 0 where
  pub single : byte_at hdr 0 % 2 ≡ 0
  pub first : byte_at hdr 0 / 4 % 2 ≡ continued
  pub second : byte_at hdr 0 / 2 % 2 ≡ following

module _ (alloc : Allocs) (g : AllGranted alloc) where
  parse_allocated :
      (held : Held) (hdr : Header)
      → parse_scte_104 true alloc held hdr ≡ parse_descriptor alloc held (byte_at hdr 0) hdr
  unfolding parse_scte_104
  parse_allocated held hdr = if_true alloc.packet_ok _ _ (g.packet)

  -- The first packet starts anew.
  first_collected :
      (held : Held) (hdr : Header)
      → Flags hdr 1 0
      → (parse_scte_104 true alloc held hdr).0 ≡ as_fragment hdr ∷ []
  unfolding parse_descriptor message_fragment_continued message_fragment_append
      message_fragment_reset klvanc_packet_copy
  first_collected held hdr f =
      let e : (byte_at hdr 0 == 8) ≡ false = ground (arith, f.first) in
      ap (λ (s : Step (Option Scte104Packet)). s.0) (parse_allocated held hdr)
      ∙ rw (f.single, e, f.first, f.second, g.fragment) refl

  -- The next one is put behind those that are held.
  next_collected :
      (held : Held) (hdr : Header)
      → Flags hdr 1 1
      → 0 < length held
      → length held < 9
      → (parse_scte_104 true alloc held hdr).0 ≡ held ++ as_fragment hdr ∷ []
  unfolding parse_descriptor message_fragment_following message_fragment_append klvanc_packet_copy
  next_collected held hdr f some_held room =
      let e : (byte_at hdr 0 == 8) ≡ false = ground (arith, f.first) in
      let z : (length held == 0) ≡ false = ground arith in
      let n : (length held + 1 == 10) ≡ false = ground arith in
      let t : ltb (length held) 10 ≡ true = ground arith in
      ap (λ (s : Step (Option Scte104Packet)). s.0) (parse_allocated held hdr)
      ∙ rw (f.single, e, f.first, f.second, z, n, t, g.fragment) refl

  -- All packets of the middle.
  rest_collected :
      (held : Held) (hdrs : List Header)
      → All (λ h. Flags h 1 1) hdrs
      → 0 < length held
      → length held + length hdrs < 10
      → collect alloc held hdrs ≡ held ++ map as_fragment hdrs
  unfolding collect
  rest_collected held [] a k n = sym (append-nil held)
  rest_collected held (hdr ∷ hdrs) a k n =
      let e = next_collected held hdr a.0 k (omega arith) in
      let l = length-append held (as_fragment hdr ∷ []) in
      ap (λ (h : Held). collect alloc h hdrs) e
      ∙ rest_collected (held ++ as_fragment hdr ∷ []) hdrs a.1 (omega (arith, l))
          (omega (arith, l, n))
      ∙ append_assoc held (as_fragment hdr ∷ []) (map as_fragment hdrs)

  all_collected :
      (held : Held) (first : Header) (middle : List Header)
      → Flags first 1 0
      → All (λ h. Flags h 1 1) middle
      → length middle ≤ 8
      → collect alloc held (first ∷ middle) ≡ map as_fragment (first ∷ middle)
  all_collected held first middle f a n =
      unfold collect in
      (ap (λ (h : Held). collect alloc h middle) (first_collected held first f)
        ∙ rest_collected (as_fragment first ∷ []) middle a (omega arith) (omega (arith, n)))

  -- The last packet completes what is held.
  last_completed :
      (hdrs : List Header) (last : Header) {whole : Header}
      → Flags last 0 1
      → 0 < length hdrs
      → length hdrs < 10
      → append_fragments 0 (emptied last) (map as_fragment (hdrs ++ last ∷ [])) ≡ ok whole
      → parse_scte_104 true alloc (map as_fragment hdrs) last
        ≡ ([], parse_message alloc (byte_at last 0) whole >>= λ pkt. ok (some pkt))
  unfolding parse_descriptor message_fragment_final message_fragment_append complete_fragments
      klvanc_packet_copy message_fragment_reset
  last_completed hdrs last {whole} f k n e =
      let held : Held = map as_fragment hdrs in
      let l : length held ≡ length hdrs = length-map hdrs as_fragment in
      let d : (byte_at last 0 == 8) ≡ false = ground (arith, f.second) in
      let z : (length held == 0) ≡ false = ground (arith, l, k) in
      let t : ltb (length held) 10 ≡ true = ground (arith, l, n) in
      let e' : append_fragments 0 (emptied last) (held ++ as_fragment last ∷ []) ≡ ok whole =
        ap (append_fragments 0 (emptied last)) (sym (map-append as_fragment hdrs (last ∷ [])))
        ∙ e in
      parse_allocated held last
      ∙ rw (f.single, d, f.first, f.second, z, t, g.fragment, g.complete) (rw e' refl)

-- If every allocation of the parser succeeds, then a message that is sent as a first packet, at most
-- eight packets in the middle and a last one, each with its flags and at most 255 payload words, is
-- put together whatever was held before: the last call of parse_SCTE_104 parses a header with the
-- payload words of the first packet and of each other one behind its descriptor byte, and as many as its
-- count says, and no packet is held afterwards.
pub parse_scte_104-collect :
    (alloc : Allocs) (held : Held) (first : Header) (middle : List Header) (last : Header)
    → AllGranted alloc
    → Flags first 1 0
    → All (λ h. Flags h 1 1) middle
    → Flags last 0 1
    → length middle ≤ 8
    → All IsWhole (first ∷ middle ++ last ∷ [])
    → (whole : Header) × (parse_scte_104 true alloc (collect alloc held (first ∷ middle)) last
        ≡ ([], parse_message alloc (byte_at last 0) whole >>= λ pkt. ok (some pkt)))
      × (whole.payload ≡ joined 0 (first ∷ middle ++ last ∷ []))
      × (whole.payload_length_words ≡ length whole.payload)
parse_scte_104-collect alloc held first middle last g f m l n a =
    let hdrs : List Header = first ∷ middle in
    let (whole, e, p, c) =
      assembled (hdrs ++ last ∷ []) last a (omega (arith, n, length-append hdrs (last ∷ []))) in
    (
      whole,
      ap (λ (h : Held). parse_scte_104 true alloc h last)
            (all_collected alloc g held first middle f m n)
          ∙ last_completed alloc g hdrs last l (omega arith) (omega (arith, n)) e,
      p,
      c,
    )
