-- ===== src/Scte104/Assembly.antt =====
-- klvanc_packet_payload_append and the loop of messageFragmentFinal over it.
use libklvanc.Prelude.{
  ℕ, zero, suc, ◌+◌, ◌-◌, ◌*◌, ◌≤◌, ◌<◌, ◌≡◌, refl, sym, ap, ◌∙◌, List, [], ◌∷◌, ◌++◌, ok, false,
  ltb, length, length-append, length-drop, drop, drop-all, map, All, arith,
}
use mathlib.Core.List.{append_assoc, append-nil}
use libklvanc.Packet.{Header, first_words}
use libklvanc.Packet.Append.{klvanc_packet_payload_append, words_appended}
use libklvanc.Scte104.Fragments.{append_fragments, as_fragment, emptied}
use libklvanc.Scte104.Bodies.{length-first_words}

-- The words of a header are those that its counts say, and together they fit with `room` more.
record IsFilled (room : ℕ) (hdr : Header) : Type 0 where
  payload : hdr.payload_length_words ≡ length hdr.payload
  raw : hdr.raw_length_words ≡ length hdr.raw
  more : length hdr.payload ≤ length hdr.raw
  fits : length hdr.raw + room ≤ 16384

-- A packet as `parse` returns it, with a descriptor byte at least.
pub record IsWhole (hdr : Header) : Type 0 where
  pub count : hdr.payload_length_words ≡ length hdr.payload
  pub some_word : 0 < length hdr.payload
  pub short : length hdr.payload < 256

first_words-all : (n : ℕ) (xs : List ℕ) → n ≡ length xs → first_words n xs ≡ xs
unfolding first_words
first_words-all zero [] e = refl
first_words-all zero (x ∷ xs) e = absurd (omega arith)
first_words-all (suc n) [] e = absurd (omega arith)
first_words-all (suc n) (x ∷ xs) e = ap (λ (l : List ℕ). x ∷ l) (first_words-all n xs (omega arith))

appended_lem :
    (array : List ℕ) (used : ℕ) (from : List ℕ) (skip count : ℕ)
    → used ≡ length array
    → words_appended array used from skip count
      ≡ array ++ first_words (count - skip) (drop skip from)
appended_lem array used from skip count e =
    let all : drop (used + (count - skip)) array ≡ [] =
      drop-all (used + (count - skip)) array (omega arith) in
    rw (first_words-all used array e, all)
      (append-nil (array ++ first_words (count - skip) (drop skip from)))

-- The payloads, the first without `offset` words, the others without one.
unfoldable pub joined : ℕ → List Header → List ℕ
joined offset [] = []
joined offset (hdr ∷ hdrs) = drop offset hdr.payload ++ joined 1 hdrs

payload_append_lem :
    (dst src : Header) (offset room : ℕ)
    → IsFilled (262 + room) dst
    → IsWhole src
    → offset ≤ 1
    → (dst' : Header) × (klvanc_packet_payload_append dst (as_fragment src) offset ≡ ok dst')
      × (dst'.payload ≡ dst.payload ++ drop offset src.payload)
      × IsFilled room dst'
unfolding klvanc_packet_payload_append
payload_append_lem dst src offset room d s o =
    let n : ℕ = src.payload_length_words in
    let left = length-drop offset src.payload in
    let a : ltb (16384 + offset) (dst.payload_length_words + n) ≡ false =
      ground (arith, d.payload, d.more, d.fits, s.count, s.short) in
    let b : ltb 16384 (dst.raw_length_words + (n + 7)) ≡ false =
      ground (arith, d.raw, d.fits, s.count, s.short) in
    let c : ltb n offset ≡ false = ground (arith, s.count, s.some_word, o) in
    let payload =
      appended_lem dst.payload dst.payload_length_words src.payload offset n d.payload in
    let raw = appended_lem dst.raw dst.raw_length_words src.raw 0 (n + 7) d.raw in
    let words : List ℕ = first_words (n + 7 - 0) src.raw in
    let copied : first_words (n - offset) (drop offset src.payload) ≡ drop offset src.payload =
      first_words-all (n - offset) (drop offset src.payload) (omega (arith, left, s.count)) in
    let payload' = payload ∙ ap (λ (l : List ℕ). dst.payload ++ l) copied in
    let p = ap (λ (l : List ℕ). length l) payload' in
    let r = ap (λ (l : List ℕ). length l) raw in
    let q = length-append dst.payload (drop offset src.payload) in
    let t = length-append dst.raw words in
    let u = length-first_words (n + 7 - 0) src.raw in
    (
      record dst {
        payload = words_appended dst.payload dst.payload_length_words src.payload offset n;
        payload_length_words = dst.payload_length_words + (n - offset);
        raw = words_appended dst.raw dst.raw_length_words src.raw 0 (n + 7);
        raw_length_words = dst.raw_length_words + (n + 7);
      },
      rw (a, b, c) refl,
      payload',
      record {
        payload = omega (arith, p, q, left, s.count, d.payload);
        raw = omega (arith, r, t, u, d.raw);
        more = omega (arith, p, q, r, t, u, left, s.count, d.more);
        fits = omega (arith, r, t, u, s.count, s.short, d.fits);
      },
    )

append_fragments_lem :
    (hdrs : List Header) (dst : Header) (offset room : ℕ)
    → IsFilled (262 * length hdrs + room) dst
    → All IsWhole hdrs
    → offset ≤ 1
    → (whole : Header) × (append_fragments offset dst (map as_fragment hdrs) ≡ ok whole)
      × (whole.payload ≡ dst.payload ++ joined offset hdrs)
      × (whole.payload_length_words ≡ length whole.payload)
unfolding append_fragments joined
append_fragments_lem [] dst offset room d a o = (dst, refl, sym (append-nil dst.payload), d.payload)
append_fragments_lem (hdr ∷ hdrs) dst offset room d a o =
    let (dst', e, p, f) =
      payload_append_lem dst hdr offset (262 * length hdrs + room)
        (record { payload = d.payload; raw = d.raw; more = d.more; fits = omega (arith, d.fits) })
        a.0 o in
    let (whole, e', p', c) = append_fragments_lem hdrs dst' 1 room f a.1 (omega arith) in
    (
      whole,
      rw e e',
      p'
          ∙ ap (λ (l : List ℕ). l ++ joined 1 hdrs) p
          ∙ append_assoc dst.payload (drop offset hdr.payload) (joined 1 hdrs),
      c,
    )

-- Up to ten packets: the whole holds the words of each behind its first, and those of the first.
pub assembled :
    (hdrs : List Header) (last : Header)
    → All IsWhole hdrs
    → length hdrs ≤ 10
    → (whole : Header) × (append_fragments 0 (emptied last) (map as_fragment hdrs) ≡ ok whole)
      × (whole.payload ≡ joined 0 hdrs)
      × (whole.payload_length_words ≡ length whole.payload)
assembled hdrs last a h =
    append_fragments_lem hdrs (emptied last) 0 (16384 - 262 * length hdrs)
      (record { payload = refl; raw = refl; more = omega arith; fits = omega arith }) a
      (omega arith)
