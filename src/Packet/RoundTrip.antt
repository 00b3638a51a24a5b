-- ===== src/Packet/RoundTrip.antt =====
-- `parse` on a packet that klvanc_sdi_create_payload built.
use libklvanc.Prelude.{
  ℕ, zero, suc, replicate, ◌+◌, ◌%◌, ◌<◌, ◌≤◌, ◌≡◌, ◌≢◌, refl, sym, ap, ◌∙◌, List, [], ◌∷◌, ◌++◌,
  ok, ◌>>=◌, map, length, length-map, arith, true, false, some, All, take, drop, Bool, ltb,
  length-take, lt→ltb, ==_iff, take_all, length-append,
}
use libklvanc.Word.{sanitize_word}
use libklvanc.Checksum.{klvanc_checksum_is_valid}
use libklvanc.Checksum.Laws.{checksum_word, is_valid-checksum_word, get_elem?-middle}
use libklvanc.Payload.Laws.{copy_bytes-all}
use libklvanc.Payload.{copy_bytes, generate_parity, klvanc_sdi_create_payload}
use libklvanc.Payload.Laws.{body, generate_parity_byte, create_payload-exact}
use libklvanc.Packet.{
  Header, first_words, parse, parse_fields, is_valid_header, lookup_type_by_did, word, max_payload,
}
use libklvanc.Packet.Parsing.{copy_raw-take}
use mathlib.Core.List.{append_assoc, append-nil}
use mathlib.Core.Path.{subst}

pub sanitize-generate_parity : (w : ℕ) → w < 256 → generate_parity w % 256 ≡ w
sanitize-generate_parity w h = ground (arith, generate_parity_byte w h)

-- The packet, and the header that stands for it at the front of `arr`.
abbrev pub packet : ℕ → ℕ → List ℕ → List ℕ
packet sdid did src =
    0 ∷ 0x3ff ∷ 0x3ff ∷ body did sdid src ++ checksum_word (body did sdid src) ∷ []

unfoldable pub header_of : ℕ → ℕ → List ℕ → List ℕ → Header
header_of sdid did src raw = record {
  packet_type = lookup_type_by_did did sdid;
  adf = 0 ∷ 0x3ff ∷ 0x3ff ∷ [];
  did = did;
  dbnsdid = sdid;
  checksum = checksum_word (body did sdid src);
  payload = map generate_parity src;
  payload_length_words = length src;
  checksum_valid = true;
  line_nr = 0;
  raw = raw;
  raw_length_words = length raw;
  horizontal_offset = 0;
}

abbrev pub IsBytes : List ℕ → Type 0
IsBytes src = All (λ b. b < 256) src

pub sanitize-payload :
    (src : List ℕ) → IsBytes src → map sanitize_word (map generate_parity src) ≡ src
sanitize-payload [] h = refl
sanitize-payload (b ∷ src) h = rw (sanitize-generate_parity b h.0, sanitize-payload src h.1)

-- What a parser copies out of the payload of a packet.
pub first_words-parity :
    (n : ℕ) (bytes : List ℕ)
    → IsBytes bytes
    → map sanitize_word (first_words n (map generate_parity bytes)) ≡ first_words n bytes
unfolding first_words
first_words-parity zero bytes a = refl
first_words-parity (suc n) [] a = ap (λ (l : List ℕ). 0 ∷ l) (first_words-parity n [] a)
first_words-parity (suc n) (b ∷ bytes) a =
    rw (sanitize-generate_parity b a.0, first_words-parity n bytes a.1)

pub first_words-pad :
    (n k : ℕ) (bytes : List ℕ) → n ≡ length bytes + k → first_words n bytes ≡ bytes ++ replicate k 0
unfolding first_words
first_words-pad zero zero [] h = refl
first_words-pad zero (suc k) [] h = absurd (omega arith)
first_words-pad (suc n) zero [] h = absurd (omega arith)
first_words-pad (suc n) (suc k) [] h =
    ap (λ (l : List ℕ). 0 ∷ l) (first_words-pad n k [] (omega arith))
first_words-pad zero k (b ∷ bytes) h = absurd (omega arith)
first_words-pad (suc n) k (b ∷ bytes) h =
    ap (λ (l : List ℕ). b ∷ l) (first_words-pad n k bytes (omega arith))

module _ (sdid did : ℕ) (src rest : List ℕ) (s8 : sdid < 256) (d8 : did < 256)
    (l8 : length src < 256) where
  abbrev arr : List ℕ
  arr = 0 ∷ 0x3ff ∷ 0x3ff ∷ body did sdid src ++ checksum_word (body did sdid src) ∷ rest

  payload_copied : copy_bytes (drop 6 arr) (length src) ≡ ok (map generate_parity src)
  payload_copied =
      ap (copy_bytes (drop 6 arr)) (sym (length-map src generate_parity))
      ∙ copy_bytes-all (map generate_parity src) (checksum_word (body did sdid src) ∷ rest)

  checksum_read : word arr (6 + length src) ≡ ok (checksum_word (body did sdid src))
  checksum_read =
      let e : 6 + length src
          ≡ suc (suc (suc (suc (suc (suc (length (map generate_parity src))))))) =
        omega (arith, length-map src generate_parity) in
      rw e
        (rw (get_elem?-middle (map generate_parity src) rest (checksum_word (body did sdid src))))

  checksum_accepted : klvanc_checksum_is_valid (drop 3 arr) (length src + 4) ≡ ok true
  checksum_accepted =
      let c : ℕ = checksum_word (body did sdid src) in
      let e : length src + 4 ≡ length (body did sdid src) + 1 =
        omega (arith, length-map src generate_parity) in
      rw e (
        is_valid-checksum_word (body did sdid src) rest c
        ∙ ap (λ (b : Bool). ok b) ((==_iff c c).1 refl))

  -- The identifiers and the count, without their parity bits.
  did_back : generate_parity did % 256 ≡ did
  did_back = sanitize-generate_parity did d8

  sdid_back : generate_parity sdid % 256 ≡ sdid
  sdid_back = sanitize-generate_parity sdid s8

  count_back : generate_parity (length src) % 256 ≡ length src
  count_back = sanitize-generate_parity (length src) l8

  count_small : ltb max_payload (length src) ≡ false
  count_small = ground arith

  parse_fields_lem :
      (len failures : ℕ)
      → len ≤ length arr
      → len ≤ max_payload
      → parse_fields arr len failures ≡ ok (header_of sdid did src (take len arr), failures)
  unfolding parse_fields header_of
  parse_fields_lem len failures h m = rw (copy_raw-take arr len h m) (
      rw (count_back, did_back, sdid_back)
        (rw count_small (
          rw payload_copied
            (rw checksum_read (rw checksum_accepted (rw (length-take len arr h)))))))

  parse-arr :
      (len failures : ℕ)
      → 7 < len
      → len ≤ length arr
      → len ≤ max_payload
      → parse true arr len failures ≡ ok (header_of sdid did src (take len arr), failures)
  unfolding parse is_valid_header
  parse-arr len failures long h m = rw (lt→ltb 7 len long) (parse_fields_lem len failures h m)

  packet_rest : arr ≡ packet sdid did src ++ rest
  packet_rest =
      ap (λ (l : List ℕ). 0 ∷ 0x3ff ∷ 0x3ff ∷ l)
        (sym (append_assoc (body did sdid src) (checksum_word (body did sdid src) ∷ []) rest))

  pub parse-packet :
      (len failures : ℕ)
      → 7 < len
      → len ≤ length (packet sdid did src ++ rest)
      → len ≤ max_payload
      → parse true (packet sdid did src ++ rest) len failures
        ≡ ok (header_of sdid did src (take len (packet sdid did src ++ rest)), failures)
  parse-packet len failures long =
      subst
        (λ (l : List ℕ).
          len ≤ length l
          → len ≤ max_payload
          → parse true l len failures ≡ ok (header_of sdid did src (take len l), failures))
        packet_rest (parse-arr len failures long)

pub length-packet : (sdid did : ℕ) (src : List ℕ) → length (packet sdid did src) ≡ length src + 7
length-packet sdid did src = omega (
  arith,
  length-map src generate_parity,
  length-append (body did sdid src) (checksum_word (body did sdid src) ∷ []),
)

-- The packet alone.
pub parse-packet_alone :
    (sdid did : ℕ) (src : List ℕ) (failures : ℕ)
    → sdid < 256
    → did < 256
    → 0 < length src
    → length src < 256
    → parse true (packet sdid did src) (length (packet sdid did src)) failures
      ≡ ok (header_of sdid did src (packet sdid did src), failures)
parse-packet_alone sdid did src failures s8 d8 pos l8 =
    let p : List ℕ = packet sdid did src in
    let n = length-packet sdid did src in
    subst
      (λ (l : List ℕ).
        parse true l (length p) failures
        ≡ ok (header_of sdid did src (take (length p) l), failures))
      (append-nil p)
      (parse-packet sdid did src [] s8 d8 l8 (length p) failures (omega (arith, n))
        (omega (arith, length-append p [])) (omega (arith, n)))
    ∙ ap (λ (l : List ℕ). ok (header_of sdid did src l, failures)) (take_all (length p) p refl)

-- A packet that klvanc_sdi_create_payload builds from identifiers that are bytes and not 0, and from
-- 1 to 255 payload bytes, parses, given memory, wherever at least its words are left, at most 16384
-- words are, and the memory holds all of them: `parse` returns the
-- identifiers, the type that the table gives them, the count and the payload with its parity bits, and
-- a valid checksum; the payload's low bytes are the bytes given, and no failure is counted.
pub parse-create_payload :
    (sdid did : ℕ) (src rest : List ℕ) (len failures : ℕ)
    → sdid ≢ 0
    → did ≢ 0
    → length src ≢ 0
    → sdid < 256
    → did < 256
    → length src < 256
    → IsBytes src
    → length src + 7 ≤ len
    → len ≤ length (packet sdid did src ++ rest)
    → len ≤ max_payload
    → ((do
      words ← klvanc_sdi_create_payload true sdid did (some src) (length src) 10
      parse true (words ++ rest) len failures)
        ≡ ok (header_of sdid did src (take len (packet sdid did src ++ rest)), failures))
      × (map sanitize_word (map generate_parity src) ≡ src)
parse-create_payload sdid did src rest len failures s0 d0 l0 s8 d8 l8 bytes long h m = (
  rw (create_payload-exact sdid did src s0 d0 l0)
      (parse-packet sdid did src rest s8 d8 l8 len failures (omega arith) h m),
  sanitize-payload src bytes,
)
