-- ===== src/Codec/Laws.antt =====
-- The converters, when the allocator gives what they ask for.
use libklvanc.Prelude.{
  ℕ, zero, suc, ◌*◌, ◌≤◌, ◌<◌, [], map, get_or, ◌≡◌, ◌≢◌, sym, ap, ◌∙◌, List, ◌∷◌, ◌++◌, ok,
  Outcome, Error, ◌>>=◌, true, some, length, length-take, drop, arith, take-append-drop, bind_assoc,
  deref,
}
use libklvanc.Bitstream.{
  Klbs, klbs_write_fields, klbs_write_set_buffer, klbs_write_buffer_complete, klbs_get_byte_count,
}
use libklvanc.Bitstream.Bits.{fields_bits}
use libklvanc.Bitstream.Writes.{Message, write_message_lem}
use libklvanc.Payload.Laws.{create_payload_lem}
use libklvanc.Packet.RoundTrip.{
  packet, header_of, IsBytes, sanitize-generate_parity, parse-packet_alone,
}
use libklvanc.Packet.{Header, parse}
use libklvanc.Codec.{Alloc, to_packet_bytes, to_words, byte_at}
use libklvanc.Codec.Serialize.{serialize}
use libklvanc.Word.{sanitize_word}
use libklvanc.Payload.{generate_parity}

-- The allocator grants the `n` bytes of the buffer, and the rest.
pub record Grants (n : ℕ) (alloc : Alloc) : Type 0 where
  pub mem : List ℕ
  pub klbs : alloc.klbs_ok ≡ true
  pub buffer : alloc.buffer ≡ some mem
  pub size : length mem ≡ n
  pub words : alloc.words_ok ≡ true

module _ {mem : List ℕ} {fields : List (ℕ × ℕ)} {t : Klbs} (m : Message mem fields t) where
  message_buf : t.buf ≡ serialize fields ++ drop t.buflen_used t.buf
  unfolding serialize
  message_buf =
      sym (take-append-drop t.buflen_used t.buf)
      ∙ ap (λ (l : List ℕ). l ++ drop t.buflen_used t.buf) m.bytes

  message_count : t.buflen_used ≤ length t.buf → t.buflen_used ≡ length (serialize fields)
  unfolding serialize
  message_count h = sym (length-take t.buflen_used t.buf h) ∙ ap (λ (l : List ℕ). length l) m.bytes

bytes_written :
    (alloc : Alloc) (e : Error) (n : ℕ) (fields : List (ℕ × ℕ)) (t : Klbs) {buf : List ℕ}
    {count : ℕ}
    → (g : Grants n alloc)
    → (klbs_write_fields (klbs_write_set_buffer g.mem n) fields >>= klbs_write_buffer_complete)
      ≡ ok t
    → t.buf ≡ buf
    → t.buflen_used ≡ count
    → to_packet_bytes alloc e n fields ≡ ok (buf, count)
unfolding to_packet_bytes klbs_get_byte_count
bytes_written alloc e n fields t g eq b c =
    rw (g.klbs, g.buffer)
      (sym (
          bind_assoc (klbs_write_fields (klbs_write_set_buffer g.mem n) fields)
            klbs_write_buffer_complete (λ (u : Klbs). ok (u.buf, klbs_get_byte_count u)))
        ∙ rw eq (rw (b, c)))

pub to_packet_bytes-serialize :
    (alloc : Alloc) (e : Error) (n : ℕ) (fields : List (ℕ × ℕ))
    → Grants n alloc
    → length (fields_bits fields) ≤ 8 * n
    → (rest : List ℕ) × (to_packet_bytes alloc e n fields
        ≡ ok (serialize fields ++ rest, length (serialize fields)))
unfolding to_packet_bytes klbs_get_byte_count
to_packet_bytes-serialize alloc e n fields g h =
    let (t, eq, m) = write_message_lem g.mem n fields (omega (arith, g.size)) h in
    let fits : t.buflen_used ≤ length t.buf = omega (arith, g.size, m.used, m.same_mem) in
    (
      drop t.buflen_used t.buf,
      bytes_written alloc e n fields t g eq (message_buf m) (message_count m fits),
    )

-- If the allocator grants the `n` bytes of the buffer, then fields that fit it and make at least one
-- byte are turned into the one packet around their bytes, under identifiers other than 0.
pub to_words-serialize :
    (alloc : Alloc) (e : Error) (n sdid did : ℕ) (fields : List (ℕ × ℕ))
    → Grants n alloc
    → length (fields_bits fields) ≤ 8 * n
    → length (serialize fields) ≢ 0
    → sdid ≢ 0
    → did ≢ 0
    → (to_packet_bytes alloc e n fields >>= to_words alloc sdid did)
      ≡ ok (some (packet sdid did (serialize fields)))
unfolding to_words
to_words-serialize alloc e n sdid did fields g h k s d =
    let (rest, eq) = to_packet_bytes-serialize alloc e n fields g h in
    rw (eq, g.words, create_payload_lem sdid did (serialize fields) rest s d k)

parity_byte :
    (src : List ℕ) (i : ℕ)
    → IsBytes src
    → i < length src
    → sanitize_word (get_or (map generate_parity src) i 0) ≡ get_or src i 0
parity_byte [] i a h = absurd (omega arith)
parity_byte (b ∷ src) zero a h = sanitize-generate_parity b a.0
parity_byte (b ∷ src) (suc i) a h = parity_byte src i a.1 (omega arith)

-- A payload byte, out of the header that `parse` fills.
pub byte_at-header_of :
    (sdid did : ℕ) (src raw : List ℕ) (i : ℕ)
    → IsBytes src
    → i < length src
    → byte_at (header_of sdid did src raw) i ≡ get_or src i 0
unfolding header_of
byte_at-header_of sdid did src raw i a h = parity_byte src i a h

-- What a parser of the packet type gets when the words are parsed.
pub parsed_as :
    {A : Type 0} (alloc : Alloc) (e : Error) (n sdid did : ℕ) (fields : List (ℕ × ℕ)) (failures : ℕ)
    (f : Header → Outcome A) {out : Outcome A}
    → Grants n alloc
    → length (fields_bits fields) ≤ 8 * n
    → 0 < length (serialize fields)
    → length (serialize fields) < 256
    → 0 < sdid
    → 0 < did
    → sdid < 256
    → did < 256
    → f (header_of sdid did (serialize fields) (packet sdid did (serialize fields))) ≡ out
    → (do
      words? ← to_packet_bytes alloc e n fields >>= to_words alloc sdid did
      words ← deref words?
      (hdr, _) ← parse true words (length words) failures
      f hdr)
      ≡ out
parsed_as alloc e n sdid did fields failures f g h pos small s d s8 d8 eq =
    rw
      (to_words-serialize alloc e n sdid did fields g h (omega (arith, pos)) (omega (arith, s))
        (omega (arith, d)))
      (rw (parse-packet_alone sdid did (serialize fields) failures s8 d8 pos small) eq)
