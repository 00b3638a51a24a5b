-- ===== src/Codec.antt =====
-- What the converters of the packet types share: `klvanc_convert_*_to_packetBytes` serialises fields
-- into an allocated buffer, `klvanc_convert_*_to_words` builds an ancillary packet around the bytes.
pub mod Serialize
pub mod Bytes
pub mod Wide
pub mod Whole
pub mod Laws
use libklvanc.Prelude.{
  ℕ, ◌+◌, ◌%◌, List, Outcome, ok, err, fault, Error, enomem, ◌>>=◌, ◌>>◌, Bool, guard, Option, none,
  some, alloc_or, get_or,
}
use libklvanc.Bitstream.{
  Klbs, klbs_write_fields, klbs_write_set_buffer, klbs_write_buffer_complete, klbs_get_byte_count,
}
use libklvanc.Payload.{klvanc_sdi_create_payload}
use libklvanc.Packet.{Header}
use libklvanc.Word.{sanitize_word}

-- What the allocator answers to one conversion: to `klbs_alloc`, to the `malloc` of the buffer, whose
-- bytes may hold anything, and to the `calloc` of klvanc_sdi_create_payload.
pub record Alloc : Type 0 where
  pub klbs_ok : Bool
  pub buffer : Option (List ℕ)
  pub words_ok : Bool

-- `n` is the size that is asked for; the result is the buffer with the number of bytes in use.
unfoldable pub to_packet_bytes : Alloc → Error → ℕ → List (ℕ × ℕ) → Outcome (List ℕ × ℕ)
to_packet_bytes alloc no_memory n fields = do
  guard alloc.klbs_ok no_memory
  mem ← alloc_or no_memory alloc.buffer
  bs ← klbs_write_fields (klbs_write_set_buffer mem n) fields
  bs' ← klbs_write_buffer_complete bs
  ok (bs'.buf, klbs_get_byte_count bs')

-- The callers drop what klvanc_sdi_create_payload returns: where it refuses, no words are set.
unfoldable pub drop_result : Outcome (List ℕ) → Outcome (Option (List ℕ))
drop_result (ok words) = ok (some words)
drop_result (err e) = ok none
drop_result fault = fault

unfoldable pub to_words : Alloc → ℕ → ℕ → List ℕ × ℕ → Outcome (Option (List ℕ))
unfolding drop_result
to_words alloc sdid did (buf, byte_count) =
    drop_result (klvanc_sdi_create_payload alloc.words_ok sdid did (some buf) byte_count 10)

-- `hdr->payload[i]`, for `i` below `max_payload`.
abbrev pub payload_at : Header → ℕ → ℕ
payload_at hdr i = get_or hdr.payload i 0

-- `sanitizeWord(hdr->payload[i])`
abbrev pub byte_at : Header → ℕ → ℕ
byte_at hdr i = sanitize_word (payload_at hdr i)
