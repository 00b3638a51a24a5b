-- ===== src/Packet/Append.antt =====
-- klvanc_packet_copy and klvanc_packet_payload_append of src/core-packets.c.
use libklvanc.Prelude.{
  ℕ, ◌+◌, ◌-◌, List, ◌++◌, Outcome, ok, failed, enomem, Bool, ltb, not, guard, assert, drop, ◌>>◌,
}
use libklvanc.Packet.{Header, max_payload, first_words}

unfoldable pub klvanc_packet_copy : Bool → Header → Outcome Header
klvanc_packet_copy malloc_ok src = guard malloc_ok enomem >> ok src

-- `memcpy(&array[used], &from[skip], (count - skip) * sizeof(uint16_t))`, on arrays that are longer than
-- their lists.
abbrev pub words_appended : List ℕ → ℕ → List ℕ → ℕ → ℕ → List ℕ
words_appended array used from skip count =
    first_words used array
    ++ first_words (count - skip) (drop skip from)
    ++ drop (used + (count - skip)) array

-- Counts are `int` here: with an offset above the count of `src`, the number of bytes to copy is
-- negative, and the copy runs out of the array.
unfoldable pub klvanc_packet_payload_append : Header → Header → ℕ → Outcome Header
klvanc_packet_payload_append dst src src_offset = do
  guard (not (ltb (max_payload + src_offset) (dst.payload_length_words + src.payload_length_words)))
      (failed 1)
  guard (not (ltb max_payload (dst.raw_length_words + src.raw_length_words))) (failed 1)
  assert (not (ltb src.payload_length_words src_offset))
  ok (record dst {
    payload =
        words_appended dst.payload dst.payload_length_words src.payload src_offset
          src.payload_length_words;
    payload_length_words = dst.payload_length_words + (src.payload_length_words - src_offset);
    raw = words_appended dst.raw dst.raw_length_words src.raw 0 src.raw_length_words;
    raw_length_words = dst.raw_length_words + src.raw_length_words;
  })
