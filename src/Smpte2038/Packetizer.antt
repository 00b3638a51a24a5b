-- ===== src/Smpte2038/Packetizer.antt =====
-- The packetizer of src/smpte2038.c: a buffer of lines behind the room for a PES header.
pub mod Append
pub mod Queue
pub mod End
use libklvanc.Prelude.{
  ℕ, zero, suc, ◌+◌, ◌-◌, ◌*◌, ◌/◌, ◌%◌, ◌^◌, List, [], ◌∷◌, ◌++◌, map, Outcome, ok, err, fault,
  failed, ◌>>=◌, ◌>>◌, Bool, true, false, ltb, ◌==◌, not, if◌then◌else◌, guard, assert, deref,
  Option, take, drop, set, replicate, length,
}
use libklvanc.Bitstream.{
  Klbs, klbs_write_set_buffer, klbs_write_fields, klbs_write_byte_stuff, klbs_write_buffer_complete,
  klbs_get_byte_count,
}
use libklvanc.Packet.{Header, first_words}
use libklvanc.Smpte2038.{add_parity}

-- `struct klvanc_smpte2038_packetizer_s`. The bit stream context is set up anew by each function
-- that writes: `has_bs` says that it was allocated.
pub record Packetizer : Type 0 where
  pub buf : List ℕ
  pub buflen : ℕ
  pub bufused : ℕ
  pub buffree : ℕ
  pub has_bs : Bool

-- `KLVANC_SMPTE2038_PACKETIZER_BUFFER_RESET_OFFSET`
abbrev pub reset_offset : ℕ
reset_offset = 14

unfoldable pub klvanc_smpte2038_packetizer_alloc : Bool → Bool → Bool → Outcome Packetizer
klvanc_smpte2038_packetizer_alloc calloc_ok buf_ok klbs_ok = do
  guard calloc_ok (failed 1)
  guard buf_ok (failed 1)
  ok (record {
    buf = replicate 16384 0;
    buflen = 16384;
    bufused = reset_offset;
    buffree = 16384 - reset_offset;
    has_bs = klbs_ok;
  })

-- `klvanc_smpte2038_buffer_recalc`, on `uint32_t`.
unfoldable pub buffer_recalc : Packetizer → Packetizer
buffer_recalc ctx = record ctx { buffree = (ctx.buflen + 2 ^ 32 - ctx.bufused) % 2 ^ 32 }

-- `klvanc_smpte2038_buffer_adjust`, for a larger buffer. `realloc` gives the bytes that come behind
-- the old ones; where there is no memory the buffer is null, and the caller's next write fails.
unfoldable pub buffer_adjust : (ℕ → Option (List ℕ)) → Packetizer → ℕ → Outcome Packetizer
unfolding buffer_recalc
buffer_adjust realloc ctx newsize = do
  assert (not (ltb (128 * 1024) newsize))
  more ← deref (realloc newsize)
  ok (
      buffer_recalc (record ctx {
        buf = ctx.buf ++ more;
        buflen = newsize;
        bufused = if ltb newsize ctx.bufused then newsize else ctx.bufused;
      }))

-- `memset` sets the whole buffer.
unfoldable pub klvanc_smpte2038_packetizer_begin : Packetizer → Packetizer
unfolding buffer_recalc
klvanc_smpte2038_packetizer_begin ctx = buffer_recalc (record ctx {
  buf = replicate ctx.buflen 0xff ++ drop ctx.buflen ctx.buf;
  bufused = reset_offset;
})

-- The calls of klbs_write_bits for one line.
unfoldable pub line_fields : Header → List (ℕ × ℕ)
unfolding first_words
line_fields pkt =
    (0, 6)
      ∷ (0, 1)
      ∷ (pkt.line_nr, 11)
      ∷ (0, 12)
      ∷ (add_parity pkt.did, 10)
      ∷ (add_parity pkt.dbnsdid, 10)
      ∷ (add_parity pkt.payload_length_words, 10)
      ∷ map (λ w. (w, 10)) (first_words pkt.payload_length_words pkt.payload)
    ++ (pkt.checksum, 10) ∷ []

-- The buffer grows where it might not have the room.
unfoldable pub make_room : (ℕ → Option (List ℕ)) → Packetizer → ℕ → Outcome Packetizer
unfolding buffer_adjust
make_room realloc ctx reqd =
    if ltb ctx.buffree (reqd + 64) then buffer_adjust realloc ctx (ctx.buflen + 16384) else ok ctx

-- The line, from `bufused` on, up to a whole byte.
unfoldable pub write_line : Packetizer → Header → Outcome Packetizer
unfolding line_fields buffer_recalc
write_line ctx pkt = do
  assert ctx.has_bs
  bs ←
      klbs_write_fields (klbs_write_set_buffer (drop ctx.bufused ctx.buf) ctx.buffree)
        (line_fields pkt)
  bs ← klbs_write_byte_stuff bs 1
  bs ← klbs_write_buffer_complete bs
  ok (
      buffer_recalc (record ctx {
        buf = take ctx.bufused ctx.buf ++ bs.buf;
        bufused = ctx.bufused + klbs_get_byte_count bs;
      }))

unfoldable pub klvanc_smpte2038_packetizer_append :
    (ℕ → Option (List ℕ)) → Packetizer → Header → Outcome Packetizer
unfolding make_room write_line
klvanc_smpte2038_packetizer_append realloc ctx pkt =
    make_room realloc ctx (pkt.payload_length_words * 2) >>= (λ ctx'. write_line ctx' pkt)

-- The calls of klbs_write_bits for the PES header, behind the first two.
unfoldable pub pts_fields : ℕ → List (ℕ × ℕ)
pts_fields pts =
    (pts / 2 ^ 30, 3)
    ∷ (1, 1)
    ∷ (pts / 2 ^ 15 % 2 ^ 15, 15)
    ∷ (1, 1)
    ∷ (pts % 2 ^ 15, 15)
    ∷ (1, 1)
    ∷ []

unfoldable pub flag_fields : ℕ → List (ℕ × ℕ)
unfolding pts_fields
flag_fields pts =
    (2, 2)
    ∷ (0, 2)
    ∷ (0, 1)
    ∷ (1, 1)
    ∷ (0, 1)
    ∷ (0, 1)
    ∷ (2, 2)
    ∷ (0, 1)
    ∷ (0, 1)
    ∷ (0, 1)
    ∷ (0, 1)
    ∷ (0, 1)
    ∷ (0, 1)
    ∷ (5, 8)
    ∷ (2, 4)
    ∷ pts_fields pts

unfoldable pub header_fields : ℕ → ℕ → List (ℕ × ℕ)
unfolding flag_fields
header_fields packet_length pts = (1, 24) ∷ (0xbd, 8) ∷ (packet_length, 16) ∷ flag_fields pts

-- The length goes to bytes 4 and 5 once the header is written.
unfoldable pub klvanc_smpte2038_packetizer_end : Packetizer → ℕ → Outcome Packetizer
unfolding header_fields
klvanc_smpte2038_packetizer_end ctx pts = do
  guard (not (ctx.bufused == reset_offset)) (failed 1)
  assert ctx.has_bs
  bs ← klbs_write_fields (klbs_write_set_buffer ctx.buf 15) (header_fields 0 pts)
  bs ← klbs_write_buffer_complete bs
  let len = ctx.bufused - 6
  ok (record ctx { buf = set (set bs.buf 4 (len / 256 % 256)) 5 (len % 256) })
