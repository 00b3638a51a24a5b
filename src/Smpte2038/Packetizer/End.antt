-- ===== src/Smpte2038/Packetizer/End.antt =====
-- klvanc_smpte2038_packetizer_end: the header goes in front of the lines, and the length into it.
use libklvanc.Prelude.{
  ℕ, zero, suc, take-append_left, ◌+◌, ◌-◌, ◌/◌, ◌%◌, ◌≤◌, ◌<◌, ◌≡◌, refl, sym, ap, ◌∙◌, List, [],
  ◌∷◌, ◌++◌, ok, ◌>>=◌, true, false, length, length-set, arith, All, take, drop, set, assert_then,
  ◌==◌, take-append_more, take-append-drop, bind_assoc,
}
use libklvanc.Bitstream.{Klbs, klbs_write_fields, klbs_write_set_buffer, klbs_write_buffer_complete}
use libklvanc.Bitstream.Bits.{fields_bits, to_bits}
use libklvanc.Bitstream.Store.{IsByte}
use libklvanc.Bitstream.Writes.{Message, write_message_lem, Message-as_bytes}
use libklvanc.Codec.Serialize.{serialize, serialize-byte, serialize-word}
use libklvanc.Codec.Bytes.{Message-buf, length-serialize}
use libklvanc.Smpte2038.Packetizer.{
  Packetizer, reset_offset, flag_fields, header_fields, klvanc_smpte2038_packetizer_end,
}
use libklvanc.Smpte2038.Packetizer.Append.{Holds}

-- A field of three bytes.
serialize-prefix :
    (fields : List (ℕ × ℕ))
    → serialize ((1, 24) ∷ fields) ≡ serialize ((0, 8) ∷ (0, 8) ∷ (1, 8) ∷ fields)
unfolding serialize fields_bits to_bits
serialize-prefix fields = refl

header_bytes :
    (len pts : ℕ)
    → serialize (header_fields len pts)
      ≡ 0 ∷ 0 ∷ 1 ∷ 0xbd ∷ len / 256 % 256 ∷ len % 256 ∷ serialize (flag_fields pts)
unfolding header_fields
header_bytes len pts =
    serialize-prefix ((0xbd, 8) ∷ (len, 16) ∷ flag_fields pts)
    ∙ simp (serialize-byte, serialize-word)

pub length-header_fields : (len pts : ℕ) → length (fields_bits (header_fields len pts)) ≡ 112
unfolding header_fields flag_fields fields_bits to_bits
length-header_fields len pts = refl

pub length-header : (len pts : ℕ) → length (serialize (header_fields len pts)) ≡ 14
length-header len pts =
    omega (arith, length-serialize (header_fields len pts), length-header_fields len pts)

-- Bytes 4 and 5 of the header are its length.
set_length :
    (len pts : ℕ) (rest : List ℕ)
    → set (set (serialize (header_fields 0 pts) ++ rest) 4 (len / 256 % 256)) 5 (len % 256)
      ≡ serialize (header_fields len pts) ++ rest
set_length len pts rest = rw (header_bytes 0 pts, header_bytes len pts) refl

-- The packet that is ready to be sent.
pub record Finished (len pts : ℕ) (bytes : List ℕ) (ctx : Packetizer) : Type 0 where
  pub written : take ctx.bufused ctx.buf ≡ serialize (header_fields len pts) ++ bytes
  pub used : ctx.bufused ≡ reset_offset + length bytes
  pub owned : ctx.bufused ≤ length ctx.buf
  pub as_bytes : All IsByte ctx.buf

set-IsByte : (buf : List ℕ) (i b : ℕ) → All IsByte buf → b < 256 → All IsByte (set buf i b)
set-IsByte [] i b a h = tt
set-IsByte (x ∷ buf) zero b a h = (h, a.1)
set-IsByte (x ∷ buf) (suc i) b a h = (a.0, set-IsByte buf i b a.1 h)

behind :
    (ctx : Packetizer) (bytes : List ℕ)
    → Holds ctx bytes
    → drop 14 ctx.buf ≡ bytes ++ drop ctx.bufused ctx.buf
behind ctx bytes h = ap (drop 14) (
    sym (take-append-drop ctx.bufused ctx.buf)
    ∙ ap (λ (l : List ℕ). l ++ drop ctx.bufused ctx.buf) h.written)

abbrev ended : Packetizer → List ℕ → Packetizer
ended ctx buf = record ctx {
  buf = set (set buf 4 ((ctx.bufused - 6) / 256 % 256)) 5 ((ctx.bufused - 6) % 256);
}

end-run :
    (ctx : Packetizer) (pts : ℕ) {t : Klbs}
    → ctx.has_bs ≡ true
    → reset_offset < ctx.bufused
    → (klbs_write_fields (klbs_write_set_buffer ctx.buf 15) (header_fields 0 pts)
        >>= klbs_write_buffer_complete)
      ≡ ok t
    → klvanc_smpte2038_packetizer_end ctx pts ≡ ok (ended ctx t.buf)
unfolding klvanc_smpte2038_packetizer_end
end-run ctx pts ready pos e =
    let some_line : (ctx.bufused == 14) ≡ false = ground arith in
    rw some_line (
      assert_then ctx.has_bs _ ready
      ∙ sym (
          bind_assoc (klbs_write_fields (klbs_write_set_buffer ctx.buf 15) (header_fields 0 pts))
            klbs_write_buffer_complete (λ (u : Klbs). ok (ended ctx u.buf)))
      ∙ ap (λ m. m >>= (λ (u : Klbs). ok (ended ctx u.buf))) e)

ended-Finished :
    (ctx : Packetizer) (bytes : List ℕ) (pts : ℕ) (t : Klbs)
    → Holds ctx bytes
    → Message ctx.buf (header_fields 0 pts) t
    → Finished (ctx.bufused - 6) pts bytes (ended ctx t.buf)
ended-Finished ctx bytes pts t h m =
    let len : ℕ = ctx.bufused - 6 in
    let front : List ℕ = serialize (header_fields (ctx.bufused - 6) pts) in
    let u : t.buflen_used ≡ 14 = omega (arith, m.used, length-header_fields 0 pts) in
    let e : t.buf ≡ serialize (header_fields 0 pts) ++ (bytes ++ drop ctx.bufused ctx.buf) =
      Message-buf m ∙ rw u (rw (behind ctx bytes h) refl) in
    let f : (ended ctx t.buf).buf ≡ front ++ (bytes ++ drop ctx.bufused ctx.buf) =
      rw e (set_length (ctx.bufused - 6) pts (bytes ++ drop ctx.bufused ctx.buf)) in
    record {
      written =
          ap (take ctx.bufused) f
          ∙ ap (λ n. take n (front ++ (bytes ++ drop ctx.bufused ctx.buf))) h.used
          ∙ take-append_more front (bytes ++ drop ctx.bufused ctx.buf) 14 (length bytes)
              (length-header (ctx.bufused - 6) pts)
          ∙ ap (λ (l : List ℕ). front ++ l) (take-append_left bytes (drop ctx.bufused ctx.buf));
      used = h.used;
      owned = omega (
        arith,
        length-set (set t.buf 4 (len / 256 % 256)) 5 (len % 256),
        length-set t.buf 4 (len / 256 % 256),
        m.same_mem,
        h.size,
        h.fits,
      );
      as_bytes =
          set-IsByte (set t.buf 4 (len / 256 % 256)) 5 (len % 256)
            (set-IsByte t.buf 4 (len / 256 % 256) (Message-as_bytes m h.as_bytes) (omega arith))
            (omega arith);
    }

pub end_lem :
    (ctx : Packetizer) (bytes : List ℕ) (pts : ℕ)
    → Holds ctx bytes
    → 0 < length bytes
    → (ctx' : Packetizer) × (klvanc_smpte2038_packetizer_end ctx pts ≡ ok ctx')
      × Finished (ctx.bufused - 6) pts bytes ctx'
end_lem ctx bytes pts h pos =
    let (t, e, m) =
      write_message_lem ctx.buf 15 (header_fields 0 pts) (omega (arith, h.used, h.fits, h.size))
        (omega (arith, length-header_fields 0 pts)) in
    (
      ended ctx t.buf,
      end-run ctx pts h.ready (omega (arith, h.used)) e,
      ended-Finished ctx bytes pts t h m,
    )
