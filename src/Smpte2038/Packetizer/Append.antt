-- ===== src/Smpte2038/Packetizer/Append.antt =====
-- klvanc_smpte2038_packetizer_append: the bytes of the line go behind those of the lines before.
use libklvanc.Prelude.{
  ℕ, ◌+◌, ◌-◌, ◌*◌, ◌≤◌, ◌<◌, ◌≡◌, refl, ap, ◌∙◌, List, ◌++◌, ok, ◌>>=◌, true, false, ltb, length,
  length-append, replicate, arith, All, All-append, take, drop, length-take, length-drop,
  take-append_more, take-append_less, take-All, drop-All, Option, some, inl, inr, Bool-cases,
  ltb→lt, bind_last, assert_then,
}
use mathlib.Core.List.{append_assoc}
use libklvanc.Bitstream.{
  Klbs, klbs_write_fields, klbs_write_set_buffer, klbs_write_byte_stuff, klbs_write_buffer_complete,
  klbs_get_byte_count,
}
use libklvanc.Bitstream.Bits.{fields_bits}
use libklvanc.Bitstream.Store.{HasRoom, IsByte, Wrote}
use libklvanc.Bitstream.WriteBits.{write_fields_lem, HasRoom-Wrote}
use libklvanc.Bitstream.Writes.{write_message_lem, Message-as_bytes}
use libklvanc.Bitstream.Stuffing.{ones, gap, stuff-fields, write_fields-append}
use libklvanc.Codec.Serialize.{serialize}
use libklvanc.Codec.Bytes.{Message-take, length-serialize}
use libklvanc.Packet.{Header}
use libklvanc.Smpte2038.Encoding.{
  whole_fields, length-line_fields, length-whole_fields, line_size, IsShort,
}
use libklvanc.Smpte2038.Packetizer.{
  Packetizer, reset_offset, line_fields, make_room, write_line, klvanc_smpte2038_packetizer_append,
  buffer_recalc, buffer_adjust,
}

-- Filling up the last byte of a line is writing ones.
stuff_whole :
    (s t : Klbs) (pkt : Header)
    → s.reg_used ≡ 0
    → HasRoom t (gap (70 + 10 * pkt.payload_length_words))
    → Wrote s (fields_bits (line_fields pkt)) t
    → klbs_write_byte_stuff t 1
      ≡ klbs_write_fields t (ones (gap (70 + 10 * pkt.payload_length_words)))
stuff_whole s t pkt z room w =
    let r : gap t.reg_used ≡ gap (70 + 10 * pkt.payload_length_words) =
      omega (arith, w.moved, w.open_reg, length-line_fields pkt) in
    stuff-fields t (omega (arith, r, room)) ∙ ap (λ k. klbs_write_fields t (ones k)) r

write_whole :
    (s : Klbs) (pkt : Header)
    → s.reg_used ≡ 0
    → HasRoom s (line_size pkt)
    → (klbs_write_fields s (line_fields pkt) >>= λ bs.
        klbs_write_byte_stuff bs 1 >>= klbs_write_buffer_complete)
      ≡ (klbs_write_fields s (whole_fields pkt) >>= klbs_write_buffer_complete)
unfolding whole_fields
write_whole s pkt z h =
    let c : ℕ = 70 + 10 * pkt.payload_length_words in
    let (t, e, w) = write_fields_lem (line_fields pkt) s (omega (arith, length-line_fields pkt)) in
    let room : HasRoom t (gap c) =
      HasRoom-Wrote (70 + 10 * pkt.payload_length_words) (gap c) h (length-line_fields pkt) w in
    rw (write_fields-append (line_fields pkt) (ones (gap c)) s, e, stuff_whole s t pkt z room w)

-- The packetizer holds the bytes of `lines` behind the 14 that are kept for the header.
pub record Holds (ctx : Packetizer) (bytes : List ℕ) : Type 0 where
  pub written : take ctx.bufused ctx.buf ≡ replicate reset_offset 0xff ++ bytes
  pub used : ctx.bufused ≡ reset_offset + length bytes
  pub fits : ctx.bufused ≤ ctx.buflen
  pub size : length ctx.buf ≡ ctx.buflen
  pub free : ctx.buffree ≡ ctx.buflen - ctx.bufused
  pub small : ctx.buflen ≤ 128 * 1024
  pub as_bytes : All IsByte ctx.buf
  pub ready : ctx.has_bs ≡ true

-- There is memory for a buffer that is 16384 bytes larger.
abbrev pub Reallocs : (ℕ → Option (List ℕ)) → Type 0
Reallocs realloc =
    (n : ℕ) → (more : List ℕ) × (realloc n ≡ some more) × (length more ≡ 16384) × All IsByte more

write_line-run :
    (ctx : Packetizer) (pkt : Header) {t : Klbs}
    → ctx.has_bs ≡ true
    → line_size pkt ≤ 8 * ctx.buffree
    → ctx.buffree ≤ length (drop ctx.bufused ctx.buf)
    → (klbs_write_fields
          (klbs_write_set_buffer (drop ctx.bufused ctx.buf) ctx.buffree)
          (whole_fields pkt)
        >>= klbs_write_buffer_complete)
      ≡ ok t
    → write_line ctx pkt
      ≡ ok (
          buffer_recalc (record ctx {
            buf = take ctx.bufused ctx.buf ++ t.buf;
            bufused = ctx.bufused + t.buflen_used;
          }))
unfolding write_line klbs_get_byte_count
write_line-run ctx pkt ready k l e =
    let s : Klbs = klbs_write_set_buffer (drop ctx.bufused ctx.buf) ctx.buffree in
    let room : HasRoom s (line_size pkt) = unfold klbs_write_set_buffer in omega arith in
    let z : s.reg_used ≡ 0 = unfold klbs_write_set_buffer in refl in
    assert_then ctx.has_bs _ ready
    ∙ (bind_last (klbs_write_fields s (line_fields pkt)) (λ bs. klbs_write_byte_stuff bs 1)
        klbs_write_buffer_complete
        (λ (bs : Klbs). buffer_recalc (record ctx {
          buf = take ctx.bufused ctx.buf ++ bs.buf;
          bufused = ctx.bufused + bs.buflen_used;
        }))
        (write_whole s pkt z room ∙ e))

-- The state behind a line whose bytes are the front of `new`.
written_Holds :
    (ctx : Packetizer) (bytes line new : List ℕ) (n : ℕ)
    → Holds ctx bytes
    → take n new ≡ line
    → n ≡ length line
    → n ≤ length new
    → length new ≡ ctx.buflen - ctx.bufused
    → All IsByte new
    → Holds
        (buffer_recalc
          (record ctx { buf = take ctx.bufused ctx.buf ++ new; bufused = ctx.bufused + n }))
        (bytes ++ line)
unfolding buffer_recalc
written_Holds ctx bytes line new n h e c f l a =
    let front : length (take ctx.bufused ctx.buf) ≡ ctx.bufused =
      length-take ctx.bufused ctx.buf (omega (arith, h.size, h.fits)) in
    record {
      written =
          take-append_more (take ctx.bufused ctx.buf) new ctx.bufused n front
          ∙ rw (h.written, e) (append_assoc (replicate reset_offset 0xff) bytes line);
      used = omega (arith, h.used, length-append bytes line);
      fits = omega (arith, h.fits);
      size = omega (arith, length-append (take ctx.bufused ctx.buf) new, h.fits);
      free = omega (arith, h.fits, h.small);
      small = h.small;
      as_bytes =
          All-append IsByte (take ctx.bufused ctx.buf) new
            (take-All IsByte ctx.bufused ctx.buf h.as_bytes) a;
      ready = h.ready;
    }

write_line-Holds :
    (ctx : Packetizer) (bytes : List ℕ) (pkt : Header)
    → Holds ctx bytes
    → line_size pkt ≤ 8 * ctx.buffree
    → (ctx' : Packetizer) × (write_line ctx pkt ≡ ok ctx')
      × Holds ctx' (bytes ++ serialize (whole_fields pkt))
write_line-Holds ctx bytes pkt h k =
    let rest : List ℕ = drop ctx.bufused ctx.buf in
    let l : length (drop ctx.bufused ctx.buf) ≡ ctx.buflen - ctx.bufused =
      omega (arith, length-drop ctx.bufused ctx.buf, h.size) in
    let (t, e, m) =
      write_message_lem (drop ctx.bufused ctx.buf) ctx.buffree (whole_fields pkt)
        (omega (arith, l, h.free)) (omega (arith, length-whole_fields pkt)) in
    (
      _,
      write_line-run ctx pkt h.ready k (omega (arith, l, h.free)) e,
      written_Holds ctx bytes (serialize (whole_fields pkt)) t.buf t.buflen_used h (Message-take m)
          (omega (arith, m.used, length-serialize (whole_fields pkt)))
          (omega (arith, m.used, m.same_mem, l, h.free, length-whole_fields pkt))
          (omega (arith, m.same_mem, l))
          (Message-as_bytes m (drop-All IsByte ctx.bufused ctx.buf h.as_bytes)),
    )

-- A larger buffer holds the same bytes.
grown_Holds :
    (ctx : Packetizer) (bytes more : List ℕ)
    → Holds ctx bytes
    → length more ≡ 16384
    → All IsByte more
    → ctx.buflen + 16384 ≤ 128 * 1024
    → Holds
        (buffer_recalc (record ctx { buf = ctx.buf ++ more; buflen = ctx.buflen + 16384 }))
        bytes
unfolding buffer_recalc
grown_Holds ctx bytes more h l a k = record {
  written = take-append_less ctx.buf more ctx.bufused (omega (arith, h.fits, h.size)) ∙ h.written;
  used = h.used;
  fits = omega (arith, h.fits);
  size = omega (arith, length-append ctx.buf more, h.size);
  free = omega (arith, h.fits);
  small = k;
  as_bytes = All-append IsByte ctx.buf more h.as_bytes a;
  ready = h.ready;
}

buffer_adjust-run :
    (realloc : ℕ → Option (List ℕ)) (ctx : Packetizer) (n : ℕ) {more : List ℕ}
    → realloc n ≡ some more
    → n ≤ 128 * 1024
    → ctx.bufused ≤ n
    → buffer_adjust realloc ctx n
      ≡ ok (buffer_recalc (record ctx { buf = ctx.buf ++ more; buflen = n }))
unfolding buffer_adjust
buffer_adjust-run realloc ctx n e h k =
    let a : ltb (128 * 1024) n ≡ false = ground arith in
    let b : ltb n ctx.bufused ≡ false = ground arith in rw (a, e, b)

make_room-Holds :
    (realloc : ℕ → Option (List ℕ)) (ctx : Packetizer) (bytes : List ℕ) (reqd : ℕ)
    → Reallocs realloc
    → Holds ctx bytes
    → reqd < 512
    → ctx.bufused ≤ 114000
    → (ctx' : Packetizer) × (make_room realloc ctx reqd ≡ ok ctx')
      × Holds ctx' bytes
      × (reqd + 64 ≤ ctx'.buffree)
unfolding make_room
make_room-Holds realloc ctx bytes reqd r h n k = elim (Bool-cases (ltb ctx.buffree (reqd + 64))) [
  | inr enough ↦ (ctx, rw enough, h, ground arith)
  | inl short ↦
      let (more, e, l, a) = r (ctx.buflen + 16384) in
      let s : ctx.buffree < reqd + 64 = ltb→lt ctx.buffree (reqd + 64) short in
      let big : ctx.buflen + 16384 ≤ 128 * 1024 = omega (arith, h.free, h.fits) in
      let g = grown_Holds ctx bytes more h l a big in
      (
        _,
        rw short (buffer_adjust-run realloc ctx (ctx.buflen + 16384) e big (omega (arith, h.fits))),
        g,
        omega (arith, g.free, h.fits, h.free),
      )
]

pub append-Holds :
    (realloc : ℕ → Option (List ℕ)) (ctx : Packetizer) (bytes : List ℕ) (pkt : Header)
    → Reallocs realloc
    → Holds ctx bytes
    → IsShort pkt
    → ctx.bufused ≤ 114000
    → (ctx' : Packetizer) × (klvanc_smpte2038_packetizer_append realloc ctx pkt ≡ ok ctx')
      × Holds ctx' (bytes ++ serialize (whole_fields pkt))
unfolding klvanc_smpte2038_packetizer_append
append-Holds realloc ctx bytes pkt r h s k =
    let (ctx', e, h', room) =
      make_room-Holds realloc ctx bytes (pkt.payload_length_words * 2) r h (omega arith) k in
    let (ctx'', e', h'') = write_line-Holds ctx' bytes pkt h' (omega (arith, room)) in
    (ctx'', rw e e', h'')
