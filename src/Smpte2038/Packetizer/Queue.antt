-- ===== src/Smpte2038/Packetizer/Queue.antt =====
-- Packets appended one after another, from the start on.
use libklvanc.Prelude.{
  ℕ, zero, suc, ◌+◌, ◌*◌, ◌≤◌, ◌≡◌, refl, ap, List, [], ◌∷◌, ◌++◌, Outcome, ok, ◌>>=◌, true, length,
  length-append, replicate, length-replicate, arith, All, All-append, take, drop, drop-all, Option,
  All-replicate,
}
use mathlib.Core.List.{append_assoc, append-nil}
use libklvanc.Bitstream.Bits.{bits_of, bits_of-append}
use libklvanc.Bitstream.Store.{IsByte}
use libklvanc.Codec.Serialize.{serialize}
use libklvanc.Codec.Bytes.{bits_of-serialize_whole}
use libklvanc.Packet.{Header}
use libklvanc.Smpte2038.Encoding.{whole_fields, lines_bits, length-whole_fields, IsShort}
use libklvanc.Smpte2038.Packetizer.{
  Packetizer, reset_offset, klvanc_smpte2038_packetizer_alloc, klvanc_smpte2038_packetizer_begin,
  klvanc_smpte2038_packetizer_append, buffer_recalc,
}
use libklvanc.Smpte2038.Packetizer.Append.{Holds, Reallocs, append-Holds}

-- The bytes of a run of lines.
unfoldable pub lines_bytes : List Header → List ℕ
lines_bytes [] = []
lines_bytes (pkt ∷ pkts) = serialize (whole_fields pkt) ++ lines_bytes pkts

pub bits_of-lines_bytes : (pkts : List Header) → bits_of (lines_bytes pkts) ≡ lines_bits pkts
unfolding lines_bytes lines_bits
bits_of-lines_bytes [] = unfold bits_of in refl
bits_of-lines_bytes (pkt ∷ pkts) =
    rw
      (
        bits_of-append (serialize (whole_fields pkt)) (lines_bytes pkts),
        bits_of-serialize_whole (whole_fields pkt) (omega (arith, length-whole_fields pkt)),
        bits_of-lines_bytes pkts,
      )
      refl

-- The calls for the packets of a frame.
abbrev pub append_all : (ℕ → Option (List ℕ)) → Packetizer → List Header → Outcome Packetizer
append_all realloc ctx [] = ok ctx
append_all realloc ctx (pkt ∷ pkts) =
    klvanc_smpte2038_packetizer_append realloc ctx pkt >>= λ ctx'. append_all realloc ctx' pkts

-- A context with a buffer of the size it says, and a bit stream context.
pub record IsPacketizer (ctx : Packetizer) : Type 0 where
  pub size : length ctx.buf ≡ ctx.buflen
  pub room : reset_offset ≤ ctx.buflen
  pub small : ctx.buflen ≤ 128 * 1024
  pub ready : ctx.has_bs ≡ true

pub Holds-IsPacketizer : (ctx : Packetizer) (bytes : List ℕ) → Holds ctx bytes → IsPacketizer ctx
Holds-IsPacketizer ctx bytes h = record {
  size = h.size;
  room = omega (arith, h.used, h.fits);
  small = h.small;
  ready = h.ready;
}

-- A new context.
pub alloc-IsPacketizer :
    (ctx : Packetizer) × (klvanc_smpte2038_packetizer_alloc true true true ≡ ok ctx)
    × IsPacketizer ctx
unfolding klvanc_smpte2038_packetizer_alloc
alloc-IsPacketizer = (
  _,
  refl,
  record {
    size = length-replicate {A = ℕ} 16384 0;
    room = omega arith;
    small = omega arith;
    ready = refl;
  },
)

front_replicate :
    (k n b : ℕ) (rest : List ℕ) → k ≤ n → take k (replicate n b ++ rest) ≡ replicate k b ++ []
front_replicate zero n b rest h = refl
front_replicate (suc k) zero b rest h = absurd (omega arith)
front_replicate (suc k) (suc n) b rest h = rw (front_replicate k n b rest (omega arith))

pub begin-Holds :
    (ctx : Packetizer) → IsPacketizer ctx → Holds (klvanc_smpte2038_packetizer_begin ctx) []
unfolding klvanc_smpte2038_packetizer_begin buffer_recalc
begin-Holds ctx i =
    let none : drop ctx.buflen ctx.buf ≡ [] = drop-all ctx.buflen ctx.buf (omega (arith, i.size)) in
    record {
      written = front_replicate reset_offset ctx.buflen 0xff (drop ctx.buflen ctx.buf) i.room;
      used = refl;
      fits = i.room;
      size = omega (
        arith,
        length-append (replicate ctx.buflen 0xff) (drop ctx.buflen ctx.buf),
        length-replicate {A = ℕ} ctx.buflen 0xff,
        ap (λ (l : List ℕ). length l) none,
      );
      free = omega (arith, i.room, i.small);
      small = i.small;
      as_bytes = rw none (
          All-append IsByte (replicate ctx.buflen 0xff) []
            (All-replicate IsByte ctx.buflen 0xff (omega arith)) tt);
      ready = i.ready;
    }

-- The packetizer implements a queue of bytes: where memory is found, and the buffer holds `bytes` behind
-- the room for the header, packets of at most 255 words each are all appended, as long as 114,000 bytes
-- are not exceeded, and the buffer then holds `bytes` and the bytes of their lines, in order.
pub append_all-Holds :
    (realloc : ℕ → Option (List ℕ)) (ctx : Packetizer) (bytes : List ℕ) (pkts : List Header)
    → Reallocs realloc
    → Holds ctx bytes
    → All IsShort pkts
    → reset_offset + length bytes + length (lines_bytes pkts) ≤ 114000
    → (ctx' : Packetizer) × (append_all realloc ctx pkts ≡ ok ctx')
      × Holds ctx' (bytes ++ lines_bytes pkts)
unfolding lines_bytes
append_all-Holds realloc ctx bytes [] r h s k = (ctx, refl, rw (append-nil bytes) h)
append_all-Holds realloc ctx bytes (pkt ∷ pkts) r h s k =
    let line : List ℕ = serialize (whole_fields pkt) in
    let l = length-append (serialize (whole_fields pkt)) (lines_bytes pkts) in
    let (ctx', e, h') = append-Holds realloc ctx bytes pkt r h s.0 (omega (arith, h.used)) in
    let (ctx'', e', h'') =
      append_all-Holds realloc ctx' (bytes ++ serialize (whole_fields pkt)) pkts r h' s.1
        (omega (arith, l, length-append bytes (serialize (whole_fields pkt)))) in
    (
      ctx'',
      rw e e',
      rw (append_assoc bytes (serialize (whole_fields pkt)) (lines_bytes pkts)) at h'',
    )
