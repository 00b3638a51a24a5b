-- ===== src/Scan/Delivered.antt =====
-- An AFD packet from its conversion to the callback of the application.
use libklvanc.Prelude.{ℕ, ◌≡◌, refl, ap, ◌∙◌, ok, deref, ◌>>=◌, Bool, true, some, length, arith}
use libklvanc.Codec.{Alloc}
use libklvanc.Codec.Laws.{Grants}
use libklvanc.Packet.{Header, PacketType, afd}
use libklvanc.Packet.Parsing.{lookup_type-afd}
use libklvanc.Packet.RoundTrip.{packet, header_of}
use libklvanc.Afd.{AfdPacket, parse_afd, klvanc_convert_afd_to_words}
use libklvanc.Afd.Laws.{
  IsRepresentable, afd_bytes, afd_bytes_size, convert_lem, parse_afd-header_of,
}
use libklvanc.Dispatch.{
  Decoded, afd_packet, Memory, Callbacks, called, parse_as, parse_by_type, deliver, answered,
  is_registered,
}
use libklvanc.Scte104.Fragments.{Held}
use libklvanc.Scan.{Context, update_cache, klvanc_packet_parse}
use libklvanc.Scan.Single.{packet_parse-packet}

-- The header of the packet on its line.
unfoldable pub afd_header : AfdPacket → ℕ → Header
afd_header p line_nr = record (header_of 0x05 0x41 (afd_bytes p) (packet 0x05 0x41 (afd_bytes p))) {
  line_nr = line_nr;
}

afd_type : (p : AfdPacket) (line_nr : ℕ) → (afd_header p line_nr).packet_type ≡ afd
unfolding afd_header header_of
afd_type p line_nr = lookup_type-afd

afd_parsed :
    (p : AfdPacket) (line_nr : ℕ)
    → IsRepresentable p
    → parse_afd true true (afd_header p line_nr) ≡ ok (some p)
unfolding afd_header parse_afd
afd_parsed p line_nr v = parse_afd-header_of p (packet 0x05 0x41 (afd_bytes p)) v

-- What is done with a packet of a type.
delivered_as :
    {C : Type 0} (memory : Memory) (callbacks : Callbacks C) (held : Held) (client : C)
    (hdr : Header) (t : PacketType)
    → hdr.packet_type ≡ t
    → deliver memory callbacks held client hdr
      ≡ answered
          (callbacks.decode t)
          (called callbacks.all client hdr)
          (parse_as t (is_registered (callbacks.decode t)) memory held hdr)
unfolding deliver parse_by_type
delivered_as memory callbacks held client hdr t e =
    ap
      (λ (t : PacketType).
        answered (callbacks.decode t) (called callbacks.all client hdr)
          (parse_as t (is_registered (callbacks.decode t)) memory held hdr))
      e

deliver-afd :
    {C : Type 0} (memory : Memory) (callbacks : Callbacks C) (f : C → Decoded → C) (held : Held)
    (client : C) (p : AfdPacket) (line_nr : ℕ)
    → memory.calloc_ok ≡ true
    → callbacks.decode afd ≡ some f
    → IsRepresentable p
    → deliver memory callbacks held client (afd_header p line_nr)
      ≡ ok (held, f (called callbacks.all client (afd_header p line_nr)) (afd_packet p))
unfolding parse_as
deliver-afd memory callbacks f held client p line_nr granted registered v =
    let hdr : Header = afd_header p line_nr in
    let parsed : parse_afd true memory.calloc_ok hdr ≡ ok (some p) =
      ap (λ b. parse_afd true b hdr) granted ∙ afd_parsed p line_nr v in
    delivered_as memory callbacks held client hdr afd (afd_type p line_nr)
    ∙ rw registered (rw parsed refl)

-- If the allocator grants the buffer of the conversion, the header and the packet of the parser, and
-- there is a callback for AFD: the words that klvanc_convert_AFD_to_words makes of a representable
-- packet, given to klvanc_packet_parse as a line, make one packet; the callback for all packets gets
-- its header, and then the callback for AFD gets exactly the packet that was converted; the cache is
-- updated, and what is held of SCTE 104 stays.
pub packet_parse-convert_afd_to_words :
    {C : Type 0} (calloc malloc : ℕ → Bool) (memory : ℕ → Memory) (callbacks : Callbacks C)
    (f : C → Decoded → C) (alloc : Alloc) (p : AfdPacket) (line_nr : ℕ) (ctx : Context C)
    → Grants 255 alloc
    → calloc 0 ≡ true
    → (memory 0).calloc_ok ≡ true
    → callbacks.decode afd ≡ some f
    → IsRepresentable p
    → (do
      words? ← klvanc_convert_afd_to_words alloc p
      words ← deref words?
      klvanc_packet_parse calloc malloc memory callbacks ctx line_nr (some words) (length words))
      ≡ ok (
        1,
        record ctx {
          cache_lines = update_cache (malloc 0) ctx.cache_lines (afd_header p line_nr);
          client = f (called callbacks.all ctx.client (afd_header p line_nr)) (afd_packet p);
        },
      )
packet_parse-convert_afd_to_words calloc malloc memory callbacks f alloc p line_nr ctx g c m r v =
    rw (convert_lem alloc p g) (
      packet_parse-packet calloc malloc memory callbacks 0x05 0x41 (afd_bytes p) line_nr ctx c
        (omega arith) (omega arith) (omega (arith, afd_bytes_size p))
        (omega (arith, afd_bytes_size p))
      ∙ (unfold afd_header in
          rw (deliver-afd (memory 0) callbacks f ctx.fragments ctx.client p line_nr m r v) refl))
