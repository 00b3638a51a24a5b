-- ===== src/Dispatch.antt =====
-- parseByType of src/core-packets.c, and the callbacks of struct klvanc_context_s: what is done with a
-- packet that was found.
pub mod Safe
use libklvanc.Prelude.{
  ℕ, Outcome, ok, err, fault, einval, ◌>>=◌, Bool, true, false, Option, none, some,
}
use libklvanc.Packet.{
  Header, PacketType, undefined, afd, eia_708b, eia_608, scte_104, kl_uint64_counter, sdp,
  smpte_s12_2, smpte_s2108_1,
}
use libklvanc.Counter.{CounterPacket, parse_kl_u64le_counter}
use libklvanc.Afd.{AfdPacket, parse_afd}
use libklvanc.Eia608.{Eia608Packet, parse_eia_608}
use libklvanc.Eia708.{Eia708Packet}
use libklvanc.Eia708.Parser.{parse_eia_708b}
use libklvanc.Timecode.{TimecodePacket, parse_smpte_12_2}
use libklvanc.Smpte2108.{HdrPacket, parse_smpte_2108_1}
use libklvanc.Sdp.{SdpPacket, parse_sdp}
use libklvanc.Scte104.{Scte104Packet}
use libklvanc.Scte104.Fragments.{Held}
use libklvanc.Scte104.Parser.{Allocs, parse_scte_104}

-- What `*pp` points to, by the parser that made it.
pub data Decoded : Type 0 where
  counter_packet : CounterPacket → Decoded
  afd_packet : AfdPacket → Decoded
  scte_104_packet : Scte104Packet → Decoded
  timecode_packet : TimecodePacket → Decoded
  hdr_packet : HdrPacket → Decoded
  eia_708b_packet : Eia708Packet → Decoded
  eia_608_packet : Eia608Packet → Decoded
  sdp_packet : SdpPacket → Decoded

-- What the allocator answers to a parser: to its `klbs_alloc`, to the `calloc` of its packet, and to
-- parse_SCTE_104.
pub record Memory : Type 0 where
  pub klbs_ok : Bool
  pub calloc_ok : Bool
  pub fragments : Allocs

abbrev pub decoded {ℓ} :
    {A : Type ℓ} → (A → Decoded) → Outcome (Option A) → Outcome (Option Decoded)
decoded f (ok (some a)) = ok (some (f a))
decoded f (ok none) = ok none
decoded f (err e) = err e
decoded f fault = fault

-- The table `types`, with the parser of each row. `registered` says whether the type has a callback;
-- a packet is what that gets. `held` is what SCTE 104 keeps in the context.
unfoldable pub parse_as :
    PacketType → Bool → Memory → Held → Header → Held × Outcome (Option Decoded)
parse_as undefined registered memory held hdr = (held, err einval)
parse_as afd registered memory held hdr =
    (held, decoded afd_packet (parse_afd registered memory.calloc_ok hdr))
parse_as eia_708b registered memory held hdr =
    (held, decoded eia_708b_packet (parse_eia_708b registered memory.klbs_ok memory.calloc_ok hdr))
parse_as eia_608 registered memory held hdr =
    (held, decoded eia_608_packet (parse_eia_608 registered memory.calloc_ok hdr))
parse_as scte_104 registered memory held hdr =
    let r = parse_scte_104 registered memory.fragments held hdr in
    (r.0, decoded scte_104_packet r.1)
parse_as kl_uint64_counter registered memory held hdr =
    (held, decoded counter_packet (parse_kl_u64le_counter registered memory.calloc_ok hdr))
parse_as sdp registered memory held hdr =
    (held, decoded sdp_packet (parse_sdp registered memory.calloc_ok hdr))
parse_as smpte_s12_2 registered memory held hdr =
    (held, decoded timecode_packet (parse_smpte_12_2 registered memory.calloc_ok hdr))
parse_as smpte_s2108_1 registered memory held hdr =
    (held, decoded hdr_packet (parse_smpte_2108_1 registered memory.klbs_ok memory.calloc_ok hdr))

-- `parseByType`
unfoldable pub parse_by_type : Bool → Memory → Held → Header → Held × Outcome (Option Decoded)
unfolding parse_as
parse_by_type registered memory held hdr = parse_as hdr.packet_type registered memory held hdr

-- The callbacks, which may be null, as functions on the application's data: the one for all packets,
-- and one for each type.
pub record Callbacks (C : Type 0) : Type 0 where
  pub all : Option (C → Header → C)
  pub decode : PacketType → Option (C → Decoded → C)

abbrev pub is_registered {ℓ} : {A : Type ℓ} → Option A → Bool
is_registered none = false
is_registered (some f) = true

abbrev pub called : {C A : Type 0} → Option (C → A → C) → C → A → C
called none client a = client
called (some f) client a = f client a

-- What the callback of the type does when the parser is done. An error is only reported; a fault of
-- the parser is one of the whole call.
abbrev pub answered :
    {C : Type 0}
    → Option (C → Decoded → C)
    → C
    → Held × Outcome (Option Decoded)
    → Outcome (Held × C)
answered callback client (held, ok (some packet)) = ok (held, called callback client packet)
answered callback client (held, ok none) = ok (held, client)
answered callback client (held, err e) = ok (held, client)
answered callback client (held, fault) = fault

-- The callback for all packets, then the parser of the type.
unfoldable pub deliver :
    {C : Type 0} → Memory → Callbacks C → Held → C → Header → Outcome (Held × C)
unfolding parse_by_type
deliver memory callbacks held client hdr =
    let callback = callbacks.decode hdr.packet_type in
    answered callback (called callbacks.all client hdr)
      (parse_by_type (is_registered callback) memory held hdr)
