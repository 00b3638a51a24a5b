-- ===== src/Dispatch/Safe.antt =====
-- The parsers that stay in their memory whatever a packet holds.
use libklvanc.Prelude.{
  ◌≡◌, ◌≢◌, ◌⊎◌, inl, inr, refl, Outcome, ok, err, fault, Error, einval, enomem, guard, ◌>>◌, Bool,
  true, false, Option, none, some, ◌==◌, ◌&&◌,
}
use libklvanc.Codec.{byte_at}
use libklvanc.Packet.{
  Header, PacketType, undefined, afd, eia_708b, eia_608, scte_104, kl_uint64_counter, sdp,
  smpte_s12_2, smpte_s2108_1,
}
use libklvanc.Counter.{parse_kl_u64le_counter}
use libklvanc.Afd.{parse_afd}
use libklvanc.Eia608.{parse_eia_608}
use libklvanc.Timecode.{parse_smpte_12_2}
use libklvanc.Sdp.{parse_sdp}
use libklvanc.Scte104.Fragments.{Held}
use libklvanc.Dispatch.{
  Decoded, Memory, Callbacks, decoded, parse_as, parse_by_type, is_registered, called, answered,
  deliver,
}

-- The types whose parsers follow counts in the packet.
abbrev pub IsOpen : PacketType → Type 0
IsOpen t = (t ≡ eia_708b) ⊎ (t ≡ scte_104) ⊎ (t ≡ smpte_s2108_1)

guard_safe :
    {A : Type 0} (c : Bool) (x : Error) (m : Outcome A) → m ≢ fault → (guard c x >> m) ≢ fault
guard_safe true x m h e = h e
guard_safe false x m h e = cc

decoded_safe :
    {A : Type 0} (f : A → Decoded) (m : Outcome (Option A)) → m ≢ fault → decoded f m ≢ fault
decoded_safe f (ok (some a)) h e = cc
decoded_safe f (ok none) h e = cc
decoded_safe f (err x) h e = cc
decoded_safe f fault h e = h refl

module _ (hdr : Header) where
  counter_safe :
      (registered calloc_ok : Bool) → parse_kl_u64le_counter registered calloc_ok hdr ≢ fault
  unfolding parse_kl_u64le_counter
  counter_safe false calloc_ok = λ e. cc
  counter_safe true calloc_ok = guard_safe calloc_ok enomem _ (λ e. cc)

  afd_safe : (registered calloc_ok : Bool) → parse_afd registered calloc_ok hdr ≢ fault
  unfolding parse_afd
  afd_safe false calloc_ok = λ e. cc
  afd_safe true calloc_ok = guard_safe calloc_ok enomem _ (λ e. cc)

  eia_608_safe : (registered calloc_ok : Bool) → parse_eia_608 registered calloc_ok hdr ≢ fault
  unfolding parse_eia_608
  eia_608_safe false calloc_ok = λ e. cc
  eia_608_safe true calloc_ok = guard_safe calloc_ok enomem _ (λ e. cc)

  smpte_12_2_safe :
      (registered calloc_ok : Bool) → parse_smpte_12_2 registered calloc_ok hdr ≢ fault
  unfolding parse_smpte_12_2
  smpte_12_2_safe false calloc_ok = λ e. cc
  smpte_12_2_safe true calloc_ok =
      guard_safe (hdr.payload_length_words == 16) einval _ (guard_safe calloc_ok enomem _ (λ e. cc))

  sdp_safe : (registered calloc_ok : Bool) → parse_sdp registered calloc_ok hdr ≢ fault
  unfolding parse_sdp
  sdp_safe false calloc_ok = λ e. cc
  sdp_safe true calloc_ok =
      guard_safe ((byte_at hdr 0 == 0x51) && (byte_at hdr 1 == 0x15)) einval _
        (guard_safe calloc_ok enomem _ (λ e. cc))

  parse_as-IsOpen :
      (t : PacketType) (registered : Bool) (memory : Memory) (held : Held)
      → (parse_as t registered memory held hdr).1 ≡ fault
      → IsOpen t
  unfolding parse_as
  parse_as-IsOpen undefined registered memory held e = cc
  parse_as-IsOpen eia_708b registered memory held e = inl refl
  parse_as-IsOpen scte_104 registered memory held e = inr (inl refl)
  parse_as-IsOpen smpte_s2108_1 registered memory held e = inr (inr refl)
  parse_as-IsOpen afd registered memory held e =
      absurd (decoded_safe _ _ (afd_safe registered memory.calloc_ok) e)
  parse_as-IsOpen eia_608 registered memory held e =
      absurd (decoded_safe _ _ (eia_608_safe registered memory.calloc_ok) e)
  parse_as-IsOpen kl_uint64_counter registered memory held e =
      absurd (decoded_safe _ _ (counter_safe registered memory.calloc_ok) e)
  parse_as-IsOpen sdp registered memory held e =
      absurd (decoded_safe _ _ (sdp_safe registered memory.calloc_ok) e)
  parse_as-IsOpen smpte_s12_2 registered memory held e =
      absurd (decoded_safe _ _ (smpte_12_2_safe registered memory.calloc_ok) e)

answered-fault :
    {C : Type 0} (callback : Option (C → Decoded → C)) (client : C)
    (r : Held × Outcome (Option Decoded))
    → answered callback client r ≡ fault
    → r.1 ≡ fault
answered-fault callback client (held, ok (some packet)) e = cc
answered-fault callback client (held, ok none) e = cc
answered-fault callback client (held, err x) e = cc
answered-fault callback client (held, fault) e = refl

-- A fault is one of the parsers of the three types.
pub deliver-IsOpen :
    {C : Type 0} (memory : Memory) (callbacks : Callbacks C) (held : Held) (client : C)
    (hdr : Header)
    → deliver memory callbacks held client hdr ≡ fault
    → IsOpen hdr.packet_type
unfolding deliver parse_by_type
deliver-IsOpen memory callbacks held client hdr e =
    let callback = callbacks.decode hdr.packet_type in
    parse_as-IsOpen hdr hdr.packet_type (is_registered callback) memory held (
      answered-fault callback (called callbacks.all client hdr)
        (parse_by_type (is_registered callback) memory held hdr) e)
