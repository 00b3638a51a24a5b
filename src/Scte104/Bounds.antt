-- ===== src/Scte104/Bounds.antt =====
-- The array of packets that are held is never left.
use libklvanc.Prelude.{
  ℕ, ◌+◌, ◌<◌, ◌≡◌, ◌≢◌, refl, [], ◌∷◌, ok, err, fault, failed, Outcome, Error, ◌/◌, ◌%◌,
  if◌then◌else◌, Bool, true, false, ◌==◌, length, length-append, arith, lt→ltb, inl, inr,
  Bool-cases,
}
use libklvanc.Codec.{byte_at}
use libklvanc.Packet.{Header}
use libklvanc.Packet.Append.{klvanc_packet_copy}
use libklvanc.Scte104.Fragments.{
  Held, as_fragment, message_fragment_append, message_fragment_reset, message_fragment_continued,
  message_fragment_following, message_fragment_final, complete_fragments,
}
use libklvanc.Scte104.Parser.{Allocs, parse_descriptor, parse_scte_104, collecting}

-- At most nine packets are held.
abbrev Bounded {ℓ} : {A : Type ℓ} → Held × Outcome A → Type 0
Bounded s = length s.0 < 10

-- The same, and no fault was met.
abbrev Stored {ℓ} : {A : Type ℓ} → Held × Outcome A → Type ℓ
Stored s = (length s.0 < 10) × (s.1 ≢ fault)

if_both {ℓ κ} :
    {A : Type ℓ} (P : A → Type κ) (b : Bool) {x y : A} → P x → P y → P (if b then x else y)
if_both P true p q = p
if_both P false p q = q

refused : (e : Error) (m : Outcome (Unit {0})) → m ≡ err e → m ≢ fault
refused e m h k = cc

-- With a free slot behind, the packet is stored, or the allocation is refused.
append-Stored :
    (b : Bool) (held : Held) (hdr : Header)
    → length held < 9
    → Stored (message_fragment_append b held hdr)
unfolding message_fragment_append klvanc_packet_copy
append-Stored true held hdr h =
    rw (lt→ltb (length held) 10 (omega arith))
      (omega (arith, length-append held (as_fragment hdr ∷ [])), λ e. cc)
append-Stored false held hdr h =
    rw (lt→ltb (length held) 10 (omega arith)) (omega arith, refused (failed 1) _ refl)

append_safe :
    (b : Bool) (held : Held) (hdr : Header)
    → length held < 10
    → (message_fragment_append b held hdr).1 ≢ fault
unfolding message_fragment_append klvanc_packet_copy
append_safe true held hdr h = rw (lt→ltb (length held) 10 h) (λ e. cc)
append_safe false held hdr h = rw (lt→ltb (length held) 10 h) (refused (failed 1) _ refl)

continued-Stored :
    (b : Bool) (held : Held) (hdr : Header)
    → Stored (message_fragment_continued b (message_fragment_reset held) hdr)
unfolding message_fragment_continued message_fragment_reset
continued-Stored b held hdr = append-Stored b [] hdr (omega arith)

following-Stored :
    (b : Bool) (held : Held) (hdr : Header)
    → length held < 10
    → Stored (message_fragment_following b held hdr)
unfolding message_fragment_following message_fragment_reset
following-Stored b held hdr h =
    if_both Stored (length held == 0) (omega arith, refused (failed 1) _ refl)
      (elim (Bool-cases (length held + 1 == 10)) [
        | inl e ↦ rw e (omega arith, refused (failed 1) _ refl)
        | inr e ↦ rw e (append-Stored b held hdr (ground (arith, e, h)))
      ])

complete-Bounded :
    (c : Bool) (s : Held × Outcome (Unit {0})) (hdr : Header)
    → s.1 ≢ fault
    → Bounded (complete_fragments c s hdr)
unfolding complete_fragments message_fragment_reset
complete-Bounded c (held, ok _) hdr h = omega arith
complete-Bounded c (held, err e) hdr h = omega arith
complete-Bounded c (held, fault) hdr h = absurd (h refl)

final-Bounded :
    (b c : Bool) (held : Held) (hdr : Header)
    → length held < 10
    → Bounded (message_fragment_final b c held hdr)
unfolding message_fragment_final message_fragment_reset
final-Bounded b c held hdr h =
    if_both Bounded (length held == 0) (omega arith)
      (complete-Bounded c (message_fragment_append b held hdr) hdr (append_safe b held hdr h))

collecting-Bounded : (s : Held × Outcome (Unit {0})) → Stored s → Bounded (collecting s)
collecting-Bounded (held, ok _) h = h.0
collecting-Bounded (held, err e) h = h.0
collecting-Bounded (held, fault) h = h.0

descriptor-Bounded :
    (alloc : Allocs) (held : Held) (d : ℕ) (hdr : Header)
    → length held < 10
    → Bounded (parse_descriptor alloc held d hdr)
unfolding parse_descriptor message_fragment_reset
descriptor-Bounded alloc held d hdr h = if_both Bounded (d % 2 == 1) h (
    if_both Bounded (d == 8) (omega arith) (
      if_both Bounded (d / 4 % 2 == 1)
        (if_both Bounded (d / 2 % 2 == 0)
          (collecting-Bounded _ (continued-Stored alloc.fragment_ok held hdr))
          (collecting-Bounded _ (following-Stored alloc.fragment_ok held hdr h)))
        (if_both Bounded (d / 2 % 2 == 1)
          (final-Bounded alloc.fragment_ok alloc.complete_ok held hdr h) h)))

-- While at most 9 packets are held, a call of parse_SCTE_104 leaves at most 9 of them, whatever the
-- allocator answers and whatever the packet is, and no packet is stored behind the 10 slots of the
-- array, neither by the first, the middle nor the last packet of a message.
pub parse_scte_104-held :
    (registered : Bool) (alloc : Allocs) (held : Held) (hdr : Header)
    → length held < 10
    → (length (parse_scte_104 registered alloc held hdr).0 < 10)
      × ((message_fragment_continued alloc.fragment_ok (message_fragment_reset held) hdr).1 ≢ fault)
      × ((message_fragment_following alloc.fragment_ok held hdr).1 ≢ fault)
      × ((message_fragment_append alloc.fragment_ok held hdr).1 ≢ fault)
unfolding parse_scte_104
parse_scte_104-held registered alloc held hdr h = (
  if_both Bounded registered
      (if_both Bounded (alloc.packet_ok) (descriptor-Bounded alloc held (byte_at hdr 0) hdr h) h) h,
  (continued-Stored alloc.fragment_ok held hdr).1,
  (following-Stored alloc.fragment_ok held hdr h).1,
  append_safe alloc.fragment_ok held hdr h,
)
