-- ===== src/Scte104/Sound.antt =====
-- What holds of every message that parse_SCTE_104 delivers.
use libklvanc.Prelude.{
  ℕ, zero, suc, ◌/◌, ◌%◌, ◌∷◌, Outcome, err, fault, Error, failed, enomem, Bool, true, false,
  Bool-cases, if◌then◌else◌, inl, inr, Option, none, some, All, drop, length-map, ◌∙◌, ◌+◌, ◌-◌,
  ◌≤◌, ◌≡◌, refl, ap, List, [], ok, not, ltb, ◌==◌, length, arith, ==_iff, Post, Post-bind,
  Post-guard, Post-ok,
}
use libklvanc.Word.{sanitize_word}
use libklvanc.Codec.{byte_at}
use libklvanc.Packet.{Header, first_words}
use libklvanc.Scte104.Bodies.{length-first_words}
use libklvanc.Scte104.Fragments.{
  Held, Step, message_fragment_reset, message_fragment_continued, message_fragment_following,
  message_fragment_final,
}
use libklvanc.Scte104.{Operation, Mom, Scte104Packet}
use libklvanc.Scte104.Reading.{short, byte, bytes}
use libklvanc.Scte104.Parser.{
  Allocs, parse_mom_timestamp, parse_request, parse_ops, parse_mom, parse_message, message_payload,
  payload_size, message_length, delivered, collecting, parse_descriptor, parse_scte_104,
}

bytes-length : (n : ℕ) (p : List ℕ) → Post (λ (r : List ℕ × List ℕ). length r.0 ≡ n) (bytes n p)
unfolding bytes
bytes-length zero p = Post-ok _ ([], p) refl
bytes-length (suc n) [] = record { holds = λ a e. cc }
bytes-length (suc n) (b ∷ p) =
    Post-bind (λ (r : List ℕ × List ℕ). length r.0 ≡ suc n) (bytes n p) _
      (λ r e. Post-ok _ _ (ap suc ((bytes-length n p).holds r e)))

-- An operation holds the bytes that it counts.
abbrev pub IsFilled : Operation → Type 0
IsFilled o = length o.body ≡ o.data_length

-- As many operations are read as are counted.
parse_ops-length :
    (alloc : Allocs) (n i limit : ℕ) (p : List ℕ)
    → Post (λ ops. (length ops ≡ n) × All IsFilled ops) (parse_ops alloc n i limit p)
unfolding parse_ops
parse_ops-length alloc zero i limit p = Post-ok _ [] (refl, tt)
parse_ops-length alloc (suc n) i limit p =
    let P : List Operation → Type 0 = λ ops. (length ops ≡ suc n) × All IsFilled ops in
    Post-bind P (short p) _ (λ a _. Post-bind P (short a.1) _ (λ b _.
      Post-guard P (not (ltb limit (payload_size - length p + b.0))) _ _ (λ _.
        Post-guard P (alloc.body_ok i) _ _ (λ _. Post-bind P (bytes b.0 b.1) _ (λ c filled.
          Post-bind P (parse_request (alloc.klbs_ok i) a.0 b.0 c.0) _ (λ r _.
            Post-bind P (parse_ops alloc n (i + 1) limit c.1) _ (λ ops e.
              let (count, each) = (parse_ops-length alloc n (i + 1) limit c.1).holds ops e in
              Post-ok P _ (ap suc count, ((bytes-length b.0 b.1).holds c filled, each)))))))))

-- The sizes that parse_SCTE_104 compares, and the operations that it counts.
pub record IsSound (limit : ℕ) (mom : Mom) : Type 0 where
  pub header : 10 ≤ limit
  pub size : mom.message_size ≤ limit
  pub ops : length mom.ops ≡ mom.num_ops
  pub bodies : All IsFilled mom.ops

parse_mom-IsSound :
    (alloc : Allocs) (limit : ℕ) (p : List ℕ) → Post (IsSound limit) (parse_mom alloc limit p)
unfolding parse_mom
parse_mom-IsSound alloc limit p =
    let P : Mom → Type 0 = IsSound limit in
    Post-guard P (not (ltb limit 10)) _ _ (λ long. Post-bind P (short p) _ (λ a _.
      Post-bind P (short a.1) _ (λ b _. Post-bind P (byte b.1) _ (λ c _.
        Post-bind P (byte c.1) _ (λ d _. Post-bind P (byte d.1) _ (λ e _.
          Post-bind P (short e.1) _ (λ f _. Post-bind P (byte f.1) _ (λ g _.
            Post-guard P (not (ltb limit b.0)) _ _ (λ fits.
              Post-bind P (parse_mom_timestamp g.1) _ (λ h _. Post-bind P (byte h.1) _ (λ n _.
                Post-guard P alloc.ops_ok _ _ (λ _.
                  Post-bind P (parse_ops alloc n.0 0 limit n.1) _ (λ ops read.
                    let (count, each) = (parse_ops-length alloc n.0 0 limit n.1).holds ops read in
                    Post-ok P _ (record {
                      header = ground (arith, long);
                      size = ground (arith, fits);
                      ops = count;
                      bodies = each;
                    }))))))))))))))

-- What holds of a packet that is delivered.
pub record IsSoundPacket (pkt : Scte104Packet) : Type 0 where
  pub kind : pkt.so_msg_op_id ≡ 0xffff
  pub message : IsSound pkt.payload_length_bytes pkt.mo_msg
  pub first : pkt.duplicate_msg ≡ 0
  pub last : pkt.continued_pkt ≡ 0
  pub capacity : length pkt.payload ≡ payload_size

abbrev IfDelivered : Option Scte104Packet → Type 0
IfDelivered none = Unit {0}
IfDelivered (some pkt) = IsSoundPacket pkt

length-message_payload : (hdr : Header) → length (message_payload hdr) ≡ payload_size
length-message_payload hdr =
    length-map (first_words payload_size (drop 1 hdr.payload)) sanitize_word
    ∙ length-first_words payload_size (drop 1 hdr.payload)

parse_message-IsSoundPacket :
    (alloc : Allocs) (descriptor : ℕ) (hdr : Header)
    → descriptor % 2 ≡ 0
    → descriptor / 4 % 2 ≡ 0
    → Post IsSoundPacket (parse_message alloc descriptor hdr)
unfolding parse_message
parse_message-IsSoundPacket alloc descriptor hdr d c =
    let n : ℕ = message_length hdr in
    let payload : List ℕ = message_payload hdr in
    Post-bind IsSoundPacket (short payload) _ (λ a _.
      Post-guard IsSoundPacket (a.0 == 0xffff) _ _ (λ k.
        Post-bind IsSoundPacket (parse_mom alloc n payload) _ (λ mom h.
          Post-ok IsSoundPacket _ (record {
            kind = (==_iff a.0 0xffff).0 k;
            message = (parse_mom-IsSound alloc n payload).holds mom h;
            first = d;
            last = c;
            capacity = length-message_payload hdr;
          }))))

delivered_sound :
    (alloc : Allocs) (descriptor : ℕ) (step : Step Header)
    → descriptor % 2 ≡ 0
    → descriptor / 4 % 2 ≡ 0
    → Post IfDelivered ((delivered alloc descriptor step).1)
delivered_sound alloc descriptor (held, complete) d c = Post-bind IfDelivered complete _ (λ hdr _.
    Post-bind IfDelivered (parse_message alloc descriptor hdr) _ (λ pkt e.
      Post-ok IfDelivered (some pkt)
        ((parse_message-IsSoundPacket alloc descriptor hdr d c).holds pkt e)))

refused : (e : Error) → Post IfDelivered (err e)
refused e = record { holds = λ a e. cc }

collecting_sound : (step : Step (Unit {0})) → Post IfDelivered ((collecting step).1)
collecting_sound (held, ok u) = refused (failed 1)
collecting_sound (held, err e) = refused (failed 1)
collecting_sound (held, fault) = record { holds = λ a e. cc }

parse_descriptor_sound :
    (alloc : Allocs) (held : Held) (d : ℕ) (hdr : Header)
    → Post IfDelivered ((parse_descriptor alloc held d hdr).1)
unfolding parse_descriptor
parse_descriptor_sound alloc held d hdr = elim (Bool-cases (d % 2 == 1)) [
  | inl duplicate ↦ rw duplicate (refused (failed 1))
  | inr first ↦ elim (Bool-cases (d == 0x08)) [
    | inl single ↦
        rw (first, single)
          (delivered_sound alloc d (message_fragment_reset held, ok hdr) (ground (arith, first))
            (ground (arith, single)))
    | inr series ↦ elim (Bool-cases (d / 4 % 2 == 1)) [
      | inl more ↦ elim (Bool-cases (d / 2 % 2 == 0)) [
        | inl start ↦
            rw (first, series, more, start)
              (collecting_sound
                (message_fragment_continued alloc.fragment_ok (message_fragment_reset held) hdr))
        | inr middle ↦
            rw (first, series, more, middle)
              (collecting_sound (message_fragment_following alloc.fragment_ok held hdr))
      ]
      | inr last ↦ elim (Bool-cases (d / 2 % 2 == 1)) [
        | inl end ↦
            rw (first, series, last, end)
              (delivered_sound alloc d
                (message_fragment_final alloc.fragment_ok alloc.complete_ok held hdr)
                (ground (arith, first)) (ground (arith, last)))
        | inr none_of ↦ rw (first, series, last, none_of) (refused (failed 1))
      ]
    ]
  ]
]

with_memory :
    (packet_ok : Bool) (held : Held) (step : Step (Option Scte104Packet))
    → Post IfDelivered step.1
    → Post IfDelivered ((if packet_ok then step else (held, err enomem)).1)
with_memory true held step p = p
with_memory false held step p = refused enomem

parse_sound :
    (registered : Bool) (alloc : Allocs) (held : Held) (hdr : Header)
    → Post IfDelivered ((parse_scte_104 registered alloc held hdr).1)
unfolding parse_scte_104
parse_sound false alloc held hdr = Post-ok IfDelivered none tt
parse_sound true alloc held hdr =
    with_memory alloc.packet_ok held (parse_descriptor alloc held (byte_at hdr 0) hdr)
      (parse_descriptor_sound alloc held (byte_at hdr 0) hdr)

-- Whatever is held, whatever the allocator answers and whatever the packet holds: where parse_SCTE_104
-- delivers a packet, its flags are those of no duplicate and of no packet with others behind it; it is a
-- multiple operation message; its length, as the unsigned number that the code computes, is at least
-- 10 and at least what the message says; it has as many operations as are counted, each with as
-- many bytes as it says; and its payload has 2000 bytes.
pub parse_scte_104-IsSoundPacket :
    (registered : Bool) (alloc : Allocs) (held left : Held) (hdr : Header) (pkt : Scte104Packet)
    → parse_scte_104 registered alloc held hdr ≡ (left, ok (some pkt))
    → IsSoundPacket pkt
parse_scte_104-IsSoundPacket registered alloc held left hdr pkt e =
    (parse_sound registered alloc held hdr).holds (some pkt)
      (ap (λ (r : Held × Outcome (Option Scte104Packet)). r.1) e)
