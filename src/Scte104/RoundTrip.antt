-- ===== src/Scte104/RoundTrip.antt =====
-- A message that is converted, sent as an ancillary packet, and parsed.
use libklvanc.Prelude.{
  ℕ, ◌+◌, ◌-◌, ◌≤◌, ◌<◌, ◌≡◌, refl, ap, ◌∙◌, List, [], ◌∷◌, ◌++◌, ok, ◌>>=◌, Outcome, true, leb,
  some, Option, deref, replicate, length, All, arith,
}
use mathlib.Core.Path.{subst}
use libklvanc.Bitstream.Store.{IsByte}
use libklvanc.Payload.{copy_bytes}
use libklvanc.Codec.{Alloc, to_words}
use libklvanc.Codec.Laws.{Grants}
use libklvanc.Codec.Bytes.{serialize-IsByte}
use libklvanc.Codec.Whole.{Writes-serialize}
use libklvanc.Packet.{Header, lookup_type_by_did, parse, PacketType, scte_104}
use libklvanc.Packet.RoundTrip.{
  packet, header_of, parse-packet_alone, first_words-parity, first_words-pad,
  sanitize-generate_parity,
}
use libklvanc.Payload.Laws.{copy_bytes-all, create_payload-exact}
use libklvanc.Scte104.{Mom, Scte104Packet}
use libklvanc.Scte104.Builder.{
  klvanc_convert_scte_104_packetbytes_to_smpte_2010, klvanc_convert_scte_104_to_words,
}
use libklvanc.Scte104.Fragments.{Held, Step}
use libklvanc.Scte104.Parser.{Allocs, message_payload, parse_scte_104}
use libklvanc.Scte104.Sent.{mom-Made}
use libklvanc.Scte104.Received.{AllGranted}
use libklvanc.Scte104.Wire.{IsMessage, mom_bytes, mom_size}
use libklvanc.Scte104.Converted.{convert-mom_bytes}
use libklvanc.Scte104.Delivered.{packet_arrived, parse_message_at, parse_scte_104-whole}

-- klvanc_convert_SCTE_104_packetbytes_to_SMPTE_2010 puts the descriptor in front, up to 2000 bytes.
smpte_2010_lem :
    (bytes rest : List ℕ) (n : ℕ)
    → length bytes ≡ n
    → n ≤ 2000
    → klvanc_convert_scte_104_packetbytes_to_smpte_2010 true (bytes ++ rest) n
      ≡ ok (8 ∷ bytes, n + 1)
unfolding klvanc_convert_scte_104_packetbytes_to_smpte_2010
smpte_2010_lem bytes rest n l h =
    let e : leb n 2000 ≡ true = ground arith in
    let c : copy_bytes (bytes ++ rest) n ≡ ok bytes = rw (← l) (copy_bytes-all bytes rest) in
    rw e (rw c refl)

module _ (alloc : Allocs) (g : AllGranted alloc) (m : Mom) (h : IsMessage m)
    (small : mom_size m ≤ 2000) where
  parse_words :
      (raw : List ℕ) (held : Held)
      → All IsByte (mom_bytes (mom_size m) m)
      → parse_scte_104 true alloc held (header_of 7 0x41 (8 ∷ mom_bytes (mom_size m) m) raw)
        ≡ ([], ok (some (packet_arrived m)))
  unfolding header_of packet_arrived
  parse_words raw held a =
      let bytes : List ℕ = mom_bytes (mom_size m) m in
      let payload : message_payload (header_of 7 0x41 (8 ∷ bytes) raw)
          ≡ bytes ++ replicate (2000 - mom_size m) 0 =
        first_words-parity 2000 bytes a
        ∙ first_words-pad 2000 (2000 - mom_size m) bytes (omega (arith, small)) in
      let read =
        parse_message_at alloc g m h small 8 (header_of 7 0x41 (8 ∷ bytes) raw) payload
          (omega (arith, small)) in
      parse_scte_104-whole alloc held (header_of 7 0x41 (8 ∷ bytes) raw) g.packet
        (sanitize-generate_parity 8 (omega arith)) read

to_words-packet :
    (alloc : Alloc) (sdid did : ℕ) (src : List ℕ) (n : ℕ)
    → alloc.words_ok ≡ true
    → 0 < sdid
    → 0 < did
    → 0 < length src
    → length src ≡ n
    → to_words alloc sdid did (src, n) ≡ ok (some (packet sdid did src))
unfolding to_words
to_words-packet alloc sdid did src n w s d k e =
    rw (w, ← e)
      (rw
        (create_payload-exact sdid did src (omega (arith, s)) (omega (arith, d)) (omega (arith, k)))
        refl)

words_made :
    (alloc : Alloc) (allocs : ℕ → Alloc) (pkt : Scte104Packet)
    → Grants 2000 alloc
    → ((i : ℕ) → Grants 255 (allocs i))
    → pkt.so_msg_op_id ≡ 0xffff
    → IsMessage pkt.mo_msg
    → mom_size pkt.mo_msg ≤ 2000
    → klvanc_convert_scte_104_to_words true alloc allocs pkt
      ≡ ok (some (packet 7 0x41 (8 ∷ mom_bytes (mom_size pkt.mo_msg) pkt.mo_msg)))
unfolding klvanc_convert_scte_104_to_words
words_made alloc allocs pkt g gs op h small =
    let m : Mom = pkt.mo_msg in
    let bytes : List ℕ = mom_bytes (mom_size m) m in
    let (rest, e) = convert-mom_bytes alloc allocs pkt g gs op h small in
    rw e (
      rw (smpte_2010_lem bytes rest (mom_size m) (omega arith) small) (
        to_words-packet alloc 7 0x41 (8 ∷ bytes) (mom_size m + 1) g.words (omega arith)
          (omega arith) (omega arith) (omega arith)))

pub mom_bytes-IsByte :
    (allocs : ℕ → Alloc)
    → ((i : ℕ) → Grants 255 (allocs i))
    → (m : Mom) → IsMessage m
    → All IsByte (mom_bytes (mom_size m) m)
mom_bytes-IsByte allocs gs m h =
    let made = mom-Made allocs gs m h in
    let a : All IsByte (mom_bytes m.message_size m) =
      subst (λ (l : List ℕ). All IsByte l) (Writes-serialize made.writes)
        (serialize-IsByte made.fields) in
    (omega arith, (omega arith, (omega arith, (omega arith, a.1.1.1.1))))

type_found : (src raw : List ℕ) → (header_of 7 0x41 src raw).packet_type ≡ scte_104
unfolding header_of lookup_type_by_did
type_found src raw = refl

-- The type that `parse` finds, and what the parser of that type makes.
abbrev pub with_type :
    Header → Step (Option Scte104Packet) → Outcome (PacketType × Step (Option Scte104Packet))
with_type hdr step = ok (hdr.packet_type, step)

-- If the allocator grants every buffer, then the words that klvanc_convert_SCTE_104_to_words makes of a
-- multiple operation message of at most 254 bytes are one ancillary packet that `parse` takes for
-- SCTE 104.
pub parse_scte_104-convert_scte_104_to_words :
    (alloc : Alloc) (allocs : ℕ → Alloc) (received : Allocs) (pkt : Scte104Packet) (held : Held)
    (failures : ℕ)
    → Grants 2000 alloc
    → ((i : ℕ) → Grants 255 (allocs i))
    → AllGranted received
    → pkt.so_msg_op_id ≡ 0xffff
    → IsMessage pkt.mo_msg
    → mom_size pkt.mo_msg ≤ 254
    → (do
      words? ← klvanc_convert_scte_104_to_words true alloc allocs pkt
      words ← deref words?
      (hdr, _) ← parse true words (length words) failures
      with_type hdr (parse_scte_104 true received held hdr))
      ≡ ok (scte_104, ([], ok (some (packet_arrived pkt.mo_msg))))
parse_scte_104-convert_scte_104_to_words alloc allocs received pkt held failures g gs r op h small =
    let m : Mom = pkt.mo_msg in
    let bytes : List ℕ = mom_bytes (mom_size m) m in
    let src : List ℕ = 8 ∷ bytes in
    rw (words_made alloc allocs pkt g gs op h (omega arith)) (
      rw
        (parse-packet_alone 7 0x41 src failures (omega arith) (omega arith) (omega arith)
          (omega (arith, small)))
        (rw
          (parse_words received r m h (omega arith) (packet 7 0x41 src) held
            (mom_bytes-IsByte allocs gs m h))
          (ap (λ (t : PacketType). ok (t, ([], ok (some (packet_arrived m)))))
            (type_found src (packet 7 0x41 src)))))
