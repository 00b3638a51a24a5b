-- ===== src/Scte104/Converted.antt =====
-- klvanc_convert_SCTE_104_to_packetBytes: the size is set in the bytes of the message.
use libklvanc.Prelude.{
  ℕ, ◌/◌, ◌%◌, ◌≤◌, ◌<◌, ◌≡◌, refl, ap, ◌∙◌, List, ◌++◌, ok, failed, ◌>>=◌, ◌>>◌, Outcome, Bool,
  true, false, none, some, Option, length, arith, guard, alloc_or, bind_mapped,
}
use libklvanc.Bitstream.{klbs_write_fields, klbs_write_set_buffer, klbs_write_buffer_complete}
use libklvanc.Bitstream.RoundTrip.{length-fields_bits}
use libklvanc.Codec.{Alloc, to_packet_bytes}
use libklvanc.Codec.Laws.{Grants, to_packet_bytes-serialize}
use libklvanc.Codec.Serialize.{serialize}
use libklvanc.Codec.Whole.{Writes-serialize}
use libklvanc.Scte104.{Mom, Scte104Packet}
use libklvanc.Scte104.Builder.{with_size, klvanc_convert_scte_104_to_packet_bytes}
use libklvanc.Scte104.Sent.{mom-Made}
use libklvanc.Scte104.Wire.{IsMessage, mom_bytes, mom_size}

-- What is run when the allocations succeed, and the fields are known.
granted_mapped :
    {A B F : Type 0} {made : Outcome F} {f : F} {a : A} {b : B} (klbs_ok : Bool)
    (buffer : Option (List ℕ)) (run : List ℕ → Outcome A) (run' : List ℕ → F → Outcome B)
    → made ≡ ok f
    → ((mem : List ℕ) → run mem ≡ ok a → run' mem f ≡ ok b)
    → (guard klbs_ok (failed 1) >> (alloc_or (failed 1) buffer >>= run)) ≡ ok a
    → (do guard klbs_ok (failed 1); mem ← alloc_or (failed 1) buffer; f' ← made; run' mem f') ≡ ok b
granted_mapped true (some mem) run run' e g h = rw e (g mem h)
granted_mapped true none run run' e g h = cc
granted_mapped false buffer run run' e g h = cc

with_size-mom_bytes :
    (m : Mom) (rest : List ℕ) {bytes : List ℕ} {count : ℕ} (old n : ℕ)
    → bytes ≡ mom_bytes old m
    → count ≡ n
    → n < 65536
    → with_size (bytes ++ rest) (count % 65536) ≡ (mom_bytes n m ++ rest, n)
with_size-mom_bytes m rest old n b c h =
    let e : n % 65536 ≡ n = omega arith in
    let d : n / 256 % 256 ≡ n / 256 = omega arith in rw (b, c, e, d) refl

-- If the allocator grants every buffer, then klvanc_convert_SCTE_104_to_packetBytes makes of a multiple
-- operation message of at most 2000 bytes, whose identifiers name the requests that are set, exactly the
-- bytes of its members in the order of the standard, with their number in bytes 2 and 3, and returns
-- that number.
pub convert-mom_bytes :
    (alloc : Alloc) (allocs : ℕ → Alloc) (pkt : Scte104Packet)
    → Grants 2000 alloc
    → ((i : ℕ) → Grants 255 (allocs i))
    → pkt.so_msg_op_id ≡ 0xffff
    → IsMessage pkt.mo_msg
    → mom_size pkt.mo_msg ≤ 2000
    → (rest : List ℕ) × (klvanc_convert_scte_104_to_packet_bytes alloc allocs pkt
        ≡ ok (mom_bytes (mom_size pkt.mo_msg) pkt.mo_msg ++ rest, mom_size pkt.mo_msg))
unfolding klvanc_convert_scte_104_to_packet_bytes to_packet_bytes
convert-mom_bytes alloc allocs pkt g gs op h small =
    let m : Mom = pkt.mo_msg in
    let made = mom-Made allocs gs m h in
    let bytes : serialize made.fields ≡ mom_bytes m.message_size m = Writes-serialize made.writes in
    let count : length (serialize made.fields) ≡ mom_size m =
      ap (λ (l : List ℕ). length l) bytes ∙ omega arith in
    let (rest, e) =
      to_packet_bytes-serialize alloc (failed 1) 2000 made.fields g
        (omega (arith, length-fields_bits made.fields, made.writes.size)) in
    let sized : with_size (serialize made.fields ++ rest) (length (serialize made.fields) % 65536)
        ≡ (mom_bytes (mom_size m) m ++ rest, mom_size m) =
      with_size-mom_bytes m rest m.message_size (mom_size m) bytes count (omega arith) in
    (
      rest,
      rw op (
          granted_mapped alloc.klbs_ok alloc.buffer _ _ made.result
            (λ mem t.
              bind_mapped (klbs_write_fields (klbs_write_set_buffer mem 2000) made.fields)
                klbs_write_buffer_complete _ (λ (p : List ℕ × ℕ). with_size p.0 (p.1 % 65536)) t)
            e
          ∙ ap (λ (p : List ℕ × ℕ). ok p) sized),
    )
