-- ===== src/Scte104/Delivered.antt =====
-- parse_SCTE_104 on a header whose payload is a message.
use libklvanc.Prelude.{
  ℕ, ◌-◌, ◌/◌, ◌%◌, ◌≤◌, ◌≡◌, refl, ◌∙◌, List, [], ◌++◌, ok, true, some, replicate, if_true,
  length-replicate, arith,
}
use libklvanc.Codec.{byte_at}
use libklvanc.Packet.{Header}
use libklvanc.Scte104.{Mom, Scte104Packet}
use libklvanc.Scte104.Fragments.{Held, message_fragment_reset}
use libklvanc.Scte104.Parser.{
  Allocs, message_payload, message_length, parse_message, parse_descriptor, parse_scte_104,
}
use libklvanc.Scte104.Received.{AllGranted, mom_read}
use libklvanc.Scte104.Wire.{IsMessage, mom_bytes, mom_size, mom_arrived}

-- A message that is whole in its packet.
pub parse_scte_104-whole :
    (alloc : Allocs) (held : Held) (hdr : Header) {pkt : Scte104Packet}
    → alloc.packet_ok ≡ true
    → byte_at hdr 0 ≡ 8
    → parse_message alloc 8 hdr ≡ ok pkt
    → parse_scte_104 true alloc held hdr ≡ ([], ok (some pkt))
unfolding parse_scte_104 parse_descriptor message_fragment_reset
parse_scte_104-whole alloc held hdr a b e = if_true alloc.packet_ok _ _ a ∙ rw b (rw e refl)

-- What is parsed of a message in one packet.
unfoldable pub packet_arrived : Mom → Scte104Packet
packet_arrived m = record {
  payload_descriptor_byte = 8;
  version = 1;
  continued_pkt = 0;
  following_pkt = 0;
  duplicate_msg = 0;
  payload = mom_bytes (mom_size m) m ++ replicate (2000 - mom_size m) 0;
  payload_length_bytes = mom_size m;
  so_msg_op_id = 0xffff;
  mo_msg = mom_arrived m;
}

module _ (alloc : Allocs) (g : AllGranted alloc) (m : Mom) (h : IsMessage m)
    (small : mom_size m ≤ 2000) where
  abbrev pub zeros : List ℕ
  zeros = replicate (2000 - mom_size m) 0

  -- The parser behind the payload and its length.
  pub parse_message_at :
      (descriptor : ℕ) (hdr : Header)
      → message_payload hdr ≡ mom_bytes (mom_size m) m ++ zeros
      → message_length hdr ≡ mom_size m
      → parse_message alloc descriptor hdr
        ≡ ok (record (packet_arrived m) {
          payload_descriptor_byte = descriptor;
          version = descriptor / 8 % 4;
          continued_pkt = descriptor / 4 % 2;
          following_pkt = descriptor / 2 % 2;
          duplicate_msg = descriptor % 2;
        })
  unfolding parse_message packet_arrived
  parse_message_at descriptor hdr p l =
      rw (p, l)
        (rw
          (mom_read alloc g m zeros h
            (omega (arith, small, length-replicate {A = ℕ} (2000 - mom_size m) 0)))
          refl)
