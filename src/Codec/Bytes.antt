-- ===== src/Codec/Bytes.antt =====
-- The bytes of a run of fields: their number, their bits, and what becomes of the rest of a buffer.
use libklvanc.Prelude.{
  ℕ, ◌+◌, ◌-◌, ◌*◌, ◌/◌, ◌%◌, ◌≤◌, ◌≡◌, sym, ap, ◌∙◌, List, ◌++◌, length, length-take,
  length-replicate, replicate, arith, All, take, drop, take-append-drop,
}
use mathlib.Core.List.{append-nil}
use libklvanc.Bitstream.{Klbs}
use libklvanc.Bitstream.Bits.{fields_bits, bits_of}
use libklvanc.Bitstream.Store.{IsByte}
use libklvanc.Bitstream.Writes.{Message, write_message_lem, padded}
use libklvanc.Codec.Serialize.{serialize}

module _ {mem : List ℕ} {fields : List (ℕ × ℕ)} {t : Klbs} (m : Message mem fields t) where
  pub Message-take : take t.buflen_used t.buf ≡ serialize fields
  unfolding serialize
  Message-take = m.bytes

  pub Message-buf : t.buf ≡ serialize fields ++ drop t.buflen_used mem
  Message-buf =
      sym (take-append-drop t.buflen_used t.buf)
      ∙ ap (λ (l : List ℕ). l ++ drop t.buflen_used t.buf) Message-take
      ∙ ap (λ (l : List ℕ). serialize fields ++ l) m.kept

  Message-length :
      length (fields_bits fields) ≤ 8 * length mem
      → length (serialize fields) ≡ (length (fields_bits fields) + 7) / 8
  Message-length h =
      ap (λ (l : List ℕ). length l) (sym Message-take)
      ∙ length-take t.buflen_used t.buf (omega (arith, m.used, m.same_mem))
      ∙ m.used

-- A buffer that is large enough for the fields.
module _ (fields : List (ℕ × ℕ)) where
  abbrev scratch : List ℕ
  scratch = replicate (length (fields_bits fields)) 0

  scratch_size : length scratch ≡ length (fields_bits fields)
  scratch_size = length-replicate (length (fields_bits fields)) 0

  message : (t : Klbs) × Message scratch fields t
  message =
      let (t, e, m) =
        write_message_lem scratch (length (fields_bits fields)) fields (omega (arith, scratch_size))
          (omega arith) in
      (t, m)

  pub length-serialize : length (serialize fields) ≡ (length (fields_bits fields) + 7) / 8
  length-serialize = Message-length message.1 (omega (arith, scratch_size))

  pub serialize-IsByte : All IsByte (serialize fields)
  serialize-IsByte = rw (Message-take message.1) at message.1.as_bytes

  pub bits_of-serialize : bits_of (serialize fields) ≡ padded (fields_bits fields)
  bits_of-serialize = ap bits_of (sym (Message-take message.1)) ∙ message.1.bits

  pub bits_of-serialize_whole :
      length (fields_bits fields) % 8 ≡ 0 → bits_of (serialize fields) ≡ fields_bits fields
  bits_of-serialize_whole h =
      let z : (8 - length (fields_bits fields) % 8) % 8 ≡ 0 = omega arith in
      bits_of-serialize
      ∙ ap (λ (n : ℕ). fields_bits fields ++ replicate n 0) z
      ∙ append-nil (fields_bits fields)
