-- ===== src/Bitstream/RoundTrip.antt =====
-- What is written with klbs_write_bits is read back by klbs_read_bits.
use libklvanc.Prelude.{
  ℕ, ◌+◌, ◌-◌, ◌*◌, ◌%◌, ◌≤◌, ◌≡◌, refl, sym, ap, ◌∙◌, List, [], ◌∷◌, ◌++◌, ok, ◌>>=◌, All, take,
  drop, length, replicate, arith, take-append-drop, length-append, bind_assoc, Outcome,
}
use libklvanc.Bitstream.{
  Klbs, klbs_write_fields, klbs_write_set_buffer, klbs_write_buffer_complete, klbs_read_set_buffer,
  klbs_read_fields,
}
use libklvanc.Bitstream.Bits.{to_bits, length-to_bits, fields_bits, bits_of, bits_of-append}
use libklvanc.Bitstream.Store.{IsByte}
use libklvanc.Bitstream.Writes.{Message, write_message_lem, Message-as_bytes}
use libklvanc.Bitstream.ReadBit.{at}
use libklvanc.Bitstream.Reads.{total, widths, field_values, read_fields_lem, values_at-fields}
use Prim.Native.Nat.add
use mathlib.Core.List.{append_assoc}

pub read_set_buffer-at : (mem : List ℕ) (n : ℕ) → klbs_read_set_buffer mem n ≡ at mem n 0
unfolding klbs_read_set_buffer
read_set_buffer-at mem n = refl

abbrev pub AreFields : List (ℕ × ℕ) → Type 0
AreFields fields = All (λ f. f.1 ≤ 64) fields

pub length-fields_bits :
    (fields : List (ℕ × ℕ)) → length (fields_bits fields) ≡ total (widths fields)
unfolding fields_bits
length-fields_bits [] = refl
length-fields_bits ((v, k) ∷ fields) = omega (
  arith,
  length-append (to_bits k v) (fields_bits fields),
  length-to_bits k v,
  length-fields_bits fields,
)

Message-bits :
    {mem : List ℕ} {fields : List (ℕ × ℕ)} {t : Klbs}
    → Message mem fields t
    → (rest : List ℕ) × (bits_of t.buf ≡ fields_bits fields ++ rest)
Message-bits {mem} {fields} {t} m = (
  _,
  ap bits_of (sym (take-append-drop t.buflen_used t.buf))
      ∙ bits_of-append (take t.buflen_used t.buf) (drop t.buflen_used t.buf)
      ∙ ap (λ (l : List ℕ). l ++ bits_of (drop t.buflen_used t.buf)) m.bits
      ∙ append_assoc (fields_bits fields) (replicate ((8 - length (fields_bits fields) % 8) % 8) 0)
          (bits_of (drop t.buflen_used t.buf)),
)

-- Reading a message back, from its first bit to its last.
read-Message :
    {mem : List ℕ} {fields : List (ℕ × ℕ)} {t : Klbs}
    → Message mem fields t
    → All IsByte mem
    → AreFields fields
    → t.buflen_used ≤ length mem
    → klbs_read_fields (widths fields) (klbs_read_set_buffer t.buf t.buflen_used)
      ≡ ok (field_values fields, at t.buf t.buflen_used (total (widths fields)))
read-Message {mem} {fields} {t} m a f h =
    let (rest, e) = Message-bits m in
    let fits : 0 + total (widths fields) ≤ 8 * t.buflen_used =
      omega (arith, length-fields_bits fields, m.used) in
    rw (read_set_buffer-at t.buf t.buflen_used) (
      read_fields_lem (widths fields) t.buf t.buflen_used 0 fits (omega (arith, m.same_mem))
        (Message-as_bytes m a)
      ∙ rw (values_at-fields fields t.buf rest 0 f e, add.zero (total (widths fields))))

abbrev pub first {ℓ κ} : {A : Type ℓ} {B : Type κ} → Outcome (A × B) → Outcome A
first m = m >>= λ r. ok r.0

-- A run of fields of at most 64 bits that fits the buffer is written, and reading the written bytes
-- with the same widths returns every value, cut to its width.
pub read_fields-write_fields :
    (mem : List ℕ) (n : ℕ) (fields : List (ℕ × ℕ))
    → n ≤ length mem
    → length (fields_bits fields) ≤ 8 * n
    → All IsByte mem
    → AreFields fields
    → (do
      t ← klbs_write_fields (klbs_write_set_buffer mem n) fields
      u ← klbs_write_buffer_complete t
      first (klbs_read_fields (widths fields) (klbs_read_set_buffer u.buf u.buflen_used)))
      ≡ ok (field_values fields)
read_fields-write_fields mem n fields h k a f =
    let (t, e, m) = write_message_lem mem n fields h k in
    let l : t.buflen_used ≤ length mem = omega (arith, m.used) in
    sym (
      bind_assoc (klbs_write_fields (klbs_write_set_buffer mem n) fields) klbs_write_buffer_complete
        (λ u. first (klbs_read_fields (widths fields) (klbs_read_set_buffer u.buf u.buflen_used))))
    ∙ rw e (rw (read-Message m a f l))
