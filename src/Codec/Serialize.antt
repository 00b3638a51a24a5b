-- ===== src/Codec/Serialize.antt =====
-- Fields as bytes: what the buffer of a converter holds.
use libklvanc.Prelude.{
  ℕ, ◌+◌, ◌-◌, ◌*◌, ◌/◌, ◌%◌, ◌≡◌, refl, sym, List, [], ◌∷◌, ◌++◌, length, length-append, replicate,
  arith,
}
use libklvanc.Bitstream.Bits.{to_bits, fields_bits, to_bytes, to_bytes-byte_append}
use libklvanc.Bitstream.Writes.{padded}
use mathlib.Core.List.{append_assoc}

-- The bytes of a run of fields.
unfoldable pub serialize : List (ℕ × ℕ) → List ℕ
serialize fields = to_bytes (padded (fields_bits fields))

to_bytes-word_append :
    (v : ℕ) (bits : List ℕ)
    → to_bytes (to_bits 16 v ++ bits) ≡ v / 256 % 256 ∷ v % 256 ∷ to_bytes bits
unfolding to_bytes to_bits
to_bytes-word_append v bits = ground arith

to_bytes-nibbles_append :
    (v w : ℕ) (bits : List ℕ)
    → to_bytes (to_bits 4 v ++ (to_bits 4 w ++ bits)) ≡ (v % 16 * 16 + w % 16) ∷ to_bytes bits
unfolding to_bytes to_bits
to_bytes-nibbles_append v w bits = ground arith

-- Whole bytes in front do not change the padding.
padded-append : (xs bits : List ℕ) → length xs % 8 ≡ 0 → padded (xs ++ bits) ≡ xs ++ padded bits
padded-append xs bits h =
    let e : length (xs ++ bits) % 8 ≡ length bits % 8 = omega (arith, length-append xs bits) in
    rw e (append_assoc xs bits (replicate ((8 - length bits % 8) % 8) 0))

module _ (fields : List (ℕ × ℕ)) where
  -- A field of one byte, a field of two, and two half bytes.
  pub serialize-byte : (v : ℕ) → serialize ((v, 8) ∷ fields) ≡ v % 256 ∷ serialize fields
  unfolding serialize fields_bits
  serialize-byte v =
      rw (padded-append (to_bits 8 v) (fields_bits fields) (unfold to_bits in refl))
        (to_bytes-byte_append v (padded (fields_bits fields)))

  pub serialize-word :
      (v : ℕ) → serialize ((v, 16) ∷ fields) ≡ v / 256 % 256 ∷ v % 256 ∷ serialize fields
  unfolding serialize fields_bits
  serialize-word v =
      rw (padded-append (to_bits 16 v) (fields_bits fields) (unfold to_bits in refl))
        (to_bytes-word_append v (padded (fields_bits fields)))

  pub serialize-nibbles :
      (v w : ℕ) → serialize ((v, 4) ∷ (w, 4) ∷ fields) ≡ (v % 16 * 16 + w % 16) ∷ serialize fields
  unfolding serialize fields_bits
  serialize-nibbles v w = rw (← append_assoc (to_bits 4 v) (to_bits 4 w) (fields_bits fields)) (
      rw (padded-append (to_bits 4 v ++ to_bits 4 w) (fields_bits fields) (unfold to_bits in refl))
        (rw (append_assoc (to_bits 4 v) (to_bits 4 w) (padded (fields_bits fields)))
          (to_bytes-nibbles_append v w (padded (fields_bits fields)))))

  pub serialize-zeros : serialize ((0, 32) ∷ fields) ≡ 0 ∷ 0 ∷ 0 ∷ 0 ∷ serialize fields
  unfolding serialize fields_bits
  serialize-zeros =
      rw (padded-append (to_bits 32 0) (fields_bits fields) (unfold to_bits in refl))
        (unfold to_bytes to_bits in refl)

pub fields_bits-append :
    (xs ys : List (ℕ × ℕ)) → fields_bits (xs ++ ys) ≡ fields_bits xs ++ fields_bits ys
unfolding fields_bits
fields_bits-append [] ys = refl
fields_bits-append ((v, n) ∷ xs) ys =
    rw (fields_bits-append xs ys)
      (sym (append_assoc (to_bits n v) (fields_bits xs) (fields_bits ys)))

-- Fields that are the bits of one byte together.
pub serialize-join :
    (xs ys : List (ℕ × ℕ)) (v : ℕ)
    → fields_bits xs ≡ to_bits 8 v
    → serialize (xs ++ ys) ≡ v % 256 ∷ serialize ys
unfolding serialize
serialize-join xs ys v e =
    rw (fields_bits-append xs ys, e)
      (rw (padded-append (to_bits 8 v) (fields_bits ys) (unfold to_bits in refl))
        (to_bytes-byte_append v (padded (fields_bits ys))))

pub serialize-nil : serialize [] ≡ []
unfolding serialize fields_bits to_bytes
serialize-nil = refl

pub ruleset serialize_laws =
    (serialize-zeros, serialize-byte, serialize-word, serialize-nibbles, serialize-nil)
