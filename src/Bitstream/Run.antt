-- ===== src/Bitstream/Run.antt =====
-- A parser that reads field after field, where the fields are known.
use libklvanc.Prelude.{
  ℕ, not, ltb, guard, Error, ok, false, refl, ◌>>◌, ◌%◌, ◌<◌, ◌+◌, ◌*◌, ◌^◌, ◌≤◌, ◌≡◌, ◌∙◌, List,
  ◌∷◌, ◌++◌, Outcome, ◌>>=◌, length, length-append, arith, drop, All,
}
use mathlib.Core.List.{append_assoc}
use libklvanc.Bitstream.{Klbs, klbs_read_bits, klbs_get_byte_count_free}
use libklvanc.Bitstream.Bits.{to_bits, bits_of, fields_bits, length-to_bits}
use libklvanc.Bitstream.ReadBit.{at}
use libklvanc.Bitstream.RoundTrip.{AreFields}
use libklvanc.Bitstream.Stuffing.{read_bits-next, drop-next}

-- From bit `p` on, the first `n` bytes of `mem` hold `fields`, then `rest`.
pub record FieldsAt (mem : List ℕ) (n p : ℕ) (fields : List (ℕ × ℕ)) (rest : List ℕ) : Type 0 where
  pub follow : drop p (bits_of mem) ≡ fields_bits fields ++ rest
  pub fits : p + length (fields_bits fields) ≤ 8 * n
  pub owned : n ≤ length mem
  pub bytes : All (λ b. b < 256) mem
  pub small : AreFields fields

module _ {mem : List ℕ} {n p v k : ℕ} {fields : List (ℕ × ℕ)} {rest : List ℕ}
    (f : FieldsAt mem n p ((v, k) ∷ fields) rest) where
  first_field : drop p (bits_of mem) ≡ to_bits k v ++ (fields_bits fields ++ rest)
  first_field =
      f.follow ∙ (unfold fields_bits in append_assoc (to_bits k v) (fields_bits fields) rest)

  field_size : k + length (fields_bits fields) ≡ length (fields_bits ((v, k) ∷ fields))
  unfolding fields_bits
  field_size = omega (arith, length-append (to_bits k v) (fields_bits fields), length-to_bits k v)

  pub FieldsAt-next : FieldsAt mem n (p + k) fields rest
  FieldsAt-next = record {
    follow =
        drop-next (bits_of mem) (to_bits k v) (fields_bits fields ++ rest) p k first_field
          (length-to_bits k v);
    fits = omega (arith, field_size, f.fits);
    owned = f.owned;
    bytes = f.bytes;
    small = f.small.1;
  }

  -- One field is read; the parser goes on behind it.
  pub read_then {ℓ} :
      {B : Type ℓ} (next : ℕ × Klbs → Outcome B) {out : Outcome B}
      → (FieldsAt mem n (p + k) fields rest → next (v % 2 ^ k, at mem n (p + k)) ≡ out)
      → (klbs_read_bits k (at mem n p) >>= next) ≡ out
  read_then next g =
      rw
        (read_bits-next k v mem n p (fields_bits fields ++ rest) f.small.0
          (omega (arith, field_size, f.fits)) f.owned f.bytes first_field)
        (g FieldsAt-next)

pub FieldsAt-size :
    {mem : List ℕ} {n p : ℕ} {fields : List (ℕ × ℕ)} {rest : List ℕ} (k : ℕ)
    → FieldsAt mem n p fields rest
    → 8 * k ≤ length (fields_bits fields)
    → n < 2 ^ 31
    → ltb (klbs_get_byte_count_free (at mem n p)) k ≡ false
unfolding klbs_get_byte_count_free
FieldsAt-size {mem} {n} {p} k f h l = ground (arith, f.fits)

-- The same bits under other fields.
pub FieldsAt-same :
    {mem : List ℕ} {n p : ℕ} {fields : List (ℕ × ℕ)} {rest : List ℕ} (others : List (ℕ × ℕ))
    → FieldsAt mem n p fields rest
    → fields_bits fields ≡ fields_bits others
    → AreFields others
    → FieldsAt mem n p others rest
FieldsAt-same {mem} {n} {p} {fields} {rest} others f e a = record {
  follow = rw (← e) f.follow;
  fits = rw (← e) f.fits;
  owned = f.owned;
  bytes = f.bytes;
  small = a;
}

-- A parser that makes `a` of the fields before `more`.
pub record Reads {ℓ} {A : Type ℓ} (mem : List ℕ) (n : ℕ) (rest : List ℕ) (more : List (ℕ × ℕ))
    (m : Outcome (A × Klbs)) (a : A) : Type ℓ where
  pub end : ℕ
  pub result : m ≡ ok (a, at mem n end)
  pub left : FieldsAt mem n end more rest

module _ {mem : List ℕ} {n : ℕ} {rest : List ℕ} where
  pub Reads-ok {ℓ} :
      {A : Type ℓ} {p : ℕ} {more : List (ℕ × ℕ)} {a : A}
      → FieldsAt mem n p more rest
      → Reads mem n rest more (ok (a, at mem n p)) a
  Reads-ok {p = p} f = record { end = p; result = refl; left = f }

  pub Reads-then {ℓ} :
      {B : Type ℓ} {p v k : ℕ} {fields more : List (ℕ × ℕ)} {b : B}
      → FieldsAt mem n p ((v, k) ∷ fields) rest
      → (next : ℕ × Klbs → Outcome (B × Klbs))
      → (FieldsAt mem n (p + k) fields rest
          → Reads mem n rest more (next (v % 2 ^ k, at mem n (p + k))) b)
      → Reads mem n rest more (klbs_read_bits k (at mem n p) >>= next) b
  Reads-then f next g =
      let r = g (FieldsAt-next f) in
      record { end = r.end; result = read_then f next (λ _. r.result); left = r.left }

  pub Reads-bind {ℓ κ} :
      {A : Type ℓ} {B : Type κ} {m : Outcome (A × Klbs)} {a : A} {fields more : List (ℕ × ℕ)}
      {b : B}
      → Reads mem n rest fields m a
      → (next : A × Klbs → Outcome (B × Klbs))
      → ((q : ℕ) → FieldsAt mem n q fields rest → Reads mem n rest more (next (a, at mem n q)) b)
      → Reads mem n rest more (m >>= next) b
  Reads-bind r next g =
      let r' = g r.end r.left in
      record { end = r'.end; result = rw (r.result) r'.result; left = r'.left }

  -- The test that `k` bytes are left.
  pub Reads-need {ℓ} :
      {B : Type ℓ} {p : ℕ} {fields more : List (ℕ × ℕ)} {next : Outcome (B × Klbs)} {b : B} (k : ℕ)
      (x : Error)
      → FieldsAt mem n p fields rest
      → 8 * k ≤ length (fields_bits fields)
      → n < 2 ^ 31
      → Reads mem n rest more next b
      → Reads mem n rest more
          (guard (not (ltb (klbs_get_byte_count_free (at mem n p)) k)) x >> next)
          b
  Reads-need k x f h l r = record {
    end = r.end;
    result = rw (FieldsAt-size k f h l) r.result;
    left = r.left;
  }
