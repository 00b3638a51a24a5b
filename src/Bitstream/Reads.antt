-- ===== src/Bitstream/Reads.antt =====
-- klbs_read_bits: the reader at bit `p` of a buffer returns the bits that follow, and moves on.
use libklvanc.Prelude.{
  ℕ, zero, suc, ◌+◌, ◌-◌, ◌*◌, ◌/◌, ◌%◌, ◌^◌, ◌≤◌, ◌<◌, ◌≡◌, refl, sym, ap, ◌∙◌, ◌++◌, ◌&&◌, map,
  drop-drop, drop-append_length, get_or-All, List, [], ◌∷◌, ok, All, drop, get_or,
  get_elem?-eq-get_or, length, arith, ◌==◌, Bool-cases, inl, inr,
}
use libklvanc.Bitstream.{klbs_read_bits, klbs_read_byte_aligned}
use libklvanc.Bitstream.{klbs_read_fields}
use mathlib.Core.Path.{subst}
use mathlib.Core.List.{append_assoc}
use libklvanc.Bitstream.Bits.{fields_bits, to_bits, bits_of, length-to_bits}
use libklvanc.Bitstream.ReadBit.{at, value_from, read_bits_loop_lem, value_from-to_bits}

-- Byte `q` starts at bit `8 * q`.
drop-bits_of-byte :
    (mem : List ℕ) (q : ℕ)
    → q < length mem
    → drop (8 * q) (bits_of mem) ≡ to_bits 8 (get_or mem q 0) ++ bits_of (drop (suc q) mem)
drop-bits_of-byte [] q h = absurd (omega arith)
drop-bits_of-byte (x ∷ xs) zero h = unfold bits_of in refl
drop-bits_of-byte (x ∷ xs) (suc q) h =
    let e : 8 * suc q ≡ 8 + 8 * q = omega arith in
    rw e (sym (drop-drop 8 (8 * q) (bits_of (x ∷ xs))) ∙ unfold bits_of to_bits in refl)
    ∙ drop-bits_of-byte xs q (omega arith)

read_byte_lem :
    (mem : List ℕ) (n p : ℕ)
    → p + 8 ≤ 8 * n
    → n ≤ length mem
    → p % 8 ≡ 0
    → klbs_read_byte_aligned (at mem n p) ≡ ok (get_or mem (p / 8) 0, at mem n (p + 8))
unfolding klbs_read_byte_aligned
read_byte_lem mem n p h k z =
    let a : (p + 7) / 8 ≡ p / 8 = omega arith in
    let b : (p + 8) % 8 ≡ 0 = omega arith in
    let c : (p + 8 + 7) / 8 ≡ p / 8 + 1 = omega arith in
    rw (a, b, c, z, get_elem?-eq-get_or mem (p / 8) 0 (omega arith))

byte_value :
    (mem : List ℕ) (p : ℕ)
    → p + 8 ≤ 8 * length mem
    → p % 8 ≡ 0
    → All (λ b. b < 256) mem
    → get_or mem (p / 8) 0 ≡ value_from 8 0 mem p
byte_value mem p h z a =
    let e : p ≡ 8 * (p / 8) = omega arith in
    let v =
      value_from-to_bits 8 (get_or mem (p / 8) 0) mem (bits_of (drop (suc (p / 8)) mem)) p
        (omega arith)
        (subst
          (λ (t : ℕ).
            drop t (bits_of mem)
            ≡ to_bits 8 (get_or mem (p / 8) 0) ++ bits_of (drop (suc (p / 8)) mem))
          (sym e) (drop-bits_of-byte mem (p / 8) (omega arith))) in
    omega (arith, v, get_or-All (λ b. b < 256) mem (p / 8) 0 (omega arith) a)

-- klbs_read_bits, by either of its two ways, returns the bits that follow and moves on behind them.
pub read_bits_lem :
    (k : ℕ) (mem : List ℕ) (n p : ℕ)
    → p + k ≤ 8 * n
    → n ≤ length mem
    → All (λ b. b < 256) mem
    → klbs_read_bits k (at mem n p) ≡ ok (value_from k 0 mem p, at mem n (p + k))
unfolding klbs_read_bits
read_bits_lem k mem n p h l a = elim (Bool-cases ((k == 8) && ((8 - p % 8) % 8 == 0))) [
  | inl aligned ↦
      let e : k ≡ 8 = ground arith in
      let z : p % 8 ≡ 0 = ground arith in
      ground (
        arith,
        read_byte_lem mem n p (omega (arith, e)) l z,
        byte_value mem p (omega (arith, e)) z a,
      )
  | inr loop ↦ rw loop (read_bits_loop_lem k 0 mem n p h l)
]

-- The fields that follow bit `p`.
pub values_at : List ℕ → List ℕ → ℕ → List ℕ
values_at [] mem p = []
values_at (k ∷ ks) mem p = value_from k 0 mem p ∷ values_at ks mem (p + k)

abbrev pub total : List ℕ → ℕ
total [] = 0
total (k ∷ ks) = k + total ks

pub read_fields_lem :
    (ks mem : List ℕ) (n p : ℕ)
    → p + total ks ≤ 8 * n
    → n ≤ length mem
    → All (λ b. b < 256) mem
    → klbs_read_fields ks (at mem n p) ≡ ok (values_at ks mem p, at mem n (p + total ks))
unfolding klbs_read_fields values_at
read_fields_lem [] mem n p h l a = let e : p + 0 ≡ p = omega arith in rw e
read_fields_lem (k ∷ ks) mem n p h l a =
    let e : p + (k + total ks) ≡ p + k + total ks = omega arith in
    rw e (
      rw (read_bits_lem k mem n p (omega arith) l a)
        (rw (read_fields_lem ks mem n (p + k) (omega arith) l a)))

abbrev pub widths : List (ℕ × ℕ) → List ℕ
widths fields = map (λ f. f.1) fields

pub total-append :
    (xs ys : List (ℕ × ℕ)) → total (widths (xs ++ ys)) ≡ total (widths xs) + total (widths ys)
total-append [] ys = omega arith
total-append (x ∷ xs) ys = omega (arith, total-append xs ys)

abbrev pub field_values : List (ℕ × ℕ) → List ℕ
field_values fields = map (λ f. f.0 % 2 ^ f.1) fields

-- Fields come back as they were written, each cut to its width.
pub values_at-fields :
    (fields : List (ℕ × ℕ)) (mem rest : List ℕ) (p : ℕ)
    → All (λ f. f.1 ≤ 64) fields
    → drop p (bits_of mem) ≡ fields_bits fields ++ rest
    → values_at (widths fields) mem p ≡ field_values fields
unfolding values_at fields_bits
values_at-fields [] mem rest p h e = refl
values_at-fields ((v, k) ∷ fields) mem rest p h e =
    let e1 : drop p (bits_of mem) ≡ to_bits k v ++ (fields_bits fields ++ rest) =
      e ∙ append_assoc (to_bits k v) (fields_bits fields) rest in
    let e2 : drop (p + k) (bits_of mem) ≡ fields_bits fields ++ rest =
      sym (drop-drop p k (bits_of mem))
      ∙ ap (drop k) e1
      ∙ drop-append_length (to_bits k v) (fields_bits fields ++ rest) (length-to_bits k v) in
    rw (value_from-to_bits k v mem (fields_bits fields ++ rest) p h.0 e1)
      (rw (values_at-fields fields mem rest (p + k) h.1 e2))
