-- ===== src/Codec/Wide.antt =====
-- Fields of four bytes, and runs of fields of one width, as bytes.
use libklvanc.Prelude.{
  ℕ, zero, suc, ◌+◌, ◌/◌, ◌%◌, ◌^◌, ◌≡◌, refl, sym, ap, ◌∙◌, List, [], ◌∷◌, ◌++◌, map, All, arith,
}
use libklvanc.Bitstream.Bits.{to_bits, fields_bits, to_bytes}
use Prim.Native.Nat.add
use libklvanc.Bitstream.Writes.{padded}
use libklvanc.Bitstream.Store.{IsByte}
use libklvanc.Codec.Serialize.{serialize, serialize-byte, serialize-word, serialize-nil}
use libklvanc.Prelude.Arith.{div-pow-suc}
use mathlib.Core.List.{append_assoc}

div-pow-add : (k m v : ℕ) → v / 2 ^ (m + k) ≡ v / 2 ^ k / 2 ^ m
div-pow-add zero m v =
    let e : m + 0 ≡ m = omega arith in let f : v / 1 ≡ v = omega arith in rw (e, f)
div-pow-add (suc k) m v =
    let e : m + suc k ≡ suc (m + k) = omega arith in
    ap (λ (n : ℕ). v / 2 ^ n) e
    ∙ div-pow-suc v (m + k)
    ∙ div-pow-add k m (v / 2)
    ∙ ap (λ (n : ℕ). n / 2 ^ m) (sym (div-pow-suc v k))

pub to_bits-halves : (m k v : ℕ) → to_bits (m + k) v ≡ to_bits m (v / 2 ^ k) ++ to_bits k v
unfolding to_bits
to_bits-halves zero k v = ap (λ (n : ℕ). to_bits n v) (omega arith)
to_bits-halves (suc m) k v = rw (add.suc m k, to_bits-halves m k v, div-pow-add k m v) refl

pub serialize-long :
    (fields : List (ℕ × ℕ)) (v : ℕ)
    → serialize ((v, 32) ∷ fields)
      ≡ v / 65536 / 256 % 256 ∷ v / 65536 % 256 ∷ v / 256 % 256 ∷ v % 256 ∷ serialize fields
serialize-long fields v =
    let e : fields_bits ((v, 32) ∷ fields) ≡ fields_bits ((v / 65536, 16) ∷ (v, 16) ∷ fields) =
      unfold fields_bits in
      (ap (λ (l : List ℕ). l ++ fields_bits fields) (to_bits-halves 16 16 v)
        ∙ append_assoc (to_bits 16 (v / 65536)) (to_bits 16 v) (fields_bits fields)) in
    let s : serialize ((v, 32) ∷ fields) ≡ serialize ((v / 65536, 16) ∷ (v, 16) ∷ fields) =
      unfold serialize in ap (λ (l : List ℕ). to_bytes (padded l)) e in
    s
    ∙ serialize-word ((v, 16) ∷ fields) (v / 65536)
    ∙ ap (λ (l : List ℕ). v / 65536 / 256 % 256 ∷ v / 65536 % 256 ∷ l) (serialize-word fields v)

-- A run of fields of one byte.
pub serialize-entries :
    (values : List ℕ) (fields : List (ℕ × ℕ))
    → serialize (map (λ v. (v, 8)) values ++ fields) ≡ map (λ v. v % 256) values ++ serialize fields
serialize-entries [] fields = refl
serialize-entries (v ∷ values) fields =
    rw (serialize-byte (map (λ w. (w, 8)) values ++ fields) v, serialize-entries values fields)

pub serialize-entries_alone :
    (values : List ℕ) → serialize (map (λ v. (v, 8)) values) ≡ map (λ v. v % 256) values
serialize-entries_alone [] = serialize-nil
serialize-entries_alone (v ∷ values) =
    rw (serialize-byte (map (λ w. (w, 8)) values) v, serialize-entries_alone values)

pub map-mod-bytes : (values : List ℕ) → All IsByte values → map (λ v. v % 256) values ≡ values
map-mod-bytes [] a = refl
map-mod-bytes (v ∷ values) a =
    let e : v % 256 ≡ v = omega (arith, a.0) in rw (e, map-mod-bytes values a.1)
