-- ===== src/Bitstream/Bits.antt =====
-- Words as lists of bits, the highest first: what the bit stream carries.
use libklvanc.Prelude.{
  ℕ, zero, suc, ◌+◌, ◌*◌, ◌/◌, ◌%◌, ◌^◌, ◌<◌, ◌≤◌, ◌≡◌, refl, sym, ap, List, [], ◌∷◌, ◌++◌, length,
  All, arith,
}
use libklvanc.Prelude.Arith.{mod-pow-suc, div-pow-suc, mod-pow-half, mod-pow-parity}
use native.Mathlib.Nat.{pow-suc}
use mathlib.Core.List.{append_assoc}

-- The lowest `n` bits of `v`.
unfoldable pub to_bits : ℕ → ℕ → List ℕ
to_bits zero v = []
to_bits (suc n) v = v / 2 ^ n % 2 ∷ to_bits n v

-- The number that is read when the bits follow those of `acc`.
unfoldable pub from_bits : ℕ → List ℕ → ℕ
from_bits acc [] = acc
from_bits acc (b ∷ bs) = from_bits (acc * 2 + b) bs

unfoldable pub bits_of : List ℕ → List ℕ
bits_of [] = []
bits_of (byte ∷ bytes) = to_bits 8 byte ++ bits_of bytes

-- The bits of a run of fields, each a value with its width.
unfoldable pub fields_bits : List (ℕ × ℕ) → List ℕ
fields_bits [] = []
fields_bits ((v, n) ∷ fields) = to_bits n v ++ fields_bits fields

-- Eight bits make a byte; fewer at the end make none.
unfoldable pub to_bytes : List ℕ → List ℕ
unfolding from_bits
to_bytes (a ∷ b ∷ c ∷ d ∷ e ∷ f ∷ g ∷ h ∷ bits) =
    from_bits 0 (a ∷ b ∷ c ∷ d ∷ e ∷ f ∷ g ∷ h ∷ []) ∷ to_bytes bits
to_bytes _ = []

pub length-to_bits : (n v : ℕ) → length (to_bits n v) ≡ n
unfolding to_bits
length-to_bits zero v = refl
length-to_bits (suc n) v = ap suc (length-to_bits n v)

pub from_bits-to_bits : (n acc v : ℕ) → from_bits acc (to_bits n v) ≡ acc * 2 ^ n + v % 2 ^ n
unfolding from_bits to_bits
from_bits-to_bits zero acc v = omega arith
from_bits-to_bits (suc n) acc v = omega (
  arith,
  from_bits-to_bits n (acc * 2 + v / 2 ^ n % 2) v,
  mod-pow-suc v n,
  pow-suc 2 n,
  ap (λ (t : ℕ). acc * t) (pow-suc 2 n),
)

pub from_bits-append :
    (acc : ℕ) (xs ys : List ℕ) → from_bits acc (xs ++ ys) ≡ from_bits (from_bits acc xs) ys
unfolding from_bits
from_bits-append acc [] ys = refl
from_bits-append acc (x ∷ xs) ys = from_bits-append (acc * 2 + x) xs ys

-- The lowest bit comes last.
to_bits-snoc : (n v : ℕ) → to_bits (suc n) v ≡ to_bits n (v / 2) ++ v % 2 ∷ []
unfolding to_bits
to_bits-snoc zero v = ap (λ (t : ℕ). t ∷ []) (omega arith)
to_bits-snoc (suc n) v = rw (to_bits-snoc n v, div-pow-suc v n)

-- A bit shifted in below `v`.
pub to_bits-shift_in : (n v b : ℕ) → b < 2 → to_bits (suc n) (v * 2 + b) ≡ to_bits n v ++ b ∷ []
to_bits-shift_in n v b h =
    let e : (v * 2 + b) / 2 ≡ v = omega arith in
    let f : (v * 2 + b) % 2 ≡ b = omega arith in rw (to_bits-snoc, e, f)

-- Bits above the lowest `n` do not show.
pub to_bits-mod : (n k v : ℕ) → n ≤ k → to_bits n (v % 2 ^ k) ≡ to_bits n v
to_bits-mod zero k v h = unfold to_bits in refl
to_bits-mod (suc n) zero v h = absurd (omega arith)
to_bits-mod (suc n) (suc k) v h =
    rw (to_bits-snoc n (v % 2 ^ suc k), to_bits-snoc n v, mod-pow-half v k, mod-pow-parity v k)
      (rw (to_bits-mod n k (v / 2) (omega arith)))

pub bits_of-append : (xs ys : List ℕ) → bits_of (xs ++ ys) ≡ bits_of xs ++ bits_of ys
unfolding bits_of
bits_of-append [] ys = refl
bits_of-append (x ∷ xs) ys =
    rw (bits_of-append xs ys) (sym (append_assoc (to_bits 8 x) (bits_of xs) (bits_of ys)))

pub length-bits_of : (xs : List ℕ) → length (bits_of xs) ≡ 8 * length xs
unfolding bits_of to_bits
length-bits_of [] = refl
length-bits_of (x ∷ xs) = omega (arith, length-bits_of xs)

pub to_bytes-byte_append :
    (v : ℕ) (bits : List ℕ) → to_bytes (to_bits 8 v ++ bits) ≡ v % 256 ∷ to_bytes bits
unfolding to_bytes to_bits
to_bytes-byte_append v bits =
    let e : from_bits 0 (to_bits 8 v) ≡ v % 256 = omega (arith, from_bits-to_bits 8 0 v) in
    ap (λ (b : ℕ). b ∷ to_bytes bits) e

pub to_bytes-bits_of : (xs : List ℕ) → All (λ b. b < 256) xs → to_bytes (bits_of xs) ≡ xs
unfolding bits_of
to_bytes-bits_of [] h = unfold to_bytes in refl
to_bytes-bits_of (x ∷ xs) h =
    let e : x % 256 ≡ x = omega (arith, h.0) in
    rw (to_bytes-byte_append x (bits_of xs)) (rw (e, to_bytes-bits_of xs h.1))
