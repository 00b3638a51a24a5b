-- ===== src/Bitstream/ReadBit.antt =====
-- klbs_read_bit: the reader at bit `p` of a buffer, and the value of the bits that follow.
use libklvanc.Prelude.{
  ℕ, zero, suc, ◌+◌, ◌-◌, ◌*◌, ◌/◌, ◌%◌, ◌^◌, ◌≤◌, ◌<◌, ◌≡◌, refl, sym, ap, ◌∙◌, ◌++◌, List, [],
  ◌∷◌, ok, All, drop, get_or, get_elem?-eq-get_or, length, arith, if◌then◌else◌, ◌==◌, Bool-cases,
  ltb, ltb→lt, inl, inr,
}
use native.Mathlib.Nat.{zero-mul, pow-suc, mul_assoc, mod-eq_of_lt, pow-le-pow_right}
use native.Mathlib.Numerals.{add-one}
use libklvanc.Bitstream.{Klbs, klbs_read_bit, fetch_reg, shift_out, read_bits_loop}
use libklvanc.Bitstream.Bits.{to_bits, from_bits, bits_of, length-to_bits, from_bits-to_bits}
use libklvanc.Prelude.Arith.{pow-pos}

-- The context after `p` bits of a buffer of `n` bytes have been read.
abbrev pub at : List ℕ → ℕ → ℕ → Klbs
at mem n p = record {
  buf = mem;
  buflen = n;
  buflen_used = (p + 7) / 8;
  reg_used = (8 - p % 8) % 8;
  reg = if p % 8 == 0 then 0 else get_or mem (p / 8) 0 * 2 ^ (p % 8) % 256;
}

pub bit_at : List ℕ → ℕ → ℕ
bit_at mem p = get_or (bits_of mem) p 0

get_or-append_byte :
    (r x : ℕ) (xs : List ℕ) → r < 8 → get_or (bits_of (x ∷ xs)) r 0 ≡ x * 2 ^ r % 256 / 128 % 2
unfolding to_bits bits_of
get_or-append_byte zero x xs h = omega arith
get_or-append_byte (suc zero) x xs h = omega arith
get_or-append_byte (suc (suc zero)) x xs h = omega arith
get_or-append_byte (suc (suc (suc zero))) x xs h = omega arith
get_or-append_byte (suc (suc (suc (suc zero)))) x xs h = omega arith
get_or-append_byte (suc (suc (suc (suc (suc zero))))) x xs h = omega arith
get_or-append_byte (suc (suc (suc (suc (suc (suc zero)))))) x xs h = omega arith
get_or-append_byte (suc (suc (suc (suc (suc (suc (suc zero))))))) x xs h = omega arith
get_or-append_byte (suc (suc (suc (suc (suc (suc (suc (suc r)))))))) x xs h = absurd (omega arith)

get_or-skip_byte :
    (p x : ℕ) (xs : List ℕ) → 8 ≤ p → get_or (bits_of (x ∷ xs)) p 0 ≡ get_or (bits_of xs) (p - 8) 0
unfolding to_bits bits_of
get_or-skip_byte zero x xs h = absurd (omega arith)
get_or-skip_byte (suc zero) x xs h = absurd (omega arith)
get_or-skip_byte (suc (suc zero)) x xs h = absurd (omega arith)
get_or-skip_byte (suc (suc (suc zero))) x xs h = absurd (omega arith)
get_or-skip_byte (suc (suc (suc (suc zero)))) x xs h = absurd (omega arith)
get_or-skip_byte (suc (suc (suc (suc (suc zero))))) x xs h = absurd (omega arith)
get_or-skip_byte (suc (suc (suc (suc (suc (suc zero)))))) x xs h = absurd (omega arith)
get_or-skip_byte (suc (suc (suc (suc (suc (suc (suc zero))))))) x xs h = absurd (omega arith)
get_or-skip_byte (suc (suc (suc (suc (suc (suc (suc (suc p)))))))) x xs h =
    let e : (suc (suc (suc (suc (suc (suc (suc (suc p)))))))) - 8 ≡ p = omega arith in rw e

-- Bit `p` is found in byte `p / 8`.
bit_at_lem :
    (mem : List ℕ) (p : ℕ) → bit_at mem p ≡ get_or mem (p / 8) 0 * 2 ^ (p % 8) % 256 / 128 % 2
unfolding bit_at
bit_at_lem [] p = unfold bits_of in rw zero-mul (omega arith)
bit_at_lem (x ∷ xs) p = elim (Bool-cases (ltb p 8)) [
  | inl low ↦
      let e : p / 8 ≡ 0 = ground arith in
      let f : p % 8 ≡ p = ground arith in rw (e, f) (get_or-append_byte p x xs (ltb→lt p 8 low))
  | inr high ↦
      let e : p / 8 ≡ suc ((p - 8) / 8) = ground arith in
      let f : p % 8 ≡ (p - 8) % 8 = ground arith in
      rw (e, f) (get_or-skip_byte p x xs (ground arith) ∙ bit_at_lem xs (p - 8))
]

read_bit_first :
    (mem : List ℕ) (n p : ℕ)
    → p < 8 * n
    → n ≤ length mem
    → p % 8 ≡ 0
    → klbs_read_bit (at mem n p) ≡ ok (bit_at mem p, at mem n (p + 1))
unfolding klbs_read_bit fetch_reg shift_out
read_bit_first mem n p h k z = ground (arith, bit_at_lem mem p, get_elem?-eq-get_or mem (p / 8) 0)

-- A bit out of a register that holds some.
read_bit_inside :
    (mem : List ℕ) (n u r g : ℕ)
    → u ≤ n
    → 0 < r
    → r ≤ 8
    → klbs_read_bit (record { buf = mem; buflen = n; buflen_used = u; reg_used = r; reg = g })
      ≡ ok (
        g / 128 % 2,
        record { buf = mem; buflen = n; buflen_used = u; reg_used = r - 1; reg = g * 2 % 256 },
      )
unfolding klbs_read_bit fetch_reg shift_out
read_bit_inside mem n u r g h k l = ground arith

shift_byte : (b r : ℕ) → b * 2 ^ r % 256 * 2 % 256 ≡ b * 2 ^ (r + 1) % 256
shift_byte b r = rw (add-one r, pow-suc 2 r) (omega (arith, mul_assoc b (2 ^ r) 2))

-- The register one bit on.
abbrev reg_at : List ℕ → ℕ → ℕ
reg_at mem p = if p % 8 == 0 then 0 else get_or mem (p / 8) 0 * 2 ^ (p % 8) % 256

reg_at-step : (mem : List ℕ) (p : ℕ) → 0 < p % 8 → reg_at mem p * 2 % 256 ≡ reg_at mem (p + 1)
reg_at-step mem p h = elim (Bool-cases (p % 8 == 7)) [
  | inl last ↦
      let e : p % 8 ≡ 7 = ground arith in
      let f : (p + 1) % 8 ≡ 0 = omega arith in rw (e, f) (omega arith)
  | inr inside ↦
      let e : (p + 1) % 8 ≡ p % 8 + 1 = ground arith in
      let f : (p + 1) / 8 ≡ p / 8 = omega (arith, e) in
      rw (e, f) (ground (arith, shift_byte (get_or mem (p / 8) 0) (p % 8)))
]

read_bit_next :
    (mem : List ℕ) (n p : ℕ)
    → p < 8 * n
    → 0 < p % 8
    → klbs_read_bit (at mem n p) ≡ ok (bit_at mem p, at mem n (p + 1))
read_bit_next mem n p h z =
    let a : (p + 1 + 7) / 8 ≡ (p + 7) / 8 = omega arith in
    let b : (8 - (p + 1) % 8) % 8 ≡ (8 - p % 8) % 8 - 1 = omega arith in
    let c : bit_at mem p ≡ reg_at mem p / 128 % 2 = ground (arith, bit_at_lem mem p) in
    read_bit_inside mem n ((p + 7) / 8) ((8 - p % 8) % 8) (reg_at mem p) (omega arith) (omega arith)
      (omega arith)
    ∙ rw (a, b, c, reg_at-step mem p z)

pub read_bit_lem :
    (mem : List ℕ) (n p : ℕ)
    → p < 8 * n
    → n ≤ length mem
    → klbs_read_bit (at mem n p) ≡ ok (bit_at mem p, at mem n (p + 1))
read_bit_lem mem n p h k = elim (Bool-cases (p % 8 == 0)) [
  | inl e ↦ read_bit_first mem n p h k (ground arith)
  | inr e ↦ read_bit_next mem n p h (ground arith)
]

-- The value of `k` bits from bit `p` on, after the bits of `acc`, on a `uint64_t`.
pub value_from : ℕ → ℕ → List ℕ → ℕ → ℕ
value_from zero acc mem p = acc
value_from (suc k) acc mem p = value_from k (acc * 2 % 2 ^ 64 + bit_at mem p) mem (p + 1)

pub read_bits_loop_lem :
    (k acc : ℕ) (mem : List ℕ) (n p : ℕ)
    → p + k ≤ 8 * n
    → n ≤ length mem
    → read_bits_loop k acc (at mem n p) ≡ ok (value_from k acc mem p, at mem n (p + k))
unfolding read_bits_loop value_from
read_bits_loop_lem zero acc mem n p h l = let e : p + 0 ≡ p = omega arith in rw e
read_bits_loop_lem (suc k) acc mem n p h l =
    let e : p + suc k ≡ p + 1 + k = omega arith in
    rw e (
      rw (read_bit_lem mem n p (omega arith) l)
        (read_bits_loop_lem k (acc * 2 % 2 ^ 64 + bit_at mem p) mem n (p + 1) (omega arith) l))

drop-cons :
    (xs : List ℕ) (p x : ℕ) (ys : List ℕ)
    → drop p xs ≡ x ∷ ys
    → (get_or xs p 0 ≡ x) × (drop (suc p) xs ≡ ys)
drop-cons [] zero x ys e = cc
drop-cons [] (suc p) x ys e = cc
drop-cons (y ∷ xs) zero x ys e = (cc, cc)
drop-cons (y ∷ xs) (suc p) x ys e = drop-cons xs p x ys e

abbrev pub AreBits : List ℕ → Type 0
AreBits xs = All (λ b. b < 2) xs

acc_bound :
    (acc x m w : ℕ)
    → x < 2
    → 0 < m
    → (acc + 1) * (m * 2) ≤ w
    → (acc * 2 < w) × ((acc * 2 + x + 1) * m ≤ w)
acc_bound acc x m w h k l = (grind arith, grind arith)

value_from-bits :
    (xs rest : List ℕ) (acc : ℕ) (mem : List ℕ) (p : ℕ)
    → AreBits xs
    → (acc + 1) * 2 ^ length xs ≤ 2 ^ 64
    → drop p (bits_of mem) ≡ xs ++ rest
    → value_from (length xs) acc mem p ≡ from_bits acc xs
unfolding value_from from_bits bit_at
value_from-bits [] rest acc mem p a h e = refl
value_from-bits (x ∷ xs) rest acc mem p a h e =
    let (f, g) = drop-cons (bits_of mem) p x (xs ++ rest) e in
    let (lo, hi) =
      acc_bound acc x (2 ^ length xs) (2 ^ 64) a.0 (pow-pos (length xs))
        (rw (pow-suc 2 (length xs)) at h) in
    let k : acc * 2 % 2 ^ 64 ≡ acc * 2 = mod-eq_of_lt lo in
    let t : acc * 2 % 2 ^ 64 + get_or (bits_of mem) p 0 ≡ acc * 2 + x = omega (arith, f, k) in
    ap (λ (b : ℕ). value_from (length xs) b mem (p + 1)) t
    ∙ value_from-bits xs rest (acc * 2 + x) mem (p + 1) a.1 hi (rw (add-one p) g)

pub to_bits-AreBits : (n v : ℕ) → AreBits (to_bits n v)
unfolding to_bits
to_bits-AreBits zero v = tt
to_bits-AreBits (suc n) v = (omega arith, to_bits-AreBits n v)

-- A field of at most 64 bits comes back as it was written.
pub value_from-to_bits :
    (k v : ℕ) (mem rest : List ℕ) (p : ℕ)
    → k ≤ 64
    → drop p (bits_of mem) ≡ to_bits k v ++ rest
    → value_from k 0 mem p ≡ v % 2 ^ k
value_from-to_bits k v mem rest p h e =
    let l = length-to_bits k v in
    let b : (0 + 1) * 2 ^ length (to_bits k v) ≤ 2 ^ 64 =
      rw l (omega (arith, pow-le-pow_right {n = 2} (omega arith) h)) in
    ap (λ (j : ℕ). value_from j 0 mem p) (sym l)
    ∙ value_from-bits (to_bits k v) rest 0 mem p (to_bits-AreBits k v) b e
    ∙ omega (arith, from_bits-to_bits k 0 v)
