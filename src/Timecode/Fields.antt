-- ===== src/Timecode/Fields.antt =====
-- The sixteen bytes that the converter writes.
use libklvanc.Prelude.{
  ℕ, ◌+◌, ◌*◌, ◌/◌, ◌%◌, ◌≡◌, refl, ◌∙◌, List, [], ◌∷◌, ◌++◌, ok, true, arith, ◌==◌, if◌then◌else◌,
  length,
}
use libklvanc.Word.{set_bit}
use libklvanc.Bitstream.Bits.{to_bits, fields_bits}
use libklvanc.Codec.Serialize.{serialize, serialize-nibbles, serialize-join, serialize-nil}
use libklvanc.Timecode.{
  TimecodePacket, is_timecode, nibble_word, tens_word2, timecode_fields, put_code,
}

-- The upper half of a byte.
abbrev pub tens2 : ℕ → ℕ → ℕ → ℕ
tens2 f g v = f % 2 * 8 + g % 2 * 4 + v / 20 % 2 * 2 + v / 10 % 2

abbrev pub tens3 : ℕ → ℕ → ℕ
tens3 f v = tens2 f (v / 40 % 2) v

-- Four single bits and four zeros.
flag_bits :
    (a b c d : ℕ)
    → fields_bits ((a, 1) ∷ (b, 1) ∷ (c, 1) ∷ (d, 1) ∷ (0, 4) ∷ [])
      ≡ to_bits 8 ((a % 2 * 8 + b % 2 * 4 + c % 2 * 2 + d % 2) * 16)
unfolding fields_bits to_bits
flag_bits a b c d = ground arith

module _ (ys : List (ℕ × ℕ)) where
  serialize-units : (v : ℕ) → serialize (nibble_word (v % 10) ++ ys) ≡ (v % 10 * 16) ∷ serialize ys
  serialize-units v =
      let e : v % 10 % 16 * 16 + 0 % 16 ≡ v % 10 * 16 = omega arith in
      serialize-nibbles ys (v % 10) 0 ∙ rw e

  serialize-nothing : serialize (nibble_word 0 ++ ys) ≡ 0 ∷ serialize ys
  serialize-nothing = serialize-nibbles ys 0 0

  serialize-tens2 :
      (f g v : ℕ) → serialize (tens_word2 f g v ++ ys) ≡ (tens2 f g v * 16) ∷ serialize ys
  serialize-tens2 f g v =
      let e : (f % 2 * 8 + g % 2 * 4 + v / 20 % 2 % 2 * 2 + v / 10 % 2 % 2) * 16 % 256
          ≡ tens2 f g v * 16 =
        omega arith in
      serialize-join (tens_word2 f g v) ys
        ((f % 2 * 8 + g % 2 * 4 + v / 20 % 2 % 2 * 2 + v / 10 % 2 % 2) * 16)
        (flag_bits f g (v / 20 % 2) (v / 10 % 2))
      ∙ rw e

-- The upper halves of the bytes 0 to 7, and of the bytes 8 to 15.
abbrev pub front : TimecodePacket → List ℕ
front p =
    p.frames % 10
    ∷ 0
    ∷ tens2 p.flag14 p.flag15 p.frames
    ∷ 0
    ∷ p.seconds % 10
    ∷ 0
    ∷ tens3 p.flag35 p.seconds
    ∷ 0
    ∷ []

abbrev pub back : TimecodePacket → List ℕ
back p =
    p.minutes % 10
    ∷ 0
    ∷ tens3 p.flag55 p.minutes
    ∷ 0
    ∷ p.hours % 10
    ∷ 0
    ∷ tens2 p.flag74 p.flag75 p.hours
    ∷ 0
    ∷ []

-- Halves, as the upper halves of bytes; and with the bits of a code below them.
unfoldable pub raised : List ℕ → List ℕ
raised [] = []
raised (x ∷ xs) = (x * 16) ∷ raised xs

unfoldable pub coded : List ℕ → ℕ → List ℕ
coded [] code = []
coded (x ∷ xs) code = (x * 16 + code % 2 * 8) ∷ coded xs (code / 2)

put_code-raised :
    (xs rest : List ℕ) (code : ℕ)
    → put_code 0 (length xs) code (raised xs ++ rest) ≡ ok (coded xs code ++ rest)
unfolding put_code raised coded
put_code-raised [] rest code = refl
put_code-raised (x ∷ xs) rest code =
    let e : (if code % 2 == 1 then set_bit (x * 16) 3 else x * 16) ≡ x * 16 + code % 2 * 8 =
      ground arith in
    rw (put_code-raised xs rest (code / 2), e)

put_code-skip :
    (xs ys : List ℕ) (rounds code : ℕ) {zs : List ℕ}
    → put_code 0 rounds code ys ≡ ok zs
    → put_code (length xs) rounds code (xs ++ ys) ≡ ok (xs ++ zs)
unfolding put_code
put_code-skip [] ys rounds code h = h
put_code-skip (x ∷ xs) ys rounds code h = rw (put_code-skip xs ys rounds code h)

-- The first code, and the second behind it.
pub put_dbb1 :
    (p : TimecodePacket) (rest : List ℕ) (code : ℕ)
    → put_code 0 8 code (raised (front p) ++ rest) ≡ ok (coded (front p) code ++ rest)
put_dbb1 p rest code = put_code-raised (front p) rest code

pub put_dbb2 :
    (p : TimecodePacket) (rest : List ℕ) (a b : ℕ)
    → put_code 8 8 b (coded (front p) a ++ (raised (back p) ++ rest))
      ≡ ok (coded (front p) a ++ (coded (back p) b ++ rest))
unfolding coded
put_dbb2 p rest a b =
    put_code-skip (coded (front p) a) (raised (back p) ++ rest) 8 b
      (put_code-raised (back p) rest b)

pub serialize-timecode_fields :
    (p : TimecodePacket)
    → is_timecode p.dbb1 ≡ true
    → serialize (timecode_fields p) ≡ raised (front p) ++ raised (back p)
unfolding timecode_fields raised
serialize-timecode_fields p t =
    rw t (simp (serialize-tens2, serialize-units, serialize-nothing, serialize-nil))
