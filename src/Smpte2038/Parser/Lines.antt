-- ===== src/Smpte2038/Parser/Lines.antt =====
-- parse_loop on the bits of a run of lines.
use libklvanc.Prelude.{
  ℕ, zero, suc, ◌+◌, ◌-◌, ◌*◌, ◌/◌, ◌%◌, ◌^◌, ◌≤◌, ◌<◌, ◌≡◌, refl, sym, ap, ◌∙◌, List, [], ◌∷◌,
  ◌++◌, map, Outcome, ok, Bool, true, false, ◌==◌, length, arith, drop, All, length-append, inl,
  inr, ◌⊎◌, Bool-cases, if◌then◌else◌,
}
use mathlib.Core.List.{append_assoc, append-nil}
use libklvanc.Bitstream.{Klbs, klbs_get_byte_count_free, klbs_peek_bits}
use libklvanc.Bitstream.Bits.{to_bits, bits_of, fields_bits}
use libklvanc.Bitstream.ReadBit.{at}
use libklvanc.Bitstream.Stuffing.{read_byte_stuff-at, peek_bits-next, drop-next, gap, ones}
use libklvanc.Codec.Serialize.{fields_bits-append}
use libklvanc.Packet.{Header}
use libklvanc.Smpte2038.{AncLine, add_parity}
use libklvanc.Smpte2038.Packetizer.{line_fields}
use libklvanc.Smpte2038.Encoding.{
  words_of, line_of, whole_fields, lines_bits, length-first_words, line_fields-bits,
  length-whole_fields, count_back, line_size, IsShort,
}
use libklvanc.Smpte2038.Parser.{over_four, read_line, flush_stuffing, skip_stuffing, parse_loop}
use libklvanc.Smpte2038.Parser.Step.{read_line_lem}

pub free_at :
    (mem : List ℕ) (n p : ℕ)
    → p ≤ 8 * n
    → n < 2 ^ 31
    → klbs_get_byte_count_free (at mem n p) ≡ n - (p + 7) / 8
unfolding klbs_get_byte_count_free
free_at mem n p h k = omega arith

if_same {ℓ} : {A : Type ℓ} (c : Bool) (x : A) → (if c then x else x) ≡ x
if_same true x = refl
if_same false x = refl

-- A zero is no stuffing.
flush_zero :
    (fuel rem : ℕ) (bs : Klbs)
    → 0 < fuel
    → klbs_peek_bits 1 bs ≡ ok 0
    → flush_stuffing fuel rem bs ≡ ok (rem, bs)
unfolding flush_stuffing
flush_zero zero rem bs h e = absurd (omega arith)
flush_zero (suc fuel) rem bs h e = elim (Bool-cases (rem == 0)) [
  | inl none_left ↦ rw none_left refl
  | inr some_left ↦ rw (some_left, e) refl
]

-- Behind a line that ends at bit `p`, where nothing or another line follows.
skip_stuffing-at :
    (mem : List ℕ) (n p : ℕ)
    → p ≤ 8 * n
    → n ≤ length mem
    → n < 2 ^ 31
    → All (λ b. b < 256) mem
    → (p + gap p ≡ 8 * n)
      ⊎ ((rest : List ℕ) × (drop (p + gap p) (bits_of mem) ≡ to_bits 1 0 ++ rest)
          × (p + gap p + 1 ≤ 8 * n))
    → skip_stuffing (at mem n p) ≡ ok (n - (p + gap p) / 8, at mem n (p + gap p))
unfolding skip_stuffing
skip_stuffing-at mem n p h o l a follow =
    let f : klbs_get_byte_count_free (at mem n (p + gap p)) ≡ n - (p + gap p) / 8 =
      free_at mem n (p + gap p) (omega arith) l ∙ omega arith in
    rw (read_byte_stuff-at mem n p h o, f)
      (elim follow [
        | inl end ↦ let z : n - (p + gap p) / 8 ≡ 0 = omega (arith, end) in ground (arith, z)
        | inr (rest, e, s) ↦
            let peek : klbs_peek_bits 1 (at mem n (p + gap p)) ≡ ok 0 =
              peek_bits-next 1 0 mem n (p + gap p) rest (omega arith) s o a e in
            let stop : flush_stuffing (8 * n + 16) (n - (p + gap p) / 8) (at mem n (p + gap p))
                ≡ ok (n - (p + gap p) / 8, at mem n (p + gap p)) =
              flush_zero (8 * n + 16) (n - (p + gap p) / 8) (at mem n (p + gap p)) (omega arith)
                peek in
            rw (stop, if_same)
      ])

-- The bits of a line and of what follows begin with a zero.
first_zero :
    (pkt : Header) (rest : List ℕ)
    → (more : List ℕ) × (fields_bits (whole_fields pkt) ++ rest ≡ to_bits 1 0 ++ more)
unfolding whole_fields line_fields fields_bits to_bits
first_zero pkt rest = (_, refl)

whole_line :
    (pkt : Header) (rest : List ℕ)
    → fields_bits (whole_fields pkt) ++ rest
      ≡ fields_bits (line_fields pkt)
        ++ (fields_bits (ones (gap (70 + 10 * pkt.payload_length_words))) ++ rest)
unfolding whole_fields
whole_line pkt rest =
    rw (fields_bits-append (line_fields pkt) (ones (gap (70 + 10 * pkt.payload_length_words)))) (
      append_assoc (fields_bits (line_fields pkt))
        (fields_bits (ones (gap (70 + 10 * pkt.payload_length_words)))) rest)

module _ (realloc calloc : ℕ → Bool) (r : (k : ℕ) → realloc k ≡ true)
    (ca : (k : ℕ) → calloc k ≡ true) (mem : List ℕ) (n : ℕ) (owned : n ≤ length mem)
    (n31 : n < 2 ^ 31) (bytes : All (λ b. b < 256) mem) where
  read_line-line_of :
      (k p : ℕ) (pkt : Header) (rest : List ℕ)
      → IsShort pkt
      → p % 8 ≡ 0
      → p + line_size pkt ≤ 8 * n
      → drop p (bits_of mem) ≡ fields_bits (whole_fields pkt) ++ rest
      → read_line realloc calloc k (at mem n p)
        ≡ ok (line_of pkt, at mem n (p + (70 + 10 * pkt.payload_length_words)))
  unfolding line_of
  read_line-line_of k p pkt rest short z fits e =
      read_line_lem realloc calloc k (r k) (ca k) pkt.line_nr (add_parity pkt.did)
        (add_parity pkt.dbnsdid) (add_parity pkt.payload_length_words) pkt.checksum (words_of pkt)
        (fields_bits (ones (gap (70 + 10 * pkt.payload_length_words))) ++ rest) mem n p
        pkt.payload_length_words (count_back pkt.payload_length_words short)
        (length-first_words pkt.payload_length_words pkt.payload) z (omega arith) owned
        (omega arith) bytes (e ∙ whole_line pkt rest ∙ line_fields-bits pkt _)

  -- What follows a line.
  line_end :
      (p : ℕ) (pkt : Header) (rest : List ℕ)
      → drop p (bits_of mem) ≡ fields_bits (whole_fields pkt) ++ rest
      → drop (p + line_size pkt) (bits_of mem) ≡ rest
  line_end p pkt rest e =
      drop-next (bits_of mem) (fields_bits (whole_fields pkt)) rest p (line_size pkt) e
        (length-whole_fields pkt)

  rem_over_four : (rem : ℕ) → 4 < rem → rem < 2 ^ 31 → over_four rem ≡ true
  unfolding over_four
  rem_over_four rem h k = ground arith

  rem_none : over_four 0 ≡ false
  unfolding over_four
  rem_none = refl

  -- A round of the loop that reads a line.
  parse_loop-step :
      (fuel rem : ℕ) (bs bs' : Klbs) (l : AncLine) (rem' : ℕ) (bs'' : Klbs) (lines : List AncLine)
      → over_four rem ≡ true
      → read_line realloc calloc (length lines) bs ≡ ok (l, bs')
      → skip_stuffing bs' ≡ ok (rem', bs'')
      → (out : Outcome (Bool × List AncLine))
      → parse_loop realloc calloc fuel rem' bs'' (lines ++ l ∷ []) ≡ out
      → parse_loop realloc calloc (suc fuel) rem bs lines ≡ out
  unfolding parse_loop
  parse_loop-step fuel rem bs bs' l rem' bs'' lines more a b out e = rw (parse_loop, more, a, b) e

  parse_loop-done :
      (fuel rem : ℕ) (bs : Klbs) (lines : List AncLine)
      → rem ≡ 0
      → parse_loop realloc calloc (suc fuel) rem bs lines ≡ ok (true, lines)
  unfolding parse_loop
  parse_loop-done fuel rem bs lines e = rw e (rw (parse_loop, rem_none) refl)

  -- Behind the bits of a line comes the end, or a zero.
  line_follow :
      (q : ℕ) (pkts : List Header) (tail : List ℕ)
      → drop q (bits_of mem) ≡ lines_bits pkts ++ tail
      → 8 * n ≡ q + length (lines_bits pkts)
      → (q ≡ 8 * n)
        ⊎ ((rest : List ℕ) × (drop q (bits_of mem) ≡ to_bits 1 0 ++ rest) × (q + 1 ≤ 8 * n))
  unfolding lines_bits
  line_follow q [] tail e size = inl (omega (arith, size))
  line_follow q (pkt ∷ pkts) tail e size =
      let (more, f) = first_zero pkt (lines_bits pkts ++ tail) in
      let a = append_assoc (fields_bits (whole_fields pkt)) (lines_bits pkts) tail in
      let l = length-append (fields_bits (whole_fields pkt)) (lines_bits pkts) in
      inr (more, e ∙ a ∙ f, omega (arith, size, l, length-whole_fields pkt))

  pub parse_loop-lines :
      (pkts : List Header) (fuel p : ℕ) (lines : List AncLine) (tail : List ℕ)
      → All IsShort pkts
      → length pkts < fuel
      → p % 8 ≡ 0
      → drop p (bits_of mem) ≡ lines_bits pkts ++ tail
      → 8 * n ≡ p + length (lines_bits pkts)
      → parse_loop realloc calloc fuel (n - p / 8) (at mem n p) lines
        ≡ ok (true, lines ++ map line_of pkts)
  unfolding lines_bits
  parse_loop-lines pkts zero p lines tail short f z e size = absurd (omega arith)
  parse_loop-lines [] (suc fuel) p lines tail short f z e size =
      parse_loop-done fuel (n - p / 8) (at mem n p) lines (omega (arith, size))
      ∙ ap (λ l. ok (true, l)) (sym (append-nil lines))
  parse_loop-lines (pkt ∷ pkts) (suc fuel) p lines tail short f z e size =
      let l : length (fields_bits (whole_fields pkt) ++ lines_bits pkts)
          ≡ line_size pkt + length (lines_bits pkts) =
        omega (
          arith,
          length-append (fields_bits (whole_fields pkt)) (lines_bits pkts),
          length-whole_fields pkt,
        ) in
      let c : ℕ = 70 + 10 * pkt.payload_length_words in
      let more = rem_over_four (n - p / 8) (omega (arith, size, l)) (omega arith) in
      let q : p + c + gap (p + c) ≡ p + line_size pkt = omega arith in
      let e' = e ∙ append_assoc (fields_bits (whole_fields pkt)) (lines_bits pkts) tail in
      let rest = line_end p pkt (lines_bits pkts ++ tail) e' in
      let a : read_line realloc calloc (length lines) (at mem n p)
          ≡ ok (line_of pkt, at mem n (p + c)) =
        read_line-line_of (length lines) p pkt (lines_bits pkts ++ tail) short.0 z
          (omega (arith, size, l)) e' in
      let follow =
        line_follow (p + c + gap (p + c)) pkts tail (ap (λ m. drop m (bits_of mem)) q ∙ rest)
          (omega (arith, size, l, q)) in
      let b : skip_stuffing (at mem n (p + c))
          ≡ ok (n - (p + line_size pkt) / 8, at mem n (p + line_size pkt)) =
        skip_stuffing-at mem n (p + c) (omega (arith, size, l)) owned n31 bytes follow
        ∙ ap (λ m. ok (n - m / 8, at mem n m)) q in
      parse_loop-step fuel (n - p / 8) (at mem n p) (at mem n (p + c)) (line_of pkt)
        (n - (p + line_size pkt) / 8) (at mem n (p + line_size pkt)) lines more a b
        (ok (true, lines ++ map line_of (pkt ∷ pkts)))
        (parse_loop-lines pkts fuel (p + line_size pkt) (lines ++ line_of pkt ∷ []) tail short.1
            (omega arith) (omega arith) rest (omega (arith, size, l))
          ∙ ap (λ l. ok (true, l)) (append_assoc lines (line_of pkt ∷ []) (map line_of pkts)))
