-- ===== src/Checksum/Laws.antt =====
-- The checksum of core-checksum.c against the rule of SMPTE 291: the sum of the words modulo 512,
-- under the inverse of its highest bit.
use libklvanc.Prelude.{
  ℕ, ◌+◌, ◌-◌, ◌/◌, ◌%◌, ◌^◌, ◌<◌, ◌≡◌, ◌≢◌, refl, sym, ap, ◌∙◌, List, [], ◌∷◌, ◌++◌, ok, length,
  arith, true, false, ◌==◌, get_elem?, some,
}
use libklvanc.Checksum.{
  checksum_loop, mark_inverse, klvanc_checksum_calculate, klvanc_checksum_is_valid,
}

unfoldable pub sum : List ℕ → ℕ
sum [] = 0
sum (w ∷ words) = w + sum words

-- The checksum word: bits 0 to 8 are the sum, bit 9 is the inverse of bit 8.
unfoldable pub checksum_word : List ℕ → ℕ
unfolding mark_inverse sum
checksum_word words = mark_inverse (sum words % 512)

pub checksum_loop-sum :
    (s : ℕ) (words rest : List ℕ)
    → s < 512
    → checksum_loop s (words ++ rest) (length words) ≡ ok ((s + sum words) % 512)
unfolding checksum_loop sum
checksum_loop-sum s [] rest h = ap ok (omega arith)
checksum_loop-sum s (w ∷ words) rest h =
    checksum_loop-sum ((s + w) % 2 ^ 16 % 512) words rest (omega arith) ∙ ap ok (omega arith)

pub calculate-checksum_word :
    (words rest : List ℕ)
    → klvanc_checksum_calculate (words ++ rest) (length words) ≡ ok (checksum_word words)
unfolding klvanc_checksum_calculate checksum_word
calculate-checksum_word words rest =
    let e : 0 + sum words ≡ sum words = omega arith in
    rw (checksum_loop-sum 0 words rest (omega arith), e)

pub checksum_word_bits :
    (words : List ℕ)
    → (checksum_word words % 512 ≡ sum words % 512)
      × (checksum_word words / 512 + checksum_word words / 256 % 2 ≡ 1)
unfolding checksum_word mark_inverse
checksum_word_bits words = (ground arith, ground arith)

-- klvanc_checksum_calculate, on fewer than 2 ^ 16 words that the memory holds, returns a word whose
-- lowest nine bits are their sum modulo 512 and whose bit 9 is the inverse of bit 8.
pub calculate-sum :
    (words rest : List ℕ)
    → length words < 2 ^ 16
    → (c : ℕ) × (klvanc_checksum_calculate (words ++ rest) (length words) ≡ ok c)
      × (c % 512 ≡ sum words % 512)
      × (c / 512 + c / 256 % 2 ≡ 1)
calculate-sum words rest small =
    let (low, high) = checksum_word_bits words in
    (checksum_word words, calculate-checksum_word words rest, low, high)

pub get_elem?-middle :
    (words rest : List ℕ) (c : ℕ) → get_elem? (words ++ c ∷ rest) (length words) ≡ some c
get_elem?-middle [] rest c = refl
get_elem?-middle (w ∷ words) rest c = get_elem?-middle words rest c

-- klvanc_checksum_is_valid on words that end in `c`.
pub is_valid-checksum_word :
    (words rest : List ℕ) (c : ℕ)
    → klvanc_checksum_is_valid (words ++ c ∷ rest) (length words + 1)
      ≡ ok (checksum_word words == c)
unfolding klvanc_checksum_is_valid
is_valid-checksum_word words rest c =
    let e : length words + 1 - 1 ≡ length words = omega arith in
    rw (e, calculate-checksum_word words (c ∷ rest), get_elem?-middle words rest c)

pub sum-append : (xs ys : List ℕ) → sum (xs ++ ys) ≡ sum xs + sum ys
unfolding sum
sum-append [] ys = omega arith
sum-append (x ∷ xs) ys = omega (arith, sum-append xs ys)

-- Changing the lowest nine bits of one word changes the checksum.
checksum_word-ne :
    (front back : List ℕ) (w w' : ℕ)
    → w % 512 ≢ w' % 512
    → checksum_word (front ++ w ∷ back) ≢ checksum_word (front ++ w' ∷ back)
unfolding sum
checksum_word-ne front back w w' h e = h (
    omega (
      arith,
      e,
      checksum_word_bits (front ++ w ∷ back),
      checksum_word_bits (front ++ w' ∷ back),
      sum-append front (w ∷ back),
      sum-append front (w' ∷ back),
    ))

-- A packet of fewer than 2 ^ 16 words, whose words from the data identifier on are `front`, `w` and
-- `back`, with the checksum `c` that klvanc_checksum_is_valid accepts, is rejected once the lowest
-- nine bits of `w` change.
pub is_valid_detects :
    (front back rest : List ℕ) (w w' c : ℕ)
    → length (front ++ w ∷ back) < 2 ^ 16
    → w % 512 ≢ w' % 512
    → klvanc_checksum_is_valid ((front ++ w ∷ back) ++ c ∷ rest) (length (front ++ w ∷ back) + 1)
      ≡ ok true
    → klvanc_checksum_is_valid ((front ++ w' ∷ back) ++ c ∷ rest) (length (front ++ w' ∷ back) + 1)
      ≡ ok false
is_valid_detects front back rest w w' c small h valid =
    let e : ok (checksum_word (front ++ w ∷ back) == c) ≡ ok true =
      sym (is_valid-checksum_word (front ++ w ∷ back) rest c) ∙ valid in
    rw (is_valid-checksum_word (front ++ w' ∷ back) rest c)
      (ground (arith, checksum_word-ne front back w w' h))
