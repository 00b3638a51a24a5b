-- ===== src/Smpte2038/Parser/Step.antt =====
-- read_line, where the bits of a line follow.
use libklvanc.Prelude.{
  ℕ, zero, suc, ◌+◌, ◌*◌, ◌/◌, ◌%◌, ◌^◌, ◌≤◌, ◌<◌, ◌≡◌, refl, sym, ap, ◌∙◌, List, [], ◌∷◌, ◌++◌,
  map, ok, Bool, true, false, ltb, length, replicate, arith, drop, All,
}
use libklvanc.Bitstream.{klbs_read_fields, klbs_get_byte_count_free}
use libklvanc.Bitstream.Bits.{to_bits, bits_of, fields_bits, length-to_bits}
use libklvanc.Bitstream.ReadBit.{at}
use libklvanc.Bitstream.Reads.{total, widths, field_values, read_fields_lem, values_at-fields}
use libklvanc.Bitstream.RoundTrip.{length-fields_bits}
use libklvanc.Bitstream.Stuffing.{read_bits-next, drop-next}
use libklvanc.Smpte2038.{vanc8}
use libklvanc.Smpte2038.Parser.{read_line}

abbrev pub words_fields : List ℕ → List (ℕ × ℕ)
words_fields ws = map (λ w. (w, 10)) ws

abbrev pub words_values : List ℕ → List ℕ
words_values ws = map (λ w. w % 2 ^ 10) ws

-- The fields of a line in front of its words.
abbrev pub front_fields : ℕ → ℕ → ℕ → ℕ → List (ℕ × ℕ)
front_fields line d s c = (0, 6) ∷ (0, 1) ∷ (line, 11) ∷ (0, 12) ∷ (d, 10) ∷ (s, 10) ∷ (c, 10) ∷ []

words_widths : (ws : List ℕ) → widths (words_fields ws) ≡ replicate (length ws) 10
words_widths [] = refl
words_widths (w ∷ ws) = rw (words_widths ws)

words_back : (ws : List ℕ) → field_values (words_fields ws) ≡ words_values ws
words_back [] = refl
words_back (w ∷ ws) = rw (words_back ws)

words_small : (ws : List ℕ) → All (λ f. f.1 ≤ 64) (words_fields ws)
words_small [] = tt
words_small (w ∷ ws) = (omega arith, words_small ws)

total_words : (n : ℕ) → total (replicate n 10) ≡ 10 * n
total_words zero = refl
total_words (suc n) = omega (arith, total_words n)

pub length-words_bits : (ws : List ℕ) → length (fields_bits (words_fields ws)) ≡ 10 * length ws
length-words_bits ws =
    length-fields_bits (words_fields ws) ∙ ap total (words_widths ws) ∙ total_words (length ws)

-- The words that follow bit `p`.
read_words :
    (ws mem rest : List ℕ) (n p cnt : ℕ)
    → length ws ≡ cnt
    → p + 10 * cnt ≤ 8 * n
    → n ≤ length mem
    → All (λ b. b < 256) mem
    → drop p (bits_of mem) ≡ fields_bits (words_fields ws) ++ rest
    → klbs_read_fields (replicate cnt 10) (at mem n p)
      ≡ ok (words_values ws, at mem n (p + 10 * cnt))
read_words ws mem rest n p cnt l fits owned bytes e =
    let w : replicate cnt 10 ≡ widths (words_fields ws) = rw (← l) (sym (words_widths ws)) in
    let t : total (widths (words_fields ws)) ≡ 10 * cnt = ap total (sym w) ∙ total_words cnt in
    rw w (
      read_fields_lem (widths (words_fields ws)) mem n p (omega (arith, t)) owned bytes
      ∙ rw (values_at-fields (words_fields ws) mem rest p (words_small ws) e, t, words_back ws))

module _ (realloc calloc : ℕ → Bool) (k : ℕ) (r : realloc k ≡ true) (ca : calloc k ≡ true)
    (line d s c ck : ℕ) (ws rest mem : List ℕ) (n p cnt : ℕ) (count : vanc8 (c % 2 ^ 10) ≡ cnt)
    (len : length ws ≡ cnt) (aligned : p % 8 ≡ 0) (fits : p + 70 + 10 * cnt ≤ 8 * n)
    (owned : n ≤ length mem) (n32 : n < 2 ^ 32) (bytes : All (λ b. b < 256) mem)
    (follow : drop p (bits_of mem)
      ≡ to_bits 6 0
        ++ (to_bits 1 0
            ++ (to_bits 11 line
                ++ (to_bits 12 0
                    ++ (to_bits 10 d
                        ++ (to_bits 10 s
                            ++ (to_bits 10 c
                                ++ (fields_bits (words_fields ws)
                                    ++ (to_bits 10 ck ++ rest))))))))) where
  abbrev after_words : List ℕ
  after_words = to_bits 10 ck ++ rest

  abbrev after_c : List ℕ
  after_c = fields_bits (words_fields ws) ++ after_words

  abbrev after_s : List ℕ
  after_s = to_bits 10 c ++ after_c

  abbrev after_d : List ℕ
  after_d = to_bits 10 s ++ after_s

  abbrev after_zeros : List ℕ
  after_zeros = to_bits 12 0 ++ (to_bits 10 d ++ after_d)

  next1 : drop (p + 6) (bits_of mem) ≡ to_bits 1 0 ++ (to_bits 11 line ++ after_zeros)
  next1 = drop-next (bits_of mem) (to_bits 6 0) _ p 6 follow (length-to_bits 6 0)

  next2 : drop (p + 6 + 1) (bits_of mem) ≡ to_bits 11 line ++ after_zeros
  next2 = drop-next (bits_of mem) (to_bits 1 0) _ (p + 6) 1 next1 (length-to_bits 1 0)

  next3 : drop (p + 6 + 1 + 11) (bits_of mem) ≡ after_zeros
  next3 = drop-next (bits_of mem) (to_bits 11 line) _ (p + 6 + 1) 11 next2 (length-to_bits 11 line)

  next4 : drop (p + 6 + 1 + 11 + 12) (bits_of mem) ≡ to_bits 10 d ++ after_d
  next4 = drop-next (bits_of mem) (to_bits 12 0) _ (p + 6 + 1 + 11) 12 next3 (length-to_bits 12 0)

  next5 : drop (p + 6 + 1 + 11 + 12 + 10) (bits_of mem) ≡ after_d
  next5 =
      drop-next (bits_of mem) (to_bits 10 d) _ (p + 6 + 1 + 11 + 12) 10 next4 (length-to_bits 10 d)

  next6 : drop (p + 6 + 1 + 11 + 12 + 10 + 10) (bits_of mem) ≡ after_s
  next6 =
      drop-next (bits_of mem) (to_bits 10 s) _ (p + 6 + 1 + 11 + 12 + 10) 10 next5
        (length-to_bits 10 s)

  next7 : drop (p + 6 + 1 + 11 + 12 + 10 + 10 + 10) (bits_of mem) ≡ after_c
  next7 =
      drop-next (bits_of mem) (to_bits 10 c) _ (p + 6 + 1 + 11 + 12 + 10 + 10) 10 next6
        (length-to_bits 10 c)

  abbrev q : ℕ
  q = p + 6 + 1 + 11 + 12 + 10 + 10 + 10

  next8 : drop (q + 10 * cnt) (bits_of mem) ≡ after_words
  next8 =
      drop-next (bits_of mem) (fields_bits (words_fields ws)) _ q (10 * cnt) next7
        (length-words_bits ws ∙ ap (λ (t : ℕ). 10 * t) len)

  -- The check on the count lets the line through.
  room : ltb (klbs_get_byte_count_free (at mem n q)) ((cnt + 1) * 10 / 8) ≡ false
  unfolding klbs_get_byte_count_free
  room = ground arith

  pub read_line_lem :
      read_line realloc calloc k (at mem n p)
      ≡ ok (
        record {
          reserved_000000 = 0;
          c_not_y_channel_flag = 0;
          line_number = line % 2 ^ 11;
          horizontal_offset = 0;
          did = d % 2 ^ 10;
          sdid = s % 2 ^ 10;
          data_count = c % 2 ^ 10;
          user_data_words = words_values ws;
          checksum_word = ck % 2 ^ 10;
        },
        at mem n (p + (70 + 10 * cnt)),
      )
  unfolding read_line
  read_line_lem =
      let e : q + 10 * cnt + 10 ≡ p + (70 + 10 * cnt) = omega arith in
      rw (r, read_bits-next 6 0 mem n p _ (omega arith) (omega arith) owned bytes follow)
        (rw (read_bits-next 1 0 mem n (p + 6) _ (omega arith) (omega arith) owned bytes next1) (
          rw
            (read_bits-next 11 line mem n (p + 6 + 1) _ (omega arith) (omega arith) owned bytes
              next2)
            (rw
              (read_bits-next 12 0 mem n (p + 6 + 1 + 11) _ (omega arith) (omega arith) owned bytes
                next3)
              (rw
                (read_bits-next 10 d mem n (p + 6 + 1 + 11 + 12) _ (omega arith) (omega arith) owned
                  bytes next4)
                (rw
                  (read_bits-next 10 s mem n (p + 6 + 1 + 11 + 12 + 10) _ (omega arith)
                    (omega arith) owned bytes next5)
                  (rw
                    (read_bits-next 10 c mem n (p + 6 + 1 + 11 + 12 + 10 + 10) _ (omega arith)
                      (omega arith) owned bytes next6)
                    (rw (count, room, ca)
                      (rw
                        (read_words ws mem after_words n q cnt len (omega arith) owned bytes next7)
                        (rw
                          (read_bits-next 10 ck mem n (q + 10 * cnt) rest (omega arith)
                            (omega arith) owned bytes next8)
                          (rw e))))))))))
