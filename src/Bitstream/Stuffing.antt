-- ===== src/Bitstream/Stuffing.antt =====
-- klbs_write_byte_stuff and klbs_read_byte_stuff: the rest of a byte.
use libklvanc.Prelude.{
  ℕ, zero, suc, ◌+◌, ◌-◌, ◌*◌, ◌%◌, ◌^◌, ◌≤◌, ◌<◌, ◌≡◌, refl, sym, ap, ◌∙◌, List, [], ◌∷◌, ◌++◌, ok,
  ◌>>=◌, length, replicate, arith, ltb, lt→ltb, false, true, bind_assoc, drop, All, drop-drop,
  drop-append_length,
}
use libklvanc.Bitstream.{
  Klbs, klbs_write_bits, klbs_write_fields, write_byte_stuff_loop, klbs_write_byte_stuff,
  klbs_read_bits, read_byte_stuff_loop, klbs_read_byte_stuff, klbs_peek_bits,
}
use libklvanc.Bitstream.Bits.{to_bits, bits_of}
use libklvanc.Bitstream.Store.{HasRoom, write_bit_lem}
use libklvanc.Bitstream.WriteBits.{HasRoom-Wrote}
use libklvanc.Bitstream.ReadBit.{at, read_bit_lem, value_from-to_bits}
use libklvanc.Bitstream.Reads.{read_bits_lem}

pub write_fields-append :
    (xs ys : List (ℕ × ℕ)) (s : Klbs)
    → klbs_write_fields s (xs ++ ys) ≡ (klbs_write_fields s xs >>= λ t. klbs_write_fields t ys)
unfolding klbs_write_fields
write_fields-append [] ys s = refl
write_fields-append ((v, n) ∷ xs) ys s = simp (write_fields-append xs ys, bind_assoc)

-- Filling up with ones is a run of fields.
abbrev pub ones : ℕ → List (ℕ × ℕ)
ones n = replicate n (1, 1)

abbrev pub gap : ℕ → ℕ
gap p = (8 - p % 8) % 8

stuff_loop-fields :
    (fuel k : ℕ) (s : Klbs)
    → HasRoom s k
    → k ≡ gap s.reg_used
    → k ≤ fuel
    → write_byte_stuff_loop fuel s 1 ≡ klbs_write_fields s (ones k)
unfolding write_byte_stuff_loop klbs_write_fields klbs_write_bits
stuff_loop-fields zero zero s h e l =
    let z : ltb 0 s.reg_used ≡ false = ground (arith, h.open_reg) in rw z
stuff_loop-fields (suc fuel) zero s h e l =
    let z : ltb 0 s.reg_used ≡ false = ground (arith, h.open_reg) in rw z
stuff_loop-fields zero (suc k) s h e l = absurd (omega arith)
stuff_loop-fields (suc fuel) (suc k) s h e l =
    let more : ltb 0 s.reg_used ≡ true = lt→ltb 0 s.reg_used (omega (arith, e, h.open_reg)) in
    let (t, b, w) = write_bit_lem s 1 (omega arith) in
    let room : HasRoom t k = HasRoom-Wrote 1 k (omega arith) refl w in
    let ih =
      stuff_loop-fields fuel k t room (omega (arith, e, w.moved, w.open_reg, h.open_reg))
        (omega arith) in
    rw (more, b) ih

-- The reader at bit `p` skips what is left of its byte.
read_stuff_loop :
    (fuel k : ℕ) (mem : List ℕ) (n p : ℕ)
    → k ≡ gap p
    → k ≤ fuel
    → p ≤ 8 * n
    → n ≤ length mem
    → read_byte_stuff_loop fuel (at mem n p) ≡ ok (at mem n (p + k))
unfolding read_byte_stuff_loop
read_stuff_loop zero zero mem n p e l h o =
    let z : ltb 0 ((8 - p % 8) % 8) ≡ false = ground arith in
    let a : p + 0 ≡ p = omega arith in rw (a, z)
read_stuff_loop (suc fuel) zero mem n p e l h o =
    let z : ltb 0 ((8 - p % 8) % 8) ≡ false = ground arith in
    let a : p + 0 ≡ p = omega arith in rw (a, z)
read_stuff_loop zero (suc k) mem n p e l h o = absurd (omega arith)
read_stuff_loop (suc fuel) (suc k) mem n p e l h o =
    let more : ltb 0 ((8 - p % 8) % 8) ≡ true = lt→ltb 0 ((8 - p % 8) % 8) (omega (arith, e)) in
    let a : p + suc k ≡ p + 1 + k = omega arith in
    rw (more, a)
      (rw (read_bit_lem mem n p (omega arith) o)
        (read_stuff_loop fuel k mem n (p + 1) (omega arith) (omega arith) (omega arith) o))

pub read_byte_stuff-at :
    (mem : List ℕ) (n p : ℕ)
    → p ≤ 8 * n
    → n ≤ length mem
    → klbs_read_byte_stuff (at mem n p) ≡ ok (at mem n (p + gap p))
unfolding klbs_read_byte_stuff
read_byte_stuff-at mem n p h o = read_stuff_loop 8 (gap p) mem n p refl (omega arith) h o

-- The next field, where the bits that follow are known.
module _ (k v : ℕ) (mem : List ℕ) (n p : ℕ) (rest : List ℕ) (small : k ≤ 64) (fits : p + k ≤ 8 * n)
    (owned : n ≤ length mem) (bytes : All (λ b. b < 256) mem)
    (follow : drop p (bits_of mem) ≡ to_bits k v ++ rest) where
  pub read_bits-next : klbs_read_bits k (at mem n p) ≡ ok (v % 2 ^ k, at mem n (p + k))
  read_bits-next =
      read_bits_lem k mem n p fits owned bytes ∙ rw (value_from-to_bits k v mem rest p small follow)

  pub peek_bits-next : klbs_peek_bits k (at mem n p) ≡ ok (v % 2 ^ k)
  unfolding klbs_peek_bits
  peek_bits-next = rw read_bits-next

-- Behind a run of bits.
pub drop-next :
    (bits xs ys : List ℕ) (p k : ℕ)
    → drop p bits ≡ xs ++ ys
    → length xs ≡ k
    → drop (p + k) bits ≡ ys
drop-next bits xs ys p k e l = sym (drop-drop p k bits) ∙ ap (drop k) e ∙ drop-append_length xs ys l

pub stuff-fields :
    (s : Klbs)
    → HasRoom s (gap s.reg_used)
    → klbs_write_byte_stuff s 1 ≡ klbs_write_fields s (ones (gap s.reg_used))
unfolding klbs_write_byte_stuff
stuff-fields s h = stuff_loop-fields 8 (gap s.reg_used) s h refl (omega arith)
