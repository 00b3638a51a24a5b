-- ===== src/Bitstream/Store.antt =====
-- klbs_write_bit: one bit goes behind those written before, and nothing else changes.
use libklvanc.Prelude.{
  ℕ, suc, ◌+◌, ◌*◌, ◌%◌, ◌^◌, ◌≤◌, ◌<◌, ◌≡◌, refl, sym, ◌∙◌, List, [], ◌∷◌, ◌++◌, inl, inr, ok, All,
  All-append, take, drop, set, length, length-set, take-set_next, drop-set_next, arith, ◌==◌,
  Bool-cases,
}
use libklvanc.Bitstream.{Klbs, klbs_write_bit, shift_in, store_reg}
use libklvanc.Bitstream.Bits.{to_bits, bits_of, to_bits-shift_in, to_bits-mod, bits_of-append}
use native.Mathlib.Numerals.{add-one}
use mathlib.Core.List.{append-nil, append_assoc}

-- The bits written so far: the finished bytes, and the register.
unfoldable pub contents : Klbs → List ℕ
contents s = bits_of (take s.buflen_used s.buf) ++ to_bits s.reg_used s.reg

abbrev pub IsByte : ℕ → Type 0
IsByte b = b < 256

-- How many they are.
abbrev pub position : Klbs → ℕ
position s = 8 * s.buflen_used + s.reg_used

-- There is room for `n` more bits.
pub record HasRoom (s : Klbs) (n : ℕ) : Type 0 where
  pub fits : position s + n ≤ 8 * s.buflen
  pub owned : s.buflen ≤ length s.buf
  pub open_reg : s.reg_used < 8

-- `t` is `s` after the bits `bs`.
pub record Wrote (s : Klbs) (bs : List ℕ) (t : Klbs) : Type 0 where
  pub said : contents t ≡ contents s ++ bs
  pub moved : position t ≡ position s + length bs
  pub open_reg : t.reg_used < 8
  pub same_len : t.buflen ≡ s.buflen
  pub same_mem : length t.buf ≡ length s.buf
  pub as_bytes : All IsByte (take s.buflen_used s.buf) → All IsByte (take t.buflen_used t.buf)
  pub kept : drop t.buflen_used t.buf ≡ drop t.buflen_used s.buf

abbrev pub next_reg : Klbs → ℕ → ℕ
next_reg s b = s.reg * 2 % 256 + b % 2

pub write_bit_inside :
    (s : Klbs) (b : ℕ)
    → s.buflen_used ≤ s.buflen
    → s.reg_used < 7
    → klbs_write_bit s b ≡ ok (record s { reg = next_reg s b; reg_used = s.reg_used + 1 })
unfolding klbs_write_bit shift_in store_reg
write_bit_inside s b h k = ground arith

write_bit_full :
    (s : Klbs) (b : ℕ)
    → s.buflen_used ≤ s.buflen
    → s.buflen_used < length s.buf
    → s.reg_used ≡ 7
    → klbs_write_bit s b
      ≡ ok (record s {
        buf = set s.buf s.buflen_used (next_reg s b);
        buflen_used = s.buflen_used + 1;
        reg = next_reg s b;
        reg_used = 0;
      })
unfolding klbs_write_bit shift_in store_reg
write_bit_full s b h j k = ground arith

reg_bits : (n r b : ℕ) → n < 8 → to_bits (suc n) (r * 2 % 256 + b % 2) ≡ to_bits n r ++ b % 2 ∷ []
reg_bits n r b h =
    let e : r * 2 % 256 + b % 2 ≡ (r * 2 + b % 2) % 2 ^ 8 = omega arith in
    rw e (
      to_bits-mod (suc n) 8 (r * 2 + b % 2) (omega arith)
      ∙ to_bits-shift_in n r (b % 2) (omega arith))

said_full :
    (buf : List ℕ) (u n reg b : ℕ)
    → u < length buf
    → n ≡ 7
    → bits_of (take (u + 1) (set buf u (reg * 2 % 256 + b % 2)))
        ++ to_bits 0 (reg * 2 % 256 + b % 2)
      ≡ (bits_of (take u buf) ++ to_bits n reg) ++ b % 2 ∷ []
said_full buf u n reg b h e =
    let r : ℕ = reg * 2 % 256 + b % 2 in
    rw (add-one u, e)
      (rw (take-set_next buf u r h) (
        rw (bits_of-append (take u buf) (r ∷ [])) (
          unfold bits_of in
          rw (reg_bits 7 reg b (omega arith)) (unfold to_bits in simp (append-nil, append_assoc)))))

said_inside :
    (front : List ℕ) (n reg b : ℕ)
    → n < 7
    → front ++ to_bits (n + 1) (reg * 2 % 256 + b % 2) ≡ (front ++ to_bits n reg) ++ b % 2 ∷ []
said_inside front n reg b h =
    rw (add-one n)
      (rw (reg_bits n reg b (omega arith)) (sym (append_assoc front (to_bits n reg) (b % 2 ∷ []))))

bytes_full :
    (buf : List ℕ) (u r : ℕ)
    → u < length buf
    → IsByte r
    → All IsByte (take u buf)
    → All IsByte (take (u + 1) (set buf u r))
bytes_full buf u r h k a =
    rw (add-one u)
      (rw (take-set_next buf u r h) (All-append IsByte (take u buf) (r ∷ []) a (k, tt)))

-- A bit that does not fill the register needs no room in the buffer.
pub write_bit_slack :
    (s : Klbs) (b : ℕ)
    → s.buflen_used ≤ s.buflen
    → s.reg_used < 7
    → Wrote s (b % 2 ∷ []) (record s { reg = next_reg s b; reg_used = s.reg_used + 1 })
unfolding contents
write_bit_slack s b h e = record {
  said = said_inside (bits_of (take s.buflen_used s.buf)) s.reg_used s.reg b e;
  moved = omega arith;
  open_reg = omega arith;
  same_len = refl;
  same_mem = refl;
  as_bytes = λ a. a;
  kept = refl;
}

write_bit_filling :
    (s : Klbs) (b : ℕ)
    → s.buflen_used < length s.buf
    → s.reg_used ≡ 7
    → Wrote s (b % 2 ∷ []) (record s {
      buf = set s.buf s.buflen_used (next_reg s b);
      buflen_used = s.buflen_used + 1;
      reg = next_reg s b;
      reg_used = 0;
    })
unfolding contents
write_bit_filling s b h e = record {
  said = said_full s.buf s.buflen_used s.reg_used s.reg b h e;
  moved = omega arith;
  open_reg = omega arith;
  same_len = refl;
  same_mem = length-set s.buf s.buflen_used (next_reg s b);
  as_bytes = bytes_full s.buf s.buflen_used (next_reg s b) h (omega arith);
  kept = rw (add-one s.buflen_used) (drop-set_next s.buf s.buflen_used (next_reg s b));
}

pub write_bit_lem :
    (s : Klbs) (b : ℕ)
    → HasRoom s 1
    → (t : Klbs) × (klbs_write_bit s b ≡ ok t) × Wrote s (b % 2 ∷ []) t
write_bit_lem s b h = elim (Bool-cases (s.reg_used == 7)) [
  | inl full ↦
      let e : s.reg_used ≡ 7 = ground arith in
      (_, write_bit_full s b (omega arith) (omega arith) e, write_bit_filling s b (omega arith) e)
  | inr inside ↦
      let e : s.reg_used < 7 = ground arith in
      (_, write_bit_inside s b (omega arith) e, write_bit_slack s b (omega arith) e)
]
