-- ===== src/Bitstream/WriteBits.antt =====
-- Runs of klbs_write_bit, and klbs_write_buffer_complete.
use libklvanc.Prelude.{
  ℕ, zero, suc, ◌+◌, ◌-◌, ◌/◌, ◌%◌, ◌^◌, ◌≤◌, ◌<◌, ◌≡◌, refl, sym, ap, ◌∙◌, List, [], ◌∷◌, ◌++◌, ok,
  ◌>>=◌, Outcome, All, take, drop, drop-drop, length, length-append, replicate, arith,
  if◌then◌else◌, ltb, ◌==◌, bind_ok, bind_assoc, length-replicate, Bool-cases, ltb→lt, inl, inr,
}
use libklvanc.Bitstream.{Klbs, klbs_write_bits, klbs_write_bit, write_zeros}
use libklvanc.Bitstream.{klbs_write_buffer_complete, klbs_write_fields}
use libklvanc.Bitstream.Bits.{to_bits, bits_of, fields_bits, length-to_bits}
use libklvanc.Bitstream.Store.{
  contents, position, HasRoom, Wrote, IsByte, next_reg, write_bit_lem, write_bit_inside,
}
use mathlib.Core.Path.{fun_ext}
use mathlib.Core.List.{append-nil, append_assoc}

pub drop_further :
    (xs ys : List ℕ) (m n : ℕ) → m ≤ n → drop m xs ≡ drop m ys → drop n xs ≡ drop n ys
drop_further xs ys m n h e =
    let k : n ≡ m + (n - m) = omega arith in
    rw k (sym (drop-drop m (n - m) xs) ∙ ap (drop (n - m)) e ∙ drop-drop m (n - m) ys)

pub Wrote-nil : (s : Klbs) → s.reg_used < 8 → Wrote s [] s
Wrote-nil s h = record {
  said = sym (append-nil (contents s));
  moved = omega arith;
  open_reg = h;
  same_len = refl;
  same_mem = refl;
  as_bytes = λ a. a;
  kept = refl;
}

pub Wrote-trans :
    {s t u : Klbs} {xs ys : List ℕ} → Wrote s xs t → Wrote t ys u → Wrote s (xs ++ ys) u
Wrote-trans {s} {t} {u} {xs} {ys} p q = record {
  said = q.said ∙ ap (λ (l : List ℕ). l ++ ys) p.said ∙ append_assoc (contents s) xs ys;
  moved = omega (arith, length-append xs ys);
  open_reg = q.open_reg;
  same_len = q.same_len ∙ p.same_len;
  same_mem = q.same_mem ∙ p.same_mem;
  as_bytes = λ a. q.as_bytes (p.as_bytes a);
  kept = q.kept ∙ drop_further t.buf s.buf t.buflen_used u.buflen_used (omega arith) p.kept;
}

-- What is left of the room after some of it was used.
pub HasRoom-Wrote :
    {s t : Klbs} {xs : List ℕ} (m n : ℕ)
    → HasRoom s (m + n)
    → length xs ≡ m
    → Wrote s xs t
    → HasRoom t n
HasRoom-Wrote m n h e w = record { fits = omega arith; owned = omega arith; open_reg = w.open_reg }

-- klbs_write_bits writes the lowest `n` bits of `v`, the highest first.
pub write_bits_lem :
    (n v : ℕ) (s : Klbs)
    → HasRoom s n
    → (t : Klbs) × (klbs_write_bits s v n ≡ ok t) × Wrote s (to_bits n v) t
unfolding to_bits klbs_write_bits
write_bits_lem zero v s h = (s, refl, Wrote-nil s h.open_reg)
write_bits_lem (suc n) v s h =
    let (t, e, w) = write_bit_lem s (v / 2 ^ n) (omega arith) in
    let (u, e', w') = write_bits_lem n v t (HasRoom-Wrote 1 n (omega arith) refl w) in
    (u, rw e e', Wrote-trans w w')

pub write_fields_lem :
    (fields : List (ℕ × ℕ)) (s : Klbs)
    → HasRoom s (length (fields_bits fields))
    → (t : Klbs) × (klbs_write_fields s fields ≡ ok t) × Wrote s (fields_bits fields) t
unfolding fields_bits klbs_write_fields
write_fields_lem [] s h = (s, refl, Wrote-nil s h.open_reg)
write_fields_lem ((v, n) ∷ fields) s h =
    let k : length (to_bits n v ++ fields_bits fields) ≡ n + length (fields_bits fields) =
      omega (arith, length-append (to_bits n v) (fields_bits fields), length-to_bits n v) in
    let (t, e, w) = write_bits_lem n v s (omega arith) in
    let (u, e', w') =
      write_fields_lem fields t
        (HasRoom-Wrote n (length (fields_bits fields)) (omega arith) (length-to_bits n v) w) in
    (u, rw e e', Wrote-trans w w')

write_zeros_lem :
    (n : ℕ) (s : Klbs)
    → HasRoom s n
    → (t : Klbs) × (write_zeros n s ≡ ok t) × Wrote s (replicate n 0) t
unfolding write_zeros
write_zeros_lem zero s h = (s, refl, Wrote-nil s h.open_reg)
write_zeros_lem (suc n) s h =
    let (t, e, w) = write_bit_lem s 0 (omega arith) in
    let (u, e', w') = write_zeros_lem n t (HasRoom-Wrote 1 n (omega arith) refl w) in
    (u, rw e e', Wrote-trans w w')

-- The last of a run of zeros.
write_zeros-last :
    (n : ℕ) (s : Klbs) → write_zeros (suc n) s ≡ (write_zeros n s >>= λ t. klbs_write_bit t 0)
unfolding write_zeros
write_zeros-last zero s = bind_ok (klbs_write_bit s 0)
write_zeros-last (suc n) s =
    ap (λ (f : Klbs → Outcome Klbs). klbs_write_bit s 0 >>= f) (fun_ext (write_zeros-last n))
    ∙ sym (bind_assoc (klbs_write_bit s 0) (write_zeros n) (λ t. klbs_write_bit t 0))

-- The zeros that fill up the last byte.
abbrev pub padding : Klbs → List ℕ
padding s = replicate ((8 - s.reg_used) % 8) 0

contents_aligned : (s : Klbs) → s.reg_used ≡ 0 → contents s ≡ bits_of (take s.buflen_used s.buf)
unfolding contents to_bits
contents_aligned s h = rw h (append-nil (bits_of (take s.buflen_used s.buf)))

-- What klbs_write_buffer_complete leaves: whole bytes, the last filled with zeros. Where it had to
-- fill a byte, one bit more is in the register, and is counted there.
pub record Completed (s : Klbs) (t : Klbs) : Type 0 where
  pub bytes : bits_of (take t.buflen_used t.buf) ≡ contents s ++ padding s
  pub used : t.buflen_used ≡ (position s + 7) / 8
  pub left_over : t.reg_used ≡ (if s.reg_used == 0 then 0 else 1)
  pub same_len : t.buflen ≡ s.buflen
  pub same_mem : length t.buf ≡ length s.buf
  pub as_bytes : All IsByte (take s.buflen_used s.buf) → All IsByte (take t.buflen_used t.buf)
  pub kept : drop t.buflen_used t.buf ≡ drop t.buflen_used s.buf

complete_aligned :
    (s : Klbs) → s.reg_used ≡ 0 → (klbs_write_buffer_complete s ≡ ok s) × Completed s s
complete_aligned s h = (
  unfold klbs_write_buffer_complete in rw h,
  record {
    bytes =
        let k : (8 - s.reg_used) % 8 ≡ 0 = omega arith in
        rw k (sym (contents_aligned s h) ∙ sym (append-nil (contents s)));
    used = omega arith;
    left_over = rw h;
    same_len = refl;
    same_mem = refl;
    as_bytes = λ a. a;
    kept = refl;
  },
)

pad_length : (n : ℕ) → length (replicate {A = ℕ} n 0) ≡ n
pad_length n = length-replicate n 0

-- `t` has the filled byte; one bit more goes into the register.
module _ {s t : Klbs} (begun : 0 < s.reg_used) (inside : s.reg_used < 8)
    (w : Wrote s (replicate (8 - s.reg_used) 0) t) where
  filled : t.reg_used ≡ 0
  filled = omega (arith, pad_length (8 - s.reg_used), w.moved, w.open_reg)

  filled_used : t.buflen_used ≡ s.buflen_used + 1
  filled_used = omega (arith, pad_length (8 - s.reg_used), w.moved, w.open_reg)

  filled_bytes : bits_of (take t.buflen_used t.buf) ≡ contents s ++ padding s
  filled_bytes =
      let k : (8 - s.reg_used) % 8 ≡ 8 - s.reg_used = omega arith in
      rw k (sym (contents_aligned t filled) ∙ w.said)

  filled_Completed : Completed s (record t { reg = next_reg t 0; reg_used = t.reg_used + 1 })
  filled_Completed = record {
    bytes = filled_bytes;
    used = omega (arith, filled_used);
    left_over = ground (arith, filled);
    same_len = w.same_len;
    same_mem = w.same_mem;
    as_bytes = w.as_bytes;
    kept = w.kept;
  }

complete_filling :
    (s : Klbs)
    → HasRoom s (8 - s.reg_used)
    → 0 < s.reg_used
    → (t : Klbs) × (klbs_write_buffer_complete s ≡ ok t) × Completed s t
unfolding klbs_write_buffer_complete
complete_filling s h pos =
    let (t, e, w) = write_zeros_lem (8 - s.reg_used) s h in
    let k : 9 - s.reg_used ≡ suc (8 - s.reg_used) = omega arith in
    let z = filled pos h.open_reg w in
    let f : t.buflen_used ≤ t.buflen = omega (arith, filled_used pos h.open_reg w, w.same_len) in
    (
      record t { reg = next_reg t 0; reg_used = t.reg_used + 1 },
      ground
          (arith, k, write_zeros-last (8 - s.reg_used) s, e, write_bit_inside t 0 f (omega arith)),
      filled_Completed pos h.open_reg w,
    )

-- klbs_write_buffer_complete succeeds wherever the last byte has its place in the buffer.
pub write_buffer_complete_lem :
    (s : Klbs)
    → HasRoom s ((8 - s.reg_used) % 8)
    → (t : Klbs) × (klbs_write_buffer_complete s ≡ ok t) × Completed s t
write_buffer_complete_lem s h = elim (Bool-cases (ltb 0 s.reg_used)) [
  | inl pos ↦ complete_filling s (omega (arith, ltb→lt 0 s.reg_used pos)) (ltb→lt _ _ pos)
  | inr empty ↦ let (e, c) = complete_aligned s (ground arith) in (s, e, c)
]
