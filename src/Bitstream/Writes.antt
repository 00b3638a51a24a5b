-- ===== src/Bitstream/Writes.antt =====
-- Runs of klbs_write_bits and klbs_write_buffer_complete: what they leave in the buffer.
use libklvanc.Prelude.{
  ℕ, ◌+◌, ◌-◌, ◌*◌, ◌/◌, ◌%◌, ◌≤◌, ◌≡◌, refl, sym, ap, ◌∙◌, List, [], ◌++◌, ok, ◌>>=◌, All, take,
  drop, length, replicate, arith, All-take-drop, drop-All,
}
use libklvanc.Bitstream.{Klbs}
use libklvanc.Bitstream.{klbs_write_buffer_complete, klbs_write_fields, klbs_write_set_buffer}
use libklvanc.Bitstream.Bits.{to_bits, bits_of, fields_bits, to_bytes, to_bytes-bits_of}
use libklvanc.Bitstream.Store.{contents, position, HasRoom, IsByte}
use libklvanc.Bitstream.WriteBits.{
  drop_further, write_fields_lem, Completed, write_buffer_complete_lem,
}

-- The bits, filled up with zeros to whole bytes.
abbrev pub padded : List ℕ → List ℕ
padded bits = bits ++ replicate ((8 - length bits % 8) % 8) 0

fresh-contents : (mem : List ℕ) (n : ℕ) → contents (klbs_write_set_buffer mem n) ≡ []
unfolding contents klbs_write_set_buffer to_bits bits_of
fresh-contents mem n = refl

Completed-bits :
    {t u : Klbs} (bits : List ℕ)
    → contents t ≡ bits
    → t.reg_used ≡ length bits % 8
    → Completed t u
    → bits_of (take u.buflen_used u.buf) ≡ padded bits
Completed-bits {t} {u} bits said r c = c.bytes ∙ rw (said, r)

Completed-bytes :
    {t u : Klbs} (bits : List ℕ)
    → contents t ≡ bits
    → t.reg_used ≡ length bits % 8
    → Completed t u
    → All IsByte (take u.buflen_used u.buf)
    → take u.buflen_used u.buf ≡ to_bytes (padded bits)
Completed-bytes {t} {u} bits said r c all =
    sym (to_bytes-bits_of (take u.buflen_used u.buf) all)
    ∙ ap to_bytes (Completed-bits bits said r c)

-- `t` holds the whole message `fields` at the front of a buffer that was `mem`.
pub record Message (mem : List ℕ) (fields : List (ℕ × ℕ)) (t : Klbs) : Type 0 where
  pub bytes : take t.buflen_used t.buf ≡ to_bytes (padded (fields_bits fields))
  pub bits : bits_of (take t.buflen_used t.buf) ≡ padded (fields_bits fields)
  pub used : t.buflen_used ≡ (length (fields_bits fields) + 7) / 8
  pub kept : drop t.buflen_used t.buf ≡ drop t.buflen_used mem
  pub same_mem : length t.buf ≡ length mem
  pub as_bytes : All IsByte (take t.buflen_used t.buf)

-- A run of fields that fits the buffer is written from a fresh context, and completed, without a
-- failure: the bytes in use are the fields' bits, the highest first, filled up with zeros to whole
-- bytes, and the bytes behind them are as they were.
pub write_message_lem :
    (mem : List ℕ) (n : ℕ) (fields : List (ℕ × ℕ))
    → n ≤ length mem
    → length (fields_bits fields) ≤ 8 * n
    → (t : Klbs) × ((klbs_write_fields (klbs_write_set_buffer mem n) fields
          >>= klbs_write_buffer_complete)
        ≡ ok t)
      × Message mem fields t
unfolding klbs_write_set_buffer
write_message_lem mem n fields h k =
    let s : Klbs = klbs_write_set_buffer mem n in
    let (t, e, w) = write_fields_lem fields s (omega arith) in
    let p : position t ≡ length (fields_bits fields) = omega (arith, w.moved) in
    let r : t.reg_used ≡ length (fields_bits fields) % 8 = omega (arith, p, w.open_reg) in
    let room : HasRoom t ((8 - t.reg_used) % 8) =
      omega (arith, w.open_reg, w.same_len, w.same_mem) in
    let (u, e', c) = write_buffer_complete_lem t room in
    let said : contents t ≡ fields_bits fields = rw (fresh-contents mem n) at w.said in
    let all : All IsByte (take u.buflen_used u.buf) = c.as_bytes (w.as_bytes tt) in
    (
      u,
      rw e e',
      record {
        bytes = Completed-bytes (fields_bits fields) said r c all;
        bits = Completed-bits (fields_bits fields) said r c;
        used = omega (arith, c.used, p);
        kept =
            c.kept
            ∙ drop_further t.buf mem t.buflen_used u.buflen_used (omega (arith, c.used, w.open_reg))
                w.kept;
        same_mem = c.same_mem ∙ w.same_mem;
        as_bytes = all;
      },
    )

pub Message-as_bytes :
    {mem : List ℕ} {fields : List (ℕ × ℕ)} {t : Klbs}
    → Message mem fields t
    → All IsByte mem
    → All IsByte t.buf
Message-as_bytes {mem} {fields} {t} m a =
    All-take-drop IsByte t.buflen_used t.buf m.as_bytes
      (rw m.kept (drop-All IsByte t.buflen_used mem a))
