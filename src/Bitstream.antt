-- ===== src/Bitstream.antt =====
-- src/klbitstream_readwriter.h: reading and writing a byte buffer bit by bit.
pub mod Bits
pub mod Store
pub mod WriteBits
pub mod Writes
pub mod ReadBit
pub mod Reads
pub mod RoundTrip
pub mod Stuffing
pub mod Run
use libklvanc.Prelude.{
  ℕ, zero, suc, ◌+◌, ◌-◌, ◌*◌, ◌/◌, ◌%◌, ◌^◌, ◌≡◌, List, [], ◌∷◌, Outcome, ok, err, out_of_fuel,
  fault, ◌>>=◌, ◌>>◌, assert, deref, get_elem?, set, length, ltb, leb, ◌==◌, if◌then◌else◌, ◌&&◌,
}

-- `struct klbs_context_s`. `buf` is the memory from the buffer's address to the end of its object,
-- so `buflen`, which the caller passes, need not be its length.
pub record Klbs : Type 0 where
  pub buf : List ℕ
  pub buflen : ℕ
  pub buflen_used : ℕ
  pub reg_used : ℕ
  pub reg : ℕ

unfoldable pub klbs_get_byte_count : Klbs → ℕ
klbs_get_byte_count ctx = ctx.buflen_used

-- `klbs_get_buffer_size(ctx) - klbs_get_byte_count(ctx)`, on `uint32_t`.
unfoldable pub klbs_get_byte_count_free : Klbs → ℕ
klbs_get_byte_count_free ctx = (ctx.buflen + 2 ^ 32 - ctx.buflen_used) % 2 ^ 32

unfoldable pub klbs_write_set_buffer : List ℕ → ℕ → Klbs
klbs_write_set_buffer buf length_bytes = record {
  buf = buf;
  buflen = length_bytes;
  buflen_used = 0;
  reg_used = 0;
  reg = 0;
}

unfoldable pub klbs_read_set_buffer : List ℕ → ℕ → Klbs
unfolding klbs_write_set_buffer
klbs_read_set_buffer buf length_bytes = klbs_write_set_buffer buf length_bytes

-- `*(ctx->buf + ctx->buflen_used++) = ctx->reg; ctx->reg_used = 0;` at a full register.
unfoldable pub store_reg : Klbs → Outcome Klbs
store_reg ctx =
    if ctx.reg_used == 8
    then if ltb ctx.buflen_used (length ctx.buf)
      then ok (record ctx {
        buf = set ctx.buf ctx.buflen_used ctx.reg;
        buflen_used = ctx.buflen_used + 1;
        reg_used = 0;
      })
      else fault
    else ok ctx

-- `reg <<= 1; reg |= bit; reg_used++`, on a `uint8_t`.
unfoldable pub shift_in : Klbs → ℕ → Klbs
shift_in ctx bit =
    if ltb ctx.reg_used 8
    then record ctx { reg = ctx.reg * 2 % 256 + bit; reg_used = ctx.reg_used + 1 }
    else ctx

unfoldable pub klbs_write_bit : Klbs → ℕ → Outcome Klbs
klbs_write_bit ctx bit = do
  assert (leb ctx.buflen_used ctx.buflen)
  store_reg (shift_in ctx (bit % 2))

-- The loop runs while `reg_used > 0`: `rounds` is its fuel, and 8 are enough.
unfoldable pub write_byte_stuff_loop : ℕ → Klbs → ℕ → Outcome Klbs
write_byte_stuff_loop zero ctx bit = if ltb 0 ctx.reg_used then err out_of_fuel else ok ctx
write_byte_stuff_loop (suc rounds) ctx bit =
    let rest = klbs_write_bit ctx bit >>= (λ ctx'. write_byte_stuff_loop rounds ctx' bit) in
    if ltb 0 ctx.reg_used then rest else ok ctx

unfoldable pub klbs_write_byte_stuff : Klbs → ℕ → Outcome Klbs
unfolding write_byte_stuff_loop
klbs_write_byte_stuff ctx bit = write_byte_stuff_loop 8 ctx bit

-- `for (i = bitcount - 1; i >= 0; i--) klbs_write_bit(ctx, bits >> i)`.
unfoldable pub klbs_write_bits : Klbs → ℕ → ℕ → Outcome Klbs
klbs_write_bits ctx bits zero = ok ctx
klbs_write_bits ctx bits (suc i) =
    klbs_write_bit ctx (bits / 2 ^ i) >>= (λ ctx'. klbs_write_bits ctx' bits i)

-- A run of calls `klbs_write_bits(ctx, value, bitcount)`, one for each entry.
unfoldable pub klbs_write_fields : Klbs → List (ℕ × ℕ) → Outcome Klbs
klbs_write_fields ctx [] = ok ctx
klbs_write_fields ctx ((value, bitcount) ∷ fields) =
    klbs_write_bits ctx value bitcount >>= (λ ctx'. klbs_write_fields ctx' fields)

-- `rounds` calls of `klbs_write_bit(ctx, 0)`.
unfoldable pub write_zeros : ℕ → Klbs → Outcome Klbs
write_zeros zero ctx = ok ctx
write_zeros (suc rounds) ctx = klbs_write_bit ctx 0 >>= (λ ctx'. write_zeros rounds ctx')

-- The loop counts from `reg_used` up to 8, both included.
unfoldable pub klbs_write_buffer_complete : Klbs → Outcome Klbs
unfolding write_zeros
klbs_write_buffer_complete ctx =
    if ltb 0 ctx.reg_used then write_zeros (9 - ctx.reg_used) ctx else ok ctx

-- A read gives the context back beside its value.
abbrev pub Reader : Type 0 → Type 0
Reader A = Klbs → Outcome (A × Klbs)

-- `if (reg_used == 0) { reg = *(buf + buflen_used++); reg_used = 8; }`.
unfoldable pub fetch_reg : Klbs → Outcome Klbs
fetch_reg ctx =
    if ctx.reg_used == 0
    then deref (get_elem? ctx.buf ctx.buflen_used)
      >>= (λ byte. ok (record ctx { reg = byte; reg_used = 8; buflen_used = ctx.buflen_used + 1 }))
    else ok ctx

-- `bit = reg & 0x80 ? 1 : 0; reg <<= 1; reg_used--`, on a `uint8_t`.
unfoldable pub shift_out : Klbs → ℕ × Klbs
shift_out ctx =
    if leb ctx.reg_used 8
    then (ctx.reg / 128 % 2, record ctx { reg = ctx.reg * 2 % 256; reg_used = ctx.reg_used - 1 })
    else (0, ctx)

unfoldable pub klbs_read_bit : Reader ℕ
klbs_read_bit ctx = do
  assert (leb ctx.buflen_used ctx.buflen)
  ctx' ← fetch_reg ctx
  ok (shift_out ctx')

unfoldable pub klbs_read_byte_aligned : Reader ℕ
klbs_read_byte_aligned ctx =
    deref (get_elem? ctx.buf ctx.buflen_used)
    >>= (λ byte. ok (byte, record ctx { buflen_used = ctx.buflen_used + 1 }))

-- `bits <<= 1; bits |= klbs_read_bit(ctx)`, on a `uint64_t`, as often as `rounds` says.
unfoldable pub read_bits_loop : ℕ → ℕ → Reader ℕ
read_bits_loop zero bits ctx = ok (bits, ctx)
read_bits_loop (suc rounds) bits ctx =
    klbs_read_bit ctx >>= (λ r. read_bits_loop rounds (bits * 2 % 2 ^ 64 + r.0) r.1)

unfoldable pub klbs_read_bits : ℕ → Reader ℕ
klbs_read_bits bitcount ctx =
    if (bitcount == 8) && (ctx.reg_used == 0)
    then klbs_read_byte_aligned ctx
    else read_bits_loop bitcount 0 ctx

-- A run of calls `klbs_read_bits(ctx, bitcount)`, one for each entry, and what they return.
unfoldable pub klbs_read_fields : List ℕ → Reader (List ℕ)
klbs_read_fields [] ctx = ok ([], ctx)
klbs_read_fields (bitcount ∷ bitcounts) ctx = do
  (value, ctx') ← klbs_read_bits bitcount ctx
  (values, ctx'') ← klbs_read_fields bitcounts ctx'
  ok (value ∷ values, ctx'')

-- The copy is advanced, and dropped.
unfoldable pub klbs_peek_bits : ℕ → Klbs → Outcome ℕ
klbs_peek_bits bitcount ctx = klbs_read_bits bitcount ctx >>= (λ r. ok r.0)

-- The loop runs while `reg_used > 0`: `rounds` is its fuel, and 8 are enough.
unfoldable pub read_byte_stuff_loop : ℕ → Klbs → Outcome Klbs
read_byte_stuff_loop zero ctx = if ltb 0 ctx.reg_used then err out_of_fuel else ok ctx
read_byte_stuff_loop (suc rounds) ctx =
    let rest = klbs_read_bit ctx >>= (λ r. read_byte_stuff_loop rounds r.1) in
    if ltb 0 ctx.reg_used then rest else ok ctx

unfoldable pub klbs_read_byte_stuff : Klbs → Outcome Klbs
unfolding read_byte_stuff_loop
klbs_read_byte_stuff ctx = read_byte_stuff_loop 8 ctx

-- Bits go from `src` to `dst`, one by one.
unfoldable pub klbs_bitmove : Klbs → Klbs → ℕ → Outcome (Klbs × Klbs)
klbs_bitmove dst src zero = ok (dst, src)
klbs_bitmove dst src (suc bits) = do
  (bit, src') ← klbs_read_bit src
  dst' ← klbs_write_bit dst bit
  klbs_bitmove dst' src' bits

unfoldable pub klbs_bitcopy : Klbs → Klbs → ℕ → Outcome Klbs
klbs_bitcopy dst src bits = klbs_bitmove dst src bits >>= (λ r. ok r.0)
