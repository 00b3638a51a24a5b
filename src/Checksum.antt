-- ===== src/Checksum.antt =====
-- src/core-checksum.c: the checksum word of an ancillary packet.
pub mod Laws
use libklvanc.Prelude.{
  ℕ, zero, suc, ◌+◌, ◌-◌, ◌*◌, ◌/◌, ◌%◌, ◌^◌, List, [], ◌∷◌, Outcome, ok, fault, ◌>>=◌, Bool, ◌==◌,
  if◌then◌else◌, get_elem?, deref,
}

-- `s += *(words + i); s &= 0x01ff;`, for the words that are left. Reading past the memory that
-- `words` points into is a fault.
unfoldable pub checksum_loop : ℕ → List ℕ → ℕ → Outcome ℕ
checksum_loop s words zero = ok s
checksum_loop s [] (suc rounds) = fault
checksum_loop s (w ∷ words) (suc rounds) = checksum_loop ((s + w) % 2 ^ 16 % 512) words rounds

-- `s |= ((~s & 0x0100) << 1)`, for `s` below 512.
unfoldable pub mark_inverse : ℕ → ℕ
mark_inverse s = if s / 256 % 2 == 0 then s + 512 else s

-- The loop's counter is a `uint16_t`: `word_count` is below 2 ^ 16 wherever the library calls this.
unfoldable pub klvanc_checksum_calculate : List ℕ → ℕ → Outcome ℕ
unfolding checksum_loop mark_inverse
klvanc_checksum_calculate words word_count =
    checksum_loop 0 words word_count >>= (λ s. ok (mark_inverse s))

-- `word_count` counts the checksum word too, and is not 0.
unfoldable pub klvanc_checksum_is_valid : List ℕ → ℕ → Outcome Bool
klvanc_checksum_is_valid words word_count = do
  sum ← klvanc_checksum_calculate words (word_count - 1)
  last ← deref (get_elem? words (word_count - 1))
  ok (sum == last)
