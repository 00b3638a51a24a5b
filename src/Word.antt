-- ===== src/Word.antt =====
-- Single bits of a C word, in arithmetic.
use libklvanc.Prelude.{ℕ, zero, suc, ◌+◌, ◌/◌, ◌%◌, ◌^◌, ◌<◌, Bool, ◌==◌, if◌then◌else◌, arith}

-- `w & (1 << k)`, as a truth value.
abbrev pub test_bit : ℕ → ℕ → Bool
test_bit w k = w / 2 ^ k % 2 == 1

-- `w | (1 << k)`.
abbrev pub set_bit : ℕ → ℕ → ℕ
set_bit w k = if test_bit w k then w else w + 2 ^ k

-- `sanitizeWord(word)`, `(word) & 0xff`.
abbrev pub sanitize_word : ℕ → ℕ
sanitize_word w = w % 256

-- `__builtin_parity`: 1 where an odd number of the lowest `n` bits is set.
unfoldable pub parity : ℕ → ℕ → ℕ
parity zero w = 0
parity (suc n) w = (w % 2 + parity n (w / 2)) % 2

abbrev pub builtin_parity : ℕ → ℕ
builtin_parity w = parity 32 w

pub parity-lt : (n w : ℕ) → parity n w < 2
unfolding parity
parity-lt zero w = omega arith
parity-lt (suc n) w = omega arith
