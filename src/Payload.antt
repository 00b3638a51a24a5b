-- ===== src/Payload.antt =====
-- klvanc_sdi_create_payload of src/core-packets.c: the words of an ancillary packet around a payload.
pub mod Laws
use libklvanc.Prelude.{
  ℕ, zero, suc, ◌+◌, ◌*◌, ◌/◌, ◌%◌, ◌^◌, List, [], ◌∷◌, ◌++◌, map, Outcome, ok, err, fault, Error,
  failed, ◌>>=◌, ◌>>◌, Bool, true, false, ◌==◌, ◌||◌, not, if◌then◌else◌, Option, none, some, guard,
  assert, length,
}
use libklvanc.Word.{set_bit, builtin_parity}
use libklvanc.Checksum.{checksum_loop, mark_inverse}

-- The first `count` bytes behind a pointer, copied one by one.
unfoldable pub copy_bytes : List ℕ → ℕ → Outcome (List ℕ)
copy_bytes src zero = ok []
copy_bytes [] (suc count) = fault
copy_bytes (b ∷ src) (suc count) = copy_bytes src count >>= (λ bytes. ok (b ∷ bytes))

-- `if (__builtin_parity(w)) w |= 0x100; else w |= 0x200;`
unfoldable pub generate_parity : ℕ → ℕ
generate_parity w = if builtin_parity w == 1 then set_bit w 8 else set_bit w 9

is_null : Option (List ℕ) → Bool
is_null none = true
is_null (some src) = false

-- From `calloc` on. `calloc_ok` says whether the allocation succeeds: its result is not tested.
unfoldable pub assemble : Bool → ℕ → ℕ → Option (List ℕ) → ℕ → Outcome (List ℕ)
unfolding copy_bytes generate_parity
assemble calloc_ok sdid did none count = fault
assemble calloc_ok sdid did (some src) count = do
  assert calloc_ok
  bytes ← copy_bytes src count
  let words = map generate_parity (did ∷ sdid ∷ count ∷ bytes)
  sum ← checksum_loop 0 words (count + 3)
  ok (0 ∷ 0x3ff ∷ 0x3ff ∷ words ++ mark_inverse sum ∷ [])

-- The two output pointers are not null: the words are the result.
unfoldable pub klvanc_sdi_create_payload : Bool → ℕ → ℕ → Option (List ℕ) → ℕ → ℕ → Outcome (List ℕ)
unfolding is_null assemble
klvanc_sdi_create_payload calloc_ok sdid did src src_byte_count bit_depth =
    guard
      (not (not (bit_depth == 10) || sdid == 0 || did == 0 || is_null src || src_byte_count == 0))
      (failed 1)
    >> assemble calloc_ok sdid did src src_byte_count
