-- ===== src/Packet/Parsing.antt =====
-- Copies and tests that `parse` makes, on memory that is long enough.
use libklvanc.Prelude.{
  ℕ, zero, suc, ◌≤◌, ◌≡◌, refl, List, [], ◌∷◌, ok, take, length, arith, ltb, false,
}
use libklvanc.Packet.{copy_raw, max_payload, lookup_type_by_did, afd}
use libklvanc.Payload.{copy_bytes}

pub copy_bytes-take : (arr : List ℕ) (n : ℕ) → n ≤ length arr → copy_bytes arr n ≡ ok (take n arr)
unfolding copy_bytes
copy_bytes-take arr zero h = refl
copy_bytes-take [] (suc n) h = absurd (omega arith)
copy_bytes-take (w ∷ arr) (suc n) h = rw (copy_bytes-take arr n (omega arith))

pub copy_raw-take :
    (arr : List ℕ) (n : ℕ) → n ≤ length arr → n ≤ max_payload → copy_raw arr n ≡ ok (take n arr)
unfolding copy_raw
copy_raw-take arr n h m =
    let fits : ltb max_payload n ≡ false = ground (arith, m) in rw fits (copy_bytes-take arr n h)

-- The row of AFD in the table.
pub lookup_type-afd : lookup_type_by_did 0x41 0x05 ≡ afd
unfolding lookup_type_by_did
lookup_type-afd = refl
