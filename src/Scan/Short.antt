-- ===== src/Scan/Short.antt =====
-- Lines of fewer than seven words: the bound `len - 7` of the loop wraps around.
use libklvanc.Prelude.{
  ℕ, zero, suc, ◌+◌, ◌<◌, ◌≤◌, ◌≡◌, refl, ◌∙◌, List, [], err, fault, einval, inl, inr, Bool, true,
  false, ltb, ◌==◌, length, drop, drop-all, arith, some, Bool-cases, ltb→lt, lt→ltb,
}
use libklvanc.Packet.{parse, is_valid_header, max_payload}
use libklvanc.Dispatch.{Memory, Callbacks}
use libklvanc.Scan.{Context, scan, sub32, klvanc_packet_parse}
use libklvanc.Scan.Step.{scan-next, scan-fault}

-- Where at most seven words are left, `parse` reads none of them.
pub parse_few :
    (calloc_ok : Bool) (arr : List ℕ) (len failures : ℕ)
    → len ≤ 7
    → parse calloc_ok arr len failures ≡ err einval
unfolding parse is_valid_header
parse_few calloc_ok arr len failures h = let e : ltb 7 len ≡ false = ground arith in rw e

parse_outside :
    (calloc_ok : Bool) (len failures : ℕ) → 7 < len → parse calloc_ok [] len failures ≡ fault
unfolding parse is_valid_header
parse_outside calloc_ok len failures h = let e : ltb 7 len ≡ true = ground arith in rw e

module _ {C : Type 0} (calloc malloc : ℕ → Bool) (memory : ℕ → Memory)
    (callbacks : Callbacks C) where
  scan_short :
      (fuel : ℕ) (arr : List ℕ) (len line_nr i : ℕ) (ctx : Context C)
      → 0 < len
      → len < 7
      → length arr ≡ len
      → i ≤ len + 1
      → len + 1 < fuel + i
      → scan calloc malloc memory callbacks fuel arr len line_nr i 0 ctx ≡ fault
  scan_short zero arr len line_nr i ctx pos h e hi hf = absurd (omega arith)
  scan_short (suc fuel) arr len line_nr i ctx pos h e hi hf =
      let more : ltb i (sub32 len 7) ≡ true = lt→ltb i (sub32 len 7) (omega arith) in
      elim (Bool-cases (ltb i (len + 1))) [
        | inl inside ↦
            let s : sub32 len i ≤ 7 = omega (arith, ltb→lt i (len + 1) inside) in
            scan-next calloc malloc memory callbacks fuel arr len line_nr i 0 ctx einval more
              (parse_few (calloc i) (drop i arr) (sub32 len i) ctx.checksum_failures s)
            ∙ scan_short fuel arr len line_nr (i + 1) ctx pos h e
                (omega (arith, ltb→lt i (len + 1) inside)) (omega arith)
        | inr outside ↦
            let at_end : i ≡ len + 1 = ground arith in
            scan-fault calloc malloc memory callbacks fuel arr len line_nr i 0 ctx more (
              rw (drop-all i arr (omega arith)) (
                parse_outside (calloc i) (sub32 len i) ctx.checksum_failures
                  (omega (arith, at_end))))
      ]

  -- On a line of 1 to 6 words, and no memory behind it, klvanc_packet_parse reads outside the line,
  -- whatever the words are.
  pub packet_parse-short :
      (arr : List ℕ) (line_nr : ℕ) (ctx : Context C)
      → 0 < length arr
      → length arr < 7
      → klvanc_packet_parse calloc malloc memory callbacks ctx line_nr (some arr) (length arr)
        ≡ fault
  unfolding klvanc_packet_parse
  packet_parse-short arr line_nr ctx pos h =
      let a : (length arr == 0) ≡ false = ground arith in
      let b : ltb max_payload (length arr) ≡ false = ground arith in
      rw (a, b)
        (scan_short (length arr + 2) arr (length arr) line_nr 0 ctx pos h refl (omega arith)
          (omega arith))
