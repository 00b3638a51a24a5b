-- ===== src/Timecode/Create/Laws.antt =====
-- What is created is a time code that a packet can carry.
use libklvanc.Prelude.{
  ℕ, zero, suc, ◌+◌, ◌*◌, ◌/◌, ◌%◌, ◌^◌, ◌<◌, ◌≤◌, ◌≡◌, inl, inr, refl, ok, Bool, true, false, ltb,
  ◌==◌, arith, Bool-cases, ltb→lt,
}
use native.Mathlib.Nat.{mod-lt, zero-lt-suc}
use libklvanc.Timecode.{TimecodePacket}
use libklvanc.Timecode.Back.{IsRepresentable}
use libklvanc.Timecode.Create.{
  bcd2uint, gcd, gcd_loop, timecode_of_st370, is_25_or_50, klvanc_create_smpte_12_2_from_st370,
}

mod_small : (a b : ℕ) → 0 < b → a % b < b
mod_small a zero h = absurd (omega arith)
mod_small a (suc b) h = mod-lt a (zero-lt-suc b)

gcd_loop-total :
    (rounds a b : ℕ) → b ≤ rounds → 0 < a + b → (d : ℕ) × (gcd_loop rounds a b ≡ ok d) × (0 < d)
unfolding gcd_loop
gcd_loop-total zero a b h pos =
    let e : ltb 0 b ≡ false = ground arith in (a, rw e refl, omega arith)
gcd_loop-total (suc rounds) a b h pos = elim (Bool-cases (ltb 0 b)) [
  | inl more ↦
      let lt : 0 < b = ltb→lt 0 b more in
      let small : a % b < b = mod_small a b lt in
      let (d, e, p) = gcd_loop-total rounds b (a % b) (omega (arith, small)) (omega arith) in
      (d, rw more e, p)
  | inr done ↦ (a, rw done refl, ground arith)
]

bcd2uint-le : (n b : ℕ) → n ≤ 16 * b + 15 → b ≤ 9 → bcd2uint n ≤ 10 * b + 9
unfolding bcd2uint
bcd2uint-le n b h k = ground arith

timecode_of_st370-IsRepresentable :
    (tc : ℕ) (slow : Bool) → IsRepresentable (timecode_of_st370 tc slow)
unfolding timecode_of_st370
timecode_of_st370-IsRepresentable tc slow = record {
  dbb1 = ground arith;
  select = omega arith;
  duplication = omega arith;
  validity = omega arith;
  process = omega arith;
  frames = omega (arith, bcd2uint-le (tc / 2 ^ 24 % 64) 3 (omega arith) (omega arith));
  seconds = omega (arith, bcd2uint-le (tc / 2 ^ 16 % 128) 7 (omega arith) (omega arith));
  minutes = omega (arith, bcd2uint-le (tc / 2 ^ 8 % 128) 7 (omega arith) (omega arith));
  hours = omega (arith, bcd2uint-le (tc % 64) 3 (omega arith) (omega arith));
  flag14 = ground arith;
  flag15 = omega arith;
  flag35 = ground arith;
  flag55 = omega arith;
  flag74 = omega arith;
  flag75 = ground arith;
}

-- Given memory, klvanc_create_SMPTE_12_2_from_ST370 makes a time code that a packet can carry out of
-- any ST 370 word, for any frame rate of which one part is not 0: its computation of the common
-- divisor ends, and does not give 0.
pub create-IsRepresentable :
    (tc num den : ℕ)
    → 0 < num + den
    → (p : TimecodePacket) × (klvanc_create_smpte_12_2_from_st370 true tc num den ≡ ok p)
      × IsRepresentable p
unfolding klvanc_create_smpte_12_2_from_st370 gcd
create-IsRepresentable tc num den h =
    let (d, e, pos) = gcd_loop-total den num den (omega arith) h in
    let n : (d == 0) ≡ false = ground arith in
    (
      timecode_of_st370 tc (is_25_or_50 (num / d) (den / d)),
      rw e (rw n refl),
      timecode_of_st370-IsRepresentable tc (is_25_or_50 (num / d) (den / d)),
    )
