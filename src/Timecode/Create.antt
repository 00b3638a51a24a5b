-- ===== src/Timecode/Create.antt =====
-- klvanc_create_SMPTE_12_2_from_ST370 and klvanc_SMPTE_12_2_preferred_line of
-- src/core-packet-smpte_12_2.c.
pub mod Laws
use libklvanc.Prelude.{
  ℕ, zero, suc, ◌+◌, ◌*◌, ◌/◌, ◌%◌, ◌^◌, List, [], ◌∷◌, Outcome, ok, err, fault, out_of_fuel,
  failed, ◌>>=◌, ◌>>◌, Bool, true, false, ltb, ◌==◌, ◌&&◌, ◌||◌, not, if◌then◌else◌, guard, assert,
}
use libklvanc.Word.{test_bit}
use libklvanc.Timecode.{TimecodePacket}

unfoldable pub bcd2uint : ℕ → ℕ
bcd2uint bcd = if ltb 9 (bcd % 16) || ltb 9 (bcd / 16) then 0 else bcd % 16 + 10 * (bcd / 16)

-- The loop runs while `b > 0`, on numbers that are not negative: `rounds` is its fuel.
unfoldable pub gcd_loop : ℕ → ℕ → ℕ → Outcome ℕ
gcd_loop zero a b = if ltb 0 b then err out_of_fuel else ok a
gcd_loop (suc rounds) a b = let rest = gcd_loop rounds b (a % b) in if ltb 0 b then rest else ok a

-- `b` gets smaller in each round, so `b` rounds are enough.
unfoldable pub gcd : ℕ → ℕ → Outcome ℕ
unfolding gcd_loop
gcd a b = gcd_loop b a b

-- 1/50 or 1/25: the field bit and its flag are in other places.
abbrev pub is_25_or_50 : ℕ → ℕ → Bool
is_25_or_50 num den = (num == 1 && den == 50) || (num == 1 && den == 25)

-- The members that are set, for a reduced frame rate. Those of `calloc` are 0.
unfoldable pub timecode_of_st370 : ℕ → Bool → TimecodePacket
unfolding bcd2uint
timecode_of_st370 tc slow =
    let second_field = if slow then test_bit tc 23 else test_bit tc 7 in
    record {
      dbb1 = if second_field then 2 else 1;
      dbb2 = 0;
      vitc_line_select = 0;
      line_duplication_flag = 0;
      tc_validity_flag = 0;
      user_bits_process_flag = 0;
      frames = bcd2uint (tc / 2 ^ 24 % 64);
      seconds = bcd2uint (tc / 2 ^ 16 % 128);
      minutes = bcd2uint (tc / 2 ^ 8 % 128);
      hours = bcd2uint (tc % 64);
      flag14 = if not slow && test_bit tc 30 then 1 else 0;
      flag15 = 0;
      flag35 = if not slow && second_field then 1 else 0;
      flag55 = 0;
      flag74 = 0;
      flag75 = if slow && second_field then 1 else 0;
    }

-- Dividing by a common divisor of 0 is a fault.
unfoldable pub klvanc_create_smpte_12_2_from_st370 : Bool → ℕ → ℕ → ℕ → Outcome TimecodePacket
unfolding gcd timecode_of_st370
klvanc_create_smpte_12_2_from_st370 calloc_ok st370_tc frate_num frate_den = do
  divisor ← gcd frate_num frate_den
  assert (not (divisor == 0))
  guard calloc_ok (failed 1)
  ok (timecode_of_st370 st370_tc (is_25_or_50 (frate_num / divisor) (frate_den / divisor)))

-- `struct s12_lines`
pub record LineRow : Type 0 where
  pub payload_type : ℕ
  pub linecount : ℕ
  pub interlaced : Bool
  pub preferred_line : ℕ

row : ℕ → ℕ → Bool → ℕ → LineRow
row t n i l = record { payload_type = t; linecount = n; interlaced = i; preferred_line = l }

-- `lines`
unfoldable pub lines : List LineRow
unfolding row
lines =
    row 1 1080 true 9
    ∷ row 1 1080 false 9
    ∷ row 1 720 false 9
    ∷ row 1 486 true 12
    ∷ row 1 576 true 8
    ∷ row 2 1080 true 571
    ∷ row 2 1080 false 9
    ∷ row 2 720 false 9
    ∷ row 2 486 true 275
    ∷ row 2 576 true 321
    ∷ []

unfoldable same : Bool → Bool → Bool
same true i = i
same false i = not i

-- The loop over the table; `otherwise` is what follows it.
unfoldable pub line_in : List LineRow → ℕ → ℕ → Bool → Outcome ℕ → Outcome ℕ
unfolding same
line_in [] dbb1 line_count interlaced otherwise = otherwise
line_in (r ∷ rows) dbb1 line_count interlaced otherwise =
    if (dbb1 == r.payload_type) && (line_count == r.linecount) && same interlaced r.interlaced
    then ok r.preferred_line
    else line_in rows dbb1 line_count interlaced otherwise

-- `interlaced` is 0 or 1. The test behind the loop names ATC_VITC1 twice.
unfoldable pub klvanc_smpte_12_2_preferred_line : ℕ → ℕ → Bool → Outcome ℕ
unfolding line_in lines
klvanc_smpte_12_2_preferred_line dbb1 line_count interlaced =
    line_in lines dbb1 line_count interlaced
      (if not (dbb1 == 1) && not (dbb1 == 1) && not (dbb1 == 0) then ok 11 else err (failed 1))
