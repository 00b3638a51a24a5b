-- ===== src/Timecode/Back.antt =====
-- What parse_SMPTE_12_2 reads out of the bytes of the converter.
use libklvanc.Prelude.{ℕ, ◌+◌, ◌*◌, ◌/◌, ◌%◌, ◌<◌, ◌≡◌, true, arith, if◌then◌else◌}
use libklvanc.Word.{test_bit}
use libklvanc.Timecode.{TimecodePacket, is_timecode, dbb2_of}
use libklvanc.Timecode.Fields.{tens2}

-- A time code that the packet can carry: one of the three kinds, in range.
pub record IsRepresentable (p : TimecodePacket) : Type 0 where
  pub dbb1 : p.dbb1 < 3
  pub select : p.vitc_line_select < 32
  pub duplication : p.line_duplication_flag < 2
  pub validity : p.tc_validity_flag < 2
  pub process : p.user_bits_process_flag < 2
  pub frames : p.frames < 40
  pub seconds : p.seconds < 80
  pub minutes : p.minutes < 80
  pub hours : p.hours < 40
  pub flag14 : p.flag14 < 2
  pub flag15 : p.flag15 < 2
  pub flag35 : p.flag35 < 2
  pub flag55 : p.flag55 < 2
  pub flag74 : p.flag74 < 2
  pub flag75 : p.flag75 < 2

-- The packet that comes back: `dbb2` is filled in, and each of the two pairs of flags that share a
-- word is swapped.
unfoldable pub read_back : TimecodePacket → TimecodePacket
read_back p = record p {
  dbb2 = dbb2_of p;
  flag14 = p.flag15;
  flag15 = p.flag14;
  flag74 = p.flag75;
  flag75 = p.flag74;
}

module _ (w x c : ℕ) (e : w % 256 ≡ x * 16 + c % 2 * 8) where
  pub code_bit : w / 8 % 2 ≡ c % 2
  code_bit = omega (arith, e)

  pub high : x < 16 → w / 16 % 16 ≡ x
  high h = omega (arith, e)

module _ (w f g v c : ℕ) (e : w % 256 ≡ tens2 f g v * 16 + c % 2 * 8) where
  pub ten : (if test_bit w 4 then 10 else 0) ≡ v / 10 % 2 * 10
  ten = ground (arith, e)

  pub twenty : (if test_bit w 5 then 20 else 0) ≡ v / 20 % 2 * 20
  twenty = ground (arith, e)

  pub forty : (if test_bit w 6 then 40 else 0) ≡ g % 2 * 40
  forty = ground (arith, e)

  pub second : (if test_bit w 6 then 1 else 0) ≡ g % 2
  second = ground (arith, e)

  pub first : (if test_bit w 7 then 1 else 0) ≡ f % 2
  first = ground (arith, e)

-- The second code keeps its parts apart.
module _ (p : TimecodePacket) (v : IsRepresentable p) where
  pub dbb2-lt : dbb2_of p < 256
  unfolding dbb2_of
  dbb2-lt = ground (arith, v.select)

  pub select_back : dbb2_of p % 32 ≡ p.vitc_line_select
  unfolding dbb2_of
  select_back = ground (arith, v.select)

  pub duplication_back : (if test_bit (dbb2_of p) 5 then 1 else 0) ≡ p.line_duplication_flag
  unfolding dbb2_of
  duplication_back = ground (arith, v.select, v.duplication)

  pub validity_back : (if test_bit (dbb2_of p) 6 then 1 else 0) ≡ p.tc_validity_flag
  unfolding dbb2_of
  validity_back = ground (arith, v.select, v.validity)

  pub process_back : (if test_bit (dbb2_of p) 7 then 1 else 0) ≡ p.user_bits_process_flag
  unfolding dbb2_of
  process_back = ground (arith, v.select, v.process)

  pub timed : is_timecode p.dbb1 ≡ true
  timed = ground (arith, v.dbb1)
