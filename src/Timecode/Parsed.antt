-- ===== src/Timecode/Parsed.antt =====
-- parse_SMPTE_12_2 on the bytes of the converter.
use libklvanc.Prelude.{ℕ, ◌+◌, ◌/◌, ◌%◌, ◌<◌, ◌≡◌, ◌∙◌, List, ◌++◌, true, arith, ok, some, get_or}
use libklvanc.Packet.{Header}
use libklvanc.Codec.{payload_at, byte_at}
use libklvanc.Timecode.{
  TimecodePacket, units, if_bit, code_at, dbb2_of, parse_smpte_12_2, parse_timecode,
}
use libklvanc.Timecode.Fields.{front, back, coded}
use libklvanc.Timecode.Back.{
  IsRepresentable, read_back, high, ten, twenty, forty, second, first, dbb2-lt, select_back, timed,
  duplication_back, validity_back, process_back,
}

-- The payload of the packet.
abbrev pub timecode_bytes : TimecodePacket → List ℕ
timecode_bytes p = coded (front p) p.dbb1 ++ coded (back p) (dbb2_of p)

-- A number of eight bits, out of the bits of eight payload words.
code_at-bits :
    (hdr : Header) (i c : ℕ)
    → c < 256
    → payload_at hdr (i) / 8 % 2 ≡ c % 2
    → payload_at hdr (i + 1) / 8 % 2 ≡ c / 2 % 2
    → payload_at hdr (i + 1 + 1) / 8 % 2 ≡ c / 2 / 2 % 2
    → payload_at hdr (i + 1 + 1 + 1) / 8 % 2 ≡ c / 2 / 2 / 2 % 2
    → payload_at hdr (i + 1 + 1 + 1 + 1) / 8 % 2 ≡ c / 2 / 2 / 2 / 2 % 2
    → payload_at hdr (i + 1 + 1 + 1 + 1 + 1) / 8 % 2 ≡ c / 2 / 2 / 2 / 2 / 2 % 2
    → payload_at hdr (i + 1 + 1 + 1 + 1 + 1 + 1) / 8 % 2 ≡ c / 2 / 2 / 2 / 2 / 2 / 2 % 2
    → payload_at hdr (i + 1 + 1 + 1 + 1 + 1 + 1 + 1) / 8 % 2 ≡ c / 2 / 2 / 2 / 2 / 2 / 2 / 2 % 2
    → code_at 8 hdr i ≡ c
unfolding code_at
code_at-bits hdr i c h e0 e1 e2 e3 e4 e5 e6 e7 =
    rw (e0, e1, e2, e3) (rw (e4, e5, e6, e7) (omega arith))

module _ (p : TimecodePacket) (v : IsRepresentable p) (hdr : Header)
    (b : (i : ℕ) → i < 16 → byte_at hdr i ≡ get_or (timecode_bytes p) i 0) where
  -- The bit of the code in payload word `i`.
  bit : (i : ℕ) → i < 16 → payload_at hdr i / 8 % 2 ≡ get_or (timecode_bytes p) i 0 / 8 % 2
  bit i h = omega (arith, b i h)

  dbb1_back : code_at 8 hdr 0 ≡ p.dbb1
  unfolding coded
  dbb1_back =
      code_at-bits hdr 0 p.dbb1 (omega (arith, v.dbb1)) (bit 0 (omega arith) ∙ omega arith)
        (bit 1 (omega arith) ∙ omega arith) (bit 2 (omega arith) ∙ omega arith)
        (bit 3 (omega arith) ∙ omega arith) (bit 4 (omega arith) ∙ omega arith)
        (bit 5 (omega arith) ∙ omega arith) (bit 6 (omega arith) ∙ omega arith)
        (bit 7 (omega arith) ∙ omega arith)

  dbb2_back : code_at 8 hdr 8 ≡ dbb2_of p
  unfolding coded
  dbb2_back =
      code_at-bits hdr 8 (dbb2_of p) (dbb2-lt p v) (bit 8 (omega arith) ∙ omega arith)
        (bit 9 (omega arith) ∙ omega arith) (bit 10 (omega arith) ∙ omega arith)
        (bit 11 (omega arith) ∙ omega arith) (bit 12 (omega arith) ∙ omega arith)
        (bit 13 (omega arith) ∙ omega arith) (bit 14 (omega arith) ∙ omega arith)
        (bit 15 (omega arith) ∙ omega arith)

  frames_back : units hdr 0 + if_bit hdr 2 4 10 + if_bit hdr 2 5 20 ≡ p.frames
  unfolding coded
  frames_back = omega (
    arith,
    v.frames,
    high (payload_at hdr 0) (p.frames % 10) p.dbb1 (b 0 (omega arith)) (omega arith),
    ten (payload_at hdr 2) p.flag14 p.flag15 p.frames (p.dbb1 / 2 / 2) (b 2 (omega arith)),
    twenty (payload_at hdr 2) p.flag14 p.flag15 p.frames (p.dbb1 / 2 / 2) (b 2 (omega arith)),
  )

  seconds_back : units hdr 4 + if_bit hdr 6 4 10 + if_bit hdr 6 5 20 + if_bit hdr 6 6 40 ≡ p.seconds
  unfolding coded
  seconds_back = omega (
    arith,
    v.seconds,
    high (payload_at hdr 4) (p.seconds % 10) (p.dbb1 / 2 / 2 / 2 / 2) (b 4 (omega arith))
        (omega arith),
    ten (payload_at hdr 6) p.flag35 (p.seconds / 40 % 2) p.seconds (p.dbb1 / 2 / 2 / 2 / 2 / 2 / 2)
        (b 6 (omega arith)),
    twenty (payload_at hdr 6) p.flag35 (p.seconds / 40 % 2) p.seconds
        (p.dbb1 / 2 / 2 / 2 / 2 / 2 / 2) (b 6 (omega arith)),
    forty (payload_at hdr 6) p.flag35 (p.seconds / 40 % 2) p.seconds
        (p.dbb1 / 2 / 2 / 2 / 2 / 2 / 2) (b 6 (omega arith)),
  )

  minutes_back :
      units hdr 8 + if_bit hdr 10 4 10 + if_bit hdr 10 5 20 + if_bit hdr 10 6 40 ≡ p.minutes
  unfolding coded
  minutes_back = omega (
    arith,
    v.minutes,
    high (payload_at hdr 8) (p.minutes % 10) (dbb2_of p) (b 8 (omega arith)) (omega arith),
    ten (payload_at hdr 10) p.flag55 (p.minutes / 40 % 2) p.minutes ((dbb2_of p) / 2 / 2)
        (b 10 (omega arith)),
    twenty (payload_at hdr 10) p.flag55 (p.minutes / 40 % 2) p.minutes ((dbb2_of p) / 2 / 2)
        (b 10 (omega arith)),
    forty (payload_at hdr 10) p.flag55 (p.minutes / 40 % 2) p.minutes ((dbb2_of p) / 2 / 2)
        (b 10 (omega arith)),
  )

  hours_back : units hdr 12 + if_bit hdr 14 4 10 + if_bit hdr 14 5 20 ≡ p.hours
  unfolding coded
  hours_back = omega (
    arith,
    v.hours,
    high (payload_at hdr 12) (p.hours % 10) ((dbb2_of p) / 2 / 2 / 2 / 2) (b 12 (omega arith))
        (omega arith),
    ten (payload_at hdr 14) p.flag74 p.flag75 p.hours ((dbb2_of p) / 2 / 2 / 2 / 2 / 2 / 2)
        (b 14 (omega arith)),
    twenty (payload_at hdr 14) p.flag74 p.flag75 p.hours ((dbb2_of p) / 2 / 2 / 2 / 2 / 2 / 2)
        (b 14 (omega arith)),
  )

  flag14_back : if_bit hdr 2 7 1 ≡ p.flag14
  unfolding coded
  flag14_back = omega (
    arith,
    v.flag14,
    first (payload_at hdr 2) p.flag14 p.flag15 p.frames (p.dbb1 / 2 / 2) (b 2 (omega arith)),
  )

  flag15_back : if_bit hdr 2 6 1 ≡ p.flag15
  unfolding coded
  flag15_back = omega (
    arith,
    v.flag15,
    second (payload_at hdr 2) p.flag14 p.flag15 p.frames (p.dbb1 / 2 / 2) (b 2 (omega arith)),
  )

  flag35_back : if_bit hdr 6 7 1 ≡ p.flag35
  unfolding coded
  flag35_back = omega (
    arith,
    v.flag35,
    first (payload_at hdr 6) p.flag35 (p.seconds / 40 % 2) p.seconds
        (p.dbb1 / 2 / 2 / 2 / 2 / 2 / 2) (b 6 (omega arith)),
  )

  flag55_back : if_bit hdr 10 7 1 ≡ p.flag55
  unfolding coded
  flag55_back = omega (
    arith,
    v.flag55,
    first (payload_at hdr 10) p.flag55 (p.minutes / 40 % 2) p.minutes ((dbb2_of p) / 2 / 2)
        (b 10 (omega arith)),
  )

  flag74_back : if_bit hdr 14 7 1 ≡ p.flag74
  unfolding coded
  flag74_back = omega (
    arith,
    v.flag74,
    first (payload_at hdr 14) p.flag74 p.flag75 p.hours ((dbb2_of p) / 2 / 2 / 2 / 2 / 2 / 2)
        (b 14 (omega arith)),
  )

  flag75_back : if_bit hdr 14 6 1 ≡ p.flag75
  unfolding coded
  flag75_back = omega (
    arith,
    v.flag75,
    second (payload_at hdr 14) p.flag74 p.flag75 p.hours ((dbb2_of p) / 2 / 2 / 2 / 2 / 2 / 2)
        (b 14 (omega arith)),
  )

  pub parse_back :
      hdr.payload_length_words ≡ 16 → parse_smpte_12_2 true true hdr ≡ ok (some (read_back p))
  unfolding parse_smpte_12_2 parse_timecode read_back
  parse_back n = rw n (
      rw (dbb1_back, dbb2_back)
        (rw (timed p v) (
          rw (frames_back, seconds_back, minutes_back, hours_back)
            (rw (flag14_back, flag15_back, flag35_back, flag55_back, flag74_back, flag75_back)
              (rw (select_back p v, duplication_back p v, validity_back p v, process_back p v))))))
