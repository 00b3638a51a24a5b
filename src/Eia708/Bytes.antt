-- ===== src/Eia708/Bytes.antt =====
-- The bytes that klvanc_convert_EIA_708B_to_packetBytes makes.
use libklvanc.Prelude.{
  ℕ, ◌/◌, ◌≡◌, refl, sym, ap, ◌∙◌, List, [], ◌∷◌, ◌++◌, Bool, true, false, arith, if◌then◌else◌,
}
use mathlib.Core.List.{append_assoc}
use libklvanc.Bitstream.Bits.{fields_bits, to_bits}
use libklvanc.Codec.Serialize.{fields_bits-append}
use libklvanc.Eia708.{TimeCodeSection, CcDataSection, ServiceSection, Eia708Packet}
use libklvanc.Eia708.Builder.{
  cdp_header_fields, time_code_fields, ccdata_fields, ccsvc_fields, cdp_fields, has_time_code,
  has_ccdata, has_services,
}
use libklvanc.Eia708.Sections.{time_code_tail, ccdata_tail, ccsvc_tail}
use libklvanc.Eia708.Whole.{all_parts, time_part, cc_part, services_part, last_part, before, choose}

services_layer :
    (b : Bool) (s : ServiceSection) (more : List (ℕ × ℕ))
    → (b ≡ true → s.ccsvcinfo_id ≡ 0x73)
    → (if b then ccsvc_fields s else []) ++ (0x74, 8) ∷ more
      ≡ (choose b 0x73 0x74, 8) ∷ before b (ccsvc_tail s) 0x74 more
unfolding ccsvc_fields
services_layer true s more e = rw (e refl) refl
services_layer false s more e = refl

ccdata_layer :
    (b : Bool) (s : CcDataSection) (next : ℕ) (more : List (ℕ × ℕ))
    → (b ≡ true → s.ccdata_id ≡ 0x72)
    → (if b then ccdata_fields s else []) ++ (next, 8) ∷ more
      ≡ (choose b 0x72 next, 8) ∷ before b (ccdata_tail s) next more
unfolding ccdata_fields
ccdata_layer true s next more e = rw (e refl) refl
ccdata_layer false s next more e = refl

-- Three bits, read as one and two.
three_bits :
    (v : ℕ) (bits : List ℕ) → to_bits 3 v ++ bits ≡ to_bits 1 (v / 4) ++ (to_bits 2 v ++ bits)
unfolding to_bits
three_bits v bits = let e : v / 4 / 1 ≡ v / 4 = omega arith in rw e

time_code_layer :
    (b : Bool) (s : TimeCodeSection) (next : ℕ) (more : List (ℕ × ℕ))
    → (b ≡ true → s.time_code_section_id ≡ 0x71)
    → fields_bits ((if b then time_code_fields s else []) ++ (next, 8) ∷ more)
      ≡ fields_bits ((choose b 0x71 next, 8) ∷ before b (time_code_tail s) next more)
unfolding time_code_fields fields_bits
time_code_layer true s next more e =
    rw (e refl, three_bits s.tc_10fr (to_bits 4 s.tc_1fr ++ (to_bits 8 next ++ fields_bits more)))
      refl
time_code_layer false s next more e = refl

join_last :
    (h a b c d e : List (ℕ × ℕ)) → (h ++ a ++ b ++ c ++ d) ++ e ≡ h ++ (a ++ (b ++ (c ++ (d ++ e))))
join_last h a b c d e = simp (append_assoc)

module _ (pkt : Eia708Packet) (foot : pkt.footer.cdp_footer_id ≡ 0x74) (len sum : ℕ) where
  parts_of :
      (t c s : Bool)
      → (t ≡ true → pkt.tc.time_code_section_id ≡ 0x71)
      → (c ≡ true → pkt.ccdata.ccdata_id ≡ 0x72)
      → (s ≡ true → pkt.ccsvc.ccsvcinfo_id ≡ 0x73)
      → fields_bits (
          (cdp_header_fields len pkt.header
            ++ (if t then time_code_fields pkt.tc else [])
            ++ (if c then ccdata_fields pkt.ccdata else [])
            ++ (if s then ccsvc_fields pkt.ccsvc else [])
            ++ (pkt.footer.cdp_footer_id, 8) ∷ (pkt.footer.cdp_ftr_sequence_cntr, 16) ∷ [])
          ++ (sum, 8) ∷ [])
        ≡ fields_bits (all_parts pkt t c s len sum)
  parts_of t c s et ec es =
      let h : List (ℕ × ℕ) = cdp_header_fields len pkt.header in
      let tf : List (ℕ × ℕ) = if t then time_code_fields pkt.tc else [] in
      let cf : List (ℕ × ℕ) = if c then ccdata_fields pkt.ccdata else [] in
      let sf : List (ℕ × ℕ) = if s then ccsvc_fields pkt.ccsvc else [] in
      let ids : ℕ = choose s 0x73 0x74 in
      let last : List (ℕ × ℕ) = last_part pkt t c s len sum in
      let cs : cf ++ (sf ++ (0x74, 8) ∷ last) ≡ (choose c 0x72 ids, 8) ∷ cc_part pkt t c s len sum =
        rw (services_layer s pkt.ccsvc last es)
          (ccdata_layer c pkt.ccdata ids (services_part pkt t c s len sum) ec) in
      let ts : fields_bits (tf ++ (cf ++ (sf ++ (0x74, 8) ∷ last)))
          ≡ fields_bits ((choose t 0x71 (choose c 0x72 ids), 8) ∷ time_part pkt t c s len sum) =
        rw cs (time_code_layer t pkt.tc (choose c 0x72 ids) (cc_part pkt t c s len sum) et) in
      ap fields_bits (
        join_last h tf cf sf
          ((pkt.footer.cdp_footer_id, 8) ∷ (pkt.footer.cdp_ftr_sequence_cntr, 16) ∷ [])
          ((sum, 8) ∷ []))
      ∙ fields_bits-append h (tf ++ (cf ++ (sf ++ (pkt.footer.cdp_footer_id, 8) ∷ last)))
      ∙ ap (λ (l : List ℕ). fields_bits h ++ l) (rw foot ts)
      ∙ sym (
          fields_bits-append h
            ((choose t 0x71 (choose c 0x72 ids), 8) ∷ time_part pkt t c s len sum))

  pub cdp_parts :
      fields_bits (cdp_fields len pkt ++ (sum, 8) ∷ [])
      ≡ fields_bits (all_parts pkt (has_time_code pkt) (has_ccdata pkt) (has_services pkt) len sum)
  unfolding cdp_fields
  cdp_parts =
      parts_of (has_time_code pkt) (has_ccdata pkt) (has_services pkt) (λ h. ground arith)
        (λ h. ground arith) (λ h. ground arith)
