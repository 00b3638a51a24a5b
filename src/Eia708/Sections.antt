-- ===== src/Eia708/Sections.antt =====
-- The sections of a CDP, read where they follow.
use libklvanc.Prelude.{
  ℕ, zero, suc, ◌+◌, ◌*◌, ◌/◌, ◌%◌, ◌^◌, ◌≤◌, ◌<◌, ◌≡◌, refl, ap, List, [], ◌∷◌, ◌++◌, map, false,
  ltb, enomem, arith, length,
}
use libklvanc.Bitstream.Bits.{fields_bits}
use libklvanc.Bitstream.ReadBit.{at}
use libklvanc.Bitstream.Reads.{total, widths}
use libklvanc.Bitstream.RoundTrip.{length-fields_bits}
use libklvanc.Bitstream.Run.{FieldsAt, Reads, Reads-ok, Reads-then, Reads-bind, Reads-need}
use libklvanc.Eia708.{
  CdpHeader, TimeCodeSection, CcEntry, CcDataSection, ServiceEntry, ServiceSection, no_cc_entry,
  no_service, first_entries, max_cc_count,
}
use libklvanc.Eia708.Parser.{
  read_header, read_time_code, read_cc, read_cc_entries, read_ccdata, read_services,
  read_service_entries, read_ccsvc, read_footer,
}
use libklvanc.Eia708.Builder.{cdp_header_fields, cc_fields, service_fields}
use libklvanc.Eia708.Arrival.{
  header_arrived, time_code_arrived, cc_arrived, ccdata_arrived, service_arrived, ccsvc_arrived,
}

-- The fields of the sections behind their identifiers.
abbrev pub time_code_tail : TimeCodeSection → List (ℕ × ℕ)
time_code_tail tc =
    (3, 2)
    ∷ (tc.tc_10hrs, 2)
    ∷ (tc.tc_1hrs, 4)
    ∷ (1, 1)
    ∷ (tc.tc_10min, 3)
    ∷ (tc.tc_1min, 4)
    ∷ (tc.tc_field_flag, 1)
    ∷ (tc.tc_10sec, 3)
    ∷ (tc.tc_1sec, 4)
    ∷ (1, 1)
    ∷ (tc.tc_10fr / 4, 1)
    ∷ (tc.tc_10fr, 2)
    ∷ (tc.tc_1fr, 4)
    ∷ []

abbrev pub ccdata_tail : CcDataSection → List (ℕ × ℕ)
ccdata_tail s = (7, 3) ∷ (s.cc_count, 5) ∷ cc_fields (first_entries no_cc_entry s.cc_count s.cc)

abbrev pub ccsvc_tail : ServiceSection → List (ℕ × ℕ)
ccsvc_tail s =
    (1, 1)
    ∷ (s.svc_info_start, 1)
    ∷ (s.svc_info_change, 1)
    ∷ (s.svc_info_complete, 1)
    ∷ (s.svc_count, 4)
    ∷ service_fields (first_entries no_service s.svc_count s.svc)

pub length-first_entries :
    {A : Type 0} (unset : A) (n : ℕ) (entries : List A) → length (first_entries unset n entries) ≡ n
unfolding first_entries
length-first_entries unset zero entries = refl
length-first_entries unset (suc n) [] = ap suc (length-first_entries unset n [])
length-first_entries unset (suc n) (e ∷ entries) = ap suc (length-first_entries unset n entries)

pub total_cc :
    (entries : List CcEntry) (more : List (ℕ × ℕ))
    → total (widths (cc_fields entries ++ more)) ≡ 24 * length entries + total (widths more)
unfolding cc_fields
total_cc [] more = omega arith
total_cc (e ∷ entries) more = omega (arith, total_cc entries more)

pub total_services :
    (entries : List ServiceEntry) (more : List (ℕ × ℕ))
    → total (widths (service_fields entries ++ more)) ≡ 56 * length entries + total (widths more)
unfolding service_fields
total_services [] more = omega arith
total_services (e ∷ entries) more = omega (arith, total_services entries more)

module _ {mem : List ℕ} {n : ℕ} {rest : List ℕ} (small : n < 2 ^ 31) where
  pub header-Reads :
      (len : ℕ) (h : CdpHeader) (p : ℕ) (more : List (ℕ × ℕ))
      → FieldsAt mem n p (cdp_header_fields len h ++ more) rest
      → Reads mem n rest more (read_header (at mem n p)) (header_arrived len h)
  unfolding read_header cdp_header_fields header_arrived
  header-Reads len h p more f =
      Reads-need 7 enomem f (omega (arith, length-fields_bits (cdp_header_fields len h ++ more)))
        small
        (Reads-then f _ (λ f. Reads-then f _ (λ f. Reads-then f _ (λ f. Reads-then f _ (λ f.
          Reads-then f _ (λ f. Reads-then f _ (λ f. Reads-then f _ (λ f. Reads-then f _ (λ f.
            Reads-then f _ (λ f. Reads-then f _ (λ f.
              Reads-then f _
                (λ f. Reads-then f _ (λ f. Reads-then f _ (λ f. Reads-ok f))))))))))))))

  pub time_code-Reads :
      (tc : TimeCodeSection) (next p : ℕ) (more : List (ℕ × ℕ))
      → FieldsAt mem n p (time_code_tail tc ++ (next, 8) ∷ more) rest
      → Reads mem n rest more
          (read_time_code 0x71 (at mem n p))
          (time_code_arrived tc, next % 2 ^ 8)
  unfolding read_time_code time_code_arrived
  time_code-Reads tc next p more f =
      Reads-need 5 enomem f
        (omega (arith, length-fields_bits (time_code_tail tc ++ (next, 8) ∷ more))) small
        (Reads-then f _ (λ f. Reads-then f _ (λ f. Reads-then f _ (λ f. Reads-then f _ (λ f.
          Reads-then f _ (λ f. Reads-then f _ (λ f. Reads-then f _ (λ f. Reads-then f _ (λ f.
            Reads-then f _ (λ f. Reads-then f _ (λ f. Reads-then f _ (λ f.
              Reads-then f _
                (λ f. Reads-then f _ (λ f. Reads-then f _ (λ f. Reads-ok f)))))))))))))))

  cc-Reads :
      (entries : List CcEntry) (p : ℕ) (more : List (ℕ × ℕ))
      → FieldsAt mem n p (cc_fields entries ++ more) rest
      → Reads mem n rest more (read_cc (length entries) (at mem n p)) (map cc_arrived entries)
  unfolding read_cc cc_fields
  cc-Reads [] p more f = Reads-ok f
  cc-Reads (e ∷ entries) p more f = Reads-then f _ (λ f. Reads-then f _ (λ f. Reads-then f _ (λ f.
      Reads-then f _
        (λ f. Reads-then f _ (λ f. Reads-bind (cc-Reads entries _ more f) _ (λ q f. Reads-ok f))))))

  services-Reads :
      (entries : List ServiceEntry) (p : ℕ) (more : List (ℕ × ℕ))
      → FieldsAt mem n p (service_fields entries ++ more) rest
      → Reads mem n rest more
          (read_services (length entries) (at mem n p))
          (map service_arrived entries)
  unfolding read_services service_fields
  services-Reads [] p more f = Reads-ok f
  services-Reads (e ∷ entries) p more f = Reads-then f _ (λ f. Reads-then f _ (λ f.
      Reads-then f _ (λ f. Reads-then f _ (λ f. Reads-then f _ (λ f. Reads-then f _ (λ f.
        Reads-then f _ (λ f.
          Reads-then f _
            (λ f. Reads-bind (services-Reads entries _ more f) _ (λ q f. Reads-ok f)))))))))

  pub footer-Reads :
      (sequence sum p : ℕ)
      → FieldsAt mem n p ((sequence, 16) ∷ (sum, 8) ∷ []) rest
      → Reads mem n rest [] (read_footer 0x74 (at mem n p)) (record {
        cdp_footer_id = 0x74;
        cdp_ftr_sequence_cntr = sequence % 2 ^ 16;
        packet_checksum = sum % 2 ^ 8;
      })
  unfolding read_footer
  footer-Reads sequence sum p f =
      Reads-need 3 enomem f (omega (arith, length-fields_bits ((sequence, 16) ∷ (sum, 8) ∷ [])))
        small (Reads-then f _ (λ f. Reads-then f _ (λ f. Reads-ok f)))

  cc_entries-Reads :
      (entries : List CcEntry) (count next p : ℕ) (more : List (ℕ × ℕ))
      → FieldsAt mem n p (cc_fields entries ++ (next, 8) ∷ more) rest
      → count ≡ length entries
      → length entries ≤ 30
      → Reads mem n rest more
          (read_cc_entries count (at mem n p))
          (map cc_arrived entries, next % 2 ^ 8)
  unfolding read_cc_entries
  cc_entries-Reads entries count next p more f e h =
      let fits : ltb max_cc_count (length entries) ≡ false = ground arith in
      let l = length-fields_bits (cc_fields entries ++ (next, 8) ∷ more) in
      rw e (
        Reads-need (length entries * 3) enomem f
          (omega (arith, l, total_cc entries ((next, 8) ∷ more))) small
          (rw fits (
            Reads-bind (cc-Reads entries p ((next, 8) ∷ more) f) _
              (λ q f. Reads-then f _ (λ f. Reads-ok f)))))

  service_entries-Reads :
      (entries : List ServiceEntry) (count next p : ℕ) (more : List (ℕ × ℕ))
      → FieldsAt mem n p (service_fields entries ++ (next, 8) ∷ more) rest
      → count ≡ length entries
      → Reads mem n rest more
          (read_service_entries count (at mem n p))
          (map service_arrived entries, next % 2 ^ 8)
  unfolding read_service_entries
  service_entries-Reads entries count next p more f e =
      let l = length-fields_bits (service_fields entries ++ (next, 8) ∷ more) in
      rw e (
        Reads-need (length entries * 7) enomem f
          (omega (arith, l, total_services entries ((next, 8) ∷ more))) small
          (Reads-bind (services-Reads entries p ((next, 8) ∷ more) f) _
            (λ q f. Reads-then f _ (λ f. Reads-ok f))))

  pub ccdata-Reads :
      (s : CcDataSection) (next p : ℕ) (more : List (ℕ × ℕ))
      → s.cc_count ≤ 30
      → FieldsAt mem n p (ccdata_tail s ++ (next, 8) ∷ more) rest
      → Reads mem n rest more (read_ccdata 0x72 (at mem n p)) (ccdata_arrived s, next % 2 ^ 8)
  unfolding read_ccdata ccdata_arrived
  ccdata-Reads s next p more h f =
      let entries : List CcEntry = first_entries no_cc_entry s.cc_count s.cc in
      let l = length-first_entries no_cc_entry s.cc_count s.cc in
      let c : s.cc_count % 2 ^ 5 ≡ s.cc_count = omega arith in
      Reads-need 2 enomem f
        (omega (
          arith,
          length-fields_bits (ccdata_tail s ++ (next, 8) ∷ more),
          total_cc entries ((next, 8) ∷ more),
        ))
        small
        (Reads-then f _ (λ f. Reads-then f _ (λ f.
          Reads-bind
            (cc_entries-Reads entries (s.cc_count % 2 ^ 5) next _ more f (omega (arith, l))
              (omega (arith, l)))
            _ (λ q f. rw c (Reads-ok f)))))

  pub ccsvc-Reads :
      (s : ServiceSection) (next p : ℕ) (more : List (ℕ × ℕ))
      → s.svc_count < 16
      → 8 ≤ length (fields_bits more)
      → FieldsAt mem n p (ccsvc_tail s ++ (next, 8) ∷ more) rest
      → Reads mem n rest more (read_ccsvc 0x73 (at mem n p)) (ccsvc_arrived s, next % 2 ^ 8)
  unfolding read_ccsvc ccsvc_arrived
  ccsvc-Reads s next p more h k f =
      let entries : List ServiceEntry = first_entries no_service s.svc_count s.svc in
      let l = length-first_entries no_service s.svc_count s.svc in
      let c : s.svc_count % 2 ^ 4 ≡ s.svc_count = omega arith in
      Reads-need 3 enomem f
        (omega (
          arith,
          length-fields_bits (ccsvc_tail s ++ (next, 8) ∷ more),
          total_services entries ((next, 8) ∷ more),
          length-fields_bits more,
          k,
        ))
        small
        (Reads-then f _ (λ f. Reads-then f _ (λ f. Reads-then f _ (λ f. Reads-then f _ (λ f.
          Reads-then f _ (λ f.
            Reads-bind
              (service_entries-Reads entries (s.svc_count % 2 ^ 4) next _ more f (omega (arith, l)))
              _ (λ q f. rw c (Reads-ok f))))))))
