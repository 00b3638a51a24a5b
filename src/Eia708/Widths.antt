-- ===== src/Eia708/Widths.antt =====
-- The widths of the fields of a CDP.
use libklvanc.Prelude.{ℕ, ◌≤◌, List, [], ◌∷◌, Bool, true, false, arith, All-append}
use libklvanc.Bitstream.RoundTrip.{AreFields}
use libklvanc.Eia708.{Eia708Packet, CcEntry, ServiceEntry, no_cc_entry, no_service, first_entries}
use libklvanc.Eia708.Builder.{cdp_header_fields, cc_fields, service_fields}
use libklvanc.Eia708.Sections.{time_code_tail, ccdata_tail, ccsvc_tail}
use libklvanc.Eia708.Whole.{all_parts, time_part, cc_part, services_part, last_part, choose, before}

-- No field is too wide.
cc_fields-AreFields : (entries : List CcEntry) → AreFields (cc_fields entries)
unfolding cc_fields
cc_fields-AreFields [] = tt
cc_fields-AreFields (e ∷ entries) = (
  omega arith,
  (omega arith, (omega arith, (omega arith, (omega arith, cc_fields-AreFields entries)))),
)

service_fields-AreFields : (entries : List ServiceEntry) → AreFields (service_fields entries)
unfolding service_fields
service_fields-AreFields [] = tt
service_fields-AreFields (e ∷ entries) = (
  omega arith,
  (
    omega arith,
    (
      omega arith,
      (
        omega arith,
        (
          omega arith,
          (omega arith, (omega arith, (omega arith, service_fields-AreFields entries))),
        ),
      ),
    ),
  ),
)

before-AreFields :
    (b : Bool) (fields : List (ℕ × ℕ)) (next : ℕ) (more : List (ℕ × ℕ))
    → AreFields fields
    → AreFields more
    → AreFields (before b fields next more)
before-AreFields true fields next more a m =
    All-append (λ f. f.1 ≤ 64) fields ((next, 8) ∷ more) a (omega arith, m)
before-AreFields false fields next more a m = m

module _ (pkt : Eia708Packet) where
  pub all_parts-AreFields : (t c s : Bool) (len sum : ℕ) → AreFields (all_parts pkt t c s len sum)
  unfolding cdp_header_fields
  all_parts-AreFields t c s len sum =
      let last : AreFields (last_part pkt t c s len sum) = omega arith in
      let sv : AreFields (services_part pkt t c s len sum) =
        before-AreFields s (ccsvc_tail pkt.ccsvc) 0x74 (last_part pkt t c s len sum)
          (
            omega arith,
            (
              omega arith,
              (
                omega arith,
                (
                  omega arith,
                  (
                    omega arith,
                    service_fields-AreFields
                        (first_entries no_service pkt.ccsvc.svc_count pkt.ccsvc.svc),
                  ),
                ),
              ),
            ),
          )
          last in
      let cc : AreFields (cc_part pkt t c s len sum) =
        before-AreFields c (ccdata_tail pkt.ccdata) (choose s 0x73 0x74)
          (services_part pkt t c s len sum)
          (
            omega arith,
            (
              omega arith,
              cc_fields-AreFields (first_entries no_cc_entry pkt.ccdata.cc_count pkt.ccdata.cc),
            ),
          )
          sv in
      let tm : AreFields (time_part pkt t c s len sum) =
        before-AreFields t (time_code_tail pkt.tc) (choose c 0x72 (choose s 0x73 0x74))
          (cc_part pkt t c s len sum) (omega arith) cc in
      (
        omega arith,
        (
          omega arith,
          (
            omega arith,
            (
              omega arith,
              (
                omega arith,
                (
                  omega arith,
                  (
                    omega arith,
                    (
                      omega arith,
                      (
                        omega arith,
                        (
                          omega arith,
                          (omega arith, (omega arith, (omega arith, (omega arith, tm)))),
                        ),
                      ),
                    ),
                  ),
                ),
              ),
            ),
          ),
        ),
      )
