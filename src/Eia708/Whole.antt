-- ===== src/Eia708/Whole.antt =====
-- read_sections on the fields of a CDP.
use libklvanc.Prelude.{
  ℕ, ◌%◌, ◌^◌, ◌≤◌, ◌<◌, ◌≡◌, refl, List, [], ◌∷◌, ◌++◌, ok, Bool, true, false, ◌==◌, enomem, arith,
  length, if◌then◌else◌, take,
}
use libklvanc.Bitstream.{Klbs}
use libklvanc.Bitstream.Bits.{fields_bits}
use libklvanc.Bitstream.ReadBit.{at}
use libklvanc.Bitstream.RoundTrip.{length-fields_bits}
use libklvanc.Bitstream.Run.{FieldsAt, Reads, Reads-ok, Reads-then, Reads-bind, Reads-need}
use libklvanc.Eia708.{
  TimeCodeSection, CcDataSection, ServiceSection, Eia708Packet, no_time_code, no_ccdata,
  no_services,
}
use libklvanc.Eia708.Parser.{read_time_code, read_ccdata, read_ccsvc, read_sections, byte_sum}
use libklvanc.Eia708.Builder.{cdp_header_fields}
use libklvanc.Eia708.Arrival.{header_arrived, time_code_arrived, ccdata_arrived, ccsvc_arrived}
use libklvanc.Eia708.Sections.{
  header-Reads, time_code-Reads, ccdata-Reads, ccsvc-Reads, footer-Reads, time_code_tail,
  ccdata_tail, ccsvc_tail,
}

-- The identifier of the next section that is sent, and the fields behind it, from the last section to
-- the first.
abbrev pub foot : ℕ → ℕ → List (ℕ × ℕ)
foot sequence sum = (sequence, 16) ∷ (sum, 8) ∷ []

abbrev pub choose : Bool → ℕ → ℕ → ℕ
choose b id next = if b then id else next

abbrev pub before : Bool → List (ℕ × ℕ) → ℕ → List (ℕ × ℕ) → List (ℕ × ℕ)
before b fields next more = if b then fields ++ (next, 8) ∷ more else more

skip_ccdata :
    (id : ℕ) (bs : Klbs) → (id == 0x72) ≡ false → read_ccdata id bs ≡ ok ((no_ccdata, id), bs)
unfolding read_ccdata
skip_ccdata id bs k = rw (read_ccdata, k) refl

skip_time_code :
    (id : ℕ) (bs : Klbs) → (id == 0x71) ≡ false → read_time_code id bs ≡ ok ((no_time_code, id), bs)
unfolding read_time_code
skip_time_code id bs k = rw (read_time_code, k) refl

module _ {mem : List ℕ} {n : ℕ} {rest : List ℕ} (small : n < 2 ^ 31) where
  ccsvc-step :
      (b : Bool) (s : ServiceSection) (p : ℕ) (more : List (ℕ × ℕ))
      → s.svc_count < 16
      → 8 ≤ length (fields_bits more)
      → FieldsAt mem n p (before b (ccsvc_tail s) 0x74 more) rest
      → Reads mem n rest more
          (read_ccsvc (choose b 0x73 0x74) (at mem n p))
          (if b then ccsvc_arrived s else no_services, 0x74)
  ccsvc-step true s p more h k f = ccsvc-Reads small s 0x74 p more h k f
  ccsvc-step false s p more h k f = unfold read_ccsvc in Reads-ok f

  ccdata-step :
      (b : Bool) (s : CcDataSection) (next p : ℕ) (more : List (ℕ × ℕ))
      → s.cc_count ≤ 30
      → (next == 0x72) ≡ false
      → next < 256
      → FieldsAt mem n p (before b (ccdata_tail s) next more) rest
      → Reads mem n rest more
          (read_ccdata (choose b 0x72 next) (at mem n p))
          (if b then ccdata_arrived s else no_ccdata, next)
  ccdata-step true s next p more h k l f =
      let e : next % 2 ^ 8 ≡ next = omega arith in rw e at (ccdata-Reads small s next p more h f)
  ccdata-step false s next p more h k l f = rw (skip_ccdata next (at mem n p) k) (Reads-ok f)

  time_code-step :
      (b : Bool) (s : TimeCodeSection) (next p : ℕ) (more : List (ℕ × ℕ))
      → (next == 0x71) ≡ false
      → next < 256
      → FieldsAt mem n p (before b (time_code_tail s) next more) rest
      → Reads mem n rest more
          (read_time_code (choose b 0x71 next) (at mem n p))
          (if b then time_code_arrived s else no_time_code, next)
  time_code-step true s next p more k l f =
      let e : next % 2 ^ 8 ≡ next = omega arith in rw e at (time_code-Reads small s next p more f)
  time_code-step false s next p more k l f = rw (skip_time_code next (at mem n p) k) (Reads-ok f)

-- The fields of a CDP, section behind section.
module _ (pkt : Eia708Packet) (t c s : Bool) (len sum : ℕ) where
  abbrev pub last_part : List (ℕ × ℕ)
  last_part = foot pkt.footer.cdp_ftr_sequence_cntr sum

  abbrev pub services_part : List (ℕ × ℕ)
  services_part = before s (ccsvc_tail pkt.ccsvc) 0x74 last_part

  abbrev pub cc_part : List (ℕ × ℕ)
  cc_part = before c (ccdata_tail pkt.ccdata) (choose s 0x73 0x74) services_part

  abbrev pub time_part : List (ℕ × ℕ)
  time_part = before t (time_code_tail pkt.tc) (choose c 0x72 (choose s 0x73 0x74)) cc_part

  abbrev pub all_parts : List (ℕ × ℕ)
  all_parts =
      cdp_header_fields len pkt.header
      ++ (choose t 0x71 (choose c 0x72 (choose s 0x73 0x74)), 8) ∷ time_part

services_id : (s : Bool) → (choose s 0x73 0x74 == 0x72) ≡ false
services_id true = refl
services_id false = refl

services_byte : (s : Bool) → choose s 0x73 0x74 < 256
services_byte true = omega arith
services_byte false = omega arith

cc_id : (c s : Bool) → (choose c 0x72 (choose s 0x73 0x74) == 0x71) ≡ false
cc_id true s = refl
cc_id false true = refl
cc_id false false = refl

cc_byte : (c s : Bool) → choose c 0x72 (choose s 0x73 0x74) < 256
cc_byte true s = omega arith
cc_byte false s = services_byte s

first_byte :
    (t c s : Bool)
    → choose t 0x71 (choose c 0x72 (choose s 0x73 0x74)) % 2 ^ 8
      ≡ choose t 0x71 (choose c 0x72 (choose s 0x73 0x74))
first_byte true c s = refl
first_byte false c s = omega (arith, cc_byte c s)

module _ {mem : List ℕ} {n : ℕ} {rest : List ℕ} (small : n < 2 ^ 31) (pkt : Eia708Packet)
    (t c s : Bool) (len sum : ℕ) where
  pub read_sections-Reads :
      pkt.ccdata.cc_count ≤ 30
      → pkt.ccsvc.svc_count < 16
      → FieldsAt mem n 0 (all_parts pkt t c s len sum) rest
      → Reads mem n rest [] (read_sections mem n (at mem n 0)) (record {
        payload = mem;
        payload_length_bytes = n;
        checksum_valid = byte_sum (take n mem) == 0;
        header = header_arrived len pkt.header;
        tc = if t then time_code_arrived pkt.tc else no_time_code;
        ccdata = if c then ccdata_arrived pkt.ccdata else no_ccdata;
        ccsvc = if s then ccsvc_arrived pkt.ccsvc else no_services;
        footer = record {
          cdp_footer_id = 0x74;
          cdp_ftr_sequence_cntr = pkt.footer.cdp_ftr_sequence_cntr % 2 ^ 16;
          packet_checksum = sum % 2 ^ 8;
        };
      })
  unfolding read_sections
  read_sections-Reads h k f = Reads-bind (header-Reads small len pkt.header 0 _ f) _ (λ q f.
      Reads-need 1 enomem f
        (omega (
          arith,
          length-fields_bits (
              (choose t 0x71 (choose c 0x72 (choose s 0x73 0x74)), 8)
              ∷ time_part pkt t c s len sum),
        ))
        small
        (Reads-then f _ (λ f. rw (first_byte t c s) (
          Reads-bind (time_code-step small t pkt.tc _ _ _ (cc_id c s) (cc_byte c s) f) _ (λ q f.
            Reads-bind (ccdata-step small c pkt.ccdata _ q _ h (services_id s) (services_byte s) f)
              _
              (λ q f.
                Reads-bind
                  (ccsvc-step small s pkt.ccsvc q _ k
                    (omega (arith, length-fields_bits (last_part pkt t c s len sum))) f)
                  _ (λ q f. Reads-bind (footer-Reads small _ sum q f) _ (λ q f. Reads-ok f))))))))
