-- ===== src/Tests/Scanning.antt =====
-- Lines that are searched for packets.
use libklvanc.Prelude.{
  ℕ, ◌+◌, ◌*◌, ◌≡◌, ◌≤◌, ◌⊎◌, refl, List, [], ◌∷◌, ok, fault, ◌>>=◌, deref, true, false, some,
  length, replicate, arith,
}
use libklvanc.Payload.{klvanc_sdi_create_payload}
use libklvanc.Packet.RoundTrip.{packet, header_of}
use libklvanc.Codec.{Alloc}
use libklvanc.Codec.Laws.{Grants}
use libklvanc.Afd.{AfdPacket, aspect_16x9, klvanc_convert_afd_to_words}
use libklvanc.Afd.Laws.{IsRepresentable}
use libklvanc.Cache.History.{fresh_cache}
use libklvanc.Dispatch.{Memory, Callbacks, deliver}
use libklvanc.Scan.{Context, update_cache, klvanc_packet_parse}
use libklvanc.Scan.Total.{Faulty, packet_parse-total}
use libklvanc.Scan.Short.{packet_parse-short}
use libklvanc.Scan.Delivered.{afd_header, packet_parse-convert_afd_to_words}
use libklvanc.Scan.Single.{packet_parse-create_payload}

-- The application counts what it gets: one for each packet, and ten for each that is decoded.
abbrev counting : Callbacks ℕ
counting = record { all = some (λ n hdr. n + 1); decode = λ type. some (λ n packet. n + 10) }

abbrev all_memory : ℕ → Memory
all_memory i = record {
  klbs_ok = true;
  calloc_ok = true;
  fragments = record {
    packet_ok = true;
    fragment_ok = true;
    complete_ok = true;
    ops_ok = true;
    body_ok = λ i. true;
    klbs_ok = λ i. true;
  };
}

abbrev quiet : Context ℕ
quiet = record {
  allow_bad_checksums = false;
  checksum_failures = 0;
  cache_lines = some fresh_cache;
  fragments = [];
  client = 0;
}

abbrev eight_bytes : List ℕ
eight_bytes = 0x4c ∷ 0 ∷ 0 ∷ 0 ∷ 0 ∷ 0 ∷ 0 ∷ 0 ∷ []

packet_parse-create_payload_example :
    (do
      words ← klvanc_sdi_create_payload true 5 0x41 (some eight_bytes) 8 10
      klvanc_packet_parse
          (λ i. true)
          (λ i. true)
          all_memory
          counting
          quiet
          9
          (some words)
          (length words))
    ≡ (deliver
          (all_memory 0)
          counting
          []
          0
          (record (header_of 5 0x41 eight_bytes (packet 5 0x41 eight_bytes)) { line_nr = 9 })
        >>= (λ r. ok (
          1,
          record quiet {
            cache_lines =
                update_cache true
                  (some fresh_cache)
                  (record (header_of 5 0x41 eight_bytes (packet 5 0x41 eight_bytes)) {
                    line_nr = 9;
                  });
            fragments = r.0;
            client = r.1;
          },
        )))
packet_parse-create_payload_example =
    packet_parse-create_payload (λ i. true) (λ i. true) all_memory counting 5 0x41 eight_bytes 9
      quiet refl (λ h. omega (arith, h)) (λ h. omega (arith, h)) (omega arith) (omega arith)
      (omega arith) (omega arith)

packet_parse-total_example :
    ((r : ℕ × Context ℕ) × (klvanc_packet_parse
          (λ i. true)
          (λ i. true)
          all_memory
          counting
          quiet
          9
          (some (replicate 272 0x3fc))
          10
        ≡ ok r)
      × (r.0 * 7 ≤ 10))
    ⊎ ((klvanc_packet_parse
            (λ i. true)
            (λ i. true)
            all_memory
            counting
            quiet
            9
            (some (replicate 272 0x3fc))
            10
          ≡ fault)
        × Faulty (λ i. true) (λ i. true) all_memory counting (replicate 272 0x3fc) 10 9)
packet_parse-total_example =
    packet_parse-total (λ i. true) (λ i. true) all_memory counting (replicate 272 0x3fc) 10 9 quiet
      (omega arith) (omega arith) (omega arith)

packet_parse-short_example :
    klvanc_packet_parse
      (λ i. true)
      (λ i. true)
      all_memory
      counting
      quiet
      9
      (some (1 ∷ 2 ∷ 3 ∷ []))
      3
    ≡ fault
packet_parse-short_example =
    packet_parse-short (λ i. true) (λ i. true) all_memory counting (1 ∷ 2 ∷ 3 ∷ []) 9 quiet
      (omega arith) (omega arith)

abbrev bars : AfdPacket
bars = record {
  aspect_ratio = aspect_16x9;
  afd = 10;
  bar_data_flags = 0x0c;
  top = 300;
  bottom = 500;
  left = 0;
  right = 0;
}

bars-IsRepresentable : IsRepresentable bars
bars-IsRepresentable = record {
  ratio = λ h. cc;
  format = omega arith;
  flags = omega arith;
  top = omega arith;
  bottom = omega arith;
  left = omega arith;
  right = omega arith;
  vertical = λ h. absurd (h refl);
  horizontal = λ h. (refl, refl);
}

abbrev with_buffer : Alloc
with_buffer = record { klbs_ok = true; buffer = some (replicate 255 0); words_ok = true }

with_buffer-Grants : Grants 255 with_buffer
with_buffer-Grants = record {
  mem = replicate 255 0;
  klbs = refl;
  buffer = refl;
  size = refl;
  words = refl;
}

-- The application has got the header and the packet.
packet_parse-convert_afd_to_words_example :
    (do
      words? ← klvanc_convert_afd_to_words with_buffer bars
      words ← deref words?
      klvanc_packet_parse
          (λ i. true)
          (λ i. true)
          all_memory
          counting
          quiet
          9
          (some words)
          (length words))
    ≡ ok (
      1,
      record quiet {
        cache_lines = update_cache true (some fresh_cache) (afd_header bars 9);
        client = 11;
      },
    )
packet_parse-convert_afd_to_words_example =
    packet_parse-convert_afd_to_words (λ i. true) (λ i. true) all_memory counting
      (λ n packet. n + 10) with_buffer bars 9 quiet with_buffer-Grants refl refl refl
      bars-IsRepresentable
