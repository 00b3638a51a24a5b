-- ===== src/Scan/Single.antt =====
-- klvanc_packet_parse on the words of one packet that klvanc_sdi_create_payload built.
use libklvanc.Prelude.{
  ℕ, zero, suc, ◌+◌, ◌-◌, ◌<◌, ◌≤◌, ◌≡◌, ◌≢◌, sym, ◌∙◌, List, [], ◌∷◌, ◌++◌, ok, err, einval, inl,
  inr, Bool, true, false, ltb, ◌==◌, length, drop, drop-get_elem?, arith, some, Bool-cases, ltb→lt,
  lt→ltb, get_elem?, get_elem?-lt, map, ◌>>=◌, Outcome, fault, refl, bind_assoc,
}
use libklvanc.Payload.{generate_parity, klvanc_sdi_create_payload}
use libklvanc.Payload.Laws.{body, create_payload-exact}
use libklvanc.Checksum.Laws.{checksum_word}
use libklvanc.Packet.{Header, parse, is_valid_header, max_payload}
use libklvanc.Packet.RoundTrip.{packet, header_of, parse-packet_alone, length-packet}
use libklvanc.Dispatch.{Memory, Callbacks, deliver}
use libklvanc.Scan.{Context, scan, sub32, take_packet, update_cache, klvanc_packet_parse}
use libklvanc.Scan.Step.{scan-next, scan-found, scan-done}

-- A word that carries parity starts no packet.
parse_parity :
    (calloc_ok : Bool) (w : ℕ) (arr : List ℕ) (len failures : ℕ)
    → 3 ≤ w
    → parse calloc_ok (w ∷ arr) len failures ≡ err einval
unfolding parse is_valid_header
parse_parity calloc_ok w arr len failures h =
    let e : ltb w 3 ≡ false = ground arith in
    elim (Bool-cases (ltb 7 len)) [ inl l ↦ rw (l, e) | inr l ↦ rw l ]

generate_parity-ge : (w : ℕ) → 3 ≤ generate_parity w
unfolding generate_parity
generate_parity-ge w = ground arith

map_parity-ge :
    (src rest : List ℕ) (i : ℕ) {w : ℕ}
    → i < length src
    → get_elem? (map generate_parity src ++ rest) i ≡ some w
    → 3 ≤ w
map_parity-ge [] rest i h e = absurd (omega arith)
map_parity-ge (b ∷ src) rest zero h e = ground (arith, generate_parity-ge b)
map_parity-ge (b ∷ src) rest (suc i) h e = map_parity-ge src rest i (omega arith) e

-- The words of a packet from the first payload word up to the checksum.
packet-ge :
    (sdid did : ℕ) (src : List ℕ) (i : ℕ) {w : ℕ}
    → 6 ≤ i
    → i < length src + 6
    → get_elem? (packet sdid did src) i ≡ some w
    → 3 ≤ w
packet-ge sdid did src i h k e =
    let f : i ≡ suc (suc (suc (suc (suc (suc (i - 6)))))) = omega arith in
    map_parity-ge src (checksum_word (body did sdid src) ∷ []) (i - 6) (omega arith) (rw f at e)

module _ {C : Type 0} (calloc malloc : ℕ → Bool) (memory : ℕ → Memory) (callbacks : Callbacks C)
    (sdid did : ℕ) (src : List ℕ) (line_nr : ℕ) (l8 : length src < 256) where
  abbrev words : List ℕ
  words = packet sdid did src

  -- No second packet is found.
  scan_rest :
      (fuel len i : ℕ) (ctx : Context C)
      → len ≡ length src + 7
      → 6 ≤ i
      → i ≤ len
      → len < fuel + i
      → scan calloc malloc memory callbacks fuel words len line_nr i 1 ctx ≡ ok (1, ctx)
  scan_rest zero len i ctx e h hi hf = absurd (omega arith)
  scan_rest (suc fuel) len i ctx e h hi hf = elim (Bool-cases (ltb i (sub32 len 7))) [
    | inr done ↦ scan-done calloc malloc memory callbacks fuel words len line_nr i 1 ctx done
    | inl more ↦
        let lt : i < length src = omega (arith, ltb→lt i (sub32 len 7) more) in
        let (w, g) = get_elem?-lt words i (omega (arith, length-packet sdid did src)) in
        scan-next calloc malloc memory callbacks fuel words len line_nr i 1 ctx einval more (
          rw (drop-get_elem? words i g) (
            parse_parity (calloc i) w (drop (suc i) words) (sub32 len i) ctx.checksum_failures
              (packet-ge sdid did src i h (omega arith) g)))
        ∙ scan_rest fuel len (i + 1) ctx e (omega arith) (omega arith) (omega arith)
  ]

  then_rest :
      (fuel len : ℕ) (m : Outcome (Context C))
      → len ≡ length src + 7
      → len < fuel + 7
      → (m >>= (λ ctx'. scan calloc malloc memory callbacks fuel words len line_nr 7 1 ctx'))
        ≡ (m >>= (λ ctx'. ok (1, ctx')))
  then_rest fuel len (ok ctx) e h = scan_rest fuel len 7 ctx e (omega arith) (omega arith) h
  then_rest fuel len (err x) e h = refl
  then_rest fuel len fault e h = refl

  -- The header as the callbacks see it.
  abbrev delivered : Header
  delivered = record (header_of sdid did src words) { line_nr = line_nr }

  first_found :
      (len failures : ℕ)
      → len ≡ length src + 7
      → sdid < 256
      → did < 256
      → 0 < length src
      → parse true words len failures ≡ ok (header_of sdid did src words, failures)
  first_found len failures e s8 d8 pos =
      rw (e ∙ sym (length-packet sdid did src))
        (parse-packet_alone sdid did src failures s8 d8 pos l8)

  scan_single :
      (len : ℕ) (ctx : Context C)
      → len ≡ length src + 7
      → calloc 0 ≡ true
      → sdid < 256
      → did < 256
      → 0 < length src
      → scan calloc malloc memory callbacks (len + 2) words len line_nr 0 0 ctx ≡ (
          take_packet calloc malloc memory callbacks ctx line_nr 0
            (header_of sdid did src words)
            ctx.checksum_failures
          >>= (λ ctx'. ok (1, ctx')))
  scan_single len ctx e c s8 d8 pos =
      let more : ltb 0 (sub32 len 7) ≡ true = lt→ltb 0 (sub32 len 7) (omega arith) in
      let s : sub32 len 0 ≡ len = omega arith in
      let f : len + 2 ≡ suc (len + 1) = omega arith in
      let r : Header × ℕ = (header_of sdid did src words, ctx.checksum_failures) in
      let found : parse (calloc 0) (drop 0 words) (sub32 len 0) ctx.checksum_failures ≡ ok r =
        rw (c, s) (first_found len ctx.checksum_failures e s8 d8 pos) in
      rw f (
        scan-found calloc malloc memory callbacks (len + 1) words len line_nr 0 0 ctx r more found
        ∙ then_rest (len + 1) len
            (take_packet calloc malloc memory callbacks ctx line_nr 0 (header_of sdid did src words)
              ctx.checksum_failures)
            e (omega arith))

  packet_parse_single :
      (len : ℕ) (ctx : Context C)
      → len ≡ length src + 7
      → calloc 0 ≡ true
      → sdid < 256
      → did < 256
      → 0 < length src
      → klvanc_packet_parse calloc malloc memory callbacks ctx line_nr (some words) len ≡ (
          take_packet calloc malloc memory callbacks ctx line_nr 0
            (header_of sdid did src words)
            ctx.checksum_failures
          >>= (λ ctx'. ok (1, ctx')))
  unfolding klvanc_packet_parse
  packet_parse_single len ctx e c s8 d8 pos =
      let a : (len == 0) ≡ false = ground arith in
      let b : ltb max_payload len ≡ false = ground arith in
      rw (a, b) (scan_single len ctx e c s8 d8 pos)

-- What is done with the words of one packet.
pub packet_parse-packet :
    {C : Type 0} (calloc malloc : ℕ → Bool) (memory : ℕ → Memory) (callbacks : Callbacks C)
    (sdid did : ℕ) (src : List ℕ) (line_nr : ℕ) (ctx : Context C)
    → calloc 0 ≡ true
    → sdid < 256
    → did < 256
    → 0 < length src
    → length src < 256
    → klvanc_packet_parse calloc malloc memory callbacks ctx line_nr
        (some (packet sdid did src))
        (length (packet sdid did src))
      ≡ (deliver
            (memory 0)
            callbacks
            ctx.fragments
            ctx.client
            (record (header_of sdid did src (packet sdid did src)) { line_nr = line_nr })
          >>= (λ r. ok (
            1,
            record ctx {
              cache_lines =
                  update_cache
                    (malloc 0)
                    ctx.cache_lines
                    (record (header_of sdid did src (packet sdid did src)) { line_nr = line_nr });
              fragments = r.0;
              client = r.1;
            },
          )))
unfolding take_packet header_of
packet_parse-packet calloc malloc memory callbacks sdid did src line_nr ctx c s8 d8 pos l8 =
    packet_parse_single calloc malloc memory callbacks sdid did src line_nr l8
      (length (packet sdid did src)) ctx (length-packet sdid did src) c s8 d8 pos
    ∙ bind_assoc
        (deliver (memory 0) callbacks ctx.fragments ctx.client
          (record (header_of sdid did src (packet sdid did src)) { line_nr = line_nr }))
        _ _

pub packet_parse-create_payload :
    {C : Type 0} (calloc malloc : ℕ → Bool) (memory : ℕ → Memory) (callbacks : Callbacks C)
    (sdid did : ℕ) (src : List ℕ) (line_nr : ℕ) (ctx : Context C)
    → calloc 0 ≡ true
    → sdid ≢ 0
    → did ≢ 0
    → sdid < 256
    → did < 256
    → 0 < length src
    → length src < 256
    → (do
      words ← klvanc_sdi_create_payload true sdid did (some src) (length src) 10
      klvanc_packet_parse calloc malloc memory callbacks ctx line_nr (some words) (length words))
      ≡ (deliver
            (memory 0)
            callbacks
            ctx.fragments
            ctx.client
            (record (header_of sdid did src (packet sdid did src)) { line_nr = line_nr })
          >>= (λ r. ok (
            1,
            record ctx {
              cache_lines =
                  update_cache
                    (malloc 0)
                    ctx.cache_lines
                    (record (header_of sdid did src (packet sdid did src)) { line_nr = line_nr });
              fragments = r.0;
              client = r.1;
            },
          )))
packet_parse-create_payload calloc malloc memory callbacks sdid did src line_nr ctx c s0 d0 s8 d8
      pos l8 =
    rw (create_payload-exact sdid did src s0 d0 (λ e. omega (arith, e)))
      (packet_parse-packet calloc malloc memory callbacks sdid did src line_nr ctx c s8 d8 pos l8)
