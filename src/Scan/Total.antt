-- ===== src/Scan/Total.antt =====
-- klvanc_packet_parse ends and stays inside the caller's memory, if that reaches far enough.
use libklvanc.Prelude.{
  ℕ, zero, suc, ◌+◌, ◌-◌, ◌*◌, ◌%◌, ◌^◌, ◌<◌, ◌≤◌, ◌≡◌, refl, ◌∙◌, List, [], ◌∷◌, Outcome, ok, err,
  fault, Error, ◌&&◌, ◌⊎◌, inl, inr, Bool, true, false, ltb, ◌==◌, length, drop, length-drop, arith,
  some, get_elem?-lt, Bool-cases, ltb→lt, ◌||◌, Option, none, sym, ◌>>=◌, ◌>>◌, guard, einval,
  enomem,
}
use libklvanc.Checksum.{
  checksum_loop, mark_inverse, klvanc_checksum_calculate, klvanc_checksum_is_valid,
}
use libklvanc.Packet.{Header, parse, parse_fields, is_valid_header, word, is_adf_word, max_payload}
use mathlib.Core.Path.{subst}
use libklvanc.Word.{sanitize_word}
use libklvanc.Dispatch.{
  Memory, Callbacks, Decoded, answered, called, is_registered, parse_by_type, deliver,
}
use libklvanc.Dispatch.Safe.{IsOpen, deliver-IsOpen}
use libklvanc.Scte104.Fragments.{Held}
use libklvanc.Scan.{Context, scan, placed, take_packet, sub32, klvanc_packet_parse}
use libklvanc.Scan.Step.{sub32_lem, scan-done, scan-found, scan-next}
use libklvanc.Packet.Parsing.{copy_bytes-take, copy_raw-take}

-- The call returns: a value or an error code, no fault.
abbrev pub Returns {ℓ} : {A : Type ℓ} → Outcome A → Type ℓ
Returns {A = A} m = ((a : A) × (m ≡ ok a)) ⊎ ((e : Error) × (m ≡ err e))

abbrev pub Succeeds {ℓ} : {A : Type ℓ} → Outcome A → Type ℓ
Succeeds {A = A} m = (a : A) × (m ≡ ok a)

word-Succeeds : (arr : List ℕ) (i : ℕ) → i < length arr → Succeeds (word arr i)
word-Succeeds arr i h = let (a, e) = get_elem?-lt arr i h in (a, rw e)

checksum_loop-Succeeds :
    (s : ℕ) (words : List ℕ) (n : ℕ) → n ≤ length words → Succeeds (checksum_loop s words n)
unfolding checksum_loop
checksum_loop-Succeeds s words zero h = (s, refl)
checksum_loop-Succeeds s [] (suc n) h = absurd (omega arith)
checksum_loop-Succeeds s (w ∷ words) (suc n) h =
    checksum_loop-Succeeds ((s + w) % 2 ^ 16 % 512) words n (omega arith)

is_valid-Succeeds :
    (words : List ℕ) (n : ℕ)
    → 0 < n
    → n ≤ length words
    → Succeeds (klvanc_checksum_is_valid words n)
unfolding klvanc_checksum_is_valid klvanc_checksum_calculate
is_valid-Succeeds words n pos h =
    let (s, e) = checksum_loop-Succeeds 0 words (n - 1) (omega arith) in
    let (c, f) = get_elem?-lt words (n - 1) (omega arith) in (mark_inverse s == c, rw (e, f))

is_valid_header-Succeeds :
    (arr : List ℕ) (len : ℕ) → len ≤ length arr → Succeeds (is_valid_header arr len)
unfolding is_valid_header
is_valid_header-Succeeds [] len h = (false, ground arith)
is_valid_header-Succeeds (w0 ∷ []) len h = (false, ground arith)
is_valid_header-Succeeds (w0 ∷ w1 ∷ []) len h = (false, ground arith)
is_valid_header-Succeeds (w0 ∷ w1 ∷ w2 ∷ arr) len h =
    (ltb 7 len && (ltb w0 3 && (is_adf_word w1 && is_adf_word w2)), ground arith)

>>=-Succeeds {ℓ κ} :
    {A : Type ℓ} {B : Type κ} (m : Outcome A) (f : A → Outcome B)
    → Succeeds m
    → ((a : A) → Succeeds (f a))
    → Succeeds (m >>= f)
>>=-Succeeds (ok a) f h k = k a
>>=-Succeeds (err e) f h k = absurd (cc h.1)
>>=-Succeeds fault f h k = absurd (cc h.1)

parse_cases {ℓ} :
    {A : Type ℓ} (v c : Bool) {m : Outcome A} {r : A}
    → m ≡ ok r
    → Returns (do guard v einval; guard c enomem; m)
parse_cases true true {r = r} e = inl (r, e)
parse_cases true false e = inr (enomem, refl)
parse_cases false c e = inr (einval, refl)

-- 262 words are the longest packet: seven around 255 of payload.
parse_fields-Succeeds :
    (arr : List ℕ) (len failures : ℕ)
    → 262 ≤ length arr
    → len ≤ length arr
    → len ≤ max_payload
    → Succeeds (parse_fields arr len failures)
unfolding parse_fields
parse_fields-Succeeds arr len failures long h m =
    >>=-Succeeds _ _ (_, copy_raw-take arr len h m)
      λ raw. >>=-Succeeds _ _ (word-Succeeds arr 0 (omega arith)) λ w0.
        >>=-Succeeds _ _ (word-Succeeds arr 1 (omega arith)) λ w1.
          >>=-Succeeds _ _ (word-Succeeds arr 2 (omega arith)) λ w2.
            >>=-Succeeds _ _ (word-Succeeds arr 3 (omega arith)) λ w3.
              >>=-Succeeds _ _ (word-Succeeds arr 4 (omega arith)) λ w4.
                >>=-Succeeds _ _ (word-Succeeds arr 5 (omega arith)) λ w5.
                  >>=-Succeeds _ _ (tt, ground arith)
                    λ u.
                      >>=-Succeeds _ _
                        (
                          _,
                          copy_bytes-take (drop 6 arr) (sanitize_word w5)
                              (omega (arith, length-drop 6 arr)),
                        )
                        λ p.
                          >>=-Succeeds _ _ (word-Succeeds arr (6 + sanitize_word w5) (omega arith))
                            λ c.
                              >>=-Succeeds _ _
                                (is_valid-Succeeds (drop 3 arr) (sanitize_word w5 + 4) (omega arith)
                                  (omega (arith, length-drop 3 arr)))
                                λ v. (_, refl)

parse-Returns :
    (calloc_ok : Bool) (arr : List ℕ) (len failures : ℕ)
    → 262 ≤ length arr
    → len ≤ length arr
    → len ≤ max_payload
    → Returns (parse calloc_ok arr len failures)
unfolding parse
parse-Returns calloc_ok arr len failures long h m =
    let (r, e) = parse_fields-Succeeds arr len failures long h m in
    let (v, f) = is_valid_header-Succeeds arr len h in rw f (parse_cases v calloc_ok e)

answered-ok :
    {C : Type 0} (callback : Option (C → Decoded → C)) (client : C)
    (r : Held × Outcome (Option Decoded))
    → Succeeds (answered callback client r) ⊎ (answered callback client r ≡ fault)
answered-ok callback client (held, ok (some packet)) = inl (_, refl)
answered-ok callback client (held, ok none) = inl (_, refl)
answered-ok callback client (held, err e) = inl (_, refl)
answered-ok callback client (held, fault) = inr refl

deliver-ok :
    {C : Type 0} (memory : Memory) (callbacks : Callbacks C) (held : Held) (client : C)
    (hdr : Header)
    → Succeeds (deliver memory callbacks held client hdr)
      ⊎ (deliver memory callbacks held client hdr ≡ fault)
unfolding deliver
deliver-ok memory callbacks held client hdr =
    let callback = callbacks.decode hdr.packet_type in
    answered-ok callback (called callbacks.all client hdr)
      (parse_by_type (is_registered callback) memory held hdr)

module _ {C : Type 0} (calloc malloc : ℕ → Bool) (memory : ℕ → Memory)
    (callbacks : Callbacks C) where
  -- A packet that `parse` finds at a word of the line, of one of the three types with a parser that can
  -- leave its memory, and whose delivery does.
  pub record Faulty (arr : List ℕ) (len line_nr : ℕ) : Type 0 where
    pub at : ℕ
    pub inside : at + 7 < len
    pub found : Header × ℕ
    pub failures : ℕ
    pub parses : parse (calloc at) (drop at arr) (len - at) failures ≡ ok found
    pub kind : IsOpen found.0.packet_type
    pub held : Held
    pub client : C
    pub faults :
        deliver
          (memory at)
          callbacks
          held
          client
          (placed calloc malloc memory callbacks line_nr at found.0)
        ≡ fault

  take_packet-ok :
      (ctx : Context C) (line_nr i : ℕ) (parsed : Header) (failures : ℕ)
      → Succeeds (take_packet calloc malloc memory callbacks ctx line_nr i parsed failures)
        ⊎ ((take_packet calloc malloc memory callbacks ctx line_nr i parsed failures ≡ fault)
            × (deliver
                  (memory i)
                  callbacks
                  ctx.fragments
                  ctx.client
                  (placed calloc malloc memory callbacks line_nr i parsed)
                ≡ fault))
  unfolding take_packet
  take_packet-ok ctx line_nr i parsed failures =
      elim (Bool-cases (parsed.checksum_valid || ctx.allow_bad_checksums)) [
        | inr bad ↦ inl (rw (take_packet, bad) (_, refl))
        | inl good ↦
            elim (deliver-ok (memory i) callbacks ctx.fragments ctx.client
              (placed calloc malloc memory callbacks line_nr i parsed)) [
                | inl (r, e) ↦ inl (rw (take_packet, good, e) (_, refl))
                | inr e ↦ inr (rw (take_packet, good, e) refl, e)
              ]
      ]

  abbrev Ends : List ℕ → ℕ → ℕ → Outcome (ℕ × Context C) → Type 0
  Ends arr len line_nr m =
      ((r : ℕ × Context C) × (m ≡ ok r) × (r.0 * 7 ≤ len)) ⊎ ((m ≡ fault) × Faulty arr len line_nr)

  scan-total :
      (fuel : ℕ) (arr : List ℕ) (len line_nr i attempts : ℕ) (ctx : Context C)
      → 7 ≤ len
      → len ≤ max_payload
      → len + 262 ≤ length arr
      → i ≤ len
      → len < fuel + i
      → attempts * 7 ≤ i
      → Ends arr len line_nr
          (scan calloc malloc memory callbacks fuel arr len line_nr i attempts ctx)
  scan-total zero arr len line_nr i attempts ctx h7 hm long hi hf ha = absurd (omega arith)
  scan-total (suc fuel) arr len line_nr i attempts ctx h7 hm long hi hf ha =
      elim (Bool-cases (ltb i (sub32 len 7))) [
        | inr done ↦ inl (
          (attempts, ctx),
          scan-done calloc malloc memory callbacks fuel arr len line_nr i attempts ctx done,
          omega arith,
        )
        | inl more ↦
            let lt : i < len - 7 =
              omega (arith, ltb→lt i (sub32 len 7) more, sub32_lem len 7 h7 (omega arith)) in
            let s : sub32 len i ≡ len - i = sub32_lem len i hi (omega arith) in
            elim (parse-Returns (calloc i) (drop i arr) (sub32 len i) ctx.checksum_failures
              (omega (arith, length-drop i arr)) (omega (arith, length-drop i arr, s))
              (omega (arith, s))) [
                | inl (p, e) ↦
                    let f =
                      scan-found calloc malloc memory callbacks fuel arr len line_nr i attempts ctx
                        p more e in
                    elim (take_packet-ok ctx line_nr i p.0 p.1) [
                      | inl (ctx', t) ↦
                          let g : scan calloc malloc memory callbacks (suc fuel) arr len line_nr i
                                attempts ctx
                              ≡ scan calloc malloc memory callbacks fuel arr len line_nr (i + 7)
                                  (attempts + 1) ctx' =
                            f ∙ rw t refl in
                          subst (Ends arr len line_nr) (sym g) (
                            scan-total fuel arr len line_nr (i + 7) (attempts + 1) ctx' h7 hm long
                              (omega arith) (omega arith) (omega arith))
                      | inr (t, d) ↦ inr (
                        f ∙ rw t refl,
                        record {
                          at = i;
                          inside = omega arith;
                          found = p;
                          failures = ctx.checksum_failures;
                          parses = rw (← s) e;
                          kind =
                              deliver-IsOpen (memory i) callbacks ctx.fragments ctx.client
                                (placed calloc malloc memory callbacks line_nr i p.0) d;
                          held = ctx.fragments;
                          client = ctx.client;
                          faults = d;
                        },
                      )
                    ]
                | inr (x, e) ↦
                    subst (Ends arr len line_nr)
                      (sym (
                        scan-next calloc malloc memory callbacks fuel arr len line_nr i attempts ctx
                          x more e))
                      (scan-total fuel arr len line_nr (i + 1) attempts ctx h7 hm long (omega arith)
                        (omega arith) (omega arith))
              ]
      ]

  -- On a line of 7 words up to the largest payload, whatever it holds, provided that the caller's memory
  -- goes on for the length of a packet (262 words) behind the line: klvanc_packet_parse either returns the
  -- number of packets that it took, at most one for every seven words; or it faults, and there is a
  -- word of the line, more than seven before its end, where `parse` finds a packet of type EIA-708B, SCTE
  -- 104 or SMPTE 2108-1 on which the parser of that type faults.
  pub packet_parse-total :
      (arr : List ℕ) (len line_nr : ℕ) (ctx : Context C)
      → 7 ≤ len
      → len ≤ max_payload
      → len + 262 ≤ length arr
      → ((r : ℕ × Context C) × (klvanc_packet_parse calloc malloc memory callbacks ctx line_nr
              (some arr)
              len
            ≡ ok r)
          × (r.0 * 7 ≤ len))
        ⊎ ((klvanc_packet_parse calloc malloc memory callbacks ctx line_nr (some arr) len ≡ fault)
            × Faulty arr len line_nr)
  unfolding klvanc_packet_parse
  packet_parse-total arr len line_nr ctx h7 hm long =
      let a : (len == 0) ≡ false = ground arith in
      let b : ltb max_payload len ≡ false = ground arith in
      rw (a, b)
        (scan-total (len + 2) arr len line_nr 0 0 ctx h7 hm long (omega arith) (omega arith)
          (omega arith))
