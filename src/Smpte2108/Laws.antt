-- ===== src/Smpte2108/Laws.antt =====
-- The bytes of the frames, and what parse_SMPTE_2108_1 gives for them.
use libklvanc.Prelude.{
  ℕ, zero, suc, ◌+◌, ◌-◌, ◌*◌, ◌%◌, ◌^◌, ◌<◌, ◌≤◌, ◌≡◌, refl, ap, ◌∙◌, List, [], ◌∷◌, ◌++◌, ok,
  true, false, some, length, length-append, length-drop, arith, All, map, ◌==◌, ltb,
}
use libklvanc.Bitstream.{Klbs, klbs_read_bits, klbs_get_byte_count_free}
use libklvanc.Bitstream.Bits.{bits_of, fields_bits, length-bits_of}
use libklvanc.Bitstream.ReadBit.{at}
use libklvanc.Bitstream.Reads.{read_bits_lem, total, widths, total-append}
use libklvanc.Bitstream.RoundTrip.{AreFields, length-fields_bits}
use libklvanc.Bitstream.Run.{
  FieldsAt, FieldsAt-next, FieldsAt-size, Reads, Reads-ok, Reads-then, Reads-bind,
}
use libklvanc.Smpte2108.{
  Metadata, static1, static2, unsupported, HdrFrame, read_static1, read_static2, read_metadata,
  read_frame, read_frames,
}

-- A frame that is sent, with its SEI payload type and length: the primaries, the white point and the
-- luminances; two light levels; or data of another type.
pub data Sent : Type 0 where
  mastering : (x0 y0 x1 y1 x2 y2 white_x white_y max min : ℕ) → Sent
  light : (content average : ℕ) → Sent
  other : (type : ℕ) (bytes : List ℕ) → Sent

abbrev pub type_of : Sent → ℕ
type_of (mastering x0 y0 x1 y1 x2 y2 white_x white_y max min) = 0
type_of (light content average) = 1
type_of (other type bytes) = type

abbrev pub content_fields : Sent → List (ℕ × ℕ)
content_fields (mastering x0 y0 x1 y1 x2 y2 white_x white_y max min) =
    (x0, 16)
    ∷ (y0, 16)
    ∷ (x1, 16)
    ∷ (y1, 16)
    ∷ (x2, 16)
    ∷ (y2, 16)
    ∷ (white_x, 16)
    ∷ (white_y, 16)
    ∷ (max, 32)
    ∷ (min, 32)
    ∷ []
content_fields (light content average) = (content, 16) ∷ (average, 16) ∷ []
content_fields (other type bytes) = map (λ b. (b, 8)) bytes

-- The length counts the two bytes of the SEI payload type and length.
abbrev pub length_of : Sent → ℕ
length_of (mastering x0 y0 x1 y1 x2 y2 white_x white_y max min) = 26
length_of (light content average) = 6
length_of (other type bytes) = 2 + length bytes

abbrev pub sent_fields : List (ℕ × Sent) → List (ℕ × ℕ)
sent_fields [] = []
sent_fields ((sei, s) ∷ sents) =
    (type_of s, 8) ∷ (length_of s, 8) ∷ (sei, 16) ∷ (content_fields s ++ sent_fields sents)

-- What arrives: each member in its width.
abbrev pub metadata_of : Sent → Metadata
metadata_of (mastering x0 y0 x1 y1 x2 y2 white_x white_y max min) = static1 (record {
  display_primaries_x = x0 % 2 ^ 16 ∷ x1 % 2 ^ 16 ∷ x2 % 2 ^ 16 ∷ [];
  display_primaries_y = y0 % 2 ^ 16 ∷ y1 % 2 ^ 16 ∷ y2 % 2 ^ 16 ∷ [];
  white_point_x = white_x % 2 ^ 16;
  white_point_y = white_y % 2 ^ 16;
  max_display_mastering_luminance = max % 2 ^ 32;
  min_display_mastering_luminance = min % 2 ^ 32;
})
metadata_of (light content average) = static2 (record {
  max_content_light_level = content % 2 ^ 16;
  max_pic_average_light_level = average % 2 ^ 16;
})
metadata_of (other type bytes) = unsupported

abbrev pub arrived : Sent → HdrFrame
arrived s = record { frame_type = type_of s; frame_length = length_of s; metadata = metadata_of s }

-- Another type is neither of the two, and a byte.
abbrev pub IsOther : Sent → Type 0
IsOther (mastering x0 y0 x1 y1 x2 y2 white_x white_y max min) = Unit
IsOther (light content average) = Unit
IsOther (other type bytes) = (1 < type) × (type < 256)

type_of-mod : (s : Sent) → IsOther s → type_of s % 2 ^ 8 ≡ type_of s
type_of-mod (mastering x0 y0 x1 y1 x2 y2 white_x white_y max min) o = refl
type_of-mod (light content average) o = refl
type_of-mod (other type bytes) o = omega (arith, o.1)

total-entries : (bytes : List ℕ) → total (widths (map (λ b. (b, 8)) bytes)) ≡ 8 * length bytes
total-entries [] = refl
total-entries (b ∷ bytes) = omega (arith, total-entries bytes)

ended :
    (mem : List ℕ) {n p : ℕ}
    → p ≡ 8 * n
    → n < 2 ^ 31
    → ltb (klbs_get_byte_count_free (at mem n p)) 2 ≡ true
unfolding klbs_get_byte_count_free
ended mem {n} {p} e l = ground (arith, e)

pub total-content : (s : Sent) → total (widths (content_fields s)) + 16 ≡ 8 * length_of s
total-content (mastering x0 y0 x1 y1 x2 y2 white_x white_y max min) = refl
total-content (light content average) = refl
total-content (other type bytes) = omega (arith, total-entries bytes)

content_size :
    (sei : ℕ) (s : Sent) (more : List (ℕ × ℕ))
    → 8 * length_of s ≤ length (fields_bits ((sei, 16) ∷ (content_fields s ++ more)))
content_size sei s more = omega (
  arith,
  total-content s,
  total-append (content_fields s) more,
  length-fields_bits ((sei, 16) ∷ (content_fields s ++ more)),
)

other_metadata :
    (type len : ℕ) (bs : Klbs) (v : ℕ) (bs' : Klbs)
    → (type == 0) ≡ false
    → (type == 1) ≡ false
    → klbs_read_bits ((8 * len + 2 ^ 32 - 16) % 2 ^ 32) bs ≡ ok (v, bs')
    → read_metadata type len bs ≡ ok (unsupported, bs')
unfolding read_metadata
other_metadata type len bs v bs' z y e = rw (read_metadata, z, y, e) refl

bytes-AreFields : (bytes : List ℕ) → AreFields (map (λ b. (b, 8)) bytes)
bytes-AreFields [] = tt
bytes-AreFields (b ∷ bytes) = (omega arith, bytes-AreFields bytes)

pub entries-AreFields : (s : Sent) → AreFields (content_fields s)
entries-AreFields (mastering x0 y0 x1 y1 x2 y2 white_x white_y max min) = omega arith
entries-AreFields (light content average) = omega arith
entries-AreFields (other type bytes) = bytes-AreFields bytes

module _ {mem : List ℕ} {n : ℕ} {rest : List ℕ} where
  FieldsAt-skip :
      (bytes : List ℕ) (p : ℕ) (more : List (ℕ × ℕ))
      → FieldsAt mem n p (map (λ b. (b, 8)) bytes ++ more) rest
      → FieldsAt mem n (p + 8 * length bytes) more rest
  FieldsAt-skip [] p more f = let e : p + 8 * 0 ≡ p = omega arith in rw e f
  FieldsAt-skip (b ∷ bytes) p more f =
      let e : p + 8 * suc (length bytes) ≡ p + 8 + 8 * length bytes = omega arith in
      rw e (FieldsAt-skip bytes (p + 8) more (FieldsAt-next f))

  metadata-Reads :
      (s : Sent) (p : ℕ) (more : List (ℕ × ℕ))
      → IsOther s
      → length_of s < 256
      → FieldsAt mem n p (content_fields s ++ more) rest
      → Reads mem n rest more (read_metadata (type_of s) (length_of s) (at mem n p)) (metadata_of s)
  unfolding read_metadata read_static1 read_static2
  metadata-Reads (mastering x0 y0 x1 y1 x2 y2 white_x white_y max min) p more o l f =
      Reads-then f _ (λ f. Reads-then f _ (λ f. Reads-then f _ (λ f. Reads-then f _ (λ f.
        Reads-then f _ (λ f. Reads-then f _ (λ f.
          Reads-then f _ (λ f.
            Reads-then f _ (λ f. Reads-then f _ (λ f. Reads-then f _ (λ f. Reads-ok f))))))))))
  metadata-Reads (light content average) p more o l f =
      Reads-then f _ (λ f. Reads-then f _ (λ f. Reads-ok f))
  metadata-Reads (other type bytes) p more o l f =
      let g = FieldsAt-skip bytes p more f in
      let k : (8 * (2 + length bytes) + 2 ^ 32 - 16) % 2 ^ 32 ≡ 8 * length bytes =
        omega (arith, l) in
      let z : (type == 0) ≡ false = ground (arith, o.0) in
      let y : (type == 1) ≡ false = ground (arith, o.0) in
      let e = read_bits_lem (8 * length bytes) mem n p (omega (arith, g.fits)) g.owned g.bytes in
      record {
        end = p + 8 * length bytes;
        result =
            other_metadata type (2 + length bytes) (at mem n p) _ _ z y
              (ap (λ j. klbs_read_bits j (at mem n p)) k ∙ e);
        left = g;
      }

  -- The frames take what is left of the packet, so where they begin follows from their size.
  FieldsAt-whole :
      {p : ℕ} {fields : List (ℕ × ℕ)}
      → length rest + 8 * n ≡ 8 * length mem
      → FieldsAt mem n p fields rest
      → p + length (fields_bits fields) ≡ 8 * n
  FieldsAt-whole {p} {fields} whole f = omega (
    arith,
    whole,
    f.fits,
    f.owned,
    ap (λ (l : List ℕ). length l) f.follow,
    length-append (fields_bits fields) rest,
    length-drop p (bits_of mem),
    length-bits_of mem,
  )

  frame-Reads :
      (sei : ℕ) (s : Sent) (p : ℕ) (more : List (ℕ × ℕ))
      → n < 2 ^ 31
      → IsOther s
      → length_of s < 256
      → FieldsAt mem n p
          ((type_of s, 8) ∷ (length_of s, 8) ∷ (sei, 16) ∷ (content_fields s ++ more))
          rest
      → Reads mem n rest more (read_frame (at mem n p)) (some (arrived s))
  unfolding read_frame
  frame-Reads sei s p more b o l f = Reads-then f _ (λ f. Reads-then f _ (λ f.
      let t = type_of-mod s o in
      let k : length_of s % 2 ^ 8 ≡ length_of s = omega (arith, l) in
      let z = FieldsAt-size (length_of s) f (content_size sei s more) b in
      rw (k, z, t)
        (Reads-then f _
          (λ f. rw k (Reads-bind (metadata-Reads s _ more o l f) _ (λ q f. Reads-ok f))))))

  pub frames-Reads :
      (sents : List (ℕ × Sent)) (fuel room p : ℕ)
      → n < 2 ^ 31
      → length rest + 8 * n ≡ 8 * length mem
      → length sents < fuel
      → length sents ≤ room
      → All (λ s. IsOther s.1 × (length_of s.1 < 256)) sents
      → FieldsAt mem n p (sent_fields sents) rest
      → Reads mem n rest [] (read_frames fuel room (at mem n p)) (map (λ s. arrived s.1) sents)
  unfolding read_frames
  frames-Reads sents zero room p b w u r a f = absurd (omega (arith, u))
  frames-Reads [] (suc fuel) room p b w u r a f =
      rw
        (
          read_frames,
          ended mem {p = p} (omega (arith, FieldsAt-whole w f, length-fields_bits [])) b,
        )
        (Reads-ok f)
  frames-Reads ((sei, s) ∷ sents) (suc fuel) zero p b w u r a f = absurd (omega (arith, r))
  frames-Reads ((sei, s) ∷ sents) (suc fuel) (suc room) p b w u r a f =
      let two =
        FieldsAt-size 2 f (omega (arith, length-fields_bits (sent_fields ((sei, s) ∷ sents)))) b in
      let left : suc room - 1 ≡ room = omega arith in
      let nz : (suc room == 0) ≡ false = ground arith in
      rw (read_frames, two, nz)
        (Reads-bind (frame-Reads sei s p (sent_fields sents) b a.0.0 a.0.1 f) _ (λ q f. rw left (
          Reads-bind
            (frames-Reads sents fuel room q b w (omega (arith, u)) (omega (arith, r)) a.1 f) _
            (λ q f. Reads-ok f))))
