-- ===== src/Smpte2108.antt =====
-- src/core-packet-smpte_2108_1.c and src/libklvanc/vanc-smpte_2108_1.h: HDR metadata.
pub mod Laws
pub mod RoundTrip
use libklvanc.Prelude.{
  ℕ, zero, suc, ◌+◌, ◌-◌, ◌*◌, ◌%◌, ◌^◌, List, [], ◌∷◌, ◌++◌, Outcome, ok, err, fault, out_of_fuel,
  enomem, ◌>>=◌, ◌>>◌, Bool, true, false, guard, Option, none, some, ◌==◌, ltb, map, replicate,
}
use libklvanc.Word.{sanitize_word}
use libklvanc.Bitstream.{Klbs, klbs_read_set_buffer, klbs_read_bits, klbs_get_byte_count_free}
use libklvanc.Packet.{Header, first_words}

-- `struct klvanc_packet_smpte_2108_1_static1` and `..._static2`, and the union: other frames have
-- none of them.
pub record Static1 : Type 0 where
  pub display_primaries_x : List ℕ
  pub display_primaries_y : List ℕ
  pub white_point_x : ℕ
  pub white_point_y : ℕ
  pub max_display_mastering_luminance : ℕ
  pub min_display_mastering_luminance : ℕ

pub record Static2 : Type 0 where
  pub max_content_light_level : ℕ
  pub max_pic_average_light_level : ℕ

pub data Metadata : Type 0 where
  static1 : Static1 → Metadata
  static2 : Static2 → Metadata
  unsupported : Metadata

-- `struct klvanc_s2108_1_frame`
pub record HdrFrame : Type 0 where
  pub frame_type : ℕ
  pub frame_length : ℕ
  pub metadata : Metadata

-- `struct klvanc_packet_smpte_2108_1_s` without its copy of the header; `frames` has the `num_frames`
-- frames that are counted.
pub record HdrPacket : Type 0 where
  pub payload : List ℕ
  pub payload_length_bytes : ℕ
  pub frames : List HdrFrame

-- `MAX_S2108_1_FRAMES`
abbrev pub max_frames : ℕ
max_frames = 10

-- The loop over the primaries, and the members behind it.
unfoldable pub read_static1 : Klbs → Outcome (Metadata × Klbs)
read_static1 bs = do
  (x0, bs) ← klbs_read_bits 16 bs
  (y0, bs) ← klbs_read_bits 16 bs
  (x1, bs) ← klbs_read_bits 16 bs
  (y1, bs) ← klbs_read_bits 16 bs
  (x2, bs) ← klbs_read_bits 16 bs
  (y2, bs) ← klbs_read_bits 16 bs
  (white_x, bs) ← klbs_read_bits 16 bs
  (white_y, bs) ← klbs_read_bits 16 bs
  (max, bs) ← klbs_read_bits 32 bs
  (min, bs) ← klbs_read_bits 32 bs
  ok (
    static1 (record {
      display_primaries_x = x0 ∷ x1 ∷ x2 ∷ [];
      display_primaries_y = y0 ∷ y1 ∷ y2 ∷ [];
      white_point_x = white_x;
      white_point_y = white_y;
      max_display_mastering_luminance = max;
      min_display_mastering_luminance = min;
    }),
    bs,
  )

unfoldable pub read_static2 : Klbs → Outcome (Metadata × Klbs)
read_static2 bs = do
  (content, bs) ← klbs_read_bits 16 bs
  (average, bs) ← klbs_read_bits 16 bs
  ok (
    static2 (record { max_content_light_level = content; max_pic_average_light_level = average }),
    bs,
  )

-- The number of bits is unsigned: it wraps around below a length of two.
unfoldable pub read_metadata : ℕ → ℕ → Klbs → Outcome (Metadata × Klbs)
unfolding read_static1 read_static2
read_metadata type len bs = elim (type == 0) [
  | true ↦ read_static1 bs
  | false ↦ elim (type == 1) [
    | true ↦ read_static2 bs
    | false ↦ klbs_read_bits ((8 * len + 2 ^ 32 - 16) % 2 ^ 32) bs >>= (λ r. ok (unsupported, r.1))
  ]
]

-- A frame; there is none where its payload does not fit.
unfoldable pub read_frame : Klbs → Outcome (Option HdrFrame × Klbs)
unfolding read_metadata
read_frame bs = do
  (type, bs) ← klbs_read_bits 8 bs
  (len, bs) ← klbs_read_bits 8 bs
  elim (ltb (klbs_get_byte_count_free bs) len) [
    | true ↦ ok (none, bs)
    | false ↦ do
      (_, bs) ← klbs_read_bits 16 bs
      (metadata, bs) ← read_metadata type len bs
      ok (some (record { frame_type = type; frame_length = len; metadata = metadata }), bs)
  ]

-- The `while` loop, with `room` entries left of the array of frames: a frame behind them is stored
-- outside it. A round takes two bytes at least, so as many rounds as there are bytes, and one more,
-- are enough.
unfoldable pub read_frames : ℕ → ℕ → Klbs → Outcome (List HdrFrame × Klbs)
unfolding read_frame
read_frames zero room bs = err out_of_fuel
read_frames (suc fuel) room bs = elim (ltb (klbs_get_byte_count_free bs) 2) [
  | true ↦ ok ([], bs)
  | false ↦ elim (room == 0) [
    | true ↦ fault
    | false ↦ read_frame bs >>= (λ r. elim r.0 [
      | none ↦ ok ([], r.1)
      | some frame ↦ read_frames fuel (room - 1) r.1 >>= (λ t. ok (frame ∷ t.0, t.1))
    ])
  ]
]

-- `parse_SMPTE_2108_1`
unfoldable pub parse_smpte_2108_1 : Bool → Bool → Bool → Header → Outcome (Option HdrPacket)
unfolding read_frames
parse_smpte_2108_1 false klbs_ok calloc_ok hdr = ok none
parse_smpte_2108_1 true klbs_ok calloc_ok hdr = do
  guard klbs_ok enomem
  guard calloc_ok enomem
  let count = hdr.payload_length_words
  elim (ltb 256 count) [
    | true ↦ fault
    | false ↦ do
      let payload = map sanitize_word (first_words count hdr.payload) ++ replicate (256 - count) 0
      (frames, _) ← read_frames (suc count) max_frames (klbs_read_set_buffer payload count)
      ok (some (record { payload = payload; payload_length_bytes = count; frames = frames }))
  ]
