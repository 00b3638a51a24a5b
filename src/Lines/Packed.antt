-- ===== src/Lines/Packed.antt =====
-- klvanc_generate_vanc_line_v210: the words of a line, packed.
use libklvanc.Prelude.{
  ℕ, ◌*◌, ◌/◌, ◌≤◌, ◌<◌, ◌≡◌, ◌≢◌, ◌⊎◌, refl, List, ok, fault, Option, some, ltb, ◌==◌, length,
  take, All, arith, bind_inv, Bool-cases, inl, inr,
}
use libklvanc.Pixels.{
  klvanc_y10_to_v210, klvanc_uyvy_to_v210, klvanc_v210_planar_unpack_c, klvanc_v210_line_to_uyvy_c,
}
use libklvanc.Pixels.Planar.{IsSample, grey, planar_unpack-y10_to_v210}
use libklvanc.Pixels.Repack.{line_to_uyvy-uyvy_to_v210}
use libklvanc.Lines.{Entry, Line, packed, klvanc_generate_vanc_line_v210}
use libklvanc.Lines.Place.{IsWhole, line_words}
use libklvanc.Lines.Generate.{generate_vanc_line-line_words}

-- Packed as luma where the line is wide, and as luma and chroma in turn where it is not.
abbrev pub Unpacks : ℕ → List ℕ → List ℕ → Type 0
Unpacks width words out =
    ((720 < width)
      × (klvanc_v210_planar_unpack_c out (length words)
          ≡ ok (record {
            y = take (6 * (length words / 6)) words;
            u = grey (length words / 6);
            v = grey (length words / 6);
          })))
    ⊎ ((width ≤ 720)
        × (klvanc_v210_line_to_uyvy_c out (6 * (length words / 12))
            ≡ ok (take (12 * (length words / 12)) words)))

packed-Unpacks :
    (width : ℕ) (words : List ℕ)
    → All IsSample words
    → (out : List ℕ) × (packed width (some words) ≡ ok out) × Unpacks width words out
packed-Unpacks width words a = elim (Bool-cases (ltb 720 width)) [
  | inl wide ↦
      let (out, e, u) =
        bind_inv (klvanc_y10_to_v210 words (length words)) _
          (planar_unpack-y10_to_v210 words (length words) a (omega arith)) in
      (out, rw wide e, inl (ground (arith, wide), u))
  | inr narrow ↦
      let (out, e, u) =
        bind_inv (klvanc_uyvy_to_v210 words (length words)) _
          (line_to_uyvy-uyvy_to_v210 words (length words) a (omega arith)) in
      (out, rw narrow e, inr (ground (arith, narrow), u))
]

-- Where the line's entries are as klvanc_line_insert makes them, and sorting keeps that, and memory is
-- found, and the words that are placed on the line have ten bits: klvanc_generate_vanc_line_v210 either
-- reads a buffer that was never set, and no word was placed on the line; or words were placed, and
-- those that it writes are unpacked to them, as far as they make whole groups, as luma on lines of
-- more than 720 pixels and as luma and chroma in turn on others.
pub generate_vanc_line_v210-line_words :
    (qsort : List Entry → List Entry) (malloc : ℕ → Option (List ℕ)) (line : Line) (width : ℕ)
    → ((entries : List Entry) → All IsWhole entries → All IsWhole (qsort entries))
    → ((n : ℕ) → (buf : List ℕ) × (malloc n ≡ some buf) × (length buf ≡ n))
    → All IsWhole line.entries
    → All IsSample (line_words width 0 (qsort line.entries))
    → ((length (line_words width 0 (qsort line.entries)) ≡ 0)
        × (klvanc_generate_vanc_line_v210 qsort malloc line width ≡ fault))
      ⊎ ((length (line_words width 0 (qsort line.entries)) ≢ 0)
          × ((r : Line × List ℕ) × (klvanc_generate_vanc_line_v210 qsort malloc line width ≡ ok r)
              × Unpacks width (line_words width 0 (qsort line.entries)) r.1))
unfolding klvanc_generate_vanc_line_v210
generate_vanc_line_v210-line_words qsort malloc line width sorts memory whole a =
    let words : List ℕ = line_words width 0 (qsort line.entries) in
    let (line', e, _) = generate_vanc_line-line_words qsort malloc line width sorts memory whole in
    elim (Bool-cases (length words == 0)) [
      | inl z ↦ inl (ground (arith, z), rw e (rw z refl))
      | inr k ↦
          let (out, p, u) = packed-Unpacks width words a in
          inr (ground (arith, k), ((line', out), rw e (rw k (rw p refl)), u))
    ]
