-- ===== src/Lines/Generate.antt =====
-- klvanc_generate_vanc_line: the words of the entries that are legal and fit, without gaps.
use libklvanc.Prelude.{
  ℕ, ◌+◌, ◌≤◌, ◌≡◌, refl, ap, ◌∙◌, List, [], ◌++◌, ok, ◌==◌, if◌then◌else◌, length, drop, drop-all,
  Option, none, some, All, arith, inl, inr, Bool-cases,
}
use mathlib.Core.List.{append-nil}
use libklvanc.Lines.{Entry, Line, assemble_line, output_line, klvanc_generate_vanc_line}
use libklvanc.Lines.Place.{IsWhole, line_words, place_entries-line_words, line_words-fit}

assembled-output :
    (malloc : ℕ → Option (List ℕ)) (words : List ℕ) (entries : List Entry)
    → ((n : ℕ) → (buf : List ℕ) × (malloc n ≡ some buf) × (length buf ≡ n))
    → ((rest : List ℕ)
        → length words ≤ length rest
        → assemble_line rest entries ≡ ok (words ++ drop (length words) rest))
    → output_line malloc entries (length words)
      ≡ ok (if length words == 0 then none else some words)
unfolding output_line
assembled-output malloc words entries memory a = elim (Bool-cases (length words == 0)) [
  | inl empty ↦ rw (output_line, empty) refl
  | inr more ↦
      let (buf, e, l) = memory (length words) in
      let rest : drop (length words) buf ≡ [] = drop-all (length words) buf (omega (arith, l)) in
      let all : assemble_line buf entries ≡ ok words =
        a buf (omega (arith, l)) ∙ rw rest (ap ok (append-nil words)) in
      rw (output_line, more, e, all) refl
]

-- Where the line's entries are as klvanc_line_insert makes them, and sorting keeps that and memory is
-- found, klvanc_generate_vanc_line gives the words of the entries that are legal behind their start
-- sequence and fit, in the order of the sorting, without gaps and within the width of the line; no output
-- where there are none.
pub generate_vanc_line-line_words :
    (qsort : List Entry → List Entry) (malloc : ℕ → Option (List ℕ)) (line : Line) (width : ℕ)
    → ((entries : List Entry) → All IsWhole entries → All IsWhole (qsort entries))
    → ((n : ℕ) → (buf : List ℕ) × (malloc n ≡ some buf) × (length buf ≡ n))
    → All IsWhole line.entries
    → (line' : Line) × (klvanc_generate_vanc_line qsort malloc line width
        ≡ ok (
          line',
          if length (line_words width 0 (qsort line.entries)) == 0
              then none
              else some (line_words width 0 (qsort line.entries)),
        ))
      × (length (line_words width 0 (qsort line.entries)) ≤ width)
unfolding klvanc_generate_vanc_line
generate_vanc_line-line_words qsort malloc line width sorts memory whole =
    let words : List ℕ = line_words width 0 (qsort line.entries) in
    let (entries, p, a) =
      place_entries-line_words width 0 (qsort line.entries) (sorts line.entries whole)
        (omega arith) in
    let z : 0 + length words ≡ length words = omega arith in
    (
      record line { entries = entries },
      rw p (
          rw z
            (rw (assembled-output malloc words entries memory (λ rest l. a [] rest refl l)) refl)),
      omega (arith, line_words-fit width 0 (qsort line.entries) (omega arith)),
    )
