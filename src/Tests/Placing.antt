-- ===== src/Tests/Placing.antt =====
-- Packets on lines, and their samples.
use libklvanc.Prelude.{
  ℕ, ◌*◌, ◌/◌, ◌>>=◌, ◌≡◌, ◌≢◌, ◌⊎◌, fault, ◌≤◌, ◌==◌, refl, List, [], ◌∷◌, ok, err, enomem, true,
  none, some, length, length-replicate, replicate, arith, ltb, inl, inr, Bool-cases, take, All,
  if◌then◌else◌,
}
use libklvanc.Lines.{
  Entry, Line, klvanc_line_insert, klvanc_generate_vanc_line, klvanc_generate_vanc_line_v210,
}
use libklvanc.Lines.Insert.{
  Inserted, IsLineSet, entries_at, line_insert-IsLineSet, line_insert-full,
}
use libklvanc.Lines.Place.{IsWhole, is_sent, are_legal, line_words}
use libklvanc.Lines.Generate.{generate_vanc_line-line_words}
use libklvanc.Lines.Packed.{Unpacks, generate_vanc_line_v210-line_words}
use libklvanc.Pixels.{
  klvanc_y10_to_v210, klvanc_v210_planar_unpack_c, klvanc_uyvy_to_v210, klvanc_v210_line_to_uyvy_c,
}
use libklvanc.Pixels.Planar.{grey, planar_unpack-y10_to_v210}
use libklvanc.Pixels.Repack.{line_to_uyvy-uyvy_to_v210}

abbrev start_words : List ℕ
start_words = 0 ∷ 0x3ff ∷ 0x3ff ∷ 0x161 ∷ 0x101 ∷ []

abbrev one_entry : Entry
one_entry = record { h_offset = 4; payload = start_words; pixel_width = 5 }

-- A line with one entry, and a full one.
abbrev line_nine : Line
line_nine = record { line_number = 9; entries = one_entry ∷ [] }

abbrev full_line : Line
full_line = record { line_number = 10; entries = replicate 16 one_entry }

line_insert-IsLineSet_example :
    (lines : List Line) × (klvanc_line_insert true true true (line_nine ∷ []) start_words 5 9 0
      ≡ ok lines)
    × Inserted
        (line_nine ∷ [])
        9
        (record { h_offset = 0; payload = take 5 start_words; pixel_width = 5 })
        lines
    × IsLineSet lines
line_insert-IsLineSet_example =
    line_insert-IsLineSet (line_nine ∷ []) start_words 5 9 0
      (omega arith, ((omega arith, (refl, tt)), tt)) (omega arith) (omega arith)
      (unfold entries_at in omega arith)

line_insert-full_example :
    klvanc_line_insert true true true (line_nine ∷ full_line ∷ []) start_words 5 10 0 ≡ err enomem
line_insert-full_example =
    line_insert-full true true true (line_nine ∷ full_line ∷ []) start_words 5 10 0 (omega arith)
      (inl (unfold entries_at in refl))

-- Sorting by insertion.
abbrev insert_sorted : Entry → List Entry → List Entry
insert_sorted e [] = e ∷ []
insert_sorted e (x ∷ xs) = if ltb x.h_offset e.h_offset then x ∷ insert_sorted e xs else e ∷ x ∷ xs

abbrev sort_entries : List Entry → List Entry
sort_entries [] = []
sort_entries (e ∷ entries) = insert_sorted e (sort_entries entries)

insert_sorted-All :
    (e : Entry) (xs : List Entry) → IsWhole e → All IsWhole xs → All IsWhole (insert_sorted e xs)
insert_sorted-All e [] w a = (w, tt)
insert_sorted-All e (x ∷ xs) w a = elim (Bool-cases (ltb x.h_offset e.h_offset)) [
  | inl before ↦ rw before (a.0, insert_sorted-All e xs w a.1)
  | inr behind ↦ rw behind (w, a)
]

sort_entries-All : (entries : List Entry) → All IsWhole entries → All IsWhole (sort_entries entries)
sort_entries-All [] a = tt
sort_entries-All (e ∷ entries) a =
    insert_sorted-All e (sort_entries entries) a.0 (sort_entries-All entries a.1)

generate_vanc_line-line_words_example :
    (line : Line) × (klvanc_generate_vanc_line sort_entries
        (λ n. some (replicate n 0))
        line_nine
        720
      ≡ ok (
        line,
        if length (line_words 720 0 (sort_entries line_nine.entries)) == 0
            then none
            else some (line_words 720 0 (sort_entries line_nine.entries)),
      ))
    × (length (line_words 720 0 (sort_entries line_nine.entries)) ≤ 720)
generate_vanc_line-line_words_example =
    generate_vanc_line-line_words sort_entries (λ n. some (replicate n 0)) line_nine 720
      sort_entries-All (λ n. (replicate n 0, refl, length-replicate {A = ℕ} n 0)) (refl, tt)

-- Seven samples: one whole group and one that is left.
abbrev seven_samples : List ℕ
seven_samples = 0x10 ∷ 0x20 ∷ 0x30 ∷ 0x40 ∷ 0x3ff ∷ 0 ∷ 5 ∷ []

planar_unpack-y10_to_v210_example :
    (do words ← klvanc_y10_to_v210 seven_samples 7; klvanc_v210_planar_unpack_c words 7)
    ≡ ok (record { y = take (6 * (7 / 6)) seven_samples; u = grey (7 / 6); v = grey (7 / 6) })
planar_unpack-y10_to_v210_example =
    planar_unpack-y10_to_v210 seven_samples 7 (omega arith) (omega arith)

-- Thirteen samples: one whole group and one that is left.
abbrev thirteen_samples : List ℕ
thirteen_samples = 1 ∷ 2 ∷ 3 ∷ 4 ∷ 5 ∷ 0x3ff ∷ 7 ∷ 8 ∷ 9 ∷ 0 ∷ 11 ∷ 12 ∷ 13 ∷ []

line_to_uyvy-uyvy_to_v210_example :
    (do
      words ← klvanc_uyvy_to_v210 thirteen_samples 13
      klvanc_v210_line_to_uyvy_c words (6 * (13 / 12)))
    ≡ ok (take (12 * (13 / 12)) thirteen_samples)
line_to_uyvy-uyvy_to_v210_example =
    line_to_uyvy-uyvy_to_v210 thirteen_samples 13 (omega arith) (omega arith)

generate_vanc_line_v210-line_words_example :
    ((length (line_words 720 0 (sort_entries line_nine.entries)) ≡ 0)
      × (klvanc_generate_vanc_line_v210 sort_entries (λ n. some (replicate n 0)) line_nine 720
          ≡ fault))
    ⊎ ((length (line_words 720 0 (sort_entries line_nine.entries)) ≢ 0)
        × ((r : Line × List ℕ) × (klvanc_generate_vanc_line_v210 sort_entries
                (λ n. some (replicate n 0))
                line_nine
                720
              ≡ ok r)
            × Unpacks 720 (line_words 720 0 (sort_entries line_nine.entries)) r.1))
generate_vanc_line_v210-line_words_example =
    generate_vanc_line_v210-line_words sort_entries (λ n. some (replicate n 0)) line_nine 720
      sort_entries-All (λ n. (replicate n 0, refl, length-replicate {A = ℕ} n 0)) (refl, tt)
      (unfold line_words is_sent are_legal in omega arith)
