-- ===== src/Lines/Insert.antt =====
-- klvanc_line_insert keeps a set of lines well formed.
use libklvanc.Prelude.{
  ℕ, zero, suc, ◌+◌, ◌≤◌, ◌<◌, ◌≡◌, ◌≢◌, refl, sym, List, [], ◌∷◌, ◌++◌, ok, err, enomem, Bool,
  true, false, ◌==◌, if◌then◌else◌, length, length-append, length-take, take, All, All-append,
  arith, inl, inr, ◌⊎◌, Bool-cases,
}
use libklvanc.Packet.Parsing.{copy_bytes-take}
use libklvanc.Lines.{
  Entry, Line, max_vanc_lines, max_vanc_entries, add_entry, insert_entry, klvanc_line_insert,
}
use libklvanc.Lines.Place.{IsWhole}

-- A line with at most 16 entries, each with as many words as it says.
abbrev pub IsLine : Line → Type 0
IsLine line = (length line.entries ≤ max_vanc_entries) × All IsWhole line.entries

abbrev pub IsLineSet : List Line → Type 0
IsLineSet lines = (length lines ≤ max_vanc_lines) × All IsLine lines

-- The entries of the line with a number.
unfoldable pub entries_at : List Line → ℕ → List Entry
entries_at [] number = []
entries_at (line ∷ lines) number =
    if line.line_number == number then line.entries else entries_at lines number

add_entry-room :
    (line : Line) (e : Entry)
    → length line.entries < max_vanc_entries
    → add_entry line e ≡ ok (record line { entries = line.entries ++ e ∷ [] })
unfolding add_entry
add_entry-room line e h =
    let room : (length line.entries == max_vanc_entries) ≡ false = ground arith in rw room refl

IsLine-add :
    (line : Line) (e : Entry)
    → IsLine line
    → IsWhole e
    → length line.entries < max_vanc_entries
    → IsLine (record line { entries = line.entries ++ e ∷ [] })
IsLine-add line e (h, a) w r = (
  omega (arith, length-append line.entries (e ∷ [])),
  All-append IsWhole line.entries (e ∷ []) a (w, tt),
)

-- What the insertion makes of the lines.
pub record Inserted (lines : List Line) (number : ℕ) (e : Entry) (lines' : List Line) : Type 0 where
  pub added : entries_at lines' number ≡ entries_at lines number ++ e ∷ []
  pub kept : (m : ℕ) → m ≢ number → entries_at lines' m ≡ entries_at lines m
  pub all_lines : All IsLine lines'
  pub not_shorter : length lines ≤ length lines'
  pub one_more : length lines' ≤ length lines + 1

other_line : (m number : ℕ) → m ≢ number → (number == m) ≡ false
other_line m number h = ground arith

same_line : (number : ℕ) → (number == number) ≡ true
same_line number = ground arith

new_line :
    (number : ℕ) (e : Entry)
    → IsWhole e
    → Inserted [] number e (record { line_number = number; entries = e ∷ [] } ∷ [])
unfolding entries_at
new_line number e w = record {
  added = rw (same_line number) refl;
  kept = λ m h. rw (other_line m number h) refl;
  all_lines = ((omega arith, (w, tt)), tt);
  not_shorter = omega arith;
  one_more = omega arith;
}

module _ (line : Line) (lines : List Line) (number : ℕ) (e : Entry) (i : IsLine line)
    (all : All IsLine lines) where
  this_line :
      IsWhole e
      → (line.line_number == number) ≡ true
      → length line.entries < max_vanc_entries
      → Inserted (line ∷ lines) number e (record line { entries = line.entries ++ e ∷ [] } ∷ lines)
  unfolding entries_at
  this_line w here r = record {
    added = rw here refl;
    kept = λ m h.
        let there : (line.line_number == m) ≡ false = ground (arith, here, h) in rw there refl;
    all_lines = (IsLine-add line e i w r, all);
    not_shorter = omega arith;
    one_more = omega arith;
  }

  later_line :
      (lines' : List Line)
      → (line.line_number == number) ≡ false
      → Inserted lines number e lines'
      → Inserted (line ∷ lines) number e (line ∷ lines')
  unfolding entries_at
  later_line lines' other r = record {
    added = rw other r.added;
    kept = λ m h. elim (Bool-cases (line.line_number == m)) [
      | inl here ↦ rw here refl
      | inr there ↦ rw there (r.kept m h)
    ];
    all_lines = (i, r.all_lines);
    not_shorter = omega (arith, r.not_shorter);
    one_more = omega (arith, r.one_more);
  }

insert_here :
    (slots : ℕ) (line : Line) (lines : List Line) (number : ℕ) (e : Entry)
    → (line.line_number == number) ≡ true
    → length line.entries < max_vanc_entries
    → insert_entry true (suc slots) (line ∷ lines) number e
      ≡ ok (record line { entries = line.entries ++ e ∷ [] } ∷ lines)
unfolding insert_entry
insert_here slots line lines number e here room =
    rw (insert_entry, here, add_entry-room line e room) refl

insert_later :
    (slots : ℕ) (line : Line) (lines : List Line) (number : ℕ) (e : Entry) {lines' : List Line}
    → (line.line_number == number) ≡ false
    → insert_entry true slots lines number e ≡ ok lines'
    → insert_entry true (suc slots) (line ∷ lines) number e ≡ ok (line ∷ lines')
unfolding insert_entry
insert_later slots line lines number e other eq = rw (insert_entry, other, eq) refl

insert_first :
    (slots : ℕ) (number : ℕ) (e : Entry)
    → insert_entry true (suc slots) [] number e
      ≡ ok (record { line_number = number; entries = e ∷ [] } ∷ [])
unfolding insert_entry
insert_first slots number e = refl

insert_entry-Inserted :
    (slots : ℕ) (lines : List Line) (number : ℕ) (e : Entry)
    → length lines < slots
    → All IsLine lines
    → IsWhole e
    → length (entries_at lines number) < max_vanc_entries
    → (lines' : List Line) × (insert_entry true slots lines number e ≡ ok lines')
      × Inserted lines number e lines'
unfolding entries_at
insert_entry-Inserted zero lines number e h a w r = absurd (omega arith)
insert_entry-Inserted (suc slots) [] number e h a w r =
    (_, insert_first slots number e, new_line number e w)
insert_entry-Inserted (suc slots) (line ∷ lines) number e h a w r =
    elim (Bool-cases (line.line_number == number)) [
      | inl here ↦
          let room = rw here at r in
          (
            _,
            insert_here slots line lines number e here room,
            this_line line lines number e a.0 a.1 w here room,
          )
      | inr other ↦
          let (lines', eq, i) =
            insert_entry-Inserted slots lines number e (omega arith) a.1 w (rw other at r) in
          (
            line ∷ lines',
            insert_later slots line lines number e other eq,
            later_line line lines number e a.0 a.1 lines' other i,
          )
    ]

abbrev new_entry : List ℕ → ℕ → ℕ → Entry
new_entry pixels width offset = record {
  h_offset = offset;
  payload = take width pixels;
  pixel_width = width;
}

-- Given memory, and room in the table of lines and in the line itself, klvanc_line_insert puts a copy of
-- the pixels behind the entries of the line with the number and leaves the other lines alone; the set
-- stays well formed: at most 64 lines, with at most 16 entries of as many words as they say.
pub line_insert-IsLineSet :
    (lines : List Line) (pixels : List ℕ) (width number offset : ℕ)
    → IsLineSet lines
    → width ≤ length pixels
    → length lines < max_vanc_lines
    → length (entries_at lines number) < max_vanc_entries
    → (lines' : List Line) × (klvanc_line_insert true true true lines pixels width number offset
        ≡ ok lines')
      × Inserted lines number
          (record { h_offset = offset; payload = take width pixels; pixel_width = width })
          lines'
      × IsLineSet lines'
unfolding klvanc_line_insert
line_insert-IsLineSet lines pixels width number offset s h room r =
    let e : Entry = new_entry pixels width offset in
    let (lines', eq, i) =
      insert_entry-Inserted max_vanc_lines lines number e room s.1
        (sym (length-take width pixels h)) r in
    (lines', rw (copy_bytes-take pixels width h) eq, i, (omega (arith, i.one_more), i.all_lines))

add_entry-full :
    (line : Line) (e : Entry)
    → length line.entries ≡ max_vanc_entries
    → add_entry line e ≡ err enomem
unfolding add_entry
add_entry-full line e h =
    let full : (length line.entries == max_vanc_entries) ≡ true = ground arith in rw full refl

insert_entry-full_line :
    (line_ok : Bool) (slots : ℕ) (lines : List Line) (number : ℕ) (e : Entry)
    → length (entries_at lines number) ≡ max_vanc_entries
    → insert_entry line_ok slots lines number e ≡ err enomem
unfolding entries_at insert_entry
insert_entry-full_line line_ok zero lines number e h = refl
insert_entry-full_line line_ok (suc slots) [] number e h = absurd (omega (arith, h))
insert_entry-full_line line_ok (suc slots) (line ∷ lines) number e h =
    elim (Bool-cases (line.line_number == number)) [
      | inl here ↦ rw (insert_entry, here, add_entry-full line e (rw here at h)) refl
      | inr other ↦
          rw
            (
              insert_entry,
              other,
              insert_entry-full_line line_ok slots lines number e (rw other at h),
            )
            refl
    ]

insert_entry-full_table :
    (line_ok : Bool) (slots : ℕ) (lines : List Line) (number : ℕ) (e : Entry)
    → length lines ≡ slots
    → All (λ line. line.line_number ≢ number) lines
    → insert_entry line_ok slots lines number e ≡ err enomem
unfolding insert_entry
insert_entry-full_table line_ok zero lines number e h a = refl
insert_entry-full_table line_ok (suc slots) [] number e h a = absurd (omega (arith, h))
insert_entry-full_table line_ok (suc slots) (line ∷ lines) number e h a =
    let other : (line.line_number == number) ≡ false =
      other_line number line.line_number (λ q. a.0 (sym q)) in
    rw (insert_entry, other, insert_entry-full_table line_ok slots lines number e (omega arith) a.1)
      refl

-- Where the line with the number has 16 entries, or there are 64 lines and none of them has the number,
-- klvanc_line_insert returns -ENOMEM, whatever the allocator answers.
pub line_insert-full :
    (entry_ok payload_ok line_ok : Bool) (lines : List Line) (pixels : List ℕ)
    (width number offset : ℕ)
    → width ≤ length pixels
    → (length (entries_at lines number) ≡ max_vanc_entries)
      ⊎ ((length lines ≡ max_vanc_lines) × All (λ line. line.line_number ≢ number) lines)
    → klvanc_line_insert entry_ok payload_ok line_ok lines pixels width number offset ≡ err enomem
unfolding klvanc_line_insert
line_insert-full false payload_ok line_ok lines pixels width number offset h full = refl
line_insert-full true false line_ok lines pixels width number offset h full = refl
line_insert-full true true line_ok lines pixels width number offset h full =
    let e : Entry = new_entry pixels width offset in
    rw (copy_bytes-take pixels width h) (elim full [
      | inl line ↦ insert_entry-full_line line_ok max_vanc_lines lines number e line
      | inr (table, others) ↦
          insert_entry-full_table line_ok max_vanc_lines lines number e table others
    ])
