-- ===== src/Lines.antt =====
-- src/libklvanc/vanc-lines.h and src/core-lines.c: packets placed on the lines of a frame.
pub mod Insert
pub mod Place
pub mod Generate
pub mod Packed
use libklvanc.Pixels.{klvanc_y10_to_v210, klvanc_uyvy_to_v210}
use libklvanc.Prelude.{
  ℕ, zero, suc, ◌+◌, ◌-◌, ◌*◌, ◌≤◌, ◌<◌, ◌≡◌, List, [], ◌∷◌, ◌++◌, Outcome, ok, err, fault, enomem,
  ◌>>=◌, ◌>>◌, Bool, true, false, ltb, ◌==◌, ◌||◌, not, if◌then◌else◌, guard, assert, length, take,
  drop, Option, none, some, alloc_or,
}
use libklvanc.Payload.{copy_bytes}

-- `KLVANC_MAX_VANC_LINES`, `KLVANC_MAX_VANC_ENTRIES`
abbrev pub max_vanc_lines : ℕ
max_vanc_lines = 64

abbrev pub max_vanc_entries : ℕ
max_vanc_entries = 16

-- `struct klvanc_entry_s`; `payload` is the memory behind the pointer.
pub record Entry : Type 0 where
  pub h_offset : ℕ
  pub payload : List ℕ
  pub pixel_width : ℕ

-- `struct klvanc_line_s`: the entries up to `num_entries`.
pub record Line : Type 0 where
  pub line_number : ℕ
  pub entries : List Entry

-- `klvanc_line_create`
unfoldable pub klvanc_line_create : Bool → ℕ → Option Line
klvanc_line_create true line_number = some (record { line_number = line_number; entries = [] })
klvanc_line_create false line_number = none

-- The entry goes to the end of its line.
unfoldable pub add_entry : Line → Entry → Outcome Line
add_entry line new_entry =
    if length line.entries == max_vanc_entries
    then err enomem
    else ok (record line { entries = line.entries ++ new_entry ∷ [] })

-- The search for the line, over the slots that are left of the array of lines; those behind the lines
-- are null. A line that cannot be created is used all the same.
unfoldable pub insert_entry : Bool → ℕ → List Line → ℕ → Entry → Outcome (List Line)
unfolding add_entry klvanc_line_create
insert_entry line_ok zero lines number e = err enomem
insert_entry line_ok (suc slots) [] number e = elim (klvanc_line_create line_ok number) [
  | none ↦ fault
  | some line ↦ add_entry line e >>= (λ line'. ok (line' ∷ []))
]
insert_entry line_ok (suc slots) (line ∷ lines) number e = elim (line.line_number == number) [
  | true ↦ add_entry line e >>= (λ line'. ok (line' ∷ lines))
  | false ↦ insert_entry line_ok slots lines number e >>= (λ lines'. ok (line ∷ lines'))
]

-- `klvanc_line_insert`, on the lines of `struct klvanc_line_set_s` up to `num_lines`. Where it fails,
-- the set is as it was.
unfoldable pub klvanc_line_insert :
    Bool → Bool → Bool → List Line → List ℕ → ℕ → ℕ → ℕ → Outcome (List Line)
unfolding insert_entry
klvanc_line_insert entry_ok payload_ok line_ok lines pixels pixel_width line_number
      horizontal_offset =
    do
      guard entry_ok enomem
      guard payload_ok enomem
      payload ← copy_bytes pixels pixel_width
      insert_entry line_ok max_vanc_lines lines line_number
          (record { h_offset = horizontal_offset; payload = payload; pixel_width = pixel_width })

-- `payload[j] <= 0x0003 || payload[j] >= 0x03FC`
abbrev pub is_illegal : ℕ → Bool
is_illegal w = not (ltb 3 w) || not (ltb w 0x3fc)

-- The loop over the words of an entry: whether all `n` that are left are legal.
unfoldable pub legal_words : ℕ → List ℕ → Outcome Bool
legal_words zero words = ok true
legal_words (suc n) [] = fault
legal_words (suc n) (w ∷ words) = elim (is_illegal w) [
  | true ↦ ok false
  | false ↦ legal_words n words
]

-- The first loop over the entries, from `used` pixels on: offsets and widths, and the pixels used.
unfoldable pub place_entries : ℕ → ℕ → List Entry → Outcome (List Entry × ℕ)
unfolding legal_words
place_entries line_width used [] = ok ([], used)
place_entries line_width used (e ∷ entries) = do
  legal ← legal_words (e.pixel_width - 3) (drop 3 e.payload)
  let width = if legal then e.pixel_width else 0
  let kept = if ltb line_width (used + width) then 0 else width
  (placed, total) ← place_entries line_width (used + kept) entries
  ok (record e { h_offset = used; pixel_width = kept } ∷ placed, total)

-- `memcpy` of one entry into the line, and the loop.
unfoldable pub store_words : List ℕ → ℕ → List ℕ → Outcome (List ℕ)
store_words buf offset words =
    if ltb (length buf) (offset + length words)
    then fault
    else ok (take offset buf ++ words ++ drop (offset + length words) buf)

unfoldable pub assemble_line : List ℕ → List Entry → Outcome (List ℕ)
unfolding store_words
assemble_line buf [] = ok buf
assemble_line buf (e ∷ entries) = do
  words ← copy_bytes e.payload e.pixel_width
  buf ← store_words buf e.h_offset words
  assemble_line buf entries

-- From the `malloc` on.
unfoldable pub output_line : (ℕ → Option (List ℕ)) → List Entry → ℕ → Outcome (Option (List ℕ))
unfolding assemble_line
output_line malloc entries used = elim (used == 0) [
  | true ↦ ok none
  | false ↦ do buf ← alloc_or enomem (malloc used); out ← assemble_line buf entries; ok (some out)
]

-- `klvanc_generate_vanc_line`: `qsort` is the sorting of the C library by vanc_ent_comp, `malloc n`
-- gives the `n` words of the line. The line is changed; where no pixel is used there is no output.
unfoldable pub klvanc_generate_vanc_line :
    (List Entry → List Entry) → (ℕ → Option (List ℕ)) → Line → ℕ → Outcome (Line × Option (List ℕ))
unfolding place_entries output_line
klvanc_generate_vanc_line qsort malloc line line_pixel_width = do
  (entries, used) ← place_entries line_pixel_width 0 (qsort line.entries)
  out ← output_line malloc entries used
  ok (record line { entries = entries }, out)

-- The buffer that is packed: it was never set where there is no output.
abbrev pub packed : ℕ → Option (List ℕ) → Outcome (List ℕ)
packed line_pixel_width none = fault
packed line_pixel_width (some out) =
    if ltb 720 line_pixel_width
    then klvanc_y10_to_v210 out (length out)
    else klvanc_uyvy_to_v210 out (length out)

abbrev no_memory {ℓ} : {A : Type ℓ} → Outcome A → Outcome A
no_memory (ok a) = ok a
no_memory (err e) = err enomem
no_memory fault = fault

-- `klvanc_generate_vanc_line_v210`
unfoldable pub klvanc_generate_vanc_line_v210 :
    (List Entry → List Entry) → (ℕ → Option (List ℕ)) → Line → ℕ → Outcome (Line × List ℕ)
klvanc_generate_vanc_line_v210 qsort malloc line line_pixel_width = do
  (line', out) ← no_memory (klvanc_generate_vanc_line qsort malloc line line_pixel_width)
  words ← packed line_pixel_width out
  ok (line', words)
