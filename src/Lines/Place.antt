-- ===== src/Lines/Place.antt =====
-- The two loops of klvanc_generate_vanc_line over the entries of a line.
use libklvanc.Prelude.{
  ℕ, ◌+◌, ◌-◌, ◌≤◌, ◌≡◌, refl, sym, ap, ◌∙◌, List, [], ◌∷◌, ◌++◌, ok, Bool, true, false, ltb, ◌&&◌,
  not, if◌then◌else◌, length, length-append, length-drop, drop, take-append_left, take_all,
  drop-drop, drop-append_left, All, arith, inl, inr, Bool-cases,
}
use mathlib.Core.List.{append_assoc, append-nil}
use libklvanc.Payload.{copy_bytes}
use libklvanc.Packet.Parsing.{copy_bytes-take}
use libklvanc.Lines.{Entry, is_illegal, legal_words, place_entries, store_words, assemble_line}

-- An entry as klvanc_line_insert makes it.
abbrev pub IsWhole : Entry → Type 0
IsWhole e = e.pixel_width ≡ length e.payload

-- Whether no word is a value that is kept for synchronisation.
unfoldable pub are_legal : List ℕ → Bool
are_legal [] = true
are_legal (w ∷ words) = not (is_illegal w) && are_legal words

-- Whether an entry is sent behind `used` pixels: it is legal behind its start sequence, and fits.
unfoldable pub is_sent : ℕ → ℕ → Entry → Bool
is_sent line_width used e =
    are_legal (drop 3 e.payload) && not (ltb line_width (used + length e.payload))

-- The words of the line: those of the entries that are sent, one behind the other.
unfoldable pub line_words : ℕ → ℕ → List Entry → List ℕ
line_words line_width used [] = []
line_words line_width used (e ∷ entries) =
    if is_sent line_width used e
    then e.payload ++ line_words line_width (used + length e.payload) entries
    else line_words line_width used entries

legal_words-are_legal : (words : List ℕ) → legal_words (length words) words ≡ ok (are_legal words)
unfolding legal_words are_legal
legal_words-are_legal [] = refl
legal_words-are_legal (w ∷ words) = elim (Bool-cases (is_illegal w)) [
  | inl illegal ↦ rw (legal_words, illegal) refl
  | inr legal ↦ rw (legal_words, legal) (legal_words-are_legal words)
]

legal_whole :
    (e : Entry)
    → IsWhole e
    → legal_words (e.pixel_width - 3) (drop 3 e.payload) ≡ ok (are_legal (drop 3 e.payload))
legal_whole e h =
    let n : e.pixel_width - 3 ≡ length (drop 3 e.payload) =
      omega (arith, h, length-drop 3 e.payload) in
    rw n (legal_words-are_legal (drop 3 e.payload))

-- The entry after the first loop.
abbrev placed : ℕ → Entry → ℕ → Entry
placed used e kept = record e { h_offset = used; pixel_width = kept }

abbrev kept_width : ℕ → ℕ → Entry → ℕ
kept_width line_width used e = if is_sent line_width used e then length e.payload else 0

-- `pre` is what is stored so far.
abbrev PlacesRest : ℕ → ℕ → List Entry → Type 0
PlacesRest line_width used entries =
    (entries' : List Entry) × (place_entries line_width used entries
      ≡ ok (entries', used + length (line_words line_width used entries)))
    × ((pre rest : List ℕ)
        → length pre ≡ used
        → length (line_words line_width used entries) ≤ length rest
        → assemble_line (pre ++ rest) entries'
          ≡ ok (
              pre
              ++ line_words line_width used entries
              ++ drop (length (line_words line_width used entries)) rest))

store_behind :
    (pre rest words : List ℕ) (offset : ℕ)
    → length pre ≡ offset
    → length words ≤ length rest
    → store_words (pre ++ rest) offset words ≡ ok (pre ++ words ++ drop (length words) rest)
unfolding store_words
store_behind pre rest words offset e h =
    let fits : ltb (length (pre ++ rest)) (length pre + length words) ≡ false =
      ground (arith, length-append pre rest) in
    rw
      (
        ← e,
        fits,
        take-append_left pre rest,
        ← drop-drop (length pre) (length words) (pre ++ rest),
        drop-append_left pre rest,
      )
      refl

place-cons :
    (line_width used k total : ℕ) (e : Entry) (entries entries' : List Entry)
    → IsWhole e
    → (if ltb line_width (used + (if are_legal (drop 3 e.payload) then e.pixel_width else 0))
        then 0
        else (if are_legal (drop 3 e.payload) then e.pixel_width else 0))
      ≡ k
    → place_entries line_width (used + k) entries ≡ ok (entries', total)
    → place_entries line_width used (e ∷ entries) ≡ ok (placed used e k ∷ entries', total)
unfolding place_entries
place-cons line_width used k total e entries entries' h kept r =
    rw (place_entries, legal_whole e h, kept, r) refl

-- The width that the loop gives an entry is the one of what is sent of it.
kept_sent :
    (line_width used : ℕ) (e : Entry)
    → IsWhole e
    → used ≤ line_width
    → (if ltb line_width (used + (if are_legal (drop 3 e.payload) then e.pixel_width else 0))
        then 0
        else (if are_legal (drop 3 e.payload) then e.pixel_width else 0))
      ≡ kept_width line_width used e
unfolding is_sent
kept_sent line_width used e h l = elim (Bool-cases (are_legal (drop 3 e.payload))) [
  | inl legal ↦ rw (legal, h) (ground arith)
  | inr illegal ↦ rw (illegal) (ground arith)
]

assemble-cons :
    (pre rest words more : List ℕ) (used k : ℕ) (e : Entry) (entries : List Entry)
    → copy_bytes e.payload k ≡ ok words
    → length pre ≡ used
    → length words ≤ length rest
    → assemble_line ((pre ++ words) ++ drop (length words) rest) entries ≡ ok more
    → assemble_line (pre ++ rest) (placed used e k ∷ entries) ≡ ok more
unfolding assemble_line
assemble-cons pre rest words more used k e entries c l h r =
    rw (assemble_line, c, store_behind pre rest words used l h) r

assemble-nil : (pre rest : List ℕ) → assemble_line (pre ++ rest) [] ≡ ok (pre ++ [] ++ drop 0 rest)
unfolding assemble_line
assemble-nil pre rest = ap (λ (l : List ℕ). ok (l ++ rest)) (sym (append-nil pre))

fits_within :
    (line_width used : ℕ) (e : Entry)
    → is_sent line_width used e ≡ true
    → used + length e.payload ≤ line_width
unfolding is_sent
fits_within line_width used e sent = ground arith

pub line_words-fit :
    (line_width used : ℕ) (entries : List Entry)
    → used ≤ line_width
    → used + length (line_words line_width used entries) ≤ line_width
unfolding line_words
line_words-fit line_width used [] h = omega arith
line_words-fit line_width used (e ∷ entries) h = elim (Bool-cases (is_sent line_width used e)) [
  | inl sent ↦ rw sent (
      omega (
        arith,
        length-append e.payload (line_words line_width (used + length e.payload) entries),
        line_words-fit line_width (used + length e.payload) entries
            (fits_within line_width used e sent),
      ))
  | inr skipped ↦ rw skipped (line_words-fit line_width used entries h)
]

abbrev KeepsWidth : ℕ → ℕ → Entry → Type 0
KeepsWidth line_width used e =
    (if ltb line_width (used + (if are_legal (drop 3 e.payload) then e.pixel_width else 0))
      then 0
      else (if are_legal (drop 3 e.payload) then e.pixel_width else 0))
    ≡ kept_width line_width used e

sent_step :
    (line_width used : ℕ) (e : Entry) (entries : List Entry)
    → IsWhole e
    → KeepsWidth line_width used e
    → is_sent line_width used e ≡ true
    → PlacesRest line_width (used + length e.payload) entries
    → PlacesRest line_width used (e ∷ entries)
unfolding line_words
sent_step line_width used e entries w k sent (entries', p, a) =
    let ws : List ℕ = line_words line_width (used + length e.payload) entries in
    let l = length-append e.payload ws in
    let kept = rw sent at k in
    let copied : copy_bytes e.payload (length e.payload) ≡ ok e.payload =
      copy_bytes-take e.payload (length e.payload) (omega arith)
      ∙ ap ok (take_all (length e.payload) e.payload refl) in
    rw sent (
      placed used e (length e.payload) ∷ entries',
      place-cons line_width used (length e.payload) _ e entries entries' w kept p
          ∙ ap (λ n. ok (placed used e (length e.payload) ∷ entries', n)) (omega (arith, l)),
      λ pre rest n m.
          assemble-cons pre rest e.payload _ used (length e.payload) e entries' copied n
            (omega (arith, m, l))
            (a (pre ++ e.payload) (drop (length e.payload) rest)
                (omega (arith, n, length-append pre e.payload))
                (omega (arith, m, l, length-drop (length e.payload) rest))
              ∙ ap ok (
                  rw
                    (
                      append_assoc pre e.payload ws,
                      drop-drop (length e.payload) (length ws) rest,
                      l,
                    )
                    refl)),
    )

skipped_step :
    (line_width used : ℕ) (e : Entry) (entries : List Entry)
    → IsWhole e
    → KeepsWidth line_width used e
    → is_sent line_width used e ≡ false
    → PlacesRest line_width used entries
    → PlacesRest line_width used (e ∷ entries)
unfolding line_words
skipped_step line_width used e entries w k skipped (entries', p, a) =
    let kept = rw skipped at k in
    let z : used + 0 ≡ used = omega arith in
    rw skipped (
      placed used e 0 ∷ entries',
      place-cons line_width used 0 _ e entries entries' w kept (rw z p),
      λ pre rest n m.
          assemble-cons pre rest [] _ used 0 e entries' (unfold copy_bytes in refl) n (omega arith)
            (rw (append-nil pre) (a pre rest n m)),
    )

pub place_entries-line_words :
    (line_width used : ℕ) (entries : List Entry)
    → All IsWhole entries
    → used ≤ line_width
    → PlacesRest line_width used entries
unfolding line_words
place_entries-line_words line_width used [] w h = (
  [],
  unfold place_entries in ap (λ n. ok ([], n)) (omega arith),
  λ pre rest e l. assemble-nil pre rest,
)
place_entries-line_words line_width used (e ∷ entries) w h =
    let k = kept_sent line_width used e w.0 h in
    elim (Bool-cases (is_sent line_width used e)) [
      | inl sent ↦ sent_step line_width used e entries w.0 k sent (
          place_entries-line_words line_width (used + length e.payload) entries w.1
            (fits_within line_width used e sent))
      | inr skipped ↦
          skipped_step line_width used e entries w.0 k skipped
            (place_entries-line_words line_width used entries w.1 h)
    ]
