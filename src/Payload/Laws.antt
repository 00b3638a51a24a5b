-- ===== src/Payload/Laws.antt =====
-- The packet that klvanc_sdi_create_payload builds.
use libklvanc.Prelude.{
  ℕ, ◌+◌, ◌%◌, ◌/◌, ◌*◌, ◌^◌, zero, suc, ◌<◌, ◌≡◌, ◌≢◌, refl, ap, ◌∙◌, List, [], ◌∷◌, ◌++◌, ok, map,
  length, length-map, arith, true, false, some, Bool-cases, inl, inr, ◌==◌, if◌then◌else◌,
}
use native.Mathlib.Nat.{pow-suc}
use libklvanc.Word.{parity, builtin_parity, parity-lt}
use libklvanc.Checksum.{checksum_loop}
use libklvanc.Checksum.Laws.{checksum_word, checksum_loop-sum, sum}
use mathlib.Core.Path.{subst}
use mathlib.Core.List.{append-nil}
use libklvanc.Payload.{copy_bytes, generate_parity, assemble, klvanc_sdi_create_payload}

pub copy_bytes-all : (src rest : List ℕ) → copy_bytes (src ++ rest) (length src) ≡ ok src
unfolding copy_bytes
copy_bytes-all [] rest = refl
copy_bytes-all (b ∷ src) rest = rw (copy_bytes-all src rest)

-- The words that the checksum covers.
abbrev pub body : ℕ → ℕ → List ℕ → List ℕ
body did sdid src = map generate_parity (did ∷ sdid ∷ length src ∷ src)

-- A byte keeps its value in the lowest eight bits, under one parity bit of two.
pub generate_parity_byte :
    (w : ℕ) → w < 256 → generate_parity w ≡ w + (if parity 32 w == 1 then 256 else 512)
unfolding generate_parity
generate_parity_byte w h = ground arith

body_checksum :
    (did sdid : ℕ) (src : List ℕ)
    → checksum_loop 0 (body did sdid src) (length src + 3) ≡ ok (sum (body did sdid src) % 512)
body_checksum did sdid src =
    let n : length src + 3 ≡ length (body did sdid src) =
      omega (arith, length-map src generate_parity) in
    rw n (
      subst
        (λ (l : List ℕ).
          checksum_loop 0 l (length (body did sdid src)) ≡ ok (sum (body did sdid src) % 512))
        (append-nil (body did sdid src))
        (checksum_loop-sum 0 (body did sdid src) [] (omega arith) ∙ ap ok (omega arith)))

assemble_lem :
    (sdid did : ℕ) (src rest : List ℕ)
    → assemble true sdid did (some (src ++ rest)) (length src)
      ≡ ok (0 ∷ 0x3ff ∷ 0x3ff ∷ body did sdid src ++ checksum_word (body did sdid src) ∷ [])
unfolding assemble checksum_word
assemble_lem sdid did src rest = rw (copy_bytes-all src rest, body_checksum did sdid src)

-- klvanc_sdi_create_payload, given a 10-bit depth, identifiers other than 0 and a payload that is not
-- empty, returns the start sequence, the identifiers, the count and the payload with parity bits, and
-- the checksum word of these.
pub create_payload_lem :
    (sdid did : ℕ) (src rest : List ℕ)
    → sdid ≢ 0
    → did ≢ 0
    → length src ≢ 0
    → klvanc_sdi_create_payload true sdid did (some (src ++ rest)) (length src) 10
      ≡ ok (0 ∷ 0x3ff ∷ 0x3ff ∷ body did sdid src ++ checksum_word (body did sdid src) ∷ [])
unfolding klvanc_sdi_create_payload
create_payload_lem sdid did src rest h k l =
    let e1 : (sdid == 0) ≡ false = ground arith in
    let e2 : (did == 0) ≡ false = ground arith in
    let e3 : (length src == 0) ≡ false = ground arith in
    rw (e1, e2, e3) (assemble_lem sdid did src rest)

pub create_payload-exact :
    (sdid did : ℕ) (src : List ℕ)
    → sdid ≢ 0
    → did ≢ 0
    → length src ≢ 0
    → klvanc_sdi_create_payload true sdid did (some src) (length src) 10
      ≡ ok (0 ∷ 0x3ff ∷ 0x3ff ∷ body did sdid src ++ checksum_word (body did sdid src) ∷ [])
create_payload-exact sdid did src h k l =
    subst
      (λ (s : List ℕ).
        klvanc_sdi_create_payload true sdid did (some s) (length src) 10
        ≡ ok (0 ∷ 0x3ff ∷ 0x3ff ∷ body did sdid src ++ checksum_word (body did sdid src) ∷ []))
      (append-nil src) (create_payload_lem sdid did src [] h k l)

parity_split :
    (k n w b : ℕ) → w < 2 ^ k → parity (k + n) (w + 2 ^ k * b) ≡ (parity k w + parity n b) % 2
unfolding parity
parity_split zero n w b h =
    let e : w + 2 ^ 0 * b ≡ b = omega arith in
    let f : 0 + n ≡ n = omega arith in rw (e, f) (omega (arith, parity-lt n b))
parity_split (suc k) n w b h =
    let d : 2 ^ suc k * b ≡ 2 * (2 ^ k * b) = omega (arith, ap (λ (t : ℕ). t * b) (pow-suc 2 k)) in
    let small : w / 2 < 2 ^ k = omega (arith, pow-suc 2 k) in
    let e : (w + 2 ^ suc k * b) / 2 ≡ w / 2 + 2 ^ k * b = omega (arith, d) in
    let f : (w + 2 ^ suc k * b) % 2 ≡ w % 2 = omega (arith, d) in
    let c : suc k + n ≡ suc (k + n) = omega arith in
    let rec : parity (k + n) (w / 2 + 2 ^ k * b) ≡ (parity k (w / 2) + parity n b) % 2 =
      parity_split k n (w / 2) b small in
    rw c (rw (e, f) (omega (arith, rec)))

-- A byte with its parity bits: the lowest eight bits are the byte, the lowest nine have even parity,
-- and bit 9 is the inverse of bit 8.
pub generate_parity_even :
    (w : ℕ)
    → w < 256
    → (generate_parity w % 256 ≡ w)
      × (builtin_parity (generate_parity w % 512) ≡ 0)
      × (generate_parity w / 512 + generate_parity w / 256 % 2 ≡ 1)
generate_parity_even w h =
    let zeros : parity 24 0 ≡ 0 = unfold parity in refl in
    let one : parity 24 1 ≡ 1 = unfold parity in refl in
    let low : (b : ℕ) → parity 32 (w + 256 * b) ≡ (parity 8 w + parity 24 b) % 2 =
      λ b. parity_split 8 24 w b h in
    (
      ground (arith, generate_parity_byte w h),
      elim (Bool-cases (parity 32 w == 1)) [
        | inl odd ↦
            let e : generate_parity w % 512 ≡ w + 256 * 1 =
              ground (arith, generate_parity_byte w h) in
            let z : w ≡ w + 256 * 0 = omega arith in
            rw e (ground (arith, low 1, ap (parity 32) z ∙ low 0, zeros, one, odd))
        | inr even ↦
            let e : generate_parity w % 512 ≡ w = ground (arith, generate_parity_byte w h) in
            rw e (ground (arith, even, parity-lt 32 w))
      ],
      ground (arith, generate_parity_byte w h),
    )
