-- ===== src/Pixels/Planar.antt =====
-- Luma samples that are packed, and unpacked into planes.
use libklvanc.Prelude.{
  ℕ, zero, suc, ◌+◌, ◌*◌, ◌/◌, ◌%◌, ◌^◌, ◌≤◌, ◌<◌, ◌≡◌, refl, sym, ap, ◌∙◌, List, [], ◌∷◌, ◌++◌, ok,
  ◌>>=◌, length, length-drop, take, drop, All, take-All, length-take, take-append-drop, arith,
}
use native.Mathlib.Nat.{pow-suc}
use libklvanc.Packet.Parsing.{copy_bytes-take}
use libklvanc.Pixels.{
  or_bits, pack, low, middle, high, y10_groups, y10_rest, klvanc_y10_to_v210, planar_groups,
  klvanc_v210_planar_unpack_c,
}

or_bits-zero : (n b : ℕ) → b < 2 ^ n → or_bits n 0 b ≡ b
unfolding or_bits
or_bits-zero zero b h = omega arith
or_bits-zero (suc n) b h = ground (arith, or_bits-zero n (b / 2) (omega (arith, pow-suc 2 n)))

-- A number that starts where the other ends.
or_bits-disjoint :
    (k n a c : ℕ) → a < 2 ^ k → a + c * 2 ^ k < 2 ^ n → or_bits n a (c * 2 ^ k) ≡ a + c * 2 ^ k
unfolding or_bits
or_bits-disjoint zero n a c h l =
    let z : a ≡ 0 = omega arith in rw z (or_bits-zero n (c * 2 ^ 0) (omega arith) ∙ omega arith)
or_bits-disjoint (suc k) zero a c h l = omega arith
or_bits-disjoint (suc k) (suc n) a c h l =
    let e : c * 2 ^ suc k ≡ 2 * (c * 2 ^ k) = omega (arith, ap (λ t. c * t) (pow-suc 2 k)) in
    ground (
      arith,
      e,
      or_bits-disjoint k n (a / 2) c (omega (arith, pow-suc 2 k)) (omega (arith, e, pow-suc 2 n)),
    )

abbrev pub IsSample : ℕ → Type 0
IsSample w = w < 1024

pack_sum : (a b c : ℕ) → a < 1024 → b < 1024 → c < 1024 → pack a b c ≡ a + b * 2 ^ 10 + c * 2 ^ 20
unfolding pack
pack_sum a b c h k l =
    let low_part : or_bits 32 a (b * 2 ^ 10) ≡ a + b * 2 ^ 10 =
      or_bits-disjoint 10 32 a b (omega arith) (omega arith) in
    rw low_part (or_bits-disjoint 20 32 (a + b * 2 ^ 10) c (omega arith) (omega arith))

module _ (a b c : ℕ) (h : a < 1024) (k : b < 1024) (l : c < 1024) where
  pub low-pack : low (pack a b c) ≡ a
  low-pack = rw (pack_sum a b c h k l) (omega arith)

  pub middle-pack : middle (pack a b c) ≡ b
  middle-pack = rw (pack_sum a b c h k l) (omega arith)

  pub high-pack : high (pack a b c) ≡ c
  high-pack = rw (pack_sum a b c h k l) (omega arith)

-- The samples of a plane of chroma without colour, for `n` groups.
unfoldable pub grey : ℕ → List ℕ
grey zero = []
grey (suc n) = 0x200 ∷ 0x200 ∷ 0x200 ∷ grey n

abbrev Unpacked : ℕ → List ℕ → List ℕ → Type 0
Unpacked n front left =
    (words : List ℕ) × (y10_groups n (front ++ left) ≡ ok (words, left))
    × ((more : List ℕ)
        → planar_groups n (words ++ more) ≡ ok (record { y = front; u = grey n; v = grey n }))

one_group :
    (n a b c d e f : ℕ) (front left : List ℕ)
    → All IsSample (a ∷ b ∷ c ∷ d ∷ e ∷ f ∷ [])
    → Unpacked n front left
    → Unpacked (suc n) (a ∷ b ∷ c ∷ d ∷ e ∷ f ∷ front) left
unfolding y10_groups planar_groups grey
one_group n a b c d e f front left (ha, (hb, (hc, (hd, (he, (hf, _)))))) (words, p, u) =
    let g : 0x200 < 1024 = omega arith in
    (
      pack 0x200 a 0x200 ∷ pack b 0x200 c ∷ pack 0x200 d 0x200 ∷ pack e 0x200 f ∷ words,
      rw p refl,
      λ more. rw (u more) (
          rw
            (
              low-pack 0x200 a 0x200 g ha g,
              middle-pack 0x200 a 0x200 g ha g,
              high-pack 0x200 a 0x200 g ha g,
            )
            (rw
              (
                low-pack b 0x200 c hb g hc,
                middle-pack b 0x200 c hb g hc,
                high-pack b 0x200 c hb g hc,
              )
              (rw
                (
                  low-pack 0x200 d 0x200 g hd g,
                  middle-pack 0x200 d 0x200 g hd g,
                  high-pack 0x200 d 0x200 g hd g,
                )
                (rw
                  (
                    low-pack e 0x200 f he g hf,
                    middle-pack e 0x200 f he g hf,
                    high-pack e 0x200 f he g hf,
                  )
                  refl)))),
    )

unpack_groups :
    (n : ℕ) (front left : List ℕ)
    → length front ≡ 6 * n
    → All IsSample front
    → Unpacked n front left
unpack_groups zero [] left h a =
    ([], unfold y10_groups in refl, λ more. unfold planar_groups grey in refl)
unpack_groups zero (x ∷ front) left h a = absurd (omega arith)
unpack_groups (suc n) (a ∷ b ∷ c ∷ d ∷ e ∷ f ∷ front) left h (ha, (hb, (hc, (hd, (he, (hf, r)))))) =
    one_group n a b c d e f front left (ha, (hb, (hc, (hd, (he, (hf, tt))))))
      (unpack_groups n front left (omega arith) r)
unpack_groups (suc n) [] left h a = absurd (omega (arith, h))
unpack_groups (suc n) (_ ∷ []) left h a = absurd (omega (arith, h))
unpack_groups (suc n) (_ ∷ _ ∷ []) left h a = absurd (omega (arith, h))
unpack_groups (suc n) (_ ∷ _ ∷ _ ∷ []) left h a = absurd (omega (arith, h))
unpack_groups (suc n) (_ ∷ _ ∷ _ ∷ _ ∷ []) left h a = absurd (omega (arith, h))
unpack_groups (suc n) (_ ∷ _ ∷ _ ∷ _ ∷ _ ∷ []) left h a = absurd (omega (arith, h))

-- Samples of ten bits that klvanc_y10_to_v210 packs are unpacked by klvanc_v210_planar_unpack_c: the
-- plane of luma holds the samples of the whole groups of six, those of chroma are grey.
pub planar_unpack-y10_to_v210 :
    (src : List ℕ) (width : ℕ)
    → All IsSample src
    → width ≤ length src
    → (do words ← klvanc_y10_to_v210 src width; klvanc_v210_planar_unpack_c words width)
      ≡ ok (record { y = take (6 * (width / 6)) src; u = grey (width / 6); v = grey (width / 6) })
unfolding klvanc_y10_to_v210 klvanc_v210_planar_unpack_c
planar_unpack-y10_to_v210 src width a h =
    let m : ℕ = 6 * (width / 6) in
    let (words, p, u) =
      unpack_groups (width / 6) (take m src) (drop m src) (length-take m src (omega arith))
        (take-All IsSample m src a) in
    let copied = copy_bytes-take (drop m src) (width % 6) (omega (arith, length-drop m src)) in
    let grouped : y10_groups (width / 6) src ≡ ok (words, drop m src) =
      ap (y10_groups (width / 6)) (sym (take-append-drop m src)) ∙ p in
    rw (grouped, copied) (u (y10_rest (take (width % 6) (drop m src))))
