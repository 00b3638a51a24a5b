-- ===== src/Pixels/Repack.antt =====
-- Samples of a line that are packed by klvanc_uyvy_to_v210, and unpacked in the same order.
use libklvanc.Prelude.{
  ℕ, zero, suc, ◌+◌, ◌*◌, ◌/◌, ◌%◌, ◌≤◌, ◌≡◌, refl, sym, ap, ◌∙◌, List, [], ◌∷◌, ◌++◌, ok, ◌>>=◌,
  length, length-drop, take, drop, All, take-All, length-take, take-append-drop, arith,
}
use libklvanc.Packet.Parsing.{copy_bytes-take}
use libklvanc.Pixels.{
  pack, put_words, read_words, uyvy_rest, klvanc_uyvy_to_v210, klvanc_v210_line_to_uyvy_c,
}
use libklvanc.Pixels.Planar.{IsSample, low-pack, middle-pack, high-pack}

abbrev Repacked : ℕ → List ℕ → List ℕ → Type 0
Repacked n front left =
    (words : List ℕ) × (put_words n (front ++ left) ≡ ok (words, left))
    × ((more : List ℕ) → read_words n (words ++ more) ≡ ok front)

one_word :
    (n a b c : ℕ) (front left : List ℕ)
    → All IsSample (a ∷ b ∷ c ∷ [])
    → Repacked n front left
    → Repacked (suc n) (a ∷ b ∷ c ∷ front) left
unfolding put_words read_words
one_word n a b c front left (ha, (hb, (hc, _))) (words, p, u) = (
  pack a b c ∷ words,
  rw p refl,
  λ more.
      rw (u more)
        (rw (low-pack a b c ha hb hc, middle-pack a b c ha hb hc, high-pack a b c ha hb hc) refl),
)

repack :
    (n : ℕ) (front left : List ℕ)
    → length front ≡ 3 * n
    → All IsSample front
    → Repacked n front left
repack zero [] left h a = ([], unfold put_words in refl, λ more. unfold read_words in refl)
repack zero (x ∷ front) left h a = absurd (omega arith)
repack (suc n) (a ∷ b ∷ c ∷ front) left h (ha, (hb, (hc, r))) =
    one_word n a b c front left (ha, (hb, (hc, tt))) (repack n front left (omega arith) r)
repack (suc n) [] left h a = absurd (omega (arith, h))
repack (suc n) (_ ∷ []) left h a = absurd (omega (arith, h))
repack (suc n) (_ ∷ _ ∷ []) left h a = absurd (omega (arith, h))

-- Samples of ten bits that klvanc_uyvy_to_v210 packs are unpacked in their order by
-- klvanc_v210_line_to_uyvy_c, as far as they make whole groups of twelve.
pub line_to_uyvy-uyvy_to_v210 :
    (src : List ℕ) (width : ℕ)
    → All IsSample src
    → width ≤ length src
    → (do
      words ← klvanc_uyvy_to_v210 src width
      klvanc_v210_line_to_uyvy_c words (6 * (width / 12)))
      ≡ ok (take (12 * (width / 12)) src)
unfolding klvanc_uyvy_to_v210 klvanc_v210_line_to_uyvy_c
line_to_uyvy-uyvy_to_v210 src width a h =
    let m : ℕ = 12 * (width / 12) in
    let n : ℕ = 4 * (width / 12) in
    let (words, p, u) =
      repack n (take m src) (drop m src) (length-take m src (omega arith) ∙ omega arith)
        (take-All IsSample m src a) in
    let copied = copy_bytes-take (drop m src) (width % 12) (omega (arith, length-drop m src)) in
    let grouped : put_words n src ≡ ok (words, drop m src) =
      ap (put_words n) (sym (take-append-drop m src)) ∙ p in
    let rounds : 4 * ((6 * (width / 12) + 5) / 6) ≡ n = omega arith in
    rw (grouped, copied, rounds) (u (uyvy_rest 0x040 0x200 (take (width % 12) (drop m src))))
