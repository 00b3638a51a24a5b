-- ===== src/Pixels.antt =====
-- src/core-pixels.c: ten-bit samples packed into the 32-bit words of v210.
pub mod Planar
pub mod Repack
use libklvanc.Prelude.{
  ℕ, zero, suc, ◌+◌, ◌-◌, ◌*◌, ◌/◌, ◌%◌, ◌^◌, List, [], ◌∷◌, ◌++◌, Outcome, ok, fault, ◌>>=◌, ◌>>◌,
  Bool, true, false, not, ltb, guard, err, Error, failed, ◌==◌, ◌&&◌, if◌then◌else◌, map,
}
use libklvanc.Payload.{copy_bytes}

-- `a | b` on the lowest `n` bits.
unfoldable pub or_bits : ℕ → ℕ → ℕ → ℕ
or_bits zero a b = 0
or_bits (suc n) a b =
    (if (a % 2 == 0) && (b % 2 == 0) then 0 else 1) + 2 * or_bits n (a / 2) (b / 2)

-- `a | (b << 10) | (c << 20)`, on 32 bits.
unfoldable pub pack : ℕ → ℕ → ℕ → ℕ
unfolding or_bits
pack a b c = or_bits 32 (or_bits 32 a (b * 2 ^ 10)) (c * 2 ^ 20)

-- `READ_PIXELS`: the three samples of a word.
abbrev pub low : ℕ → ℕ
low val = val % 1024

abbrev pub middle : ℕ → ℕ
middle val = val / 2 ^ 10 % 1024

abbrev pub high : ℕ → ℕ
high val = val / 2 ^ 20 % 1024

-- The whole groups of six samples; the words go to `dst`, the samples that are left are the rest.
unfoldable pub y10_groups : ℕ → List ℕ → Outcome (List ℕ × List ℕ)
unfolding pack
y10_groups zero src = ok ([], src)
y10_groups (suc n) (a ∷ b ∷ c ∷ d ∷ e ∷ f ∷ src) = y10_groups n src >>= (λ r.
    ok (pack 0x200 a 0x200 ∷ pack b 0x200 c ∷ pack 0x200 d 0x200 ∷ pack e 0x200 f ∷ r.0, r.1))
y10_groups (suc n) _ = fault

-- The words for the samples that are left, fewer than six.
unfoldable pub y10_rest : List ℕ → List ℕ
unfolding pack
y10_rest (a ∷ []) = pack 0x200 a 0x200 ∷ []
y10_rest (a ∷ b ∷ []) = pack 0x200 a 0x200 ∷ pack b 0x200 0x040 ∷ []
y10_rest (a ∷ b ∷ c ∷ []) = pack 0x200 a 0x200 ∷ pack b 0x200 c ∷ []
y10_rest (a ∷ b ∷ c ∷ d ∷ []) = pack 0x200 a 0x200 ∷ pack b 0x200 c ∷ pack 0x200 d 0x200 ∷ []
y10_rest (a ∷ b ∷ c ∷ d ∷ e ∷ []) =
    pack 0x200 a 0x200 ∷ pack b 0x200 c ∷ pack 0x200 d 0x200 ∷ pack e 0x200 0x040 ∷ []
y10_rest _ = []

-- `klvanc_y10_to_v210`: the words that are written.
unfoldable pub klvanc_y10_to_v210 : List ℕ → ℕ → Outcome (List ℕ)
unfolding y10_groups y10_rest
klvanc_y10_to_v210 src width = do
  (words, left) ← y10_groups (width / 6) src
  rest ← copy_bytes left (width % 6)
  ok (words ++ y10_rest rest)

-- The planes of luma and of the two chroma samples.
pub record Planes : Type 0 where
  pub y : List ℕ
  pub u : List ℕ
  pub v : List ℕ

unfoldable pub planar_groups : ℕ → List ℕ → Outcome Planes
planar_groups zero src = ok (record { y = []; u = []; v = [] })
planar_groups (suc n) (p ∷ q ∷ r ∷ s ∷ src) = planar_groups n src >>= (λ t. ok (record {
  y = middle p ∷ low q ∷ high q ∷ middle r ∷ low s ∷ high s ∷ t.y;
  u = low p ∷ middle q ∷ high r ∷ t.u;
  v = high p ∷ low r ∷ middle s ∷ t.v;
}))
planar_groups (suc n) _ = fault

-- `klvanc_v210_planar_unpack_c`
unfoldable pub klvanc_v210_planar_unpack_c : List ℕ → ℕ → Outcome Planes
unfolding planar_groups
klvanc_v210_planar_unpack_c src width = planar_groups (width / 6) src

-- `READ_PIXELS(dst, dst, dst)`, on as many words as `n` says.
unfoldable pub read_words : ℕ → List ℕ → Outcome (List ℕ)
read_words zero src = ok []
read_words (suc n) [] = fault
read_words (suc n) (val ∷ src) =
    read_words n src >>= (λ dst. ok (low val ∷ middle val ∷ high val ∷ dst))

-- `klvanc_v210_line_to_uyvy_c`: the loop moves on by six pixels and takes four words in each round.
unfoldable pub klvanc_v210_line_to_uyvy_c : List ℕ → ℕ → Outcome (List ℕ)
klvanc_v210_line_to_uyvy_c src width = read_words (4 * ((width + 5) / 6)) src

-- Three samples to a word, `n` times; the samples that are left are the rest.
unfoldable pub put_words : ℕ → List ℕ → Outcome (List ℕ × List ℕ)
put_words zero src = ok ([], src)
put_words (suc n) (a ∷ b ∷ c ∷ src) = put_words n src >>= (λ r. ok (pack a b c ∷ r.0, r.1))
put_words (suc n) _ = fault

-- The words for the samples that are left, fewer than twelve: a word that is not full is filled with
-- `p` and `q`, which are black luma and grey chroma in turn.
unfoldable pub uyvy_rest : ℕ → ℕ → List ℕ → List ℕ
uyvy_rest p q [] = []
uyvy_rest p q (a ∷ []) = pack a p q ∷ []
uyvy_rest p q (a ∷ b ∷ []) = pack a b q ∷ []
uyvy_rest p q (a ∷ b ∷ c ∷ src) = pack a b c ∷ uyvy_rest q p src

-- `klvanc_uyvy_to_v210`: four words in each round of the loop.
unfoldable pub klvanc_uyvy_to_v210 : List ℕ → ℕ → Outcome (List ℕ)
klvanc_uyvy_to_v210 src width = do
  (words, left) ← put_words (4 * (width / 12)) src
  rest ← copy_bytes left (width % 12)
  ok (words ++ uyvy_rest 0x040 0x200 rest)

-- What is written from `dst` on and from `uv` on: luma, and chroma in turn.
pub record Nv20 : Type 0 where
  pub y : List ℕ
  pub uv : List ℕ

-- The whole groups; the words that are left are the rest.
unfoldable pub nv20_groups : ℕ → List ℕ → Outcome (Nv20 × List ℕ)
nv20_groups zero src = ok (record { y = []; uv = [] }, src)
nv20_groups (suc n) (p ∷ q ∷ r ∷ s ∷ src) = nv20_groups n src >>= (λ t. ok (
  record {
    y = middle p ∷ low q ∷ high q ∷ middle r ∷ low s ∷ high s ∷ t.0.y;
    uv = low p ∷ high p ∷ middle q ∷ low r ∷ high r ∷ middle s ∷ t.0.uv;
  },
  t.1,
))
nv20_groups (suc n) _ = fault

-- The pixels that are left, fewer than six: a pair of them, or two pairs; a pixel alone is left out.
unfoldable pub nv20_rest : ℕ → List ℕ → Outcome Nv20
nv20_rest left src =
    if ltb 3 left
    then two_pairs src
    else if ltb 1 left
    then one_pair src
    else ok (record { y = []; uv = [] })
  where
    one_pair : List ℕ → Outcome Nv20
    one_pair (p ∷ q ∷ src) = ok (record { y = middle p ∷ low q ∷ []; uv = low p ∷ high p ∷ [] })
    one_pair _ = fault

    two_pairs : List ℕ → Outcome Nv20
    two_pairs (p ∷ q ∷ r ∷ src) = ok (record {
      y = middle p ∷ low q ∷ high q ∷ middle r ∷ [];
      uv = low p ∷ high p ∷ middle q ∷ low r ∷ [];
    })
    two_pairs _ = fault

-- `klvanc_v210_line_to_nv20_c`, on pointers that are not null.
unfoldable pub klvanc_v210_line_to_nv20_c : List ℕ → ℕ → ℕ → Outcome Nv20
klvanc_v210_line_to_nv20_c src dst_size_bytes width = do
  guard (not (width == 0)) (failed 1)
  guard (not (ltb dst_size_bytes (width * 6))) (failed 1)
  (front, left) ← nv20_groups (width / 6) src
  back ← nv20_rest (width % 6) left
  ok (record { y = front.y ++ back.y; uv = front.uv ++ back.uv })

-- `klvanc_v210_downscale_line_c`
unfoldable pub klvanc_v210_downscale_line_c : List ℕ → ℕ → Outcome (List ℕ)
klvanc_v210_downscale_line_c src lines =
    copy_bytes src (720 * 2 * lines) >>= (λ dst. ok (map (λ w. w / 4 % 256) dst))
