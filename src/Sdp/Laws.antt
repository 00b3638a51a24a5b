-- ===== src/Sdp/Laws.antt =====
-- The bytes of a subtitling description packet, and what parse_SDP gives for them.
use libklvanc.Prelude.{
  ℕ, zero, suc, ◌+◌, ◌*◌, ◌/◌, ◌%◌, ◌^◌, ◌<◌, ◌≤◌, ◌≡◌, refl, sym, ap, ◌∙◌, List, [], ◌∷◌, ◌++◌, ok,
  ◌>>=◌, true, some, length, length-append, length-map, drop-append_length, arith, get_or, All,
  All-append, map, replicate, drop, ◌≢◌, ◌⊎◌, ◌==◌, if◌then◌else◌, ltb, Bool-cases, inl, inr,
}
use mathlib.Core.List.{append_assoc}
use libklvanc.Packet.{Header, parse}
use libklvanc.Packet.RoundTrip.{packet, header_of, IsBytes, parse-packet_alone}
use libklvanc.Payload.{klvanc_sdi_create_payload}
use libklvanc.Payload.Laws.{create_payload-exact}
use libklvanc.Codec.{byte_at}
use libklvanc.Codec.Laws.{byte_at-header_of}
use libklvanc.Sdp.{SdpDesc, SdpPacket, data_at, read_descs, parse_sdp}

-- The byte that says which line a descriptor is about, and whether there is one.
abbrev pub line_byte : SdpDesc → ℕ
line_byte d = 128 * d.field + d.line

-- Only a descriptor that there is has its data in the packet.
unfoldable pub data_bytes : List SdpDesc → List ℕ
data_bytes [] = []
data_bytes (d ∷ ds) = (if line_byte d == 0 then [] else d.bytes) ++ data_bytes ds

-- The packet: its front, the five line bytes, the data, and a footer with the counter and a sum.
unfoldable pub sdp_bytes : SdpPacket → ℕ → List ℕ
sdp_bytes p sum =
    0x51
    ∷ 0x15
    ∷ (13 + length (data_bytes p.descriptors))
    ∷ p.format_code
    ∷ (map line_byte p.descriptors
        ++ (data_bytes p.descriptors
            ++ (0x74 ∷ p.sequence_counter / 256 ∷ p.sequence_counter % 256 ∷ sum ∷ [])))

-- A descriptor in its members, cleared where there is none.
pub record IsSdpDesc (d : SdpDesc) : Type 0 where
  pub line : d.line < 32
  pub field : d.field < 2
  pub size : length d.bytes ≡ 45
  pub bytes : IsBytes d.bytes
  pub unused : (line_byte d ≢ 0) ⊎ (d.bytes ≡ replicate 45 0)

pub record IsSdp (p : SdpPacket) : Type 0 where
  pub identifier : p.identifier ≡ 0x5115
  pub format_code : p.format_code < 256
  pub five : length p.descriptors ≡ 5
  pub descriptors : All IsSdpDesc p.descriptors
  pub sequence_counter : p.sequence_counter < 65536

drop-next :
    (src : List ℕ) (i x : ℕ) (back : List ℕ)
    → drop i src ≡ x ∷ back
    → (drop (suc i) src ≡ back) × (get_or src i 0 ≡ x) × (i < length src)
drop-next [] zero x back e = absurd (cc e)
drop-next [] (suc i) x back e = absurd (cc e)
drop-next (y ∷ src) zero x back e = (cc e, cc e, omega arith)
drop-next (y ∷ src) (suc i) x back e =
    let (p, g, l) = drop-next src i x back e in (p, g, omega (arith, l))

abbrev Reads : Header → List ℕ → Type 0
Reads hdr src = (i : ℕ) → i < length src → byte_at hdr i ≡ get_or src i 0

Reads-next :
    (hdr : Header) (src : List ℕ) (i x : ℕ) (back : List ℕ)
    → Reads hdr src
    → drop i src ≡ x ∷ back
    → (byte_at hdr i ≡ x) × (drop (suc i) src ≡ back)
Reads-next hdr src i x back r e = let (p, g, l) = drop-next src i x back e in (r i l ∙ g, p)

data_at-drop :
    (hdr : Header) (src : List ℕ) (i : ℕ) (xs back : List ℕ)
    → Reads hdr src
    → drop i src ≡ xs ++ back
    → (data_at hdr i (length xs) ≡ xs) × (drop (length xs + i) src ≡ back)
unfolding data_at
data_at-drop hdr src i [] back r e = (refl, ap (λ k. drop k src) (omega arith) ∙ e)
data_at-drop hdr src i (x ∷ xs) back r e =
    let (b, p) = Reads-next hdr src i x (xs ++ back) r e in
    let (d, q) = data_at-drop hdr src (suc i) xs back r p in
    (rw (b, d) refl, ap (λ k. drop k src) (omega arith) ∙ q)

-- One descriptor that is there, or is not.
desc_lem :
    (d : SdpDesc)
    → IsSdpDesc d
    → (bytes : List ℕ) → bytes ≡ d.bytes
    → record { line = line_byte d % 32; field = line_byte d / 128; bytes = bytes } ≡ d
desc_lem d h bytes e =
    let l : line_byte d % 32 ≡ d.line = omega (arith, h.line, h.field) in
    let f : line_byte d / 128 ≡ d.field = omega (arith, h.line, h.field) in rw (l, f, e) refl

unused_bytes : (d : SdpDesc) → IsSdpDesc d → line_byte d == 0 ≡ true → replicate 45 0 ≡ d.bytes
unused_bytes d h z = elim h.unused [ inl k ↦ absurd (k (ground (arith, z))) | inr e ↦ sym e ]

read_descs-drop :
    (hdr : Header) (src : List ℕ) (len : ℕ) (ds : List SdpDesc) (i index : ℕ) (xs ys : List ℕ)
    → Reads hdr src
    → 13 ≤ len
    → i + length ds ≡ 5
    → All IsSdpDesc ds
    → drop (4 + i) src ≡ map line_byte ds ++ xs
    → drop (9 + 45 * index) src ≡ data_bytes ds ++ ys
    → (n : ℕ) × (read_descs hdr len i index (length ds) ≡ (ds, n)) × (drop (9 + 45 * n) src ≡ ys)
unfolding read_descs data_bytes
read_descs-drop hdr src len [] i index xs ys r l e a p q = (index, refl, q)
read_descs-drop hdr src len (d ∷ ds) i index xs ys r l e a p q =
    let (b, p0) = Reads-next hdr src (4 + i) (line_byte d) (map line_byte ds ++ xs) r p in
    let one_on : 4 + suc i ≡ suc (4 + i) = omega arith in
    let p' = ap (λ k. drop k src) one_on ∙ p0 in
    let reached : ltb (i + 8) len ≡ true = ground (arith, l, e) in
    elim (Bool-cases (line_byte d == 0)) [
      | inl z ↦
          let empty : data_bytes (d ∷ ds) ++ ys ≡ data_bytes ds ++ ys = rw z refl in
          let (n, k, q') =
            read_descs-drop hdr src len ds (suc i) index xs ys r l (omega (arith, e)) a.1 p'
              (q ∙ empty) in
          (
            n,
            rw (b, z, reached, k)
                (ap (λ (x : SdpDesc). (x ∷ ds, n))
                  (desc_lem d a.0 (replicate 45 0) (unused_bytes d a.0 z))),
            q',
          )
      | inr s ↦
          let full : data_bytes (d ∷ ds) ++ ys ≡ d.bytes ++ (data_bytes ds ++ ys) =
            rw s (append_assoc d.bytes (data_bytes ds) ys) in
          let (f, q') =
            data_at-drop hdr src (9 + 45 * index) d.bytes (data_bytes ds ++ ys) r (q ∙ full) in
          let bytes : data_at hdr (9 + 45 * index) 45 ≡ d.bytes =
            ap (data_at hdr (9 + 45 * index)) (sym a.0.size) ∙ f in
          let next : 9 + 45 * suc index ≡ length d.bytes + (9 + 45 * index) =
            omega (arith, a.0.size) in
          let (n, k, q'') =
            read_descs-drop hdr src len ds (suc i) (suc index) xs ys r l (omega (arith, e)) a.1 p'
              (ap (λ k. drop k src) next ∙ q') in
          (
            n,
            rw (b, s, reached, k)
                (ap (λ (x : SdpDesc). (x ∷ ds, n))
                  (desc_lem d a.0 (data_at hdr (9 + 45 * index) 45) bytes)),
            q'',
          )
    ]

data_bytes-IsBytes :
    (ds : List SdpDesc)
    → All IsSdpDesc ds
    → IsBytes (data_bytes ds) × (length (data_bytes ds) ≤ 45 * length ds)
unfolding data_bytes
data_bytes-IsBytes [] a = (tt, omega arith)
data_bytes-IsBytes (d ∷ ds) a =
    let (b, l) = data_bytes-IsBytes ds a.1 in
    elim (Bool-cases (line_byte d == 0)) [
      | inl z ↦ rw z (b, omega (arith, l))
      | inr s ↦ rw s (
        All-append (λ x. x < 256) d.bytes (data_bytes ds) a.0.bytes b,
        omega (arith, l, length-append d.bytes (data_bytes ds), a.0.size),
      )
    ]

line_bytes-IsBytes : (ds : List SdpDesc) → All IsSdpDesc ds → IsBytes (map line_byte ds)
line_bytes-IsBytes [] a = tt
line_bytes-IsBytes (d ∷ ds) a = (omega (arith, a.0.line, a.0.field), line_bytes-IsBytes ds a.1)

sdp_bytes-IsBytes :
    (p : SdpPacket) (sum : ℕ)
    → IsSdp p
    → sum < 256
    → IsBytes (sdp_bytes p sum) × (0 < length (sdp_bytes p sum)) × (length (sdp_bytes p sum) < 256)
unfolding sdp_bytes
sdp_bytes-IsBytes p sum h small =
    let ds : List SdpDesc = p.descriptors in
    let foot : List ℕ = 0x74 ∷ p.sequence_counter / 256 ∷ p.sequence_counter % 256 ∷ sum ∷ [] in
    let (b, l) = data_bytes-IsBytes ds h.descriptors in
    let footed : IsBytes foot =
      (omega arith, (omega (arith, h.sequence_counter), (omega arith, (small, tt)))) in
    let m = length-append (map line_byte ds) (data_bytes ds ++ foot) in
    let k = length-append (data_bytes ds) foot in
    let n = length-map ds line_byte in
    let five = h.five in
    (
      (
        omega arith,
        (
          omega arith,
          (
            omega (arith, l, five),
            (
              h.format_code,
              All-append (λ x. x < 256) (map line_byte ds) (data_bytes ds ++ foot)
                  (line_bytes-IsBytes ds h.descriptors)
                  (All-append (λ x. x < 256) (data_bytes ds) foot b footed),
            ),
          ),
        ),
      ),
      omega arith,
      omega (arith, l, m, k, n, five),
    )

parse_sdp-bytes :
    (hdr : Header) (p : SdpPacket) (sum : ℕ)
    → IsSdp p
    → Reads hdr (sdp_bytes p sum)
    → parse_sdp true true hdr ≡ ok (some p)
unfolding parse_sdp sdp_bytes
parse_sdp-bytes hdr p sum h r =
    let ds : List SdpDesc = p.descriptors in
    let foot : List ℕ = 0x74 ∷ p.sequence_counter / 256 ∷ p.sequence_counter % 256 ∷ sum ∷ [] in
    let src : List ℕ = sdp_bytes p sum in
    let len : ℕ = 13 + length (data_bytes ds) in
    let behind =
      drop-append_length (map line_byte ds) (data_bytes ds ++ foot)
        (length-map ds line_byte ∙ h.five) in
    let (n, e, q) =
      read_descs-drop hdr src len ds 0 0 (data_bytes ds ++ foot) foot r (omega arith)
        (omega (arith, h.five)) h.descriptors refl behind in
    let (_, q1) = Reads-next hdr src (9 + 45 * n) 0x74 _ r q in
    let (hi, q2) = Reads-next hdr src (suc (9 + 45 * n)) (p.sequence_counter / 256) _ r q1 in
    let (lo, _) = Reads-next hdr src (suc (suc (9 + 45 * n))) (p.sequence_counter % 256) _ r q2 in
    let five : read_descs hdr len 0 0 5 ≡ (ds, n) = ap (read_descs hdr len 0 0) (sym h.five) ∙ e in
    let front : (i : ℕ) → i < 4 → byte_at hdr i ≡ get_or src i 0 = λ i k. r i (omega (arith, k)) in
    let c : ℕ = p.sequence_counter in
    let joined : c / 256 * 2 ^ 8 + c % 256 ≡ c = omega arith in
    let at1 : 9 + 45 * n + 1 ≡ suc (9 + 45 * n) = omega arith in
    let at2 : 9 + 45 * n + 2 ≡ suc (suc (9 + 45 * n)) = omega arith in
    rw
      (
        front 0 (omega arith),
        front 1 (omega arith),
        front 2 (omega arith),
        front 3 (omega arith),
        five,
      )
      (rw (at1, at2, hi, lo, joined) (rw (← h.identifier) refl))

-- For a packet in its members, with five descriptors, each with its 45 bytes, and cleared where there
-- is none: the words that klvanc_sdi_create_payload makes of the bytes of the packet, with any byte as
-- their sum, are one ancillary packet that `parse` accepts, and parse_SDP, given memory, gives the
-- packet back.
pub parse_sdp-create_payload :
    (p : SdpPacket) (sum failures : ℕ)
    → IsSdp p
    → sum < 256
    → (do
      words ←
          klvanc_sdi_create_payload true 0x02 0x43
            (some (sdp_bytes p sum))
            (length (sdp_bytes p sum))
            10
      (hdr, _) ← parse true words (length words) failures
      parse_sdp true true hdr)
      ≡ ok (some p)
parse_sdp-create_payload p sum failures h small =
    let src : List ℕ = sdp_bytes p sum in
    let (b, pos, l) = sdp_bytes-IsBytes p sum h small in
    rw
      (create_payload-exact 0x02 0x43 src (λ k. omega (arith, k)) (λ k. omega (arith, k))
        (λ k. omega (arith, k, pos)))
      (rw (parse-packet_alone 0x02 0x43 src failures (omega arith) (omega arith) pos l) (
        parse_sdp-bytes (header_of 0x02 0x43 src (packet 0x02 0x43 src)) p sum h
          (λ i k. byte_at-header_of 0x02 0x43 src (packet 0x02 0x43 src) i b k)))
