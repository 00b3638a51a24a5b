-- ===== src/Counter/Laws.antt =====
-- What is converted to words parses back.
use libklvanc.Prelude.{
  ℕ, ◌+◌, ◌*◌, ◌/◌, ◌%◌, ◌^◌, ◌<◌, ◌≡◌, refl, List, ok, deref, ◌>>=◌, true, some, length, arith,
  get_or, ap,
}
use libklvanc.Packet.{parse}
use libklvanc.Packet.RoundTrip.{packet, header_of, IsBytes, parse-packet_alone}
use libklvanc.Payload.Laws.{create_payload-exact}
use libklvanc.Codec.{byte_at, drop_result}
use libklvanc.Codec.Laws.{byte_at-header_of}
use libklvanc.Counter.{
  CounterPacket, parse_kl_u64le_counter, counter_bytes, klvanc_convert_kl_u64le_counter_to_words,
}

counter_bytes-IsBytes : (p : CounterPacket) → IsBytes (counter_bytes p)
unfolding counter_bytes
counter_bytes-IsBytes p = (
  omega arith,
  (
    omega arith,
    (omega arith, (omega arith, (omega arith, (omega arith, (omega arith, (omega arith, _)))))),
  ),
)

length-counter_bytes : (p : CounterPacket) → length (counter_bytes p) ≡ 8
unfolding counter_bytes
length-counter_bytes p = refl

-- A number of 64 bits out of its bytes.
join_bytes :
    (n : ℕ)
    → n < 2 ^ 64
    → n / 2 ^ 56 % 256 * 2 ^ 56
        + n / 2 ^ 48 % 256 * 2 ^ 48
        + n / 2 ^ 40 % 256 * 2 ^ 40
        + n / 2 ^ 32 % 256 * 2 ^ 32
        + n / 2 ^ 24 % 256 * 2 ^ 24
        + n / 2 ^ 16 % 256 * 2 ^ 16
        + n / 2 ^ 8 % 256 * 2 ^ 8
        + n % 256
      ≡ n
join_bytes n h = omega arith

parse_counter-header_of :
    (p : CounterPacket) (raw : List ℕ)
    → p.counter < 2 ^ 64
    → parse_kl_u64le_counter true true (header_of 0xfe 0x40 (counter_bytes p) raw) ≡ ok (some p)
unfolding parse_kl_u64le_counter counter_bytes
parse_counter-header_of p raw h =
    let bytes : List ℕ = counter_bytes p in
    let b : (i : ℕ) → i < 8 → byte_at (header_of 0xfe 0x40 bytes raw) i ≡ get_or bytes i 0 =
      λ i h. byte_at-header_of 0xfe 0x40 bytes raw i (counter_bytes-IsBytes p) h in
    rw (b 0 (omega arith), b 1 (omega arith), b 2 (omega arith), b 3 (omega arith))
      (rw (b 4 (omega arith), b 5 (omega arith), b 6 (omega arith), b 7 (omega arith))
        (rw (join_bytes p.counter h)))

convert_lem :
    (p : CounterPacket)
    → klvanc_convert_kl_u64le_counter_to_words true p
      ≡ ok (some (packet 0xfe 0x40 (counter_bytes p)))
unfolding klvanc_convert_kl_u64le_counter_to_words counter_bytes drop_result
convert_lem p = ap drop_result (
    create_payload-exact 0xfe 0x40 (counter_bytes p) (λ h. omega (arith, h)) (λ h. omega (arith, h))
      (λ h. omega (arith, h)))

-- Counter round trip: given memory, the words that klvanc_convert_KL_U64LE_COUNTER_to_words makes of a
-- 64-bit counter are one ancillary packet that `parse` accepts, and parse_KL_U64LE_COUNTER gives the
-- counter back.
pub parse_counter-convert_counter_to_words :
    (p : CounterPacket) (failures : ℕ)
    → p.counter < 2 ^ 64
    → (do
      words? ← klvanc_convert_kl_u64le_counter_to_words true p
      words ← deref words?
      (hdr, _) ← parse true words (length words) failures
      parse_kl_u64le_counter true true hdr)
      ≡ ok (some p)
parse_counter-convert_counter_to_words p failures h =
    let n = length-counter_bytes p in
    rw (convert_lem p) (
      rw
        (parse-packet_alone 0xfe 0x40 (counter_bytes p) failures (omega arith) (omega arith)
          (omega (arith, n)) (omega (arith, n)))
        (parse_counter-header_of p (packet 0xfe 0x40 (counter_bytes p)) h))
