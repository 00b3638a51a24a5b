-- ===== src/Packet.antt =====
-- src/libklvanc/vanc-packets.h and `parse` of src/core-packets.c: the header of an ancillary packet.
pub mod Parsing
pub mod RoundTrip
pub mod Append
use libklvanc.Prelude.{
  ℕ, zero, suc, ◌+◌, ◌-◌, ◌*◌, ◌/◌, ◌%◌, ◌^◌, List, [], ◌∷◌, ◌++◌, Outcome, ok, err, fault, Error,
  einval, enomem, ◌>>=◌, ◌>>◌, Bool, true, false, ltb, ◌==◌, ◌&&◌, not, if◌then◌else◌, guard, deref,
  get_elem?, drop, length,
}
use libklvanc.Word.{sanitize_word}
use libklvanc.Checksum.{klvanc_checksum_is_valid}
use libklvanc.Payload.{copy_bytes}

-- `enum klvanc_packet_type_e`
pub data PacketType : Type 0 where
  undefined afd eia_708b eia_608 scte_104 kl_uint64_counter sdp smpte_s12_2 smpte_s2108_1 :
      PacketType

-- `LIBKLVANC_PACKET_MAX_PAYLOAD`
abbrev pub max_payload : ℕ
max_payload = 16384

-- `struct klvanc_packet_header_s`. The arrays `payload` and `raw` have `max_payload` entries: the
-- lists hold those that were written, and every entry behind them is 0.
pub record Header : Type 0 where
  pub packet_type : PacketType
  pub adf : List ℕ
  pub did : ℕ
  pub dbnsdid : ℕ
  pub checksum : ℕ
  pub payload : List ℕ
  pub payload_length_words : ℕ
  pub checksum_valid : Bool
  pub line_nr : ℕ
  pub raw : List ℕ
  pub raw_length_words : ℕ
  pub horizontal_offset : ℕ

-- The identifiers and the type of each row of the table `types`.
abbrev pub types : List (ℕ × ℕ × PacketType)
types =
    (0x40, 0xfe, kl_uint64_counter)
    ∷ (0x41, 0x05, afd)
    ∷ (0x41, 0x07, scte_104)
    ∷ (0x60, 0x60, smpte_s12_2)
    ∷ (0x41, 0x0c, smpte_s2108_1)
    ∷ (0x61, 0x01, eia_708b)
    ∷ (0x61, 0x02, eia_608)
    ∷ (0x43, 0x02, sdp)
    ∷ []

type_in : List (ℕ × ℕ × PacketType) → ℕ → ℕ → PacketType
type_in [] did sdid = undefined
type_in ((d, s, t) ∷ rows) did sdid = if (d == did) && (s == sdid) then t else type_in rows did sdid

unfoldable pub lookup_type_by_did : ℕ → ℕ → PacketType
unfolding type_in
lookup_type_by_did did sdid = type_in types did sdid

-- A word behind a pointer.
abbrev pub word : List ℕ → ℕ → Outcome ℕ
word arr i = deref (get_elem? arr i)

-- `(w & 0x3fc) == 0x3fc`
abbrev pub is_adf_word : ℕ → Bool
is_adf_word w = w / 4 % 256 == 255

-- `arr` is the memory from the address on; `len` is the caller's count. Each test reads its word
-- only after those before it hold.
unfoldable pub is_valid_header : List ℕ → ℕ → Outcome Bool
is_valid_header arr len =
    if ltb 7 len
    then word arr 0 >>= (λ w0.
      if ltb w0 3
      then word arr 1
        >>= (λ w1. if is_adf_word w1 then word arr 2 >>= (λ w2. ok (is_adf_word w2)) else ok false)
      else ok false)
    else ok false

-- `memcpy(&p->raw[0], arr, len * 2)`: words behind the end of the array `raw` are written outside it.
unfoldable pub copy_raw : List ℕ → ℕ → Outcome (List ℕ)
copy_raw arr len = if ltb max_payload len then fault else copy_bytes arr len

-- From `calloc` on.
unfoldable pub parse_fields : List ℕ → ℕ → ℕ → Outcome (Header × ℕ)
unfolding lookup_type_by_did copy_bytes copy_raw
parse_fields arr len failures = do
  raw ← copy_raw arr len
  w0 ← word arr 0
  w1 ← word arr 1
  w2 ← word arr 2
  w3 ← word arr 3
  w4 ← word arr 4
  w5 ← word arr 5
  let n = sanitize_word w5
  guard (not (ltb max_payload n)) enomem
  payload ← copy_bytes (drop 6 arr) n
  checksum ← word arr (6 + n)
  valid ← klvanc_checksum_is_valid (drop 3 arr) (n + 4)
  ok (
    record {
      packet_type = lookup_type_by_did (sanitize_word w3) (sanitize_word w4);
      adf = w0 ∷ w1 ∷ w2 ∷ [];
      did = sanitize_word w3;
      dbnsdid = sanitize_word w4;
      checksum = checksum;
      payload = payload;
      payload_length_words = n;
      checksum_valid = valid;
      line_nr = 0;
      raw = raw;
      raw_length_words = len;
      horizontal_offset = 0;
    },
    if valid then failures else (failures + 1) % 2 ^ 32,
  )

-- `parse`. `failures` is `ctx->checksum_failures`; its new value stands beside the header.
unfoldable pub parse : Bool → List ℕ → ℕ → ℕ → Outcome (Header × ℕ)
parse calloc_ok arr len failures = do
  valid ← is_valid_header arr len
  guard valid einval
  guard calloc_ok enomem
  parse_fields arr len failures

-- The first `n` entries of the array `payload`: behind those that were written, they are 0.
unfoldable pub first_words : ℕ → List ℕ → List ℕ
first_words zero payload = []
first_words (suc n) [] = 0 ∷ first_words n []
first_words (suc n) (w ∷ payload) = w ∷ first_words n payload
