-- ===== src/Scte104/Fragments.antt =====
-- src/core-packet-scte_104.c: the packets of a message that was sent in parts are collected in
-- `ctx->scte104_fragments`, an array of 10 packets.
use libklvanc.Prelude.{
  ℕ, ◌+◌, List, [], ◌∷◌, ◌++◌, Outcome, ok, err, fault, failed, ◌>>=◌, Bool, false, ltb, ◌==◌,
  if◌then◌else◌, length,
}
use libklvanc.Packet.{Header}
use libklvanc.Packet.Append.{klvanc_packet_copy, klvanc_packet_payload_append}

-- `LIBKLVANC_SCTE104_MAX_FRAGMENTS`
abbrev pub max_fragments : ℕ
max_fragments = 10

-- The packets that are held, `scte104_fragment_count` of them.
abbrev pub Held : Type 0
Held = List Header

-- What a call leaves of the state, and what it comes to.
abbrev pub Step : Type 0 → Type 0
Step A = Held × Outcome A

-- The lengths of the copy are set behind it.
abbrev pub as_fragment : Header → Header
as_fragment hdr = record hdr { raw_length_words = hdr.payload_length_words + 7 }

abbrev stored_copy : Held → Outcome Header → Step (Unit {0})
stored_copy held (ok copy) = (held ++ as_fragment copy ∷ [], ok tt)
stored_copy held (err e) = (held, err (failed 1))
stored_copy held fault = (held, fault)

-- The slot behind the last one takes the copy, or null: it has to be one of the array.
unfoldable pub message_fragment_append : Bool → Held → Header → Step (Unit {0})
message_fragment_append malloc_ok held hdr =
    if ltb (length held) max_fragments
    then stored_copy held (klvanc_packet_copy malloc_ok hdr)
    else (held, fault)

unfoldable pub message_fragment_reset : Held → Held
message_fragment_reset held = []

-- `cleanup_SCTE_104`
unfoldable pub cleanup_scte_104 : Held → Held
cleanup_scte_104 held = message_fragment_reset held

unfoldable pub message_fragment_continued : Bool → Held → Header → Step (Unit {0})
message_fragment_continued malloc_ok held hdr = message_fragment_append malloc_ok held hdr

unfoldable pub message_fragment_following : Bool → Held → Header → Step (Unit {0})
message_fragment_following malloc_ok held hdr =
    if length held == 0
    then (message_fragment_reset held, err (failed 1))
    else if length held + 1 == max_fragments
    then (message_fragment_reset held, err (failed 1))
    else message_fragment_append malloc_ok held hdr

-- The loop over the packets: from the second on, the descriptor byte in front is left out.
unfoldable pub append_fragments : ℕ → Header → Held → Outcome Header
append_fragments offset dst [] = ok dst
append_fragments offset dst (fragment ∷ held) =
    klvanc_packet_payload_append dst fragment offset >>= (λ dst'. append_fragments 1 dst' held)

-- The copy of the last packet, without its words.
abbrev pub emptied : Header → Header
emptied dst = record dst {
  checksum_valid = false;
  payload = [];
  payload_length_words = 0;
  raw = [];
  raw_length_words = 0;
}

abbrev pub any_failure {ℓ} : {A : Type ℓ} → Outcome A → Outcome A
any_failure (ok a) = ok a
any_failure (err e) = err (failed 1)
any_failure fault = fault

-- What is done once the last packet is stored.
unfoldable pub complete_fragments : Bool → Step (Unit {0}) → Header → Step Header
complete_fragments malloc_ok (held, ok _) hdr = (
  message_fragment_reset held,
  any_failure (klvanc_packet_copy malloc_ok hdr >>= (λ dst. append_fragments 0 (emptied dst) held)),
)
complete_fragments malloc_ok (held, err e) hdr = (message_fragment_reset held, err (failed 1))
complete_fragments malloc_ok (held, fault) hdr = (held, fault)

-- `*complete` is the result. The first answer is for the packet that is stored, the second for the whole.
unfoldable pub message_fragment_final : Bool → Bool → Held → Header → Step Header
message_fragment_final malloc_ok complete_ok held hdr =
    if length held == 0
    then (message_fragment_reset held, err (failed 1))
    else complete_fragments complete_ok (message_fragment_append malloc_ok held hdr) hdr
