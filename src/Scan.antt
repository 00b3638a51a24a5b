-- ===== src/Scan.antt =====
-- klvanc_packet_parse of src/core-packets.c: the search of a line for ancillary packets.
pub mod Step
pub mod Total
pub mod Short
pub mod Single
pub mod Delivered
use libklvanc.Prelude.{
  ℕ, zero, suc, ◌+◌, ◌-◌, ◌%◌, ◌^◌, List, Outcome, ok, err, fault, Error, einval, out_of_fuel,
  ◌>>=◌, ◌>>◌, Bool, true, false, ltb, ◌==◌, ◌||◌, not, if◌then◌else◌, guard, Option, none, some,
  drop,
}
use libklvanc.Packet.{Header, parse, max_payload}
use libklvanc.Dispatch.{Memory, Callbacks, deliver}
use libklvanc.Scte104.Fragments.{Held}
use libklvanc.Cache.{Cache, klvanc_cache_update}
use libklvanc.Cache.History.{keep}

-- What `struct klvanc_context_s` holds for this function. `client` is the application's data, which the
-- callbacks change.
pub record Context (C : Type 0) : Type 0 where
  pub allow_bad_checksums : Bool
  pub checksum_failures : ℕ
  pub cache_lines : Option Cache
  pub fragments : Held
  pub client : C

-- The update of the cache, whose result the caller drops.
unfoldable pub update_cache : Bool → Option Cache → Header → Option Cache
update_cache malloc_ok none hdr = none
update_cache malloc_ok (some cache) hdr =
    some (keep cache (klvanc_cache_update malloc_ok (some cache) hdr))

-- `unsigned int` subtraction.
abbrev pub sub32 : ℕ → ℕ → ℕ
sub32 a b = (a + 2 ^ 32 - b) % 2 ^ 32

-- `calloc i` says whether `parse` finds memory for a header at word `i`, `malloc i` whether the cache
-- finds memory for its copy; `memory i` is what the allocator answers to the parser of the type.
module _ {C : Type 0} (calloc malloc : ℕ → Bool) (memory : ℕ → Memory)
    (callbacks : Callbacks C) where
  -- The header that is looked at: it has its place, too.
  abbrev pub placed : ℕ → ℕ → Header → Header
  placed line_nr i parsed = record parsed { horizontal_offset = i % 2 ^ 16; line_nr = line_nr }

  -- The body of the loop behind a successful `parse` at word `i`.
  unfoldable pub take_packet : Context C → ℕ → ℕ → Header → ℕ → Outcome (Context C)
  unfolding update_cache
  take_packet ctx line_nr i parsed failures = do
    let hdr = placed line_nr i parsed
    let lines = update_cache (malloc i) ctx.cache_lines hdr
    (held, client) ←
        if hdr.checksum_valid || ctx.allow_bad_checksums
        then deliver (memory i) callbacks ctx.fragments ctx.client hdr
        else ok (ctx.fragments, ctx.client)
    ok (record ctx {
      checksum_failures = failures;
      cache_lines = lines;
      fragments = held;
      client = client;
    })

  -- The loop, at word `i` after `attempts` packets.
  unfoldable pub scan : ℕ → List ℕ → ℕ → ℕ → ℕ → ℕ → Context C → Outcome (ℕ × Context C)
  unfolding take_packet
  scan zero arr len line_nr i attempts ctx = err out_of_fuel
  scan (suc fuel) arr len line_nr i attempts ctx = elim (ltb i (sub32 len 7)) [
    | false ↦ ok (attempts, ctx)
    | true ↦ elim (parse (calloc i) (drop i arr) (sub32 len i) ctx.checksum_failures) [
      | ok r ↦
          take_packet ctx line_nr i r.0 r.1
          >>= (λ ctx'. scan fuel arr len line_nr (i + 7) (attempts + 1) ctx')
      | err e ↦ scan fuel arr len line_nr (i + 1) attempts ctx
      | fault ↦ fault
    ]
  ]

  -- The context is not null. A round moves on by a word at least, so `len + 2` rounds are enough.
  unfoldable pub klvanc_packet_parse : Context C → ℕ → Option (List ℕ) → ℕ → Outcome (ℕ × Context C)
  unfolding scan
  klvanc_packet_parse ctx line_nr none len = err einval
  klvanc_packet_parse ctx line_nr (some arr) len = do
    guard (not (len == 0)) einval
    guard (not (ltb max_payload len)) einval
    scan (len + 2) arr len line_nr 0 0 ctx
