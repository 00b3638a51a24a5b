-- ===== src/Cache.antt =====
-- src/core-cache.c: which packets were seen, on which lines.
pub mod History
pub mod Reset
use libklvanc.Prelude.{
  ℕ, ◌+◌, ◌*◌, ◌%◌, ◌^◌, Outcome, ok, err, Error, failed, ◌>>=◌, ◌>>◌, Bool, true, false, ltb, ◌==◌,
  not, if◌then◌else◌, guard, Option, none, some, List, [], ◌∷◌,
}
use libklvanc.Packet.{Header}

-- `struct klvanc_cache_line_s`, without its mutex.
pub record CacheLine : Type 0 where
  pub active : Bool
  pub count : ℕ
  pub pkt : Option Header

-- `struct klvanc_cache_s`, without the texts that follow from `did` and `sdid`, the time of the last
-- update and the three members that the library does not use.
pub record CacheEntry : Type 0 where
  pub did : ℕ
  pub sdid : ℕ
  pub active_count : ℕ
  pub lines : ℕ → CacheLine

-- `ctx->cacheLines`, by index.
abbrev pub Cache : Type 0
Cache = ℕ → CacheEntry

abbrev pub empty_line : CacheLine
empty_line = record { active = false; count = 0; pkt = none }

abbrev pub empty_entry : CacheEntry
empty_entry = record { did = 0; sdid = 0; active_count = 0; lines = λ l. empty_line }

-- `calloc` clears the array.
unfoldable pub klvanc_cache_alloc : Bool → Outcome Cache
klvanc_cache_alloc calloc_ok = if calloc_ok then ok (λ i. empty_entry) else err (failed 1)

-- The index of `klvanc_cache_lookup`, whose arguments are `uint8_t`.
abbrev pub cache_index : ℕ → ℕ → ℕ
cache_index didnr sdidnr = didnr % 256 * 256 + sdidnr % 256

unfoldable pub klvanc_cache_lookup : Option Cache → ℕ → ℕ → Option CacheEntry
klvanc_cache_lookup none didnr sdidnr = none
klvanc_cache_lookup (some cache) didnr sdidnr = some (cache (cache_index didnr sdidnr))

-- The line after klvanc_packet_copy: the old packet is freed, and the copy may fail.
unfoldable pub update_line : Bool → Header → CacheLine → CacheLine
update_line malloc_ok pkt line = record {
  active = true;
  count = (line.count + 1) % 2 ^ 64;
  pkt = if malloc_ok then some pkt else none;
}

unfoldable pub update_entry : Bool → Header → CacheEntry → CacheEntry
unfolding update_line
update_entry malloc_ok pkt s = record {
  did = if s.active_count == 0 then pkt.did else s.did;
  sdid = if s.active_count == 0 then pkt.dbnsdid else s.sdid;
  active_count = (s.active_count + 1) % 2 ^ 32;
  lines = λ l. if l == pkt.line_nr then update_line malloc_ok pkt (s.lines l) else s.lines l;
}

unfoldable pub update_at : Bool → Header → Cache → Cache
update_at malloc_ok pkt cache i =
    if i == cache_index pkt.did pkt.dbnsdid then update_entry malloc_ok pkt (cache i) else cache i

-- `malloc_ok` says whether the copy of the packet finds memory.
unfoldable pub klvanc_cache_update : Bool → Option Cache → Header → Outcome Cache
unfolding update_at
klvanc_cache_update malloc_ok none pkt = err (failed 1)
klvanc_cache_update malloc_ok (some cache) pkt = do
  guard (not (ltb 0xff pkt.did)) (failed 1)
  guard (not (ltb 0xff pkt.dbnsdid)) (failed 1)
  guard (ltb pkt.line_nr 2048) (failed 1)
  ok (update_at malloc_ok pkt cache)

unfoldable pub reset_line : CacheLine → CacheLine
reset_line line = if line.active then empty_line else line

unfoldable pub reset_entry : CacheEntry → CacheEntry
unfolding reset_line
reset_entry e = if e.active_count == 0 then e else record e {
  active_count = 0;
  lines = λ l. if ltb l 2048 then reset_line (e.lines l) else e.lines l;
}

-- The loops visit each of the 65536 entries once, and in it each of the 2048 lines.
unfoldable pub klvanc_cache_reset : Cache → Cache
unfolding reset_entry
klvanc_cache_reset cache i = if ltb i 65536 then reset_entry (cache i) else cache i
