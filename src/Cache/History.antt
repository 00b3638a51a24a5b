-- ===== src/Cache/History.antt =====
-- The cache against the packets that were put into it.
use libklvanc.Prelude.{
  ℕ, ◌+◌, ◌%◌, ◌^◌, ◌<◌, ◌≡◌, refl, ap, ◌∙◌, Outcome, ok, err, fault, Bool, true, ltb, ◌==◌, ◌&&◌,
  ◌||◌, if◌then◌else◌, Option, none, some, List, [], ◌∷◌, arith,
}
use libklvanc.Packet.{Header}
use libklvanc.Cache.{
  Cache, CacheLine, CacheEntry, cache_index, klvanc_cache_update, klvanc_cache_lookup, empty_entry,
  update_entry,
}

-- klvanc_packet_parse does not look at what klvanc_cache_update returns: a packet that is refused
-- leaves the cache as it is.
unfoldable pub keep : Cache → Outcome Cache → Cache
keep cache (ok cache') = cache'
keep cache (err e) = cache
keep cache fault = cache

-- Packets in turn, each with what the allocator answers to its copy.
unfoldable pub update_all : Cache → List (Bool × Header) → Cache
unfolding keep
update_all cache [] = cache
update_all cache ((malloc_ok, pkt) ∷ pkts) =
    update_all (keep cache (klvanc_cache_update malloc_ok (some cache) pkt)) pkts

-- The packets of one identifier pair on one line.
abbrev pub is_for : ℕ → ℕ → ℕ → Header → Bool
is_for did sdid line pkt = (did == pkt.did) && (sdid == pkt.dbnsdid) && (line == pkt.line_nr)

unfoldable pub times_seen : ℕ → ℕ → ℕ → List (Bool × Header) → ℕ
times_seen did sdid line [] = 0
times_seen did sdid line ((malloc_ok, pkt) ∷ pkts) =
    (if is_for did sdid line pkt then 1 else 0) + times_seen did sdid line pkts

-- The copy of a packet, if it found memory.
abbrev pub copy_of : Bool → Header → Option Header
copy_of malloc_ok pkt = if malloc_ok then some pkt else none

-- The copy of the last of them, or `before` if there is none.
unfoldable pub last_seen : ℕ → ℕ → ℕ → Option Header → List (Bool × Header) → Option Header
last_seen did sdid line before [] = before
last_seen did sdid line before ((malloc_ok, pkt) ∷ pkts) =
    last_seen did sdid line (if is_for did sdid line pkt then copy_of malloc_ok pkt else before)
      pkts

abbrev pub line_of : Cache → ℕ → ℕ → ℕ → CacheLine
line_of cache did sdid line = (cache (cache_index did sdid)).lines line

module _ (cache : Cache) (did sdid line : ℕ) (malloc_ok : Bool) (pkt : Header) (d8 : did < 256)
    (s8 : sdid < 256) (in_range : line < 2048) where
  abbrev after : Cache
  after = keep cache (klvanc_cache_update malloc_ok (some cache) pkt)

  update_count : (line_of after did sdid line).count ≡ (
      if is_for did sdid line pkt
      then ((line_of cache did sdid line).count + 1) % 2 ^ 64
      else (line_of cache did sdid line).count)
  unfolding keep klvanc_cache_update update_entry
  update_count = ground arith

  update_pkt : (line_of after did sdid line).pkt ≡ (
      if is_for did sdid line pkt then copy_of malloc_ok pkt else (line_of cache did sdid line).pkt)
  unfolding keep klvanc_cache_update update_entry
  update_pkt = ground arith

  update_active :
      (line_of after did sdid line).active
      ≡ (if is_for did sdid line pkt then true else (line_of cache did sdid line).active)
  unfolding keep klvanc_cache_update update_entry
  update_active = ground arith

count_after :
    (cache : Cache) (did sdid line : ℕ) (pkts : List (Bool × Header))
    → did < 256
    → sdid < 256
    → line < 2048
    → (line_of cache did sdid line).count < 2 ^ 64
    → (line_of (update_all cache pkts) did sdid line).count
      ≡ ((line_of cache did sdid line).count + times_seen did sdid line pkts) % 2 ^ 64
unfolding update_all times_seen
count_after cache did sdid line [] d s l h = omega arith
count_after cache did sdid line ((malloc_ok, pkt) ∷ pkts) d s l h =
    let c = keep cache (klvanc_cache_update malloc_ok (some cache) pkt) in
    let e = update_count cache did sdid line malloc_ok pkt d s l in
    let small : (line_of c did sdid line).count < 2 ^ 64 = ground (arith, e) in
    ground (arith, e, count_after c did sdid line pkts d s l small)

pkt_after :
    (cache : Cache) (did sdid line : ℕ) (pkts : List (Bool × Header))
    → did < 256
    → sdid < 256
    → line < 2048
    → (line_of (update_all cache pkts) did sdid line).pkt
      ≡ last_seen did sdid line (line_of cache did sdid line).pkt pkts
unfolding update_all last_seen
pkt_after cache did sdid line [] d s l = refl
pkt_after cache did sdid line ((malloc_ok, pkt) ∷ pkts) d s l =
    pkt_after (keep cache (klvanc_cache_update malloc_ok (some cache) pkt)) did sdid line pkts d s l
    ∙ ap (λ (p : Option Header). last_seen did sdid line p pkts)
        (update_pkt cache did sdid line malloc_ok pkt d s l)

active_after :
    (cache : Cache) (did sdid line : ℕ) (pkts : List (Bool × Header))
    → did < 256
    → sdid < 256
    → line < 2048
    → (line_of (update_all cache pkts) did sdid line).active
      ≡ ((line_of cache did sdid line).active || ltb 0 (times_seen did sdid line pkts))
unfolding update_all times_seen
active_after cache did sdid line [] d s l = ground arith
active_after cache did sdid line ((malloc_ok, pkt) ∷ pkts) d s l =
    let c = keep cache (klvanc_cache_update malloc_ok (some cache) pkt) in
    ground (
      arith,
      update_active cache did sdid line malloc_ok pkt d s l,
      active_after c did sdid line pkts d s l,
    )

abbrev pub fresh_cache : Cache
fresh_cache i = empty_entry

-- After any packets were put into a fresh cache, a line of an identifier pair, looked up by
-- klvanc_cache_lookup, is active exactly if one of them was for it, counts those (on a 64-bit counter),
-- and holds the last of them, or no packet where the copy of that one found no memory.
pub lookup-update_all :
    (pkts : List (Bool × Header)) (did sdid line : ℕ)
    → did < 256
    → sdid < 256
    → line < 2048
    → (e : CacheEntry) × (klvanc_cache_lookup (some (update_all fresh_cache pkts)) did sdid
        ≡ some e)
      × ((e.lines line).active ≡ ltb 0 (times_seen did sdid line pkts))
      × ((e.lines line).pkt ≡ last_seen did sdid line none pkts)
      × ((e.lines line).count ≡ times_seen did sdid line pkts % 2 ^ 64)
unfolding klvanc_cache_lookup
lookup-update_all pkts did sdid line d s l = (
  update_all fresh_cache pkts (cache_index did sdid),
  refl,
  ground (arith, active_after fresh_cache did sdid line pkts d s l),
  pkt_after fresh_cache did sdid line pkts d s l,
  omega (arith, count_after fresh_cache did sdid line pkts d s l (omega arith)),
)
