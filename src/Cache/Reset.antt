-- ===== src/Cache/Reset.antt =====
-- klvanc_cache_reset clears whatever the updates left.
use libklvanc.Prelude.{
  ℕ, suc, Bool, ◌+◌, ◌^◌, ◌<◌, ◌≤◌, ◌≡◌, refl, true, false, some, List, [], ◌∷◌, arith, length,
}
use libklvanc.Packet.{Header}
use libklvanc.Cache.{
  Cache, cache_index, klvanc_cache_update, update_entry, empty_line, klvanc_cache_reset,
}
use libklvanc.Cache.History.{keep, update_all, fresh_cache}

-- A line with no packet is idle, and an entry with a used line is counted as used. `n` bounds the
-- number of updates so far.
pub record IsCounted (n : ℕ) (cache : Cache) : Type 0 where
  pub bounded : (i : ℕ) → (cache i).active_count ≤ n
  pub used : (i l : ℕ) → ((cache i).lines l).active ≡ true → 0 < (cache i).active_count
  pub idle : (i l : ℕ) → ((cache i).lines l).active ≡ false → (cache i).lines l ≡ empty_line

module _ (n : ℕ) (cache : Cache) (malloc_ok : Bool) (pkt : Header) (inv : IsCounted n cache)
    (small : n + 1 < 2 ^ 32) where
  abbrev after : Cache
  after = keep cache (klvanc_cache_update malloc_ok (some cache) pkt)

  after-bounded : (i : ℕ) → (after i).active_count ≤ n + 1
  unfolding keep klvanc_cache_update update_entry
  after-bounded i = ground (arith, inv.bounded i)

  after-used : (i l : ℕ) → ((after i).lines l).active ≡ true → 0 < (after i).active_count
  unfolding keep klvanc_cache_update update_entry
  after-used i l h = ground (arith, inv.bounded i, inv.used i l)

  after-idle : (i l : ℕ) → ((after i).lines l).active ≡ false → (after i).lines l ≡ empty_line
  unfolding keep klvanc_cache_update update_entry
  after-idle i l h = ground (arith, inv.idle i l)

  after-IsCounted : IsCounted (n + 1) after
  after-IsCounted = record { bounded = after-bounded; used = after-used; idle = after-idle }

update_all-IsCounted :
    (pkts : List (Bool × Header)) (n : ℕ) (cache : Cache)
    → IsCounted n cache
    → n + length pkts < 2 ^ 32
    → IsCounted (n + length pkts) (update_all cache pkts)
unfolding update_all
update_all-IsCounted [] n cache inv h = let e : n + 0 ≡ n = omega arith in rw e inv
update_all-IsCounted ((malloc_ok, pkt) ∷ pkts) n cache inv h =
    let e : n + suc (length pkts) ≡ n + 1 + length pkts = omega arith in
    rw e (
      update_all-IsCounted pkts (n + 1)
        (keep cache (klvanc_cache_update malloc_ok (some cache) pkt))
        (after-IsCounted n cache malloc_ok pkt inv (omega arith)) (omega arith))

reset-clears :
    (n : ℕ) (cache : Cache) (i l : ℕ)
    → IsCounted n cache
    → i < 65536
    → l < 2048
    → (klvanc_cache_reset cache i).lines l ≡ empty_line
unfolding klvanc_cache_reset
reset-clears n cache i l inv hi hl = ground (arith, inv.used i l, inv.idle i l)

reset-active_count :
    (cache : Cache) (i : ℕ) → i < 65536 → (klvanc_cache_reset cache i).active_count ≡ 0
unfolding klvanc_cache_reset
reset-active_count cache i hi = ground (arith, hi)

-- After fewer than 2 ^ 32 packets were put into a fresh cache, whatever the allocator answered,
-- klvanc_cache_reset leaves every entry with a count of 0, and each of its lines not active, with a
-- count of 0 and no packet.
pub reset-update_all :
    (pkts : List (Bool × Header)) (did sdid line : ℕ)
    → length pkts < 2 ^ 32
    → did < 256
    → sdid < 256
    → line < 2048
    → ((klvanc_cache_reset (update_all fresh_cache pkts) (cache_index did sdid)).active_count ≡ 0)
      × ((klvanc_cache_reset (update_all fresh_cache pkts) (cache_index did sdid)).lines line
          ≡ empty_line)
reset-update_all pkts did sdid line h d s l =
    let fresh : IsCounted 0 fresh_cache = record {
      bounded = λ i. omega arith;
      used = λ i l h. cc;
      idle = λ i l h. refl;
    } in
    (
      reset-active_count (update_all fresh_cache pkts) (cache_index did sdid) (omega arith),
      reset-clears (0 + length pkts) (update_all fresh_cache pkts) (cache_index did sdid) line
          (update_all-IsCounted pkts 0 fresh_cache fresh (omega arith)) (omega arith) l,
    )
