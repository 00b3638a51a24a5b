-- ===== src/Scan/Step.antt =====
-- One round of the loop of klvanc_packet_parse.
use libklvanc.Prelude.{
  ℕ, suc, ◌+◌, ◌≡◌, ◌<◌, ◌≤◌, ◌-◌, ◌^◌, List, ok, err, fault, Error, Bool, true, false, ltb, drop,
  ◌>>=◌, arith,
}
use libklvanc.Packet.{Header, parse}
use libklvanc.Dispatch.{Memory, Callbacks}
use libklvanc.Scan.{Context, scan, take_packet, sub32}

pub sub32_lem : (a b : ℕ) → b ≤ a → a < 2 ^ 32 → sub32 a b ≡ a - b
sub32_lem a b h k = omega arith

module _ {C : Type 0} (calloc malloc : ℕ → Bool) (memory : ℕ → Memory)
    (callbacks : Callbacks C) where
  module _ (fuel : ℕ) (arr : List ℕ) (len line_nr i attempts : ℕ) (ctx : Context C) where
    pub scan-done :
        ltb i (sub32 len 7) ≡ false
        → scan calloc malloc memory callbacks (suc fuel) arr len line_nr i attempts ctx
          ≡ ok (attempts, ctx)
    unfolding scan
    scan-done h = ground arith

    pub scan-found :
        (r : Header × ℕ)
        → ltb i (sub32 len 7) ≡ true
        → parse (calloc i) (drop i arr) (sub32 len i) ctx.checksum_failures ≡ ok r
        → scan calloc malloc memory callbacks (suc fuel) arr len line_nr i attempts ctx ≡ (
            take_packet calloc malloc memory callbacks ctx line_nr i r.0 r.1 >>= (λ ctx'.
              scan calloc malloc memory callbacks fuel arr len line_nr (i + 7) (attempts + 1) ctx'))
    unfolding scan
    scan-found r h e = rw (h, e, scan)

    pub scan-next :
        (x : Error)
        → ltb i (sub32 len 7) ≡ true
        → parse (calloc i) (drop i arr) (sub32 len i) ctx.checksum_failures ≡ err x
        → scan calloc malloc memory callbacks (suc fuel) arr len line_nr i attempts ctx
          ≡ scan calloc malloc memory callbacks fuel arr len line_nr (i + 1) attempts ctx
    unfolding scan
    scan-next x h e = rw (h, e, scan)

    pub scan-fault :
        ltb i (sub32 len 7) ≡ true
        → parse (calloc i) (drop i arr) (sub32 len i) ctx.checksum_failures ≡ fault
        → scan calloc malloc memory callbacks (suc fuel) arr len line_nr i attempts ctx ≡ fault
    unfolding scan
    scan-fault h e = rw (h, e, scan)
