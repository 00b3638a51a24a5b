-- ===== src/Prelude/Arith.antt =====
-- Powers of two, and quotients by them.
use Prim.Native.Nat.{ℕ, zero, suc, ◌+◌, ◌*◌, ◌/◌, ◌%◌, ◌^◌, ◌<◌}
use mathlib.Core.Path.{◌≡◌, sym, ap}
use native.Mathlib.Omega.{arith}
use native.Mathlib.Nat.{
  pow-suc, mod-eq-sub-mul-div, div-div-eq-div-mul, div-add-mod, mul_comm, div-mul-le_self,
}

pub pow-pos : (n : ℕ) → 0 < 2 ^ n
pow-pos zero = omega arith
pow-pos (suc n) = omega (arith, pow-pos n, pow-suc 2 n)

-- The lowest `n + 1` bits are bit `n` over the lowest `n`.
mod_double : (v m : ℕ) → v % (m * 2) ≡ v / m % 2 * m + v % m
mod_double v m = omega (
  arith,
  mod-eq-sub-mul-div v (m * 2),
  ap (λ (t : ℕ). m * 2 * t) (div-div-eq-div-mul v m 2),
  div-add-mod v m,
  ap (λ (t : ℕ). m * t) (div-add-mod (v / m) 2),
)

pub mod-pow-suc : (v n : ℕ) → v % 2 ^ suc n ≡ v / 2 ^ n % 2 * 2 ^ n + v % 2 ^ n
mod-pow-suc v n = rw (pow-suc 2 n) (mod_double v (2 ^ n))

pub div-pow-suc : (v n : ℕ) → v / 2 ^ suc n ≡ v / 2 / 2 ^ n
div-pow-suc v n = rw (pow-suc 2 n, mul_comm (2 ^ n) 2) (sym (div-div-eq-div-mul v 2 (2 ^ n)))

-- The lowest bit and the others, under a mask of `n + 1` ones.
pub mod-pow-half : (v n : ℕ) → v % 2 ^ suc n / 2 ≡ v / 2 % 2 ^ n
mod-pow-half v n = omega (
  arith,
  pow-suc 2 n,
  ap (λ (t : ℕ). v % t) (pow-suc 2 n),
  mod-eq-sub-mul-div v (2 ^ n * 2),
  mod-eq-sub-mul-div (v / 2) (2 ^ n),
  ap (λ (t : ℕ). v / t) (mul_comm 2 (2 ^ n)),
  ap (λ (t : ℕ). 2 ^ n * t) (div-div-eq-div-mul v 2 (2 ^ n)),
  ap (λ (t : ℕ). 2 ^ n * (v / t)) (mul_comm 2 (2 ^ n)),
)

pub mod-pow-parity : (v n : ℕ) → v % 2 ^ suc n % 2 ≡ v % 2
mod-pow-parity v n = omega (
  arith,
  ap (λ (t : ℕ). v % t % 2) (pow-suc 2 n),
  mod-eq-sub-mul-div v (2 ^ n * 2),
  div-mul-le_self v (2 ^ n * 2),
)
