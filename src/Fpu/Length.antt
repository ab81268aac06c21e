-- ===== src/Fpu/Length.antt =====
-- `bit_length` is the number of binary digits.
use native.Mathlib.Nat.{pow-suc, pow-le-pow_right}
use slo_ppc.Prelude.{ℕ, zero, suc, ◌*◌, ◌/◌, ◌^◌, ◌<◌, ◌≤◌, ◌≡◌, refl, arith, ap, ◌∙◌}
use native.Mathlib.Decide.{dec_lt}
use slo_ppc.Bits.{two_pow_pos}
use slo_ppc.Fpu.Round.{bit_length_from, bit_length}

from_zero : (fuel : ℕ) → bit_length_from fuel 0 ≡ 0
unfolding bit_length_from
from_zero zero = refl
from_zero (suc fuel) = refl

from_suc :
    (fuel n : ℕ) → bit_length_from (suc fuel) (suc n) ≡ suc (bit_length_from fuel (suc n / 2))
unfolding bit_length_from
from_suc fuel n = ground arith

from_power :
    (fuel n : ℕ) → 2 ^ bit_length_from (suc fuel) (suc n) ≡ 2 * 2 ^ bit_length_from fuel (suc n / 2)
from_power fuel n =
    ap (λ (k : ℕ). 2 ^ k) (from_suc fuel n)
    ∙ omega (arith, pow-suc 2 (bit_length_from fuel (suc n / 2)))

from_bounds :
    (fuel n : ℕ)
    → n ≤ fuel
    → (n < 2 ^ bit_length_from fuel n) × (0 < n → 2 ^ bit_length_from fuel n ≤ 2 * n)
unfolding bit_length_from
from_bounds zero n h = (omega arith, λ p. omega arith)
from_bounds (suc fuel) zero h = (omega arith, λ p. omega arith)
from_bounds (suc fuel) (suc n) h =
    let ih = from_bounds fuel (suc n / 2) (omega arith) in
    (
      omega (arith, from_power fuel n, ih.0),
      λ p. elim (dec_lt 0 (suc n / 2)) [
        | yes q ↦ omega (arith, from_power fuel n, ih.1 q)
        | no q ↦ omega (
          arith,
          from_power fuel n,
          ap (λ (k : ℕ). 2 ^ bit_length_from fuel k) (half q),
          ap (λ (k : ℕ). 2 ^ k) (from_zero fuel),
        )
      ],
    )
  where
    half : ¬ (0 < suc n / 2) → suc n / 2 ≡ 0
    half q = omega arith

zero_length : bit_length 0 ≡ 0
unfolding bit_length bit_length_from
zero_length = refl

lt_of_pow : (i j : ℕ) → 2 ^ i < 2 ^ j → i < j
lt_of_pow i j h = elim (dec_lt i j) [
  | yes l ↦ l
  | no l ↦ let le : 2 ^ j ≤ 2 ^ i = pow-le-pow_right (omega arith) (omega arith) in omega arith
]

pub bit_length_bounds : (n : ℕ) → (n < 2 ^ bit_length n) × (0 < n → 2 ^ bit_length n ≤ 2 * n)
unfolding bit_length
bit_length_bounds n = from_bounds n n (omega arith)

-- A number between two powers of two has the length of the upper one.
pub bit_length-eq : (n k : ℕ) → 2 ^ k ≤ n → n < 2 ^ suc k → bit_length n ≡ suc k
bit_length-eq n k low high =
    let b = bit_length_bounds n in
    let above = lt_of_pow k (bit_length n) (omega (arith, b.0)) in
    let below =
      lt_of_pow (bit_length n) (suc (suc k))
        (omega (arith, two_pow_pos k, b.1, pow-suc 2 k, pow-suc 2 (suc k))) in
    omega (arith, above, below)

pub bit_length-le : (n k : ℕ) → n < 2 ^ k → bit_length n ≤ k
bit_length-le n k high = elim (dec_lt 0 n) [
  | yes h ↦
      let low = (bit_length_bounds n).1 h in
      let below = lt_of_pow (bit_length n) (suc k) (omega (arith, low, pow-suc 2 k)) in
      omega (arith, below)
  | no h ↦ omega (arith, ap bit_length (none h), zero_length)
]
  where
    none : ¬ (0 < n) → n ≡ 0
    none h = omega arith
