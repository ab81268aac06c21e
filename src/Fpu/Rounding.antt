-- ===== src/Fpu/Rounding.antt =====
-- What a rounding mode makes of a quotient: the nearest integer with ties to even, or the neighbour that
-- the mode names.
use slo_ppc.Prelude.{
  ℕ, ◌+◌, ◌*◌, ◌/◌, ◌%◌, ◌<◌, ◌≤◌, ◌≡◌, ◌↔◌, arith, true, false, if◌then◌else◌, ◌==◌, bit_and,
}
use slo_ppc.Bits.{bit_and_mask}
use slo_ppc.Fpu.Round.{rounded_quotient, directed}

-- `q` is a nearest integer to `n / d`, and even where two are.
abbrev pub Nearest : ℕ → ℕ → ℕ → Type 0
Nearest n d q =
    (2 * (q * d) ≤ 2 * n + d)
    × (2 * n ≤ 2 * (q * d) + d)
    × (2 * (q * d) ≡ 2 * n + d → q % 2 ≡ 0)
    × (2 * n ≡ 2 * (q * d) + d → q % 2 ≡ 0)

abbrev pub Floor : ℕ → ℕ → ℕ → Type 0
Floor n d q = (q * d ≤ n) × (n < q * d + d)

abbrev pub Ceiling : ℕ → ℕ → ℕ → Type 0
Ceiling n d q = (n ≤ q * d) × (q * d < n + d)

-- The magnitude of a number with a sign, rounded by a mode: to the nearest, towards zero, up or down. Up is
-- away from zero for a number that is not negative, and down for one that is.
abbrev pub IsRounded : ℕ → ℕ → ℕ → ℕ → ℕ → Type 0
IsRounded rn sign n d q =
    if rn == 0
    then Nearest n d q
    else if rn == 2
    then (if sign == 0 then Ceiling n d q else Floor n d q)
    else if rn == 3
    then (if sign == 0 then Floor n d q else Ceiling n d q)
    else Floor n d q

low_bit : (q : ℕ) → bit_and q 1 ≡ q % 2
low_bit q = bit_and_mask 1 q

-- The rounded quotient by a positive divisor is, in mode 0, a nearest integer with ties to even; in mode 2 it is
-- the one above the quotient with its sign and in mode 3 the one below it; in any other mode it is the one
-- towards zero. It is inexact exactly if it is not the quotient, and incremented exactly if it lies above the
-- quotient without its sign.
pub rounded_quotient-IsRounded :
    (n d sign rn : ℕ)
    → 0 < d
    → let r = rounded_quotient n d sign rn in
      IsRounded rn sign n d r.magnitude
      × ((r.nx ≡ false) ↔ (r.magnitude * d ≡ n))
      × ((r.increment ≡ true) ↔ (n < r.magnitude * d))
unfolding rounded_quotient directed
rounded_quotient-IsRounded n d sign rn h = ground (arith, low_bit (n / d))
