-- ===== src/Fpu/Agreement.antt =====
-- The two packings agree, and with them the PowerPC result with the exact reference.
use slo_ppc.Prelude.{ℕ, zero, suc, ◌-◌, ◌*◌, ◌^◌, ◌<◌, ◌≡◌, refl, ap, ◌∙◌, arith, false}
use slo_ppc.Prelude.Int.{ℤ, pos, negsuc, pos_part, neg_part, ◌-ℤ◌}
use slo_ppc.Fpu.Format.{Format}
use slo_ppc.Fpu.Round.{
  bit_length, rounded_quotient, increments, rounded_integer, quotient_top, scaled_quotient, pack,
  pack_ratio,
}
use native.Mathlib.Nat.{pow-suc}
use slo_ppc.Fpu.Length.{bit_length_bounds}

one_length : bit_length 1 ≡ 1
unfolding bit_length
one_length = refl

by_one :
    (m n sign rn : ℕ)
    → m ≡ n
    → rounded_quotient m 1 sign rn ≡ record { magnitude = n; nx = false; increment = false }
unfolding rounded_quotient increments
by_one m n sign rn h = ground arith

one_times : (k : ℕ) → 1 * 2 ^ k ≡ 2 ^ k
one_times k = omega arith

opposite :
    (n sign rn : ℕ) (z w : ℤ)
    → pos_part z ≡ neg_part w
    → neg_part z ≡ pos_part w
    → scaled_quotient n 1 z sign rn ≡ rounded_integer n w sign rn
unfolding scaled_quotient rounded_integer
opposite n sign rn (pos zero) (pos zero) h k = by_one (n * 2 ^ 0) n sign rn (omega arith)
opposite n sign rn (pos zero) (pos (suc j)) h k = absurd (omega arith)
opposite n sign rn (pos zero) (negsuc j) h k = absurd (omega arith)
opposite n sign rn (pos (suc i)) (pos j) h k = absurd (omega arith)
opposite n sign rn (pos (suc i)) (negsuc j) h k =
    by_one (n * 2 ^ suc i) (n * 2 ^ suc j) sign rn (ap (λ (t : ℕ). n * 2 ^ t) h)
opposite n sign rn (negsuc i) (pos zero) h k = absurd (omega arith)
opposite n sign rn (negsuc i) (pos (suc j)) h k =
    ap (λ (t : ℕ). rounded_quotient n t sign rn) (omega (arith, ap (λ (t : ℕ). 2 ^ t) k))
opposite n sign rn (negsuc i) (negsuc j) h k = absurd (omega arith)

length_pos : (n : ℕ) → 0 < n → 0 < bit_length n
length_pos n h =
    elim (bit_length n) as (λ k. n < 2 ^ k → 0 < k) [
      | zero ↦ λ u. absurd (omega arith)
      | suc k ↦ λ u. omega arith
    ]
      (bit_length_bounds n).0

top_of_one : (n k : ℕ) → bit_length n ≡ suc k → 0 < n → quotient_top n 1 ≡ pos k
unfolding quotient_top ◌-ℤ◌
top_of_one n k e h = ground (
  arith,
  one_length,
  e,
  (bit_length_bounds n).1 h,
  ap (λ (t : ℕ). 2 ^ t) e,
  pow-suc 2 k,
  one_times k,
)

top_one : (n : ℕ) → 0 < n → quotient_top n 1 ≡ pos (bit_length n) -ℤ pos 1
unfolding ◌-ℤ◌
top_one n h =
    top_of_one n (bit_length n - 1) (omega (arith, length_pos n h)) h
    ∙ ground (arith, length_pos n h)

shift_one :
    (n : ℕ) (e q : ℤ) (sign rn : ℕ)
    → scaled_quotient n 1 (e -ℤ q) sign rn ≡ rounded_integer n (q -ℤ e) sign rn
unfolding ◌-ℤ◌
shift_one n e q sign rn = opposite n sign rn (e -ℤ q) (q -ℤ e) (ground arith) (ground arith)

-- For a divisor of one the two ways to pack are the same.
pub pack_ratio-pack :
    (n : ℕ) (exponent : ℤ) (sign rn : ℕ) (fmt : Format)
    → pack_ratio n 1 exponent sign rn fmt ≡ pack n exponent sign rn fmt
unfolding pack_ratio pack
pack_ratio-pack zero exponent sign rn fmt = refl
pack_ratio-pack (suc n) exponent sign rn fmt =
    rw (top_one (suc n) (omega arith)) (rw (shift_one (suc n) exponent _ sign rn) refl)
