-- ===== src/Fpu/Refinement.antt =====
-- The PowerPC operations against the exact reference, where no exception is enabled.
pub mod Choice
pub mod Sums
pub mod Products
use slo_ppc.Prelude.{
  ℕ, zero, suc, ◌+◌, ◌-◌, ◌*◌, ◌/◌, ◌%◌, ◌^◌, ◌<◌, ◌≤◌, ◌≡◌, refl, sym, ap, ◌∙◌, ◌≢◌, arith, Bool,
  Bool-cases, inl, inr, List, [], ◌∷◌, Option, none, some, true, false, not, ◌&&◌, ◌||◌,
  if◌then◌else◌, ltb, ◌==◌, bit_xor, bit_or,
}
use slo_ppc.Prelude.Int.{ℤ, pos, negsuc, ◌-ℤ◌}
use slo_ppc.Integer.Word.{truthy}
use slo_ppc.Fpu.Format.{
  Format, infinity, b64, Kind, snan, qnan, inf, finite, Decoded, decode, decode_fields, signbit,
}
use slo_ppc.Fpu.Round.{Packed, pack, pack_ratio}
use slo_ppc.Fpu.Calculate.{
  calculate, binary, quiet_first, turned, signed_infinity, add_decoded, mul_decoded, div_decoded,
  is_nan, is_snan, is_inf, is_zero, is_finite,
}
use slo_ppc.Fpu.Calculate
use slo_ppc.Fpu.Powerpc
use slo_ppc.Fpu.Powerpc.{
  Op, add, sub, mul, div, vx_isi, finite_ratio, vx_imz, sum_ratio, product_ratio, default_nan,
}
use slo_ppc.Fpu.Arithmetic.{
  Controls, Report, arithmetic, quiet_or, computed, rounded_ratio, delivered, negated, flushed,
  special, reported, propagated, first_nan, relevant, any_kind, is_imz, operand_bits, invalid_bits,
  repeated_bits, is_zero_divide, negates, is_isi,
}
use slo_ppc.Fpu.Agreement.{pack_ratio-pack}
use slo_ppc.Fpu.Refinement.Choice.{IsUntrapped, quiet_agrees}
use slo_ppc.Fpu.Refinement.Sums.{computed_add, computed_sub}
use slo_ppc.Fpu.Refinement.Products.{computed_mul, computed_div}

-- In double precision, without an overflow or underflow exception enabled and in the IEEE mode, the four
-- operations give the bits of the exact reference in the mode, on all doublewords, NaNs and infinities
-- included.
pub arithmetic-calculate :
    (a b : ℕ) (k : Controls)
    → IsUntrapped k
    → a < 2 ^ 64
    → b < 2 ^ 64
    → ((arithmetic add a b 0 k).result ≡ (calculate Calculate.add a b k.rn b64).bits)
      × ((arithmetic sub a b 0 k).result ≡ (calculate Calculate.sub a b k.rn b64).bits)
      × ((arithmetic mul a 0 b k).result ≡ (calculate Calculate.mul a b k.rn b64).bits)
      × ((arithmetic div a b 0 k).result ≡ (calculate Calculate.div a b k.rn b64).bits)
unfolding arithmetic calculate relevant
arithmetic-calculate a b k v ha hb = (
  quiet_agrees add_decoded a b (invalid_bits add a b 0) k.rn k.ve _ (computed_add a b 0 k v),
  quiet_agrees (λ da db. add_decoded da (turned db)) a b (invalid_bits sub a b 0) k.rn k.ve _
      (computed_sub a b 0 k v ha hb),
  quiet_agrees mul_decoded a b (invalid_bits mul a 0 b) k.rn k.ve _ (computed_mul a 0 b k v),
  quiet_agrees div_decoded a b (invalid_bits div a b 0) k.rn k.ve _ (computed_div a b 0 k v),
)
