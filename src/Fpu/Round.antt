-- ===== src/Fpu/Round.antt =====
-- `rounded_integer`, `pack` and `pack_ratio` of sim/fpu/reference.py. A shift count is an integer; the
-- rounding mode `rn` is 0 for nearest even, 1 towards zero, 2 up and 3 down. A sign is 0 or 1, as callers pass it.
use slo_ppc.Prelude.{
  ℕ, zero, suc, ◌+◌, ◌-◌, ◌*◌, ◌/◌, ◌%◌, ◌^◌, bit_and, bit_or, Bool, true, false, not, ◌&&◌, ◌||◌,
  ltb, ◌==◌, if◌then◌else◌,
}
use slo_ppc.Prelude.Int.{ℤ, pos, negsuc, pos_part, ◌+ℤ◌, ◌-ℤ◌, ltb_ℤ}
use slo_ppc.Integer.Word.{truthy, int}
use slo_ppc.Fpu.Format.{Format, signbit, infinity}

-- `n.bit_length()`, on fuel: the number halves, so that a fuel of its own size is enough.
unfoldable pub bit_length_from : ℕ → ℕ → ℕ
bit_length_from zero n = 0
bit_length_from (suc fuel) n =
    let rest = bit_length_from fuel (n / 2) in if n == 0 then 0 else rest + 1

unfoldable pub bit_length : ℕ → ℕ
unfolding bit_length_from
bit_length n = bit_length_from n n

-- Whether a rounding mode rounds away from zero without a look at the digits.
unfoldable pub directed : ℕ → ℕ → Bool
directed rn sign = (rn == 2 && not (truthy sign)) || (rn == 3 && truthy sign)

-- The increment of a quotient, from the remainder and the divisor.
unfoldable pub increments : ℕ → ℕ → ℕ → ℕ → ℕ → Bool
unfolding directed
increments rn sign quotient remainder divisor =
    truthy remainder
    && ((rn == 0
          && (ltb divisor (2 * remainder)
              || (2 * remainder == divisor && truthy (bit_and quotient 1))))
        || directed rn sign)

-- A rounded magnitude with its inexact flag and whether it was incremented.
pub record Rounded : Type 0 where
  pub magnitude : ℕ
  pub nx : Bool
  pub increment : Bool

-- A quotient rounded to an integer.
unfoldable pub rounded_quotient : ℕ → ℕ → ℕ → ℕ → Rounded
unfolding increments
rounded_quotient n d sign rn =
    let up = increments rn sign (n / d) (n % d) d in
    record { magnitude = n / d + int up; nx = truthy (n % d); increment = up }

unfoldable pub rounded_integer : ℕ → ℤ → ℕ → ℕ → Rounded
unfolding rounded_quotient
rounded_integer n (pos zero) sign rn = record { magnitude = n; nx = false; increment = false }
rounded_integer n (pos (suc k)) sign rn = rounded_quotient n (2 ^ suc k) sign rn
rounded_integer n (negsuc k) sign rn = record {
  magnitude = n * 2 ^ suc k;
  nx = false;
  increment = false;
}

abbrev pub max_ℤ : ℤ → ℤ → ℤ
max_ℤ a b = if ltb_ℤ a b then b else a

abbrev pub min_ℤ : ℤ → ℤ → ℤ
min_ℤ a b = if ltb_ℤ b a then b else a

-- Raw bits, NX, UF, OF, rounded away from zero.
pub record Packed : Type 0 where
  pub bits : ℕ
  pub nx : Bool
  pub uf : Bool
  pub of : Bool
  pub increment : Bool

-- The result for a magnitude of zero.
unfoldable pub packed_zero : ℕ → Format → Packed
packed_zero sign fmt = record {
  bits = sign * 2 ^ signbit fmt;
  nx = false;
  uf = false;
  of = false;
  increment = false;
}

-- `to_inf`.
unfoldable pub to_inf : ℕ → ℕ → Bool
unfolding directed
to_inf rn sign = rn == 0 || directed rn sign

unfoldable pub overflowed : ℕ → ℕ → Format → Packed
unfolding to_inf
overflowed sign rn fmt = record {
  bits =
      bit_or (sign * 2 ^ signbit fmt) (if to_inf rn sign then infinity fmt else infinity fmt - 1);
  nx = true;
  uf = false;
  of = true;
  increment = to_inf rn sign;
}

-- The bits of a magnitude below two to the `fraction + 1`, and its flags. `result_exp` is never below 1, so
-- that its positive part is all of it.
unfoldable pub encoded : Rounded → ℕ → ℤ → ℕ → Format → Packed
encoded r mantissa result_exp sign fmt =
    let subnormal = ltb mantissa (2 ^ fmt.fraction) in
    record {
      bits =
          bit_or
            (bit_or (sign * 2 ^ signbit fmt)
              ((if subnormal then 0 else pos_part result_exp) * 2 ^ fmt.fraction))
            (bit_and mantissa (2 ^ fmt.fraction - 1));
      nx = r.nx;
      uf = r.nx && subnormal;
      of = false;
      increment = r.increment;
    }

-- The overflow test, and the bits where there is none.
unfoldable pub placed : Rounded → ℕ → ℤ → ℕ → ℕ → Format → Packed
unfolding overflowed encoded
placed r mantissa quantum sign rn fmt =
    let result_exp = quantum +ℤ pos fmt.fraction +ℤ pos fmt.bias in
    if ltb_ℤ result_exp (pos (2 ^ fmt.exponent - 1))
    then encoded r mantissa result_exp sign fmt
    else overflowed sign rn fmt

-- From a rounded magnitude: a carry out of the rounding moves the quantum up.
unfoldable pub finish_pack : Rounded → ℤ → ℕ → ℕ → Format → Packed
unfolding placed
finish_pack r quantum sign rn fmt =
    if ltb (fmt.fraction + 1) (bit_length r.magnitude)
    then placed r (r.magnitude / 2) (quantum +ℤ pos 1) sign rn fmt
    else placed r r.magnitude quantum sign rn fmt

-- `quantum`, from the exponent of the leading digit.
unfoldable pub quantum_of : ℤ → Format → ℤ
quantum_of top fmt = max_ℤ (top -ℤ pos fmt.fraction) (pos 1 -ℤ pos fmt.bias -ℤ pos fmt.fraction)

unfoldable pub pack : ℕ → ℤ → ℕ → ℕ → Format → Packed
unfolding packed_zero quantum_of rounded_integer finish_pack
pack n exponent sign rn fmt =
    let quantum = quantum_of (pos (bit_length n) -ℤ pos 1 +ℤ exponent) fmt in
    if n == 0
    then packed_zero sign fmt
    else finish_pack (rounded_integer n (quantum -ℤ exponent) sign rn) quantum sign rn fmt

-- The exponent of the leading digit of a quotient.
unfoldable pub quotient_top : ℕ → ℕ → ℤ
quotient_top n d = elim (pos (bit_length n) -ℤ pos (bit_length d)) [
  | pos k ↦ if ltb n (d * 2 ^ k) then pos k -ℤ pos 1 else pos k
  | negsuc k ↦ if ltb (n * 2 ^ suc k) d then negsuc k -ℤ pos 1 else negsuc k
]

-- A quotient scaled by two to the `shift`, rounded.
unfoldable pub scaled_quotient : ℕ → ℕ → ℤ → ℕ → ℕ → Rounded
scaled_quotient n d (pos k) sign rn = rounded_quotient (n * 2 ^ k) d sign rn
scaled_quotient n d (negsuc k) sign rn = rounded_quotient n (d * 2 ^ suc k) sign rn

unfoldable pub pack_ratio : ℕ → ℕ → ℤ → ℕ → ℕ → Format → Packed
unfolding packed_zero quantum_of quotient_top scaled_quotient finish_pack
pack_ratio numerator denominator exponent sign rn fmt =
    let quantum = quantum_of (quotient_top numerator denominator +ℤ exponent) fmt in
    if numerator == 0
    then packed_zero sign fmt
    else finish_pack (scaled_quotient numerator denominator (exponent -ℤ quantum) sign rn) quantum
        sign rn fmt
