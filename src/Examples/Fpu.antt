-- ===== src/Examples/Fpu.antt =====
-- The theorems on the floating-point reference at concrete numbers, and runs of it.
use slo_ppc.Prelude.{◌*◌, ◌<◌, ◌≡◌, ◌↔◌, refl, arith, true, false}
use slo_ppc.Prelude.Int.{◌+ℤ◌, ◌-ℤ◌}
use slo_ppc.Fpu.Format.{finite, b32, b64, decode, decode_fields, signbit, infinity}
use slo_ppc.Fpu.Round.{pack, pack_ratio, rounded_quotient, bit_length}
use slo_ppc.Fpu.Calculate.{add, sub, mul, div, calculate, calculate_fma}
use slo_ppc.Fpu.Rounding.{IsRounded, rounded_quotient-IsRounded}
use slo_ppc.Fpu.Encoding.{pack-decode, exactly}

-- A tie goes to the even neighbour: 7 / 2 gives 4.
rounded_quotient-IsRounded_example :
    let r = rounded_quotient 7 2 0 0 in
    IsRounded 0 0 7 2 r.magnitude
    × ((r.nx ≡ false) ↔ (r.magnitude * 2 ≡ 7))
    × ((r.increment ≡ true) ↔ (7 < r.magnitude * 2))
rounded_quotient-IsRounded_example = rounded_quotient-IsRounded 7 2 0 0 (omega arith)

finite_one : (decode 0xBFC0_0000 b32).kind ≡ finite
unfolding decode decode_fields
finite_one = refl

-- The number -1.5.
pack-decode_example :
    let d = decode 0xBFC0_0000 b32 in
    pack d.significand d.exponent d.sign 3 b32 ≡ exactly 0xBFC0_0000
pack-decode_example =
    pack-decode 0xBFC0_0000 3 b32
      (record { has_fraction = omega arith; has_exponent = omega arith }) finite_one

-- 1.5 + 2.25 is 3.75.
sum_exact : (calculate add 0x3FC0_0000 0x4010_0000 0 b32).bits ≡ 0x4070_0000
unfolding calculate decode decode_fields pack ◌+ℤ◌ signbit ◌-ℤ◌ bit_length
sum_exact = refl

-- 1 / 3, rounded up.
third : (calculate div 0x3F80_0000 0x4040_0000 0 b32).bits ≡ 0x3EAA_AAAB
unfolding calculate decode decode_fields pack_ratio bit_length ◌-ℤ◌ ◌+ℤ◌ rounded_quotient signbit
third = refl

-- A product beyond the largest number is that number, rounding towards zero.
product_overflow : (calculate mul 0x7F00_0000 0x7F00_0000 1 b32).bits ≡ 0x7F7F_FFFF
unfolding calculate decode decode_fields pack ◌+ℤ◌ signbit ◌-ℤ◌ bit_length infinity
product_overflow = refl

-- The smallest subnormal less its double.
subnormal_difference : (calculate sub 1 2 0 b64).bits ≡ 0x8000_0000_0000_0001
unfolding calculate decode decode_fields pack ◌+ℤ◌ signbit ◌-ℤ◌ bit_length
subnormal_difference = refl

-- 1.5 * 2 - 3 is the negative zero when rounding down.
fused_zero :
    (calculate_fma 0x3FF8_0000_0000_0000 0x4000_0000_0000_0000 0xC008_0000_0000_0000 3 b64 false
      false).bits
    ≡ 0x8000_0000_0000_0000
unfolding calculate_fma decode decode_fields pack ◌+ℤ◌ signbit ◌-ℤ◌
fused_zero = refl
