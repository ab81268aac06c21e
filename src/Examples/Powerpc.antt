-- ===== src/Examples/Powerpc.antt =====
-- The theorems on the PowerPC floating-point reference at concrete numbers, and runs of it.
use slo_ppc.Prelude.{◌≡◌, refl, arith, true, false}
use slo_ppc.Prelude.Int.{negsuc, ◌-ℤ◌, ◌+ℤ◌}
use slo_ppc.Integer.Word.{masked}
use slo_ppc.Fpu.Format.{b32, b64, decode, decode_fields, signbit}
use slo_ppc.Fpu.Round.{pack, pack_ratio, rounded_integer, rounded_quotient, bit_length}
use slo_ppc.Fpu.Calculate.{calculate, is_nan, is_inf}
use slo_ppc.Fpu.Calculate
use slo_ppc.Fpu.Powerpc.{add, sub, mul, div, madd, fctiw, finite_ratio, classify}
use slo_ppc.Fpu.Arithmetic.{Controls, arithmetic}
use slo_ppc.Fpu.Agreement.{pack_ratio-pack}
use slo_ppc.Fpu.Refinement.{arithmetic-calculate}
use slo_ppc.Fpu.Reports.{IsWithheld, arithmetic-IsWithheld, IsClass, classify-decode}

-- Double precision with every exception disabled, rounding to nearest.
abbrev nearest : Controls
nearest = record {
  rn = 0;
  single = false;
  ni = false;
  ve = false;
  oe = false;
  ue = false;
  ze = false;
}

arithmetic-calculate_example :
    ((arithmetic add 0x3FF8_0000_0000_0000 0x7FF0_0000_0000_0000 0 nearest).result
      ≡ (calculate Calculate.add 0x3FF8_0000_0000_0000 0x7FF0_0000_0000_0000 0 b64).bits)
    × ((arithmetic sub 0x3FF8_0000_0000_0000 0x7FF0_0000_0000_0000 0 nearest).result
        ≡ (calculate Calculate.sub 0x3FF8_0000_0000_0000 0x7FF0_0000_0000_0000 0 b64).bits)
    × ((arithmetic mul 0x3FF8_0000_0000_0000 0 0x7FF0_0000_0000_0000 nearest).result
        ≡ (calculate Calculate.mul 0x3FF8_0000_0000_0000 0x7FF0_0000_0000_0000 0 b64).bits)
    × ((arithmetic div 0x3FF8_0000_0000_0000 0x7FF0_0000_0000_0000 0 nearest).result
        ≡ (calculate Calculate.div 0x3FF8_0000_0000_0000 0x7FF0_0000_0000_0000 0 b64).bits)
arithmetic-calculate_example =
    arithmetic-calculate 0x3FF8_0000_0000_0000 0x7FF0_0000_0000_0000 nearest
      (record { double = refl; ieee = refl; no_oe = refl; no_ue = refl }) (omega arith)
      (omega arith)

pack_ratio-pack_example : pack_ratio 3 1 (negsuc 0) 1 2 b32 ≡ pack 3 (negsuc 0) 1 2 b32
pack_ratio-pack_example = pack_ratio-pack 3 (negsuc 0) 1 2 b32

-- A division by zero whose exception is enabled.
abbrev trapping : Controls
trapping = record nearest { ze = true }

division_withheld : (arithmetic div 0x3FF0_0000_0000_0000 0 0 trapping).write_result ≡ false
unfolding arithmetic decode decode_fields
division_withheld = refl

arithmetic-IsWithheld_example :
    IsWithheld trapping (arithmetic div 0x3FF0_0000_0000_0000 0 0 trapping)
arithmetic-IsWithheld_example =
    arithmetic-IsWithheld div 0x3FF0_0000_0000_0000 0 0 trapping division_withheld

classify-decode_example : IsClass b32 (decode 0x8000_0001 b32) (classify 0x8000_0001 b32)
classify-decode_example = classify-decode 0x8000_0001 b32

-- 1.5 * 2 - 3 is a positive zero.
fused_class :
    (arithmetic madd 0x3FF8_0000_0000_0000 0xC008_0000_0000_0000 0x4000_0000_0000_0000 nearest).fprf
    ≡ 0b00010
unfolding arithmetic decode decode_fields pack_ratio finite_ratio ◌+ℤ◌ signbit ◌-ℤ◌ classify
fused_class = refl

-- -3.5 goes to the even -4.
rounded_word : (arithmetic fctiw 0 0xC00C_0000_0000_0000 0 nearest).result ≡ 0xFFFF_FFFC
unfolding arithmetic calculate decode decode_fields signbit ◌-ℤ◌ rounded_integer masked
rounded_word = refl

-- A product that underflows with the exception enabled is scaled up by 2 ^ 1536.
scaled_underflow :
    (arithmetic mul 0x0010_0000_0000_0000 0 0x3FE0_0000_0000_0000
      (record nearest { ue = true })).result
    ≡ 0x6000_0000_0000_0000
unfolding arithmetic decode decode_fields pack_ratio finite_ratio bit_length ◌-ℤ◌ ◌+ℤ◌
    rounded_quotient signbit
scaled_underflow = refl
