-- ===== src/Fpu/Powerpc.antt =====
-- sim/fpu/ppc_reference.py: the result and the exception bits of one PowerPC floating-point operation, over
-- the exact reference. The string `op` is a constructor.
use slo_ppc.Prelude.{ℕ, ◌-◌, ◌*◌, ◌/◌, ◌^◌, bit_and, bit_xor, Bool, ltb, ◌==◌, if◌then◌else◌}
use slo_ppc.Prelude.Int.{ℤ, pos, pos_part, ◌+ℤ◌, ◌-ℤ◌}
use slo_ppc.Integer.Word.{truthy}
use slo_ppc.Fpu.Format.{Format, b64, Decoded, decode}
use slo_ppc.Fpu.Round.{Rounded, bit_length, quotient_top, scaled_quotient, min_ℤ}
use slo_ppc.Fpu.Calculate.{is_nan, is_inf, aligned, signed_by, magnitude_of, sum_sign, turned}

pub data Op : Type 0 where
  add sub mul div madd msub nmadd nmsub frsp fctiw fctiwz cmpu cmpo : Op

abbrev pub default_nan : ℕ
default_nan = 0x7FF8_0000_0000_0000

abbrev pub vx_snan : ℕ
vx_snan = 1

abbrev pub vx_isi : ℕ
vx_isi = 2

abbrev pub vx_idi : ℕ
vx_idi = 4

abbrev pub vx_zdz : ℕ
vx_zdz = 8

abbrev pub vx_imz : ℕ
vx_imz = 16

abbrev pub vx_vc : ℕ
vx_vc = 32

abbrev pub vx_cvi : ℕ
vx_cvi = 256

-- The FPRF class of a number.
unfoldable pub classify : ℕ → Format → ℕ
unfolding is_nan is_inf
classify bits fmt =
    let d = decode bits fmt in
    if is_nan d.kind
    then 0b10001
    else if is_inf d.kind
    then (if truthy d.sign then 0b01001 else 0b00101)
    else if d.significand == 0
    then (if truthy d.sign then 0b10010 else 0b00010)
    else if bit_and (bits / 2 ^ fmt.fraction) (2 ^ fmt.exponent - 1) == 0
    then (if truthy d.sign then 0b11000 else 0b10100)
    else (if truthy d.sign then 0b01000 else 0b00100)

-- `_top`.
unfoldable pub top : ℕ → ℕ → ℤ → ℤ
top n d exponent = quotient_top n d +ℤ exponent

-- The mantissa and its quantum, inexact and incremented.
pub record Unbounded : Type 0 where
  pub mantissa : ℕ
  pub quantum : ℤ
  pub inexact : Bool
  pub increment : Bool

-- A rounded mantissa, halved where it has carried into one more digit.
unfoldable pub renormal : Rounded → ℤ → ℕ → Unbounded
renormal r quantum precision =
    let carry = ltb precision (bit_length r.magnitude) in
    record {
      mantissa = if carry then r.magnitude / 2 else r.magnitude;
      quantum = if carry then quantum +ℤ pos 1 else quantum;
      inexact = r.nx;
      increment = r.increment;
    }

-- `_unbounded_round`.
unfoldable pub unbounded_round : ℕ → ℕ → ℤ → ℕ → ℕ → ℕ → Unbounded
unfolding top renormal
unbounded_round n d exponent sign rn precision =
    let quantum = top n d exponent -ℤ pos precision +ℤ pos 1 in
    renormal (scaled_quotient n d (exponent -ℤ quantum) sign rn) quantum precision

-- A magnitude `n / d` times two to the exponent, with its sign.
pub record Ratio : Type 0 where
  pub n : ℕ
  pub d : ℕ
  pub exponent : ℤ
  pub sign : ℕ

unfoldable pub sum_ratio : Decoded → Decoded → ℕ → Ratio
unfolding aligned sum_sign
sum_ratio da db rn =
    let exponent = min_ℤ da.exponent db.exponent in
    let value = aligned da exponent +ℤ aligned db exponent in
    record {
      n = magnitude_of value;
      d = 1;
      exponent = exponent;
      sign = sum_sign value da.sign db.sign rn;
    }

unfoldable pub product_ratio : Decoded → Decoded → Ratio
product_ratio da dc = record {
  n = da.significand * dc.significand;
  d = 1;
  exponent = da.exponent +ℤ dc.exponent;
  sign = bit_xor da.sign dc.sign;
}

-- A product and an addend, the addend with its sign already turned for a difference.
unfoldable pub fused_ratio : Decoded → Decoded → Decoded → ℕ → Ratio
unfolding signed_by sum_sign
fused_ratio da db dc rn =
    let sp = bit_xor da.sign dc.sign in
    let exponent = min_ℤ (da.exponent +ℤ dc.exponent) db.exponent in
    let product =
      da.significand * dc.significand * 2 ^ pos_part (da.exponent +ℤ dc.exponent -ℤ exponent) in
    let addend = db.significand * 2 ^ pos_part (db.exponent -ℤ exponent) in
    let value = signed_by sp product +ℤ signed_by db.sign addend in
    record {
      n = magnitude_of value;
      d = 1;
      exponent = exponent;
      sign = sum_sign value sp db.sign rn;
    }

-- `_finite`, and its call for `frsp`, which multiplies by one. The last three operations do not reach it.
unfoldable pub finite_ratio : Op → ℕ → ℕ → ℕ → ℕ → Ratio
unfolding sum_ratio product_ratio fused_ratio
finite_ratio add a b c rn = sum_ratio (decode a b64) (decode b b64) rn
finite_ratio sub a b c rn = sum_ratio (decode a b64) (turned (decode b b64)) rn
finite_ratio mul a b c rn = product_ratio (decode a b64) (decode c b64)
finite_ratio div a b c rn =
    let da = decode a b64 in
    let db = decode b b64 in
    record {
      n = da.significand;
      d = db.significand;
      exponent = da.exponent -ℤ db.exponent;
      sign = bit_xor da.sign db.sign;
    }
finite_ratio msub a b c rn = fused_ratio (decode a b64) (turned (decode b b64)) (decode c b64) rn
finite_ratio nmsub a b c rn = fused_ratio (decode a b64) (turned (decode b b64)) (decode c b64) rn
finite_ratio frsp a b c rn = product_ratio (decode b b64) (decode 0x3FF0_0000_0000_0000 b64)
finite_ratio _ a b c rn = fused_ratio (decode a b64) (decode b b64) (decode c b64) rn
