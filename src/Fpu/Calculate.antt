-- ===== src/Fpu/Calculate.antt =====
-- `calculate` and `calculate_fma` of sim/fpu/reference.py. The string `op` is a constructor, so that the
-- `ValueError` for an unknown one has no counterpart.
use slo_ppc.Prelude.{
  ℕ, suc, ◌-◌, ◌*◌, ◌/◌, ◌^◌, bit_or, bit_xor, Bool, true, false, not, ◌&&◌, ◌||◌, leb, ◌==◌,
  if◌then◌else◌,
}
use slo_ppc.Prelude.Int.{ℤ, pos, negsuc, pos_part, ◌+ℤ◌, ◌-ℤ◌, ltb_ℤ}
use slo_ppc.Integer.Word.{truthy, int, masked, signed32}
use slo_ppc.Fpu.Format.{
  Format, signbit, infinity, b32, b64, Kind, snan, qnan, inf, finite, Decoded, decode,
}
use slo_ppc.Fpu.Round.{Packed, pack, pack_ratio, rounded_integer, min_ℤ}

pub data Op : Type 0 where
  add sub mul div cmp to32 to64 i32tof ftoi32 : Op

-- The result dictionary.
pub record Outcome : Type 0 where
  pub bits : ℕ
  pub nx : Bool
  pub uf : Bool
  pub of : Bool
  pub dz : Bool
  pub invalid : Bool
  pub increment : Bool

-- `out` with a result and the `invalid` flag, and no other.
abbrev pub plain : ℕ → Bool → Outcome
plain bits invalid = record {
  bits = bits;
  nx = false;
  uf = false;
  of = false;
  dz = false;
  invalid = invalid;
  increment = false;
}

-- `out.update(zip(('bits', 'nx', 'uf', 'of', 'increment'), raw))`.
abbrev pub raised : Packed → Outcome
raised p = record {
  bits = p.bits;
  nx = p.nx;
  uf = p.uf;
  of = p.of;
  dz = false;
  invalid = false;
  increment = p.increment;
}

unfoldable pub is_nan : Kind → Bool
is_nan snan = true
is_nan qnan = true
is_nan _ = false

unfoldable pub is_snan : Kind → Bool
is_snan snan = true
is_snan _ = false

unfoldable pub is_inf : Kind → Bool
is_inf inf = true
is_inf _ = false

unfoldable pub is_finite : Kind → Bool
is_finite finite = true
is_finite _ = false

-- `-m if s else m`.
unfoldable pub signed_by : ℕ → ℕ → ℤ
signed_by s m = if truthy s then pos 0 -ℤ pos m else pos m

abbrev pub magnitude_of : ℤ → ℕ
magnitude_of (pos n) = n
magnitude_of (negsuc n) = suc n

-- A finite number in units of two to the `exponent`, which is not above its own.
unfoldable pub aligned : Decoded → ℤ → ℤ
unfolding signed_by
aligned d exponent = signed_by d.sign (d.significand * 2 ^ pos_part (d.exponent -ℤ exponent))

-- A finite zero.
unfoldable pub is_zero : Decoded → Bool
is_zero d = is_finite d.kind && not (truthy d.significand)

-- `fmt.infinity | (1 << (fmt.fraction - 1))`.
unfoldable pub default_nan : Format → ℕ
default_nan fmt = bit_or (infinity fmt) (2 ^ (fmt.fraction - 1))

abbrev pub signed_infinity : ℕ → Format → ℕ
signed_infinity sign fmt = bit_or (sign * 2 ^ signbit fmt) (infinity fmt)

-- The rank of a number beside an infinite one.
unfoldable pub rank : Decoded → ℤ
unfolding is_inf
rank d =
    if is_inf d.kind
    then (if truthy d.sign then negsuc 1 else pos 2)
    else if truthy d.significand
    then (if truthy d.sign then negsuc 0 else pos 1)
    else pos 0

abbrev pub cmp_code : ℤ → ℤ → ℕ
cmp_code va vb = if ltb_ℤ va vb then 1 else if ltb_ℤ vb va then 2 else 0

unfoldable pub compare_decoded : Decoded → Decoded → Outcome
unfolding is_nan is_snan is_inf rank aligned
compare_decoded da db =
    let exponent = min_ℤ da.exponent db.exponent in
    if is_nan da.kind || is_nan db.kind
    then plain 3 (is_snan da.kind || is_snan db.kind)
    else if is_inf da.kind || is_inf db.kind
    then plain (cmp_code (rank da) (rank db)) false
    else plain (cmp_code (aligned da exponent) (aligned db exponent)) false

unfoldable pub to_integer : Decoded → ℕ → Outcome
unfolding is_finite
to_integer d rn =
    let r = rounded_integer d.significand (pos 0 -ℤ d.exponent) d.sign rn in
    let value = signed_by d.sign r.magnitude in
    if not (is_finite d.kind)
    then plain 0x8000_0000 true
    else if ltb_ℤ value (negsuc (2 ^ 31 - 1)) || not (ltb_ℤ value (pos (2 ^ 31)))
    then plain 0x8000_0000 true
    else record (plain (masked value) false) { nx = r.nx; increment = r.increment }

-- The payload of a NaN in another format.
unfoldable pub moved_payload : ℕ → Format → Format → ℕ
moved_payload m fmt dest =
    if leb dest.fraction fmt.fraction
    then m / 2 ^ (fmt.fraction - dest.fraction)
    else m * 2 ^ (dest.fraction - fmt.fraction)

unfoldable pub convert : Decoded → ℕ → Format → Format → Outcome
unfolding is_nan is_snan is_inf
convert d rn fmt dest =
    if is_nan d.kind
    then plain
        (bit_or (bit_or (signed_infinity d.sign dest) (moved_payload d.significand fmt dest))
          (2 ^ (dest.fraction - 1)))
        (is_snan d.kind)
    else if is_inf d.kind
    then plain (signed_infinity d.sign dest) false
    else raised (pack d.significand d.exponent d.sign rn dest)

-- A NaN operand is the result, quieted; the first of two.
unfoldable pub quiet_first : ℕ → ℕ → Decoded → Decoded → Format → Outcome
unfolding is_nan is_snan
quiet_first a b da db fmt =
    plain (bit_or (if is_nan da.kind then a else b) (2 ^ (fmt.fraction - 1)))
      (is_snan da.kind || is_snan db.kind)

-- The sign of a sum: its own, or where it is zero that of the terms, and by the mode if they differ.
unfoldable pub sum_sign : ℤ → ℕ → ℕ → ℕ → ℕ
sum_sign value sa sb rn =
    if magnitude_of value == 0
    then (if sa == sb then sa else int (rn == 3))
    else int (ltb_ℤ value (pos 0))

-- A sum of two numbers, the second with its sign already turned for a difference.
unfoldable pub add_decoded : Decoded → Decoded → ℕ → Format → Outcome
unfolding is_inf aligned sum_sign
add_decoded da db rn fmt =
    let exponent = min_ℤ da.exponent db.exponent in
    let value = aligned da exponent +ℤ aligned db exponent in
    if is_inf da.kind && (is_inf db.kind && not (da.sign == db.sign))
    then plain (default_nan fmt) true
    else if is_inf da.kind || is_inf db.kind
    then plain (signed_infinity (if is_inf da.kind then da.sign else db.sign) fmt) false
    else raised (pack (magnitude_of value) exponent (sum_sign value da.sign db.sign rn) rn fmt)

unfoldable pub div_decoded : Decoded → Decoded → ℕ → Format → Outcome
unfolding is_inf is_finite is_zero
div_decoded da db rn fmt =
    let sign = bit_xor da.sign db.sign in
    if (is_inf da.kind && is_inf db.kind) || (is_zero da && is_zero db)
    then plain (default_nan fmt) true
    else if is_finite da.kind && (truthy da.significand && is_zero db)
    then record (plain (signed_infinity sign fmt) false) { dz = true }
    else if is_inf da.kind || is_inf db.kind
    then plain (bit_or (sign * 2 ^ signbit fmt) (if is_inf da.kind then infinity fmt else 0)) false
    else raised (pack_ratio da.significand db.significand (da.exponent -ℤ db.exponent) sign rn fmt)

unfoldable pub mul_decoded : Decoded → Decoded → ℕ → Format → Outcome
unfolding is_inf is_finite is_zero
mul_decoded da db rn fmt =
    let sign = bit_xor da.sign db.sign in
    if (is_inf da.kind && is_zero db) || (is_inf db.kind && is_zero da)
    then plain (default_nan fmt) true
    else if is_inf da.kind || is_inf db.kind
    then plain (signed_infinity sign fmt) false
    else raised (pack (da.significand * db.significand) (da.exponent +ℤ db.exponent) sign rn fmt)

-- A two-operand operation after the choice of a NaN.
unfoldable pub binary : (Decoded → Decoded → ℕ → Format → Outcome) → ℕ → ℕ → ℕ → Format → Outcome
unfolding is_nan quiet_first
binary f a b rn fmt =
    let da = decode a fmt in
    let db = decode b fmt in
    if is_nan da.kind || is_nan db.kind then quiet_first a b da db fmt else f da db rn fmt

-- `sb ^= 1`.
abbrev pub turned : Decoded → Decoded
turned d = record d { sign = bit_xor d.sign 1 }

unfoldable pub calculate : Op → ℕ → ℕ → ℕ → Format → Outcome
unfolding compare_decoded to_integer convert add_decoded div_decoded mul_decoded binary
calculate i32tof a b rn fmt =
    let value = signed32 a in
    raised (pack (magnitude_of value) (pos 0) (int (ltb_ℤ value (pos 0))) rn fmt)
calculate cmp a b rn fmt = compare_decoded (decode a fmt) (decode b fmt)
calculate ftoi32 a b rn fmt = to_integer (decode a fmt) rn
calculate to32 a b rn fmt = convert (decode a fmt) rn fmt b32
calculate to64 a b rn fmt = convert (decode a fmt) rn fmt b64
calculate add a b rn fmt = binary add_decoded a b rn fmt
calculate sub a b rn fmt = binary (λ da db. add_decoded da (turned db)) a b rn fmt
calculate mul a b rn fmt = binary mul_decoded a b rn fmt
calculate div a b rn fmt = binary div_decoded a b rn fmt

-- A fused product and sum of three numbers that are no NaN, with the signs of the product and the addend.
unfoldable pub fma_decoded : Decoded → Decoded → Decoded → ℕ → ℕ → ℕ → Format → Outcome
unfolding is_inf is_finite is_zero sum_sign signed_by
fma_decoded da db dc sp sc rn fmt =
    let exponent = min_ℤ (da.exponent +ℤ db.exponent) dc.exponent in
    let product =
      da.significand * db.significand * 2 ^ pos_part (da.exponent +ℤ db.exponent -ℤ exponent) in
    let addend = dc.significand * 2 ^ pos_part (dc.exponent -ℤ exponent) in
    let value = signed_by sp product +ℤ signed_by sc addend in
    if (is_inf da.kind && is_zero db) || (is_inf db.kind && is_zero da)
    then plain (default_nan fmt) true
    else if is_inf da.kind || is_inf db.kind
    then (if is_inf dc.kind && not (sp == sc)
        then plain (default_nan fmt) true
        else plain (signed_infinity sp fmt) false)
    else if is_inf dc.kind
    then plain (signed_infinity sc fmt) false
    else raised (pack (magnitude_of value) exponent (sum_sign value sp sc rn) rn fmt)

-- The first NaN of the three, quieted.
unfoldable pub calculate_fma : ℕ → ℕ → ℕ → ℕ → Format → Bool → Bool → Outcome
unfolding is_nan is_snan fma_decoded
calculate_fma a b c rn fmt negate_product negate_addend =
    let da = decode a fmt in
    let db = decode b fmt in
    let dc = decode c fmt in
    let invalid = is_snan da.kind || (is_snan db.kind || is_snan dc.kind) in
    let quiet = λ (bits : ℕ). plain (bit_or bits (2 ^ (fmt.fraction - 1))) invalid in
    if is_nan da.kind
    then quiet a
    else if is_nan db.kind
    then quiet b
    else if is_nan dc.kind
    then quiet c
    else fma_decoded da db dc (bit_xor (bit_xor da.sign db.sign) (int negate_product))
        (bit_xor dc.sign (int negate_addend)) rn fmt
