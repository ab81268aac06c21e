-- ===== src/Fpu/Format.antt =====
-- `Format` and `decode` of sim/fpu/reference.py: the parts of a number's bits.
use slo_ppc.Prelude.{ℕ, ◌+◌, ◌-◌, ◌*◌, ◌/◌, ◌^◌, bit_and, bit_or, not, ◌&&◌, ◌==◌, if◌then◌else◌}
use slo_ppc.Prelude.Int.{ℤ, pos, ◌-ℤ◌}
use slo_ppc.Integer.Word.{truthy}

pub record Format : Type 0 where
  pub fraction : ℕ
  pub exponent : ℕ
  pub bias : ℕ

unfoldable pub signbit : Format → ℕ
signbit fmt = fmt.fraction + fmt.exponent

unfoldable pub infinity : Format → ℕ
infinity fmt = (2 ^ fmt.exponent - 1) * 2 ^ fmt.fraction

abbrev pub b32 : Format
b32 = record { fraction = 23; exponent = 8; bias = 127 }

abbrev pub b64 : Format
b64 = record { fraction = 52; exponent = 11; bias = 1023 }

pub data Kind : Type 0 where
  snan qnan inf finite : Kind

-- (kind, sign, significand, exponent). A finite number is the significand times two to the exponent.
pub record Decoded : Type 0 where
  pub kind : Kind
  pub sign : ℕ
  pub significand : ℕ
  pub exponent : ℤ

-- The kind of a number whose exponent field is all ones.
unfoldable pub special_kind : ℕ → Format → Kind
special_kind fraction fmt =
    if truthy fraction && not (truthy (fraction / 2 ^ (fmt.fraction - 1)))
    then snan
    else if truthy fraction
    then qnan
    else inf

-- `decode`, from the two fields below the sign.
unfoldable pub decode_fields : ℕ → ℕ → ℕ → Format → Decoded
decode_fields sign exponent fraction fmt =
    if exponent == 2 ^ fmt.exponent - 1
    then record {
      kind = special_kind fraction fmt;
      sign = sign;
      significand = fraction;
      exponent = pos 0;
    }
    else record {
      kind = finite;
      sign = sign;
      significand = bit_or fraction (if truthy exponent then 2 ^ fmt.fraction else 0);
      exponent = pos (if truthy exponent then exponent else 1) -ℤ pos fmt.bias -ℤ pos fmt.fraction;
    }

unfoldable pub decode : ℕ → Format → Decoded
decode bits fmt =
    decode_fields (bits / 2 ^ signbit fmt)
      (bit_and (bits / 2 ^ fmt.fraction) (2 ^ fmt.exponent - 1))
      (bit_and bits (2 ^ fmt.fraction - 1)) fmt
