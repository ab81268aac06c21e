-- ===== src/Integer/Shift.antt =====
-- sim/tools/shift_family.py: slw, srw, sraw and srawi.
pub mod Laws
pub mod Divide
use slo_ppc.Prelude.{
  ℕ, ◌+◌, ◌-◌, ◌*◌, ◌/◌, ◌^◌, ◌<◌, bit_and, bit_or, Bool, true, false, ◌&&◌, Result, ok, ◌>>=◌,
  ◌>>◌, ltb, ◌==◌, if◌then◌else◌,
}
use slo_ppc.Prelude.Int.{ℤ, pos, ◌-ℤ◌}
use slo_ppc.Integer.Word.{
  masked, shr, Error, mask32, truthy, int, check_bit, check_nibble, check_below, new_cr0,
  register_fields,
}

pub data ShiftFamily : Type 0 where
  slw srw sraw srawi : ShiftFamily

unfoldable pub xo : ShiftFamily → ℕ
xo slw = 24
xo srw = 536
xo sraw = 792
xo srawi = 824

pub record ShiftResult : Type 0 where
  pub value : ℕ
  pub ca : ℕ
  pub ov : ℕ
  pub so : ℕ
  pub cr0 : ℕ

-- The keyword arguments of `evaluate`.
pub record ShiftFlags : Type 0 where
  pub rc : ℕ
  pub ca : ℕ
  pub ov : ℕ
  pub so : ℕ
  pub old_cr0 : ℕ

-- The shift count: SH for srawi, which must fit five bits, and the low six bits of rB otherwise.
unfoldable pub shift_count : ShiftFamily → ℕ → Result Error ℕ
shift_count srawi shift = check_below 32 shift "sh"
shift_count _ shift = ok (bit_and shift 0x3F)

-- `s - (1 << 32) if negative else s`.
unfoldable pub signed_source : ℕ → ℤ
signed_source s = if truthy (bit_and s 0x8000_0000) then pos s -ℤ pos (2 ^ 32) else pos s

-- The value of a form and its CA, of a masked `s` and its count.
unfoldable pub shifted : ShiftFamily → ℕ → ℕ → ℕ → ℕ × ℕ
shifted slw s count ca = (if ltb count 32 then bit_and (s * 2 ^ count) mask32 else 0, ca)
shifted srw s count ca = (if ltb count 32 then s / 2 ^ count else 0, ca)
shifted _ s count ca =
    let negative = truthy (bit_and s 0x8000_0000) in
    if ltb count 32
    then (
      masked (shr (signed_source s) count),
      int (negative && (ltb 0 count && truthy (bit_and s (2 ^ count - 1)))),
    )
    else (if negative then mask32 else 0, int (negative && negative))

-- The result, of a masked `s` and its count.
unfoldable pub shift_result : ShiftFamily → ℕ → ℕ → ShiftFlags → ShiftResult
shift_result family s count f =
    let (value, ca) = shifted family s count f.ca in
    record { value = value; ca = ca; ov = f.ov; so = f.so; cr0 = new_cr0 f.rc value f.so f.old_cr0 }

unfoldable pub evaluate : ShiftFamily → ℕ → ℕ → ShiftFlags → Result Error ShiftResult
evaluate family s shift f = do
  rc ← check_bit f.rc "rc"
  ca ← check_bit f.ca "ca"
  ov ← check_bit f.ov "ov"
  so ← check_bit f.so "so"
  old_cr0 ← check_nibble f.old_cr0 "old_cr0"
  count ← shift_count family shift
  ok (
      shift_result family (bit_and s mask32) count
        (record { rc = rc; ca = ca; ov = ov; so = so; old_cr0 = old_cr0 }))

unfoldable pub encode : ShiftFamily → ℕ → ℕ → ℕ → ℕ → Result Error ℕ
encode family rc0 rs ra rb_or_sh = do
  rc ← check_bit rc0 "rc"
  _ ← check_below 32 rs "rs"
  _ ← check_below 32 ra "ra"
  _ ← check_below 32 rb_or_sh "rb_or_sh"
  ok (bit_or (bit_or (register_fields 31 rs ra rb_or_sh) (xo family * 2 ^ 1)) rc)
