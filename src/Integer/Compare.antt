-- ===== src/Integer/Compare.antt =====
-- sim/tools/compare_family.py: cmp, cmpi, cmpl and cmpli.
pub mod Laws
use slo_ppc.Prelude.{
  ℕ, ◌+◌, ◌-◌, ◌*◌, ◌^◌, bit_and, bit_or, Bool, true, false, not, ◌&&◌, Result, ok, raise, ◌>>=◌,
  ◌>>◌, require, ltb, ◌==◌, if◌then◌else◌,
}
use slo_ppc.Prelude.Int.{ℤ, pos, ◌-ℤ◌, ltb_ℤ}
use slo_ppc.Integer.Word.{Error, long_form, mask32, truthy, masked, check_bit, check_below}

pub data CompareFamily : Type 0 where
  cmp cmpi cmpl cmpli : CompareFamily

-- The D form, with its opcode, or the X form, with its opcode and extended opcode.
pub data Form : Type 0 where
  x_form : ℕ → ℕ → Form
  d_form : ℕ → Form

unfoldable pub encodings : CompareFamily → Form
encodings cmp = x_form 31 0
encodings cmpi = d_form 11
encodings cmpl = x_form 31 32
encodings cmpli = d_form 10

pub record CompareResult : Type 0 where
  pub cr : ℕ
  pub field : ℕ
  pub ca : ℕ
  pub ov : ℕ
  pub so : ℕ

-- The keyword arguments of `evaluate`.
pub record CompareFlags : Type 0 where
  pub bf : ℕ
  pub l : ℕ
  pub ca : ℕ
  pub ov : ℕ
  pub so : ℕ
  pub old_cr : ℕ

-- `family.endswith("i")`.
unfoldable pub is_immediate : CompareFamily → Bool
is_immediate cmpi = true
is_immediate cmpli = true
is_immediate _ = false

-- `family in {"cmp", "cmpi"}`.
unfoldable pub is_signed : CompareFamily → Bool
is_signed cmp = true
is_signed cmpi = true
is_signed _ = false

-- `_signed32`.
unfoldable pub signed_word : ℤ → ℤ
signed_word z =
    let value = masked z in
    if truthy (bit_and value 0x8000_0000) then pos value -ℤ pos (2 ^ 32) else pos value

-- `b`: cmpi extends the sign of its field, and the register forms mask it.
unfoldable pub operand : CompareFamily → ℕ → ℤ
operand cmpi rhs = if truthy (bit_and rhs 0x8000) then pos rhs -ℤ pos (2 ^ 16) else pos rhs
operand cmpli rhs = pos rhs
operand _ rhs = pos (bit_and rhs mask32)

unfoldable pub compare_relation : CompareFamily → ℕ → ℤ → ℕ
unfolding is_signed
compare_relation family a b =
    let left = if is_signed family then signed_word (pos a) else pos a in
    let right = if is_signed family then signed_word b else b in
    if ltb_ℤ left right then 8 else if ltb_ℤ right left then 4 else 2

-- The result of checked arguments. `old & ~mask` is `old` less `old & mask`.
unfoldable pub compare_result : CompareFamily → ℕ → ℕ → CompareFlags → CompareResult
compare_result family a rhs f =
    let field = bit_or (compare_relation family (bit_and a mask32) (operand family rhs)) f.so in
    let shift = 28 - 4 * f.bf in
    let field_mask = 0xF * 2 ^ shift in
    record {
      cr = bit_or (f.old_cr - bit_and f.old_cr field_mask) (field * 2 ^ shift);
      field = field;
      ca = f.ca;
      ov = f.ov;
      so = f.so;
    }

unfoldable pub evaluate : CompareFamily → ℕ → ℕ → CompareFlags → Result Error CompareResult
unfolding is_immediate
evaluate family a rhs f = do
  bf ← check_below 8 f.bf "bf"
  _ ← require (f.l == 0) long_form
  ca ← check_bit f.ca "ca"
  ov ← check_bit f.ov "ov"
  so ← check_bit f.so "so"
  old_cr ← check_below (2 ^ 32) f.old_cr "old_cr"
  _ ← (if is_immediate family then check_below (2 ^ 16) rhs "rhs" else ok rhs)
  ok (
      compare_result family a rhs
        (record { bf = bf; l = f.l; ca = ca; ov = ov; so = so; old_cr = old_cr }))

-- The last step of `encode`, by the form.
unfoldable pub encode_form : Form → ℕ → ℕ → ℕ → Result Error ℕ
encode_form (d_form opcode) bf ra rhs = do
  _ ← check_below (2 ^ 16) rhs "rhs"
  ok (bit_or (bit_or (bit_or (opcode * 2 ^ 26) (bf * 2 ^ 23)) (ra * 2 ^ 16)) rhs)
encode_form (x_form opcode xo) bf ra rhs = do
  _ ← check_below 32 rhs "rhs"
  ok (
      bit_or (bit_or (bit_or (bit_or (opcode * 2 ^ 26) (bf * 2 ^ 23)) (ra * 2 ^ 16)) (rhs * 2 ^ 11))
        (xo * 2 ^ 1))

unfoldable pub encode : CompareFamily → ℕ → ℕ → ℕ → ℕ → Result Error ℕ
encode family bf ra rhs l = do
  _ ← check_below 8 bf "bf"
  _ ← check_below 32 ra "ra"
  _ ← require (l == 0) long_form
  encode_form (encodings family) bf ra rhs
