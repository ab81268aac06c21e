-- ===== src/Integer/Logical.antt =====
-- sim/tools/logical_family.py: and, andc, or, orc, xor, nand, nor and eqv.
pub mod Laws
use slo_ppc.Prelude.{ℕ, ◌-◌, ◌*◌, ◌^◌, bit_and, bit_or, bit_xor, Result, ok, ◌>>=◌, ◌>>◌}
use slo_ppc.Prelude.Int.{ℤ, pos, negsuc}
use slo_ppc.Integer.Word.{
  Error, mask32, masked, check_bit, check_nibble, check_below, new_cr0, register_fields,
}

pub data LogicalFamily : Type 0 where
  land andc lor orc lxor nand nor eqv : LogicalFamily

unfoldable pub xo : LogicalFamily → ℕ
xo land = 28
xo andc = 60
xo lor = 444
xo orc = 412
xo lxor = 316
xo nand = 476
xo nor = 124
xo eqv = 284

pub record LogicalResult : Type 0 where
  pub value : ℕ
  pub ca : ℕ
  pub ov : ℕ
  pub so : ℕ
  pub cr0 : ℕ

-- The keyword arguments of `evaluate`.
pub record LogicalFlags : Type 0 where
  pub rc : ℕ
  pub ca : ℕ
  pub ov : ℕ
  pub so : ℕ
  pub old_cr0 : ℕ

-- The value of a form before its last mask, a Python integer: `~n` is `negsuc n`, `s & ~b` is `s`
-- less `s & b`, and `s | ~b` is `~(b & ~s)`.
unfoldable pub combined : LogicalFamily → ℕ → ℕ → ℤ
combined land s b = pos (bit_and s b)
combined andc s b = pos (s - bit_and s b)
combined lor s b = pos (bit_or s b)
combined orc s b = negsuc (b - bit_and b s)
combined lxor s b = pos (bit_xor s b)
combined nand s b = negsuc (bit_and s b)
combined nor s b = negsuc (bit_or s b)
combined eqv s b = negsuc (bit_xor s b)

unfoldable pub logical_result : LogicalFamily → ℕ → ℕ → LogicalFlags → LogicalResult
logical_result family s b f =
    let value = masked (combined family (bit_and s mask32) (bit_and b mask32)) in
    record {
      value = value;
      ca = f.ca;
      ov = f.ov;
      so = f.so;
      cr0 = new_cr0 f.rc value f.so f.old_cr0;
    }

unfoldable pub evaluate : LogicalFamily → ℕ → ℕ → LogicalFlags → Result Error LogicalResult
evaluate family s b f = do
  rc ← check_bit f.rc "rc"
  ca ← check_bit f.ca "ca"
  ov ← check_bit f.ov "ov"
  so ← check_bit f.so "so"
  old_cr0 ← check_nibble f.old_cr0 "old_cr0"
  ok (logical_result family s b (record { rc = rc; ca = ca; ov = ov; so = so; old_cr0 = old_cr0 }))

unfoldable pub encode : LogicalFamily → ℕ → ℕ → ℕ → ℕ → Result Error ℕ
encode family rc0 rs ra rb = do
  rc ← check_bit rc0 "rc"
  _ ← check_below 32 rs "rs"
  _ ← check_below 32 ra "ra"
  _ ← check_below 32 rb "rb"
  ok (bit_or (bit_or (register_fields 31 rs ra rb) (xo family * 2 ^ 1)) rc)
