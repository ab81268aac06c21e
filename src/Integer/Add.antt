-- ===== src/Integer/Add.antt =====
-- sim/tools/add_family.py: add, addc, adde, addme and addze. The string `family` is a constructor,
-- so that an unknown family cannot be written.
pub mod Laws
pub mod Flags
pub mod Encode
use slo_ppc.Prelude.{
  ℕ, ◌+◌, ◌*◌, ◌^◌, bit_and, bit_or, Bool, true, false, ◌&&◌, ◌||◌, Result, ok, raise, ◌>>=◌, ◌>>◌,
  require, ltb, ◌==◌, if◌then◌else◌,
}
use slo_ppc.Prelude.Int.{ℤ, pos, negsuc, ◌+ℤ◌, ◌-ℤ◌, ltb_ℤ}
use slo_ppc.Integer.Word.{
  Error, reserved_nonzero, mask32, truthy, int, check_bit, check_nibble, check_below, signed32,
  new_cr0, register_fields,
}

pub data AddFamily : Type 0 where
  add addc adde addme addze : AddFamily

unfoldable pub xo : AddFamily → ℕ
xo add = 266
xo addc = 10
xo adde = 138
xo addme = 234
xo addze = 202

abbrev pub min_signed : ℤ
min_signed = negsuc 0x7FFF_FFFF

abbrev pub max_signed : ℤ
max_signed = pos 0x7FFF_FFFF

pub record AddResult : Type 0 where
  pub value : ℕ
  pub ca : ℕ
  pub ov : ℕ
  pub so : ℕ
  pub cr0 : ℕ

-- The keyword arguments of `evaluate`.
pub record AddFlags : Type 0 where
  pub ca : ℕ
  pub oe : ℕ
  pub rc : ℕ
  pub old_ov : ℕ
  pub old_so : ℕ
  pub old_cr0 : ℕ

-- `unsigned_total`, of masked operands.
unfoldable pub unsigned_total : AddFamily → ℕ → ℕ → ℕ → ℕ
unsigned_total add a b ca = a + b
unsigned_total addc a b ca = a + b
unsigned_total adde a b ca = a + b + ca
unsigned_total addme a b ca = a + mask32 + ca
unsigned_total addze a b ca = a + ca

-- `signed_total`, of masked operands.
unfoldable pub signed_total : AddFamily → ℕ → ℕ → ℕ → ℤ
signed_total add a b ca = signed32 a +ℤ signed32 b
signed_total addc a b ca = signed32 a +ℤ signed32 b
signed_total adde a b ca = signed32 a +ℤ signed32 b +ℤ pos ca
signed_total addme a b ca = signed32 a +ℤ pos ca -ℤ pos 1
signed_total addze a b ca = signed32 a +ℤ pos ca

-- `family == "add"`.
unfoldable pub is_add : AddFamily → Bool
is_add add = true
is_add _ = false

-- The value, the flags and CR0, from checked arguments.
unfoldable pub add_result : AddFamily → ℕ → ℕ → AddFlags → AddResult
unfolding is_add
add_result family a0 b0 f =
    let a = bit_and a0 mask32 in
    let b = bit_and b0 mask32 in
    let total = unsigned_total family a b f.ca in
    let signed = signed_total family a b f.ca in
    let value = bit_and total mask32 in
    let carry = int (ltb mask32 total) in
    let overflow = int (ltb_ℤ signed min_signed || ltb_ℤ max_signed signed) in
    let so = if truthy f.oe then bit_or f.old_so overflow else f.old_so in
    record {
      value = value;
      ca = if is_add family then f.ca else carry;
      ov = if truthy f.oe then overflow else f.old_ov;
      so = so;
      cr0 = new_cr0 f.rc value so f.old_cr0;
    }

unfoldable pub evaluate : AddFamily → ℕ → ℕ → AddFlags → Result Error AddResult
evaluate family a b f = do
  ca ← check_bit f.ca "ca"
  oe ← check_bit f.oe "oe"
  rc ← check_bit f.rc "rc"
  old_ov ← check_bit f.old_ov "old_ov"
  old_so ← check_bit f.old_so "old_so"
  old_cr0 ← check_nibble f.old_cr0 "old_cr0"
  ok (
      add_result family a b
        (record { ca = ca; oe = oe; rc = rc; old_ov = old_ov; old_so = old_so; old_cr0 = old_cr0 }))

-- `family in ("addme", "addze")`.
unfoldable pub is_unary : AddFamily → Bool
is_unary addme = true
is_unary addze = true
is_unary _ = false

unfoldable pub encode : AddFamily → ℕ → ℕ → ℕ → ℕ → ℕ → Result Error ℕ
unfolding is_unary
encode family oe0 rc0 rd ra rb = do
  oe ← check_bit oe0 "oe"
  rc ← check_bit rc0 "rc"
  _ ← check_below 32 rd "rd"
  _ ← check_below 32 ra "ra"
  _ ← check_below 32 rb "rb"
  if is_unary family && truthy rb
      then raise reserved_nonzero
      else ok (
          bit_or (bit_or (bit_or (register_fields 31 rd ra rb) (oe * 2 ^ 10)) (xo family * 2 ^ 1))
            rc)
