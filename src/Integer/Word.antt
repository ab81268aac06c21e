-- ===== src/Integer/Word.antt =====
-- What the files sim/tools/*_family.py have in common: the word mask, the argument checks and the
-- CR0 relation. A Python integer is a natural number where the code masks it first, and an integer
-- where it can be negative. `x & MASK32` is the native `bit_and`.
pub mod Laws
use Prim.Native.String.{String}
use slo_ppc.Prelude.{
  ℕ, ◌-◌, ◌*◌, ◌/◌, ◌^◌, bit_and, bit_or, Bool, not, Result, ok, raise, ltb, leb, ◌==◌,
  if◌then◌else◌,
}
use slo_ppc.Prelude.Int.{ℤ, pos, negsuc, ◌-ℤ◌}

-- The `ValueError`s. The text is the name of the argument that is refused.
pub data Error : Type 0 where
  not_bit not_nibble not_in_range : String → Error
  reserved_nonzero long_form no_fuel : Error

abbrev pub mask32 : ℕ
mask32 = 0xFFFF_FFFF

-- Python's truth value of a number.
abbrev pub truthy : ℕ → Bool
truthy n = not (n == 0)

-- `int(b)`.
abbrev pub int : Bool → ℕ
int b = if b then 1 else 0

-- `z & MASK32` of an integer: `negsuc n` is `~n`.
unfoldable pub masked : ℤ → ℕ
masked (pos n) = bit_and n mask32
masked (negsuc n) = mask32 - bit_and n mask32

-- `z >> k`, which rounds down.
unfoldable pub shr : ℤ → ℕ → ℤ
shr (pos n) k = pos (n / 2 ^ k)
shr (negsuc n) k = negsuc (n / 2 ^ k)

unfoldable pub check_bit : ℕ → String → Result Error ℕ
check_bit value name = if leb value 1 then ok value else raise (not_bit name)

unfoldable pub check_nibble : ℕ → String → Result Error ℕ
check_nibble value name = if leb value 15 then ok value else raise (not_nibble name)

-- `if not 0 <= value < limit: raise`.
unfoldable pub check_below : ℕ → ℕ → String → Result Error ℕ
check_below limit value name = if ltb value limit then ok value else raise (not_in_range name)

unfoldable pub signed32 : ℕ → ℤ
signed32 v =
    let value = bit_and v mask32 in
    if truthy (bit_and value (2 ^ 31)) then pos value -ℤ pos (2 ^ 32) else pos value

-- LT, GT and EQ of a result against zero.
unfoldable pub relation : ℕ → ℕ
relation value = if truthy (bit_and value (2 ^ 31)) then 8 else if value == 0 then 2 else 4

-- The CR0 of a record form, and of another.
unfoldable pub new_cr0 : ℕ → ℕ → ℕ → ℕ → ℕ
new_cr0 rc value so old_cr0 = if truthy rc then bit_or (relation value) so else old_cr0

-- `(op << 26) | (f << 21) | (g << 16) | (h << 11)`, the fields that the X, XO and M forms share.
unfoldable pub register_fields : ℕ → ℕ → ℕ → ℕ → ℕ
register_fields op f g h =
    bit_or (bit_or (bit_or (op * 2 ^ 26) (f * 2 ^ 21)) (g * 2 ^ 16)) (h * 2 ^ 11)
