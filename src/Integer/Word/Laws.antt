-- ===== src/Integer/Word/Laws.antt =====
-- Laws of words: masks as remainders, the sign, the range of a signed value, CR0.
use slo_ppc.Prelude.{
  ℕ, ◌+◌, ◌-◌, ◌*◌, ◌/◌, ◌%◌, ◌^◌, ◌<◌, bit_and, bit_or, ◌≡◌, arith, ltb, if◌then◌else◌, ok, ap,
  ◌∙◌,
}
use slo_ppc.Prelude.Int.{ℤ, pos, negsuc, ◌-ℤ◌}
use slo_ppc.Bits.{bit_and_mask, bit_and_field, bit_or_fields, bit_or_sum, bit_and_comm}
use slo_ppc.Bits.Digits.{bit_at, bit_at_mod, bit_at-sub-bit_and, bit_at_ones}
use slo_ppc.Integer.Word.{
  mask32, signed32, masked, relation, new_cr0, check_bit, check_nibble, check_below,
  register_fields,
}
use Prim.Native.String.{String}

-- `x & MASK32`.
pub bit_and-mask32 : (a : ℕ) → bit_and a mask32 ≡ a % 2 ^ 32
bit_and-mask32 a = bit_and_mask 32 a

-- `x & (1 << 31)`.
pub bit_and_sign : (a : ℕ) → bit_and a (2 ^ 31) ≡ a / 2 ^ 31 % 2 * 2 ^ 31
bit_and_sign a = bit_and_field 31 1 a

-- The two's complement reading of the low 32 bits, without bit operations.
abbrev pub signed_value : ℕ → ℤ
signed_value w = if ltb w (2 ^ 31) then pos w else negsuc (2 ^ 32 - w - 1)

pub signed32-eq-signed_value : (a : ℕ) → signed32 a ≡ signed_value (a % 2 ^ 32)
unfolding signed32 ◌-ℤ◌
signed32-eq-signed_value a = ground (arith, bit_and-mask32 a, bit_and_sign (bit_and a mask32))

-- The relation is one of LT (8), GT (4) and EQ (2), by the sign of the word.
pub relation_lem :
    (w : ℕ) → w < 2 ^ 32 → relation w ≡ (if ltb w (2 ^ 31) then (if ltb 0 w then 4 else 2) else 8)
unfolding relation
relation_lem w h = ground (arith, bit_and_sign w)

pub bit_or_relation : (r so : ℕ) → so < 2 → bit_or (r * 2) so ≡ r * 2 + so
bit_or_relation r so h = bit_or_fields 1 r so h

-- A record form sets the relation and SO.
pub new_cr0_lem :
    (rc w so old : ℕ)
    → w < 2 ^ 32
    → so < 2
    → rc < 2
    → new_cr0 rc w so old
      ≡ (if ltb 0 rc then (if ltb w (2 ^ 31) then (if ltb 0 w then 4 else 2) else 8) + so else old)
unfolding new_cr0
new_cr0_lem rc w so old h k l =
    ground
      (arith, relation_lem w h, bit_or_relation 4 so, bit_or_relation 2 so, bit_or_relation 1 so)

pub check_bit-ok : (v : ℕ) (name : String) → v < 2 → check_bit v name ≡ ok v
unfolding check_bit
check_bit-ok v name h = ground arith

pub check_nibble-ok : (v : ℕ) (name : String) → v < 16 → check_nibble v name ≡ ok v
unfolding check_nibble
check_nibble-ok v name h = ground arith

pub check_below-ok : (n v : ℕ) (name : String) → v < n → check_below n v name ≡ ok v
unfolding check_below
check_below-ok n v name h = ground arith

pub register_fields_sum :
    (op f g h : ℕ)
    → f < 32
    → g < 32
    → h < 32
    → register_fields op f g h ≡ op * 2 ^ 26 + f * 2 ^ 21 + g * 2 ^ 16 + h * 2 ^ 11
unfolding register_fields
register_fields_sum op f g h p q r = ground (
  arith,
  bit_or_sum 26 (op * 2 ^ 26) (f * 2 ^ 21),
  bit_or_sum 21 (op * 2 ^ 26 + f * 2 ^ 21) (g * 2 ^ 16),
  bit_or_sum 16 (op * 2 ^ 26 + f * 2 ^ 21 + g * 2 ^ 16) (h * 2 ^ 11),
)

-- The digits of `z & MASK32`.
pub masked_digit :
    (z : ℤ) (i : ℕ)
    → i < 32
    → bit_at (masked z) i ≡ (elim z [ pos n ↦ bit_at n i | negsuc n ↦ 1 - bit_at n i ])
unfolding masked
masked_digit (pos n) i l = ap (λ (t : ℕ). bit_at t i) (bit_and-mask32 n) ∙ bit_at_mod n 32 i l
masked_digit (negsuc n) i l = omega (
  arith,
  ap (λ (t : ℕ). bit_at (mask32 - t) i) (bit_and_comm n mask32),
  bit_at-sub-bit_and i mask32 n,
  bit_at_ones 32 i l,
)

pub masked-lt : (z : ℤ) → masked z < 2 ^ 32
unfolding masked
masked-lt (pos n) = omega (arith, bit_and-mask32 n)
masked-lt (negsuc n) = omega arith
