-- ===== src/Examples/Integer.antt =====
-- The theorems on the integer families at concrete words.
use slo_ppc.Prelude.{
  ℕ, ◌+◌, ◌-◌, ◌*◌, ◌/◌, ◌%◌, ◌^◌, ◌<◌, ◌≡◌, ◌↔◌, refl, arith, ◌&&◌, ok, ltb, leb, max,
  if◌then◌else◌,
}
use slo_ppc.Bits.Digits.{bit_at}
use slo_ppc.Integer.Word.{check_bit, check_below, register_fields}
use slo_ppc.Integer.Word.Laws.{signed_value}
use slo_ppc.Integer.Add.{
  AddFamily, addc, adde, addme, addze, AddFlags, AddResult, add_result, is_add, xo,
}
use slo_ppc.Integer.Add
use slo_ppc.Integer.Add.Laws.{exact_sum, exact_signed, evaluate_sum, ov_iff}
use slo_ppc.Integer.Add.Flags.{add_flags, addc-adde, after, sign_relation}
use slo_ppc.Integer.Add.Encode.{IsForm, encode_injective}
use slo_ppc.Integer.Shift.{ShiftFlags, ShiftResult, shift_result, srawi, sraw}
use slo_ppc.Integer.Shift
use slo_ppc.Integer.Shift.Laws.{IsShifted, places, evaluate_shift}
use slo_ppc.Integer.Shift.Divide.{truncated, srawi-addze}
use slo_ppc.Integer.Rotate.{RotateFlags, RotateResult, rlwimi, rotate_left, ppc_mask}
use slo_ppc.Integer.Rotate
use slo_ppc.Integer.Rotate.Mask.{IsMask, in_interval, ppc_mask-IsMask}
use slo_ppc.Integer.Rotate.Forms.{kept_digit, evaluate_digits}
use slo_ppc.Integer.Compare.{CompareFlags, CompareResult, cmpi}
use slo_ppc.Integer.Compare
use slo_ppc.Integer.Compare.Laws.{left_value, right_value, order, evaluate_compare}
use slo_ppc.Integer.Logical.{LogicalFlags, LogicalResult, nand}
use slo_ppc.Integer.Logical
use slo_ppc.Integer.Logical.Laws.{truth, evaluate-truth}

abbrev overflow_flags : AddFlags
overflow_flags = record { ca = 1; oe = 1; rc = 1; old_ov = 0; old_so = 0; old_cr0 = 5 }

overflow_flags-IsFlags : Add.Laws.IsFlags overflow_flags
overflow_flags-IsFlags = record {
  ca_bit = omega arith;
  oe_bit = omega arith;
  rc_bit = omega arith;
  ov_bit = omega arith;
  so_bit = omega arith;
  cr0_nibble = omega arith;
}

evaluate_sum_example :
    (r : AddResult) × (Add.evaluate adde 0x7FFF_FFFF 5 overflow_flags ≡ ok r)
    × (r.value ≡ exact_sum adde 0x7FFF_FFFF 5 overflow_flags.ca % 2 ^ 32)
    × (r.ca ≡ (
        if is_add adde
        then overflow_flags.ca
        else exact_sum adde 0x7FFF_FFFF 5 overflow_flags.ca / 2 ^ 32))
evaluate_sum_example = evaluate_sum adde 0x7FFF_FFFF 5 overflow_flags overflow_flags-IsFlags

ov_iff_example :
    let r = add_result adde 0x7FFF_FFFF 5 overflow_flags in
    (r.ov ≡ 0) ↔ (signed_value r.value ≡ exact_signed adde 0x7FFF_FFFF 5 overflow_flags.ca)
ov_iff_example = ov_iff adde 0x7FFF_FFFF 5 overflow_flags overflow_flags-IsFlags refl

add_flags_example :
    let f = overflow_flags in
    let r = add_result adde 0x7FFF_FFFF 5 f in
    (f.oe ≡ 1 → r.so ≡ max f.old_so r.ov)
    × (f.oe ≡ 0 → (r.ov ≡ f.old_ov) × (r.so ≡ f.old_so))
    × (r.cr0 ≡ (if ltb 0 f.rc then sign_relation r.value r.so else f.old_cr0))
add_flags_example = add_flags adde 0x7FFF_FFFF 5 overflow_flags overflow_flags-IsFlags

addc-adde_example :
    let lo = add_result addc 0xFFFF_FFFF 2 overflow_flags in
    let hi = add_result adde 3 4 (after lo overflow_flags) in
    hi.ca * 2 ^ 64 + hi.value * 2 ^ 32 + lo.value ≡ (3 * 2 ^ 32 + 0xFFFF_FFFF) + (4 * 2 ^ 32 + 2)
addc-adde_example =
    addc-adde 3 0xFFFF_FFFF 4 2 overflow_flags (omega arith) (omega arith) (omega arith)
      (omega arith) (omega arith)

adde-IsForm : IsForm adde 1 1 3 4 5
unfolding Add.is_unary
adde-IsForm = record {
  oe_bit = omega arith;
  rc_bit = omega arith;
  rd_field = omega arith;
  ra_field = omega arith;
  rb_field = omega arith;
  rb_reserved = λ h. cc;
}

adde_word : Add.encode adde 1 1 3 4 5 ≡ ok 0x7C64_2D15
unfolding Add.encode Add.is_unary check_bit check_below register_fields xo
adde_word = refl

encode_injective_example :
    let n : ℕ → ℕ = λ k. k in
    (adde ≡ adde) × (n 1 ≡ n 1) × (n 1 ≡ n 1) × (n 3 ≡ n 3) × (n 4 ≡ n 4) × (n 5 ≡ n 5)
encode_injective_example = encode_injective adde adde 1 1 3 4 5 1 1 3 4 5 adde_word adde_word

abbrev shift_flags : ShiftFlags
shift_flags = record { rc = 1; ca = 0; ov = 1; so = 1; old_cr0 = 0 }

srawi-IsArguments : Shift.Laws.IsArguments srawi 4 shift_flags
srawi-IsArguments = record {
  rc_bit = omega arith;
  ca_bit = omega arith;
  ov_bit = omega arith;
  so_bit = omega arith;
  cr0_nibble = omega arith;
  sh_field = λ h. omega arith;
}

evaluate_shift_example :
    (r : ShiftResult) × (Shift.evaluate srawi 0xFFFF_FF85 4 shift_flags ≡ ok r)
    × IsShifted srawi (0xFFFF_FF85 % 2 ^ 32) (places srawi 4) shift_flags.ca r
    × (r.ov ≡ shift_flags.ov)
    × (r.so ≡ shift_flags.so)
evaluate_shift_example = evaluate_shift srawi 0xFFFF_FF85 4 shift_flags srawi-IsArguments

srawi-addze_example :
    let r = shift_result srawi 0xFFFF_FF85 4 shift_flags in
    signed_value (add_result addze r.value 9 (record overflow_flags { ca = r.ca })).value
    ≡ truncated (signed_value 0xFFFF_FF85) 4
srawi-addze_example =
    srawi-addze 0xFFFF_FF85 4 9 shift_flags overflow_flags (omega arith) (omega arith)

ppc_mask-IsMask_example : (m : ℕ) × (ppc_mask 28 3 ≡ ok m) × IsMask 28 3 m
ppc_mask-IsMask_example = ppc_mask-IsMask 28 3 (omega arith) (omega arith)

abbrev rotate_flags : RotateFlags
rotate_flags = record { old_a = 0xDEAD_BEEF; rc = 1; ca = 0; ov = 1; so = 1; old_cr0 = 0 }

rlwimi-IsArguments : Rotate.Forms.IsArguments rlwimi 8 24 7 rotate_flags
rlwimi-IsArguments = record {
  sh_field = λ h. omega arith;
  mb_field = omega arith;
  me_field = omega arith;
  rc_bit = omega arith;
  ca_bit = omega arith;
  ov_bit = omega arith;
  so_bit = omega arith;
  cr0_nibble = omega arith;
}

evaluate_digits_example :
    (r : RotateResult) × (Rotate.evaluate rlwimi 0x1234_5678 8 24 7 rotate_flags ≡ ok r)
    × ((i : ℕ)
        → i < 32
        → bit_at r.value (31 - i) ≡ (
            if in_interval 24 7 i
            then bit_at 0x1234_5678 ((63 - i - 8 % 32) % 32)
            else kept_digit rlwimi rotate_flags.old_a (31 - i)))
    × (r.ca ≡ rotate_flags.ca)
    × (r.ov ≡ rotate_flags.ov)
    × (r.so ≡ rotate_flags.so)
evaluate_digits_example = evaluate_digits rlwimi 0x1234_5678 8 24 7 rotate_flags rlwimi-IsArguments

abbrev compare_flags : CompareFlags
compare_flags = record { bf = 2; l = 0; ca = 0; ov = 0; so = 1; old_cr = 0x1234_5678 }

cmpi-IsArguments : Compare.Laws.IsArguments cmpi 0xFFF0 compare_flags
cmpi-IsArguments = record {
  bf_field = omega arith;
  short = refl;
  ca_bit = omega arith;
  ov_bit = omega arith;
  so_bit = omega arith;
  cr_word = omega arith;
  immediate = λ h. omega arith;
}

evaluate_compare_example :
    let k = 28 - 4 * compare_flags.bf in
    (r : CompareResult) × (Compare.evaluate cmpi 0xFFFF_FF00 0xFFF0 compare_flags ≡ ok r)
    × (r.field ≡ order (left_value cmpi 0xFFFF_FF00) (right_value cmpi 0xFFF0) + compare_flags.so)
    × ((j : ℕ)
        → bit_at r.cr j ≡ (
            if leb k j && ltb j (k + 4)
            then bit_at r.field (j - k)
            else bit_at compare_flags.old_cr j))
evaluate_compare_example = evaluate_compare cmpi 0xFFFF_FF00 0xFFF0 compare_flags cmpi-IsArguments

abbrev logical_flags : LogicalFlags
logical_flags = record { rc = 1; ca = 1; ov = 0; so = 1; old_cr0 = 3 }

logical_flags-IsFlags : Logical.Laws.IsFlags logical_flags
logical_flags-IsFlags = record {
  rc_bit = omega arith;
  ca_bit = omega arith;
  ov_bit = omega arith;
  so_bit = omega arith;
  cr0_nibble = omega arith;
}

evaluate-truth_example :
    let f = logical_flags in
    (r : LogicalResult) × (Logical.evaluate nand 0xF0F0_F0F0 0xFF00_FF00 f ≡ ok r)
    × (r.value < 2 ^ 32)
    × ((i : ℕ)
        → i < 32
        → bit_at r.value i ≡ truth nand (bit_at 0xF0F0_F0F0 i) (bit_at 0xFF00_FF00 i))
    × (r.ca ≡ f.ca)
    × (r.ov ≡ f.ov)
    × (r.so ≡ f.so)
    × (r.cr0 ≡ (if ltb 0 f.rc then sign_relation r.value r.so else f.old_cr0))
evaluate-truth_example =
    evaluate-truth nand 0xF0F0_F0F0 0xFF00_FF00 logical_flags logical_flags-IsFlags
