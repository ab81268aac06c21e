-- ===== src/Integer/Shift/Laws.antt =====
-- The shift forms: the left and right shifts as products and quotients, the arithmetic shift as a
-- division that rounds down, with CA set where it lost ones of a negative word.
use slo_ppc.Prelude.{
  ℕ, ◌+◌, ◌-◌, ◌*◌, ◌/◌, ◌%◌, ◌^◌, ◌<◌, ◌≤◌, ◌≡◌, refl, arith, if◌then◌else◌, ltb, ◌==◌, ok, ap,
  ◌∙◌,
}
use slo_ppc.Prelude.Int.{ℤ, ◌-ℤ◌}
use native.Mathlib.Nat.{div-le_self, div-eq_of_lt, mod-eq_of_lt}
use native.Mathlib.Decide.{dec_lt}
use slo_ppc.Bits.{bit_and_mask, two_pow_pos}
use slo_ppc.Bits.Digits.{pow-add}
use slo_ppc.Integer.Word.{mask32, masked, shr, check_bit, check_nibble, check_below}
use slo_ppc.Integer.Word.Laws.{bit_and-mask32, bit_and_sign, signed_value, masked-lt}
use slo_ppc.Integer.Shift.{
  ShiftFamily, slw, srw, sraw, srawi, ShiftFlags, ShiftResult, shift_count, shifted, signed_source,
  shift_result, evaluate,
}

-- The values that the checks accept, with the count: five bits for srawi.
pub record IsArguments (family : ShiftFamily) (shift : ℕ) (f : ShiftFlags) : Type 0 where
  pub rc_bit : f.rc < 2
  pub ca_bit : f.ca < 2
  pub ov_bit : f.ov < 2
  pub so_bit : f.so < 2
  pub cr0_nibble : f.old_cr0 < 16
  pub sh_field : family ≡ srawi → shift < 32

-- The places that a form shifts by.
abbrev pub places : ShiftFamily → ℕ → ℕ
places srawi shift = shift
places _ shift = shift % 64

shift_count-ok :
    (family : ShiftFamily) (shift : ℕ)
    → (family ≡ srawi → shift < 32)
    → shift_count family shift ≡ ok (places family shift)
unfolding shift_count check_below
shift_count-ok srawi shift h = let l : shift < 32 = h refl in ground arith
shift_count-ok _ shift h = ap ok (bit_and_mask 6 shift)

evaluate-eq :
    (family : ShiftFamily) (s shift : ℕ) (f : ShiftFlags)
    → IsArguments family shift f
    → evaluate family s shift f ≡ ok (shift_result family (s % 2 ^ 32) (places family shift) f)
unfolding evaluate check_bit check_nibble
evaluate-eq family s shift f h =
    rw (bit_and-mask32 s, shift_count-ok family shift h.sh_field) (ground arith)

-- The word of a number below 2 ^ 32 as a signed value.
signed_source-eq : (w : ℕ) → w < 2 ^ 32 → signed_source w ≡ signed_value w
unfolding signed_source ◌-ℤ◌
signed_source-eq w h = ground (arith, bit_and_sign w)

-- Every signed word is a signed value, and back.
signed_value-masked-shr :
    (w k : ℕ) → w < 2 ^ 32 → signed_value (masked (shr (signed_value w) k)) ≡ shr (signed_value w) k
unfolding masked shr
signed_value-masked-shr w k h = ground (
  arith,
  bit_and-mask32 (w / 2 ^ k),
  bit_and-mask32 ((2 ^ 32 - w - 1) / 2 ^ k),
  div-le_self w (2 ^ k),
  div-le_self (2 ^ 32 - w - 1) (2 ^ k),
)

-- A count from 32 on is 2 ^ 32 times another power.
high_power : (n : ℕ) → 32 ≤ n → 2 ^ n ≡ 2 ^ 32 * 2 ^ (n - 32)
high_power n h = ap (λ (t : ℕ). 2 ^ t) (whole h) ∙ pow-add 32 (n - 32)
  where
    whole : 32 ≤ n → n ≡ 32 + (n - 32)
    whole h = omega arith

pub word-lt-power : (w n : ℕ) → w < 2 ^ 32 → 32 ≤ n → w < 2 ^ n
word-lt-power w n h l = omega (arith, high_power n l, two_pow_pos (n - 32))

left_shift : (w n ca : ℕ) → w < 2 ^ 32 → (shifted slw w n ca).0 ≡ w * 2 ^ n % 2 ^ 32
unfolding shifted
left_shift w n ca h = elim (dec_lt n 32) [
  | yes low ↦ ground (arith, bit_and-mask32 (w * 2 ^ n))
  | no high ↦ ground (arith, ap (λ (t : ℕ). w * t) (high_power n (omega arith)))
]

right_shift : (w n ca : ℕ) → w < 2 ^ 32 → (shifted srw w n ca).0 ≡ w / 2 ^ n
unfolding shifted
right_shift w n ca h = elim (dec_lt n 32) [
  | yes low ↦ ground arith
  | no high ↦ ground (arith, div-eq_of_lt (word-lt-power w n h (omega arith)))
]

arithmetic_high :
    (w n : ℕ)
    → w < 2 ^ 32
    → 32 ≤ n
    → masked (shr (signed_value w) n) ≡ (if ltb w (2 ^ 31) then 0 else mask32)
unfolding masked shr
arithmetic_high w n h l = ground (
  arith,
  div-eq_of_lt (word-lt-power w n h l),
  div-eq_of_lt (word-lt-power (2 ^ 32 - w - 1) n (omega arith) l),
  bit_and-mask32 0,
)

-- Whether an arithmetic shift lost a one of a negative word.
abbrev pub lost : ℕ → ℕ → ℕ
lost w n = if ltb w (2 ^ 31) then 0 else if w % 2 ^ n == 0 then 0 else 1

arithmetic_value :
    (w n ca : ℕ) → w < 2 ^ 32 → (shifted sraw w n ca).0 ≡ masked (shr (signed_value w) n)
unfolding shifted
arithmetic_value w n ca h = elim (dec_lt n 32) [
  | yes low ↦ ground (arith, ap (λ (t : ℤ). masked (shr t n)) (signed_source-eq w h))
  | no high ↦ ground (arith, arithmetic_high w n h (omega arith), bit_and_sign w)
]

arithmetic_carry : (w n ca : ℕ) → w < 2 ^ 32 → (shifted sraw w n ca).1 ≡ lost w n
unfolding shifted
arithmetic_carry w n ca h = elim (dec_lt n 32) [
  | yes low ↦ ground (arith, bit_and_mask n w, bit_and_sign w, ap (λ (t : ℕ). w % 2 ^ t))
  | no high ↦ ground (arith, mod-eq_of_lt (word-lt-power w n h (omega arith)), bit_and_sign w)
]

srawi_value : (w n ca : ℕ) → w < 2 ^ 32 → (shifted srawi w n ca).0 ≡ masked (shr (signed_value w) n)
unfolding shifted
srawi_value w n ca h = arithmetic_value w n ca h

srawi_carry : (w n ca : ℕ) → w < 2 ^ 32 → (shifted srawi w n ca).1 ≡ lost w n
unfolding shifted
srawi_carry w n ca h = arithmetic_carry w n ca h

-- What a form makes of a word shifted by `n` places: its value and CA.
abbrev pub IsShifted : ShiftFamily → ℕ → ℕ → ℕ → ShiftResult → Type 0
IsShifted slw w n ca r = (r.value ≡ w * 2 ^ n % 2 ^ 32) × (r.ca ≡ ca)
IsShifted srw w n ca r = (r.value ≡ w / 2 ^ n) × (r.ca ≡ ca)
IsShifted _ w n ca r = (signed_value r.value ≡ shr (signed_value w) n) × (r.ca ≡ lost w n)

pub shift_result-IsShifted :
    (family : ShiftFamily) (w n : ℕ) (f : ShiftFlags)
    → w < 2 ^ 32
    → IsShifted family w n f.ca (shift_result family w n f)
unfolding shift_result
shift_result-IsShifted slw w n f h = (left_shift w n f.ca h, unfold shifted in refl)
shift_result-IsShifted srw w n f h = (right_shift w n f.ca h, unfold shifted in refl)
shift_result-IsShifted sraw w n f h = (
  ap signed_value (arithmetic_value w n f.ca h) ∙ signed_value-masked-shr w n h,
  arithmetic_carry w n f.ca h,
)
shift_result-IsShifted srawi w n f h = (
  ap signed_value (srawi_value w n f.ca h) ∙ signed_value-masked-shr w n h,
  srawi_carry w n f.ca h,
)

-- With accepted arguments `evaluate` returns. The left shift is a product modulo 2 ^ 32 and the right
-- shift a quotient, also for counts of 32 and more, and both leave CA. The arithmetic shifts divide the
-- signed word and round down, and set CA exactly if a negative word lost a one. OV and SO are left.
pub evaluate_shift :
    (family : ShiftFamily) (s shift : ℕ) (f : ShiftFlags)
    → IsArguments family shift f
    → (r : ShiftResult) × (evaluate family s shift f ≡ ok r)
      × IsShifted family (s % 2 ^ 32) (places family shift) f.ca r
      × (r.ov ≡ f.ov)
      × (r.so ≡ f.so)
evaluate_shift family s shift f h = (
  shift_result family (s % 2 ^ 32) (places family shift) f,
  evaluate-eq family s shift f h,
  shift_result-IsShifted family (s % 2 ^ 32) (places family shift) f (omega arith),
  unfold shift_result in refl,
  unfold shift_result in refl,
)

pub srawi_value-lt :
    (w n : ℕ) (f : ShiftFlags) → w < 2 ^ 32 → (shift_result srawi w n f).value < 2 ^ 32
unfolding shift_result
srawi_value-lt w n f h = rw (srawi_value w n f.ca h) (masked-lt (shr (signed_value w) n))
