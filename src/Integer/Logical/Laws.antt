-- ===== src/Integer/Logical/Laws.antt =====
-- The logical forms by their truth tables.
use slo_ppc.Prelude.{
  ℕ, ◌-◌, ◌^◌, ◌<◌, ◌≡◌, refl, arith, if◌then◌else◌, ltb, ◌==◌, bit_and, ok, ap, ◌∙◌,
}
use slo_ppc.Bits.Digits.{
  bit_at, bit_at-bit_and, bit_at-bit_or, bit_at-bit_xor, bit_at-sub-bit_and, bit_at_mod,
}
use slo_ppc.Integer.Word.{mask32, masked, check_bit, check_nibble}
use slo_ppc.Integer.Word.Laws.{masked_digit, masked-lt, bit_and-mask32, new_cr0_lem}
use slo_ppc.Integer.Add.Flags.{sign_relation}
use slo_ppc.Integer.Logical.{
  LogicalFamily, land, andc, lor, orc, lxor, nand, nor, eqv, LogicalFlags, LogicalResult, combined,
  logical_result, evaluate,
}

-- The values that the checks accept.
pub record IsFlags (f : LogicalFlags) : Type 0 where
  pub rc_bit : f.rc < 2
  pub ca_bit : f.ca < 2
  pub ov_bit : f.ov < 2
  pub so_bit : f.so < 2
  pub cr0_nibble : f.old_cr0 < 16

-- The truth table of a form, on digits.
abbrev pub truth : LogicalFamily → ℕ → ℕ → ℕ
truth land x y = if x == 1 then y else 0
truth andc x y = if y == 1 then 0 else x
truth lor x y = if x == 1 then 1 else y
truth orc x y = if y == 1 then x else 1
truth lxor x y = if x == y then 0 else 1
truth nand x y = if x == 1 then 1 - y else 1
truth nor x y = if x == 1 then 0 else 1 - y
truth eqv x y = if x == y then 1 else 0

combined_digit :
    (s b i : ℕ)
    → i < 32
    → (family : LogicalFamily)
    → bit_at (masked (combined family s b)) i ≡ truth family (bit_at s i) (bit_at b i)
unfolding combined
combined_digit s b i l land =
    ground (arith, masked_digit (combined land s b) i l, bit_at-bit_and i s b)
combined_digit s b i l andc =
    ground (arith, masked_digit (combined andc s b) i l, bit_at-sub-bit_and i s b)
combined_digit s b i l lor =
    ground (arith, masked_digit (combined lor s b) i l, bit_at-bit_or i s b)
combined_digit s b i l orc =
    ground (arith, masked_digit (combined orc s b) i l, bit_at-sub-bit_and i b s)
combined_digit s b i l lxor =
    ground (arith, masked_digit (combined lxor s b) i l, bit_at-bit_xor i s b)
combined_digit s b i l nand =
    ground (arith, masked_digit (combined nand s b) i l, bit_at-bit_and i s b)
combined_digit s b i l nor =
    ground (arith, masked_digit (combined nor s b) i l, bit_at-bit_or i s b)
combined_digit s b i l eqv =
    ground (arith, masked_digit (combined eqv s b) i l, bit_at-bit_xor i s b)

word_digit : (a i : ℕ) → i < 32 → bit_at (bit_and a mask32) i ≡ bit_at a i
word_digit a i l = ap (λ (t : ℕ). bit_at t i) (bit_and-mask32 a) ∙ bit_at_mod a 32 i l

-- With accepted flags `evaluate` returns a word each of whose 32 digits is given by the form's truth
-- table from those of the two operands; CA, OV and SO are left, and CR0 is the sign of the value with SO
-- for a record form and left for another.
pub evaluate-truth :
    (family : LogicalFamily) (s b : ℕ) (f : LogicalFlags)
    → IsFlags f
    → (r : LogicalResult) × (evaluate family s b f ≡ ok r)
      × (r.value < 2 ^ 32)
      × ((i : ℕ) → i < 32 → bit_at r.value i ≡ truth family (bit_at s i) (bit_at b i))
      × (r.ca ≡ f.ca)
      × (r.ov ≡ f.ov)
      × (r.so ≡ f.so)
      × (r.cr0 ≡ (if ltb 0 f.rc then sign_relation r.value r.so else f.old_cr0))
unfolding evaluate check_bit check_nibble logical_result
evaluate-truth family s b f h =
    let z = combined family (bit_and s mask32) (bit_and b mask32) in
    (
      logical_result family s b f,
      ground arith,
      masked-lt z,
      λ i l.
          combined_digit (bit_and s mask32) (bit_and b mask32) i l family
          ∙ ap (λ (t : ℕ). truth family t (bit_at (bit_and b mask32) i)) (word_digit s i l)
          ∙ ap (truth family (bit_at s i)) (word_digit b i l),
      refl,
      refl,
      refl,
      new_cr0_lem f.rc (masked z) f.so f.old_cr0 (masked-lt z) h.so_bit h.rc_bit,
    )
