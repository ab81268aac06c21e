-- ===== src/Integer/Rotate/Forms.antt =====
-- The rotate forms digit by digit, from the mask and the rotation.
use slo_ppc.Prelude.{
  ℕ, ◌+◌, ◌-◌, ◌%◌, ◌<◌, ◌≡◌, refl, arith, Bool, false, if◌then◌else◌, bit_and, ok, ap, ◌∙◌,
}
use slo_ppc.Bits.Digits.{bit_at, bit_at-bit_and, bit_at-bit_or, bit_at-sub-bit_and, bit_at_mod}
use slo_ppc.Integer.Word.{mask32, check_bit, check_nibble, check_below}
use slo_ppc.Integer.Word.Laws.{bit_and-mask32}
use slo_ppc.Integer.Rotate.{
  RotateFamily, rlwimi, RotateFlags, RotateResult, rotate_left, rotate_result, inserted, evaluate,
  ppc_mask, is_register,
}
use slo_ppc.Integer.Rotate.Mask.{in_interval, ppc_mask-IsMask}
use slo_ppc.Integer.Rotate.Laws.{bit_at-rotate_left}

-- The arguments that `evaluate` accepts.
pub record IsArguments (family : RotateFamily) (shift mb me : ℕ) (f : RotateFlags) : Type 0 where
  pub sh_field : is_register family ≡ false → shift < 32
  pub mb_field : mb < 32
  pub me_field : me < 32
  pub rc_bit : f.rc < 2
  pub ca_bit : f.ca < 2
  pub ov_bit : f.ov < 2
  pub so_bit : f.so < 2
  pub cr0_nibble : f.old_cr0 < 16

-- The digit of rA that a form keeps outside the mask.
abbrev pub kept_digit : RotateFamily → ℕ → ℕ → ℕ
kept_digit rlwimi old_a i = bit_at old_a i
kept_digit _ old_a i = 0

evaluate-eq :
    (family : RotateFamily) (s shift mb me mask : ℕ) (f : RotateFlags)
    → IsArguments family shift mb me f
    → ppc_mask mb me ≡ ok mask
    → evaluate family s shift mb me f ≡ ok (rotate_result family s shift mask f)
unfolding evaluate check_bit check_nibble check_below is_register
evaluate-eq rlwimi s shift mb me mask f h e = ground arith
evaluate-eq _ s shift mb me mask f h e = ground arith

masked_digit : (x i : ℕ) → i < 32 → bit_at (bit_and x mask32) i ≡ bit_at x i
masked_digit x i l = ap (λ (t : ℕ). bit_at t i) (bit_and-mask32 x) ∙ bit_at_mod x 32 i l

inserted_digit :
    (family : RotateFamily) (rotated old_a mask i : ℕ) (inside : Bool)
    → i < 32
    → bit_at mask i ≡ (if inside then 1 else 0)
    → bit_at (inserted family rotated old_a mask) i
      ≡ (if inside then bit_at rotated i else kept_digit family old_a i)
unfolding inserted
inserted_digit rlwimi rotated old_a mask i inside l e = ground (
  arith,
  bit_at-bit_or i (bit_and rotated mask)
      (bit_and old_a mask32 - bit_and (bit_and old_a mask32) mask),
  bit_at-bit_and i rotated mask,
  bit_at-sub-bit_and i (bit_and old_a mask32) mask,
  masked_digit old_a i l,
)
inserted_digit _ rotated old_a mask i inside l e = ground (arith, bit_at-bit_and i rotated mask)

-- With accepted arguments `evaluate` returns. Architectural bit `i` of the value is that of rS, turned
-- left by the low five bits of the shift, where `i` stands in the interval from MB to ME; elsewhere it is
-- that of rA for rlwimi, and 0 for the other forms. CA, OV and SO are left.
pub evaluate_digits :
    (family : RotateFamily) (s shift mb me : ℕ) (f : RotateFlags)
    → IsArguments family shift mb me f
    → (r : RotateResult) × (evaluate family s shift mb me f ≡ ok r)
      × ((i : ℕ)
          → i < 32
          → bit_at r.value (31 - i) ≡ (
              if in_interval mb me i
              then bit_at s ((63 - i - shift % 32) % 32)
              else kept_digit family f.old_a (31 - i)))
      × (r.ca ≡ f.ca)
      × (r.ov ≡ f.ov)
      × (r.so ≡ f.so)
unfolding rotate_result
evaluate_digits family s shift mb me f h =
    let found = ppc_mask-IsMask mb me h.mb_field h.me_field in
    let mask = found.0 in
    (
      rotate_result family s shift mask f,
      evaluate-eq family s shift mb me mask f h found.1,
      λ i l.
          masked_digit (inserted family (rotate_left s shift) f.old_a mask) (31 - i) (omega arith)
          ∙ inserted_digit family (rotate_left s shift) f.old_a mask (31 - i) (in_interval mb me i)
              (omega arith) (found.2.1 i l)
          ∙ ap (λ (t : ℕ). if in_interval mb me i then t else kept_digit family f.old_a (31 - i))
              (bit_at-rotate_left s shift (31 - i) (omega arith) ∙ ap (bit_at s) (the_index i l)),
      refl,
      refl,
      refl,
    )
  where
    the_index : (i : ℕ) → i < 32 → (31 - i + 32 - shift % 32) % 32 ≡ (63 - i - shift % 32) % 32
    the_index i l = omega arith
