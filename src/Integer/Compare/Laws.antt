-- ===== src/Integer/Compare/Laws.antt =====
-- The compare forms: the relation is that of the two operands as integers, and CR changes in the one
-- field that BF names.
use slo_ppc.Prelude.{
  ℕ, ◌+◌, ◌-◌, ◌*◌, ◌%◌, ◌^◌, ◌<◌, ◌≡◌, refl, arith, true, ◌&&◌, if◌then◌else◌, ltb, leb, bit_and,
  bit_or, ok, ap, ◌∙◌, ◌⊎◌, inl, inr, Bool-cases,
}
use slo_ppc.Prelude.Int.{ℤ, pos, negsuc, ◌-ℤ◌, ltb_ℤ}
use slo_ppc.Bits.{bit_and_field}
use slo_ppc.Bits.Digits.{
  bit_at, bit_at-bit_or, bit_at-sub-bit_and, bit_at_mul, bit_at_high, bit_at_ones,
}
use slo_ppc.Integer.Word.{mask32, masked, check_bit, check_below}
use slo_ppc.Integer.Word.Laws.{bit_and-mask32, bit_and_sign, signed_value, bit_or_relation}
use slo_ppc.Integer.Compare.{
  CompareFamily, cmp, cmpi, cmpl, cmpli, CompareFlags, CompareResult, is_immediate, signed_word,
  operand, compare_relation, compare_result, evaluate,
}

-- The arguments that `evaluate` accepts.
pub record IsArguments (family : CompareFamily) (rhs : ℕ) (f : CompareFlags) : Type 0 where
  pub bf_field : f.bf < 8
  pub short : f.l ≡ 0
  pub ca_bit : f.ca < 2
  pub ov_bit : f.ov < 2
  pub so_bit : f.so < 2
  pub cr_word : f.old_cr < 2 ^ 32
  pub immediate : is_immediate family ≡ true → rhs < 2 ^ 16

-- The operands of a form as integers.
abbrev pub left_value : CompareFamily → ℕ → ℤ
left_value cmp a = signed_value (a % 2 ^ 32)
left_value cmpi a = signed_value (a % 2 ^ 32)
left_value _ a = pos (a % 2 ^ 32)

abbrev pub right_value : CompareFamily → ℕ → ℤ
right_value cmp rhs = signed_value (rhs % 2 ^ 32)
right_value cmpi rhs = if ltb rhs (2 ^ 15) then pos rhs else negsuc (2 ^ 16 - rhs - 1)
right_value cmpl rhs = pos (rhs % 2 ^ 32)
right_value cmpli rhs = pos rhs

-- LT, GT or EQ.
abbrev pub order : ℤ → ℤ → ℕ
order x y = if ltb_ℤ x y then 8 else if ltb_ℤ y x then 4 else 2

signed_word-pos : (w : ℕ) → signed_word (pos w) ≡ signed_value (w % 2 ^ 32)
unfolding signed_word masked ◌-ℤ◌
signed_word-pos w = ground (arith, bit_and-mask32 w, bit_and_sign (bit_and w mask32))

signed_word-negsuc : (n : ℕ) → n < 2 ^ 31 → signed_word (negsuc n) ≡ negsuc n
unfolding signed_word masked ◌-ℤ◌
signed_word-negsuc n h = ground (arith, bit_and-mask32 n, bit_and_sign (mask32 - bit_and n mask32))

masked_word : (a : ℕ) → signed_word (pos (bit_and a mask32)) ≡ signed_value (a % 2 ^ 32)
masked_word a =
    signed_word-pos (bit_and a mask32) ∙ ap signed_value (omega (arith, bit_and-mask32 a))

operand_cmpi : (rhs : ℕ) → rhs < 2 ^ 16 → signed_word (operand cmpi rhs) ≡ right_value cmpi rhs
unfolding operand ◌-ℤ◌
operand_cmpi rhs h =
    ground
      (arith, bit_and_field 15 1 rhs, signed_word-pos rhs, signed_word-negsuc (2 ^ 16 - rhs - 1))

relation_cmpi :
    (a rhs : ℕ)
    → rhs < 2 ^ 16
    → compare_relation cmpi (bit_and a mask32) (operand cmpi rhs)
      ≡ order (left_value cmpi a) (right_value cmpi rhs)
unfolding compare_relation
relation_cmpi a rhs h = rw (masked_word a, operand_cmpi rhs h)

relation-eq-order :
    (family : CompareFamily) (a rhs : ℕ)
    → (is_immediate family ≡ true → rhs < 2 ^ 16)
    → compare_relation family (bit_and a mask32) (operand family rhs)
      ≡ order (left_value family a) (right_value family rhs)
unfolding compare_relation operand is_immediate
relation-eq-order cmp a rhs h = rw (masked_word a, masked_word rhs)
relation-eq-order cmpi a rhs h = relation_cmpi a rhs (h refl)
relation-eq-order cmpl a rhs h = rw (bit_and-mask32 a, bit_and-mask32 rhs)
relation-eq-order cmpli a rhs h = rw (bit_and-mask32 a)

order_cases : (x y : ℤ) → (order x y ≡ 8) ⊎ ((order x y ≡ 4) ⊎ (order x y ≡ 2))
order_cases x y = elim (Bool-cases (ltb_ℤ x y)) [
  | inl below ↦ inl (rw below)
  | inr not_below ↦ elim (Bool-cases (ltb_ℤ y x)) [
    | inl above ↦ inr (inl (rw (not_below, above)))
    | inr not_above ↦ inr (inr (rw (not_below, not_above)))
  ]
]

field_sum :
    (x y : ℤ) (so : ℕ) → so < 2 → (bit_or (order x y) so ≡ order x y + so) × (order x y + so < 16)
field_sum x y so h = elim (order_cases x y) [
  | inl e ↦ rw e (bit_or_relation 4 so h, omega arith)
  | inr (inl e) ↦ rw e (bit_or_relation 2 so h, omega arith)
  | inr (inr e) ↦ rw e (bit_or_relation 1 so h, omega arith)
]

-- Digit `j` of a word whose four digits from `k` on are replaced by `field`.
replaced_digit :
    (old field k j : ℕ)
    → field < 16
    → bit_at (bit_or (old - bit_and old (0xF * 2 ^ k)) (field * 2 ^ k)) j
      ≡ (if leb k j && ltb j (k + 4) then bit_at field (j - k) else bit_at old j)
replaced_digit old field k j h = ground (
  arith,
  bit_at-bit_or j (old - bit_and old (0xF * 2 ^ k)) (field * 2 ^ k),
  bit_at-sub-bit_and j old (0xF * 2 ^ k),
  bit_at_mul 0xF k j,
  bit_at_mul field k j,
  bit_at_high 0xF 4 (j - k),
  bit_at_high field 4 (j - k),
  bit_at_ones 4 (j - k),
)

result-field :
    (family : CompareFamily) (a rhs : ℕ) (f : CompareFlags)
    → IsArguments family rhs f
    → (compare_result family a rhs f).field
      ≡ order (left_value family a) (right_value family rhs) + f.so
unfolding compare_result
result-field family a rhs f h =
    rw (relation-eq-order family a rhs h.immediate)
      (field_sum (left_value family a) (right_value family rhs) f.so h.so_bit).0

evaluate-eq :
    (family : CompareFamily) (a rhs : ℕ) (f : CompareFlags)
    → IsArguments family rhs f
    → evaluate family a rhs f ≡ ok (compare_result family a rhs f)
unfolding evaluate check_bit check_below is_immediate
evaluate-eq cmp a rhs f h = ground arith
evaluate-eq _ a rhs f h = ground arith

-- With accepted arguments `evaluate` returns. The field is LT, GT or EQ by the order of the operands
-- as integers, signed for cmp and cmpi, plus SO. It replaces the four digits of CR that BF names, and
-- every other digit of CR is left.
pub evaluate_compare :
    (family : CompareFamily) (a rhs : ℕ) (f : CompareFlags)
    → IsArguments family rhs f
    → let k = 28 - 4 * f.bf in
      (r : CompareResult) × (evaluate family a rhs f ≡ ok r)
      × (r.field ≡ order (left_value family a) (right_value family rhs) + f.so)
      × ((j : ℕ)
          → bit_at r.cr j
            ≡ (if leb k j && ltb j (k + 4) then bit_at r.field (j - k) else bit_at f.old_cr j))
unfolding compare_result
evaluate_compare family a rhs f h =
    let e = result-field family a rhs f h in
    (
      compare_result family a rhs f,
      evaluate-eq family a rhs f h,
      e,
      λ j. replaced_digit f.old_cr (compare_result family a rhs f).field (28 - 4 * f.bf) j (
          omega (arith, e, field_sum (left_value family a) (right_value family rhs) f.so h.so_bit)),
    )
