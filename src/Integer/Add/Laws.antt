-- ===== src/Integer/Add/Laws.antt =====
-- The ADD family against exact sums: the value and CA, OV by the signed sum, SO and CR0, chained
-- additions, and the fields of an encoded word.
use slo_ppc.Prelude.{
  ℕ, ◌+◌, ◌-◌, ◌/◌, ◌%◌, ◌^◌, ◌<◌, bit_and, ◌≡◌, ◌↔◌, refl, arith, ok, Bool, true, false, bit_or,
  if◌then◌else◌, ◌∙◌, ap, ◌||◌,
}
use slo_ppc.Prelude.Int.{ℤ, pos, ◌+ℤ◌, ◌-ℤ◌, ltb_ℤ}
use slo_ppc.Integer.Word.{mask32, int, signed32, check_bit, check_nibble}
use slo_ppc.Integer.Word.Laws.{bit_and-mask32, signed_value, signed32-eq-signed_value}
use slo_ppc.Integer.Add.{
  AddFamily, add, addc, adde, addme, addze, AddFlags, AddResult, unsigned_total, signed_total,
  is_add, add_result, evaluate, min_signed, max_signed,
}

-- The values that `_bit` and the nibble test accept.
pub record IsFlags (f : AddFlags) : Type 0 where
  pub ca_bit : f.ca < 2
  pub oe_bit : f.oe < 2
  pub rc_bit : f.rc < 2
  pub ov_bit : f.old_ov < 2
  pub so_bit : f.old_so < 2
  pub cr0_nibble : f.old_cr0 < 16

-- The second operand of a form.
abbrev pub addend : AddFamily → ℕ → ℕ
addend addme b = 2 ^ 32 - 1
addend addze b = 0
addend _ b = b % 2 ^ 32

-- The carry that a form adds.
abbrev pub carry_in : AddFamily → ℕ → ℕ
carry_in add ca = 0
carry_in addc ca = 0
carry_in _ ca = ca

-- The exact sum of a form.
abbrev pub exact_sum : AddFamily → ℕ → ℕ → ℕ → ℕ
exact_sum family a b ca = a % 2 ^ 32 + addend family b + carry_in family ca

-- `evaluate` returns exactly on the flags that its checks accept.
pub evaluate_iff :
    (family : AddFamily) (a b : ℕ) (f : AddFlags)
    → (evaluate family a b f ≡ ok (add_result family a b f)) ↔ IsFlags f
unfolding evaluate check_bit check_nibble
evaluate_iff family a b f = (λ h. ground arith, λ h. ground arith)

unsigned_total-eq-exact_sum :
    (family : AddFamily) (a b ca : ℕ)
    → unsigned_total family (bit_and a mask32) (bit_and b mask32) ca ≡ exact_sum family a b ca
unfolding unsigned_total
unsigned_total-eq-exact_sum add a b ca = ground (arith, bit_and-mask32 a, bit_and-mask32 b)
unsigned_total-eq-exact_sum _ a b ca = ground (arith, bit_and-mask32 a, bit_and-mask32 b)

pub value_sum :
    (family : AddFamily) (a b : ℕ) (f : AddFlags)
    → (add_result family a b f).value ≡ exact_sum family a b f.ca % 2 ^ 32
unfolding add_result
value_sum family a b f = ground (
  arith,
  unsigned_total-eq-exact_sum family a b f.ca,
  bit_and-mask32 (unsigned_total family (bit_and a mask32) (bit_and b mask32) f.ca),
)

pub carry_sum :
    (family : AddFamily) (a b : ℕ) (f : AddFlags)
    → f.ca < 2
    → (add_result family a b f).ca
      ≡ (if is_add family then f.ca else exact_sum family a b f.ca / 2 ^ 32)
unfolding add_result
carry_sum add a b f h = refl
carry_sum addc a b f h = ground (arith, unsigned_total-eq-exact_sum addc a b f.ca)
carry_sum adde a b f h = ground (arith, unsigned_total-eq-exact_sum adde a b f.ca)
carry_sum addme a b f h = ground (arith, unsigned_total-eq-exact_sum addme a b f.ca)
carry_sum addze a b f h = ground (arith, unsigned_total-eq-exact_sum addze a b f.ca)

-- With accepted flags `evaluate` returns; the value is the sum of the two operands and the carry
-- that the form takes in, modulo 2 ^ 32, and CA is the carry out of that sum, but `add` leaves CA.
pub evaluate_sum :
    (family : AddFamily) (a b : ℕ) (f : AddFlags)
    → IsFlags f
    → (r : AddResult) × (evaluate family a b f ≡ ok r)
      × (r.value ≡ exact_sum family a b f.ca % 2 ^ 32)
      × (r.ca ≡ (if is_add family then f.ca else exact_sum family a b f.ca / 2 ^ 32))
evaluate_sum family a b f h = (
  add_result family a b f,
  (evaluate_iff family a b f).1 h,
  value_sum family a b f,
  carry_sum family a b f h.ca_bit,
)

-- The exact sum of the operands read as signed words.
abbrev pub exact_signed : AddFamily → ℕ → ℕ → ℕ → ℤ
exact_signed family a b ca =
    signed_value (a % 2 ^ 32) +ℤ signed_value (addend family b) +ℤ pos (carry_in family ca)

signed32_masked : (a : ℕ) → signed32 (bit_and a mask32) ≡ signed_value (a % 2 ^ 32)
signed32_masked a =
    signed32-eq-signed_value (bit_and a mask32) ∙ ap signed_value (omega (arith, bit_and-mask32 a))

signed_total-eq-exact_signed :
    (family : AddFamily) (a b ca : ℕ)
    → signed_total family (bit_and a mask32) (bit_and b mask32) ca ≡ exact_signed family a b ca
unfolding signed_total ◌+ℤ◌ ◌-ℤ◌
signed_total-eq-exact_signed add a b ca = ground (arith, signed32_masked a, signed32_masked b)
signed_total-eq-exact_signed addc a b ca = ground (arith, signed32_masked a, signed32_masked b)
signed_total-eq-exact_signed adde a b ca = ground (arith, signed32_masked a, signed32_masked b)
signed_total-eq-exact_signed addme a b ca = ground (arith, signed32_masked a)
signed_total-eq-exact_signed addze a b ca = ground (arith, signed32_masked a)

-- A sum of two signed words and a carry fits a word exactly if the wrapped sum stands for it.
fits_iff :
    (x y c : ℕ)
    → x < 2 ^ 32
    → y < 2 ^ 32
    → c < 2
    → let s = signed_value x +ℤ signed_value y +ℤ pos c in
      (int (ltb_ℤ s min_signed || ltb_ℤ max_signed s) ≡ 0)
      ↔ (signed_value ((x + y + c) % 2 ^ 32) ≡ s)
unfolding ◌+ℤ◌
fits_iff x y c p q r = (λ h. ground arith, λ h. ground arith)

-- The overflow that `evaluate` computes.
abbrev pub overflows : AddFamily → ℕ → ℕ → ℕ → ℕ
overflows family a b ca =
    let s = exact_signed family a b ca in int (ltb_ℤ s min_signed || ltb_ℤ max_signed s)

operands_lt :
    (family : AddFamily) (b ca : ℕ) → ca < 2 → (addend family b < 2 ^ 32) × (carry_in family ca < 2)
operands_lt add b ca h = omega arith
operands_lt _ b ca h = omega arith

pub int_lt : (t : Bool) → int t < 2
int_lt true = omega arith
int_lt false = omega arith

pub ov_so :
    (family : AddFamily) (a b : ℕ) (f : AddFlags)
    → f.oe ≡ 1
    → ((add_result family a b f).ov ≡ overflows family a b f.ca)
      × ((add_result family a b f).so ≡ bit_or f.old_so (overflows family a b f.ca))
unfolding add_result
ov_so family a b f h = rw (signed_total-eq-exact_signed family a b f.ca, h) (refl, refl)

-- With OE set, OV is 0 exactly if the value, read as a signed word, is the exact signed sum.
pub ov_iff :
    (family : AddFamily) (a b : ℕ) (f : AddFlags)
    → IsFlags f
    → f.oe ≡ 1
    → let r = add_result family a b f in
      (r.ov ≡ 0) ↔ (signed_value r.value ≡ exact_signed family a b f.ca)
ov_iff family a b f h e =
    rw ((ov_so family a b f e).0, value_sum family a b f)
      (fits_iff (a % 2 ^ 32) (addend family b) (carry_in family f.ca) (omega arith)
        (operands_lt family b f.ca h.ca_bit).0 (operands_lt family b f.ca h.ca_bit).1)
