-- ===== src/Integer/Add/Flags.antt =====
-- The ADD family's flags after the value, and additions of two words through the carry.
use slo_ppc.Prelude.{ℕ, ◌+◌, ◌*◌, ◌/◌, ◌^◌, ◌<◌, ◌≡◌, refl, arith, ltb, max, if◌then◌else◌, ◌∙◌}
use slo_ppc.Bits.{bit_or_bits}
use slo_ppc.Integer.Word.{new_cr0}
use slo_ppc.Integer.Word.Laws.{new_cr0_lem}
use slo_ppc.Integer.Add.{AddFamily, addc, adde, AddFlags, AddResult, is_add, add_result}
use slo_ppc.Integer.Add.Laws.{IsFlags, overflows, ov_so, value_sum, carry_sum, exact_sum, int_lt}

-- CR0 as the sign of a word, with SO below.
abbrev pub sign_relation : ℕ → ℕ → ℕ
sign_relation value so = (if ltb value (2 ^ 31) then (if ltb 0 value then 4 else 2) else 8) + so

so_record :
    (family : AddFamily) (a b : ℕ) (f : AddFlags)
    → f.oe ≡ 0
    → ((add_result family a b f).ov ≡ f.old_ov) × ((add_result family a b f).so ≡ f.old_so)
unfolding add_result
so_record family a b f e = rw e (refl, refl)

so_overflow :
    (family : AddFamily) (a b : ℕ) (f : AddFlags)
    → IsFlags f
    → f.oe ≡ 1
    → ((add_result family a b f).so ≡ max f.old_so (add_result family a b f).ov)
      × ((add_result family a b f).ov < 2)
so_overflow family a b f h e =
    ground (arith, ov_so family a b f e, bit_or_bits f.old_so (overflows family a b f.ca), int_lt _)

pub so_lt :
    (family : AddFamily) (a b : ℕ) (f : AddFlags) → IsFlags f → (add_result family a b f).so < 2
so_lt family a b f h = ground (arith, so_record family a b f, so_overflow family a b f h)

cr0_new :
    (family : AddFamily) (a b : ℕ) (f : AddFlags)
    → (add_result family a b f).cr0
      ≡ new_cr0 f.rc (add_result family a b f).value (add_result family a b f).so f.old_cr0
unfolding add_result
cr0_new family a b f = refl

pub value_lt :
    (family : AddFamily) (a b : ℕ) (f : AddFlags) → (add_result family a b f).value < 2 ^ 32
value_lt family a b f = omega (arith, value_sum family a b f)

-- With OE set, SO becomes the or of the old SO and the new OV; without OE both are left. With Rc set,
-- CR0 is LT, GT or EQ by the sign of the value with the new SO below it; without Rc it is left.
pub add_flags :
    (family : AddFamily) (a b : ℕ) (f : AddFlags)
    → IsFlags f
    → let r = add_result family a b f in
      (f.oe ≡ 1 → r.so ≡ max f.old_so r.ov)
      × (f.oe ≡ 0 → (r.ov ≡ f.old_ov) × (r.so ≡ f.old_so))
      × (r.cr0 ≡ (if ltb 0 f.rc then sign_relation r.value r.so else f.old_cr0))
add_flags family a b f h = (
  λ e. (so_overflow family a b f h e).0,
  λ e. so_record family a b f e,
  cr0_new family a b f
      ∙ new_cr0_lem f.rc _ _ f.old_cr0 (value_lt family a b f) (so_lt family a b f h) h.rc_bit,
)

-- The flags of a second addition that takes in the carry of a first.
abbrev pub after : AddResult → AddFlags → AddFlags
after r f = record f { ca = r.ca }

-- `addc` of the low words and `adde` of the high words add two doublewords, with the carry out.
pub addc-adde :
    (a1 a0 b1 b0 : ℕ) (f : AddFlags)
    → a1 < 2 ^ 32
    → a0 < 2 ^ 32
    → b1 < 2 ^ 32
    → b0 < 2 ^ 32
    → f.ca < 2
    → let lo = add_result addc a0 b0 f in
      let hi = add_result adde a1 b1 (after lo f) in
      hi.ca * 2 ^ 64 + hi.value * 2 ^ 32 + lo.value ≡ (a1 * 2 ^ 32 + a0) + (b1 * 2 ^ 32 + b0)
unfolding is_add
addc-adde a1 a0 b1 b0 f p q r s c =
    let lo : AddResult = add_result addc a0 b0 f in
    let lo_ca : lo.ca ≡ exact_sum addc a0 b0 f.ca / 2 ^ 32 = carry_sum addc a0 b0 f c in
    omega (
      arith,
      lo_ca,
      value_sum addc a0 b0 f,
      value_sum adde a1 b1 (after lo f),
      carry_sum adde a1 b1 (after lo f) (omega arith),
    )
