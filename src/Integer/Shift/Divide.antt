-- ===== src/Integer/Shift/Divide.antt =====
-- `srawi` followed by `addze` divides a signed word by a power of two and rounds towards zero: the CA
-- of the shift corrects its rounding down.
use native.Mathlib.Nat.{
  div-add-mod', mod-lt, div-eq_of_lt, mod-eq_of_lt, mul-add-div_right, mul-add-mod_self_right,
  div_self, mod_self, mul-mod_right, add-mod, div-le_self,
}
use slo_ppc.Prelude.{
  ℕ, suc, ◌+◌, ◌-◌, ◌*◌, ◌/◌, ◌%◌, ◌^◌, ◌<◌, ◌≡◌, arith, if◌then◌else◌, ◌==◌, ap, ◌∙◌, sym,
}
use slo_ppc.Prelude.Int.{ℤ, pos, negsuc, ◌-ℤ◌}
use native.Mathlib.Decide.{dec_lt}
use slo_ppc.Bits.{two_pow_pos}
use slo_ppc.Bits.Digits.{pow-add}
use slo_ppc.Integer.Word.{shr}
use slo_ppc.Integer.Word.Laws.{signed_value}
use slo_ppc.Integer.Add.{addze, add_result, AddFlags}
use slo_ppc.Integer.Add.Laws.{value_sum}
use slo_ppc.Integer.Shift.{srawi, shift_result, ShiftFlags}
use slo_ppc.Integer.Shift.Laws.{shift_result-IsShifted, lost, srawi_value-lt}

-- Division by 2 ^ k that rounds towards zero.
abbrev pub truncated : ℤ → ℕ → ℤ
truncated (pos n) k = pos (n / 2 ^ k)
truncated (negsuc n) k = pos 0 -ℤ pos (suc n / 2 ^ k)

quotient_suc : (m p : ℕ) → 0 < p → suc m / p ≡ (if suc m % p == 0 then m / p + 1 else m / p)
quotient_suc m p h =
    let whole : suc m ≡ m / p * p + suc (m % p) = omega (arith, div-add-mod' m p) in
    let quotient : suc m / p ≡ m / p + suc (m % p) / p =
      ap (λ (t : ℕ). t / p) whole ∙ mul-add-div_right h (m / p) (suc (m % p)) in
    let remainder : suc m % p ≡ suc (m % p) % p =
      ap (λ (t : ℕ). t % p) whole ∙ mul-add-mod_self_right (m / p) p (suc (m % p)) in
    elim (dec_lt (suc (m % p)) p) [
      | yes inside ↦ ground (arith, quotient, remainder, div-eq_of_lt inside, mod-eq_of_lt inside)
      | no edge ↦
          let full : suc (m % p) ≡ p = omega (arith, mod-lt m h) in
          ground (
            arith,
            quotient,
            remainder,
            ap (λ (t : ℕ). t / p) full,
            ap (λ (t : ℕ). t % p) full,
            div_self h,
            mod_self p,
          )
    ]

power_split : (n : ℕ) → n < 32 → 2 ^ n * 2 ^ (32 - n) ≡ 2 ^ 32
power_split n h = sym (pow-add n (32 - n)) ∙ ap (λ (t : ℕ). 2 ^ t) (whole h)
  where
    whole : n < 32 → n + (32 - n) ≡ 32
    whole h = omega arith

-- A word and what is left of 2 ^ 32 are multiples of 2 ^ n together.
residues : (w m n : ℕ) → n < 32 → w + m ≡ 2 ^ 32 → (w % 2 ^ n == 0) ≡ (m % 2 ^ n == 0)
residues w m n h e =
    let total : (w + m) % 2 ^ n ≡ 0 =
      ap (λ (t : ℕ). t % 2 ^ n) (e ∙ sym (power_split n h))
      ∙ mul-mod_right (2 ^ n) (2 ^ (32 - n)) in
    let parts : (w % 2 ^ n + m % 2 ^ n) % 2 ^ n ≡ 0 = sym (add-mod w m (2 ^ n)) ∙ total in
    ground (
      arith,
      parts,
      two_pow_pos n,
      mod-lt w (two_pow_pos n),
      mod-lt m (two_pow_pos n),
      mod-eq_of_lt {n = w % 2 ^ n + m % 2 ^ n} {m = 2 ^ n},
    )

-- A word by its signed value.
word_of_value :
    (v : ℕ) (z : ℤ)
    → v < 2 ^ 32
    → signed_value v ≡ z
    → v ≡ (elim z [ pos n ↦ n | negsuc n ↦ 2 ^ 32 - n - 1 ])
word_of_value v (pos n) h e = ground arith
word_of_value v (negsuc n) h e = ground arith

-- The signed value of a floor with one added where it lost something.
corrected :
    (w v n : ℕ)
    → w < 2 ^ 32
    → v < 2 ^ 32
    → n < 32
    → signed_value v ≡ shr (signed_value w) n
    → signed_value ((v + lost w n) % 2 ^ 32) ≡ truncated (signed_value w) n
unfolding shr ◌-ℤ◌
corrected w v n h k l e = elim (dec_lt w (2 ^ 31)) [
  | yes positive ↦ ground arith
  | no negative ↦ ground (
    arith,
    residues w (suc (2 ^ 32 - w - 1)) n l (omega arith),
    quotient_suc (2 ^ 32 - w - 1) (2 ^ n) (two_pow_pos n),
    div-le_self (2 ^ 32 - w - 1) (2 ^ n),
  )
]

-- For every word and every count below 32, `srawi` and then `addze` with the CA that it left give the
-- quotient by 2 ^ count of the signed word, rounded towards zero.
pub srawi-addze :
    (w n b : ℕ) (f : ShiftFlags) (g : AddFlags)
    → w < 2 ^ 32
    → n < 32
    → let r = shift_result srawi w n f in
      signed_value (add_result addze r.value b (record g { ca = r.ca })).value
      ≡ truncated (signed_value w) n
srawi-addze w n b f g h l =
    let r = shift_result srawi w n f in
    let shift = shift_result-IsShifted srawi w n f h in
    ap signed_value (sum r.value r.ca (srawi_value-lt w n f h) shift.1)
    ∙ corrected w r.value n h (srawi_value-lt w n f h) l shift.0
  where
    sum :
        (v ca : ℕ)
        → v < 2 ^ 32
        → ca ≡ lost w n
        → (add_result addze v b (record g { ca = ca })).value ≡ (v + lost w n) % 2 ^ 32
    sum v ca k e = omega (arith, value_sum addze v b (record g { ca = ca }), e)
