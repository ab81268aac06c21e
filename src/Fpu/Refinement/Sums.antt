-- ===== src/Fpu/Refinement/Sums.antt =====
-- Sums and differences.
use slo_ppc.Prelude.{
  ℕ, zero, suc, ◌/◌, ◌^◌, ◌<◌, ◌≡◌, refl, ap, ◌∙◌, arith, Bool, true, false, not, ◌&&◌, ◌||◌,
  if◌then◌else◌, ◌==◌, bit_xor, bit_or,
}
use slo_ppc.Integer.Word.{truthy}
use slo_ppc.Fpu.Format.{b64, Decoded, decode, decode_fields, signbit}
use slo_ppc.Fpu.Round.{Packed, pack_ratio}
use slo_ppc.Fpu.Calculate.{
  calculate, binary, quiet_first, turned, signed_infinity, add_decoded, mul_decoded, div_decoded,
  is_nan, is_snan, is_inf, is_zero, is_finite,
}
use slo_ppc.Fpu.Calculate
use slo_ppc.Fpu.Powerpc
use slo_ppc.Fpu.Powerpc.{
  Op, add, sub, mul, div, vx_isi, finite_ratio, vx_imz, sum_ratio, product_ratio, default_nan,
}
use slo_ppc.Fpu.Arithmetic.{
  Controls, computed, special, relevant, any_kind, operand_bits, invalid_bits, repeated_bits,
  is_zero_divide, is_isi,
}
use slo_ppc.Fpu.Agreement.{pack_ratio-pack}
use slo_ppc.Fpu.Refinement.Choice.{
  IsUntrapped, binary_quiet, not_snan, settled, default_eq, last_false,
}

met_twice :
    (t : Bool) → truthy (bit_or (bit_or 0 (if t then vx_isi else 0)) (if t then vx_isi else 0)) ≡ t
met_twice true = refl
met_twice false = refl

invalid_add :
    (a b c : ℕ)
    → is_nan (decode a b64).kind ≡ false
    → is_nan (decode b b64).kind ≡ false
    → invalid_bits add a b c
      ≡ bit_or 0 (if is_isi (decode a b64) (decode b b64) false then vx_isi else 0)
unfolding invalid_bits any_kind relevant
invalid_add a b c na nb = rw (not_snan _ na) (rw (not_snan _ nb) refl)

-- The ways an addition can go.
sum_default :
    (da db : Decoded) (rn : ℕ)
    → is_isi da db false ≡ true
    → default_nan ≡ (add_decoded da db rn b64).bits
unfolding add_decoded is_isi
sum_default da db rn e = rw e default_eq

sum_packed :
    (da db : Decoded) (rn : ℕ)
    → is_isi da db false ≡ false
    → (is_inf da.kind || (is_inf db.kind || false)) ≡ false
    → let q = sum_ratio da db rn in
      (pack_ratio q.n 1 q.exponent q.sign rn b64).bits ≡ (add_decoded da db rn b64).bits
unfolding add_decoded is_isi sum_ratio
sum_packed da db rn e i =
    let q : Powerpc.Ratio = sum_ratio da db rn in
    ap (λ (o : Packed). o.bits) (pack_ratio-pack q.n q.exponent q.sign rn b64)
    ∙ (rw e (rw (last_false (is_inf da.kind) (is_inf db.kind) i) refl))

pub computed_add :
    (a b c : ℕ) (k : Controls)
    → IsUntrapped k
    → is_nan (decode a b64).kind ≡ false
    → is_nan (decode b b64).kind ≡ false
    → (computed add a b c (invalid_bits add a b c) k).result
      ≡ (add_decoded (decode a b64) (decode b b64) k.rn b64).bits
unfolding computed repeated_bits is_zero_divide any_kind relevant special operand_bits calculate
    finite_ratio
computed_add a b c k v na nb = rw (invalid_add a b c na nb) (
    rw (met_twice (is_isi (decode a b64) (decode b b64) false)) (
      settled (is_isi (decode a b64) (decode b b64) false) _ add
        (sum_ratio (decode a b64) (decode b b64) k.rn) _ _ _ k v refl
        (sum_default (decode a b64) (decode b b64) k.rn)
        (λ e i. ap (λ (o : Calculate.Outcome). o.bits) (binary_quiet add_decoded a b k.rn na nb))
        (sum_packed (decode a b64) (decode b b64) k.rn)))

sign_of :
    (t : Bool) (x y : Decoded) (n : ℕ) → x.sign ≡ n → y.sign ≡ n → (if t then x else y).sign ≡ n
sign_of true x y n h k = h
sign_of false x y n h k = k

-- The sign bit of a doubleword is a bit, so that it can be turned.
sign_bit : (b : ℕ) → b < 2 ^ 64 → (decode b b64).sign < 2
unfolding decode decode_fields signbit
sign_bit b h = omega (arith, sign_of _ _ _ (b / 2 ^ 63) refl refl)

turned_isi :
    (da db : Decoded) → da.sign < 2 → db.sign < 2 → is_isi da (turned db) false ≡ is_isi da db true
unfolding is_isi
turned_isi da db h k =
    ap (λ (t : Bool). is_inf da.kind && (is_inf db.kind && t)) (differ da.sign db.sign h k)
  where
    differ : (x y : ℕ) → x < 2 → y < 2 → not (x == bit_xor y 1) ≡ (x == y)
    differ zero zero h k = refl
    differ zero (suc zero) h k = refl
    differ (suc zero) zero h k = refl
    differ (suc zero) (suc zero) h k = refl
    differ (suc (suc x)) y h k = absurd (omega arith)
    differ zero (suc (suc y)) h k = absurd (omega arith)
    differ (suc zero) (suc (suc y)) h k = absurd (omega arith)

invalid_sub :
    (a b c : ℕ)
    → is_nan (decode a b64).kind ≡ false
    → is_nan (decode b b64).kind ≡ false
    → invalid_bits sub a b c
      ≡ bit_or 0 (if is_isi (decode a b64) (decode b b64) true then vx_isi else 0)
unfolding invalid_bits any_kind relevant
invalid_sub a b c na nb = rw (not_snan _ na) (rw (not_snan _ nb) refl)

pub computed_sub :
    (a b c : ℕ) (k : Controls)
    → IsUntrapped k
    → a < 2 ^ 64
    → b < 2 ^ 64
    → is_nan (decode a b64).kind ≡ false
    → is_nan (decode b b64).kind ≡ false
    → (computed sub a b c (invalid_bits sub a b c) k).result
      ≡ (add_decoded (decode a b64) (turned (decode b b64)) k.rn b64).bits
unfolding computed repeated_bits is_zero_divide any_kind relevant special operand_bits calculate
    finite_ratio
computed_sub a b c k v ha hb na nb =
    let same : is_isi (decode a b64) (turned (decode b b64)) false
        ≡ is_isi (decode a b64) (decode b b64) true =
      turned_isi (decode a b64) (decode b b64) (sign_bit a ha) (sign_bit b hb) in
    rw (invalid_sub a b c na nb) (
      rw (met_twice (is_isi (decode a b64) (decode b b64) true)) (
        settled (is_isi (decode a b64) (decode b b64) true) _ sub
          (sum_ratio (decode a b64) (turned (decode b b64)) k.rn) _ _ _ k v refl
          (λ e. sum_default (decode a b64) (turned (decode b b64)) k.rn (same ∙ e))
          (λ e i.
            ap (λ (o : Calculate.Outcome). o.bits)
              (binary_quiet (λ da db. add_decoded da (turned db)) a b k.rn na nb))
          (λ e. sum_packed (decode a b64) (turned (decode b b64)) k.rn (same ∙ e))))
