-- ===== src/Fpu/Refinement/Products.antt =====
-- Products and quotients.
use slo_ppc.Prelude.{
  ℕ, ◌≡◌, refl, sym, ap, ◌∙◌, arith, Bool, true, false, ◌&&◌, ◌||◌, if◌then◌else◌, bit_xor, bit_or,
}
use slo_ppc.Prelude.Int.{◌-ℤ◌}
use slo_ppc.Integer.Word.{truthy}
use slo_ppc.Fpu.Format.{b64, Kind, snan, qnan, inf, finite, Decoded, decode}
use slo_ppc.Fpu.Round.{Packed, pack_ratio}
use slo_ppc.Fpu.Calculate.{
  calculate, binary, quiet_first, turned, signed_infinity, add_decoded, mul_decoded, div_decoded,
  is_nan, is_snan, is_inf, is_zero, is_finite,
}
use slo_ppc.Fpu.Calculate
use slo_ppc.Fpu.Powerpc
use slo_ppc.Fpu.Powerpc.{
  vx_idi, vx_zdz, Op, add, sub, mul, div, vx_isi, finite_ratio, vx_imz, sum_ratio, product_ratio,
  default_nan,
}
use slo_ppc.Fpu.Arithmetic.{
  Controls, Report, computed, special, relevant, any_kind, is_imz, operand_bits, invalid_bits,
  repeated_bits, is_zero_divide,
}
use slo_ppc.Fpu.Agreement.{pack_ratio-pack}
use slo_ppc.Fpu.Refinement.Choice.{
  IsUntrapped, binary_quiet, not_snan, settled, default_eq, last_false,
}

met_twice_imz :
    (t : Bool) → truthy (bit_or (bit_or 0 (if t then vx_imz else 0)) (if t then vx_imz else 0)) ≡ t
met_twice_imz true = refl
met_twice_imz false = refl

invalid_mul :
    (a b c : ℕ)
    → is_nan (decode a b64).kind ≡ false
    → is_nan (decode c b64).kind ≡ false
    → invalid_bits mul a b c ≡ bit_or 0 (if is_imz (decode a b64) (decode c b64) then vx_imz else 0)
unfolding invalid_bits any_kind relevant
invalid_mul a b c na nc = rw (not_snan _ na) (rw (not_snan _ nc) refl)

product_default :
    (da dc : Decoded) (rn : ℕ) → is_imz da dc ≡ true → default_nan ≡ (mul_decoded da dc rn b64).bits
unfolding mul_decoded is_imz
product_default da dc rn e = rw e default_eq

product_packed :
    (da dc : Decoded) (rn : ℕ)
    → is_imz da dc ≡ false
    → (is_inf da.kind || (is_inf dc.kind || false)) ≡ false
    → let q = product_ratio da dc in
      (pack_ratio q.n 1 q.exponent q.sign rn b64).bits ≡ (mul_decoded da dc rn b64).bits
unfolding mul_decoded is_imz product_ratio
product_packed da dc rn e i =
    let q : Powerpc.Ratio = product_ratio da dc in
    ap (λ (o : Packed). o.bits) (pack_ratio-pack q.n q.exponent q.sign rn b64)
    ∙ (rw e (rw (last_false (is_inf da.kind) (is_inf dc.kind) i) refl))

pub computed_mul :
    (a b c : ℕ) (k : Controls)
    → IsUntrapped k
    → is_nan (decode a b64).kind ≡ false
    → is_nan (decode c b64).kind ≡ false
    → (computed mul a b c (invalid_bits mul a b c) k).result
      ≡ (mul_decoded (decode a b64) (decode c b64) k.rn b64).bits
unfolding computed repeated_bits is_zero_divide any_kind relevant special operand_bits calculate
    finite_ratio
computed_mul a b c k v na nc = rw (invalid_mul a b c na nc) (
    rw (met_twice_imz (is_imz (decode a b64) (decode c b64))) (
      settled (is_imz (decode a b64) (decode c b64)) _ mul
        (product_ratio (decode a b64) (decode c b64)) _ _ _ k v refl
        (product_default (decode a b64) (decode c b64) k.rn)
        (λ e i. ap (λ (o : Calculate.Outcome). o.bits) (binary_quiet mul_decoded a c k.rn na nc))
        (product_packed (decode a b64) (decode c b64) k.rn)))

met_twice_div :
    (t u : Bool)
    → truthy (
        bit_or
          (bit_or 0 (bit_or (if t then vx_idi else 0) (if u then vx_zdz else 0)))
          (bit_or (if t then vx_idi else 0) (if u then vx_zdz else 0)))
      ≡ (t || u)
met_twice_div true true = refl
met_twice_div true false = refl
met_twice_div false true = refl
met_twice_div false false = refl

unfoldable is_undefined : Decoded → Decoded → Bool
is_undefined da db = (is_inf da.kind && is_inf db.kind) || (is_zero da && is_zero db)

invalid_div :
    (a b c : ℕ)
    → is_nan (decode a b64).kind ≡ false
    → is_nan (decode b b64).kind ≡ false
    → invalid_bits div a b c
      ≡ bit_or 0 (
          bit_or
            (if is_inf (decode a b64).kind && is_inf (decode b b64).kind then vx_idi else 0)
            (if is_zero (decode a b64) && is_zero (decode b b64) then vx_zdz else 0))
unfolding invalid_bits any_kind relevant operand_bits
invalid_div a b c na nb = rw (not_snan _ na) (rw (not_snan _ nb) refl)

and_parts : (t u v : Bool) → (t && (u && v)) ≡ true → (t ≡ true) × (u ≡ true) × (v ≡ true)
and_parts t u v h = ground arith

finite_inf : (k : Kind) → is_finite k ≡ true → is_inf k ≡ false
unfolding is_finite is_inf
finite_inf snan h = refl
finite_inf qnan h = refl
finite_inf inf h = sym h
finite_inf finite h = refl

-- A nonzero finite number by a zero is defined.
divisible : (da db : Decoded) → is_zero_divide div da db ≡ true → is_undefined da db ≡ false
unfolding is_undefined is_zero_divide is_zero
divisible da db e =
    let p = and_parts (is_finite da.kind) (truthy da.significand) (is_zero db) e in
    rw (finite_inf da.kind p.0) (rw p.0 (rw p.1 refl))

unless :
    (z : Bool) (x y : Report) (r : ℕ)
    → (z ≡ true → x.result ≡ r)
    → (z ≡ false → y.result ≡ r)
    → (if z then x else y).result ≡ r
unless true x y r h k = h refl
unless false x y r h k = k refl

zero_divided :
    (da db : Decoded) (rn : ℕ)
    → is_zero_divide div da db ≡ true
    → signed_infinity (bit_xor da.sign db.sign) b64 ≡ (div_decoded da db rn b64).bits
unfolding div_decoded is_undefined is_zero_divide
zero_divided da db rn e = rw (divisible da db e) (rw e refl)

quotient_default :
    (da db : Decoded) (rn : ℕ)
    → is_undefined da db ≡ true
    → default_nan ≡ (div_decoded da db rn b64).bits
unfolding div_decoded is_undefined
quotient_default da db rn e = rw e default_eq

quotient_packed :
    (da db : Decoded) (rn : ℕ)
    → is_zero_divide div da db ≡ false
    → is_undefined da db ≡ false
    → (is_inf da.kind || (is_inf db.kind || false)) ≡ false
    → (pack_ratio da.significand db.significand
        (da.exponent -ℤ db.exponent)
        (bit_xor da.sign db.sign)
        rn
        b64).bits
      ≡ (div_decoded da db rn b64).bits
unfolding div_decoded is_undefined is_zero_divide
quotient_packed da db rn z e i =
    rw e (rw z (rw (last_false (is_inf da.kind) (is_inf db.kind) i) refl))

pub computed_div :
    (a b c : ℕ) (k : Controls)
    → IsUntrapped k
    → is_nan (decode a b64).kind ≡ false
    → is_nan (decode b b64).kind ≡ false
    → (computed div a b c (invalid_bits div a b c) k).result
      ≡ (div_decoded (decode a b64) (decode b b64) k.rn b64).bits
unfolding computed repeated_bits any_kind relevant special operand_bits calculate finite_ratio
    is_undefined
computed_div a b c k v na nb =
    let da : Decoded = decode a b64 in
    let db : Decoded = decode b b64 in
    rw (invalid_div a b c na nb) (
      unless (is_zero_divide div da db) _ _ _ (zero_divided da db k.rn) (λ z.
        rw (met_twice_div (is_inf da.kind && is_inf db.kind) (is_zero da && is_zero db)) (
          settled (is_undefined da db) _ div (finite_ratio div a b c k.rn) _ _ _ k v refl
            (quotient_default da db k.rn)
            (λ e i.
              ap (λ (o : Calculate.Outcome). o.bits) (binary_quiet div_decoded a b k.rn na nb))
            (quotient_packed da db k.rn z))))
