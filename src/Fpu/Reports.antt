-- ===== src/Fpu/Reports.antt =====
-- What a PowerPC operation reports: when its result is withheld, and the class of a result.
use slo_ppc.Prelude.{
  ℕ, ◌-◌, ◌/◌, ◌%◌, ◌^◌, ◌<◌, ◌≡◌, ◌≢◌, ◌↔◌, ◌⊎◌, inl, refl, arith, Bool, true, false, not, ◌&&◌,
  ◌||◌, List, none, some, bit_and, bit_or, bit_xor, if◌then◌else◌, ◌==◌, ltb,
}
use slo_ppc.Bits.{two_pow_pos, bit_and_mask}
use slo_ppc.Integer.Word.{truthy}
use slo_ppc.Fpu.Format.{
  Format, b64, Kind, snan, qnan, inf, finite, Decoded, signbit, special_kind, decode, decode_fields,
}
use slo_ppc.Fpu.Encoding.{or_leading}
use slo_ppc.Fpu.Calculate.{is_nan, is_inf, signed_infinity}
use slo_ppc.Fpu.Powerpc.{
  Op, add, sub, mul, div, madd, msub, nmadd, nmsub, frsp, fctiw, fctiwz, cmpu, cmpo, default_nan,
  finite_ratio, Ratio, classify,
}
use slo_ppc.Fpu.Arithmetic.{
  Controls, Report, arithmetic, quiet_or, computed, rounded_ratio, rounded_single, trapped,
  delivered, converted, compared, first_nan, propagated, repeated_bits, is_zero_divide, reported,
  special, any_kind, relevant, invalid_bits,
}

-- An enabled exception that keeps a result from its register.
abbrev pub IsWithheld : Controls → Report → Type 0
IsWithheld k r =
    (r.compare_valid ≡ true) ⊎ ((k.ve ≡ true) × (r.invalid ≢ 0)) ⊎ ((k.ze ≡ true) × (r.zx ≡ true))

record IsSound (k : Controls) (r : Report) : Type 0 where
  reason : r.write_result ≡ false → IsWithheld k r

either_IsSound :
    (k : Controls) (t : Bool) (x y : Report)
    → (t ≡ true → IsSound k x)
    → (t ≡ false → IsSound k y)
    → IsSound k (if t then x else y)
either_IsSound k true x y f g = f refl
either_IsSound k false x y f g = g refl

written-IsSound : (k : Controls) (r : Report) → r.write_result ≡ true → IsSound k r
written-IsSound k r w = record { reason = λ h. absurd (ground arith) }

rounded_writes :
    (op : Op) (q : Ratio) (invalid : ℕ) (narrow : Bool) (k : Controls)
    → (rounded_ratio op q invalid narrow k).write_result ≡ true
unfolding rounded_ratio trapped delivered
rounded_writes op q invalid narrow k = ground arith

rounded-IsSound :
    (op : Op) (q : Ratio) (invalid : ℕ) (narrow : Bool) (k : Controls)
    → IsSound k (rounded_ratio op q invalid narrow k)
rounded-IsSound op q invalid narrow k = written-IsSound k _ (rounded_writes op q invalid narrow k)

reported-IsSound :
    (invalid result : ℕ) (k : Controls)
    → truthy invalid ≡ true
    → IsSound k (reported invalid result (not k.ve))
reported-IsSound invalid result k t = record { reason = λ h. ground arith }

divided-IsSound :
    (invalid result : ℕ) (k : Controls)
    → IsSound k (record (reported invalid result (not k.ze)) { zx = true })
divided-IsSound invalid result k = record { reason = λ h. ground arith }

computed-IsSound :
    (op : Op) (a b c invalid : ℕ) (k : Controls) → IsSound k (computed op a b c invalid k)
unfolding computed
computed-IsSound op a b c invalid k =
    let da : Decoded = decode a b64 in
    let db : Decoded = decode b b64 in
    let bits : ℕ = bit_or invalid (repeated_bits op da db (decode c b64)) in
    let infinite : Report = reported bits (special op a b c k.rn) true in
    let finite : Report = rounded_ratio op (finite_ratio op a b c k.rn) bits k.single k in
    either_IsSound k (is_zero_divide op da db)
      (record (reported invalid (signed_infinity (bit_xor da.sign db.sign) b64) (not k.ze)) {
        zx = true;
      })
      _ (λ e. divided-IsSound invalid _ k)
      (λ e.
        either_IsSound k (truthy bits) (reported bits default_nan (not k.ve)) _
          (reported-IsSound bits default_nan k)
          (λ i.
            either_IsSound k (any_kind is_inf (relevant op a b c)) infinite finite
              (λ j. written-IsSound k infinite refl)
              (λ j. rounded-IsSound op (finite_ratio op a b c k.rn) bits k.single k)))

single-IsSound : (b invalid : ℕ) (k : Controls) → IsSound k (rounded_single b invalid k)
unfolding rounded_single
single-IsSound b invalid k =
    either_IsSound k (is_inf (decode b b64).kind) (reported invalid b true) _
      (λ j. written-IsSound k (reported invalid b true) refl)
      (λ j. rounded-IsSound frsp (finite_ratio frsp 0 b 0 k.rn) invalid true k)

converted-IsSound : (b rn invalid : ℕ) (k : Controls) → IsSound k (converted b rn invalid k.ve)
unfolding converted
converted-IsSound b rn invalid k = record { reason = λ h. ground arith }

compares : (ordered : Bool) (a b : ℕ) (ve : Bool) → (compared ordered a b ve).compare_valid ≡ true
unfolding compared
compares ordered a b ve = ground arith

compared-IsSound : (ordered : Bool) (a b : ℕ) (k : Controls) → IsSound k (compared ordered a b k.ve)
compared-IsSound ordered a b k = record { reason = λ h. inl (compares ordered a b k.ve) }

quiet-IsSound :
    (single : Bool) (vs : List ℕ) (invalid : ℕ) (k : Controls) (out : Report)
    → IsSound k out
    → IsSound k (quiet_or single vs invalid k.ve out)
unfolding quiet_or propagated
quiet-IsSound single vs invalid k out s =
    elim (first_nan vs)
      as (λ o.
        IsSound k (elim o as (λ u. Report) [
          | some nan ↦ propagated single nan invalid k.ve
          | none ↦ out
        ])) [ none ↦ s | some nan ↦ record { reason = λ h. ground arith } ]

operation-IsSound :
    (op : Op) (a b c : ℕ) (k : Controls)
    → IsSound k (
        quiet_or false
          (relevant op a b c)
          (invalid_bits op a b c)
          k.ve
          (computed op a b c (invalid_bits op a b c) k))
operation-IsSound op a b c k =
    quiet-IsSound false (relevant op a b c) (invalid_bits op a b c) k _
      (computed-IsSound op a b c (invalid_bits op a b c) k)

-- A result is kept from its register only by a comparison, by an invalid operation whose exception is
-- enabled, or by a division by zero whose exception is enabled.
pub arithmetic-IsWithheld :
    (op : Op) (a b c : ℕ) (k : Controls)
    → (arithmetic op a b c k).write_result ≡ false
    → IsWithheld k (arithmetic op a b c k)
unfolding arithmetic
arithmetic-IsWithheld cmpu a b c k = (compared-IsSound false a b k).reason
arithmetic-IsWithheld cmpo a b c k = (compared-IsSound true a b k).reason
arithmetic-IsWithheld fctiw a b c k = (converted-IsSound b k.rn _ k).reason
arithmetic-IsWithheld fctiwz a b c k = (converted-IsSound b 1 _ k).reason
arithmetic-IsWithheld frsp a b c k =
    (quiet-IsSound true (relevant frsp a b c) (invalid_bits frsp a b c) k _
      (single-IsSound b (invalid_bits frsp a b c) k)).reason
arithmetic-IsWithheld add a b c k = (operation-IsSound add a b c k).reason
arithmetic-IsWithheld sub a b c k = (operation-IsSound sub a b c k).reason
arithmetic-IsWithheld mul a b c k = (operation-IsSound mul a b c k).reason
arithmetic-IsWithheld div a b c k = (operation-IsSound div a b c k).reason
arithmetic-IsWithheld madd a b c k = (operation-IsSound madd a b c k).reason
arithmetic-IsWithheld msub a b c k = (operation-IsSound msub a b c k).reason
arithmetic-IsWithheld nmadd a b c k = (operation-IsSound nmadd a b c k).reason
arithmetic-IsWithheld nmsub a b c k = (operation-IsSound nmsub a b c k).reason

fraction_below : (x k : ℕ) → bit_and x (2 ^ k - 1) < 2 ^ k
fraction_below x k = rw (bit_and_mask k x) (omega (arith, two_pow_pos k))

-- A number has no leading one exactly if its exponent field is 0.
leading_one :
    (sign e f : ℕ) (fmt : Format)
    → f < 2 ^ fmt.fraction
    → let d = decode_fields sign e f fmt in
      (is_nan d.kind || is_inf d.kind) ≡ false → (e == 0) ≡ ltb d.significand (2 ^ fmt.fraction)
unfolding decode_fields special_kind is_nan is_inf
leading_one sign e f fmt h =
    ground (arith, or_leading f fmt.fraction true h, or_leading f fmt.fraction false h)

abbrev pub nan_kind : Kind → Bool
nan_kind snan = true
nan_kind qnan = true
nan_kind inf = false
nan_kind finite = false

abbrev pub inf_kind : Kind → Bool
inf_kind inf = true
inf_kind _ = false

-- The five bits of a class against a decoded number: FU for a NaN or an infinity, EQ for a zero, GT and LT by
-- the sign of a number that is neither a NaN nor a zero, and C for a NaN, for a zero with a sign, and for a
-- number other than a zero that is below the least with a leading one. There is no other bit.
abbrev pub IsClass : Format → Decoded → ℕ → Type 0
IsClass fmt d c =
    let special = nan_kind d.kind || inf_kind d.kind in
    let signed = not (nan_kind d.kind) && (inf_kind d.kind || truthy d.significand) in
    let is_zero = not special && (d.significand == 0) in
    let is_denormal =
      not special && (truthy d.significand && ltb d.significand (2 ^ fmt.fraction)) in
    ((c % 2 ≡ 1) ↔ (special ≡ true))
    × ((c / 2 % 2 ≡ 1) ↔ (is_zero ≡ true))
    × ((c / 4 % 2 ≡ 1) ↔ ((signed && (d.sign == 0)) ≡ true))
    × ((c / 8 % 2 ≡ 1) ↔ ((signed && truthy d.sign) ≡ true))
    × ((c / 16 % 2 ≡ 1) ↔ ((nan_kind d.kind || ((is_zero && truthy d.sign) || is_denormal)) ≡ true))
    × (c < 32)

-- The class of a number has exactly the bits that its decoded value asks for: FU for a NaN or an infinity, EQ for
-- a zero, GT and LT by the sign of a number that is neither a NaN nor a zero, and C for a NaN, for a zero
-- with a sign, and for a denormal number.
pub classify-decode : (bits : ℕ) (fmt : Format) → IsClass fmt (decode bits fmt) (classify bits fmt)
unfolding classify decode is_nan is_inf
classify-decode bits fmt = ground (
  arith,
  leading_one (bits / 2 ^ signbit fmt) (bit_and (bits / 2 ^ fmt.fraction) (2 ^ fmt.exponent - 1))
      (bit_and bits (2 ^ fmt.fraction - 1)) fmt (fraction_below bits fmt.fraction),
)
