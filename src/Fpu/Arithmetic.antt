-- ===== src/Fpu/Arithmetic.antt =====
-- `arithmetic` of sim/fpu/ppc_reference.py, phase by phase in the code's order.
use slo_ppc.Prelude.{
  ℕ, ◌+◌, ◌-◌, ◌^◌, bit_and, bit_or, bit_xor, Bool, true, false, not, ◌&&◌, ◌||◌, List, [], ◌∷◌,
  Option, none, some, ◌==◌, if◌then◌else◌,
}
use slo_ppc.Prelude.Int.{ℤ, pos, negsuc, ◌+ℤ◌, ◌-ℤ◌, ltb_ℤ}
use slo_ppc.Integer.Word.{truthy, int}
use slo_ppc.Fpu.Format.{Format, signbit, infinity, b32, b64, Kind, Decoded, decode}
use slo_ppc.Fpu.Round.{pack_ratio}
use slo_ppc.Fpu.Calculate.{
  Outcome, calculate, calculate_fma, is_nan, is_snan, is_inf, is_finite, is_zero, signed_infinity,
}
use slo_ppc.Fpu.Calculate
use slo_ppc.Fpu.Powerpc.{
  Op, add, sub, mul, div, madd, msub, nmadd, nmsub, frsp, fctiw, fctiwz, cmpu, cmpo, default_nan,
  vx_snan, vx_isi, vx_idi, vx_zdz, vx_imz, vx_vc, vx_cvi, classify, top, unbounded_round, Ratio,
  finite_ratio,
}

-- The keyword arguments after the operands.
pub record Controls : Type 0 where
  pub rn : ℕ
  pub single : Bool
  pub ni : Bool
  pub ve : Bool
  pub oe : Bool
  pub ue : Bool
  pub ze : Bool

-- The dictionary `out`.
pub record Report : Type 0 where
  pub result : ℕ
  pub write_result : Bool
  pub invalid : ℕ
  pub ox : Bool
  pub ux : Bool
  pub zx : Bool
  pub xx : Bool
  pub fr : Bool
  pub fi : Bool
  pub frfi_valid : Bool
  pub fprf : ℕ
  pub fprf_valid : Bool
  pub fpcc : ℕ
  pub compare_valid : Bool
  pub tiny_before_round : Bool

abbrev pub initial : Report
initial = record {
  result = 0;
  write_result = true;
  invalid = 0;
  ox = false;
  ux = false;
  zx = false;
  xx = false;
  fr = false;
  fi = false;
  frfi_valid = true;
  fprf = 0;
  fprf_valid = false;
  fpcc = 0;
  compare_valid = false;
  tiny_before_round = false;
}

-- The operands that an operation looks at.
unfoldable pub relevant : Op → ℕ → ℕ → ℕ → List ℕ
relevant frsp a b c = b ∷ []
relevant fctiw a b c = b ∷ []
relevant fctiwz a b c = b ∷ []
relevant mul a b c = a ∷ c ∷ []
relevant madd a b c = a ∷ b ∷ c ∷ []
relevant msub a b c = a ∷ b ∷ c ∷ []
relevant nmadd a b c = a ∷ b ∷ c ∷ []
relevant nmsub a b c = a ∷ b ∷ c ∷ []
relevant _ a b c = a ∷ b ∷ []

-- `op in ('madd', 'msub', 'nmadd', 'nmsub')`.
unfoldable pub is_fused : Op → Bool
is_fused madd = true
is_fused msub = true
is_fused nmadd = true
is_fused nmsub = true
is_fused _ = false

-- `op in ('msub', 'nmsub')`.
unfoldable pub subtracts : Op → Bool
subtracts msub = true
subtracts nmsub = true
subtracts _ = false

-- `op in ('nmadd', 'nmsub')`.
unfoldable pub negates : Op → Bool
negates nmadd = true
negates nmsub = true
negates _ = false

unfoldable pub any_kind : (Kind → Bool) → List ℕ → Bool
any_kind p [] = false
any_kind p (v ∷ vs) = p (decode v b64).kind || any_kind p vs

-- `nan`.
unfoldable pub first_nan : List ℕ → Option ℕ
unfolding is_nan
first_nan [] = none
first_nan (v ∷ vs) = let rest = first_nan vs in if is_nan (decode v b64).kind then some v else rest

-- A product of an infinity and a zero.
unfoldable pub is_imz : Decoded → Decoded → Bool
unfolding is_inf is_zero
is_imz da dc = (is_inf da.kind && is_zero dc) || (is_inf dc.kind && is_zero da)

-- A sum of infinities of two signs.
unfoldable pub is_isi : Decoded → Decoded → Bool → Bool
unfolding is_inf
is_isi da db differ =
    is_inf da.kind
    && (is_inf db.kind && (if differ then da.sign == db.sign else not (da.sign == db.sign)))

-- The invalid-operation bits of a fused operation on infinities.
unfoldable pub is_fused_isi : Op → Decoded → Decoded → Decoded → Bool
unfolding is_inf is_nan is_imz subtracts
is_fused_isi op da db dc =
    (is_inf da.kind || is_inf dc.kind)
    && (is_inf db.kind
        && (not (is_nan da.kind)
            && (not (is_nan dc.kind)
                && (not (is_imz da dc)
                    && not (bit_xor da.sign dc.sign == bit_xor db.sign (int (subtracts op)))))))

-- The bits that the operands alone decide, for each group of operations.
unfoldable pub operand_bits : Op → Decoded → Decoded → Decoded → ℕ
unfolding is_imz is_isi is_fused_isi is_inf is_zero is_fused
operand_bits add da db dc = if is_isi da db false then vx_isi else 0
operand_bits sub da db dc = if is_isi da db true then vx_isi else 0
operand_bits mul da db dc = if is_imz da dc then vx_imz else 0
operand_bits div da db dc =
    bit_or (if is_inf da.kind && is_inf db.kind then vx_idi else 0)
      (if is_zero da && is_zero db then vx_zdz else 0)
operand_bits op da db dc =
    if is_fused op
    then bit_or (if is_imz da dc then vx_imz else 0)
        (if is_fused_isi op da db dc then vx_isi else 0)
    else 0

-- `out['invalid']` before the search for a NaN.
unfoldable pub invalid_bits : Op → ℕ → ℕ → ℕ → ℕ
unfolding any_kind relevant operand_bits is_snan
invalid_bits op a b c =
    bit_or (if any_kind is_snan (relevant op a b c) then vx_snan else 0)
      (operand_bits op (decode a b64) (decode b b64) (decode c b64))

-- `cmpu`, and `cmpo` if `ordered`.
unfoldable pub compared : Bool → ℕ → ℕ → Bool → Report
unfolding is_nan is_snan
compared ordered a b ve =
    let ka = (decode a b64).kind in
    let kb = (decode b b64).kind in
    let has_snan = is_snan ka || is_snan kb in
    let out = record initial { compare_valid = true; write_result = false; frfi_valid = false } in
    if is_nan ka || is_nan kb
    then record out {
      fpcc = 0b0001;
      invalid =
          bit_or (if has_snan then vx_snan else 0)
            (if ordered && (not has_snan || not ve) then vx_vc else 0);
    }
    else (let code = (calculate Calculate.cmp a b 0 b64).bits in
        record out { fpcc = if code == 0 then 0b0010 else if code == 1 then 0b1000 else 0b0100 })

-- `fctiw` and `fctiwz`, the mode already chosen.
unfoldable pub converted : ℕ → ℕ → ℕ → Bool → Report
unfolding is_nan
converted b rn invalid ve =
    let d = decode b b64 in
    let rounded = calculate Calculate.ftoi32 b 0 rn b64 in
    if rounded.invalid
    then record initial {
      invalid = bit_or invalid vx_cvi;
      result = if is_nan d.kind || truthy d.sign then 0x8000_0000 else 0x7FFF_FFFF;
      write_result = not (ve && truthy (bit_or invalid vx_cvi));
    }
    else record initial {
      invalid = invalid;
      result = rounded.bits;
      xx = rounded.nx;
      fi = rounded.nx;
      fr = rounded.increment;
      write_result = not (ve && truthy invalid);
    }

-- A result that is reported with its class.
abbrev pub reported : ℕ → ℕ → Bool → Report
reported invalid result write = record initial {
  invalid = invalid;
  result = result;
  write_result = write;
  fprf = classify result b64;
  fprf_valid = write;
}

-- A NaN operand, quieted.
unfoldable pub propagated : Bool → ℕ → ℕ → Bool → Report
propagated is_frsp nan invalid ve =
    let quiet = bit_or nan (2 ^ 51) in
    reported invalid (if is_frsp then quiet - bit_and quiet (2 ^ 29 - 1) else quiet)
      (not (ve && truthy invalid))

-- The result where an operand is infinite, through the exact reference.
unfoldable pub special : Op → ℕ → ℕ → ℕ → ℕ → ℕ
unfolding subtracts negates is_nan
special add a b c rn = (calculate Calculate.add a b rn b64).bits
special sub a b c rn = (calculate Calculate.sub a b rn b64).bits
special mul a b c rn = (calculate Calculate.mul a c rn b64).bits
special div a b c rn = (calculate Calculate.div a b rn b64).bits
special op a b c rn =
    let fused = (calculate_fma a c b rn b64 false (subtracts op)).bits in
    if negates op && not (is_nan (decode fused b64).kind) then bit_xor fused (2 ^ 63) else fused

-- The sign of a negated operation, turned after the rounding.
unfoldable pub negated : Op → Format → ℕ → ℕ
unfolding negates
negated op fmt bits = if negates op then bit_xor bits (2 ^ signbit fmt) else bits

-- The exponent adjustment of a trapped overflow or underflow.
unfoldable pub adjustment : Bool → Bool → ℤ
adjustment narrow overflow =
    if narrow
    then (if overflow then negsuc 191 else pos 192)
    else (if overflow then negsuc 1535 else pos 1536)

-- The trapped result of an overflow or underflow that is enabled, on a report with the other bits.
unfoldable pub trapped : Op → Ratio → ℕ → Bool → Bool → Report → Report
unfolding negated adjustment unbounded_round
trapped op q rn narrow overflow out =
    let u =
      unbounded_round q.n q.d q.exponent q.sign rn ((if narrow then b32 else b64).fraction + 1) in
    let adjusted =
      negated op b64
        (pack_ratio u.mantissa 1 (u.quantum +ℤ adjustment narrow overflow) q.sign 0 b64).bits in
    record out {
      xx = u.inexact;
      fi = u.inexact;
      fr = u.increment;
      result = adjusted;
      fprf = classify adjusted b64;
      fprf_valid = true;
    }

-- A subnormal result is zero in the non-IEEE mode.
unfoldable pub flushed : Bool → Format → ℕ → ℕ
flushed ni fmt bits =
    if ni && ((bit_and bits (infinity fmt) == 0) && truthy (bit_and bits (2 ^ fmt.fraction - 1)))
    then bit_and bits (2 ^ signbit fmt)
    else bits

-- The result that is delivered as it is, a single one widened.
unfoldable pub delivered : Op → ℕ → Bool → Bool → Report → Report
unfolding negated flushed
delivered op bits narrow ni out =
    let fmt = if narrow then b32 else b64 in
    let final = negated op fmt (flushed ni fmt bits) in
    record out {
      fprf = classify final fmt;
      result = if narrow then (calculate Calculate.to64 final 0 0 b32).bits else final;
      fprf_valid = true;
    }

-- The rounding of an exact ratio, with the bits that it raises.
unfoldable pub rounded_ratio : Op → Ratio → ℕ → Bool → Controls → Report
unfolding trapped delivered top
rounded_ratio op q invalid narrow k =
    let fmt = if narrow then b32 else b64 in
    let p = pack_ratio q.n q.d q.exponent q.sign k.rn fmt in
    let tiny = truthy q.n && ltb_ℤ (top q.n q.d q.exponent) (pos 1 -ℤ pos fmt.bias) in
    let inexact = p.nx || (p.of && not k.oe) in
    let out = record initial {
      invalid = invalid;
      tiny_before_round = tiny;
      ux = tiny && (k.ue || p.nx);
      ox = p.of;
      xx = inexact;
      fi = inexact;
      fr = p.increment;
    } in
    if (p.of && k.oe) || (tiny && k.ue)
    then trapped op q k.rn narrow p.of out
    else delivered op p.bits narrow k.ni out

-- A nonzero number by a zero.
unfoldable pub is_zero_divide : Op → Decoded → Decoded → Bool
unfolding is_finite is_zero
is_zero_divide div da db = is_finite da.kind && (truthy da.significand && is_zero db)
is_zero_divide _ da db = false

-- The tests of `operand_bits` that the code repeats before the computation.
unfoldable pub repeated_bits : Op → Decoded → Decoded → Decoded → ℕ
unfolding is_imz operand_bits
repeated_bits add da db dc = operand_bits add da db dc
repeated_bits sub da db dc = operand_bits sub da db dc
repeated_bits div da db dc = operand_bits div da db dc
repeated_bits op da db dc = if is_imz da dc then vx_imz else 0

-- An arithmetic operation on operands without a NaN.
unfoldable pub computed : Op → ℕ → ℕ → ℕ → ℕ → Controls → Report
unfolding is_zero_divide repeated_bits any_kind relevant special rounded_ratio is_inf
computed op a b c invalid0 k =
    let da = decode a b64 in
    let db = decode b b64 in
    let invalid = bit_or invalid0 (repeated_bits op da db (decode c b64)) in
    if is_zero_divide op da db
    then record (reported invalid0 (signed_infinity (bit_xor da.sign db.sign) b64) (not k.ze)) {
      zx = true;
    }
    else if truthy invalid
    then reported invalid default_nan (not k.ve)
    else if any_kind is_inf (relevant op a b c)
    then reported invalid (special op a b c k.rn) true
    else rounded_ratio op (finite_ratio op a b c k.rn) invalid k.single k

-- `frsp` of a number that is no NaN.
unfoldable pub rounded_single : ℕ → ℕ → Controls → Report
unfolding is_inf rounded_ratio
rounded_single b invalid k =
    if is_inf (decode b b64).kind
    then reported invalid b true
    else rounded_ratio frsp (finite_ratio frsp 0 b 0 k.rn) invalid true k

-- A NaN operand, or else the result that is computed.
unfoldable pub quiet_or : Bool → List ℕ → ℕ → Bool → Report → Report
unfolding first_nan propagated
quiet_or is_frsp operands invalid ve out = elim (first_nan operands) [
  | some nan ↦ propagated is_frsp nan invalid ve
  | none ↦ out
]

unfoldable pub arithmetic : Op → ℕ → ℕ → ℕ → Controls → Report
unfolding compared converted invalid_bits relevant quiet_or rounded_single computed
arithmetic cmpu a b c k = compared false a b k.ve
arithmetic cmpo a b c k = compared true a b k.ve
arithmetic fctiw a b c k = converted b k.rn (invalid_bits fctiw a b c) k.ve
arithmetic fctiwz a b c k = converted b 1 (invalid_bits fctiwz a b c) k.ve
arithmetic frsp a b c k =
    let invalid = invalid_bits frsp a b c in
    quiet_or true (relevant frsp a b c) invalid k.ve (rounded_single b invalid k)
arithmetic op a b c k =
    let invalid = invalid_bits op a b c in
    quiet_or false (relevant op a b c) invalid k.ve (computed op a b c invalid k)
