-- ===== src/Fpu/Refinement/Choice.antt =====
-- The branches that the PowerPC operations share: a NaN operand, an invalid operation, an infinity, a rounding.
use slo_ppc.Prelude.{
  ℕ, ◌^◌, ◌≡◌, refl, ap, ◌∙◌, Bool, Bool-cases, inl, inr, List, [], ◌∷◌, Option, none, some, true,
  false, not, ◌&&◌, ◌||◌, if◌then◌else◌, bit_or,
}
use slo_ppc.Fpu.Format.{Format, infinity, b64, Kind, snan, qnan, inf, finite, Decoded, decode}
use slo_ppc.Fpu.Round.{pack_ratio}
use slo_ppc.Fpu.Calculate.{
  calculate, binary, quiet_first, turned, signed_infinity, add_decoded, mul_decoded, div_decoded,
  is_nan, is_snan, is_inf, is_zero, is_finite,
}
use slo_ppc.Fpu.Calculate
use slo_ppc.Fpu.Powerpc
use slo_ppc.Fpu.Powerpc.{
  Op, add, sub, mul, div, vx_isi, finite_ratio, vx_imz, sum_ratio, product_ratio, default_nan,
}
use slo_ppc.Fpu.Arithmetic.{
  Controls, Report, quiet_or, rounded_ratio, delivered, negated, flushed, special, reported,
  propagated, first_nan, negates,
}

-- Double precision with no overflow or underflow exception enabled, in the IEEE mode.
pub record IsUntrapped (k : Controls) : Type 0 where
  pub double : k.single ≡ false
  pub ieee : k.ni ≡ false
  pub no_oe : k.oe ≡ false
  pub no_ue : k.ue ≡ false

untaken : (p t : Bool) → ((p && false) || (t && false)) ≡ false
untaken true true = refl
untaken true false = refl
untaken false true = refl
untaken false false = refl

rounded_untrapped :
    (op : Op) (q : Powerpc.Ratio) (invalid : ℕ) (k : Controls)
    → IsUntrapped k
    → negates op ≡ false
    → (rounded_ratio op q invalid k.single k).result
      ≡ (pack_ratio q.n q.d q.exponent q.sign k.rn b64).bits
unfolding rounded_ratio delivered negated flushed
rounded_untrapped op q invalid k v n =
    rw v.double (rw v.ieee (rw v.no_oe (rw v.no_ue (rw n (rw (untaken _ _) refl)))))

first_hit : (x : ℕ) (vs : List ℕ) → is_nan (decode x b64).kind ≡ true → first_nan (x ∷ vs) ≡ some x
unfolding first_nan
first_hit x vs e = rw e refl

first_miss :
    (x : ℕ) (vs : List ℕ) → is_nan (decode x b64).kind ≡ false → first_nan (x ∷ vs) ≡ first_nan vs
unfolding first_nan
first_miss x vs e = rw e refl

quiet_found :
    (vs : List ℕ) (x invalid : ℕ) (ve : Bool) (out : Report)
    → first_nan vs ≡ some x
    → (quiet_or false vs invalid ve out).result ≡ bit_or x (2 ^ 51)
unfolding quiet_or propagated
quiet_found vs x invalid ve out h =
    ap
      (λ (o : Option ℕ).
        (elim o as (λ u. Report) [
          | some nan ↦ propagated false nan invalid ve
          | none ↦ out
        ]).result)
      h

quiet_none :
    (vs : List ℕ) (invalid : ℕ) (ve : Bool) (out : Report)
    → first_nan vs ≡ none
    → quiet_or false vs invalid ve out ≡ out
unfolding quiet_or
quiet_none vs invalid ve out h =
    ap
      (λ (o : Option ℕ). (elim o as (λ u. Report) [
        | some nan ↦ propagated false nan invalid ve
        | none ↦ out
      ]))
      h

-- The choice of a NaN operand is that of the exact reference.
pub quiet_agrees :
    (f : Decoded → Decoded → ℕ → Format → Calculate.Outcome) (x y invalid rn : ℕ) (ve : Bool)
    (out : Report)
    → (is_nan (decode x b64).kind ≡ false
        → is_nan (decode y b64).kind ≡ false
        → out.result ≡ (f (decode x b64) (decode y b64) rn b64).bits)
    → (quiet_or false (x ∷ y ∷ []) invalid ve out).result ≡ (binary f x y rn b64).bits
unfolding binary quiet_first first_nan
quiet_agrees f x y invalid rn ve out h = elim (Bool-cases (is_nan (decode x b64).kind)) [
  | inl e ↦ quiet_found (x ∷ y ∷ []) x invalid ve out (first_hit x (y ∷ []) e) ∙ (rw e refl)
  | inr e ↦ elim (Bool-cases (is_nan (decode y b64).kind)) [
    | inl g ↦
        quiet_found (x ∷ y ∷ []) y invalid ve out (first_miss x (y ∷ []) e ∙ first_hit y [] g)
        ∙ (rw e (rw g refl))
    | inr g ↦
        ap (λ (r : Report). r.result)
          (quiet_none (x ∷ y ∷ []) invalid ve out (first_miss x (y ∷ []) e ∙ first_miss y [] g))
        ∙ h e g
        ∙ (rw e (rw g refl))
  ]
]

pub binary_quiet :
    (f : Decoded → Decoded → ℕ → Format → Calculate.Outcome) (a b rn : ℕ)
    → is_nan (decode a b64).kind ≡ false
    → is_nan (decode b b64).kind ≡ false
    → binary f a b rn b64 ≡ f (decode a b64) (decode b b64) rn b64
unfolding binary
binary_quiet f a b rn na nb = rw na (rw nb refl)

pub not_snan : (k : Kind) → is_nan k ≡ false → is_snan k ≡ false
unfolding is_nan is_snan
not_snan snan h = h
not_snan qnan h = refl
not_snan inf h = refl
not_snan finite h = refl

-- The last three branches of `computed` give a result if each does.
pub settled :
    (t u : Bool) (op : Op) (q : Powerpc.Ratio) (invalid special r : ℕ) (k : Controls)
    → IsUntrapped k
    → negates op ≡ false
    → (t ≡ true → default_nan ≡ r)
    → (t ≡ false → u ≡ true → special ≡ r)
    → (t ≡ false → u ≡ false → (pack_ratio q.n q.d q.exponent q.sign k.rn b64).bits ≡ r)
    → (if t
        then reported invalid default_nan (not k.ve)
        else if u
        then reported invalid special true
        else rounded_ratio op q invalid k.single k).result
      ≡ r
settled true u op q invalid special r k v n h i j = h refl
settled false true op q invalid special r k v n h i j = i refl refl
settled false false op q invalid special r k v n h i j =
    rounded_untrapped op q invalid k v n ∙ j refl refl

pub default_eq : default_nan ≡ Calculate.default_nan b64
unfolding Calculate.default_nan infinity
default_eq = refl

pub last_false : (t u : Bool) → (t || (u || false)) ≡ false → (t || u) ≡ false
last_false true u h = h
last_false false true h = h
last_false false false h = refl
