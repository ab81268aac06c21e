-- ===== src/Perf/Search.antt =====
-- The loops `while True` of `schedule` of sim/tools/perf_model_603e.py that go on to the next cycle until a test holds,
-- and the counts over the last instructions.
use native.Mathlib.Nat.{add-zero}
use slo_ppc.Prelude.{
  ℕ, zero, suc, ◌+◌, ◌≤◌, ◌<◌, ◌≡◌, ◌⊎◌, inl, inr, refl, subst, Bool, true, false, Option, none,
  some, List, [], ◌∷◌, arith, Bool-cases,
}

-- The first cycle from `d` on at which the test holds, with fuel.
unfoldable pub first_cycle : ℕ → (ℕ → Bool) → ℕ → Option ℕ
first_cycle zero p d = none
first_cycle (suc fuel) p d = elim (p d) [ true ↦ some d | false ↦ first_cycle fuel p (d + 1) ]

-- `sum(n(q) for q in qs)`.
unfoldable pub sum_of {ℓ} : {A : Type ℓ} → (A → ℕ) → List A → ℕ
sum_of n [] = 0
sum_of n (q ∷ qs) = n q + sum_of n qs

eq_or_lt : {a b : ℕ} → a ≤ b → (a ≡ b) ⊎ (a + 1 ≤ b)
eq_or_lt h = omega arith

-- The cycle comes no earlier than `d` and passes the test, and none before it does.
pub record IsFirst (p : ℕ → Bool) (d c : ℕ) : Type 0 where
  pub after : d ≤ c
  pub holds : p c ≡ true
  pub fails : (m : ℕ) → d ≤ m → m < c → p m ≡ false

pub first_cycle-IsFirst :
    (fuel : ℕ) (p : ℕ → Bool) (d : ℕ) {c : ℕ} → first_cycle fuel p d ≡ some c → IsFirst p d c
unfolding first_cycle
first_cycle-IsFirst zero p d h = absurd (ground arith)
first_cycle-IsFirst (suc fuel) p d {c} h = elim (Bool-cases (p d)) [
  | inl t ↦ found t (ground arith)
  | inr f ↦ later f (first_cycle-IsFirst fuel p (d + 1) (ground arith))
]
  where
    found : p d ≡ true → d ≡ c → IsFirst p d c
    found t e = record {
      after = omega arith;
      holds = subst (λ m. p m ≡ true) e t;
      fails = λ m a b. absurd (omega arith);
    }

    later : p d ≡ false → IsFirst p (d + 1) c → IsFirst p d c
    later f r = record {
      after = omega (arith, r.after);
      holds = r.holds;
      fails = λ m a b. elim (eq_or_lt a) [
        | inl e ↦ subst (λ k. p k ≡ false) e f
        | inr lt ↦ r.fails m lt b
      ];
    }

-- Where the test holds at the last cycle that the fuel reaches, a cycle is found.
first_cycle_returns :
    (fuel : ℕ) (p : ℕ → Bool) (d : ℕ)
    → p (d + fuel) ≡ true
    → (c : ℕ) × (first_cycle (suc fuel) p d ≡ some c)
unfolding first_cycle
first_cycle_returns zero p d h = (d, ground (arith, subst (λ m. p m ≡ true) (add-zero d) h))
first_cycle_returns (suc fuel) p d h = elim (Bool-cases (p d)) [
  | inl t ↦ (d, rw (t, first_cycle) refl)
  | inr f ↦
      let (c, e) =
        first_cycle_returns fuel p (d + 1) (subst (λ m. p m ≡ true) (shifted d fuel) h) in
      (c, rw (f, first_cycle) e)
]
  where
    shifted : (d fuel : ℕ) → d + suc fuel ≡ d + 1 + fuel
    shifted d fuel = omega arith

-- Where it never holds no fuel is enough.
pub first_cycle-none :
    (fuel : ℕ) (p : ℕ → Bool) (d : ℕ)
    → ((m : ℕ) → d ≤ m → p m ≡ false)
    → first_cycle fuel p d ≡ none
unfolding first_cycle
first_cycle-none zero p d h = refl
first_cycle-none (suc fuel) p d h =
    rw (h d (omega arith), first_cycle) (first_cycle-none fuel p (d + 1) (λ m k. h m (omega arith)))

pub first_cycle_within :
    (fuel : ℕ) (p : ℕ → Bool) (d : ℕ)
    → p (d + fuel) ≡ true
    → (c : ℕ) × (first_cycle (fuel + 1) p d ≡ some c)
first_cycle_within fuel p d h =
    let one_more : suc fuel ≡ fuel + 1 = omega arith in
    subst (λ n. (c : ℕ) × (first_cycle n p d ≡ some c)) one_more (first_cycle_returns fuel p d h)
