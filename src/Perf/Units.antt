-- ===== src/Perf/Units.antt =====
-- The unit that `schedule` of sim/tools/perf_model_603e.py chooses is among the free ones.
use slo_ppc.Prelude.{
  ℕ, ◌<◌, ◌≡◌, inl, inr, refl, subst, arith, Bool, true, false, ◌&&◌, if◌then◌else◌, ltb, List, [],
  ◌∷◌, Option, none, some, Bool-cases,
}
use slo_ppc.Perf.Insn
use slo_ppc.Perf.Insn.{Insn, Station}
use slo_ppc.Perf.Fields.{Args}
use slo_ppc.Perf.Model.{State, Entry, same_unit}
use slo_ppc.Perf.Slots.{is_free, free_units}
use slo_ppc.Perf.Execute.{
  Retired, better, start_on, best_unit, sru_ties, chosen_unit, is_iu, next_unit,
}

abbrev pub All : (Station → Type 0) → List Station → Type 0
All P [] = Unit {0}
All P (u ∷ us) = P u × All P us

pub free_units-All :
    (starts : Station → Option ℕ) (nb : List Entry) (d : ℕ) (us : List Station)
    → All (λ u. is_free starts nb d u ≡ true) (free_units starts nb d us)
unfolding free_units
free_units-All starts nb d [] = tt
free_units-All starts nb d (u ∷ us) = elim (Bool-cases (is_free starts nb d u)) [
  | inl t ↦ rw (t, free_units) (t, free_units-All starts nb d us)
  | inr f ↦ rw (f, free_units) (free_units-All starts nb d us)
]

pub same_unit_eq : (u v : Station) → same_unit u v ≡ true → u ≡ v
unfolding same_unit
same_unit_eq u v h = ground arith

module _ (P : Station → Type 0) (s : State) (ins : Insn) (d ready : ℕ) where
  if_All : (t : Bool) (u v : Station) → (t ≡ true → P u) → P v → P (if t then u else v)
  if_All true u v p q = p refl
  if_All false u v p q = q

  better-All :
      (x : ℕ × Station) (o : Option (ℕ × Station)) {b : ℕ × Station}
      → P x.1
      → ((y : ℕ × Station) → o ≡ some y → P y.1)
      → better x o ≡ some b
      → P b.1
  better-All x none {b} p q h =
      let e : x ≡ b = ground arith in subst (λ (y : ℕ × Station). P y.1) e p
  better-All x (some y) {b} p q h = elim (Bool-cases (ltb y.0 x.0)) [
    | inl t ↦ let e : y ≡ b = ground arith in subst (λ (z : ℕ × Station). P z.1) e (q y refl)
    | inr f ↦ let e : x ≡ b = ground arith in subst (λ (z : ℕ × Station). P z.1) e p
  ]

  pub best_unit-All :
      (us : List Station) (b : ℕ × Station) → All P us → best_unit s ins d ready us ≡ some b → P b.1
  unfolding best_unit
  best_unit-All [] b a h = absurd (ground arith)
  best_unit-All (u ∷ us) b a h =
      better-All (start_on s ins d ready u, u) (best_unit s ins d ready us) a.0
        (λ y e. best_unit-All us y a.1 e) h

  pub sru_ties-All :
      (best : ℕ) (us : List Station) → All P us → sru_ties s ins d ready best us ≡ true → P Insn.sru
  unfolding sru_ties
  sru_ties-All best [] a h = absurd (ground arith)
  sru_ties-All best (u ∷ us) a h = elim (Bool-cases (same_unit u Insn.sru)) [
    | inl t ↦ subst P (same_unit_eq u Insn.sru t) a.0
    | inr f ↦ sru_ties-All best us a.1 (ground arith)
  ]

  -- The choice after a tie has the property of the free units.
  pub chosen_unit-All :
      (args : Args) (rest : List Retired) (best : ℕ) (u : Station) (avail : List Station)
      → All P avail
      → P u
      → P (chosen_unit args rest s ins d ready best u avail)
  unfolding chosen_unit
  chosen_unit-All args rest best u avail a p =
      if_All
        (same_unit u Insn.iu && (sru_ties s ins d ready best avail && is_iu (next_unit args rest)))
        Insn.sru u (λ t. sru_ties-All best avail a (ground arith)) p

start_on-le : (s : State) (ins : Insn) (d ready : ℕ) (u : Station) → d < start_on s ins d ready u
unfolding start_on
start_on-le s ins d ready u = ground arith

better-le :
    (d : ℕ) (x : ℕ × Station) (o : Option (ℕ × Station)) {b : ℕ × Station}
    → d < x.0
    → ((y : ℕ × Station) → o ≡ some y → d < y.0)
    → better x o ≡ some b
    → d < b.0
better-le d x none p q h = ground arith
better-le d x (some y) p q h = ground (arith, q y refl)

-- No unit starts an instruction before the cycle after its dispatch.
pub best_unit-le :
    (s : State) (ins : Insn) (d ready : ℕ) (us : List Station) (b : ℕ × Station)
    → best_unit s ins d ready us ≡ some b
    → d < b.0
unfolding best_unit
best_unit-le s ins d ready [] b h = absurd (ground arith)
best_unit-le s ins d ready (u ∷ us) b h =
    better-le d (start_on s ins d ready u, u) (best_unit s ins d ready us)
      (start_on-le s ins d ready u) (λ y e. best_unit-le s ins d ready us y e) h
