-- ===== src/Dispatch/Found.antt =====
-- The entry that a retirement finds in the queue (`Rules.event` of sim/tools/check_dispatch_trace.py).
use native.Mathlib.Nat.{zero-add, suc-add}
use slo_ppc.Prelude.{
  ℕ, zero, suc, ◌+◌, ◌≡◌, ◌∙◌, inl, inr, refl, ap, subst, arith, true, ◌||◌, List, [], ◌∷◌, take,
  drop, some, ◌==◌, Bool-cases, Option-cases, ==_iff,
}
use slo_ppc.Dispatch.Rules.{Entry, Rules, is_flushed}
use slo_ppc.Dispatch.Retire.{leading_flushed, wrong_path_length, find_pc, first_removed}

abbrev pub AllFlushed : List Entry → Type 0
AllFlushed [] = Unit {0}
AllFlushed (e ∷ es) = (is_flushed e.flush ≡ true) × AllFlushed es

leading_flushed-AllFlushed : (es : List Entry) → AllFlushed (take (leading_flushed es) es)
unfolding leading_flushed
leading_flushed-AllFlushed [] = tt
leading_flushed-AllFlushed (e ∷ es) = elim (Bool-cases (is_flushed e.flush)) [
  | inl t ↦
      rw (t, leading_flushed)
        (rw (plus_one (leading_flushed es)) (t, leading_flushed-AllFlushed es))
  | inr f ↦ rw (f, leading_flushed) tt
]
  where
    plus_one : (n : ℕ) → n + 1 ≡ suc n
    plus_one n = omega arith

pub wrong_path_length-AllFlushed : (s : Rules) → AllFlushed (take (wrong_path_length s) s.inflight)
unfolding wrong_path_length
wrong_path_length-AllFlushed s = elim (Bool-cases (s.cond_retired || first_removed s.inflight)) [
  | inl t ↦ rw t (leading_flushed-AllFlushed s.inflight)
  | inr f ↦ rw f tt
]

-- The entry that is found stands at its index.
abbrev pub StandsAt : ℕ → List Entry → ℕ × Entry → Type 0
StandsAt pc es found = (drop found.0 es ≡ found.1 ∷ drop (found.0 + 1) es) × (found.1.pc ≡ pc)

plus_one : (n : ℕ) → n + 1 ≡ suc n
plus_one n = omega arith

StandsAt-suc :
    (pc : ℕ) (x : Entry) (es : List Entry) (found : ℕ × Entry)
    → StandsAt pc es found
    → StandsAt pc (x ∷ es) (found.0 + 1, found.1)
StandsAt-suc pc x es (i, e) h = (
  rw (plus_one (i + 1)) (rw (plus_one i) (h.0 ∙ ap (λ (n : ℕ). e ∷ drop n es) (plus_one i))),
  h.1,
)

pub find_pc-StandsAt :
    (pc : ℕ) (es : List Entry) {found : ℕ × Entry}
    → find_pc pc es ≡ some found
    → StandsAt pc es found
unfolding find_pc
find_pc-StandsAt pc [] h = absurd (ground arith)
find_pc-StandsAt pc (x ∷ es) {found} h = elim (Bool-cases (x.pc == pc)) [
  | inl t ↦
      let e : (0, x) ≡ found = ground arith in
      subst (λ (y : ℕ × Entry). StandsAt pc (x ∷ es) y) e (refl, (==_iff x.pc pc).0 t)
  | inr f ↦ elim (Option-cases (find_pc pc es)) [
    | inl none_there ↦ absurd (ground arith)
    | inr (later, there) ↦
        let e : (later.0 + 1, later.1) ≡ found = ground arith in
        subst (λ (y : ℕ × Entry). StandsAt pc (x ∷ es) y) e
          (StandsAt-suc pc x es later (find_pc-StandsAt pc es there))
  ]
]

pub drop-drop : (m n : ℕ) (xs : List Entry) → drop n (drop m xs) ≡ drop (m + n) xs
drop-drop zero n xs = rw (zero-add n) refl
drop-drop (suc m) zero [] = rw (suc-add m 0) refl
drop-drop (suc m) (suc n) [] = rw (suc-add m (suc n)) refl
drop-drop (suc m) n (x ∷ xs) = rw (suc-add m n) (drop-drop m n xs)
