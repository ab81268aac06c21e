-- ===== src/Recovery/Dict.antt =====
-- Python dictionaries as association lists, over keys with a Boolean equality. An assignment takes the
-- old pair of its key away first, so a key stands in a dictionary once.
use slo_ppc.Prelude.{
  ◌≡◌, ◌↔◌, Bool, true, false, Option, none, some, List, [], ◌∷◌, arith, if◌then◌else◌, ◌==◌,
  ==_iff, ℕ,
}

pub record Eq (K : Type 0) : Type 0 where
  pub beq : K → K → Bool
  pub beq_iff : (a b : K) → (beq a b ≡ true) ↔ (a ≡ b)

instance abbrev pub nat_eq : Eq ℕ
nat_eq = record { beq = ◌==◌; beq_iff = ==_iff }

module _ {K V : Type 0} ⦃e : Eq K⦄ where
  -- `d.get(k)`.
  unfoldable pub get : K → List (K × V) → Option V
  get k [] = none
  get k ((j, v) ∷ d) = if e.beq j k then some v else get k d

  -- `d.pop(k, None)`, for what is left.
  unfoldable pub pop : K → List (K × V) → List (K × V)
  pop k [] = []
  pop k ((j, v) ∷ d) = if e.beq j k then pop k d else (j, v) ∷ pop k d

  -- `d[k] = v`.
  unfoldable pub put : K → V → List (K × V) → List (K × V)
  put k v d = (k, v) ∷ pop k d

  pub get-pop :
      (k j : K) (d : List (K × V)) → get j (pop k d) ≡ (if e.beq k j then none else get j d)
  unfolding get pop
  get-pop k j [] = ground arith
  get-pop k j ((i, v) ∷ d) =
      ground (arith, get-pop k j d, e.beq_iff i k, e.beq_iff i j, e.beq_iff k j)

  pub get-put :
      (k j : K) (v : V) (d : List (K × V))
      → get j (put k v d) ≡ (if e.beq k j then some v else get j d)
  unfolding put get
  get-put k j v d = ground (arith, get-pop k j d)

-- `k in d`.
abbrev pub has : {V : Type 0} → Option V → Bool
has none = false
has (some v) = true
