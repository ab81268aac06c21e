-- ===== src/Recovery/Pigeonhole.antt =====
-- Different numbers below `n` are at most `n`.
use slo_ppc.Prelude.{
  ℕ, zero, suc, ◌+◌, ◌<◌, ◌≤◌, ◌≡◌, refl, arith, true, false, List, [], ◌∷◌, length, ◌==◌,
  if◌then◌else◌, Bool-cases, inl, inr,
}
use slo_ppc.Recovery.Check.{member, distinct}

abbrev pub AllBelow : ℕ → List ℕ → Type 0
AllBelow n [] = Unit
AllBelow n (x ∷ xs) = (x < n) × AllBelow n xs

without : ℕ → List ℕ → List ℕ
without k [] = []
without k (x ∷ xs) = let rest = without k xs in if x == k then rest else x ∷ rest

member-without : (k x : ℕ) (xs : List ℕ) → member x xs ≡ false → member x (without k xs) ≡ false
unfolding member without
member-without k x [] h = refl
member-without k x (y ∷ ys) h = ground (arith, member-without k x ys)

length-without_absent :
    (k : ℕ) (xs : List ℕ) → member k xs ≡ false → length (without k xs) ≡ length xs
unfolding member without
length-without_absent k [] h = refl
length-without_absent k (x ∷ xs) h = ground (arith, length-without_absent k xs)

length-without : (k : ℕ) (xs : List ℕ) → distinct xs ≡ true → length xs ≤ length (without k xs) + 1
unfolding distinct without
length-without k [] h = omega arith
length-without k (x ∷ xs) h =
    ground (arith, length-without k xs, length-without_absent x xs, length-without_absent k xs)

distinct-without : (k : ℕ) (xs : List ℕ) → distinct xs ≡ true → distinct (without k xs) ≡ true
unfolding distinct without
distinct-without k [] h = refl
distinct-without k (x ∷ xs) h = ground (arith, distinct-without k xs, member-without k x xs)

AllBelow-without : (n : ℕ) (xs : List ℕ) → AllBelow (suc n) xs → AllBelow n (without n xs)
unfolding without
AllBelow-without n [] h = tt
AllBelow-without n (x ∷ xs) h = elim (Bool-cases (x == n)) [
  | inl same ↦ rw same (AllBelow-without n xs h.1)
  | inr other ↦ rw other (ground (arith, h.0), AllBelow-without n xs h.1)
]

pub pigeonhole : (n : ℕ) (xs : List ℕ) → AllBelow n xs → distinct xs ≡ true → length xs ≤ n
pigeonhole zero [] h d = omega arith
pigeonhole zero (x ∷ xs) h d = absurd (omega (arith, h.0))
pigeonhole (suc n) xs h d = omega (
  arith,
  length-without n xs d,
  pigeonhole n (without n xs) (AllBelow-without n xs h) (distinct-without n xs d),
)
