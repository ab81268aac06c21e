-- ===== src/Perf/Bytes.antt =====
-- `significant_bytes` of sim/tools/perf_model_603e.py is the size of a signed value.
use slo_ppc.Prelude.{
  ℕ, zero, suc, ◌-◌, ◌*◌, ◌/◌, ◌%◌, ◌^◌, ◌≤◌, ◌<◌, ◌≡◌, ◌⊎◌, inl, inr, refl, ap, arith, bit_and,
  if◌then◌else◌,
}
use slo_ppc.Prelude.Int.{ℤ, pos, negsuc}
use slo_ppc.Bits.{bit_and_mask, bit_and_field}
use slo_ppc.Integer.Word.{masked, truthy, mask32}
use slo_ppc.Perf.Insn.{widen, significant_bytes}

-- -2^(8 n - 1) ≤ z < 2^(8 n - 1).
abbrev pub FitsBytes : ℕ → ℤ → Type 0
FitsBytes n (pos v) = v < 2 ^ (8 * n - 1)
FitsBytes n (negsuc v) = v < 2 ^ (8 * n - 1)

-- The magnitude that the code compares.
abbrev magnitude : ℤ → ℕ
magnitude (pos v) = v
magnitude (negsuc v) = v

low_word : (v : ℕ) → v < 2 ^ 31 → bit_and v mask32 ≡ v
low_word v h = omega (arith, bit_and_mask 32 v)

sign_bit : (v : ℕ) → bit_and v 0x8000_0000 ≡ v / 2 ^ 31 % 2 * 2 ^ 31
sign_bit v = bit_and_field 31 1 v

folded : (z : ℤ) → FitsBytes 4 z → significant_bytes z ≡ widen 3 (magnitude z) 1
unfolding significant_bytes masked
folded (pos v) h = rw (low_word v h) (rw (sign_bit v) (ap (λ (x : ℕ). widen 3 x 1) (positive v h)))
  where
    positive :
        (v : ℕ) → v < 2 ^ 31 → (if truthy (v / 2 ^ 31 % 2 * 2 ^ 31) then mask32 - v else v) ≡ v
    positive v h = ground arith
folded (negsuc v) h =
    rw (low_word v h) (rw (sign_bit (mask32 - v)) (ap (λ (x : ℕ). widen 3 x 1) (negative v h)))
  where
    negative :
        (v : ℕ)
        → v < 2 ^ 31
        → (if truthy ((mask32 - v) / 2 ^ 31 % 2 * 2 ^ 31)
            then mask32 - (mask32 - v)
            else mask32 - v)
          ≡ v
    negative v h = ground arith

-- The loop finds the first size that is enough.
widened :
    (v : ℕ)
    → v < 2 ^ 31
    → ((widen 3 v 1 ≡ 1) × (v < 2 ^ 7))
      ⊎ ((widen 3 v 1 ≡ 2) × (2 ^ 7 ≤ v) × (v < 2 ^ 15))
      ⊎ ((widen 3 v 1 ≡ 3) × (2 ^ 15 ≤ v) × (v < 2 ^ 23))
      ⊎ ((widen 3 v 1 ≡ 4) × (2 ^ 23 ≤ v))
unfolding widen
widened v h = ground arith

size_of :
    (m : ℕ)
    → 1 ≤ m
    → m < 4
    → ((m ≡ 1) × (2 ^ (8 * m - 1) ≡ 2 ^ 7))
      ⊎ ((m ≡ 2) × (2 ^ (8 * m - 1) ≡ 2 ^ 15))
      ⊎ ((m ≡ 3) × (2 ^ (8 * m - 1) ≡ 2 ^ 23))
size_of zero h k = absurd (omega arith)
size_of (suc zero) h k = inl (refl, refl)
size_of (suc (suc zero)) h k = inr (inl (refl, refl))
size_of (suc (suc (suc zero))) h k = inr (inr (refl, refl))
size_of (suc (suc (suc (suc m)))) h k = absurd (omega arith)

-- The size `n` is enough for a magnitude, and no smaller one is.
abbrev IsFewest : ℕ → ℕ → Type 0
IsFewest v n =
    (1 ≤ n) × (n ≤ 4) × (v < 2 ^ (8 * n - 1)) × ((m : ℕ) → 1 ≤ m → m < n → 2 ^ (8 * m - 1) ≤ v)

fewest : (v : ℕ) → v < 2 ^ 31 → IsFewest v (widen 3 v 1)
fewest v h = elim (widened v h) [
  | inl c ↦ rw c.0 (omega arith, omega arith, c.1, λ m a b. absurd (omega arith))
  | inr (inl c) ↦ rw c.0 (omega arith, omega arith, c.2, λ m a b. omega (arith, size_of m a))
  | inr (inr (inl c)) ↦ rw c.0 (omega arith, omega arith, c.2, λ m a b. omega (arith, size_of m a))
  | inr (inr (inr c)) ↦ rw c.0 (omega arith, omega arith, h, λ m a b. omega (arith, size_of m a))
]

-- `significant_bytes` of a signed word is the fewest bytes, one to four, that hold it as a signed value.
pub significant_bytes_fewest :
    (z : ℤ)
    → FitsBytes 4 z
    → (1 ≤ significant_bytes z)
      × (significant_bytes z ≤ 4)
      × FitsBytes (significant_bytes z) z
      × ((m : ℕ) → 1 ≤ m → m < significant_bytes z → ¬ FitsBytes m z)
significant_bytes_fewest (pos v) h =
    let f = fewest v h in
    rw (folded (pos v) h) (f.0, f.1, f.2, λ m a b fits. omega (arith, f.3 m a b))
significant_bytes_fewest (negsuc v) h =
    let f = fewest v h in
    rw (folded (negsuc v) h) (f.0, f.1, f.2, λ m a b fits. omega (arith, f.3 m a b))
