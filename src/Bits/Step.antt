-- ===== src/Bits/Step.antt =====
-- The native `bit_and`, `bit_or` and `bit_xor` stand for a recursion on binary digits whose count is
-- the first number. Here is the equation for the lowest digit, with no count.
use Prim.Native.Nat.{digits, differ, bit_and-bitwise, bit_or-bitwise, bit_xor-bitwise}
use slo_ppc.Prelude.{
  ℕ, zero, suc, ◌+◌, ◌*◌, ◌/◌, ◌%◌, ◌≤◌, ◌<◌, min, max, bit_and, bit_or, bit_xor, ◌≡◌, refl, ap,
  arith,
}

module _ (z : ℕ → ℕ) (f : ℕ → ℕ → ℕ) where
  -- Counts that reach the first number give the same digits.
  same_digits : (n m a : ℕ) → a ≤ n → a ≤ m → (b : ℕ) → digits z f n a b ≡ digits z f m a b
  same_digits zero zero zero l k b = refl
  same_digits zero (suc m) zero l k b = refl
  same_digits (suc n) zero zero l k b = refl
  same_digits (suc n) (suc m) zero l k b = refl
  same_digits zero m (suc a) l k b = absurd (omega arith)
  same_digits (suc n) zero (suc a) l k b = absurd (omega arith)
  same_digits (suc n) (suc m) (suc a) l k b =
      let halves = same_digits n m (suc a / 2) (omega arith) (omega arith) (b / 2) in
      ap (λ (t : ℕ). t * 2 + f (suc a % 2) (b % 2)) halves

  digits_count :
      (n a b : ℕ)
      → suc a ≤ n
      → digits z f n (suc a) b
        ≡ digits z f (suc a / 2) (suc a / 2) (b / 2) * 2 + f (suc a % 2) (b % 2)
  digits_count zero a b p = absurd (omega arith)
  digits_count (suc n) a b p =
      ap (λ (t : ℕ). t * 2 + f (suc a % 2) (b % 2))
        (same_digits n (suc a / 2) (suc a / 2) (omega arith) (omega arith) (b / 2))

pub bit_or_step : (m n : ℕ) → bit_or m n ≡ bit_or (m / 2) (n / 2) * 2 + max (m % 2) (n % 2)
bit_or_step zero n = simp bit_or-bitwise (omega arith)
bit_or_step (suc m) n = simp bit_or-bitwise (digits_count (λ y. y) max (suc m) m n (omega arith))

pub bit_and_step : (m n : ℕ) → bit_and m n ≡ bit_and (m / 2) (n / 2) * 2 + min (m % 2) (n % 2)
bit_and_step zero n = simp bit_and-bitwise (omega arith)
bit_and_step (suc m) n = simp bit_and-bitwise (digits_count (λ y. 0) min (suc m) m n (omega arith))

differ_digit : (x y : ℕ) → x < 2 → y < 2 → differ x y ≡ (x + y) % 2
differ_digit zero y p q = omega arith
differ_digit (suc x) zero p q = omega arith
differ_digit (suc zero) (suc zero) p q = refl
differ_digit (suc zero) (suc (suc y)) p q = absurd (omega arith)
differ_digit (suc (suc x)) (suc y) p q = absurd (omega arith)

pub bit_xor_step : (a b : ℕ) → bit_xor a b ≡ bit_xor (a / 2) (b / 2) * 2 + (a + b) % 2
bit_xor_step zero b = simp bit_xor-bitwise (omega arith)
bit_xor_step (suc a) b = simp bit_xor-bitwise (
    rw (digits_count (λ y. y) differ (suc a) a b (omega arith))
      (omega (arith, differ_digit (suc a % 2) (b % 2) (omega arith) (omega arith))))
