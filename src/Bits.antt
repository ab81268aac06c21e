-- ===== src/Bits.antt =====
-- Python's `&`, `|` and `^` on non-negative integers, as arithmetic at every width. `Bits.Step` has
-- the equation of the lowest digit, and the theorems here follow from it by induction on the width.
mod Step
pub mod Digits
use Step.{bit_and_step, bit_or_step}
use mathlib.Core.WellFounded
use native.Mathlib.Nat.{
  le_of_eq, pow-suc, one-le-pow, div-div-eq-div-mul, mul-one, div-one, zero-add, suc-add,
  mul-div_cancel, div-eq_of_lt, pow-le-pow_right, le_trans, mod-lt, div-add-mod',
}
use Prim.Native.Nat.{bit_and-bitwise, bit_or-bitwise}
use slo_ppc.Prelude.{
  ℕ, zero, suc, ◌+◌, ◌-◌, ◌*◌, ◌/◌, ◌%◌, ◌^◌, ◌<◌, ◌≤◌, min, bit_and, bit_or, bit_xor, ◌≡◌, refl,
  ap, arith, ◌∙◌, sym, max,
}
use slo_ppc.Prelude.Order.{lt_wf}

pub two_pow_pos : (k : ℕ) → 0 < 2 ^ k
two_pow_pos k = one-le-pow k 2 (omega arith)

pub zero-bit_and : (b : ℕ) → bit_and 0 b ≡ 0
zero-bit_and b = simp bit_and-bitwise refl

-- `&` with zero.
pub bit_and-zero : (a : ℕ) → bit_and a 0 ≡ 0
bit_and-zero a =
    WellFounded.induction lt_wf {C = λ n. bit_and n 0 ≡ 0} a
      λ n ih. ground (arith, bit_and_step n 0, halve n ih)
  where
    halve : (n : ℕ) → ((m : ℕ) → m < n → bit_and m 0 ≡ 0) → bit_and (n / 2) 0 ≡ 0
    halve zero ih = refl
    halve (suc n) ih = ih (suc n / 2) (omega arith)

pub bit_or-zero : (a : ℕ) → bit_or a 0 ≡ a
bit_or-zero a =
    WellFounded.induction lt_wf {C = λ n. bit_or n 0 ≡ n} a
      λ n ih. ground (arith, bit_or_step n 0, halve n ih)
  where
    halve : (n : ℕ) → ((m : ℕ) → m < n → bit_or m 0 ≡ m) → bit_or (n / 2) 0 ≡ n / 2
    halve zero ih = refl
    halve (suc n) ih = ih (suc n / 2) (omega arith)

pub mul-two-pow-suc : (m j : ℕ) → m * 2 ^ suc j ≡ 2 * (m * 2 ^ j)
mul-two-pow-suc m j = let twice = ap (λ (p : ℕ). m * p) (pow-suc 2 j) in omega (arith, twice)

pub div-two-pow-suc : (a k : ℕ) → a / 2 / 2 ^ k ≡ a / 2 ^ suc k
div-two-pow-suc a k =
    div-div-eq-div-mul a 2 (2 ^ k) ∙ ap (λ (t : ℕ). a / t) (omega (arith, pow-suc 2 k))

-- `a & (m << k)` looks at the digits of `a` above `k`.
pub bit_and_shifted : (k a m : ℕ) → bit_and a (m * 2 ^ k) ≡ bit_and (a / 2 ^ k) m * 2 ^ k
bit_and_shifted zero a m =
    ground (arith, ap (λ (t : ℕ). bit_and a t) (mul-one m), ap (λ (t : ℕ). bit_and t m) (div-one a))
bit_and_shifted (suc k) a m = ground (
  arith,
  bit_and_step a (m * 2 ^ suc k),
  mul-two-pow-suc m k,
  mul-two-pow-suc (bit_and (a / 2 ^ suc k) m) k,
  div-two-pow-suc a k,
  bit_and_shifted k (a / 2) m,
)

-- `(q << k) | r` is a sum where `r` fits `k` digits.
pub bit_or_fields : (k q r : ℕ) → r < 2 ^ k → bit_or (q * 2 ^ k) r ≡ q * 2 ^ k + r
bit_or_fields zero q r h = ground (arith, bit_or-zero q)
bit_or_fields (suc k) q r h = ground (
  arith,
  bit_or_step (q * 2 ^ suc k) r,
  mul-two-pow-suc q k,
  pow-suc 2 k,
  bit_or_fields k q (r / 2) (omega (arith, pow-suc 2 k)),
)

bit_and_low : (k q r : ℕ) → r < 2 ^ k → bit_and (q * 2 ^ k + r) (2 ^ k - 1) ≡ r
bit_and_low zero q r h = rw (bit_and-zero (q * 2 ^ 0 + r)) (omega arith)
bit_and_low (suc k) q r h = ground (
  arith,
  bit_and_step (q * 2 ^ suc k + r) (2 ^ suc k - 1),
  mul-two-pow-suc q k,
  pow-suc 2 k,
  one-le-pow k 2,
  bit_and_low k q (r / 2) (omega (arith, pow-suc 2 k)),
)

-- A mask of `k` low digits is the remainder by `2 ^ k`.
pub bit_and_mask : (k a : ℕ) → bit_and a (2 ^ k - 1) ≡ a % 2 ^ k
bit_and_mask k a = ground (arith, one-le-pow k 2, bit_and_low k (a / 2 ^ k) (a % 2 ^ k))

-- A mask of `k` digits above `j`.
pub bit_and_field : (j k a : ℕ) → bit_and a ((2 ^ k - 1) * 2 ^ j) ≡ a / 2 ^ j % 2 ^ k * 2 ^ j
bit_and_field j k a =
    bit_and_shifted j a (2 ^ k - 1) ∙ ap (λ (t : ℕ). t * 2 ^ j) (bit_and_mask k (a / 2 ^ j))

-- `x | r` is a sum where `x` has no digit below `k` and `r` fits `k` digits.
pub bit_or_sum : (k x r : ℕ) → x % 2 ^ k ≡ 0 → r < 2 ^ k → bit_or x r ≡ x + r
bit_or_sum k x r e h = ground (arith, bit_or_fields k (x / 2 ^ k) r)

-- `|` of two single digits.
pub bit_or_bits : (x y : ℕ) → x < 2 → y < 2 → bit_or x y ≡ max x y
bit_or_bits zero zero p q = refl
bit_or_bits zero (suc zero) p q = refl
bit_or_bits (suc zero) zero p q = refl
bit_or_bits (suc zero) (suc zero) p q = refl
bit_or_bits (suc (suc x)) y p q = absurd (omega arith)
bit_or_bits zero (suc (suc y)) p q = absurd (omega arith)
bit_or_bits (suc zero) (suc (suc y)) p q = absurd (omega arith)

-- `&` takes digits away.
pub bit_and-le : (a b : ℕ) → bit_and a b ≤ a
bit_and-le a b = go a b (suc a) (omega arith)
  where
    go : (a b n : ℕ) → a < n → bit_and a b ≤ a
    go a b zero h = absurd (omega arith)
    go zero b (suc n) h = le_of_eq (zero-bit_and b)
    go (suc a) b (suc n) h =
        omega (arith, bit_and_step (suc a) b, go (suc a / 2) (b / 2) n (omega arith))

pub bit_and_comm : (a b : ℕ) → bit_and a b ≡ bit_and b a
bit_and_comm a b = go a b (suc a) (omega arith)
  where
    go : (a b n : ℕ) → a < n → bit_and a b ≡ bit_and b a
    go a b zero h = absurd (omega arith)
    go zero b (suc n) h = zero-bit_and b ∙ sym (bit_and-zero b)
    go (suc a) b (suc n) h = omega (
      arith,
      bit_and_step (suc a) b,
      bit_and_step b (suc a),
      go (suc a / 2) (b / 2) n (omega arith),
    )

pub zero-bit_or : (b : ℕ) → bit_or 0 b ≡ b
zero-bit_or b = simp bit_or-bitwise refl

pub bit_or_comm : (a b : ℕ) → bit_or a b ≡ bit_or b a
bit_or_comm a b = go a b (suc a) (omega arith)
  where
    go : (a b n : ℕ) → a < n → bit_or a b ≡ bit_or b a
    go a b zero h = absurd (omega arith)
    go zero b (suc n) h = zero-bit_or b ∙ sym (bit_or-zero b)
    go (suc a) b (suc n) h = omega (
      arith,
      bit_or_step (suc a) b,
      bit_or_step b (suc a),
      go (suc a / 2) (b / 2) n (omega arith),
    )
