-- ===== src/Bits/Digits.antt =====
-- The digits of a number, what `&`, `|`, `^`, shifts and remainders do to them, and equality by digits.
use native.Mathlib.Nat.{
  pow-suc, div-div-eq-div-mul, div-one, zero-add, suc-add, mul-div_cancel, div-eq_of_lt,
  pow-le-pow_right, le_trans, mod-lt, div-add-mod',
}
use slo_ppc.Prelude.{
  ℕ, zero, suc, ◌+◌, ◌-◌, ◌*◌, ◌/◌, ◌%◌, ◌^◌, ◌<◌, ◌≤◌, min, max, bit_and, bit_or, bit_xor, ◌≡◌, ap,
  arith, ◌∙◌, sym, leb, if◌then◌else◌,
}
use native.Mathlib.Decide.{dec_lt}
use slo_ppc.Bits.{bit_or_fields, bit_and-le, div-two-pow-suc, mul-two-pow-suc, two_pow_pos}
use slo_ppc.Bits.Step.{bit_and_step, bit_or_step, bit_xor_step}

-- The digit of weight `2 ^ i`.
abbrev pub bit_at : ℕ → ℕ → ℕ
bit_at a i = a / 2 ^ i % 2

module _ (op : ℕ → ℕ → ℕ) (digit : ℕ → ℕ → ℕ)
    (step : (a b : ℕ) → op a b ≡ op (a / 2) (b / 2) * 2 + digit (a % 2) (b % 2))
    (small : (x y : ℕ) → x < 2 → y < 2 → digit x y < 2) where
  bit_at_op : (i a b : ℕ) → bit_at (op a b) i ≡ digit (bit_at a i) (bit_at b i)
  bit_at_op zero a b = ground (
    arith,
    step a b,
    small (a % 2) (b % 2),
    ap (λ (t : ℕ). digit (t % 2) (b % 2)) (div-one a),
    ap (λ (t : ℕ). digit (a / 1 % 2) (t % 2)) (div-one b),
  )
  bit_at_op (suc i) a b = ground (
    arith,
    step a b,
    small (a % 2) (b % 2),
    bit_at_op i (a / 2) (b / 2),
    div-two-pow-suc (op a b) i,
    ap (λ (t : ℕ). digit (t % 2) (b / 2 ^ suc i % 2)) (div-two-pow-suc a i),
    ap (λ (t : ℕ). digit (a / 2 / 2 ^ i % 2) (t % 2)) (div-two-pow-suc b i),
  )

pub bit_at-bit_and : (i a b : ℕ) → bit_at (bit_and a b) i ≡ min (bit_at a i) (bit_at b i)
bit_at-bit_and = bit_at_op bit_and min bit_and_step (λ x y p q. omega arith)

pub bit_at-bit_or : (i a b : ℕ) → bit_at (bit_or a b) i ≡ max (bit_at a i) (bit_at b i)
bit_at-bit_or = bit_at_op bit_or max bit_or_step (λ x y p q. omega arith)

-- The digits of `a & ~b`.
pub bit_at-sub-bit_and : (i a b : ℕ) → bit_at (a - bit_and a b) i ≡ bit_at a i - bit_at b i
bit_at-sub-bit_and =
    bit_at_op (λ a b. a - bit_and a b) (λ x y. x - y)
      (λ a b. omega (arith, bit_and_step a b, bit_and-le (a / 2) (b / 2))) (λ x y p q. omega arith)

pub bit_at-bit_xor : (i a b : ℕ) → bit_at (bit_xor a b) i ≡ (bit_at a i + bit_at b i) % 2
bit_at-bit_xor =
    bit_at_op bit_xor (λ x y. (x + y) % 2) (λ a b. omega (arith, bit_xor_step a b))
      (λ x y p q. omega arith)

-- Two numbers of `k` digits with the same digits are equal.
pub eq_of_bits :
    (k a b : ℕ) → a < 2 ^ k → b < 2 ^ k → ((i : ℕ) → i < k → bit_at a i ≡ bit_at b i) → a ≡ b
eq_of_bits zero a b p q h = omega arith
eq_of_bits (suc k) a b p q h = omega (
  arith,
  h 0 (omega arith),
  div-one a,
  div-one b,
  eq_of_bits k (a / 2) (b / 2) (omega (arith, pow-suc 2 k)) (omega (arith, pow-suc 2 k)) (λ i l.
      ap (λ (t : ℕ). t % 2) (div-two-pow-suc a i)
      ∙ h (suc i) (omega arith)
      ∙ sym (ap (λ (t : ℕ). t % 2) (div-two-pow-suc b i))),
)

pub pow-add : (i j : ℕ) → 2 ^ (i + j) ≡ 2 ^ i * 2 ^ j
pow-add zero j = omega (arith, ap (λ (t : ℕ). 2 ^ t) (zero-add j))
pow-add (suc i) j = omega (
  arith,
  ap (λ (t : ℕ). 2 ^ t) (suc-add i j),
  pow-suc 2 (i + j),
  ap (λ (t : ℕ). t * 2 ^ j) (pow-suc 2 i),
  pow-add i j,
)

-- A shift moves the digits.
pub bit_at_div : (a k i : ℕ) → bit_at (a / 2 ^ k) i ≡ bit_at a (k + i)
bit_at_div a k i =
    ap (λ (t : ℕ). t % 2)
      (div-div-eq-div-mul a (2 ^ k) (2 ^ i) ∙ ap (λ (t : ℕ). a / t) (sym (pow-add k i)))

pub bit_at_mul_above : (a k i : ℕ) → bit_at (a * 2 ^ k) (k + i) ≡ bit_at a i
bit_at_mul_above a k i =
    sym (bit_at_div (a * 2 ^ k) k i) ∙ ap (λ (t : ℕ). bit_at t i) (mul-div_cancel a (two_pow_pos k))

pub bit_at_mul_below : (a k i : ℕ) → i < k → bit_at (a * 2 ^ k) i ≡ 0
bit_at_mul_below a zero i h = absurd (omega arith)
bit_at_mul_below a (suc k) zero h = ground (arith, mul-two-pow-suc a k, div-one (a * 2 ^ suc k))
bit_at_mul_below a (suc k) (suc i) h = ground (
  arith,
  mul-two-pow-suc a k,
  div-two-pow-suc (a * 2 ^ suc k) i,
  bit_at_mul_below a k i (omega arith),
)

pub bit_at_high : (a k i : ℕ) → a < 2 ^ k → k ≤ i → bit_at a i ≡ 0
bit_at_high a k i h l =
    ap (λ (t : ℕ). t % 2) (div-eq_of_lt (le_trans h (pow-le-pow_right (omega arith) l)))

-- The digits of a remainder are the low ones.
pub bit_at_mod : (a k i : ℕ) → i < k → bit_at (a % 2 ^ k) i ≡ bit_at a i
bit_at_mod a k i h =
    let whole : bit_or (a / 2 ^ k * 2 ^ k) (a % 2 ^ k) ≡ a =
      bit_or_fields k (a / 2 ^ k) (a % 2 ^ k) (mod-lt a (two_pow_pos k)) ∙ div-add-mod' a (2 ^ k) in
    omega (
      arith,
      ap (λ (t : ℕ). bit_at t i) whole,
      bit_at-bit_or i (a / 2 ^ k * 2 ^ k) (a % 2 ^ k),
      bit_at_mul_below (a / 2 ^ k) k i h,
    )

-- Every digit of `2 ^ k - 1` below `k` is set.
pub bit_at_ones : (k i : ℕ) → i < k → bit_at (2 ^ k - 1) i ≡ 1
bit_at_ones zero i h = absurd (omega arith)
bit_at_ones (suc k) zero h = omega (arith, pow-suc 2 k, two_pow_pos k, div-one (2 ^ suc k - 1))
bit_at_ones (suc k) (suc i) h = omega (
  arith,
  bit_at_ones k i (omega arith),
  div-two-pow-suc (2 ^ suc k - 1) i,
  ap (λ (t : ℕ). t / 2 ^ i) (halved k),
)
  where
    halved : (k : ℕ) → (2 ^ suc k - 1) / 2 ≡ 2 ^ k - 1
    halved k = omega (arith, pow-suc 2 k, two_pow_pos k)

-- A number times `2 ^ k`, digit by digit.
pub bit_at_mul : (a k i : ℕ) → bit_at (a * 2 ^ k) i ≡ (if leb k i then bit_at a (i - k) else 0)
bit_at_mul a k i = elim (dec_lt i k) [
  | yes low ↦ ground (arith, bit_at_mul_below a k i low)
  | no high ↦ ground (arith, bit_at_mul_above a k (i - k), ap (bit_at (a * 2 ^ k)) (whole high))
]
  where
    whole : ¬ (i < k) → k + (i - k) ≡ i
    whole h = omega arith
