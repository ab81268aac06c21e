-- ===== src/Integer/Rotate/Laws.antt =====
-- `rotate_left` moves the digits of a word round, so that rotations add up; the value of each rotate
-- form, digit by digit.
use slo_ppc.Prelude.{
  ℕ, ◌+◌, ◌-◌, ◌*◌, ◌/◌, ◌%◌, ◌^◌, ◌<◌, ◌≤◌, ◌≡◌, arith, if◌then◌else◌, bit_and, bit_or, max, ap,
  ◌∙◌, sym, ◌==◌, Bool-cases, inl, inr,
}
use native.Mathlib.Decide.{dec_lt}
use slo_ppc.Bits.{bit_and_mask}
use slo_ppc.Bits.Digits.{
  bit_at, bit_at-bit_or, bit_at_div, bit_at_mul_above, bit_at_mul_below, bit_at_high, bit_at_mod,
  eq_of_bits,
}
use slo_ppc.Integer.Word.{mask32}
use slo_ppc.Integer.Word.Laws.{bit_and-mask32}
use slo_ppc.Integer.Rotate.{rotate_left}

amount_lt : (n : ℕ) → bit_and n 31 ≡ n % 32
amount_lt n = bit_and_mask 5 n

low_digit :
    (v n i : ℕ)
    → n < 32
    → i < n
    → max (bit_at (v * 2 ^ n) i) (bit_at (v / 2 ^ (32 - n)) i) ≡ bit_at v ((i + 32 - n) % 32)
low_digit v n i q l =
    omega (arith, bit_at_mul_below v n i l, bit_at_div v (32 - n) i, ap (bit_at v) (the_index l))
  where
    the_index : i < n → 32 - n + i ≡ (i + 32 - n) % 32
    the_index l = omega arith

high_digit :
    (v n i : ℕ)
    → v < 2 ^ 32
    → n < 32
    → n ≤ i
    → i < 32
    → max (bit_at (v * 2 ^ n) i) (bit_at (v / 2 ^ (32 - n)) i) ≡ bit_at v ((i + 32 - n) % 32)
high_digit v n i h q l m = omega (
  arith,
  bit_at_mul_above v n (i - n),
  ap (bit_at (v * 2 ^ n)) (whole l),
  ap (bit_at v) (the_index l m),
  bit_at_div v (32 - n) i,
  bit_at_high v 32 (32 - n + i) h (omega arith),
)
  where
    whole : n ≤ i → n + (i - n) ≡ i
    whole l = omega arith

    the_index : n ≤ i → i < 32 → i - n ≡ (i + 32 - n) % 32
    the_index l m = omega arith

-- Digit `i` of `v << n | v >> 32 - n`.
rotated_digit :
    (v n i : ℕ)
    → v < 2 ^ 32
    → n < 32
    → i < 32
    → max (bit_at (v * 2 ^ n) i) (bit_at (v / 2 ^ (32 - n)) i) ≡ bit_at v ((i + 32 - n) % 32)
rotated_digit v n i h q l = elim (dec_lt i n) [
  | yes low ↦ low_digit v n i q low
  | no high ↦ high_digit v n i h q (omega arith) l
]

pub rotate_left-lt : (v n : ℕ) → rotate_left v n < 2 ^ 32
unfolding rotate_left
rotate_left-lt v n = ground (
  arith,
  bit_and-mask32 v,
  bit_and-mask32
      (bit_or (bit_and v mask32 * 2 ^ bit_and n 31) (bit_and v mask32 / 2 ^ (32 - bit_and n 31))),
)

-- The branch of `rotate_left` for an amount that is not zero.
turned : ℕ → ℕ → ℕ
turned v n = bit_and (bit_or (v * 2 ^ n) (v / 2 ^ (32 - n))) mask32

turned_digit :
    (v n i : ℕ)
    → v < 2 ^ 32
    → n < 32
    → i < 32
    → bit_at (turned v n) i ≡ bit_at v ((i + 32 - n) % 32)
unfolding turned
turned_digit v n i h q l =
    ap (λ (t : ℕ). bit_at t i) (bit_and-mask32 (bit_or (v * 2 ^ n) (v / 2 ^ (32 - n))))
    ∙ bit_at_mod (bit_or (v * 2 ^ n) (v / 2 ^ (32 - n))) 32 i l
    ∙ bit_at-bit_or i (v * 2 ^ n) (v / 2 ^ (32 - n))
    ∙ rotated_digit v n i h q l

rotate_left-eq :
    (v n : ℕ) → rotate_left v n ≡ (if n % 32 == 0 then v % 2 ^ 32 else turned (v % 2 ^ 32) (n % 32))
unfolding rotate_left turned
rotate_left-eq v n = rw (bit_and-mask32 v, amount_lt n)

-- Digit `i` of `rotate_left v n` is the digit `n` places below it, going round.
pub bit_at-rotate_left :
    (v n i : ℕ) → i < 32 → bit_at (rotate_left v n) i ≡ bit_at v ((i + 32 - n % 32) % 32)
bit_at-rotate_left v n i l = elim (Bool-cases (n % 32 == 0)) [
  | inl still ↦ rw (rotate_left-eq v n, still) (bit_at_mod v 32 i l ∙ ap (bit_at v) (ground arith))
  | inr moves ↦
      rw (rotate_left-eq v n, moves)
        (turned_digit (v % 2 ^ 32) (n % 32) i (omega arith) (omega arith) l
          ∙ bit_at_mod v 32 ((i + 32 - n % 32) % 32) (omega arith))
]

-- Rotations add up: one by `m` and then one by `n` is one by `m + n`.
pub rotate_left-rotate_left : (v m n : ℕ) → rotate_left (rotate_left v m) n ≡ rotate_left v (m + n)
rotate_left-rotate_left v m n =
    eq_of_bits 32 _ _ (rotate_left-lt (rotate_left v m) n) (rotate_left-lt v (m + n)) λ i l.
      bit_at-rotate_left (rotate_left v m) n i l
      ∙ bit_at-rotate_left v m ((i + 32 - n % 32) % 32) (omega arith)
      ∙ ap (bit_at v) (the_index i l)
      ∙ sym (bit_at-rotate_left v (m + n) i l)
  where
    the_index :
        (i : ℕ)
        → i < 32
        → ((i + 32 - n % 32) % 32 + 32 - m % 32) % 32 ≡ (i + 32 - (m + n) % 32) % 32
    the_index i l = omega arith
