-- ===== src/Integer/Rotate/Mask.antt =====
-- `ppc_mask` sets the digits from MB to ME, going round past 31; architectural bit 0 is the digit of
-- weight 2 ^ 31. The 32 * 32 masks are evaluated.
use slo_ppc.Prelude.{
  ℕ, zero, suc, ◌+◌, ◌-◌, ◌%◌, ◌^◌, ◌<◌, ◌≡◌, refl, arith, Bool, true, false, ◌&&◌, ltb, leb, ◌==◌,
  ==_iff, if◌then◌else◌, Option, none, some, ok,
}
use slo_ppc.Bits.Digits.{bit_at}
use slo_ppc.Integer.Word.{check_below}
use slo_ppc.Integer.Rotate.{mask_loop, ppc_mask}

-- A test holds of each number below a bound.
each : (ℕ → Bool) → ℕ → Bool
each test zero = true
each test (suc k) = each test k && test k

each-lt : (test : ℕ → Bool) (i k : ℕ) → i < k → each test k ≡ true → test i ≡ true
unfolding each
each-lt test i zero l h = absurd (omega arith)
each-lt test i (suc k) l h = ground (arith, each-lt test i k)

-- Whether architectural bit `i` stands in the interval from `mb` to `me`, going round.
abbrev pub in_interval : ℕ → ℕ → ℕ → Bool
in_interval mb me i = leb ((i + 32 - mb) % 32) ((me + 32 - mb) % 32)

-- The test of one mask: it is a word, and its digits are those of the interval.
mask_right : ℕ → ℕ → Option ℕ → Bool
mask_right mb me none = false
mask_right mb me (some m) =
    ltb m (2 ^ 32) && each (λ i. bit_at m (31 - i) == (if in_interval mb me i then 1 else 0)) 32

all_masks_right : each (λ mb. each (λ me. mask_right mb me (mask_loop 32 me mb 0)) 32) 32 ≡ true
unfolding each mask_right mask_loop
all_masks_right = refl

mask_right_found : (mb me : ℕ) → mb < 32 → me < 32 → mask_right mb me (mask_loop 32 me mb 0) ≡ true
mask_right_found mb me p q =
    each-lt (λ me. mask_right mb me (mask_loop 32 me mb 0)) me 32 q
      (each-lt (λ mb. each (λ me. mask_right mb me (mask_loop 32 me mb 0)) 32) mb 32 p
        all_masks_right)

-- What a right mask is.
abbrev pub IsMask : ℕ → ℕ → ℕ → Type 0
IsMask mb me m =
    (m < 2 ^ 32) × ((i : ℕ) → i < 32 → bit_at m (31 - i) ≡ (if in_interval mb me i then 1 else 0))

mask_right-IsMask :
    (mb me : ℕ) (o : Option ℕ) → mask_right mb me o ≡ true → (m : ℕ) × (o ≡ some m) × IsMask mb me m
unfolding mask_right
mask_right-IsMask mb me none h = cc
mask_right-IsMask mb me (some m) h = (
  m,
  refl,
  (
    ground arith,
    λ i l. (==_iff _ _).0 (
        each-lt (λ i. bit_at m (31 - i) == (if in_interval mb me i then 1 else 0)) i 32 l
          (ground arith)),
  ),
)

-- For two five-bit arguments the loop ends within its 32 rounds, and the mask that it returns is a
-- word that has architectural bit `i` set exactly if `i` stands in the interval from MB to ME.
pub ppc_mask-IsMask :
    (mb me : ℕ) → mb < 32 → me < 32 → (m : ℕ) × (ppc_mask mb me ≡ ok m) × IsMask mb me m
unfolding ppc_mask check_below
ppc_mask-IsMask mb me p q =
    let r = mask_right-IsMask mb me (mask_loop 32 me mb 0) (mask_right_found mb me p q) in
    (r.0, ground arith, r.2)
