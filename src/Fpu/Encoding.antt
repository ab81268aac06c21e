-- ===== src/Fpu/Encoding.antt =====
-- `decode` and `pack` are inverse on finite numbers.
use native.Mathlib.Nat.{
  mod-lt, mod-eq_of_lt, mod-eq-sub-mod, pow-suc, pow-le-pow_right, add-zero, div-div-eq-div-mul,
  div-add-mod',
}
use slo_ppc.Prelude.{
  ℕ, zero, suc, ◌+◌, ◌-◌, ◌*◌, ◌/◌, ◌%◌, ◌^◌, ◌<◌, ◌≤◌, ◌≡◌, ◌≢◌, refl, ap, ◌∙◌, sym, arith, Bool,
  true, false, if◌then◌else◌, ◌==◌, ltb, bit_and, bit_or, ◌⊎◌, inl, inr,
}
use slo_ppc.Prelude.Int.{ℤ, pos, ◌+ℤ◌, ◌-ℤ◌, ltb_ℤ, ◌≤ℤ◌, int_laws, eq_of_parts}
use slo_ppc.Bits.{bit_and_mask, bit_or_fields, two_pow_pos, bit_or-zero, bit_or_comm}
use slo_ppc.Bits.Digits.{pow-add}
use slo_ppc.Integer.Word.{truthy}
use slo_ppc.Fpu.Format.{Format, signbit, Decoded, finite, decode_fields, decode, special_kind}
use slo_ppc.Fpu.Round.{
  Rounded, Packed, bit_length, quantum_of, max_ℤ, rounded_integer, encoded, placed, finish_pack,
  packed_zero, pack,
}
use slo_ppc.Fpu.Length.{bit_length-eq, bit_length-le}

-- The formats that the proofs cover: there is a fraction, and room for a finite exponent.
pub record IsFormat (fmt : Format) : Type 0 where
  pub has_fraction : 0 < fmt.fraction
  pub has_exponent : 2 ≤ fmt.exponent

-- The exponent of a finite number whose exponent field counts as `g`.
abbrev exponent_at : ℕ → Format → ℤ
exponent_at g fmt = pos g -ℤ pos fmt.bias -ℤ pos fmt.fraction

max_left : (a b : ℤ) → b ≤ℤ a → max_ℤ a b ≡ a
max_left a b h = ground arith

max_right : (a b : ℤ) → a ≤ℤ b → max_ℤ a b ≡ b
max_right a b h = ground arith

-- A number of at most `fraction + 1` digits, and of all of them above the least exponent, needs no rounding.
quantum-eq :
    (len g : ℕ) (fmt : Format)
    → 0 < g
    → len ≤ fmt.fraction + 1
    → (g ≡ 1) ⊎ (len ≡ fmt.fraction + 1)
    → quantum_of (pos len -ℤ pos 1 +ℤ exponent_at g fmt) fmt ≡ exponent_at g fmt
unfolding quantum_of
quantum-eq len g fmt h l (inl least) =
    let second : pos 1 -ℤ pos fmt.bias -ℤ pos fmt.fraction ≡ exponent_at g fmt =
      eq_of_parts _ _ (omega (int_laws, least)) in
    rw second (
      max_right (pos len -ℤ pos 1 +ℤ exponent_at g fmt -ℤ pos fmt.fraction) (exponent_at g fmt)
        (omega int_laws))
quantum-eq len g fmt h l (inr full) =
    let first : pos len -ℤ pos 1 +ℤ exponent_at g fmt -ℤ pos fmt.fraction ≡ exponent_at g fmt =
      eq_of_parts _ _ (omega (int_laws, full)) in
    rw first
      (max_left (exponent_at g fmt) (pos 1 -ℤ pos fmt.bias -ℤ pos fmt.fraction) (omega int_laws))

same-ℤ : (a : ℤ) → a -ℤ a ≡ pos 0
unfolding ◌-ℤ◌
same-ℤ a = ground arith

result_exp-eq :
    (g : ℕ) (fmt : Format) → exponent_at g fmt +ℤ pos fmt.fraction +ℤ pos fmt.bias ≡ pos g
result_exp-eq g fmt = eq_of_parts _ _ (omega int_laws)

abbrev exact : ℕ → Rounded
exact n = record { magnitude = n; nx = false; increment = false }

finish-exact :
    (n g sign rn : ℕ) (fmt : Format)
    → n < 2 ^ suc fmt.fraction
    → g < 2 ^ fmt.exponent - 1
    → finish_pack (exact n) (exponent_at g fmt) sign rn fmt ≡ encoded (exact n) n (pos g) sign fmt
unfolding finish_pack placed
finish-exact n g sign rn fmt h l =
    let short : ltb (fmt.fraction + 1) (bit_length n) ≡ false =
      ground (arith, bit_length-le n (suc fmt.fraction) h) in
    let fits : ltb_ℤ (pos g) (pos (2 ^ fmt.exponent - 1)) ≡ true = ground arith in
    rw (short, result_exp-eq g fmt, fits) refl

-- A number of the format is packed as it is.
pack-exact :
    (n g sign rn : ℕ) (fmt : Format)
    → 0 < n
    → n < 2 ^ suc fmt.fraction
    → 0 < g
    → g < 2 ^ fmt.exponent - 1
    → (g ≡ 1) ⊎ (2 ^ fmt.fraction ≤ n)
    → pack n (exponent_at g fmt) sign rn fmt ≡ encoded (exact n) n (pos g) sign fmt
unfolding pack rounded_integer
pack-exact n g sign rn fmt p h q l c =
    let nonzero : (n == 0) ≡ false = ground arith in
    let quantum =
      quantum-eq (bit_length n) g fmt q (omega (arith, bit_length-le n (suc fmt.fraction) h))
        (full c) in
    rw (nonzero, quantum, same-ℤ (exponent_at g fmt)) (finish-exact n g sign rn fmt h l)
  where
    full : (g ≡ 1) ⊎ (2 ^ fmt.fraction ≤ n) → (g ≡ 1) ⊎ (bit_length n ≡ fmt.fraction + 1)
    full (inl e) = inl e
    full (inr e) = inr (omega (arith, bit_length-eq n fmt.fraction e h))

-- Three fields side by side.
abbrev pub fields : ℕ → ℕ → ℕ → Format → ℕ
fields sign e f fmt = sign * 2 ^ signbit fmt + e * 2 ^ fmt.fraction + f

or_fields :
    (sign e f : ℕ) (fmt : Format)
    → e < 2 ^ fmt.exponent
    → f < 2 ^ fmt.fraction
    → bit_or (bit_or (sign * 2 ^ signbit fmt) (e * 2 ^ fmt.fraction)) f ≡ fields sign e f fmt
unfolding signbit
or_fields sign e f fmt h k =
    let split : 2 ^ (fmt.fraction + fmt.exponent) ≡ 2 ^ fmt.fraction * 2 ^ fmt.exponent =
      pow-add fmt.fraction fmt.exponent in
    let low : e * 2 ^ fmt.fraction < 2 ^ (fmt.fraction + fmt.exponent) = grind (arith, split) in
    let high : sign * 2 ^ (fmt.fraction + fmt.exponent) + e * 2 ^ fmt.fraction
        ≡ (sign * 2 ^ fmt.exponent + e) * 2 ^ fmt.fraction =
      grind (arith, split) in
    rw (bit_or_fields (fmt.fraction + fmt.exponent) sign (e * 2 ^ fmt.fraction) low, high)
      (bit_or_fields fmt.fraction (sign * 2 ^ fmt.exponent + e) f k)

-- A word is its three fields.
fields_whole :
    (bits : ℕ) (fmt : Format)
    → fields
        (bits / 2 ^ signbit fmt)
        (bits / 2 ^ fmt.fraction % 2 ^ fmt.exponent)
        (bits % 2 ^ fmt.fraction)
        fmt
      ≡ bits
unfolding signbit
fields_whole bits fmt =
    let split : 2 ^ (fmt.fraction + fmt.exponent) ≡ 2 ^ fmt.fraction * 2 ^ fmt.exponent =
      pow-add fmt.fraction fmt.exponent in
    let top : bits / 2 ^ (fmt.fraction + fmt.exponent)
        ≡ bits / 2 ^ fmt.fraction / 2 ^ fmt.exponent =
      ap (λ (t : ℕ). bits / t) split
      ∙ sym (div-div-eq-div-mul bits (2 ^ fmt.fraction) (2 ^ fmt.exponent)) in
    let upper =
      ap (λ (t : ℕ). t * 2 ^ fmt.fraction)
        (div-add-mod' (bits / 2 ^ fmt.fraction) (2 ^ fmt.exponent)) in
    grind (arith, split, top, upper, div-add-mod' bits (2 ^ fmt.fraction))

pub or_leading :
    (f : ℕ) (k : ℕ) (b : Bool)
    → f < 2 ^ k
    → bit_or f (if b then 2 ^ k else 0) ≡ f + (if b then 2 ^ k else 0)
or_leading f k false h = bit_or-zero f ∙ omega arith
or_leading f k true h =
    bit_or_comm f (2 ^ k)
    ∙ ap (λ (t : ℕ). bit_or t f) (omega arith)
    ∙ bit_or_fields k 1 f h
    ∙ omega arith

finite_fields :
    (sign e f : ℕ) (fmt : Format)
    → (decode_fields sign e f fmt).kind ≡ finite
    → ((decode_fields sign e f fmt).significand
        ≡ bit_or f (if truthy e then 2 ^ fmt.fraction else 0))
      × ((decode_fields sign e f fmt).exponent ≡ exponent_at (if truthy e then e else 1) fmt)
      × ((decode_fields sign e f fmt).sign ≡ sign)
      × (e ≢ 2 ^ fmt.exponent - 1)
unfolding decode_fields special_kind
finite_fields sign e f fmt h = (ground arith, ground arith, ground arith, λ q. ground arith)

abbrev pub exactly : ℕ → Packed
exactly bits = record { bits = bits; nx = false; uf = false; of = false; increment = false }

encoded_subnormal :
    (n sign : ℕ) (fmt : Format)
    → n < 2 ^ fmt.fraction
    → encoded (exact n) n (pos 1) sign fmt ≡ exactly (fields sign 0 n fmt)
unfolding encoded
encoded_subnormal n sign fmt h =
    let low : ltb n (2 ^ fmt.fraction) ≡ true = ground arith in
    let mask : bit_and n (2 ^ fmt.fraction - 1) ≡ n =
      bit_and_mask fmt.fraction n ∙ mod-eq_of_lt h in
    rw (low, mask, or_fields sign 0 n fmt (two_pow_pos fmt.exponent) h) refl

encoded_normal :
    (f g sign : ℕ) (fmt : Format)
    → f < 2 ^ fmt.fraction
    → g < 2 ^ fmt.exponent
    → encoded (exact (f + 2 ^ fmt.fraction)) (f + 2 ^ fmt.fraction) (pos g) sign fmt
      ≡ exactly (fields sign g f fmt)
unfolding encoded
encoded_normal f g sign fmt h l =
    let low : ltb (f + 2 ^ fmt.fraction) (2 ^ fmt.fraction) ≡ false = ground arith in
    let mask : bit_and (f + 2 ^ fmt.fraction) (2 ^ fmt.fraction - 1) ≡ f =
      bit_and_mask fmt.fraction (f + 2 ^ fmt.fraction)
      ∙ grind (
        arith,
        mod-eq-sub-mod {n = f + 2 ^ fmt.fraction} {m = 2 ^ fmt.fraction},
        mod-eq_of_lt h,
      ) in
    rw (low, mask, or_fields sign g f fmt l h) refl

room : (fmt : Format) → IsFormat fmt → 1 < 2 ^ fmt.exponent - 1
room fmt v =
    let four : 2 ^ 2 ≤ 2 ^ fmt.exponent = pow-le-pow_right (omega arith) v.has_exponent in
    omega arith

pack-fields :
    (sign e f rn : ℕ) (fmt : Format)
    → IsFormat fmt
    → e < 2 ^ fmt.exponent - 1
    → f < 2 ^ fmt.fraction
    → pack
        (f + (if truthy e then 2 ^ fmt.fraction else 0))
        (exponent_at (if truthy e then e else 1) fmt)
        sign
        rn
        fmt
      ≡ exactly (fields sign e f fmt)
unfolding pack packed_zero
pack-fields sign zero zero rn fmt v h k = ap exactly (omega arith)
pack-fields sign zero (suc f) rn fmt v h k = rw (add-zero (suc f)) (
    pack-exact (suc f) 1 sign rn fmt (omega arith) (omega (arith, pow-suc 2 fmt.fraction))
      (omega arith) (room fmt v) (inl refl)
    ∙ encoded_subnormal (suc f) sign fmt k)
pack-fields sign (suc e) f rn fmt v h k =
    let set_bit : truthy (suc e) ≡ true = ground arith in
    rw set_bit (
      pack-exact (f + 2 ^ fmt.fraction) (suc e) sign rn fmt
        (omega (arith, two_pow_pos fmt.fraction)) (omega (arith, pow-suc 2 fmt.fraction))
        (omega arith) h (inr (omega arith))
      ∙ encoded_normal f (suc e) sign fmt k (omega arith))

decode-eq :
    (bits : ℕ) (fmt : Format)
    → decode bits fmt
      ≡ decode_fields
          (bits / 2 ^ signbit fmt)
          (bits / 2 ^ fmt.fraction % 2 ^ fmt.exponent)
          (bits % 2 ^ fmt.fraction)
          fmt
unfolding decode
decode-eq bits fmt =
    rw (bit_and_mask fmt.exponent (bits / 2 ^ fmt.fraction), bit_and_mask fmt.fraction bits) refl

unpacked :
    (sign e f rn : ℕ) (fmt : Format) (d : Decoded)
    → IsFormat fmt
    → e < 2 ^ fmt.exponent
    → f < 2 ^ fmt.fraction
    → d ≡ decode_fields sign e f fmt
    → d.kind ≡ finite
    → pack d.significand d.exponent d.sign rn fmt ≡ exactly (fields sign e f fmt)
unpacked sign e f rn fmt d v h k q finite_kind =
    let p = finite_fields sign e f fmt (sym (ap (λ (x : Decoded). x.kind) q) ∙ finite_kind) in
    let m : d.significand ≡ f + (if truthy e then 2 ^ fmt.fraction else 0) =
      ap (λ (x : Decoded). x.significand) q ∙ p.0 ∙ or_leading f fmt.fraction (truthy e) k in
    let x : d.exponent ≡ exponent_at (if truthy e then e else 1) fmt =
      ap (λ (x : Decoded). x.exponent) q ∙ p.1 in
    let s : d.sign ≡ sign = ap (λ (x : Decoded). x.sign) q ∙ p.2 in
    ap (λ (n : ℕ). pack n d.exponent d.sign rn fmt) m
    ∙ ap (λ (z : ℤ). pack (f + (if truthy e then 2 ^ fmt.fraction else 0)) z d.sign rn fmt) x
    ∙ ap
        (λ (t : ℕ).
          pack (f + (if truthy e then 2 ^ fmt.fraction else 0))
            (exponent_at (if truthy e then e else 1) fmt) t rn fmt)
        s
    ∙ pack-fields sign e f rn fmt v (below p.3) k
  where
    below : e ≢ 2 ^ fmt.exponent - 1 → e < 2 ^ fmt.exponent - 1
    below n = omega arith

-- A finite number that is decoded and packed again, in any rounding mode, gives its own bits and no flag.
pub pack-decode :
    (bits rn : ℕ) (fmt : Format)
    → IsFormat fmt
    → (decode bits fmt).kind ≡ finite
    → let d = decode bits fmt in pack d.significand d.exponent d.sign rn fmt ≡ exactly bits
pack-decode bits rn fmt v h =
    unpacked (bits / 2 ^ signbit fmt) (bits / 2 ^ fmt.fraction % 2 ^ fmt.exponent)
      (bits % 2 ^ fmt.fraction) rn fmt (decode bits fmt) v
      (mod-lt (bits / 2 ^ fmt.fraction) (two_pow_pos fmt.exponent))
      (mod-lt bits (two_pow_pos fmt.fraction)) (decode-eq bits fmt) h
    ∙ ap exactly (fields_whole bits fmt)
