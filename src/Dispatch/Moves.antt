-- ===== src/Dispatch/Moves.antt =====
-- What the operands of words say of their classes.
use slo_ppc.Prelude.{
  ℕ, ◌/◌, ◌^◌, ◌<◌, ◌≡◌, ◌⊎◌, refl, sym, inl, inr, arith, Bool, true, false, [], ◌∷◌, some,
}
use slo_ppc.Bits.{bit_and_mask}
use slo_ppc.Dispatch.Classify.{
  classify, initial, other_class, extended_class, access_class, system_class, record_bit, is_in,
  opcode, extended,
}
use slo_ppc.Dispatch.Operands.{serial_gpr, gpr_writes, field_d, field_a}

at_31 :
    (word : ℕ) (wide : Bool)
    → opcode word ≡ 31
    → classify word wide ≡ extended_class word wide (record_bit word) (initial (record_bit word))
unfolding classify other_class is_in
at_31 word wide h = rw h refl

abbrev SetsGpr : ℕ → Bool → ℕ → Type 0
SetsGpr word wide rc =
    ((extended_class word wide rc (initial rc)).cser ≡ true)
    × ((extended_class word wide rc (initial rc)).writes.gpr ≡ 1)

one_of :
    (x : ℕ)
    → is_in x (339 ∷ 371 ∷ 83 ∷ 19 ∷ 595 ∷ 659 ∷ []) ≡ true
    → (x ≡ 339) ⊎ (x ≡ 371) ⊎ (x ≡ 83) ⊎ (x ≡ 19) ⊎ (x ≡ 595) ⊎ (x ≡ 659)
unfolding is_in
one_of x h = ground arith

serial_move :
    (word : ℕ) (wide : Bool) (rc : ℕ)
    → is_in (extended word) (339 ∷ 371 ∷ 83 ∷ 19 ∷ 595 ∷ 659 ∷ []) ≡ true
    → SetsGpr word wide rc
unfolding extended_class access_class system_class is_in
serial_move word wide rc h = elim (one_of (extended word) h) [
  | inl e ↦ rw e (refl, refl)
  | inr (inl e) ↦ rw e (refl, refl)
  | inr (inr (inl e)) ↦ rw e (refl, refl)
  | inr (inr (inr (inl e))) ↦ rw e (refl, refl)
  | inr (inr (inr (inr (inl e)))) ↦ rw e (refl, refl)
  | inr (inr (inr (inr (inr e)))) ↦ rw e (refl, refl)
]

written :
    (word : ℕ)
    → (classify word false).writes.gpr ≡ 1
    → gpr_writes word ≡ field_d word ∷ field_a word ∷ []
unfolding gpr_writes
written word h = rw h refl

serial_word :
    (word r : ℕ)
    → serial_gpr word ≡ some r
    → (opcode word ≡ 31)
      × (is_in (extended word) (339 ∷ 371 ∷ 83 ∷ 19 ∷ 595 ∷ 659 ∷ []) ≡ true)
      × (field_d word ≡ r)
unfolding serial_gpr
serial_word word r h = ground arith

-- A register that a serialized move writes is among those that its word may write, and the move is
-- completion-serialized.
pub serial_gpr-gpr_writes :
    (word r : ℕ)
    → serial_gpr word ≡ some r
    → (r < 32) × ((classify word false).cser ≡ true) × (gpr_writes word ≡ r ∷ field_a word ∷ [])
serial_gpr-gpr_writes word r h =
    let p = serial_word word r h in
    let class = at_31 word false p.0 in
    let move = serial_move word false (record_bit word) p.1 in
    (
      omega (arith, p.2, bit_and_mask 5 (word / 2 ^ 21)),
      rw class move.0,
      rw (sym p.2) (written word (rw class move.1)),
    )
