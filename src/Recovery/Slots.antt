-- ===== src/Recovery/Slots.antt =====
-- The slots of a contiguous queue that fits are different, so a tag stands in it once.
use native.Mathlib.Nat.{mod-eq_of_lt, mod-add-mod, mod-eq-sub-mod}
use native.Mathlib.Decide.{dec_lt}
use slo_ppc.Prelude.{
  ℕ, suc, ◌+◌, ◌-◌, ◌%◌, ◌<◌, ◌≤◌, ◌≡◌, ◌≢◌, refl, arith, true, false, List, [], ◌∷◌, map, length,
  ap, ◌∙◌, sym,
}
use slo_ppc.Recovery.State.{Tag, Entry}
use slo_ppc.Recovery.Step.{has_tag}
use slo_ppc.Recovery.Check.{member, distinct, slot_of}
use slo_ppc.Recovery.Queue.{Contiguous}

-- Fewer than `d` steps round do not come back.
round_ne : (d s k : ℕ) → s < d → 0 < k → k < d → (s + k) % d ≢ s
round_ne d s k h p q = elim (dec_lt (s + k) d) [
  | yes low ↦ omega (arith, mod-eq_of_lt low)
  | no high ↦ omega (
    arith,
    mod-eq-sub-mod {n = s + k} {m = d} (omega arith),
    mod-eq_of_lt {n = s + k - d} {m = d} (omega arith),
  )
]

next_round : (d s k : ℕ) → ((s + k) % d + 1) % d ≡ (s + suc k) % d
next_round d s k = mod-add-mod (s + k) d 1 ∙ ap (λ (t : ℕ). t % d) (omega arith)

-- A slot behind the queue is not in it.
behind :
    (d s k c t : ℕ) (es : List Entry)
    → s < d
    → 0 < k
    → k + length es ≤ d
    → c ≡ (s + k) % d
    → Contiguous d c es t
    → member s (map slot_of es) ≡ false
unfolding member
behind d s k c t [] h p q e w = refl
behind d s k c t (f ∷ es) h p q e w = ground (
  arith,
  round_ne d s k h p (omega arith),
  behind d s (suc k) ((c + 1) % d) t es h (omega arith) (omega arith)
      (ap (λ (x : ℕ). (x + 1) % d) e ∙ next_round d s k) w.1,
)

pub distinct-slots :
    (d s t : ℕ) (es : List Entry)
    → s < d
    → length es ≤ d
    → Contiguous d s es t
    → distinct (map slot_of es) ≡ true
unfolding distinct
distinct-slots d s t [] h q w = refl
distinct-slots d s t (f ∷ es) h q w = ground (
  arith,
  behind d s 1 ((s + 1) % d) t es h (omega arith) (omega arith) refl w.1,
  distinct-slots d ((s + 1) % d) t es (omega arith) (omega arith) w.1,
  ap (λ (x : ℕ). member x (map slot_of es)) w.0,
)

tail_round : (d s t : ℕ) (es : List Entry) → s < d → Contiguous d s es t → t ≡ (s + length es) % d
tail_round d s t [] h w = sym w ∙ sym (mod-eq_of_lt h) ∙ ap (λ (x : ℕ). x % d) (omega arith)
tail_round d s t (f ∷ es) h w =
    tail_round d ((s + 1) % d) t es (omega arith) w.1
    ∙ mod-add-mod (s + 1) d (length es)
    ∙ ap (λ (x : ℕ). x % d) (omega arith)

-- The next slot is not in a queue with room.
pub tail_fresh :
    (d s t : ℕ) (es : List Entry)
    → s < d
    → length es < d
    → Contiguous d s es t
    → member t (map slot_of es) ≡ false
unfolding member
tail_fresh d s t [] h q w = refl
tail_fresh d s t (f ∷ es) h q w = ground (
  arith,
  round_ne d s (length (f ∷ es)) h (omega arith) q,
  tail_round d s t (f ∷ es) h w,
  tail_fresh d ((s + 1) % d) t es (omega arith) (omega arith) w.1,
)

-- A tag whose slot is not in the queue is not in it.
pub has_tag_of_slot :
    (t : Tag) (es : List Entry) → member t.slot (map slot_of es) ≡ false → has_tag t es ≡ false
unfolding has_tag member
has_tag_of_slot t [] h = refl
has_tag_of_slot t (e ∷ es) h = ground (arith, has_tag_of_slot t es)

-- The tags of the later entries of a queue are not that of an earlier one.
abbrev pub TagsDiffer : List Entry → Type 0
TagsDiffer [] = Unit
TagsDiffer (e ∷ es) = (has_tag e.tag es ≡ false) × TagsDiffer es

pub TagsDiffer-of_slots : (es : List Entry) → distinct (map slot_of es) ≡ true → TagsDiffer es
unfolding distinct
TagsDiffer-of_slots [] h = tt
TagsDiffer-of_slots (e ∷ es) h =
    (has_tag_of_slot e.tag es (ground arith), TagsDiffer-of_slots es (ground arith))
