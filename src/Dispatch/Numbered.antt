-- ===== src/Dispatch/Numbered.antt =====
-- The sequence numbers of the queue, and the block of a dispatch-serialized instruction, over the retirements of
-- `Rules.event` of sim/tools/check_dispatch_trace.py.
use slo_ppc.Prelude.{
  ℕ, zero, suc, ◌+◌, ◌≤◌, ◌<◌, ◌≡◌, ◌⊎◌, inl, inr, sym, subst, arith, Bool, false, List, [], ◌∷◌,
  drop, Option, none, some, ok, leb, leb→le, Bool-cases,
}
use slo_ppc.Dispatch.Rules.{Entry, Rules, Setup, when_known}
use slo_ppc.Dispatch.Retire.{retire_one, retire_all, block_after}
use slo_ppc.Dispatch.Retirements.{Retirement, retire_one-cases}
use slo_ppc.Dispatch.Untouched.{Untouched}
use slo_ppc.Dispatch.Inversion.{bind-elim, ok_injective}

abbrev pub is_serial : Entry → Bool
is_serial e = when_known (λ c. c.dser) e.class

-- `seq <= block[0]`.
abbrev pub Blocked : ℕ → Option (ℕ × ℕ) → Type 0
Blocked seq none = ⊥
Blocked seq (some b) = seq ≤ b.0

-- The sequence numbers rise up to the last, and `block` covers the dispatch-serialized entries.
abbrev pub Above : ℕ → List Entry → Type 0
Above n [] = Unit {0}
Above n (e ∷ es) = (n < e.seq) × Above n es

abbrev pub Rising : ℕ → List Entry → Type 0
Rising last [] = Unit {0}
Rising last (e ∷ es) = Above e.seq es × (e.seq ≤ last) × Rising last es

abbrev pub Covered : Option (ℕ × ℕ) → List Entry → Type 0
Covered block [] = Unit {0}
Covered block (e ∷ es) = ((is_serial e ≡ false) ⊎ Blocked e.seq block) × Covered block es

pub record IsQueue (s : Rules) : Type 0 where
  pub rising : Rising s.seq s.inflight
  pub covered : Covered s.block s.inflight

Rising-drop : (last n : ℕ) (es : List Entry) → Rising last es → Rising last (drop n es)
Rising-drop last zero es h = h
Rising-drop last (suc n) [] h = tt
Rising-drop last (suc n) (e ∷ es) h = Rising-drop last n es h.2

Covered-drop : (b : Option (ℕ × ℕ)) (n : ℕ) (es : List Entry) → Covered b es → Covered b (drop n es)
Covered-drop b zero es h = h
Covered-drop b (suc n) [] h = tt
Covered-drop b (suc n) (e ∷ es) h = Covered-drop b n es h.1

-- The end of a block leaves no serialized entry behind it.
Covered-after :
    (seq : ℕ) (b : Option (ℕ × ℕ)) (es : List Entry)
    → Above seq es
    → Covered b es
    → Covered (block_after seq b) es
Covered-after seq none es a h = h
Covered-after seq (some (n, c)) es a h = elim (Bool-cases (leb n seq)) [
  | inl t ↦ rw t (gone (leb→le n seq t) es a h)
  | inr f ↦ rw f h
]
  where
    gone : n ≤ seq → (es : List Entry) → Above seq es → Covered (some (n, c)) es → Covered none es
    gone le [] a h = tt
    gone le (e ∷ es) a h =
        let rest = gone le es a.1 h.1 in
        elim h.0 [ inl plain ↦ (inl plain, rest) | inr below ↦ absurd (omega (arith, a.0)) ]

Retirement-IsQueue :
    (setup : Setup) (cycle pc : ℕ) (s t : Rules)
    → Retirement setup cycle pc s t
    → IsQueue s
    → IsQueue t
Retirement-IsQueue setup cycle pc s t k q =
    let r =
      subst (λ (l : List Entry). Rising s.seq l) k.stands
        (Rising-drop s.seq k.index s.inflight q.rising) in
    let c =
      subst (λ (l : List Entry). Covered s.block l) k.stands
        (Covered-drop s.block k.index s.inflight q.covered) in
    record {
      rising = subst (λ (n : ℕ). Rising n t.inflight) (sym k.numbered) r.2;
      covered =
          subst (λ (b : Option (ℕ × ℕ)). Covered b t.inflight) (sym k.blocked)
            (Covered-after k.entry.seq s.block t.inflight r.0 c.1);
    }

pub Untouched-IsQueue : (s t : Rules) → Untouched s t → IsQueue s → IsQueue t
Untouched-IsQueue s t u q = record {
  rising =
      subst (λ (n : ℕ). Rising n t.inflight) (sym u.seq)
        (subst (λ (l : List Entry). Rising s.seq l) (sym u.inflight) q.rising);
  covered =
      subst (λ (b : Option (ℕ × ℕ)). Covered b t.inflight) (sym u.block)
        (subst (λ (l : List Entry). Covered s.block l) (sym u.inflight) q.covered);
}

pub retire_all-IsQueue :
    (setup : Setup) (cycle slot : ℕ) (pcs : List ℕ) (s : Rules) {t : Rules}
    → IsQueue s
    → retire_all setup cycle slot pcs s ≡ ok t
    → IsQueue t
unfolding retire_all
retire_all-IsQueue setup cycle slot [] s q h = subst (λ (x : Rules). IsQueue x) (ok_injective h) q
retire_all-IsQueue setup cycle slot (pc ∷ pcs) s q h =
    bind-elim (retire_one setup cycle slot pc s) _ h λ u hu h1.
      retire_all-IsQueue setup cycle (slot + 1) pcs u
        (elim (retire_one-cases setup cycle slot pc s hu) [
          | inl more ↦
              Untouched-IsQueue s u
                (record {
                  inflight = more.same_inflight;
                  block = more.same_block;
                  seq = more.same_seq;
                  counts = more.same_counts;
                })
                q
          | inr k ↦ Retirement-IsQueue setup cycle pc s u k q
        ])
        h1
