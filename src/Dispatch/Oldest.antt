-- ===== src/Dispatch/Oldest.antt =====
-- Instructions retire in the order of their dispatch (`Rules.event` of sim/tools/check_dispatch_trace.py).
use slo_ppc.Prelude.{
  ℕ, ◌<◌, ◌≡◌, ◌∙◌, ◌⊎◌, inl, inr, sym, ap, subst, false, List, ◌∷◌, ◌++◌, take, ok,
  take-append-drop,
}
use slo_ppc.Dispatch.Rules.{Entry, Rules, Setup, is_flushed}
use slo_ppc.Dispatch.Retire.{retire_one, wrong_path_length}
use slo_ppc.Dispatch.Found.{AllFlushed, wrong_path_length-AllFlushed}
use slo_ppc.Dispatch.Retirements.{Continued, Retirement, retire_one-cases}

-- An entry leaves the queue with those before it, all of which a recovery had removed.
pub record RetiresOldest (cycle pc : ℕ) (s t : Rules) : Type 0 where
  pub older : List Entry
  pub entry : Entry
  pub split : s.inflight ≡ older ++ entry ∷ t.inflight
  pub all_flushed : AllFlushed older
  pub address : entry.pc ≡ pc
  pub before : entry.cycle < cycle
  pub unflushed : is_flushed entry.flush ≡ false

oldest :
    (setup : Setup) (cycle pc : ℕ) (s t : Rules)
    → setup.flush ≡ false
    → Retirement setup cycle pc s t
    → RetiresOldest cycle pc s t
oldest setup cycle pc s t strict k =
    let first : k.index ≡ wrong_path_length s = elim k.first [ inl all ↦ cc | inr e ↦ e ] in
    record {
      older = take k.index s.inflight;
      entry = k.entry;
      split =
          sym (take-append-drop k.index s.inflight)
          ∙ ap (λ (l : List Entry). take k.index s.inflight ++ l) k.stands;
      all_flushed =
          subst (λ (n : ℕ). AllFlushed (take n s.inflight)) (sym first)
            (wrong_path_length-AllFlushed s);
      address = k.address;
      before = k.before;
      unflushed = k.unflushed;
    }

-- Without --allow-flush, a retirement that the checker accepts is further work of an instruction that retired last, or
-- it is of the oldest instruction in flight that no recovery has removed, which was dispatched at that address in an
-- earlier cycle; it and the removed ones before it leave the queue.
pub retire_one_oldest :
    (setup : Setup) (cycle slot pc : ℕ) (s t : Rules)
    → setup.flush ≡ false
    → retire_one setup cycle slot pc s ≡ ok t
    → Continued pc s t ⊎ RetiresOldest cycle pc s t
retire_one_oldest setup cycle slot pc s t strict h =
    elim (retire_one-cases setup cycle slot pc s h) [
      | inl more ↦ inl more
      | inr k ↦ inr (oldest setup cycle pc s t strict k)
    ]
