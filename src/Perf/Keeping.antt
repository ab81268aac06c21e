-- ===== src/Perf/Keeping.antt =====
-- Every round of `schedule` of sim/tools/perf_model_603e.py keeps the order.
use mathlib.Core.Option.{some-injective}
use slo_ppc.Prelude.{
  inl, inr, ℕ, ◌+◌, ◌-◌, ◌≤◌, ◌<◌, ◌≡◌, max, refl, subst, ap, arith, Bool, true, false, List, [],
  ◌∷◌, Option, none, some, if◌then◌else◌,
}
use slo_ppc.Perf.Insn
use slo_ppc.Perf.Insn.{Insn, Station}
use slo_ppc.Perf.Fields.{Args}
use slo_ppc.Perf.Model.{Core, State, Entry, same_unit, cycle_or_zero, next_cycle}
use slo_ppc.Perf.Search.{IsFirst, first_cycle, first_cycle-IsFirst}
use slo_ppc.Perf.Slots.{
  is_blocked, is_pair, last_is_dserial, last_has_unit, is_free, available, wanted_units,
  can_dispatch, free_units, has_units, dispatch_cycle, horizon,
}
use slo_ppc.Perf.Branch.{
  last_dispatch, last_completion, can_complete_branch, branch_dispatch, branched, branch_entry,
  slotted, resolution_of, resolution, needed,
}
use slo_ppc.Perf.Execute.{
  Retired, best_unit, chosen_unit, completion_cycle, dispatch_from, ready_cycle, units_of,
  can_complete,
}
use slo_ppc.Perf.Schedule.{issued, entry_of, slot_branch, ◌>>=◌}
use slo_ppc.Perf.Order.{SharesDispatch, Follows, InOrder, IsKept, Fits}
use slo_ppc.Perf.Window.{can_dispatch-Fits}
use slo_ppc.Perf.Keeps.{
  dispatch-Spaced, completion-Spaced, can_complete-weaker, can_complete-pair, can_dispatch-blocked,
}
use slo_ppc.Perf.Units.{same_unit_eq, free_units-All, best_unit-All, best_unit-le, chosen_unit-All}

-- What comes out of a chain came out of its first part.
pub >>=-elim :
    {A B P : Type 0} (m : Option A) (f : A → Option B) {b : B}
    → (m >>= f) ≡ some b
    → ((a : A) → m ≡ some a → f a ≡ some b → P)
    → P
>>=-elim none f h k = absurd (ground arith)
>>=-elim (some a) f h k = k a refl h

pub dispatch_cycle-IsFirst :
    (core : Core) (starts : Station → Option ℕ) (nb : List Entry) (ins : Insn)
    (units : List Station) (from : ℕ) {d : ℕ}
    → dispatch_cycle core starts nb ins units from ≡ some d
    → IsFirst (can_dispatch core starts nb ins units) from d
unfolding dispatch_cycle
dispatch_cycle-IsFirst core starts nb ins units from h = first_cycle-IsFirst _ _ from h

dispatch_from-le :
    (core : Core) (s : State) (ins : Insn) (f : ℕ)
    → (f + 1 ≤ dispatch_from core s ins f) × (last_dispatch s.nb_hist ≤ dispatch_from core s ins f)
unfolding dispatch_from
dispatch_from-le core s ins f = ground arith

-- Units that are free beside the last instruction.
free-shares :
    (starts : Station → Option ℕ) (nb : List Entry) (e : Entry)
    → is_free starts nb e.dispatched e.unit ≡ true
    → is_blocked nb e.ins e.dispatched ≡ false
    → last_dispatch nb ≤ e.dispatched
    → SharesDispatch e nb
unfolding is_free is_blocked is_pair last_has_unit last_is_dserial last_dispatch
free-shares starts [] e h b l = tt
free-shares starts (p ∷ older) e h b l = ground arith

completion_cycle-IsFirst :
    (core : Core) (s : State) (ins : Insn) (fin : ℕ) {c : ℕ}
    → completion_cycle core s ins fin ≡ some c
    → (fin < c) × (last_completion s.nb_hist ≤ c) × (can_complete s.nb_hist ins c ≡ true)
unfolding completion_cycle
completion_cycle-IsFirst core s ins fin h =
    let r =
      first_cycle-IsFirst (horizon s.nb_hist + 1) (can_complete s.nb_hist ins)
        (max (fin + (if core.late_retire then 2 else 1))
          (max (last_completion s.nb_hist) (cycle_or_zero s.pending_pred)))
        h in
    (ground (arith, r.after), omega (arith, r.after), r.holds)

-- An instruction with cycles that pass the tests follows the older ones.
module _ (core : Core) (args : Args) (rest : List Retired) (ins : Insn) (f wait : ℕ) (s : State)
    (o : InOrder s.nb_hist) where
  tested-Follows :
      (d begin c : ℕ) (u : Station)
      → IsFirst
          (can_dispatch core s.unit_start s.nb_hist ins (units_of args ins))
          (dispatch_from core s ins f)
          d
      → d < begin
      → completion_cycle core s ins (begin + ins.lat - 1) ≡ some c
      → is_free s.unit_start s.nb_hist d u ≡ true
      → Follows (entry_of ins f d begin c u) s.nb_hist
        × Fits core (entry_of ins f d begin c u) s.nb_hist
  tested-Follows d begin c u first lt hc free =
      let open_slot =
        can_dispatch-blocked core s.unit_start s.nb_hist ins (units_of args ins) d first.holds in
      let from = dispatch_from-le core s ins f in
      let done = completion_cycle-IsFirst core s ins (begin + ins.lat - 1) hc in
      let alone = can_complete-weaker s.nb_hist ins c done.2 in
      let e = entry_of ins f d begin c u in
      (
        record {
          fetched_first = omega (arith, first.after, from.0);
          dispatch_order =
              dispatch-Spaced s.nb_hist ins d o (omega (arith, first.after, from.1)) open_slot;
          completion_order = completion-Spaced s.nb_hist c o done.1 alone;
          dispatch_pair =
              free-shares s.unit_start s.nb_hist e free open_slot
                (omega (arith, first.after, from.1));
          stages = inr ((lt, omega arith, done.0), can_complete-pair s.nb_hist e done.1 done.2);
        },
        can_dispatch-Fits core s.unit_start s.nb_hist (units_of args ins) e o first.holds,
      )

  -- What is issued follows the older instructions.
  pub issued-Follows :
      {e : Entry}
      → issued core args rest ins f wait s ≡ some e
      → Follows e s.nb_hist × Fits core e s.nb_hist
  unfolding issued available
  issued-Follows {e} h =
      let units = units_of args ins in
      let ready = ready_cycle s ins wait in
      let starts = s.unit_start in
      let nb = s.nb_hist in
      >>=-elim (dispatch_cycle core starts nb ins units (dispatch_from core s ins f)) _ h λ d hd h1.
        let avail = available core starts nb ins units d in
        let free = free_units-All starts nb d (wanted_units core nb ins units d) in
        let P : Station → Type 0 = λ u. is_free starts nb d u ≡ true in
        >>=-elim (best_unit s ins d ready avail) _ h1 λ b hb h2.
          >>=-elim (completion_cycle core s ins (b.0 + ins.lat - 1)) _ h2 λ c hc h3.
            let u = chosen_unit args rest s ins d ready b.0 b.1 avail in
            let same : entry_of ins f d b.0 c u ≡ e = some-injective _ _ h3 in
            let took =
              chosen_unit-All P s ins d ready args rest b.0 b.1 avail free
                (best_unit-All P s ins d ready avail b free hb) in
            subst (λ (x : Entry). Follows x nb × Fits core x nb) same
              (tested-Follows d b.0 c u
                (dispatch_cycle-IsFirst core starts nb ins units (dispatch_from core s ins f) hd)
                (best_unit-le s ins d ready avail b hb) hc took)

pub can_dispatch-has_units :
    (core : Core) (starts : Station → Option ℕ) (nb : List Entry) (ins : Insn)
    (units : List Station) (d : ℕ)
    → can_dispatch core starts nb ins units d ≡ true
    → has_units (available core starts nb ins units d) ≡ true
unfolding can_dispatch
can_dispatch-has_units core starts nb ins units d h = ground arith

branch_unit :
    (core : Core) (starts : Station → Option ℕ) (nb : List Entry) (ins : Insn) (d : ℕ)
    → same_unit ins.unit Insn.bpu ≡ true
    → has_units (available core starts nb ins (Insn.bpu ∷ []) d) ≡ true
    → is_free starts nb d Insn.bpu ≡ true
unfolding available wanted_units free_units has_units same_unit
branch_unit core starts nb ins d bpu h = let e = same_unit_eq ins.unit Insn.bpu bpu in ground arith

-- A branch with a slot, too.
pub slot_branch-IsKept :
    (core : Core) (taken : Bool) (ins : Insn) (f : ℕ) (s : State) {s' : State}
    → same_unit ins.unit Insn.bpu ≡ true
    → IsKept core s
    → slot_branch core taken ins f s ≡ some s'
    → IsKept core s'
unfolding slot_branch branch_dispatch available wanted_units slotted branched
slot_branch-IsKept core taken ins f s {s'} bpu k h =
    let units = Insn.bpu ∷ [] in
    let from = max (f + 1) (max (last_dispatch s.nb_hist) s.ser_until) in
    let x0 = max (f + 1) (next_cycle s.last_x) in
    let starts = s.unit_start in
    let nb = s.nb_hist in
    >>=-elim (branch_dispatch core s ins f) _ h λ d hd h1.
      let how = resolution s ins (needed s ins (max x0 d)) in
      let start_c = max how.1 (last_completion nb) in
      >>=-elim (first_cycle (horizon nb + 1) (can_complete_branch nb) start_c) _ h1 λ c hc h2.
        let first = dispatch_cycle-IsFirst core starts nb ins units from hd in
        let open_slot = can_dispatch-blocked core starts nb ins units d first.holds in
        let done = first_cycle-IsFirst (horizon nb + 1) (can_complete_branch nb) start_c hc in
        let e = branch_entry ins f d (resolution_of taken ins how.0 how.1) c in
        subst (λ (x : State). IsKept core x) (some-injective _ _ h2)
          (record {
            order = (
              record {
                fetched_first = omega (arith, first.after);
                dispatch_order =
                    dispatch-Spaced nb ins d k.order (omega (arith, first.after)) open_slot;
                completion_order =
                    completion-Spaced nb c k.order (omega (arith, done.after)) done.holds;
                dispatch_pair =
                    free-shares starts nb e
                      (branch_unit core starts nb ins d bpu
                        (can_dispatch-has_units core starts nb ins units d first.holds))
                      open_slot (omega (arith, first.after));
                stages = inl bpu;
              },
              k.order,
            );
            limits = (can_dispatch-Fits core starts nb units e k.order first.holds, k.limits);
            listed = ap (λ (l : List Entry). e ∷ l) k.listed;
          })
