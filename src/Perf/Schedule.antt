-- ===== src/Perf/Schedule.antt =====
-- `schedule` of sim/tools/perf_model_603e.py. A result `none` is a loop that does not end.
use slo_ppc.Prelude.{
  ℕ, ◌+◌, ◌-◌, max, Bool, not, List, [], ◌∷◌, Option, none, some, ◌==◌, if◌then◌else◌,
}
use slo_ppc.Perf.Insn
use slo_ppc.Perf.Insn.{Insn, Station}
use slo_ppc.Perf.Fields.{Args}
use slo_ppc.Perf.Decode.{insn}
use slo_ppc.Perf.Model.{Core, Entry, Row, State, start, same_unit, next_cycle}
use slo_ppc.Perf.Memory.{track}
use slo_ppc.Perf.Search.{first_cycle}
use slo_ppc.Perf.Slots.{available, dispatch_cycle, horizon}
use slo_ppc.Perf.Fetch.{fetch_cycle}
use slo_ppc.Perf.Branch.{
  branch_dispatch, branched, can_complete_branch, folded, last_completion, needed, resolution,
  resolution_of, slotted,
}
use slo_ppc.Perf.Execute.{
  Retired, best_unit, chosen_unit, completion_cycle, dispatch_from, executed, ready_cycle, units_of,
}

-- What follows a loop runs only if the loop ends.
infixl 5 ◌>>=◌
abbrev pub ◌>>=◌ : {A B : Type 0} → Option A → (A → Option B) → Option B
none >>= next = none
some a >>= next = next a

-- A branch, fetched at `f`, that takes no slot.
unfoldable pub fold_branch : Core → Bool → Insn → ℕ → State → State
unfolding resolution needed resolution_of branched folded
fold_branch core taken ins f s =
    let x0 = max (f + 1) (next_cycle s.last_x) in
    let (x, resolve) = resolution s ins (needed s ins x0) in
    folded ins f (resolution_of taken ins x resolve) (branched core taken ins f x0 x resolve s)

-- A branch that is dispatched, with the rule `branch-slot`.
unfoldable pub slot_branch : Core → Bool → Insn → ℕ → State → Option State
unfolding branch_dispatch resolution needed resolution_of branched slotted can_complete_branch
    first_cycle
slot_branch core taken ins f s =
    let x0 = max (f + 1) (next_cycle s.last_x) in
    do
      d ← branch_dispatch core s ins f
      let (x, resolve) = resolution s ins (needed s ins (max x0 d))
      c ←
          first_cycle (horizon s.nb_hist + 1) (can_complete_branch s.nb_hist)
            (max resolve (last_completion s.nb_hist))
      some (
          slotted ins f d (resolution_of taken ins x resolve) c
            (branched core taken ins f x0 x resolve s))

-- The record of another instruction, with its cycles.
abbrev pub entry_of : Insn → ℕ → ℕ → ℕ → ℕ → Station → Entry
entry_of ins f d begin c u = record {
  ins = ins;
  fetched = f;
  dispatched = d;
  started = begin;
  finished = begin + ins.lat - 1;
  completed = c;
  unit = u;
}

-- The entry of another instruction.
unfoldable pub issued : Core → Args → List Retired → Insn → ℕ → ℕ → State → Option Entry
unfolding dispatch_from dispatch_cycle units_of available ready_cycle best_unit chosen_unit
    completion_cycle
issued core args rest ins f wait s =
    let units = units_of args ins in
    let ready = ready_cycle s ins wait in
    do
      d ← dispatch_cycle core s.unit_start s.nb_hist ins units (dispatch_from core s ins f)
      let avail = available core s.unit_start s.nb_hist ins units d
      (begin, u) ← best_unit s ins d ready avail
      c ← completion_cycle core s ins (begin + ins.lat - 1)
      some (entry_of ins f d begin c (chosen_unit args rest s ins d ready begin u avail))

unfoldable pub issue : Core → Args → List Retired → Insn → ℕ → State → Option State
unfolding issued executed track
issue core args rest ins f s =
    let (ea, wait, named) = track ins s.stores s.symbols in
    issued core args rest ins f wait s >>= λ e. some (executed e ea named s)

-- The rest of a round, for an instruction that is fetched at `f`.
unfoldable pub take_step : Core → Args → Bool → List Retired → Insn → ℕ → State → Option State
unfolding fold_branch slot_branch issue same_unit
take_step core args taken rest ins f s =
    if same_unit ins.unit Insn.bpu
    then (if core.branch_slot
        then slot_branch core taken ins f s
        else some (fold_branch core taken ins f s))
    else issue core args rest ins f s

-- One round of the loop. `rest` is the stream after this element.
unfoldable pub step : Core → Args → Bool → List Retired → Retired → State → Option State
unfolding insn fetch_cycle take_step
step core args any rest t s =
    let ins = insn args t.pc t.word in
    let taken = not (t.next_pc == t.pc + 4) in
    fetch_cycle any s ins >>= λ f.
    take_step core args taken rest ins f (record s { fetch_hist = (f, t.pc) ∷ s.fetch_hist })

-- The loop, from a state.
unfoldable pub run : Core → Args → Bool → List Retired → State → Option State
unfolding step
run core args any [] s = some s
run core args any (t ∷ ts) s = step core args any ts t s >>= λ next. run core args any ts next

abbrev pub rows_onto : List Row → List Row → List Row
rows_onto [] done = done
rows_onto (r ∷ rs) done = rows_onto rs (r ∷ done)

-- `schedule(stream, fetch_any, core)`.
unfoldable pub schedule : Core → Args → Bool → List Retired → Option (List Row)
unfolding run
schedule core args any stream = run core args any stream start >>= λ s. some (rows_onto s.out [])
