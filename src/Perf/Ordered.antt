-- ===== src/Perf/Ordered.antt =====
-- A schedule of sim/tools/perf_model_603e.py is in order, whatever the stream and the rules.
use mathlib.Core.Option.{some-injective}
use mathlib.Core.List.{append-nil}
use slo_ppc.Prelude.{
  ℕ, ◌≡◌, ◌∙◌, refl, sym, subst, ap, Bool, List, [], ◌∷◌, ◌++◌, some, Bool-cases, inl, inr,
}
use slo_ppc.Perf.Insn
use slo_ppc.Perf.Insn.{Insn}
use slo_ppc.Perf.Fields.{Args}
use slo_ppc.Perf.Decode.{insn}
use slo_ppc.Perf.Model.{Core, State, Entry, Row, same_unit, start}
use slo_ppc.Perf.Memory.{track}
use slo_ppc.Perf.Fetch.{fetch_cycle}
use slo_ppc.Perf.Branch.{branched, folded}
use slo_ppc.Perf.Execute.{Retired, executed}
use slo_ppc.Perf.Schedule.{fold_branch, issued, issue, take_step, step, run, schedule, rows_onto}
use slo_ppc.Perf.Order.{InOrder, WithinLimits, slots, IsKept}
use slo_ppc.Perf.Keeping.{>>=-elim, issued-Follows, slot_branch-IsKept}

issue-IsKept :
    (core : Core) (args : Args) (rest : List Retired) (ins : Insn) (f : ℕ) (s : State) {s' : State}
    → IsKept core s
    → issue core args rest ins f s ≡ some s'
    → IsKept core s'
unfolding issue executed
issue-IsKept core args rest ins f s k h =
    let (ea, wait, named) = track ins s.stores s.symbols in
    >>=-elim (issued core args rest ins f wait s) _ h λ e he h1.
      subst (λ (x : State). IsKept core x) (some-injective _ _ h1)
        (record {
          order = ((issued-Follows core args rest ins f wait s k.order he).0, k.order);
          limits = ((issued-Follows core args rest ins f wait s k.order he).1, k.limits);
          listed = ap (λ (l : List Entry). e ∷ l) k.listed;
        })

fold_branch-IsKept :
    (core : Core) (taken : Bool) (ins : Insn) (f : ℕ) (s : State)
    → IsKept core s
    → IsKept core (fold_branch core taken ins f s)
unfolding fold_branch branched folded
fold_branch-IsKept core taken ins f s k = record {
  order = k.order;
  limits = k.limits;
  listed = k.listed;
}

take_step-IsKept :
    (core : Core) (args : Args) (taken : Bool) (rest : List Retired) (ins : Insn) (f : ℕ)
    (s : State) {s' : State}
    → IsKept core s
    → take_step core args taken rest ins f s ≡ some s'
    → IsKept core s'
unfolding take_step
take_step-IsKept core args taken rest ins f s {s'} k h =
    elim (Bool-cases (same_unit ins.unit Insn.bpu)) [
      | inr other ↦ issue-IsKept core args rest ins f s k (rw other at h)
      | inl bpu ↦ elim (Bool-cases core.branch_slot) [
        | inl slot ↦ slot_branch-IsKept core taken ins f s bpu k (rw (bpu, slot) at h)
        | inr fold ↦
            let e : some (fold_branch core taken ins f s) ≡ some s' = rw (bpu, fold) at h in
            subst (λ (x : State). IsKept core x) (some-injective _ _ e)
              (fold_branch-IsKept core taken ins f s k)
      ]
    ]

step-IsKept :
    (core : Core) (args : Args) (any : Bool) (rest : List Retired) (t : Retired) (s : State)
    {s' : State}
    → IsKept core s
    → step core args any rest t s ≡ some s'
    → IsKept core s'
unfolding step
step-IsKept core args any rest t s k h =
    let ins = insn args t.pc t.word in
    >>=-elim (fetch_cycle any s ins) _ h λ f hf h1.
      take_step-IsKept core args _ rest ins f (record s { fetch_hist = (f, t.pc) ∷ s.fetch_hist })
        (record { order = k.order; limits = k.limits; listed = k.listed }) h1

run-IsKept :
    (core : Core) (args : Args) (any : Bool) (stream : List Retired) (s : State) {s' : State}
    → IsKept core s
    → run core args any stream s ≡ some s'
    → IsKept core s'
unfolding run
run-IsKept core args any [] s k h = subst (λ (x : State). IsKept core x) (some-injective _ _ h) k
run-IsKept core args any (t ∷ ts) s k h =
    >>=-elim (step core args any ts t s) _ h
      λ next e rest. run-IsKept core args any ts next (step-IsKept core args any ts t s k e) rest

rows_onto-twice : (xs ys zs : List Row) → rows_onto (rows_onto xs ys) zs ≡ rows_onto ys (xs ++ zs)
rows_onto-twice [] ys zs = refl
rows_onto-twice (x ∷ xs) ys zs = rows_onto-twice xs (x ∷ ys) zs

-- The records of a schedule are those of a state that keeps the order.
schedule-IsKept :
    (core : Core) (args : Args) (any : Bool) (stream : List Retired) (rows : List Row)
    → schedule core args any stream ≡ some rows
    → InOrder (slots (rows_onto rows [])) × WithinLimits core (slots (rows_onto rows []))
unfolding schedule
schedule-IsKept core args any stream rows h =
    >>=-elim (run core args any stream start) _ h λ s e h1.
      let k =
        run-IsKept core args any stream start (record { order = tt; limits = tt; listed = refl })
          e in
      let back : rows_onto rows [] ≡ s.out =
        subst (λ (r : List Row). rows_onto r [] ≡ s.out) (some-injective _ _ h1)
          (rows_onto-twice s.out [] [] ∙ append-nil s.out) in
      subst (λ (r : List Row). InOrder (slots r) × WithinLimits core (slots r)) (sym back)
        (subst (λ (q : List Entry). InOrder q × WithinLimits core q) (sym k.listed)
          (k.order, k.limits))

-- The instructions of a schedule are fetched before they are dispatched. They are dispatched, and they complete, in
-- the order of the stream, at most two in a cycle. Two that are dispatched in one cycle take different units and
-- neither is dispatch-serialized. An instruction that is no branch starts after its dispatch, takes its latency,
-- and completes after it has finished; the second of two that complete in one cycle stores nothing, is not
-- serialized, and with the first writes at most two general registers and one field of CR.
pub schedule-InOrder :
    (core : Core) (args : Args) (any : Bool) (stream : List Retired) (rows : List Row)
    → schedule core args any stream ≡ some rows
    → InOrder (slots (rows_onto rows []))
schedule-InOrder core args any stream rows h = (schedule-IsKept core args any stream rows h).0

-- Whenever a schedule dispatches an instruction, at most four of all the older ones still hold a completion buffer,
-- and the general registers that it and those of the older ones that have not completed before write are at most five.
pub schedule-WithinLimits :
    (core : Core) (args : Args) (any : Bool) (stream : List Retired) (rows : List Row)
    → schedule core args any stream ≡ some rows
    → WithinLimits core (slots (rows_onto rows []))
schedule-WithinLimits core args any stream rows h = (schedule-IsKept core args any stream rows h).1
