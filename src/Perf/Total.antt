-- ===== src/Perf/Total.antt =====
-- `schedule` of sim/tools/perf_model_603e.py returns, for streams whose instructions write few registers.
use slo_ppc.Prelude.{
  ℕ, ◌+◌, ◌-◌, ◌≤◌, ◌≡◌, max, refl, arith, Bool, true, false, List, [], ◌∷◌, length, Option, none,
  some, ltb, Bool-cases, inl, inr, if◌then◌else◌,
}
use slo_ppc.Perf.Insn
use slo_ppc.Perf.Insn.{Insn, Station}
use slo_ppc.Dispatch.Classify.{opcode}
use slo_ppc.Perf.Fields.{Args, rd}
use slo_ppc.Perf.Decode.{insn}
use slo_ppc.Perf.Model.{Core, State, Entry, Row, same_unit, start, cycle_or_zero, next_cycle}
use slo_ppc.Perf.Memory.{track}
use slo_ppc.Perf.Search.{first_cycle, first_cycle_within}
use slo_ppc.Perf.Slots.{available, dispatch_cycle, horizon, has_units}
use slo_ppc.Perf.Fetch.{fetch_cycle}
use slo_ppc.Perf.Branch.{
  completes_beside, can_complete_branch, last_completion, last_dispatch, branch_dispatch,
  resolution, needed,
}
use slo_ppc.Perf.Execute.{
  Retired, better, best_unit, can_complete, completion_cycle, dispatch_from, ready_cycle, units_of,
}
use slo_ppc.Perf.Schedule.{slot_branch, issued, issue, take_step, step, run, schedule}
use slo_ppc.Perf.Progress.{dispatch_cycle_ends}
use slo_ppc.Perf.Words.{lmw_results, few-cases}
use slo_ppc.Perf.Keeping.{dispatch_cycle-IsFirst, can_dispatch-has_units}
use slo_ppc.Perf.Fetching.{Returns, >>=-Returns, fetch_cycle-Returns}

completes_beside-horizon :
    (nb : List Entry) (c : ℕ) → horizon nb ≤ c → completes_beside nb c ≡ false
unfolding completes_beside horizon
completes_beside-horizon [] c h = refl
completes_beside-horizon (q ∷ qs) c h = ground arith

completion_cycle-Returns :
    (core : Core) (s : State) (ins : Insn) (fin : ℕ) → Returns (completion_cycle core s ins fin)
unfolding completion_cycle can_complete
completion_cycle-Returns core s ins fin =
    let from =
      max (fin + (if core.late_retire then 2 else 1))
        (max (last_completion s.nb_hist) (cycle_or_zero s.pending_pred)) in
    first_cycle_within (horizon s.nb_hist) (can_complete s.nb_hist ins) from
      (rw (completes_beside-horizon s.nb_hist (from + horizon s.nb_hist) (omega arith)) refl)

best_unit-Returns :
    (s : State) (ins : Insn) (d ready : ℕ) (us : List Station)
    → has_units us ≡ true
    → Returns (best_unit s ins d ready us)
unfolding best_unit has_units
best_unit-Returns s ins d ready [] h = absurd (ground arith)
best_unit-Returns s ins d ready (u ∷ us) h = better-Returns _ (best_unit s ins d ready us)
  where
    better-Returns : (x : ℕ × Station) (o : Option (ℕ × Station)) → Returns (better x o)
    better-Returns x none = (x, refl)
    better-Returns x (some y) = elim (Bool-cases (ltb y.0 x.0)) [
      | inl t ↦ (y, ground arith)
      | inr f ↦ (x, ground arith)
    ]

dispatch_cycle-Returns :
    (core : Core) (s : State) (ins : Insn) (units : List Station) (d : ℕ)
    → has_units units ≡ true
    → length ins.dst ≤ 5
    → Returns (dispatch_cycle core s.unit_start s.nb_hist ins units d)
unfolding has_units
dispatch_cycle-Returns core s ins [] d h few = absurd (ground arith)
dispatch_cycle-Returns core s ins (u ∷ us) d h few =
    elim (dispatch_cycle_ends core s.unit_start s.nb_hist ins u us d) [
      | inl found ↦ found.1
      | inr never ↦ absurd (omega (arith, never.0))
    ]

units_of-has_units : (args : Args) (ins : Insn) → has_units (units_of args ins) ≡ true
unfolding units_of has_units
units_of-has_units args ins = ground arith

issued-Returns :
    (core : Core) (args : Args) (rest : List Retired) (ins : Insn) (f wait : ℕ) (s : State)
    → length ins.dst ≤ 5
    → Returns (issued core args rest ins f wait s)
unfolding issued
issued-Returns core args rest ins f wait s few =
    let units = units_of args ins in
    let ready = ready_cycle s ins wait in
    let from = dispatch_from core s ins f in
    >>=-Returns (dispatch_cycle core s.unit_start s.nb_hist ins units from) _
      (dispatch_cycle-Returns core s ins units from (units_of-has_units args ins) few)
      λ d hd.
        let test = dispatch_cycle-IsFirst core s.unit_start s.nb_hist ins units from hd in
        let avail = available core s.unit_start s.nb_hist ins units d in
        >>=-Returns (best_unit s ins d ready avail) _
          (best_unit-Returns s ins d ready avail
            (can_dispatch-has_units core s.unit_start s.nb_hist ins units d test.holds))
          λ b hb.
            >>=-Returns (completion_cycle core s ins (b.0 + ins.lat - 1)) _
              (completion_cycle-Returns core s ins (b.0 + ins.lat - 1)) λ c hc. (_, refl)

issue-Returns :
    (core : Core) (args : Args) (rest : List Retired) (ins : Insn) (f : ℕ) (s : State)
    → length ins.dst ≤ 5
    → Returns (issue core args rest ins f s)
unfolding issue
issue-Returns core args rest ins f s few =
    let (ea, wait, named) = track ins s.stores s.symbols in
    >>=-Returns (issued core args rest ins f wait s) _
      (issued-Returns core args rest ins f wait s few) λ e he. (_, refl)

slot_branch-Returns :
    (core : Core) (taken : Bool) (ins : Insn) (f : ℕ) (s : State)
    → length ins.dst ≤ 5
    → Returns (slot_branch core taken ins f s)
unfolding slot_branch branch_dispatch can_complete_branch has_units
slot_branch-Returns core taken ins f s few =
    let x0 = max (f + 1) (next_cycle s.last_x) in
    let from = max (f + 1) (max (last_dispatch s.nb_hist) s.ser_until) in
    >>=-Returns (branch_dispatch core s ins f) _
      (dispatch_cycle-Returns core s ins (Insn.bpu ∷ []) from refl few)
      λ d hd.
        let how = resolution s ins (needed s ins (max x0 d)) in
        let from_c = max how.1 (last_completion s.nb_hist) in
        let alone = completes_beside-horizon s.nb_hist (from_c + horizon s.nb_hist) (omega arith) in
        >>=-Returns (first_cycle (horizon s.nb_hist + 1) (can_complete_branch s.nb_hist) from_c) _
          (first_cycle_within (horizon s.nb_hist) (can_complete_branch s.nb_hist) from_c
            (rw alone refl))
          λ c hc. (_, refl)

take_step-Returns :
    (core : Core) (args : Args) (taken : Bool) (rest : List Retired) (ins : Insn) (f : ℕ)
    (s : State)
    → length ins.dst ≤ 5
    → Returns (take_step core args taken rest ins f s)
unfolding take_step
take_step-Returns core args taken rest ins f s few =
    elim (Bool-cases (same_unit ins.unit Insn.bpu)) [
      | inr other ↦ rw other (issue-Returns core args rest ins f s few)
      | inl bpu ↦ rw bpu (elim (Bool-cases core.branch_slot) [
        | inl slot ↦ rw slot (slot_branch-Returns core taken ins f s few)
        | inr fold ↦ rw fold (_, refl)
      ])
    ]

step-Returns :
    (core : Core) (args : Args) (any : Bool) (rest : List Retired) (t : Retired) (s : State)
    → length (insn args t.pc t.word).dst ≤ 5
    → Returns (step core args any rest t s)
unfolding step
step-Returns core args any rest t s few =
    let ins = insn args t.pc t.word in
    >>=-Returns (fetch_cycle any s ins) _ (fetch_cycle-Returns any s ins) λ f hf.
      take_step-Returns core args _ rest ins f (record s { fetch_hist = (f, t.pc) ∷ s.fetch_hist })
        few

-- No lmw loads more than five registers.
abbrev pub LoadsFew : List Retired → Type 0
LoadsFew [] = Unit {0}
LoadsFew (t ∷ ts) = (opcode t.word ≡ 46 → 27 ≤ rd t.word) × LoadsFew ts

few_results :
    (args : Args) (pc word : ℕ)
    → (opcode word ≡ 46 → 27 ≤ rd word)
    → length (insn args pc word).dst ≤ 5
few_results args pc word h = elim (few-cases args pc word) [
  | inl e ↦ let n = lmw_results args pc word e in let k = h e in omega arith
  | inr le ↦ omega arith
]

run-Returns :
    (core : Core) (args : Args) (any : Bool) (stream : List Retired) (s : State)
    → LoadsFew stream
    → Returns (run core args any stream s)
unfolding run
run-Returns core args any [] s few = (s, refl)
run-Returns core args any (t ∷ ts) s few =
    >>=-Returns (step core args any ts t s) _
      (step-Returns core args any ts t s (few_results args t.pc t.word few.0))
      λ next e. run-Returns core args any ts next few.1

-- A stream whose lmw instructions load at most five registers each is scheduled: every loop ends, whatever the rules
-- and the options.
pub schedule_returns :
    (core : Core) (args : Args) (any : Bool) (stream : List Retired)
    → LoadsFew stream
    → (rows : List Row) × (schedule core args any stream ≡ some rows)
unfolding schedule
schedule_returns core args any stream few =
    >>=-Returns (run core args any stream start) _ (run-Returns core args any stream start few)
      λ s e. (_, refl)
