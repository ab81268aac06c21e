-- ===== src/Perf/Branch.antt =====
-- The branches of `schedule` of sim/tools/perf_model_603e.py, and the static prediction.
use slo_ppc.Prelude.{
  ℕ, ◌+◌, max, Bool, true, false, not, ◌&&◌, ltb, leb, bit_and, List, [], ◌∷◌, take, Option, none,
  some, ◌==◌, if◌then◌else◌,
}
use slo_ppc.Prelude.Int.{pos, ltb_ℤ}
use slo_ppc.Integer.Word.{truthy, int}
use slo_ppc.Perf.Insn
use slo_ppc.Perf.Insn.{Insn, Kind, Station}
use slo_ppc.Perf.Model.{Core, Entry, Resolution, Row, State, latest_of, cycle_or_zero, is_after}
use slo_ppc.Perf.Search.{sum_of}
use slo_ppc.Perf.Slots.{dispatch_cycle}

abbrev pub is_bc : Kind → Bool
is_bc Insn.bc = true
is_bc _ = false

-- `a != b`.
abbrev pub differ : Bool → Bool → Bool
differ a b = if a then not b else b

-- `predict_taken(ins)`.
unfoldable pub predict_taken : Insn → Bool
predict_taken ins =
    let backward = is_bc ins.kind && ltb_ℤ ins.disp (pos 0) in
    if bit_and ins.bo 0x14 == 0x14 then true else differ backward (truthy (bit_and ins.bo 1))

-- `prev["D"] if prev else 0`, and `prev["C"] if prev else 0`.
unfoldable pub last_dispatch : List Entry → ℕ
last_dispatch [] = 0
last_dispatch (q ∷ qs) = q.dispatched

unfoldable pub last_completion : List Entry → ℕ
last_completion [] = 0
last_completion (q ∷ qs) = q.completed

-- How many of the last two complete at `c`.
unfoldable pub completed_at : List Entry → ℕ → ℕ
completed_at nb c = sum_of (λ q. int (q.completed == c)) (take 2 nb)

-- `prev["C"] == c`.
unfoldable pub completes_beside : List Entry → ℕ → Bool
completes_beside [] c = false
completes_beside (q ∷ qs) c = q.completed == c

-- The test that ends the completion loop of a branch with a slot.
unfoldable pub can_complete_branch : List Entry → ℕ → Bool
unfolding completes_beside completed_at
can_complete_branch nb c = not (completes_beside nb c && leb 2 (completed_at nb c))

-- `d`, with `branch-slot`.
unfoldable pub branch_dispatch : Core → State → Insn → ℕ → Option ℕ
unfolding dispatch_cycle last_dispatch
branch_dispatch core s ins f =
    dispatch_cycle core s.unit_start s.nb_hist ins (Insn.bpu ∷ [])
      (max (f + 1) (max (last_dispatch s.nb_hist) s.ser_until))

-- The wait for LR and CTR.
unfoldable pub needed : State → Insn → ℕ → ℕ
needed s ins x =
    max x (max (if ins.lr_r then s.lr_ready else 0) (if ins.ctr_r then s.ctr_ready else 0))

abbrev pub has_any : List ℕ → Bool
has_any [] = false
has_any (x ∷ xs) = true

-- X and R, from the cycle at which the registers are there.
unfoldable pub resolution : State → Insn → ℕ → ℕ × ℕ
unfolding latest_of
resolution s ins x0 =
    let reads = has_any ins.crs in
    let x = if reads && is_after s.pending_pred x0 then cycle_or_zero s.pending_pred else x0 in
    let cr_avail = latest_of s.cr_prod ins.crs in
    (x, if reads && ltb x cr_avail then cr_avail else x0)

-- The `redirect` of a branch.
unfoldable pub redirected : Core → Bool → Insn → ℕ → ℕ → ℕ
unfolding predict_taken
redirected core taken ins x resolve =
    if ltb x resolve && differ (predict_taken ins) taken
    then resolve + 1 + (if core.miss_late then 2 else 0)
    else if taken
    then x + 1
    else 0

-- The state after a branch that is fetched at `f`, would execute at `x0`, executes at `x` and resolves at `resolve`,
-- without its record.
unfoldable pub branched : Core → Bool → Insn → ℕ → ℕ → ℕ → ℕ → State → State
unfolding redirected
branched core taken ins f x0 x resolve s = record s {
  last_x = some x;
  branch_x = x;
  stop_f = if ltb x0 x then some f else s.stop_f;
  stop_until = if ltb x0 x then x + 1 else s.stop_until;
  pending_pred = if ltb x resolve then some resolve else s.pending_pred;
  redirect = redirected core taken ins x resolve;
  lr_ready = if ins.lr_w then x + 1 else s.lr_ready;
  ctr_ready = if ins.ctr_w then resolve + 1 else s.ctr_ready;
}

-- `out[-1]["C"] if out else 0`.
unfoldable pub last_row : List Row → ℕ
last_row [] = 0
last_row (r ∷ rs) = r.completed

-- The `R` and `X` of the record. `mispredict` is there if the branch is predicted.
unfoldable pub resolution_of : Bool → Insn → ℕ → ℕ → Resolution
unfolding predict_taken
resolution_of taken ins x resolve = record {
  executed = x;
  resolved = resolve;
  mispredict = if ltb x resolve then some (differ (predict_taken ins) taken) else none;
}

-- The record of a branch without a slot.
unfoldable pub folded : Insn → ℕ → Resolution → State → State
unfolding last_row
folded ins f how s = record s {
  out =
      record {
        pc = ins.pc;
        ins = ins;
        fetched = f;
        branch = some how;
        slot = none;
        completed = last_row s.out;
      }
      ∷ s.out;
}

-- The record of a branch that is dispatched at `d`.
abbrev pub branch_entry : Insn → ℕ → ℕ → Resolution → ℕ → Entry
branch_entry ins f d how c = record {
  ins = ins;
  fetched = f;
  dispatched = d;
  started = how.executed;
  finished = how.executed;
  completed = c;
  unit = Insn.bpu;
}

unfoldable pub slotted : Insn → ℕ → ℕ → Resolution → ℕ → State → State
slotted ins f d how c s =
    let entry = branch_entry ins f d how c in
    record s {
      nb_hist = entry ∷ s.nb_hist;
      out =
          record {
            pc = ins.pc;
            ins = ins;
            fetched = f;
            branch = some how;
            slot = some entry;
            completed = c;
          }
          ∷ s.out;
    }
