-- ===== src/Perf/Execute.antt =====
-- The dispatch, execution and completion of an instruction that is no branch, in `schedule` of
-- sim/tools/perf_model_603e.py.
use slo_ppc.Prelude.{
  ℕ, ◌+◌, ◌-◌, max, Bool, true, false, not, ◌&&◌, ◌||◌, ltb, leb, List, [], ◌∷◌, length, take,
  Option, none, some, ◌==◌, if◌then◌else◌,
}
use slo_ppc.Perf.Insn
use slo_ppc.Perf.Insn.{Insn, Station}
use slo_ppc.Perf.Fields.{Args, rd}
use slo_ppc.Perf.Decode.{insn}
use slo_ppc.Perf.Model.{
  Core, Entry, State, Symbolic, Symbols, same_unit, assign_all, assign_unit, latest_of,
  cycle_or_zero,
}
use slo_ppc.Perf.Memory.{stores_after, written}
use slo_ppc.Perf.Search.{first_cycle}
use slo_ppc.Perf.Slots.{horizon, cq_limit}
use slo_ppc.Perf.Fetch.{iq_limit}
use slo_ppc.Perf.Branch.{has_any, last_dispatch, last_completion, completed_at, completes_beside}

-- An element of `stream`: the address, the word and the next address.
pub record Retired : Type 0 where
  pub pc : ℕ
  pub word : ℕ
  pub next_pc : ℕ

-- `max(q["C"] for q in qs)`.
unfoldable pub latest_completion : List Entry → ℕ
latest_completion [] = 0
latest_completion (q ∷ qs) = max q.completed (latest_completion qs)

abbrev pub has_last : List Entry → Bool
has_last [] = false
has_last (q ∷ qs) = true

-- `base`: the registers of the address, without the register that is stored.
unfoldable pub without : ℕ → List ℕ → List ℕ
without r [] = []
without r (g ∷ gs) = let rest = without r gs in if g == r then rest else g ∷ rest

unfoldable pub base_registers : Insn → List ℕ
unfolding without rd
base_registers ins = if ins.store then without (rd ins.word) ins.src else ins.src

-- The first cycle at which the dispatch is tried.
unfoldable pub dispatch_from : Core → State → Insn → ℕ → ℕ
unfolding last_dispatch latest_completion base_registers latest_of
dispatch_from core s ins f =
    let d = max (f + 1) (max (last_dispatch s.nb_hist) (max s.ser_until s.branch_x)) in
    let d =
      if ins.dserial && has_last s.nb_hist
      then max d (latest_completion (take cq_limit s.nb_hist) + 1)
      else d in
    let d = if core.cr_token && has_any ins.crd then max d s.cr_free else d in
    if core.lsu_base && same_unit ins.unit Insn.lsu
    then max d (latest_of s.gpr_prod (base_registers ins))
    else d

-- `units`.
unfoldable pub units_of : Args → Insn → List Station
unfolding same_unit
units_of args ins =
    if same_unit ins.unit Insn.add
    then (if args.sru_add then Insn.iu ∷ Insn.sru ∷ [] else Insn.iu ∷ [])
    else ins.unit ∷ []

-- `next_unit(idx)`, over the following elements of the stream.
unfoldable pub first_unit : Args → List Retired → Option Station
unfolding insn same_unit
first_unit args [] = none
first_unit args (t ∷ ts) =
    let u = (insn args t.pc t.word).unit in
    let later = first_unit args ts in if same_unit u Insn.bpu then later else some u

unfoldable pub next_unit : Args → List Retired → Option Station
unfolding first_unit
next_unit args rest = first_unit args (take iq_limit rest)

abbrev pub is_iu : Option Station → Bool
is_iu none = false
is_iu (some u) = same_unit u Insn.iu

-- `ready`. Where the code subtracts below 0, a maximum with another cycle follows.
unfoldable pub ready_cycle : State → Insn → ℕ → ℕ
unfolding latest_of
ready_cycle s ins wait =
    let operands = max (latest_of s.gpr_prod ins.src) (max wait (latest_of s.cr_prod ins.crs)) in
    let lr = if ins.lr_r then s.lr_ready else 0 in
    let ctr = if ins.ctr_r then s.ctr_ready else 0 in
    let cr = if has_any ins.crd then s.cr_free + 1 - ins.lat else 0 in
    max operands (max (max lr ctr) cr)

-- The start `s` on a unit.
unfoldable pub start_on : State → Insn → ℕ → ℕ → Station → ℕ
unfolding last_completion
start_on s ins d ready u =
    let begin = max (d + 1) (max ready (s.unit_free u)) in
    if ins.serial && has_last s.nb_hist then max begin (last_completion s.nb_hist + 1) else begin

-- `best`, the earliest start and the first unit that has it.
abbrev pub better : ℕ × Station → Option (ℕ × Station) → Option (ℕ × Station)
better (s, u) none = some (s, u)
better (s, u) (some (t, v)) = if ltb t s then some (t, v) else some (s, u)

unfoldable pub best_unit : State → Insn → ℕ → ℕ → List Station → Option (ℕ × Station)
unfolding start_on
best_unit s ins d ready [] = none
best_unit s ins d ready (u ∷ us) = better (start_on s ins d ready u, u) (best_unit s ins d ready us)

-- `sru_s == s`.
unfoldable pub sru_ties : State → Insn → ℕ → ℕ → ℕ → List Station → Bool
unfolding start_on same_unit
sru_ties s ins d ready best [] = false
sru_ties s ins d ready best (u ∷ us) =
    (same_unit u Insn.sru && (start_on s ins d ready u == best)) || sru_ties s ins d ready best us

-- The unit that the instruction takes, after the tie.
unfoldable pub chosen_unit :
    Args → List Retired → State → Insn → ℕ → ℕ → ℕ → Station → List Station → Station
unfolding sru_ties next_unit same_unit
chosen_unit args rest s ins d ready best u avail =
    if same_unit u Insn.iu && (sru_ties s ins d ready best avail && is_iu (next_unit args rest))
    then Insn.sru
    else u

-- The pairs that may complete in one cycle.
unfoldable pub pairs_with : Insn → List Entry → Bool
unfolding same_unit
pairs_with ins [] = true
pairs_with ins (q ∷ qs) =
    not (ins.store || (ins.serial || same_unit ins.unit Insn.fpu))
    && (leb (length ins.dst + length q.ins.dst) 2 && leb (length ins.crd + length q.ins.crd) 1)

unfoldable pub can_complete : List Entry → Insn → ℕ → Bool
unfolding completes_beside completed_at pairs_with
can_complete nb ins c =
    not (completes_beside nb c) || (not (leb 2 (completed_at nb c)) && pairs_with ins nb)

-- The completion cycle of an instruction that finishes at `fin`.
unfoldable pub completion_cycle : Core → State → Insn → ℕ → Option ℕ
unfolding first_cycle can_complete horizon last_completion
completion_cycle core s ins fin =
    let late = if core.late_retire then 2 else 1 in
    first_cycle (horizon s.nb_hist + 1) (can_complete s.nb_hist ins)
      (max (fin + late) (max (last_completion s.nb_hist) (cycle_or_zero s.pending_pred)))

-- When an instruction's CR fields are there.
unfoldable pub cr_at : Insn → ℕ → ℕ → ℕ
cr_at ins fin c = if ins.cr_fast then fin + 1 else if ins.serial then c + 1 else c

-- The state after the instruction of an entry, which accesses `ea`.
unfoldable pub executed : Entry → Option Symbolic → Symbols → State → State
unfolding assign_all assign_unit cr_at stores_after written
executed e ea named s =
    let ins = e.ins in
    let fin = e.finished in
    let c = e.completed in
    let occupied =
      if same_unit e.unit Insn.lsu || same_unit e.unit Insn.fpu then e.started + 1 else fin + 1 in
    record s {
      redirect = 0;
      unit_start = assign_unit e.unit (some e.started) s.unit_start;
      unit_free = assign_unit e.unit occupied s.unit_free;
      stores = stores_after ins ea c s.stores;
      symbols = written ins.dst ins ea named;
      gpr_prod = assign_all ins.dst (if ins.serial then c + 1 else fin + 1) s.gpr_prod;
      cr_prod = assign_all ins.crd (cr_at ins fin c) s.cr_prod;
      lr_ready = if ins.lr_w then fin + 1 else s.lr_ready;
      ctr_ready = if ins.ctr_w then fin + 1 else s.ctr_ready;
      ser_until = if ins.dserial then c + 1 else s.ser_until;
      cr_free = if has_any ins.crd then c + 1 else s.cr_free;
      nb_hist = e ∷ s.nb_hist;
      out =
          record {
            pc = ins.pc;
            ins = ins;
            fetched = e.fetched;
            branch = none;
            slot = some e;
            completed = c;
          }
          ∷ s.out;
    }
