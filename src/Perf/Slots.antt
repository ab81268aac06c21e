-- ===== src/Perf/Slots.antt =====
-- `dispatch_cycle` of `schedule` of sim/tools/perf_model_603e.py: when an instruction is dispatched, and to which units.
use slo_ppc.Prelude.{
  ℕ, ◌+◌, max, Bool, true, false, not, ◌&&◌, ◌||◌, ltb, leb, List, [], ◌∷◌, length, take, Option,
  none, some, ◌==◌, if◌then◌else◌,
}
use slo_ppc.Integer.Word.{int}
use slo_ppc.Perf.Insn
use slo_ppc.Perf.Insn.{Insn, Station}
use slo_ppc.Perf.Model.{Core, Entry, same_unit, cycle_or_zero}
use slo_ppc.Perf.Search.{first_cycle, sum_of}

abbrev pub gpr_limit : ℕ
gpr_limit = 5

abbrev pub cq_limit : ℕ
cq_limit = 5

-- `prev["D"] == d`.
unfoldable pub is_pair : List Entry → ℕ → Bool
is_pair [] d = false
is_pair (q ∷ qs) d = q.dispatched == d

-- How many of the last two are dispatched at `d`.
unfoldable pub dispatched_at : List Entry → ℕ → ℕ
dispatched_at nb d = sum_of (λ q. int (q.dispatched == d)) (take 2 nb)

-- `prev["ins"].dserial`, and `prev["unit"] == u`.
unfoldable pub last_is_dserial : List Entry → Bool
last_is_dserial [] = false
last_is_dserial (q ∷ qs) = q.ins.dserial

unfoldable pub last_has_unit : List Entry → Station → Bool
unfolding same_unit
last_has_unit [] u = false
last_has_unit (q ∷ qs) u = same_unit q.unit u

-- No third dispatch in a cycle, and none beside a dispatch-serialized instruction.
unfoldable pub is_blocked : List Entry → Insn → ℕ → Bool
unfolding is_pair dispatched_at last_is_dserial
is_blocked nb ins d =
    is_pair nb d && (leb 2 (dispatched_at nb d) || (last_is_dserial nb || ins.dserial))

-- `us`.
unfoldable pub wanted_units : Core → List Entry → Insn → List Station → ℕ → List Station
unfolding is_pair last_has_unit same_unit
wanted_units core nb ins units d =
    if core.dq0_iu && same_unit ins.unit Insn.add
    then (if is_pair nb d && last_has_unit nb Insn.iu then Insn.sru ∷ [] else Insn.iu ∷ [])
    else units

-- `unit_start[u] <= d`; a unit that has not started has -1.
abbrev pub has_left : Option ℕ → ℕ → Bool
has_left none d = true
has_left (some s) d = leb s d

unfoldable pub is_free : (Station → Option ℕ) → List Entry → ℕ → Station → Bool
unfolding is_pair last_has_unit
is_free starts nb d u = has_left (starts u) d && not (is_pair nb d && last_has_unit nb u)

-- The units of a list that are free.
unfoldable pub free_units : (Station → Option ℕ) → List Entry → ℕ → List Station → List Station
unfolding is_free
free_units starts nb d [] = []
free_units starts nb d (u ∷ us) =
    let rest = free_units starts nb d us in if is_free starts nb d u then u ∷ rest else rest

-- `avail`.
unfoldable pub available :
    Core → (Station → Option ℕ) → List Entry → Insn → List Station → ℕ → List Station
unfolding wanted_units free_units
available core starts nb ins units d = free_units starts nb d (wanted_units core nb ins units d)

-- `cq_late`.
abbrev pub cq_late : Core → ℕ
cq_late core = if core.cq_same then 0 else 1

-- The completion buffers and the renames in use at `d`, among some instructions.
unfoldable pub busy_buffers : Core → ℕ → List Entry → ℕ
busy_buffers core d = sum_of (λ q. int (ltb d (q.completed + cq_late core)))

unfoldable pub busy_renames : ℕ → List Entry → ℕ
busy_renames d = sum_of (λ q. if leb d q.completed then length q.ins.dst else 0)

unfoldable pub has_units : List Station → Bool
has_units [] = false
has_units (u ∷ us) = true

-- The test that ends the loop. The loop looks at the last seven instructions only.
unfoldable pub can_dispatch :
    Core → (Station → Option ℕ) → List Entry → Insn → List Station → ℕ → Bool
unfolding is_blocked available busy_buffers busy_renames has_units
can_dispatch core starts nb ins units d =
    not (is_blocked nb ins d)
    && (has_units (available core starts nb ins units d)
        && (leb (busy_buffers core d (take (cq_limit + 2) nb) + 1) cq_limit
            && leb (busy_renames d (take (gpr_limit + 2) nb) + length ins.dst) gpr_limit))

-- A cycle that no instruction so far reaches.
unfoldable pub horizon : List Entry → ℕ
horizon [] = 0
horizon (q ∷ qs) = max (q.fetched + 1) (max (q.dispatched + 1) (max (q.completed + 1) (horizon qs)))

unfoldable pub units_horizon : (Station → Option ℕ) → List Station → ℕ
units_horizon starts [] = 0
units_horizon starts (u ∷ us) = max (cycle_or_zero (starts u)) (units_horizon starts us)

-- `dispatch_cycle(ins, d, units)`. The fuel reaches a cycle at which nothing older is in flight.
unfoldable pub dispatch_cycle :
    Core → (Station → Option ℕ) → List Entry → Insn → List Station → ℕ → Option ℕ
unfolding first_cycle can_dispatch horizon units_horizon
dispatch_cycle core starts nb ins units d =
    first_cycle (horizon nb + units_horizon starts (Insn.iu ∷ Insn.sru ∷ units) + 1)
      (can_dispatch core starts nb ins units) d
