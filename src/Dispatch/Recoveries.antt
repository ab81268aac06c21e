-- ===== src/Dispatch/Recoveries.antt =====
-- `wrong_path` and `mispredict_floor` of `Rules` of sim/tools/check_dispatch_trace.py.
use slo_ppc.Prelude.{
  ℕ, ◌+◌, ◌/◌, ◌^◌, max, bit_and, Bool, true, false, not, ◌&&◌, ◌||◌, List, [], ◌∷◌, Option, none,
  some, ok, ◌>>◌, leb, ltb, ◌==◌, if◌then◌else◌,
}
use slo_ppc.Dispatch.Classify.{InsnClass}
use slo_ppc.Dispatch.Operands.{cr_field, has_branch}
use slo_ppc.Dispatch.Rules.{Checked, Dispatched, Rules, Setup, Stop, demand, when_known}
use slo_ppc.Dispatch.Stops.{branch_order}

-- `next((e for e in self.stream if e[0] == branch), None)`. No two elements have one order.
unfoldable pub find_order : ℕ → List Dispatched → Option Dispatched
find_order order [] = none
find_order order (d ∷ ds) =
    let rest = find_order order ds in if d.order == order then some d else rest

abbrev pub same_field : ℕ → Option ℕ → Bool
same_field field none = false
same_field field (some n) = n == field

-- `older[-1]`, the youngest older writer of a field.
unfoldable pub field_writer : Setup → ℕ → ℕ → List Dispatched → Option Dispatched
unfolding cr_field
field_writer setup branch field [] = none
field_writer setup branch field (d ∷ ds) =
    let rest = field_writer setup branch field ds in
    if ltb d.order branch && (not d.gone && same_field field (cr_field (setup.words d.pc)))
    then some d
    else rest

abbrev pub tests_cr : InsnClass → Bool
tests_cr c = has_branch c && c.cr_test

-- The field of CR that a branch word tests.
unfoldable pub tested_field : Option ℕ → ℕ
tested_field none = 0
tested_field (some word) = bit_and (word / 2 ^ 18) 7

-- The `redirect` of a recovery.
unfoldable pub floor_of : Setup → ℕ → ℕ → Rules → Option (ℕ × ℕ)
unfolding find_order field_writer tested_field
floor_of setup cycle branch s = elim (find_order branch s.stream) [
  | none ↦ some (cycle + 1, 0)
  | some e ↦
      if when_known tests_cr e.class
      then elim (field_writer setup branch (tested_field (setup.words e.pc)) s.stream) [
        | none ↦ s.redirect
        | some w ↦ some (max (cycle + 1) (w.cycle + 4), e.pc)
      ]
      else some (cycle + 1, e.pc)
]

unfoldable pub older_stops : ℕ → List Stop → List Stop
older_stops branch [] = []
older_stops branch (t ∷ ts) =
    let rest = older_stops branch ts in if leb t.order branch then t ∷ rest else rest

-- A branch on CR alone.
abbrev pub waits_cr : InsnClass → Bool
waits_cr c = has_branch c && (c.cr_test && not c.ctr_test)

-- The wrong path, newest first: its branches on CR, which must be the last element and not removed.
unfoldable pub path_branches : ℕ → List Dispatched → ℕ
path_branches branch [] = 0
path_branches branch (d ∷ ds) =
    let rest = path_branches branch ds in
    if ltb branch d.order && when_known waits_cr d.class then rest + 1 else rest

unfoldable pub path_kept : ℕ → Bool → List Dispatched → Bool
path_kept branch is_last [] = true
path_kept branch is_last (d ∷ ds) =
    let rest = path_kept branch false ds in
    (not (ltb branch d.order && when_known waits_cr d.class) || (not d.gone && is_last)) && rest

-- The tests and the state of a recovery of a branch.
unfoldable pub recovered : Setup → ℕ → Option ℕ → Rules → Checked Rules
unfolding floor_of older_stops path_branches path_kept
recovered setup cycle none s = ok s
recovered setup cycle (some branch) s = do
  demand (path_kept branch true s.stream)
  ok (record s {
    redirect = floor_of setup cycle branch s;
    stops = older_stops branch s.stops;
    stats = record (s.stats) {
      wrong_path_branches = s.stats.wrong_path_branches + path_branches branch s.stream;
    };
  })

-- `wrong_path(cycle, mispredict, after)`.
unfoldable pub wrong_path : Setup → ℕ → ℕ → Option ℕ → Rules → Checked Rules
unfolding branch_order recovered
wrong_path setup cycle mispredict after s =
    recovered setup cycle (branch_order mispredict after s.stream) s
