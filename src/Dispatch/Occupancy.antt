-- ===== src/Dispatch/Occupancy.antt =====
-- `Rules.occupancy` of sim/tools/check_dispatch_trace.py: the completion queue and the renames after an event.
use slo_ppc.Prelude.{
  ℕ, ◌+◌, Bool, true, false, max, List, [], ◌∷◌, length, Option, none, some, Result, ok, ◌>>◌,
  require, leb, ◌&&◌,
}
use slo_ppc.Dispatch.Classify.{InsnClass, Writes}

-- The `ValueError` of `require`.
pub data RuleError : Type 0 where
  broken_rule : RuleError

abbrev pub cq_depth : ℕ
cq_depth = 5

abbrev pub gpr_renames : ℕ
gpr_renames = 5

abbrev pub fpr_renames : ℕ
fpr_renames = 4

-- The class of an entry in flight, and whether a recovery has removed it.
pub record InFlight : Type 0 where
  pub class : Option InsnClass
  pub flushed : Bool

-- `live`.
unfoldable pub live_classes : List InFlight → List (Option InsnClass)
live_classes [] = []
live_classes (e ∷ es) =
    let rest = live_classes es in elim e.flushed [ true ↦ rest | false ↦ e.class ∷ rest ]

-- The destinations of one kind.
unfoldable pub destinations : (Writes → ℕ) → List (Option InsnClass) → ℕ
destinations kind [] = 0
destinations kind (none ∷ cs) = destinations kind cs
destinations kind (some c ∷ cs) = kind c.writes + destinations kind cs

-- The two statistics that it keeps. A broken rule ends the check, so that they are not read after one.
pub record Peaks : Type 0 where
  pub cq_max : ℕ
  pub gpr_max : ℕ

unfoldable pub occupancy : List InFlight → Peaks → Result RuleError Peaks
unfolding live_classes destinations
occupancy inflight st =
    let live = live_classes inflight in
    let gpr = destinations (λ w. w.gpr) live in
    let fpr = destinations (λ w. w.fpr) live in
    do
      require (leb (length live) cq_depth) broken_rule
      require (leb gpr gpr_renames && leb fpr fpr_renames) broken_rule
      ok (record { cq_max = max st.cq_max (length live); gpr_max = max st.gpr_max gpr })
