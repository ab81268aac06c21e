-- ===== src/Perf/Order.antt =====
-- What a schedule of sim/tools/perf_model_603e.py keeps to: the order of its instructions, and the pairs of a cycle.
use slo_ppc.Prelude.{◌⊎◌, true, ℕ, ◌+◌, ◌≤◌, ◌<◌, ◌≡◌, false, List, [], ◌∷◌, length, none, some}
use slo_ppc.Perf.Insn
use slo_ppc.Perf.Insn.{Insn}
use slo_ppc.Perf.Model.{Core, State, Entry, Row, same_unit}
use slo_ppc.Perf.Slots.{busy_buffers, busy_renames, cq_limit, gpr_limit}

-- A cycle after the instructions of a list, newest first: not before the last, and after the last but one.
abbrev pub Spaced : (Entry → ℕ) → ℕ → List Entry → Type 0
Spaced key c [] = Unit {0}
Spaced key c (p ∷ []) = key p ≤ c
Spaced key c (p ∷ q ∷ older) = (key p ≤ c) × (key q < c)

-- The stages of an instruction that is no branch.
abbrev pub InStages : Entry → Type 0
InStages e =
    (e.dispatched < e.started)
    × (e.started + e.ins.lat ≡ e.finished + 1)
    × (e.finished < e.completed)

-- Two that are dispatched in one cycle are not dispatch-serialized, and take two units.
abbrev pub SharesDispatch : Entry → List Entry → Type 0
SharesDispatch e [] = Unit {0}
SharesDispatch e (p ∷ older) =
    (p.dispatched < e.dispatched)
    ⊎ ((p.ins.dserial ≡ false) × (e.ins.dserial ≡ false) × (same_unit p.unit e.unit ≡ false))

-- The second of two that complete in one cycle stores nothing and is not serialized, and they write two general
-- registers and one field of CR at most.
abbrev pub SharesCompletion : Entry → List Entry → Type 0
SharesCompletion e [] = Unit {0}
SharesCompletion e (p ∷ older) =
    (p.completed < e.completed)
    ⊎ ((e.ins.store ≡ false)
        × (e.ins.serial ≡ false)
        × (length e.ins.dst + length p.ins.dst ≤ 2)
        × (length e.ins.crd + length p.ins.crd ≤ 1))

-- How an instruction follows the older ones.
pub record Follows (e : Entry) (older : List Entry) : Type 0 where
  pub fetched_first : e.fetched < e.dispatched
  pub dispatch_order : Spaced (λ q. q.dispatched) e.dispatched older
  pub completion_order : Spaced (λ q. q.completed) e.completed older
  pub dispatch_pair : SharesDispatch e older
  pub stages : (same_unit e.ins.unit Insn.bpu ≡ true) ⊎ (InStages e × SharesCompletion e older)

abbrev pub InOrder : List Entry → Type 0
InOrder [] = Unit {0}
InOrder (e ∷ older) = Follows e older × InOrder older

-- The instructions of rows that dispatch.
abbrev pub slots : List Row → List Entry
slots [] = []
slots (r ∷ rs) = elim r.slot [ none ↦ slots rs | some e ↦ e ∷ slots rs ]

-- An instruction finds a completion buffer and renames beside all the older instructions, five of each in all.
pub record Fits (core : Core) (e : Entry) (older : List Entry) : Type 0 where
  pub buffers : busy_buffers core e.dispatched older + 1 ≤ cq_limit
  pub renames : busy_renames e.dispatched older + length e.ins.dst ≤ gpr_limit

abbrev pub WithinLimits : Core → List Entry → Type 0
WithinLimits core [] = Unit {0}
WithinLimits core (e ∷ older) = Fits core e older × WithinLimits core older

-- The instructions so far are in order, find resources, and are those of the records.
pub record IsKept (core : Core) (s : State) : Type 0 where
  pub order : InOrder s.nb_hist
  pub limits : WithinLimits core s.nb_hist
  pub listed : slots s.out ≡ s.nb_hist
