-- ===== src/Dispatch/Pairs.antt =====
-- The rules of `Rules.event` of sim/tools/check_dispatch_trace.py on the classes of a pair and of a removed branch.
use slo_ppc.Prelude.{
  ◌+◌, Bool, true, false, not, ◌&&◌, ◌||◌, List, [], ◌∷◌, Option, none, some, leb,
}
use slo_ppc.Integer.Word.{truthy}
use slo_ppc.Dispatch.Classify.{ExecutionUnit, iu, sru, lsu, fpu, bpu, BranchKind, bc, InsnClass}
use slo_ppc.Dispatch.Operands.{is_b}
use slo_ppc.Dispatch.Stops.{writes_lr}

-- The limits on the writebacks of a pair.
unfoldable pub pair_written : List (Option InsnClass) → Bool
pair_written (some a ∷ some b ∷ []) =
    leb (a.writes.gpr + b.writes.gpr) 2
    && (leb (a.writes.cr + b.writes.cr) 1
        && (leb (a.writes.fpr + b.writes.fpr) 1
            && (leb (a.writes.lr + b.writes.lr) 1 && leb (a.writes.ctr + b.writes.ctr) 1)))
pair_written _ = true

abbrev pub same_unit : ExecutionUnit → ExecutionUnit → Bool
same_unit iu iu = true
same_unit sru sru = true
same_unit lsu lsu = true
same_unit fpu fpu = true
same_unit bpu bpu = true
same_unit _ _ = false

abbrev pub has_unit : ExecutionUnit → List ExecutionUnit → Bool
has_unit u [] = false
has_unit u (v ∷ vs) = same_unit u v || has_unit u vs

-- `any(x != y for x in us for y in vs)`.
unfoldable pub differs_from : ExecutionUnit → List ExecutionUnit → Bool
differs_from u [] = false
differs_from u (v ∷ vs) = not (same_unit u v) || differs_from u vs

unfoldable pub two_units : List ExecutionUnit → List ExecutionUnit → Bool
unfolding differs_from
two_units [] vs = false
two_units (u ∷ us) vs = differs_from u vs || two_units us vs

-- The rules of a dispatched pair.
unfoldable pub pair_dispatched : List (Option InsnClass) → Bool
unfolding two_units
pair_dispatched (some a ∷ some b ∷ []) =
    not a.dser
    && (not b.dser && ((has_unit bpu a.units || has_unit bpu b.units) || two_units a.units b.units))
pair_dispatched _ = true

-- A pair of which one instruction may go to the SRU.
abbrev pub adds : List ExecutionUnit → Bool
adds us = has_unit iu us && has_unit sru us

abbrev pub only_iu : List ExecutionUnit → Bool
only_iu us = has_unit iu us && not (has_unit sru us)

unfoldable pub sru_pair : List (Option InsnClass) → Bool
sru_pair (some a ∷ some b ∷ []) =
    (only_iu a.units && adds b.units)
    || ((only_iu b.units && adds a.units) || (adds a.units && adds b.units))
sru_pair _ = false

abbrev pub is_bc : Option BranchKind → Bool
is_bc (some bc) = true
is_bc _ = false

abbrev pub only_bpu : List ExecutionUnit → Bool
only_bpu (bpu ∷ []) = true
only_bpu _ = false

-- What may be removed at dispatch.
unfoldable pub may_remove : Option InsnClass → Bool
may_remove none = true
may_remove (some c) =
    only_bpu c.units
    && ((not (truthy c.writes.ctr) || (is_bc c.branch && not (writes_lr c)))
        && (not (writes_lr c) || is_b c))
