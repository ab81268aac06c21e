-- ===== src/Examples/Rules.antt =====
-- The theorems on the rules of traces at a short trace.
use slo_ppc.Prelude.{
  ℕ, ◌+◌, length, ◌≡◌, ◌⊎◌, refl, arith, false, List, [], ◌∷◌, ◌++◌, Option, none, some, ok, raise,
  ◌==◌, if◌then◌else◌,
}
use slo_ppc.Dispatch.Classify.{is_in, classify}
use slo_ppc.Dispatch.Occupancy.{broken_rule, occupancy}
use slo_ppc.Dispatch.Operands.{gpr_reads}
use slo_ppc.Dispatch.Rules.{Checked, Rules, Setup, initial_rules}
use slo_ppc.Dispatch.Retire.{retire_all, retire_one}
use slo_ppc.Dispatch.Event.{Event, event, check_events, begun}
use slo_ppc.Dispatch.Retirements.{Continued}
use slo_ppc.Dispatch.Oldest.{RetiresOldest, retire_one_oldest}
use slo_ppc.Dispatch.Accounts.{dispatched_by}
use slo_ppc.Dispatch.Limits.{WithinLimits, check_events-WithinLimits}
use slo_ppc.Dispatch.Alone.{NoSerial, event_alone}

-- li r3,1; isync; li r4,1.
abbrev short_words : ℕ → Option ℕ
short_words pc =
    if pc == 0x100
    then some 0x3860_0001
    else if pc == 0x104
    then some 0x4C00_012C
    else if pc == 0x108
    then some 0x3880_0001
    else none

abbrev short_setup : Setup
short_setup = record { width = 2; words = short_words; sru = false; flush = false }

abbrev at_cycle : ℕ → List ℕ → List ℕ → Event
at_cycle cycle dispatched retired = record {
  cycle = cycle;
  dispatched = dispatched;
  retired = retired;
  mispredict = none;
  removed = [];
  after = none;
}

abbrev short_trace : List Event
short_trace =
    at_cycle 1 (0x100 ∷ []) []
    ∷ at_cycle 3 [] (0x100 ∷ [])
    ∷ at_cycle 4 (0x104 ∷ []) []
    ∷ at_cycle 6 [] (0x104 ∷ [])
    ∷ []

abbrev rules_of : Checked Rules → Rules
rules_of (ok s) = s
rules_of (raise e) = initial_rules

abbrev short_rules : Rules
unfolding check_events is_in classify occupancy gpr_reads
short_rules = rules_of (check_events short_setup none short_trace initial_rules)

short_trace_accepted : check_events short_setup none short_trace initial_rules ≡ ok short_rules
unfolding check_events is_in classify occupancy gpr_reads
short_trace_accepted = refl

-- An event that dispatches in the cycle of the isync is refused.
early_dispatch :
    check_events short_setup none
      (at_cycle 4 (0x104 ∷ []) [] ∷ at_cycle 5 (0x108 ∷ []) [] ∷ [])
      initial_rules
    ≡ raise broken_rule
unfolding check_events is_in classify occupancy gpr_reads
early_dispatch = refl

abbrev last_event : Event
last_event = at_cycle 7 (0x108 ∷ []) []

abbrev last_rules : Rules
unfolding event is_in classify occupancy gpr_reads
last_rules = rules_of (event short_setup last_event short_rules)

last_event_accepted : event short_setup last_event short_rules ≡ ok last_rules
unfolding event is_in short_rules classify occupancy gpr_reads
last_event_accepted = refl

-- The trace with this event, after which an instruction is in the queue.
abbrev longer_trace : List Event
longer_trace = short_trace ++ last_event ∷ []

longer_trace_accepted : check_events short_setup none longer_trace initial_rules ≡ ok last_rules
unfolding check_events short_rules last_rules is_in classify occupancy gpr_reads
longer_trace_accepted = refl

check_events-WithinLimits_example :
    (dispatched_by longer_trace
      ≡ last_rules.stats.removals
        + (last_rules.stats.retirements + last_rules.stats.flushes)
        + length last_rules.inflight)
    × (last_rules.stats.dispatches ≡ dispatched_by longer_trace)
    × WithinLimits short_setup last_rules.inflight
check_events-WithinLimits_example =
    check_events-WithinLimits short_setup longer_trace last_rules longer_trace_accepted

event_alone_example :
    (r : Rules) × (retire_all short_setup 7 0 [] (begun last_event short_rules) ≡ ok r)
    × NoSerial r.inflight
event_alone_example =
    event_alone short_setup short_trace last_event short_rules last_rules short_trace_accepted
      last_event_accepted (omega arith)

abbrev first_rules : Rules
unfolding event is_in classify occupancy gpr_reads
first_rules = rules_of (event short_setup (at_cycle 1 (0x100 ∷ []) []) initial_rules)

abbrev second_rules : Rules
unfolding event retire_one is_in classify occupancy gpr_reads
second_rules = rules_of (retire_one short_setup 3 0 0x100 first_rules)

first_retires : retire_one short_setup 3 0 0x100 first_rules ≡ ok second_rules
unfolding event retire_one is_in classify occupancy gpr_reads
first_retires = refl

retire_one_oldest_example :
    Continued 0x100 first_rules second_rules ⊎ RetiresOldest 3 0x100 first_rules second_rules
retire_one_oldest_example =
    retire_one_oldest short_setup 3 0 0x100 first_rules second_rules refl first_retires
