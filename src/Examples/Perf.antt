-- ===== src/Examples/Perf.antt =====
-- The theorems on the cycle model at concrete words and streams, and some schedules.
use slo_ppc.Prelude.{
  ℕ, ◌≤◌, ◌<◌, true, false, List, [], ◌∷◌, length, Option, none, some, ◌≡◌, ◌⊎◌, refl, arith,
}
use slo_ppc.Prelude.Int.{negsuc}
use slo_ppc.Dispatch.Classify.{is_in, opcode}
use slo_ppc.Perf.Insn.{Insn, Station, widen, sext, significant_bytes}
use slo_ppc.Perf.Fields.{Args, rd, xo9}
use slo_ppc.Perf.Decode.{insn}
use slo_ppc.Perf.Model.{Core, Row, Entry, access_bytes}
use slo_ppc.Perf.Search.{first_cycle, sum_of}
use slo_ppc.Perf.Slots.{can_dispatch, dispatch_cycle}
use slo_ppc.Perf.Execute.{Retired}
use slo_ppc.Perf.Schedule.{schedule, rows_onto}
use slo_ppc.Perf.Order.{InOrder, WithinLimits, slots}
use slo_ppc.Perf.Ordered.{schedule-InOrder, schedule-WithinLimits}
use slo_ppc.Perf.Progress.{dispatch_cycle_ends}
use slo_ppc.Perf.Total.{LoadsFew, schedule_returns}
use slo_ppc.Perf.Bytes.{FitsBytes, significant_bytes_fewest}
use slo_ppc.Perf.Shape.{IsInsn}
use slo_ppc.Perf.Words.{insn-IsInsn}

abbrev no_rules : Core
no_rules = record {
  branch_slot = false;
  cr_token = false;
  dq0_iu = false;
  lsu_base = false;
  late_retire = false;
  miss_late = false;
  cq_same = false;
}

abbrev default_args : Args
default_args = record { mul = 3; div = 20; sru_add = true }

abbrev retired : ℕ → ℕ → ℕ → Retired
retired pc word next_pc = record { pc = pc; word = word; next_pc = next_pc }

abbrev cycles_of : Entry → ℕ × ℕ × ℕ × ℕ × ℕ
cycles_of e = (e.fetched, e.dispatched, e.started, e.finished, e.completed)

abbrev slots_of : List Row → List (ℕ × ℕ × ℕ × ℕ × ℕ)
slots_of [] = []
slots_of (r ∷ rs) = elim r.slot [ none ↦ slots_of rs | some e ↦ cycles_of e ∷ slots_of rs ]

-- li r3,1; addi r4,r3,1; mulli r5,r4,300; lwz r6,0(r5).
abbrev short_run : List Retired
short_run =
    retired 0 0x3860_0001 4
    ∷ retired 4 0x3883_0001 8
    ∷ retired 8 0x1CA4_012C 12
    ∷ retired 12 0x80C5_0000 16
    ∷ []

abbrev rows_of : Option (List Row) → List Row
rows_of none = []
rows_of (some rows) = rows

abbrev short_rows : List Row
unfolding schedule is_in sum_of access_bytes significant_bytes widen sext xo9
short_rows = rows_of (schedule no_rules default_args false short_run)

short_run_scheduled : schedule no_rules default_args false short_run ≡ some short_rows
unfolding schedule is_in sum_of access_bytes significant_bytes widen sext xo9
short_run_scheduled = refl

short_run_cycles :
    slots_of short_rows ≡ (0, 1, 2, 2, 3) ∷ (0, 1, 3, 3, 4) ∷ (1, 2, 4, 6, 7) ∷ (1, 2, 7, 8, 9) ∷ []
unfolding schedule is_in sum_of access_bytes significant_bytes widen sext xo9
short_run_cycles = refl

schedule-InOrder_example : InOrder (slots (rows_onto short_rows []))
schedule-InOrder_example =
    schedule-InOrder no_rules default_args false short_run short_rows short_run_scheduled

schedule-WithinLimits_example : WithinLimits no_rules (slots (rows_onto short_rows []))
schedule-WithinLimits_example =
    schedule-WithinLimits no_rules default_args false short_run short_rows short_run_scheduled

-- lmw r27,0(r1).
abbrev load_five : List Retired
load_five = retired 0 0xBB61_0000 4 ∷ []

load_five-LoadsFew : LoadsFew load_five
unfolding opcode rd
load_five-LoadsFew = (λ h. omega arith, tt)

schedule_returns_example :
    (rows : List Row) × (schedule no_rules default_args false load_five ≡ some rows)
schedule_returns_example = schedule_returns no_rules default_args false load_five load_five-LoadsFew

-- lmw r20,0(r1), which is never dispatched.
abbrev load_twelve : Insn
load_twelve = insn default_args 0 0xBA81_0000

dispatch_cycle_ends_example :
    ((length load_twelve.dst ≤ 5)
      × ((c : ℕ) × (dispatch_cycle no_rules (λ u. none) [] load_twelve (Station.lsu ∷ []) 1
            ≡ some c)))
    ⊎ ((5 < length load_twelve.dst)
        × ((fuel : ℕ)
            → first_cycle fuel
                (can_dispatch no_rules (λ u. none) [] load_twelve (Station.lsu ∷ []))
                1
              ≡ none))
dispatch_cycle_ends_example =
    dispatch_cycle_ends no_rules (λ u. none) [] load_twelve Station.lsu [] 1

load_twelve_results : length load_twelve.dst ≡ 12
unfolding insn is_in
load_twelve_results = refl

significant_bytes_fewest_example :
    (1 ≤ significant_bytes (negsuc 200))
    × (significant_bytes (negsuc 200) ≤ 4)
    × FitsBytes (significant_bytes (negsuc 200)) (negsuc 200)
    × ((m : ℕ) → 1 ≤ m → m < significant_bytes (negsuc 200) → ¬ FitsBytes m (negsuc 200))
significant_bytes_fewest_example = significant_bytes_fewest (negsuc 200) (omega arith)

two_bytes : significant_bytes (negsuc 200) ≡ 2
unfolding significant_bytes widen
two_bytes = refl

-- lwzu r3,4(r4).
insn-IsInsn_example : IsInsn 0x8464_0004 (insn default_args 0 0x8464_0004)
insn-IsInsn_example = insn-IsInsn default_args 0 0x8464_0004

update_writes : (insn default_args 0 0x8464_0004).dst ≡ 3 ∷ 4 ∷ []
unfolding insn is_in
update_writes = refl

-- add. r5,r6,r7; then bc 12,2 on its field, predicted, and bc 12,6 on another.
abbrev two_branches : List Retired
two_branches = retired 0 0x7CA6_3A15 4 ∷ retired 4 0x4182_0008 8 ∷ retired 8 0x4186_0008 12 ∷ []

abbrev branches_of : List Row → List (ℕ × ℕ)
branches_of [] = []
branches_of (r ∷ rs) = elim r.branch [
  | none ↦ branches_of rs
  | some how ↦ (how.executed, how.resolved) ∷ branches_of rs
]

-- The second branch waits for the first to resolve, and its own resolution is recorded before its execution.
resolved_early :
    branches_of (rows_of (schedule no_rules default_args false two_branches)) ≡ (1, 3) ∷ (3, 2) ∷ []
unfolding schedule is_in sum_of access_bytes significant_bytes widen sext xo9
resolved_early = refl
