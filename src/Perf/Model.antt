-- ===== src/Perf/Model.antt =====
-- The state of `schedule` of sim/tools/perf_model_603e.py, and the addresses that it follows. A list keeps its newest
-- element first. A dictionary of ready cycles is a function, which gives 0 for a key that is not there. The cycle -1
-- of the code, which no instruction has, is `none`.
use slo_ppc.Prelude.{
  ℕ, ◌+◌, ◌-◌, ◌*◌, max, Bool, true, false, ltb, List, [], ◌∷◌, Option, none, some, ◌==◌,
  if◌then◌else◌,
}
use slo_ppc.Dispatch.Classify.{opcode, is_in}
use slo_ppc.Perf.Insn
use slo_ppc.Perf.Insn.{Insn, Station, sext}
use slo_ppc.Perf.Fields.{rd}

-- The names of `CORE_RULES` that are in `core`.
pub record Core : Type 0 where
  pub branch_slot : Bool
  pub cr_token : Bool
  pub dq0_iu : Bool
  pub lsu_base : Bool
  pub late_retire : Bool
  pub miss_late : Bool
  pub cq_same : Bool

-- An element of `nb_hist`, with the cycles F, D, S, E and C.
pub record Entry : Type 0 where
  pub ins : Insn
  pub fetched : ℕ
  pub dispatched : ℕ
  pub started : ℕ
  pub finished : ℕ
  pub completed : ℕ
  pub unit : Station

-- What a branch adds: the cycles X and R, and whether it was mispredicted.
pub record Resolution : Type 0 where
  pub executed : ℕ
  pub resolved : ℕ
  pub mispredict : Option Bool

-- An element of `out`. `slot` holds the cycles of an instruction that dispatches.
pub record Row : Type 0 where
  pub pc : ℕ
  pub ins : Insn
  pub fetched : ℕ
  pub branch : Option Resolution
  pub slot : Option Entry
  pub completed : ℕ

-- A value of a register, as a root and an offset from it.
abbrev pub Symbolic : Type 0
Symbolic = ℕ × ℕ

-- `sym` and `fresh`.
pub record Symbols : Type 0 where
  pub known : List (ℕ × Symbolic)
  pub fresh : ℕ

-- An element of `stores`: its root, its bounds and its completion.
pub record Stored : Type 0 where
  pub root : ℕ
  pub low : ℕ
  pub high : ℕ
  pub completed : ℕ

-- `access_bytes(word)`.
unfoldable pub access_bytes : ℕ → ℕ
unfolding opcode rd
access_bytes word =
    let op = opcode word in
    if is_in op (46 ∷ 47 ∷ [])
    then 4 * (32 - rd word)
    else if is_in op (34 ∷ 35 ∷ 38 ∷ 39 ∷ [])
    then 1
    else if is_in op (40 ∷ 41 ∷ 42 ∷ 43 ∷ 44 ∷ 45 ∷ [])
    then 2
    else if is_in op (32 ∷ 33 ∷ 36 ∷ 37 ∷ 48 ∷ 49 ∷ 52 ∷ 53 ∷ [])
    then 4
    else if is_in op (50 ∷ 51 ∷ 54 ∷ 55 ∷ [])
    then 8
    else 0

-- The variables of `schedule`.
pub record State : Type 0 where
  pub out : List Row
  pub gpr_prod : ℕ → ℕ
  pub cr_prod : ℕ → ℕ
  pub lr_ready : ℕ
  pub ctr_ready : ℕ
  pub unit_start : Station → Option ℕ
  pub unit_free : Station → ℕ
  pub last_x : Option ℕ
  pub pending_pred : Option ℕ
  pub redirect : ℕ
  pub fetch_hist : List (ℕ × ℕ)
  pub nb_hist : List Entry
  pub ser_until : ℕ
  pub cr_free : ℕ
  pub stop_f : Option ℕ
  pub stop_until : ℕ
  pub branch_x : ℕ
  pub symbols : Symbols
  pub stores : List Stored

-- The values before the loop.
abbrev pub start : State
start = record {
  out = [];
  gpr_prod = λ g. 0;
  cr_prod = λ c. 0;
  lr_ready = 0;
  ctr_ready = 0;
  unit_start = λ u. none;
  unit_free = λ u. 0;
  last_x = none;
  pending_pred = none;
  redirect = 0;
  fetch_hist = [];
  nb_hist = [];
  ser_until = 0;
  cr_free = 0;
  stop_f = none;
  stop_until = 0;
  branch_x = 0;
  symbols = record { known = []; fresh = 0 };
  stores = [];
}

-- `u == v`.
unfoldable pub same_unit : Station → Station → Bool
same_unit Insn.iu Insn.iu = true
same_unit Insn.sru Insn.sru = true
same_unit Insn.add Insn.add = true
same_unit Insn.lsu Insn.lsu = true
same_unit Insn.bpu Insn.bpu = true
same_unit Insn.fpu Insn.fpu = true
same_unit _ _ = false

-- `d[k] = v` for a dictionary with a default.
unfoldable pub assign {ℓ} : {A : Type ℓ} → ℕ → A → (ℕ → A) → ℕ → A
assign k v d j = if j == k then v else d j

unfoldable pub assign_all {ℓ} : {A : Type ℓ} → List ℕ → A → (ℕ → A) → ℕ → A
unfolding assign
assign_all [] v d = d
assign_all (k ∷ ks) v d = assign_all ks v (assign k v d)

unfoldable pub assign_unit {ℓ} : {A : Type ℓ} → Station → A → (Station → A) → Station → A
unfolding same_unit
assign_unit u v d w = if same_unit w u then v else d w

-- `max([d.get(k, 0) for k in s], default=0)`.
unfoldable pub latest_of : (ℕ → ℕ) → List ℕ → ℕ
latest_of d [] = 0
latest_of d (k ∷ ks) = max (d k) (latest_of d ks)

-- `-1 + 1` is 0, and no cycle lies before -1.
abbrev pub next_cycle : Option ℕ → ℕ
next_cycle none = 0
next_cycle (some c) = c + 1

abbrev pub cycle_or_zero : Option ℕ → ℕ
cycle_or_zero none = 0
cycle_or_zero (some c) = c

-- `pending_pred > x`.
abbrev pub is_after : Option ℕ → ℕ → Bool
is_after none x = false
is_after (some c) x = ltb x c
