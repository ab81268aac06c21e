-- ===== src/Dispatch/Rules.antt =====
-- The state of the class `Rules` of sim/tools/check_dispatch_trace.py. A reference to an entry in flight is its sequence
-- number, which no two entries share.
use slo_ppc.Prelude.{
  ℕ, ◌+◌, Bool, true, false, not, ◌&&◌, ◌||◌, List, [], ◌∷◌, Option, none, some, Result, require,
  ◌==◌,
}
use slo_ppc.Dispatch.Classify.{InsnClass, classify}
use slo_ppc.Dispatch.Operands.{StopKind}
use slo_ppc.Dispatch.Occupancy.{Peaks, RuleError, broken_rule}

-- The fourth element of an entry: False, True, or 'removed'.
pub data Flush : Type 0 where
  live flushed removed : Flush

-- An element of `inflight`.
pub record Entry : Type 0 where
  pub pc : ℕ
  pub cycle : ℕ
  pub seq : ℕ
  pub flush : Flush
  pub class : Option InsnClass
  pub order : ℕ

-- An element of `stream`.
pub record Dispatched : Type 0 where
  pub order : ℕ
  pub class : Option InsnClass
  pub gone : Bool
  pub cycle : ℕ
  pub pc : ℕ

-- An element of `stops`.
pub record Stop : Type 0 where
  pub older : ℕ
  pub order : ℕ
  pub waiter : ℕ
  pub kind : StopKind

-- An element of `lr_waits`: the mtspr, the order, address and cycle of the bclr, the cycle at which the mtspr
-- retired, and its entry.
pub record LrWait : Type 0 where
  pub move_pc : ℕ
  pub order : ℕ
  pub pc : ℕ
  pub cycle : ℕ
  pub retired : Option ℕ
  pub entry : Option ℕ

-- `stats`, but for the two maxima.
pub record Stats : Type 0 where
  pub cycles : ℕ
  pub dispatches : ℕ
  pub retirements : ℕ
  pub pairs_dispatched : ℕ
  pub pairs_retired : ℕ
  pub flushes : ℕ
  pub mispredicts : ℕ
  pub removals : ℕ
  pub dser : ℕ
  pub cser : ℕ
  pub isync : ℕ
  pub unknown : ℕ
  pub sru_pairs : ℕ
  pub fetch_stops : ℕ
  pub wrong_path_branches : ℕ
  pub redirects : ℕ
  pub redirects_at_floor : ℕ

pub record Rules : Type 0 where
  pub inflight : List Entry
  pub removed_lk : List (ℕ × ℕ)
  pub removed_ctr : List (ℕ × ℕ)
  pub seq : ℕ
  pub order : ℕ
  pub stream : List Dispatched
  pub redirect : Option (ℕ × ℕ)
  pub stops : List Stop
  pub lr_waits : List LrWait
  pub lr_retired : Option (ℕ × ℕ)
  pub block : Option (ℕ × ℕ)
  pub last_dser : Option (ℕ × ℕ)
  pub isync_retired : Option ℕ
  pub last_retired_pc : Option ℕ
  pub last_retire_cycle : Option ℕ
  pub serial_gprs : List (ℕ × (ℕ × ℕ))
  pub cond_retired : Bool
  pub stats : Stats
  pub peaks : Peaks

-- The arguments of `__init__`.
pub record Setup : Type 0 where
  pub width : ℕ
  pub words : ℕ → Option ℕ
  pub sru : Bool
  pub flush : Bool

-- `__init__`.
abbrev pub initial_rules : Rules
initial_rules = record {
  inflight = [];
  removed_lk = [];
  removed_ctr = [];
  seq = 0;
  order = 0;
  stream = [];
  redirect = none;
  stops = [];
  lr_waits = [];
  lr_retired = none;
  block = none;
  last_dser = none;
  isync_retired = none;
  last_retired_pc = none;
  last_retire_cycle = none;
  serial_gprs = [];
  cond_retired = false;
  stats = record {
    cycles = 0;
    dispatches = 0;
    retirements = 0;
    pairs_dispatched = 0;
    pairs_retired = 0;
    flushes = 0;
    mispredicts = 0;
    removals = 0;
    dser = 0;
    cser = 0;
    isync = 0;
    unknown = 0;
    sru_pairs = 0;
    fetch_stops = 0;
    wrong_path_branches = 0;
    redirects = 0;
    redirects_at_floor = 0;
  };
  peaks = record { cq_max = 0; gpr_max = 0 };
}

abbrev pub Checked : Type 0 → Type 0
Checked A = Result RuleError A

-- `require(c, ...)`.
abbrev pub demand : Bool → Checked (Unit {0})
demand c = require c broken_rule

-- `cls(pc)`, for the class.
unfoldable pub cls : Setup → ℕ → Option InsnClass
cls setup pc = elim (setup.words pc) [ none ↦ none | some word ↦ some (classify word setup.sru) ]

-- `cls(pc)`, for the statistics.
abbrev pub unknown_count : Option ℕ → ℕ
unknown_count none = 1
unknown_count (some word) = 0

unfoldable pub count_unknown : Setup → ℕ → Rules → Rules
count_unknown setup pc s = record s {
  stats = record (s.stats) { unknown = s.stats.unknown + unknown_count (setup.words pc) };
}

-- `e[3]`.
abbrev pub is_flushed : Flush → Bool
is_flushed live = false
is_flushed _ = true

abbrev pub is_removed : Flush → Bool
is_removed removed = true
is_removed _ = false

-- `c and c[...]`.
abbrev pub when_known : (InsnClass → Bool) → Option InsnClass → Bool
when_known p none = false
when_known p (some c) = p c

-- `inflight_has(pc)`.
unfoldable pub inflight_has : ℕ → List Entry → Bool
inflight_has pc [] = false
inflight_has pc (e ∷ es) = (e.pc == pc) || inflight_has pc es

-- `blocking(older)`.
unfoldable pub blocking : ℕ → List Entry → Bool
blocking seq [] = false
blocking seq (e ∷ es) = ((e.seq == seq) && not (is_flushed e.flush)) || blocking seq es
