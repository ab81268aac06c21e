-- ===== src/Dispatch/Retire.antt =====
-- The retirements of `Rules.event` of sim/tools/check_dispatch_trace.py.
use slo_ppc.Prelude.{
  ℕ, ◌+◌, Bool, true, false, not, ◌&&◌, ◌||◌, List, [], ◌∷◌, drop, Option, none, some, ok, raise,
  ◌>>◌, ◌>>=◌, leb, ltb, ◌==◌, if◌then◌else◌,
}
use slo_ppc.Integer.Word.{int, truthy}
use slo_ppc.Recovery.Dict.{get, pop, put, nat_eq}
use slo_ppc.Dispatch.Classify.{InsnClass}
use slo_ppc.Dispatch.Operands.{gpr_reads, gpr_writes, serial_gpr, moves_lr}
use slo_ppc.Dispatch.Occupancy.{broken_rule}
use slo_ppc.Dispatch.Rules.{
  Checked, Entry, LrWait, Rules, Setup, cls, count_unknown, demand, inflight_has, is_flushed,
  is_removed, when_known,
}

-- `cycle - when >= gap` for a cycle that is there.
abbrev pub since : ℕ → Option ℕ → ℕ → Bool
since cycle none gap = true
since cycle (some when) gap = leb (when + gap) cycle

-- The latency of a move by the SRU.
unfoldable pub sru_latency_kept : ℕ → Option InsnClass → Option ℕ → Bool
sru_latency_kept cycle none last = true
sru_latency_kept cycle (some c) last = elim c.sru_lat [
  | none ↦ true
  | some lat ↦ if truthy lat then since cycle last (lat + 1) else true
]

-- The reads of the results of completion-serialized instructions.
unfoldable pub reads_kept : ℕ → ℕ → List ℕ → List (ℕ × (ℕ × ℕ)) → Bool
reads_kept cycle gap [] gprs = true
reads_kept cycle gap (r ∷ rs) gprs =
    since cycle (elim (get r gprs) [ none ↦ none | some w ↦ some w.0 ]) gap
    && reads_kept cycle gap rs gprs

unfoldable pub pop_all : List ℕ → List (ℕ × (ℕ × ℕ)) → List (ℕ × (ℕ × ℕ))
pop_all [] gprs = gprs
pop_all (r ∷ rs) gprs = pop_all rs (pop r gprs)

unfoldable pub serial_after : ℕ → ℕ → ℕ → List (ℕ × (ℕ × ℕ)) → List (ℕ × (ℕ × ℕ))
unfolding pop_all
serial_after cycle pc word gprs =
    let left = pop_all (gpr_writes word) gprs in
    elim (serial_gpr word) [ none ↦ left | some r ↦ put r (cycle, pc) left ]

-- The test and the update for the word of a retired instruction.
unfoldable pub check_reads : ℕ → ℕ → Option ℕ → Rules → Checked Rules
unfolding reads_kept serial_after
check_reads cycle pc none s = ok s
check_reads cycle pc (some word) s = do
  demand (reads_kept cycle (gpr_reads word).1 (gpr_reads word).0 s.serial_gprs)
  ok (record s { serial_gprs = serial_after cycle pc word s.serial_gprs })

-- `wrong_path`: the flushed entries at the front.
unfoldable pub leading_flushed : List Entry → ℕ
leading_flushed [] = 0
leading_flushed (e ∷ es) = let n = leading_flushed es in if is_flushed e.flush then n + 1 else 0

unfoldable pub first_removed : List Entry → Bool
first_removed [] = false
first_removed (e ∷ es) = is_removed e.flush

unfoldable pub wrong_path_length : Rules → ℕ
unfolding leading_flushed first_removed
wrong_path_length s =
    if s.cond_retired || first_removed s.inflight then leading_flushed s.inflight else 0

-- The first entry with the address, and its index in the list.
unfoldable pub find_pc : ℕ → List Entry → Option (ℕ × Entry)
find_pc pc [] = none
find_pc pc (e ∷ es) =
    let later = find_pc pc es in
    if e.pc == pc
    then some (0, e)
    else elim later [ none ↦ none | some (i, found) ↦ some (i + 1, found) ]

-- The loop over `lr_waits`.
abbrev pub is_entry : ℕ → Option ℕ → Bool
is_entry seq none = false
is_entry seq (some n) = n == seq

unfoldable pub lr_waits_kept : ℕ → ℕ → List LrWait → Bool
lr_waits_kept cycle seq [] = true
lr_waits_kept cycle seq (w ∷ ws) =
    (not (is_entry seq w.entry) || leb cycle (w.cycle + 1)) && lr_waits_kept cycle seq ws

unfoldable pub lr_waits_after : ℕ → ℕ → List LrWait → List LrWait
lr_waits_after cycle seq [] = []
lr_waits_after cycle seq (w ∷ ws) =
    (if is_entry seq w.entry then record w { retired = some cycle } else w)
    ∷ lr_waits_after cycle seq ws

-- The test against the latest dispatch-serialized dispatch.
abbrev pub dser_kept : ℕ → ℕ → Option (ℕ × ℕ) → Bool
dser_kept cycle seq none = true
dser_kept cycle seq (some (n, dispatched)) = not (ltb seq n) || leb cycle dispatched

abbrev pub block_after : ℕ → Option (ℕ × ℕ) → Option (ℕ × ℕ)
block_after seq none = none
block_after seq (some (n, cycle)) = if leb n seq then none else some (n, cycle)

-- The state after the entry at an index retires.
unfoldable pub retired_entry : ℕ → ℕ → Option InsnClass → ℕ → ℕ → Entry → Rules → Rules
unfolding lr_waits_after moves_lr
retired_entry cycle pc c wrong index e s = record s {
  inflight = drop (index + 1) s.inflight;
  lr_waits = lr_waits_after cycle e.seq s.lr_waits;
  lr_retired = if when_known moves_lr c then some (cycle, pc) else s.lr_retired;
  block = block_after e.seq s.block;
  isync_retired = if when_known (λ k. k.isync) c then some cycle else s.isync_retired;
  last_retired_pc = some pc;
  cond_retired = when_known (λ k. k.cond) c;
  stats = record (s.stats) {
    flushes = s.stats.flushes + index;
    mispredicts = s.stats.mispredicts + int (ltb 0 wrong);
    retirements = s.stats.retirements + 1;
    isync = s.stats.isync + int (when_known (λ k. k.isync) c);
  };
}

-- The retirement of the entry that is found, at an index among the entries from `wrong` on.
unfoldable pub retire_found :
    Setup → ℕ → ℕ → ℕ → Option InsnClass → ℕ → Option (ℕ × Entry) → Rules → Checked Rules
unfolding lr_waits_kept retired_entry
retire_found setup cycle slot pc c wrong none s = raise broken_rule
retire_found setup cycle slot pc c wrong (some (i, e)) s = do
  demand (setup.flush || (i == 0))
  demand (not (is_flushed e.flush))
  demand (lr_waits_kept cycle e.seq s.lr_waits)
  demand (ltb e.cycle cycle)
  demand (dser_kept cycle e.seq s.last_dser)
  demand
      (not (slot == 1) || (not (when_known (λ k. not k.cq1) c) && not (when_known (λ k. k.cser) c)))
  ok (retired_entry cycle pc c wrong (wrong + i) e s)

unfoldable pub retire_entry : Setup → ℕ → ℕ → ℕ → Option InsnClass → Rules → Checked Rules
unfolding wrong_path_length find_pc retire_found
retire_entry setup cycle slot pc c s =
    let wrong = wrong_path_length s in
    retire_found setup cycle slot pc c wrong (find_pc pc (drop wrong s.inflight)) s

-- One round of the loop over `retired`.
unfoldable pub retire_one : Setup → ℕ → ℕ → ℕ → Rules → Checked Rules
unfolding cls count_unknown sru_latency_kept check_reads inflight_has retire_entry
retire_one setup cycle slot pc s =
    let c = cls setup pc in
    do
      demand (sru_latency_kept cycle c s.last_retire_cycle)
      read ←
          check_reads cycle pc (setup.words pc)
            (record (count_unknown setup pc s) { last_retire_cycle = some cycle })
      if when_known (λ k. k.multiple) c
            && (is_entry pc read.last_retired_pc && not (inflight_has pc read.inflight))
          then ok read
          else retire_entry setup cycle slot pc c read

unfoldable pub retire_all : Setup → ℕ → ℕ → List ℕ → Rules → Checked Rules
unfolding retire_one
retire_all setup cycle slot [] s = ok s
retire_all setup cycle slot (pc ∷ pcs) s =
    retire_one setup cycle slot pc s >>= λ next. retire_all setup cycle (slot + 1) pcs next
