-- ===== src/Perf/Fetch.antt =====
-- The fetch of one instruction in `schedule` of sim/tools/perf_model_603e.py.
use slo_ppc.Prelude.{
  ℕ, zero, suc, ◌+◌, ◌%◌, max, Bool, true, false, not, ◌&&◌, ◌||◌, ltb, leb, List, [], ◌∷◌, take,
  Option, none, some, ◌==◌, if◌then◌else◌,
}
use slo_ppc.Integer.Word.{int}
use slo_ppc.Perf.Insn
use slo_ppc.Perf.Insn.{Insn}
use slo_ppc.Perf.Model.{State, Entry, same_unit}
use slo_ppc.Perf.Slots.{horizon}
use slo_ppc.Perf.Search.{sum_of}

abbrev pub iq_limit : ℕ
iq_limit = 6

-- `fetch_hist[-1][0] if fetch_hist else 0`.
unfoldable pub last_fetch : List (ℕ × ℕ) → ℕ
last_fetch [] = 0
last_fetch ((f, pc) ∷ hist) = f

-- A second fetch in a cycle is of the next word, and there is no third.
abbrev pub is_first : List (ℕ × ℕ) → ℕ → Bool
is_first [] f = true
is_first ((g, pc) ∷ hist) f = not (g == f)

unfoldable pub may_fetch : Bool → List (ℕ × ℕ) → ℕ → ℕ → Bool
may_fetch any [] pc f = true
may_fetch any ((g, last) ∷ hist) pc f =
    if g == f then is_first hist f && ((last + 4 == pc) && (any || (pc % 8 == 4))) else true

-- `occ`: the instructions that are in the queue, and those fetched in this cycle.
unfoldable pub queued : List Entry → ℕ → ℕ
queued nb f =
    sum_of (λ q. int (ltb q.fetched f && leb f q.dispatched)) (take (iq_limit + 2) nb)
    + sum_of (λ q. int (q.fetched == f)) (take 2 nb)

-- The restart of a stopped fetch.
abbrev pub is_cycle : Option ℕ → ℕ → Bool
is_cycle none f = false
is_cycle (some g) f = g == f

unfoldable pub restarted : State → ℕ → ℕ
restarted s f = if not (is_cycle s.stop_f f) && ltb f s.stop_until then s.stop_until else f

-- `ok`.
unfoldable pub can_fetch : Bool → State → Insn → ℕ → Bool
unfolding may_fetch queued same_unit
can_fetch any s ins f =
    may_fetch any s.fetch_hist ins.pc f
    && (same_unit ins.unit Insn.bpu || leb (queued s.nb_hist f + 1) iq_limit)

-- The loop, with fuel.
unfoldable pub fetch_from : ℕ → Bool → State → Insn → ℕ → Option ℕ
unfolding restarted can_fetch
fetch_from zero any s ins f = none
fetch_from (suc fuel) any s ins f =
    let g = restarted s f in
    elim (can_fetch any s ins g) [ true ↦ some g | false ↦ fetch_from fuel any s ins (g + 1) ]

-- The fetch cycle. The fuel reaches a cycle after every fetch and dispatch so far.
unfoldable pub fetch_cycle : Bool → State → Insn → Option ℕ
unfolding last_fetch fetch_from horizon
fetch_cycle any s ins =
    fetch_from (s.stop_until + last_fetch s.fetch_hist + horizon s.nb_hist + 2) any s ins
      (max s.redirect (last_fetch s.fetch_hist))
