-- ===== src/Dispatch/Counts.antt =====
-- The statistics of `Rules.event` of sim/tools/check_dispatch_trace.py that say what became of the dispatched
-- instructions.
use slo_ppc.Prelude.{ℕ, ◌+◌}
use slo_ppc.Dispatch.Rules.{Rules}

-- The instructions that have left the trace: removed at dispatch, retired, or dropped before a retirement.
abbrev pub settled : Rules → ℕ
settled s = s.stats.removals + (s.stats.retirements + s.stats.flushes)

-- The dispatched and the settled instructions.
abbrev pub account : Rules → ℕ × ℕ
account s = (s.stats.dispatches, settled s)
