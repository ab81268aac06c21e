-- ===== src/Perf/Keeps.antt =====
-- The loops and the units of sim/tools/perf_model_603e.py keep the order.
use slo_ppc.Prelude.{ℕ, ◌≤◌, ◌≡◌, arith, true, false, List, [], ◌∷◌, Option}
use slo_ppc.Perf.Insn.{Insn, Station}
use slo_ppc.Perf.Model.{Core, Entry}
use slo_ppc.Perf.Search.{sum_of}
use slo_ppc.Perf.Slots.{is_blocked, is_pair, dispatched_at, can_dispatch}
use slo_ppc.Perf.Branch.{
  last_dispatch, last_completion, completed_at, completes_beside, can_complete_branch,
}
use slo_ppc.Perf.Execute.{can_complete, pairs_with}
use slo_ppc.Perf.Order.{Spaced, SharesCompletion, InOrder}

pub Spaced-head :
    (key : Entry → ℕ) (c : ℕ) (q : Entry) (older : List Entry)
    → Spaced key c (q ∷ older)
    → key q ≤ c
Spaced-head key c q [] h = h
Spaced-head key c q (r ∷ older) h = h.0

-- A dispatch that is not blocked keeps the width.
pub dispatch-Spaced :
    (nb : List Entry) (ins : Insn) (d : ℕ)
    → InOrder nb
    → last_dispatch nb ≤ d
    → is_blocked nb ins d ≡ false
    → Spaced (λ q. q.dispatched) d nb
unfolding last_dispatch is_blocked is_pair dispatched_at sum_of
dispatch-Spaced [] ins d o l h = tt
dispatch-Spaced (p ∷ []) ins d o l h = l
dispatch-Spaced (p ∷ q ∷ older) ins d o l h =
    let below : q.dispatched ≤ p.dispatched =
      Spaced-head (λ e. e.dispatched) p.dispatched q older o.0.dispatch_order in
    (l, ground arith)

pub completion-Spaced :
    (nb : List Entry) (c : ℕ)
    → InOrder nb
    → last_completion nb ≤ c
    → can_complete_branch nb c ≡ true
    → Spaced (λ q. q.completed) c nb
unfolding last_completion can_complete_branch completes_beside completed_at sum_of
completion-Spaced [] c o l h = tt
completion-Spaced (p ∷ []) c o l h = l
completion-Spaced (p ∷ q ∷ older) c o l h =
    let below : q.completed ≤ p.completed =
      Spaced-head (λ e. e.completed) p.completed q older o.0.completion_order in
    (l, ground arith)

-- The completion of another instruction keeps to the same test, and to the limits of a pair.
pub can_complete-weaker :
    (nb : List Entry) (ins : Insn) (c : ℕ)
    → can_complete nb ins c ≡ true
    → can_complete_branch nb c ≡ true
unfolding can_complete can_complete_branch
can_complete-weaker nb ins c h = ground arith

pub can_complete-pair :
    (nb : List Entry) (e : Entry)
    → last_completion nb ≤ e.completed
    → can_complete nb e.ins e.completed ≡ true
    → SharesCompletion e nb
unfolding can_complete completes_beside pairs_with last_completion
can_complete-pair [] e l h = tt
can_complete-pair (p ∷ older) e l h = ground arith

-- The parts of the dispatch test.
pub can_dispatch-blocked :
    (core : Core) (starts : Station → Option ℕ) (nb : List Entry) (ins : Insn)
    (units : List Station) (d : ℕ)
    → can_dispatch core starts nb ins units d ≡ true
    → is_blocked nb ins d ≡ false
unfolding can_dispatch
can_dispatch-blocked core starts nb ins units d h = ground arith
