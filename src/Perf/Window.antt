-- ===== src/Perf/Window.antt =====
-- The last seven instructions are enough to count the resources in use (sim/tools/perf_model_603e.py).
use slo_ppc.Prelude.{
  ℕ, zero, suc, ◌+◌, ◌≤◌, ◌<◌, ◌≡◌, refl, arith, true, false, List, [], ◌∷◌, take, ltb, Option,
  Bool-cases, inl, inr,
}
use slo_ppc.Perf.Insn.{Station}
use slo_ppc.Perf.Model.{Core, Entry}
use slo_ppc.Perf.Search.{sum_of}
use slo_ppc.Perf.Slots.{busy_buffers, busy_renames, can_dispatch, cq_late}
use slo_ppc.Perf.Order.{InOrder, Fits}
use slo_ppc.Perf.Keeps.{Spaced-head}

-- The older instructions complete no later.
head-le : (q r : Entry) (older : List Entry) → InOrder (q ∷ r ∷ older) → r.completed ≤ q.completed
head-le q r older o = Spaced-head (λ e. e.completed) q.completed r older o.0.completion_order

busy_buffers-zero :
    (core : Core) (d k : ℕ) (q : Entry) (older : List Entry)
    → InOrder (q ∷ older)
    → ltb d (q.completed + cq_late core) ≡ false
    → (busy_buffers core d (q ∷ older) ≡ 0) × (busy_buffers core d (take k (q ∷ older)) ≡ 0)
unfolding busy_buffers sum_of
busy_buffers-zero core d zero q [] o h = (ground arith, refl)
busy_buffers-zero core d (suc zero) q [] o h = ground arith
busy_buffers-zero core d (suc (suc k)) q [] o h = ground arith
busy_buffers-zero core d zero q (r ∷ older) o h =
    let le = head-le q r older o in
    ground (arith, busy_buffers-zero core d zero r older o.1 (ground arith))
busy_buffers-zero core d (suc k) q (r ∷ older) o h =
    let le = head-le q r older o in
    ground (arith, busy_buffers-zero core d k r older o.1 (ground arith))

busy_renames-zero :
    (d k : ℕ) (q : Entry) (older : List Entry)
    → InOrder (q ∷ older)
    → q.completed < d
    → (busy_renames d (q ∷ older) ≡ 0) × (busy_renames d (take k (q ∷ older)) ≡ 0)
unfolding busy_renames sum_of
busy_renames-zero d zero q [] o h = (ground arith, refl)
busy_renames-zero d (suc zero) q [] o h = ground arith
busy_renames-zero d (suc (suc k)) q [] o h = ground arith
busy_renames-zero d zero q (r ∷ older) o h =
    let le = head-le q r older o in
    ground (arith, busy_renames-zero d zero r older o.1 (omega arith))
busy_renames-zero d (suc k) q (r ∷ older) o h =
    let le = head-le q r older o in ground (arith, busy_renames-zero d k r older o.1 (omega arith))

-- With fewer busy buffers than instructions in the window, the others are free.
busy_buffers-window :
    (core : Core) (d k : ℕ) (nb : List Entry)
    → InOrder nb
    → busy_buffers core d (take k nb) < k
    → busy_buffers core d nb ≡ busy_buffers core d (take k nb)
unfolding busy_buffers sum_of
busy_buffers-window core d zero nb o h = absurd (omega arith)
busy_buffers-window core d (suc k) [] o h = refl
busy_buffers-window core d (suc k) (q ∷ older) o h =
    elim (Bool-cases (ltb d (q.completed + cq_late core))) [
      | inl t ↦ ground (arith, busy_buffers-window core d k older o.1 (ground arith))
      | inr f ↦ ground (arith, busy_buffers-zero core d (suc k) q older o f)
    ]

-- Two instructions back the completion is earlier, so that a window of two more counts the renames.
busy_renames-window :
    (core : Core) (d k : ℕ) (nb : List Entry)
    → InOrder nb
    → busy_buffers core d (take (suc (suc k)) nb) < k
    → busy_renames d nb ≡ busy_renames d (take (suc (suc k)) nb)
unfolding busy_buffers busy_renames sum_of
busy_renames-window core d zero nb o h = absurd (omega arith)
busy_renames-window core d (suc k) [] o h = refl
busy_renames-window core d (suc k) (q ∷ []) o h = refl
busy_renames-window core d (suc k) (q ∷ r ∷ []) o h = ground arith
busy_renames-window core d (suc k) (q ∷ r ∷ t ∷ older) o h =
    elim (Bool-cases (ltb d (q.completed + cq_late core))) [
      | inl busy ↦ ground (arith, busy_renames-window core d k (r ∷ t ∷ older) o.1 (ground arith))
      | inr idle ↦ ground (
        arith,
        o.0.completion_order,
        busy_renames-zero d (suc k) t older o.1.1 (ground (arith, o.0.completion_order)),
      )
    ]

-- What may be dispatched fits.
pub can_dispatch-Fits :
    (core : Core) (starts : Station → Option ℕ) (nb : List Entry) (units : List Station) (e : Entry)
    → InOrder nb
    → can_dispatch core starts nb e.ins units e.dispatched ≡ true
    → Fits core e nb
unfolding can_dispatch
can_dispatch-Fits core starts nb units e o h =
    let buffers = busy_buffers-window core e.dispatched 7 nb o (ground arith) in
    let renames = busy_renames-window core e.dispatched 5 nb o (ground arith) in
    record { buffers = ground arith; renames = ground arith }
