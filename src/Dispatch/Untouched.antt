-- ===== src/Dispatch/Untouched.antt =====
-- The parts of `Rules` of sim/tools/check_dispatch_trace.py that leave the queue as it is.
use slo_ppc.Prelude.{
  ℕ, ◌≡◌, ◌∙◌, refl, subst, Bool, true, not, ◌||◌, List, [], ◌∷◌, Option, none, some, ok, leb,
  Bool-cases, inl, inr,
}
use slo_ppc.Dispatch.Classify.{InsnClass}
use slo_ppc.Dispatch.Operands.{StopKind, has_branch}
use slo_ppc.Dispatch.Rules.{Entry, Rules, Setup, count_unknown, when_known}
use slo_ppc.Dispatch.Retire.{retire_all}
use slo_ppc.Dispatch.Stops.{
  branch_order, counts, fetch_stops, add_stop, is_empty, links, settle_stops, stop_branch,
  stop_class, targets_kept, wait_retired, youngest_stop, is_execute,
}
use slo_ppc.Dispatch.Recoveries.{path_kept, recovered, wrong_path}
use slo_ppc.Dispatch.Event.{
  Event, begun, retired_pair, dispatched_pair, widths_kept, retired_kept, dispatched_kept,
  dispatch_all, finish_event, event, after_redirect, count_all, is_none, is_past, open_dispatch,
  recover,
}
use slo_ppc.Dispatch.Counts.{account}
use slo_ppc.Dispatch.Inversion.{bind-elim, demand-elim, ok_injective}

pub record Untouched (s t : Rules) : Type 0 where
  pub inflight : t.inflight ≡ s.inflight
  pub block : t.block ≡ s.block
  pub seq : t.seq ≡ s.seq
  pub counts : account t ≡ account s

pub same : (s : Rules) → Untouched s s
same s = record { inflight = refl; block = refl; seq = refl; counts = refl }

pub trans : (s t u : Rules) → Untouched s t → Untouched t u → Untouched s u
trans s t u p q = record {
  inflight = q.inflight ∙ p.inflight;
  block = q.block ∙ p.block;
  seq = q.seq ∙ p.seq;
  counts = q.counts ∙ p.counts;
}

recovered-Untouched :
    (setup : Setup) (cycle : ℕ) (o : Option ℕ) (s : Rules) {t : Rules}
    → recovered setup cycle o s ≡ ok t
    → Untouched s t
unfolding recovered
recovered-Untouched setup cycle none s h =
    subst (λ (x : Rules). Untouched s x) (ok_injective h) (same s)
recovered-Untouched setup cycle (some branch) s h =
    subst (λ (x : Rules). Untouched s x)
      (ok_injective (demand-elim (path_kept branch true s.stream) _ h).1)
      (record { inflight = refl; block = refl; seq = refl; counts = refl })

pub recover-Untouched :
    (setup : Setup) (cycle : ℕ) (o after : Option ℕ) (s : Rules) {t : Rules}
    → recover setup cycle o after s ≡ ok t
    → Untouched s t
unfolding recover wrong_path
recover-Untouched setup cycle none after s h =
    subst (λ (x : Rules). Untouched s x) (ok_injective h) (same s)
recover-Untouched setup cycle (some n) after s h =
    bind-elim (wrong_path setup cycle n after s) _ h λ u hu h1.
      let p = recovered-Untouched setup cycle (branch_order n after s.stream) s hu in
      subst (λ (x : Rules). Untouched s x) (ok_injective h1)
        (record { inflight = p.inflight; block = p.block; seq = p.seq; counts = p.counts })

wait_retired-Untouched :
    (cycle pc : ℕ) (c : InsnClass) (s : Rules) → Untouched s (wait_retired cycle pc c s)
unfolding wait_retired
wait_retired-Untouched cycle pc c s = record {
  inflight = refl;
  block = refl;
  seq = refl;
  counts = refl;
}

add_stop-Untouched :
    (cycle pc : ℕ) (gone : Bool) (o : Option (Entry × StopKind)) (s : Rules) {t : Rules}
    → add_stop cycle pc gone o s ≡ ok t
    → Untouched s t
unfolding add_stop
add_stop-Untouched cycle pc gone none s h =
    subst (λ (x : Rules). Untouched s x) (ok_injective h) (same s)
add_stop-Untouched cycle pc gone (some (e, kind)) s h =
    subst (λ (x : Rules). Untouched s x)
      (ok_injective (demand-elim (not gone || is_execute kind) _ h).1)
      (record { inflight = refl; block = refl; seq = refl; counts = refl })

stop_branch-Untouched :
    (cycle pc : ℕ) (gone : Bool) (c : InsnClass) (s : Rules) {t : Rules}
    → stop_branch cycle pc gone c s ≡ ok t
    → Untouched s t
unfolding stop_branch
stop_branch-Untouched cycle pc gone c s h =
    add_stop-Untouched cycle pc gone (youngest_stop c s.inflight) s h

stop_class-Untouched :
    (cycle pc : ℕ) (gone : Bool) (c : Option InsnClass) (s : Rules) {t : Rules}
    → stop_class cycle pc gone c s ≡ ok t
    → Untouched s t
unfolding stop_class
stop_class-Untouched cycle pc gone none s h =
    subst (λ (x : Rules). Untouched s x) (ok_injective h) (same s)
stop_class-Untouched cycle pc gone (some c) s h = elim (Bool-cases (has_branch c)) [
  | inl t ↦
      trans s (wait_retired cycle pc c s) _ (wait_retired-Untouched cycle pc c s)
        (stop_branch-Untouched cycle pc gone c (wait_retired cycle pc c s) (rw t at h))
  | inr f ↦ subst (λ (x : Rules). Untouched s x) (ok_injective (rw f at h)) (same s)
]

pub fetch_stops-Untouched :
    (cycle pc : ℕ) (c : Option InsnClass) (gone : Bool) (s : Rules) {t : Rules}
    → fetch_stops cycle pc c gone s ≡ ok t
    → Untouched s t
unfolding fetch_stops settle_stops
fetch_stops-Untouched cycle pc c gone s h =
    let u = settle_stops c s in
    let h1 = (demand-elim (targets_kept cycle pc s.order s.lr_waits) _ h).1 in
    let h2 = (demand-elim (not (when_known links c) || is_empty u.removed_lk) _ h1).1 in
    let h3 = (demand-elim (not (when_known counts c) || is_empty u.removed_ctr) _ h2).1 in
    let h4 = (demand-elim (is_empty u.stops) _ h3).1 in
    let p = stop_class-Untouched cycle pc gone c u h4 in
    record { inflight = p.inflight; block = p.block; seq = p.seq; counts = p.counts }

pub count_all-Untouched :
    (setup : Setup) (pcs : List ℕ) (s : Rules) → Untouched s (count_all setup pcs s)
unfolding count_all count_unknown
count_all-Untouched setup [] s = same s
count_all-Untouched setup (pc ∷ pcs) s =
    let p = count_all-Untouched setup pcs (count_unknown setup pc s) in
    record { inflight = p.inflight; block = p.block; seq = p.seq; counts = p.counts }

after_redirect-Untouched :
    (cycle : ℕ) (o : Option (ℕ × ℕ)) (s : Rules) {t : Rules}
    → after_redirect cycle o s ≡ ok t
    → Untouched s t
unfolding after_redirect
after_redirect-Untouched cycle none s h =
    subst (λ (x : Rules). Untouched s x) (ok_injective h) (same s)
after_redirect-Untouched cycle (some (floor, pc)) s h =
    subst (λ (x : Rules). Untouched s x) (ok_injective (demand-elim (leb floor cycle) _ h).1)
      (record { inflight = refl; block = refl; seq = refl; counts = refl })

pub open_dispatch-Untouched :
    (cycle pc : ℕ) (pcs : List ℕ) (s : Rules) {t : Rules}
    → open_dispatch cycle (pc ∷ pcs) s ≡ ok t
    → Untouched s t × (is_none t.block ≡ true)
unfolding open_dispatch
open_dispatch-Untouched cycle pc pcs s h =
    bind-elim (after_redirect cycle s.redirect s) _ h λ u hu h1.
      let p = after_redirect-Untouched cycle s.redirect s hu in
      let (free, h2) = demand-elim (is_none u.block) _ h1 in
      let h3 = (demand-elim (is_past cycle u.isync_retired) _ h2).1 in
      subst (λ (x : Rules). Untouched s x × (is_none x.block ≡ true)) (ok_injective h3)
        (record { inflight = p.inflight; block = p.block; seq = p.seq; counts = p.counts }, free)

-- The states between the parts of an accepted event.
pub record Stages (setup : Setup) (ev : Event) (s t : Rules) : Type 0 where
  pub after_retire : Rules
  pub after_open : Rules
  pub after_dispatch : Rules
  pub retires : retire_all setup ev.cycle 0 ev.retired (begun ev s) ≡ ok after_retire
  pub opens : open_dispatch ev.cycle ev.dispatched (retired_pair ev after_retire) ≡ ok after_open
  pub pairs : dispatched_kept setup ev ≡ true
  pub dispatches :
      dispatch_all setup ev.cycle ev.dispatched ev.removed (dispatched_pair setup ev after_open)
      ≡ ok after_dispatch
  pub finishes : finish_event setup ev after_dispatch ≡ ok t

pub event-Stages :
    (setup : Setup) (ev : Event) (s t : Rules) → event setup ev s ≡ ok t → Stages setup ev s t
unfolding event
event-Stages setup ev s t h =
    bind-elim (retire_all setup ev.cycle 0 ev.retired (begun ev s)) _
      (demand-elim (widths_kept setup ev) _ h).1
      λ r hr h1.
        bind-elim (open_dispatch ev.cycle ev.dispatched (retired_pair ev r)) _
          (demand-elim (retired_kept setup ev) _ h1).1
          λ o ho h2.
            let (p, h3) = demand-elim (dispatched_kept setup ev) _ h2 in
            bind-elim
              (dispatch_all setup ev.cycle ev.dispatched ev.removed (dispatched_pair setup ev o)) _
              h3
              λ d hd h4. record {
                after_retire = r;
                after_open = o;
                after_dispatch = d;
                retires = hr;
                opens = ho;
                pairs = p;
                dispatches = hd;
                finishes = h4;
              }
