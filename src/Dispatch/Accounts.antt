-- ===== src/Dispatch/Accounts.antt =====
-- Every dispatched instruction is accounted for, over the events of `check_rules` of
-- sim/tools/check_dispatch_trace.py.
use slo_ppc.Prelude.{
  ℕ, ◌+◌, ◌-◌, ◌≡◌, ◌∙◌, inl, inr, refl, sym, ap, subst, arith, Bool, true, false, List, [], ◌∷◌,
  length, drop, map, Option, some, ok, leb, length-append, length-drop,
}
use slo_ppc.Dispatch.Occupancy.{occupancy}
use slo_ppc.Dispatch.Rules.{Entry, live, Rules, Setup, cls}
use slo_ppc.Dispatch.Retire.{retire_one, retire_all}
use slo_ppc.Dispatch.Stops.{fetch_stops}
use slo_ppc.Dispatch.Pairs.{may_remove}
use slo_ppc.Dispatch.Event.{
  Event, event, check_events, dispatch_one, dispatch_all, add_entry, remove_branch, finish_event,
  flush_last, flush_of, first_flag, count_or_zero, recover, in_flight, begun, retired_pair,
  dispatched_pair, is_past,
}
use slo_ppc.Dispatch.Counts.{settled}
use slo_ppc.Dispatch.Known.{AllKnown, AllKnown-drop, AllKnown-append, AllKnown-marked}
use slo_ppc.Dispatch.Retirements.{Retirement, retire_one-cases}
use slo_ppc.Dispatch.Untouched.{
  Untouched, fetch_stops-Untouched, recover-Untouched, count_all-Untouched, event-Stages,
}
use slo_ppc.Dispatch.Alone.{open_dispatch-same}
use slo_ppc.Dispatch.Inversion.{bind-elim, demand-elim, ok_injective}

-- Of `n` dispatched instructions each has left the trace or is in the queue.
pub record Accounted (setup : Setup) (n : ℕ) (s : Rules) : Type 0 where
  pub known : AllKnown setup s.inflight
  pub dispatched : s.stats.dispatches ≡ n
  pub whole : n ≡ settled s + length s.inflight

Untouched-Accounted :
    (setup : Setup) (n : ℕ) (s t : Rules)
    → Untouched s t
    → Accounted setup n s
    → Accounted setup n t
Untouched-Accounted setup n s t u a = record {
  known = subst (λ (l : List Entry). AllKnown setup l) (sym u.inflight) a.known;
  dispatched = ap (λ (c : ℕ × ℕ). c.0) u.counts ∙ a.dispatched;
  whole = omega (
    arith,
    a.whole,
    ap (λ (c : ℕ × ℕ). c.1) u.counts,
    ap (λ (l : List Entry). length l) u.inflight,
  );
}

Retirement-Accounted :
    (setup : Setup) (cycle pc n : ℕ) (s t : Rules)
    → Retirement setup cycle pc s t
    → Accounted setup n s
    → Accounted setup n t
Retirement-Accounted setup cycle pc n s t k a = record {
  known =
      (subst (λ (l : List Entry). AllKnown setup l) k.stands
        (AllKnown-drop setup k.index s.inflight a.known)).1;
  dispatched = ap (λ (c : ℕ × ℕ). c.0) k.counts ∙ a.dispatched;
  whole = omega (
    arith,
    a.whole,
    ap (λ (c : ℕ × ℕ). c.1) k.counts,
    ap (λ (l : List Entry). length l) k.stands,
    length-drop k.index s.inflight,
  );
}

retire_all-Accounted :
    (setup : Setup) (cycle slot n : ℕ) (pcs : List ℕ) (s : Rules) {t : Rules}
    → Accounted setup n s
    → retire_all setup cycle slot pcs s ≡ ok t
    → Accounted setup n t
unfolding retire_all
retire_all-Accounted setup cycle slot n [] s a h =
    subst (λ (x : Rules). Accounted setup n x) (ok_injective h) a
retire_all-Accounted setup cycle slot n (pc ∷ pcs) s a h =
    bind-elim (retire_one setup cycle slot pc s) _ h λ u hu h1.
      retire_all-Accounted setup cycle (slot + 1) n pcs u
        (elim (retire_one-cases setup cycle slot pc s hu) [
          | inl more ↦
              Untouched-Accounted setup n s u
                (record {
                  inflight = more.same_inflight;
                  block = more.same_block;
                  seq = more.same_seq;
                  counts = more.same_counts;
                })
                a
          | inr k ↦ Retirement-Accounted setup cycle pc n s u k a
        ])
        h1

-- A dispatch takes an entry, or settles a branch at once.
dispatch_one-Accounted :
    (setup : Setup) (cycle pc n : ℕ) (gone : Bool) (s : Rules) {t : Rules}
    → Accounted setup n s
    → dispatch_one setup cycle pc gone s ≡ ok t
    → Accounted setup (n + 1) t
unfolding dispatch_one remove_branch add_entry
dispatch_one-Accounted setup cycle pc n true s a h =
    let c = cls setup pc in
    bind-elim (fetch_stops cycle pc c true s) _ h λ u hu h1.
      let p = Untouched-Accounted setup n s u (fetch_stops-Untouched cycle pc c true s hu) a in
      subst (λ (x : Rules). Accounted setup (n + 1) x)
        (ok_injective (demand-elim (may_remove c) _ h1).1)
        (record {
          known = p.known;
          dispatched = omega (arith, p.dispatched);
          whole = omega (arith, p.whole);
        })
dispatch_one-Accounted setup cycle pc n false s a h =
    let c = cls setup pc in
    bind-elim (fetch_stops cycle pc c false s) _ h λ u hu h1.
      let p = Untouched-Accounted setup n s u (fetch_stops-Untouched cycle pc c false s hu) a in
      let x : Entry = record {
        pc = pc;
        cycle = cycle;
        seq = u.seq + 1;
        flush = live;
        class = c;
        order = u.order + 1;
      } in
      subst (λ (x : Rules). Accounted setup (n + 1) x) (ok_injective h1)
        (record {
          known = AllKnown-append setup x u.inflight refl p.known;
          dispatched = omega (arith, p.dispatched);
          whole = omega (arith, p.whole, length-append u.inflight (x ∷ []));
        })

dispatch_all-Accounted :
    (setup : Setup) (cycle n : ℕ) (pcs : List ℕ) (gone : List Bool) (s : Rules) {t : Rules}
    → Accounted setup n s
    → dispatch_all setup cycle pcs gone s ≡ ok t
    → Accounted setup (n + length pcs) t
unfolding dispatch_all
dispatch_all-Accounted setup cycle n [] gone s {t} a h =
    subst (λ (k : ℕ). Accounted setup k t) (omega arith)
      (subst (λ (x : Rules). Accounted setup n x) (ok_injective h) a)
dispatch_all-Accounted setup cycle n (pc ∷ pcs) gone s {t} a h =
    bind-elim (dispatch_one setup cycle pc (first_flag gone) s) _ h λ u hu h1.
      subst (λ (k : ℕ). Accounted setup k t) (omega arith)
        (dispatch_all-Accounted setup cycle (n + 1) pcs (drop 1 gone) u
          (dispatch_one-Accounted setup cycle pc n (first_flag gone) s a hu) h1)

finish_event-Accounted :
    (setup : Setup) (ev : Event) (n : ℕ) (s : Rules) {t : Rules}
    → Accounted setup n s
    → finish_event setup ev s ≡ ok t
    → Accounted setup n t
unfolding finish_event flush_last
finish_event-Accounted setup ev n s a h =
    let m = count_or_zero ev.mispredict in
    bind-elim (occupancy (map in_flight s.inflight) s.peaks) _ h λ peaks hp h1.
      let counted = record s { peaks = peaks } in
      let h2 = (demand-elim (leb m (length s.inflight)) _ h1).1 in
      bind-elim (recover setup ev.cycle ev.mispredict ev.after counted) _ h2 λ u hu h3.
        let p =
          Untouched-Accounted setup n counted u
            (recover-Untouched setup ev.cycle ev.mispredict ev.after counted hu)
            (record { known = a.known; dispatched = a.dispatched; whole = a.whole }) in
        let k =
          AllKnown-marked setup (length u.inflight - m) (flush_of ev.after) u.inflight p.known in
        subst (λ (x : Rules). Accounted setup n x) (ok_injective h3)
          (record { known = k.0; dispatched = p.dispatched; whole = omega (arith, p.whole, k.1) })

event-Accounted :
    (setup : Setup) (ev : Event) (n : ℕ) (s : Rules) {t : Rules}
    → Accounted setup n s
    → event setup ev s ≡ ok t
    → Accounted setup (n + length ev.dispatched) t
unfolding dispatched_pair
event-Accounted setup ev n s {t} a h =
    let k = event-Stages setup ev s t h in
    let r =
      retire_all-Accounted setup ev.cycle 0 n ev.retired (begun ev s)
        (record { known = a.known; dispatched = a.dispatched; whole = a.whole }) k.retires in
    let o =
      Untouched-Accounted setup n (retired_pair ev k.after_retire) k.after_open
        (open_dispatch-same ev.cycle ev.dispatched (retired_pair ev k.after_retire) k.opens)
        (record { known = r.known; dispatched = r.dispatched; whole = r.whole }) in
    let c =
      Untouched-Accounted setup n k.after_open _
        (count_all-Untouched setup ev.dispatched k.after_open) o in
    let d =
      dispatch_all-Accounted setup ev.cycle n ev.dispatched ev.removed
        (dispatched_pair setup ev k.after_open)
        (record { known = c.known; dispatched = c.dispatched; whole = c.whole }) k.dispatches in
    finish_event-Accounted setup ev (n + length ev.dispatched) k.after_dispatch d k.finishes

-- The number of instructions that the events dispatch.
abbrev pub dispatched_by : List Event → ℕ
dispatched_by [] = 0
dispatched_by (ev ∷ evs) = length ev.dispatched + dispatched_by evs

pub check_events-Accounted :
    (setup : Setup) (previous : Option ℕ) (evs : List Event) (n : ℕ) (s : Rules) {t : Rules}
    → Accounted setup n s
    → check_events setup previous evs s ≡ ok t
    → Accounted setup (n + dispatched_by evs) t
unfolding check_events
check_events-Accounted setup previous [] n s {t} a h =
    subst (λ (k : ℕ). Accounted setup k t) (omega arith)
      (subst (λ (x : Rules). Accounted setup n x) (ok_injective h) a)
check_events-Accounted setup previous (ev ∷ evs) n s {t} a h =
    bind-elim (event setup ev s) _ (demand-elim (is_past ev.cycle previous) _ h).1 λ u hu h1.
      subst (λ (k : ℕ). Accounted setup k t) (omega arith)
        (check_events-Accounted setup (some ev.cycle) evs (n + length ev.dispatched) u
          (event-Accounted setup ev n s a hu) h1)
