-- ===== src/Dispatch/Alone.antt =====
-- A dispatch-serialized instruction has retired when the next instruction is dispatched (`Rules.event` of
-- sim/tools/check_dispatch_trace.py).
use slo_ppc.Prelude.{
  ℕ, ◌<◌, ◌≡◌, ◌∙◌, inl, inr, sym, subst, refl, arith, true, false, List, [], ◌∷◌, length, Option,
  none, some, ok,
}
use slo_ppc.Dispatch.Rules.{Entry, Rules, Setup, initial_rules}
use slo_ppc.Dispatch.Retire.{retire_all}
use slo_ppc.Dispatch.Event.{
  Event, event, check_events, begun, retired_pair, dispatched_pair, open_dispatch, is_past, is_none,
}
use slo_ppc.Dispatch.Untouched.{
  Untouched, same, event-Stages, open_dispatch-Untouched, count_all-Untouched,
}
use slo_ppc.Dispatch.Numbered.{is_serial, Covered, IsQueue, retire_all-IsQueue, Untouched-IsQueue}
use slo_ppc.Dispatch.Serial.{dispatch_all-IsQueue, finish_event-IsQueue}
use slo_ppc.Dispatch.Inversion.{bind-elim, demand-elim, ok_injective}

abbrev pub NoSerial : List Entry → Type 0
NoSerial [] = Unit {0}
NoSerial (e ∷ es) = (is_serial e ≡ false) × NoSerial es

Covered-NoSerial : (es : List Entry) → Covered none es → NoSerial es
Covered-NoSerial [] c = tt
Covered-NoSerial (e ∷ es) c =
    (elim c.0 [ inl plain ↦ plain | inr below ↦ absurd below ], Covered-NoSerial es c.1)

pub open_dispatch-same :
    (cycle : ℕ) (pcs : List ℕ) (s : Rules) {t : Rules}
    → open_dispatch cycle pcs s ≡ ok t
    → Untouched s t
unfolding open_dispatch
open_dispatch-same cycle [] s h = subst (λ (x : Rules). Untouched s x) (ok_injective h) (same s)
open_dispatch-same cycle (pc ∷ pcs) s h = (open_dispatch-Untouched cycle pc pcs s h).0

event-IsQueue :
    (setup : Setup) (ev : Event) (s : Rules) {t : Rules}
    → IsQueue s
    → event setup ev s ≡ ok t
    → IsQueue t
unfolding dispatched_pair
event-IsQueue setup ev s {t} q h =
    let k = event-Stages setup ev s t h in
    let r =
      retire_all-IsQueue setup ev.cycle 0 ev.retired (begun ev s)
        (record { rising = q.rising; covered = q.covered }) k.retires in
    let o =
      Untouched-IsQueue (retired_pair ev k.after_retire) k.after_open
        (open_dispatch-same ev.cycle ev.dispatched (retired_pair ev k.after_retire) k.opens)
        (record { rising = r.rising; covered = r.covered }) in
    let c =
      Untouched-IsQueue k.after_open _ (count_all-Untouched setup ev.dispatched k.after_open) o in
    let d =
      dispatch_all-IsQueue setup ev.cycle ev.dispatched ev.removed
        (dispatched_pair setup ev k.after_open) (record { rising = c.rising; covered = c.covered })
        k.dispatches in
    finish_event-IsQueue setup ev k.after_dispatch d k.finishes

check_events-IsQueue :
    (setup : Setup) (previous : Option ℕ) (evs : List Event) (s : Rules) {t : Rules}
    → IsQueue s
    → check_events setup previous evs s ≡ ok t
    → IsQueue t
unfolding check_events
check_events-IsQueue setup previous [] s q h = subst (λ (x : Rules). IsQueue x) (ok_injective h) q
check_events-IsQueue setup previous (ev ∷ evs) s q h =
    bind-elim (event setup ev s) _ (demand-elim (is_past ev.cycle previous) _ h).1
      λ u hu h1. check_events-IsQueue setup (some ev.cycle) evs u (event-IsQueue setup ev s q hu) h1

block-none : (b : Option (ℕ × ℕ)) → is_none b ≡ true → b ≡ none
block-none none h = refl
block-none (some b) h = cc

-- When an event of an accepted trace dispatches an instruction, no dispatch-serialized instruction is in flight after
-- the event's retirements.
pub event_alone :
    (setup : Setup) (evs : List Event) (ev : Event) (s t : Rules)
    → check_events setup none evs initial_rules ≡ ok s
    → event setup ev s ≡ ok t
    → 0 < length ev.dispatched
    → (r : Rules) × (retire_all setup ev.cycle 0 ev.retired (begun ev s) ≡ ok r)
      × NoSerial r.inflight
event_alone setup evs ev s t reached h some_pc =
    let q =
      check_events-IsQueue setup none evs initial_rules (record { rising = tt; covered = tt })
        reached in
    let k = event-Stages setup ev s t h in
    let r =
      retire_all-IsQueue setup ev.cycle 0 ev.retired (begun ev s)
        (record { rising = q.rising; covered = q.covered }) k.retires in
    let free = opened (retired_pair ev k.after_retire) ev.cycle ev.dispatched some_pc k.opens in
    (
      k.after_retire,
      k.retires,
      Covered-NoSerial k.after_retire.inflight
          (subst (λ (b : Option (ℕ × ℕ)). Covered b k.after_retire.inflight) free r.covered),
    )
  where
    opened :
        (s : Rules) (cycle : ℕ) (pcs : List ℕ) {t : Rules}
        → 0 < length pcs
        → open_dispatch cycle pcs s ≡ ok t
        → s.block ≡ none
    opened s cycle [] h k = absurd (omega arith)
    opened s cycle (pc ∷ pcs) {t} h k =
        let p = open_dispatch-Untouched cycle pc pcs s k in sym p.0.block ∙ block-none t.block p.1
