-- ===== src/Dispatch/Limits.antt =====
-- The completion queue and the renames in a trace that `check_rules` of sim/tools/check_dispatch_trace.py accepts.
use slo_ppc.Prelude.{
  ℕ, zero, suc, ◌+◌, ◌-◌, ◌≤◌, ◌≡◌, refl, sym, subst, arith, Bool, true, List, [], ◌∷◌, ◌++◌,
  length, take, drop, map, Option, none, some, ok, leb, leb→le, ◌&&◌, Bool-cases, inl, inr,
}
use slo_ppc.Dispatch.Classify.{InsnClass, Writes, classify}
use slo_ppc.Dispatch.Occupancy.{Peaks, live_classes, destinations, occupancy}
use slo_ppc.Dispatch.Rules.{
  Entry, Flush, live, flushed, removed, Rules, Setup, cls, is_flushed, initial_rules,
}
use slo_ppc.Dispatch.Event.{
  Event, event, check_events, finish_event, recover, flush_last, flush_entry, flush_of, in_flight,
  count_or_zero, is_past,
}
use slo_ppc.Dispatch.Known.{AllKnown}
use slo_ppc.Dispatch.Accounts.{dispatched_by, check_events-Accounted}
use slo_ppc.Dispatch.Untouched.{recover-Untouched, event-Stages}
use slo_ppc.Dispatch.Inversion.{bind-elim, demand-elim, ok_injective}

abbrev live_of : List Entry → List (Option InsnClass)
live_of es = live_classes (map in_flight es)

-- What the checker tests, on the classes of the entries.
record IsTested (es : List Entry) : Type 0 where
  queue : length (live_of es) ≤ 5
  gprs : destinations (λ w. w.gpr) (live_of es) ≤ 5
  fprs : destinations (λ w. w.fpr) (live_of es) ≤ 4

queue_test : List Entry → Bool
queue_test es = leb (length (live_of es)) 5

renames_test : List Entry → Bool
renames_test es =
    leb (destinations (λ w. w.gpr) (live_of es)) 5 && leb (destinations (λ w. w.fpr) (live_of es)) 4

occupancy-IsTested :
    (es : List Entry) (p : Peaks) {q : Peaks} → occupancy (map in_flight es) p ≡ ok q → IsTested es
unfolding occupancy queue_test renames_test
occupancy-IsTested es p h =
    let (a, h1) = demand-elim (queue_test es) _ h in
    let b = (demand-elim (renames_test es) _ h1).0 in
    record {
      queue = leb→le _ _ a;
      gprs = leb→le _ _ (ground arith);
      fprs = leb→le _ _ (ground arith);
    }

-- No more classes, and no more destinations of any kind.
record Fewer (xs ys : List (Option InsnClass)) : Type 0 where
  shorter : length xs ≤ length ys
  lighter : (kind : Writes → ℕ) → destinations kind xs ≤ destinations kind ys

Fewer-nil : (ys : List (Option InsnClass)) → Fewer [] ys
unfolding destinations
Fewer-nil ys = record { shorter = omega arith; lighter = λ kind. omega arith }

Fewer-cons :
    (c : Option InsnClass) (xs ys : List (Option InsnClass)) → Fewer xs ys → Fewer (c ∷ xs) (c ∷ ys)
unfolding destinations
Fewer-cons none xs ys h = record { shorter = omega (arith, h.shorter); lighter = h.lighter }
Fewer-cons (some c) xs ys h = record {
  shorter = omega (arith, h.shorter);
  lighter = λ kind. omega (arith, h.lighter kind);
}

live_of-flush :
    (f : Flush) (es : List Entry) → is_flushed f ≡ true → live_of (map (flush_entry f) es) ≡ []
unfolding live_classes
live_of-flush f [] h = refl
live_of-flush f (e ∷ es) h = rw h (live_of-flush f es h)

-- A recovery only takes classes away.
taken-Fewer :
    (n : ℕ) (f : Flush) (es : List Entry)
    → is_flushed f ≡ true
    → Fewer (live_of (take n es ++ map (flush_entry f) (drop n es))) (live_of es)
unfolding live_classes
taken-Fewer zero f es h = rw (live_of-flush f es h) (Fewer-nil (live_of es))
taken-Fewer (suc n) f [] h = Fewer-nil []
taken-Fewer (suc n) f (e ∷ es) h = elim (Bool-cases (is_flushed e.flush)) [
  | inl t ↦ rw t (taken-Fewer n f es h)
  | inr l ↦ rw l (Fewer-cons e.class _ _ (taken-Fewer n f es h))
]

flush_of-is_flushed : (o : Option ℕ) → is_flushed (flush_of o) ≡ true
flush_of-is_flushed none = refl
flush_of-is_flushed (some n) = refl

flush_last-IsTested :
    (n : ℕ) (o : Option ℕ) (es : List Entry) → IsTested es → IsTested (flush_last n (flush_of o) es)
unfolding flush_last
flush_last-IsTested n o es h =
    let f = taken-Fewer (length es - n) (flush_of o) es (flush_of-is_flushed o) in
    record {
      queue = omega (arith, f.shorter, h.queue);
      gprs = omega (arith, f.lighter (λ w. w.gpr), h.gprs);
      fprs = omega (arith, f.lighter (λ w. w.fpr), h.fprs);
    }

finish_event-IsTested :
    (setup : Setup) (ev : Event) (s : Rules) {t : Rules}
    → finish_event setup ev s ≡ ok t
    → IsTested t.inflight
unfolding finish_event
finish_event-IsTested setup ev s h =
    let n = count_or_zero ev.mispredict in
    bind-elim (occupancy (map in_flight s.inflight) s.peaks) _ h λ peaks hp h1.
      let counted = record s { peaks = peaks } in
      let h2 = (demand-elim (leb n (length s.inflight)) _ h1).1 in
      bind-elim (recover setup ev.cycle ev.mispredict ev.after counted) _ h2 λ u hu h3.
        let p = recover-Untouched setup ev.cycle ev.mispredict ev.after counted hu in
        let kept =
          subst (λ (l : List Entry). IsTested l) (sym p.inflight)
            (occupancy-IsTested s.inflight s.peaks hp) in
        subst (λ (x : Rules). IsTested x.inflight) (ok_injective h3)
          (flush_last-IsTested n ev.after u.inflight kept)

event-IsTested :
    (setup : Setup) (ev : Event) (s : Rules) {t : Rules}
    → event setup ev s ≡ ok t
    → IsTested t.inflight
event-IsTested setup ev s {t} h =
    let k = event-Stages setup ev s t h in
    finish_event-IsTested setup ev k.after_dispatch k.finishes

check_events-kept :
    (setup : Setup) (previous : Option ℕ) (evs : List Event) (s : Rules) {t : Rules}
    → IsTested s.inflight
    → check_events setup previous evs s ≡ ok t
    → IsTested t.inflight
unfolding check_events
check_events-kept setup previous [] s k h =
    subst (λ (x : Rules). IsTested x.inflight) (ok_injective h) k
check_events-kept setup previous (ev ∷ evs) s k h =
    let h1 = (demand-elim (is_past ev.cycle previous) _ h).1 in
    bind-elim (event setup ev s) _ h1
      λ u hu h2. check_events-kept setup (some ev.cycle) evs u (event-IsTested setup ev s hu) h2

-- The sum of a measure over the entries that no recovery has removed.
pub in_use : (Entry → ℕ) → List Entry → ℕ
in_use f [] = 0
in_use f (e ∷ es) = elim e.flush [ live ↦ f e | flushed ↦ 0 | removed ↦ 0 ] + in_use f es

abbrev pub one_each : Entry → ℕ
one_each e = 1

-- The results of one kind that the word of an entry has, none where the image has no word there.
abbrev pub written_by : (Writes → ℕ) → Setup → Entry → ℕ
written_by kind setup e = elim (setup.words e.pc) [
  | none ↦ 0
  | some word ↦ kind (classify word setup.sru).writes
]

live_of-in_use : (es : List Entry) → length (live_of es) ≡ in_use one_each es
unfolding live_classes in_use
live_of-in_use [] = refl
live_of-in_use (e ∷ es) = ground (arith, live_of-in_use es)

destinations-in_use :
    (kind : Writes → ℕ) (setup : Setup) (es : List Entry)
    → AllKnown setup es
    → destinations kind (live_of es) ≡ in_use (written_by kind setup) es
unfolding live_classes in_use destinations cls
destinations-in_use kind setup [] k = refl
destinations-in_use kind setup (e ∷ es) k =
    ground (arith, k.0, destinations-in_use kind setup es k.1)

-- Five instructions, five general and four floating-point results.
pub record WithinLimits (setup : Setup) (es : List Entry) : Type 0 where
  pub queue : in_use one_each es ≤ 5
  pub gprs : in_use (written_by (λ w. w.gpr) setup) es ≤ 5
  pub fprs : in_use (written_by (λ w. w.fpr) setup) es ≤ 4

-- After every trace that the checker accepts, the instructions that the events dispatched are as many as it counts
-- as dispatched, and as many as those that it counts as removed at dispatch, as retired or as dropped before
-- a retirement and those in the queue. At most five in the queue are ones that no recovery has removed, and
-- the words at the addresses of these have at most five general and four floating-point results by
-- `classify`, where an address without a word has none.
pub check_events-WithinLimits :
    (setup : Setup) (evs : List Event) (t : Rules)
    → check_events setup none evs initial_rules ≡ ok t
    → (dispatched_by evs
        ≡ t.stats.removals + (t.stats.retirements + t.stats.flushes) + length t.inflight)
      × (t.stats.dispatches ≡ dispatched_by evs)
      × WithinLimits setup t.inflight
unfolding live_classes destinations
check_events-WithinLimits setup evs t h =
    let a =
      check_events-Accounted setup none evs 0 initial_rules
        (record { known = tt; dispatched = refl; whole = omega arith }) h in
    let q =
      check_events-kept setup none evs initial_rules
        (record { queue = omega arith; gprs = omega arith; fprs = omega arith }) h in
    (
      omega (arith, a.whole),
      omega (arith, a.dispatched),
      record {
        queue = omega (arith, q.queue, live_of-in_use t.inflight);
        gprs = omega (arith, q.gprs, destinations-in_use (λ w. w.gpr) setup t.inflight a.known);
        fprs = omega (arith, q.fprs, destinations-in_use (λ w. w.fpr) setup t.inflight a.known);
      },
    )
