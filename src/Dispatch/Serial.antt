-- ===== src/Dispatch/Serial.antt =====
-- A dispatch-serialized instruction is alone in flight when the next is dispatched (`Rules.event` of
-- sim/tools/check_dispatch_trace.py).
use slo_ppc.Prelude.{
  ℕ, zero, suc, ◌+◌, ◌-◌, ◌<◌, ◌≡◌, ◌⊎◌, inl, inr, refl, subst, arith, Bool, true, false, List, [],
  ◌∷◌, ◌++◌, length, take, drop, map, Option, some, ok, leb, Bool-cases,
}
use slo_ppc.Dispatch.Classify.{InsnClass}
use slo_ppc.Dispatch.Occupancy.{occupancy}
use slo_ppc.Dispatch.Rules.{Entry, Flush, live, Rules, Setup, cls, when_known}
use slo_ppc.Dispatch.Stops.{fetch_stops}
use slo_ppc.Dispatch.Pairs.{may_remove}
use slo_ppc.Dispatch.Event.{
  Event, dispatch_one, dispatch_all, add_entry, remove_branch, finish_event, flush_last,
  flush_entry, flush_of, first_flag, ordered, count_or_zero, recover, in_flight,
}
use slo_ppc.Dispatch.Untouched.{fetch_stops-Untouched, recover-Untouched}
use slo_ppc.Dispatch.Numbered.{
  is_serial, Above, Rising, Blocked, Covered, IsQueue, Untouched-IsQueue,
}
use slo_ppc.Dispatch.Inversion.{bind-elim, demand-elim, ok_injective}

-- A new entry has the next number.
Above-append :
    (n : ℕ) (x : Entry) (es : List Entry) → n < x.seq → Above n es → Above n (es ++ x ∷ [])
Above-append n x [] h a = (h, tt)
Above-append n x (e ∷ es) h a = (a.0, Above-append n x es h a.1)

Rising-append :
    (last : ℕ) (x : Entry) (es : List Entry)
    → x.seq ≡ last + 1
    → Rising last es
    → Rising (last + 1) (es ++ x ∷ [])
Rising-append last x [] h r = (tt, omega arith, tt)
Rising-append last x (e ∷ es) h r = (
  Above-append e.seq x es (omega (arith, r.1)) r.0,
  omega (arith, r.1),
  Rising-append last x es h r.2,
)

Covered-append :
    (b : Option (ℕ × ℕ)) (x : Entry) (es : List Entry)
    → (is_serial x ≡ false) ⊎ Blocked x.seq b
    → Covered b es
    → Covered b (es ++ x ∷ [])
Covered-append b x [] h c = (h, tt)
Covered-append b x (e ∷ es) h c = (c.0, Covered-append b x es h c.1)

-- A block with the last number covers every entry.
Covered-last : (last c : ℕ) (es : List Entry) → Rising last es → Covered (some (last + 1, c)) es
Covered-last last c [] r = tt
Covered-last last c (e ∷ es) r = (inr (omega (arith, r.1)), Covered-last last c es r.2)

add_entry-IsQueue :
    (cycle pc : ℕ) (c : Option InsnClass) (s : Rules) → IsQueue s → IsQueue (add_entry cycle pc c s)
unfolding add_entry
add_entry-IsQueue cycle pc c s q =
    let x : Entry = record {
      pc = pc;
      cycle = cycle;
      seq = s.seq + 1;
      flush = live;
      class = c;
      order = s.order;
    } in
    record {
      rising = Rising-append s.seq x s.inflight refl q.rising;
      covered = elim (Bool-cases (when_known (λ k. k.dser) c)) [
        | inl serial ↦ rw serial (
            Covered-append (some (s.seq + 1, cycle)) x s.inflight (inr (omega arith))
              (Covered-last s.seq cycle s.inflight q.rising))
        | inr plain ↦ rw plain (Covered-append s.block x s.inflight (inl plain) q.covered)
      ];
    }

dispatch_one-IsQueue :
    (setup : Setup) (cycle pc : ℕ) (gone : Bool) (s : Rules) {t : Rules}
    → IsQueue s
    → dispatch_one setup cycle pc gone s ≡ ok t
    → IsQueue t
unfolding dispatch_one remove_branch
dispatch_one-IsQueue setup cycle pc true s q h =
    let c = cls setup pc in
    bind-elim (fetch_stops cycle pc c true s) _ h λ u hu h1.
      let p = Untouched-IsQueue s u (fetch_stops-Untouched cycle pc c true s hu) q in
      subst (λ (x : Rules). IsQueue x) (ok_injective (demand-elim (may_remove c) _ h1).1)
        (record { rising = p.rising; covered = p.covered })
dispatch_one-IsQueue setup cycle pc false s q h =
    let c = cls setup pc in
    bind-elim (fetch_stops cycle pc c false s) _ h λ u hu h1.
      let p = Untouched-IsQueue s u (fetch_stops-Untouched cycle pc c false s hu) q in
      subst (λ (x : Rules). IsQueue x) (ok_injective h1)
        (add_entry-IsQueue cycle pc c (ordered cycle pc c false u)
          (record { rising = p.rising; covered = p.covered }))

pub dispatch_all-IsQueue :
    (setup : Setup) (cycle : ℕ) (pcs : List ℕ) (gone : List Bool) (s : Rules) {t : Rules}
    → IsQueue s
    → dispatch_all setup cycle pcs gone s ≡ ok t
    → IsQueue t
unfolding dispatch_all
dispatch_all-IsQueue setup cycle [] gone s q h = subst (λ (x : Rules). IsQueue x) (ok_injective h) q
dispatch_all-IsQueue setup cycle (pc ∷ pcs) gone s q h =
    bind-elim (dispatch_one setup cycle pc (first_flag gone) s) _ h λ u hu h1.
      dispatch_all-IsQueue setup cycle pcs (drop 1 gone) u
        (dispatch_one-IsQueue setup cycle pc (first_flag gone) s q hu) h1

-- A recovery changes no number and no class.
abbrev marked : ℕ → Flush → List Entry → List Entry
marked n f es = take n es ++ map (flush_entry f) (drop n es)

Above-marked : (m n : ℕ) (f : Flush) (es : List Entry) → Above m es → Above m (marked n f es)
Above-marked m zero f [] a = tt
Above-marked m zero f (e ∷ es) a = (a.0, Above-marked m zero f es a.1)
Above-marked m (suc n) f [] a = tt
Above-marked m (suc n) f (e ∷ es) a = (a.0, Above-marked m n f es a.1)

Rising-marked :
    (last n : ℕ) (f : Flush) (es : List Entry) → Rising last es → Rising last (marked n f es)
Rising-marked last zero f [] r = tt
Rising-marked last zero f (e ∷ es) r =
    (Above-marked e.seq zero f es r.0, r.1, Rising-marked last zero f es r.2)
Rising-marked last (suc n) f [] r = tt
Rising-marked last (suc n) f (e ∷ es) r =
    (Above-marked e.seq n f es r.0, r.1, Rising-marked last n f es r.2)

Covered-marked :
    (b : Option (ℕ × ℕ)) (n : ℕ) (f : Flush) (es : List Entry)
    → Covered b es
    → Covered b (marked n f es)
Covered-marked b zero f [] c = tt
Covered-marked b zero f (e ∷ es) c = (c.0, Covered-marked b zero f es c.1)
Covered-marked b (suc n) f [] c = tt
Covered-marked b (suc n) f (e ∷ es) c = (c.0, Covered-marked b n f es c.1)

pub finish_event-IsQueue :
    (setup : Setup) (ev : Event) (s : Rules) {t : Rules}
    → IsQueue s
    → finish_event setup ev s ≡ ok t
    → IsQueue t
unfolding finish_event flush_last
finish_event-IsQueue setup ev s q h =
    let n = count_or_zero ev.mispredict in
    bind-elim (occupancy (map in_flight s.inflight) s.peaks) _ h λ peaks hp h1.
      let counted = record s { peaks = peaks } in
      let h2 = (demand-elim (leb n (length s.inflight)) _ h1).1 in
      bind-elim (recover setup ev.cycle ev.mispredict ev.after counted) _ h2 λ u hu h3.
        let same_queue : IsQueue counted = record { rising = q.rising; covered = q.covered } in
        let p =
          Untouched-IsQueue counted u
            (recover-Untouched setup ev.cycle ev.mispredict ev.after counted hu) same_queue in
        let k = length u.inflight - n in
        let f = flush_of ev.after in
        subst (λ (x : Rules). IsQueue x) (ok_injective h3)
          (record {
            rising = Rising-marked u.seq k f u.inflight p.rising;
            covered = Covered-marked u.block k f u.inflight p.covered;
          })
