-- ===== src/Perf/Fetching.antt =====
-- The fetch loop of `schedule` of sim/tools/perf_model_603e.py ends.
use slo_ppc.Prelude.{
  ℕ, zero, suc, ◌+◌, ◌≤◌, ◌<◌, ◌≡◌, max, refl, subst, arith, Bool, true, ◌&&◌, List, [], ◌∷◌, take,
  Option, none, some, ltb, leb, ◌==◌, Bool-cases, inl, inr,
}
use slo_ppc.Integer.Word.{int}
use slo_ppc.Perf.Insn.{Insn}
use slo_ppc.Perf.Model.{State, Entry}
use slo_ppc.Perf.Search.{sum_of}
use slo_ppc.Perf.Slots.{horizon}
use slo_ppc.Perf.Fetch.{
  may_fetch, queued, restarted, can_fetch, fetch_from, fetch_cycle, last_fetch,
}
use slo_ppc.Perf.Schedule.{◌>>=◌}

-- That a chain of calls returns.
abbrev pub Returns : {A : Type 0} → Option A → Type 0
Returns {A} m = (a : A) × (m ≡ some a)

pub >>=-Returns :
    {A B : Type 0} (m : Option A) (f : A → Option B)
    → Returns m
    → ((a : A) → m ≡ some a → Returns (f a))
    → Returns (m >>= f)
>>=-Returns none f h k = absurd (ground arith)
>>=-Returns (some a) f h k = k a refl

-- The queue of instructions is empty from the horizon on, but for one that is fetched then.
queued-horizon :
    (k j : ℕ) (nb : List Entry) (f : ℕ)
    → horizon nb ≤ f
    → sum_of (λ (q : Entry). int (ltb q.fetched f && leb f q.dispatched)) (take k nb)
        + sum_of (λ (q : Entry). int (q.fetched == f)) (take j nb)
      ≡ 0
unfolding sum_of horizon
queued-horizon zero zero nb f h = refl
queued-horizon (suc k) (suc j) [] f h = refl
queued-horizon zero (suc j) [] f h = refl
queued-horizon (suc k) zero [] f h = refl
queued-horizon (suc k) (suc j) (q ∷ qs) f h = ground (arith, queued-horizon k j qs f (omega arith))
queued-horizon zero (suc j) (q ∷ qs) f h = ground (arith, queued-horizon zero j qs f (omega arith))
queued-horizon (suc k) zero (q ∷ qs) f h = ground (arith, queued-horizon k zero qs f (omega arith))

may_fetch-later :
    (any : Bool) (hist : List (ℕ × ℕ)) (pc f : ℕ)
    → last_fetch hist < f
    → may_fetch any hist pc f ≡ true
unfolding may_fetch last_fetch
may_fetch-later any [] pc f h = refl
may_fetch-later any (x ∷ hist) pc f h = ground arith

can_fetch-later :
    (any : Bool) (s : State) (ins : Insn) (f : ℕ)
    → last_fetch s.fetch_hist < f
    → horizon s.nb_hist ≤ f
    → can_fetch any s ins f ≡ true
unfolding can_fetch queued
can_fetch-later any s ins f h k =
    ground (arith, queued-horizon 8 2 s.nb_hist f k, may_fetch-later any s.fetch_hist ins.pc f h)

restarted-le : (s : State) (f : ℕ) → f ≤ restarted s f
unfolding restarted
restarted-le s f = ground arith

-- The fetch returns once the fuel reaches past every fetch and dispatch.
fetch_from-Returns :
    (fuel : ℕ) (any : Bool) (s : State) (ins : Insn) (f : ℕ)
    → last_fetch s.fetch_hist + horizon s.nb_hist < f + fuel
    → Returns (fetch_from (suc fuel) any s ins f)
unfolding fetch_from
fetch_from-Returns zero any s ins f h =
    let le = restarted-le s f in
    let fetches = can_fetch-later any s ins (restarted s f) (omega arith) (omega arith) in
    (restarted s f, rw (fetches, fetch_from) refl)
fetch_from-Returns (suc fuel) any s ins f h =
    elim (Bool-cases (can_fetch any s ins (restarted s f))) [
      | inl t ↦ (restarted s f, rw (t, fetch_from) refl)
      | inr busy ↦
          let le = restarted-le s f in
          let (g, e) = fetch_from-Returns fuel any s ins (restarted s f + 1) (omega arith) in
          (g, rw (busy, fetch_from) e)
    ]

pub fetch_cycle-Returns : (any : Bool) (s : State) (ins : Insn) → Returns (fetch_cycle any s ins)
unfolding fetch_cycle
fetch_cycle-Returns any s ins =
    let reach = s.stop_until + last_fetch s.fetch_hist + horizon s.nb_hist in
    let from = max s.redirect (last_fetch s.fetch_hist) in
    let enough : suc (reach + 1) ≡ reach + 2 = omega arith in
    subst (λ n. Returns (fetch_from n any s ins from)) enough
      (fetch_from-Returns (reach + 1) any s ins from (omega arith))
