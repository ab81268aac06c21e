-- ===== src/Perf/Progress.antt =====
-- When the loops of `schedule` of sim/tools/perf_model_603e.py end.
use slo_ppc.Prelude.{
  ℕ, zero, suc, ◌+◌, ◌≤◌, ◌<◌, ◌≡◌, ◌⊎◌, refl, arith, true, false, ◌&&◌, List, [], ◌∷◌, length,
  take, Option, none, some, Bool-cases, inl, inr,
}
use slo_ppc.Perf.Insn
use slo_ppc.Perf.Insn.{Insn, Station}
use slo_ppc.Perf.Model.{Core, Entry, same_unit, cycle_or_zero}
use slo_ppc.Perf.Search.{first_cycle, first_cycle_within, first_cycle-none, sum_of}
use slo_ppc.Perf.Slots.{
  is_blocked, is_pair, is_free, free_units, available, wanted_units, busy_buffers, busy_renames,
  has_units, has_left, can_dispatch, dispatch_cycle, horizon, units_horizon, gpr_limit,
}

-- No instruction is in flight from the horizon on.
is_pair-horizon : (nb : List Entry) (m : ℕ) → horizon nb ≤ m → is_pair nb m ≡ false
unfolding is_pair horizon
is_pair-horizon [] m h = refl
is_pair-horizon (q ∷ qs) m h = ground arith

busy_buffers-horizon :
    (core : Core) (k : ℕ) (nb : List Entry) (m : ℕ)
    → horizon nb ≤ m
    → busy_buffers core m (take k nb) ≡ 0
unfolding busy_buffers horizon sum_of
busy_buffers-horizon core zero nb m h = refl
busy_buffers-horizon core (suc k) [] m h = refl
busy_buffers-horizon core (suc k) (q ∷ qs) m h =
    ground (arith, busy_buffers-horizon core k qs m (omega arith))

busy_renames-horizon :
    (k : ℕ) (nb : List Entry) (m : ℕ) → horizon nb ≤ m → busy_renames m (take k nb) ≡ 0
unfolding busy_renames horizon sum_of
busy_renames-horizon zero nb m h = refl
busy_renames-horizon (suc k) [] m h = refl
busy_renames-horizon (suc k) (q ∷ qs) m h =
    ground (arith, busy_renames-horizon k qs m (omega arith))

-- And every unit of a list is free.
free-horizon :
    (starts : Station → Option ℕ) (nb : List Entry) (m : ℕ) (u : Station) (us : List Station)
    → horizon nb ≤ m
    → units_horizon starts (u ∷ us) ≤ m
    → has_units (free_units starts nb m (u ∷ us)) ≡ true
unfolding free_units is_free has_units units_horizon
free-horizon starts nb m u us h k =
    let e = is_pair-horizon nb m h in
    let left = has_left-le (starts u) m (omega arith) in ground arith
  where
    has_left-le : (o : Option ℕ) (m : ℕ) → cycle_or_zero o ≤ m → has_left o m ≡ true
    has_left-le none m h = refl
    has_left-le (some s) m h = ground arith

units_horizon-parts :
    (starts : Station → Option ℕ) (u : Station) (us : List Station) (m : ℕ)
    → units_horizon starts (Insn.iu ∷ Insn.sru ∷ u ∷ us) ≤ m
    → (units_horizon starts (Insn.iu ∷ []) ≤ m) × (units_horizon starts (u ∷ us) ≤ m)
unfolding units_horizon
units_horizon-parts starts u us m h = (omega arith, omega arith)

available-horizon :
    (core : Core) (starts : Station → Option ℕ) (nb : List Entry) (ins : Insn) (u : Station)
    (us : List Station) (m : ℕ)
    → horizon nb ≤ m
    → units_horizon starts (Insn.iu ∷ Insn.sru ∷ u ∷ us) ≤ m
    → has_units (available core starts nb ins (u ∷ us) m) ≡ true
unfolding available wanted_units
available-horizon core starts nb ins u us m h k =
    let e = is_pair-horizon nb m h in
    let parts = units_horizon-parts starts u us m k in
    elim (Bool-cases (core.dq0_iu && same_unit ins.unit Insn.add)) [
      | inl t ↦ rw (t, e) (free-horizon starts nb m Insn.iu [] h parts.0)
      | inr f ↦ rw f (free-horizon starts nb m u us h parts.1)
    ]

can_dispatch-horizon :
    (core : Core) (starts : Station → Option ℕ) (nb : List Entry) (ins : Insn) (u : Station)
    (us : List Station) (m : ℕ)
    → length ins.dst ≤ gpr_limit
    → horizon nb ≤ m
    → units_horizon starts (Insn.iu ∷ Insn.sru ∷ u ∷ us) ≤ m
    → can_dispatch core starts nb ins (u ∷ us) m ≡ true
unfolding can_dispatch is_blocked
can_dispatch-horizon core starts nb ins u us m few h k =
    let free = available-horizon core starts nb ins u us m h k in
    let pair = is_pair-horizon nb m h in
    let buffers = busy_buffers-horizon core 7 nb m h in
    let renames = busy_renames-horizon 7 nb m h in ground arith

can_dispatch-few :
    (core : Core) (starts : Station → Option ℕ) (nb : List Entry) (ins : Insn)
    (units : List Station) (m : ℕ)
    → gpr_limit < length ins.dst
    → can_dispatch core starts nb ins units m ≡ false
unfolding can_dispatch
can_dispatch-few core starts nb ins units m many = ground arith

-- `dispatch_cycle` for an instruction with a unit ends if the instruction writes at most five general registers. If
-- it writes more, as an lmw of six registers does, the loop never ends, whatever is in flight.
pub dispatch_cycle_ends :
    (core : Core) (starts : Station → Option ℕ) (nb : List Entry) (ins : Insn) (u : Station)
    (us : List Station) (d : ℕ)
    → ((length ins.dst ≤ 5) × ((c : ℕ) × (dispatch_cycle core starts nb ins (u ∷ us) d ≡ some c)))
      ⊎ ((5 < length ins.dst)
          × ((fuel : ℕ) → first_cycle fuel (can_dispatch core starts nb ins (u ∷ us)) d ≡ none))
unfolding dispatch_cycle
dispatch_cycle_ends core starts nb ins u us d =
    let last = horizon nb + units_horizon starts (Insn.iu ∷ Insn.sru ∷ u ∷ us) in
    elim (five_or_more (length ins.dst)) [
      | inl few ↦ inl (
        few,
        first_cycle_within last (can_dispatch core starts nb ins (u ∷ us)) d (
            can_dispatch-horizon core starts nb ins u us (d + last) few (omega arith)
              (omega arith)),
      )
      | inr many ↦ inr (
        many,
        λ fuel.
            first_cycle-none fuel (can_dispatch core starts nb ins (u ∷ us)) d
              (λ m after. can_dispatch-few core starts nb ins (u ∷ us) m many),
      )
    ]
  where
    five_or_more : (n : ℕ) → (n ≤ 5) ⊎ (5 < n)
    five_or_more n = omega arith
