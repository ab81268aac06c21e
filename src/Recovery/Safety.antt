-- ===== src/Recovery/Safety.antt =====
-- An edge from a state with the invariant, on arguments that the code accepts, raises nothing and keeps
-- the invariant; so does every run from `reset`.
use slo_ppc.Prelude.{
  ℕ, ◌-◌, ◌<◌, ◌≡◌, refl, arith, Bool, true, false, ◌&&◌, Option, some, List, ◌⊎◌, [], ◌∷◌, Result,
  ok, raise, ◌>>=◌, replicate, inl, inr, Bool-cases, ◌^◌,
}
use slo_ppc.Recovery.Dict.{has}
use slo_ppc.Recovery.State.{
  Tag, tag_eq, Producer, local, external, unknown, Error, value_error, Commit, Events, Model,
  candidate, reset, make,
}
use slo_ppc.Recovery.Step.{
  Input, Cut, decide, killed_of, redirected, finished, may_retire, retired_head, issued,
  free_rename, may_allocate, allocated,
}
use slo_ppc.Recovery.Edge.{dst_valid, producer_valid, rebuild, edge, step}
use slo_ppc.Recovery.Tokens.{is_unknown}
use slo_ppc.Recovery.Invariant.{Inv, Since, replay, Ascending, reset-Inv}
use slo_ppc.Recovery.Phases.{decide-IsCut, redirected-Inv}
use slo_ppc.Recovery.Owners.{finished-Inv, issued-Inv}
use slo_ppc.Recovery.Ends.{retires-head_done, retired_head-Inv}
use slo_ppc.Recovery.Allocation.{candidate-slot, may_allocate-facts, allocates-Inv}
use slo_ppc.Recovery.Sound.{check-Inv}

-- The arguments that `step` accepts.
pub record IsInput (i : Input) : Type 0 where
  pub dst_ok : dst_valid i.dst ≡ true
  pub producer_ok : producer_valid i.producer_kind ≡ true

-- The phases of an edge, each with its result.
abbrev pub cut_phase : Model → Input → Cut
cut_phase m i = decide i.redirect m.entries

abbrev pub finish_phase : Model → Input → Model × Option Tag
finish_phase m i = finished i.result m.tokens (redirected m (cut_phase m i))

abbrev pub retire_phase : Model → Input → Model × Option Commit
retire_phase m i =
    let f = (finish_phase m i).0 in
    retired_head (may_retire m.entries (cut_phase m i).survivors i.retire_ready) f.entries f

abbrev pub issue_phase : Model → Input → Model × Bool
issue_phase m i = issued i.issue i.producer_kind (retire_phase m i).0

abbrev pub allows : Model → Input → Tag → Bool
allows m i tag =
    may_allocate i (cut_phase m i).accepted tag (free_rename m.rename_depth 0 m.entries) m.entries m
      m.tokens

abbrev pub allocate_phase : Model → Input → Tag → Model × Option Tag
allocate_phase m i tag =
    allocated (allows m i tag) i tag (free_rename m.rename_depth 0 m.entries) (issue_phase m i).0

abbrev pub outcome : Model → Input → Tag → Model × Events
outcome m i tag = (
  rebuild (allocate_phase m i tag).0,
  record {
    allocated = (allocate_phase m i tag).1;
    finished = (finish_phase m i).1;
    committed = (retire_phase m i).1;
    killed = killed_of m.entries (cut_phase m i).survivors;
    redirect_accepted = (cut_phase m i).accepted;
    redirect_rejected = (cut_phase m i).rejected;
    issue_accepted = (issue_phase m i).1;
    result_consumed = has i.result;
  },
)

edge-eq-outcome :
    (m : Model) (i : Input) (tag : Tag)
    → candidate (issue_phase m i).0 ≡ ok tag
    → edge m i ≡ ok (outcome m i tag)
unfolding edge
edge-eq-outcome m i tag h = rw h refl

known_kind : (k : Producer) → producer_valid k ≡ true → is_unknown (some k) ≡ false
known_kind local h = refl
known_kind external h = refl
known_kind unknown h = cc

module _ (m : Model) (i : Input) (v : Inv m) (h : IsInput i) where
  after_issue : Inv (issue_phase m i).0 × Since m (issue_phase m i).0
  after_issue =
      let c = decide-IsCut i.redirect m.entries in
      let a = redirected-Inv m (cut_phase m i) c v in
      let b = finished-Inv m (redirected m (cut_phase m i)) a.0 a.1 i.result m.tokens in
      let d =
        retired_head-Inv (may_retire m.entries (cut_phase m i).survivors i.retire_ready) m
          (finish_phase m i).0 b.0 b.1
          (retires-head_done m (cut_phase m i) i.retire_ready i.result c) in
      issued-Inv m (retire_phase m i).0 d.0 d.1 i.issue i.producer_kind
        (known_kind i.producer_kind h.producer_ok)

  pub tag_exists :
      (t : Tag) × (candidate (issue_phase m i).0 ≡ ok t) × (t.slot ≡ (issue_phase m i).0.tail)
  tag_exists = candidate-slot (issue_phase m i).0 after_issue.0

  after_allocate : Inv (allocate_phase m i tag_exists.0).0
  after_allocate =
      let t = tag_exists in
      allocates-Inv m (issue_phase m i).0 i t.0 after_issue.0 after_issue.1 t.2 h.dst_ok
        (allows m i t.0)
        (λ e.
          let f =
            may_allocate-facts i (cut_phase m i).accepted t.0
              (free_rename m.rename_depth 0 m.entries) m e in
          (f.0, f.1))

  pub after_edge : Inv (outcome m i tag_exists.0).0
  after_edge =
      let w = after_allocate in
      record {
        generations_size = w.generations_size;
        arch_size = w.arch_size;
        tail_in = w.tail_in;
        head = w.head;
        head_in = w.head_in;
        slots = w.slots;
        fits = w.fits;
        oldest = w.oldest;
        serials = w.serials;
        past = w.past;
        renamed = w.renamed;
        dsts = w.dsts;
        tokened = w.tokened;
        live = w.live;
        known = w.known;
        replayed = w.replayed;
      }

  pub step-eq-outcome : step m i ≡ ok (outcome m i tag_exists.0)
  unfolding step
  step-eq-outcome =
      rw
        (
          h.dst_ok,
          h.producer_ok,
          edge-eq-outcome m i tag_exists.0 tag_exists.1,
          check-Inv (allocate_phase m i tag_exists.0).0 after_allocate,
        )
        refl

  pub step-Inv : (r : Model × Events) × (step m i ≡ ok r) × Inv r.0
  step-Inv = (outcome m i tag_exists.0, step-eq-outcome, after_edge)

step_refuses :
    (m : Model) (i : Input)
    → (dst_valid i.dst && producer_valid i.producer_kind) ≡ false
    → step m i ≡ raise value_error
unfolding step
step_refuses m i h = ground arith

-- From a state with the invariant, on any arguments, `step` either returns or raises a `ValueError`. It
-- returns on the arguments that it accepts: then it fails no assertion, reads no missing index and finds
-- every entry that it looks for, and the new state has the invariant. On all others it raises the error.
pub step_outcomes :
    (m : Model) (i : Input)
    → Inv m
    → (IsInput i × ((r : Model × Events) × (step m i ≡ ok r) × Inv r.0))
      ⊎ ((¬ IsInput i) × (step m i ≡ raise value_error))
step_outcomes m i v = elim (Bool-cases (dst_valid i.dst && producer_valid i.producer_kind)) [
  | inl accepted ↦
      let h : IsInput i = record { dst_ok = ground arith; producer_ok = ground arith } in
      inl (h, step-Inv m i v h)
  | inr refused ↦
      inr (λ h. ground (arith, h.dst_ok, h.producer_ok, refused), step_refuses m i refused)
]

-- A sequence of edges.
unfoldable pub run : Model → List Input → Result Error Model
run m [] = ok m
run m (i ∷ is) = do r ← step m i; run r.0 is

abbrev pub AllInputs : List Input → Type 0
AllInputs [] = Unit
AllInputs (i ∷ is) = IsInput i × AllInputs is

pub run-Inv :
    (is : List Input) (m : Model) → Inv m → AllInputs is → (n : Model) × (run m is ≡ ok n) × Inv n
unfolding run
run-Inv [] m v h = (m, refl, v)
run-Inv (i ∷ is) m v h =
    let s = step-Inv m i v h.0 in let r = run-Inv is s.0.0 s.2 h.1 in (r.0, rw s.1 r.1, r.2)

-- A model with resources of positive size runs through every sequence of accepted arguments with no
-- exception. Its commits then have ascending serials, so that they are in the order of allocation, and its
-- registers are those that the commits wrote, in that order, on registers of 0.
pub run_in_order :
    (depth rename_depth bits : ℕ) (is : List Input)
    → 0 < depth
    → 0 < rename_depth
    → 0 < bits
    → AllInputs is
    → (start n : Model) × (make depth rename_depth bits ≡ ok start)
      × (run start is ≡ ok n)
      × ((hi : ℕ) × Ascending 0 n.retired hi)
      × (n.arch ≡ replay (replicate 32 0) n.retired)
unfolding make
run_in_order depth rename_depth bits is p q b h =
    let r =
      run-Inv is (reset depth rename_depth (2 ^ bits - 1))
        (reset-Inv depth rename_depth (2 ^ bits - 1) p) h in
    (
      reset depth rename_depth (2 ^ bits - 1),
      r.0,
      ground arith,
      r.1,
      (r.2.oldest, r.2.past),
      r.2.replayed,
    )
