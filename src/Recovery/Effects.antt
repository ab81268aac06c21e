-- ===== src/Recovery/Effects.antt =====
-- What the events of an edge mean: which entries a redirect kills, which result finishes an entry, and
-- which tag an allocation takes.
use slo_ppc.Prelude.{
  ℕ, zero, suc, ◌+◌, ◌≡◌, ◌≢◌, ◌⊎◌, refl, arith, Bool, true, false, ◌&&◌, Option, none, some, List,
  [], ◌∷◌, map, ok, take, drop, ap, ◌∙◌, sym, inl, inr, Bool-cases, get_elem?, subst, ◌==◌,
  if◌then◌else◌,
}
use mathlib.Core.Option
use slo_ppc.Recovery.State.{
  Tag, same_tag_iff, tag_eq, Entry, Redirect, Events, Model, Rejection, same_tag, inactive_pivot,
  irrevocable_retirement_head,
}
use slo_ppc.Recovery.Step.{
  Input, has_tag, find_index, cut_of, decide, decide_cut, head_done, killed_of,
}
use slo_ppc.Recovery.Edge.{step}
use slo_ppc.Recovery.Slots.{TagsDiffer, TagsDiffer-of_slots, distinct-slots}
use slo_ppc.Recovery.Invariant.{Inv}
use slo_ppc.Recovery.Safety.{IsInput, tag_exists, outcome, step-eq-outcome}

abbrev pub tag_of : Entry → Tag
tag_of e = e.tag

killed_of-all : (pre : List Entry) → killed_of pre [] ≡ map tag_of pre
unfolding killed_of has_tag
killed_of-all [] = refl
killed_of-all (e ∷ pre) = ap (λ (ts : List Tag). e.tag ∷ ts) (killed_of-all pre)

killed_of-skip :
    (e : Entry) (pre survivors : List Entry)
    → has_tag e.tag pre ≡ false
    → killed_of pre (e ∷ survivors) ≡ killed_of pre survivors
unfolding killed_of has_tag
killed_of-skip e [] survivors h = refl
killed_of-skip e (x ∷ pre) survivors h =
    ground
      (arith, killed_of-skip e pre survivors, same_tag_iff x.tag e.tag, same_tag_iff e.tag x.tag)

-- With different tags the killed entries are those behind the survivors.
killed_of-take :
    (n : ℕ) (pre : List Entry)
    → TagsDiffer pre
    → killed_of pre (take n pre) ≡ map tag_of (drop n pre)
unfolding killed_of has_tag
killed_of-take zero pre d = killed_of-all pre
killed_of-take (suc n) [] d = refl
killed_of-take (suc n) (e ∷ pre) d = ground (
  arith,
  same_tag_iff e.tag e.tag,
  killed_of-skip e pre (take n pre) d.0,
  killed_of-take n pre d.1,
)

killed_of_self : (pre : List Entry) → TagsDiffer pre → killed_of pre pre ≡ []
unfolding killed_of has_tag
killed_of_self [] d = refl
killed_of_self (e ∷ pre) d =
    ground (arith, same_tag_iff e.tag e.tag, killed_of-skip e pre pre d.0, killed_of_self pre d.1)

-- The place at which a redirect cuts: the front without a pivot, and else before or behind the pivot.
abbrev pub CutAt : Option Tag → Bool → List Entry → ℕ → Type 0
CutAt none keep pre n = n ≡ 0
CutAt (some t) keep pre n =
    (k : ℕ) × (e : Entry) × (get_elem? pre k ≡ some e)
    × (e.tag ≡ t)
    × (n ≡ (if keep then k + 1 else k))

-- No entry of the queue has the tag of the pivot.
abbrev pub Absent : Tag → List Entry → Type 0
Absent t [] = Unit {0}
Absent t (e ∷ es) = (e.tag ≢ t) × Absent t es

abbrev pub IsForeign : Option Tag → List Entry → Type 0
IsForeign none pre = ⊥
IsForeign (some t) pre = Absent t pre

-- The front of the queue is an entry that is done, or it is not.
abbrev pub DoneHead : List Entry → Type 0
DoneHead [] = ⊥
DoneHead (e ∷ es) = e.done ≡ true

abbrev pub OpenHead : List Entry → Type 0
OpenHead [] = Unit {0}
OpenHead (e ∷ es) = e.done ≡ false

-- What becomes of a redirect: whether it is accepted, why it is rejected, and which entries it kills.
pub data RedirectOutcome (r : Redirect) (pre : List Entry)
    : Bool → Option Rejection → List Tag → Type 0 where
  cuts :
      (n : ℕ)
      → CutAt r.pivot r.keep_pivot pre n
      → (n ≢ 0) ⊎ OpenHead pre
      → RedirectOutcome r pre true none (map tag_of (drop n pre))
  keeps_head :
      CutAt r.pivot r.keep_pivot pre 0
      → DoneHead pre
      → RedirectOutcome r pre false (some irrevocable_retirement_head) []
  foreign : IsForeign r.pivot pre → RedirectOutcome r pre false (some inactive_pivot) []

has_tag_at :
    (es : List Entry) (k : ℕ) (e : Entry) → get_elem? es k ≡ some e → has_tag e.tag es ≡ true
unfolding has_tag
has_tag_at [] k e h = cc
has_tag_at (x ∷ es) zero e h =
    ground (arith, same_tag_iff x.tag e.tag, ap (λ (y : Option Entry). Option.map tag_of y) h)
has_tag_at (x ∷ es) (suc k) e h = ground (arith, has_tag_at es k e h)

find_index_at :
    (es : List Entry) (k : ℕ) (e : Entry)
    → TagsDiffer es
    → get_elem? es k ≡ some e
    → find_index e.tag es ≡ some k
unfolding find_index
find_index_at [] k e d h = cc
find_index_at (x ∷ es) zero e d h =
    ground (arith, same_tag_iff x.tag e.tag, ap (λ (y : Option Entry). Option.map tag_of y) h)
find_index_at (x ∷ es) (suc k) e d h = ground (
  arith,
  find_index_at es k e d.1 h,
  has_tag_at es k e h,
  same_tag_iff x.tag e.tag,
  ap (λ (t : Tag). has_tag t es),
  d.0,
)

find_index-Absent : (t : Tag) (es : List Entry) → Absent t es → find_index t es ≡ none
unfolding find_index
find_index-Absent t [] h = refl
find_index-Absent t (e ∷ es) h =
    ground (arith, find_index-Absent t es h.1, same_tag_iff e.tag t, h.0)

-- The entry with a tag, where there is one.
place_of :
    (t : Tag) (es : List Entry)
    → Absent t es ⊎ ((k : ℕ) × (e : Entry) × (get_elem? es k ≡ some e) × (e.tag ≡ t))
place_of t [] = inl tt
place_of t (e ∷ es) = elim (Bool-cases (same_tag e.tag t)) [
  | inl here ↦ inr (0, e, refl, (same_tag_iff e.tag t).0 here)
  | inr other ↦ elim (place_of t es) [
    | inl none_there ↦ inl (λ q. ground (arith, same_tag_iff e.tag t, q), none_there)
    | inr (k, x, found, same) ↦ inr (suc k, x, found, same)
  ]
]

head_done-DoneHead : (pre : List Entry) → head_done pre ≡ true → DoneHead pre
head_done-DoneHead [] h = cc
head_done-DoneHead (e ∷ es) h = h

head_open :
    (n : ℕ) (pre : List Entry) → ((n == 0) && head_done pre) ≡ false → (n ≢ 0) ⊎ OpenHead pre
head_open zero [] h = inr tt
head_open zero (e ∷ es) h = inr h
head_open (suc n) pre h = inl (λ q. omega (arith, q))

module _ (r : Redirect) (pre : List Entry) (d : TagsDiffer pre) where
  abbrev Decided : Option ℕ → Type 0
  Decided o =
      let cut = decide_cut o pre in
      RedirectOutcome r pre cut.accepted cut.rejected (killed_of pre cut.survivors)

  cut-RedirectOutcome : (n : ℕ) → CutAt r.pivot r.keep_pivot pre n → Decided (some n)
  unfolding decide_cut
  cut-RedirectOutcome n c = elim (Bool-cases ((n == 0) && head_done pre)) [
    | inl refused ↦
        rw (refused, killed_of_self pre d)
          (keeps_head (subst (λ (k : ℕ). CutAt r.pivot r.keep_pivot pre k) (ground arith) c)
            (head_done-DoneHead pre (ground arith)))
    | inr accepted ↦ rw (accepted, killed_of-take n pre d) (cuts n c (head_open n pre accepted))
  ]

  foreign-RedirectOutcome : IsForeign r.pivot pre → Decided none
  unfolding decide_cut
  foreign-RedirectOutcome f = rw (killed_of_self pre d) (foreign f)

  decide_cut-RedirectOutcome : (o : Option Tag) → r.pivot ≡ o → Decided (cut_of r pre)
  unfolding cut_of
  decide_cut-RedirectOutcome none e =
      let q : cut_of r pre ≡ some 0 = rw e refl in
      subst Decided (sym q) (
        cut-RedirectOutcome 0 (subst (λ (p : Option Tag). CutAt p r.keep_pivot pre 0) (sym e) refl))
  decide_cut-RedirectOutcome (some t) e = elim (place_of t pre) [
    | inl absent ↦
        let q : cut_of r pre ≡ none = rw (e, find_index-Absent t pre absent) refl in
        subst Decided (sym q)
          (foreign-RedirectOutcome (subst (λ (p : Option Tag). IsForeign p pre) (sym e) absent))
    | inr (k, x, found, same) ↦
        let place = if r.keep_pivot then k + 1 else k in
        let at : find_index t pre ≡ some k =
          ap (λ (u : Tag). find_index u pre) (sym same) ∙ find_index_at pre k x d found in
        let q : cut_of r pre ≡ some place = rw (e, at) refl in
        subst Decided (sym q) (
          cut-RedirectOutcome place (
            subst (λ (p : Option Tag). CutAt p r.keep_pivot pre place) (sym e)
              (k, x, found, same, refl)))
  ]

module _ (m : Model) (i : Input) (v : Inv m) (h : IsInput i) where
  tags_differ : TagsDiffer m.entries
  tags_differ =
      TagsDiffer-of_slots m.entries
        (distinct-slots m.depth v.head m.tail m.entries v.head_in v.fits v.slots)

  -- From a state with the invariant, on arguments that the model accepts, an edge with a redirect returns. A
  -- redirect that cuts the queue at `n`, the front or by its pivot, is accepted and kills exactly the
  -- entries from the n-th on, youngest last. One that would kill a head that is done is refused as an
  -- irrevocable retirement head, and one whose pivot no entry has as an inactive pivot; these kill
  -- nothing.
  pub redirect_effect :
      (r : Redirect)
      → i.redirect ≡ some r
      → (s : Model) × (ev : Events) × (step m i ≡ ok (s, ev))
        × RedirectOutcome r m.entries ev.redirect_accepted ev.redirect_rejected ev.killed
  unfolding decide
  redirect_effect r e =
      let o = outcome m i (tag_exists m i v h).0 in
      (
        o.0,
        o.1,
        step-eq-outcome m i v h,
        rw e (decide_cut-RedirectOutcome r m.entries tags_differ r.pivot refl),
      )
