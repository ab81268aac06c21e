-- ===== src/Recovery/Owning.antt =====
-- Which result finishes an entry, and which tag an allocation takes.
use slo_ppc.Prelude.{
  ℕ, zero, suc, ◌<◌, ◌≡◌, refl, arith, Bool, true, false, ◌&&◌, Option, none, some, List, [], ◌∷◌,
  ◌++◌, map, ok, length, take, ap, ◌∙◌, sym, inl, inr, Bool-cases, subst,
}
use slo_ppc.Recovery.Dict.{get, has}
use slo_ppc.Recovery.State.{Tag, same_tag_iff, tag_eq, Entry, Producer, Events, Model, find_tag}
use slo_ppc.Recovery.Step.{
  Input, has_tag, Cut, killed_of, redirected, finished, unfinished, retired_head, issued, allocated,
  free_rename, may_retire, new_entry,
}
use slo_ppc.Recovery.Check.{member, slot_of}
use slo_ppc.Recovery.Edge.{step}
use slo_ppc.Recovery.Slots.{tail_fresh, has_tag_of_slot}
use slo_ppc.Recovery.Invariant.{Inv}
use slo_ppc.Recovery.Tokens.{has_tag_of_unfinished, tag_in, tag_in-killed_of}
use slo_ppc.Recovery.Cutting.{has_tag-append}
use slo_ppc.Recovery.Phases.{IsCut, decide-IsCut}
use slo_ppc.Recovery.Ends.{redirected-entries}
use slo_ppc.Recovery.Allocation.{may_allocate-facts}
use slo_ppc.Recovery.Safety.{
  IsInput, cut_phase, finish_phase, retire_phase, issue_phase, allows, tag_exists, outcome,
  step-eq-outcome,
}

some_inj : {A : Type 0} {a b : A} → some a ≡ some b → a ≡ b
some_inj h = cc

finished_facts :
    (r : Option (Tag × ℕ)) (tokens : List (Tag × Producer)) (n : Model) {t : Tag}
    → (finished r tokens n).1 ≡ some t
    → ((value : ℕ) × (r ≡ some (t, value)))
      × (has_tag t n.entries ≡ true)
      × (has (get t tokens) ≡ true)
unfolding finished
finished_facts none tokens n k = cc
finished_facts (some (u, value)) tokens n {t} k =
    elim (Bool-cases (unfinished (find_tag u n.entries) && has (get u tokens))) [
      | inl accepted ↦
          let k' : some u ≡ some t = rw accepted at k in
          let same : u ≡ t = some_inj k' in
          (
            (value, ap (λ (x : Tag). some (x, value)) same),
            subst (λ (x : Tag). has_tag x n.entries ≡ true) same
                (has_tag_of_unfinished u n.entries (ground arith)),
            subst (λ (x : Tag). has (get x tokens) ≡ true) same (ground arith),
          )
      | inr dropped ↦ let k' : none ≡ some t = rw dropped at k in cc
    ]

has_tag-take :
    (n : ℕ) (t : Tag) (es : List Entry) → has_tag t (take n es) ≡ true → has_tag t es ≡ true
unfolding has_tag
has_tag-take zero t es h = cc
has_tag-take (suc n) t [] h = h
has_tag-take (suc n) t (e ∷ es) h = ground (arith, has_tag-take n t es)

survivors_before :
    (m : Model) (cut : Cut) (t : Tag)
    → IsCut m.entries cut
    → has_tag t cut.survivors ≡ true
    → has_tag t m.entries ≡ true
survivors_before m cut t (inl (a, (n, k))) h =
    has_tag-take n t m.entries (ap (has_tag t) (sym k) ∙ h)
survivors_before m cut t (inr (a, k)) h = ap (has_tag t) (sym k) ∙ h

tail-finished :
    (r : Option (Tag × ℕ)) (tokens : List (Tag × Producer)) (n : Model)
    → (finished r tokens n).0.tail ≡ n.tail
unfolding finished
tail-finished none tokens n = refl
tail-finished (some (t, value)) tokens n = ground arith

tail-redirected : (m : Model) (cut : Cut) → cut.accepted ≡ false → (redirected m cut).tail ≡ m.tail
unfolding redirected
tail-redirected m cut a = rw a refl

tail-retired : (b : Bool) (es : List Entry) (n : Model) → (retired_head b es n).0.tail ≡ n.tail
unfolding retired_head
tail-retired true (e ∷ es) n = refl
tail-retired true [] n = refl
tail-retired false es n = refl

tail-issued : (o : Option Tag) (k : Producer) (n : Model) → (issued o k n).0.tail ≡ n.tail
unfolding issued
tail-issued none k n = refl
tail-issued (some t) k n = ground arith

module _ (m : Model) (i : Input) (v : Inv m) (h : IsInput i) where
  -- An edge that finishes an entry consumes a result for its tag; the tag was in the queue and owned a token
  -- before the edge, and the edge does not kill it.
  pub finish_effect :
      (s : Model) × (ev : Events) × (step m i ≡ ok (s, ev))
      × ((t : Tag)
          → ev.finished ≡ some t
          → ((value : ℕ) × (i.result ≡ some (t, value)))
            × (has_tag t m.entries ≡ true)
            × (has (get t m.tokens) ≡ true)
            × (tag_in t ev.killed ≡ false))
  finish_effect =
      let o = outcome m i (tag_exists m i v h).0 in (o.0, o.1, step-eq-outcome m i v h, facts)
    where
      facts :
          (t : Tag)
          → (finish_phase m i).1 ≡ some t
          → ((value : ℕ) × (i.result ≡ some (t, value)))
            × (has_tag t m.entries ≡ true)
            × (has (get t m.tokens) ≡ true)
            × (tag_in t (killed_of m.entries (cut_phase m i).survivors) ≡ false)
      facts t k =
          let c = decide-IsCut i.redirect m.entries in
          let f = finished_facts i.result m.tokens (redirected m (cut_phase m i)) k in
          let alive : has_tag t (cut_phase m i).survivors ≡ true =
            ap (has_tag t) (sym (redirected-entries m (cut_phase m i) c)) ∙ f.1 in
          (
            f.0,
            survivors_before m (cut_phase m i) t c alive,
            f.2,
            ground (arith, tag_in-killed_of t m.entries (cut_phase m i).survivors, alive),
          )

  same_tail : (cut_phase m i).accepted ≡ false → (issue_phase m i).0.tail ≡ m.tail
  same_tail a =
      tail-issued i.issue i.producer_kind (retire_phase m i).0
      ∙ tail-retired (may_retire m.entries (cut_phase m i).survivors i.retire_ready)
          (finish_phase m i).0.entries (finish_phase m i).0
      ∙ tail-finished i.result m.tokens (redirected m (cut_phase m i))
      ∙ tail-redirected m (cut_phase m i) a

  new_slot : (t : Tag) → t.slot ≡ m.tail → length m.entries < m.depth → has_tag t m.entries ≡ false
  new_slot t e room = has_tag_of_slot t m.entries (
      ap (λ (x : ℕ). member x (map slot_of m.entries)) e
      ∙ tail_fresh m.depth v.head m.tail m.entries v.head_in room v.slots)

  allocation_facts :
      (tag t : Tag) (b : Bool)
      → tag.slot ≡ (issue_phase m i).0.tail
      → allows m i tag ≡ b
      → (allocated b i tag (free_rename m.rename_depth 0 m.entries) (issue_phase m i).0).1 ≡ some t
      → (has_tag t m.entries ≡ false)
        × (has (get t m.tokens) ≡ false)
        × ((cut_phase m i).accepted ≡ false)
        × (has_tag t
              (allocated b i tag
                (free_rename m.rename_depth 0 m.entries)
                (issue_phase m i).0).0.entries
            ≡ true)
  unfolding allocated
  allocation_facts tag t false at_tail e k = cc
  allocation_facts tag t true at_tail e k =
      let n = (issue_phase m i).0 in
      let free = free_rename m.rename_depth 0 m.entries in
      let same : tag ≡ t = some_inj k in
      let f = may_allocate-facts i (cut_phase m i).accepted tag free m e in
      subst
        (λ (x : Tag).
          (has_tag x m.entries ≡ false)
          × (has (get x m.tokens) ≡ false)
          × ((cut_phase m i).accepted ≡ false)
          × (has_tag x (n.entries ++ new_entry i tag n.next_serial free ∷ []) ≡ true))
        same
        (
          new_slot tag (at_tail ∙ same_tail f.2) f.0,
          f.1,
          f.2,
          ground (
            arith,
            has_tag-append tag n.entries (new_entry i tag n.next_serial free),
            same_tag_iff tag tag,
          ),
        )

  -- An edge that allocates takes a tag that neither the queue nor an outstanding token holds, so that no late
  -- result can meet it, puts the tag into the queue, and accepts no redirect.
  pub allocation_effect :
      (s : Model) × (ev : Events) × (step m i ≡ ok (s, ev))
      × ((t : Tag)
          → ev.allocated ≡ some t
          → (has_tag t m.entries ≡ false)
            × (has (get t m.tokens) ≡ false)
            × (ev.redirect_accepted ≡ false)
            × (has_tag t s.entries ≡ true))
  allocation_effect =
      let tag = tag_exists m i v h in
      let o = outcome m i tag.0 in
      (
        o.0,
        o.1,
        step-eq-outcome m i v h,
        λ t. allocation_facts tag.0 t (allows m i tag.0) tag.2 refl,
      )
