-- ===== src/Recovery/Allocation.antt =====
-- An allocation keeps the invariant: its slot is free, its tag owns no token, and its rename register is
-- held by no entry.
use slo_ppc.Prelude.{
  ℕ, zero, suc, ◌+◌, ◌<◌, ◌≡◌, refl, arith, Bool, true, false, Option, none, some, List, [], ◌∷◌,
  length, ap, ◌∙◌, sym, map, if◌then◌else◌, ok, get_elem?, length-set, inl, inr, Bool-cases,
  bit_and,
}
use slo_ppc.Recovery.Dict.{get, has}
use slo_ppc.Recovery.State.{Tag, tag_eq, Entry, Model, candidate}
use slo_ppc.Recovery.Step.{
  Input, has_tag, uses_rename, free_rename, may_allocate, new_entry, allocated,
}
use slo_ppc.Recovery.Check.{member, slot_of}
use slo_ppc.Recovery.Edge.{dst_valid}
use slo_ppc.Recovery.Queue.{DstIn}
use slo_ppc.Recovery.Cutting.{
  Ordered-append, Contiguous-append, DstsIn-append, length-snoc, Renamed-append, has_tag-append,
}
use slo_ppc.Recovery.Slots.{tail_fresh, has_tag_of_slot}
use slo_ppc.Recovery.Tokens.{Tokened-append}
use slo_ppc.Recovery.Invariant.{Inv, Since}

pub free_rename-free :
    (n i : ℕ) (pre : List Entry) {r : ℕ}
    → free_rename n i pre ≡ some r
    → (r < i + n) × (uses_rename r pre ≡ false)
unfolding free_rename
free_rename-free zero i pre h = cc
free_rename-free (suc n) i pre {r} h = elim (Bool-cases (uses_rename i pre)) [
  | inl held ↦
      let k = free_rename-free n (i + 1) pre {r = r} (rw (← h) (rw held refl)) in
      (omega (arith, k.0), k.1)
  | inr free ↦
      let e : i ≡ r = ground arith in
      (omega arith, ap (λ (x : ℕ). uses_rename x pre) (sym e) ∙ free)
]

-- An index inside a list is found.
pub get_elem?-some :
    {A : Type 0} (xs : List A) (i : ℕ) → i < length xs → (a : A) × (get_elem? xs i ≡ some a)
get_elem?-some [] i h = absurd (omega arith)
get_elem?-some (x ∷ xs) zero h = (x, refl)
get_elem?-some (x ∷ xs) (suc i) h = get_elem?-some xs i (omega arith)

-- The candidate exists and has the slot of the tail.
pub candidate-slot : (n : Model) → Inv n → (t : Tag) × (candidate n ≡ ok t) × (t.slot ≡ n.tail)
unfolding candidate
candidate-slot n v =
    let found =
      get_elem?-some n.generations n.tail (omega (arith, v.tail_in, v.generations_size)) in
    (
      record { slot = n.tail; generation = bit_and (found.0 + 1) n.generation_mask },
      rw (found.1) refl,
      refl,
    )

module _ (m n : Model) (v : Inv n) (s : Since m n) (i : Input) (tag : Tag) (free : Option ℕ)
    (at_tail : tag.slot ≡ n.tail) (room : length m.entries < m.depth)
    (owns_none : has (get tag m.tokens) ≡ false) (valid : dst_valid i.dst ≡ true)
    (is_free : (r : ℕ)
      → free ≡ some r
      → (r < m.rename_depth) × (uses_rename r m.entries ≡ false)) where
  abbrev entry : Entry
  entry = new_entry i tag n.next_serial free

  not_there : has_tag tag n.entries ≡ false
  not_there = has_tag_of_slot tag n.entries (
      ap (λ (x : ℕ). member x (map slot_of n.entries)) at_tail
      ∙ tail_fresh n.depth v.head n.tail n.entries v.head_in
          (omega (arith, s.no_longer, s.same_depth)) v.slots)

  no_token : has (get tag n.tokens) ≡ false
  no_token = ground (arith, s.tokens_from tag, not_there, owns_none)

  rename_free :
      (r : ℕ) → entry.rename ≡ some r → (r < n.rename_depth) × (uses_rename r n.entries ≡ false)
  rename_free r h =
      let k : free ≡ some r = ground arith in
      (omega (arith, (is_free r k).0, s.same_renames), s.free_stays r (is_free r k).1)

  dst_in : (o : Option ℕ) → dst_valid o ≡ true → DstIn o
  dst_in none h = tt
  dst_in (some r) h = ground arith

  entry-DstIn : (fault : Bool) → DstIn (if fault then none else i.dst)
  entry-DstIn true = tt
  entry-DstIn false = dst_in i.dst valid

  pub allocated-Inv : (b : Bool) → Inv (allocated b i tag free n).0
  unfolding allocated
  allocated-Inv false = v
  allocated-Inv true = record {
    generations_size = length-set n.generations tag.slot tag.generation ∙ v.generations_size;
    arch_size = v.arch_size;
    tail_in = omega (arith, v.tail_in);
    head = v.head;
    head_in = v.head_in;
    slots = Contiguous-append n.depth v.head n.tail n.entries entry v.slots at_tail;
    fits = omega (arith, length-snoc n.entries entry, s.no_longer, s.same_depth);
    oldest = v.oldest;
    serials = Ordered-append v.oldest n.next_serial n.entries entry v.serials refl;
    past = v.past;
    renamed = Renamed-append n.rename_depth n.entries entry v.renamed rename_free;
    dsts = DstsIn-append n.entries entry v.dsts (entry-DstIn i.fault);
    tokened = Tokened-append n.tokens n.entries entry v.tokened no_token;
    live = λ t h. ground (arith, v.live t h, has_tag-append t n.entries entry);
    known = v.known;
    replayed = v.replayed;
  }

-- What the test of an allocation has checked.
pub may_allocate-facts :
    (i : Input) (accepted : Bool) (tag : Tag) (free : Option ℕ) (m : Model)
    → may_allocate i accepted tag free m.entries m m.tokens ≡ true
    → (length m.entries < m.depth)
      × (has (get tag m.tokens) ≡ false)
      × (accepted ≡ false)
      × (i.allocate ≡ true)
unfolding may_allocate
may_allocate-facts i accepted tag free m h = ground arith

pub allocates-Inv :
    (m n : Model) (i : Input) (tag : Tag)
    → Inv n
    → Since m n
    → tag.slot ≡ n.tail
    → dst_valid i.dst ≡ true
    → (b : Bool) → (b ≡ true → (length m.entries < m.depth) × (has (get tag m.tokens) ≡ false))
    → Inv (allocated b i tag (free_rename m.rename_depth 0 m.entries) n).0
allocates-Inv m n i tag v s at_tail valid true h =
    allocated-Inv m n v s i tag (free_rename m.rename_depth 0 m.entries) at_tail (h refl).0
      (h refl).1 valid
      (λ r k.
        let f = free_rename-free m.rename_depth 0 m.entries {r = r} k in (omega (arith, f.0), f.1))
      true
allocates-Inv m n i tag v s at_tail valid false h = unfold allocated in v
