-- ===== src/Recovery/Operand.antt =====
-- `operand` reads the youngest entry that is to write a register, and the register file where there is none.
use slo_ppc.Prelude.{
  ℕ, ◌<◌, ◌≡◌, refl, arith, Bool, true, false, Option, none, some, List, [], ◌∷◌, ok, length, ap,
  subst, ◌⊎◌, inl, inr, ◌==◌, lt→ltb, if◌then◌else◌, get_or, get_elem?-get_or,
}
use slo_ppc.Recovery.Dict.{get, put, nat_eq, get-put}
use slo_ppc.Recovery.State.{
  Tag, same_tag, same_tag_iff, tag_eq, Entry, Model, find_tag, Events, read_operand, operand,
}
use slo_ppc.Recovery.Step.{Input, has_tag, mapped}
use slo_ppc.Recovery.Edge.{step}
use slo_ppc.Recovery.Safety.{IsInput, outcome, tag_exists, step-eq-outcome, after_edge}
use slo_ppc.Recovery.Slots.{TagsDiffer, TagsDiffer-of_slots, distinct-slots}
use slo_ppc.Recovery.Invariant.{Inv}

abbrev pub writes : ℕ → Option ℕ → Bool
writes reg none = false
writes reg (some r) = r == reg

-- The youngest entry that is to write a register, after one found among older entries.
pub youngest : ℕ → List Entry → Option Entry → Option Entry
youngest reg [] older = older
youngest reg (e ∷ es) older = youngest reg es (if writes reg e.dst then some e else older)

abbrev pub tag_of : Option Entry → Option Tag
tag_of none = none
tag_of (some e) = some e.tag

get-mapped_step :
    (reg : ℕ) (e : Entry) (dst : Option ℕ) (d : List (ℕ × Tag)) (older : Option Entry)
    → get reg d ≡ tag_of older
    → get reg (elim dst [ none ↦ d | some r ↦ put r e.tag d ])
      ≡ tag_of (if writes reg dst then some e else older)
get-mapped_step reg e none d older h = h
get-mapped_step reg e (some r) d older h = ground (arith, get-put r reg e.tag d)

get-mapped :
    (reg : ℕ) (es : List Entry) (d : List (ℕ × Tag)) (older : Option Entry)
    → get reg d ≡ tag_of older
    → get reg (mapped es d) ≡ tag_of (youngest reg es older)
unfolding mapped youngest
get-mapped reg [] d older h = h
get-mapped reg (e ∷ es) d older h =
    get-mapped reg es (elim e.dst [ none ↦ d | some r ↦ put r e.tag d ])
      (if writes reg e.dst then some e else older) (get-mapped_step reg e e.dst d older h)

-- An entry of a queue, or what came before it.
abbrev FoundIn : List Entry → Option Entry → Option Entry → Type 0
FoundIn es older none = Unit
FoundIn es older (some e) = (find_tag e.tag es ≡ some e) ⊎ (older ≡ some e)

same_tag_refl : (t : Tag) → same_tag t t ≡ true
same_tag_refl t = ground (arith, same_tag_iff t t)

has_tag_of_some :
    (t : Tag) (f : Entry) (es : List Entry) → find_tag t es ≡ some f → has_tag t es ≡ true
unfolding find_tag has_tag
has_tag_of_some t f [] h = cc
has_tag_of_some t f (e ∷ es) h = ground (arith, has_tag_of_some t f es)

has_tag-cong : (a b : Tag) (es : List Entry) → a ≡ b → has_tag a es ≡ has_tag b es
has_tag-cong a b es h = ap (λ (t : Tag). has_tag t es) h

found_later :
    (f e : Entry) (es : List Entry)
    → has_tag e.tag es ≡ false
    → find_tag f.tag es ≡ some f
    → find_tag f.tag (e ∷ es) ≡ some f
unfolding find_tag
found_later f e es d h =
    ground
      (arith, same_tag_iff e.tag f.tag, has_tag_of_some f.tag f es, has_tag-cong e.tag f.tag es)

found_first : (e f : Entry) (es : List Entry) → e ≡ f → find_tag f.tag (e ∷ es) ≡ some f
unfolding find_tag
found_first e f es h =
    subst (λ (x : Entry). find_tag x.tag (e ∷ es) ≡ some x) h (ground (arith, same_tag_refl e.tag))

FoundIn-step :
    (e : Entry) (es : List Entry) (older : Option Entry) (hit : Bool) (y : Option Entry)
    → has_tag e.tag es ≡ false
    → FoundIn es (if hit then some e else older) y
    → FoundIn (e ∷ es) older y
FoundIn-step e es older hit none d h = tt
FoundIn-step e es older hit (some f) d (inl h) = inl (found_later f e es d h)
FoundIn-step e es older false (some f) d (inr h) = inr h
FoundIn-step e es older true (some f) d (inr h) = inl (found_first e f es cc)

youngest-FoundIn :
    (reg : ℕ) (es : List Entry) (older : Option Entry)
    → TagsDiffer es
    → FoundIn es older (youngest reg es older)
unfolding youngest
youngest-FoundIn reg [] none d = tt
youngest-FoundIn reg [] (some e) d = inr refl
youngest-FoundIn reg (e ∷ es) older d =
    FoundIn-step e es older (writes reg e.dst) _ d.0
      (youngest-FoundIn reg es (if writes reg e.dst then some e else older) d.1)

-- The value of a register, whether it is ready, and the tag of the entry that is to write it.
abbrev pub seen : Model → ℕ → Option Entry → Bool × ℕ × Option Tag
seen m reg none = (true, get_or m.arch reg 0, none)
seen m reg (some e) = (e.done, e.value, some e.tag)

read-seen :
    (m : Model) (reg : ℕ) (y : Option Entry)
    → reg < length m.arch
    → FoundIn m.entries none y
    → read_operand m reg (tag_of y) ≡ ok (seen m reg y)
unfolding read_operand
read-seen m reg none h w = rw (get_elem?-get_or m.arch reg 0 h) refl
read-seen m reg (some e) h (inl w) = rw w refl
read-seen m reg (some e) h (inr w) = cc

operand-rebuild :
    (m : Model) (reg : ℕ)
    → Inv m
    → m.mapping ≡ mapped m.entries []
    → reg < 32
    → operand m reg ≡ ok (seen m reg (youngest reg m.entries none))
unfolding operand get
operand-rebuild m reg v h p =
    let w = youngest-FoundIn reg m.entries none (
      TagsDiffer-of_slots m.entries
        (distinct-slots m.depth v.head m.tail m.entries v.head_in v.fits v.slots)) in
    let g = get-mapped reg m.entries [] none refl in
    rw (lt→ltb reg 32 p, h, g)
      (read-seen m reg (youngest reg m.entries none) (omega (arith, v.arch_size)) w)

-- After a step from a state with the invariant, on accepted arguments, `operand` of a register returns. It
-- gives the state, the value and the tag of the youngest entry of the queue that is to write the register,
-- and where no entry is, the value in the register file, which is ready.
pub operand-youngest :
    (m : Model) (i : Input) (reg : ℕ)
    → Inv m
    → IsInput i
    → reg < 32
    → (n : Model) × (events : Events) × (step m i ≡ ok (n, events))
      × (operand n reg ≡ ok (seen n reg (youngest reg n.entries none)))
operand-youngest m i reg v h p =
    let t = tag_exists m i v h in
    (
      (outcome m i t.0).0,
      (outcome m i t.0).1,
      step-eq-outcome m i v h,
      operand-rebuild (outcome m i t.0).0 reg (after_edge m i v h) refl p,
    )
