-- ===== src/Recovery/Sound.antt =====
-- The invariant implies every assertion of `check_invariants`.
use slo_ppc.Prelude.{
  ℕ, ◌+◌, ◌%◌, ◌<◌, ◌≡◌, refl, arith, true, false, some, List, [], ◌∷◌, map, Option-cases, inl, inr,
  ap,
}
use slo_ppc.Recovery.Dict.{get, has, nat_eq}
use slo_ppc.Recovery.State.{Tag, same_tag_iff, tag_eq, Entry, Producer, Model}
use slo_ppc.Recovery.Step.{uses_rename, mapped}
use slo_ppc.Recovery.Check.{
  member, distinct, is_sorted, renames, agree, same_dict, adjacent, tail_follows, strays_external,
  done_free, serial_of, check_invariants,
}
use slo_ppc.Recovery.Edge.{rebuild}
use slo_ppc.Recovery.Queue.{Contiguous, Ordered, RenameFree, Renamed}
use slo_ppc.Recovery.Slots.{distinct-slots}
use slo_ppc.Recovery.Tokens.{Tokens, Tokened, TokensLive}
use slo_ppc.Recovery.Pigeonhole.{AllBelow, pigeonhole}
use slo_ppc.Recovery.Invariant.{Inv}

serial_below :
    (x lo hi : ℕ) (es : List Entry)
    → x < lo
    → Ordered lo es hi
    → member x (map serial_of es) ≡ false
unfolding member
serial_below x lo hi [] h o = refl
serial_below x lo hi (e ∷ es) h o =
    ground (arith, serial_below x (e.serial + 1) hi es (omega (arith, o.0)) o.1)

distinct-serials :
    (lo hi : ℕ) (es : List Entry) → Ordered lo es hi → distinct (map serial_of es) ≡ true
unfolding distinct
distinct-serials lo hi [] o = refl
distinct-serials lo hi (e ∷ es) o = ground (
  arith,
  distinct-serials (e.serial + 1) hi es o.1,
  serial_below e.serial (e.serial + 1) hi es (omega arith) o.1,
)

sorted-serials :
    (lo hi : ℕ) (es : List Entry) → Ordered lo es hi → is_sorted (map serial_of es) ≡ true
unfolding is_sorted
sorted-serials lo hi [] o = refl
sorted-serials lo hi (e ∷ []) o = refl
sorted-serials lo hi (e ∷ f ∷ es) o =
    ground (arith, sorted-serials (e.serial + 1) hi (f ∷ es) o.1, o.1.0)

member-renames : (r : ℕ) (es : List Entry) → member r (renames es) ≡ uses_rename r es
unfolding member renames uses_rename
member-renames r [] = refl
member-renames r (e ∷ es) = ground (arith, member-renames r es)

renames-right :
    (n : ℕ) (es : List Entry)
    → Renamed n es
    → (distinct (renames es) ≡ true) × AllBelow n (renames es)
unfolding distinct renames
renames-right n [] h = (refl, tt)
renames-right n (e ∷ es) h = elim (Option-cases e.rename) [
  | inl free ↦ rw free (renames-right n es h.1)
  | inr (r, held) ↦
      let own : RenameFree n (some r) es = rw held at h.0 in
      rw held (
        ground (arith, renames-right n es h.1, member-renames r es, own),
        (own.0, (renames-right n es h.1).1),
      )
]

agree_self : (ks d : List (ℕ × Tag)) → agree ks d d ≡ true
unfolding agree
agree_self [] d = refl
agree_self ((k, t) ∷ ks) d = elim (Option-cases (get k d)) [
  | inl absent ↦ rw (absent, agree_self ks d)
  | inr (u, there) ↦ rw (there, agree_self ks d, (same_tag_iff u u).1 refl)
]

adjacent-Contiguous : (d s t : ℕ) (es : List Entry) → Contiguous d s es t → adjacent d es ≡ true
unfolding adjacent
adjacent-Contiguous d s t [] c = refl
adjacent-Contiguous d s t (e ∷ []) c = refl
adjacent-Contiguous d s t (e ∷ f ∷ es) c = ground (
  arith,
  adjacent-Contiguous d ((s + 1) % d) t (f ∷ es) c.1,
  c.0,
  c.1.0,
  ap (λ (x : ℕ). (x + 1) % d) c.0,
)

tail_follows-Contiguous :
    (d s t : ℕ) (es : List Entry) → Contiguous d s es t → tail_follows d t es ≡ true
unfolding tail_follows
tail_follows-Contiguous d s t [] c = refl
tail_follows-Contiguous d s t (e ∷ []) c = ground (arith, c.1, ap (λ (x : ℕ). (x + 1) % d) c.0)
tail_follows-Contiguous d s t (e ∷ f ∷ es) c =
    tail_follows-Contiguous d ((s + 1) % d) t (f ∷ es) c.1

-- The keys of a list are those of a dictionary.
abbrev KeysIn : Tokens → Tokens → Type 0
KeysIn [] tokens = Unit
KeysIn ((t, k) ∷ items) tokens = (has (get t tokens) ≡ true) × KeysIn items tokens

KeysIn-cons :
    (items tokens : Tokens) (p : Tag × Producer) → KeysIn items tokens → KeysIn items (p ∷ tokens)
unfolding get
KeysIn-cons [] tokens p h = tt
KeysIn-cons ((t, k) ∷ items) tokens p h = (ground (arith, h.0), KeysIn-cons items tokens p h.1)

KeysIn-self : (tokens : Tokens) → KeysIn tokens tokens
unfolding get
KeysIn-self [] = tt
KeysIn-self ((t, k) ∷ items) =
    (ground (arith, same_tag_iff t t), KeysIn-cons items items (t, k) (KeysIn-self items))

strays-live :
    (items tokens : Tokens) (es : List Entry)
    → KeysIn items tokens
    → TokensLive tokens es
    → strays_external items tokens es ≡ true
unfolding strays_external
strays-live [] tokens es k live = refl
strays-live ((t, p) ∷ items) tokens es k live =
    ground (arith, strays-live items tokens es k.1 live, live t k.0)

done_free-Tokened :
    (tokens : Tokens) (es : List Entry) → Tokened tokens es → done_free tokens es ≡ true
unfolding done_free
done_free-Tokened tokens [] h = refl
done_free-Tokened tokens (e ∷ es) h = ground (arith, done_free-Tokened tokens es h.1, h.0)

-- The assertions hold of the state with its mapping rebuilt from its entries.
pub check-Inv : (m : Model) → Inv m → check_invariants (rebuild m) ≡ true
unfolding check_invariants same_dict
check-Inv m v = ground (
  arith,
  v.fits,
  distinct-slots m.depth v.head m.tail m.entries v.head_in v.fits v.slots,
  distinct-serials v.oldest m.next_serial m.entries v.serials,
  sorted-serials v.oldest m.next_serial m.entries v.serials,
  renames-right m.rename_depth m.entries v.renamed,
  pigeonhole m.rename_depth (renames m.entries) (renames-right m.rename_depth m.entries v.renamed).1
      (renames-right m.rename_depth m.entries v.renamed).0,
  agree_self (mapped m.entries []) (mapped m.entries []),
  adjacent-Contiguous m.depth v.head m.tail m.entries v.slots,
  tail_follows-Contiguous m.depth v.head m.tail m.entries v.slots,
  strays-live m.tokens m.tokens m.entries (KeysIn-self m.tokens) v.live,
  done_free-Tokened m.tokens m.entries v.tokened,
)
