-- ===== src/Recovery/Check.antt =====
-- `RecoveryModel.check_invariants`, one test for each assertion.
use slo_ppc.Prelude.{
  ℕ, ◌+◌, ◌%◌, Bool, true, false, not, ◌&&◌, ◌||◌, Option, none, some, List, [], ◌∷◌, map, leb,
  ◌==◌, length,
}
use slo_ppc.Recovery.Dict.{nat_eq, get, has}
use slo_ppc.Recovery.State.{Tag, same_tag, tag_eq, Entry, Producer, external, Model}
use slo_ppc.Recovery.Step.{has_tag, mapped}

-- `x in xs`.
unfoldable pub member : ℕ → List ℕ → Bool
member x [] = false
member x (y ∷ ys) = (y == x) || member x ys

-- `len(set(xs)) == len(xs)`.
unfoldable pub distinct : List ℕ → Bool
distinct [] = true
distinct (x ∷ xs) = not (member x xs) && distinct xs

-- `xs == sorted(xs)`.
unfoldable pub is_sorted : List ℕ → Bool
is_sorted [] = true
is_sorted (x ∷ []) = true
is_sorted (x ∷ y ∷ xs) = leb x y && is_sorted (y ∷ xs)

-- `[e.rename for e in entries if e.rename is not None]`.
unfoldable pub renames : List Entry → List ℕ
renames [] = []
renames (e ∷ es) = elim e.rename [ none ↦ renames es | some r ↦ r ∷ renames es ]

abbrev pub same_option : Option Tag → Option Tag → Bool
same_option none none = true
same_option (some a) (some b) = same_tag a b
same_option _ _ = false

-- Whether two dictionaries agree on the keys of a third.
unfoldable pub agree : List (ℕ × Tag) → List (ℕ × Tag) → List (ℕ × Tag) → Bool
agree [] a b = true
agree ((k, t) ∷ ks) a b = same_option (get k a) (get k b) && agree ks a b

-- `a == b`.
unfoldable pub same_dict : List (ℕ × Tag) → List (ℕ × Tag) → Bool
same_dict a b = agree a a b && agree b a b

-- Each younger entry has the slot after its older neighbour's.
unfoldable pub adjacent : ℕ → List Entry → Bool
adjacent depth [] = true
adjacent depth (e ∷ []) = true
adjacent depth (e ∷ d ∷ es) = (d.tag.slot == (e.tag.slot + 1) % depth) && adjacent depth (d ∷ es)

-- `self.tail == (self.entries[-1].tag.slot + 1) % self.depth`, if there are entries.
unfoldable pub tail_follows : ℕ → ℕ → List Entry → Bool
tail_follows depth tail [] = true
tail_follows depth tail (e ∷ []) = tail == (e.tag.slot + 1) % depth
tail_follows depth tail (e ∷ d ∷ es) = tail_follows depth tail (d ∷ es)

abbrev pub is_external : Option Producer → Bool
is_external (some external) = true
is_external _ = false

-- The tokens of tags that are not active are external. A key's value is that of the dictionary.
unfoldable pub strays_external : List (Tag × Producer) → List (Tag × Producer) → List Entry → Bool
strays_external [] tokens entries = true
strays_external ((t, kind) ∷ items) tokens entries =
    (has_tag t entries || is_external (get t tokens)) && strays_external items tokens entries

-- `all(not e.done or e.tag not in self.tokens for e in self.entries)`.
unfoldable pub done_free : List (Tag × Producer) → List Entry → Bool
done_free tokens [] = true
done_free tokens (e ∷ es) = (not e.done || not (has (get e.tag tokens))) && done_free tokens es

abbrev pub slot_of : Entry → ℕ
slot_of e = e.tag.slot

abbrev pub serial_of : Entry → ℕ
serial_of e = e.serial

unfoldable pub check_invariants : Model → Bool
check_invariants m =
    leb (length m.entries) m.depth
    && (distinct (map slot_of m.entries)
        && (distinct (map serial_of m.entries)
            && (is_sorted (map serial_of m.entries)
                && ((distinct (renames m.entries)
                      && leb (length (renames m.entries)) m.rename_depth)
                    && (same_dict m.mapping (mapped m.entries [])
                        && (adjacent m.depth m.entries
                            && (tail_follows m.depth m.tail m.entries
                                && (strays_external m.tokens m.tokens m.entries
                                    && done_free m.tokens m.entries))))))))
