-- ===== src/Recovery/Cutting.antt =====
-- What taking a prefix of the queue, and adding one entry, do to its predicates; and that the slots of
-- a queue that fits are different.
use slo_ppc.Prelude.{
  ℕ, zero, suc, ◌+◌, ◌%◌, ◌<◌, ◌≤◌, ◌≡◌, refl, arith, false, ◌||◌, Option, none, some, List, [],
  ◌∷◌, ◌++◌, length, take, inl, inr, Option-cases, ap, ◌∙◌, sym,
}
use slo_ppc.Recovery.State.{Tag, same_tag, Entry}
use slo_ppc.Recovery.Step.{has_tag, uses_rename, slot_after, head_slot}
use slo_ppc.Recovery.Queue.{Contiguous, Ordered, RenameFree, Renamed, DstIn, DstsIn}

pub Ordered-le : (lo hi : ℕ) (es : List Entry) → Ordered lo es hi → lo ≤ hi
Ordered-le lo hi [] o = o
Ordered-le lo hi (e ∷ es) o = omega (arith, Ordered-le (e.serial + 1) hi es o.1, o.0)

pub Ordered-take : (n lo hi : ℕ) (es : List Entry) → Ordered lo es hi → Ordered lo (take n es) hi
Ordered-take zero lo hi es o = Ordered-le lo hi es o
Ordered-take (suc n) lo hi [] o = o
Ordered-take (suc n) lo hi (e ∷ es) o = (o.0, Ordered-take n (e.serial + 1) hi es o.1)

pub Contiguous-take :
    (n d s t : ℕ) (es : List Entry)
    → Contiguous d s es t
    → Contiguous d s (take n es) (slot_after d (take n es) s)
unfolding slot_after
Contiguous-take zero d s t es c = refl
Contiguous-take (suc n) d s t [] c = refl
Contiguous-take (suc n) d s t (e ∷ es) c =
    (c.0, rw (c.0) (Contiguous-take n d ((s + 1) % d) t es c.1))

pub head_slot-Contiguous : (d s t : ℕ) (es : List Entry) → Contiguous d s es t → head_slot es t ≡ s
head_slot-Contiguous d s t [] c = sym c
head_slot-Contiguous d s t (e ∷ es) c = c.0

pub slot_after-lt : (d s : ℕ) (es : List Entry) → s < d → slot_after d es s < d
unfolding slot_after
slot_after-lt d s [] h = h
slot_after-lt d s (e ∷ es) h = slot_after-lt d ((e.tag.slot + 1) % d) es (omega arith)

pub uses_rename-take :
    (n r : ℕ) (es : List Entry) → uses_rename r es ≡ false → uses_rename r (take n es) ≡ false
unfolding uses_rename
uses_rename-take zero r es h = refl
uses_rename-take (suc n) r [] h = refl
uses_rename-take (suc n) r (e ∷ es) h = ground (arith, uses_rename-take n r es)

RenameFree-take :
    (n k : ℕ) (o : Option ℕ) (es : List Entry) → RenameFree k o es → RenameFree k o (take n es)
RenameFree-take n k none es h = tt
RenameFree-take n k (some r) es h = (h.0, uses_rename-take n r es h.1)

pub Renamed-take : (n k : ℕ) (es : List Entry) → Renamed k es → Renamed k (take n es)
Renamed-take zero k es h = tt
Renamed-take (suc n) k [] h = tt
Renamed-take (suc n) k (e ∷ es) h = (RenameFree-take n k e.rename es h.0, Renamed-take n k es h.1)

pub DstsIn-take : (n : ℕ) (es : List Entry) → DstsIn es → DstsIn (take n es)
DstsIn-take zero es h = tt
DstsIn-take (suc n) [] h = tt
DstsIn-take (suc n) (e ∷ es) h = (h.0, DstsIn-take n es h.1)

pub length-take-le : (n : ℕ) (es : List Entry) → length (take n es) ≤ length es
length-take-le zero es = omega arith
length-take-le (suc n) [] = omega arith
length-take-le (suc n) (e ∷ es) = omega (arith, length-take-le n es)

pub Ordered-append :
    (lo hi : ℕ) (es : List Entry) (e : Entry)
    → Ordered lo es hi
    → e.serial ≡ hi
    → Ordered lo (es ++ e ∷ []) (hi + 1)
Ordered-append lo hi [] e o k = omega arith
Ordered-append lo hi (f ∷ es) e o k = (o.0, Ordered-append (f.serial + 1) hi es e o.1 k)

pub Contiguous-append :
    (d s t : ℕ) (es : List Entry) (e : Entry)
    → Contiguous d s es t
    → e.tag.slot ≡ t
    → Contiguous d s (es ++ e ∷ []) ((t + 1) % d)
Contiguous-append d s t [] e c k = (k ∙ sym c, ap (λ (x : ℕ). (x + 1) % d) c)
Contiguous-append d s t (f ∷ es) e c k = (c.0, Contiguous-append d ((s + 1) % d) t es e c.1 k)

pub length-snoc : (es : List Entry) (e : Entry) → length (es ++ e ∷ []) ≡ length es + 1
length-snoc [] e = omega arith
length-snoc (f ∷ es) e = omega (arith, length-snoc es e)

pub DstsIn-append : (es : List Entry) (e : Entry) → DstsIn es → DstIn e.dst → DstsIn (es ++ e ∷ [])
DstsIn-append [] e h k = (k, tt)
DstsIn-append (f ∷ es) e h k = (h.0, DstsIn-append es e h.1 k)

pub has_tag-append :
    (t : Tag) (es : List Entry) (e : Entry)
    → has_tag t (es ++ e ∷ []) ≡ (has_tag t es || same_tag e.tag t)
unfolding has_tag
has_tag-append t [] e = ground arith
has_tag-append t (f ∷ es) e = ground (arith, has_tag-append t es e)

uses_rename-append :
    (r : ℕ) (es : List Entry) (e : Entry)
    → uses_rename r (es ++ e ∷ []) ≡ (uses_rename r es || uses_rename r (e ∷ []))
unfolding uses_rename
uses_rename-append r [] e = ground arith
uses_rename-append r (f ∷ es) e = ground (arith, uses_rename-append r es e)

-- A register that no entry of the queue holds is not that of an entry.
RenameFree-append :
    (n : ℕ) (o : Option ℕ) (es : List Entry) (e : Entry)
    → RenameFree n o es
    → ((r : ℕ) → o ≡ some r → uses_rename r (e ∷ []) ≡ false)
    → RenameFree n o (es ++ e ∷ [])
RenameFree-append n none es e h k = tt
RenameFree-append n (some r) es e h k = (h.0, ground (arith, uses_rename-append r es e, k r refl))

-- The rename of an entry is that of no other, if no entry of the queue holds it.
not_used :
    (f e : Entry) (es : List Entry)
    → ((r : ℕ) → e.rename ≡ some r → uses_rename r (f ∷ es) ≡ false)
    → (r : ℕ) → f.rename ≡ some r
    → uses_rename r (e ∷ []) ≡ false
unfolding uses_rename
not_used f e es h r k = elim (Option-cases e.rename) [
  | inl none_held ↦ rw none_held refl
  | inr (q, held) ↦ ground (arith, h q held)
]

pub uses_rename-tail :
    (r : ℕ) (f : Entry) (es : List Entry)
    → uses_rename r (f ∷ es) ≡ false
    → uses_rename r es ≡ false
unfolding uses_rename
uses_rename-tail r f es h = ground arith

RenameFree-nil : (n : ℕ) (o : Option ℕ) → ((r : ℕ) → o ≡ some r → r < n) → RenameFree n o []
RenameFree-nil n none k = tt
RenameFree-nil n (some r) k = (k r refl, unfold uses_rename in refl)

pub Renamed-append :
    (n : ℕ) (es : List Entry) (e : Entry)
    → Renamed n es
    → ((r : ℕ) → e.rename ≡ some r → (r < n) × (uses_rename r es ≡ false))
    → Renamed n (es ++ e ∷ [])
Renamed-append n [] e h k = (RenameFree-nil n e.rename (λ r p. (k r p).0), tt)
Renamed-append n (f ∷ es) e h k = (
  RenameFree-append n f.rename es e h.0 (not_used f e es (λ r p. (k r p).1)),
  Renamed-append n es e h.1 (λ r p. ((k r p).0, uses_rename-tail r f es (k r p).1)),
)
