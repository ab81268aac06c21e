-- ===== src/Recovery/Queue.antt =====
-- Predicates on the entries of the completion queue: contiguous slots, ascending serials, renames held
-- once, destinations in range; and that cutting, changing and extending the queue keeps them.
use slo_ppc.Prelude.{
  ℕ, ◌+◌, ◌%◌, ◌<◌, ◌≤◌, ◌≡◌, refl, arith, false, Option, none, some, List, [], ◌∷◌, length, inl,
  inr, Bool-cases, ap,
}
use slo_ppc.Recovery.State.{Tag, same_tag, Entry}
use slo_ppc.Recovery.Step.{has_tag, uses_rename, change}

-- The entries have the slots from `s` on, going round at `d`, and `t` is the next one.
abbrev pub Contiguous : ℕ → ℕ → List Entry → ℕ → Type 0
Contiguous d s [] t = s ≡ t
Contiguous d s (e ∷ es) t = (e.tag.slot ≡ s) × Contiguous d ((s + 1) % d) es t

-- The serials ascend from `lo` on and stay below `hi`.
abbrev pub Ordered : ℕ → List Entry → ℕ → Type 0
Ordered lo [] hi = lo ≤ hi
Ordered lo (e ∷ es) hi = (lo ≤ e.serial) × Ordered (e.serial + 1) es hi

abbrev pub RenameFree : ℕ → Option ℕ → List Entry → Type 0
RenameFree n none es = Unit
RenameFree n (some r) es = (r < n) × (uses_rename r es ≡ false)

-- Each rename register is below `n` and held by one entry.
abbrev pub Renamed : ℕ → List Entry → Type 0
Renamed n [] = Unit
Renamed n (e ∷ es) = RenameFree n e.rename es × Renamed n es

abbrev pub DstIn : Option ℕ → Type 0
DstIn none = Unit
DstIn (some r) = r < 32

abbrev pub DstsIn : List Entry → Type 0
DstsIn [] = Unit
DstsIn (e ∷ es) = DstIn e.dst × DstsIn es

-- Two queues with the same tags, serials, destinations and renames.
abbrev pub Alike : List Entry → List Entry → Type 0
Alike [] [] = Unit
Alike [] (e ∷ es) = ⊥
Alike (e ∷ es) [] = ⊥
Alike (e ∷ es) (f ∷ fs) =
    ((e.tag ≡ f.tag) × (e.serial ≡ f.serial) × (e.dst ≡ f.dst) × (e.rename ≡ f.rename))
    × Alike es fs

pub Alike-refl : (es : List Entry) → Alike es es
Alike-refl [] = tt
Alike-refl (e ∷ es) = ((refl, refl, refl, refl), Alike-refl es)

-- A change that leaves those fields alone.
abbrev pub KeepsShape : (Entry → Entry) → Type 0
KeepsShape f =
    (e : Entry)
    → (e.tag ≡ (f e).tag)
      × (e.serial ≡ (f e).serial)
      × (e.dst ≡ (f e).dst)
      × (e.rename ≡ (f e).rename)

pub Alike-change :
    (t : Tag) (f : Entry → Entry) (es : List Entry) → KeepsShape f → Alike es (change t f es)
unfolding change
Alike-change t f [] k = tt
Alike-change t f (e ∷ es) k = elim (Bool-cases (same_tag e.tag t)) [
  | inl here ↦ rw here (k e, Alike-refl es)
  | inr there ↦ rw there ((refl, refl, refl, refl), Alike-change t f es k)
]

pub Contiguous-Alike :
    (d s t : ℕ) (es fs : List Entry) → Alike es fs → Contiguous d s es t → Contiguous d s fs t
Contiguous-Alike d s t [] [] a c = c
Contiguous-Alike d s t [] (f ∷ fs) a c = absurd a
Contiguous-Alike d s t (e ∷ es) [] a c = absurd a
Contiguous-Alike d s t (e ∷ es) (f ∷ fs) a c = (
  ground (arith, ap (λ (u : Tag). u.slot) a.0.0),
  Contiguous-Alike d ((s + 1) % d) t es fs a.1 c.1,
)

pub Ordered-Alike :
    (lo hi : ℕ) (es fs : List Entry) → Alike es fs → Ordered lo es hi → Ordered lo fs hi
Ordered-Alike lo hi [] [] a o = o
Ordered-Alike lo hi [] (f ∷ fs) a o = absurd a
Ordered-Alike lo hi (e ∷ es) [] a o = absurd a
Ordered-Alike lo hi (e ∷ es) (f ∷ fs) a o =
    (omega arith, rw (← a.0.1) (Ordered-Alike (e.serial + 1) hi es fs a.1 o.1))

pub uses_rename-Alike :
    (r : ℕ) (es fs : List Entry) → Alike es fs → uses_rename r es ≡ uses_rename r fs
unfolding uses_rename
uses_rename-Alike r [] [] a = refl
uses_rename-Alike r [] (f ∷ fs) a = absurd a
uses_rename-Alike r (e ∷ es) [] a = absurd a
uses_rename-Alike r (e ∷ es) (f ∷ fs) a = ground (arith, uses_rename-Alike r es fs a.1)

pub RenameFree-Alike :
    (n : ℕ) (o : Option ℕ) (es fs : List Entry)
    → Alike es fs
    → RenameFree n o es
    → RenameFree n o fs
RenameFree-Alike n none es fs a h = tt
RenameFree-Alike n (some r) es fs a h = ground (arith, uses_rename-Alike r es fs a)

pub Renamed-Alike : (n : ℕ) (es fs : List Entry) → Alike es fs → Renamed n es → Renamed n fs
Renamed-Alike n [] [] a h = tt
Renamed-Alike n [] (f ∷ fs) a h = absurd a
Renamed-Alike n (e ∷ es) [] a h = absurd a
Renamed-Alike n (e ∷ es) (f ∷ fs) a h =
    (rw (← a.0.3) (RenameFree-Alike n e.rename es fs a.1 h.0), Renamed-Alike n es fs a.1 h.1)

pub DstsIn-Alike : (es fs : List Entry) → Alike es fs → DstsIn es → DstsIn fs
DstsIn-Alike [] [] a h = tt
DstsIn-Alike [] (f ∷ fs) a h = absurd a
DstsIn-Alike (e ∷ es) [] a h = absurd a
DstsIn-Alike (e ∷ es) (f ∷ fs) a h = (rw (← a.0.2) h.0, DstsIn-Alike es fs a.1 h.1)

pub length-Alike : (es fs : List Entry) → Alike es fs → length es ≡ length fs
length-Alike [] [] a = refl
length-Alike [] (f ∷ fs) a = absurd a
length-Alike (e ∷ es) [] a = absurd a
length-Alike (e ∷ es) (f ∷ fs) a = omega (arith, length-Alike es fs a.1)

pub has_tag-Alike : (t : Tag) (es fs : List Entry) → Alike es fs → has_tag t es ≡ has_tag t fs
unfolding has_tag
has_tag-Alike t [] [] a = refl
has_tag-Alike t [] (f ∷ fs) a = absurd a
has_tag-Alike t (e ∷ es) [] a = absurd a
has_tag-Alike t (e ∷ es) (f ∷ fs) a = rw (a.0.0, has_tag-Alike t es fs a.1)
