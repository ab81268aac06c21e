-- ===== src/Dispatch/Known.antt =====
-- The classes of the entries in flight (`Rules.event` of sim/tools/check_dispatch_trace.py).
use slo_ppc.Prelude.{ℕ, zero, suc, ◌≡◌, refl, ap, List, [], ◌∷◌, ◌++◌, length, take, drop, map}
use slo_ppc.Dispatch.Rules.{Entry, Flush, Setup, cls}
use slo_ppc.Dispatch.Event.{flush_entry}

-- The class of every entry is that of the word at its address.
abbrev pub AllKnown : Setup → List Entry → Type 0
AllKnown setup [] = Unit {0}
AllKnown setup (e ∷ es) = (e.class ≡ cls setup e.pc) × AllKnown setup es

pub AllKnown-drop :
    (setup : Setup) (n : ℕ) (es : List Entry) → AllKnown setup es → AllKnown setup (drop n es)
AllKnown-drop setup zero es h = h
AllKnown-drop setup (suc n) [] h = tt
AllKnown-drop setup (suc n) (e ∷ es) h = AllKnown-drop setup n es h.1

pub AllKnown-append :
    (setup : Setup) (x : Entry) (es : List Entry)
    → x.class ≡ cls setup x.pc
    → AllKnown setup es
    → AllKnown setup (es ++ x ∷ [])
AllKnown-append setup x [] h k = (h, tt)
AllKnown-append setup x (e ∷ es) h k = (k.0, AllKnown-append setup x es h k.1)

-- A recovery changes no class and no length.
pub AllKnown-marked :
    (setup : Setup) (n : ℕ) (f : Flush) (es : List Entry)
    → AllKnown setup es
    → let marked = take n es ++ map (flush_entry f) (drop n es) in
      AllKnown setup marked × (length marked ≡ length es)
AllKnown-marked setup zero f [] k = (tt, refl)
AllKnown-marked setup zero f (e ∷ es) k =
    let (a, b) = AllKnown-marked setup zero f es k.1 in ((k.0, a), ap suc b)
AllKnown-marked setup (suc n) f [] k = (tt, refl)
AllKnown-marked setup (suc n) f (e ∷ es) k =
    let (a, b) = AllKnown-marked setup n f es k.1 in ((k.0, a), ap suc b)
