-- ===== src/Dispatch/Inversion.antt =====
-- What an accepted chain of tests says.
use slo_ppc.Prelude.{◌≡◌, refl, ap, arith, Bool, true, false, ok, raise, ◌>>◌, ◌>>=◌}
use slo_ppc.Dispatch.Occupancy.{RuleError}
use slo_ppc.Dispatch.Rules.{Checked, demand}

-- A value that comes out of a chain came out of its first part.
pub bind-elim :
    {A B P : Type 0} (m : Checked A) (f : A → Checked B) {b : B}
    → (m >>= f) ≡ ok b
    → ((a : A) → m ≡ ok a → f a ≡ ok b → P)
    → P
bind-elim (ok a) f h k = k a refl h
bind-elim (raise e) f h k = absurd (ground arith)

-- What is demanded holds.
pub demand-elim :
    {B : Type 0} (c : Bool) (m : Checked B) {b : B}
    → (demand c >> m) ≡ ok b
    → (c ≡ true) × (m ≡ ok b)
demand-elim true m h = (refl, h)
demand-elim false m h = absurd (ground arith)

pub ok_injective : {A : Type 0} {a b : A} → ◌≡◌ {A = Checked A} (ok a) (ok b) → a ≡ b
ok_injective {A} {a} h = ap (value a) h
  where
    value : {A : Type 0} → A → Checked A → A
    value d (ok x) = x
    value d (raise e) = d

pub raised : {A : Type 0} {e : RuleError} {a : A} → ◌≡◌ {A = Checked A} (raise e) (ok a) → ⊥
raised h = ground arith
