-- ===== src/Prelude/Results.antt =====
-- A Python call that returns or raises, and its `do` notation.
use mathlib.Core.Bool.{Bool, true, false}

pub data Result (E A : Type 0) : Type 0 where
  ok : A → Result E A
  raise : E → Result E A

-- `if not b: raise e`.
abbrev pub require : {E : Type 0} → Bool → E → Result E (Unit {0})
require b e = elim b [ true ↦ ok tt | false ↦ raise e ]

-- What follows a call runs only if the call returned.
infixl 5 ◌>>=◌ ◌>>◌
abbrev pub ◌>>◌ : {E B : Type 0} → Result E (Unit {0}) → Result E B → Result E B
ok u >> next = next
raise e >> next = raise e

abbrev pub ◌>>=◌ : {E A B : Type 0} → Result E A → (A → Result E B) → Result E B
raise e >>= next = raise e
ok a >>= next = next a
