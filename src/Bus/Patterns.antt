-- ===== src/Bus/Patterns.antt =====
-- `_bits`, `_pattern`, `pattern_matches` and `expand_pattern` of sim/tools/bus_decode.py. A string is a list of
-- symbols.
use slo_ppc.Prelude.{
  ℕ, Bool, true, false, ◌&&◌, ◌||◌, List, [], ◌∷◌, ◌++◌, length, Result, ok, raise, ◌==◌,
  if◌then◌else◌,
}

-- `DecodeError`.
pub data DecodeError : Type 0 where
  decode_error : DecodeError

-- The characters 0, 1 and X, and any other by its code.
pub data Symbol : Type 0 where
  low high any : Symbol
  other : ℕ → Symbol

unfoldable pub same_symbol : Symbol → Symbol → Bool
same_symbol low low = true
same_symbol high high = true
same_symbol any any = true
same_symbol (other m) (other n) = m == n
same_symbol _ _ = false

-- Equality of strings.
unfoldable pub same_string : List Symbol → List Symbol → Bool
unfolding same_symbol
same_string [] [] = true
same_string (a ∷ us) (b ∷ bs) = same_symbol a b && same_string us bs
same_string _ _ = false

unfoldable pub is_bit : Symbol → Bool
is_bit low = true
is_bit high = true
is_bit _ = false

unfoldable pub is_pattern_symbol : Symbol → Bool
is_pattern_symbol (other n) = false
is_pattern_symbol _ = true

unfoldable pub all_symbols : (Symbol → Bool) → List Symbol → Bool
all_symbols p [] = true
all_symbols p (s ∷ ss) = p s && all_symbols p ss

-- `_bits`.
unfoldable pub check_bits : List Symbol → ℕ → Result DecodeError (List Symbol)
unfolding is_bit all_symbols
check_bits value width =
    if (length value == width) && all_symbols is_bit value then ok value else raise decode_error

-- `_pattern`.
unfoldable pub check_pattern : List Symbol → ℕ → Result DecodeError (List Symbol)
unfolding is_pattern_symbol all_symbols
check_pattern value width =
    if (length value == width) && all_symbols is_pattern_symbol value
    then ok value
    else raise decode_error

-- `pattern_matches`, which goes as far as the shorter of the two.
unfoldable pub pattern_matches : List Symbol → List Symbol → Bool
unfolding same_symbol
pattern_matches (p ∷ ps) (b ∷ bs) = (same_symbol p any || same_symbol p b) && pattern_matches ps bs
pattern_matches _ _ = true

-- `choices`.
unfoldable pub choices : Symbol → List Symbol
choices any = low ∷ high ∷ []
choices s = s ∷ []

-- `[prefix + choice for choice in choices]`.
unfoldable pub extend_one : List Symbol → List Symbol → List (List Symbol)
extend_one prefix [] = []
extend_one prefix (c ∷ cs) = (prefix ++ (c ∷ [])) ∷ extend_one prefix cs

unfoldable pub extend_all : List (List Symbol) → List Symbol → List (List Symbol)
unfolding extend_one
extend_all [] cs = []
extend_all (e ∷ es) cs = extend_one e cs ++ extend_all es cs

unfoldable pub expand_from : List (List Symbol) → List Symbol → List (List Symbol)
unfolding extend_all choices
expand_from expanded [] = expanded
expand_from expanded (s ∷ ss) = expand_from (extend_all expanded (choices s)) ss

unfoldable pub expand_pattern : List Symbol → List (List Symbol)
unfolding expand_from
expand_pattern pattern = expand_from ([] ∷ []) pattern
