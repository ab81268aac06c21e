-- ===== src/Examples/Bus.antt =====
-- The theorems on bus codes at a concrete pattern.
use slo_ppc.Prelude.{◌≡◌, true, false, ok, List, refl, [], ◌∷◌, if◌then◌else◌}
use slo_ppc.Bus.Table.{
  TtRow, defined, reserved, register_rows, has_code, matching, found_row, snoop,
}
use slo_ppc.Bus.Cover.{found_row-matching}
use slo_ppc.Bus.Patterns.{
  Symbol, check_pattern, low, high, any, pattern_matches, expand_pattern, all_symbols, is_bit,
  is_pattern_symbol, same_string,
}
use slo_ppc.Bus.Expansion.{count, expand_pattern-pattern_matches}

abbrev one_any : List Symbol
one_any = high ∷ any ∷ low ∷ []

expand_pattern-pattern_matches_example :
    count (expand_pattern one_any) (high ∷ low ∷ low ∷ [])
    ≡ (if pattern_matches one_any (high ∷ low ∷ low ∷ []) then 1 else 0)
unfolding all_symbols is_bit is_pattern_symbol
expand_pattern-pattern_matches_example =
    expand_pattern-pattern_matches one_any (high ∷ low ∷ low ∷ []) refl

-- A pattern does not expand to itself.
keeps_no_any : count (expand_pattern one_any) one_any ≡ 0
unfolding count expand_pattern same_string
keeps_no_any = refl

-- A table of two rows that cover four codes.
abbrev first_row : TtRow
first_row = record {
  pattern = low ∷ low ∷ low ∷ low ∷ any ∷ [];
  dont_care_bits = 4 ∷ [];
  status = defined;
  allowed_action = true;
  is_reserved_command = false;
}

abbrev second_row : TtRow
second_row = record {
  pattern = high ∷ low ∷ low ∷ low ∷ any ∷ [];
  dont_care_bits = 4 ∷ [];
  status = reserved;
  allowed_action = true;
  is_reserved_command = true;
}

abbrev asked : List Symbol
asked = high ∷ low ∷ low ∷ low ∷ high ∷ []

found_row-matching_example :
    (r : TtRow) × (matching (first_row ∷ second_row ∷ []) asked ≡ r ∷ [])
    × (found_row (first_row ∷ second_row ∷ []) asked snoop false ≡ ok r)
unfolding register_rows expand_pattern check_pattern all_symbols is_bit has_code
found_row-matching_example =
    found_row-matching (first_row ∷ second_row ∷ [])
      ((high ∷ low ∷ low ∷ low ∷ high ∷ [])
        ∷ (high ∷ low ∷ low ∷ low ∷ low ∷ [])
        ∷ (low ∷ low ∷ low ∷ low ∷ high ∷ [])
        ∷ (low ∷ low ∷ low ∷ low ∷ low ∷ [])
        ∷ [])
      asked snoop false refl refl refl refl refl
