-- ===== src/Bus/Table.antt =====
-- The rows of the transfer type table as `validate` of sim/tools/bus_decode.py goes through them, and the row that
-- `decode_tt` finds. The rows come from a JSON file and are an argument.
use slo_ppc.Prelude.{
  ℕ, ◌+◌, Bool, true, false, not, ◌&&◌, ◌||◌, List, [], ◌∷◌, Result, ok, raise, ◌>>=◌, ◌>>◌,
  require, ◌==◌, if◌then◌else◌,
}
use slo_ppc.Bus.Patterns.{
  DecodeError, decode_error, Symbol, any, same_symbol, same_string, check_pattern, check_bits,
  pattern_matches, expand_pattern,
}

-- `status`, and any other string.
pub data Status : Type 0 where
  defined reserved unknown_status : Status

-- The fields of a row that the loop reads. `allowed_action` is the test of its snoop action, and `is_reserved_command`
-- that of its command.
pub record TtRow : Type 0 where
  pub pattern : List Symbol
  pub dont_care_bits : List ℕ
  pub status : Status
  pub allowed_action : Bool
  pub is_reserved_command : Bool

-- `code in expanded`.
unfoldable pub has_code : List (List Symbol) → List Symbol → Bool
unfolding same_string
has_code [] b = false
has_code (e ∷ es) b = same_string e b || has_code es b

-- `expected_dc`, the positions of X from one on.
unfoldable pub any_positions : ℕ → List Symbol → List ℕ
unfolding same_symbol
any_positions i [] = []
any_positions i (s ∷ ss) =
    let rest = any_positions (i + 1) ss in if same_symbol s any then i ∷ rest else rest

unfoldable pub same_numbers : List ℕ → List ℕ → Bool
same_numbers [] [] = true
same_numbers (m ∷ ms) (n ∷ ns) = (m == n) && same_numbers ms ns
same_numbers _ _ = false

unfoldable pub is_known : Status → Bool
is_known unknown_status = false
is_known _ = true

unfoldable pub is_reserved : Status → Bool
is_reserved reserved = true
is_reserved _ = false

-- The codes of a pattern, each of them new.
unfoldable pub register_codes :
    List (List Symbol) → List (List Symbol) → Result DecodeError (List (List Symbol))
unfolding has_code
register_codes seen [] = ok seen
register_codes seen (c ∷ cs) = do
  require (not (has_code seen c)) decode_error
  register_codes (c ∷ seen) cs

unfoldable pub register_row : List (List Symbol) → TtRow → Result DecodeError (List (List Symbol))
unfolding any_positions same_numbers is_known is_reserved register_codes
register_row seen row = do
  pattern ← check_pattern row.pattern 5
  require (same_numbers row.dont_care_bits (any_positions 0 pattern)) decode_error
  require (is_known row.status) decode_error
  require row.allowed_action decode_error
  require (not (is_reserved row.status) || row.is_reserved_command) decode_error
  register_codes seen (expand_pattern pattern)

unfoldable pub register_rows :
    List (List Symbol) → List TtRow → Result DecodeError (List (List Symbol))
unfolding register_row
register_rows seen [] = ok seen
register_rows seen (r ∷ rs) = do s ← register_row seen r; register_rows s rs

-- `matches` of `decode_tt`.
unfoldable pub matching : List TtRow → List Symbol → List TtRow
matching [] b = []
matching (r ∷ rs) b =
    let rest = matching rs b in if pattern_matches r.pattern b then r ∷ rest else rest

-- `if len(matches) != 1: raise`.
unfoldable pub only_row : List TtRow → Result DecodeError TtRow
only_row (r ∷ []) = ok r
only_row _ = raise decode_error

-- `role`.
pub data Role : Type 0 where
  bus master snoop : Role

unfoldable pub is_master : Role → Bool
is_master master = true
is_master _ = false

-- The row that `decode_tt` goes on with, on a table that is valid.
unfoldable pub found_row : List TtRow → List Symbol → Role → Bool → Result DecodeError TtRow
unfolding matching only_row is_master
found_row rows b role pid7v_abe = do
  code ← check_bits b 5
  require (not (pid7v_abe && not (is_master role))) decode_error
  only_row (matching rows code)
