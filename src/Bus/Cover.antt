-- ===== src/Bus/Cover.antt =====
-- A table whose rows `validate` has gone through gives every registered code one row.
use slo_ppc.Prelude.{
  ◌+◌, ◌≤◌, ◌<◌, ◌≡◌, refl, sym, ap, ◌∙◌, arith, Bool, Bool-cases, inl, inr, true, false, not, ◌&&◌,
  ◌||◌, List, [], ◌∷◌, length, Result, ok, raise, require, ◌>>◌, ◌>>=◌, if◌then◌else◌, ◌==◌,
}
use slo_ppc.Integer.Word.{int}
use slo_ppc.Bus.Patterns.{
  DecodeError, decode_error, Symbol, low, high, any, other, same_symbol, same_string, is_bit,
  is_pattern_symbol, all_symbols, check_bits, check_pattern, pattern_matches, expand_pattern,
}
use slo_ppc.Bus.Expansion.{count, expand_pattern-pattern_matches}
use slo_ppc.Bus.Table.{
  TtRow, same_numbers, any_positions, is_known, is_reserved, has_code, register_codes, register_row,
  register_rows, matching, only_row, Role, is_master, found_row,
}

and_left : (t u : Bool) → (t && u) ≡ true → t ≡ true
and_left true u h = refl
and_left false u h = h

and_right : (t u : Bool) → (t && u) ≡ true → u ≡ true
and_right true u h = h
and_right false u h = absurd (ground arith)

same_symbol-eq : (a b : Symbol) → same_symbol a b ≡ true → a ≡ b
unfolding same_symbol
same_symbol-eq low low h = refl
same_symbol-eq high high h = refl
same_symbol-eq any any h = refl
same_symbol-eq (other m) (other n) h = ap other (ground arith)
same_symbol-eq low high h = absurd (ground arith)
same_symbol-eq low any h = absurd (ground arith)
same_symbol-eq low (other n) h = absurd (ground arith)
same_symbol-eq high low h = absurd (ground arith)
same_symbol-eq high any h = absurd (ground arith)
same_symbol-eq high (other n) h = absurd (ground arith)
same_symbol-eq any low h = absurd (ground arith)
same_symbol-eq any high h = absurd (ground arith)
same_symbol-eq any (other n) h = absurd (ground arith)
same_symbol-eq (other m) low h = absurd (ground arith)
same_symbol-eq (other m) high h = absurd (ground arith)
same_symbol-eq (other m) any h = absurd (ground arith)

same_string-eq : (us bs : List Symbol) → same_string us bs ≡ true → us ≡ bs
unfolding same_string
same_string-eq [] [] h = refl
same_string-eq [] (b ∷ bs) h = absurd (ground arith)
same_string-eq (a ∷ us) [] h = absurd (ground arith)
same_string-eq (a ∷ us) (b ∷ bs) h =
    ap (λ (s : Symbol). s ∷ us)
      (same_symbol-eq a b (and_left (same_symbol a b) (same_string us bs) h))
    ∙ ap (λ (t : List Symbol). b ∷ t)
        (same_string-eq us bs (and_right (same_symbol a b) (same_string us bs) h))

absent : (es : List (List Symbol)) (b : List Symbol) → has_code es b ≡ false → count es b ≡ 0
unfolding has_code count
absent [] b h = refl
absent (e ∷ es) b h = ground (arith, absent es b)

-- A new code.
fresh :
    (seen : List (List Symbol)) (c b : List Symbol)
    → has_code seen c ≡ false
    → count seen b ≤ 1
    → count (c ∷ seen) b ≤ 1
unfolding count
fresh seen c b h k = elim (Bool-cases (same_string c b)) [
  | inl e ↦
      rw e (omega (arith, absent seen b (ap (has_code seen) (sym (same_string-eq c b e)) ∙ h)))
  | inr e ↦ rw e (omega arith)
]

require_then :
    (t : Bool) (r : Result DecodeError (List (List Symbol))) (s : List (List Symbol))
    → (require t decode_error >> r) ≡ ok s
    → (t ≡ true) × (r ≡ ok s)
require_then true r s h = (refl, h)
require_then false r s h = absurd (ground arith)

refuted : (t : Bool) → not t ≡ true → t ≡ false
refuted true h = sym h
refuted false h = refl

same_list :
    (us vs : List (List Symbol)) (b : List Symbol)
    → register_codes us [] ≡ ok vs
    → count us b ≡ count vs b
unfolding register_codes
same_list us vs b h =
    ap (λ (r : Result DecodeError (List (List Symbol))). elim r [ ok x ↦ count x b | raise e ↦ 0 ])
      h

bind_then :
    {A : Type 0} (x : Result DecodeError A) (f : A → Result DecodeError (List (List Symbol)))
    (s : List (List Symbol))
    → (x >>= f) ≡ ok s
    → (a : A) × (x ≡ ok a) × (f a ≡ ok s)
bind_then (ok a) f s h = (a, refl, h)
bind_then (raise e) f s h = absurd (ground arith)

checked_pattern :
    (p q : List Symbol)
    → check_pattern p 5 ≡ ok q
    → (length p ≡ 5) × (all_symbols is_pattern_symbol p ≡ true) × (p ≡ q)
unfolding check_pattern
checked_pattern p q h = ground arith

register_codes-count :
    (seen cs s : List (List Symbol)) (b : List Symbol)
    → register_codes seen cs ≡ ok s
    → (count s b ≡ count seen b + count cs b) × (count seen b ≤ 1 → count s b ≤ 1)
unfolding register_codes count
register_codes-count seen [] s b h =
    (omega (arith, same_list seen s b h), λ k. omega (arith, same_list seen s b h))
register_codes-count seen (c ∷ cs) s b h =
    let p = require_then (not (has_code seen c)) (register_codes (c ∷ seen) cs) s h in
    let ih = register_codes-count (c ∷ seen) cs s b p.1 in
    (omega (arith, ih.0), λ k. ih.1 (fresh seen c b (refuted (has_code seen c) p.0) k))

matching-length :
    (r : TtRow) (rows : List TtRow) (b : List Symbol)
    → length (matching (r ∷ rows) b) ≡ int (pattern_matches r.pattern b) + length (matching rows b)
unfolding matching
matching-length r rows b = ground arith

at_code :
    (p b : List Symbol)
    → length p ≡ length b
    → all_symbols is_bit b ≡ true
    → (if (length p == length b) && (all_symbols is_bit b && pattern_matches p b) then 1 else 0)
      ≡ int (pattern_matches p b)
at_code p b h k = ground arith

module _ (b : List Symbol) (code : all_symbols is_bit b ≡ true) (five : length b ≡ 5) where
  register_row-count :
      (seen s : List (List Symbol)) (row : TtRow)
      → register_row seen row ≡ ok s
      → (count s b ≡ count seen b + int (pattern_matches row.pattern b))
        × (count seen b ≤ 1 → count s b ≤ 1)
  unfolding register_row
  register_row-count seen s row h =
      let u = bind_then (check_pattern row.pattern 5) _ s h in
      let p = checked_pattern row.pattern u.0 u.1 in
      let v1 = require_then (same_numbers row.dont_care_bits (any_positions 0 u.0)) _ s u.2 in
      let v2 = require_then (is_known row.status) _ s v1.1 in
      let v3 = require_then row.allowed_action _ s v2.1 in
      let v4 = require_then (not (is_reserved row.status) || row.is_reserved_command) _ s v3.1 in
      let n = register_codes-count seen (expand_pattern u.0) s b v4.1 in
      let m : count (expand_pattern row.pattern) b ≡ int (pattern_matches row.pattern b) =
        expand_pattern-pattern_matches row.pattern b p.1
        ∙ at_code row.pattern b (p.0 ∙ sym five) code in
      (omega (arith, n.0, m, ap (λ (t : List Symbol). count (expand_pattern t) b) p.2), n.1)

  register_rows-count :
      (seen s : List (List Symbol)) (rows : List TtRow)
      → register_rows seen rows ≡ ok s
      → (count s b ≡ count seen b + length (matching rows b)) × (count seen b ≤ 1 → count s b ≤ 1)
  unfolding register_rows matching
  register_rows-count seen s [] h =
      (omega (arith, same_list seen s b h), λ k. omega (arith, same_list seen s b h))
  register_rows-count seen s (r ∷ rows) h =
      let u =
        bind_then (register_row seen r) (λ (t : List (List Symbol)). register_rows t rows) s h in
      let first = register_row-count seen u.0 r u.1 in
      let rest = register_rows-count u.0 s rows u.2 in
      (omega (arith, first.0, rest.0, matching-length r rows b), λ k. rest.1 (first.1 k))

has_count : (es : List (List Symbol)) (b : List Symbol) → has_code es b ≡ true → 0 < count es b
unfolding has_code count
has_count [] b h = absurd (ground arith)
has_count (e ∷ es) b h = ground (arith, has_count es b)

single : (rows : List TtRow) → length rows ≡ 1 → (r : TtRow) × (rows ≡ r ∷ [])
single [] h = absurd (omega arith)
single (r ∷ []) h = (r, refl)
single (r ∷ q ∷ rows) h = absurd (omega arith)

found :
    (rows : List TtRow) (b : List Symbol) (role : Role) (abe : Bool) (r : TtRow)
    → length b ≡ 5
    → all_symbols is_bit b ≡ true
    → (abe && not (is_master role)) ≡ false
    → matching rows b ≡ r ∷ []
    → found_row rows b role abe ≡ ok r
unfolding found_row check_bits only_row
found rows b role abe r five code fits e = rw five (rw code (rw fits (ap only_row e)))

-- Once `validate` has gone through the rows, a code of five bits that they cover has exactly one row that
-- matches it, and `decode_tt` finds that row, for a master with or without ABE and for the other roles without.
pub found_row-matching :
    (rows : List TtRow) (seen : List (List Symbol)) (b : List Symbol) (role : Role) (abe : Bool)
    → register_rows [] rows ≡ ok seen
    → length b ≡ 5
    → all_symbols is_bit b ≡ true
    → has_code seen b ≡ true
    → (abe && not (is_master role)) ≡ false
    → (r : TtRow) × (matching rows b ≡ r ∷ []) × (found_row rows b role abe ≡ ok r)
unfolding count
found_row-matching rows seen b role abe h five code covered fits =
    let n = register_rows-count b code five [] seen rows h in
    let one =
      single (matching rows b) (omega (arith, n.0, n.1 (omega arith), has_count seen b covered)) in
    (one.0, one.1, found rows b role abe one.0 five code fits one.1)
