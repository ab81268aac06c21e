-- ===== src/Bus/Expansion.antt =====
-- A pattern expands to the codes that match it, each once.
use slo_ppc.Prelude.{
  ℕ, ◌+◌, ◌*◌, ◌≡◌, refl, sym, ap, ◌∙◌, arith, Bool, true, false, ◌&&◌, ◌||◌, List, [], ◌∷◌, ◌++◌,
  length, if◌then◌else◌, ◌≢◌, inl, inr, subst, Bool-cases, ==_iff, ◌==◌,
}
use native.Mathlib.Nat.{mul-add, add-mul, mul_assoc}
use slo_ppc.Integer.Word.{int}
use slo_ppc.Bus.Patterns.{
  Symbol, low, high, any, other, same_symbol, same_string, is_bit, is_pattern_symbol, all_symbols,
  pattern_matches, choices, extend_one, extend_all, expand_from, expand_pattern,
}

-- How often a code stands in a list.
unfoldable pub count : List (List Symbol) → List Symbol → ℕ
count [] b = 0
count (e ∷ es) b = int (same_string e b) + count es b

unfoldable choices_count : List Symbol → Symbol → ℕ
choices_count [] x = 0
choices_count (c ∷ cs) x = int (same_symbol c x) + choices_count cs x

count-append :
    (es fs : List (List Symbol)) (b : List Symbol) → count (es ++ fs) b ≡ count es b + count fs b
unfolding count
count-append [] fs b = omega arith
count-append (e ∷ es) fs b = omega (arith, count-append es fs b)

int_and : (t u : Bool) → int (t && u) ≡ int t * int u
int_and true true = refl
int_and true false = refl
int_and false u = omega arith

and_true : (t : Bool) → (t && true) ≡ t
and_true true = refl
and_true false = refl

and_false : (t : Bool) → (t && false) ≡ false
and_false true = refl
and_false false = refl

and_assoc : (t u v : Bool) → (t && (u && v)) ≡ ((t && u) && v)
and_assoc true u v = refl
and_assoc false u v = refl

longer : (us : List Symbol) (c : Symbol) → same_string (us ++ (c ∷ [])) [] ≡ false
unfolding same_string
longer [] c = refl
longer (a ∷ us) c = refl

shorter : (bs : List Symbol) (x : Symbol) → same_string [] (bs ++ (x ∷ [])) ≡ false
unfolding same_string
shorter [] x = refl
shorter (b ∷ bs) x = refl

-- Two codes with one more symbol each.
same_string-append :
    (us bs : List Symbol) (c x : Symbol)
    → same_string (us ++ (c ∷ [])) (bs ++ (x ∷ [])) ≡ (same_string us bs && same_symbol c x)
unfolding same_string
same_string-append [] [] c x = and_true (same_symbol c x)
same_string-append [] (b ∷ bs) c x =
    ap (λ (t : Bool). same_symbol c b && t) (shorter bs x) ∙ and_false (same_symbol c b)
same_string-append (a ∷ us) [] c x =
    ap (λ (t : Bool). same_symbol a x && t) (longer us c) ∙ and_false (same_symbol a x)
same_string-append (a ∷ us) (b ∷ bs) c x =
    ap (λ (t : Bool). same_symbol a b && t) (same_string-append us bs c x)
    ∙ and_assoc (same_symbol a b) (same_string us bs) (same_symbol c x)

extend_one-count :
    (e cs bs : List Symbol) (x : Symbol)
    → count (extend_one e cs) (bs ++ (x ∷ [])) ≡ int (same_string e bs) * choices_count cs x
unfolding count extend_one choices_count
extend_one-count e [] bs x = omega arith
extend_one-count e (c ∷ cs) bs x = omega (
  arith,
  ap int (same_string-append e bs c x) ∙ int_and (same_string e bs) (same_symbol c x),
  extend_one-count e cs bs x,
  mul-add (int (same_string e bs)) (int (same_symbol c x)) (choices_count cs x),
)

extend_all-count :
    (es : List (List Symbol)) (cs bs : List Symbol) (x : Symbol)
    → count (extend_all es cs) (bs ++ (x ∷ [])) ≡ count es bs * choices_count cs x
unfolding count extend_all
extend_all-count [] cs bs x = omega arith
extend_all-count (e ∷ es) cs bs x = omega (
  arith,
  count-append (extend_one e cs) (extend_all es cs) (bs ++ (x ∷ [])),
  extend_one-count e cs bs x,
  extend_all-count es cs bs x,
  add-mul (int (same_string e bs)) (count es bs) (choices_count cs x),
)

-- A bit that matches a symbol of a pattern is among its choices once, and nothing else is.
choices-once :
    (s x : Symbol)
    → is_pattern_symbol s ≡ true
    → choices_count (choices s) x ≡ int (is_bit x && (same_symbol s any || same_symbol s x))
unfolding choices_count choices same_symbol is_bit is_pattern_symbol
choices-once (other n) x h = absurd (ground arith)
choices-once low low h = refl
choices-once low high h = refl
choices-once low any h = refl
choices-once low (other n) h = refl
choices-once high low h = refl
choices-once high high h = refl
choices-once high any h = refl
choices-once high (other n) h = refl
choices-once any low h = refl
choices-once any high h = refl
choices-once any any h = refl
choices-once any (other n) h = refl

append_assoc : (us vs : List Symbol) (x : Symbol) → us ++ (x ∷ vs) ≡ (us ++ (x ∷ [])) ++ vs
append_assoc [] vs x = refl
append_assoc (u ∷ us) vs x = ap (λ (t : List Symbol). u ∷ t) (append_assoc us vs x)

append-nil : (us : List Symbol) → us ++ [] ≡ us
append-nil [] = refl
append-nil (u ∷ us) = ap (λ (t : List Symbol). u ∷ t) (append-nil us)

-- A code of bits that matches a pattern.
abbrev is_code : List Symbol → List Symbol → Bool
is_code ps xs = all_symbols is_bit xs && pattern_matches ps xs

is_code-cons :
    (p x : Symbol) (ps xs : List Symbol)
    → int (is_code (p ∷ ps) (x ∷ xs))
      ≡ int (is_bit x && (same_symbol p any || same_symbol p x)) * int (is_code ps xs)
unfolding all_symbols pattern_matches
is_code-cons p x ps xs =
    ap int (
      swap (is_bit x) (all_symbols is_bit xs) (same_symbol p any || same_symbol p x)
        (pattern_matches ps xs))
    ∙ int_and (is_bit x && (same_symbol p any || same_symbol p x)) (is_code ps xs)
  where
    swap : (a b c d : Bool) → ((a && b) && (c && d)) ≡ ((a && c) && (b && d))
    swap a b c d = ground arith

expand_from-count :
    (es : List (List Symbol)) (ps bs xs : List Symbol)
    → length ps ≡ length xs
    → all_symbols is_pattern_symbol ps ≡ true
    → count (expand_from es ps) (bs ++ xs) ≡ count es bs * int (is_code ps xs)
unfolding expand_from pattern_matches all_symbols
expand_from-count es [] bs [] h k = omega (arith, ap (count es) (append-nil bs))
expand_from-count es [] bs (x ∷ xs) h k = absurd (omega arith)
expand_from-count es (p ∷ ps) bs [] h k = absurd (omega arith)
expand_from-count es (p ∷ ps) bs (x ∷ xs) h k =
    ap (count (expand_from (extend_all es (choices p)) ps)) (append_assoc bs xs x)
    ∙ expand_from-count (extend_all es (choices p)) ps (bs ++ (x ∷ [])) xs (omega arith)
        (ground arith)
    ∙ ap (λ (n : ℕ). n * int (is_code ps xs)) (extend_all-count es (choices p) bs x)
    ∙ mul_assoc (count es bs) (choices_count (choices p) x) (int (is_code ps xs))
    ∙ ap (λ (n : ℕ). count es bs * n)
        (ap (λ (n : ℕ). n * int (is_code ps xs)) (choices-once p x (ground arith))
          ∙ sym (is_code-cons p x ps xs))

-- Codes of one length.
AllLength : ℕ → List (List Symbol) → Type 0
AllLength n [] = Unit {0}
AllLength n (e ∷ es) = (length e ≡ n) × AllLength n es

AllLength-append :
    (n : ℕ) (es fs : List (List Symbol)) → AllLength n es → AllLength n fs → AllLength n (es ++ fs)
unfolding AllLength
AllLength-append n [] fs p q = q
AllLength-append n (e ∷ es) fs p q = (p.0, AllLength-append n es fs p.1 q)

length-append_one : (e : List Symbol) (c : Symbol) → length (e ++ (c ∷ [])) ≡ length e + 1
length-append_one [] c = omega arith
length-append_one (x ∷ e) c = omega (arith, length-append_one e c)

extend_one-AllLength :
    (n : ℕ) (e cs : List Symbol) → length e ≡ n → AllLength (n + 1) (extend_one e cs)
unfolding AllLength extend_one
extend_one-AllLength n e [] h = tt
extend_one-AllLength n e (c ∷ cs) h =
    (omega (arith, length-append_one e c), extend_one-AllLength n e cs h)

extend_all-AllLength :
    (n : ℕ) (es : List (List Symbol)) (cs : List Symbol)
    → AllLength n es
    → AllLength (n + 1) (extend_all es cs)
unfolding AllLength extend_all
extend_all-AllLength n [] cs h = tt
extend_all-AllLength n (e ∷ es) cs h =
    AllLength-append (n + 1) (extend_one e cs) (extend_all es cs) (extend_one-AllLength n e cs h.0)
      (extend_all-AllLength n es cs h.1)

expand_from-AllLength :
    (n m : ℕ) (es : List (List Symbol)) (ps : List Symbol)
    → AllLength n es
    → n + length ps ≡ m
    → AllLength m (expand_from es ps)
unfolding expand_from
expand_from-AllLength n m es [] h e = subst (λ (k : ℕ). AllLength k es) (omega arith) h
expand_from-AllLength n m es (p ∷ ps) h e =
    expand_from-AllLength (n + 1) m (extend_all es (choices p)) ps
      (extend_all-AllLength n es (choices p) h) (omega arith)

same_string-length : (e b : List Symbol) → same_string e b ≡ true → length e ≡ length b
unfolding same_string
same_string-length [] [] h = refl
same_string-length [] (y ∷ b) h = cc
same_string-length (x ∷ e) [] h = cc
same_string-length (x ∷ e) (y ∷ b) h = omega (arith, same_string-length e b (ground arith))

count_none :
    (es : List (List Symbol)) (b : List Symbol) (n : ℕ)
    → AllLength n es
    → n ≢ length b
    → count es b ≡ 0
unfolding AllLength count
count_none [] b n h d = refl
count_none (e ∷ es) b n h d = ground (arith, count_none es b n h.1 d, same_string-length e b, h.0)

-- A pattern of 0, 1 and X expands to the strings of its length that have a 0 or a 1 in every place and match it,
-- each of them once, and to no other string.
pub expand_pattern-pattern_matches :
    (p b : List Symbol)
    → all_symbols is_pattern_symbol p ≡ true
    → count (expand_pattern p) b
      ≡ (if (length p == length b) && (all_symbols is_bit b && pattern_matches p b) then 1 else 0)
unfolding expand_pattern count same_string AllLength
expand_pattern-pattern_matches p b k = elim (Bool-cases (length p == length b)) [
  | inl same ↦
      rw same
        (expand_from-count ([] ∷ []) p [] b ((==_iff (length p) (length b)).0 same) k ∙ omega arith)
  | inr differ ↦ rw differ (
      count_none (expand_from ([] ∷ []) p) b (length p)
        (expand_from-AllLength 0 (length p) ([] ∷ []) p (refl, tt) (omega arith))
        (λ e. ground (arith, e)))
]
