-- ===== src/Dispatch/Operands.antt =====
-- `cr_field`, `serial_gpr`, `gpr_reads`, `gpr_writes` and `fetch_stop` of sim/tools/check_dispatch_trace.py. A set
-- of registers is a list.
use slo_ppc.Prelude.{
  ℕ, ◌/◌, ◌^◌, bit_and, Bool, true, false, not, ◌&&◌, ◌||◌, List, [], ◌∷◌, Option, none, some, ◌==◌,
  if◌then◌else◌,
}
use slo_ppc.Integer.Word.{truthy}
use slo_ppc.Dispatch.Classify.{
  ExecutionUnit, iu, b, bclr, bcctr, to_lr, to_ctr, InsnClass, classify, is_in, opcode, extended,
}

-- `== {IU}`.
unfoldable pub is_only_iu : List ExecutionUnit → Bool
is_only_iu (iu ∷ []) = true
is_only_iu _ = false

-- `cr_field` of a word that is there.
unfoldable pub field_of : ℕ → Option ℕ
unfolding is_only_iu opcode extended
field_of word =
    let op = opcode word in
    let xo = extended word in
    let recorded = truthy (bit_and word 1) in
    if is_in op (10 ∷ 11 ∷ []) || ((op == 31) && is_in xo (0 ∷ 32 ∷ []))
    then some (bit_and (word / 2 ^ 23) 7)
    else if is_in op (13 ∷ 28 ∷ 29 ∷ []) || (is_in op (20 ∷ 21 ∷ 23 ∷ []) && recorded)
    then some 0
    else if (op == 31) && (recorded && not (xo == 150))
    then (if is_only_iu (classify word false).units then some 0 else none)
    else none

unfoldable pub cr_field : Option ℕ → Option ℕ
unfolding field_of
cr_field none = none
cr_field (some word) = field_of word

-- The three register fields of a word.
abbrev pub field_d : ℕ → ℕ
field_d word = bit_and (word / 2 ^ 21) 31

abbrev pub field_a : ℕ → ℕ
field_a word = bit_and (word / 2 ^ 16) 31

abbrev pub field_b : ℕ → ℕ
field_b word = bit_and (word / 2 ^ 11) 31

unfoldable pub serial_gpr : ℕ → Option ℕ
unfolding opcode extended
serial_gpr word =
    if (opcode word == 31) && is_in (extended word) (339 ∷ 371 ∷ 83 ∷ 19 ∷ 595 ∷ 659 ∷ [])
    then some (field_d word)
    else none

-- The registers certainly read, and the retire gap.
unfoldable pub gpr_reads : ℕ → List ℕ × ℕ
unfolding opcode extended
gpr_reads word =
    let op = opcode word in
    let base = if truthy (field_a word) then field_a word ∷ [] else [] in
    if is_in op (36 ∷ 37 ∷ 38 ∷ 39 ∷ 44 ∷ 45 ∷ [])
    then (field_d word ∷ base, 3)
    else if (op == 31) && is_in (extended word) (151 ∷ 183 ∷ 215 ∷ 247 ∷ 407 ∷ 439 ∷ 662 ∷ 918 ∷ [])
    then (field_d word ∷ field_b word ∷ base, 3)
    else if is_in op (32 ∷ 33 ∷ 34 ∷ 35 ∷ 40 ∷ 41 ∷ 42 ∷ 43 ∷ [])
    then (base, 3)
    else if is_in op (7 ∷ 8 ∷ 10 ∷ 11 ∷ 12 ∷ 13 ∷ [])
        || (is_in op (14 ∷ 15 ∷ []) && truthy (field_a word))
    then (field_a word ∷ [], 2)
    else if is_in op (20 ∷ 21 ∷ 24 ∷ 25 ∷ 26 ∷ 27 ∷ 28 ∷ 29 ∷ [])
    then (field_d word ∷ [], 2)
    else ([], 0)

unfoldable pub gpr_writes : ℕ → List ℕ
gpr_writes word =
    if truthy (classify word false).writes.gpr then field_d word ∷ field_a word ∷ [] else []

-- What a younger branch waits for the older instruction to do.
pub data StopKind : Type 0 where
  execute retire complete : StopKind

unfoldable pub moves_lr : InsnClass → Bool
moves_lr c = elim c.mtspr [ some to_lr ↦ true | _ ↦ false ]

unfoldable pub moves_ctr : InsnClass → Bool
moves_ctr c = elim c.mtspr [ some to_ctr ↦ true | _ ↦ false ]

unfoldable pub is_bclr : InsnClass → Bool
is_bclr c = elim c.branch [ some bclr ↦ true | _ ↦ false ]

unfoldable pub is_bcctr : InsnClass → Bool
is_bcctr c = elim c.branch [ some bcctr ↦ true | _ ↦ false ]

unfoldable pub is_b : InsnClass → Bool
is_b c = elim c.branch [ some b ↦ true | _ ↦ false ]

unfoldable pub has_branch : InsnClass → Bool
has_branch c = elim c.branch [ some k ↦ true | none ↦ false ]

unfoldable pub fetch_stop : InsnClass → InsnClass → Option StopKind
unfolding moves_lr moves_ctr is_bclr is_bcctr is_b has_branch
fetch_stop older younger =
    if moves_lr older && is_bclr younger
    then some execute
    else if moves_ctr older && (is_bcctr younger || younger.ctr_test)
    then some retire
    else if older.ctr_test && (younger.ctr_test || is_bcctr younger)
    then some complete
    else if has_branch older
        && (truthy older.writes.lr && (truthy younger.writes.lr && not (is_b younger)))
    then some complete
    else none
