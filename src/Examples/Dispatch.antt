-- ===== src/Examples/Dispatch.antt =====
-- Classes of some words.
use slo_ppc.Prelude.{◌≡◌, refl, false, some, [], ◌∷◌}
use slo_ppc.Dispatch.Classify.{spr_of, is_in, classify, writes_of}
use slo_ppc.Dispatch.Operands.{serial_gpr, cr_field, gpr_reads, fetch_stop, execute}

-- mflr r5.
moved_register : serial_gpr 0x7CA8_02A6 ≡ some 5
unfolding serial_gpr is_in
moved_register = refl

-- A blrl is a branch that updates LR.
return_writes : (classify 0x4E80_0021 false).writes ≡ writes_of 0 0 0 1 0
unfolding classify is_in
return_writes = refl

-- A blr after an mtlr waits for it to execute.
waiting_return : fetch_stop (classify 0x7C08_03A6 false) (classify 0x4E80_0020 false) ≡ some execute
unfolding fetch_stop classify spr_of is_in
waiting_return = refl

-- A cmpwi on the third field.
compare_field : cr_field (some 0x2D03_0000) ≡ some 2
unfolding cr_field is_in
compare_field = refl

-- A stwx of r3 at r4 and r5.
store_reads : gpr_reads 0x7C64_292E ≡ (3 ∷ 5 ∷ 4 ∷ [], 3)
unfolding gpr_reads is_in
store_reads = refl
