-- ===== src/Dispatch/Classify.antt =====
-- `classify` of sim/tools/check_dispatch_trace.py: the dispatch and completion class of an instruction word.
use slo_ppc.Prelude.{
  ℕ, ◌+◌, ◌*◌, ◌/◌, ◌^◌, bit_and, bit_or, Bool, true, false, not, ◌&&◌, ◌||◌, List, [], ◌∷◌, Option,
  none, some, leb, ◌==◌, if◌then◌else◌,
}
use slo_ppc.Integer.Word.{truthy, int}

pub data ExecutionUnit : Type 0 where
  iu sru lsu fpu bpu : ExecutionUnit

pub data BranchKind : Type 0 where
  b bc bclr bcctr : BranchKind

pub data MoveTarget : Type 0 where
  to_lr to_ctr : MoveTarget

-- The updates of the five kinds of register, in the code's order.
pub record Writes : Type 0 where
  pub gpr : ℕ
  pub cr : ℕ
  pub fpr : ℕ
  pub lr : ℕ
  pub ctr : ℕ

abbrev pub writes_of : ℕ → ℕ → ℕ → ℕ → ℕ → Writes
writes_of gpr cr fpr lr ctr = record { gpr = gpr; cr = cr; fpr = fpr; lr = lr; ctr = ctr }

-- The dictionary `c`. The set of units is a list without repetitions, the IU before the SRU.
pub record InsnClass : Type 0 where
  pub units : List ExecutionUnit
  pub dser : Bool
  pub cser : Bool
  pub cq1 : Bool
  pub writes : Writes
  pub isync : Bool
  pub multiple : Bool
  pub cond : Bool
  pub branch : Option BranchKind
  pub cr_test : Bool
  pub ctr_test : Bool
  pub mtspr : Option MoveTarget
  pub sru_lat : Option ℕ

-- `n in (...)`.
unfoldable pub is_in : ℕ → List ℕ → Bool
is_in n [] = false
is_in n (m ∷ ms) = (n == m) || is_in n ms

unfoldable pub opcode : ℕ → ℕ
opcode word = word / 2 ^ 26

unfoldable pub extended : ℕ → ℕ
extended word = bit_and (word / 2) 1023

unfoldable pub record_bit : ℕ → ℕ
unfolding opcode
record_bit word =
    if is_in (opcode word) (20 ∷ 21 ∷ 23 ∷ 31 ∷ 59 ∷ 63 ∷ []) then bit_and word 1 else 0

-- The class before the tests.
abbrev pub initial : ℕ → InsnClass
initial rc = record {
  units = iu ∷ [];
  dser = false;
  cser = false;
  cq1 = true;
  writes = writes_of 1 rc 0 0 0;
  isync = false;
  multiple = false;
  cond = false;
  branch = none;
  cr_test = false;
  ctr_test = false;
  mtspr = none;
  sru_lat = none;
}

-- `sru_unit()`.
abbrev pub sru_unit : InsnClass → InsnClass
sru_unit c = record c { units = sru ∷ []; cser = true; cq1 = false; writes = writes_of 0 0 0 0 0 }

-- A load or another access that may complete second, and one that may not.
abbrev pub lsu_first : InsnClass → Writes → InsnClass
lsu_first c w = record c { units = lsu ∷ []; writes = w }

abbrev pub lsu_ordered : InsnClass → Writes → InsnClass
lsu_ordered c w = record c { units = lsu ∷ []; cq1 = false; writes = w }

-- `spr`, the two halves of the number turned round.
unfoldable pub spr_of : ℕ → ℕ
spr_of word = bit_or (bit_and (word / 2 ^ 16) 31) (bit_and (word / 2 ^ 11) 31 * 2 ^ 5)

-- `{IU, SRU} if sru else {IU}`.
abbrev pub add_units : Bool → List ExecutionUnit
add_units wide = if wide then iu ∷ sru ∷ [] else iu ∷ []

-- A branch of one of the four kinds.
unfoldable pub branch_class : ℕ → InsnClass → InsnClass
unfolding opcode extended
branch_class word c =
    let op = opcode word in
    let lk = bit_and word 1 in
    let counting = not (truthy (bit_and (word / 2 ^ 23) 1)) in
    let ctr = ((op == 19) && ((extended word == 16) && counting)) || ((op == 16) && counting) in
    record c {
      units = bpu ∷ [];
      writes = writes_of 0 0 0 lk (int (ctr || ((op == 19) && counting)));
      cond = not (op == 18) && not (bit_and (word / 2 ^ 21) 0x14 == 0x14);
      branch = some (
          if op == 18
          then b
          else if op == 16
          then bc
          else if extended word == 16
          then bclr
          else bcctr);
      cr_test = not (op == 18) && not (truthy (bit_and (word / 2 ^ 25) 1));
      ctr_test = ctr;
    }

-- A floating-point operation; the moves of FPSCR are serialized.
unfoldable pub float_class : ℕ → ℕ → InsnClass → InsnClass
unfolding opcode extended
float_class word rc c =
    let wide = opcode word == 63 in
    let xo = extended word in
    record c {
      units = fpu ∷ [];
      cq1 = false;
      cser = wide && is_in xo (38 ∷ 64 ∷ 70 ∷ 134 ∷ 583 ∷ 711 ∷ []);
      writes =
          if wide && is_in xo (0 ∷ 32 ∷ 64 ∷ [])
          then writes_of 0 1 0 0 0
          else if wide && is_in xo (38 ∷ 70 ∷ 134 ∷ 711 ∷ [])
          then writes_of 0 rc 0 0 0
          else writes_of 0 rc 1 0 0;
    }

-- A move from a special register.
abbrev pub move_from : ℕ → ℕ → InsnClass → InsnClass
move_from word xo c = record (sru_unit c) {
  writes = writes_of 1 0 0 0 0;
  sru_lat =
      if xo == 339
      then some (if leb 528 (spr_of word) && leb (spr_of word) 543 then 3 else 1)
      else none;
}

-- A move to a special register.
abbrev pub move_to : ℕ → ℕ → InsnClass → InsnClass
move_to word xo c =
    let spr = spr_of word in
    let is_mtspr = xo == 467 in
    record (sru_unit c) {
      dser = (xo == 146 || xo == 512) || (is_mtspr && (spr == 1));
      writes =
          writes_of 0 (int (xo == 144 || xo == 512)) 0 (int (is_mtspr && (spr == 8)))
            (int (is_mtspr && (spr == 9)));
      mtspr =
          if is_mtspr
          then (if spr == 8 then some to_lr else if spr == 9 then some to_ctr else none)
          else none;
      sru_lat = if is_mtspr then some 2 else none;
    }

-- The last tests of opcode 31: the operations of the system register unit.
unfoldable pub system_class : ℕ → InsnClass → InsnClass
unfolding extended
system_class word c =
    let xo = extended word in
    if is_in xo (306 ∷ 566 ∷ 978 ∷ 1010 ∷ [])
    then sru_unit c
    else if xo == 598
    then record (sru_unit c) { dser = true }
    else if is_in xo (339 ∷ 371 ∷ 83 ∷ 19 ∷ 595 ∷ 659 ∷ [])
    then move_from word xo c
    else if is_in xo (467 ∷ 146 ∷ 144 ∷ 210 ∷ 242 ∷ 512 ∷ [])
    then move_to word xo c
    else c

-- The remaining accesses of opcode 31, and the rest.
unfoldable pub access_class : ℕ → InsnClass → InsnClass
unfolding extended system_class
access_class word c =
    let xo = extended word in
    if xo == 150
    then lsu_ordered c (writes_of 0 1 0 0 0)
    else if is_in xo (661 ∷ 725 ∷ [])
    then record (lsu_ordered c (writes_of 0 0 0 0 0)) { cser = true; multiple = true }
    else if is_in xo (535 ∷ 567 ∷ 599 ∷ 631 ∷ [])
    then lsu_first c (writes_of (int (is_in xo (567 ∷ 631 ∷ []))) 0 1 0 0)
    else if is_in xo (663 ∷ 695 ∷ 727 ∷ 759 ∷ 983 ∷ [])
    then lsu_ordered c (writes_of (int (is_in xo (695 ∷ 759 ∷ []))) 0 0 0 0)
    else if is_in xo (1014 ∷ 86 ∷ 54 ∷ 470 ∷ 982 ∷ 278 ∷ 246 ∷ 854 ∷ [])
    then record (lsu_ordered c (writes_of 0 0 0 0 0)) { cser = not (xo == 854) }
    else system_class word c

-- Opcode 31, by the extended opcode.
unfoldable pub extended_class : ℕ → Bool → ℕ → InsnClass → InsnClass
unfolding extended access_class
extended_class word wide rc c =
    let xo = extended word in
    if is_in xo (0 ∷ 32 ∷ [])
    then record c { units = add_units wide; writes = writes_of 0 1 0 0 0 }
    else if (bit_and xo 511 == 266) && (rc == 0)
    then record c { units = add_units wide }
    else if is_in xo (4 ∷ [])
    then record c { writes = writes_of 0 0 0 0 0 }
    else if is_in xo (23 ∷ 55 ∷ 87 ∷ 119 ∷ 279 ∷ 311 ∷ 343 ∷ 375 ∷ 534 ∷ 790 ∷ 20 ∷ 310 ∷ [])
    then lsu_first c (writes_of (1 + int (is_in xo (55 ∷ 119 ∷ 311 ∷ 375 ∷ []))) 0 0 0 0)
    else if is_in xo (533 ∷ 597 ∷ [])
    then record (lsu_ordered c (writes_of 0 0 0 0 0)) { cser = true; dser = true; multiple = true }
    else if is_in xo (151 ∷ 183 ∷ 215 ∷ 247 ∷ 407 ∷ 439 ∷ 662 ∷ 918 ∷ 438 ∷ [])
    then lsu_ordered c (writes_of (int (is_in xo (183 ∷ 247 ∷ 439 ∷ []))) 0 0 0 0)
    else access_class word c

-- The classes after those of branches, system calls, loads and stores.
unfoldable pub other_class : ℕ → Bool → ℕ → InsnClass → InsnClass
unfolding opcode float_class extended_class
other_class word wide rc c =
    let op = opcode word in
    if is_in op (59 ∷ 63 ∷ [])
    then float_class word rc c
    else if is_in op (14 ∷ 15 ∷ 11 ∷ 10 ∷ [])
    then record c {
      units = add_units wide;
      writes = if is_in op (10 ∷ 11 ∷ []) then writes_of 0 1 0 0 0 else writes_of 1 0 0 0 0;
    }
    else if is_in op (13 ∷ 28 ∷ 29 ∷ [])
    then record c { writes = writes_of 1 1 0 0 0 }
    else if is_in op (3 ∷ 2 ∷ [])
    then record c { writes = writes_of 0 0 0 0 0 }
    else if op == 31
    then extended_class word wide rc c
    else c

-- `classify(word, sru)`.
unfoldable pub classify : ℕ → Bool → InsnClass
unfolding opcode extended record_bit branch_class other_class
classify word wide =
    let op = opcode word in
    let xo = extended word in
    let rc = record_bit word in
    let c = initial rc in
    if is_in op (16 ∷ 18 ∷ []) || ((op == 19) && is_in xo (16 ∷ 528 ∷ []))
    then branch_class word c
    else if op == 19
    then record (sru_unit c) {
      writes = writes_of 0 (int (not (xo == 150) && not (xo == 50))) 0 0 0;
      dser = is_in xo (150 ∷ 50 ∷ []);
      isync = xo == 150;
    }
    else if op == 17
    then record (sru_unit c) { dser = true }
    else if is_in op (32 ∷ 33 ∷ 34 ∷ 35 ∷ 40 ∷ 41 ∷ 42 ∷ 43 ∷ [])
    then lsu_first c (writes_of (1 + int (is_in op (33 ∷ 35 ∷ 41 ∷ 43 ∷ []))) 0 0 0 0)
    else if is_in op (36 ∷ 37 ∷ 38 ∷ 39 ∷ 44 ∷ 45 ∷ [])
    then lsu_ordered c (writes_of (bit_and op 1) 0 0 0 0)
    else if is_in op (46 ∷ 47 ∷ [])
    then record (lsu_ordered c (writes_of 0 0 0 0 0)) {
      cser = true;
      dser = op == 46;
      multiple = true;
    }
    else if leb 48 op && leb op 51
    then lsu_first c (writes_of (bit_and op 1) 0 1 0 0)
    else if leb 52 op && leb op 55
    then lsu_ordered c (writes_of (bit_and op 1) 0 0 0 0)
    else other_class word wide rc c
