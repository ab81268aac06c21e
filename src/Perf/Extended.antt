-- ===== src/Perf/Extended.antt =====
-- `Insn._x31` of sim/tools/perf_model_603e.py: opcode 31.
use slo_ppc.Prelude.{
  ℕ, zero, suc, ◌+◌, ◌/◌, ◌^◌, bit_and, true, not, ◌&&◌, ◌||◌, List, [], ◌∷◌, ◌==◌, if◌then◌else◌,
}
use slo_ppc.Integer.Word.{truthy}
use slo_ppc.Dispatch.Classify.{is_in, spr_of}
use slo_ppc.Perf.Insn
use slo_ppc.Perf.Insn.{Insn, join, only, span}
use slo_ppc.Perf.Fields.{Args, rd, ra, rb, rc, xo10, xo9, ra_or_0, with_cr0, sru_insn, access_insn}

-- `i for i in range(8) if fxm & (0x80 >> i)`, from `i` on.
unfoldable pub chosen_fields : ℕ → ℕ → ℕ → List ℕ
chosen_fields zero fxm i = []
chosen_fields (suc n) fxm i =
    let rest = chosen_fields n fxm (i + 1) in
    if truthy (bit_and fxm (0x80 / 2 ^ i)) then i ∷ rest else rest

-- The arithmetic operations.
unfoldable pub arithmetic_insn : Args → Insn → Insn
unfolding rd ra rb join with_cr0
arithmetic_insn args i =
    let w = i.word in
    let x = xo9 w in
    let adds = (x == 266) && not (rc w) in
    let multiplies = is_in x (11 ∷ 75 ∷ 235 ∷ []) in
    let divides = is_in x (459 ∷ 491 ∷ []) in
    with_cr0 (record i {
      dst = rd w ∷ [];
      src =
          if is_in x (104 ∷ 200 ∷ 202 ∷ 232 ∷ 234 ∷ []) then ra w ∷ [] else join (ra w) (rb w ∷ []);
      unit = if adds then Insn.add else i.unit;
      lat =
          if adds
          then i.lat
          else if multiplies
          then args.mul
          else if divides
          then args.div
          else i.lat;
      kind =
          if adds
          then Insn.adding
          else if multiplies
          then Insn.mul
          else if divides
          then Insn.div
          else Insn.int;
    })

-- The logical operations, shifts, counts and extensions.
unfoldable pub logical_insn : Insn → Insn
unfolding rd ra rb join with_cr0
logical_insn i =
    let w = i.word in
    with_cr0 (record i {
      dst = ra w ∷ [];
      src =
          if is_in (xo10 w) (26 ∷ 824 ∷ 922 ∷ 954 ∷ []) then rd w ∷ [] else join (rd w) (rb w ∷ []);
      kind = Insn.int;
    })

-- The compares, and the work of the system register unit.
unfoldable pub moving_insn : Args → Insn → Insn
unfolding rd ra rb xo10 join arithmetic_insn logical_insn
moving_insn args i =
    let w = i.word in
    let x = xo10 w in
    if is_in x (339 ∷ 371 ∷ [])
    then record (sru_insn 1 [] [] i) {
      dst = rd w ∷ [];
      lr_r = spr_of w == 8;
      ctr_r = spr_of w == 9;
    }
    else if x == 467
    then record (sru_insn 2 [] [] i) {
      src = rd w ∷ [];
      lr_w = spr_of w == 8;
      ctr_w = spr_of w == 9;
      dserial = spr_of w == 1;
    }
    else if x == 19
    then record (sru_insn 1 (span 0 8) [] i) { dst = rd w ∷ [] }
    else if x == 144
    then record (sru_insn 1 [] (chosen_fields 8 (bit_and (w / 2 ^ 12) 0xFF) 0) i) {
      src = rd w ∷ [];
    }
    else if is_in x (598 ∷ 854 ∷ 83 ∷ 146 ∷ 512 ∷ 86 ∷ 54 ∷ 278 ∷ 246 ∷ 1014 ∷ 982 ∷ 150 ∷ [])
    then record (sru_insn 1 [] [] i) { dserial = is_in x (598 ∷ 146 ∷ 512 ∷ []) }
    else if is_in (xo9 w) (
        8 ∷ 10 ∷ 11 ∷ 40 ∷ 75 ∷ 104 ∷ 136 ∷ 138 ∷ 200 ∷ 202 ∷ 232 ∷ 234 ∷ 235 ∷ 266 ∷ 459 ∷ 491
        ∷ [])
    then arithmetic_insn args i
    else logical_insn i

-- `_x31`.
unfoldable pub extended_insn : Args → Insn → Insn
unfolding rd ra rb xo10 ra_or_0 join access_insn moving_insn
extended_insn args i =
    let w = i.word in
    let x = xo10 w in
    let stores = is_in x (151 ∷ 183 ∷ 215 ∷ 247 ∷ 407 ∷ 439 ∷ 662 ∷ 918 ∷ []) in
    let loads = is_in x (23 ∷ 55 ∷ 87 ∷ 119 ∷ 279 ∷ 311 ∷ 343 ∷ 375 ∷ 534 ∷ 790 ∷ 20 ∷ []) in
    let update = is_in x (55 ∷ 119 ∷ 311 ∷ 375 ∷ 183 ∷ 247 ∷ 439 ∷ []) in
    let address = if update then join (ra w) (rb w ∷ []) else join (rb w) (ra_or_0 w) in
    if loads || stores
    then access_insn stores update address i
    else if is_in x (0 ∷ 32 ∷ [])
    then record i {
      unit = Insn.add;
      src = join (ra w) (rb w ∷ []);
      kind = Insn.cmp;
      crd = rd w / 4 ∷ [];
      cr_fast = true;
    }
    else moving_insn args i
