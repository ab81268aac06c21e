-- ===== src/Perf/Decode.antt =====
-- `Insn._decode` of sim/tools/perf_model_603e.py.
use slo_ppc.Prelude.{
  ℕ, ◌+◌, ◌-◌, ◌/◌, bit_and, true, not, ◌&&◌, leb, [], ◌∷◌, ◌++◌, ◌==◌, if◌then◌else◌,
}
use slo_ppc.Integer.Word.{truthy}
use slo_ppc.Dispatch.Classify.{is_in, opcode}
use slo_ppc.Perf.Insn
use slo_ppc.Perf.Insn.{Insn, blank, join, only, span, sext, significant_bytes}
use slo_ppc.Perf.Fields.{
  Args, rd, ra, rb, rc, xo10, ra_or_0, with_cr0, branch_insn, sru_insn, access_insn,
}
use slo_ppc.Perf.Extended.{extended_insn}

-- Opcode 19.
unfoldable pub control_insn : Insn → Insn
unfolding rd ra rb xo10 join branch_insn
control_insn i =
    let w = i.word in
    let x = xo10 w in
    if x == 16
    then record (branch_insn Insn.bclr i) { lr_r = true }
    else if x == 528
    then record (branch_insn Insn.bcctr i) { ctr_r = true }
    else if x == 0
    then sru_insn 1 (ra w / 4 ∷ []) (rd w / 4 ∷ []) i
    else if is_in x (33 ∷ 129 ∷ 193 ∷ 225 ∷ 257 ∷ 289 ∷ 417 ∷ 449 ∷ [])
    then sru_insn 1 (join (ra w / 4) (rb w / 4 ∷ [])) (rd w / 4 ∷ []) i
    else record (sru_insn 1 [] [] i) { dserial = true }

-- Opcodes 46 and 47: the registers from `rd` to 31.
unfoldable pub multiple_insn : Insn → Insn
unfolding opcode rd ra ra_or_0 join span
multiple_insn i =
    let w = i.word in
    let n = 32 - rd w in
    let loads = opcode w == 46 in
    record i {
      unit = Insn.lsu;
      lat = if loads then 2 + n else 1 + n;
      serial = true;
      dserial = loads;
      src =
          if loads
          then ra_or_0 w
          else if truthy (ra w)
          then join (ra w) (span (rd w) n)
          else span (rd w) n;
      dst = if loads then span (rd w) n else [];
      load = loads;
      store = not loads;
      kind = Insn.lsmw;
    }

-- The branches, and the operations of the integer unit on immediate operands.
unfoldable pub immediate_insn : Insn → Insn
unfolding opcode rd ra rb ra_or_0 join branch_insn control_insn with_cr0
immediate_insn i =
    let w = i.word in
    let op = opcode w in
    if op == 7
    then record i {
      lat = 1 + significant_bytes (sext (bit_and w 0xFFFF) 16);
      src = ra w ∷ [];
      dst = rd w ∷ [];
      kind = Insn.mul;
    }
    else if is_in op (8 ∷ 12 ∷ 13 ∷ [])
    then record i { src = ra w ∷ []; dst = rd w ∷ []; kind = Insn.int; crd = only (op == 13) 0 }
    else if is_in op (10 ∷ 11 ∷ [])
    then record i {
      unit = Insn.add;
      src = ra w ∷ [];
      kind = Insn.cmp;
      crd = rd w / 4 ∷ [];
      cr_fast = true;
    }
    else if is_in op (14 ∷ 15 ∷ [])
    then record i { unit = Insn.add; src = ra_or_0 w; dst = rd w ∷ []; kind = Insn.adding }
    else if op == 16
    then record (branch_insn Insn.bc i) { disp = sext (bit_and w 0xFFFC) 16 }
    else if op == 18
    then record i {
      unit = Insn.bpu;
      kind = Insn.b;
      lk = rc w;
      lr_w = rc w;
      disp = sext (bit_and w 0x3FF_FFFC) 26;
    }
    else if op == 19
    then control_insn i
    else if is_in op (20 ∷ 21 ∷ 23 ∷ [])
    then with_cr0 (record i {
      src = join (rd w) (only (op == 23) (rb w) ++ only (op == 20) (ra w));
      dst = ra w ∷ [];
      kind = Insn.int;
    })
    else record i {
      src = rd w ∷ [];
      dst = ra w ∷ [];
      kind = Insn.int;
      crd = only (is_in op (28 ∷ 29 ∷ [])) 0;
    }

-- `_decode`. The opcodes up to 29 that it names come first, as in the code.
unfoldable pub decode_insn : Args → Insn → Insn
unfolding opcode ra ra_or_0 immediate_insn access_insn multiple_insn extended_insn
decode_insn args i =
    let w = i.word in
    let op = opcode w in
    if is_in op (
      7 ∷ 8 ∷ 12 ∷ 13 ∷ 10 ∷ 11 ∷ 14 ∷ 15 ∷ 16 ∷ 18 ∷ 19 ∷ 20 ∷ 21 ∷ 23 ∷ 24 ∷ 25 ∷ 26 ∷ 27 ∷ 28
      ∷ 29 ∷ [])
    then immediate_insn i
    else if leb 32 op && leb op 45
    then (let update = is_in op (33 ∷ 35 ∷ 37 ∷ 39 ∷ 41 ∷ 43 ∷ 45 ∷ []) in
        access_insn (is_in op (36 ∷ 37 ∷ 38 ∷ 39 ∷ 44 ∷ 45 ∷ [])) update
          (if update then ra w ∷ [] else ra_or_0 w) i)
    else if is_in op (46 ∷ 47 ∷ [])
    then multiple_insn i
    else if leb 48 op && leb op 55
    then record i {
      unit = Insn.lsu;
      lat = 2;
      src = ra_or_0 w;
      store = leb 52 op;
      load = not (leb 52 op);
      kind = Insn.fpls;
    }
    else if is_in op (59 ∷ 63 ∷ [])
    then record i { unit = Insn.fpu; lat = 3; kind = Insn.fp }
    else if op == 31
    then extended_insn args i
    else record i { kind = Insn.other }

-- `Insn(pc, word, mul_default)`.
unfoldable pub insn : Args → ℕ → ℕ → Insn
unfolding decode_insn
insn args pc word = decode_insn args (blank pc word)
