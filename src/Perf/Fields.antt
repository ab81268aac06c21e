-- ===== src/Perf/Fields.antt =====
-- The fields of a word, and the decoding that several opcodes share (`_branch` and `_sru` of
-- sim/tools/perf_model_603e.py).
use slo_ppc.Prelude.{ℕ, ◌/◌, ◌^◌, bit_and, Bool, true, not, List, [], ◌∷◌, if◌then◌else◌}
use slo_ppc.Integer.Word.{truthy}
use slo_ppc.Perf.Insn
use slo_ppc.Perf.Insn.{Insn, Kind, bpu, sru, sru_work, join, only}

-- The options of the command that the model reads.
pub record Args : Type 0 where
  pub mul : ℕ
  pub div : ℕ
  pub sru_add : Bool

unfoldable pub rd : ℕ → ℕ
rd word = bit_and (word / 2 ^ 21) 31

unfoldable pub ra : ℕ → ℕ
ra word = bit_and (word / 2 ^ 16) 31

unfoldable pub rb : ℕ → ℕ
rb word = bit_and (word / 2 ^ 11) 31

abbrev pub rc : ℕ → Bool
rc word = truthy (bit_and word 1)

unfoldable pub xo10 : ℕ → ℕ
xo10 word = bit_and (word / 2) 0x3FF

unfoldable pub xo9 : ℕ → ℕ
xo9 word = bit_and (word / 2) 0x1FF

-- `ra_or_0`.
unfoldable pub ra_or_0 : ℕ → List ℕ
ra_or_0 word = only (truthy (ra word)) (ra word)

-- `cr0()`.
unfoldable pub with_cr0 : Insn → Insn
with_cr0 i = record i { crd = if rc i.word then join 0 i.crd else i.crd }

-- `_branch(w, kind)`.
unfoldable pub branch_insn : Kind → Insn → Insn
unfolding ra rd
branch_insn kind i =
    let w = i.word in
    let bo = rd w in
    let lk = truthy (bit_and w 1) in
    let counts = not (truthy (bit_and bo 4)) in
    record i {
      unit = bpu;
      kind = kind;
      bo = bo;
      bi = ra w;
      lk = lk;
      lr_w = lk;
      crs = if truthy (bit_and bo 0x10) then i.crs else ra w / 4 ∷ [];
      ctr_r = if counts then true else i.ctr_r;
      ctr_w = if counts then true else i.ctr_w;
    }

-- `_sru(lat, crs, crd)`.
abbrev pub sru_insn : ℕ → List ℕ → List ℕ → Insn → Insn
sru_insn lat crs crd i = record i {
  unit = sru;
  lat = lat;
  serial = true;
  kind = sru_work;
  crs = crs;
  crd = crd;
}

-- A load or a store; one with update writes its base.
unfoldable pub access_insn : Bool → Bool → List ℕ → Insn → Insn
unfolding ra rd join
access_insn stores update address i =
    let w = i.word in
    let base = only update (ra w) in
    record i {
      unit = Insn.lsu;
      lat = 2;
      src = if stores then join (rd w) address else address;
      dst = if stores then base else join (rd w) base;
      store = stores;
      load = not stores;
      kind = if stores then Insn.store_kind else Insn.load_kind;
    }
