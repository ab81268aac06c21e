-- ===== src/Perf/Words.antt =====
-- Every word is decoded to an instruction with registers and fields that are there (sim/tools/perf_model_603e.py).
use slo_ppc.Prelude.{
  ℕ, ◌-◌, ◌≤◌, ◌≡◌, ◌⊎◌, inl, inr, refl, arith, Bool, true, false, ◌&&◌, leb, List, [], ◌∷◌, length,
  ◌==◌, if◌then◌else◌, Bool-cases,
}
use slo_ppc.Dispatch.Classify.{is_in, opcode}
use slo_ppc.Perf.Insn
use slo_ppc.Perf.Insn.{Insn, blank, join, only, span}
use slo_ppc.Perf.Fields.{Args, rd, ra, rb, rc, ra_or_0}
use slo_ppc.Perf.Decode.{multiple_insn, immediate_insn, decode_insn, insn}
use slo_ppc.Perf.Shape.{
  Below, IsInsn, shape, fields, length-span, rd-lt, ra-lt, rb-lt, join-Below, only-Below,
  append-Below, cr0-Below, ra_or_0-Below, access_insn-IsInsn,
}
use slo_ppc.Perf.Decoded.{
  branch_insn-IsInsn, control_insn-IsInsn, multiple_insn-IsInsn, extended_insn-IsInsn,
}

immediate_insn-IsInsn : (pc w : ℕ) → IsInsn w (immediate_insn (blank pc w))
unfolding immediate_insn
immediate_insn-IsInsn pc w =
    let op = opcode w in
    elim (Bool-cases (op == 7)) [
      | inl t ↦ rw t (shape (ra-lt w, tt) (rd-lt w, tt) tt tt (omega arith))
      | inr f ↦ rw f (elim (Bool-cases (is_in op (8 ∷ 12 ∷ 13 ∷ []))) [
        | inl t ↦ rw t (
            shape (ra-lt w, tt) (rd-lt w, tt) tt (only-Below 8 0 (op == 13) (omega arith))
              (omega arith))
        | inr f ↦ rw f (elim (Bool-cases (is_in op (10 ∷ 11 ∷ []))) [
          | inl t ↦ rw t (shape (ra-lt w, tt) tt tt (omega fields, tt) (omega arith))
          | inr f ↦ rw f (elim (Bool-cases (is_in op (14 ∷ 15 ∷ []))) [
            | inl t ↦ rw t (shape (ra_or_0-Below w) (rd-lt w, tt) tt tt (omega arith))
            | inr f ↦ rw f (elim (Bool-cases (op == 16)) [
              | inl t ↦ rw t (branch_insn-IsInsn Insn.bc pc w)
              | inr f ↦ rw f (elim (Bool-cases (op == 18)) [
                | inl t ↦ rw t (shape tt tt tt tt (omega arith))
                | inr f ↦ rw f (elim (Bool-cases (op == 19)) [
                  | inl t ↦ rw t (control_insn-IsInsn pc w)
                  | inr f ↦ rw f (elim (Bool-cases (is_in op (20 ∷ 21 ∷ 23 ∷ []))) [
                    | inl t ↦
                        let others =
                          append-Below 32 (only (op == 23) (rb w)) (only (op == 20) (ra w))
                            (only-Below 32 (rb w) (op == 23) (rb-lt w))
                            (only-Below 32 (ra w) (op == 20) (ra-lt w)) in
                        rw t (
                          shape (join-Below 32 (rd w) _ (rd-lt w) others) (ra-lt w, tt) tt
                            (cr0-Below (rc w)) (omega arith))
                    | inr f ↦ rw f (
                        shape (rd-lt w, tt) (ra-lt w, tt) tt
                          (only-Below 8 0 (is_in op (28 ∷ 29 ∷ [])) (omega arith)) (omega arith))
                  ])
                ])
              ])
            ])
          ])
        ])
      ])
    ]

abbrev immediate_ops : List ℕ
immediate_ops =
    7 ∷ 8 ∷ 12 ∷ 13 ∷ 10 ∷ 11 ∷ 14 ∷ 15 ∷ 16 ∷ 18 ∷ 19 ∷ 20 ∷ 21 ∷ 23 ∷ 24 ∷ 25 ∷ 26 ∷ 27 ∷ 28 ∷ 29
    ∷ []

base-Below : (c : Bool) (w : ℕ) → Below 32 (if c then ra w ∷ [] else ra_or_0 w)
base-Below true w = (ra-lt w, tt)
base-Below false w = ra_or_0-Below w

-- Every word decodes to general registers below 32 and CR fields below 8, and it writes at most two general
-- registers unless it is an lmw.
pub insn-IsInsn : (args : Args) (pc w : ℕ) → IsInsn w (insn args pc w)
unfolding insn decode_insn
insn-IsInsn args pc w =
    let op = opcode w in
    elim (Bool-cases (is_in op immediate_ops)) [
      | inl t ↦ rw t (immediate_insn-IsInsn pc w)
      | inr f ↦ rw f (elim (Bool-cases (leb 32 op && leb op 45)) [
        | inl t ↦
            let update = is_in op (33 ∷ 35 ∷ 37 ∷ 39 ∷ 41 ∷ 43 ∷ 45 ∷ []) in
            rw t (
              access_insn-IsInsn (is_in op (36 ∷ 37 ∷ 38 ∷ 39 ∷ 44 ∷ 45 ∷ [])) update
                (if update then ra w ∷ [] else ra_or_0 w) pc w (base-Below update w))
        | inr f ↦ rw f (elim (Bool-cases (is_in op (46 ∷ 47 ∷ []))) [
          | inl t ↦ rw t (multiple_insn-IsInsn pc w)
          | inr f ↦ rw f (elim (Bool-cases (leb 48 op && leb op 55)) [
            | inl t ↦ rw t (shape (ra_or_0-Below w) tt tt tt (omega arith))
            | inr f ↦ rw f (elim (Bool-cases (is_in op (59 ∷ 63 ∷ []))) [
              | inl t ↦ rw t (shape tt tt tt tt (omega arith))
              | inr f ↦ rw f (elim (Bool-cases (op == 31)) [
                | inl t ↦ rw t (extended_insn-IsInsn args pc w)
                | inr f ↦ rw f (shape tt tt tt tt (omega arith))
              ])
            ])
          ])
        ])
      ])
    ]

-- An lmw writes the registers from its first on.
load_multiple :
    (args : Args) (pc w : ℕ) → opcode w ≡ 46 → insn args pc w ≡ multiple_insn (blank pc w)
unfolding insn decode_insn is_in
load_multiple args pc w h = rw h refl

results_of_multiple :
    (pc w : ℕ) → opcode w ≡ 46 → length (multiple_insn (blank pc w)).dst ≡ 32 - rd w
unfolding multiple_insn
results_of_multiple pc w h = rw h (length-span (rd w) (32 - rd w))

pub lmw_results : (args : Args) (pc w : ℕ) → opcode w ≡ 46 → length (insn args pc w).dst ≡ 32 - rd w
lmw_results args pc w h = rw (load_multiple args pc w h) (results_of_multiple pc w h)

pub few-cases : (args : Args) (pc w : ℕ) → (opcode w ≡ 46) ⊎ (length (insn args pc w).dst ≤ 2)
few-cases args pc w = (insn-IsInsn args pc w).few_results
