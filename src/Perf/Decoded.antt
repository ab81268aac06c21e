-- ===== src/Perf/Decoded.antt =====
-- Every word is decoded to an instruction with registers and fields that are there (sim/tools/perf_model_603e.py).
use slo_ppc.Prelude.{
  ℕ, ◌-◌, ◌/◌, ◌^◌, ◌<◌, inl, inr, arith, Bool, true, false, ◌||◌, bit_and, [], ◌∷◌, ◌==◌, ==_iff,
  if◌then◌else◌, Bool-cases,
}
use slo_ppc.Integer.Word.{truthy}
use slo_ppc.Dispatch.Classify.{is_in, opcode}
use slo_ppc.Perf.Insn
use slo_ppc.Perf.Insn.{Insn, Kind, blank, join, only, span}
use slo_ppc.Perf.Fields.{Args, rd, ra, rb, rc, xo10, xo9, ra_or_0, branch_insn}
use slo_ppc.Perf.Extended.{arithmetic_insn, logical_insn, moving_insn, extended_insn}
use slo_ppc.Perf.Decode.{control_insn, multiple_insn}
use slo_ppc.Perf.Shape.{
  Below, IsInsn, shape, fields, rd-lt, ra-lt, rb-lt, join-Below, span-Below, chosen_fields-Below,
  cr0-Below, ra_or_0-Below, access_insn-IsInsn,
}

-- Two registers, or a conditional one.
pair-Below : (x y : ℕ) → x < 32 → y < 32 → Below 32 (join x (y ∷ []))
pair-Below x y h k = join-Below 32 x (y ∷ []) h (k, tt)

pub branch_insn-IsInsn : (kind : Kind) (pc w : ℕ) → IsInsn w (branch_insn kind (blank pc w))
unfolding branch_insn
branch_insn-IsInsn kind pc w = record {
  sources = tt;
  results = tt;
  cr_sources = elim (Bool-cases (truthy (bit_and (rd w) 0x10))) [
    | inl t ↦ rw t tt
    | inr f ↦ rw f (omega fields, tt)
  ];
  cr_results = tt;
  few_results = inr (omega arith);
}

abbrev cr_logical : ℕ → Bool
cr_logical x = is_in x (33 ∷ 129 ∷ 193 ∷ 225 ∷ 257 ∷ 289 ∷ 417 ∷ 449 ∷ [])

pub control_insn-IsInsn : (pc w : ℕ) → IsInsn w (control_insn (blank pc w))
unfolding control_insn
control_insn-IsInsn pc w = elim (Bool-cases (xo10 w == 16)) [
  | inl t ↦ rw t (branch_insn-IsInsn Insn.bclr pc w)
  | inr f ↦ rw f (elim (Bool-cases (xo10 w == 528)) [
    | inl t ↦ rw t (branch_insn-IsInsn Insn.bcctr pc w)
    | inr f ↦ rw f (elim (Bool-cases (xo10 w == 0)) [
      | inl t ↦ rw t (shape tt tt (omega fields, tt) (omega fields, tt) (omega arith))
      | inr f ↦ rw f (elim (Bool-cases (cr_logical (xo10 w))) [
        | inl t ↦ rw t (
            shape tt tt (join-Below 8 (ra w / 4) (rb w / 4 ∷ []) (omega fields) (omega fields, tt))
              (omega fields, tt) (omega arith))
        | inr f ↦ rw f (shape tt tt tt tt (omega arith))
      ])
    ])
  ])
]

pub multiple_insn-IsInsn : (pc w : ℕ) → IsInsn w (multiple_insn (blank pc w))
unfolding multiple_insn
multiple_insn-IsInsn pc w =
    let above = span-Below 32 (rd w) (32 - rd w) (omega fields) in
    elim (Bool-cases (opcode w == 46)) [
      | inl t ↦ rw t (record {
        sources = ra_or_0-Below w;
        results = above;
        cr_sources = tt;
        cr_results = tt;
        few_results = inl ((==_iff (opcode w) 46).0 t);
      })
      | inr f ↦ rw f (elim (Bool-cases (truthy (ra w))) [
        | inl t ↦ rw t (
            shape (join-Below 32 (ra w) (span (rd w) (32 - rd w)) (ra-lt w) above) tt tt tt
              (omega arith))
        | inr f ↦ rw f (shape above tt tt tt (omega arith))
      ])
    ]

logical_insn-IsInsn : (pc w : ℕ) → IsInsn w (logical_insn (blank pc w))
unfolding logical_insn
logical_insn-IsInsn pc w = elim (Bool-cases (is_in (xo10 w) (26 ∷ 824 ∷ 922 ∷ 954 ∷ []))) [
  | inl t ↦ rw t (shape (rd-lt w, tt) (ra-lt w, tt) tt (cr0-Below (rc w)) (omega arith))
  | inr f ↦ rw f (
      shape (pair-Below (rd w) (rb w) (rd-lt w) (rb-lt w)) (ra-lt w, tt) tt (cr0-Below (rc w))
        (omega arith))
]

arithmetic_insn-IsInsn : (args : Args) (pc w : ℕ) → IsInsn w (arithmetic_insn args (blank pc w))
unfolding arithmetic_insn
arithmetic_insn-IsInsn args pc w =
    elim (Bool-cases (is_in (xo9 w) (104 ∷ 200 ∷ 202 ∷ 232 ∷ 234 ∷ []))) [
      | inl t ↦ rw t (shape (ra-lt w, tt) (rd-lt w, tt) tt (cr0-Below (rc w)) (omega arith))
      | inr f ↦ rw f (
          shape (pair-Below (ra w) (rb w) (ra-lt w) (rb-lt w)) (rd-lt w, tt) tt (cr0-Below (rc w))
            (omega arith))
    ]

abbrev system_ops : ℕ → Bool
system_ops x = is_in x (598 ∷ 854 ∷ 83 ∷ 146 ∷ 512 ∷ 86 ∷ 54 ∷ 278 ∷ 246 ∷ 1014 ∷ 982 ∷ 150 ∷ [])

abbrev arithmetic_ops : ℕ → Bool
arithmetic_ops x =
    is_in x
      (8 ∷ 10 ∷ 11 ∷ 40 ∷ 75 ∷ 104 ∷ 136 ∷ 138 ∷ 200 ∷ 202 ∷ 232 ∷ 234 ∷ 235 ∷ 266 ∷ 459 ∷ 491 ∷ [])

moving_insn-IsInsn : (args : Args) (pc w : ℕ) → IsInsn w (moving_insn args (blank pc w))
unfolding moving_insn
moving_insn-IsInsn args pc w = elim (Bool-cases (is_in (xo10 w) (339 ∷ 371 ∷ []))) [
  | inl t ↦ rw t (shape tt (rd-lt w, tt) tt tt (omega arith))
  | inr f ↦ rw f (elim (Bool-cases (xo10 w == 467)) [
    | inl t ↦ rw t (shape (rd-lt w, tt) tt tt tt (omega arith))
    | inr f ↦ rw f (elim (Bool-cases (xo10 w == 19)) [
      | inl t ↦ rw t (shape tt (rd-lt w, tt) (span-Below 8 0 8 (omega arith)) tt (omega arith))
      | inr f ↦ rw f (elim (Bool-cases (xo10 w == 144)) [
        | inl t ↦ rw t (
            shape (rd-lt w, tt) tt tt
              (chosen_fields-Below 8 (bit_and (w / 2 ^ 12) 0xFF) 0 (omega arith)) (omega arith))
        | inr f ↦ rw f (elim (Bool-cases (system_ops (xo10 w))) [
          | inl t ↦ rw t (shape tt tt tt tt (omega arith))
          | inr f ↦ rw f (elim (Bool-cases (arithmetic_ops (xo9 w))) [
            | inl t ↦ rw t (arithmetic_insn-IsInsn args pc w)
            | inr f ↦ rw f (logical_insn-IsInsn pc w)
          ])
        ])
      ])
    ])
  ])
]

-- The accesses of opcode 31.
abbrev stores_at : ℕ → Bool
stores_at x = is_in x (151 ∷ 183 ∷ 215 ∷ 247 ∷ 407 ∷ 439 ∷ 662 ∷ 918 ∷ [])

abbrev loads_at : ℕ → Bool
loads_at x = is_in x (23 ∷ 55 ∷ 87 ∷ 119 ∷ 279 ∷ 311 ∷ 343 ∷ 375 ∷ 534 ∷ 790 ∷ 20 ∷ [])

abbrev updates_at : ℕ → Bool
updates_at x = is_in x (55 ∷ 119 ∷ 311 ∷ 375 ∷ 183 ∷ 247 ∷ 439 ∷ [])

address-Below :
    (c : Bool) (w : ℕ) → Below 32 (if c then join (ra w) (rb w ∷ []) else join (rb w) (ra_or_0 w))
address-Below true w = pair-Below (ra w) (rb w) (ra-lt w) (rb-lt w)
address-Below false w = join-Below 32 (rb w) (ra_or_0 w) (rb-lt w) (ra_or_0-Below w)

pub extended_insn-IsInsn : (args : Args) (pc w : ℕ) → IsInsn w (extended_insn args (blank pc w))
unfolding extended_insn
extended_insn-IsInsn args pc w =
    let x = xo10 w in
    elim (Bool-cases (loads_at x || stores_at x)) [
      | inl t ↦ rw t (
          access_insn-IsInsn (stores_at x) (updates_at x)
            (if updates_at x then join (ra w) (rb w ∷ []) else join (rb w) (ra_or_0 w)) pc w
            (address-Below (updates_at x) w))
      | inr f ↦ rw f (elim (Bool-cases (is_in x (0 ∷ 32 ∷ []))) [
        | inl t ↦ rw t (
            shape (pair-Below (ra w) (rb w) (ra-lt w) (rb-lt w)) tt tt (omega fields, tt)
              (omega arith))
        | inr f ↦ rw f (moving_insn-IsInsn args pc w)
      ])
    ]
