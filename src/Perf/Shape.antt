-- ===== src/Perf/Shape.antt =====
-- What `Insn` of sim/tools/perf_model_603e.py decodes: the registers and fields are there, and how many it writes.
use slo_ppc.Prelude.{
  ℕ, zero, suc, ◌+◌, ◌-◌, ◌/◌, ◌^◌, ◌≤◌, ◌<◌, ◌≡◌, ◌⊎◌, inl, inr, refl, arith, Bool, true, false,
  not, ◌&&◌, ◌||◌, leb, bit_and, List, [], ◌∷◌, ◌++◌, length, ◌==◌, if◌then◌else◌, Bool-cases,
}
use slo_ppc.Bits.{bit_and_mask}
use slo_ppc.Integer.Word.{truthy}
use slo_ppc.Dispatch.Classify.{is_in, opcode}
use slo_ppc.Perf.Insn.{Insn, blank, join, only, span}
use slo_ppc.Perf.Fields.{rd, ra, rb, ra_or_0, access_insn}
use slo_ppc.Perf.Extended.{chosen_fields}

abbrev pub Below : ℕ → List ℕ → Type 0
Below n [] = Unit {0}
Below n (x ∷ xs) = (x < n) × Below n xs

pub record IsShape (word : ℕ) (src dst crs crd : List ℕ) : Type 0 where
  pub sources : Below 32 src
  pub results : Below 32 dst
  pub cr_sources : Below 8 crs
  pub cr_results : Below 8 crd
  pub few_results : (opcode word ≡ 46) ⊎ (length dst ≤ 2)

abbrev pub IsInsn : ℕ → Insn → Type 0
IsInsn w i = IsShape w i.src i.dst i.crs i.crd

-- The usual instruction writes at most two registers.
pub shape :
    {word : ℕ} {src dst crs crd : List ℕ}
    → Below 32 src
    → Below 32 dst
    → Below 8 crs
    → Below 8 crd
    → length dst ≤ 2
    → IsShape word src dst crs crd
shape s d r c f = record {
  sources = s;
  results = d;
  cr_sources = r;
  cr_results = c;
  few_results = inr f;
}

pub rd-lt : (w : ℕ) → rd w < 32
unfolding rd
rd-lt w = omega (arith, bit_and_mask 5 (w / 2 ^ 21))

pub ra-lt : (w : ℕ) → ra w < 32
unfolding ra
ra-lt w = omega (arith, bit_and_mask 5 (w / 2 ^ 16))

pub rb-lt : (w : ℕ) → rb w < 32
unfolding rb
rb-lt w = omega (arith, bit_and_mask 5 (w / 2 ^ 11))

pub ruleset fields = (arith, rd-lt, ra-lt, rb-lt)

pub join-Below : (n x : ℕ) (xs : List ℕ) → x < n → Below n xs → Below n (join x xs)
unfolding join
join-Below n x xs h k = elim (Bool-cases (is_in x xs)) [
  | inl t ↦ rw (t, join) k
  | inr f ↦ rw (f, join) (h, k)
]

pub length-join : (x : ℕ) (xs : List ℕ) → length (join x xs) ≤ suc (length xs)
unfolding join
length-join x xs = ground arith

pub only-Below : (n x : ℕ) (c : Bool) → x < n → Below n (only c x)
only-Below n x true h = (h, tt)
only-Below n x false h = tt

pub length-only : (c : Bool) (x : ℕ) → length (only c x) ≤ 1
length-only true x = omega arith
length-only false x = omega arith

pub append-Below : (n : ℕ) (xs ys : List ℕ) → Below n xs → Below n ys → Below n (xs ++ ys)
append-Below n [] ys h k = k
append-Below n (x ∷ xs) ys h k = (h.0, append-Below n xs ys h.1 k)

pub span-Below : (n first count : ℕ) → first + count ≤ n → Below n (span first count)
unfolding span
span-Below n first zero h = tt
span-Below n first (suc count) h = (omega arith, span-Below n (first + 1) count (omega arith))

pub length-span : (first count : ℕ) → length (span first count) ≡ count
unfolding span
length-span first zero = refl
length-span first (suc count) = omega (arith, length-span (first + 1) count)

pub chosen_fields-Below : (n fxm i : ℕ) → i + n ≤ 8 → Below 8 (chosen_fields n fxm i)
unfolding chosen_fields
chosen_fields-Below zero fxm i h = tt
chosen_fields-Below (suc n) fxm i h = elim (Bool-cases (truthy (bit_and fxm (0x80 / 2 ^ i)))) [
  | inl t ↦ rw (t, chosen_fields) (omega arith, chosen_fields-Below n fxm (i + 1) (omega arith))
  | inr f ↦ rw (f, chosen_fields) (chosen_fields-Below n fxm (i + 1) (omega arith))
]

-- `cr0()` of an instruction that writes no other field.
pub cr0-Below : (c : Bool) → Below 8 (if c then join 0 [] else [])
cr0-Below c = elim c as (λ x. Below 8 (if x then join 0 [] else [])) [
  | true ↦ join-Below 8 0 [] (omega arith) tt
  | false ↦ tt
]

pub ra_or_0-Below : (w : ℕ) → Below 32 (ra_or_0 w)
unfolding ra_or_0
ra_or_0-Below w = only-Below 32 (ra w) (truthy (ra w)) (ra-lt w)

pub access_insn-IsInsn :
    (stores update : Bool) (address : List ℕ) (pc w : ℕ)
    → Below 32 address
    → IsInsn w (access_insn stores update address (blank pc w))
unfolding access_insn
access_insn-IsInsn stores update address pc w h =
    let base = only-Below 32 (ra w) update (ra-lt w) in
    let joined = join-Below 32 (rd w) (only update (ra w)) (rd-lt w) base in
    let stored = join-Below 32 (rd w) address (rd-lt w) h in
    let one = length-only update (ra w) in
    let two = length-join (rd w) (only update (ra w)) in
    record {
      sources = elim stores as (λ x. Below 32 (if x then join (rd w) address else address)) [
        | true ↦ stored
        | false ↦ h
      ];
      results =
          elim stores
            as (λ x.
              Below 32 (if x then only update (ra w) else join (rd w) (only update (ra w)))) [
                | true ↦ base
                | false ↦ joined
              ];
      cr_sources = tt;
      cr_results = tt;
      few_results =
          inr
            (elim stores
              as (λ x.
                length (if x then only update (ra w) else join (rd w) (only update (ra w))) ≤ 2) [
                  | true ↦ omega arith
                  | false ↦ omega arith
                ]);
    }
