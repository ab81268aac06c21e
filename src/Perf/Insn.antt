-- ===== src/Perf/Insn.antt =====
-- The resources of an instruction (`Insn` of sim/tools/perf_model_603e.py), signed fields and byte counts. A set
-- is a list without repetitions.
use slo_ppc.Prelude.{
  ℕ, zero, suc, ◌+◌, ◌-◌, ◌*◌, ◌/◌, ◌^◌, bit_and, Bool, false, ◌&&◌, ltb, List, [], ◌∷◌,
  if◌then◌else◌,
}
use slo_ppc.Prelude.Int.{ℤ, pos, ◌-ℤ◌}
use slo_ppc.Integer.Word.{masked, truthy, mask32}
use slo_ppc.Dispatch.Classify.{is_in}

-- `add` is the IU or the SRU.
pub data Station : Type 0 where
  iu sru add lsu bpu fpu : Station

pub data Kind : Type 0 where
  unnamed mul int cmp adding bc b bclr bcctr sru_work load_kind store_kind lsmw fpls fp div other :
      Kind

pub record Insn : Type 0 where
  pub pc : ℕ
  pub word : ℕ
  pub unit : Station
  pub lat : ℕ
  pub src : List ℕ
  pub dst : List ℕ
  pub crs : List ℕ
  pub crd : List ℕ
  pub cr_fast : Bool
  pub store : Bool
  pub load : Bool
  pub serial : Bool
  pub dserial : Bool
  pub lr_r : Bool
  pub lr_w : Bool
  pub ctr_r : Bool
  pub ctr_w : Bool
  pub bo : ℕ
  pub bi : ℕ
  pub disp : ℤ
  pub lk : Bool
  pub kind : Kind

-- What `__init__` sets before it decodes.
abbrev pub blank : ℕ → ℕ → Insn
blank pc word = record {
  pc = pc;
  word = word;
  unit = iu;
  lat = 1;
  src = [];
  dst = [];
  crs = [];
  crd = [];
  cr_fast = false;
  store = false;
  load = false;
  serial = false;
  dserial = false;
  lr_r = false;
  lr_w = false;
  ctr_r = false;
  ctr_w = false;
  bo = 0;
  bi = 0;
  disp = pos 0;
  lk = false;
  kind = unnamed;
}

-- `s | {n}`, also `s.add(n)`.
unfoldable pub join : ℕ → List ℕ → List ℕ
join n s = if is_in n s then s else n ∷ s

-- `{n} if c else set()`.
abbrev pub only : Bool → ℕ → List ℕ
only c n = if c then n ∷ [] else []

-- `set(range(first, first + count))`.
unfoldable pub span : ℕ → ℕ → List ℕ
span first zero = []
span first (suc count) = first ∷ span (first + 1) count

-- `sext(v, bits)`.
unfoldable pub sext : ℕ → ℕ → ℤ
sext v bits = if truthy (bit_and v (2 ^ (bits - 1))) then pos v -ℤ pos (2 ^ bits) else pos v

-- The loop of `significant_bytes`, which goes round at most three times.
unfoldable pub widen : ℕ → ℕ → ℕ → ℕ
widen zero v n = n
widen (suc rounds) v n =
    let next = widen rounds v (n + 1) in if truthy (v / 2 ^ (8 * n - 1)) && ltb n 4 then next else n

-- `significant_bytes(v)`.
unfoldable pub significant_bytes : ℤ → ℕ
unfolding masked
significant_bytes z =
    let v = masked z in
    let folded = if truthy (bit_and v 0x8000_0000) then mask32 - v else v in widen 3 folded 1
