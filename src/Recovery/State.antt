-- ===== src/Recovery/State.antt =====
-- The state of `RecoveryModel`: tags, entries, redirects, events, and the fields that `reset` sets.
use slo_ppc.Prelude.{
  ℕ, ◌+◌, ◌-◌, ◌%◌, ◌^◌, ◌≡◌, ◌↔◌, arith, Bool, true, ◌&&◌, Option, none, some, List, [], ◌∷◌,
  Result, ok, raise, ◌>>=◌, ◌>>◌, require, ltb, leb, ◌==◌, if◌then◌else◌, get_elem?, replicate,
  bit_and,
}
use slo_ppc.Recovery.Dict.{Eq, nat_eq, get}

pub record Tag : Type 0 where
  pub slot : ℕ
  pub generation : ℕ

abbrev pub same_tag : Tag → Tag → Bool
same_tag a b = (a.slot == b.slot) && (a.generation == b.generation)

pub same_tag_iff : (a b : Tag) → (same_tag a b ≡ true) ↔ (a ≡ b)
same_tag_iff a b = ground arith

instance abbrev pub tag_eq : Eq Tag
tag_eq = record { beq = same_tag; beq_iff = same_tag_iff }

pub record Entry : Type 0 where
  pub tag : Tag
  pub serial : ℕ
  pub dst : Option ℕ
  pub rename : Option ℕ
  pub done : Bool
  pub value : ℕ
  pub fault : Bool
  pub issued : Bool

-- `pivot` is `none` for the cut of all speculation.
pub record Redirect : Type 0 where
  pub target : ℕ
  pub pivot : Option Tag
  pub keep_pivot : Bool

-- The exceptions that the model's code can raise.
pub data Error : Type 0 where
  value_error index_error stop_iteration assertion_error : Error

-- `Redirect(target, pivot, keep_pivot)` with its `__post_init__`.
unfoldable pub make_redirect : ℕ → Option Tag → Bool → Result Error Redirect
make_redirect target pivot keep_pivot = do
  require (leb target 0xFFFF_FFFF && (target % 4 == 0)) value_error
  ok (record { target = target; pivot = pivot; keep_pivot = keep_pivot })

-- How a producer's work is cancelled; `unknown` is any other string.
pub data Producer : Type 0 where
  local external unknown : Producer

pub data Rejection : Type 0 where
  inactive_pivot irrevocable_retirement_head : Rejection

-- (serial, dst, value)
abbrev pub Commit : Type 0
Commit = ℕ × Option ℕ × ℕ

pub record Events : Type 0 where
  pub allocated : Option Tag
  pub finished : Option Tag
  pub committed : Option Commit
  pub killed : List Tag
  pub redirect_accepted : Bool
  pub redirect_rejected : Option Rejection
  pub issue_accepted : Bool
  pub result_consumed : Bool

pub record Model : Type 0 where
  pub depth : ℕ
  pub rename_depth : ℕ
  pub generation_mask : ℕ
  pub entries : List Entry
  pub generations : List ℕ
  pub tail : ℕ
  pub tokens : List (Tag × Producer)
  pub arch : List ℕ
  pub mapping : List (ℕ × Tag)
  pub next_serial : ℕ
  pub retired : List Commit

-- `reset`, with the three parameters of the model.
unfoldable pub reset : ℕ → ℕ → ℕ → Model
reset depth rename_depth generation_mask = record {
  depth = depth;
  rename_depth = rename_depth;
  generation_mask = generation_mask;
  entries = [];
  generations = replicate depth 0;
  tail = 0;
  tokens = [];
  arch = replicate 32 0;
  mapping = [];
  next_serial = 0;
  retired = [];
}

-- `RecoveryModel(depth, rename_depth, generation_bits)`.
unfoldable pub make : ℕ → ℕ → ℕ → Result Error Model
make depth rename_depth generation_bits = do
  require (leb 1 depth && (leb 1 rename_depth && leb 1 generation_bits)) value_error
  ok (reset depth rename_depth (2 ^ generation_bits - 1))

-- An index into a list that Python checks.
abbrev pub at : {A : Type 0} → Option A → Result Error A
at none = raise index_error
at (some a) = ok a

unfoldable pub candidate : Model → Result Error Tag
candidate m = do
  generation ← at (get_elem? m.generations m.tail)
  ok (record { slot = m.tail; generation = bit_and (generation + 1) m.generation_mask })

-- `next(e for e in entries if e.tag == tag)`.
unfoldable pub find_tag : Tag → List Entry → Option Entry
find_tag t [] = none
find_tag t (e ∷ es) = if same_tag e.tag t then some e else find_tag t es

abbrev pub or_stop : {A : Type 0} → Option A → Result Error A
or_stop none = raise stop_iteration
or_stop (some a) = ok a

-- What `operand` reads of a register that an entry is to write, and of one that none is.
unfoldable pub read_operand : Model → ℕ → Option Tag → Result Error (Bool × ℕ × Option Tag)
read_operand m reg none = do v ← at (get_elem? m.arch reg); ok (true, v, none)
read_operand m reg (some t) = do e ← or_stop (find_tag t m.entries); ok (e.done, e.value, some t)

unfoldable pub operand : Model → ℕ → Result Error (Bool × ℕ × Option Tag)
unfolding read_operand
operand m reg = do require (ltb reg 32) value_error; read_operand m reg (get reg m.mapping)
