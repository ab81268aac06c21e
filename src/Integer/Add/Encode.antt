-- ===== src/Integer/Add/Encode.antt =====
-- `encode` of the ADD family: when it returns, and that the word's fields are its arguments.
use slo_ppc.Prelude.{ℕ, ◌+◌, ◌*◌, ◌/◌, ◌%◌, ◌^◌, ◌<◌, ◌≡◌, arith, ok, true}
use slo_ppc.Bits.{bit_or_sum}
use slo_ppc.Integer.Word.{check_bit, check_below}
use slo_ppc.Integer.Word.Laws.{register_fields_sum}
use slo_ppc.Integer.Add.{AddFamily, add, xo, is_unary, encode}

-- The arguments that `encode` accepts.
pub record IsForm (family : AddFamily) (oe rc rd ra rb : ℕ) : Type 0 where
  pub oe_bit : oe < 2
  pub rc_bit : rc < 2
  pub rd_field : rd < 32
  pub ra_field : ra < 32
  pub rb_field : rb < 32
  pub rb_reserved : is_unary family ≡ true → rb ≡ 0

xo-lt : (family : AddFamily) → xo family < 512
unfolding xo
xo-lt add = omega arith
xo-lt _ = omega arith

-- The word as a sum of its fields.
abbrev word_sum : AddFamily → ℕ → ℕ → ℕ → ℕ → ℕ → ℕ
word_sum family oe rc rd ra rb =
    31 * 2 ^ 26 + rd * 2 ^ 21 + ra * 2 ^ 16 + rb * 2 ^ 11 + oe * 2 ^ 10 + xo family * 2 + rc

encode-eq-sum :
    (family : AddFamily) (oe rc rd ra rb : ℕ)
    → IsForm family oe rc rd ra rb
    → encode family oe rc rd ra rb ≡ ok (word_sum family oe rc rd ra rb)
unfolding encode check_bit check_below
encode-eq-sum family oe rc rd ra rb h = ground (
  arith,
  xo-lt family,
  register_fields_sum 31 rd ra rb,
  bit_or_sum 11 (31 * 2 ^ 26 + rd * 2 ^ 21 + ra * 2 ^ 16 + rb * 2 ^ 11) (oe * 2 ^ 10),
  bit_or_sum 10 (31 * 2 ^ 26 + rd * 2 ^ 21 + ra * 2 ^ 16 + rb * 2 ^ 11 + oe * 2 ^ 10)
      (xo family * 2),
  bit_or_sum 1 (31 * 2 ^ 26 + rd * 2 ^ 21 + ra * 2 ^ 16 + rb * 2 ^ 11 + oe * 2 ^ 10 + xo family * 2)
      rc,
)

-- `encode` returns only on the arguments of a form.
pub encode-IsForm :
    (family : AddFamily) (oe rc rd ra rb : ℕ) {w : ℕ}
    → encode family oe rc rd ra rb ≡ ok w
    → IsForm family oe rc rd ra rb
unfolding encode check_bit check_below is_unary
encode-IsForm add oe rc rd ra rb h = ground arith
encode-IsForm _ oe rc rd ra rb h = ground arith

xo-injective : (family other : AddFamily) → xo family ≡ xo other → family ≡ other
unfolding xo
xo-injective family other h = ground arith

-- On the arguments of a form `encode` returns a word whose fields are opcode 31 and the arguments.
pub encode_fields :
    (family : AddFamily) (oe rc rd ra rb : ℕ)
    → IsForm family oe rc rd ra rb
    → (w : ℕ) × (encode family oe rc rd ra rb ≡ ok w)
      × (w / 2 ^ 26 ≡ 31)
      × (w / 2 ^ 21 % 32 ≡ rd)
      × (w / 2 ^ 16 % 32 ≡ ra)
      × (w / 2 ^ 11 % 32 ≡ rb)
      × (w / 2 ^ 10 % 2 ≡ oe)
      × (w / 2 % 512 ≡ xo family)
      × (w % 2 ≡ rc)
encode_fields family oe rc rd ra rb h =
    let k : xo family < 512 = xo-lt family in
    (
      word_sum family oe rc rd ra rb,
      encode-eq-sum family oe rc rd ra rb h,
      omega arith,
      omega arith,
      omega arith,
      omega arith,
      omega arith,
      omega arith,
      omega arith,
    )

-- Two calls of `encode` that return one word have the same family and the same arguments.
pub encode_injective :
    (family other : AddFamily) (oe rc rd ra rb oe' rc' rd' ra' rb' : ℕ) {w : ℕ}
    → encode family oe rc rd ra rb ≡ ok w
    → encode other oe' rc' rd' ra' rb' ≡ ok w
    → (family ≡ other) × (oe ≡ oe') × (rc ≡ rc') × (rd ≡ rd') × (ra ≡ ra') × (rb ≡ rb')
encode_injective family other oe rc rd ra rb oe' rc' rd' ra' rb' h k = ground (
  arith,
  encode_fields family oe rc rd ra rb (encode-IsForm family oe rc rd ra rb h),
  encode_fields other oe' rc' rd' ra' rb' (encode-IsForm other oe' rc' rd' ra' rb' k),
  xo-injective family other,
)
