-- ===== src/Integer/Rotate.antt =====
-- sim/tools/rotate_family.py: rlwimi, rlwinm and rlwnm, with the mask of MB and ME.
pub mod Laws
pub mod Mask
pub mod Forms
use slo_ppc.Prelude.{
  ℕ, zero, suc, ◌+◌, ◌-◌, ◌*◌, ◌/◌, ◌^◌, ◌<◌, bit_and, bit_or, Bool, true, false, Result, ok, raise,
  Option, none, some, ◌>>=◌, ◌>>◌, ltb, ◌==◌, if◌then◌else◌,
}
use slo_ppc.Integer.Word.{
  Error, no_fuel, mask32, truthy, check_bit, check_nibble, check_below, new_cr0, register_fields,
}

pub data RotateFamily : Type 0 where
  rlwimi rlwinm rlwnm : RotateFamily

unfoldable pub primary_opcode : RotateFamily → ℕ
primary_opcode rlwimi = 20
primary_opcode rlwinm = 21
primary_opcode rlwnm = 23

pub record RotateResult : Type 0 where
  pub value : ℕ
  pub ca : ℕ
  pub ov : ℕ
  pub so : ℕ
  pub cr0 : ℕ

-- The keyword arguments of `evaluate`.
pub record RotateFlags : Type 0 where
  pub old_a : ℕ
  pub rc : ℕ
  pub ca : ℕ
  pub ov : ℕ
  pub so : ℕ
  pub old_cr0 : ℕ

-- The loop of `ppc_mask` from `index`; `none` means that the fuel ran out.
unfoldable pub mask_loop : ℕ → ℕ → ℕ → ℕ → Option ℕ
mask_loop zero me index result = none
mask_loop (suc fuel) me index result =
    let marked = bit_or result (2 ^ (31 - index)) in
    let rest = mask_loop fuel me (bit_and (index + 1) 31) marked in
    if index == me then some marked else rest

abbrev pub in_time : Option ℕ → Result Error ℕ
in_time none = raise no_fuel
in_time (some m) = ok m

-- The loop passes each index at most once, so 32 rounds are enough.
unfoldable pub ppc_mask : ℕ → ℕ → Result Error ℕ
ppc_mask mb0 me0 = do
  mb ← check_below 32 mb0 "mb"
  me ← check_below 32 me0 "me"
  in_time (mask_loop 32 me mb 0)

unfoldable pub rotate_left : ℕ → ℕ → ℕ
rotate_left value0 amount0 =
    let value = bit_and value0 mask32 in
    let amount = bit_and amount0 31 in
    if amount == 0
    then value
    else bit_and (bit_or (value * 2 ^ amount) (value / 2 ^ (32 - amount))) mask32

-- `family == "rlwnm"`.
unfoldable pub is_register : RotateFamily → Bool
is_register rlwnm = true
is_register _ = false

-- The value before its last mask: rlwimi keeps the digits of rA outside the mask. `x & ~mask` is `x`
-- less `x & mask`.
unfoldable pub inserted : RotateFamily → ℕ → ℕ → ℕ → ℕ
inserted rlwimi rotated old_a mask =
    bit_or (bit_and rotated mask) (bit_and old_a mask32 - bit_and (bit_and old_a mask32) mask)
inserted _ rotated old_a mask = bit_and rotated mask

-- The result, given the mask.
unfoldable pub rotate_result : RotateFamily → ℕ → ℕ → ℕ → RotateFlags → RotateResult
rotate_result family s shift mask f =
    let value = bit_and (inserted family (rotate_left s shift) f.old_a mask) mask32 in
    record {
      value = value;
      ca = f.ca;
      ov = f.ov;
      so = f.so;
      cr0 = new_cr0 f.rc value f.so f.old_cr0;
    }

unfoldable pub evaluate : RotateFamily → ℕ → ℕ → ℕ → ℕ → RotateFlags → Result Error RotateResult
unfolding is_register
evaluate family s shift mb me f = do
  _ ← (if is_register family then ok shift else check_below 32 shift "sh")
  rc ← check_bit f.rc "rc"
  ca ← check_bit f.ca "ca"
  ov ← check_bit f.ov "ov"
  so ← check_bit f.so "so"
  old_cr0 ← check_nibble f.old_cr0 "old_cr0"
  mask ← ppc_mask mb me
  ok (
      rotate_result family s shift mask
        (record { old_a = f.old_a; rc = rc; ca = ca; ov = ov; so = so; old_cr0 = old_cr0 }))

unfoldable pub encode : RotateFamily → ℕ → ℕ → ℕ → ℕ → ℕ → ℕ → Result Error ℕ
encode family rc0 rs ra sh_or_rb mb me = do
  rc ← check_bit rc0 "rc"
  _ ← check_below 32 rs "rs"
  _ ← check_below 32 ra "ra"
  _ ← check_below 32 sh_or_rb "sh_or_rb"
  _ ← check_below 32 mb "mb"
  _ ← check_below 32 me "me"
  ok (
      bit_or
        (bit_or (bit_or (register_fields (primary_opcode family) rs ra sh_or_rb) (mb * 2 ^ 6))
          (me * 2 ^ 1))
        rc)
