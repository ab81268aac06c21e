-- ===== src/Flags/State.antt =====
-- The records of sim/tools/flag_state.py with their checks, `apply_commit` and `validate_completion`.
-- A check of a Python type has no counterpart here.
use slo_ppc.Prelude.{
  ℕ, ◌-◌, ◌*◌, ◌^◌, bit_and, bit_or, Bool, true, not, ◌&&◌, ◌||◌, List, [], ◌∷◌, length, set,
  Result, ok, raise, ◌>>◌, require, ltb, leb, ◌==◌, if◌then◌else◌,
}
use slo_ppc.Integer.Word.{mask32, truthy}

-- `FlagStateError`, and the `ValueError` of an instruction family.
pub data FlagError : Type 0 where
  flag_state_error value_error : FlagError

abbrev pub cr0_mask : ℕ
cr0_mask = 0xF000_0000

abbrev pub xer_so_mask : ℕ
xer_so_mask = 0x8000_0000

abbrev pub xer_ov_mask : ℕ
xer_ov_mask = 0x4000_0000

abbrev pub xer_ca_mask : ℕ
xer_ca_mask = 0x2000_0000

pub record OwnerTag : Type 0 where
  pub index : ℕ
  pub generation : ℕ

abbrev pub same_owner : OwnerTag → OwnerTag → Bool
same_owner a b = (a.index == b.index) && (a.generation == b.generation)

pub record WritePermissions : Type 0 where
  pub read_ca : Bool
  pub read_so : Bool
  pub write_ca : Bool
  pub write_ov_so : Bool
  pub write_cr_field : Bool

-- `WritePermissions.__post_init__`.
unfoldable pub make_permissions : WritePermissions → Result FlagError WritePermissions
make_permissions p =
    if (p.write_ov_so || p.write_cr_field) && not p.read_so then raise flag_state_error else ok p

unfoldable pub needs_flags : WritePermissions → Bool
needs_flags p = p.read_ca || p.read_so || p.write_ca || p.write_ov_so || p.write_cr_field

unfoldable pub cr_mask : WritePermissions → ℕ
cr_mask p = if p.write_cr_field then cr0_mask else 0

unfoldable pub xer_mask : WritePermissions → ℕ
xer_mask p =
    bit_or (if p.write_ca then xer_ca_mask else 0)
      (if p.write_ov_so then bit_or xer_so_mask xer_ov_mask else 0)

pub record CompletionPayload : Type 0 where
  pub value : ℕ
  pub ca : ℕ
  pub ov : ℕ
  pub so : ℕ
  pub cr0 : ℕ

-- `CompletionPayload(value, ca, ov, so, cr0)` with its `__post_init__`.
unfoldable pub make_payload : CompletionPayload → Result FlagError CompletionPayload
make_payload y = do
  require (leb y.value mask32) flag_state_error
  require (leb y.ca 1) flag_state_error
  require (leb y.ov 1) flag_state_error
  require (leb y.so 1) flag_state_error
  require (leb y.cr0 0xF) flag_state_error
  ok y

pub record ArchitecturalState : Type 0 where
  pub cr : ℕ
  pub xer : ℕ
  pub gprs : List ℕ

unfoldable pub all_words : List ℕ → Bool
all_words [] = true
all_words (v ∷ vs) = leb v mask32 && all_words vs

-- `ArchitecturalState(cr, xer, gprs)` with its `__post_init__`.
unfoldable pub make_state : ℕ → ℕ → List ℕ → Result FlagError ArchitecturalState
make_state cr xer gprs = do
  require (leb cr mask32) flag_state_error
  require (leb xer mask32) flag_state_error
  require (length gprs == 32) flag_state_error
  require (all_words gprs) flag_state_error
  ok (record { cr = cr; xer = xer; gprs = gprs })

pub record CommitPacket : Type 0 where
  pub permissions : WritePermissions
  pub payload : CompletionPayload
  pub gpr_write : Bool
  pub gpr : ℕ

-- `CommitPacket(permissions, payload, gpr_write, gpr)` with its `__post_init__`.
unfoldable pub make_packet :
    WritePermissions → CompletionPayload → Bool → ℕ → Result FlagError CommitPacket
make_packet permissions payload gpr_write gpr = do
  require (ltb gpr 32) flag_state_error
  ok (record { permissions = permissions; payload = payload; gpr_write = gpr_write; gpr = gpr })

pub record AllocationRequest : Type 0 where
  pub tag : OwnerTag
  pub permissions : WritePermissions
  pub gpr_write : Bool
  pub gpr : ℕ

abbrev pub owner_depth : ℕ
owner_depth = 5

abbrev pub generation_modulus : ℕ
generation_modulus = 256

-- `OwnerTag(index, generation)` with its `__post_init__`.
unfoldable pub make_tag : ℕ → ℕ → Result FlagError OwnerTag
make_tag index generation = do
  require (ltb index owner_depth) flag_state_error
  require (ltb generation generation_modulus) flag_state_error
  ok (record { index = index; generation = generation })

-- `AllocationRequest(tag, permissions, gpr_write, gpr)` with its `__post_init__`.
unfoldable pub make_request : AllocationRequest → Result FlagError AllocationRequest
make_request r = do require (ltb r.gpr 32) flag_state_error; ok r

pub record CapturedAllocation : Type 0 where
  pub request : AllocationRequest
  pub ca_in : ℕ
  pub so_in : ℕ

-- `CapturedAllocation(request, ca_in, so_in)` with its `__post_init__`.
unfoldable pub make_captured : AllocationRequest → ℕ → ℕ → Result FlagError CapturedAllocation
make_captured request ca_in so_in = do
  require (leb ca_in 1) flag_state_error
  require (leb so_in 1) flag_state_error
  require (needs_flags request.permissions) flag_state_error
  ok (record { request = request; ca_in = ca_in; so_in = so_in })

-- `(old & ~mask) | (new & mask)`.
unfoldable pub replaced : ℕ → ℕ → ℕ → ℕ
replaced mask old new = bit_or (old - bit_and old mask) (bit_and new mask)

unfoldable pub apply_commit :
    ArchitecturalState → CommitPacket → Result FlagError ArchitecturalState
apply_commit state packet =
    let p = packet.permissions in
    let y = packet.payload in
    let cr_candidate = y.cr0 * 2 ^ 28 in
    let xer_candidate = bit_or (bit_or (y.so * 2 ^ 31) (y.ov * 2 ^ 30)) (y.ca * 2 ^ 29) in
    make_state (replaced (cr_mask p) state.cr cr_candidate)
      (replaced (xer_mask p) state.xer xer_candidate)
      (if packet.gpr_write then set state.gprs packet.gpr y.value else state.gprs)

-- The relation that CR0 must have for a value.
abbrev pub expected_relation : ℕ → ℕ
expected_relation value =
    if truthy (bit_and value 0x8000_0000) then 8 else if value == 0 then 2 else 4

-- Both messages about SO are the one `FlagStateError`.
unfoldable pub validate_completion :
    CapturedAllocation → CompletionPayload → Result FlagError (Unit {0})
validate_completion a y =
    let p = a.request.permissions in
    do
      require (not p.write_ov_so || (y.so == bit_or a.so_in y.ov)) flag_state_error
      require (not p.write_cr_field || (bit_and y.cr0 0xE == expected_relation y.value))
          flag_state_error
      require
          (not p.write_cr_field || (bit_and y.cr0 1 == (if p.write_ov_so then y.so else a.so_in)))
          flag_state_error
