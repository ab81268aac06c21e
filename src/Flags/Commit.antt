-- ===== src/Flags/Commit.antt =====
-- What a commit does to SO: a completion that validates has the captured SO or a new one.
use slo_ppc.Prelude.{
  ℕ, ◌-◌, ◌*◌, ◌^◌, ◌≤◌, ◌<◌, ◌≡◌, arith, Option, none, some, ok, if◌then◌else◌, bit_and, bit_or,
  ◌==◌,
}
use slo_ppc.Bits.Digits.{bit_at, bit_at-bit_and, bit_at-bit_or, bit_at-sub-bit_and}
use slo_ppc.Flags.State.{
  WritePermissions, CapturedAllocation, CompletionPayload, ArchitecturalState, replaced, xer_mask,
  make_packet, make_state, apply_commit, validate_completion,
}
use slo_ppc.Bits.{bit_or_bits}
use slo_ppc.Flags.Owner.{FlagOwner, commit}

-- A digit that the mask leaves stays, and one that it takes is new.
pub bit_at-replaced :
    (mask old new i : ℕ)
    → bit_at (replaced mask old new) i ≡ (if bit_at mask i == 1 then bit_at new i else bit_at old i)
unfolding replaced
bit_at-replaced mask old new i = ground (
  arith,
  bit_at-bit_or i (old - bit_and old mask) (bit_and new mask),
  bit_at-sub-bit_and i old mask,
  bit_at-bit_and i new mask,
)

-- The sign digit of the candidate is SO.
candidate_so :
    (so ov ca : ℕ)
    → so < 2
    → ov < 2
    → ca < 2
    → bit_at (bit_or (bit_or (so * 2 ^ 31) (ov * 2 ^ 30)) (ca * 2 ^ 29)) 31 ≡ so
candidate_so so ov ca p q r = omega (
  arith,
  bit_at-bit_or 31 (bit_or (so * 2 ^ 31) (ov * 2 ^ 30)) (ca * 2 ^ 29),
  bit_at-bit_or 31 (so * 2 ^ 31) (ov * 2 ^ 30),
)

pub record IsPayload (y : CompletionPayload) : Type 0 where
  pub ca_bit : y.ca < 2
  pub ov_bit : y.ov < 2
  pub so_bit : y.so < 2

abbrev pub PayloadIn : Option CompletionPayload → Type 0
PayloadIn none = Unit
PayloadIn (some y) = IsPayload y

-- SO of a state.
abbrev pub so_of : ArchitecturalState → ℕ
so_of s = bit_at s.xer 31

abbrev pub SoCaptured : Option CapturedAllocation → ℕ → Type 0
SoCaptured none so = Unit
SoCaptured (some a) so = a.so_in ≡ so

-- An owner has captured the present SO, and a stored result has digits for flags.
pub record Holds (s : FlagOwner) : Type 0 where
  pub captured : SoCaptured s.owner (so_of s.state)
  pub stored : PayloadIn s.completion

mask_so : (p : WritePermissions) → bit_at (xer_mask p) 31 ≡ (if p.write_ov_so then 1 else 0)
unfolding xer_mask
mask_so p = ground arith

pub commit-so :
    (state n : ArchitecturalState) (a : CapturedAllocation) (y : CompletionPayload)
    → a.so_in ≡ so_of state
    → IsPayload y
    → commit state a y ≡ ok n
    → so_of state ≤ so_of n
unfolding commit validate_completion make_packet apply_commit make_state
commit-so state n a y c b h = ground (
  arith,
  bit_at-replaced (xer_mask a.request.permissions) state.xer
      (bit_or (bit_or (y.so * 2 ^ 31) (y.ov * 2 ^ 30)) (y.ca * 2 ^ 29)) 31,
  candidate_so y.so y.ov y.ca b.so_bit b.ov_bit b.ca_bit,
  mask_so a.request.permissions,
  bit_or_bits a.so_in y.ov,
)
