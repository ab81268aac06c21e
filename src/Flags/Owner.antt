-- ===== src/Flags/Owner.antt =====
-- `FlagOwnerModel`. An edge returns the state that it leaves also when it raises, since Python keeps what
-- the method has assigned before.
use slo_ppc.Prelude.{
  bit_and, Bool, true, false, not, ◌&&◌, ◌||◌, Option, none, some, List, [], ◌∷◌, length, Result,
  ok, raise, ◌>>=◌, ◌>>◌, require, leb, if◌then◌else◌,
}
use slo_ppc.Recovery.Dict.{has}
use slo_ppc.Integer.Word.{int, truthy}
use slo_ppc.Flags.State.{
  FlagError, flag_state_error, xer_so_mask, xer_ca_mask, OwnerTag, same_owner, needs_flags,
  CompletionPayload, ArchitecturalState, make_packet, AllocationRequest, CapturedAllocation,
  make_captured, apply_commit, validate_completion,
}

pub record EdgeOutcome : Type 0 where
  pub retired : Bool
  pub finished : Bool
  pub wake : Bool
  pub killed : Bool
  pub acquired : Bool
  pub captured : Option CapturedAllocation

pub record FlagOwner : Type 0 where
  pub state : ArchitecturalState
  pub owner : Option CapturedAllocation
  pub completion : Option CompletionPayload

-- The keyword arguments of `advance`.
pub record EdgeInput : Type 0 where
  pub retire : Option OwnerTag
  pub finish : Option (OwnerTag × CompletionPayload)
  pub allocate : Option AllocationRequest
  pub survivors : Option (List OwnerTag)

-- The state that a call leaves, and what it returns or raises.
abbrev pub Attempt : Type 0 → Type 0
Attempt A = FlagOwner × Result FlagError A

abbrev pub and_then : {A B : Type 0} → Attempt A → (FlagOwner → A → Attempt B) → Attempt B
and_then (s, ok a) next = next s a
and_then (s, raise e) next = (s, raise e)

-- A check or a computation that changes no state.
abbrev pub checked : {A B : Type 0} → FlagOwner → Result FlagError A → (A → Attempt B) → Attempt B
checked s (ok a) next = next a
checked s (raise e) next = (s, raise e)

abbrev pub owns : OwnerTag → Option CapturedAllocation → Bool
owns tag none = false
owns tag (some a) = same_owner tag a.request.tag

-- `retired`.
unfoldable pub retires : Option OwnerTag → FlagOwner → Bool
retires none s = false
retires (some tag) s = has s.completion && owns tag s.owner

unfoldable pub tag_member : OwnerTag → List OwnerTag → Bool
tag_member t [] = false
tag_member t (u ∷ us) = same_owner t u || tag_member t us

unfoldable pub no_duplicate : List OwnerTag → Bool
no_duplicate [] = true
no_duplicate (t ∷ ts) = not (tag_member t ts) && no_duplicate ts

-- A survivor that is named must be the owner.
abbrev pub survivor_owns : List OwnerTag → Option CapturedAllocation → Bool
survivor_owns [] owner = true
survivor_owns (t ∷ ts) owner = owns t owner

abbrev pub is_empty : List OwnerTag → Bool
is_empty [] = true
is_empty (t ∷ ts) = false

-- The checks of a recovery.
unfoldable pub check_survivors :
    Option (List OwnerTag) → Bool → FlagOwner → Result FlagError (Unit {0})
check_survivors none retired s = ok tt
check_survivors (some ts) retired s = do
  require (no_duplicate ts) flag_state_error
  require (leb (length ts) 1) flag_state_error
  require (survivor_owns ts s.owner) flag_state_error
  require (not retired || is_empty ts) flag_state_error

-- What a retirement commits.
unfoldable pub commit :
    ArchitecturalState
    → CapturedAllocation
    → CompletionPayload
    → Result FlagError ArchitecturalState
commit state a y = do
  validate_completion a y
  packet ← make_packet a.request.permissions y a.request.gpr_write a.request.gpr
  apply_commit state packet

unfoldable pub retire_owner : Bool → FlagOwner → Attempt (Unit {0})
retire_owner false s = (s, ok tt)
retire_owner true s = elim s.owner [
  | none ↦ (s, ok tt)
  | some a ↦ elim s.completion [
    | none ↦ (s, ok tt)
    | some y ↦
        checked s (commit s.state a y)
          (λ state. (record { state = state; owner = none; completion = none }, ok tt))
  ]
]

abbrev pub survives : Option CapturedAllocation → List OwnerTag → Bool
survives none ts = true
survives (some a) ts = tag_member a.request.tag ts

-- A recovery kills an owner that is not among the survivors.
unfoldable pub kill_owner : Option (List OwnerTag) → FlagOwner → FlagOwner × Bool
kill_owner none s = (s, false)
kill_owner (some ts) s =
    if survives s.owner ts then (s, false) else (record s { owner = none; completion = none }, true)

-- A result finishes the owner that has none yet, if it names it.
unfoldable pub finish_owner : Option (OwnerTag × CompletionPayload) → FlagOwner → Attempt Bool
finish_owner none s = (s, ok false)
finish_owner (some (tag, y)) s =
    if owns tag s.owner && not (has s.completion)
    then elim s.owner [
      | none ↦ (s, ok false)
      | some a ↦
          checked s (validate_completion a y) (λ u. (record s { completion = some y }, ok true))
    ]
    else (s, ok false)

-- An allocation with no flags needs no owner. Another takes the place that was free before the edge, and
-- captures CA and SO.
unfoldable pub allocate_owner :
    Bool → Bool → Option AllocationRequest → FlagOwner → Attempt (Bool × Option CapturedAllocation)
allocate_owner pre_busy recovery none s = (s, ok (false, none))
allocate_owner pre_busy recovery (some r) s =
    if recovery
    then (s, ok (false, none))
    else if not (needs_flags r.permissions)
    then (s, ok (true, none))
    else if pre_busy
    then (s, ok (false, none))
    else checked s
        (make_captured r (int (truthy (bit_and s.state.xer xer_ca_mask)))
          (int (truthy (bit_and s.state.xer xer_so_mask))))
        (λ a. (record s { owner = some a; completion = none }, ok (true, some a)))

abbrev pub writes_register : Option CapturedAllocation → Bool
writes_register none = false
writes_register (some a) = a.request.gpr_write

unfoldable pub advance : FlagOwner → EdgeInput → Attempt EdgeOutcome
advance s i =
    let retired = retires i.retire s in
    checked s (check_survivors i.survivors retired s) (λ u.
      and_then (retire_owner retired s) (λ s1 u1.
        let (s2, killed) = kill_owner i.survivors s1 in
        and_then (finish_owner i.finish s2) (λ s3 finished.
          and_then (allocate_owner (has s.owner) (has i.survivors) i.allocate s3) (λ s4 r. (
            s4,
            ok (record {
              retired = retired;
              finished = finished;
              wake = finished && writes_register s4.owner;
              killed = killed;
              acquired = r.0;
              captured = r.1;
            }),
          )))))
