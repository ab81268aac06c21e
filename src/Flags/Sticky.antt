-- ===== src/Flags/Sticky.antt =====
-- SO is sticky: no edge of `FlagOwnerModel` clears it.
use slo_ppc.Prelude.{
  ℕ, ◌≤◌, ◌≡◌, refl, arith, Bool, true, false, not, ◌&&◌, Option, none, some, List, ok, raise, ◌∙◌,
  if◌then◌else◌, bit_and, Result,
}
use slo_ppc.Bits.Digits.{bit_at}
use slo_ppc.Flags.State.{
  FlagError, xer_so_mask, needs_flags, OwnerTag, same_owner, AllocationRequest, make_captured,
  CapturedAllocation, CompletionPayload, ArchitecturalState, validate_completion,
}
use slo_ppc.Bits.{bit_and_field}
use slo_ppc.Integer.Word.{int, truthy}
use slo_ppc.Recovery.Dict.{has}
use slo_ppc.Flags.Owner.{
  FlagOwner, EdgeInput, Attempt, and_then, checked, retires, check_survivors, commit, retire_owner,
  survives, kill_owner, finish_owner, allocate_owner, advance,
}
use slo_ppc.Flags.Commit.{IsPayload, so_of, Holds, commit-so}

abbrev Kept : FlagOwner → FlagOwner → Type 0
Kept s n = Holds n × (so_of s.state ≤ so_of n.state)

and_then-Kept :
    {A B : Type 0} (s : FlagOwner) (a : Attempt A) (next : FlagOwner → A → Attempt B)
    → Kept s a.0
    → ((n : FlagOwner) (x : A) → Kept s n → Kept s (next n x).0)
    → Kept s (and_then a next).0
and_then-Kept s (n, ok x) next k goes = goes n x k
and_then-Kept s (n, raise e) next k goes = k

retired-Kept :
    (s : FlagOwner) (a : CapturedAllocation) (y : CompletionPayload)
    (r : Result FlagError ArchitecturalState)
    → Holds s
    → a.so_in ≡ so_of s.state
    → IsPayload y
    → commit s.state a y ≡ r
    → Kept s
        (checked {B = Unit} s r
          (λ state. (record { state = state; owner = none; completion = none }, ok tt))).0
retired-Kept s a y (ok n) v c b h =
    (record { captured = tt; stored = tt }, commit-so s.state n a y c b h)
retired-Kept s a y (raise e) v c b h = (v, omega arith)

retired_from :
    (state : ArchitecturalState) (o : Option CapturedAllocation) (c : Option CompletionPayload)
    → let s : FlagOwner = record { state = state; owner = o; completion = c } in
      Holds s → Kept s (retire_owner true s).0
unfolding retire_owner
retired_from state none c v = (v, omega arith)
retired_from state (some a) none v = (v, omega arith)
retired_from state (some a) (some y) v =
    retired-Kept (record { state = state; owner = some a; completion = some y }) a y _ v v.captured
      v.stored refl

retire_owner-Kept : (retired : Bool) (s : FlagOwner) → Holds s → Kept s (retire_owner retired s).0
retire_owner-Kept false s v = unfold retire_owner in (v, omega arith)
retire_owner-Kept true s v = retired_from s.state s.owner s.completion v

choice-Kept :
    {A : Type 0} (s : FlagOwner) (b : Bool) (x y : FlagOwner × A)
    → Kept s x.0
    → Kept s y.0
    → let r : FlagOwner × A = if b then x else y in Kept s r.0
choice-Kept s true x y k l = k
choice-Kept s false x y k l = l

kill_owner-Kept : (o : Option (List OwnerTag)) (s : FlagOwner) → Holds s → Kept s (kill_owner o s).0
unfolding kill_owner
kill_owner-Kept none s v = (v, omega arith)
kill_owner-Kept (some ts) s v =
    choice-Kept s (survives s.owner ts) _ _ (v, omega arith)
      (record { captured = tt; stored = tt }, omega arith)

abbrev pub FinishIn : Option (OwnerTag × CompletionPayload) → Type 0
FinishIn none = Unit
FinishIn (some (tag, y)) = IsPayload y

checked-Kept :
    {A B : Type 0} (s : FlagOwner) (r : Result FlagError A) (next : A → Attempt B)
    → Holds s
    → ((x : A) → r ≡ ok x → Kept s (next x).0)
    → Kept s (checked s r next).0
checked-Kept s (ok x) next v goes = goes x refl
checked-Kept s (raise e) next v goes = (v, omega arith)

finished_from :
    (tag : OwnerTag) (y : CompletionPayload) (state : ArchitecturalState)
    (o : Option CapturedAllocation) (c : Option CompletionPayload)
    → let s : FlagOwner = record { state = state; owner = o; completion = c } in
      IsPayload y → Holds s → Kept s (finish_owner (some (tag, y)) s).0
unfolding finish_owner
finished_from tag y state none c b v = (v, omega arith)
finished_from tag y state (some a) (some z) b v =
    choice-Kept (record { state = state; owner = some a; completion = some z })
      (same_owner tag a.request.tag && false) _ _
      (checked-Kept (record { state = state; owner = some a; completion = some z })
        (validate_completion a y) _ v
        (λ u e. (record { captured = v.captured; stored = b }, omega arith)))
      (v, omega arith)
finished_from tag y state (some a) none b v =
    choice-Kept (record { state = state; owner = some a; completion = none })
      (same_owner tag a.request.tag && true) _ _
      (checked-Kept (record { state = state; owner = some a; completion = none })
        (validate_completion a y) _ v
        (λ u e. (record { captured = v.captured; stored = b }, omega arith)))
      (v, omega arith)

finish_owner-Kept :
    (f : Option (OwnerTag × CompletionPayload)) (s : FlagOwner)
    → FinishIn f
    → Holds s
    → Kept s (finish_owner f s).0
finish_owner-Kept none s b v = unfold finish_owner in (v, omega arith)
finish_owner-Kept (some (tag, y)) s b v = finished_from tag y s.state s.owner s.completion b v

so_bit_of : (x : ℕ) → int (truthy (bit_and x xer_so_mask)) ≡ bit_at x 31
so_bit_of x = ground (arith, bit_and_field 31 1 x)

captured_so :
    (r : AllocationRequest) (a : CapturedAllocation) (ca so : ℕ)
    → make_captured r ca so ≡ ok a
    → a.so_in ≡ so
unfolding make_captured
captured_so r a ca so h = ground arith

later : (s m n : FlagOwner) → Kept s m → Kept m n → Kept s n
later s m n k l = (l.0, omega (arith, k.1, l.1))

allocate_owner-Kept :
    (pre_busy recovery : Bool) (o : Option AllocationRequest) (s : FlagOwner)
    → Holds s
    → Kept s (allocate_owner pre_busy recovery o s).0
unfolding allocate_owner
allocate_owner-Kept pre_busy recovery none s v = (v, omega arith)
allocate_owner-Kept pre_busy true (some r) s v = (v, omega arith)
allocate_owner-Kept pre_busy false (some r) s v =
    choice-Kept s (not (needs_flags r.permissions)) _ _ (v, omega arith)
      (choice-Kept s pre_busy _ _ (v, omega arith)
        (checked-Kept s (make_captured r _ _) _ v (λ a e. (
          record { captured = captured_so r a _ _ e ∙ so_bit_of s.state.xer; stored = tt },
          omega arith,
        ))))

-- From a state in which an owner has captured the present SO, and with results whose flags are digits, no edge
-- clears SO, whether it returns or raises, and an owner of the new state has captured the SO of that.
pub advance_sticky :
    (s : FlagOwner) (i : EdgeInput)
    → Holds s
    → FinishIn i.finish
    → Holds (advance s i).0 × (so_of s.state ≤ so_of (advance s i).0.state)
unfolding advance
advance_sticky s i v b =
    checked-Kept s (check_survivors i.survivors (retires i.retire s) s) _ v (λ u e.
      and_then-Kept s (retire_owner (retires i.retire s) s) _
        (retire_owner-Kept (retires i.retire s) s v)
        (λ s1 u1 k1.
          let k2 =
            later s s1 (kill_owner i.survivors s1).0 k1 (kill_owner-Kept i.survivors s1 k1.0) in
          let s2 = (kill_owner i.survivors s1).0 in
          and_then-Kept s (finish_owner i.finish s2) _
            (later s s2 _ k2 (finish_owner-Kept i.finish s2 b k2.0))
            (λ s3 finished k3.
              and_then-Kept s (allocate_owner (has s.owner) (has i.survivors) i.allocate s3) _
                (later s s3 _ k3
                  (allocate_owner-Kept (has s.owner) (has i.survivors) i.allocate s3 k3.0))
                (λ s4 r k4. k4))))
