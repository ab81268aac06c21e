-- ===== src/Flags/Errors.antt =====
-- An edge of `FlagOwnerModel` that raises has changed nothing.
use slo_ppc.Prelude.{
  ◌≡◌, ◌≢◌, refl, arith, Bool, true, false, Option, none, some, List, ok, raise, ap, ◌∙◌, sym,
  Result,
}
use slo_ppc.Recovery.Dict.{has}
use slo_ppc.Flags.State.{FlagError, OwnerTag, CompletionPayload, AllocationRequest, make_captured}
use slo_ppc.Flags.Owner.{
  FlagOwner, EdgeInput, Attempt, and_then, checked, retires, check_survivors, retire_owner,
  kill_owner, finish_owner, allocate_owner, advance,
}

retire_owner-raise :
    (retired : Bool) (s : FlagOwner) {e : FlagError}
    → (retire_owner retired s).1 ≡ raise e
    → (retire_owner retired s).0 ≡ s
unfolding retire_owner
retire_owner-raise false s h = refl
retire_owner-raise true s h = ground arith

retire_owner-has :
    (retired : Bool) (s : FlagOwner)
    → has (retire_owner retired s).0.owner ≡ true
    → (retire_owner retired s).0 ≡ s
unfolding retire_owner
retire_owner-has false s h = refl
retire_owner-has true s h = ground arith

kill_owner-has :
    (o : Option (List OwnerTag)) (s : FlagOwner)
    → has (kill_owner o s).0.owner ≡ true
    → (kill_owner o s).0 ≡ s
unfolding kill_owner
kill_owner-has none s h = refl
kill_owner-has (some ts) s h = ground arith

allocate_owner-raise :
    (pre_busy recovery : Bool) (o : Option AllocationRequest) (s : FlagOwner) {e : FlagError}
    → (allocate_owner pre_busy recovery o s).1 ≢ raise e
unfolding allocate_owner make_captured
allocate_owner-raise pre_busy recovery none s h = cc
allocate_owner-raise pre_busy recovery (some r) s h = ground arith

finish_owner-raise :
    (f : Option (OwnerTag × CompletionPayload)) (s : FlagOwner) {e : FlagError}
    → (finish_owner f s).1 ≡ raise e
    → ((finish_owner f s).0 ≡ s) × (has s.owner ≡ true)
unfolding finish_owner
finish_owner-raise none s h = cc
finish_owner-raise (some (tag, y)) s h = ground arith

and_then-raise :
    {A B : Type 0} (s : FlagOwner) (a : Attempt A) (next : FlagOwner → A → Attempt B)
    {e : FlagError}
    → ((d : FlagError) → a.1 ≡ raise d → a.0 ≡ s)
    → ((x : A) → (next a.0 x).1 ≡ raise e → (next a.0 x).0 ≡ s)
    → (and_then a next).1 ≡ raise e
    → (and_then a next).0 ≡ s
and_then-raise s (n, ok x) next fails goes h = goes x h
and_then-raise s (n, raise e) next fails goes h = fails _ refl

checked-raise :
    {A B : Type 0} (s : FlagOwner) (r : Result FlagError A) (next : A → Attempt B) {e : FlagError}
    → ((x : A) → (next x).1 ≡ raise e → (next x).0 ≡ s)
    → (checked s r next).1 ≡ raise e
    → (checked s r next).0 ≡ s
checked-raise s (ok x) next goes h = goes x h
checked-raise s (raise e) next goes h = refl

kept_owner :
    (retired : Bool) (o : Option (List OwnerTag)) (s : FlagOwner)
    → has (kill_owner o (retire_owner retired s).0).0.owner ≡ true
    → (kill_owner o (retire_owner retired s).0).0 ≡ s
kept_owner retired o s h =
    let same = kill_owner-has o (retire_owner retired s).0 h in
    same ∙ retire_owner-has retired s (ap (λ (n : FlagOwner). has n.owner) (sym same) ∙ h)

-- Where an edge raises, whichever check it fails, the state, the owner and its result are those from before
-- the edge, in every state: no retirement, kill, finish or allocation is left half done.
pub advance_unchanged :
    (s : FlagOwner) (i : EdgeInput) {e : FlagError}
    → (advance s i).1 ≡ raise e
    → (advance s i).0 ≡ s
unfolding advance
advance_unchanged s i =
    let retired = retires i.retire s in
    let r = retire_owner retired s in
    checked-raise s (check_survivors i.survivors retired s) _ (λ u.
      and_then-raise s r _ (λ d. retire_owner-raise retired s)
        (λ u1.
          let k = kill_owner i.survivors r.0 in
          and_then-raise s (finish_owner i.finish k.0) _
            (λ d h.
              let f = finish_owner-raise i.finish k.0 h in
              f.0 ∙ kept_owner retired i.survivors s f.1)
            (λ finished.
              and_then-raise s
                (allocate_owner (has s.owner) (has i.survivors) i.allocate
                  (finish_owner i.finish k.0).0)
                _
                (λ d h. absurd (
                  allocate_owner-raise (has s.owner) (has i.survivors) i.allocate
                    (finish_owner i.finish k.0).0 h))
                (λ r h. cc))))
