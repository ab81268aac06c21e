-- ===== src/Recovery/Edge.antt =====
-- `RecoveryModel.step`: the phases in the order of the code.
use slo_ppc.Prelude.{
  ℕ, Bool, true, false, Option, none, some, [], Result, ok, ◌>>=◌, ◌>>◌, require, ltb,
}
use slo_ppc.Recovery.Dict.{has}
use slo_ppc.Recovery.State.{
  Error, value_error, assertion_error, Producer, unknown, Events, Model, candidate,
}
use slo_ppc.Recovery.Step.{
  Input, decide, killed_of, redirected, finished, may_retire, retired_head, issued, free_rename,
  may_allocate, allocated, mapped,
}
use slo_ppc.Recovery.Check.{check_invariants}

-- `dst is None or 0 <= dst < 32`.
abbrev pub dst_valid : Option ℕ → Bool
dst_valid none = true
dst_valid (some r) = ltb r 32

abbrev pub producer_valid : Producer → Bool
producer_valid unknown = false
producer_valid _ = true

abbrev pub rebuild : Model → Model
rebuild m = record m { mapping = mapped m.entries [] }

-- The edge from checked arguments, up to the check of the invariants.
unfoldable pub edge : Model → Input → Result Error (Model × Events)
edge m i =
    let cut = decide i.redirect m.entries in
    let (finishes, done_tag) = finished i.result m.tokens (redirected m cut) in
    let retires = may_retire m.entries cut.survivors i.retire_ready in
    let (retired, commit) = retired_head retires finishes.entries finishes in
    let (issues, issue_accepted) = issued i.issue i.producer_kind retired in
    do
      tag ← candidate issues
      let free = free_rename m.rename_depth 0 m.entries
      let allows = may_allocate i cut.accepted tag free m.entries m m.tokens
      let allocates = allocated allows i tag free issues
      ok (
        rebuild allocates.0,
        record {
          allocated = allocates.1;
          finished = done_tag;
          committed = commit;
          killed = killed_of m.entries cut.survivors;
          redirect_accepted = cut.accepted;
          redirect_rejected = cut.rejected;
          issue_accepted = issue_accepted;
          result_consumed = has i.result;
        },
      )

unfoldable pub step : Model → Input → Result Error (Model × Events)
step m i = do
  require (dst_valid i.dst) value_error
  require (producer_valid i.producer_kind) value_error
  r ← edge m i
  require (check_invariants r.0) assertion_error
  ok r
