-- ===== src/Flags/Prepare.antt =====
-- `prepare_add`, `prepare_shift`, `prepare_logical` and `check_commit_transition` of sim/tools/flag_state.py:
-- a result of an instruction family with the write permissions of its form.
use slo_ppc.Prelude.{
  ℕ, Bool, true, false, not, ◌&&◌, ◌||◌, List, [], ◌∷◌, Result, ok, raise, ◌>>=◌, require, leb,
  ◌==◌, if◌then◌else◌,
}
use slo_ppc.Integer.Word.{truthy}
use slo_ppc.Integer.Word
use slo_ppc.Integer.Add.{AddFamily, add, addc, adde, addme, addze, AddFlags, is_add}
use slo_ppc.Integer.Add
use slo_ppc.Integer.Shift.{ShiftFamily, slw, srw, sraw, srawi, ShiftFlags}
use slo_ppc.Integer.Shift
use slo_ppc.Integer.Logical.{LogicalFamily, LogicalFlags}
use slo_ppc.Integer.Logical
use slo_ppc.Flags.State.{
  FlagError, flag_state_error, value_error, WritePermissions, make_permissions, CompletionPayload,
  make_payload, ArchitecturalState, CommitPacket, apply_commit,
}

-- A call of a family's reference, whose `ValueError` goes on.
abbrev pub from_family : {A : Type 0} → Result Word.Error A → Result FlagError A
from_family (ok a) = ok a
from_family (raise e) = raise value_error

unfoldable pub check_flag : ℕ → Result FlagError ℕ
check_flag value = if leb value 1 then ok value else raise flag_state_error

pub record PreparedOperation : Type 0 where
  pub permissions : WritePermissions
  pub payload : CompletionPayload

-- `PreparedOperation(permissions, CompletionPayload(...))`, with the checks of the two.
unfoldable pub prepared : WritePermissions → CompletionPayload → Result FlagError PreparedOperation
prepared p y = do
  permissions ← make_permissions p
  payload ← make_payload y
  ok (record { permissions = permissions; payload = payload })

-- `family in {"adde", "addme", "addze"}`.
unfoldable pub reads_ca : AddFamily → Bool
reads_ca add = false
reads_ca addc = false
reads_ca _ = true

unfoldable pub prepare_add : AddFamily → ℕ → ℕ → AddFlags → Result FlagError PreparedOperation
unfolding check_flag prepared reads_ca
prepare_add family a b f = do
  oe ← check_flag f.oe
  rc ← check_flag f.rc
  ca_in ← check_flag f.ca
  ov_in ← check_flag f.old_ov
  so_in ← check_flag f.old_so
  r ← from_family (
      Add.evaluate family a b (record {
        ca = ca_in;
        oe = oe;
        rc = rc;
        old_ov = ov_in;
        old_so = so_in;
        old_cr0 = f.old_cr0;
      }))
  prepared
      (record {
        read_ca = reads_ca family;
        read_so = truthy oe || truthy rc;
        write_ca = not (is_add family);
        write_ov_so = truthy oe;
        write_cr_field = truthy rc;
      })
      (record { value = r.value; ca = r.ca; ov = r.ov; so = r.so; cr0 = r.cr0 })

-- `family in {"sraw", "srawi"}`.
unfoldable pub writes_ca : ShiftFamily → Bool
writes_ca slw = false
writes_ca srw = false
writes_ca _ = true

unfoldable pub prepare_shift : ShiftFamily → ℕ → ℕ → ShiftFlags → Result FlagError PreparedOperation
unfolding check_flag prepared writes_ca
prepare_shift family source count f = do
  rc ← check_flag f.rc
  r ← from_family (Shift.evaluate family source count f)
  prepared
      (record {
        read_ca = false;
        read_so = truthy rc;
        write_ca = writes_ca family;
        write_ov_so = false;
        write_cr_field = truthy rc;
      })
      (record { value = r.value; ca = r.ca; ov = r.ov; so = r.so; cr0 = r.cr0 })

unfoldable pub prepare_logical :
    LogicalFamily → ℕ → ℕ → LogicalFlags → Result FlagError PreparedOperation
unfolding check_flag prepared
prepare_logical family source operand f = do
  rc ← check_flag f.rc
  r ← from_family (Logical.evaluate family source operand f)
  prepared
      (record {
        read_ca = false;
        read_so = truthy rc;
        write_ca = false;
        write_ov_so = false;
        write_cr_field = truthy rc;
      })
      (record { value = r.value; ca = r.ca; ov = r.ov; so = r.so; cr0 = r.cr0 })

unfoldable pub same_words : List ℕ → List ℕ → Bool
same_words [] [] = true
same_words (v ∷ vs) (w ∷ ws) = (v == w) && same_words vs ws
same_words _ _ = false

-- `after != expected` of two states, turned round.
unfoldable pub same_state : ArchitecturalState → ArchitecturalState → Bool
unfolding same_words
same_state s t = (s.cr == t.cr) && ((s.xer == t.xer) && same_words s.gprs t.gprs)

unfoldable pub check_commit_transition :
    ArchitecturalState → CommitPacket → ArchitecturalState → Result FlagError (Unit {0})
unfolding same_state
check_commit_transition before packet after = do
  expected ← apply_commit before packet
  require (same_state after expected) flag_state_error
