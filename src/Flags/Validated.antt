-- ===== src/Flags/Validated.antt =====
-- The prepared packets validate against what their allocations have captured.
use slo_ppc.Prelude.{
  ℕ, zero, suc, ◌^◌, ◌<◌, ◌≡◌, refl, arith, ap, Bool, true, false, not, ◌||◌, ok, max,
  if◌then◌else◌, bit_and,
}
use slo_ppc.Bits.{bit_or_bits}
use slo_ppc.Integer.Word.{truthy, relation}
use slo_ppc.Integer.Word.Laws.{relation_lem}
use slo_ppc.Integer.Add.{AddFamily, AddFlags, AddResult, add_result, is_add}
use slo_ppc.Integer.Add
use slo_ppc.Integer.Add.Laws.{evaluate_iff, int_lt}
use slo_ppc.Integer.Add.Flags.{sign_relation, add_flags, so_lt, value_lt}
use slo_ppc.Flags.State.{
  WritePermissions, make_permissions, CompletionPayload, make_payload, CapturedAllocation,
  validate_completion, expected_relation,
}
use slo_ppc.Flags.Prepare.{PreparedOperation, prepared, check_flag, reads_ca, prepare_add}

-- What a payload must be for an allocation that captured `so_in`.
pub record IsValid (p : WritePermissions) (so_in : ℕ) (y : CompletionPayload) : Type 0 where
  pub word : y.value < 2 ^ 32
  pub ov_bit : y.ov < 2
  pub so_bit : y.so < 2
  pub in_bit : so_in < 2
  pub so_rule : p.write_ov_so ≡ true → y.so ≡ max so_in y.ov
  pub so_kept : p.write_ov_so ≡ false → y.so ≡ so_in
  pub cr0_rule : p.write_cr_field ≡ true → y.cr0 ≡ sign_relation y.value y.so

cr0_parts :
    (value so : ℕ)
    → value < 2 ^ 32
    → so < 2
    → (bit_and (sign_relation value so) 0xE ≡ expected_relation value)
      × (bit_and (sign_relation value so) 1 ≡ so)
unfolding relation
cr0_parts value zero h k = ground (arith, relation_lem value h)
cr0_parts value (suc zero) h k = ground (arith, relation_lem value h)
cr0_parts value (suc (suc so)) h k = absurd (omega arith)

validates :
    (a : CapturedAllocation) (y : CompletionPayload)
    → IsValid a.request.permissions a.so_in y
    → validate_completion a y ≡ ok tt
unfolding validate_completion
validates a y v = ground (
  arith,
  bit_or_bits a.so_in y.ov v.in_bit v.ov_bit,
  cr0_parts y.value y.so v.word v.so_bit,
  v.so_rule,
  v.so_kept,
  v.cr0_rule,
  ap (λ (t : ℕ). bit_and t 0xE) {x = y.cr0} {y = sign_relation y.value y.so},
  ap (λ (t : ℕ). bit_and t 1) {x = y.cr0} {y = sign_relation y.value y.so},
)

-- Flags that are digits, and a word: what the constructor of a payload asks for.
make_payload-ok :
    (y : CompletionPayload)
    → y.value < 2 ^ 32
    → y.ca < 2
    → y.ov < 2
    → y.so < 2
    → y.cr0 < 16
    → make_payload y ≡ ok y
unfolding make_payload
make_payload-ok y a b c d e = ground arith

abbrev add_permissions : AddFamily → AddFlags → WritePermissions
add_permissions family f = record {
  read_ca = reads_ca family;
  read_so = truthy f.oe || truthy f.rc;
  write_ca = not (is_add family);
  write_ov_so = truthy f.oe;
  write_cr_field = truthy f.rc;
}

abbrev add_payload : AddResult → CompletionPayload
add_payload r = record { value = r.value; ca = r.ca; ov = r.ov; so = r.so; cr0 = r.cr0 }

if_bit : (t : Bool) (x y : ℕ) → x < 2 → y < 2 → (if t then x else y) < 2
if_bit true x y h k = h
if_bit false x y h k = k

ca_bit : (family : AddFamily) (a b : ℕ) (f : AddFlags) → f.ca < 2 → (add_result family a b f).ca < 2
unfolding add_result
ca_bit family a b f h = if_bit (is_add family) _ _ h (int_lt _)

ov_bit :
    (family : AddFamily) (a b : ℕ) (f : AddFlags) → f.old_ov < 2 → (add_result family a b f).ov < 2
unfolding add_result
ov_bit family a b f h = if_bit (truthy f.oe) _ _ (int_lt _) h

cr0_nibble :
    (family : AddFamily) (a b : ℕ) (f : AddFlags)
    → Add.Laws.IsFlags f
    → (add_result family a b f).cr0 < 16
cr0_nibble family a b f h =
    ground (arith, (add_flags family a b f h).2, so_lt family a b f h, h.cr0_nibble)

-- The checks of the two records pass.
prepared-ok :
    (p : WritePermissions) (y : CompletionPayload)
    → make_permissions p ≡ ok p
    → make_payload y ≡ ok y
    → prepared p y ≡ ok (record { permissions = p; payload = y })
unfolding prepared
prepared-ok p y h k = rw h (rw k refl)

permissions_ok :
    (family : AddFamily) (f : AddFlags)
    → make_permissions (add_permissions family f) ≡ ok (add_permissions family f)
unfolding make_permissions
permissions_ok family f = ground arith

checked_flag : (v : ℕ) → v < 2 → check_flag v ≡ ok v
unfolding check_flag
checked_flag v h = ground arith

prepare_add-eq :
    (family : AddFamily) (a b : ℕ) (f : AddFlags)
    → Add.Laws.IsFlags f
    → prepare_add family a b f
      ≡ ok (record {
        permissions = add_permissions family f;
        payload = add_payload (add_result family a b f);
      })
unfolding prepare_add
prepare_add-eq family a b f h = rw (checked_flag f.oe h.oe_bit) (
    rw (checked_flag f.rc h.rc_bit) (
      rw (checked_flag f.ca h.ca_bit) (
        rw (checked_flag f.old_ov h.ov_bit) (
          rw (checked_flag f.old_so h.so_bit) (
            rw ((evaluate_iff family a b f).1 h) (
              prepared-ok (add_permissions family f) (add_payload (add_result family a b f))
                (permissions_ok family f)
                (make_payload-ok _ (value_lt family a b f) (ca_bit family a b f h.ca_bit)
                  (ov_bit family a b f h.ov_bit) (so_lt family a b f h)
                  (cr0_nibble family a b f h))))))))

add_packet-IsValid :
    (family : AddFamily) (a b : ℕ) (f : AddFlags)
    → Add.Laws.IsFlags f
    → IsValid (add_permissions family f) f.old_so (add_payload (add_result family a b f))
add_packet-IsValid family a b f h = record {
  word = value_lt family a b f;
  ov_bit = ov_bit family a b f h.ov_bit;
  so_bit = so_lt family a b f h;
  in_bit = h.so_bit;
  so_rule = λ t. ground (arith, add_flags family a b f h, h.oe_bit);
  so_kept = λ t. ground (arith, add_flags family a b f h, h.oe_bit);
  cr0_rule = λ t. ground (arith, add_flags family a b f h, h.rc_bit);
}

-- From flags that are digits, `prepare_add` makes a packet that every allocation with the packet's
-- permissions and with the SO the packet was computed from validates.
pub prepare_add-validates :
    (family : AddFamily) (a b : ℕ) (f : AddFlags)
    → Add.Laws.IsFlags f
    → (op : PreparedOperation) × (prepare_add family a b f ≡ ok op)
      × ((c : CapturedAllocation)
          → c.request.permissions ≡ op.permissions
          → c.so_in ≡ f.old_so
          → validate_completion c op.payload ≡ ok tt)
prepare_add-validates family a b f h = (
  record {
    permissions = add_permissions family f;
    payload = add_payload (add_result family a b f);
  },
  prepare_add-eq family a b f h,
  λ c e k.
      validates c (add_payload (add_result family a b f))
        (rw e (rw k (add_packet-IsValid family a b f h))),
)
