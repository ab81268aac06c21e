-- ===== src/Examples/Flags.antt =====
-- The theorems on `FlagOwnerModel` at a concrete owner.
use slo_ppc.Prelude.{◌≡◌, ◌≤◌, arith, refl, true, false, none, some, ok, raise, replicate}
use slo_ppc.Integer.Add.{add, AddFlags}
use slo_ppc.Flags.Prepare.{PreparedOperation, prepare_add}
use slo_ppc.Flags.Validated.{prepare_add-validates}
use slo_ppc.Flags.State.{flag_state_error, OwnerTag, CapturedAllocation, validate_completion}
use slo_ppc.Flags.Owner.{
  FlagOwner, EdgeInput, retires, check_survivors, retire_owner, kill_owner, finish_owner, advance,
}
use slo_ppc.Flags.Commit.{Holds, so_of}
use slo_ppc.Flags.Sticky.{advance_sticky}
use slo_ppc.Flags.Errors.{advance_unchanged}

abbrev slot_two : OwnerTag
slot_two = record { index = 2; generation = 7 }

-- An `addo.` that has captured SO.
abbrev recording : CapturedAllocation
recording = record {
  request = record {
    tag = slot_two;
    permissions = record {
      read_ca = false;
      read_so = true;
      write_ca = false;
      write_ov_so = true;
      write_cr_field = true;
    };
    gpr_write = true;
    gpr = 3;
  };
  ca_in = 0;
  so_in = 1;
}

abbrev owned : FlagOwner
owned = record {
  state = record { cr = 0; xer = 0x8000_0000; gprs = replicate 32 0 };
  owner = some recording;
  completion = none;
}

-- A result that would clear SO.
abbrev clearing : EdgeInput
clearing = record {
  retire = none;
  finish = some (slot_two, record { value = 1; ca = 0; ov = 0; so = 0; cr0 = 4 });
  allocate = none;
  survivors = none;
}

clearing_raises : (advance owned clearing).1 ≡ raise flag_state_error
unfolding advance retires check_survivors retire_owner kill_owner finish_owner validate_completion
clearing_raises = refl

advance_unchanged_example : (advance owned clearing).0 ≡ owned
advance_unchanged_example = advance_unchanged owned clearing clearing_raises

owned-Holds : Holds owned
owned-Holds = record { captured = refl; stored = tt }

-- A result that keeps SO.
abbrev keeping : EdgeInput
keeping = record clearing {
  finish = some (slot_two, record { value = 1; ca = 0; ov = 0; so = 1; cr0 = 5 });
}

advance_sticky_example :
    Holds (advance owned keeping).0 × (so_of owned.state ≤ so_of (advance owned keeping).0.state)
advance_sticky_example =
    advance_sticky owned keeping owned-Holds
      (record { ca_bit = omega arith; ov_bit = omega arith; so_bit = omega arith })

-- The arguments of an `addo.` whose sum overflows.
abbrev overflowing : AddFlags
overflowing = record { ca = 0; oe = 1; rc = 1; old_ov = 0; old_so = 0; old_cr0 = 0 }

prepare_add-validates_example :
    (op : PreparedOperation) × (prepare_add add 0x7FFF_FFFF 1 overflowing ≡ ok op)
    × ((c : CapturedAllocation)
        → c.request.permissions ≡ op.permissions
        → c.so_in ≡ 0
        → validate_completion c op.payload ≡ ok tt)
prepare_add-validates_example = prepare_add-validates add 0x7FFF_FFFF 1 overflowing (record {
  ca_bit = omega arith;
  oe_bit = omega arith;
  rc_bit = omega arith;
  ov_bit = omega arith;
  so_bit = omega arith;
  cr0_nibble = omega arith;
})
