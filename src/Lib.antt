-- ===== src/Lib.antt =====
-- SloPPC603 is a PowerPC 603e core in SystemVerilog. The Python under sim/ holds the reference models that
-- say what parts of the core are to do. This library models those references and verifies them.
--
-- Parts and files:
--   - Integer is the reference of the integer instructions: Integer/Add is sim/tools/add_family.py,
--     Integer/Shift is sim/tools/shift_family.py, Integer/Rotate is sim/tools/rotate_family.py,
--     Integer/Compare is sim/tools/compare_family.py and Integer/Logical is sim/tools/logical_family.py.
--     Each file has `evaluate` and `encode` of the code. Integer/Word has what the five files repeat: the
--     mask, the argument checks, the sign and the CR0 of a record form. The children have the proofs.
--   - Recovery is sim/recovery/model.py. Recovery/State has the records and `reset`, `candidate` and
--     `operand` of `RecoveryModel`; Recovery/Step has the phases of its `step` in their order, Recovery/Check
--     has `check_invariants`, and Recovery/Edge puts them together as `step`. Recovery/Fetch is
--     `FetchDrainModel`. Recovery/Invariant has the invariant of the queue; Cutting, Slots, Tokens, Phases,
--     Owners, Ends, Allocation, Pigeonhole and Sound have the lemmas of the phases, and Safety, Effects,
--     Owning, Operand and Stream what they add up to.
--   - Flags is sim/tools/flag_state.py. Flags/State has the records, with the checks of their constructors as
--     `make_` functions, `apply_commit` and `validate_completion`. Flags/Prepare has `prepare_add`,
--     `prepare_shift`, `prepare_logical` and `check_commit_transition`, and Flags/Validated what a prepared
--     packet keeps to. Flags/Owner has `FlagOwnerModel.advance`, whose
--     result carries the object's state also when it raises. Flags/Errors has the edges that
--     raise, and Flags/Commit and Flags/Sticky the SO bit.
--   - Fpu is sim/fpu/reference.py. Fpu/Format has `Format` and `decode`, Fpu/Round `rounded_integer`, `pack`
--     and `pack_ratio`, and Fpu/Calculate `calculate` and `calculate_fma`, with a function for each operation.
--     Fpu/Powerpc and Fpu/Arithmetic are sim/fpu/ppc_reference.py, which is built on it: Powerpc has
--     `classify`, `_unbounded_round` and `_finite`, and Arithmetic the phases of `arithmetic` in their order.
--     Fpu/Rounding, Length and Encoding have the proofs on packing, Fpu/Agreement and Refinement those that
--     relate the two files, and Fpu/Reports those on what an operation reports.
--   - Dispatch is of sim/tools/check_dispatch_trace.py: Dispatch/Classify is its `classify`, and Dispatch/Operands
--     `cr_field`, `serial_gpr`, `gpr_reads`, `gpr_writes` and `fetch_stop`. The rest is its class `Rules`:
--     Dispatch/Rules its state, Dispatch/Retire the retirements of `event`, Dispatch/Stops `fetch_stops`,
--     Dispatch/Recoveries `wrong_path` and `mispredict_floor`, Dispatch/Pairs the rules of pairs,
--     Dispatch/Occupancy `occupancy`, and Dispatch/Event `event` and the loop of `check_rules` over events. A
--     reference to an entry is its sequence number, and the stream has its newest element first. A broken rule
--     ends the check, so that no state is left after one. Inversion, Found, Retirements and Oldest have the
--     proofs on retirements, Untouched what a dispatch and a recovery leave as it is, Counts, Known, Accounts
--     and Limits those on what becomes of every dispatched instruction and on occupancy,
--     Numbered, Serial and Alone those on serialized instructions, and Moves those on the moves of registers.
--   - Bus is of sim/tools/bus_decode.py: Bus/Patterns has `_bits`, `_pattern`, `pattern_matches` and
--     `expand_pattern`, Bus/Table the loop of `validate` over the rows and the search of `decode_tt`, and
--     Bus/Expansion and Bus/Cover the proofs. The table is a JSON file; its rows are an argument.
--   - Perf is sim/tools/perf_model_603e.py, the cycle model of a 603e. Perf/Insn, Fields, Extended and Decode are the
--     class `Insn`, `sext` and `significant_bytes`; Perf/Model has the variables of `schedule` as a record and
--     `access_bytes`, Perf/Memory `gpr_sym`, `track` and `written`, Perf/Slots `dispatch_cycle`, Perf/Fetch and
--     Perf/Branch the fetch and the branches of its loop with `predict_taken`, Perf/Execute the other
--     instructions, and Perf/Schedule puts them together. The names in `core` are a record of Booleans, so that
--     every rule of `CORE_RULES` is there. Perf/Order says what a schedule keeps to; Search, Keeps, Units, Window,
--     Keeping and Ordered have the proofs of it, Progress, Fetching and Total those that the loops end, Shape,
--     Decoded and Words those on the decoder, and Bytes that on `significant_bytes`.
--   - Bits has the laws of `&` and `|` on natural numbers, and of digits.
--   - Prelude has the shared names, Boolean tests, lists, integers and the result type.
--   - Examples has the tests and a concrete instance of the theorems.
--
-- How the code is translated:
--   - A Python integer is a natural number where the code checks or masks it, and an integer (Prelude/Int)
--     where it can be negative. `& MASK32` is written out, so nothing wraps by itself. `x & ~m` is `x` less
--     `x & m`, and `~n` of an unbounded integer is `negsuc n`.
--   - An exception is `raise` of a constructor. An assertion of `check_invariants` is `assertion_error`,
--     a missing list index is `index_error`, and `next` without a match is `stop_iteration`.
--   - A string that selects a form or a kind is a constructor, so that an unknown family cannot be written;
--     `unknown` is any other kind of producer.
--   - An object that a method changes is a record that a function takes and returns. A Python dictionary is
--     an association list in which a key stands once.
--   - The copies of entries that `step` makes are values here. The order of its phases is kept: each reads
--     the state before the edge or the state so far, as the code does.
--   - The loop of `ppc_mask` runs on a fuel of 32. The index goes round modulo 32, so that it meets `me`
--     within that many rounds, as is proved below.
--   - The loops `while True` of `schedule` run on a fuel that reaches past every cycle that an instruction so far
--     has, and past the starts of the units: nothing is in flight then. A loop that runs out of it is `none`, and so
--     is the schedule. That happens for an instruction with more than five results only, as is proved below.
--   - `bit_length` halves its number on a fuel of the number itself, which is enough as a half is smaller.
--
-- Not modelled: of sim/tools/check_dispatch_trace.py the reading of traces and images (`parse`,
-- `parse_line`, `read_image`), `compare`, `stage_events` and `main`; of sim/tools/bus_decode.py the rest
-- of `validate` and of the queries; of sim/tools/perf_model_603e.py the reading of traces with
-- `branch_targets` and `removed_path`, and the report; the other vector and bus tables; the lists of test
-- vectors `anchor_vectors`, the unit tests, the writers of vectors and programs, the drivers of simulators
-- and emulators, the text checks of logs and sources, and the RTL.
pub mod Prelude
pub mod Bits
pub mod Integer
pub mod Recovery
pub mod Flags
pub mod Fpu
pub mod Dispatch
pub mod Bus
pub mod Perf
pub mod Examples
