-- ===== src/Perf/Memory.antt =====
-- `gpr_sym`, `track` and `written` of `schedule` of sim/tools/perf_model_603e.py: the addresses of loads and stores, as
-- far as they derive from one register.
use slo_ppc.Prelude.{
  ℕ, ◌+◌, max, bit_and, not, ◌&&◌, ltb, List, [], ◌∷◌, take, Option, none, some, ◌==◌,
  if◌then◌else◌,
}
use slo_ppc.Prelude.Int.{pos, ◌+ℤ◌}
use slo_ppc.Integer.Word.{masked, truthy}
use slo_ppc.Recovery.Dict.{get, put, nat_eq}
use slo_ppc.Dispatch.Classify.{opcode}
use slo_ppc.Perf.Insn.{Insn, sext}
use slo_ppc.Perf.Fields.{rd, ra, rb, xo10}
use slo_ppc.Perf.Model.{Symbolic, Symbols, Stored, access_bytes}

-- A register that is written with an unknown value gets a fresh root.
unfoldable pub renew : ℕ → Symbols → Symbols
renew g s = let root = s.fresh + 1 in record { known = put g (root, 0) s.known; fresh = root }

-- `gpr_sym(g)`.
unfoldable pub gpr_sym : ℕ → Symbols → Symbolic × Symbols
unfolding renew
gpr_sym g s = elim (get g s.known) [ some v ↦ (v, s) | none ↦ ((s.fresh + 1, 0), renew g s) ]

-- `off + sext(word & 0xFFFF, 16) & 0xFFFFFFFF`.
unfoldable pub displaced : Symbolic → ℕ → Symbolic
displaced (root, off) word = (root, masked (pos off +ℤ sext (bit_and word 0xFFFF) 16))

-- The wait on the stores that an access overlaps.
unfoldable pub store_wait : ℕ → ℕ → ℕ → List Stored → ℕ
store_wait root lo hi [] = 0
store_wait root lo hi (t ∷ ts) =
    let rest = store_wait root lo hi ts in
    if (t.root == root) && (ltb t.low hi && ltb lo t.high) then max (t.completed + 1) rest else rest

-- `track(ins, word)`, with the registers that it names.
unfoldable pub track : Insn → List Stored → Symbols → Option Symbolic × ℕ × Symbols
unfolding gpr_sym displaced store_wait
track ins stores s =
    let word = ins.word in
    let n = access_bytes word in
    let (base, named) = if truthy (ra word) then gpr_sym (ra word) s else ((0, 0), s) in
    let (root, lo) = displaced base word in
    if truthy n
    then (some (root, lo), if ins.load then store_wait root lo (lo + n) stores else 0, named)
    else (none, 0, s)

-- The stores that `written` keeps, the last eight.
unfoldable pub stores_after : Insn → Option Symbolic → ℕ → List Stored → List Stored
stores_after ins none c stores = stores
stores_after ins (some (root, lo)) c stores =
    if ins.store
    then take 8 (
        record { root = root; low = lo; high = lo + access_bytes ins.word; completed = c } ∷ stores)
    else stores

-- An update form writes its address.
unfoldable pub update_symbol : ℕ → Insn → Option Symbolic → Symbols → Symbols
unfolding renew
update_symbol g ins none s = renew g s
update_symbol g ins (some ea) s =
    if (g == ra ins.word) && not (ra ins.word == rd ins.word)
    then record s { known = put g ea s.known }
    else renew g s

-- The value of one register that an instruction writes.
unfoldable pub written_symbol : ℕ → Insn → Option Symbolic → Symbols → Symbols
unfolding gpr_sym displaced update_symbol
written_symbol g ins ea s =
    let word = ins.word in
    let copied = gpr_sym (ra word) s in
    let moved = gpr_sym (rd word) s in
    if (opcode word == 14) && (truthy (ra word) && (g == rd word))
    then record (copied.1) { known = put g (displaced copied.0 word) copied.1.known }
    else if (opcode word == 31) && ((xo10 word == 444) && ((rd word == rb word) && (g == ra word)))
    then record (moved.1) { known = put g moved.0 moved.1.known }
    else update_symbol g ins ea s

-- The loop of `written`. The order of the registers only numbers the roots.
unfoldable pub written : List ℕ → Insn → Option Symbolic → Symbols → Symbols
unfolding written_symbol
written [] ins ea s = s
written (g ∷ gs) ins ea s = written gs ins ea (written_symbol g ins ea s)
