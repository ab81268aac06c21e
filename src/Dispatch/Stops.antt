-- ===== src/Dispatch/Stops.antt =====
-- `fetch_stops`, `wrong_path` and `mispredict_floor` of `Rules` of sim/tools/check_dispatch_trace.py. The `stream` has its newest
-- element first.
use slo_ppc.Prelude.{
  ℕ, zero, suc, ◌+◌, Bool, true, false, not, ◌&&◌, ◌||◌, List, [], ◌∷◌, ◌++◌, get_elem?, Option,
  none, some, ok, ◌>>◌, leb, ◌==◌, if◌then◌else◌,
}
use slo_ppc.Integer.Word.{truthy}
use slo_ppc.Dispatch.Classify.{InsnClass}
use slo_ppc.Dispatch.Operands.{StopKind, execute, fetch_stop, has_branch, is_b, is_bclr, is_bcctr}
use slo_ppc.Dispatch.Rules.{
  Checked, Dispatched, Entry, LrWait, Rules, Stop, blocking, demand, is_flushed, when_known,
}

unfoldable pub held_stops : List Entry → List Stop → List Stop
unfolding blocking
held_stops inflight [] = []
held_stops inflight (t ∷ ts) =
    let rest = held_stops inflight ts in if blocking t.older inflight then t ∷ rest else rest

-- The waits of this dispatch, which end with it.
unfoldable pub targets_kept : ℕ → ℕ → ℕ → List LrWait → Bool
targets_kept cycle pc order [] = true
targets_kept cycle pc order (w ∷ ws) =
    elim w.retired [
      | none ↦ true
      | some at ↦ (not (w.order == order) || (pc == w.pc + 4)) || leb (at + 2) cycle
    ]
    && targets_kept cycle pc order ws

unfoldable pub other_waits : ℕ → List LrWait → List LrWait
other_waits order [] = []
other_waits order (w ∷ ws) =
    let rest = other_waits order ws in if w.order == order then rest else w ∷ rest

-- `any(e[2] <= seq and not e[3] for e in self.inflight)`.
unfoldable pub older_live : ℕ → List Entry → Bool
older_live seq [] = false
older_live seq (e ∷ es) = (leb e.seq seq && not (is_flushed e.flush)) || older_live seq es

unfoldable pub held_removed : List Entry → List (ℕ × ℕ) → List (ℕ × ℕ)
unfolding older_live
held_removed inflight [] = []
held_removed inflight (r ∷ rs) =
    let rest = held_removed inflight rs in if older_live r.0 inflight then r ∷ rest else rest

abbrev pub is_empty : {A : Type 0} → List A → Bool
is_empty [] = true
is_empty (x ∷ xs) = false

abbrev pub writes_lr : InsnClass → Bool
writes_lr c = truthy c.writes.lr

-- The state without the stops and waits that are over.
unfoldable pub settle_stops : Option InsnClass → Rules → Rules
unfolding held_stops other_waits held_removed
settle_stops c s = record s {
  stops = held_stops s.inflight s.stops;
  lr_waits = other_waits s.order s.lr_waits;
  lr_retired = if when_known writes_lr c then none else s.lr_retired;
  removed_lk = held_removed s.inflight s.removed_lk;
  removed_ctr = held_removed s.inflight s.removed_ctr;
}

-- The youngest entry that a branch waits for.
unfoldable pub youngest_stop : InsnClass → List Entry → Option (Entry × StopKind)
unfolding fetch_stop
youngest_stop c [] = none
youngest_stop c (e ∷ es) =
    let own : Option (Entry × StopKind) = elim e.class [
      | none ↦ none
      | some older ↦
          if is_flushed e.flush
          then none
          else elim (fetch_stop older c) [ none ↦ none | some kind ↦ some (e, kind) ]
    ] in
    elim (youngest_stop c es) [ none ↦ own | some found ↦ some found ]

abbrev pub is_execute : StopKind → Bool
is_execute execute = true
is_execute _ = false

-- The wait of a bclr for the mtspr that retired last.
unfoldable pub retired_wait : ℕ → ℕ → ℕ → InsnClass → Option (ℕ × ℕ) → List LrWait
unfolding is_bclr
retired_wait cycle order pc c none = []
retired_wait cycle order pc c (some (at, move_pc)) =
    if is_bclr c
    then record {
      move_pc = move_pc;
      order = order;
      pc = pc;
      cycle = cycle;
      retired = some at;
      entry = none;
    }
      ∷ []
    else []

unfoldable pub wait_retired : ℕ → ℕ → InsnClass → Rules → Rules
unfolding retired_wait
wait_retired cycle pc c s = record s {
  lr_waits = s.lr_waits ++ retired_wait cycle (s.order + 1) pc c s.lr_retired;
}

-- The stop of a branch, on the youngest entry that it waits for.
unfoldable pub add_stop : ℕ → ℕ → Bool → Option (Entry × StopKind) → Rules → Checked Rules
add_stop cycle pc gone none s = ok s
add_stop cycle pc gone (some (e, kind)) s = do
  demand (not gone || is_execute kind)
  ok (record s {
    lr_waits =
        if is_execute kind
        then s.lr_waits
          ++ record {
            move_pc = e.pc;
            order = s.order + 1;
            pc = pc;
            cycle = cycle;
            retired = none;
            entry = some e.seq;
          }
            ∷ []
        else s.lr_waits;
    stops = s.stops ++ record { older = e.seq; order = s.order + 1; waiter = pc; kind = kind } ∷ [];
    stats = record (s.stats) { fetch_stops = s.stats.fetch_stops + 1 };
  })

unfoldable pub stop_branch : ℕ → ℕ → Bool → InsnClass → Rules → Checked Rules
unfolding youngest_stop add_stop
stop_branch cycle pc gone c s = add_stop cycle pc gone (youngest_stop c s.inflight) s

-- The rest of `fetch_stops`, for a branch.
unfoldable pub stop_class : ℕ → ℕ → Bool → Option InsnClass → Rules → Checked Rules
unfolding has_branch wait_retired stop_branch
stop_class cycle pc gone none s = ok s
stop_class cycle pc gone (some c) s =
    if has_branch c then stop_branch cycle pc gone c (wait_retired cycle pc c s) else ok s

abbrev pub links : InsnClass → Bool
links c = has_branch c && (writes_lr c && not (is_b c))

abbrev pub counts : InsnClass → Bool
counts c = c.ctr_test || is_bcctr c

-- `fetch_stops(cycle, pc, c, gone)`.
unfoldable pub fetch_stops : ℕ → ℕ → Option InsnClass → Bool → Rules → Checked Rules
unfolding targets_kept settle_stops stop_class
fetch_stops cycle pc c gone s =
    let t = settle_stops c s in
    do
      demand (targets_kept cycle pc s.order s.lr_waits)
      demand (not (when_known links c) || is_empty t.removed_lk)
      demand (not (when_known counts c) || is_empty t.removed_ctr)
      demand (is_empty t.stops)
      stop_class cycle pc gone c t

-- The order of the branch that a recovery is about: before the `younger` last dispatches that were not removed.
unfoldable pub recovered_branch : ℕ → List Dispatched → Option ℕ
recovered_branch younger [] = none
recovered_branch younger (d ∷ ds) = elim d.gone [
  | true ↦ recovered_branch younger ds
  | false ↦ elim younger [ zero ↦ some d.order | suc n ↦ recovered_branch n ds ]
]

unfoldable pub branch_order : ℕ → Option ℕ → List Dispatched → Option ℕ
unfolding recovered_branch
branch_order younger none stream = recovered_branch younger stream
branch_order younger (some after) stream = elim (get_elem? stream after) [
  | none ↦ none
  | some d ↦ some d.order
]
