-- ===== src/Dispatch/Event.antt =====
-- `Rules.event` of sim/tools/check_dispatch_trace.py, and the loop of `check_rules` over events.
use slo_ppc.Prelude.{
  ℕ, ◌+◌, ◌-◌, Bool, true, false, not, ◌&&◌, ◌||◌, List, [], ◌∷◌, ◌++◌, length, take, drop, map,
  Option, none, some, ok, ◌>>◌, ◌>>=◌, leb, ltb, ◌==◌, if◌then◌else◌,
}
use slo_ppc.Integer.Word.{int, truthy}
use slo_ppc.Dispatch.Classify.{InsnClass}
use slo_ppc.Dispatch.Occupancy.{InFlight, occupancy}
use slo_ppc.Dispatch.Rules.{
  Checked, Entry, Flush, live, flushed, removed, Rules, Setup, cls, count_unknown, demand,
  is_flushed, when_known,
}
use slo_ppc.Dispatch.Retire.{retire_all}
use slo_ppc.Dispatch.Stops.{fetch_stops, writes_lr}
use slo_ppc.Dispatch.Recoveries.{wrong_path}
use slo_ppc.Dispatch.Pairs.{pair_written, pair_dispatched, sru_pair, may_remove}

-- The arguments of `event`. `removed` says of each dispatched address whether its branch was removed.
pub record Event : Type 0 where
  pub cycle : ℕ
  pub dispatched : List ℕ
  pub retired : List ℕ
  pub mispredict : Option ℕ
  pub removed : List Bool
  pub after : Option ℕ

-- A removed branch takes no entry.
unfoldable pub remove_branch : ℕ → Option InsnClass → Rules → Rules
remove_branch pc c s = record s {
  removed_lk = if when_known writes_lr c then s.removed_lk ++ (s.seq, pc) ∷ [] else s.removed_lk;
  removed_ctr =
      if when_known (λ k. truthy k.writes.ctr) c
      then s.removed_ctr ++ (s.seq, pc) ∷ []
      else s.removed_ctr;
  stats = record (s.stats) { dispatches = s.stats.dispatches + 1; removals = s.stats.removals + 1 };
}

-- The entry of another instruction.
unfoldable pub add_entry : ℕ → ℕ → Option InsnClass → Rules → Rules
add_entry cycle pc c s =
    let seq = s.seq + 1 in
    let serial = when_known (λ k. k.dser) c in
    record s {
      seq = seq;
      inflight =
          s.inflight
          ++ record { pc = pc; cycle = cycle; seq = seq; flush = live; class = c; order = s.order }
            ∷ [];
      block = if serial then some (seq, cycle) else s.block;
      last_dser = if serial then some (seq, cycle) else s.last_dser;
      stats = record (s.stats) {
        dispatches = s.stats.dispatches + 1;
        dser = s.stats.dser + int serial;
        cser = s.stats.cser + int (when_known (λ k. k.cser) c);
      };
    }

-- The order and the stream, which count removed branches.
abbrev pub ordered : ℕ → ℕ → Option InsnClass → Bool → Rules → Rules
ordered cycle pc c gone s = record s {
  order = s.order + 1;
  stream =
      record { order = s.order + 1; class = c; gone = gone; cycle = cycle; pc = pc }
      ∷ take 31 s.stream;
}

-- One round of the loop over `dispatched`.
unfoldable pub dispatch_one : Setup → ℕ → ℕ → Bool → Rules → Checked Rules
unfolding cls fetch_stops may_remove remove_branch add_entry
dispatch_one setup cycle pc gone s =
    let c = cls setup pc in
    fetch_stops cycle pc c gone s >>= λ t.
    let u = ordered cycle pc c gone t in
    if gone
    then (demand (may_remove c) >> ok (remove_branch pc c u))
    else ok (add_entry cycle pc c u)

abbrev pub first_flag : List Bool → Bool
first_flag [] = false
first_flag (r ∷ rs) = r

unfoldable pub dispatch_all : Setup → ℕ → List ℕ → List Bool → Rules → Checked Rules
unfolding dispatch_one
dispatch_all setup cycle [] gone s = ok s
dispatch_all setup cycle (pc ∷ pcs) gone s =
    dispatch_one setup cycle pc (first_flag gone) s >>= λ next.
    dispatch_all setup cycle pcs (drop 1 gone) next

unfoldable pub count_all : Setup → List ℕ → Rules → Rules
unfolding count_unknown
count_all setup [] s = s
count_all setup (pc ∷ pcs) s = count_all setup pcs (count_unknown setup pc s)

-- The tests before a dispatch.
abbrev pub is_past : ℕ → Option ℕ → Bool
is_past cycle none = true
is_past cycle (some c) = ltb c cycle

abbrev pub is_none : {A : Type 0} → Option A → Bool
is_none none = true
is_none (some a) = false

unfoldable pub after_redirect : ℕ → Option (ℕ × ℕ) → Rules → Checked Rules
after_redirect cycle none s = ok s
after_redirect cycle (some (floor, pc)) s = do
  demand (leb floor cycle)
  ok (record s {
    redirect = none;
    stats = record (s.stats) {
      redirects = s.stats.redirects + 1;
      redirects_at_floor = s.stats.redirects_at_floor + int (cycle == floor);
    };
  })

abbrev pub has_dispatch : List ℕ → Bool
has_dispatch [] = false
has_dispatch (pc ∷ pcs) = true

unfoldable pub open_dispatch : ℕ → List ℕ → Rules → Checked Rules
unfolding after_redirect
open_dispatch cycle pcs s =
    if has_dispatch pcs
    then (do
      t ← after_redirect cycle s.redirect s
      demand (is_none t.block)
      demand (is_past cycle t.isync_retired)
      ok (record t { isync_retired = none }))
    else ok s

-- The flags of the entries that a recovery removes, the last `n`.
abbrev pub flush_entry : Flush → Entry → Entry
flush_entry flush e = record e { flush = flush }

unfoldable pub flush_last : ℕ → Flush → List Entry → List Entry
flush_last n flush es = take (length es - n) es ++ map (flush_entry flush) (drop (length es - n) es)

abbrev pub in_flight : Entry → InFlight
in_flight e = record { class = e.class; flushed = is_flushed e.flush }

abbrev pub count_or_zero : Option ℕ → ℕ
count_or_zero none = 0
count_or_zero (some n) = n

-- The recovery at the end of an event.
unfoldable pub recover : Setup → ℕ → Option ℕ → Option ℕ → Rules → Checked Rules
unfolding wrong_path
recover setup cycle none after s = ok s
recover setup cycle (some n) after s =
    wrong_path setup cycle n after s >>= λ t. ok (record t { lr_waits = [] })

abbrev pub flush_of : Option ℕ → Flush
flush_of none = flushed
flush_of (some n) = removed

-- After the dispatches: the counts, and the recovery.
unfoldable pub finish_event : Setup → Event → Rules → Checked Rules
unfolding recover flush_last
finish_event setup ev s =
    let n = count_or_zero ev.mispredict in
    do
      peaks ← occupancy (map in_flight s.inflight) s.peaks
      demand (leb n (length s.inflight))
      t ← recover setup ev.cycle ev.mispredict ev.after (record s { peaks = peaks })
      ok (record t { inflight = flush_last n (flush_of ev.after) t.inflight })

abbrev pub is_two : List ℕ → Bool
is_two pcs = length pcs == 2

-- The statistics of the three parts.
abbrev pub begun : Event → Rules → Rules
begun ev s = record s { stats = record (s.stats) { cycles = ev.cycle } }

abbrev pub retired_pair : Event → Rules → Rules
retired_pair ev s = record s {
  stats = record (s.stats) { pairs_retired = s.stats.pairs_retired + int (is_two ev.retired) };
}

unfoldable pub dispatched_pair : Setup → Event → Rules → Rules
unfolding count_all
dispatched_pair setup ev s =
    let t = count_all setup ev.dispatched s in
    record t {
      stats = record (t.stats) {
        pairs_dispatched = t.stats.pairs_dispatched + int (is_two ev.dispatched);
        sru_pairs = t.stats.sru_pairs + int (sru_pair (map (cls setup) ev.dispatched));
      };
    }

abbrev pub widths_kept : Setup → Event → Bool
widths_kept setup ev = leb (length ev.dispatched) setup.width && leb (length ev.retired) setup.width

abbrev pub retired_kept : Setup → Event → Bool
retired_kept setup ev = not (is_two ev.retired) || pair_written (map (cls setup) ev.retired)

abbrev pub dispatched_kept : Setup → Event → Bool
dispatched_kept setup ev =
    not (is_two ev.dispatched) || pair_dispatched (map (cls setup) ev.dispatched)

-- `event(...)`.
unfoldable pub event : Setup → Event → Rules → Checked Rules
unfolding retire_all open_dispatch dispatched_pair dispatch_all finish_event
event setup ev s = do
  demand (widths_kept setup ev)
  r ← retire_all setup ev.cycle 0 ev.retired (begun ev s)
  demand (retired_kept setup ev)
  o ← open_dispatch ev.cycle ev.dispatched (retired_pair ev r)
  demand (dispatched_kept setup ev)
  d ← dispatch_all setup ev.cycle ev.dispatched ev.removed (dispatched_pair setup ev o)
  finish_event setup ev d

-- The loop of `check_rules` over the events of a trace, after `previous`.
unfoldable pub check_events : Setup → Option ℕ → List Event → Rules → Checked Rules
unfolding event
check_events setup previous [] s = ok s
check_events setup previous (ev ∷ evs) s = do
  demand (is_past ev.cycle previous)
  next ← event setup ev s
  check_events setup (some ev.cycle) evs next
