-- ===== src/Examples/Recovery.antt =====
-- The theorems on `RecoveryModel` and `FetchDrainModel` at concrete states.
use slo_ppc.Prelude.{
  ℕ, ◌≡◌, refl, arith, true, false, none, some, List, [], ◌∷◌, ok, raise, replicate, ◌⊎◌,
  if◌then◌else◌,
}
use slo_ppc.Recovery.Dict.{get, has}
use slo_ppc.Recovery.State.{
  Tag, tag_eq, Redirect, Entry, value_error, local, external, Events, Model, make, operand,
}
use slo_ppc.Recovery.Step.{Input, has_tag, uses_rename}
use slo_ppc.Recovery.Edge.{step}
use slo_ppc.Recovery.Tokens.{tag_in}
use slo_ppc.Recovery.Invariant.{Inv, replay, Ascending}
use slo_ppc.Recovery.Safety.{IsInput, run, step_outcomes, run_in_order}
use slo_ppc.Recovery.Effects.{RedirectOutcome, redirect_effect}
use slo_ppc.Recovery.Owning.{finish_effect, allocation_effect}
use slo_ppc.Recovery.Operand.{seen, youngest, operand-youngest}
use slo_ppc.Recovery.Fetch.{FetchDrain, FetchEvents, FetchInput, fetch_edge, offer}
use slo_ppc.Recovery.Fetch
use slo_ppc.Recovery.Stream.{
  InStream, Delivered, eager, eager_run, fetch_run, fetch-InStream, fetch_promise, fetch_progress,
}

-- Two entries in slots 0 and 1 of four, of which the first is issued to a local producer.
abbrev first_tag : Tag
first_tag = record { slot = 0; generation = 1 }

abbrev second_tag : Tag
second_tag = record { slot = 1; generation = 1 }

abbrev first_entry : Entry
first_entry = record {
  tag = first_tag;
  serial = 0;
  dst = some 3;
  rename = some 0;
  done = false;
  value = 0;
  fault = false;
  issued = true;
}

abbrev second_entry : Entry
second_entry = record {
  tag = second_tag;
  serial = 1;
  dst = none;
  rename = none;
  done = false;
  value = 0;
  fault = false;
  issued = false;
}

abbrev two_entries : Model
two_entries = record {
  depth = 4;
  rename_depth = 2;
  generation_mask = 255;
  entries = first_entry ∷ second_entry ∷ [];
  generations = 1 ∷ 1 ∷ 0 ∷ 0 ∷ [];
  tail = 2;
  tokens = (first_tag, local) ∷ [];
  arch = replicate 32 0;
  mapping = (3, first_tag) ∷ [];
  next_serial = 2;
  retired = [];
}

one_token_live :
    (t : Tag) → has (get t two_entries.tokens) ≡ true → has_tag t two_entries.entries ≡ true
unfolding get has_tag
one_token_live t h = ground arith

two_entries-Inv : Inv two_entries
unfolding get has_tag uses_rename
two_entries-Inv = record {
  generations_size = refl;
  arch_size = refl;
  tail_in = omega arith;
  head = 0;
  head_in = omega arith;
  slots = (refl, (refl, refl));
  fits = omega arith;
  oldest = 0;
  serials = (omega arith, (omega arith, omega arith));
  past = omega arith;
  renamed = ((omega arith, refl), (tt, tt));
  dsts = (omega arith, (tt, tt));
  tokened = (λ h. (refl, refl), (λ h. cc, tt));
  live = λ t h. ground (arith, one_token_live t h);
  known = λ t. ground arith;
  replayed = refl;
}

-- A result for the first entry, a redirect behind it, and an allocation.
abbrev busy : Input
busy = record {
  allocate = true;
  dst = some 4;
  fault = false;
  issue = some second_tag;
  producer_kind = external;
  result = some (first_tag, 77);
  redirect = some (record { target = 0x100; pivot = some first_tag; keep_pivot = true });
  retire_ready = true;
}

busy-IsInput : IsInput busy
busy-IsInput = record { dst_ok = refl; producer_ok = refl }

-- An allocation alone.
abbrev grow : Input
grow = record {
  allocate = true;
  dst = some 4;
  fault = false;
  issue = none;
  producer_kind = local;
  result = none;
  redirect = none;
  retire_ready = false;
}

step_outcomes_example :
    (IsInput busy × ((r : Model × Events) × (step two_entries busy ≡ ok r) × Inv r.0))
    ⊎ ((¬ IsInput busy) × (step two_entries busy ≡ raise value_error))
step_outcomes_example = step_outcomes two_entries busy two_entries-Inv

run_in_order_example :
    (start n : Model) × (make 4 2 8 ≡ ok start)
    × (run start (grow ∷ busy ∷ grow ∷ []) ≡ ok n)
    × ((hi : ℕ) × Ascending 0 n.retired hi)
    × (n.arch ≡ replay (replicate 32 0) n.retired)
run_in_order_example =
    run_in_order 4 2 8 (grow ∷ busy ∷ grow ∷ []) (omega arith) (omega arith) (omega arith) (
      record { dst_ok = refl; producer_ok = refl },
      (busy-IsInput, (record { dst_ok = refl; producer_ok = refl }, tt)),
    )

abbrev behind_first : Redirect
behind_first = record { target = 0x100; pivot = some first_tag; keep_pivot = true }

redirect_effect_example :
    (s : Model) × (ev : Events) × (step two_entries busy ≡ ok (s, ev))
    × RedirectOutcome behind_first two_entries.entries ev.redirect_accepted ev.redirect_rejected
        ev.killed
redirect_effect_example =
    redirect_effect two_entries busy two_entries-Inv busy-IsInput behind_first refl

finish_effect_example :
    (s : Model) × (ev : Events) × (step two_entries busy ≡ ok (s, ev))
    × ((t : Tag)
        → ev.finished ≡ some t
        → ((value : ℕ) × (busy.result ≡ some (t, value)))
          × (has_tag t two_entries.entries ≡ true)
          × (has (get t two_entries.tokens) ≡ true)
          × (tag_in t ev.killed ≡ false))
finish_effect_example = finish_effect two_entries busy two_entries-Inv busy-IsInput

allocation_effect_example :
    (s : Model) × (ev : Events) × (step two_entries grow ≡ ok (s, ev))
    × ((t : Tag)
        → ev.allocated ≡ some t
        → (has_tag t two_entries.entries ≡ false)
          × (has (get t two_entries.tokens) ≡ false)
          × (ev.redirect_accepted ≡ false)
          × (has_tag t s.entries ≡ true))
allocation_effect_example =
    allocation_effect two_entries grow two_entries-Inv
      (record { dst_ok = refl; producer_ok = refl })

operand-youngest_example :
    (n : Model) × (events : Events) × (step two_entries busy ≡ ok (n, events))
    × (operand n 3 ≡ ok (seen n 3 (youngest 3 n.entries none)))
operand-youngest_example =
    operand-youngest two_entries busy 3 two_entries-Inv busy-IsInput (omega arith)

-- An edge that brings a redirect to a fetch that waits.
abbrev turn : FetchInput
turn = record { request_ready = false; response = none; packet_ready = true; redirect = some 0x200 }

-- A fetch whose request is offered while a redirect waits.
abbrev waiting : FetchDrain
waiting = record { pc = 0x104; offered = some 0x104; pending = none; target = some 0x300 }

fetch-InStream_example :
    (n : FetchDrain) × (events : List FetchEvents) × (fetch_run
        (Fetch.reset 0xFFF0_0100)
        (eager 5 ∷ eager 6 ∷ turn ∷ eager 7 ∷ [])
      ≡ ok (n, events))
    × InStream 0xFFF0_0100 (eager 5 ∷ eager 6 ∷ turn ∷ eager 7 ∷ []) events
fetch-InStream_example =
    fetch-InStream 0xFFF0_0100 (eager 5 ∷ eager 6 ∷ turn ∷ eager 7 ∷ [])
      (refl, (refl, (refl, (refl, tt))))

fetch_promise_example :
    if turn.request_ready
    then (fetch_edge waiting turn).0.pending ≡ some 0x104
    else (offer (fetch_edge waiting turn).0).1 ≡ some 0x104
fetch_promise_example =
    fetch_promise waiting turn 0x104 0x300 refl (unfold fetch_edge offer in refl)

fetch_progress_example :
    (n : FetchDrain) × (events : List FetchEvents) × (fetch_run waiting (eager_run 9)
      ≡ ok (n, events))
    × Delivered 0x300 events
fetch_progress_example = fetch_progress waiting 9 0x300 refl
