-- ===== src/Recovery/Stream.antt =====
-- The packets that `FetchDrainModel` delivers are one instruction stream: each is at the address that the
-- packets and redirects before it ask for.
use slo_ppc.Prelude.{
  ℕ, ◌+◌, Result, ◌≡◌, refl, arith, Bool, true, Option, none, some, List, [], ◌∷◌, ok, ◌>>=◌,
  bit_and, if◌then◌else◌,
}
use slo_ppc.Recovery.State.{Error}
use slo_ppc.Recovery.Fetch.{
  FetchEvents, FetchDrain, reset, offer, FetchInput, redirect_valid, accept_request, consume,
  settle, fetch_edge, fetch_step,
}

-- The address of the next packet that a state can deliver, from its four fields, and what holds of them: a
-- request is offered or pending but not both, a target waits only behind a request, and with no target the
-- request is for the program counter.
abbrev pub Follows : ℕ → Option ℕ → Option ℕ → Option ℕ → ℕ → Type 0
Follows pc none none none expect = expect ≡ pc
Follows pc (some a) none none expect = (expect ≡ pc) × (a ≡ pc)
Follows pc none (some a) none expect = (expect ≡ pc) × (a ≡ pc)
Follows pc (some a) none (some t) expect = expect ≡ t
Follows pc none (some a) (some t) expect = expect ≡ t
Follows _ _ _ _ expect = ⊥

abbrev pub Expects : FetchDrain → ℕ → Type 0
Expects s expect = Follows s.pc s.offered s.pending s.target expect

-- The address that comes after an edge: a redirect's target, or the word after a packet.
abbrev pub next_expected : ℕ → Option ℕ → Option (ℕ × ℕ) → ℕ
next_expected expect (some t) packet = t
next_expected expect none (some (a, word)) = bit_and (a + 4) 0xFFFF_FFFF
next_expected expect none none = expect

-- A packet is at the expected address, and none is delivered on the edge of a redirect.
abbrev pub Delivers : ℕ → Option ℕ → Option (ℕ × ℕ) → Type 0
Delivers expect redirect none = Unit
Delivers expect none (some (a, word)) = a ≡ expect
Delivers expect (some t) (some (a, word)) = ⊥

edge-Follows :
    (pc : ℕ) (offered pending target : Option ℕ) (ready : Bool) (response : Option ℕ)
    (packet_ready : Bool) (redirect : Option ℕ) (expect : ℕ)
    → Follows pc offered pending target expect
    → let r =
        fetch_edge
          (record { pc = pc; offered = offered; pending = pending; target = target })
          (record {
            request_ready = ready;
            response = response;
            packet_ready = packet_ready;
            redirect = redirect;
          }) in
      Delivers expect redirect r.1.packet × Expects r.0 (next_expected expect redirect r.1.packet)
unfolding fetch_edge offer accept_request consume settle
edge-Follows pc none none none ready response packet_ready redirect expect h = ground arith
edge-Follows pc (some a) none none ready response packet_ready redirect expect h = ground arith
edge-Follows pc none (some a) none ready response packet_ready redirect expect h = ground arith
edge-Follows pc (some a) none (some t) ready response packet_ready redirect expect h = ground arith
edge-Follows pc none (some a) (some t) ready response packet_ready redirect expect h = ground arith
edge-Follows pc none none (some t) ready response packet_ready redirect expect h = elim h [ ]
edge-Follows pc (some a) (some b) none ready response packet_ready redirect expect h = elim h [ ]
edge-Follows pc (some a) (some b) (some t) ready response packet_ready redirect expect h =
    elim h [ ]

-- A run of edges, with the events of each.
unfoldable pub fetch_run :
    FetchDrain → List FetchInput → Result Error (FetchDrain × List FetchEvents)
fetch_run s [] = ok (s, [])
fetch_run s (i ∷ is) = do r ← fetch_step s i; rest ← fetch_run r.0 is; ok (rest.0, r.1 ∷ rest.1)

abbrev pub AllAligned : List FetchInput → Type 0
AllAligned [] = Unit
AllAligned (i ∷ is) = (redirect_valid i.redirect ≡ true) × AllAligned is

-- The packets of a run are those that the addresses expected along it ask for.
abbrev pub InStream : ℕ → List FetchInput → List FetchEvents → Type 0
InStream expect [] [] = Unit
InStream expect (i ∷ is) (e ∷ es) =
    Delivers expect i.redirect e.packet × InStream (next_expected expect i.redirect e.packet) is es
InStream _ _ _ = ⊥

run-InStream :
    (s : FetchDrain) (is : List FetchInput) (expect : ℕ)
    → Expects s expect
    → AllAligned is
    → (n : FetchDrain) × (events : List FetchEvents) × (fetch_run s is ≡ ok (n, events))
      × InStream expect is events
unfolding fetch_run fetch_step
run-InStream s [] expect h a = (s, [], refl, tt)
run-InStream s (i ∷ is) expect h a =
    let r = fetch_edge s i in
    let f =
      edge-Follows s.pc s.offered s.pending s.target i.request_ready i.response i.packet_ready
        i.redirect expect h in
    let (n, events, e, w) =
      run-InStream r.0 is (next_expected expect i.redirect r.1.packet) f.1 a.1 in
    (n, r.1 ∷ events, rw (a.0, e) refl, (f.0, w))

-- From `reset`, on aligned redirects, every run of edges returns. The packets that it delivers form one
-- stream: the first is at the reset address, each other is at the word after the packet before it, or at
-- the target of the last redirect since then, and an edge with a redirect delivers none.
pub fetch-InStream :
    (reset_pc : ℕ) (is : List FetchInput)
    → AllAligned is
    → (n : FetchDrain) × (events : List FetchEvents) × (fetch_run (reset reset_pc) is
        ≡ ok (n, events))
      × InStream reset_pc is events
unfolding reset
fetch-InStream reset_pc is a = run-InStream (reset reset_pc) is reset_pc refl a

-- In a state of a stream, whatever an edge brings, a redirect too, the request that it makes is offered
-- again on the next edge if the memory was not ready for it, and is pending if it was.
pub fetch_promise :
    (s : FetchDrain) (i : FetchInput) (a : ℕ) (expect : ℕ)
    → Expects s expect
    → (fetch_edge s i).1.request ≡ some a
    → if i.request_ready
      then (fetch_edge s i).0.pending ≡ some a
      else (offer (fetch_edge s i).0).1 ≡ some a
unfolding fetch_edge offer accept_request consume settle
fetch_promise s i a expect h r = ground arith

-- An edge on which the memory and the consumer are ready, with a response and no redirect.
abbrev pub eager : ℕ → FetchInput
eager word = record {
  request_ready = true;
  response = some word;
  packet_ready = true;
  redirect = none;
}

abbrev pub Delivered : ℕ → List FetchEvents → Type 0
Delivered address [] = ⊥
Delivered address (e ∷ es) = elim e.packet [ none ↦ Delivered address es | some p ↦ p.0 ≡ address ]

abbrev pub eager_run : ℕ → List FetchInput
eager_run word = eager word ∷ eager word ∷ eager word ∷ eager word ∷ []

progress_from :
    (pc : ℕ) (offered pending target : Option ℕ) (word expect : ℕ)
    → Follows pc offered pending target expect
    → let s : FetchDrain = record {
      pc = pc;
      offered = offered;
      pending = pending;
      target = target;
    } in
      (n : FetchDrain) × (events : List FetchEvents) × (fetch_run s (eager_run word)
        ≡ ok (n, events))
      × Delivered expect events
unfolding fetch_run fetch_step fetch_edge offer accept_request consume settle
progress_from pc none none none word expect h = (_, _, refl, ground arith)
progress_from pc (some a) none none word expect h = (_, _, refl, ground arith)
progress_from pc none (some a) none word expect h = (_, _, refl, ground arith)
progress_from pc (some a) none (some t) word expect h = (_, _, refl, ground arith)
progress_from pc none (some a) (some t) word expect h = (_, _, refl, ground arith)
progress_from pc none none (some t) word expect h = elim h [ ]
progress_from pc (some a) (some b) none word expect h = elim h [ ]
progress_from pc (some a) (some b) (some t) word expect h = elim h [ ]

-- From a state of a stream, four edges on which memory and consumer are ready deliver a packet, and the
-- first that they deliver is at the expected address.
pub fetch_progress :
    (s : FetchDrain) (word expect : ℕ)
    → Expects s expect
    → (n : FetchDrain) × (events : List FetchEvents) × (fetch_run s (eager_run word)
        ≡ ok (n, events))
      × Delivered expect events
fetch_progress s word expect h = progress_from s.pc s.offered s.pending s.target word expect h
