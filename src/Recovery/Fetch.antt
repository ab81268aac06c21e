-- ===== src/Recovery/Fetch.antt =====
-- `FetchDrainModel`: instruction fetches across redirects. An offered request stays offered until it is
-- accepted, and an accepted one is drained before the fetch goes on at a redirect's target.
use slo_ppc.Prelude.{
  ℕ, ◌+◌, ◌%◌, Bool, true, false, ◌&&◌, ◌||◌, Option, none, some, Result, ok, ◌>>◌, require, leb,
  ◌==◌, if◌then◌else◌, bit_and,
}
use slo_ppc.Recovery.Dict.{has}
use slo_ppc.Recovery.State.{Error, value_error}

pub record FetchEvents : Type 0 where
  pub request : Option ℕ
  pub request_accepted : Bool
  pub response_consumed : Bool
  pub packet : Option (ℕ × ℕ)

pub record FetchDrain : Type 0 where
  pub pc : ℕ
  pub offered : Option ℕ
  pub pending : Option ℕ
  pub target : Option ℕ

-- `reset`.
unfoldable pub reset : ℕ → FetchDrain
reset reset_pc = record { pc = reset_pc; offered = none; pending = none; target = none }

-- What `offer` leaves in `offered` while nothing is pending.
abbrev pub next_offer : ℕ → Option ℕ → Option ℕ → Option ℕ
next_offer pc none none = some pc
next_offer pc offered target = offered

-- `offer`, which returns the request and stores it.
unfoldable pub offer : FetchDrain → FetchDrain × Option ℕ
offer s = if has s.pending then (s, none) else (
  record s { offered = next_offer s.pc s.offered s.target },
  next_offer s.pc s.offered s.target,
)

-- The keyword arguments of `step`.
pub record FetchInput : Type 0 where
  pub request_ready : Bool
  pub response : Option ℕ
  pub packet_ready : Bool
  pub redirect : Option ℕ

-- `redirect is None or (0 <= redirect <= MASK32 and redirect % 4 == 0)`.
abbrev pub redirect_valid : Option ℕ → Bool
redirect_valid none = true
redirect_valid (some t) = leb t 0xFFFF_FFFF && (t % 4 == 0)

abbrev pub or_else : Option ℕ → Option ℕ → Option ℕ
or_else none b = b
or_else (some a) b = some a

-- A request that is accepted becomes pending.
unfoldable pub accept_request : Option ℕ → Bool → FetchDrain → FetchDrain × Bool
accept_request (some a) true s = (record s { pending = some a; offered = none }, true)
accept_request _ _ s = (s, false)

-- A response to the request that was pending is consumed. It is delivered if no redirect waits.
unfoldable pub consume :
    Option ℕ → Option ℕ → Bool → FetchDrain → FetchDrain × Bool × Option (ℕ × ℕ)
consume (some a) (some word) packet_ready s = elim s.target [
  | none ↦
      if packet_ready
      then (
        record s { pc = bit_and (a + 4) 0xFFFF_FFFF; pending = none },
        true,
        some (a, bit_and word 0xFFFF_FFFF),
      )
      else (s, false, none)
  | some t ↦ (record s { pending = none }, true, none)
]
consume _ _ packet_ready s = (s, false, none)

-- Once drained, the fetch goes on at the target.
unfoldable pub settle : FetchDrain → FetchDrain
settle s =
    if has s.pending || has s.offered
    then s
    else elim s.target [ none ↦ s | some t ↦ record s { pc = t; target = none } ]

unfoldable pub fetch_edge : FetchDrain → FetchInput → FetchDrain × FetchEvents
unfolding offer accept_request consume settle
fetch_edge s i =
    let (offers, request) = offer s in
    let aimed = record offers { target = or_else i.redirect offers.target } in
    let (asked, accepted) = accept_request request i.request_ready aimed in
    let (served, consumed, packet) = consume s.pending i.response i.packet_ready asked in
    (
      settle served,
      record {
        request = request;
        request_accepted = accepted;
        response_consumed = consumed;
        packet = packet;
      },
    )

unfoldable pub fetch_step : FetchDrain → FetchInput → Result Error (FetchDrain × FetchEvents)
fetch_step s i = do require (redirect_valid i.redirect) value_error; ok (fetch_edge s i)
