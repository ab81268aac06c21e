-- ===== src/Recovery/Phases.antt =====
-- Each phase of an edge keeps the invariant, and what the edge has kept of the state before it.
use slo_ppc.Prelude.{
  ℕ, ◌≡◌, refl, arith, true, false, ◌&&◌, Option, none, some, List, take, inl, inr, Bool-cases, ◌⊎◌,
  ◌==◌,
}
use slo_ppc.Recovery.State.{tag_eq, Entry, Redirect, Model}
use slo_ppc.Recovery.Step.{
  Cut, cut_of, decide, decide_cut, killed_of, cancel, slot_after, head_slot, redirected, head_done,
}
use slo_ppc.Recovery.Cutting.{
  Ordered-take, Contiguous-take, head_slot-Contiguous, slot_after-lt, uses_rename-take,
  Renamed-take, DstsIn-take, length-take-le,
}
use slo_ppc.Recovery.Tokens.{get-cancel, Tokened-cancel, TokensLive-cancel, TokensKnown-cancel}
use slo_ppc.Recovery.Invariant.{Inv, Since, Since-refl}

-- A cut keeps a prefix of the entries if it is accepted, and all of them if not.
abbrev pub IsCut : List Entry → Cut → Type 0
IsCut pre cut =
    ((cut.accepted ≡ true) × ((n : ℕ) × (cut.survivors ≡ take n pre)))
    ⊎ ((cut.accepted ≡ false) × (cut.survivors ≡ pre))

decide_cut-IsCut : (o : Option ℕ) (pre : List Entry) → IsCut pre (decide_cut o pre)
unfolding decide_cut
decide_cut-IsCut none pre = inr (refl, refl)
decide_cut-IsCut (some n) pre = elim (Bool-cases ((n == 0) && head_done pre)) [
  | inl refused ↦ rw refused (inr (refl, refl))
  | inr cuts ↦ rw cuts (inl (refl, (n, refl)))
]

pub decide-IsCut : (r : Option Redirect) (pre : List Entry) → IsCut pre (decide r pre)
unfolding decide
decide-IsCut none pre = inr (refl, refl)
decide-IsCut (some r) pre = decide_cut-IsCut (cut_of r pre) pre

-- The model after an accepted cut to the first `n` entries.
cut_to : Model → ℕ → Model
cut_to m n = record m {
  entries = take n m.entries;
  tail = slot_after m.depth (take n m.entries) (head_slot m.entries m.tail);
  tokens = cancel (killed_of m.entries (take n m.entries)) m.tokens;
}

cut_to-Inv : (m : Model) (n : ℕ) → Inv m → Inv (cut_to m n)
unfolding cut_to
cut_to-Inv m n v = record {
  generations_size = v.generations_size;
  arch_size = v.arch_size;
  tail_in = rw start (slot_after-lt m.depth v.head (take n m.entries) v.head_in);
  head = v.head;
  head_in = v.head_in;
  slots = rw start (Contiguous-take n m.depth v.head m.tail m.entries v.slots);
  fits = omega (arith, length-take-le n m.entries, v.fits);
  oldest = v.oldest;
  serials = Ordered-take n v.oldest m.next_serial m.entries v.serials;
  past = v.past;
  renamed = Renamed-take n m.rename_depth m.entries v.renamed;
  dsts = DstsIn-take n m.entries v.dsts;
  tokened = Tokened-cancel n (killed_of m.entries (take n m.entries)) m.tokens m.entries v.tokened;
  live = TokensLive-cancel m.tokens m.entries (take n m.entries) v.live v.known;
  known = TokensKnown-cancel m.tokens (killed_of m.entries (take n m.entries)) v.known;
  replayed = v.replayed;
}
  where
    start : head_slot m.entries m.tail ≡ v.head
    start = head_slot-Contiguous m.depth v.head m.tail m.entries v.slots

cut_to-Since : (m : Model) (n : ℕ) → Since m (cut_to m n)
unfolding cut_to
cut_to-Since m n = record {
  same_depth = refl;
  same_renames = refl;
  same_generations = refl;
  same_mask = refl;
  no_longer = length-take-le n m.entries;
  free_stays = λ r. uses_rename-take n r m.entries;
  tokens_from =
      λ t h. ground (arith, get-cancel t (killed_of m.entries (take n m.entries)) m.tokens);
}

redirected-cut :
    (m : Model) (cut : Cut)
    → IsCut m.entries cut
    → ((n : ℕ) × (redirected m cut ≡ cut_to m n)) ⊎ (redirected m cut ≡ m)
unfolding redirected cut_to
redirected-cut m cut (inl (a, (n, e))) = inl (n, rw (a, e) refl)
redirected-cut m cut (inr (a, e)) = inr (rw a refl)

pub redirected-Inv :
    (m : Model) (cut : Cut)
    → IsCut m.entries cut
    → Inv m
    → Inv (redirected m cut) × Since m (redirected m cut)
redirected-Inv m cut c v = elim (redirected-cut m cut c) [
  | inl (n, e) ↦ rw e (cut_to-Inv m n v, cut_to-Since m n)
  | inr e ↦ rw e (v, Since-refl m)
]
