-- ===== src/Recovery/Invariant.antt =====
-- The invariant of the recovery model, between and inside edges, and what an edge has kept of the state
-- from before it.
use slo_ppc.Prelude.{
  ℕ, ◌+◌, ◌<◌, ◌≤◌, ◌≡◌, refl, arith, true, false, ◌||◌, Option, none, some, List, [], ◌∷◌, ◌++◌,
  length, replicate, length-set, length-replicate,
}
use slo_ppc.Recovery.Dict.{get, has}
use slo_ppc.Recovery.State.{Tag, tag_eq, Commit, Model, reset}
use slo_ppc.Recovery.Step.{has_tag, uses_rename, write_back}
use slo_ppc.Recovery.Queue.{Contiguous, Ordered, Renamed, DstsIn}
use slo_ppc.Recovery.Tokens.{Tokened, TokensLive, TokensKnown}

-- The register file after a list of commits, oldest first.
abbrev pub replay : List ℕ → List Commit → List ℕ
replay arch [] = arch
replay arch ((serial, dst, value) ∷ cs) = replay (write_back arch dst value) cs

-- Commits with ascending serials, all from `lo` on and below `hi`.
abbrev pub Ascending : ℕ → List Commit → ℕ → Type 0
Ascending lo [] hi = lo ≤ hi
Ascending lo ((serial, dst, value) ∷ cs) hi = (lo ≤ serial) × Ascending (serial + 1) cs hi

pub record Inv (m : Model) : Type 0 where
  pub generations_size : length m.generations ≡ m.depth
  pub arch_size : length m.arch ≡ 32
  pub tail_in : m.tail < m.depth
  pub head : ℕ
  pub head_in : head < m.depth
  pub slots : Contiguous m.depth head m.entries m.tail
  pub fits : length m.entries ≤ m.depth
  pub oldest : ℕ
  pub serials : Ordered oldest m.entries m.next_serial
  pub past : Ascending 0 m.retired oldest
  pub renamed : Renamed m.rename_depth m.entries
  pub dsts : DstsIn m.entries
  pub tokened : Tokened m.tokens m.entries
  pub live : TokensLive m.tokens m.entries
  pub known : TokensKnown m.tokens
  pub replayed : m.arch ≡ replay (replicate 32 0) m.retired

-- What has stayed of `m` in the middle of an edge.
pub record Since (m n : Model) : Type 0 where
  pub same_depth : n.depth ≡ m.depth
  pub same_renames : n.rename_depth ≡ m.rename_depth
  pub same_generations : n.generations ≡ m.generations
  pub same_mask : n.generation_mask ≡ m.generation_mask
  pub no_longer : length n.entries ≤ length m.entries
  pub free_stays : (r : ℕ) → uses_rename r m.entries ≡ false → uses_rename r n.entries ≡ false
  pub tokens_from :
      (t : Tag) → has (get t n.tokens) ≡ true → (has_tag t n.entries || has (get t m.tokens)) ≡ true

pub Since-refl : (m : Model) → Since m m
Since-refl m = record {
  same_depth = refl;
  same_renames = refl;
  same_generations = refl;
  same_mask = refl;
  no_longer = omega arith;
  free_stays = λ r h. h;
  tokens_from = λ t h. ground arith;
}

pub replay-append :
    (arch : List ℕ) (cs : List Commit) (c : Commit)
    → replay arch (cs ++ c ∷ []) ≡ write_back (replay arch cs) c.1 c.2
replay-append arch [] c = refl
replay-append arch ((s, d, v) ∷ cs) c = replay-append (write_back arch d v) cs c

pub Ascending-append :
    (lo hi : ℕ) (cs : List Commit) (c : Commit)
    → Ascending lo cs hi
    → hi ≤ c.0
    → Ascending lo (cs ++ c ∷ []) (c.0 + 1)
Ascending-append lo hi [] c h k = (omega arith, omega arith)
Ascending-append lo hi ((s, d, v) ∷ cs) c h k = (h.0, Ascending-append (s + 1) hi cs c h.1 k)

pub length-write_back :
    (arch : List ℕ) (dst : Option ℕ) (v : ℕ) → length (write_back arch dst v) ≡ length arch
length-write_back arch none v = refl
length-write_back arch (some r) v = length-set arch r v

-- The state that `reset` sets.
pub reset-Inv : (depth rename_depth mask : ℕ) → 0 < depth → Inv (reset depth rename_depth mask)
unfolding reset
reset-Inv depth rename_depth mask h = record {
  generations_size = length-replicate depth 0;
  arch_size = refl;
  tail_in = h;
  head = 0;
  head_in = h;
  slots = refl;
  fits = omega arith;
  oldest = 0;
  serials = omega arith;
  past = omega arith;
  renamed = tt;
  dsts = tt;
  tokened = tt;
  live = λ t k. unfold get in cc;
  known = λ t. unfold get in refl;
  replayed = refl;
}
