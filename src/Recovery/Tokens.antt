-- ===== src/Recovery/Tokens.antt =====
-- What each phase does to the tokens: a token belongs to an issued entry that is not done, a token whose
-- entry is gone is external, and no token has an unknown kind.
use slo_ppc.Prelude.{
  ℕ, zero, suc, ◌≡◌, refl, arith, Bool, true, false, not, ◌&&◌, ◌||◌, Option, none, some, List, [],
  ◌∷◌, ◌++◌, take, if◌then◌else◌, inl, inr, Bool-cases, ap, ◌∙◌, sym,
}
use slo_ppc.Recovery.Dict.{get, pop, put, has, get-pop, get-put}
use slo_ppc.Recovery.State.{
  Tag, same_tag, same_tag_iff, tag_eq, Entry, Producer, local, external, unknown, find_tag,
}
use slo_ppc.Recovery.Step.{
  has_tag, killed_of, is_local, cancel, change, unfinished, finish_entry, issuable, issue_entry,
}
use slo_ppc.Recovery.Check.{is_external}
use slo_ppc.Recovery.Queue.{Alike, has_tag-Alike}
use slo_ppc.Recovery.Slots.{TagsDiffer}

abbrev pub Tokens : Type 0
Tokens = List (Tag × Producer)

-- An entry that owns a token was issued and is not done.
abbrev pub TokenOk : Tokens → Entry → Type 0
TokenOk tokens e = has (get e.tag tokens) ≡ true → (e.issued ≡ true) × (e.done ≡ false)

abbrev pub Tokened : Tokens → List Entry → Type 0
Tokened tokens [] = Unit
Tokened tokens (e ∷ es) = TokenOk tokens e × Tokened tokens es

-- A token is that of an entry, or external.
abbrev pub TokensLive : Tokens → List Entry → Type 0
TokensLive tokens es =
    (t : Tag) → has (get t tokens) ≡ true → (has_tag t es || is_external (get t tokens)) ≡ true

abbrev pub is_unknown : Option Producer → Bool
is_unknown (some unknown) = true
is_unknown _ = false

abbrev pub TokensKnown : Tokens → Type 0
TokensKnown tokens = (t : Tag) → is_unknown (get t tokens) ≡ false

-- A tag is in a list of tags.
abbrev pub tag_in : Tag → List Tag → Bool
tag_in t [] = false
tag_in t (u ∷ us) = same_tag u t || tag_in t us

pub get-cancel :
    (t : Tag) (ts : List Tag) (tokens : Tokens)
    → get t (cancel ts tokens)
      ≡ (if tag_in t ts && is_local (get t tokens) then none else get t tokens)
unfolding cancel
get-cancel t [] tokens = refl
get-cancel t (u ∷ us) tokens = ground (
  arith,
  get-cancel t us (if is_local (get u tokens) then pop u tokens else tokens),
  get-pop u t tokens,
  same_tag_iff u t,
  ap (λ (x : Tag). is_local (get x tokens)),
)

pub tag_in-killed_of :
    (t : Tag) (pre survivors : List Entry)
    → tag_in t (killed_of pre survivors) ≡ (has_tag t pre && not (has_tag t survivors))
unfolding killed_of has_tag
tag_in-killed_of t [] survivors = refl
tag_in-killed_of t (e ∷ pre) survivors = ground (
  arith,
  tag_in-killed_of t pre survivors,
  same_tag_iff e.tag t,
  ap (λ (x : Tag). has_tag x survivors),
)

TokenOk-cancel :
    (ts : List Tag) (tokens : Tokens) (e : Entry) → TokenOk tokens e → TokenOk (cancel ts tokens) e
TokenOk-cancel ts tokens e h k = h (ground (arith, get-cancel e.tag ts tokens))

pub Tokened-cancel :
    (n : ℕ) (ts : List Tag) (tokens : Tokens) (es : List Entry)
    → Tokened tokens es
    → Tokened (cancel ts tokens) (take n es)
Tokened-cancel zero ts tokens es h = tt
Tokened-cancel (suc n) ts tokens [] h = tt
Tokened-cancel (suc n) ts tokens (e ∷ es) h =
    (TokenOk-cancel ts tokens e h.0, Tokened-cancel n ts tokens es h.1)

local_or :
    (o : Option Producer)
    → has o ≡ true
    → is_unknown o ≡ false
    → (is_local o || is_external o) ≡ true
local_or none h k = cc
local_or (some local) h k = refl
local_or (some external) h k = refl
local_or (some unknown) h k = cc

pub TokensLive-cancel :
    (tokens : Tokens) (pre survivors : List Entry)
    → TokensLive tokens pre
    → TokensKnown tokens
    → TokensLive (cancel (killed_of pre survivors) tokens) survivors
TokensLive-cancel tokens pre survivors live known t h = ground (
  arith,
  get-cancel t (killed_of pre survivors) tokens,
  tag_in-killed_of t pre survivors,
  live t,
  known t,
  local_or (get t tokens),
)

pub TokensKnown-cancel :
    (tokens : Tokens) (ts : List Tag) → TokensKnown tokens → TokensKnown (cancel ts tokens)
TokensKnown-cancel tokens ts known t = ground (arith, get-cancel t ts tokens, known t)

TokenOk-pop : (t : Tag) (tokens : Tokens) (e : Entry) → TokenOk tokens e → TokenOk (pop t tokens) e
TokenOk-pop t tokens e h k = h (ground (arith, get-pop t e.tag tokens))

pub Tokened-pop :
    (t : Tag) (tokens : Tokens) (es : List Entry) → Tokened tokens es → Tokened (pop t tokens) es
Tokened-pop t tokens [] h = tt
Tokened-pop t tokens (e ∷ es) h = (TokenOk-pop t tokens e h.0, Tokened-pop t tokens es h.1)

-- The entry that a result finishes gives its token up.
pub Tokened-finish :
    (t : Tag) (value : ℕ) (tokens : Tokens) (es : List Entry)
    → Tokened tokens es
    → Tokened (pop t tokens) (change t (finish_entry value) es)
unfolding change
Tokened-finish t value tokens [] h = tt
Tokened-finish t value tokens (e ∷ es) h = elim (Bool-cases (same_tag e.tag t)) [
  | inl here ↦ rw here (
    λ k. ground (arith, get-pop t e.tag tokens, same_tag_iff e.tag t, same_tag_iff t e.tag),
    Tokened-pop t tokens es h.1,
  )
  | inr there ↦ rw there (TokenOk-pop t tokens e h.0, Tokened-finish t value tokens es h.1)
]

pub TokensLive-pop :
    (t : Tag) (tokens : Tokens) (es fs : List Entry)
    → Alike es fs
    → TokensLive tokens es
    → TokensLive (pop t tokens) fs
TokensLive-pop t tokens es fs a live u h =
    ground (arith, get-pop t u tokens, has_tag-Alike u es fs a, live u)

pub TokensKnown-pop : (t : Tag) (tokens : Tokens) → TokensKnown tokens → TokensKnown (pop t tokens)
TokensKnown-pop t tokens known u = ground (arith, get-pop t u tokens, known u)

-- The head of the queue, once it is done, owns no token.
pub TokensLive-tail :
    (tokens : Tokens) (e : Entry) (es : List Entry)
    → e.done ≡ true
    → TokenOk tokens e
    → TokensLive tokens (e ∷ es)
    → TokensLive tokens es
unfolding has_tag
TokensLive-tail tokens e es d k live t h =
    ground (arith, live t h, k, same_tag_iff e.tag t, ap (λ (x : Tag). has (get x tokens)))

TokenOk-put_ne :
    (t : Tag) (kind : Producer) (tokens : Tokens) (e : Entry)
    → same_tag t e.tag ≡ false
    → TokenOk tokens e
    → TokenOk (put t kind tokens) e
TokenOk-put_ne t kind tokens e n h k = h (ground (arith, get-put t e.tag kind tokens))

Tokened-put_absent :
    (t : Tag) (kind : Producer) (tokens : Tokens) (es : List Entry)
    → has_tag t es ≡ false
    → Tokened tokens es
    → Tokened (put t kind tokens) es
unfolding has_tag
Tokened-put_absent t kind tokens [] n h = tt
Tokened-put_absent t kind tokens (e ∷ es) n h = (
  TokenOk-put_ne t kind tokens e (ground (arith, same_tag_iff t e.tag, same_tag_iff e.tag t)) h.0,
  Tokened-put_absent t kind tokens es (ground arith) h.1,
)

-- The entry that is issued gets the token.
pub Tokened-issue :
    (t : Tag) (kind : Producer) (tokens : Tokens) (es : List Entry)
    → TagsDiffer es
    → issuable (find_tag t es) ≡ true
    → Tokened tokens es
    → Tokened (put t kind tokens) (change t issue_entry es)
unfolding change find_tag
Tokened-issue t kind tokens [] d i h = tt
Tokened-issue t kind tokens (e ∷ es) d i h = elim (Bool-cases (same_tag e.tag t)) [
  | inl here ↦ rw here (
    λ k. ground arith,
    Tokened-put_absent t kind tokens es
        ((ap (λ (x : Tag). has_tag x es) (sym ((same_tag_iff e.tag t).0 here))) ∙ d.0) h.1,
  )
  | inr there ↦ rw there (
    TokenOk-put_ne t kind tokens e (ground (arith, same_tag_iff t e.tag, same_tag_iff e.tag t)) h.0,
    Tokened-issue t kind tokens es d.1 (ground arith) h.1,
  )
]

pub has_tag_of_unfinished :
    (t : Tag) (es : List Entry) → unfinished (find_tag t es) ≡ true → has_tag t es ≡ true
unfolding find_tag has_tag
has_tag_of_unfinished t [] h = cc
has_tag_of_unfinished t (e ∷ es) h = ground (arith, has_tag_of_unfinished t es)

pub has_tag_of_find :
    (t : Tag) (es : List Entry) → issuable (find_tag t es) ≡ true → has_tag t es ≡ true
unfolding find_tag has_tag
has_tag_of_find t [] h = cc
has_tag_of_find t (e ∷ es) h = ground (arith, has_tag_of_find t es)

pub TokensLive-put :
    (t : Tag) (kind : Producer) (tokens : Tokens) (es fs : List Entry)
    → Alike es fs
    → issuable (find_tag t es) ≡ true
    → TokensLive tokens es
    → TokensLive (put t kind tokens) fs
TokensLive-put t kind tokens es fs a i live u h = ground (
  arith,
  get-put t u kind tokens,
  has_tag_of_find t es i,
  has_tag-Alike u es fs a,
  same_tag_iff t u,
  ap (λ (x : Tag). has_tag x es),
  live u,
)

pub TokensKnown-put :
    (t : Tag) (kind : Producer) (tokens : Tokens)
    → is_unknown (some kind) ≡ false
    → TokensKnown tokens
    → TokensKnown (put t kind tokens)
TokensKnown-put t kind tokens k known u = ground (arith, get-put t u kind tokens, known u)

pub Tokened-append :
    (tokens : Tokens) (es : List Entry) (e : Entry)
    → Tokened tokens es
    → has (get e.tag tokens) ≡ false
    → Tokened tokens (es ++ e ∷ [])
Tokened-append tokens [] e h n = (λ k. cc, tt)
Tokened-append tokens (f ∷ es) e h n = (h.0, Tokened-append tokens es e h.1 n)
