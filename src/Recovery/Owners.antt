-- ===== src/Recovery/Owners.antt =====
-- A result and an issue change one entry and its token: both keep the invariant, and what the edge has
-- kept of the state before it.
use slo_ppc.Prelude.{
  ℕ, ◌≡◌, refl, arith, true, false, ◌&&◌, ◌||◌, Option, none, some, List, ap, ◌∙◌, sym, inl, inr,
  Bool-cases,
}
use slo_ppc.Recovery.Dict.{get, pop, put, has, get-pop, get-put}
use slo_ppc.Recovery.State.{Tag, same_tag_iff, tag_eq, Entry, Producer, Model, find_tag}
use slo_ppc.Recovery.Step.{
  has_tag, change, finish_entry, finished, unfinished, issuable, issue_entry, issued,
}
use slo_ppc.Recovery.Queue.{
  Alike, Alike-refl, Alike-change, Contiguous-Alike, Ordered-Alike, Renamed-Alike, DstsIn-Alike,
  length-Alike, has_tag-Alike, uses_rename-Alike, KeepsShape,
}
use slo_ppc.Recovery.Slots.{TagsDiffer-of_slots, distinct-slots}
use slo_ppc.Recovery.Tokens.{
  Tokens, Tokened, TokensLive, TokensKnown, Tokened-pop, Tokened-finish, TokensLive-pop,
  TokensKnown-pop, Tokened-issue, TokensLive-put, TokensKnown-put, is_unknown, has_tag_of_find,
}
use slo_ppc.Recovery.Invariant.{Inv, Since}

keeps_finish : (value : ℕ) → KeepsShape (finish_entry value)
keeps_finish value e = (refl, refl, refl, refl)

keeps_issue : KeepsShape issue_entry
keeps_issue e = (refl, refl, refl, refl)

-- The invariant of a model with one entry changed and other tokens.
changed-Inv :
    (n : Model) (es : List Entry) (tokens : Tokens)
    → Alike n.entries es
    → Inv n
    → Tokened tokens es
    → TokensLive tokens es
    → TokensKnown tokens
    → Inv (record n { entries = es; tokens = tokens })
changed-Inv n es tokens a v o l k = record {
  generations_size = v.generations_size;
  arch_size = v.arch_size;
  tail_in = v.tail_in;
  head = v.head;
  head_in = v.head_in;
  slots = Contiguous-Alike n.depth v.head n.tail n.entries es a v.slots;
  fits = omega (arith, length-Alike n.entries es a, v.fits);
  oldest = v.oldest;
  serials = Ordered-Alike v.oldest n.next_serial n.entries es a v.serials;
  past = v.past;
  renamed = Renamed-Alike n.rename_depth n.entries es a v.renamed;
  dsts = DstsIn-Alike n.entries es a v.dsts;
  tokened = o;
  live = l;
  known = k;
  replayed = v.replayed;
}

changed-Since :
    (m n : Model) (es : List Entry) (tokens : Tokens)
    → Alike n.entries es
    → Since m n
    → ((t : Tag) → has (get t tokens) ≡ true → (has_tag t es || has (get t m.tokens)) ≡ true)
    → Since m (record n { entries = es; tokens = tokens })
changed-Since m n es tokens a s f = record {
  same_depth = s.same_depth;
  same_renames = s.same_renames;
  same_generations = s.same_generations;
  same_mask = s.same_mask;
  no_longer = omega (arith, length-Alike n.entries es a, s.no_longer);
  free_stays = λ r h. sym (uses_rename-Alike r n.entries es a) ∙ s.free_stays r h;
  tokens_from = f;
}

module _ (m n : Model) (v : Inv n) (s : Since m n) where
  popped_from :
      (t u : Tag) (es : List Entry)
      → Alike n.entries es
      → has (get u (pop t n.tokens)) ≡ true
      → (has_tag u es || has (get u m.tokens)) ≡ true
  popped_from t u es a h =
      ground (arith, get-pop t u n.tokens, s.tokens_from u, has_tag-Alike u n.entries es a)

  pub finished-Inv :
      (r : Option (Tag × ℕ)) (pre_tokens : Tokens)
      → Inv (finished r pre_tokens n).0 × Since m (finished r pre_tokens n).0
  unfolding finished
  finished-Inv none pre_tokens = (v, s)
  finished-Inv (some (t, value)) pre_tokens =
      let es = change t (finish_entry value) n.entries in
      let a = Alike-change t (finish_entry value) n.entries (keeps_finish value) in
      let same = Alike-refl n.entries in
      elim (Bool-cases (unfinished (find_tag t n.entries) && has (get t pre_tokens))) [
        | inl done ↦ rw done (
          changed-Inv n es (pop t n.tokens) a v
              (Tokened-finish t value n.tokens n.entries v.tokened)
              (TokensLive-pop t n.tokens n.entries es a v.live)
              (TokensKnown-pop t n.tokens v.known),
          changed-Since m n es (pop t n.tokens) a s (λ u. popped_from t u es a),
        )
        | inr dropped ↦ rw dropped (
          changed-Inv n n.entries (pop t n.tokens) same v
              (Tokened-pop t n.tokens n.entries v.tokened)
              (TokensLive-pop t n.tokens n.entries n.entries same v.live)
              (TokensKnown-pop t n.tokens v.known),
          changed-Since m n n.entries (pop t n.tokens) same s (λ u. popped_from t u n.entries same),
        )
      ]

  issued_from :
      (t u : Tag) (kind : Producer) (es : List Entry)
      → Alike n.entries es
      → issuable (find_tag t n.entries) ≡ true
      → has (get u (put t kind n.tokens)) ≡ true
      → (has_tag u es || has (get u m.tokens)) ≡ true
  issued_from t u kind es a i h = ground (
    arith,
    get-put t u kind n.tokens,
    s.tokens_from u,
    has_tag_of_find t n.entries i,
    has_tag-Alike u n.entries es a,
    same_tag_iff t u,
    ap (λ (x : Tag). has_tag x n.entries),
  )

  pub issued-Inv :
      (o : Option Tag) (kind : Producer)
      → is_unknown (some kind) ≡ false
      → Inv (issued o kind n).0 × Since m (issued o kind n).0
  unfolding issued
  issued-Inv none kind k = (v, s)
  issued-Inv (some t) kind k =
      let es = change t issue_entry n.entries in
      let a = Alike-change t issue_entry n.entries keeps_issue in
      let differ =
        TagsDiffer-of_slots n.entries
          (distinct-slots n.depth v.head n.tail n.entries v.head_in v.fits v.slots) in
      elim (Bool-cases (issuable (find_tag t n.entries))) [
        | inl issues ↦ rw issues (
          changed-Inv n es (put t kind n.tokens) a v
              (Tokened-issue t kind n.tokens n.entries differ issues v.tokened)
              (TokensLive-put t kind n.tokens n.entries es a issues v.live)
              (TokensKnown-put t kind n.tokens k v.known),
          changed-Since m n es (put t kind n.tokens) a s (λ u. issued_from t u kind es a issues),
        )
        | inr refused ↦ rw refused (v, s)
      ]
