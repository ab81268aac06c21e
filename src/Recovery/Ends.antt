-- ===== src/Recovery/Ends.antt =====
-- Retiring the head and allocating an entry: both keep the invariant. A retirement needs the head to be
-- done, and an allocation goes by the capacity, the renames and the tokens from before the edge.
use slo_ppc.Prelude.{
  ℕ, zero, suc, ◌+◌, ◌%◌, ◌≡◌, refl, arith, Bool, true, false, ◌&&◌, ◌||◌, Option, none, some, List,
  [], ◌∷◌, ◌++◌, length, replicate, ap, ◌∙◌, sym, subst, inl, inr, Bool-cases,
}
use slo_ppc.Recovery.Dict.{get, has}
use slo_ppc.Recovery.State.{Tag, same_tag, same_tag_iff, tag_eq, Entry, Model, find_tag}
use slo_ppc.Recovery.Step.{
  has_tag, uses_rename, write_back, Cut, redirected, change, finish_entry, finished, unfinished,
  may_retire, head_done, retired_head,
}
use slo_ppc.Recovery.Queue.{Contiguous, Ordered, Renamed, DstsIn}
use slo_ppc.Recovery.Cutting.{uses_rename-tail}
use slo_ppc.Recovery.Tokens.{Tokens, Tokened, TokensLive, TokensLive-tail}
use slo_ppc.Recovery.Phases.{IsCut}
use slo_ppc.Recovery.Invariant.{Inv, Since, replay-append, Ascending-append, length-write_back}

-- The head of the entries, and of those that survive, is done if the head retires.
head_done_of :
    (pre : List Entry) (cut : Cut) (ready : Bool)
    → IsCut pre cut
    → may_retire pre cut.survivors ready ≡ true
    → head_done cut.survivors ≡ true
unfolding has_tag
head_done_of [] cut ready c h = cc
head_done_of (e ∷ pre) cut ready (inl (a, (zero, k))) h = ground (arith, ap (has_tag e.tag) k)
head_done_of (e ∷ pre) cut ready (inl (a, (suc n, k))) h = rw k (ground arith)
head_done_of (e ∷ pre) cut ready (inr (a, k)) h = rw k (ground arith)

pub redirected-entries :
    (m : Model) (cut : Cut) → IsCut m.entries cut → (redirected m cut).entries ≡ cut.survivors
unfolding redirected
redirected-entries m cut (inl (a, k)) = rw a refl
redirected-entries m cut (inr (a, k)) = rw a (sym k)

head_done-change :
    (t : Tag) (value : ℕ) (es : List Entry)
    → head_done es ≡ true
    → head_done (change t (finish_entry value) es) ≡ true
unfolding change
head_done-change t value [] h = h
head_done-change t value (e ∷ es) h = ground arith

head_done-finished :
    (r : Option (Tag × ℕ)) (tokens : Tokens) (n : Model)
    → head_done n.entries ≡ true
    → head_done (finished r tokens n).0.entries ≡ true
unfolding finished
head_done-finished none tokens n h = h
head_done-finished (some (t, value)) tokens n h =
    elim (Bool-cases (unfinished (find_tag t n.entries) && has (get t tokens))) [
      | inl done ↦ rw done (head_done-change t value n.entries h)
      | inr dropped ↦ rw dropped h
    ]

-- If an entry retires, the head of the queue is done after the result has been taken.
pub retires-head_done :
    (m : Model) (cut : Cut) (ready : Bool) (r : Option (Tag × ℕ))
    → IsCut m.entries cut
    → may_retire m.entries cut.survivors ready ≡ true
    → head_done (finished r m.tokens (redirected m cut)).0.entries ≡ true
retires-head_done m cut ready r c h =
    head_done-finished r m.tokens (redirected m cut)
      (rw (redirected-entries m cut c) (head_done_of m.entries cut ready c h))

has_tag-cons :
    (t : Tag) (e : Entry) (es : List Entry)
    → has_tag t (e ∷ es) ≡ (same_tag e.tag t || has_tag t es)
unfolding has_tag
has_tag-cons t e es = refl

-- The model once its head has retired.
without_head : Model → Entry → List Entry → Model
without_head n e es = record n {
  entries = es;
  arch = write_back n.arch e.dst e.value;
  retired = n.retired ++ (e.serial, e.dst, e.value) ∷ [];
}

module _ (n : Model) (e : Entry) (es : List Entry) (q : n.entries ≡ e ∷ es) (v : Inv n) where
  without_head-Inv : e.done ≡ true → Inv (without_head n e es)
  unfolding without_head
  without_head-Inv d = record {
    generations_size = v.generations_size;
    arch_size = length-write_back n.arch e.dst e.value ∙ v.arch_size;
    tail_in = v.tail_in;
    head = (v.head + 1) % n.depth;
    head_in = omega (arith, v.head_in);
    slots = slots.1;
    fits = omega (arith, v.fits, ap length q);
    oldest = e.serial + 1;
    serials = serials.1;
    past = Ascending-append 0 v.oldest n.retired (e.serial, e.dst, e.value) v.past serials.0;
    renamed = renamed.1;
    dsts = dsts.1;
    tokened = tokened.1;
    live = TokensLive-tail n.tokens e es d tokened.0 live;
    known = v.known;
    replayed =
        ap (λ (a : List ℕ). write_back a e.dst e.value) v.replayed
        ∙ sym (replay-append (replicate 32 0) n.retired (e.serial, e.dst, e.value));
  }
    where
      slots : Contiguous n.depth v.head (e ∷ es) n.tail
      slots = subst (λ (x : List Entry). Contiguous n.depth v.head x n.tail) q v.slots

      serials : Ordered v.oldest (e ∷ es) n.next_serial
      serials = subst (λ (x : List Entry). Ordered v.oldest x n.next_serial) q v.serials

      renamed : Renamed n.rename_depth (e ∷ es)
      renamed = subst (λ (x : List Entry). Renamed n.rename_depth x) q v.renamed

      dsts : DstsIn (e ∷ es)
      dsts = subst (λ (x : List Entry). DstsIn x) q v.dsts

      tokened : Tokened n.tokens (e ∷ es)
      tokened = subst (λ (x : List Entry). Tokened n.tokens x) q v.tokened

      live : TokensLive n.tokens (e ∷ es)
      live = subst (λ (x : List Entry). TokensLive n.tokens x) q v.live

  without_head-Since : (m : Model) → e.done ≡ true → Since m n → Since m (without_head n e es)
  unfolding without_head
  without_head-Since m d s = record {
    same_depth = s.same_depth;
    same_renames = s.same_renames;
    same_generations = s.same_generations;
    same_mask = s.same_mask;
    no_longer = omega (arith, s.no_longer, ap length q);
    free_stays = λ r h. ground (arith, tail_free r, s.free_stays r h, ap (uses_rename r) q);
    tokens_from = λ t h. ground (
      arith,
      s.tokens_from t h,
      ap (has_tag t) q,
      has_tag-cons t e es,
      same_tag_iff e.tag t,
      ap (λ (x : Tag). has (get x n.tokens)),
      tokened.0,
    );
  }
    where
      tail_free : (r : ℕ) → uses_rename r (e ∷ es) ≡ false → uses_rename r es ≡ false
      tail_free r h = uses_rename-tail r e es h

      tokened : Tokened n.tokens (e ∷ es)
      tokened = subst (λ (x : List Entry). Tokened n.tokens x) q v.tokened

retired_entries-Inv :
    (b : Bool) (m n : Model) (es : List Entry)
    → n.entries ≡ es
    → Inv n
    → Since m n
    → (b ≡ true → head_done es ≡ true)
    → Inv (retired_head b es n).0 × Since m (retired_head b es n).0
unfolding retired_head without_head
retired_entries-Inv true m n [] q v s d = (v, s)
retired_entries-Inv true m n (e ∷ es) q v s d =
    (without_head-Inv n e es q v (d refl), without_head-Since n e es q v m (d refl) s)
retired_entries-Inv false m n es q v s d = (v, s)

pub retired_head-Inv :
    (b : Bool) (m n : Model)
    → Inv n
    → Since m n
    → (b ≡ true → head_done n.entries ≡ true)
    → Inv (retired_head b n.entries n).0 × Since m (retired_head b n.entries n).0
retired_head-Inv b m n v s d = retired_entries-Inv b m n n.entries refl v s d
