-- ===== src/Dispatch/Retirements.antt =====
-- What an accepted retirement does to the queue (`Rules.event` of sim/tools/check_dispatch_trace.py).
use slo_ppc.Prelude.{
  ℕ, suc, ◌+◌, ◌<◌, ◌≡◌, ◌∙◌, ◌⊎◌, inl, inr, refl, sym, ap, subst, arith, Bool, true, false, not,
  ◌&&◌, ◌||◌, List, ◌∷◌, drop, Option, none, some, ok, ltb, ◌==◌, Bool-cases, ltb→lt,
}
use slo_ppc.Dispatch.Classify.{InsnClass}
use slo_ppc.Dispatch.Rules.{
  Entry, Rules, Setup, cls, count_unknown, inflight_has, is_flushed, when_known,
}
use slo_ppc.Dispatch.Retire.{
  sru_latency_kept, check_reads, wrong_path_length, find_pc, lr_waits_kept, dser_kept,
  retired_entry, retire_found, retire_entry, retire_one, is_entry, block_after,
}
use slo_ppc.Dispatch.Counts.{account, settled}
use slo_ppc.Dispatch.Inversion.{bind-elim, demand-elim, ok_injective, raised}
use slo_ppc.Dispatch.Found.{StandsAt, find_pc-StandsAt, drop-drop}

-- What an accepted retirement of an entry does.
pub record Retirement (setup : Setup) (cycle pc : ℕ) (s t : Rules) : Type 0 where
  pub index : ℕ
  pub entry : Entry
  pub stands : drop index s.inflight ≡ entry ∷ t.inflight
  pub address : entry.pc ≡ pc
  pub before : entry.cycle < cycle
  pub unflushed : is_flushed entry.flush ≡ false
  pub first : (setup.flush ≡ true) ⊎ (index ≡ wrong_path_length s)
  pub blocked : t.block ≡ block_after entry.seq s.block
  pub numbered : t.seq ≡ s.seq
  pub counts : account t ≡ (s.stats.dispatches, settled s + suc index)

retired_entry-Retirement :
    (setup : Setup) (cycle pc : ℕ) (c : Option InsnClass) (wrong : ℕ) (found : ℕ × Entry)
    (s : Rules)
    → wrong ≡ wrong_path_length s
    → StandsAt pc (drop wrong s.inflight) found
    → (setup.flush || (found.0 == 0)) ≡ true
    → is_flushed found.1.flush ≡ false
    → found.1.cycle < cycle
    → Retirement setup cycle pc s (retired_entry cycle pc c wrong (wrong + found.0) found.1 s)
unfolding retired_entry
retired_entry-Retirement setup cycle pc c wrong (i, e) s w at first live_entry earlier = record {
  index = wrong + i;
  entry = e;
  stands =
      sym (drop-drop wrong i s.inflight)
      ∙ at.0
      ∙ ap (λ (l : List Entry). e ∷ l)
          (drop-drop wrong (i + 1) s.inflight
            ∙ ap (λ (n : ℕ). drop n s.inflight) (add_assoc_one wrong i));
  address = at.1;
  before = earlier;
  unflushed = live_entry;
  first = ground arith;
  blocked = refl;
  numbered = refl;
  counts = ap (λ (n : ℕ). (s.stats.dispatches, n)) (omega arith);
}
  where
    add_assoc_one : (m n : ℕ) → m + (n + 1) ≡ m + n + 1
    add_assoc_one m n = omega arith

abbrev last_check : ℕ → Option InsnClass → Bool
last_check slot c =
    not (slot == 1) || (not (when_known (λ k. not k.cq1) c) && not (when_known (λ k. k.cser) c))

retire_found-Retirement :
    (setup : Setup) (cycle slot pc : ℕ) (c : Option InsnClass) (o : Option (ℕ × Entry)) (s : Rules)
    {t : Rules}
    → ((found : ℕ × Entry)
        → o ≡ some found
        → StandsAt pc (drop (wrong_path_length s) s.inflight) found)
    → retire_found setup cycle slot pc c (wrong_path_length s) o s ≡ ok t
    → Retirement setup cycle pc s t
unfolding retire_found
retire_found-Retirement setup cycle slot pc c none s at h = absurd (raised h)
retire_found-Retirement setup cycle slot pc c (some (i, e)) s at h =
    let (a, h1) = demand-elim (setup.flush || (i == 0)) _ h in
    let (b, h2) = demand-elim (not (is_flushed e.flush)) _ h1 in
    let (x, h3) = demand-elim (lr_waits_kept cycle e.seq s.lr_waits) _ h2 in
    let (d, h4) = demand-elim (ltb e.cycle cycle) _ h3 in
    let (y, h5) = demand-elim (dser_kept cycle e.seq s.last_dser) _ h4 in
    let h6 = (demand-elim (last_check slot c) _ h5).1 in
    subst (λ (r : Rules). Retirement setup cycle pc s r) (ok_injective h6)
      (retired_entry-Retirement setup cycle pc c (wrong_path_length s) (i, e) s refl
        (at (i, e) refl) a (ground arith) (ltb→lt e.cycle cycle d))

pub retire_entry-Retirement :
    (setup : Setup) (cycle slot pc : ℕ) (c : Option InsnClass) (s : Rules) {t : Rules}
    → retire_entry setup cycle slot pc c s ≡ ok t
    → Retirement setup cycle pc s t
unfolding retire_entry
retire_entry-Retirement setup cycle slot pc c s h =
    retire_found-Retirement setup cycle slot pc c
      (find_pc pc (drop (wrong_path_length s) s.inflight)) s
      (λ found there. find_pc-StandsAt pc (drop (wrong_path_length s) s.inflight) there) h

-- Further work of an instruction that takes several.
pub record Continued (pc : ℕ) (s t : Rules) : Type 0 where
  pub again : is_entry pc s.last_retired_pc ≡ true
  pub absent : inflight_has pc s.inflight ≡ false
  pub same_inflight : t.inflight ≡ s.inflight
  pub same_block : t.block ≡ s.block
  pub same_seq : t.seq ≡ s.seq
  pub same_counts : account t ≡ account s

-- The tests before do not touch the queue.
record SameQueue (s r : Rules) : Type 0 where
  same_inflight : r.inflight ≡ s.inflight
  same_cond : r.cond_retired ≡ s.cond_retired
  same_block : r.block ≡ s.block
  same_seq : r.seq ≡ s.seq
  same_counts : account r ≡ account s
  same_last : r.last_retired_pc ≡ s.last_retired_pc

check_reads-SameQueue :
    (cycle pc : ℕ) (w : Option ℕ) (s : Rules) {r : Rules}
    → check_reads cycle pc w s ≡ ok r
    → SameQueue s r
unfolding check_reads
check_reads-SameQueue cycle pc none s h =
    subst (λ (x : Rules). SameQueue s x) (ok_injective h)
      (record {
        same_inflight = refl;
        same_cond = refl;
        same_block = refl;
        same_seq = refl;
        same_counts = refl;
        same_last = refl;
      })
check_reads-SameQueue cycle pc (some word) s h =
    subst (λ (x : Rules). SameQueue s x) (ok_injective (demand-elim _ _ h).1)
      (record {
        same_inflight = refl;
        same_cond = refl;
        same_block = refl;
        same_seq = refl;
        same_counts = refl;
        same_last = refl;
      })

count_unknown-SameQueue :
    (setup : Setup) (pc : ℕ) (s : Rules) → SameQueue s (count_unknown setup pc s)
unfolding count_unknown
count_unknown-SameQueue setup pc s = record {
  same_inflight = refl;
  same_cond = refl;
  same_block = refl;
  same_seq = refl;
  same_counts = refl;
  same_last = refl;
}

wrong_path_length-same : (s r : Rules) → SameQueue s r → wrong_path_length r ≡ wrong_path_length s
unfolding wrong_path_length
wrong_path_length-same s r q = rw (q.same_inflight, q.same_cond) refl

Retirement-same :
    (setup : Setup) (cycle pc : ℕ) (s r : Rules) {t : Rules}
    → SameQueue s r
    → Retirement setup cycle pc r t
    → Retirement setup cycle pc s t
Retirement-same setup cycle pc s r q k = record {
  index = k.index;
  entry = k.entry;
  stands = ap (λ (l : List Entry). drop k.index l) (sym q.same_inflight) ∙ k.stands;
  address = k.address;
  before = k.before;
  unflushed = k.unflushed;
  first = elim k.first [ inl all ↦ inl all | inr e ↦ inr (e ∙ wrong_path_length-same s r q) ];
  blocked = k.blocked ∙ ap (block_after k.entry.seq) q.same_block;
  numbered = k.numbered ∙ q.same_seq;
  counts = k.counts ∙ ap (λ (a : ℕ × ℕ). (a.0, a.1 + suc k.index)) q.same_counts;
}

pub retire_one-cases :
    (setup : Setup) (cycle slot pc : ℕ) (s : Rules) {t : Rules}
    → retire_one setup cycle slot pc s ≡ ok t
    → Continued pc s t ⊎ Retirement setup cycle pc s t
unfolding retire_one
retire_one-cases setup cycle slot pc s {t} h =
    let c = cls setup pc in
    let counted = record (count_unknown setup pc s) { last_retire_cycle = some cycle } in
    let (a, h1) = demand-elim (sru_latency_kept cycle c s.last_retire_cycle) _ h in
    bind-elim (check_reads cycle pc (setup.words pc) counted) _ h1 λ read hr h2.
      let q =
        both s read (count_unknown-SameQueue setup pc s)
          (check_reads-SameQueue cycle pc (setup.words pc) counted hr) in
      let again =
        when_known (λ k. k.multiple) c
        && (is_entry pc read.last_retired_pc && not (inflight_has pc read.inflight)) in
      elim (Bool-cases again) [
        | inl yes_again ↦
            inl
              (continued s read q (ground arith) (ground arith) (ok_injective (rw yes_again at h2)))
        | inr other ↦ inr (
            Retirement-same setup cycle pc s read q
              (retire_entry-Retirement setup cycle slot pc c read (rw other at h2)))
      ]
  where
    both :
        (s read : Rules)
        → SameQueue s (count_unknown setup pc s)
        → SameQueue (record (count_unknown setup pc s) { last_retire_cycle = some cycle }) read
        → SameQueue s read
    both s read p q = record {
      same_inflight = q.same_inflight ∙ p.same_inflight;
      same_cond = q.same_cond ∙ p.same_cond;
      same_block = q.same_block ∙ p.same_block;
      same_seq = q.same_seq ∙ p.same_seq;
      same_counts = q.same_counts ∙ p.same_counts;
      same_last = q.same_last ∙ p.same_last;
    }

    continued :
        (s read : Rules)
        → SameQueue s read
        → is_entry pc read.last_retired_pc ≡ true
        → inflight_has pc read.inflight ≡ false
        → read ≡ t
        → Continued pc s t
    continued s read q a b e =
        subst (λ (x : Rules). Continued pc s x) e
          (record {
            again = subst (λ o. is_entry pc o ≡ true) q.same_last a;
            absent = subst (λ l. inflight_has pc l ≡ false) q.same_inflight b;
            same_inflight = q.same_inflight;
            same_block = q.same_block;
            same_seq = q.same_seq;
            same_counts = q.same_counts;
          })
