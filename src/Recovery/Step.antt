-- ===== src/Recovery/Step.antt =====
-- `RecoveryModel.step`, phase by phase, and `check_invariants`. The entries of the model stand for the
-- local list `survivors`, which the code stores back at the end and reads nowhere before.
use slo_ppc.Prelude.{
  ℕ, zero, suc, ◌+◌, ◌%◌, Bool, true, false, not, ◌&&◌, ◌||◌, Option, none, some, List, [], ◌∷◌,
  ◌++◌, ltb, ◌==◌, if◌then◌else◌, bit_and, length, take, set,
}
use slo_ppc.Recovery.Dict.{nat_eq, get, pop, put, has}
use slo_ppc.Recovery.State.{
  Tag, same_tag, tag_eq, Entry, Redirect, Producer, local, Rejection, inactive_pivot,
  irrevocable_retirement_head, Commit, Model, find_tag,
}

-- The keyword arguments of `step`.
pub record Input : Type 0 where
  pub allocate : Bool
  pub dst : Option ℕ
  pub fault : Bool
  pub issue : Option Tag
  pub producer_kind : Producer
  pub result : Option (Tag × ℕ)
  pub redirect : Option Redirect
  pub retire_ready : Bool

-- The index of the first entry with a tag.
unfoldable pub find_index : Tag → List Entry → Option ℕ
find_index t [] = none
find_index t (e ∷ es) =
    if same_tag e.tag t
    then some 0
    else elim (find_index t es) [ none ↦ none | some i ↦ some (suc i) ]

-- `e.tag in {e.tag for e in entries}`.
unfoldable pub has_tag : Tag → List Entry → Bool
has_tag t [] = false
has_tag t (e ∷ es) = same_tag e.tag t || has_tag t es

-- `found + int(keep_pivot)`; `none` if the pivot was not found.
abbrev pub cut_at : Option ℕ → Bool → Option ℕ
cut_at none keep = none
cut_at (some i) keep = some (if keep then i + 1 else i)

unfoldable pub cut_of : Redirect → List Entry → Option ℕ
cut_of r pre = elim r.pivot [ none ↦ some 0 | some t ↦ cut_at (find_index t pre) r.keep_pivot ]

-- `pre and pre[0].done`.
abbrev pub head_done : List Entry → Bool
head_done [] = false
head_done (e ∷ es) = e.done

-- What becomes of a redirect, with the entries that survive it.
pub record Cut : Type 0 where
  pub accepted : Bool
  pub rejected : Option Rejection
  pub survivors : List Entry

unfoldable pub decide_cut : Option ℕ → List Entry → Cut
decide_cut none pre = record { accepted = false; rejected = some inactive_pivot; survivors = pre }
decide_cut (some cut) pre =
    if (cut == 0) && head_done pre
    then record { accepted = false; rejected = some irrevocable_retirement_head; survivors = pre }
    else record { accepted = true; rejected = none; survivors = take cut pre }

unfoldable pub decide : Option Redirect → List Entry → Cut
decide none pre = record { accepted = false; rejected = none; survivors = pre }
decide (some r) pre = decide_cut (cut_of r pre) pre

-- The tags of the entries that do not survive.
unfoldable pub killed_of : List Entry → List Entry → List Tag
killed_of [] survivors = []
killed_of (e ∷ pre) survivors =
    let rest = killed_of pre survivors in if has_tag e.tag survivors then rest else e.tag ∷ rest

abbrev pub is_local : Option Producer → Bool
is_local (some local) = true
is_local _ = false

-- The local tokens of killed entries are cancelled.
unfoldable pub cancel : List Tag → List (Tag × Producer) → List (Tag × Producer)
cancel [] tokens = tokens
cancel (t ∷ ts) tokens = cancel ts (if is_local (get t tokens) then pop t tokens else tokens)

-- The slot after that of the last entry, or else `tail`.
unfoldable pub slot_after : ℕ → List Entry → ℕ → ℕ
slot_after depth [] tail = tail
slot_after depth (e ∷ es) tail = slot_after depth es ((e.tag.slot + 1) % depth)

-- `pre[0].tag.slot`, or else `tail`.
abbrev pub head_slot : List Entry → ℕ → ℕ
head_slot [] tail = tail
head_slot (e ∷ es) tail = e.tag.slot

unfoldable pub redirected : Model → Cut → Model
redirected m cut =
    if cut.accepted
    then record m {
      entries = cut.survivors;
      tail = slot_after m.depth cut.survivors (head_slot m.entries m.tail);
      tokens = cancel (killed_of m.entries cut.survivors) m.tokens;
    }
    else m

-- Apply a change to the first entry with a tag.
unfoldable pub change : Tag → (Entry → Entry) → List Entry → List Entry
change t f [] = []
change t f (e ∷ es) = if same_tag e.tag t then f e ∷ es else e ∷ change t f es

-- `entry is not None and not entry.done`.
abbrev pub unfinished : Option Entry → Bool
unfinished none = false
unfinished (some e) = not e.done

abbrev pub finish_entry : ℕ → Entry → Entry
finish_entry value e = record e { done = true; value = bit_and value 0xFFFF_FFFF }

-- A result takes its token; it finishes its entry if that lives and the token was there before.
unfoldable pub finished : Option (Tag × ℕ) → List (Tag × Producer) → Model → Model × Option Tag
finished none pre_tokens m = (m, none)
finished (some (t, value)) pre_tokens m =
    if unfinished (find_tag t m.entries) && has (get t pre_tokens)
    then (
      record m { tokens = pop t m.tokens; entries = change t (finish_entry value) m.entries },
      some t,
    )
    else (record m { tokens = pop t m.tokens }, none)

-- `pre and pre[0].done and pre[0].tag in keep and retire_ready`.
abbrev pub may_retire : List Entry → List Entry → Bool → Bool
may_retire [] survivors ready = false
may_retire (e ∷ pre) survivors ready = e.done && (has_tag e.tag survivors && ready)

-- `if head.dst is not None: self.arch[head.dst] = head.value`.
abbrev pub write_back : List ℕ → Option ℕ → ℕ → List ℕ
write_back arch none value = arch
write_back arch (some dst) value = set arch dst value

-- Retire the head. The test is false of an empty list.
unfoldable pub retired_head : Bool → List Entry → Model → Model × Option Commit
retired_head true (e ∷ es) m = (
  record m {
    entries = es;
    arch = write_back m.arch e.dst e.value;
    retired = m.retired ++ (e.serial, e.dst, e.value) ∷ [];
  },
  some (e.serial, e.dst, e.value),
)
retired_head _ _ m = (m, none)

-- `entry is not None and not entry.issued and not entry.done`.
abbrev pub issuable : Option Entry → Bool
issuable none = false
issuable (some e) = not e.issued && not e.done

abbrev pub issue_entry : Entry → Entry
issue_entry e = record e { issued = true }

unfoldable pub issued : Option Tag → Producer → Model → Model × Bool
issued none kind m = (m, false)
issued (some t) kind m =
    if issuable (find_tag t m.entries)
    then (record m { entries = change t issue_entry m.entries; tokens = put t kind m.tokens }, true)
    else (m, false)

-- Whether an entry of the list holds a rename register.
unfoldable pub uses_rename : ℕ → List Entry → Bool
uses_rename r [] = false
uses_rename r (e ∷ es) = elim e.rename [
  | none ↦ uses_rename r es
  | some q ↦ (q == r) || uses_rename r es
]

-- The first register from `i` on, of `n`, that no entry holds.
unfoldable pub free_rename : ℕ → ℕ → List Entry → Option ℕ
free_rename zero i pre = none
free_rename (suc n) i pre =
    let rest = free_rename n (i + 1) pre in if uses_rename i pre then rest else some i

-- `dst is not None and not fault`.
abbrev pub needs_rename : Option ℕ → Bool → Bool
needs_rename dst fault = has dst && not fault

-- The test of an allocation. Capacity, renames and tokens are those from before the edge.
unfoldable pub may_allocate :
    Input → Bool → Tag → Option ℕ → List Entry → Model → List (Tag × Producer) → Bool
may_allocate i accepted tag free pre m pre_tokens =
    i.allocate
    && (not accepted
        && (ltb (length pre) m.depth
            && ((not (needs_rename i.dst i.fault) || has free) && not (has (get tag pre_tokens)))))

abbrev pub new_entry : Input → Tag → ℕ → Option ℕ → Entry
new_entry i tag serial free = record {
  tag = tag;
  serial = serial;
  dst = if i.fault then none else i.dst;
  rename = if needs_rename i.dst i.fault then free else none;
  done = i.fault;
  value = 0;
  fault = i.fault;
  issued = false;
}

unfoldable pub allocated : Bool → Input → Tag → Option ℕ → Model → Model × Option Tag
allocated true i tag free m = (
  record m {
    entries = m.entries ++ new_entry i tag m.next_serial free ∷ [];
    next_serial = m.next_serial + 1;
    generations = set m.generations tag.slot tag.generation;
    tail = (m.tail + 1) % m.depth;
  },
  some tag,
)
allocated false i tag free m = (m, none)

-- `{e.dst: e.tag for e in survivors if e.dst is not None}`, from a dictionary so far.
unfoldable pub mapped : List Entry → List (ℕ × Tag) → List (ℕ × Tag)
mapped [] d = d
mapped (e ∷ es) d = mapped es (elim e.dst [ none ↦ d | some r ↦ put r e.tag d ])
