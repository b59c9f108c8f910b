-- ===== src/Club/Hub/Commit.antt =====
-- src/club/hub.cpp: the ids of what is committed rise.
use mathlib.Core.Path.{subst}
use libclub.Prelude.{
  ◌≡◌, refl, sym, ap, ◌∙◌, true, false, List, [], ◌∷◌, Option, none, arith, Bool-cases, inl, inr,
  All,
}
use libclub.Generic.SortedMap.{remove}
use libclub.Club.MessageId.{MessageId, Uuid, lt}
use libclub.Club.MessageId.Total.{lt_next}
use libclub.Club.MessageId.Orders.{message_ids, lt_irreflexive}
use libclub.Club.Message.{message_id}
use libclub.Club.LogEntry.{LogEntry, keys}
use libclub.Club.Log.{Log}
use libclub.Club.Log.Valid.{IdsAscend, Proper, EntriesAreValid, IsValid}
use libclub.Club.Hub.Effects.{SameLog, call_commit-SameLog}
use libclub.Club.Hub.{
  Hub, Verdict, stop, drop, commit_it, examine, waits_for_predecessor, drop_entry, commit_entry,
  unless_it, commit_loop, live_nodes_of, last_committable_fuse, commit_what_was_seen_by_everyone,
}

-- The ids of messages, the last one first, each above those behind it.
abbrev pub Falls : List LogEntry → Type 0
Falls [] = Unit
Falls (e ∷ l) =
    All (λ (c : LogEntry). lt (message_id c.message) (message_id e.message) ≡ true) l × Falls l

abbrev pub NoneAbove : MessageId → List LogEntry → Type 0
NoneAbove last l = All (λ (c : LogEntry). lt last (message_id c.message) ≡ false) l

-- The log is valid, what was committed was so in the order of the ids, and none of it is above
-- `last_committed`.
pub record InOrder (h : Hub) : Type 0 where
  pub valid : IsValid h.log
  pub falls : Falls h.commits
  pub none_above : NoneAbove h.log.last_committed h.commits

remove_below :
    (k : MessageId) (m : List (MessageId × LogEntry))
    → All (λ y. lt k y ≡ true) (keys m)
    → remove message_ids k m ≡ m
unfolding remove
remove_below k [] a = refl
remove_below k ((x, e) ∷ m) a =
    let differs : message_ids.same k x ≡ false = ground (
      arith,
      a.0,
      message_ids.irreflexive k,
      λ (h : message_ids.same k x ≡ true). ap (lt k) (message_ids.same_sound k x h),
    ) in
    rw (remove, differs) (ap (λ z. (x, e) ∷ z) (remove_below k m a.1))

Proper-above :
    (last k : MessageId) (m : List (MessageId × LogEntry))
    → All (λ y. lt k y ≡ true) (keys m)
    → All (Proper last) m
    → All (Proper k) m
Proper-above last k [] a p = tt
Proper-above last k ((x, e) ∷ m) a p = ((p.0.0, a.0), Proper-above last k m a.1 p.1)

all_below :
    (last new : MessageId) (l : List LogEntry)
    → lt last new ≡ true
    → NoneAbove last l
    → All (λ (c : LogEntry). lt (message_id c.message) new ≡ true) l × NoneAbove new l
all_below last new [] h a = (tt, tt)
all_below last new (c ∷ l) h a =
    let (one, other) = lt_next last new (message_id c.message) a.0 h in
    let (ones, others) = all_below last new l h a.1 in ((one, ones), (other, others))

-- What is known when the first entry leaves the log.
record Taken (key : MessageId) (e : LogEntry) (rest : List (MessageId × LogEntry)) (h : Hub)
    : Type 0 where
  pub left : remove message_ids key h.log.entries ≡ rest
  pub its_key : message_id e.message ≡ key
  pub above : lt h.log.last_committed (message_id e.message) ≡ true
  pub valid : EntriesAreValid (message_id e.message) (remove message_ids key h.log.entries)

taken :
    (key : MessageId) (e : LogEntry) (rest : List (MessageId × LogEntry)) (h : Hub)
    → h.log.entries ≡ (key, e) ∷ rest
    → IsValid h.log
    → Taken key e rest h
unfolding remove
taken key e rest h k v =
    let proper : All (Proper h.log.last_committed) ((key, e) ∷ rest) =
      subst (All (Proper h.log.last_committed)) k v.proper in
    let ascend : IdsAscend (key ∷ keys rest) = subst (λ z. IdsAscend (keys z)) k v.ascend in
    let left : remove message_ids key h.log.entries ≡ rest =
      ap (remove message_ids key) k
      ∙ rw (remove, message_ids.same_refl key) (remove_below key rest ascend.0) in
    let own = proper.0.0 in
    record {
      left = left;
      its_key = own;
      above = ap (lt h.log.last_committed) own ∙ proper.0.1;
      valid =
          subst (λ z. EntriesAreValid z (remove message_ids key h.log.entries)) (sym own)
            (subst (EntriesAreValid key) (sym left) (record {
              proper = Proper-above h.log.last_committed key rest ascend.0 proper.1;
              ascend = ascend.1;
            }));
    }

-- The entries that are left, in order.
abbrev pub Left : List (MessageId × LogEntry) → Hub → Type 0
Left rest h = (h.log.entries ≡ rest) × InOrder h

pub drop_entry-InOrder :
    (key : MessageId) (e : LogEntry) (rest : List (MessageId × LogEntry)) (h : Hub)
    → Left ((key, e) ∷ rest) h
    → Left rest (drop_entry key e h)
unfolding drop_entry
drop_entry-InOrder key e rest h (k, i) =
    let t = taken key e rest h k i.valid in
    (
      t.left,
      record {
        valid = t.valid;
        falls = i.falls;
        none_above = (all_below _ _ h.commits t.above i.none_above).1;
      },
    )

SameLog-Left :
    (rest : List (MessageId × LogEntry)) (a b : Hub) → SameLog a b → Left rest b → Left rest a
SameLog-Left rest a b s (k, i) = (
  ap (λ (l : Log). l.entries) s.log ∙ k,
  record {
    valid = subst IsValid (sym s.log) i.valid;
    falls = subst Falls (sym s.commits) i.falls;
    none_above =
        subst (λ (l : Log). NoneAbove l.last_committed a.commits) (sym s.log)
          (subst (NoneAbove b.log.last_committed) (sym s.commits) i.none_above);
  },
)

pub commit_entry-InOrder :
    (key : MessageId) (e : LogEntry) (rest : List (MessageId × LogEntry)) (h : Hub)
    → Left ((key, e) ∷ rest) h
    → Left rest (commit_entry key e h)
unfolding commit_entry
commit_entry-InOrder key e rest h (k, i) =
    let t = taken key e rest h k i.valid in
    let (below, none_above) = all_below _ _ h.commits t.above i.none_above in
    SameLog-Left rest _ _ (call_commit-SameLog e _) (
      t.left,
      record {
        valid = t.valid;
        falls = (below, i.falls);
        none_above = (lt_irreflexive (message_id e.message), none_above);
      },
    )

commit_loop-InOrder :
    (live : List Uuid) (last : Option (MessageId × LogEntry)) (rest : List (MessageId × LogEntry))
    (h : Hub)
    → Left rest h
    → InOrder (commit_loop live last rest h)
unfolding commit_loop
commit_loop-InOrder live last [] h l = l.1
commit_loop-InOrder live last ((key, e) ∷ rest) h l =
    by_verdict (examine live last e) refl
      (commit_loop-InOrder live last rest _ (drop_entry-InOrder key e rest h l))
      (commit_loop-InOrder live (unless_it key last) rest _ (commit_entry-InOrder key e rest h l))
  where
    by_verdict :
        (v : Verdict)
        → examine live last e ≡ v
        → InOrder (commit_loop live last rest (drop_entry key e h))
        → InOrder (commit_loop live (unless_it key last) rest (commit_entry key e h))
        → InOrder (commit_loop live last ((key, e) ∷ rest) h)
    by_verdict stop k d c = rw (commit_loop, k) l.1
    by_verdict drop k d c = rw (commit_loop, k) d
    by_verdict commit_it k d c = elim (Bool-cases (waits_for_predecessor h e)) [
      | inl y ↦ rw (commit_loop, k, y) l.1
      | inr n ↦ rw (commit_loop, k, n) c
    ]

-- x
pub commit_what_was_seen_by_everyone-InOrder :
    (h : Hub) → InOrder h → InOrder (commit_what_was_seen_by_everyone h)
unfolding commit_what_was_seen_by_everyone
commit_what_was_seen_by_everyone-InOrder h i =
    commit_loop-InOrder (live_nodes_of h) (last_committable_fuse none h.log.entries) h.log.entries h
      (refl, i)
