-- ===== src/Club/Hub/Progress.antt =====
-- src/club/hub.cpp: entries that meet the conditions of src/club/log_entry.h are committed.
use mathlib.Core.Path.{subst}
use libclub.Prelude.{
  ◌≡◌, refl, sym, ap, ◌∙◌, Bool, true, false, ◌&&◌, List, [], ◌∷◌, Option, none, some, arith,
  Bool-cases, inl, inr, All,
}
use libclub.Generic.SortedSet.{holds}
use libclub.Club.MessageId.{MessageId, Uuid, lt, eq, ne}
use libclub.Club.MessageId.Total.{lt_asym}
use libclub.Club.MessageId.Orders.{uuids, eq_refl, eq_sound, lt_irreflexive, lt_total}
use libclub.Club.Message.{header, message_id}
use libclub.Club.LogEntry.{LogEntry, keys, is_fuse, acked_by_quorum, acked_by_alive}
use libclub.Club.LogEntry.Quorum.{UuidsAscend, acked_by_alive_lem, acked_by_quorum_lem}
use libclub.Club.Log.{Log}
use libclub.Club.Log.Valid.{IdsAscend}
use libclub.Club.Hub.Effects.{call_commit-SameLog}
use libclub.Club.Hub.LastFuse.{OwnKeys, FuseThere, FuseThere-unless_it}
use libclub.Club.Hub.Acked.{commits-commit_entry, own_keys, FuseThere-last_committable_fuse}
use libclub.Club.Hub.Commit.{InOrder, Left, commit_entry-InOrder}
use libclub.Club.Hub.{
  Hub, commit_it, examine, predecessor_of, knows, waits_for_predecessor, commit_entry, unless_it,
  commit_loop, live_nodes_of, last_committable_fuse, commit_what_was_seen_by_everyone,
}

-- The key of the last one of a map with at least one.
abbrev pub back : MessageId → List (MessageId × Uuid) → MessageId
back id [] = id
back id ((next, op) ∷ rest) = back next rest

-- `predecessors` is empty, or the last of them is the message.
abbrev pub LastIs : MessageId → List (MessageId × Uuid) → Type 0
LastIs last [] = Unit
LastIs last ((id, op) ∷ rest) = back id rest ≡ last

-- The conditions of src/club/log_entry.h, with the message that is the last one committed.
pub record Committable (last : MessageId) (e : LogEntry) : Type 0 where
  pub acks_ascend : UuidsAscend (keys e.acks)
  pub quorum_ascends : UuidsAscend e.quorum
  pub acked : (q : Uuid) → holds uuids q e.quorum ≡ true → holds uuids q (keys e.acks) ≡ true
  pub follows : LastIs last e.predecessors

-- Each entry follows the one before it.
abbrev pub Chain : MessageId → List (MessageId × LogEntry) → Type 0
Chain last [] = Unit
Chain last ((key, e) ∷ rest) = Committable last e × Chain key rest

-- The entries on top of a list, the last one first.
abbrev pub put_on_top : List (MessageId × LogEntry) → List LogEntry → List LogEntry
put_on_top [] l = l
put_on_top ((key, e) ∷ rest) l = put_on_top rest (e ∷ l)

predecessor_of-back :
    (last : MessageId) (known : Bool) (l : List (MessageId × Uuid)) (id : MessageId) (op : Uuid)
    (found : Option MessageId)
    → back id l ≡ last
    → predecessor_of last known found ((id, op) ∷ l) ≡ some last
unfolding predecessor_of
predecessor_of-back last known [] id op found k =
    let same : eq id last ≡ true = ap (eq id) (sym k) ∙ eq_refl id in
    rw (predecessor_of, same) (ap some k)
predecessor_of-back last known ((next, q) ∷ l) id op found k =
    predecessor_of-back last known l next q _ k

free_to_go :
    (h : Hub) (e : LogEntry)
    → LastIs h.log.last_committed e.predecessors
    → waits_for_predecessor h e ≡ false
unfolding waits_for_predecessor predecessor_of
free_to_go h e follows = by_predecessors e.predecessors refl follows
  where
    known : Bool
    known = knows h.configs (header e.message).config_id

    by_predecessors :
        (l : List (MessageId × Uuid))
        → e.predecessors ≡ l
        → LastIs h.log.last_committed l
        → waits_for_predecessor h e ≡ false
    by_predecessors [] k f = rw (waits_for_predecessor, k) refl
    by_predecessors ((id, op) ∷ l) k f =
        rw
          (
            waits_for_predecessor,
            k,
            predecessor_of-back h.log.last_committed _ l id op none f,
            eq_refl h.log.last_committed,
          )
          refl

-- A fuse that is not above the last one that can be committed.
abbrev NotAbove : MessageId → Option (MessageId × LogEntry) → Type 0
NotAbove id none = ⊥
NotAbove id (some (k, f)) = lt (message_id f.message) id ≡ false

abbrev Covered : Option (MessageId × LogEntry) → List (MessageId × LogEntry) → Type 0
Covered last m =
    All
      (λ (p : MessageId × LogEntry).
        is_fuse p.1.message ≡ true → NotAbove (message_id p.1.message) last)
      m

NotAbove-last_committable_fuse :
    (id : MessageId) (found : Option (MessageId × LogEntry)) (m : List (MessageId × LogEntry))
    → NotAbove id found
    → All (λ k. lt id k ≡ true) (keys m)
    → OwnKeys m
    → NotAbove id (last_committable_fuse found m)
unfolding last_committable_fuse
NotAbove-last_committable_fuse id found [] n a own = n
NotAbove-last_committable_fuse id found ((key, e) ∷ m) n a own =
    elim (Bool-cases (is_fuse e.message && acked_by_quorum e)) [
      | inl y ↦
          rw (last_committable_fuse, y)
            (NotAbove-last_committable_fuse id (some (key, e)) m
              (lt_asym id (message_id e.message) (ap (lt id) own.0 ∙ a.0)) a.1 own.1)
      | inr z ↦
          rw (last_committable_fuse, z) (NotAbove-last_committable_fuse id found m n a.1 own.1)
    ]

above_own :
    (key id : MessageId) (m : List (MessageId × LogEntry))
    → id ≡ key
    → All (λ k. lt key k ≡ true) (keys m)
    → All (λ k. lt id k ≡ true) (keys m)
above_own key id m o a = subst (λ z. All (λ k. lt z k ≡ true) (keys m)) (sym o) a

fully_acked : (last : MessageId) (e : LogEntry) → Committable last e → acked_by_quorum e ≡ true
fully_acked last e c = (acked_by_quorum_lem e c.acks_ascend c.quorum_ascends).1 c.acked

Covered-last_committable_fuse :
    (last : MessageId) (found : Option (MessageId × LogEntry)) (m : List (MessageId × LogEntry))
    → IdsAscend (keys m)
    → OwnKeys m
    → Chain last m
    → Covered (last_committable_fuse found m) m
unfolding last_committable_fuse
Covered-last_committable_fuse last found [] a own c = tt
Covered-last_committable_fuse last found ((key, e) ∷ m) a own c =
    elim (Bool-cases (is_fuse e.message)) [
      | inl y ↦
          let next : last_committable_fuse found ((key, e) ∷ m)
              ≡ last_committable_fuse (some (key, e)) m =
            rw (last_committable_fuse, y, fully_acked last e c.0) refl in
          subst (λ z. Covered z ((key, e) ∷ m)) (sym next)
            (
              λ _.
                  NotAbove-last_committable_fuse (message_id e.message) (some (key, e)) m
                    (lt_irreflexive (message_id e.message))
                    (above_own key (message_id e.message) m own.0 a.0) own.1,
              Covered-last_committable_fuse key (some (key, e)) m a.1 own.1 c.1,
            )
      | inr n ↦
          let next : last_committable_fuse found ((key, e) ∷ m) ≡ last_committable_fuse found m =
            rw (last_committable_fuse, n) refl in
          subst (λ z. Covered z ((key, e) ∷ m)) (sym next)
            (
              λ y. absurd (ground (arith, y, n)),
              Covered-last_committable_fuse key found m a.1 own.1 c.1,
            )
    ]

Covered-none :
    (k : MessageId) (f : LogEntry) (rest : List (MessageId × LogEntry))
    → All (λ y. lt (message_id f.message) y ≡ true) (keys rest)
    → OwnKeys rest
    → Covered (some (k, f)) rest
    → Covered none rest
Covered-none k f [] a own c = tt
Covered-none k f ((x, e) ∷ rest) a own c = (
  λ y. absurd (ground (arith, c.0 y, a.0, ap (lt (message_id f.message)) own.0)),
  Covered-none k f rest a.1 own.1 c.1,
)

Covered-unless_it :
    (key : MessageId) (e : LogEntry) (last : Option (MessageId × LogEntry))
    (rest : List (MessageId × LogEntry))
    → IdsAscend (key ∷ keys rest)
    → OwnKeys rest
    → FuseThere last ((key, e) ∷ rest)
    → Covered last rest
    → Covered (unless_it key last) rest
Covered-unless_it key e none rest a own t c = c
Covered-unless_it key e (some (k, f)) rest a own (_, _, o) c = elim (Bool-cases (eq key k)) [
  | inl y ↦ rw y (
      Covered-none k f rest
        (above_own key (message_id f.message) rest (o ∙ sym (eq_sound key k y)) a.0) own c)
  | inr n ↦ rw n c
]

examine_committable :
    (live : List Uuid) (last : Option (MessageId × LogEntry)) (e : LogEntry)
    → acked_by_alive e.acks live e.quorum ≡ true
    → (is_fuse e.message ≡ true → NotAbove (message_id e.message) last)
    → examine live last e ≡ commit_it
unfolding examine ne
examine_committable live last e acked c = elim (Bool-cases (is_fuse e.message)) [
  | inr n ↦ rw (examine, n, acked) refl
  | inl y ↦ by_last last y (c y)
]
  where
    by_last :
        (last : Option (MessageId × LogEntry))
        → is_fuse e.message ≡ true
        → NotAbove (message_id e.message) last
        → examine live last e ≡ commit_it
    by_last none y n = absurd n
    by_last (some (k, f)) y n =
        elim (Bool-cases (lt (message_id e.message) (message_id f.message))) [
          | inl b ↦ rw (examine, y, b, acked) refl
          | inr b ↦
              let same : eq (message_id e.message) (message_id f.message) ≡ true =
                ap (eq (message_id e.message)) (sym (lt_total _ _ b n))
                ∙ eq_refl (message_id e.message) in
              rw (examine, y, b, same) refl
        ]

last_committed-commit_entry :
    (key : MessageId) (e : LogEntry) (h : Hub)
    → (commit_entry key e h).log.last_committed ≡ message_id e.message
unfolding commit_entry
last_committed-commit_entry key e h =
    ap (λ (l : Log). l.last_committed) (call_commit-SameLog e _).log

-- The entries are gone from the log, and on top of what was committed.
abbrev AllOut : List (MessageId × LogEntry) → Hub → Hub → Type 0
AllOut rest h h' = (h'.log.entries ≡ []) × (h'.commits ≡ put_on_top rest h.commits)

commit_loop-AllOut :
    (live : List Uuid) (last : Option (MessageId × LogEntry)) (rest : List (MessageId × LogEntry))
    (h : Hub)
    → Left rest h
    → IdsAscend (keys rest)
    → OwnKeys rest
    → FuseThere last rest
    → Covered last rest
    → Chain h.log.last_committed rest
    → AllOut rest h (commit_loop live last rest h)
unfolding commit_loop
commit_loop-AllOut live last [] h l a own t c chain = (l.0, refl)
commit_loop-AllOut live last ((key, e) ∷ rest) h l a own t c chain =
    let acked = (acked_by_alive_lem e.acks live e.quorum).1 (λ q k _. chain.0.acked q k) in
    let its_id : (commit_entry key e h).log.last_committed ≡ key =
      last_committed-commit_entry key e h ∙ own.0 in
    let later =
      commit_loop-AllOut live (unless_it key last) rest (commit_entry key e h)
        (commit_entry-InOrder key e rest h l) a.1 own.1 (FuseThere-unless_it key e last rest t)
        (Covered-unless_it key e last rest a own.1 t c.1)
        (subst (λ z. Chain z rest) (sym its_id) chain.1) in
    rw (commit_loop, examine_committable live last e acked c.0, free_to_go h e chain.0.follows)
      (later.0, later.1 ∙ ap (put_on_top rest) (commits-commit_entry key e h))

-- If the log is valid, what was committed stands in the order of the ids and none of it is above
-- the last committed id, and each entry of the log meets the conditions of `LogEntry`, that every
-- node of its quorum is among those that acknowledged it and that it has no predecessors or the
-- last of them is the message before it (for the first entry, the message committed last), with
-- quorums and acknowledging nodes that ascend, then `commit_what_was_seen_by_everyone` commits all
-- the entries, fuses and user data, in the order of the log, each once, drops none of them, and
-- leaves the log empty.
pub commit_what_was_seen_by_everyone_all :
    (h : Hub)
    → InOrder h
    → Chain h.log.last_committed h.log.entries
    → ((commit_what_was_seen_by_everyone h).log.entries ≡ [])
      × ((commit_what_was_seen_by_everyone h).commits ≡ put_on_top h.log.entries h.commits)
unfolding commit_what_was_seen_by_everyone
commit_what_was_seen_by_everyone_all h i chain =
    let own = own_keys h.log.last_committed h.log.entries i.valid.proper in
    commit_loop-AllOut (live_nodes_of h) (last_committable_fuse none h.log.entries) h.log.entries h
      (refl, i) i.valid.ascend own (FuseThere-last_committable_fuse h i.valid)
      (Covered-last_committable_fuse h.log.last_committed none h.log.entries i.valid.ascend own
        chain)
      chain
