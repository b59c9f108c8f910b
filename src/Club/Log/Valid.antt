-- ===== src/Club/Log/Valid.antt =====
-- The entries of src/club/log.h stand under their own ids, in their order, above what was committed.
use mathlib.Core.Path.{subst}
use libclub.Prelude.{
  ◌≡◌, refl, sym, ap, ◌∙◌, true, List, [], ◌∷◌, some, arith, Bool-cases, Option-cases, inl, inr,
  All,
}
use libclub.Generic.SortedSet.{insert}
use libclub.Generic.SortedSet.Ascending.{Ascending, insert-Ascending}
use libclub.Generic.SortedMap.{find, put}
use libclub.Club.MessageId.{MessageId, Uuid, lt, le}
use libclub.Club.MessageId.Orders.{message_ids, message_ids_trans}
use libclub.Club.Message.{AckData, LogMessage, fuse, user_data, message_id}
use libclub.Club.LogEntry.{LogEntry, keys, original_poster}
use libclub.Club.Log.{
  Log, find_entry, get_predecessor, behind, absorb, apply_ack, add_predecessor, emplace,
  add_previous, add_to_next, set_up_predecessors, apply_all, apply_pending, move_out, apply_own,
  insert_entry,
}

abbrev pub IdsAscend : List MessageId → Type 0
IdsAscend = Ascending message_ids message_ids_trans

abbrev pub Proper : MessageId → MessageId × LogEntry → Type 0
Proper last p = (message_id p.1.message ≡ p.0) × (lt last p.0 ≡ true)

pub record EntriesAreValid (last : MessageId) (entries : List (MessageId × LogEntry)) : Type 0 where
  pub proper : All (Proper last) entries
  pub ascend : IdsAscend (keys entries)

abbrev pub IsValid : Log → Type 0
IsValid log = EntriesAreValid log.last_committed log.entries

keys-put :
    (x : MessageId) (v : LogEntry) (m : List (MessageId × LogEntry))
    → keys (put message_ids x v m) ≡ insert message_ids x (keys m)
unfolding put insert
keys-put x v [] = refl
keys-put x v ((k, w) ∷ m) = elim (Bool-cases (lt k x)) [
  | inl y ↦ rw (put, insert, y) (ap (λ z. k ∷ z) (keys-put x v m))
  | inr n ↦ elim (Bool-cases (lt x k)) [
    | inl y ↦ rw (put, insert, n, y) refl
    | inr j ↦ rw (put, insert, n, j) (ap (λ z. z ∷ keys m) (message_ids.total x k j n))
  ]
]

All-put :
    (P : MessageId × LogEntry → Type 0) (x : MessageId) (v : LogEntry)
    (m : List (MessageId × LogEntry))
    → P (x, v)
    → All P m
    → All P (put message_ids x v m)
unfolding put
All-put P x v [] h a = (h, tt)
All-put P x v ((k, w) ∷ m) h a = elim (Bool-cases (lt k x)) [
  | inl y ↦ rw (put, y) (a.0, All-put P x v m h a.1)
  | inr n ↦ elim (Bool-cases (lt x k)) [
    | inl y ↦ rw (put, n, y) (h, a)
    | inr j ↦ rw (put, n, j) (h, a.1)
  ]
]

All-find :
    (P : MessageId × LogEntry → Type 0) (x : MessageId) (v : LogEntry)
    (m : List (MessageId × LogEntry))
    → All P m
    → find message_ids x m ≡ some v
    → P (x, v)
unfolding find
All-find P x v [] a h = absurd (ground arith)
All-find P x v ((k, w) ∷ m) a h = elim (Bool-cases (message_ids.same x k)) [
  | inl y ↦
      let value : w ≡ v = ground (arith, h, y) in
      subst (λ z. P (x, z)) value (subst (λ z. P (z, w)) (sym (message_ids.same_sound x k y)) a.0)
  | inr n ↦ All-find P x v m a.1 (ground (arith, h, n))
]

module _ (last : MessageId) where
  put-EntriesAreValid :
      (x : MessageId) (v : LogEntry) (m : List (MessageId × LogEntry))
      → Proper last (x, v)
      → EntriesAreValid last m
      → EntriesAreValid last (put message_ids x v m)
  put-EntriesAreValid x v m h a = record {
    proper = All-put (Proper last) x v m h a.proper;
    ascend =
        subst IdsAscend (sym (keys-put x v m))
          (insert-Ascending message_ids message_ids_trans x (keys m) a.ascend);
  }

  -- An entry gives way to one with the message of the same id.
  replace-EntriesAreValid :
      (x : MessageId) (e e' : LogEntry) (m : List (MessageId × LogEntry))
      → find message_ids x m ≡ some e
      → message_id e'.message ≡ message_id e.message
      → EntriesAreValid last m
      → EntriesAreValid last (put message_ids x e' m)
  replace-EntriesAreValid x e e' m h k a =
      let (own, above) = All-find (Proper last) x e m a.proper h in
      put-EntriesAreValid x e' m (k ∙ own, above) a

  add_predecessor-EntriesAreValid :
      (key p : MessageId) (op : Uuid) (m : List (MessageId × LogEntry))
      → EntriesAreValid last m
      → EntriesAreValid last (add_predecessor key p op m)
  unfolding add_predecessor
  add_predecessor-EntriesAreValid key p op m a = elim (Option-cases (find message_ids key m)) [
    | inl k ↦ rw (add_predecessor, k) a
    | inr (e, k) ↦ rw (add_predecessor, k) (replace-EntriesAreValid key e _ m k refl a)
  ]

  set_up_predecessors-EntriesAreValid :
      (id : MessageId) (op : Uuid) (committed : MessageId) (committer : Uuid)
      (m : List (MessageId × LogEntry))
      → EntriesAreValid last m
      → EntriesAreValid last (set_up_predecessors id op committed committer m)
  unfolding set_up_predecessors add_previous add_to_next
  set_up_predecessors-EntriesAreValid id op committed committer m a =
      to_next _ (previous _ (add_predecessor-EntriesAreValid id committed committer m a))
    where
      previous :
          (m : List (MessageId × LogEntry))
          → EntriesAreValid last m
          → EntriesAreValid last (add_previous id op m)
      previous m a = elim (Option-cases (get_predecessor id m)) [
        | inl k ↦ rw (add_previous, k) a
        | inr (e, k) ↦ rw (add_previous, k) (add_predecessor-EntriesAreValid id _ op m a)
      ]

      to_next :
          (m : List (MessageId × LogEntry))
          → EntriesAreValid last m
          → EntriesAreValid last (add_to_next id op m)
      to_next m a = elim (Option-cases (behind id m)) [
        | inl k ↦ rw (add_to_next, k) a
        | inr (e, k) ↦ rw (add_to_next, k) (add_predecessor-EntriesAreValid e id op m a)
      ]

pub apply_ack-IsValid :
    (op : Uuid) (ack : AckData) (log : Log) → IsValid log → IsValid (apply_ack op ack log)
unfolding apply_ack find_entry absorb
apply_ack-IsValid op ack log a =
    elim (Option-cases (find message_ids ack.acked_message_id log.entries)) [
      | inl k ↦ rw (apply_ack, k) a
      | inr (e, k) ↦
          rw (apply_ack, k)
            (replace-EntriesAreValid log.last_committed ack.acked_message_id e (absorb op ack e)
              log.entries k refl a)
    ]

apply_all-IsValid :
    (acks : List (Uuid × AckData)) (log : Log) → IsValid log → IsValid (apply_all acks log)
unfolding apply_all
apply_all-IsValid [] log a = a
apply_all-IsValid ((op, ack) ∷ acks) log a =
    apply_all-IsValid acks (apply_ack op ack log) (apply_ack-IsValid op ack log a)

apply_pending-IsValid : (id : MessageId) (log : Log) → IsValid log → IsValid (apply_pending id log)
unfolding apply_pending
apply_pending-IsValid id log a = elim (Option-cases (find message_ids id log.pending_acks)) [
  | inl k ↦ rw (apply_pending, k) a
  | inr (acks, k) ↦ rw (apply_pending, k) (apply_all-IsValid acks _ a)
]

message_id-move_out : (m : LogMessage) → message_id (move_out m) ≡ message_id m
unfolding move_out message_id
message_id-move_out (fuse m) = refl
message_id-move_out (user_data m) = refl

apply_own-IsValid :
    (id : MessageId) (e : LogEntry) (log : Log) → IsValid log → IsValid (apply_own id e log)
unfolding apply_own find_entry
apply_own-IsValid id e log a = elim (Option-cases (find message_ids id log.entries)) [
  | inl k ↦ rw (apply_own, k) (apply_ack-IsValid _ _ log a)
  | inr (there, k) ↦
      rw (apply_own, k)
        (apply_ack-IsValid _ _ _ (
          replace-EntriesAreValid log.last_committed id there _ log.entries k
            (message_id-move_out there.message) a))
]

emplace-EntriesAreValid :
    (last : MessageId) (e : LogEntry) (m : List (MessageId × LogEntry))
    → lt last (message_id e.message) ≡ true
    → EntriesAreValid last m
    → EntriesAreValid last (emplace e m)
unfolding emplace
emplace-EntriesAreValid last e m h a =
    elim (Option-cases (find message_ids (message_id e.message) m)) [
      | inl k ↦ rw (emplace, k) (put-EntriesAreValid last (message_id e.message) e m (refl, h) a)
      | inr (there, k) ↦ rw (emplace, k) a
    ]

pub insert_entry-IsValid : (e : LogEntry) (log : Log) → IsValid log → IsValid (insert_entry e log)
unfolding insert_entry le
insert_entry-IsValid e log a = elim (Bool-cases (lt log.last_committed (message_id e.message))) [
  | inr old ↦ rw (insert_entry, old) a
  | inl later ↦
      let new = emplace-EntriesAreValid log.last_committed e log.entries later a in
      elim (Option-cases (find message_ids (message_id e.message) (emplace e log.entries))) [
        | inl k ↦ rw (insert_entry, later, k) new
        | inr (there, k) ↦
            rw (insert_entry, later, k)
              (apply_own-IsValid (message_id e.message) there _ (
                apply_pending-IsValid (message_id e.message) _ (
                  set_up_predecessors-EntriesAreValid log.last_committed (message_id e.message)
                    (original_poster there.message) log.last_committed log.last_commit_op _ new)))
      ]
]
