-- ===== src/Club/Log/Apply.antt =====
-- What the operations of src/club/log.h do to the entry of one message.
use mathlib.Core.Path.{subst}
use libclub.Prelude.{
  ◌≡◌, refl, sym, ap, ◌∙◌, false, List, [], ◌∷◌, Option, none, some, arith, Bool-cases,
  Option-cases, inl, inr, All,
}
use libclub.Generic.SortedMap.{find, put, remove, find-put}
use libclub.Club.MessageId.{MessageId, Uuid, le}
use libclub.Club.MessageId.Orders.{uuids, message_ids}
use libclub.Club.Message.{AckData, message_id, ack_data}
use libclub.Club.LogEntry.{LogEntry, original_poster}
use libclub.Club.Log.{
  Log, find_entry, get_predecessor, behind, absorb, apply_ack, add_predecessor, emplace,
  add_previous, add_to_next, set_up_predecessors, apply_all, apply_pending, move_out, apply_own,
  insert_entry, pending,
}

pub find-put_self :
    {V : Type 0} (id : MessageId) (v : V) (m : List (MessageId × V))
    → find message_ids id (put message_ids id v m) ≡ some v
find-put_self id v m = ground (arith, find-put message_ids id id v m, message_ids.same_refl id)

-- The map has the key.
abbrev pub Has : MessageId → List (MessageId × LogEntry) → Type 0
Has id entries = (e : LogEntry) × (find message_ids id entries ≡ some e)

Has-put :
    (id key : MessageId) (e : LogEntry) (entries : List (MessageId × LogEntry))
    → Has id entries
    → Has id (put message_ids key e entries)
Has-put id key e entries (e', h) = elim (Bool-cases (message_ids.same id key)) [
  | inl y ↦ (e, find-put message_ids id key e entries ∙ ground (arith, y))
  | inr n ↦ (e', find-put message_ids id key e entries ∙ ground (arith, n, h))
]

add_predecessor-Has :
    (id key p : MessageId) (op : Uuid) (entries : List (MessageId × LogEntry))
    → Has id entries
    → Has id (add_predecessor key p op entries)
unfolding add_predecessor
add_predecessor-Has id key p op entries h = elim (Option-cases (find message_ids key entries)) [
  | inl k ↦ rw (add_predecessor, k) h
  | inr (e, k) ↦ rw (add_predecessor, k) (Has-put id key _ entries h)
]

add_previous-Has :
    (id at : MessageId) (op : Uuid) (entries : List (MessageId × LogEntry))
    → Has id entries
    → Has id (add_previous at op entries)
unfolding add_previous
add_previous-Has id at op entries h = elim (Option-cases (get_predecessor at entries)) [
  | inl k ↦ rw (add_previous, k) h
  | inr (e, k) ↦ rw (add_previous, k) (add_predecessor-Has id at _ op entries h)
]

add_to_next-Has :
    (id at : MessageId) (op : Uuid) (entries : List (MessageId × LogEntry))
    → Has id entries
    → Has id (add_to_next at op entries)
unfolding add_to_next
add_to_next-Has id at op entries h = elim (Option-cases (behind at entries)) [
  | inl k ↦ rw (add_to_next, k) h
  | inr (e, k) ↦ rw (add_to_next, k) (add_predecessor-Has id e at op entries h)
]

pub set_up_predecessors-Has :
    (id : MessageId) (op : Uuid) (last : MessageId) (last_op : Uuid)
    (entries : List (MessageId × LogEntry))
    → Has id entries
    → Has id (set_up_predecessors id op last last_op entries)
unfolding set_up_predecessors
set_up_predecessors-Has id op last last_op entries h =
    add_to_next-Has id id op _
      (add_previous-Has id id op _ (add_predecessor-Has id id _ _ entries h))

abbrev pub absorb_all : List (Uuid × AckData) → LogEntry → LogEntry
absorb_all [] e = e
absorb_all ((op_id, ack) ∷ rest) e = absorb_all rest (absorb op_id ack e)

-- All the acknowledgements are of one message.
abbrev pub AllOf : MessageId → List (Uuid × AckData) → Type 0
AllOf id acks = All (λ (p : Uuid × AckData). p.1.acked_message_id ≡ id) acks

pub apply_ack-absorb :
    (id : MessageId) (op : Uuid) (ack : AckData) (log : Log) (e : LogEntry)
    → ack.acked_message_id ≡ id
    → find_entry log id ≡ some e
    → find_entry (apply_ack op ack log) id ≡ some (absorb op ack e)
unfolding apply_ack find_entry
apply_ack-absorb id op ack log e mine h =
    let there : find message_ids ack.acked_message_id log.entries ≡ some e =
      ap (λ z. find message_ids z log.entries) mine ∙ h in
    subst (λ z. find_entry (apply_ack op ack log) z ≡ some (absorb op ack e)) mine
      (rw (apply_ack, there) (find-put_self ack.acked_message_id (absorb op ack e) log.entries))

pub apply_ack_absent :
    (id : MessageId) (op : Uuid) (ack : AckData) (log : Log)
    → ack.acked_message_id ≡ id
    → find_entry log id ≡ none
    → apply_ack op ack log ≡ record log {
      pending_acks = put message_ids id (put uuids op ack (pending id log)) log.pending_acks;
    }
unfolding apply_ack find_entry
apply_ack_absent id op ack log mine h =
    let none_there : find message_ids ack.acked_message_id log.entries ≡ none =
      ap (λ z. find message_ids z log.entries) mine ∙ h in
    subst
      (λ z. apply_ack op ack log ≡ record log {
        pending_acks = put message_ids z (put uuids op ack (pending z log)) log.pending_acks;
      })
      mine (rw (apply_ack, none_there) refl)

pub apply_all-absorb_all :
    (id : MessageId) (acks : List (Uuid × AckData)) (log : Log) (e : LogEntry)
    → AllOf id acks
    → find_entry log id ≡ some e
    → find_entry (apply_all acks log) id ≡ some (absorb_all acks e)
unfolding apply_all
apply_all-absorb_all id [] log e a h = h
apply_all-absorb_all id ((op, ack) ∷ acks) log e a h =
    apply_all-absorb_all id acks (apply_ack op ack log) (absorb op ack e) a.1
      (apply_ack-absorb id op ack log e a.0 h)

pub apply_pending-absorb_all :
    (id : MessageId) (log : Log) (e : LogEntry)
    → AllOf id (pending id log)
    → find_entry log id ≡ some e
    → find_entry (apply_pending id log) id ≡ some (absorb_all (pending id log) e)
unfolding apply_pending find_entry
apply_pending-absorb_all id log e a h = elim (Option-cases (find message_ids id log.pending_acks)) [
  | inl k ↦
      let nothing : pending id log ≡ [] =
        ap (λ (z : Option (List (Uuid × AckData))). elim z [ none ↦ [] | some l ↦ l ]) k in
      rw (apply_pending, k) (h ∙ ap (λ z. some (absorb_all z e)) (sym nothing))
  | inr (acks, k) ↦
      let those : pending id log ≡ acks =
        ap (λ (z : Option (List (Uuid × AckData))). elim z [ none ↦ [] | some l ↦ l ]) k in
      let rest : Log = record log { pending_acks = remove message_ids id log.pending_acks } in
      rw (apply_pending, k)
        (apply_all-absorb_all id acks rest e (subst (AllOf id) those a) h
          ∙ ap (λ z. some (absorb_all z e)) (sym those))
]

abbrev pub moved : LogEntry → LogEntry
moved e = record e { message = move_out e.message }

pub apply_own-absorb :
    (id : MessageId) (from e : LogEntry) (log : Log)
    → (ack_data from.message).acked_message_id ≡ id
    → find_entry log id ≡ some e
    → find_entry (apply_own id from log) id
      ≡ some (absorb (original_poster from.message) (ack_data from.message) (moved e))
unfolding apply_own find_entry
apply_own-absorb id from e log a h =
    rw (apply_own, h)
      (apply_ack-absorb id (original_poster from.message) (ack_data from.message)
        (record log { entries = put message_ids id (moved e) log.entries }) (moved e) a
        (find-put_self id (moved e) log.entries))

-- What the entries of a log without one for the message become.
abbrev pub placed :
    LogEntry → MessageId → Uuid → List (MessageId × LogEntry) → List (MessageId × LogEntry)
placed e last last_op entries =
    set_up_predecessors (message_id e.message) (original_poster e.message) last last_op
      (put message_ids (message_id e.message) e entries)

pub placed-Has :
    (e : LogEntry) (last : MessageId) (last_op : Uuid) (entries : List (MessageId × LogEntry))
    → Has (message_id e.message) (placed e last last_op entries)
placed-Has e last last_op entries =
    set_up_predecessors-Has (message_id e.message) (original_poster e.message) last last_op _
      (e, find-put_self (message_id e.message) e entries)

abbrev pub entry_of : LogEntry → Log → LogEntry
entry_of e log = (placed-Has e log.last_committed log.last_commit_op log.entries).0

insert_entry_new :
    (e : LogEntry) (log : Log)
    → le (message_id e.message) log.last_committed ≡ false
    → find_entry log (message_id e.message) ≡ none
    → insert_entry e log
      ≡ apply_own (message_id e.message) e (
          apply_pending
            (message_id e.message)
            (record log { entries = placed e log.last_committed log.last_commit_op log.entries }))
unfolding insert_entry emplace find_entry
insert_entry_new e log later new =
    let here : emplace e log.entries ≡ put message_ids (message_id e.message) e log.entries =
      rw (emplace, new) refl in
    simp (insert_entry, later, here, find-put_self (message_id e.message) e log.entries) refl

-- A new entry takes in the acknowledgements that came before it, and then its own.
pub insert_entry-absorb_all :
    (e : LogEntry) (log : Log)
    → le (message_id e.message) log.last_committed ≡ false
    → find_entry log (message_id e.message) ≡ none
    → (ack_data e.message).acked_message_id ≡ message_id e.message
    → AllOf (message_id e.message) (pending (message_id e.message) log)
    → find_entry (insert_entry e log) (message_id e.message)
      ≡ some (
          absorb
            (original_poster e.message)
            (ack_data e.message)
            (moved (absorb_all (pending (message_id e.message) log) (entry_of e log))))
unfolding find_entry
insert_entry-absorb_all e log later new own all =
    let id = message_id e.message in
    ap (λ z. find_entry z id) (insert_entry_new e log later new)
    ∙ apply_own-absorb id e _
        (apply_pending id
          (record log { entries = placed e log.last_committed log.last_commit_op log.entries }))
        own
        (apply_pending-absorb_all id
          (record log { entries = placed e log.last_committed log.last_commit_op log.entries })
          (entry_of e log) all (placed-Has e log.last_committed log.last_commit_op log.entries).1)
