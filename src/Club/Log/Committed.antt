-- ===== src/Club/Log/Committed.antt =====
-- src/club/log.h: neither a message nor an acknowledgement changes what was committed.
use libclub.Prelude.{◌≡◌, refl, ◌∙◌, List, [], ◌∷◌, Bool-cases, Option-cases, inl, inr}
use libclub.Generic.SortedMap.{find}
use libclub.Club.MessageId.{MessageId, Uuid, le}
use libclub.Club.MessageId.Orders.{message_ids}
use libclub.Club.Message.{AckData, message_id}
use libclub.Club.LogEntry.{LogEntry}
use libclub.Club.Log.{
  Log, find_entry, apply_ack, emplace, apply_all, apply_pending, apply_own, insert_entry,
}

pub committed-apply_ack :
    (op : Uuid) (ack : AckData) (log : Log)
    → (apply_ack op ack log).last_committed ≡ log.last_committed
unfolding apply_ack find_entry
committed-apply_ack op ack log =
    elim (Option-cases (find message_ids ack.acked_message_id log.entries)) [
      | inl k ↦ rw (apply_ack, k) refl
      | inr (e, k) ↦ rw (apply_ack, k) refl
    ]

committed-apply_all :
    (acks : List (Uuid × AckData)) (log : Log)
    → (apply_all acks log).last_committed ≡ log.last_committed
unfolding apply_all
committed-apply_all [] log = refl
committed-apply_all ((op, ack) ∷ acks) log =
    committed-apply_all acks (apply_ack op ack log) ∙ committed-apply_ack op ack log

committed-apply_pending :
    (id : MessageId) (log : Log) → (apply_pending id log).last_committed ≡ log.last_committed
unfolding apply_pending
committed-apply_pending id log = elim (Option-cases (find message_ids id log.pending_acks)) [
  | inl k ↦ rw (apply_pending, k) refl
  | inr (acks, k) ↦ rw (apply_pending, k) (committed-apply_all acks _)
]

committed-apply_own :
    (id : MessageId) (e : LogEntry) (log : Log)
    → (apply_own id e log).last_committed ≡ log.last_committed
unfolding apply_own find_entry
committed-apply_own id e log = elim (Option-cases (find message_ids id log.entries)) [
  | inl k ↦ rw (apply_own, k) (committed-apply_ack _ _ log)
  | inr (there, k) ↦ rw (apply_own, k) (committed-apply_ack _ _ _)
]

pub committed-insert_entry :
    (e : LogEntry) (log : Log) → (insert_entry e log).last_committed ≡ log.last_committed
unfolding insert_entry
committed-insert_entry e log = elim (Bool-cases (le (message_id e.message) log.last_committed)) [
  | inl old ↦ rw (insert_entry, old) refl
  | inr later ↦
      elim (Option-cases (find message_ids (message_id e.message) (emplace e log.entries))) [
        | inl k ↦ rw (insert_entry, later, k) refl
        | inr (there, k) ↦
            rw (insert_entry, later, k)
              (committed-apply_own _ there _ ∙ committed-apply_pending _ _)
      ]
]
