-- ===== src/Club/Log.antt =====
-- src/club/log.h: the messages that wait to be committed, in the order of their ids, and the
-- acknowledgements of those that did not arrive yet.
pub mod Apply
pub mod Orderless
pub mod Valid
pub mod Committed
pub mod Predecessor
mod Tests
use libclub.Prelude.{
  Bool, true, false, ◌&&◌, not, List, [], ◌∷◌, Option, none, some, if◌then◌else◌, map,
}
use libclub.Generic.SortedSet.{Order, insert, holds}
use libclub.Generic.SortedMap.{find, put, remove}
use libclub.Club.MessageId.{MessageId, Uuid, no_message, lt, le}
use libclub.Club.MessageId.Orders.{uuids, message_ids}
use libclub.Club.Message.{AckData, LogMessage, fuse, user_data, message_id, ack_data}
use libclub.Club.LogEntry.{LogEntry, original_poster, is_fuse}

pub record Log : Type 0 where
  pub entries : List (MessageId × LogEntry)
  pub last_fuse_commit : MessageId
  pub last_committed : MessageId
  pub last_commit_op : Uuid
  pub pending_acks : List (MessageId × List (Uuid × AckData))

pub find_entry : Log → MessageId → Option LogEntry
find_entry log clock = find message_ids clock log.entries

-- What stands before `lower_bound`.
pub before : MessageId → Option LogEntry → List (MessageId × LogEntry) → Option LogEntry
before supremum last [] = last
before supremum last ((id, e) ∷ rest) =
    let later = before supremum (some e) rest in if lt id supremum then later else last

pub get_predecessor : MessageId → List (MessageId × LogEntry) → Option LogEntry
get_predecessor supremum entries = before supremum none entries

pub get_predecessor_time : MessageId → List (MessageId × LogEntry) → MessageId
get_predecessor_time supremum entries = elim (get_predecessor supremum entries) [
  | none ↦ no_message
  | some p ↦ message_id p.message
]

-- What stands behind the entry.
pub behind : MessageId → List (MessageId × LogEntry) → Option MessageId
behind id [] = none
behind id ((k, e) ∷ rest) = let later = behind id rest in if lt id k then some k else later

pub highest_fuse : Option LogEntry → List (MessageId × LogEntry) → Option LogEntry
highest_fuse found [] = found
highest_fuse found ((id, e) ∷ rest) =
    highest_fuse (if is_fuse e.message then some e else found) rest

pub find_highest_fuse_entry : Log → Option LogEntry
find_highest_fuse_entry log = highest_fuse none log.entries

pub insert_all : List Uuid → List Uuid → List Uuid
insert_all [] quorum = quorum
insert_all (q ∷ qs) quorum = insert_all qs (insert uuids q quorum)

-- What `apply_ack` does to an entry.
pub absorb : Uuid → AckData → LogEntry → LogEntry
absorb op_id ack e = record e {
  quorum = insert_all ack.neighbors e.quorum;
  acks = put uuids op_id ack e.acks;
  predecessors = put message_ids ack.prev_message_id op_id e.predecessors;
}

-- `pending_acks[id]`
abbrev pub pending : MessageId → Log → List (Uuid × AckData)
pending id log = elim (find message_ids id log.pending_acks) [ none ↦ [] | some acks ↦ acks ]

pub apply_ack : Uuid → AckData → Log → Log
apply_ack op_id ack log = elim (find_entry log ack.acked_message_id) [
  | none ↦ record log {
    pending_acks =
        put message_ids ack.acked_message_id
          (put uuids op_id ack (pending ack.acked_message_id log)) log.pending_acks;
  }
  | some e ↦ record log {
    entries = put message_ids ack.acked_message_id (absorb op_id ack e) log.entries;
  }
]

-- `predecessors[id] = op_id` of the entry under a key
pub add_predecessor :
    MessageId → MessageId → Uuid → List (MessageId × LogEntry) → List (MessageId × LogEntry)
add_predecessor key id op_id entries = elim (find message_ids key entries) [
  | none ↦ entries
  | some e ↦
      put message_ids key (record e { predecessors = put message_ids id op_id e.predecessors })
        entries
]

-- std::map's `insert` keeps an entry that is there.
pub emplace : LogEntry → List (MessageId × LogEntry) → List (MessageId × LogEntry)
emplace e entries = elim (find message_ids (message_id e.message) entries) [
  | none ↦ put message_ids (message_id e.message) e entries
  | some there ↦ entries
]

pub add_previous : MessageId → Uuid → List (MessageId × LogEntry) → List (MessageId × LogEntry)
add_previous id op_id entries = elim (get_predecessor id entries) [
  | none ↦ entries
  | some p ↦ add_predecessor id (message_id p.message) op_id entries
]

pub add_to_next : MessageId → Uuid → List (MessageId × LogEntry) → List (MessageId × LogEntry)
add_to_next id op_id entries = elim (behind id entries) [
  | none ↦ entries
  | some next ↦ add_predecessor next id op_id entries
]

-- The entry's own predecessors, and the entry as the predecessor of the next one.
pub set_up_predecessors :
    MessageId → Uuid → MessageId → Uuid → List (MessageId × LogEntry) → List (MessageId × LogEntry)
set_up_predecessors id op_id last_committed last_commit_op entries =
    add_to_next id op_id
      (add_previous id op_id (add_predecessor id last_committed last_commit_op entries))

pub apply_all : List (Uuid × AckData) → Log → Log
apply_all [] log = log
apply_all ((op_id, ack) ∷ rest) log = apply_all rest (apply_ack op_id ack log)

pub apply_pending : MessageId → Log → Log
apply_pending id log = elim (find message_ids id log.pending_acks) [
  | none ↦ log
  | some acks ↦
      apply_all acks (record log { pending_acks = remove message_ids id log.pending_acks })
]

-- The neighbors are moved out of the message into the acknowledgement.
pub move_out : LogMessage → LogMessage
move_out (fuse m) = fuse (record m { ack_data = record m.ack_data { neighbors = [] } })
move_out (user_data m) = user_data (record m { ack_data = record m.ack_data { neighbors = [] } })

pub apply_own : MessageId → LogEntry → Log → Log
apply_own id e log =
    apply_ack (original_poster e.message) (ack_data e.message) (elim (find_entry log id) [
      | none ↦ log
      | some there ↦ record log {
        entries =
            put message_ids id (record there { message = move_out there.message }) log.entries;
      }
    ])

pub insert_entry : LogEntry → Log → Log
insert_entry entry log =
    let id = message_id entry.message in
    let placed = emplace entry log.entries in
    if le id log.last_committed then log else elim (find message_ids id placed) [
      | none ↦ record log { entries = placed }
      | some e ↦ apply_own id e (
          apply_pending id (record log {
            entries =
                set_up_predecessors id (original_poster e.message) log.last_committed
                  log.last_commit_op placed;
          }))
    ]
