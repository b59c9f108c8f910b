-- ===== src/Club/Hub.antt =====
-- src/club/hub.cpp: when a member of the group commits which of the messages of its log. What a
-- callback of the user is called with is a list of the state; a callback does not call the hub.
pub mod Effects
pub mod Commit
pub mod Receive
mod Tests
pub mod LastFuse
pub mod Acked
pub mod Progress
use libclub.Prelude.{
  ℕ, Bool, true, false, ◌&&◌, ◌||◌, not, List, [], ◌∷◌, Option, none, some, if◌then◌else◌,
}
use libclub.Generic.SortedSet.{Order, insert, erase, holds}
use libclub.Generic.SortedMap.{find, put, remove}
use libclub.Club.MessageId.{MessageId, Uuid, TimeStamp, no_message, lt, eq, ne}
use libclub.Club.MessageId.Orders.{uuids, message_ids}
use libclub.Club.Message.{Header, AckData, LogMessage, fuse, user_data, header, message_id}
use libclub.Club.LogEntry.{LogEntry, original_poster, is_fuse, acked_by_quorum, acked_by_alive}
use libclub.Club.Log.{Log}
use libclub.Club.Graph.{Graph, add_edge}
use libclub.Club.SeenMessages.{SeenMessages, seen_everything_up_to, forget_messages_from_user}

-- What the callbacks of the user are called with.
pub data Event : Type 0 where
  on_receive : Uuid → List ℕ → Event
  on_insert on_remove : List Uuid → Event

-- `nodes` are the keys of `_nodes`, `graph` is what the routing table was last calculated of. The
-- events and the entries that `commit` was called with stand with the last one first.
pub record Hub : Type 0 where
  pub log : Log
  pub configs : List (MessageId × List Uuid)
  pub seen : SeenMessages
  pub nodes : List Uuid
  pub graph : Graph Uuid
  pub time_stamp : TimeStamp
  pub events : List Event
  pub commits : List LogEntry

-- `_configs.rbegin()->second`; the map is never empty.
pub last_config : List Uuid → List (MessageId × List Uuid) → List Uuid
last_config found [] = found
last_config found ((id, config) ∷ rest) = last_config config rest

pub add_neighbors : Uuid → List Uuid → Graph Uuid → Graph Uuid
add_neighbors id [] g = g
add_neighbors id (peer ∷ rest) g = add_neighbors id rest (add_edge uuids id peer g)

pub acks_to_graph : List (Uuid × AckData) → Graph Uuid → Graph Uuid
acks_to_graph [] g = g
acks_to_graph ((id, ack) ∷ rest) g =
    acks_to_graph rest
      (add_neighbors id ack.neighbors (record g { nodes = insert uuids id g.nodes }))

-- std::set_difference
pub set_difference : List Uuid → List Uuid → List Uuid
set_difference [] to = []
set_difference (x ∷ from) to =
    let later = set_difference from to in if holds uuids x to then later else x ∷ later

-- The nodes of the old configuration that are not in the new one.
pub forget_nodes : List Uuid → Hub → Hub
forget_nodes [] h = h
forget_nodes (id ∷ rest) h =
    forget_nodes rest
      (record h { seen = forget_messages_from_user h.seen id; nodes = erase uuids id h.nodes })

abbrev pub call_unless_empty : List Uuid → Event → Hub → Hub
call_unless_empty [] event h = h
call_unless_empty (id ∷ rest) event h = record h { events = event ∷ h.events }

-- `emplace` keeps a configuration that is there.
pub emplace_config : MessageId → List Uuid → Hub → Hub
emplace_config id quorum h = elim (find message_ids id h.configs) [
  | none ↦ record h { configs = put message_ids id quorum h.configs }
  | some there ↦ h
]

pub on_commit_fuse : LogEntry → Hub → Hub
on_commit_fuse entry h =
    let prev_quorum = last_config [] h.configs in
    let removed = set_difference prev_quorum entry.quorum in
    let added = set_difference entry.quorum prev_quorum in
    if acked_by_quorum entry
    then call_unless_empty removed (on_remove removed) (
        call_unless_empty added (on_insert added) (
          forget_nodes removed (
            emplace_config (message_id entry.message) entry.quorum
              (record h { graph = acks_to_graph entry.acks (record { nodes = []; edges = [] }) }))))
    else h

pub commit_user_data : Uuid → List ℕ → Hub → Hub
commit_user_data op bytes h =
    if holds uuids op h.nodes then record h { events = on_receive op bytes ∷ h.events } else h

pub call_commit : LogEntry → Hub → Hub
call_commit entry h = elim entry.message [
  | fuse m ↦ on_commit_fuse entry h
  | user_data m ↦ commit_user_data m.header.original_poster m.bytes h
]

abbrev pub commit : LogEntry → Hub → Hub
commit entry h = call_commit entry (record h { commits = entry ∷ h.commits })

pub data Verdict : Type 0 where
  stop drop commit_it : Verdict

-- The tests of an entry, with the live nodes and the last fuse that can be committed.
pub examine : List Uuid → Option (MessageId × LogEntry) → LogEntry → Verdict
examine live_nodes last_fuse e =
    if is_fuse e.message
    then elim last_fuse [
      | none ↦ stop
      | some (key, f) ↦
          if lt (message_id e.message) (message_id f.message)
          then if acked_by_alive e.acks live_nodes e.quorum then commit_it else drop
          else if ne (message_id e.message) (message_id f.message)
          then stop
          else commit_it
    ]
    else if acked_by_alive e.acks live_nodes e.quorum
    then commit_it
    else stop

-- The loop over the predecessors from the last one on: where it breaks off.
pub predecessor_of :
    MessageId → Bool → Option MessageId → List (MessageId × Uuid) → Option MessageId
predecessor_of last_committed config_known found [] = found
predecessor_of last_committed config_known found ((id, op) ∷ rest) =
    predecessor_of last_committed config_known
      (if eq id last_committed || config_known then some id else found) rest

pub knows : List (MessageId × List Uuid) → MessageId → Bool
knows configs id = elim (find message_ids id configs) [ none ↦ false | some config ↦ true ]

pub waits_for_predecessor : Hub → LogEntry → Bool
waits_for_predecessor h e =
    elim (predecessor_of h.log.last_committed (knows h.configs (header e.message).config_id) none
      e.predecessors) [
        | none ↦ false
        | some id ↦ not (eq id h.log.last_committed) && lt h.log.last_fuse_commit id
      ]

-- The entry leaves the log.
abbrev pub take_out : MessageId → LogEntry → Log → Log
take_out key e log = record log {
  last_committed = message_id e.message;
  last_commit_op = original_poster e.message;
  entries = remove message_ids key log.entries;
}

pub drop_entry : MessageId → LogEntry → Hub → Hub
drop_entry key e h = record h { log = take_out key e h.log }

pub commit_entry : MessageId → LogEntry → Hub → Hub
commit_entry key e h =
    let id = message_id e.message in
    commit e (record h {
      seen = seen_everything_up_to h.seen id;
      log = record (take_out key e h.log) {
        last_fuse_commit = if is_fuse e.message then id else h.log.last_fuse_commit;
      };
    })

abbrev pub unless_it : MessageId → Option (MessageId × LogEntry) → Option (MessageId × LogEntry)
unless_it key none = none
unless_it key (some (k, f)) = if eq key k then none else some (k, f)

-- The loop over the log.
pub commit_loop :
    List Uuid → Option (MessageId × LogEntry) → List (MessageId × LogEntry) → Hub → Hub
commit_loop live_nodes last_fuse [] h = h
commit_loop live_nodes last_fuse ((key, e) ∷ rest) h =
    let dropped = commit_loop live_nodes last_fuse rest (drop_entry key e h) in
    let committed = commit_loop live_nodes (unless_it key last_fuse) rest (commit_entry key e h) in
    elim (examine live_nodes last_fuse e) [
      | stop ↦ h
      | drop ↦ dropped
      | commit_it ↦ if waits_for_predecessor h e then h else committed
    ]

-- The last fuse that each node of its quorum acknowledged.
pub last_committable_fuse :
    Option (MessageId × LogEntry) → List (MessageId × LogEntry) → Option (MessageId × LogEntry)
last_committable_fuse found [] = found
last_committable_fuse found ((key, e) ∷ rest) =
    last_committable_fuse (if is_fuse e.message && acked_by_quorum e then some (key, e) else found)
      rest

pub live_nodes_of : Hub → List Uuid
live_nodes_of h = elim (last_committable_fuse none h.log.entries) [
  | none ↦ last_config [] h.configs
  | some (key, f) ↦ f.quorum
]

pub commit_what_was_seen_by_everyone : Hub → Hub
commit_what_was_seen_by_everyone h =
    commit_loop (live_nodes_of h) (last_committable_fuse none h.log.entries) h.log.entries h
