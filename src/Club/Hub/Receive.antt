-- ===== src/Club/Hub/Receive.antt =====
-- src/club/hub.cpp: what a hub does with a message that it receives, or sends itself. The id of the
-- hub is a parameter, and so are the neighbors that the nodes of the hub have.
pub mod Reach
mod Tests
use libclub.Prelude.{
  ℕ, ◌+◌, ◌%◌, ◌^◌, max, Bool, true, false, ◌&&◌, ◌||◌, not, List, [], ◌∷◌, Option, none, some,
  ◌==◌, if◌then◌else◌,
}
use libclub.Generic.SortedSet.{insert}
use libclub.Generic.SortedMap.{put}
use libclub.Club.MessageId.{lt, MessageId, Uuid, TimeStamp, no_message, le, ge}
use libclub.Club.MessageId.Orders.{uuids, message_ids}
use libclub.Club.Message.{
  Header, AckData, LogMessage, Fuse, UserData, Ack, PortOffer, fuse, user_data, message_id,
  message_id_of,
}
use libclub.Club.LogEntry.{log_entry, is_fuse}
use libclub.Club.Log.{Log, apply_ack, insert_entry, find_highest_fuse_entry, get_predecessor_time}
use libclub.Club.SeenMessages
use libclub.Club.SeenMessages.{is_in}
use libclub.Club.Graph.{Graph}
use libclub.Club.Hub.{Hub, commit_what_was_seen_by_everyone}

pub data Message : Type 0 where
  log_message : LogMessage → Message
  ack : Ack → Message
  port_offer : PortOffer → Message

abbrev pub header_of : Message → Header
header_of (log_message (fuse m)) = m.header
header_of (log_message (user_data m)) = m.header
header_of (ack m) = m.header
header_of (port_offer m) = m.header

pub add_log_entry : LogMessage → Hub → Hub
add_log_entry m h =
    if le (message_id m) h.log.last_committed && not (is_fuse m)
    then h
    else record h { log = insert_entry (log_entry m) h.log }

-- `_configs.rbegin()->first`
pub last_config_id : MessageId → List (MessageId × List Uuid) → MessageId
last_config_id found [] = found
last_config_id found ((id, config) ∷ rest) = last_config_id id rest

module _ (my_id : Uuid) (neighbors : Hub → List Uuid) where
  abbrev pub no_log : Log
  no_log = record {
    entries = [];
    last_fuse_commit = no_message;
    last_committed = no_message;
    last_commit_op = my_id;
    pending_acks = [];
  }

  -- A new hub, alone in its group.
  pub new_hub : Hub
  new_hub = record {
    log = no_log;
    configs = put message_ids (record { timestamp = 0; original_poster = my_id }) (my_id ∷ []) [];
    seen = [];
    nodes = insert uuids my_id [];
    graph = record { nodes = insert uuids my_id []; edges = [] };
    time_stamp = 0;
    events = [];
    commits = [];
  }

  -- `construct_ack` enters the acknowledgement that it makes.
  pub construct_ack : MessageId → Hub → Hub
  construct_ack id h = record h {
    time_stamp = (h.time_stamp + 1) % 2 ^ 32;
    log =
        apply_ack my_id
          (record {
            acked_message_id = id;
            prev_message_id = get_predecessor_time id h.log.entries;
            neighbors = neighbors h;
          })
          h.log;
  }

  pub construct_header : Hub → Header
  construct_header h = record {
    original_poster = my_id;
    time_stamp = (h.time_stamp + 1) % 2 ^ 32;
    config_id = last_config_id no_message h.configs;
    visited = my_id ∷ [];
  }

  -- The acknowledgement that `construct_ackable` puts into the message.
  pub own_ack_data : Hub → AckData
  own_ack_data h =
      let id = message_id_of (construct_header h) in
      record {
        acked_message_id = id;
        prev_message_id = get_predecessor_time id h.log.entries;
        neighbors = neighbors h;
      }

  abbrev pub tick : Hub → Hub
  tick h = record h { time_stamp = (h.time_stamp + 1) % 2 ^ 32 }

  -- The commit that it posts is a step of its own.
  pub total_order_broadcast : List ℕ → Hub → Hub
  total_order_broadcast bytes h =
      add_log_entry
        (user_data
          (record { header = construct_header h; ack_data = own_ack_data h; bytes = bytes }))
        (tick h)

  pub on_peer_disconnected : Uuid → Hub → Hub
  on_peer_disconnected id h = commit_what_was_seen_by_everyone (
      add_log_entry
        (fuse (record { header = construct_header h; ack_data = own_ack_data h; with_node = id }))
        (tick h))

  -- Whether a fuse message is acknowledged at once.
  pub acks_fuse : MessageId → Hub → Bool
  acks_fuse id h = elim (find_highest_fuse_entry h.log) [
    | none ↦ true
    | some e ↦ ge id (message_id e.message)
  ]

  pub process_fuse : LogMessage → Hub → Hub
  process_fuse m h =
      if acks_fuse (message_id m) h
      then commit_what_was_seen_by_everyone (construct_ack (message_id m) h)
      else h

  -- A port offer changes only the node that it comes from.
  pub process : Message → Hub → Hub
  process (log_message (fuse m)) h = process_fuse (fuse m) (add_log_entry (fuse m) h)
  process (log_message (user_data m)) h =
      add_log_entry (user_data m) (construct_ack (message_id (user_data m)) h)
  process (ack m) h = record h { log = apply_ack m.header.original_poster m.ack_data h.log }
  process (port_offer m) h = h

  -- `msg.header.visited.insert(_id)`
  abbrev pub visit_header : Header → Header
  visit_header header = record header { visited = insert uuids my_id header.visited }

  pub mark_visited : Message → Message
  mark_visited (log_message (fuse m)) =
      log_message (fuse (record m { header = visit_header m.header }))
  mark_visited (log_message (user_data m)) =
      log_message (user_data (record m { header = visit_header m.header }))
  mark_visited (ack m) = ack (record m { header = visit_header m.header })
  mark_visited (port_offer m) = port_offer (record m { header = visit_header m.header })

  pub on_recv : Message → Hub → Hub
  on_recv m h =
      let op_id = (header_of m).original_poster in
      let id = message_id_of (header_of m) in
      let entered = record h {
        seen = SeenMessages.insert h.seen id;
        time_stamp = max h.time_stamp (header_of m).time_stamp;
        nodes = insert uuids op_id h.nodes;
      } in
      if is_in h.seen id
      then h
      else if op_id == my_id
      then entered
      else commit_what_was_seen_by_everyone (process (mark_visited m) entered)
