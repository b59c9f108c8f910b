-- ===== src/Club/Hub/Tests.antt =====
-- The results on the commits of src/club/hub.cpp at a log with a message and a fuse.
use libclub.Prelude.{◌≡◌, refl, [], ◌∷◌}
use libclub.Generic.SortedSet.{holds}
use libclub.Club.MessageId.{MessageId, no_message, lt}
use libclub.Club.Message.{AckData, fuse, user_data, header, message_id, message_id_of}
use libclub.Club.LogEntry.{LogEntry}
use libclub.Club.Hub.{Hub, commit_what_was_seen_by_everyone}
use libclub.Club.Hub.Commit.{InOrder}
use libclub.Club.Hub.Progress.{Chain, Committable, commit_what_was_seen_by_everyone_all}

abbrev its_id : MessageId
its_id = record { timestamp = 2; original_poster = 1 }

abbrev its_ack : AckData
its_ack = record { acked_message_id = its_id; prev_message_id = no_message; neighbors = 1 ∷ 2 ∷ [] }

abbrev its_entry : LogEntry
its_entry = record {
  predecessors = (no_message, 1) ∷ [];
  message = user_data (record {
    header = record {
      original_poster = 1;
      time_stamp = 2;
      config_id = no_message;
      visited = 1 ∷ [];
    };
    ack_data = its_ack;
    bytes = 104 ∷ [];
  });
  quorum = 1 ∷ 2 ∷ [];
  acks = (1, its_ack) ∷ (2, its_ack) ∷ [];
}

abbrev fuse_id : MessageId
fuse_id = record { timestamp = 3; original_poster = 2 }

abbrev fuse_ack : AckData
fuse_ack = record { acked_message_id = fuse_id; prev_message_id = its_id; neighbors = 1 ∷ [] }

abbrev fuse_entry : LogEntry
fuse_entry = record {
  predecessors = (no_message, 1) ∷ (its_id, 2) ∷ [];
  message = fuse (record {
    header = record {
      original_poster = 2;
      time_stamp = 3;
      config_id = no_message;
      visited = 2 ∷ [];
    };
    ack_data = fuse_ack;
    with_node = 3;
  });
  quorum = 1 ∷ 2 ∷ [];
  acks = (1, fuse_ack) ∷ (2, fuse_ack) ∷ [];
}

abbrev pair_hub : Hub
pair_hub = record {
  log = record {
    entries = (its_id, its_entry) ∷ (fuse_id, fuse_entry) ∷ [];
    last_fuse_commit = no_message;
    last_committed = no_message;
    last_commit_op = 1;
    pending_acks = [];
  };
  configs = (no_message, 1 ∷ 2 ∷ []) ∷ [];
  seen = [];
  nodes = 1 ∷ 2 ∷ [];
  graph = record { nodes = []; edges = [] };
  time_stamp = 2;
  events = [];
  commits = [];
}

pair_hub-InOrder : InOrder pair_hub
unfolding lt message_id message_id_of header
pair_hub-InOrder = record {
  valid = record { proper = ((refl, refl), ((refl, refl), tt)); ascend = ((refl, tt), (tt, tt)) };
  falls = tt;
  none_above = tt;
}

its_entry-Committable : Committable no_message its_entry
unfolding holds
its_entry-Committable = record {
  acks_ascend = ((refl, tt), (tt, tt));
  quorum_ascends = ((refl, tt), (tt, tt));
  acked = λ q k. k;
  follows = refl;
}

fuse_entry-Committable : Committable its_id fuse_entry
unfolding holds
fuse_entry-Committable = record {
  acks_ascend = ((refl, tt), (tt, tt));
  quorum_ascends = ((refl, tt), (tt, tt));
  acked = λ q k. k;
  follows = refl;
}

pair_hub-Chain : Chain no_message pair_hub.log.entries
pair_hub-Chain = (its_entry-Committable, (fuse_entry-Committable, tt))

commit_what_was_seen_by_everyone_all_example :
    ((commit_what_was_seen_by_everyone pair_hub).log.entries ≡ [])
    × ((commit_what_was_seen_by_everyone pair_hub).commits ≡ fuse_entry ∷ its_entry ∷ [])
unfolding lt message_id message_id_of header
commit_what_was_seen_by_everyone_all_example =
    commit_what_was_seen_by_everyone_all pair_hub pair_hub-InOrder pair_hub-Chain
