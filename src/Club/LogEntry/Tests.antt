-- ===== src/Club/LogEntry/Tests.antt =====
-- The results on src/club/log_entry.h at an entry that two of two nodes acknowledged.
use libclub.Prelude.{◌≡◌, ◌↔◌, refl, true, [], ◌∷◌}
use libclub.Generic.SortedSet.{holds}
use libclub.Club.MessageId.{Uuid, no_message}
use libclub.Club.MessageId.Orders.{uuids}
use libclub.Club.Message.{AckData, fuse}
use libclub.Club.LogEntry.{LogEntry, keys, acked_by_quorum}
use libclub.Club.LogEntry.Quorum.{acked_by_quorum_lem}

abbrev no_neighbors : AckData
no_neighbors = record {
  acked_message_id = no_message;
  prev_message_id = no_message;
  neighbors = [];
}

abbrev some_entry : LogEntry
some_entry = record {
  predecessors = [];
  message = fuse (record {
    header = record { original_poster = 3; time_stamp = 1; config_id = no_message; visited = [] };
    ack_data = no_neighbors;
    with_node = 5;
  });
  quorum = 3 ∷ 5 ∷ [];
  acks = (3, no_neighbors) ∷ (4, no_neighbors) ∷ (5, no_neighbors) ∷ [];
}

acked_by_quorum_lem_example : (acked_by_quorum some_entry ≡ true) ↔ (
    (q : Uuid)
    → holds uuids q some_entry.quorum ≡ true
    → holds uuids q (keys some_entry.acks) ≡ true)
acked_by_quorum_lem_example =
    acked_by_quorum_lem some_entry ((refl, (refl, tt)), ((refl, tt), (tt, tt)))
      ((refl, tt), (tt, tt))
