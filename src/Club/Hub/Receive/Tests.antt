-- ===== src/Club/Hub/Receive/Tests.antt =====
-- The results on src/club/hub.cpp at a hub to which a second node comes.
use libclub.Prelude.{◌≡◌, true, [], ◌∷◌, ◌++◌, List, All}
use libclub.Club.MessageId.{Uuid, no_message}
use libclub.Club.Message.{AckData, fuse}
use libclub.Club.LogEntry.{LogEntry}
use libclub.Club.Log.{apply_ack}
use libclub.Club.Log.Valid.{apply_ack-IsValid}
use libclub.Club.Hub.{Hub, live_nodes_of, commit_what_was_seen_by_everyone}
use libclub.Club.Hub.Commit.{InOrder}
use libclub.Club.Hub.LastFuse.{agreed}
use libclub.Club.Hub.Acked.{commit_what_was_seen_by_everyone-agreed}
use libclub.Club.Hub.Receive.{Message, log_message, new_hub, on_recv, total_order_broadcast}
use libclub.Club.Hub.Receive.Reach.{Reach, begins, receives, sends, Reach-InOrder}

abbrev second_only : Hub → List Uuid
second_only h = 2 ∷ []

abbrev first_hub : Hub
first_hub = new_hub 1 second_only

abbrev fuse_message : Message
fuse_message = log_message (
    fuse (record {
      header = record {
        original_poster = 2;
        time_stamp = 1;
        config_id = no_message;
        visited = 2 ∷ [];
      };
      ack_data = record {
        acked_message_id = record { timestamp = 1; original_poster = 2 };
        prev_message_id = no_message;
        neighbors = 1 ∷ [];
      };
      with_node = 1;
    }))

abbrev fused : Hub
fused = on_recv 1 second_only fuse_message first_hub

fused-Reach : Reach 1 second_only fused
fused-Reach = receives fuse_message begins

Reach-InOrder_example : InOrder fused
Reach-InOrder_example = Reach-InOrder 1 second_only fused fused-Reach

-- The hub sends a message of its own, and the second node acknowledges it.
abbrev sent : Hub
sent = total_order_broadcast 1 second_only (104 ∷ []) fused

abbrev second_ack : AckData
second_ack = record {
  acked_message_id = record { timestamp = 3; original_poster = 1 };
  prev_message_id = record { timestamp = 1; original_poster = 2 };
  neighbors = 1 ∷ [];
}

abbrev acknowledged : Hub
acknowledged = record sent { log = apply_ack 2 second_ack sent.log }

commit_what_was_seen_by_everyone-agreed_example :
    (cs : List LogEntry) × ((commit_what_was_seen_by_everyone acknowledged).commits
      ≡ cs ++ acknowledged.commits)
    × All (λ (c : LogEntry). agreed (live_nodes_of acknowledged) c ≡ true) cs
commit_what_was_seen_by_everyone-agreed_example =
    commit_what_was_seen_by_everyone-agreed acknowledged (
      apply_ack-IsValid 2 second_ack sent.log
        (Reach-InOrder 1 second_only sent (sends (104 ∷ []) fused-Reach)).valid)
