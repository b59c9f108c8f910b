-- ===== src/Club/Log/Tests.antt =====
-- The results on src/club/log.h at a message with two acknowledgements.
use libclub.Prelude.{◌≡◌, refl, [], ◌∷◌, some, true, false, All}
use libclub.Generic.SortedMap.{find}
use libclub.Club.MessageId.{MessageId, no_message, lt, le}
use libclub.Club.Message.{
  AckData, LogMessage, user_data, header, message_id, message_id_of, ack_data,
}
use libclub.Club.LogEntry.{LogEntry, keys, log_entry, original_poster}
use libclub.Club.Log.{Log, find_entry, apply_ack, insert_entry, get_predecessor_time}
use libclub.Club.Log.Valid.{insert_entry-IsValid}
use libclub.Club.Log.Predecessor.{get_predecessor_time_lem}
use libclub.Club.Log.Orderless.{SameAcks, insert_entry-apply_ack}

abbrev first_id : MessageId
first_id = record { timestamp = 1; original_poster = 7 }

abbrev ack_by_neighbors : AckData
ack_by_neighbors = record {
  acked_message_id = first_id;
  prev_message_id = no_message;
  neighbors = 7 ∷ 8 ∷ [];
}

abbrev some_message : LogMessage
some_message = user_data (record {
  header = record { original_poster = 7; time_stamp = 1; config_id = no_message; visited = 7 ∷ [] };
  ack_data = ack_by_neighbors;
  bytes = 104 ∷ [];
})

abbrev empty_log : Log
empty_log = record {
  entries = [];
  last_fuse_commit = no_message;
  last_committed = no_message;
  last_commit_op = 7;
  pending_acks = [];
}

insert_entry-apply_ack_example :
    (a : LogEntry) × (b : LogEntry) × (find_entry
        (insert_entry (log_entry some_message) (apply_ack 8 ack_by_neighbors empty_log))
        first_id
      ≡ some a)
    × (find_entry
          (apply_ack 8 ack_by_neighbors (insert_entry (log_entry some_message) empty_log))
          first_id
        ≡ some b)
    × SameAcks a b
unfolding find_entry lt le log_entry message_id message_id_of ack_data header original_poster find
insert_entry-apply_ack_example =
    insert_entry-apply_ack (log_entry some_message) 8 ack_by_neighbors empty_log refl refl refl tt
      refl refl refl

abbrev some_log : Log
some_log = insert_entry (log_entry some_message) empty_log

abbrev later_id : MessageId
later_id = record { timestamp = 5; original_poster = 2 }

get_predecessor_time_lem_example :
    (lt (get_predecessor_time later_id some_log.entries) later_id ≡ true)
    × All
        (λ k. lt k later_id ≡ true → lt (get_predecessor_time later_id some_log.entries) k ≡ false)
        (keys some_log.entries)
unfolding lt
get_predecessor_time_lem_example =
    get_predecessor_time_lem some_log later_id
      (insert_entry-IsValid (log_entry some_message) empty_log
        (record { proper = tt; ascend = tt }))
      refl
