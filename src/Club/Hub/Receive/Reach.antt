-- ===== src/Club/Hub/Receive/Reach.antt =====
-- src/club/hub.cpp: the order of the commits in all the states that a hub comes to.
use mathlib.Core.Path.{subst}
use libclub.Prelude.{sym, ℕ, ◌≡◌, refl, ◌&&◌, not, List, ◌==◌, Bool-cases, inl, inr}
use libclub.Club.MessageId.{MessageId, Uuid, le}
use libclub.Club.Message.{LogMessage, fuse, user_data, message_id, message_id_of}
use libclub.Club.LogEntry.{log_entry, is_fuse}
use libclub.Club.Log.Valid.{IsValid, apply_ack-IsValid, insert_entry-IsValid}
use libclub.Club.Log.Committed.{committed-apply_ack, committed-insert_entry}
use libclub.Club.SeenMessages.{is_in}
use libclub.Club.Hub.{Hub, commit_what_was_seen_by_everyone}
use libclub.Club.Hub.Commit.{InOrder, Falls, NoneAbove, commit_what_was_seen_by_everyone-InOrder}
use libclub.Club.Hub.Receive.{
  Message, log_message, ack, port_offer, header_of, add_log_entry, new_hub, construct_ack,
  total_order_broadcast, on_peer_disconnected, acks_fuse, process_fuse, process, on_recv,
}

-- A log that is valid, with nothing else committed.
with_log :
    (h h' : Hub)
    → IsValid h'.log
    → h'.log.last_committed ≡ h.log.last_committed
    → h'.commits ≡ h.commits
    → InOrder h
    → InOrder h'
with_log h h' v k c i = record {
  valid = v;
  falls = subst Falls (sym c) i.falls;
  none_above =
      subst (λ z. NoneAbove z h'.commits) (sym k)
        (subst (NoneAbove h.log.last_committed) (sym c) i.none_above);
}

add_log_entry-InOrder : (m : LogMessage) (h : Hub) → InOrder h → InOrder (add_log_entry m h)
unfolding add_log_entry
add_log_entry-InOrder m h i =
    elim (Bool-cases (le (message_id m) h.log.last_committed && not (is_fuse m))) [
      | inl y ↦ rw (add_log_entry, y) i
      | inr n ↦
          rw (add_log_entry, n)
            (with_log h _ (insert_entry-IsValid (log_entry m) h.log i.valid)
              (committed-insert_entry (log_entry m) h.log) refl i)
    ]

module _ (my_id : Uuid) (neighbors : Hub → List Uuid) where
  construct_ack-InOrder :
      (id : MessageId) (h : Hub) → InOrder h → InOrder (construct_ack my_id neighbors id h)
  unfolding construct_ack
  construct_ack-InOrder id h i =
      with_log h _ (apply_ack-IsValid my_id _ h.log i.valid) (committed-apply_ack my_id _ h.log)
        refl i

  process_fuse-InOrder :
      (m : LogMessage) (h : Hub) → InOrder h → InOrder (process_fuse my_id neighbors m h)
  unfolding process_fuse
  process_fuse-InOrder m h i = elim (Bool-cases (acks_fuse my_id neighbors (message_id m) h)) [
    | inl y ↦
        rw (process_fuse, y)
          (commit_what_was_seen_by_everyone-InOrder _ (construct_ack-InOrder (message_id m) h i))
    | inr n ↦ rw (process_fuse, n) i
  ]

  process-InOrder : (m : Message) (h : Hub) → InOrder h → InOrder (process my_id neighbors m h)
  unfolding process
  process-InOrder (log_message (fuse m)) h i =
      process_fuse-InOrder (fuse m) _ (add_log_entry-InOrder (fuse m) h i)
  process-InOrder (log_message (user_data m)) h i =
      add_log_entry-InOrder (user_data m) _ (construct_ack-InOrder _ h i)
  process-InOrder (ack m) h i =
      with_log h _ (apply_ack-IsValid _ m.ack_data h.log i.valid)
        (committed-apply_ack _ m.ack_data h.log) refl i
  process-InOrder (port_offer m) h i = i

  on_recv-InOrder : (m : Message) (h : Hub) → InOrder h → InOrder (on_recv my_id neighbors m h)
  unfolding on_recv
  on_recv-InOrder m h i = elim (Bool-cases (is_in h.seen (message_id_of (header_of m)))) [
    | inl y ↦ rw (on_recv, y) i
    | inr n ↦ elim (Bool-cases ((header_of m).original_poster == my_id)) [
      | inl y ↦ rw (on_recv, n, y) (with_log h _ i.valid refl refl i)
      | inr o ↦
          rw (on_recv, n, o)
            (commit_what_was_seen_by_everyone-InOrder _
              (process-InOrder _ _ (with_log h _ i.valid refl refl i)))
    ]
  ]

  -- The states that a hub comes to: it receives messages, in any order, sends some of its own, loses
  -- peers, and commits.
  pub data Reach : Hub → Type 0 where
    begins : Reach (new_hub my_id neighbors)
    receives : {h : Hub} (m : Message) → Reach h → Reach (on_recv my_id neighbors m h)
    sends :
        {h : Hub} (bytes : List ℕ) → Reach h → Reach (total_order_broadcast my_id neighbors bytes h)
    loses : {h : Hub} (id : Uuid) → Reach h → Reach (on_peer_disconnected my_id neighbors id h)
    commits : {h : Hub} → Reach h → Reach (commit_what_was_seen_by_everyone h)

  new_hub-InOrder : InOrder (new_hub my_id neighbors)
  unfolding new_hub
  new_hub-InOrder = record {
    valid = record { proper = tt; ascend = tt };
    falls = tt;
    none_above = tt;
  }

  -- In every state that a new hub comes to by receiving any messages in any order, sending
  -- messages, losing peers and committing, the messages were committed in rising order of their
  -- ids, none of them lies above the last committed id, and the log holds, in the order of their
  -- ids, messages above it only, each under its own id.
  pub Reach-InOrder : (h : Hub) → Reach h → InOrder h
  unfolding total_order_broadcast on_peer_disconnected
  Reach-InOrder _ begins = new_hub-InOrder
  Reach-InOrder _ (receives {h} m r) = on_recv-InOrder m h (Reach-InOrder h r)
  Reach-InOrder _ (sends {h} bytes r) =
      let i = Reach-InOrder h r in add_log_entry-InOrder _ _ (with_log h _ i.valid refl refl i)
  Reach-InOrder _ (loses {h} id r) =
      let i = Reach-InOrder h r in
      commit_what_was_seen_by_everyone-InOrder _
        (add_log_entry-InOrder _ _ (with_log h _ i.valid refl refl i))
  Reach-InOrder _ (commits {h} r) = commit_what_was_seen_by_everyone-InOrder h (Reach-InOrder h r)
