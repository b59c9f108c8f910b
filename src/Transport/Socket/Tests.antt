-- ===== src/Transport/Socket/Tests.antt =====
-- The results on include/club/socket.h at a packet of three messages.
use libclub.Prelude.{ℕ, ◌+◌, ◌≡◌, refl, false, [], ◌∷◌, ◌++◌, none, some, leb, length, All, arith}
use libclub.Binary.Decoder.{decoder, get_u8, get_u16, get_u32}
use libclub.Transport.AckSet.{is_in, try_add}
use libclub.Transport.AckSet.UpTo.{IsUpTo-try_add_first}
use libclub.Transport.Message.{
  sync, reliable, of_code, decode_message_type, decode_in_message_part, InMessagePart,
}
use libclub.Transport.Message.Send.{IsSendable, received_part, decode-chunk_bytes}
use libclub.Transport.PendingMessage.{PendingMessage, of_part}
use libclub.Transport.Socket.{
  Socket, Sync, parse_error, handle_error, handle_packet, handle_message, handle_sync_message,
  handle_reliable_message, replay_pending_messages, find, emplace,
}
use libclub.Transport.Socket.Honest.{view, Run, Rises, Holds}
use libclub.Transport.Socket.Reach.{
  Reach, begin, packet, received_part-IsPart, Carries-chunk_bytes, handed-Reach,
  handed_unreliable-Reach, is_in-Reach, handle_packet-Reach,
}
use libclub.Transport.Socket.Errors.{
  reads_all, handle_packet_unreadable, handle_reliable_message_late,
}
use libclub.Transport.Socket.Live.{Settled, replay_pending_messages_lem}
use libclub.Transport.Socket.Sample.{
  sent, counter, no_acks, new_socket, new_socket-Fresh, buffer, message, message-IsSendable,
  sync-IsSendable, chunk, packet_bytes, whole_packet,
}

-- After the sync message alone.
abbrev synced_part : InMessagePart
synced_part = received_part buffer (message sync 0)

abbrev synced_socket : Socket ℕ
synced_socket = record new_socket {
  received_message_ids = (try_add no_acks 0).1;
  sync_state = some (record { last_used_reliable_sn = 0; last_used_unreliable_sn = 0 });
}

synced-Reach : Reach counter sent sent 0 synced_socket
unfolding handle_packet handle_message handle_sync_message
synced-Reach =
    packet (begin new_socket new_socket-Fresh) (decoder (chunk (message sync 0) ++ [])) 1
      (Carries-chunk_bytes sent sent 0 buffer sync-IsSendable refl (omega arith) (refl, omega arith)
        [] 0 tt)
      (simp
        (
          handle_packet,
          decode-chunk_bytes buffer sync-IsSendable refl (omega arith) [],
          handle_message,
          handle_sync_message,
        )
        refl)

-- After the whole packet.
after_packet :
    (s' : Socket ℕ) × (handle_packet counter new_socket (decoder packet_bytes) 3 ≡ some s')
    × Reach counter sent sent 0 s'
after_packet =
    handle_packet-Reach counter sent sent 0 (begin new_socket new_socket-Fresh)
      (decoder packet_bytes) 3 whole_packet

handle_packet-Reach_example :
    (s' : Socket ℕ) × (handle_packet counter synced_socket (decoder packet_bytes) 3 ≡ some s')
    × Reach counter sent sent 0 s'
handle_packet-Reach_example =
    handle_packet-Reach counter sent sent 0 synced-Reach (decoder packet_bytes) 3 whole_packet

handed-Reach_example :
    (last : ℕ) × Run 0 after_packet.0.handed last
    × All (λ m. m.payload ≡ sent m.sequence_number) after_packet.0.handed
handed-Reach_example = handed-Reach counter sent sent 0 after_packet.2

handed_unreliable-Reach_example :
    (last : ℕ) × Rises 0 after_packet.0.handed_unreliable last
    × All (λ m. m.1 ≡ sent m.0) after_packet.0.handed_unreliable
handed_unreliable-Reach_example = handed_unreliable-Reach counter sent sent 0 after_packet.2

is_in-Reach_example :
    is_in synced_socket.received_message_ids 5 ≡ leb 5 (0 + length synced_socket.handed)
is_in-Reach_example = is_in-Reach counter sent sent 0 synced-Reach refl 5

-- The header of a message is cut off.
short_packet-reads_all : reads_all (decoder (3 ∷ 0 ∷ [])) 1 ≡ false
unfolding reads_all decode_in_message_part decode_message_type get_u32 get_u16 get_u8 of_code
short_packet-reads_all = refl

handle_packet_unreadable_example : (handle_error counter new_socket parse_error).is_open ≡ false
unfolding handle_packet decode_in_message_part decode_message_type get_u32 get_u16 get_u8 of_code
handle_packet_unreadable_example =
    handle_packet_unreadable counter new_socket (decoder (3 ∷ 0 ∷ [])) 1 short_packet-reads_all refl

synced_socket-Holds : Holds sent sent 0 (view synced_socket)
synced_socket-Holds = record {
  y = record { last_used_reliable_sn = 0; last_used_unreliable_sn = 0 };
  in_step = record {
    synced = refl;
    below = omega arith;
    acks = IsUpTo-try_add_first no_acks 0 refl (omega arith);
    order = refl;
    right = tt;
    rising = omega arith;
    right_unreliable = tt;
    pending_unreliable = tt;
  };
  entries = tt;
}

-- A reliable message under the number of the sync message.
abbrev late_part : InMessagePart
late_part = received_part buffer (message reliable 0)

late-IsSendable : IsSendable (message reliable 0)
unfolding of_code
late-IsSendable = message-IsSendable reliable 0 refl (omega arith) (omega arith)

nothing_pending : find synced_socket.pending_reliable_messages 0 ≡ none
unfolding find
nothing_pending = refl

handle_reliable_message_late_example :
    (pm : PendingMessage) × (of_part late_part ≡ some pm)
    × (handle_reliable_message counter synced_socket late_part
        ≡ some (record synced_socket { pending_reliable_messages = emplace 0 pm [] }))
    × (find (emplace 0 pm []) 0 ≡ some pm)
handle_reliable_message_late_example =
    handle_reliable_message_late counter sent sent 0 synced_socket late_part synced_socket-Holds
      (received_part-IsPart sent buffer late-IsSendable refl (omega arith)) (omega arith)
      nothing_pending

-- The next message is whole, the one behind it is not.
abbrev waiting : Socket ℕ
waiting = record synced_socket {
  pending_reliable_messages =
      (
        1,
        record {
          type = reliable;
          sequence_number = 1;
          size = 2;
          bytes = sent 1;
          part_info = (0, 2) ∷ [];
        },
      )
      ∷ (
        2,
        record {
          type = reliable;
          sequence_number = 2;
          size = 2;
          bytes = sent 2;
          part_info = (0, 1) ∷ [];
        },
      )
      ∷ [];
}

replay_pending_messages_lem_example :
    let s' = replay_pending_messages counter waiting in
    (y' : Sync) × (s'.sync_state ≡ some y')
    × All (Settled y'.last_used_reliable_sn) s'.pending_reliable_messages
replay_pending_messages_lem_example =
    replay_pending_messages_lem counter (λ u l. refl) waiting
      (record { last_used_reliable_sn = 0; last_used_unreliable_sn = 0 }) refl refl (omega arith)
      (omega arith, refl, omega arith, (omega arith, refl, omega arith, tt))
