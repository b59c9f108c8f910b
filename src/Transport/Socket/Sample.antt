-- ===== src/Transport/Socket/Sample.antt =====
-- A packet of three messages, and a socket of include/club/socket.h that receives it.
use libclub.Prelude.{
  ◌^◌, replicate, ℕ, suc, ◌≤◌, ◌<◌, ◌≡◌, refl, true, false, List, [], ◌∷◌, ◌++◌, none, arith,
}
use libclub.Binary.Encoder.{Encoder, encoder}
use libclub.Binary.Decoder.{decoder}
use libclub.Transport.AckSet.{AckSet}
use libclub.Transport.Message.{sync, unreliable, reliable, MessageType, of_code, code, OutMessage}
use libclub.Transport.Message.Wire.{chunk_bytes}
use libclub.Transport.Message.Send.{IsSendable, next_start, next_size}
use libclub.Transport.Socket.{Socket, User, Reaction}
use libclub.Transport.Socket.Honest.{view}
use libclub.Transport.Socket.Receive.{Fresh, Carries}
use libclub.Transport.Socket.Reach.{received_part-IsPart, Carries-chunk_bytes}

-- Every message is of two bytes; the user counts what it is called with, and asks for more.
abbrev pub sent : ℕ → List ℕ
sent n = 7 ∷ 8 ∷ []

abbrev pub again : ℕ → Reaction ℕ
again u = record {
  user = suc u;
  receive_reliable = true;
  receive_unreliable = true;
  closes = false;
}

abbrev pub counter : User ℕ
counter = record { on_message = λ u payload. again u; on_error = λ u e. again u }

abbrev pub no_acks : AckSet
no_acks = record { highest_sequence_number = 0; lowest_sequence_number = 0; bitmask = 0 }

abbrev pub new_socket : Socket ℕ
new_socket = record {
  user = 0;
  is_open = true;
  on_receive_reliable = true;
  on_receive_unreliable = true;
  sync_state = none;
  pending_reliable_messages = [];
  pending_unreliable_message = none;
  received_message_ids = no_acks;
  handed = [];
  handed_unreliable = [];
}

pub new_socket-Fresh : Fresh (view new_socket)
new_socket-Fresh = record {
  unsynced = refl;
  no_pending = refl;
  no_pending_unreliable = refl;
  no_acks = refl;
  none_handed = refl;
  none_handed_unreliable = refl;
}

abbrev pub buffer : Encoder
buffer = encoder (replicate 100 0)

abbrev pub message : MessageType → ℕ → OutMessage
message type sn = record {
  header = record {
    type = type;
    sequence_number = sn;
    original_size = 2;
    start_position = 0;
    chunk_size = 2;
  };
  resend_until_acked = true;
  payload = sent sn;
  bytes_already_sent = 0;
  is_dirty = false;
}

pub message-IsSendable :
    (type : MessageType) (sn : ℕ)
    → of_code (code type) ≡ type
    → code type ≤ 4
    → sn < 2 ^ 32
    → IsSendable (message type sn)
message-IsSendable type sn known small fits = record {
  fits = record {
    type_known = known;
    type_small = small;
    sn_small = fits;
    original_small = omega arith;
    start_small = omega arith;
    chunk_small = omega arith;
  };
  from_start = refl;
  whole_size = refl;
  sent_part = omega arith;
}

pub sync-IsSendable : IsSendable (message sync 0)
unfolding of_code
sync-IsSendable = message-IsSendable sync 0 refl (omega arith) (omega arith)

pub reliable-IsSendable : IsSendable (message reliable 1)
unfolding of_code
reliable-IsSendable = message-IsSendable reliable 1 refl (omega arith) (omega arith)

pub unreliable-IsSendable : IsSendable (message unreliable 1)
unfolding of_code
unreliable-IsSendable = message-IsSendable unreliable 1 refl (omega arith) (omega arith)

abbrev pub chunk : OutMessage → List ℕ
chunk m = chunk_bytes m (next_start m) (next_size buffer m)

abbrev pub packet_bytes : List ℕ
packet_bytes =
    chunk (message sync 0) ++ (chunk (message unreliable 1) ++ (chunk (message reliable 1) ++ []))

pub whole_packet : Carries sent sent 0 (decoder packet_bytes) 3
whole_packet =
    Carries-chunk_bytes sent sent 0 buffer sync-IsSendable refl (omega arith) (refl, omega arith) _
      2
      (Carries-chunk_bytes sent sent 0 buffer unreliable-IsSendable refl (omega arith)
        (received_part-IsPart sent buffer unreliable-IsSendable refl (omega arith)) _ 1
        (Carries-chunk_bytes sent sent 0 buffer reliable-IsSendable refl (omega arith)
          (received_part-IsPart sent buffer reliable-IsSendable refl (omega arith)) [] 0 tt))
