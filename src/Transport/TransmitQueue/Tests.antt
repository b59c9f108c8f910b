-- ===== src/Transport/TransmitQueue/Tests.antt =====
-- The results on include/club/transport/transmit_queue.h at a queue of two messages.
use libclub.Prelude.{ℕ, ◌≡◌, refl, true, false, List, [], ◌∷◌, ◌++◌, none, some, arith, replicate}
use libclub.Binary.Encoder.{Encoder, encoder}
use libclub.Transport.Message.{reliable, unreliable, OutMessage}
use libclub.Transport.TransmitQueue.{Entry, TransmitQueue, Call, encode_payload}
use libclub.Transport.TransmitQueue.Serve.{serve, encode_payload-serve}
use libclub.Transport.TransmitQueue.Account.{IsAccounted, encode_payload-IsAccounted}
use libclub.Transport.TransmitQueue.Reliable.{waiting, encode_payload-waiting}

abbrev first : OutMessage
first = record {
  resend_until_acked = true;
  bytes_already_sent = 0;
  header = record {
    type = reliable;
    sequence_number = 3;
    original_size = 2;
    start_position = 0;
    chunk_size = 2;
  };
  payload = 8 ∷ 9 ∷ [];
  is_dirty = false;
}

abbrev second : OutMessage
second = record {
  resend_until_acked = false;
  bytes_already_sent = 0;
  header = record {
    type = unreliable;
    sequence_number = 0;
    original_size = 1;
    start_position = 0;
    chunk_size = 1;
  };
  payload = 5 ∷ [];
  is_dirty = false;
}

abbrev queue : TransmitQueue
queue = record {
  bytes_in = 3;
  queue =
      record { last_sent_time = none; message = first }
      ∷ record { last_sent_time = none; message = second }
      ∷ [];
}

abbrev call : Call
call = record {
  acked = record { highest_sequence_number = 2; lowest_sequence_number = 1; bitmask = 3 };
  now = 1000;
  duration_threshold = 50;
}

abbrev buffer : Encoder
buffer = encoder (replicate 30 0)

queue-IsAccounted : IsAccounted queue
queue-IsAccounted = record { counted = refl; bounded = omega arith }

encode_payload-serve_example :
    let v = serve call queue.queue [] 3 buffer 0 in
    encode_payload call buffer queue
    ≡ some (v.encoder, record { bytes_in = v.bytes_in; queue = v.todo ++ v.done }, v.count)
encode_payload-serve_example = encode_payload-serve call buffer queue

encode_payload-waiting_example :
    (e' : Encoder) × (bytes_in : ℕ) × (todo : List Entry) × (done : List Entry) × (count : ℕ)
    × (encode_payload call buffer queue
        ≡ some (e', record { bytes_in = bytes_in; queue = todo ++ done }, count))
    × (waiting call (done ++ todo) ≡ waiting call queue.queue)
encode_payload-waiting_example = encode_payload-waiting call buffer queue

encode_payload-IsAccounted_example :
    (e' : Encoder) × (q' : TransmitQueue) × (count : ℕ) × (encode_payload call buffer queue
      ≡ some (e', q', count))
    × IsAccounted q'
encode_payload-IsAccounted_example = encode_payload-IsAccounted call buffer queue-IsAccounted
