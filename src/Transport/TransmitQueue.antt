-- ===== src/Transport/TransmitQueue.antt =====
-- include/club/transport/transmit_queue.h: the messages that wait to be sent, or to be acknowledged.
-- A time is the number of ticks of the clock, and `last > now - threshold` is written without a
-- difference.
pub mod Serve
pub mod Steps
pub mod Account
pub mod Reliable
mod Tests
use libclub.Prelude.{
  ℕ, zero, suc, ◌+◌, ◌-◌, ◌%◌, ◌^◌, ◌*◌, Bool, true, false, ◌&&◌, not, List, [], ◌∷◌, Option, none,
  some, ltb, ◌==◌, if◌then◌else◌, min, length,
}
use libclub.Binary.Encoder.{Encoder, remaining_size}
use libclub.Generic.CyclicQueue
use libclub.Generic.CyclicQueue.{Cursor}
use libclub.Transport.AckSet.{AckSet, is_in}
use libclub.Transport.Message.{OutMessage, payload_size, fully_sent, header_size, put_out_message}

pub record Entry : Type 0 where
  pub last_sent_time : Option ℕ
  pub message : OutMessage

pub record TransmitQueue : Type 0 where
  pub bytes_in : ℕ
  pub queue : List Entry

-- size_t arithmetic
abbrev pub add64 : ℕ → ℕ → ℕ
add64 a b = (a + b) % 2 ^ 64

abbrev pub sub64 : ℕ → ℕ → ℕ
sub64 a b = (a + 2 ^ 64 - b) % 2 ^ 64

pub insert : TransmitQueue → OutMessage → TransmitQueue
insert q m = record {
  bytes_in = add64 q.bytes_in m.header.original_size;
  queue = CyclicQueue.insert q.queue (record { last_sent_time = none; message = m });
}

abbrev pub size_in_bytes : TransmitQueue → ℕ
size_in_bytes q = q.bytes_in

-- The result is whether the entry was encoded, the encoder and the entry.
pub try_encode : Encoder → Entry → Bool × Encoder × Entry
try_encode encoder entry =
    let minimal_encoded_size = header_size + min 1 (payload_size entry.message) in
    let (encoder', m) = put_out_message encoder entry.message in
    if ltb (remaining_size encoder) minimal_encoded_size
    then (false, encoder, entry)
    else (true, encoder', record entry { message = m })

-- What is fixed during a call of `encode_payload`.
pub record Call : Type 0 where
  pub acked : AckSet
  pub now : ℕ
  pub duration_threshold : ℕ

-- `resend_until_acked && acked.is_in(sequence_number)`
pub is_acked : Call → Entry → Bool
is_acked call entry =
    entry.message.resend_until_acked && is_in call.acked entry.message.header.sequence_number

-- `last_sent_time && *last_sent_time > time_threshold`
pub sent_lately : Call → Entry → Bool
sent_lately call entry = elim entry.last_sent_time [
  | none ↦ false
  | some last ↦ ltb call.now (last + call.duration_threshold)
]

-- The entry with the time at which the whole of its message was sent.
pub stamp : Call → Entry → Entry
stamp call entry =
    if fully_sent entry.message then record entry { last_sent_time = some call.now } else entry

-- What one round of the loop does with an entry.
pub data Verdict : Type 0 where
  -- The entry is erased, or left behind, before anything is encoded.
  drop_acked skip_recent : Verdict
  -- The encoder is full: the loop breaks before, or after, a part of the message was encoded.
  no_room : Verdict
  partly_sent : Encoder → Entry → Verdict
  -- The rest of the message was encoded: the entry is erased, or kept to be sent again.
  sent_once : Encoder → Entry → Verdict
  sent_kept : Encoder → Entry → Verdict

pub examine : Call → Encoder → Entry → Verdict
examine call encoder entry =
    let (encoded, encoder', sent) = try_encode encoder entry in
    let entry' = stamp call sent in
    if is_acked call entry
    then drop_acked
    else if sent_lately call entry
    then skip_recent
    else if not encoded
    then no_room
    else if not (fully_sent entry'.message)
    then partly_sent encoder' entry'
    else if not entry'.message.resend_until_acked
    then sent_once encoder' entry'
    else sent_kept encoder' entry'

-- The variables of the loop.
pub record Loop : Type 0 where
  pub bytes_in : ℕ
  pub encoder : Encoder
  pub cursor : Cursor Entry
  pub count : ℕ

-- One round, and whether the loop goes on.
pub round : Loop → Entry → Verdict → Loop × Bool
round s entry drop_acked = (
  record s {
    bytes_in = sub64 s.bytes_in (payload_size entry.message);
    cursor = CyclicQueue.erase s.cursor;
  },
  true,
)
round s entry skip_recent = (record s { cursor = CyclicQueue.advance s.cursor }, true)
round s entry no_room = (s, false)
round s entry (partly_sent encoder entry') = (
  record s { encoder = encoder; cursor = CyclicQueue.assign s.cursor entry'; count = s.count + 1 },
  false,
)
round s entry (sent_once encoder entry') = (
  record s {
    bytes_in = sub64 s.bytes_in (payload_size entry'.message);
    encoder = encoder;
    cursor = CyclicQueue.erase (CyclicQueue.assign s.cursor entry');
    count = s.count + 1;
  },
  true,
)
round s entry (sent_kept encoder entry') = (
  record s {
    encoder = encoder;
    cursor = CyclicQueue.advance (CyclicQueue.assign s.cursor entry');
    count = s.count + 1;
  },
  true,
)

-- The loop of `encode_payload`, for a bounded number of rounds; `none` if they do not suffice.
pub loop : Call → ℕ → Loop → Option Loop
loop call zero s = none
loop call (suc fuel) s = elim (CyclicQueue.at_end s.cursor) [
  | true ↦ some s
  | false ↦ elim (CyclicQueue.current s.cursor) [
    | none ↦ none
    | some entry ↦
        let (s', more) = round s entry (examine call s.encoder entry) in
        let rest = loop call fuel s' in if more then rest else some s'
  ]
]

-- The encoder, the queue and the returned count.
pub encode_payload : Call → Encoder → TransmitQueue → Option (Encoder × TransmitQueue × ℕ)
encode_payload call encoder q =
    elim (loop call (suc (length q.queue)) (record {
      bytes_in = q.bytes_in;
      encoder = encoder;
      cursor = CyclicQueue.begin q.queue;
      count = 0;
    })) [
      | none ↦ none
      | some s ↦
          some (s.encoder, record { bytes_in = s.bytes_in; queue = s.cursor.messages }, s.count)
    ]
