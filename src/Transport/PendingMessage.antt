-- ===== src/Transport/PendingMessage.antt =====
-- include/club/transport/pending_message.h: a message that arrives in parts.
pub mod Whole
pub mod Assemble
pub mod Handed
pub mod Full
mod Tests
use libclub.Prelude.{
  ℕ, ◌+◌, ◌-◌, Bool, true, false, ◌&&◌, List, [], ◌∷◌, ◌++◌, Option, none, some, ltb, leb, ◌==◌,
  if◌then◌else◌, min, length, take, drop, replicate,
}
use libclub.Transport.Word.{SequenceNumber}
use libclub.Transport.PartInfo.{Info, add_part}
use libclub.Transport.Message.{MessageType, InMessagePart, InMessageFull}

-- `payload` is a view of the whole of `data`.
pub record PendingMessage : Type 0 where
  pub type : MessageType
  pub sequence_number : SequenceNumber
  pub size : ℕ
  pub bytes : List ℕ
  pub part_info : Info

-- `buffer_copy` into the bytes from `start` on.
abbrev pub overwrite : List ℕ → ℕ → List ℕ → List ℕ
overwrite bytes start chunk = take start bytes ++ (chunk ++ drop (start + length chunk) bytes)

-- `none` is a write outside `data`: where `start` lies behind its end, the size of the target,
-- `data.size() - start`, wraps around and bounds nothing.
pub update_payload : PendingMessage → ℕ → List ℕ → Option PendingMessage
update_payload pm start chunk =
    let size = length pm.bytes in
    let copied = min (size - start) (length chunk) in
    if ltb size start
    then (if length chunk == 0 then some pm else none)
    else some (record pm {
      bytes = overwrite pm.bytes start (take copied chunk);
      part_info = add_part start (start + copied) pm.part_info;
    })

-- The constructor from a part.
pub of_part : InMessagePart → Option PendingMessage
of_part m =
    update_payload
      (record {
        type = m.type;
        sequence_number = m.sequence_number;
        size = m.original_size;
        bytes = replicate m.original_size 0;
        part_info = [];
      })
      m.chunk_start m.payload

-- The constructor from a whole message.
pub of_full : InMessageFull → PendingMessage
of_full m = record {
  type = m.type;
  sequence_number = m.sequence_number;
  size = m.size;
  bytes = m.payload;
  part_info = add_part 0 (length m.payload) [];
}

-- `*part_info.begin()` is (0, size).
pub is_whole : Info → ℕ → Bool
is_whole [] size = false
is_whole ((first, second) ∷ rest) size = first == 0 && second == size

pub is_complete : PendingMessage → Bool
is_complete pm = is_whole pm.part_info pm.size

pub get_complete_message : PendingMessage → Option InMessageFull
get_complete_message pm =
    if is_complete pm
    then some (record {
      type = pm.type;
      sequence_number = pm.sequence_number;
      size = pm.size;
      payload = pm.bytes;
    })
    else none
