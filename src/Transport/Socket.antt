-- ===== src/Transport/Socket.antt =====
-- include/club/socket.h, the receiving side of SocketImpl. The callbacks are the user's: what one
-- does to the socket, such as asking for the next message, is its reaction, a parameter. `none` is
-- a write outside a buffer, see `update_payload`.
pub mod Honest
pub mod Entries
pub mod Replay
pub mod Reliable
pub mod Unreliable
pub mod Receive
pub mod Reach
pub mod Errors
pub mod Live
mod Sample
mod Tests
use libclub.Prelude.{
  ℕ, zero, suc, ◌+◌, Bool, true, false, ◌&&◌, ◌||◌, not, List, [], ◌∷◌, ◌++◌, Option, none, some,
  ltb, leb, ◌==◌, if◌then◌else◌,
}
use libclub.Binary.Decoder
use libclub.Binary.Decoder.{Decoder}
use libclub.Transport.Word.{SequenceNumber, add32}
use libclub.Transport.AckSet.{AckSet, try_add, can_add}
use libclub.Transport.Message
use libclub.Transport.Message.{
  sync, keep_alive, unreliable, reliable, close, other, InMessagePart, InMessageFull, no_part,
  decode_in_message_part,
}
use libclub.Transport.PendingMessage
use libclub.Transport.PendingMessage.{PendingMessage, update_payload, of_part}

-- The errors that a callback is called with.
pub data Error : Type 0 where
  connection_reset parse_error timed_out : Error

pub record Sync : Type 0 where
  pub last_used_reliable_sn : SequenceNumber
  pub last_used_unreliable_sn : SequenceNumber

-- What a callback does to the socket: the user's own state after it, whether it asks for the next
-- message of each kind, and whether it closes the socket.
pub record Reaction (U : Type 0) : Type 0 where
  pub user : U
  pub receive_reliable : Bool
  pub receive_unreliable : Bool
  pub closes : Bool

pub record User (U : Type 0) : Type 0 where
  pub on_message : U → List ℕ → Reaction U
  pub on_error : U → Error → Reaction U

-- A callback is there or not; `handed` and `handed_unreliable` are the messages that callbacks were
-- called with so far, and the map of pending messages is in the order of its keys.
pub record Socket (U : Type 0) : Type 0 where
  pub user : U
  pub is_open : Bool
  pub on_receive_reliable : Bool
  pub on_receive_unreliable : Bool
  pub sync_state : Option Sync
  pub pending_reliable_messages : List (SequenceNumber × PendingMessage)
  pub pending_unreliable_message : Option PendingMessage
  pub received_message_ids : AckSet
  pub handed : List InMessageFull
  pub handed_unreliable : List (SequenceNumber × List ℕ)

infixl 5 ◌>>=◌
abbrev pub ◌>>=◌ : {A B : Type 0} → Option A → (A → Option B) → Option B
none >>= f = none
some a >>= f = f a

-- `find` and `emplace` of std::map
pub find : List (SequenceNumber × PendingMessage) → SequenceNumber → Option PendingMessage
find [] sn = none
find ((key, pm) ∷ rest) sn = let later = find rest sn in if key == sn then some pm else later

pub emplace :
    SequenceNumber
    → PendingMessage
    → List (SequenceNumber × PendingMessage)
    → List (SequenceNumber × PendingMessage)
emplace sn pm [] = (sn, pm) ∷ []
emplace sn pm ((key, old) ∷ rest) =
    let later = emplace sn pm rest in
    if ltb key sn
    then (key, old) ∷ later
    else if key == sn
    then (key, old) ∷ rest
    else (sn, pm) ∷ (key, old) ∷ rest

-- A write through the iterator that `find` returned.
pub replace :
    SequenceNumber
    → PendingMessage
    → List (SequenceNumber × PendingMessage)
    → List (SequenceNumber × PendingMessage)
replace sn pm [] = []
replace sn pm ((key, old) ∷ rest) =
    let later = replace sn pm rest in if key == sn then (key, pm) ∷ rest else (key, old) ∷ later

module _ {U : Type 0} (program : User U) where
  -- The callbacks that are moved out before the call are gone, unless the reaction sets them again.
  pub react : Socket U → Reaction U → Socket U
  react s r = record s {
    user = r.user;
    is_open = s.is_open && not r.closes;
    on_receive_reliable = s.on_receive_reliable || r.receive_reliable;
    on_receive_unreliable = s.on_receive_unreliable || r.receive_unreliable;
  }

  pub handle_error : Socket U → Error → Socket U
  handle_error s err =
      let closed = record s {
        is_open = false;
        on_receive_reliable = false;
        on_receive_unreliable = false;
      } in
      let s1 =
        if s.on_receive_unreliable
        then react closed (program.on_error closed.user err)
        else closed in
      if s.on_receive_reliable then react s1 (program.on_error s1.user err) else s1

  pub user_handle_reliable_msg : Socket U → InMessageFull → Bool × Socket U
  user_handle_reliable_msg s msg =
      let taken = record s { on_receive_reliable = false; handed = s.handed ++ (msg ∷ []) } in
      let s1 = react taken (program.on_message s.user msg.payload) in
      let used = λ (y : Sync). record y { last_used_reliable_sn = msg.sequence_number } in
      if s.on_receive_reliable
      then (
        true,
        record s1 {
          received_message_ids = (try_add s.received_message_ids msg.sequence_number).1;
          sync_state = elim s.sync_state [ none ↦ none | some y ↦ some (used y) ];
        },
      )
      else (false, s)

  -- `pm.sequence_number == _sync->last_used_reliable_sn + 1`
  pub is_next : Socket U → SequenceNumber → Bool
  is_next s sn = elim s.sync_state [ none ↦ false | some y ↦ sn == add32 y.last_used_reliable_sn 1 ]

  -- The loop of `replay_pending_messages`, with the entries that it has passed.
  pub replay :
      List (SequenceNumber × PendingMessage)
      → List (SequenceNumber × PendingMessage)
      → Socket U
      → Socket U
  replay passed [] s = record s { pending_reliable_messages = passed }
  replay passed ((key, pm) ∷ rest) s =
      let stop = record s { pending_reliable_messages = passed ++ ((key, pm) ∷ rest) } in
      let skip = replay (passed ++ ((key, pm) ∷ [])) rest s in
      elim (is_next s pm.sequence_number) [
        | false ↦ skip
        | true ↦ elim (PendingMessage.get_complete_message pm) [
          | none ↦ stop
          | some msg ↦ elim (user_handle_reliable_msg s msg).0 [
            | false ↦ stop
            | true ↦ replay passed rest (user_handle_reliable_msg s msg).1
          ]
        ]
      ]

  pub replay_pending_messages : Socket U → Socket U
  replay_pending_messages s = replay [] s.pending_reliable_messages s

  pub handle_sync_message : Socket U → InMessagePart → Socket U
  handle_sync_message s msg =
      let sn = msg.sequence_number in
      elim s.sync_state [
        | some y ↦ s
        | none ↦ record s {
          received_message_ids = (try_add s.received_message_ids sn).1;
          sync_state = some (record { last_used_reliable_sn = sn; last_used_unreliable_sn = sn });
        }
      ]

  -- The part of `handle_reliable_message` behind the message that is next and whole.
  pub store_reliable : Socket U → InMessagePart → Option (Socket U)
  store_reliable s msg =
      let sn = msg.sequence_number in
      let pms = s.pending_reliable_messages in
      elim (find pms sn) [
        | none ↦
            of_part msg >>= λ pm. some (record s { pending_reliable_messages = emplace sn pm pms })
        | some pm ↦ update_payload pm msg.chunk_start msg.payload >>= λ pm'.
            some (
              replay_pending_messages (record s { pending_reliable_messages = replace sn pm' pms }))
      ]

  pub handle_reliable_message : Socket U → InMessagePart → Option (Socket U)
  handle_reliable_message s msg = elim s.sync_state [
    | none ↦ some s
    | some y ↦
        if not (can_add s.received_message_ids msg.sequence_number)
        then some s
        else elim (is_next s msg.sequence_number) [
          | false ↦ store_reliable s msg
          | true ↦ elim (Message.get_complete_message msg) [
            | none ↦ store_reliable s msg
            | some full ↦
                let (done, s') = user_handle_reliable_msg s full in
                if done then some (replay_pending_messages s') else some s
          ]
        ]
  ]

  -- The call of the callback for an unreliable message, and what follows it.
  pub hand_unreliable : Socket U → Sync → SequenceNumber → List ℕ → Socket U
  hand_unreliable s y sn payload =
      let taken = record s {
        on_receive_unreliable = false;
        handed_unreliable = s.handed_unreliable ++ ((sn, payload) ∷ []);
      } in
      record (react taken (program.on_message s.user payload)) {
        sync_state = some (record y { last_used_unreliable_sn = sn });
        pending_unreliable_message = none;
      }

  -- The end of `handle_unreliable_message`, with the message that is pending.
  pub store_unreliable : Socket U → Sync → InMessagePart → PendingMessage → Option (Socket U)
  store_unreliable s y msg pm =
      let sn = msg.sequence_number in
      if ltb pm.sequence_number sn
      then (of_part msg >>= λ pm'. some (record s { pending_unreliable_message = some pm' }))
      else if ltb sn pm.sequence_number
      then some s
      else (update_payload pm msg.chunk_start msg.payload >>= λ pm'.
          if PendingMessage.is_complete pm'
          then some (hand_unreliable s y sn pm'.bytes)
          else some (record s { pending_unreliable_message = some pm' }))

  pub handle_unreliable_message : Socket U → InMessagePart → Option (Socket U)
  handle_unreliable_message s msg =
      let sn = msg.sequence_number in
      elim s.sync_state [
        | none ↦ some s
        | some y ↦
            if not s.on_receive_unreliable
            then some s
            else if leb sn y.last_used_unreliable_sn
            then some s
            else if Message.is_complete msg
            then some (hand_unreliable s y sn msg.payload)
            else elim s.pending_unreliable_message [
              | none ↦
                  of_part msg >>= λ pm. some (record s { pending_unreliable_message = some pm })
              | some pm ↦ store_unreliable s y msg pm
            ]
      ]

  pub handle_close_message : Socket U → Socket U
  handle_close_message s = handle_error (record s { is_open = false }) connection_reset

  pub handle_message : Socket U → InMessagePart → Option (Socket U)
  handle_message s msg = elim msg.type [
    | sync ↦ some (handle_sync_message s msg)
    | keep_alive ↦ some s
    | unreliable ↦ handle_unreliable_message s msg
    | reliable ↦ handle_reliable_message s msg
    | close ↦ some (handle_close_message s)
    | other n ↦ some (handle_error s parse_error)
  ]

  -- The loop of `on_receive` over the messages that the packet's header announces, with the
  -- decoder behind that header.
  pub handle_packet : Socket U → Decoder → ℕ → Option (Socket U)
  handle_packet s d zero = some s
  handle_packet s d (suc count) =
      let (msg, d') = Decoder.get no_part decode_in_message_part d in
      if d'.was_error
      then some (handle_error s parse_error)
      else (handle_message s msg >>= λ s'.
          let rest = handle_packet s' d' count in if not s'.is_open then some s' else rest)

  pub on_recv_timeout_alarm : Socket U → Socket U
  on_recv_timeout_alarm s = handle_error s timed_out

pub receive_reliable : {U : Type 0} → Socket U → Socket U
receive_reliable s = record s { on_receive_reliable = true }

pub receive_unreliable : {U : Type 0} → Socket U → Socket U
receive_unreliable s = record s { on_receive_unreliable = true }
