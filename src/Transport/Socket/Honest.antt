-- ===== src/Transport/Socket/Honest.antt =====
-- What include/club/socket.h holds while a peer sends it parts of its messages.
use libclub.Prelude.{
  ℕ, ◌+◌, ◌≤◌, ◌<◌, ◌≡◌, List, [], ◌∷◌, ◌++◌, Option, none, some, length, All, arith, ap, ◌∙◌,
  take_all,
}
use libclub.Transport.Word.{SequenceNumber, u32_mod}
use libclub.Transport.AckSet.{AckSet}
use libclub.Transport.AckSet.UpTo.{IsUpTo}
use libclub.Transport.Message.{InMessagePart, InMessageFull}
use libclub.Transport.PendingMessage.{PendingMessage}
use libclub.Transport.PendingMessage.Assemble.{Assembles, slice}
use libclub.Transport.Socket.{Socket, Sync}

-- The fields that the messages of the peer decide.
pub record View : Type 0 where
  pub sync_state : Option Sync
  pub pending_reliable_messages : List (SequenceNumber × PendingMessage)
  pub pending_unreliable_message : Option PendingMessage
  pub received_message_ids : AckSet
  pub handed : List InMessageFull
  pub handed_unreliable : List (SequenceNumber × List ℕ)

abbrev pub view : {U : Type 0} → Socket U → View
view s = record {
  sync_state = s.sync_state;
  pending_reliable_messages = s.pending_reliable_messages;
  pending_unreliable_message = s.pending_unreliable_message;
  received_message_ids = s.received_message_ids;
  handed = s.handed;
  handed_unreliable = s.handed_unreliable;
}

-- A part of the payload that `sent` gives to its number, as `encode` cuts it and `decode` reads it.
pub record IsPart (sent : ℕ → List ℕ) (msg : InMessagePart) : Type 0 where
  pub fits : msg.sequence_number + 33 < u32_mod
  pub size : msg.original_size ≡ length (sent msg.sequence_number)
  pub inside : msg.chunk_start ≤ length (sent msg.sequence_number)
  pub counted : msg.chunk_size ≡ length msg.payload
  pub piece : msg.payload ≡ slice (sent msg.sequence_number) msg.chunk_start msg.chunk_size

-- The part that is a whole message carries its payload.
pub whole_piece :
    {sent : ℕ → List ℕ} {msg : InMessagePart}
    → IsPart sent msg
    → msg.chunk_start ≡ 0
    → msg.original_size ≡ msg.chunk_size
    → msg.payload ≡ sent msg.sequence_number
whole_piece {sent} {msg} part start size =
    let all = sent msg.sequence_number in
    part.piece
    ∙ ap (λ k. slice all k msg.chunk_size) start
    ∙ take_all msg.chunk_size all (omega (arith, part.size, size))

-- The messages carry the numbers from the one behind `a` up to `b`, one after the other.
abbrev pub Run : ℕ → List InMessageFull → ℕ → Type 0
Run a [] b = a ≡ b
Run a (m ∷ ms) b = (m.sequence_number ≡ a + 1) × Run (a + 1) ms b

pub Run-append :
    (a : ℕ) (ms : List InMessageFull) (b : ℕ) (m : InMessageFull)
    → Run a ms b
    → m.sequence_number ≡ b + 1
    → Run a (ms ++ (m ∷ [])) (b + 1)
Run-append a [] b m r e = omega arith
Run-append a (x ∷ ms) b m r e = (r.0, Run-append (a + 1) ms b m r.1 e)

-- The numbers rise, from above `a` up to `b` at most.
abbrev pub Rises : ℕ → List (ℕ × List ℕ) → ℕ → Type 0
Rises a [] b = a ≤ b
Rises a ((sn, payload) ∷ l) b = (a < sn) × Rises sn l b

pub Rises-append :
    (a : ℕ) (l : List (ℕ × List ℕ)) (b sn : ℕ) (payload : List ℕ)
    → Rises a l b
    → b < sn
    → Rises a (l ++ ((sn, payload) ∷ [])) sn
Rises-append a [] b sn payload r h = omega arith
Rises-append a ((x, p) ∷ l) b sn payload r h = (r.0, Rises-append x l b sn payload r.1 h)

pub All-append {ℓ κ} :
    {A : Type ℓ} (P : A → Type κ) (xs ys : List A) → All P xs → All P ys → All P (xs ++ ys)
All-append P [] ys h k = k
All-append P (x ∷ xs) ys h k = (h.0, All-append P xs ys h.1 k)

-- A pending message holds, where it is covered, the bytes sent under its number.
pub record IsEntry (sent : ℕ → List ℕ) (entry : SequenceNumber × PendingMessage) : Type 0 where
  pub keyed : entry.1.sequence_number ≡ entry.0
  pub fits : entry.0 + 33 < u32_mod
  pub assembles : Assembles (sent entry.0) entry.1

abbrev pub IsPending : (ℕ → List ℕ) → Option PendingMessage → Type 0
IsPending sent none = Unit
IsPending sent (some pm) = Assembles (sent pm.sequence_number) pm

-- `reliable` and `unreliable` give the payloads sent under each number; the peer's sync message
-- carries the number `base`.
module _ (reliable unreliable : ℕ → List ℕ) (base : ℕ) where
  pub record InStep (v : View) (y : Sync) : Type 0 where
    pub synced : v.sync_state ≡ some y
    pub below : y.last_used_reliable_sn + 32 < u32_mod
    pub acks : IsUpTo y.last_used_reliable_sn v.received_message_ids
    pub order : Run base v.handed y.last_used_reliable_sn
    pub right : All (λ m. m.payload ≡ reliable m.sequence_number) v.handed
    pub rising : Rises base v.handed_unreliable y.last_used_unreliable_sn
    pub right_unreliable : All (λ m. m.1 ≡ unreliable m.0) v.handed_unreliable
    pub pending_unreliable : IsPending unreliable v.pending_unreliable_message

  -- The same with what is pending.
  pub record Holds (v : View) : Type 0 where
    pub y : Sync
    pub in_step : InStep v y
    pub entries : All (IsEntry reliable) v.pending_reliable_messages
